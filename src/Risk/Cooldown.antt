-- ===== src/Risk/Cooldown.antt =====
-- A burst of fills on one side in risk/kernel.py keeps `evaluate` from that side for the cooldown.
use Prim.Native.Nat.{◌≤◌}
use ghost_amm.Base.{
  ◌≡◌, Bool, true, false, Option, none, some, String, List, [], ◌∷◌, ◌++◌, All, arith, inl, inr,
  Bool-cases,
}
use ghost_amm.Num.{Num, ltb, ◌+◌}
use ghost_amm.Exchange.BitbankRules.{Side, buy, sell}
use ghost_amm.Risk.Kernel.{
  RiskKernel, record_fill, record_fair, record_burst, expire_history, count_side,
}
use ghost_amm.Risk.Evaluate.{
  RiskInput, evaluate, evaluate_at, evaluate_unblocked, market_block, settle,
}
use ghost_amm.Risk.Checks.{last_trade_deviation_too_large, pop_cooldowns, expire_changes}
use ghost_amm.Risk.Evaluate.Sides.{evaluate-buy, evaluate-sell}

module _ {F : Type 0} ⦃n : Num F⦄ where
  -- The limit is on, and with the fill at this time it is reached within the window.
  pub record IsBurst (k : RiskKernel F) (side : Side) (ts : F) : Type 0 where
    pub limited : 1 ≤ k.config.max_same_side_fills_per_window
    pub reached :
        k.config.max_same_side_fills_per_window
        ≤ count_side side
            (expire_history k.config.fill_burst_window_ms ts (k.fill_history ++ (ts, side) ∷ []))

  record_fill_cools :
      (k : RiskKernel F) (ts : F) (price amount : Option F)
      → IsBurst k buy ts
      → (record_fill k buy ts price amount).fill_burst_cooldown_until.on_buy
        ≡ some (ts + k.config.fill_burst_cooldown_ms)
  unfolding record_fill record_burst
  record_fill_cools k ts price amount b = ground arith

  record_fill_cools_sell :
      (k : RiskKernel F) (ts : F) (price amount : Option F)
      → IsBurst k sell ts
      → (record_fill k sell ts price amount).fill_burst_cooldown_until.on_sell
        ≡ some (ts + k.config.fill_burst_cooldown_ms)
  unfolding record_fill record_burst
  record_fill_cools_sell k ts price amount b = ground arith

  settle-CoolsUntil :
      (k : RiskKernel F) (i : RiskInput F) (fair until : F)
      → k.fill_burst_cooldown_until.on_buy ≡ some until
      → ltb i.now_ms until ≡ true
      → (settle k i fair).fill_burst_cooldown_until.on_buy ≡ some until
  unfolding settle pop_cooldowns record_fair expire_changes
  settle-CoolsUntil k i fair until cools early = ground arith

  evaluate_unblocked-CoolsUntil :
      (k : RiskKernel F) (i : RiskInput F) (fair until : F) (reason : Option String)
      → k.fill_burst_cooldown_until.on_buy ≡ some until
      → ltb i.now_ms until ≡ true
      → (evaluate_unblocked k i fair reason).0.fill_burst_cooldown_until.on_buy ≡ some until
  evaluate_unblocked-CoolsUntil k i fair until (some reason) cools early = cools
  evaluate_unblocked-CoolsUntil k i fair until none cools early =
      elim (Bool-cases (last_trade_deviation_too_large k i.now_ms fair)) [
        | inl e ↦ rw e cools
        | inr e ↦ rw e (settle-CoolsUntil k i fair until cools early)
      ]

  evaluate_at-CoolsUntil :
      (k : RiskKernel F) (i : RiskInput F) (until : F) (valid : Bool) (fair : Option F)
      → k.fill_burst_cooldown_until.on_buy ≡ some until
      → ltb i.now_ms until ≡ true
      → (evaluate_at k i valid fair).0.fill_burst_cooldown_until.on_buy ≡ some until
  evaluate_at-CoolsUntil k i until true (some fair) cools early =
      evaluate_unblocked-CoolsUntil k i fair until (market_block k.config i fair) cools early
  evaluate_at-CoolsUntil k i until true none cools early = cools
  evaluate_at-CoolsUntil k i until false fair cools early = cools

  -- The kernel after decisions in turn.
  abbrev pub after_decisions : RiskKernel F → List (RiskInput F) → RiskKernel F
  after_decisions k [] = k
  after_decisions k (i ∷ is) = after_decisions (evaluate k i).0 is

  after_decisions-CoolsUntil :
      (k : RiskKernel F) (is : List (RiskInput F)) (until : F)
      → k.fill_burst_cooldown_until.on_buy ≡ some until
      → All (λ i. ltb i.now_ms until ≡ true) is
      → (after_decisions k is).fill_burst_cooldown_until.on_buy ≡ some until
  unfolding evaluate
  after_decisions-CoolsUntil k [] until cools early = cools
  after_decisions-CoolsUntil k (i ∷ is) until cools (early, later) =
      after_decisions-CoolsUntil (evaluate k i).0 is until
        (evaluate_at-CoolsUntil k i until i.fair_state.is_valid i.fair_state.fair cools early) later

  -- After a buy that reaches the limit on buys within the window, no decision at a time before the end
  -- of the cooldown allows buying, whatever the market does and however many decisions at such times
  -- came in between.
  pub burst_blocks_buy :
      (k : RiskKernel F) (ts : F) (price amount : Option F) (before : List (RiskInput F))
      (i : RiskInput F)
      → IsBurst k buy ts
      → All (λ j. ltb j.now_ms (ts + k.config.fill_burst_cooldown_ms) ≡ true) before
      → ltb i.now_ms (ts + k.config.fill_burst_cooldown_ms) ≡ true
      → (evaluate (after_decisions (record_fill k buy ts price amount) before) i).1.allow_buy
        ≡ false
  burst_blocks_buy k ts price amount before i b all_early early =
      let k' = after_decisions (record_fill k buy ts price amount) before in
      let cools =
        after_decisions-CoolsUntil (record_fill k buy ts price amount) before _
          (record_fill_cools k ts price amount b) all_early in
      elim (Bool-cases (evaluate k' i).1.allow_buy) [
        | inl open_side ↦
            let (fair, e, clear) = evaluate-buy k' i open_side in
            absurd (ground (arith, clear.not_cooling, cools))
        | inr closed ↦ closed
      ]

  -- After a sell that reaches the limit on sells within the window, no decision before the end of the
  -- cooldown allows selling, whatever the market does.
  pub burst_blocks_sell :
      (k : RiskKernel F) (ts : F) (price amount : Option F) (i : RiskInput F)
      → IsBurst k sell ts
      → ltb i.now_ms (ts + k.config.fill_burst_cooldown_ms) ≡ true
      → (evaluate (record_fill k sell ts price amount) i).1.allow_sell ≡ false
  burst_blocks_sell k ts price amount i b early =
      elim (Bool-cases (evaluate (record_fill k sell ts price amount) i).1.allow_sell) [
        | inl open_side ↦
            let (fair, e, clear) = evaluate-sell (record_fill k sell ts price amount) i open_side in
            absurd (ground (arith, clear.not_cooling, record_fill_cools_sell k ts price amount b))
        | inr closed ↦ closed
      ]
