-- ===== src/Risk/Evaluate/Sides.antt =====
-- What risk/kernel.py has checked when it lets one side quote, and how its decision hangs together.
use ghost_amm.Base.{
  ◌≡◌, refl, Bool, true, false, not, ◌&&◌, ◌||◌, Option, none, some, String, if◌then◌else◌, arith,
  inl, inr, Bool-cases, is_some,
}
use ghost_amm.Num.{Num, ltb, dec, ◌*◌, ◌+◌}
use ghost_amm.Exchange.BitbankRules.{buy, sell}
use ghost_amm.Risk.Kernel.{RiskKernel, RiskDecision, PerSide, sides_if}
use ghost_amm.Risk.Kernel.{record_fair}
use ghost_amm.Risk.Checks.{
  pop_cooldowns, expire_changes, last_trade_deviation_too_large, fill_burst_blocked_sides,
  fair_drift_blocked_sides, inventory_blocked_sides, changed_too_much, quote_used, is_cooling,
}
use ghost_amm.Risk.Evaluate.{
  RiskInput, evaluate, evaluate_at, evaluate_unblocked, market_block, decide, settle, side_reasons,
  stops_buy, stops_sell,
}

module _ {F : Type 0} ⦃n : Num F⦄ where
  -- What lets a bid of the largest size rest: no cooldown after a burst of buys, no fall of the fair
  -- price, and no limit that the purchase would pass.
  pub record IsBuyClear (k k' : RiskKernel F) (i : RiskInput F) (fair : F) : Type 0 where
    pub not_stopped : stops_buy i.pair_spec ≡ false
    pub not_cooling : is_cooling i.now_ms k.fill_burst_cooldown_until.on_buy ≡ false
    pub no_drift : (fair_drift_blocked_sides k i.now_ms fair).on_buy ≡ false
    pub funded :
        (not k.config.negative_balances_allowed
          && ltb i.inventory.quote_qty (k.config.max_order_size * fair))
        ≡ false
    pub base_limit :
        (ltb (dec 0 0) k.config.max_base_qty
          && ltb k.config.max_base_qty (i.inventory.base_qty + k.config.max_order_size))
        ≡ false
    pub usage_limit :
        (ltb (dec 0 0) k.config.max_quote_usage_jpy
          && ltb k.config.max_quote_usage_jpy
              (quote_used k.config i.inventory + k.config.max_order_size * fair))
        ≡ false
    pub notional_limit :
        (ltb (dec 0 0) k.config.max_inventory_notional_jpy
          && ltb k.config.max_inventory_notional_jpy
              ((i.inventory.base_qty + k.config.max_order_size) * fair))
        ≡ false
    pub change_limit : changed_too_much k' (k.config.max_order_size * fair) buy ≡ false

  pub record IsSellClear (k k' : RiskKernel F) (i : RiskInput F) (fair : F) : Type 0 where
    pub not_stopped : stops_sell i.pair_spec ≡ false
    pub not_cooling : is_cooling i.now_ms k.fill_burst_cooldown_until.on_sell ≡ false
    pub no_drift : (fair_drift_blocked_sides k i.now_ms fair).on_sell ≡ false
    pub stocked :
        (not k.config.negative_balances_allowed && ltb i.inventory.base_qty k.config.max_order_size)
        ≡ false
    pub change_limit : changed_too_much k' (k.config.max_order_size * fair) sell ≡ false

  -- A decision's parts agree: quoting is allowed if a side is, a blocked side is not allowed, the
  -- blocked sides are those with a reason, and a block has a reason.
  pub record IsCoherent (d : RiskDecision F) : Type 0 where
    pub quote_eq : d.allow_quote ≡ (d.allow_buy || d.allow_sell)
    pub buy_blocked : (d.allow_buy && is_some d.side_block_reasons.on_buy) ≡ false
    pub sell_blocked : (d.allow_sell && is_some d.side_block_reasons.on_sell) ≡ false
    pub sides_eq :
        d.blocked_sides
        ≡ sides_if (is_some d.side_block_reasons.on_buy) (is_some d.side_block_reasons.on_sell)
    pub has_reason :
        ((is_some d.side_block_reasons.on_buy || is_some d.side_block_reasons.on_sell)
          && not (is_some d.reason))
        ≡ false

  decide-IsCoherent :
      (k : RiskKernel F) (i : RiskInput F) (r : PerSide (Option String)) → IsCoherent (decide k i r)
  unfolding decide
  decide-IsCoherent k i r = ground arith

  pick-IsCoherent :
      (c : Bool) (x y : RiskKernel F × RiskDecision F)
      → IsCoherent x.1
      → IsCoherent y.1
      → IsCoherent (if c then x else y).1
  pick-IsCoherent true x y h h' = h
  pick-IsCoherent false x y h h' = h'

  unblocked-IsCoherent :
      (k : RiskKernel F) (i : RiskInput F) (fair : F) (o : Option String)
      → IsCoherent (evaluate_unblocked k i fair o).1
  unblocked-IsCoherent k i fair (some reason) = ground arith
  unblocked-IsCoherent k i fair none =
      pick-IsCoherent (last_trade_deviation_too_large k i.now_ms fair) _ _ (ground arith)
        (decide-IsCoherent k i _)

  evaluate_at-IsCoherent :
      (k : RiskKernel F) (i : RiskInput F) (v : Bool) (f : Option F)
      → IsCoherent (evaluate_at k i v f).1
  evaluate_at-IsCoherent k i true (some fair) =
      unblocked-IsCoherent k i fair (market_block k.config i fair)
  evaluate_at-IsCoherent k i true none = ground arith
  evaluate_at-IsCoherent k i false f = ground arith

  -- Every decision of `evaluate`, early returns included, is coherent: quoting is allowed exactly if a
  -- side is, no side with a block reason is allowed, the blocked sides are those with a reason, and
  -- with a blocked side the decision names a reason.
  pub evaluate-IsCoherent : (k : RiskKernel F) (i : RiskInput F) → IsCoherent (evaluate k i).1
  unfolding evaluate
  evaluate-IsCoherent k i = evaluate_at-IsCoherent k i i.fair_state.is_valid i.fair_state.fair

  side_reasons-buy :
      (k k' : RiskKernel F) (i : RiskInput F) (fair : F)
      → k'.config ≡ k.config
      → (decide k i (side_reasons k k' i fair)).allow_buy ≡ true
      → IsBuyClear k k' i fair
  unfolding decide side_reasons inventory_blocked_sides fill_burst_blocked_sides
  side_reasons-buy k k' i fair e h = ground arith

  side_reasons-sell :
      (k k' : RiskKernel F) (i : RiskInput F) (fair : F)
      → k'.config ≡ k.config
      → (decide k i (side_reasons k k' i fair)).allow_sell ≡ true
      → IsSellClear k k' i fair
  unfolding decide side_reasons inventory_blocked_sides fill_burst_blocked_sides
  side_reasons-sell k k' i fair e h = ground arith

  settle-config :
      (k : RiskKernel F) (i : RiskInput F) (fair : F) → (settle k i fair).config ≡ k.config
  unfolding settle record_fair pop_cooldowns expire_changes
  settle-config k i fair = ground arith

  -- What a side that is allowed has behind it, for a fair price that is valid.
  abbrev pub BuyBehind : RiskKernel F → RiskInput F → Type 0
  BuyBehind k i =
      (fair : F) × (i.fair_state.fair ≡ some fair) × IsBuyClear k (settle k i fair) i fair

  abbrev pub SellBehind : RiskKernel F → RiskInput F → Type 0
  SellBehind k i =
      (fair : F) × (i.fair_state.fair ≡ some fair) × IsSellClear k (settle k i fair) i fair

  unblocked-buy :
      (k : RiskKernel F) (i : RiskInput F) (fair : F) (o : Option String)
      → (evaluate_unblocked k i fair o).1.allow_buy ≡ true
      → IsBuyClear k (settle k i fair) i fair
  unblocked-buy k i fair (some reason) h = cc
  unblocked-buy k i fair none h =
      elim (Bool-cases (last_trade_deviation_too_large k i.now_ms fair)) [
        | inl far ↦ absurd (ground arith)
        | inr near ↦
            side_reasons-buy k (settle k i fair) i fair (settle-config k i fair)
              (rw (near, if◌then◌else◌) at h)
      ]

  unblocked-sell :
      (k : RiskKernel F) (i : RiskInput F) (fair : F) (o : Option String)
      → (evaluate_unblocked k i fair o).1.allow_sell ≡ true
      → IsSellClear k (settle k i fair) i fair
  unblocked-sell k i fair (some reason) h = cc
  unblocked-sell k i fair none h =
      elim (Bool-cases (last_trade_deviation_too_large k i.now_ms fair)) [
        | inl far ↦ absurd (ground arith)
        | inr near ↦
            side_reasons-sell k (settle k i fair) i fair (settle-config k i fair)
              (rw (near, if◌then◌else◌) at h)
      ]

  evaluate_at-buy :
      (k : RiskKernel F) (i : RiskInput F) (v : Bool) (f : Option F)
      → i.fair_state.fair ≡ f
      → (evaluate_at k i v f).1.allow_buy ≡ true
      → BuyBehind k i
  evaluate_at-buy k i true (some fair) e h =
      (fair, e, unblocked-buy k i fair (market_block k.config i fair) h)
  evaluate_at-buy k i true none e h = cc
  evaluate_at-buy k i false f e h = cc

  evaluate_at-sell :
      (k : RiskKernel F) (i : RiskInput F) (v : Bool) (f : Option F)
      → i.fair_state.fair ≡ f
      → (evaluate_at k i v f).1.allow_sell ≡ true
      → SellBehind k i
  evaluate_at-sell k i true (some fair) e h =
      (fair, e, unblocked-sell k i fair (market_block k.config i fair) h)
  evaluate_at-sell k i true none e h = cc
  evaluate_at-sell k i false f e h = cc

  -- Buying is allowed only while the pair does not stop buys, no burst of buys cools down, the fair
  -- price did not fall too far, and a purchase of the largest size is funded and stays within the
  -- limits on the base quantity, the quote usage, the notional and the change in a minute.
  pub evaluate-buy :
      (k : RiskKernel F) (i : RiskInput F) → (evaluate k i).1.allow_buy ≡ true → BuyBehind k i
  unfolding evaluate
  evaluate-buy k i h = evaluate_at-buy k i i.fair_state.is_valid i.fair_state.fair refl h

  -- Selling is allowed only while the pair does not stop sells, no burst of sells cools down, the fair
  -- price did not rise too far, and a sale of the largest size is covered by the base balance and
  -- stays within the limit on the change in a minute.
  pub evaluate-sell :
      (k : RiskKernel F) (i : RiskInput F) → (evaluate k i).1.allow_sell ≡ true → SellBehind k i
  unfolding evaluate
  evaluate-sell k i h = evaluate_at-sell k i i.fair_state.is_valid i.fair_state.fair refl h
