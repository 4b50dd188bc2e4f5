-- ===== src/Risk/Evaluate/Gates.antt =====
-- What risk/kernel.py has checked when it lets any side quote.
use ghost_amm.Base.{
  ◌≡◌, refl, Bool, true, false, not, ◌&&◌, Option, none, some, String, arith, inl, inr, Bool-cases,
  is_some,
}
use ghost_amm.Num.{Num, ltb, dec, abs}
use ghost_amm.Market.OrderBook.{spread_bps, depth_around_mid}
use ghost_amm.Amm.Inventory.{snapshot}
use ghost_amm.Risk.Kernel.{RiskConfig, RiskKernel}
use ghost_amm.Risk.Checks.{last_trade_deviation_too_large}
use ghost_amm.Risk.Evaluate.{
  RiskInput, evaluate, evaluate_at, evaluate_unblocked, market_block, spread_block, skew_block,
  exchange_block, spec_is_stopped, status_is_bad,
}

module _ {F : Type 0} ⦃n : Num F⦄ where
  -- The metadata, the status and the book that the settings ask for.
  pub record IsExchangeReady (c : RiskConfig F) (i : RiskInput F) : Type 0 where
    pub spec_known : (c.block_on_unfetched_pair_spec && not (is_some i.pair_spec)) ≡ false
    pub status_normal : (c.block_on_bitbank_status_not_normal && status_is_bad i.status) ≡ false
    pub not_stopped : (c.block_on_pair_stop_flags && spec_is_stopped i.pair_spec) ≡ false
    pub book_fresh : (i.book.stale && c.block_on_sequence_ordering_violation) ≡ false

  -- The state of the market and the inventory in which quoting is allowed.
  pub record IsQuotable (k : RiskKernel F) (i : RiskInput F) (fair spread skew : F) : Type 0 where
    pub fair_valid : i.fair_state.is_valid ≡ true
    pub fair_eq : i.fair_state.fair ≡ some fair
    pub spread_eq : spread_bps i.book ≡ some spread
    pub spread_narrow : ltb k.config.max_spread_bps spread ≡ false
    pub deep : ltb (depth_around_mid i.book (dec 20 0)) k.config.min_depth_20bps_jpy ≡ false
    pub active : ltb i.shock_state.activation k.config.min_activation_to_quote ≡ false
    pub skew_eq : (snapshot i.inventory (some fair)).skew ≡ some skew
    pub balanced : ltb k.config.max_abs_skew (abs skew) ≡ false
    pub ready : IsExchangeReady k.config i
    pub near_trades : last_trade_deviation_too_large k i.now_ms fair ≡ false

  exchange_block-none :
      (c : RiskConfig F) (i : RiskInput F) → exchange_block c i ≡ none → IsExchangeReady c i
  unfolding exchange_block
  exchange_block-none c i h = ground arith

  module _ (k : RiskKernel F) (i : RiskInput F) (fair : F) where
    skew_block-none :
        (o : Option F)
        → skew_block k.config i o ≡ none
        → (skew : F) × (o ≡ some skew)
          × (ltb k.config.max_abs_skew (abs skew) ≡ false)
          × (exchange_block k.config i ≡ none)
    skew_block-none none h = cc
    skew_block-none (some skew) h = (skew, refl, ground arith, ground arith)

    spread_block-none :
        (o : Option F)
        → spread_block k.config i fair o ≡ none
        → (spread : F) × (o ≡ some spread)
          × (ltb k.config.max_spread_bps spread ≡ false)
          × (ltb (depth_around_mid i.book (dec 20 0)) k.config.min_depth_20bps_jpy ≡ false)
          × (ltb i.shock_state.activation k.config.min_activation_to_quote ≡ false)
          × (skew_block k.config i (snapshot i.inventory (some fair)).skew ≡ none)
    spread_block-none none h = cc
    spread_block-none (some spread) h =
        (spread, refl, ground arith, ground arith, ground arith, ground arith)

    market_block-none :
        market_block k.config i fair ≡ none
        → i.fair_state.is_valid ≡ true
        → i.fair_state.fair ≡ some fair
        → last_trade_deviation_too_large k i.now_ms fair ≡ false
        → (spread : F) × (skew : F) × IsQuotable k i fair spread skew
    unfolding market_block
    market_block-none h v f near =
        let (spread, se, narrow, deep, act, rest) = spread_block-none (spread_bps i.book) h in
        let (skew, ke, balanced, ready) =
          skew_block-none (snapshot i.inventory (some fair)).skew rest in
        (
          spread,
          skew,
          record {
            fair_valid = v;
            fair_eq = f;
            spread_eq = se;
            spread_narrow = narrow;
            deep = deep;
            active = act;
            skew_eq = ke;
            balanced = balanced;
            ready = exchange_block-none k.config i ready;
            near_trades = near;
          },
        )

    unblocked :
        (o : Option String)
        → market_block k.config i fair ≡ o
        → i.fair_state.is_valid ≡ true
        → i.fair_state.fair ≡ some fair
        → (evaluate_unblocked k i fair o).1.allow_quote ≡ true
        → (spread : F) × (skew : F) × IsQuotable k i fair spread skew
    unblocked (some reason) e v f h = cc
    unblocked none e v f h = elim (Bool-cases (last_trade_deviation_too_large k i.now_ms fair)) [
      | inl far ↦ absurd (ground arith)
      | inr near ↦ market_block-none e v f near
    ]

  evaluate_at-IsQuotable :
      (k : RiskKernel F) (i : RiskInput F) (v : Bool) (f : Option F)
      → i.fair_state.is_valid ≡ v
      → i.fair_state.fair ≡ f
      → (evaluate_at k i v f).1.allow_quote ≡ true
      → (fair : F) × (spread : F) × (skew : F) × IsQuotable k i fair spread skew
  evaluate_at-IsQuotable k i true (some fair) v f h =
      let (spread, skew, q) = unblocked k i fair (market_block k.config i fair) refl v f h in
      (fair, spread, skew, q)
  evaluate_at-IsQuotable k i true none v f h = cc
  evaluate_at-IsQuotable k i false fair v f h = cc

  -- Quoting is allowed only at a valid fair price, with a book that has a spread that is narrow enough
  -- and is deep enough, an activation and a skew within their limits, the pair's metadata, the
  -- exchange's status, the stop flags and the book's sequence in order where the settings ask for
  -- that, and a last trade that is not too far from the fair price.
  pub evaluate-IsQuotable :
      (k : RiskKernel F) (i : RiskInput F)
      → (evaluate k i).1.allow_quote ≡ true
      → (fair : F) × (spread : F) × (skew : F) × IsQuotable k i fair spread skew
  unfolding evaluate
  evaluate-IsQuotable k i h =
      evaluate_at-IsQuotable k i i.fair_state.is_valid i.fair_state.fair refl refl h
