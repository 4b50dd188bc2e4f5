-- ===== src/Risk/Evaluate.antt =====
-- ghost_amm/risk/kernel.py: `evaluate`, the decision on an event.
use ghost_amm.Base.{
  Bool, true, false, not, ◌&&◌, ◌||◌, Option, none, some, String, List, [], ◌∷◌, if◌then◌else◌,
  is_some,
}
use ghost_amm.Num.{Num, ltb, leb, dec, max, abs}
use ghost_amm.Exchange.BitbankRules.{Side, buy, sell, BitbankPairSpec, BitbankStatus, is_normal}
use ghost_amm.Market.OrderBook.{OrderBook, spread_bps, depth_around_mid}
use ghost_amm.Market.FairPrice.{FairPriceState}
use ghost_amm.Market.Shock.{ShockState}
use ghost_amm.Amm.Inventory.{InventoryState, snapshot}
use ghost_amm.Risk.Kernel.{
  RiskConfig, RiskKernel, RiskDecision, PerSide, text_or, or_reason, reason_if, sides_if,
  blocked_at, record_fair,
}
use ghost_amm.Risk.Checks.{
  fair_drift_blocked_sides, last_trade_deviation_too_large, fill_burst_blocked_sides, pop_cooldowns,
  inventory_blocked_sides, expire_changes,
}
pub mod Gates
pub mod Sides

-- What `evaluate` looks at besides the kernel.
pub record RiskInput (F : Type 0) : Type 0 where
  pub book : OrderBook F
  pub fair_state : FairPriceState F
  pub shock_state : ShockState F
  pub inventory : InventoryState F
  pub pair_spec : Option (BitbankPairSpec F)
  pub status : Option (BitbankStatus F)
  pub now_ms : F

abbrev first_reason : PerSide (Option String) → Option String
first_reason p = or_reason p.on_buy p.on_sell

module _ {F : Type 0} ⦃n : Num F⦄ where
  abbrev spec_is_stopped : Option (BitbankPairSpec F) → Bool
  spec_is_stopped none = false
  spec_is_stopped (some s) = not s.is_enabled || s.stop_order || s.stop_order_and_cancel

  abbrev status_is_bad : Option (BitbankStatus F) → Bool
  status_is_bad none = false
  status_is_bad (some s) = not (is_normal s)

  abbrev stops_buy : Option (BitbankPairSpec F) → Bool
  stops_buy none = false
  stops_buy (some s) = s.stop_buy_order

  abbrev stops_sell : Option (BitbankPairSpec F) → Bool
  stops_sell none = false
  stops_sell (some s) = s.stop_sell_order

  -- The early returns between the skew and the fair price's deviation.
  unfoldable pub exchange_block : RiskConfig F → RiskInput F → Option String
  exchange_block c i =
      if c.block_on_unfetched_pair_spec && not (is_some i.pair_spec)
      then some "pair_spec_unfetched"
      else if c.block_on_bitbank_status_not_normal && status_is_bad i.status
      then some "bitbank_status_not_normal"
      else if c.block_on_pair_stop_flags && spec_is_stopped i.pair_spec
      then some "pair_stop_flag"
      else if i.book.stale && c.block_on_sequence_ordering_violation
      then some (text_or i.book.stale_reason "book_stale")
      else none

  abbrev skew_block : RiskConfig F → RiskInput F → Option F → Option String
  skew_block c i none = some "invalid_inventory_equity"
  skew_block c i (some skew) =
      if ltb c.max_abs_skew (abs skew) then some "inventory_too_skewed" else exchange_block c i

  abbrev spread_block : RiskConfig F → RiskInput F → F → Option F → Option String
  spread_block c i fair none = some "missing_spread"
  spread_block c i fair (some spread) =
      if ltb c.max_spread_bps spread
      then some "spread_too_wide"
      else if ltb (depth_around_mid i.book (dec 20 0)) c.min_depth_20bps_jpy
      then some "book_too_thin"
      else if ltb i.shock_state.activation c.min_activation_to_quote
      then some "activation_too_low"
      else skew_block c i (snapshot i.inventory (some fair)).skew

  -- The reason of the first early return that is taken at a valid fair price.
  unfoldable pub market_block : RiskConfig F → RiskInput F → F → Option String
  unfolding exchange_block
  market_block c i fair = spread_block c i fair (spread_bps i.book)

  -- `max(...)` of the cooldowns of the cooling sides, None if there is none.
  abbrev latest : Option F → Option F → Option F
  latest (some a) (some b) = some (max a b)
  latest (some a) none = some a
  latest none b = b

  abbrev if_cooling : Bool → Option F → Option F
  if_cooling true until = until
  if_cooling false until = none

  -- The reasons by side: a burst comes before a drift, and a drift before the inventory.
  unfoldable pub side_reasons :
      RiskKernel F → RiskKernel F → RiskInput F → F → PerSide (Option String)
  side_reasons k k' i fair =
      let cooling = fill_burst_blocked_sides k i.now_ms in
      let drift = fair_drift_blocked_sides k i.now_ms fair in
      let inventory = inventory_blocked_sides k' i.inventory fair k.config.max_order_size in
      record {
        on_buy =
            or_reason (reason_if cooling.on_buy "fill_burst_cooldown")
              (or_reason (reason_if drift.on_buy "fair_drift_too_large") inventory.on_buy);
        on_sell =
            or_reason (reason_if cooling.on_sell "fill_burst_cooldown")
              (or_reason (reason_if drift.on_sell "fair_drift_too_large") inventory.on_sell);
      }

  -- The decision once no early return was taken.
  unfoldable pub decide : RiskKernel F → RiskInput F → PerSide (Option String) → RiskDecision F
  decide k i reasons =
      let cooling = fill_burst_blocked_sides k i.now_ms in
      let allow_buy = not (stops_buy i.pair_spec) && not (is_some reasons.on_buy) in
      let allow_sell = not (stops_sell i.pair_spec) && not (is_some reasons.on_sell) in
      record {
        allow_quote = allow_buy || allow_sell;
        allow_buy = allow_buy;
        allow_sell = allow_sell;
        max_order_size = k.config.max_order_size;
        reason = first_reason reasons;
        blocked_sides = sides_if (is_some reasons.on_buy) (is_some reasons.on_sell);
        cooldown_until_ms =
            latest (if_cooling cooling.on_buy k.fill_burst_cooldown_until.on_buy)
              (if_cooling cooling.on_sell k.fill_burst_cooldown_until.on_sell);
        side_block_reasons = reasons;
      }

  -- The kernel after a decision that was not cut short.
  unfoldable pub settle : RiskKernel F → RiskInput F → F → RiskKernel F
  settle k i fair = expire_changes (pop_cooldowns (record_fair k i.now_ms fair) i.now_ms) i.now_ms

  abbrev deviation_decision : RiskDecision F
  deviation_decision = record {
    allow_quote = false;
    allow_buy = false;
    allow_sell = false;
    max_order_size = dec 0 0;
    reason = some "last_trade_fair_deviation_too_large";
    blocked_sides = buy ∷ sell ∷ [];
    cooldown_until_ms = none;
    side_block_reasons = record {
      on_buy = some "last_trade_fair_deviation_too_large";
      on_sell = some "last_trade_fair_deviation_too_large";
    };
  }

  abbrev pub evaluate_unblocked :
      RiskKernel F → RiskInput F → F → Option String → RiskKernel F × RiskDecision F
  evaluate_unblocked k i fair (some reason) = (k, blocked_at (dec 0 0) reason)
  evaluate_unblocked k i fair none =
      let k' = settle k i fair in
      if last_trade_deviation_too_large k i.now_ms fair
      then (k, deviation_decision)
      else (k', decide k i (side_reasons k k' i fair))

  abbrev pub evaluate_at :
      RiskKernel F → RiskInput F → Bool → Option F → RiskKernel F × RiskDecision F
  evaluate_at k i true (some fair) = evaluate_unblocked k i fair (market_block k.config i fair)
  evaluate_at k i true none =
      (k, blocked_at (dec 0 0) (text_or i.fair_state.reason "invalid_fair_price"))
  evaluate_at k i false fair =
      (k, blocked_at (dec 0 0) (text_or i.fair_state.reason "invalid_fair_price"))

  unfoldable pub evaluate : RiskKernel F → RiskInput F → RiskKernel F × RiskDecision F
  evaluate k i = evaluate_at k i i.fair_state.is_valid i.fair_state.fair
