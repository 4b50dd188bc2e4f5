-- ===== src/Risk/Checks.antt =====
-- ghost_amm/risk/kernel.py: the checks that block one side, from the histories and the inventory.
use ghost_amm.Base.{
  map, filter, Bool, false, not, ◌&&◌, ◌||◌, Option, none, some, String, List, [], ◌∷◌,
  if◌then◌else◌,
}
use ghost_amm.Num.{Num, ltb, leb, dec, max, abs, ◌+◌, ◌-◌, ◌*◌, ◌/◌}
use ghost_amm.Exchange.BitbankRules.{Side, buy, sell}
use ghost_amm.Amm.Inventory.{InventoryState}
use ghost_amm.Risk.Kernel.{RiskConfig, RiskKernel, PerSide, expire_history, same_side}

module _ {F : Type 0} ⦃n : Num F⦄ where
  -- `_fair_at_or_before`, from the value found so far.
  unfoldable pub fair_at_or_before : F → Option F → List (F × F) → Option F
  fair_at_or_before target value [] = value
  fair_at_or_before target value ((ts, fair) ∷ rest) =
      if leb ts target then fair_at_or_before target (some fair) rest else value

  -- One horizon: whether a drop blocks buys, and a rise sells.
  abbrev drift_at : F → F → F → Option F → PerSide Bool
  drift_at fair max_drop max_rise none = record { on_buy = false; on_sell = false }
  drift_at fair max_drop max_rise (some prior) =
      let change = (fair - prior) / prior * dec 10_000 0 in
      if leb prior (dec 0 0) then record { on_buy = false; on_sell = false } else record {
        on_buy = ltb (dec 0 0) max_drop && leb change (n.neg max_drop);
        on_sell = ltb (dec 0 0) max_rise && leb max_rise change;
      }

  unfoldable pub fair_drift_blocked_sides : RiskKernel F → F → F → PerSide Bool
  fair_drift_blocked_sides k now fair =
      let c = k.config in
      let short =
        drift_at fair c.max_fair_drop_bps_1s_for_bid c.max_fair_rise_bps_1s_for_ask
          (fair_at_or_before (now - dec 1_000 0) none k.fair_history) in
      let long =
        drift_at fair c.max_fair_drop_bps_5s_for_bid c.max_fair_rise_bps_5s_for_ask
          (fair_at_or_before (now - dec 5_000 0) none k.fair_history) in
      record { on_buy = short.on_buy || long.on_buy; on_sell = short.on_sell || long.on_sell }

  abbrev deviates : RiskConfig F → F → F → Option (F × F) → Bool
  deviates c now fair none = false
  deviates c now fair (some (ts, price)) =
      ltb (dec 0 0) c.max_last_trade_fair_deviation_bps
      && leb (now - ts) c.last_trade_fair_deviation_max_age_ms
      && ltb c.max_last_trade_fair_deviation_bps (abs (price - fair) / fair * dec 10_000 0)

  unfoldable pub last_trade_deviation_too_large : RiskKernel F → F → F → Bool
  last_trade_deviation_too_large k now fair = deviates k.config now fair k.last_trade

  abbrev pub is_cooling : F → Option F → Bool
  is_cooling now none = false
  is_cooling now (some until) = ltb now until

  abbrev pop_over : F → Option F → Option F
  pop_over now none = none
  pop_over now (some until) = if ltb now until then some until else none

  -- The sides that cool down; the cooldowns that are over are popped.
  unfoldable pub fill_burst_blocked_sides : RiskKernel F → F → PerSide Bool
  fill_burst_blocked_sides k now = record {
    on_buy = is_cooling now k.fill_burst_cooldown_until.on_buy;
    on_sell = is_cooling now k.fill_burst_cooldown_until.on_sell;
  }

  unfoldable pub pop_cooldowns : RiskKernel F → F → RiskKernel F
  pop_cooldowns k now = record k {
    fill_burst_cooldown_until = record {
      on_buy = pop_over now k.fill_burst_cooldown_until.on_buy;
      on_sell = pop_over now k.fill_burst_cooldown_until.on_sell;
    };
  }

  -- `sum(notional for _, fill_side, notional in history if fill_side == side)`
  unfoldable pub change_of : Side → List (F × (Side × F)) → F
  change_of side history = n.sum (
      map (λ (ts, (s, notional)). notional)
        (filter (λ (ts, (s, notional)). same_side s side) history))

  unfoldable pub expire_changes : RiskKernel F → F → RiskKernel F
  expire_changes k now =
      if ltb (dec 0 0) k.config.max_one_side_inventory_change_jpy_per_minute
      then record k {
        inventory_change_history = expire_history (dec 60_000 0) now k.inventory_change_history;
      }
      else k

  abbrev pub changed_too_much : RiskKernel F → F → Side → Bool
  changed_too_much k buy_notional side =
      let limit = k.config.max_one_side_inventory_change_jpy_per_minute in
      ltb (dec 0 0) limit && ltb limit (change_of side k.inventory_change_history + buy_notional)

  -- Without the setting, the quote quantity of now is the initial one.
  abbrev pub initial_quote_of : Option F → F → F
  initial_quote_of none quote_qty = quote_qty
  initial_quote_of (some initial) quote_qty = initial

  abbrev pub quote_used : RiskConfig F → InventoryState F → F
  quote_used c inv =
      max (dec 0 0) (initial_quote_of c.initial_quote_qty inv.quote_qty - inv.quote_qty)

  -- `_inventory_blocked_sides` of a kernel whose changes were expired: a later check overwrites the
  -- reason of an earlier one.
  unfoldable pub inventory_blocked_sides :
      RiskKernel F → InventoryState F → F → F → PerSide (Option String)
  inventory_blocked_sides k inv fair max_size =
      let c = k.config in
      let buy_notional = max_size * fair in
      record {
        on_buy =
            if changed_too_much k buy_notional buy
            then some "one_side_inventory_change_limit"
            else if ltb (dec 0 0) c.max_inventory_notional_jpy
                && ltb c.max_inventory_notional_jpy ((inv.base_qty + max_size) * fair)
            then some "max_inventory_notional_jpy"
            else if ltb (dec 0 0) c.max_quote_usage_jpy
                && ltb c.max_quote_usage_jpy (quote_used c inv + buy_notional)
            then some "max_quote_usage_jpy"
            else if ltb (dec 0 0) c.max_base_qty && ltb c.max_base_qty (inv.base_qty + max_size)
            then some "max_base_qty"
            else if not c.negative_balances_allowed && ltb inv.quote_qty buy_notional
            then some "quote_balance_insufficient"
            else none;
        on_sell =
            if changed_too_much k buy_notional sell
            then some "one_side_inventory_change_limit"
            else if not c.negative_balances_allowed && ltb inv.base_qty max_size
            then some "base_balance_insufficient"
            else none;
      }
