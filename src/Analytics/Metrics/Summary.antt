-- ===== src/Analytics/Metrics/Summary.antt =====
-- `summarize` of analytics/metrics.py.
use Prim.Native.Nat.{◌+◌ as add}
use ghost_amm.Base.{
  ℕ, zero, suc, Bool, true, false, not, Option, none, some, String, List, [], ◌∷◌, ◌++◌, map, Dict,
  filter, any, length, ◌==◌, string_eq, if◌then◌else◌,
}
use ghost_amm.Base.Int.{pos}
use ghost_amm.Num.{Num, num_eq, dec, abs, ◌+◌, ◌-◌, ◌*◌, ◌/◌}
use ghost_amm.Exchange.BitbankRules.{Side, buy, sell, side_eq}
use ghost_amm.Market.Shock.{Direction}
use ghost_amm.Amm.Projector.{ProjectorEvent}
use ghost_amm.Replay.FillModel.{VirtualFill}
use ghost_amm.PipelineState.{Emitted, mark_price, forced_flow, risk_state, virtual_order}
use ghost_amm.Replay.Engine.{Output, report_in}
use ghost_amm.Num.Extremes.{least, greatest}
use ghost_amm.Analytics.Metrics.{Tally, fills_of, or_number, avg, count_fills, new_tally}
use ghost_amm.Analytics.Metrics.Drawdown.{max_drawdown}
use ghost_amm.Analytics.Metrics.Churn.{Churn, quote_churn}

-- The fields of the summary; `fill_per_placed_order` is `fill_rate`, and those of `_quote_churn` stand
-- in `churn`.
pub record MetricsSummary (F : Type 0) : Type 0 where
  pub total_pnl : F
  pub baseline_no_trade_pnl : F
  pub strategy_alpha_pnl : F
  pub start_equity : F
  pub end_equity : F
  pub baseline_end_equity : F
  pub realized_pnl : F
  pub unrealized_pnl : F
  pub fees_paid : F
  pub virtual_orders : ℕ
  pub virtual_cancels : ℕ
  pub virtual_replaces : ℕ
  pub virtual_fills : ℕ
  pub fill_rate : F
  pub churn : Churn F
  pub average_spread_captured : Option F
  pub average_adverse_1s : Option F
  pub average_adverse_5s : Option F
  pub average_adverse_30s : Option F
  pub average_adverse_1s_buy : Option F
  pub average_adverse_1s_sell : Option F
  pub average_adverse_5s_buy : Option F
  pub average_adverse_5s_sell : Option F
  pub average_adverse_30s_buy : Option F
  pub average_adverse_30s_sell : Option F
  pub worst_adverse_buy : Option F
  pub worst_adverse_sell : Option F
  pub shock_event_fill_count : ℕ
  pub shock_fill_count_by_event : Dict String ℕ
  pub shock_direction_by_event : Dict String Direction
  pub shock_total_spread_capture_by_event : Dict String F
  pub shock_average_adverse_5s_by_event : Dict String (Option F)
  pub pnl_by_shock_event : F
  pub pnl_outside_shock_events : F
  pub max_inventory_skew : Option F
  pub max_drawdown : F
  pub worst_fill : Option F
  pub best_fill : Option F
  pub risk_blocked_quote_count : ℕ

-- `sum(d.values())`
abbrev sum_counts : Dict String ℕ → ℕ
sum_counts [] = 0
sum_counts ((id, k) ∷ d) = add k (sum_counts d)

module _ {F : Type 0} ⦃n : Num F⦄ where
  abbrev is_placed : Emitted F → Bool
  is_placed (virtual_order (ProjectorEvent.placed sequence order)) = true
  is_placed _ = false

  abbrev is_canceled : Emitted F → Bool
  is_canceled (virtual_order (ProjectorEvent.canceled sequence id reason side price size)) = true
  is_canceled _ = false

  abbrev is_replaced : Emitted F → Bool
  is_replaced (virtual_order (ProjectorEvent.canceled sequence id reason side price size)) =
      reason == "replaced"
  is_replaced _ = false

  abbrev is_forced_flow : Emitted F → Bool
  is_forced_flow (forced_flow s) = true
  is_forced_flow _ = false

  abbrev is_blocked : Emitted F → Bool
  is_blocked (risk_state r) = not r.decision.allow_quote
  is_blocked _ = false

  abbrev reports_in : List (Output F) → List (Emitted F)
  reports_in [] = []
  reports_in (x ∷ xs) = elim (report_in x) [
    | none ↦ reports_in xs
    | some report ↦ report ∷ reports_in xs
  ]

  abbrev count : (Emitted F → Bool) → List (Output F) → ℕ
  count test xs = length (filter test (reports_in xs))

  abbrev first_marked : List (Emitted F) → Option F
  first_marked [] = none
  first_marked (mark_price s ∷ xs) = elim (s.fair) [ none ↦ first_marked xs | some x ↦ some x ]
  first_marked (x ∷ xs) = first_marked xs

  unfoldable pub first_fair : List (Output F) → Option F
  first_fair xs = first_marked (reports_in xs)

  abbrev fees : List (VirtualFill F) → List F
  fees fs = map (λ f. f.fee) fs

  abbrev skews : List (Emitted F) → List F
  skews [] = []
  skews (virtual_order (ProjectorEvent.placed sequence order) ∷ xs) =
      abs order.inventory_skew ∷ skews xs
  skews (x ∷ xs) = skews xs

  abbrev all_values : List (Side × F) → List F
  all_values vs = map (λ (side, v). v) vs

  -- `adverse_by_side[side][...]`
  abbrev values_of : Side → List (Side × F) → List F
  values_of side vs = all_values (filter (λ (s, v). s == side) vs)

  abbrev averages : Dict String (List F) → Dict String (Option F)
  averages d = map (λ (id, vs). (id, avg vs)) d

  abbrev worst_of : Side → Tally F → Option F
  worst_of side t =
      least (
        values_of side t.adverse_1s
        ++ (values_of side t.adverse_5s ++ values_of side t.adverse_30s))

  abbrev rate : ℕ → ℕ → F
  rate k zero = dec 0 0
  rate k (suc m) = n.of_int (pos k) / n.of_int (pos (suc m))

  -- `_first_fair(events) or last_fair or 0.0`
  abbrev pub start_fair_of : List (Output F) → Option F → F
  start_fair_of events last_fair = or_number (first_fair events) (or_number last_fair (dec 0 0))

  unfoldable pub summarize :
      List (Output F) → (initial_base initial_quote : F) → Option F → MetricsSummary F
  summarize events initial_base initial_quote last_fair =
      let fills = fills_of events in
      let virtual_orders = count is_placed events in
      let t = count_fills last_fair (new_tally initial_base initial_quote) fills in
      let start_fair = start_fair_of events last_fair in
      let start_equity = initial_base * start_fair + initial_quote in
      let end_fair = or_number last_fair start_fair in
      let end_equity = t.base * end_fair + t.cash in
      let baseline_end_equity = initial_base * end_fair + initial_quote in
      let total_pnl = end_equity - start_equity in
      let shocked = any is_forced_flow (reports_in events) in
      record {
        total_pnl = total_pnl;
        baseline_no_trade_pnl = baseline_end_equity - start_equity;
        strategy_alpha_pnl = end_equity - baseline_end_equity;
        start_equity = start_equity;
        end_equity = end_equity;
        baseline_end_equity = baseline_end_equity;
        realized_pnl = t.realized;
        unrealized_pnl = total_pnl - t.realized;
        fees_paid = n.sum (fees fills);
        virtual_orders = virtual_orders;
        virtual_cancels = count is_canceled events;
        virtual_replaces = count is_replaced events;
        virtual_fills = length fills;
        fill_rate = rate (length fills) virtual_orders;
        churn = quote_churn events;
        average_spread_captured = avg t.spread_capture;
        average_adverse_1s = avg (all_values t.adverse_1s);
        average_adverse_5s = avg (all_values t.adverse_5s);
        average_adverse_30s = avg (all_values t.adverse_30s);
        average_adverse_1s_buy = avg (values_of buy t.adverse_1s);
        average_adverse_1s_sell = avg (values_of sell t.adverse_1s);
        average_adverse_5s_buy = avg (values_of buy t.adverse_5s);
        average_adverse_5s_sell = avg (values_of sell t.adverse_5s);
        average_adverse_30s_buy = avg (values_of buy t.adverse_30s);
        average_adverse_30s_sell = avg (values_of sell t.adverse_30s);
        worst_adverse_buy = worst_of buy t;
        worst_adverse_sell = worst_of sell t;
        shock_event_fill_count = sum_counts t.shock_fill_counts;
        shock_fill_count_by_event = t.shock_fill_counts;
        shock_direction_by_event = t.shock_direction_by_event;
        shock_total_spread_capture_by_event = t.shock_spread_capture;
        shock_average_adverse_5s_by_event = averages t.shock_adverse_5s;
        pnl_by_shock_event = if shocked then total_pnl else dec 0 0;
        pnl_outside_shock_events = if shocked then dec 0 0 else total_pnl;
        max_inventory_skew = greatest (skews (reports_in events));
        max_drawdown = max_drawdown t.fill_values;
        worst_fill = least t.spread_capture;
        best_fill = greatest t.spread_capture;
        risk_blocked_quote_count = count is_blocked events;
      }
