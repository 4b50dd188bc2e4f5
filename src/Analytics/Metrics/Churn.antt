-- ===== src/Analytics/Metrics/Churn.antt =====
-- `_quote_churn` of analytics/metrics.py: how long the virtual orders lived, and how many there were.
use ghost_amm.Base.{ℕ, suc, Option, none, some, List, [], ◌∷◌, Dict, lookup, insert, if◌then◌else◌}
use ghost_amm.Base.Int.{pos}
use ghost_amm.Num.{Num, ltb, dec, max, min, ◌-◌, ◌/◌}
use ghost_amm.Amm.OrderId.{OrderId, order_id_eq}
use ghost_amm.Amm.Projector.{ProjectorEvent}
use ghost_amm.PipelineState.{Emitted, virtual_fill, virtual_order}
use ghost_amm.Replay.Engine.{Output, time_in, report_in}
use ghost_amm.Analytics.Metrics.{set_default, avg}

pub record Churn (F : Type 0) : Type 0 where
  pub average_quote_lifetime_ms : Option F
  pub orders_per_minute : F
  pub cancels_per_minute : F
  pub fill_per_active_second : F

pub record Orders (F : Type 0) : Type 0 where
  pub placed : Dict OrderId F
  pub closed_at : Dict OrderId F
  pub fills : ℕ
  pub cancels : ℕ
  pub orders : ℕ

module _ {F : Type 0} ⦃n : Num F⦄ where
  abbrev earliest : F → List (Output F) → F
  earliest ts [] = ts
  earliest ts (x ∷ xs) = earliest (min ts (time_in x)) xs

  abbrev latest : F → List (Output F) → F
  latest ts [] = ts
  latest ts (x ∷ xs) = latest (max ts (time_in x)) xs

  abbrev close_order : OrderId → F → Orders F → Orders F
  close_order id ts o = record o { closed_at = set_default id ts o.closed_at }

  abbrev count_order : F → Emitted F → Orders F → Orders F
  count_order ts (virtual_order (ProjectorEvent.placed sequence order)) o = record o {
    placed = insert order.order_id order.created_at o.placed;
    orders = suc o.orders;
  }
  count_order ts (virtual_order (ProjectorEvent.canceled sequence id reason side price size)) o =
      record (close_order id ts o) { cancels = suc o.cancels }
  count_order ts (virtual_fill f) o = record (close_order f.order_id ts o) { fills = suc o.fills }
  count_order ts x o = o

  abbrev count_report : F → Option (Emitted F) → Orders F → Orders F
  count_report ts none o = o
  count_report ts (some x) o = count_order ts x o

  unfoldable pub count_orders : Orders F → List (Output F) → Orders F
  count_orders o [] = o
  count_orders o (x ∷ xs) = count_orders (count_report (time_in x) (report_in x) o) xs

  abbrev or_last : F → Option F → F
  or_last last_ts none = last_ts
  or_last last_ts (some ts) = ts

  unfoldable pub lifetimes : Dict OrderId F → F → Dict OrderId F → List F
  lifetimes closed_at last_ts [] = []
  lifetimes closed_at last_ts ((id, created_at) ∷ placed) =
      max (dec 0 0) (or_last last_ts (lookup id closed_at) - created_at)
      ∷ lifetimes closed_at last_ts placed

  unfoldable pub quote_churn : List (Output F) → Churn F
  quote_churn [] = record {
    average_quote_lifetime_ms = none;
    orders_per_minute = dec 0 0;
    cancels_per_minute = dec 0 0;
    fill_per_active_second = dec 0 0;
  }
  quote_churn (x ∷ xs) =
      let first_ts = earliest (time_in x) xs in
      let last_ts = latest (time_in x) xs in
      let duration_min = max ((last_ts - first_ts) / dec 60_000 0) (dec 1 12) in
      let o =
        count_orders (record { placed = []; closed_at = []; fills = 0; cancels = 0; orders = 0 })
          (x ∷ xs) in
      let lived = lifetimes o.closed_at last_ts o.placed in
      let active_seconds = n.sum lived / dec 1_000 0 in
      record {
        average_quote_lifetime_ms = avg lived;
        orders_per_minute = n.of_int (pos o.orders) / duration_min;
        cancels_per_minute = n.of_int (pos o.cancels) / duration_min;
        fill_per_active_second =
            if ltb (dec 0 0) active_seconds
            then n.of_int (pos o.fills) / active_seconds
            else dec 0 0;
      }
