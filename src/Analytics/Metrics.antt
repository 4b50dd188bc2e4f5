-- ===== src/Analytics/Metrics.antt =====
-- ghost_amm/analytics/metrics.py: the summary of a replay's output. It counts what the run emitted, and
-- the reports of an earlier run among the events that were fed in.
use Prim.Native.Nat.{◌+◌ as add}
use ghost_amm.Base.{
  ℕ, suc, Bool, true, false, not, Option, none, some, String, List, [], ◌∷◌, ◌++◌, map, Dict,
  lookup, insert, Eq, ◌==◌, string_eq, length, any, if◌then◌else◌,
}
use ghost_amm.Base.Int.{pos}
use ghost_amm.Num.{Num, num_eq, ltb, dec, max, min, abs, ◌+◌, ◌-◌, ◌*◌, ◌/◌}
use ghost_amm.Exchange.BitbankRules.{Side, buy, sell, side_eq, is_buy}
use ghost_amm.Market.FairPrice.{FairPriceState}
use ghost_amm.Market.Shock.{Direction}
use ghost_amm.Replay.FillModel.{VirtualFill}
use ghost_amm.PipelineState.{Emitted, virtual_fill}
use ghost_amm.Replay.Engine.{Output, report_in}
pub mod Drawdown
pub mod Churn
pub mod Summary
pub mod Accounting
mod Tests

-- What the loop over the fills builds up. The lists of `adverse_by_side` are those of the buckets, by
-- the side that stands with each value.
pub record Tally (F : Type 0) : Type 0 where
  pub cash : F
  pub base : F
  pub realized : F
  pub adverse_1s : List (Side × F)
  pub adverse_5s : List (Side × F)
  pub adverse_30s : List (Side × F)
  pub spread_capture : List F
  pub fill_values : List F
  pub shock_fill_counts : Dict String ℕ
  pub shock_direction_by_event : Dict String Direction
  pub shock_spread_capture : Dict String F
  pub shock_adverse_5s : Dict String (List F)

module _ {A : Type 0} where
  -- `d.setdefault(k, v)`
  abbrev pub set_default {κ} : {K : Type κ} ⦃e : Eq K⦄ → K → A → Dict K A → Dict K A
  set_default k v d = elim (lookup k d) [ none ↦ insert k v d | some _ ↦ d ]

  -- `d[k]` of a defaultdict
  abbrev get_or : A → String → Dict String A → A
  get_or default k d = elim (lookup k d) [ none ↦ default | some v ↦ v ]

module _ {F : Type 0} ⦃n : Num F⦄ where
  abbrev pub add_fill : Option (Emitted F) → List (VirtualFill F) → List (VirtualFill F)
  add_fill (some (virtual_fill f)) fills = f ∷ fills
  add_fill _ fills = fills

  unfoldable pub fills_of : List (Output F) → List (VirtualFill F)
  fills_of [] = []
  fills_of (x ∷ rest) = add_fill (report_in x) (fills_of rest)

  -- `a or b`, where 0.0 counts as nothing
  abbrev pub or_number : Option F → F → F
  or_number none b = b
  or_number (some a) b = if a == dec 0 0 then b else a

  unfoldable pub avg : List F → Option F
  avg [] = none
  avg (x ∷ xs) = some (n.sum (x ∷ xs) / n.of_int (pos (length (x ∷ xs))))

  -- The balances after a fill.
  unfoldable pub settle_fill : Tally F → VirtualFill F → Tally F
  settle_fill t f =
      if is_buy f.side
      then record t {
        base = t.base + f.fill_size;
        cash = t.cash - (f.fill_price * f.fill_size + f.fee);
        realized = t.realized - f.fee;
      }
      else record t {
        base = t.base - f.fill_size;
        cash = t.cash + (f.fill_price * f.fill_size - f.fee);
        realized = t.realized - f.fee;
      }

  -- What the later price gave away, by the fill's side; also `spread_value`, of the price at the fill.
  abbrev adverse_of : VirtualFill F → F → F
  adverse_of f fair = if is_buy f.side then fair - f.fill_price else f.fill_price - fair

  abbrev count_adverse : VirtualFill F → Option F → List (Side × F) → List (Side × F)
  count_adverse f none bucket = bucket
  count_adverse f (some fair) bucket = bucket ++ ((f.side, adverse_of f fair) ∷ [])

  -- `str(shock_event_id) if shock_event_id else None`
  abbrev shock_id_of : VirtualFill F → Option String
  shock_id_of f = elim (f.shock_event_id) [
    | none ↦ none
    | some s ↦ if s == "" then none else some s
  ]

  -- `fair_at_fill` where it is neither None nor 0.0
  abbrev known_fair : VirtualFill F → Option F
  known_fair f = elim (f.fair_at_fill) [
    | none ↦ none
    | some x ↦ if x == dec 0 0 then none else some x
  ]

  abbrev count_shock : VirtualFill F → Option String → Tally F → Tally F
  count_shock f none t = t
  count_shock f (some id) t = record t {
    shock_fill_counts = insert id (suc (get_or 0 id t.shock_fill_counts)) t.shock_fill_counts;
    shock_direction_by_event = set_default id f.shock_direction t.shock_direction_by_event;
  }

  abbrev add_capture : VirtualFill F → F → Option String → Dict String F → Dict String F
  add_capture f value none d = d
  add_capture f value (some id) d = insert id (get_or (dec 0 0) id d + value * f.fill_size) d

  abbrev count_capture : VirtualFill F → Option F → Tally F → Tally F
  count_capture f none t = t
  count_capture f (some fair) t = record t {
    spread_capture = t.spread_capture ++ (adverse_of f fair ∷ []);
    shock_spread_capture = add_capture f (adverse_of f fair) (shock_id_of f) t.shock_spread_capture;
  }

  abbrev add_adverse :
      Option String → Option F → VirtualFill F → Dict String (List F) → Dict String (List F)
  add_adverse (some id) (some fair) f d = insert id (get_or [] id d ++ (adverse_of f fair ∷ [])) d
  add_adverse _ _ f d = d

  abbrev count_horizons : VirtualFill F → Tally F → Tally F
  count_horizons f t = record t {
    adverse_1s = count_adverse f f.fair_after_1s t.adverse_1s;
    adverse_5s = count_adverse f f.fair_after_5s t.adverse_5s;
    adverse_30s = count_adverse f f.fair_after_30s t.adverse_30s;
    shock_adverse_5s = add_adverse (shock_id_of f) f.fair_after_5s f t.shock_adverse_5s;
  }

  abbrev value_fill : Option F → VirtualFill F → Tally F → Tally F
  value_fill last_fair f t = record t {
    fill_values = t.fill_values ++ ((or_number last_fair f.fill_price * t.base + t.cash) ∷ []);
  }

  -- One round of the loop over the fills.
  unfoldable pub count_fill : Option F → Tally F → VirtualFill F → Tally F
  count_fill last_fair t f =
      let counted = count_capture f (known_fair f) (count_shock f (shock_id_of f) t) in
      value_fill last_fair f (count_horizons f (settle_fill counted f))

  unfoldable pub count_fills : Option F → Tally F → List (VirtualFill F) → Tally F
  count_fills last_fair t [] = t
  count_fills last_fair t (f ∷ fs) = count_fills last_fair (count_fill last_fair t f) fs

  unfoldable pub new_tally : (initial_base initial_quote : F) → Tally F
  new_tally initial_base initial_quote = record {
    cash = initial_quote;
    base = initial_base;
    realized = dec 0 0;
    adverse_1s = [];
    adverse_5s = [];
    adverse_30s = [];
    spread_capture = [];
    fill_values = [];
    shock_fill_counts = [];
    shock_direction_by_event = [];
    shock_spread_capture = [];
    shock_adverse_5s = [];
  }
