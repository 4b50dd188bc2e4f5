-- ===== src/Analytics/QualityGate.antt =====
-- ghost_amm/analytics/quality_gate.py: whether the reports of replays are good enough. The JSON files
-- are taken as read; a file that is no JSON object raises before anything else is looked at.
use ghost_amm.Base.{
  ℕ, Bool, true, false, not, Option, none, some, String, List, [], ◌∷◌, ◌++◌, length, if◌then◌else◌,
}
use ghost_amm.Base.Int.{ℤ, pos, ltb_ℤ}
use ghost_amm.Num.{Num, dec, ltb, leb}
use ghost_amm.Events.{Field, missing, null, unreadable, number}
pub mod Soundness
mod Tests

pub record QualityGateThresholds (F : Type 0) : Type 0 where
  pub min_report_count : ℤ
  pub min_recording_hours : F
  pub min_fills : ℤ
  pub min_fill_rate : F
  pub min_strategy_alpha_pnl : F
  pub max_orders_per_minute : F
  pub max_cancels_per_minute : F

-- The numbers of a summary file that are read.
pub record SummaryFile (F : Type 0) : Type 0 where
  pub path : String
  pub strategy_alpha_pnl : Field F
  pub virtual_fills : Field F
  pub virtual_orders : Field F
  pub fill_rate : Field F
  pub orders_per_minute : Field F
  pub cancels_per_minute : Field F
  pub fill_per_active_second : Field F

pub record GateReport (F : Type 0) : Type 0 where
  pub path : String
  pub strategy_alpha_pnl : F
  pub virtual_fills : ℤ
  pub virtual_orders : ℤ
  pub fill_rate : F
  pub orders_per_minute : F
  pub cancels_per_minute : F
  pub fill_per_active_second : F

-- `ok_for_replay` by its truth.
pub record InspectionFile (F : Type 0) : Type 0 where
  pub ok_for_replay : Bool
  pub duration_hours : Field F

-- The failures, those of a report with its path.
pub data Failure : Type 0 where
  report_count_below_min : Failure
  recording_inspection_required : Failure
  recording_inspection_not_ok : Failure
  recording_duration_missing : Failure
  recording_duration_below_min : Failure
  fills_below_min : String → Failure
  fill_rate_below_min : String → Failure
  strategy_alpha_not_positive : String → Failure
  orders_per_minute_above_max : String → Failure
  cancels_per_minute_above_max : String → Failure

pub record QualityGateResult (F : Type 0) : Type 0 where
  pub ok : Bool
  pub failures : List Failure
  pub reports : List (GateReport F)

abbrev pub when : Bool → Failure → List Failure
when test failure = if test then failure ∷ [] else []

abbrev pub is_empty : List Failure → Bool
is_empty [] = true
is_empty (f ∷ fs) = false

infixl 5 ◌>>=◌
abbrev pub ◌>>=◌ : {A B : Type 0} → Option A → (A → Option B) → Option B
some a >>= f = f a
none >>= f = none

module _ {F : Type 0} ⦃n : Num F⦄ where
  -- The defaults of the thresholds.
  unfoldable pub default_thresholds : QualityGateThresholds F
  default_thresholds = record {
    min_report_count = pos 2;
    min_recording_hours = dec 24 0;
    min_fills = pos 30;
    min_fill_rate = dec 1 3;
    min_strategy_alpha_pnl = dec 0 0;
    max_orders_per_minute = dec 10 0;
    max_cancels_per_minute = dec 10 0;
  }

  abbrev pub to_float : Field F → Option F
  to_float missing = none
  to_float null = none
  to_float unreadable = none
  to_float (number x) = some x

  -- `_summary_report`, `none` where `_required_float` raises
  unfoldable pub summary_report : SummaryFile F → Option (GateReport F)
  summary_report s = do
    alpha ← to_float s.strategy_alpha_pnl
    fills ← to_float s.virtual_fills
    orders ← to_float s.virtual_orders
    fill_rate ← to_float s.fill_rate
    per_minute ← to_float s.orders_per_minute
    canceled ← to_float s.cancels_per_minute
    active ← to_float s.fill_per_active_second
    some (record {
      path = s.path;
      strategy_alpha_pnl = alpha;
      virtual_fills = n.truncate fills;
      virtual_orders = n.truncate orders;
      fill_rate = fill_rate;
      orders_per_minute = per_minute;
      cancels_per_minute = canceled;
      fill_per_active_second = active;
    })

  unfoldable pub summary_reports : List (SummaryFile F) → Option (List (GateReport F))
  summary_reports [] = some []
  summary_reports (s ∷ ss) = do r ← summary_report s; rs ← summary_reports ss; some (r ∷ rs)

  abbrev duration_failures : QualityGateThresholds F → Option F → List Failure
  duration_failures t none = recording_duration_missing ∷ []
  duration_failures t (some hours) =
      when (ltb hours t.min_recording_hours) recording_duration_below_min

  unfoldable pub inspection_failures :
      QualityGateThresholds F → Option (InspectionFile F) → List Failure
  inspection_failures t none = recording_inspection_required ∷ []
  inspection_failures t (some i) =
      when (not i.ok_for_replay) recording_inspection_not_ok
      ++ duration_failures t (to_float i.duration_hours)

  -- One round of the loop over the reports.
  unfoldable pub report_failures : QualityGateThresholds F → GateReport F → List Failure
  report_failures t r =
      when (ltb_ℤ r.virtual_fills t.min_fills) (fills_below_min r.path)
      ++ (when (ltb r.fill_rate t.min_fill_rate) (fill_rate_below_min r.path)
          ++ (when (leb r.strategy_alpha_pnl t.min_strategy_alpha_pnl)
                (strategy_alpha_not_positive r.path)
              ++ (when (ltb t.max_orders_per_minute r.orders_per_minute)
                    (orders_per_minute_above_max r.path)
                  ++ when (ltb t.max_cancels_per_minute r.cancels_per_minute)
                      (cancels_per_minute_above_max r.path))))

  unfoldable pub reports_failures : QualityGateThresholds F → List (GateReport F) → List Failure
  reports_failures t [] = []
  reports_failures t (r ∷ rs) = report_failures t r ++ reports_failures t rs

  abbrev pub failures_of :
      QualityGateThresholds F → Option (InspectionFile F) → List (GateReport F) → List Failure
  failures_of t inspection reports =
      when (ltb_ℤ (pos (length reports)) t.min_report_count) report_count_below_min
      ++ (inspection_failures t inspection ++ reports_failures t reports)

  abbrev pub judged :
      QualityGateThresholds F
      → Option (InspectionFile F)
      → List (GateReport F)
      → QualityGateResult F
  judged t inspection reports =
      let failures = failures_of t inspection reports in
      record { ok = is_empty failures; failures = failures; reports = reports }

  -- `none` for the inspection where no path is given for it; the answer is `none` where a summary
  -- raises.
  unfoldable pub evaluate_quality_gate :
      List (SummaryFile F)
      → Option (InspectionFile F)
      → QualityGateThresholds F
      → Option (QualityGateResult F)
  evaluate_quality_gate summaries inspection t = do
    reports ← summary_reports summaries
    some (judged t inspection reports)
