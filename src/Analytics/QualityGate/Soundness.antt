-- ===== src/Analytics/QualityGate/Soundness.antt =====
-- analytics/quality_gate.py passes exactly when every condition is met.
use mathlib.Core.Path.{subst}
use mathlib.Core.Option.{some-injective}
use ghost_amm.Base.{
  ◌≡◌, refl, sym, ap, ◌∙◌, ◌↔◌, Bool, true, false, not, ◌&&◌, Option, none, some, List, [], ◌∷◌,
  ◌++◌, All, length, arith,
}
use ghost_amm.Base.Int.{pos, ltb_ℤ}
use ghost_amm.Num.{Num, ltb, leb}
use ghost_amm.Analytics.QualityGate.{
  QualityGateThresholds, recording_inspection_not_ok, SummaryFile, GateReport, InspectionFile,
  Failure, QualityGateResult, when, is_empty, to_float, summary_reports, duration_failures,
  inspection_failures, report_failures, reports_failures, failures_of, judged,
  evaluate_quality_gate,
}

is_empty-append : (xs ys : List Failure) → is_empty (xs ++ ys) ≡ (is_empty xs && is_empty ys)
is_empty-append [] ys = refl
is_empty-append (x ∷ xs) ys = refl

both_empty :
    (xs ys : List Failure)
    → (is_empty (xs ++ ys) ≡ true) ↔ ((is_empty xs ≡ true) × (is_empty ys ≡ true))
both_empty xs ys = ground (arith, is_empty-append xs ys)

when_lem : (test : Bool) (f : Failure) → (is_empty (when test f) ≡ true) ↔ (test ≡ false)
when_lem test f = ground arith

module _ {F : Type 0} ⦃n : Num F⦄ where
  pub record IsGood (t : QualityGateThresholds F) (r : GateReport F) : Type 0 where
    pub fills : ltb_ℤ r.virtual_fills t.min_fills ≡ false
    pub fill_rate : ltb r.fill_rate t.min_fill_rate ≡ false
    pub alpha : leb r.strategy_alpha_pnl t.min_strategy_alpha_pnl ≡ false
    pub orders : ltb t.max_orders_per_minute r.orders_per_minute ≡ false
    pub cancels : ltb t.max_cancels_per_minute r.cancels_per_minute ≡ false

  pub record IsInspected (t : QualityGateThresholds F) (i : InspectionFile F) : Type 0 where
    pub ok_for_replay : i.ok_for_replay ≡ true
    pub hours : F
    pub duration : to_float i.duration_hours ≡ some hours
    pub long_enough : ltb hours t.min_recording_hours ≡ false

  -- Enough reports, each of them good, of a recording that was inspected and is long enough.
  pub record IsPassing (t : QualityGateThresholds F) (inspection : Option (InspectionFile F))
      (reports : List (GateReport F)) : Type 0 where
    pub enough : ltb_ℤ (pos (length reports)) t.min_report_count ≡ false
    pub recording : (i : InspectionFile F) × (inspection ≡ some i) × IsInspected t i
    pub good : All (IsGood t) reports

  report_failures_iff :
      (t : QualityGateThresholds F) (r : GateReport F)
      → (is_empty (report_failures t r) ≡ true) ↔ IsGood t r
  unfolding report_failures
  report_failures_iff t r = (λ h. ground arith, λ h. ground arith)

  reports_failures_iff :
      (t : QualityGateThresholds F) (rs : List (GateReport F))
      → (is_empty (reports_failures t rs) ≡ true) ↔ All (IsGood t) rs
  unfolding reports_failures
  reports_failures_iff t [] = (λ h. tt, λ h. refl)
  reports_failures_iff t (r ∷ rs) = ground (
    arith,
    is_empty-append (report_failures t r) (reports_failures t rs),
    report_failures_iff t r,
    reports_failures_iff t rs,
  )

  duration_failures_iff :
      (t : QualityGateThresholds F) (o : Option F)
      → (is_empty (duration_failures t o) ≡ true)
        ↔ ((hours : F) × (o ≡ some hours) × (ltb hours t.min_recording_hours ≡ false))
  duration_failures_iff t none = (λ h. ground arith, λ (hours, e, k). ground arith)
  duration_failures_iff t (some x) = (
    λ h. (x, refl, (when_lem _ _).0 h),
    λ (hours, e, k).
        (when_lem _ _).1 (ap (λ y. ltb y t.min_recording_hours) (some-injective x hours e) ∙ k),
  )

  IsInspected-sound :
      (t : QualityGateThresholds F) (i : InspectionFile F)
      → is_empty (inspection_failures t (some i)) ≡ true
      → IsInspected t i
  unfolding inspection_failures
  IsInspected-sound t i h =
      let (ok, long) =
        (both_empty (when (not i.ok_for_replay) recording_inspection_not_ok)
            (duration_failures t (to_float i.duration_hours))).0
          h in
      let (hours, e, k) = (duration_failures_iff t (to_float i.duration_hours)).0 long in
      record {
        ok_for_replay =
            ground (arith, (when_lem (not i.ok_for_replay) recording_inspection_not_ok).0 ok);
        hours = hours;
        duration = e;
        long_enough = k;
      }

  IsInspected-complete :
      (t : QualityGateThresholds F) (i : InspectionFile F)
      → IsInspected t i
      → is_empty (inspection_failures t (some i)) ≡ true
  unfolding inspection_failures
  IsInspected-complete t i k =
      (both_empty (when (not i.ok_for_replay) recording_inspection_not_ok)
          (duration_failures t (to_float i.duration_hours))).1
        (
          (when_lem (not i.ok_for_replay) recording_inspection_not_ok).1 (ap not k.ok_for_replay),
          (duration_failures_iff t (to_float i.duration_hours)).1
              (k.hours, k.duration, k.long_enough),
        )

  inspection_failures_iff :
      (t : QualityGateThresholds F) (o : Option (InspectionFile F))
      → (is_empty (inspection_failures t o) ≡ true)
        ↔ ((i : InspectionFile F) × (o ≡ some i) × IsInspected t i)
  unfolding inspection_failures
  inspection_failures_iff t none = (λ h. ground arith, λ (i, e, k). ground arith)
  inspection_failures_iff t (some i) = (
    λ h. (i, refl, IsInspected-sound t i h),
    λ (j, e, k).
        subst (λ x. is_empty (inspection_failures t (some x)) ≡ true) (sym (some-injective i j e))
          (IsInspected-complete t j k),
  )

  failures_of_iff :
      (t : QualityGateThresholds F) (inspection : Option (InspectionFile F))
      (reports : List (GateReport F))
      → (is_empty (failures_of t inspection reports) ≡ true) ↔ IsPassing t inspection reports
  failures_of_iff t inspection reports = (
    λ h.
        let (enough, rest) = (both_empty _ _).0 h in
        let (inspected, good) = (both_empty _ _).0 rest in
        record {
          enough = (when_lem _ _).0 enough;
          recording = (inspection_failures_iff t inspection).0 inspected;
          good = (reports_failures_iff t reports).0 good;
        },
    λ p. (both_empty _ _).1 (
      (when_lem _ _).1 p.enough,
      (both_empty _ _).1 (
        (inspection_failures_iff t inspection).1 p.recording,
        (reports_failures_iff t reports).1 p.good,
      ),
    ),
  )

  -- Where every number of the summaries reads, the gate answers, for the reports of the summaries, and
  -- is ok exactly when there are enough reports, each of them has enough fills at a high enough rate, a
  -- profit above the baseline and not too many orders and cancels, and the recording was inspected, is
  -- fit for replay and long enough.
  pub evaluate_quality_gate_iff :
      (summaries : List (SummaryFile F)) (inspection : Option (InspectionFile F))
      (t : QualityGateThresholds F) (reports : List (GateReport F))
      → summary_reports summaries ≡ some reports
      → (r : QualityGateResult F) × (evaluate_quality_gate summaries inspection t ≡ some r)
        × (r.reports ≡ reports)
        × ((r.ok ≡ true) ↔ IsPassing t inspection reports)
  unfolding evaluate_quality_gate
  evaluate_quality_gate_iff summaries inspection t reports e =
      (judged t inspection reports, rw e refl, refl, failures_of_iff t inspection reports)
