-- ===== src/Analytics/QualityGate/Tests.antt =====
-- analytics/quality_gate.py on two good reports and one bad one.
use ghost_amm.Base.{◌≡◌, ◌↔◌, refl, Bool, true, false, Option, none, some, [], ◌∷◌}
use ghost_amm.Base.Int.{ℤ, pos}
use ghost_amm.Num.Whole.{whole}
use ghost_amm.Events.{number}
use ghost_amm.Analytics.QualityGate.{
  SummaryFile, GateReport, InspectionFile, QualityGateResult, default_thresholds,
  evaluate_quality_gate,
}
use ghost_amm.Analytics.QualityGate.Soundness.{IsPassing, evaluate_quality_gate_iff}

abbrev summary : SummaryFile ℤ
summary = record {
  path = "a.json";
  strategy_alpha_pnl = number (pos 12);
  virtual_fills = number (pos 40);
  virtual_orders = number (pos 900);
  fill_rate = number (pos 1);
  orders_per_minute = number (pos 3);
  cancels_per_minute = number (pos 2);
  fill_per_active_second = number (pos 1);
}

abbrev report : GateReport ℤ
report = record {
  path = "a.json";
  strategy_alpha_pnl = pos 12;
  virtual_fills = pos 40;
  virtual_orders = pos 900;
  fill_rate = pos 1;
  orders_per_minute = pos 3;
  cancels_per_minute = pos 2;
  fill_per_active_second = pos 1;
}

abbrev inspection : InspectionFile ℤ
inspection = record { ok_for_replay = true; duration_hours = number (pos 30) }

abbrev ok_of : Option (QualityGateResult ℤ) → Option Bool
ok_of none = none
ok_of (some r) = some r.ok

passes :
    ok_of (evaluate_quality_gate (summary ∷ summary ∷ []) (some inspection) default_thresholds)
    ≡ some true
unfolding evaluate_quality_gate ghost_amm.Analytics.QualityGate.summary_reports
    ghost_amm.Analytics.QualityGate.summary_report default_thresholds
    ghost_amm.Analytics.QualityGate.inspection_failures
    ghost_amm.Analytics.QualityGate.reports_failures ghost_amm.Analytics.QualityGate.report_failures
passes = refl

fails_without_inspection :
    ok_of (evaluate_quality_gate (summary ∷ summary ∷ []) none default_thresholds) ≡ some false
unfolding evaluate_quality_gate ghost_amm.Analytics.QualityGate.summary_reports
    ghost_amm.Analytics.QualityGate.summary_report default_thresholds
    ghost_amm.Analytics.QualityGate.inspection_failures
fails_without_inspection = refl

evaluate_quality_gate_iff_example :
    (r : QualityGateResult ℤ) × (evaluate_quality_gate
        (summary ∷ summary ∷ [])
        (some inspection)
        default_thresholds
      ≡ some r)
    × (r.reports ≡ report ∷ report ∷ [])
    × ((r.ok ≡ true) ↔ IsPassing default_thresholds (some inspection) (report ∷ report ∷ []))
unfolding ghost_amm.Analytics.QualityGate.summary_reports
    ghost_amm.Analytics.QualityGate.summary_report
evaluate_quality_gate_iff_example =
    evaluate_quality_gate_iff (summary ∷ summary ∷ []) (some inspection) default_thresholds
      (report ∷ report ∷ []) refl
