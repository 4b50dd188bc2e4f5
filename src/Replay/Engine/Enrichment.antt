-- ===== src/Replay/Engine/Enrichment.antt =====
-- What `enrich_fair_after` of replay/engine.py changes.
use mathlib.Core.Path.{ap₂}
use ghost_amm.Base.{◌≡◌, refl, ap, Option, none, some, List, [], ◌∷◌}
use ghost_amm.Num.{Num}
use ghost_amm.Replay.FillModel.{VirtualFill}
use ghost_amm.PipelineState.{
  Emitted, mark_price, forced_flow, virtual_fill, risk_state, virtual_order, live_order_intent,
  live_order_blocked,
}
use ghost_amm.Replay.Engine.{
  Output, fed, emitted, fair_points, enrich_emitted, enrich_report, enrich_all, enrich_from,
  enrich_fair_after,
}

module _ {F : Type 0} where
  -- A fill without what the enrichment fills in.
  abbrev bare_fill : VirtualFill F → VirtualFill F
  bare_fill f = record f { fair_after_1s = none; fair_after_5s = none; fair_after_30s = none }

  abbrev pub bare_emitted : Emitted F → Emitted F
  bare_emitted (virtual_fill f) = virtual_fill (bare_fill f)
  bare_emitted (mark_price s) = mark_price s
  bare_emitted (forced_flow s) = forced_flow s
  bare_emitted (risk_state r) = risk_state r
  bare_emitted (virtual_order e) = virtual_order e
  bare_emitted (live_order_intent i) = live_order_intent i
  bare_emitted (live_order_blocked i r) = live_order_blocked i r

  abbrev pub bare_report : Option (Emitted F) → Option (Emitted F)
  bare_report none = none
  bare_report (some x) = some (bare_emitted x)

  abbrev pub bare : List (Output F) → List (Output F)
  bare [] = []
  bare (fed e report ∷ rest) = fed e (bare_report report) ∷ bare rest
  bare (emitted ts x ∷ rest) = emitted ts (bare_emitted x) ∷ bare rest

module _ {F : Type 0} ⦃n : Num F⦄ where
  enrich_emitted-bare :
      (first : F × F) (points : List (F × F)) (ts : F) (x : Emitted F)
      → bare_emitted (enrich_emitted first points ts x) ≡ bare_emitted x
  enrich_emitted-bare first points ts (virtual_fill f) = refl
  enrich_emitted-bare first points ts (mark_price s) = refl
  enrich_emitted-bare first points ts (forced_flow s) = refl
  enrich_emitted-bare first points ts (risk_state s) = refl
  enrich_emitted-bare first points ts (virtual_order s) = refl
  enrich_emitted-bare first points ts (live_order_intent s) = refl
  enrich_emitted-bare first points ts (live_order_blocked i s) = refl

  enrich_report-bare :
      (first : F × F) (points : List (F × F)) (ts : F) (report : Option (Emitted F))
      → bare_report (enrich_report first points ts report) ≡ bare_report report
  enrich_report-bare first points ts none = refl
  enrich_report-bare first points ts (some x) = ap some (enrich_emitted-bare first points ts x)

  enrich_all-bare :
      (first : F × F) (points : List (F × F)) (out : List (Output F))
      → bare (enrich_all first points out) ≡ bare out
  unfolding enrich_all
  enrich_all-bare first points [] = refl
  enrich_all-bare first points (fed e report ∷ rest) =
      ap₂ (λ r rs. fed e r ∷ rs) (enrich_report-bare first points e.ts_exchange report)
        (enrich_all-bare first points rest)
  enrich_all-bare first points (emitted ts x ∷ rest) =
      ap₂ (λ y rs. emitted ts y ∷ rs) (enrich_emitted-bare first points ts x)
        (enrich_all-bare first points rest)

  enrich_from-bare :
      (points : List (F × F)) (out : List (Output F)) → bare (enrich_from points out) ≡ bare out
  enrich_from-bare [] out = refl
  enrich_from-bare (first ∷ points) out = enrich_all-bare first points out

  -- The enrichment changes nothing but the three later fair prices of the fills: the events, their
  -- order and all other fields stay.
  pub enrich_fair_after-bare : (out : List (Output F)) → bare (enrich_fair_after out) ≡ bare out
  unfolding enrich_fair_after
  enrich_fair_after-bare out = enrich_from-bare (fair_points out) out
