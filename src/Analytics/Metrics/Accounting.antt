-- ===== src/Analytics/Metrics/Accounting.antt =====
-- The balances of analytics/metrics.py are those of the pipeline's inventory after the run.
use mathlib.Core.Path.{subst}
use ghost_amm.Base.{
  ◌≡◌, refl, sym, ap, ◌∙◌, inl, inr, Bool, not, ◌&&◌, Bool-cases, Option, none, some, String, List,
  [], ◌∷◌, ◌++◌, All,
}
use ghost_amm.Num.{Num, ◌+◌, ◌-◌, ◌*◌}
use ghost_amm.Events.{Event}
use ghost_amm.Exchange.BitbankRules.{Side, buy, sell, other_side}
use ghost_amm.Amm.Inventory.{InventoryState, apply_fill}
use ghost_amm.Replay.FillModel.{VirtualFill}
use ghost_amm.PipelineState.{
  Emitted, mark_price, forced_flow, virtual_fill, risk_state, virtual_order, live_order_intent,
  live_order_blocked, Pipeline, Outside, Result, ok, raised,
}
use ghost_amm.Pipeline.{process}
use ghost_amm.PipelineState.Outcome.{of_gives}
use ghost_amm.Pipeline.Payment.{IsKnownSide, fills_in, Pays, Pays-append, process-Paid}
use ghost_amm.Replay.Engine.{
  Output, fed, emitted, ReplayConfig, Replayed, reported, answers, with_answers, answered,
  process_all, enrich_fair_after, enriched, order_events, run, run_ordered, is_monotonic,
  or_setting,
}
use ghost_amm.Replay.Engine.Outcome.{Yields, bind-Yields}
use ghost_amm.Replay.Engine.Order.{order_events-All}
use ghost_amm.Replay.Engine.Enrichment.{bare, bare_report, enrich_fair_after-bare}
use ghost_amm.Analytics.Metrics.{
  Tally, add_fill, fills_of, count_capture, count_shock, known_fair, shock_id_of, settle_fill,
  count_fill, count_fills,
}

module _ {F : Type 0} ⦃n : Num F⦄ where
  abbrev pub AgreesWith : Tally F → InventoryState F → Type 0
  AgreesWith t i = (t.base ≡ i.base_qty) × (t.cash ≡ i.quote_qty)

  count_shock-keeps :
      (f : VirtualFill F) (id : Option String) (t : Tally F) (i : InventoryState F)
      → AgreesWith t i
      → AgreesWith (count_shock f id t) i
  count_shock-keeps f none t i h = h
  count_shock-keeps f (some id) t i h = h

  count_capture-keeps :
      (f : VirtualFill F) (fair : Option F) (t : Tally F) (i : InventoryState F)
      → AgreesWith t i
      → AgreesWith (count_capture f fair t) i
  count_capture-keeps f none t i h = h
  count_capture-keeps f (some fair) t i h = h

  -- A fill moves the balances of both alike.
  settle_fill-apply_fill :
      (s : Side) (f : VirtualFill F) (t : Tally F) (i : InventoryState F)
      → f.side ≡ s
      → IsKnownSide s
      → AgreesWith t i
      → AgreesWith (settle_fill t f) (apply_fill i f.side f.fill_price f.fill_size f.fee).0
  unfolding settle_fill apply_fill
  settle_fill-apply_fill buy f t i e known (b, c) =
      rw e (ap (λ x. x + f.fill_size) b, ap (λ x. x - (f.fill_price * f.fill_size + f.fee)) c)
  settle_fill-apply_fill sell f t i e known (b, c) =
      rw e (ap (λ x. x - f.fill_size) b, ap (λ x. x + (f.fill_price * f.fill_size - f.fee)) c)
  settle_fill-apply_fill (other_side name) f t i e known h = absurd known

  pub count_fills-AgreesWith :
      (last_fair : Option F) (fs : List (VirtualFill F)) (t : Tally F) (i i' : InventoryState F)
      → AgreesWith t i
      → Pays i fs i'
      → AgreesWith (count_fills last_fair t fs) i'
  unfolding count_fills count_fill
  count_fills-AgreesWith last_fair [] t i i' h e = subst (AgreesWith t) (sym e) h
  count_fills-AgreesWith last_fair (f ∷ fs) t i i' h (known, g) =
      count_fills-AgreesWith last_fair fs (count_fill last_fair t f) _ i'
        (settle_fill-apply_fill f.side f _ i refl known
          (count_capture-keeps f (known_fair f) _ i (count_shock-keeps f (shock_id_of f) t i h)))
        g

  fills_of-answers :
      (ts : F) (es : List (Emitted F)) (rest : List (Output F))
      → fills_of (answers ts es ++ rest) ≡ fills_in es ++ fills_of rest
  unfolding fills_of
  fills_of-answers ts [] rest = refl
  fills_of-answers ts (virtual_fill f ∷ es) rest = ap (λ fs. f ∷ fs) (fills_of-answers ts es rest)
  fills_of-answers ts (mark_price s ∷ es) rest = fills_of-answers ts es rest
  fills_of-answers ts (forced_flow s ∷ es) rest = fills_of-answers ts es rest
  fills_of-answers ts (risk_state s ∷ es) rest = fills_of-answers ts es rest
  fills_of-answers ts (virtual_order s ∷ es) rest = fills_of-answers ts es rest
  fills_of-answers ts (live_order_intent s ∷ es) rest = fills_of-answers ts es rest
  fills_of-answers ts (live_order_blocked i s ∷ es) rest = fills_of-answers ts es rest

  abbrev pub PaidOut : InventoryState F → Pipeline F × List (Output F) → Type 0
  PaidOut i (p, out) = Pays i (fills_of out) p.inventory

  -- An event that brings no fill of an earlier run.
  abbrev IsNoFillIn : Option (Emitted F) → Type 0
  IsNoFillIn (some (virtual_fill f)) = ⊥
  IsNoFillIn _ = Unit

  abbrev pub BringsNoFill : Outside F → Event F → Type 0
  BringsNoFill o e = IsNoFillIn (reported o e.payload)

  add_fill_none :
      (report : Option (Emitted F)) (fills : List (VirtualFill F))
      → IsNoFillIn report
      → add_fill report fills ≡ fills
  add_fill_none (some (virtual_fill f)) fills h = absurd h
  add_fill_none _ fills h = refl

  answered-PaidOut :
      (o : Outside F) (p : Pipeline F) (e : Event F) (report : Option (Emitted F))
      (r : Result (Pipeline F × List (Emitted F)))
      (next : Pipeline F → Replayed (Pipeline F × List (Output F)))
      → IsNoFillIn report
      → process o p e ≡ r
      → ((p' : Pipeline F) → Yields (PaidOut p'.inventory) (next p'))
      → Yields (PaidOut p.inventory) (answered e report r next)
  unfolding fills_of
  answered-PaidOut o p e report (raised error) next none_in q h = tt
  answered-PaidOut o p e report (ok (p', events)) next none_in q h =
      bind-Yields (PaidOut p'.inventory) (PaidOut p.inventory) (next p')
        (with_answers e report events) (h p')
        (λ (p'', rest) paid.
          subst (λ fs. Pays p.inventory fs p''.inventory)
            (sym (
              add_fill_none report (fills_of (answers e.ts_exchange events ++ rest)) none_in
              ∙ fills_of-answers e.ts_exchange events rest))
            (Pays-append (fills_in events) (fills_of rest) p.inventory p'.inventory p''.inventory
              (of_gives _ (process o p e) (p', events) q (process-Paid o p e)) paid))

  process_all-PaidOut :
      (o : Outside F) (es : List (Event F)) (p : Pipeline F)
      → All (BringsNoFill o) es
      → Yields (PaidOut p.inventory) (process_all o p es)
  unfolding process_all fills_of
  process_all-PaidOut o [] p h = refl
  process_all-PaidOut o (e ∷ es) p (h, hs) =
      answered-PaidOut o p e (reported o e.payload) (process o p e) (λ p'. process_all o p' es) h
        refl (λ p'. process_all-PaidOut o es p' hs)

  -- The later fair prices do not matter.
  bare_report-Pays :
      (report : Option (Emitted F)) (bared fills : List (VirtualFill F)) (i i' : InventoryState F)
      → ((j : InventoryState F) → Pays j bared i' ≡ Pays j fills i')
      → Pays i (add_fill (bare_report report) bared) i' ≡ Pays i (add_fill report fills) i'
  bare_report-Pays none bared fills i i' h = h i
  bare_report-Pays (some (virtual_fill f)) bared fills i i' h =
      ap (λ P. IsKnownSide f.side × P) (h _)
  bare_report-Pays (some (mark_price s)) bared fills i i' h = h i
  bare_report-Pays (some (forced_flow s)) bared fills i i' h = h i
  bare_report-Pays (some (risk_state s)) bared fills i i' h = h i
  bare_report-Pays (some (virtual_order s)) bared fills i i' h = h i
  bare_report-Pays (some (live_order_intent s)) bared fills i i' h = h i
  bare_report-Pays (some (live_order_blocked s r)) bared fills i i' h = h i

  bare-Pays :
      (out : List (Output F)) (i i' : InventoryState F)
      → Pays i (fills_of (bare out)) i' ≡ Pays i (fills_of out) i'
  unfolding fills_of
  bare-Pays [] i i' = refl
  bare-Pays (fed e report ∷ out) i i' =
      bare_report-Pays report (fills_of (bare out)) (fills_of out) i i' (λ j. bare-Pays out j i')
  bare-Pays (emitted ts x ∷ out) i i' =
      bare_report-Pays (some x) (fills_of (bare out)) (fills_of out) i i' (λ j. bare-Pays out j i')

  enriched-PaidOut :
      (i : InventoryState F) (p : Pipeline F) (out : List (Output F))
      → PaidOut i (p, out)
      → PaidOut i (p, enrich_fair_after out)
  enriched-PaidOut i p out h =
      subst (λ P. P)
        (sym (bare-Pays out i p.inventory)
          ∙ ap (λ os. Pays i (fills_of os) p.inventory) (sym (enrich_fair_after-bare out))
          ∙ bare-Pays (enrich_fair_after out) i p.inventory)
        h

  run_ordered-PaidOut :
      (c : ReplayConfig) (o : Outside F) (p : Pipeline F) (strict : Option Bool)
      (es : List (Event F))
      → All (BringsNoFill o) es
      → Yields (PaidOut p.inventory) (run_ordered c o p strict es)
  run_ordered-PaidOut c o p strict es h =
      elim (Bool-cases (or_setting strict c.strict_sequence && not (is_monotonic [] es))) [
        | inl bad ↦ rw bad tt
        | inr fine ↦ rw fine (
            bind-Yields (PaidOut p.inventory) (PaidOut p.inventory) (process_all o p es) enriched
              (process_all-PaidOut o es p h)
              (λ (p', out) paid. enriched-PaidOut p.inventory p' out paid))
      ]

  pub run-PaidOut :
      (c : ReplayConfig) (o : Outside F) (p : Pipeline F) (es : List (Event F))
      (replay_order : Option String) (strict : Option Bool)
      → All (BringsNoFill o) es
      → Yields (PaidOut p.inventory) (run c o p es replay_order strict)
  unfolding run
  run-PaidOut c o p es replay_order strict h =
      bind-Yields (All (BringsNoFill o)) _ (order_events c es replay_order)
        (run_ordered c o p strict) (order_events-All _ c es replay_order h)
        (λ ordered hs. run_ordered-PaidOut c o p strict ordered hs)
