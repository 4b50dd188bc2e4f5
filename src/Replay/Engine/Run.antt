-- ===== src/Replay/Engine/Run.antt =====
-- A whole run of replay/engine.py: what it feeds, what it returns and the state it leaves.
use mathlib.Core.Path.{subst, ap₂}
use ghost_amm.Base.{
  ◌≡◌, refl, sym, ◌∙◌, ap, Bool, false, not, ◌&&◌, Option, String, List, [], ◌∷◌, ◌++◌, All,
  All-append, ◌⊎◌, inl, inr, Bool-cases,
}
use ghost_amm.Num.{Num}
use ghost_amm.Events.{Event}
use ghost_amm.PipelineState.{
  Emitted, mark_price, forced_flow, virtual_fill, risk_state, virtual_order, live_order_intent,
  live_order_blocked, Pipeline, Outside, Result, ok, raised,
}
use ghost_amm.Pipeline.{process}
use ghost_amm.Pipeline.Observation.{IsBlocked, process-IsBlocked}
use ghost_amm.Pipeline.Tracking.{IsBooked}
use ghost_amm.Pipeline.Books.{process-IsBooked}
use ghost_amm.Replay.Engine.{
  Output, fed, emitted, ReplayConfig, Replayed, done, answers, with_answers, reported, answered,
  process_all, enrich_fair_after, enriched, order_events, run, run_ordered, is_monotonic,
  or_setting,
}
use ghost_amm.Replay.Engine.Sequences.{AreInSequence, is_monotonic_iff}
use ghost_amm.Replay.Engine.Outcome.{
  Yields, bind-Yields, map-Yields, of_yields, self-Yields, strict_or,
}
use ghost_amm.Replay.Engine.Enrichment.{bare, bare_emitted, enrich_fair_after-bare}

module _ {F : Type 0} where
  -- The events that were fed in, in the order of the output.
  abbrev pub fed_events : List (Output F) → List (Event F)
  fed_events [] = []
  fed_events (fed e report ∷ rest) = e ∷ fed_events rest
  fed_events (emitted ts x ∷ rest) = fed_events rest

  -- No emitted event reports a live order as allowed.
  abbrev pub OutputIsBlocked : Output F → Type 0
  OutputIsBlocked (fed e report) = Unit
  OutputIsBlocked (emitted ts x) = IsBlocked x

module _ {F : Type 0} ⦃n : Num F⦄ where
  fed_events-answers :
      (ts : F) (xs : List (Emitted F)) (rest : List (Output F))
      → fed_events (answers ts xs ++ rest) ≡ fed_events rest
  fed_events-answers ts [] rest = refl
  fed_events-answers ts (x ∷ xs) rest = fed_events-answers ts xs rest

  answers-blocked :
      (ts : F) (xs : List (Emitted F)) → All IsBlocked xs → All OutputIsBlocked (answers ts xs)
  answers-blocked ts [] h = tt
  answers-blocked ts (x ∷ xs) (h, hs) = (h, answers-blocked ts xs hs)

  -- The events went in one by one in this order, no live order was allowed, and the two books of
  -- virtual orders agree at the end.
  pub record IsRunOf (es : List (Event F)) (p : Pipeline F) (out : List (Output F)) : Type 0 where
    pub feeds : fed_events out ≡ es
    pub blocked : All OutputIsBlocked out
    pub booked : IsBooked p

  abbrev Ran : List (Event F) → Pipeline F × List (Output F) → Type 0
  Ran es (p, out) = IsRunOf es p out

  answered-Ran :
      (o : Outside F) (p : Pipeline F) (e : Event F) (es : List (Event F))
      (report : Option (Emitted F)) (r : Result (Pipeline F × List (Emitted F)))
      (next : Pipeline F → Replayed (Pipeline F × List (Output F)))
      → process o p e ≡ r
      → IsBooked p
      → ((p' : Pipeline F) → IsBooked p' → Yields (Ran es) (next p'))
      → Yields (Ran (e ∷ es)) (answered e report r next)
  answered-Ran o p e es report (raised error) next q b h = tt
  answered-Ran o p e es report (ok (p', events)) next q b h =
      bind-Yields (Ran es) (Ran (e ∷ es)) (next p') (with_answers e report events)
        (h p' (process-IsBooked o p p' e events b q))
        (λ (p'', rest) ran. record {
          feeds = ap (λ xs. e ∷ xs) (fed_events-answers e.ts_exchange events rest ∙ ran.feeds);
          blocked = (
            tt,
            All-append OutputIsBlocked (answers e.ts_exchange events) rest
                (answers-blocked e.ts_exchange events (process-IsBlocked o p p' e events q))
                ran.blocked,
          );
          booked = ran.booked;
        })

  process_all-Ran :
      (o : Outside F) (p : Pipeline F) (es : List (Event F))
      → IsBooked p
      → Yields (Ran es) (process_all o p es)
  unfolding process_all
  process_all-Ran o p [] b = record { feeds = refl; blocked = tt; booked = b }
  process_all-Ran o p (e ∷ es) b =
      answered-Ran o p e es (reported o e.payload) (process o p e) (λ p'. process_all o p' es) refl
        b (λ p' b'. process_all-Ran o p' es b')

  bare-fed : (out : List (Output F)) → fed_events (bare out) ≡ fed_events out
  bare-fed [] = refl
  bare-fed (fed e report ∷ out) = ap (λ xs. e ∷ xs) (bare-fed out)
  bare-fed (emitted ts x ∷ out) = bare-fed out

  bare_emitted-IsBlocked : (x : Emitted F) → IsBlocked (bare_emitted x) ≡ IsBlocked x
  bare_emitted-IsBlocked (mark_price s) = refl
  bare_emitted-IsBlocked (forced_flow s) = refl
  bare_emitted-IsBlocked (virtual_fill f) = refl
  bare_emitted-IsBlocked (risk_state r) = refl
  bare_emitted-IsBlocked (virtual_order e) = refl
  bare_emitted-IsBlocked (live_order_intent i) = refl
  bare_emitted-IsBlocked (live_order_blocked i r) = refl

  bare-OutputIsBlocked :
      (out : List (Output F)) → All OutputIsBlocked (bare out) ≡ All OutputIsBlocked out
  bare-OutputIsBlocked [] = refl
  bare-OutputIsBlocked (fed e report ∷ out) = ap (λ P. Unit × P) (bare-OutputIsBlocked out)
  bare-OutputIsBlocked (emitted ts x ∷ out) =
      ap₂ (λ P Q. P × Q) (bare_emitted-IsBlocked x) (bare-OutputIsBlocked out)

  enriched-Ran :
      (es : List (Event F)) (p : Pipeline F) (out : List (Output F))
      → IsRunOf es p out
      → IsRunOf es p (enrich_fair_after out)
  enriched-Ran es p out h =
      let same = enrich_fair_after-bare out in
      record {
        feeds =
            sym (bare-fed (enrich_fair_after out)) ∙ ap fed_events same ∙ bare-fed out ∙ h.feeds;
        blocked =
            subst (λ P. P)
              (sym (bare-OutputIsBlocked out)
                ∙ ap (All OutputIsBlocked) (sym same)
                ∙ bare-OutputIsBlocked (enrich_fair_after out))
              h.blocked;
        booked = h.booked;
      }

  -- The events were put in order as asked, in sequence where the run is strict, and run in that order.
  pub record IsRun (c : ReplayConfig) (es : List (Event F)) (replay_order : Option String)
      (strict : Option Bool) (p : Pipeline F) (out : List (Output F)) : Type 0 where
    pub ordered : List (Event F)
    pub in_order : order_events c es replay_order ≡ done ordered
    pub in_sequence : (or_setting strict c.strict_sequence ≡ false) ⊎ AreInSequence ordered
    pub ran : IsRunOf ordered p out

  run_ordered-Yields :
      (c : ReplayConfig) (o : Outside F) (p : Pipeline F) (strict : Option Bool)
      (es : List (Event F))
      → IsBooked p
      → Yields
          (λ (p', out).
            ((or_setting strict c.strict_sequence ≡ false) ⊎ AreInSequence es) × IsRunOf es p' out)
          (run_ordered c o p strict es)
  run_ordered-Yields c o p strict es b =
      elim (Bool-cases (or_setting strict c.strict_sequence && not (is_monotonic [] es))) [
        | inl bad ↦ rw bad tt
        | inr fine ↦
            let sequence : (or_setting strict c.strict_sequence ≡ false) ⊎ AreInSequence es =
              elim (strict_or _ _ fine) [
                | inl l ↦ inl l
                | inr m ↦ inr ((is_monotonic_iff es).0 m)
              ] in
            rw fine (
              bind-Yields (Ran es) _ (process_all o p es) enriched (process_all-Ran o p es b)
                (λ (p', out) h. (sequence, enriched-Ran es p' out h)))
      ]

  run-Yields :
      (c : ReplayConfig) (o : Outside F) (p : Pipeline F) (es : List (Event F))
      (replay_order : Option String) (strict : Option Bool)
      → IsBooked p
      → Yields
          (λ (p', out). IsRun c es replay_order strict p' out)
          (run c o p es replay_order strict)
  unfolding run
  run-Yields c o p es replay_order strict b =
      bind-Yields (λ ordered. order_events c es replay_order ≡ done ordered) _
        (order_events c es replay_order) (run_ordered c o p strict) (self-Yields _)
        (λ ordered q.
          map-Yields _ _ (run_ordered c o p strict ordered)
            (λ a (sequence, ran). record {
              ordered = ordered;
              in_order = q;
              in_sequence = sequence;
              ran = ran;
            })
            (run_ordered-Yields c o p strict ordered b))

  -- A run that returns has fed the events in the order asked for, in sequence where it is strict, never
  -- reports a live order as allowed and leaves the two books of virtual orders in agreement.
  pub run-IsRun :
      (c : ReplayConfig) (o : Outside F) (p p' : Pipeline F) (es : List (Event F))
      (replay_order : Option String) (strict : Option Bool) (out : List (Output F))
      → IsBooked p
      → run c o p es replay_order strict ≡ done (p', out)
      → IsRun c es replay_order strict p' out
  run-IsRun c o p p' es replay_order strict out b r =
      of_yields (λ (p', out). IsRun c es replay_order strict p' out)
        (run c o p es replay_order strict) (p', out) r (run-Yields c o p es replay_order strict b)
