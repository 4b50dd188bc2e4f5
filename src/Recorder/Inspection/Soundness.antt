-- ===== src/Recorder/Inspection/Soundness.antt =====
-- recorder/inspection.py finds a recording fit for replay exactly when it is.
use mathlib.Core.Path.{subst}
use ghost_amm.Base.{
  ℕ, suc, ◌≡◌, refl, sym, ap, ◌∙◌, ◌↔◌, Bool, true, false, not, ◌&&◌, ◌||◌, Option, none, some,
  String, List, [], ◌∷◌, Dict, lookup, lookup-insert, All, Some, ◌==◌, string_eq, nat_eq, nat_beq,
  nat_ltb, any, if◌then◌else◌, arith,
}
use ghost_amm.Base.Int.{ℤ, ltb_ℤ}
use ghost_amm.Num.{Num}
use ghost_amm.Events.{to_int}
use ghost_amm.Recorder.Inspection.{
  or_zero, RawEvent, Inspecting, count_of, count_one, is_metadata_failure, is_behind, next_delta,
  inspect_times, inspect_payload, inspect_depth, inspect_event, inspect_events,
}
use ghost_amm.Recorder.Inspection.Verdict.{
  has, required, missing_of, is_nothing, new_inspecting, verdict, inspect_recording,
}

not_both : (t : String) → (t == "order_book_snapshot") ≡ true → (t == "order_book_delta") ≡ false
not_both t h = rw ((string_eq.beq_iff t "order_book_snapshot").0 h) refl

one_more :
    (same : Bool) (m : ℕ) (o : Option ℕ)
    → nat_ltb 0 (or_zero (if same then some (suc m) else o)) ≡ (same || nat_ltb 0 (or_zero o))
one_more true m o = ground arith
one_more false m o = refl

has-count_one :
    (kind name : String) (d : Dict String ℕ)
    → has (count_one kind d) name ≡ ((kind == name) || has d name)
has-count_one kind name d =
    ap (λ o. nat_ltb 0 (or_zero o)) (lookup-insert kind name (suc (count_of kind d)) d)
    ∙ one_more (kind == name) (count_of kind d) (lookup name d)

all_three : (a b c : Bool) → ((a && b && not c) ≡ true) ↔ ((a ≡ true) × (b ≡ true) × (c ≡ false))
all_three a b c = ground arith

both_true : (a b : Bool) → (a && b) ≡ true → (a ≡ true) × (b ≡ true)
both_true a b h = ground arith

-- The number that later deltas must exceed: a delta's own replaces one that is there.
abbrev kept : Option ℤ → Option ℤ → Option ℤ
kept none seq = none
kept (some last) none = some last
kept (some last) (some seq) = some seq

next_delta-kept : (seq last : Option ℤ) → next_delta seq last ≡ kept last seq
next_delta-kept none none = refl
next_delta-kept none (some last) = refl
next_delta-kept (some seq) none = refl
next_delta-kept (some seq) (some last) = refl

abbrev exceeds : Option ℤ → Option ℤ → Bool
exceeds (some last) (some seq) = ltb_ℤ last seq
exceeds (some last) none = true
exceeds none seq = true

is_behind_lem : (seq last : Option ℤ) → not (is_behind seq last) ≡ exceeds last seq
is_behind_lem none none = refl
is_behind_lem none (some last) = refl
is_behind_lem (some seq) none = refl
is_behind_lem (some seq) (some last) = ground arith

module _ {F : Type 0} ⦃n : Num F⦄ where
  -- The number that later deltas must exceed, after an event: a snapshot sets it to its own, or to
  -- none where it has no number; a delta changes it only if there is one.
  abbrev depth_after : Option ℤ → RawEvent F → Option ℤ
  depth_after last e =
      if e.event_type == "order_book_snapshot"
      then to_int F e.sequence
      else if e.event_type == "order_book_delta"
      then kept last (to_int F e.sequence)
      else last

  abbrev steps_up : Option ℤ → RawEvent F → Bool
  steps_up last e = not (e.event_type == "order_book_delta") || exceeds last (to_int F e.sequence)

  -- From each numbered snapshot to the next snapshot the numbers of the deltas go up strictly, from
  -- above the snapshot's own. Deltas without a number do not count, and neither do those before the
  -- first snapshot or behind one without a number.
  pub GoesUp : Option ℤ → List (RawEvent F) → Type 0
  GoesUp last [] = Unit
  GoesUp last (e ∷ es) = (steps_up last e ≡ true) × GoesUp (depth_after last e) es

  -- What a recording must have.
  pub record IsReplayable (strict : Bool) (es : List (RawEvent F)) : Type 0 where
    pub complete : All (λ name. Some (λ e. (e.event_type == name) ≡ true) es) (required strict)
    pub goes_up : GoesUp none es
    pub fetched : All (λ e. is_metadata_failure e.payload ≡ false) es

  inspect_depth-counts : (e : RawEvent F) (s : Inspecting F) → (inspect_depth e s).counts ≡ s.counts
  unfolding inspect_depth
  inspect_depth-counts e s = ground arith

  inspect_event-counts :
      (e : RawEvent F) (s : Inspecting F)
      → (inspect_event s e).counts ≡ count_one e.event_type s.counts
  unfolding inspect_event inspect_payload inspect_times
  inspect_event-counts e s = inspect_depth-counts e _

  inspect_depth-failed :
      (e : RawEvent F) (s : Inspecting F)
      → (inspect_depth e s).metadata_fetch_failed ≡ s.metadata_fetch_failed
  unfolding inspect_depth
  inspect_depth-failed e s = ground arith

  inspect_event-failed :
      (e : RawEvent F) (s : Inspecting F)
      → (inspect_event s e).metadata_fetch_failed
        ≡ (s.metadata_fetch_failed || is_metadata_failure e.payload)
  unfolding inspect_event inspect_payload inspect_times
  inspect_event-failed e s = inspect_depth-failed e _

  inspect_event-violations :
      (e : RawEvent F) (s : Inspecting F)
      → nat_beq (inspect_event s e).sequence_violations 0
        ≡ (nat_beq s.sequence_violations 0 && steps_up s.last_depth_sequence e)
  unfolding inspect_event inspect_payload inspect_times inspect_depth
  inspect_event-violations e s =
      ground
        (arith, not_both e.event_type, is_behind_lem (to_int F e.sequence) s.last_depth_sequence)

  inspect_event-depth :
      (e : RawEvent F) (s : Inspecting F)
      → (inspect_event s e).last_depth_sequence ≡ depth_after s.last_depth_sequence e
  unfolding inspect_event inspect_payload inspect_times inspect_depth
  inspect_event-depth e s =
      ground (arith, next_delta-kept (to_int F e.sequence) s.last_depth_sequence)

  -- What the loop ends with.
  inspect_events-has :
      (name : String) (es : List (RawEvent F)) (s : Inspecting F)
      → has (inspect_events s es).counts name
        ≡ (has s.counts name || any (λ e. e.event_type == name) es)
  unfolding inspect_events
  inspect_events-has name [] s = ground arith
  inspect_events-has name (e ∷ es) s =
      inspect_events-has name es (inspect_event s e)
      ∙ rw (inspect_event-counts e s, has-count_one e.event_type name s.counts) (ground arith)

  inspect_events-failed :
      (es : List (RawEvent F)) (s : Inspecting F)
      → (inspect_events s es).metadata_fetch_failed
        ≡ (s.metadata_fetch_failed || any (λ e. is_metadata_failure e.payload) es)
  unfolding inspect_events
  inspect_events-failed [] s = ground arith
  inspect_events-failed (e ∷ es) s =
      inspect_events-failed es (inspect_event s e) ∙ rw (inspect_event-failed e s) (ground arith)

  inspect_events-violations :
      (es : List (RawEvent F)) (s : Inspecting F)
      → (nat_beq (inspect_events s es).sequence_violations 0 ≡ true)
        ↔ ((nat_beq s.sequence_violations 0 ≡ true) × GoesUp s.last_depth_sequence es)
  unfolding inspect_events GoesUp
  inspect_events-violations [] s = (λ h. (h, tt), λ (h, _). h)
  inspect_events-violations (e ∷ es) s =
      let loop = inspect_events-violations es (inspect_event s e) in
      let now = inspect_event-violations e s in
      (
        λ h.
            let (none_now, later) = loop.0 h in
            let (none_before, up) = both_true _ _ (sym now ∙ none_now) in
            (none_before, (up, subst (λ last. GoesUp last es) (inspect_event-depth e s) later)),
        λ (none_before, (up, later)). loop.1 (
          now ∙ ground (arith, none_before, up),
          subst (λ last. GoesUp last es) (sym (inspect_event-depth e s)) later,
        ),
      )

  any-Some :
      (p : RawEvent F → Bool) (es : List (RawEvent F))
      → (any p es ≡ true) ↔ Some (λ e. p e ≡ true) es
  any-Some p [] = (λ h. ground arith, λ h. absurd h)
  any-Some p (e ∷ es) = ground (arith, any-Some p es)

  pub any-All :
      (p : RawEvent F → Bool) (es : List (RawEvent F))
      → (any p es ≡ false) ↔ All (λ e. p e ≡ false) es
  any-All p [] = (λ h. tt, λ h. refl)
  any-All p (e ∷ es) = ground (arith, any-All p es)

  missing_of_iff :
      (es : List (RawEvent F)) (names : List String)
      → (is_nothing (missing_of (inspect_events new_inspecting es).counts names) ≡ true)
        ↔ All (λ name. Some (λ e. (e.event_type == name) ≡ true) es) names
  unfolding missing_of new_inspecting
  missing_of_iff es [] = (λ h. tt, λ h. refl)
  missing_of_iff es (name ∷ names) = ground (
    arith,
    inspect_events-has name es new_inspecting,
    any-Some (λ e. e.event_type == name) es,
    missing_of_iff es names,
  )

  -- The loop from its start.
  found_violations :
      (es : List (RawEvent F))
      → (nat_beq (inspect_events new_inspecting es).sequence_violations 0 ≡ true) ↔ GoesUp none es
  unfolding new_inspecting
  found_violations es =
      let loop = inspect_events-violations es new_inspecting in
      (λ h. (loop.0 h).1, λ up. loop.1 (refl, up))

  found_failures :
      (es : List (RawEvent F))
      → ((inspect_events new_inspecting es).metadata_fetch_failed ≡ false)
        ↔ All (λ e. is_metadata_failure e.payload ≡ false) es
  unfolding new_inspecting
  found_failures es =
      let loop = inspect_events-failed es new_inspecting in
      let all = any-All (λ e. is_metadata_failure e.payload) es in
      (λ h. all.0 (sym loop ∙ h), λ h. loop ∙ all.1 h)

  -- A recording is found fit for replay exactly when every required type of event occurs, the numbers
  -- of the deltas behind a numbered snapshot go up strictly from its own until the next snapshot, and
  -- no event tells of a failure to fetch the metadata. What comes before the first snapshot, or behind
  -- one without a number, is not held to an order.
  pub inspect_recording_iff :
      (files : ℕ) (strict : Bool) (es : List (RawEvent F))
      → ((inspect_recording files strict es).ok_for_replay ≡ true) ↔ IsReplayable strict es
  unfolding inspect_recording verdict
  inspect_recording_iff files strict es =
      let s = inspect_events new_inspecting es in
      let test =
        all_three (is_nothing (missing_of s.counts (required strict)))
          (nat_beq s.sequence_violations 0) s.metadata_fetch_failed in
      (
        λ h.
            let (complete, up, fetched) = test.0 h in
            record {
              complete = (missing_of_iff es (required strict)).0 complete;
              goes_up = (found_violations es).0 up;
              fetched = (found_failures es).0 fetched;
            },
        λ r. test.1 (
          (missing_of_iff es (required strict)).1 r.complete,
          (found_violations es).1 r.goes_up,
          (found_failures es).1 r.fetched,
        ),
      )
