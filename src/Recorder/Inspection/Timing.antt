-- ===== src/Recorder/Inspection/Timing.antt =====
-- When recorder/inspection.py knows how long a recording is.
use mathlib.Core.Option.{some-ne-none}
use ghost_amm.Base.{
  ℕ, ◌≡◌, refl, sym, ap, ◌∙◌, ◌↔◌, Bool, true, false, ◌&&◌, ◌||◌, Option, none, some, List, [], ◌∷◌,
  All, is_some, any, arith,
}
use ghost_amm.Num.{Num}
use ghost_amm.Events.{Field, missing, null, unreadable, number}
use ghost_amm.Recorder.Inspection.{
  RawEvent, Inspecting, read_float, first_of, last_of, inspect_times, inspect_payload,
  inspect_depth, inspect_event, inspect_events,
}
use ghost_amm.Recorder.Inspection.Verdict.{
  duration_of, in_hours, new_inspecting, verdict, inspect_recording,
}
use ghost_amm.Recorder.Inspection.Soundness.{any-All}

module _ {F : Type 0} ⦃n : Num F⦄ where
  abbrev pub is_number : Field F → Bool
  is_number (number x) = true
  is_number missing = false
  is_number null = false
  is_number unreadable = false

  read_float_lem : (f : Field F) → is_some (read_float f) ≡ is_number f
  read_float_lem missing = refl
  read_float_lem null = refl
  read_float_lem unreadable = refl
  read_float_lem (number x) = refl

  first_of_lem : (a b : Option F) → is_some (first_of a b) ≡ (is_some a || is_some b)
  first_of_lem none b = refl
  first_of_lem (some a) b = refl

  last_of_lem : (a b : Option F) → is_some (last_of a b) ≡ (is_some a || is_some b)
  last_of_lem none none = refl
  last_of_lem (some a) none = refl
  last_of_lem none (some b) = refl
  last_of_lem (some a) (some b) = refl

  inspect_depth-first_event_ts :
      (e : RawEvent F) (s : Inspecting F) → (inspect_depth e s).first_event_ts ≡ s.first_event_ts
  unfolding inspect_depth
  inspect_depth-first_event_ts e s = ground arith

  inspect_depth-last_event_ts :
      (e : RawEvent F) (s : Inspecting F) → (inspect_depth e s).last_event_ts ≡ s.last_event_ts
  unfolding inspect_depth
  inspect_depth-last_event_ts e s = ground arith

  inspect_event-first :
      (e : RawEvent F) (s : Inspecting F)
      → is_some (inspect_event s e).first_event_ts
        ≡ (is_some s.first_event_ts || is_number e.ts_exchange)
  unfolding inspect_event inspect_payload inspect_times
  inspect_event-first e s =
      ap is_some (inspect_depth-first_event_ts e _)
      ∙ first_of_lem s.first_event_ts (read_float e.ts_exchange)
      ∙ ap (λ b. is_some s.first_event_ts || b) (read_float_lem e.ts_exchange)

  inspect_event-last :
      (e : RawEvent F) (s : Inspecting F)
      → is_some (inspect_event s e).last_event_ts
        ≡ (is_some s.last_event_ts || is_number e.ts_exchange)
  unfolding inspect_event inspect_payload inspect_times
  inspect_event-last e s =
      ap is_some (inspect_depth-last_event_ts e _)
      ∙ last_of_lem s.last_event_ts (read_float e.ts_exchange)
      ∙ ap (λ b. is_some s.last_event_ts || b) (read_float_lem e.ts_exchange)

  inspect_events-first :
      (es : List (RawEvent F)) (s : Inspecting F)
      → is_some (inspect_events s es).first_event_ts
        ≡ (is_some s.first_event_ts || any (λ e. is_number e.ts_exchange) es)
  unfolding inspect_events
  inspect_events-first [] s = ground arith
  inspect_events-first (e ∷ es) s =
      inspect_events-first es (inspect_event s e) ∙ rw (inspect_event-first e s) (ground arith)

  inspect_events-last :
      (es : List (RawEvent F)) (s : Inspecting F)
      → is_some (inspect_events s es).last_event_ts
        ≡ (is_some s.last_event_ts || any (λ e. is_number e.ts_exchange) es)
  unfolding inspect_events
  inspect_events-last [] s = ground arith
  inspect_events-last (e ∷ es) s =
      inspect_events-last es (inspect_event s e) ∙ rw (inspect_event-last e s) (ground arith)

  hours_known :
      (first last : Option F)
      → is_some (in_hours (duration_of first last)) ≡ (is_some first && is_some last)
  hours_known none last = refl
  hours_known (some first) none = refl
  hours_known (some first) (some last) = refl

  none_iff : (a : Option F) → (a ≡ none) ↔ (is_some a ≡ false)
  none_iff none = (λ h. refl, λ h. refl)
  none_iff (some x) = (λ h. absurd (some-ne-none x h), λ h. absurd (ground arith))

  found_hours :
      (files : ℕ) (strict : Bool) (es : List (RawEvent F))
      → is_some (inspect_recording files strict es).duration_hours
        ≡ any (λ e. is_number e.ts_exchange) es
  unfolding inspect_recording verdict new_inspecting
  found_hours files strict es =
      let s = inspect_events new_inspecting es in
      hours_known s.first_event_ts s.last_event_ts
      ∙ ap (λ b. b && is_some s.last_event_ts) (inspect_events-first es new_inspecting)
      ∙ ap (λ b. any (λ e. is_number e.ts_exchange) es && b) (inspect_events-last es new_inspecting)
      ∙ ground arith

  -- A recording has no length exactly when none of its events has a time that reads as a number.
  pub duration_unknown_iff :
      (files : ℕ) (strict : Bool) (es : List (RawEvent F))
      → ((inspect_recording files strict es).duration_hours ≡ none)
        ↔ All (λ e. is_number e.ts_exchange ≡ false) es
  duration_unknown_iff files strict es =
      let found = found_hours files strict es in
      let known = none_iff (inspect_recording files strict es).duration_hours in
      let all = any-All (λ e. is_number e.ts_exchange) es in
      (λ h. all.0 (sym found ∙ known.0 h), λ h. known.1 (found ∙ all.1 h))
