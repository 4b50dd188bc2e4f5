-- ===== src/Recorder/Status/Soundness.antt =====
-- When recorder/status.py answers, and when it finds a recording in order.
use mathlib.Core.Option.{some-injective, none-ne-some, some-ne-none}
use ghost_amm.Base.{
  ◌≡◌, refl, sym, ap, ◌∙◌, ◌↔◌, Bool, true, false, not, ◌&&◌, Option, none, some, String, List, [],
  ◌∷◌, All, is_some, length, if◌then◌else◌, arith,
}
use ghost_amm.Num.{Num, ltb}
use ghost_amm.Recorder.Inspection.Timing.{is_number, duration_unknown_iff}
use ghost_amm.Recorder.Inspection.Verdict.{RecordingInspection}
use ghost_amm.Recorder.Status.{
  FileStat, StatusReason, inspection_failed, recording_duration_below_min, RecordingStatus,
  StatusInput, file_status, file_statuses, missing_paths, existing, latest_age, is_old,
  first_reason, or_reason, inspected_reason, plain_reason, status_of, with_inspection,
  inspection_of, is_nil, recording_status,
}

first_reason_lem :
    (missing : List String) (stale : Bool)
    → is_some (first_reason missing stale) ≡ not (is_nil missing && not stale)
first_reason_lem [] true = refl
first_reason_lem [] false = refl
first_reason_lem (path ∷ paths) stale = refl

or_reason_lem :
    (reason : Option StatusReason) (test : Bool) (other : StatusReason)
    → not (is_some (or_reason reason test other)) ≡ (not (is_some reason) && not test)
or_reason_lem none true other = refl
or_reason_lem none false other = refl
or_reason_lem (some reason) test other = refl

conditions : (a b c : Bool) → ((a && (not b && c)) ≡ true) ↔ ((a ≡ true) × (b ≡ false) × (c ≡ true))
conditions a b c = ground arith

both_of : (a b : Bool) → (a && b) ≡ true → (a ≡ true) × (b ≡ true)
both_of a b h = ground arith

module _ {F : Type 0} ⦃n : Num F⦄ where
  -- What the inspection, or its absence, must say.
  abbrev pub measures : (inspect ok : Bool) → (duration least : Option F) → Bool
  measures true ok duration none = ok
  measures true ok (some hours) (some least) = ok && not (ltb hours least)
  measures true ok none (some least) = false
  measures false ok duration none = true
  measures false ok duration (some least) = false

  abbrev pub latest_of : StatusInput F → Option F
  latest_of i = latest_age (existing (file_statuses i.now i.paths))

  -- Every file is there, the last write is recent, and the inspection is passed, with the duration
  -- that was asked for; without an inspection none may be asked for.
  pub record IsHealthy (i : StatusInput F) : Type 0 where
    pub present : All (λ (path, stat). is_some stat ≡ true) i.paths
    pub recent : is_old i.max_stale_sec (latest_of i) ≡ false
    pub measured :
        measures i.inspect
          (inspection_of i).ok_for_replay
          (inspection_of i).duration_hours
          i.min_duration_hours
        ≡ true

  -- The answer from the reason so far.
  abbrev answer :
      StatusInput F
      → Bool
      → Option StatusReason
      → RecordingInspection F
      → Option (RecordingStatus F)
  answer i inspected reason result =
      if inspected
      then with_inspection i result
          (inspected_reason reason result.ok_for_replay result.duration_hours i.min_duration_hours)
      else some (status_of i none none (plain_reason reason i.min_duration_hours))

  plain_ok :
      (reason : Option StatusReason) (least : Option F)
      → not (is_some (plain_reason reason least).0)
        ≡ (not (is_some reason) && measures false true none least)
  plain_ok reason none = ground arith
  plain_ok none (some least) = refl
  plain_ok (some reason) (some least) = refl

  inspected_ok :
      (i : StatusInput F) (result : RecordingInspection F) (reason : Option StatusReason)
      (ok : Bool) (duration least : Option F) (s : RecordingStatus F)
      → with_inspection i result (inspected_reason reason ok duration least) ≡ some s
      → s.ok ≡ (not (is_some reason) && measures true ok duration least)
  inspected_ok i result reason ok duration none s e =
      ap (λ t. t.ok) (sym (some-injective _ s e))
      ∙ or_reason_lem reason (not ok) inspection_failed
      ∙ ground arith
  inspected_ok i result reason ok none (some least) s e = absurd (none-ne-some s e)
  inspected_ok i result reason ok (some hours) (some least) s e =
      ap (λ t. t.ok) (sym (some-injective _ s e))
      ∙ or_reason_lem (or_reason reason (not ok) inspection_failed) (ltb hours least)
          recording_duration_below_min
      ∙ ap (λ b. b && not (ltb hours least)) (or_reason_lem reason (not ok) inspection_failed)
      ∙ ground arith

  measures_plain :
      (ok : Bool) (duration least : Option F)
      → measures false true none least ≡ measures false ok duration least
  measures_plain ok duration none = refl
  measures_plain ok duration (some least) = refl

  answer_ok :
      (i : StatusInput F) (inspected : Bool) (reason : Option StatusReason)
      (result : RecordingInspection F) (s : RecordingStatus F)
      → answer i inspected reason result ≡ some s
      → s.ok ≡ (
          not (is_some reason)
          && measures inspected result.ok_for_replay result.duration_hours i.min_duration_hours)
  answer_ok i true reason result s e =
      inspected_ok i result reason result.ok_for_replay result.duration_hours i.min_duration_hours s
        e
  answer_ok i false reason result s e =
      ap (λ t. t.ok) (sym (some-injective _ s e))
      ∙ plain_ok reason i.min_duration_hours
      ∙ ap (λ b. not (is_some reason) && b)
          (measures_plain result.ok_for_replay result.duration_hours i.min_duration_hours)

  missing_paths_iff :
      (now : F) (ps : List (String × Option (FileStat F)))
      → (is_nil (missing_paths (file_statuses now ps)) ≡ true)
        ↔ All (λ (path, stat). is_some stat ≡ true) ps
  unfolding missing_paths file_statuses file_status
  missing_paths_iff now [] = (λ h. tt, λ h. refl)
  missing_paths_iff now ((path, none) ∷ ps) = (λ h. ground arith, λ (h, _). ground arith)
  missing_paths_iff now ((path, some stat) ∷ ps) =
      let rest = missing_paths_iff now ps in (λ h. (refl, rest.0 h), λ (_, h). rest.1 h)

  all_conditions :
      (nil stale inspect ok : Bool) (duration least : Option F)
      → (not (not (nil && not stale)) && measures (inspect && nil) ok duration least)
        ≡ (nil && (not stale && measures inspect ok duration least))
  all_conditions false stale inspect ok duration least = refl
  all_conditions true true inspect ok duration least = refl
  all_conditions true false true ok duration least = refl
  all_conditions true false false ok duration least = refl

  status_ok :
      (i : StatusInput F) (s : RecordingStatus F)
      → recording_status i ≡ some s
      → s.ok ≡ (
          is_nil (missing_paths (file_statuses i.now i.paths))
          && (not (is_old i.max_stale_sec (latest_of i))
              && measures i.inspect
                  (inspection_of i).ok_for_replay
                  (inspection_of i).duration_hours
                  i.min_duration_hours))
  unfolding recording_status
  status_ok i s e =
      let missing = missing_paths (file_statuses i.now i.paths) in
      let stale = is_old i.max_stale_sec (latest_of i) in
      let result = inspection_of i in
      let inspected = i.inspect && is_nil missing in
      answer_ok i inspected (first_reason missing stale) result s e
      ∙ ap
          (λ b.
            not b
            && measures inspected result.ok_for_replay result.duration_hours i.min_duration_hours)
          (first_reason_lem missing stale)
      ∙ all_conditions (is_nil missing) stale i.inspect result.ok_for_replay result.duration_hours
          i.min_duration_hours

  -- The status is ok exactly when every file is there, the last write is recent, and the inspection, if
  -- there is one, finds the recording fit for replay and as long as was asked for; without an
  -- inspection no length may be asked for. This holds where the call returns.
  pub recording_status_iff :
      (i : StatusInput F) (s : RecordingStatus F)
      → recording_status i ≡ some s
      → (s.ok ≡ true) ↔ IsHealthy i
  recording_status_iff i s e =
      let ok = status_ok i s e in
      let three = conditions _ _ _ in
      let files = missing_paths_iff i.now i.paths in
      (
        λ h.
            let (present, recent, measured) = three.0 (sym ok ∙ h) in
            record { present = files.0 present; recent = recent; measured = measured },
        λ h. ok ∙ three.1 (files.1 h.present, h.recent, h.measured),
      )

  raised :
      (i : StatusInput F) (result : RecordingInspection F) (reason : Option StatusReason)
      (ok : Bool) (duration least : Option F)
      → (with_inspection i result (inspected_reason reason ok duration least) ≡ none)
        ↔ ((is_some least ≡ true) × (duration ≡ none))
  raised i result reason ok duration none = (λ h. absurd (some-ne-none _ h), λ (h, _). ground arith)
  raised i result reason ok none (some least) = (λ h. (refl, refl), λ h. refl)
  raised i result reason ok (some hours) (some least) =
      (λ h. absurd (some-ne-none _ h), λ (_, h). absurd (some-ne-none _ h))

  answer_raises :
      (i : StatusInput F) (inspected : Bool) (reason : Option StatusReason)
      (result : RecordingInspection F)
      → (answer i inspected reason result ≡ none) ↔ (
          (inspected ≡ true)
          × (is_some i.min_duration_hours ≡ true)
          × (result.duration_hours ≡ none))
  answer_raises i true reason result =
      let r =
        raised i result reason result.ok_for_replay result.duration_hours i.min_duration_hours in
      (
        λ h. let (least, unknown) = r.0 h in (refl, least, unknown),
        λ (_, least, unknown). r.1 (least, unknown),
      )
  answer_raises i false reason result = (λ h. absurd (some-ne-none _ h), λ (h, _, _). ground arith)

  -- The call raises exactly when there is an inspection of files that all exist, a length is asked
  -- for, and no line of the recording has an exchange time that reads as a number: then None is
  -- compared with the length.
  pub recording_status_raises :
      (i : StatusInput F)
      → (recording_status i ≡ none) ↔ (
          (i.inspect ≡ true)
          × All (λ (path, stat). is_some stat ≡ true) i.paths
          × (is_some i.min_duration_hours ≡ true)
          × All (λ e. is_number e.ts_exchange ≡ false) i.lines)
  unfolding recording_status
  recording_status_raises i =
      let missing = missing_paths (file_statuses i.now i.paths) in
      let files = missing_paths_iff i.now i.paths in
      let result = inspection_of i in
      let reason = first_reason missing (is_old i.max_stale_sec (latest_of i)) in
      let known =
        duration_unknown_iff (length (existing (file_statuses i.now i.paths))) i.strict i.lines in
      let raise = answer_raises i (i.inspect && is_nil missing) reason result in
      (
        λ h.
            let (inspected, some_least, none_known) = raise.0 h in
            let (inspects, nil) = both_of i.inspect (is_nil missing) inspected in
            (inspects, files.0 nil, some_least, known.0 none_known),
        λ (inspects, present, some_least, untimed).
            raise.1 (rw (inspects, files.1 present) refl, some_least, known.1 untimed),
      )
