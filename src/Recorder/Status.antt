-- ===== src/Recorder/Status.antt =====
-- ghost_amm/recorder/status.py: whether a recording is there, is being written and is long enough.
use Prim.Native.Nat.{◌+◌ as add}
use ghost_amm.Base.{
  ℕ, Bool, true, false, not, ◌&&◌, ◌||◌, Option, none, some, String, List, [], ◌∷◌, filter, length,
  is_some, if◌then◌else◌,
}
use ghost_amm.Num.{Num, dec, ltb, leb, max, min, ◌-◌}
use ghost_amm.Recorder.Inspection.{RawEvent}
use ghost_amm.Recorder.Inspection.Verdict.{RecordingInspection, inspect_recording}
pub mod Soundness
mod Tests

-- `stat` of a file: its size and time.
pub record FileStat (F : Type 0) : Type 0 where
  pub st_size : ℕ
  pub st_mtime : F

pub record RecordingFileStatus (F : Type 0) : Type 0 where
  pub path : String
  pub exists : Bool
  pub bytes : ℕ
  pub last_write_time : Option F
  pub last_write_age_sec : Option F

pub data StatusReason : Type 0 where
  missing_files : List String → StatusReason
  recording_stale : StatusReason
  inspection_failed : StatusReason
  recording_duration_below_min : StatusReason
  inspection_required_for_min_duration : StatusReason

pub record RecordingStatus (F : Type 0) : Type 0 where
  pub ok : Bool
  pub stale : Bool
  pub total_bytes : ℕ
  pub latest_write_age_sec : Option F
  pub min_duration_hours : Option F
  pub duration_hours : Option F
  pub duration_ok : Option Bool
  pub files : List (RecordingFileStatus F)
  pub inspection : Option (RecordingInspection F)
  pub reason : Option StatusReason

pub record StatusInput (F : Type 0) : Type 0 where
  -- each path, with its `stat` where it exists
  pub paths : List (String × Option (FileStat F))
  -- the lines of the existing files, which are read when there is an inspection
  pub lines : List (RawEvent F)
  pub strict : Bool
  pub max_stale_sec : F
  pub inspect : Bool
  pub min_duration_hours : Option F
  pub now : F

abbrev pub first_reason : List String → Bool → Option StatusReason
first_reason (path ∷ paths) stale = some (missing_files (path ∷ paths))
first_reason [] true = some recording_stale
first_reason [] false = none

abbrev pub or_reason : Option StatusReason → Bool → StatusReason → Option StatusReason
or_reason (some reason) test other = some reason
or_reason none true other = some other
or_reason none false other = none

abbrev pub is_nil : List String → Bool
is_nil [] = true
is_nil (path ∷ paths) = false

module _ {F : Type 0} ⦃n : Num F⦄ where
  unfoldable pub file_status : F → String × Option (FileStat F) → RecordingFileStatus F
  file_status now (path, none) = record {
    path = path;
    exists = false;
    bytes = 0;
    last_write_time = none;
    last_write_age_sec = none;
  }
  file_status now (path, some stat) = record {
    path = path;
    exists = true;
    bytes = stat.st_size;
    last_write_time = some stat.st_mtime;
    last_write_age_sec = some (max (dec 0 0) (now - stat.st_mtime));
  }

  unfoldable pub file_statuses :
      F → List (String × Option (FileStat F)) → List (RecordingFileStatus F)
  file_statuses now [] = []
  file_statuses now (p ∷ ps) = file_status now p ∷ file_statuses now ps

  unfoldable pub missing_paths : List (RecordingFileStatus F) → List String
  missing_paths [] = []
  missing_paths (f ∷ fs) = if f.exists then missing_paths fs else f.path ∷ missing_paths fs

  abbrev pub existing : List (RecordingFileStatus F) → List (RecordingFileStatus F)
  existing fs = filter (λ f. f.exists) fs

  abbrev sum_bytes : List (RecordingFileStatus F) → ℕ
  sum_bytes [] = 0
  sum_bytes (f ∷ fs) = add f.bytes (sum_bytes fs)

  abbrev least_age : Option F → Option F → Option F
  least_age none rest = rest
  least_age (some age) none = some age
  least_age (some age) (some rest) = some (min age rest)

  -- `min(..., default=None)` of the ages
  unfoldable pub latest_age : List (RecordingFileStatus F) → Option F
  latest_age [] = none
  latest_age (f ∷ fs) = least_age f.last_write_age_sec (latest_age fs)

  abbrev pub is_old : F → Option F → Bool
  is_old max_stale_sec none = true
  is_old max_stale_sec (some age) = ltb max_stale_sec age

  -- The reason and `duration_ok` after an inspection, `none` where the comparison with None raises.
  abbrev pub inspected_reason :
      Option StatusReason → Bool → Option F → Option F → Option (Option StatusReason × Option Bool)
  inspected_reason reason ok duration none =
      some (or_reason reason (not ok) inspection_failed, none)
  inspected_reason reason ok none (some least) = none
  inspected_reason reason ok (some hours) (some least) = some (
    or_reason (or_reason reason (not ok) inspection_failed) (ltb hours least)
        recording_duration_below_min,
    some (leb least hours),
  )

  abbrev pub plain_reason : Option StatusReason → Option F → Option StatusReason × Option Bool
  plain_reason reason none = (reason, none)
  plain_reason (some reason) (some least) = (some reason, none)
  plain_reason none (some least) = (some inspection_required_for_min_duration, some false)

  abbrev pub status_of :
      StatusInput F
      → Option (RecordingInspection F)
      → Option F
      → Option StatusReason × Option Bool
      → RecordingStatus F
  status_of i inspection duration (reason, duration_ok) =
      let files = file_statuses i.now i.paths in
      let latest = latest_age (existing files) in
      record {
        ok = not (is_some reason);
        stale = is_old i.max_stale_sec latest;
        total_bytes = sum_bytes (existing files);
        latest_write_age_sec = latest;
        min_duration_hours = i.min_duration_hours;
        duration_hours = duration;
        duration_ok = duration_ok;
        files = files;
        inspection = inspection;
        reason = reason;
      }

  abbrev pub with_inspection :
      StatusInput F
      → RecordingInspection F
      → Option (Option StatusReason × Option Bool)
      → Option (RecordingStatus F)
  with_inspection i result none = none
  with_inspection i result (some reasons) =
      some (status_of i (some result) result.duration_hours reasons)

  abbrev pub inspection_of : StatusInput F → RecordingInspection F
  inspection_of i =
      inspect_recording (length (existing (file_statuses i.now i.paths))) i.strict i.lines

  unfoldable pub recording_status : StatusInput F → Option (RecordingStatus F)
  recording_status i =
      let files = file_statuses i.now i.paths in
      let missing = missing_paths files in
      let reason = first_reason missing (is_old i.max_stale_sec (latest_age (existing files))) in
      let result = inspection_of i in
      if i.inspect && is_nil missing
      then with_inspection i result
          (inspected_reason reason result.ok_for_replay result.duration_hours i.min_duration_hours)
      else some (status_of i none none (plain_reason reason i.min_duration_hours))
