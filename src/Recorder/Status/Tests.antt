-- ===== src/Recorder/Status/Tests.antt =====
-- recorder/status.py on one file.
use ghost_amm.Base.{
  ◌≡◌, ◌↔◌, refl, Bool, true, false, Option, none, some, is_some, All, String, List, [], ◌∷◌,
}
use ghost_amm.Base.Int.{ℤ, pos}
use ghost_amm.Num.Whole.{whole}
use ghost_amm.Recorder.Inspection.Timing.{is_number}
use ghost_amm.Recorder.Status.{
  FileStat, StatusInput, RecordingStatus, recording_status, inspection_of,
}
use ghost_amm.Recorder.Status.Soundness.{IsHealthy, recording_status_iff, recording_status_raises}

abbrev stat : FileStat ℤ
stat = record { st_size = 120; st_mtime = pos 990 }

abbrev input : StatusInput ℤ
input = record {
  paths = ("a.jsonl", some stat) ∷ [];
  lines = [];
  strict = false;
  max_stale_sec = pos 300;
  inspect = false;
  min_duration_hours = none;
  now = pos 1_000;
}

-- A file without a line yet, asked for a length.
abbrev fresh_file : StatusInput ℤ
fresh_file = record input { inspect = true; min_duration_hours = some (pos 24) }

abbrev status_or : RecordingStatus ℤ → Option (RecordingStatus ℤ) → RecordingStatus ℤ
status_or s none = s
status_or s (some t) = t

abbrev answer : RecordingStatus ℤ
answer = record {
  ok = true;
  stale = false;
  total_bytes = 120;
  latest_write_age_sec = some (pos 10);
  min_duration_hours = none;
  duration_hours = none;
  duration_ok = none;
  files =
      record {
        path = "a.jsonl";
        exists = true;
        bytes = 120;
        last_write_time = some (pos 990);
        last_write_age_sec = some (pos 10);
      }
      ∷ [];
  inspection = none;
  reason = none;
}

input_status : recording_status input ≡ some answer
unfolding recording_status ghost_amm.Recorder.Status.missing_paths
    ghost_amm.Recorder.Status.latest_age ghost_amm.Recorder.Status.file_statuses
    ghost_amm.Recorder.Status.file_status ghost_amm.Base.Int.◌-ℤ◌
input_status = refl

fresh_file_raises : recording_status fresh_file ≡ none
unfolding recording_status ghost_amm.Recorder.Status.missing_paths
    ghost_amm.Recorder.Status.file_statuses ghost_amm.Recorder.Status.file_status
    ghost_amm.Recorder.Inspection.Verdict.inspect_recording
    ghost_amm.Recorder.Inspection.Verdict.verdict ghost_amm.Recorder.Inspection.inspect_events
    ghost_amm.Recorder.Inspection.Verdict.new_inspecting
fresh_file_raises = refl

recording_status_iff_example : (answer.ok ≡ true) ↔ IsHealthy input
recording_status_iff_example = recording_status_iff input answer input_status

recording_status_raises_example : (recording_status fresh_file ≡ none) ↔ (
    (true ≡ true)
    × All (λ (path, stat). is_some stat ≡ true) fresh_file.paths
    × (is_some fresh_file.min_duration_hours ≡ true)
    × All (λ e. is_number e.ts_exchange ≡ false) fresh_file.lines)
recording_status_raises_example = recording_status_raises fresh_file
