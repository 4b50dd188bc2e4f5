-- ===== src/Recorder/Inspection/Tests.antt =====
-- recorder/inspection.py on a short recording.
use ghost_amm.Base.{◌≡◌, ◌↔◌, refl, true, false, none, String, List, [], ◌∷◌}
use ghost_amm.Base.Int.{ℤ, pos}
use ghost_amm.Num.Whole.{whole}
use ghost_amm.Events.{Sequence, int, number}
use ghost_amm.Recorder.Inspection.{RawEvent}
use ghost_amm.Recorder.Inspection.Verdict.{inspect_recording}
use ghost_amm.Recorder.Inspection.Soundness.{IsReplayable, inspect_recording_iff}

abbrev line : String → Sequence → RawEvent ℤ
line kind sequence = record {
  event_type = kind;
  ts_exchange = number (pos 1_000);
  ts_local = number (pos 1_010);
  sequence = sequence;
  payload = none;
  raw_room_name = none;
}

abbrev lines : List (RawEvent ℤ)
lines =
    line "bitbank_pair_spec" (int (pos 1))
    ∷ line "bitbank_status" (int (pos 1))
    ∷ line "order_book_snapshot" (int (pos 7))
    ∷ line "order_book_delta" (int (pos 8))
    ∷ []

fit : (inspect_recording 1 false lines).ok_for_replay ≡ true
unfolding inspect_recording ghost_amm.Recorder.Inspection.Verdict.verdict
    ghost_amm.Recorder.Inspection.Verdict.missing_of ghost_amm.Recorder.Inspection.inspect_events
    ghost_amm.Recorder.Inspection.inspect_event ghost_amm.Recorder.Inspection.inspect_depth
    ghost_amm.Recorder.Inspection.inspect_payload ghost_amm.Recorder.Inspection.inspect_times
    ghost_amm.Recorder.Inspection.Verdict.new_inspecting ghost_amm.Events.to_int
fit = refl

unfit_when_strict : (inspect_recording 1 true lines).ok_for_replay ≡ false
unfolding inspect_recording ghost_amm.Recorder.Inspection.Verdict.verdict
    ghost_amm.Recorder.Inspection.Verdict.missing_of ghost_amm.Recorder.Inspection.inspect_events
    ghost_amm.Recorder.Inspection.inspect_event ghost_amm.Recorder.Inspection.inspect_depth
    ghost_amm.Recorder.Inspection.inspect_payload ghost_amm.Recorder.Inspection.inspect_times
    ghost_amm.Recorder.Inspection.Verdict.new_inspecting
unfit_when_strict = refl

inspect_recording_iff_example :
    ((inspect_recording 1 false lines).ok_for_replay ≡ true) ↔ IsReplayable false lines
inspect_recording_iff_example = inspect_recording_iff 1 false lines
