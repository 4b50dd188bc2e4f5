-- ===== src/Recorder/Split/Tests.antt =====
-- recorder/split.py on four events in two parts.
use ghost_amm.Base.{ℕ, ◌≡◌, refl, true, false, Option, none, some, String, List, [], ◌∷◌}
use ghost_amm.Base.Int.{ℤ, pos}
use ghost_amm.Num.Whole.{whole}
use ghost_amm.Recorder.Split.{
  Recorded, RecordingSplitResult, RecordingSplit, SplitResult, raised, empty_split, boundary,
  collect, split_recording_by_time,
}

abbrev event : String → ℕ → Recorded ℤ ℕ
event kind ts = record {
  event_id = "id";
  event_type = kind;
  ts_exchange = some (pos ts);
  ts_local = some (pos ts);
  body = ts;
}

abbrev events : List (Recorded ℤ ℕ)
events =
    event "bitbank_status" 100
    ∷ event "trade" 100
    ∷ event "trade" 104
    ∷ event "trade" 105
    ∷ event "trade" 110
    ∷ []

abbrev digest : String → ℕ → ℤ → String
digest id index ts = "moved"

abbrev moved : ℕ → Recorded ℤ ℕ
moved ts = record (event "bitbank_status" ts) { event_id = "moved"; body = 100 }

abbrev first_part : RecordingSplit ℤ ℕ
first_part = record {
  index = 1;
  events = 3;
  data_events = 2;
  start_ts = pos 100;
  end_ts = pos 104;
  duration_hours = pos 0;
  output_events = moved 99 ∷ event "trade" 100 ∷ event "trade" 104 ∷ [];
}

abbrev second_part : RecordingSplit ℤ ℕ
second_part = record {
  index = 2;
  events = 3;
  data_events = 2;
  start_ts = pos 105;
  end_ts = pos 110;
  duration_hours = pos 0;
  output_events = moved 104 ∷ event "trade" 105 ∷ event "trade" 110 ∷ [];
}

abbrev parts_of_events : RecordingSplitResult ℤ ℕ
parts_of_events = record {
  parts = 2;
  first_ts = pos 100;
  last_ts = pos 110;
  metadata_events = 1;
  splits = first_part ∷ second_part ∷ [];
}

third_part_empty :
    split_recording_by_time digest 1 events 7 ("bitbank_status" ∷ []) ≡ raised (empty_split 2)
unfolding split_recording_by_time ghost_amm.Recorder.Split.collect
    ghost_amm.Recorder.Split.split_from ghost_amm.Recorder.Split.selected_of
    ghost_amm.Recorder.Split.takes ghost_amm.Recorder.Split.event_in_split boundary
    ghost_amm.Base.Int.◌+ℤ◌ ghost_amm.Base.Int.◌*ℤ◌ ghost_amm.Base.Int.◌-ℤ◌
third_part_empty = refl
