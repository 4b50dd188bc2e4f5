-- ===== src/Recorder/Inspection/Verdict.antt =====
-- The end of `inspect_recording` of recorder/inspection.py: what is missing, and the verdict. The counts
-- are left in the order of their first events.
use ghost_amm.Base.{
  ℕ, zero, suc, Bool, true, false, not, ◌&&◌, Option, none, some, String, List, [], ◌∷◌, Dict,
  string_eq, nat_beq, nat_ltb, if◌then◌else◌,
}
use ghost_amm.Base.Int.{ℤ, pos}
use ghost_amm.Num.{Num, dec, max, ◌-◌, ◌/◌}
use ghost_amm.Recorder.Inspection.{RawEvent, Inspecting, inspect_events, count_of}

pub data Reason : Type 0 where
  missing_types : List String → Reason
  metadata_fetch_failed : Reason
  sequence_violations : Reason

-- The fields of the result; those that say whether a type of event was seen are `has`, and
-- `ticker_count` and `transaction_count` are counts of `event_counts`.
pub record RecordingInspection (F : Type 0) : Type 0 where
  pub files : ℕ
  pub events : ℕ
  pub event_counts : Dict String ℕ
  pub rooms : Dict String ℕ
  pub sequence_violations : ℕ
  pub depth_delta_sequence_monotonic : Bool
  pub depth_snapshot_first_ts : Option F
  pub depth_snapshot_last_ts : Option F
  pub reconnect_count : ℤ
  pub heartbeat_events : ℕ
  pub connection_events : ℕ
  pub first_event_ts : Option F
  pub last_event_ts : Option F
  pub duration_ms : Option F
  pub duration_hours : Option F
  pub max_event_gap_ms : Option F
  pub max_local_exchange_drift_ms : Option F
  pub metadata_fetch_failed : Bool
  pub ok_for_replay : Bool
  pub reason : Option Reason

-- `counts[name] > 0`
abbrev pub has : Dict String ℕ → String → Bool
has counts name = nat_ltb 0 (count_of name counts)

abbrev pub required : Bool → List String
required strict =
    "bitbank_pair_spec"
    ∷ "bitbank_status"
    ∷ "order_book_snapshot"
    ∷ "order_book_delta"
    ∷ (if strict then "bitbank_ticker" ∷ "trade" ∷ [] else [])

unfoldable pub missing_of : Dict String ℕ → List String → List String
missing_of counts [] = []
missing_of counts (name ∷ names) =
    if has counts name then missing_of counts names else name ∷ missing_of counts names

abbrev pub is_nothing : List String → Bool
is_nothing [] = true
is_nothing (name ∷ names) = false

abbrev reason_of : List String → Bool → ℕ → Option Reason
reason_of (name ∷ names) failed violations = some (missing_types (name ∷ names))
reason_of [] true violations = some Reason.metadata_fetch_failed
reason_of [] false zero = none
reason_of [] false (suc k) = some Reason.sequence_violations

module _ {F : Type 0} ⦃n : Num F⦄ where
  unfoldable pub new_inspecting : Inspecting F
  new_inspecting = record {
    counts = [];
    rooms = [];
    events = 0;
    sequence_violations = 0;
    last_depth_sequence = none;
    depth_snapshot_first_ts = none;
    depth_snapshot_last_ts = none;
    first_event_ts = none;
    last_event_ts = none;
    max_event_gap_ms = none;
    max_local_exchange_drift_ms = none;
    reconnect_count = pos 0;
    heartbeat_events = 0;
    connection_events = 0;
    metadata_fetch_failed = false;
  }

  abbrev pub duration_of : Option F → Option F → Option F
  duration_of (some first) (some last) = some (max (dec 0 0) (last - first))
  duration_of _ _ = none

  abbrev pub in_hours : Option F → Option F
  in_hours none = none
  in_hours (some ms) = some (ms / dec 3_600_000 0)

  -- The verdict on what the loop found.
  unfoldable pub verdict : ℕ → Bool → Inspecting F → RecordingInspection F
  verdict files strict s =
      let missing = missing_of s.counts (required strict) in
      let duration_ms = duration_of s.first_event_ts s.last_event_ts in
      record {
        files = files;
        events = s.events;
        event_counts = s.counts;
        rooms = s.rooms;
        sequence_violations = s.sequence_violations;
        depth_delta_sequence_monotonic = nat_beq s.sequence_violations 0;
        depth_snapshot_first_ts = s.depth_snapshot_first_ts;
        depth_snapshot_last_ts = s.depth_snapshot_last_ts;
        reconnect_count = s.reconnect_count;
        heartbeat_events = s.heartbeat_events;
        connection_events = s.connection_events;
        first_event_ts = s.first_event_ts;
        last_event_ts = s.last_event_ts;
        duration_ms = duration_ms;
        duration_hours = in_hours duration_ms;
        max_event_gap_ms = s.max_event_gap_ms;
        max_local_exchange_drift_ms = s.max_local_exchange_drift_ms;
        metadata_fetch_failed = s.metadata_fetch_failed;
        ok_for_replay =
            is_nothing missing && nat_beq s.sequence_violations 0 && not s.metadata_fetch_failed;
        reason = reason_of missing s.metadata_fetch_failed s.sequence_violations;
      }

  -- The lines that are not blank, of some number of files one after the other.
  unfoldable pub inspect_recording : ℕ → Bool → List (RawEvent F) → RecordingInspection F
  inspect_recording files strict events =
      verdict files strict (inspect_events new_inspecting events)
