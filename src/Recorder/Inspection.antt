-- ===== src/Recorder/Inspection.antt =====
-- ghost_amm/recorder/inspection.py: whether a recording can be replayed, from its lines as parsed JSON.
use Prim.Native.Char.{code}
use ghost_amm.Base.{
  ℕ, zero, suc, Bool, true, false, not, ◌&&◌, ◌||◌, Option, none, some, String, List, [], ◌∷◌, ◌++◌,
  Dict, lookup, insert, ◌==◌, string_eq, nat_eq, nat_ltb, length, if◌then◌else◌,
}
use ghost_amm.Base.Int.{ℤ, pos, leb_ℤ, ltb_ℤ}
use ghost_amm.Num.{Num, dec, max, abs, ◌-◌, ◌/◌}
use ghost_amm.Events.{Sequence, Field, missing, null, unreadable, number, to_int}
pub mod Verdict
pub mod Soundness
pub mod Timing
mod Tests

-- The keys of a payload that are read: `reconnects` is `none` where the key is not there, and its
-- integer otherwise (0 for None); `reason` is its text, empty for None.
pub record RawPayload : Type 0 where
  pub room_name : Option String
  pub reconnects : Option ℤ
  pub reason : String
  pub heartbeat_type : Option String

-- A line of the recording. `payload` is `none` for a payload that is no dict.
pub record RawEvent (F : Type 0) : Type 0 where
  pub event_type : String
  pub ts_exchange : Field F
  pub ts_local : Field F
  pub sequence : Sequence
  pub payload : Option RawPayload
  pub raw_room_name : Option String

pub record Inspecting (F : Type 0) : Type 0 where
  pub counts : Dict String ℕ
  pub rooms : Dict String ℕ
  pub events : ℕ
  pub sequence_violations : ℕ
  pub last_depth_sequence : Option ℤ
  pub depth_snapshot_first_ts : Option F
  pub depth_snapshot_last_ts : Option F
  pub first_event_ts : Option F
  pub last_event_ts : Option F
  pub max_event_gap_ms : Option F
  pub max_local_exchange_drift_ms : Option F
  pub reconnect_count : ℤ
  pub heartbeat_events : ℕ
  pub connection_events : ℕ
  pub metadata_fetch_failed : Bool

-- `text.startswith(start)`
abbrev pub starts_with : String → String → Bool
starts_with String.[] text = true
starts_with (String.◌∷◌ c start) String.[] = false
starts_with (String.◌∷◌ c start) (String.◌∷◌ d text) = code c == code d && starts_with start text

abbrev pub or_zero : Option ℕ → ℕ
or_zero none = 0
or_zero (some m) = m

abbrev pub count_of : String → Dict String ℕ → ℕ
count_of k d = or_zero (lookup k d)

-- `counts[k] += 1`
abbrev pub count_one : String → Dict String ℕ → Dict String ℕ
count_one k d = insert k (suc (count_of k d)) d

abbrev pub is_metadata_failure : Option RawPayload → Bool
is_metadata_failure none = false
is_metadata_failure (some p) =
    starts_with "metadata_fetch_failed" p.reason || p.reason == "metadata_pair_or_status_missing"

abbrev truthy_name : Option String → Option String
truthy_name none = none
truthy_name (some s) = if s == "" then none else some s

abbrev or_name : Option String → Option String → Option String
or_name none b = b
or_name (some a) b = some a

abbrev payload_room : Option RawPayload → Option String
payload_room none = none
payload_room (some p) = truthy_name p.room_name

abbrev count_room : Option String → Dict String ℕ → Dict String ℕ
count_room none d = d
count_room (some room) d = count_one room d

abbrev is_connection_heartbeat : Option RawPayload → Bool
is_connection_heartbeat none = true
is_connection_heartbeat (some p) = elim (p.heartbeat_type) [
  | none ↦ true
  | some t ↦ t == "connect" || t == "disconnect"
]

abbrev reconnects_of : ℤ → Option RawPayload → ℤ
reconnects_of k none = k
reconnects_of k (some p) = elim (p.reconnects) [ none ↦ k | some m ↦ if ltb_ℤ k m then m else k ]

-- A delta behind the last depth sequence, or at it.
abbrev pub is_behind : Option ℤ → Option ℤ → Bool
is_behind (some seq) (some last) = leb_ℤ seq last
is_behind _ _ = false

abbrev pub next_delta : Option ℤ → Option ℤ → Option ℤ
next_delta (some seq) (some last) = some seq
next_delta _ last = last

module _ {F : Type 0} ⦃n : Num F⦄ where
  abbrev read_float : Field F → Option F
  read_float missing = none
  read_float null = none
  read_float unreadable = none
  read_float (number x) = some x

  abbrev first_of : Option F → Option F → Option F
  first_of none ts = ts
  first_of (some first) ts = some first

  abbrev last_of : Option F → Option F → Option F
  last_of last none = last
  last_of last (some ts) = some ts

  abbrev largest_of : Option F → Option F → Option F
  largest_of old none = old
  largest_of none (some x) = some x
  largest_of (some old) (some x) = some (max old x)

  abbrev gap_of : Option F → Option F → Option F
  gap_of (some last) (some ts) = some (max (dec 0 0) (ts - last))
  gap_of _ _ = none

  abbrev drift_of : Option F → Option F → Option F
  drift_of (some ts) (some local) = some (abs (local - ts))
  drift_of _ _ = none

  unfoldable pub inspect_times : RawEvent F → Inspecting F → Inspecting F
  inspect_times e s =
      let ts = read_float e.ts_exchange in
      record s {
        first_event_ts = first_of s.first_event_ts ts;
        last_event_ts = last_of s.last_event_ts ts;
        max_event_gap_ms = largest_of s.max_event_gap_ms (gap_of s.last_event_ts ts);
        max_local_exchange_drift_ms =
            largest_of s.max_local_exchange_drift_ms (drift_of ts (read_float e.ts_local));
      }

  unfoldable pub inspect_payload : RawEvent F → Inspecting F → Inspecting F
  inspect_payload e s =
      let heartbeat = e.event_type == "dry_run_heartbeat" in
      record s {
        rooms = count_room (or_name (payload_room e.payload) (truthy_name e.raw_room_name)) s.rooms;
        heartbeat_events = if heartbeat then suc s.heartbeat_events else s.heartbeat_events;
        connection_events =
            if heartbeat && is_connection_heartbeat e.payload
            then suc s.connection_events
            else s.connection_events;
        reconnect_count = reconnects_of s.reconnect_count e.payload;
        metadata_fetch_failed = s.metadata_fetch_failed || is_metadata_failure e.payload;
      }

  unfoldable pub inspect_depth : RawEvent F → Inspecting F → Inspecting F
  inspect_depth e s =
      let seq = to_int F e.sequence in
      let ts = read_float e.ts_exchange in
      if e.event_type == "order_book_snapshot"
      then record s {
        last_depth_sequence = seq;
        depth_snapshot_first_ts = first_of s.depth_snapshot_first_ts ts;
        depth_snapshot_last_ts = last_of s.depth_snapshot_last_ts ts;
      }
      else if e.event_type == "order_book_delta"
      then record s {
        sequence_violations =
            if is_behind seq s.last_depth_sequence
            then suc s.sequence_violations
            else s.sequence_violations;
        last_depth_sequence = next_delta seq s.last_depth_sequence;
      }
      else s

  -- One round of the loop over the lines.
  unfoldable pub inspect_event : Inspecting F → RawEvent F → Inspecting F
  inspect_event s e =
      let timed = inspect_times e (record s { events = suc s.events }) in
      let counted = record timed { counts = count_one e.event_type timed.counts } in
      inspect_depth e (inspect_payload e counted)

  unfoldable pub inspect_events : Inspecting F → List (RawEvent F) → Inspecting F
  inspect_events s [] = s
  inspect_events s (e ∷ es) = inspect_events (inspect_event s e) es
