-- ===== src/Recorder/Split.antt =====
-- ghost_amm/recorder/split.py: a recording cut into parts of equal time, each with the metadata first.
-- The files of parts before an empty one stay written where it raises; here they are not in the result.
use Prim.Native.Nat.{◌-◌ as monus}
use ghost_amm.Base.{
  ℕ, zero, suc, Bool, true, false, not, ◌&&◌, Option, none, some, String, List, [], ◌∷◌, ◌++◌, map,
  filter, length, any, ◌==◌, string_eq, nat_eq, nat_ltb, if◌then◌else◌,
}
use ghost_amm.Base.Int.{pos}
use ghost_amm.Num.{Num, ltb, leb, dec, max, ◌+◌, ◌-◌, ◌*◌, ◌/◌}
use ghost_amm.Num.Extremes.{least, greatest}
pub mod Partition
pub mod Outcome
mod Tests

-- An event of the recording, with the fields that are read; `B` holds the others.
pub record Recorded (F B : Type 0) : Type 0 where
  pub event_id : String
  pub event_type : String
  pub ts_exchange : Option F
  pub ts_local : Option F
  pub body : B

pub record RecordingSplit (F B : Type 0) : Type 0 where
  pub index : ℕ
  pub events : ℕ
  pub data_events : ℕ
  pub start_ts : F
  pub end_ts : F
  pub duration_hours : F
  -- what `write_jsonl` puts into its file
  pub output_events : List (Recorded F B)

pub record RecordingSplitResult (F B : Type 0) : Type 0 where
  pub parts : ℕ
  pub first_ts : F
  pub last_ts : F
  pub metadata_events : ℕ
  pub splits : List (RecordingSplit F B)

pub data SplitError : Type 0 where
  parts_must_be_at_least_2 : SplitError
  no_input_files : SplitError
  no_timestamped_data_events : SplitError
  recording_duration_zero : SplitError
  empty_split : ℕ → SplitError

pub data SplitResult (A : Type 0) : Type 0 where
  ok : A → SplitResult A
  raised : SplitError → SplitResult A

infixl 5 ◌>>=◌
abbrev pub ◌>>=◌ : {A B : Type 0} → SplitResult A → (A → SplitResult B) → SplitResult B
ok a >>= f = f a
raised e >>= f = raised e

abbrev pub or_raise : {A : Type 0} → Option A → SplitError → SplitResult A
or_raise none e = raised e
or_raise (some a) e = ok a

-- An event with a time, and that time.
abbrev pub Timed : Type 0 → Type 0 → Type 0
Timed F B = F × Recorded F B

module _ {F B : Type 0} where
  abbrev add_data : Recorded F B → Option F → List (Timed F B) → List (Timed F B)
  add_data e none data_events = data_events
  add_data e (some ts) data_events = (ts, e) ∷ data_events

  -- The loop over the events: the metadata and the data, from the types seen so far. A first event of
  -- a metadata type is metadata, any other with a time is data.
  unfoldable pub collect :
      List String → List String → List (Recorded F B) → List (Recorded F B) × List (Timed F B)
  collect types seen [] = ([], [])
  collect types seen (e ∷ es) =
      let is_new = any (λ t. t == e.event_type) types && not (any (λ t. t == e.event_type) seen) in
      let (metadata, data_events) =
        collect types (if is_new then e.event_type ∷ seen else seen) es in
      if is_new
      then (e ∷ metadata, data_events)
      else (metadata, add_data e e.ts_exchange data_events)

module _ {F : Type 0} ⦃n : Num F⦄ where
  -- `_event_in_split`
  unfoldable pub event_in_split : F → (start end : F) → Bool → Bool
  event_in_split ts start end final =
      if final then leb start ts && leb ts end else leb start ts && ltb ts end

  -- `first_ts + span * index / parts`
  unfoldable pub boundary : (first_ts last_ts : F) (parts index : ℕ) → F
  boundary first_ts last_ts parts index =
      first_ts + (last_ts - first_ts) * n.of_int (pos index) / n.of_int (pos parts)

  -- Whether the part of the index takes an event of this time.
  unfoldable pub takes : (first_ts last_ts : F) (parts index : ℕ) → F → Bool
  takes first_ts last_ts parts index ts =
      event_in_split ts (boundary first_ts last_ts parts index)
        (boundary first_ts last_ts parts (suc index)) (suc index == parts)

module _ {F B : Type 0} ⦃n : Num F⦄ where
  abbrev pub times : List (Timed F B) → List F
  times es = map (λ (ts, e). ts) es

  abbrev pub events_of : List (Timed F B) → List (Recorded F B)
  events_of es = map (λ (ts, e). e) es

  unfoldable pub selected_of :
      (first_ts last_ts : F) (parts index : ℕ) → List (Timed F B) → List (Timed F B)
  selected_of first_ts last_ts parts index data_events =
      filter (λ (ts, e). takes first_ts last_ts parts index ts) data_events

-- The digest that names a moved metadata event is a parameter.
module _ {F B : Type 0} ⦃n : Num F⦄ (deterministic_event_id : String → ℕ → F → String) where
  -- `_metadata_for_split`, from an index on
  unfoldable pub metadata_for_split : ℕ → ℕ → F → List (Recorded F B) → List (Recorded F B)
  metadata_for_split count index split_start_ts [] = []
  metadata_for_split count index split_start_ts (e ∷ es) =
      let ts = split_start_ts - n.of_int (pos (monus count index)) in
      record e {
        event_id = deterministic_event_id e.event_id index ts;
        ts_exchange = some ts;
        ts_local = some ts;
      }
      ∷ metadata_for_split count (suc index) split_start_ts es

  abbrev pub split_of :
      List (Recorded F B) → ℕ → List (Timed F B) → (split_start split_end : F) → RecordingSplit F B
  split_of metadata index selected split_start split_end =
      let output_events =
        metadata_for_split (length metadata) 0 split_start metadata ++ events_of selected in
      record {
        index = suc index;
        events = length output_events;
        data_events = length selected;
        start_ts = split_start;
        end_ts = split_end;
        duration_hours = max (dec 0 0) (split_end - split_start) / dec 3_600_000 0;
        output_events = output_events;
      }

  -- A part with data, before the parts behind it.
  abbrev pub joined :
      List (Recorded F B)
      → ℕ
      → List (Timed F B)
      → (split_start split_end : F) → List (RecordingSplit F B)
      → SplitResult (List (RecordingSplit F B))
  joined metadata index selected split_start split_end rest =
      ok (split_of metadata index selected split_start split_end ∷ rest)

  -- The loop over the parts: so many from an index on.
  unfoldable pub split_from :
      (first_ts last_ts : F) (parts : ℕ)
      → List (Recorded F B)
      → List (Timed F B)
      → (count index : ℕ) → SplitResult (List (RecordingSplit F B))
  split_from first_ts last_ts parts metadata data_events zero index = ok []
  split_from first_ts last_ts parts metadata data_events (suc count) index = do
    let selected = selected_of first_ts last_ts parts index data_events
    split_start ← or_raise (least (times selected)) (empty_split (suc index))
    split_end ← or_raise (greatest (times selected)) (empty_split (suc index))
    (split_from first_ts last_ts parts metadata data_events count (suc index)
        >>= joined metadata index selected split_start split_end)

  abbrev pub result_of :
      ℕ
      → List (Recorded F B)
      → (first_ts last_ts : F) → List (RecordingSplit F B)
      → SplitResult (RecordingSplitResult F B)
  result_of parts metadata first_ts last_ts splits = ok (record {
    parts = parts;
    first_ts = first_ts;
    last_ts = last_ts;
    metadata_events = length metadata;
    splits = splits;
  })

  -- The parts of a recording between its first and last time.
  abbrev pub split_between :
      ℕ
      → List (Recorded F B)
      → List (Timed F B)
      → (first_ts last_ts : F) → SplitResult (RecordingSplitResult F B)
  split_between parts metadata data_events first_ts last_ts =
      if leb last_ts first_ts
      then raised recording_duration_zero
      else split_from first_ts last_ts parts metadata data_events parts 0
        >>= result_of parts metadata first_ts last_ts

  abbrev pub split_collected :
      ℕ → List (Recorded F B) × List (Timed F B) → SplitResult (RecordingSplitResult F B)
  split_collected parts (metadata, data_events) = do
    first_ts ← or_raise (least (times data_events)) no_timestamped_data_events
    last_ts ← or_raise (greatest (times data_events)) no_timestamped_data_events
    split_between parts metadata data_events first_ts last_ts

  -- `paths` is the number of input files, `events` what `iter_jsonl` reads from them.
  unfoldable pub split_recording_by_time :
      (paths : ℕ)
      → List (Recorded F B)
      → (parts : ℕ) → List String
      → SplitResult (RecordingSplitResult F B)
  split_recording_by_time paths events parts metadata_event_types =
      if nat_ltb parts 2
      then raised parts_must_be_at_least_2
      else if paths == 0
      then raised no_input_files
      else split_collected parts (collect metadata_event_types [] events)
