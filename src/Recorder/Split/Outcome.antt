-- ===== src/Recorder/Split/Outcome.antt =====
-- What `split_recording_by_time` of recorder/split.py returns.
use ghost_amm.Base.{◌≤◌, ℕ, suc, ◌≡◌, some, String, List, [], ◌∷◌, ◌++◌, All, length, nat_eq}
use ghost_amm.Num.{Num, IsOrdered}
use ghost_amm.Num.Extremes.{least, greatest}
use ghost_amm.Recorder.Split.{
  Recorded, RecordingSplit, RecordingSplitResult, SplitResult, ok, raised, Timed, collect,
  metadata_for_split, times, events_of, selected_of,
}
use ghost_amm.Recorder.Split.Partition.{IsTakenOnce}

abbrev Gives : {A : Type 0} → (A → Type 0) → SplitResult A → Type 0
Gives P (ok a) = P a
Gives P (raised e) = Unit

module _ {F B : Type 0} ⦃n : Num F⦄ (digest : String → ℕ → F → String) where
  -- The parts from an index on hold the metadata, moved before the start, and the data events that the
  -- part takes, in their order.
  pub AreParts :
      (first_ts last_ts : F) (parts : ℕ)
      → List (Recorded F B)
      → List (Timed F B)
      → ℕ
      → List (RecordingSplit F B)
      → Type 0
  AreParts first_ts last_ts parts metadata data_events index [] = Unit
  AreParts first_ts last_ts parts metadata data_events index (s ∷ ss) =
      (s.output_events
        ≡ metadata_for_split digest (length metadata) 0 s.start_ts metadata
          ++ events_of (selected_of first_ts last_ts parts index data_events))
      × AreParts first_ts last_ts parts metadata data_events (suc index) ss

  abbrev Parts :
      (first_ts last_ts : F) (parts : ℕ)
      → List (Recorded F B)
      → List (Timed F B)
      → (count index : ℕ) → List (RecordingSplit F B)
      → Type 0
  Parts first_ts last_ts parts metadata data_events count index ss =
      (length ss ≡ count) × AreParts first_ts last_ts parts metadata data_events index ss

  abbrev pub AllTaken : IsOrdered F → (first_ts last_ts : F) → List (Timed F B) → ℕ → Type 0
  AllTaken laws first_ts last_ts data_events parts =
      All (λ (ts, e). IsTakenOnce laws first_ts last_ts parts ts) data_events

  -- The result: two parts or more and as many as asked for, the times of the recording from the least
  -- to the greatest of the data events, and each part as above.
  pub record IsCut (events : List (Recorded F B)) (types : List String) (parts : ℕ)
      (r : RecordingSplitResult F B) : Type 0 where
    pub asked : r.parts ≡ parts
    pub enough : 2 ≤ parts
    pub first : least (times (collect types [] events).1) ≡ some r.first_ts
    pub last : greatest (times (collect types [] events).1) ≡ some r.last_ts
    pub count : length r.splits ≡ parts
    pub are_parts :
        AreParts r.first_ts r.last_ts parts
          (collect types [] events).0
          (collect types [] events).1
          0
          r.splits
