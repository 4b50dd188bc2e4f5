-- ===== src/Recorder/JsonlWriter/Tests.antt =====
-- Recordings of three events, in files of two.
use ghost_amm.Base.{ℕ, ◌≡◌, refl, Option, none, some, List, [], ◌∷◌, All, false, true}
use ghost_amm.Jsonl.{JsonLines, IsFaithful}
use ghost_amm.Recorder.JsonlWriter.{new_writer, record_all, read_files, content}
use ghost_amm.Recorder.JsonlWriter.Recording.{IsSmall, record_all-read_files, record_all-IsSmall}

-- Lines that hold a number, or are blank.
abbrev lines : JsonLines ℕ (Option ℕ)
lines = record {
  to_json = some;
  from_json = λ l. l;
  is_blank = λ l. elim l [ none ↦ true | some n ↦ false ];
  encoded_len = λ l. 10;
}

lines-IsFaithful : IsFaithful lines
lines-IsFaithful = record { from_json-to_json = λ e. refl; not_blank = λ e. refl }

abbrev events : List ℕ
events = 7 ∷ 8 ∷ 9 ∷ []

two_files : (record_all lines (new_writer (some 2) (some 100) 2) events).paths ≡ 0 ∷ 1 ∷ []
unfolding record_all ghost_amm.Recorder.JsonlWriter.close ghost_amm.Recorder.JsonlWriter.write_all
    ghost_amm.Recorder.JsonlWriter.write ghost_amm.Recorder.JsonlWriter.flush_if_due
    ghost_amm.Recorder.JsonlWriter.put_line
    ghost_amm.Recorder.JsonlWriter.should_rotate_before_write
    ghost_amm.Recorder.JsonlWriter.open_file new_writer ghost_amm.Recorder.JsonlWriter.flush
    ghost_amm.Recorder.JsonlWriter.rotate
two_files = refl

record_all-read_files_example :
    read_files lines
      (record_all lines (new_writer (some 2) (some 100) 2) events).paths
      (record_all lines (new_writer (some 2) (some 100) 2) events).files
    ≡ some events
record_all-read_files_example =
    record_all-read_files lines (some 2) (some 100) lines-IsFaithful 2 events

record_all-IsSmall_example :
    All
      (λ k.
        IsSmall lines
          (some 2)
          (some 100)
          (content k (record_all lines (new_writer (some 2) (some 100) 2) events).files))
      (record_all lines (new_writer (some 2) (some 100) 2) events).paths
record_all-IsSmall_example = record_all-IsSmall lines (some 2) (some 100) 2 events
