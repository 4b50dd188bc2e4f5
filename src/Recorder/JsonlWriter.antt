-- ===== src/Recorder/JsonlWriter.antt =====
-- ghost_amm/recorder/jsonl_writer.py: events to files that rotate. A file's name is its index: 0 for the
-- path itself, k for the path with `_{k:04d}` before its suffix.
use Prim.Native.Nat.{◌+◌, ◌%◌}
use ghost_amm.Base.{
  ℕ, zero, suc, Bool, true, false, not, ◌&&◌, ◌||◌, Option, none, some, List, [], ◌∷◌, ◌++◌, Dict,
  lookup, insert, nat_eq, nat_leb, nat_ltb, nat_beq, if◌then◌else◌,
}
use ghost_amm.Jsonl.{JsonLines, read_jsonl}
pub mod Files
pub mod Recording
mod Tests

-- The fields of the writer, `is_open` for `_fh is not None`; with them the lines that the files on disk
-- hold, and those written to the open file and not yet flushed.
pub record Writer (L : Type 0) : Type 0 where
  pub rotate_every_events : Option ℕ
  pub rotate_every_bytes : Option ℕ
  pub flush_every_events : ℕ
  pub total_events : ℕ
  pub current_events : ℕ
  pub current_bytes : ℕ
  pub file_index : ℕ
  pub paths : List ℕ
  pub is_open : Bool
  pub files : Dict ℕ (List L)
  pub buffer : List L

abbrev at_limit : Option ℕ → ℕ → Bool
at_limit none events = false
at_limit (some limit) events = nat_leb limit events

abbrev past_limit : Option ℕ → ℕ → Bool
past_limit none bytes = false
past_limit (some limit) bytes = nat_ltb limit bytes

module _ {L : Type 0} where
  -- The lines of a file on disk.
  abbrev pub content : ℕ → Dict ℕ (List L) → List L
  content k files = elim (lookup k files) [ none ↦ [] | some ls ↦ ls ]

  -- The settings are integers; those below zero act as zero does.
  unfoldable pub new_writer : Option ℕ → Option ℕ → ℕ → Writer L
  new_writer rotate_every_events rotate_every_bytes flush_every_events = record {
    rotate_every_events = rotate_every_events;
    rotate_every_bytes = rotate_every_bytes;
    flush_every_events = if nat_ltb flush_every_events 1 then 1 else flush_every_events;
    total_events = 0;
    current_events = 0;
    current_bytes = 0;
    file_index = 0;
    paths = [];
    is_open = false;
    files = [];
    buffer = [];
  }

  -- Opening a file for writing empties it.
  unfoldable pub open_file : Writer L → Writer L
  open_file w = if w.is_open then w else record w {
    paths = w.paths ++ (w.file_index ∷ []);
    is_open = true;
    files = insert w.file_index [] w.files;
    current_events = 0;
    current_bytes = 0;
  }

  unfoldable pub flush : Writer L → Writer L
  flush w = record w {
    files = insert w.file_index (content w.file_index w.files ++ w.buffer) w.files;
    buffer = [];
  }

  unfoldable pub close : Writer L → Writer L
  close w = if w.is_open then record (flush w) { is_open = false } else w

  unfoldable pub should_rotate_before_write : Writer L → ℕ → Bool
  should_rotate_before_write w next_bytes =
      if nat_beq w.current_events 0
      then false
      else if at_limit w.rotate_every_events w.current_events
      then true
      else past_limit w.rotate_every_bytes (w.current_bytes + next_bytes)

  unfoldable pub rotate : Writer L → Writer L
  rotate w =
      let closed = close w in open_file (record closed { file_index = suc closed.file_index })

  -- `_fh.write(line)` and the counters
  unfoldable pub put_line : Writer L → L → ℕ → Writer L
  put_line w line encoded_len = record w {
    buffer = w.buffer ++ (line ∷ []);
    total_events = suc w.total_events;
    current_events = suc w.current_events;
    current_bytes = w.current_bytes + encoded_len;
  }

  unfoldable pub flush_if_due : Writer L → Writer L
  flush_if_due w = if nat_beq (w.total_events % w.flush_every_events) 0 then flush w else w

module _ {E L : Type 0} (j : JsonLines E L) where
  unfoldable pub write : Writer L → E → Writer L
  write w e =
      let opened = open_file w in
      let line = j.to_json e in
      let encoded_len = j.encoded_len line in
      let ready = if should_rotate_before_write opened encoded_len then rotate opened else opened in
      flush_if_due (put_line ready line encoded_len)

  unfoldable pub write_all : Writer L → List E → Writer L
  write_all w [] = w
  write_all w (e ∷ es) = write_all (write w e) es

  -- `with RotatingJsonlEventWriter(...) as writer:` around the writes.
  unfoldable pub record_all : Writer L → List E → Writer L
  record_all w es = close (write_all (open_file w) es)

  abbrev pub append_read : Option (List E) → Option (List E) → Option (List E)
  append_read (some es) (some rest) = some (es ++ rest)
  append_read (some es) none = none
  append_read none rest = none

  -- `read_jsonl` of the paths in turn, as `run_files` of replay/engine.py reads them.
  unfoldable pub read_files : List ℕ → Dict ℕ (List L) → Option (List E)
  read_files [] files = some []
  read_files (k ∷ ks) files = append_read (read_jsonl j (content k files)) (read_files ks files)
