-- ===== src/Jsonl.antt =====
-- The JSON lines of ghost_amm/events.py: one event to a line. What Python's json module makes of an
-- event, and `Event.from_dict` of the text, enter as a parameter.
use ghost_amm.Base.{
  ℕ, ◌≡◌, refl, Bool, false, Option, none, some, List, [], ◌∷◌, map, if◌then◌else◌,
}

-- `E` is the type of events, `L` that of lines.
pub record JsonLines (E L : Type 0) : Type 0 where
  pub to_json : E → L
  -- `Event.from_dict(json.loads(line))`, `none` where it raises
  pub from_json : L → Option E
  -- `not line.strip()`
  pub is_blank : L → Bool
  -- `len(line.encode("utf-8"))`, the end of the line included
  pub encoded_len : L → ℕ

-- `json.loads` undoes `json.dumps`, and what `json.dumps` makes of an object is not blank.
pub record IsFaithful {E L : Type 0} (j : JsonLines E L) : Type 0 where
  pub from_json-to_json : (e : E) → j.from_json (j.to_json e) ≡ some e
  pub not_blank : (e : E) → j.is_blank (j.to_json e) ≡ false

module _ {E L : Type 0} (j : JsonLines E L) where
  abbrev pub cons_read : Option E → Option (List E) → Option (List E)
  cons_read (some e) (some es) = some (e ∷ es)
  cons_read (some e) none = none
  cons_read none es = none

  -- `read_jsonl` of the lines of a file
  unfoldable pub read_jsonl : List L → Option (List E)
  read_jsonl [] = some []
  read_jsonl (l ∷ ls) =
      let rest = read_jsonl ls in if j.is_blank l then rest else cons_read (j.from_json l) rest

  -- The lines that `write_jsonl` leaves in the file.
  abbrev pub write_jsonl : List E → List L
  write_jsonl es = map j.to_json es

  -- What was written reads back.
  pub read_jsonl-write_jsonl :
      (f : IsFaithful j) (es : List E) → read_jsonl (write_jsonl es) ≡ some es
  unfolding read_jsonl
  read_jsonl-write_jsonl f [] = refl
  read_jsonl-write_jsonl f (e ∷ es) =
      rw (f.not_blank e, f.from_json-to_json e, read_jsonl-write_jsonl f es)
