-- ===== src/Recorder/JsonlWriter/Files.antt =====
-- The files of recorder/jsonl_writer.py on disk, and what reading them in turn gives.
use Prim.Native.Nat.{◌<◌}
use mathlib.Core.List.{append_assoc}
use ghost_amm.Base.{
  ℕ, ◌≡◌, refl, sym, ap, ◌∙◌, Bool, true, false, Option, none, some, List, [], ◌∷◌, ◌++◌, All, Dict,
  insert, lookup-insert, nat_eq, ◌==◌, if◌then◌else◌, arith,
}
use ghost_amm.Jsonl.{JsonLines, read_jsonl, cons_read}
use ghost_amm.Recorder.JsonlWriter.{content, read_files, append_read}

module _ {L : Type 0} where
  -- The lines of some files, one after the other.
  abbrev pub contents : List ℕ → Dict ℕ (List L) → List L
  contents [] files = []
  contents (k ∷ ks) files = content k files ++ contents ks files

  pub content-insert :
      (k i : ℕ) (ls : List L) (files : Dict ℕ (List L))
      → content i (insert k ls files) ≡ (if k == i then ls else content i files)
  content-insert k i ls files = ground (arith, lookup-insert k i ls files)

  -- A file with a new index leaves those before it alone.
  pub contents-insert :
      (k : ℕ) (ls : List L) (ks : List ℕ) (files : Dict ℕ (List L))
      → All (λ i. i < k) ks
      → contents ks (insert k ls files) ≡ contents ks files
  contents-insert k ls [] files h = refl
  contents-insert k ls (i ∷ ks) files h =
      ground (arith, content-insert k i ls files, contents-insert k ls ks files h.1)

  pub contents-append :
      (ks js : List ℕ) (files : Dict ℕ (List L))
      → contents (ks ++ js) files ≡ contents ks files ++ contents js files
  contents-append [] js files = refl
  contents-append (k ∷ ks) js files = simp (contents-append ks js files, append_assoc)

module _ {E L : Type 0} (j : JsonLines E L) where
  append_read_assoc :
      (e : E) (a b : Option (List E))
      → append_read j (cons_read j (some e) a) b ≡ cons_read j (some e) (append_read j a b)
  append_read_assoc e (some es) (some fs) = refl
  append_read_assoc e (some es) none = refl
  append_read_assoc e none b = refl

  append_read_none : (b : Option (List E)) → append_read j (some []) b ≡ b
  append_read_none (some b) = refl
  append_read_none none = refl

  -- One line more at the front.
  read_line-append :
      (blank : Bool) (read : Option E) (a b : Option (List E))
      → append_read j (if blank then a else cons_read j read a) b
        ≡ (if blank then append_read j a b else cons_read j read (append_read j a b))
  read_line-append true read a b = refl
  read_line-append false none a b = refl
  read_line-append false (some e) a b = append_read_assoc e a b

  read_jsonl-append :
      (xs ys : List L) → read_jsonl j (xs ++ ys) ≡ append_read j (read_jsonl j xs) (read_jsonl j ys)
  unfolding read_jsonl
  read_jsonl-append [] ys = sym (append_read_none (read_jsonl j ys))
  read_jsonl-append (x ∷ xs) ys =
      ap (λ r. if j.is_blank x then r else cons_read j (j.from_json x) r) (read_jsonl-append xs ys)
      ∙ sym (read_line-append (j.is_blank x) (j.from_json x) (read_jsonl j xs) (read_jsonl j ys))

  pub read_files-contents :
      (ks : List ℕ) (files : Dict ℕ (List L))
      → read_files j ks files ≡ read_jsonl j (contents ks files)
  unfolding read_files read_jsonl
  read_files-contents [] files = refl
  read_files-contents (k ∷ ks) files =
      ap (append_read j (read_jsonl j (content k files))) (read_files-contents ks files)
      ∙ sym (read_jsonl-append (content k files) (contents ks files))
