-- ===== src/Recorder/JsonlWriter/Recording.antt =====
-- A recording by recorder/jsonl_writer.py: its files hold the events in order, and none is too large.
use Prim.Native.Nat.{◌+◌, ◌%◌, ◌≤◌, ◌<◌}
use mathlib.Core.List.{append-nil, append_assoc}
use ghost_amm.Base.{
  ℕ, suc, ◌≡◌, refl, sym, ap, ◌∙◌, ◌⊎◌, inl, inr, Bool, true, false, Option, none, some, List, [],
  ◌∷◌, ◌++◌, All, All-append, All-map, length, length-append, Dict, insert, nat_eq, nat_beq,
  Bool-cases, if◌then◌else◌, arith,
}
use ghost_amm.Jsonl.{JsonLines, IsFaithful, read_jsonl, write_jsonl, read_jsonl-write_jsonl}
use ghost_amm.Recorder.JsonlWriter.{
  Writer, content, new_writer, open_file, flush, close, should_rotate_before_write, rotate,
  put_line, flush_if_due, write, write_all, record_all, read_files, at_limit, past_limit,
}
use ghost_amm.Recorder.JsonlWriter.Files.{
  contents, content-insert, contents-insert, contents-append, read_files-contents,
}

module _ {E L : Type 0} (j : JsonLines E L) (events_limit bytes_limit : Option ℕ) where
  abbrev pub bytes : List L → ℕ
  bytes [] = 0
  bytes (l ∷ ls) = j.encoded_len l + bytes ls

  bytes-append : (xs ys : List L) → bytes (xs ++ ys) ≡ bytes xs + bytes ys
  bytes-append [] ys = omega arith
  bytes-append (x ∷ xs) ys = omega (arith, bytes-append xs ys)

  abbrev Within : Option ℕ → ℕ → Type 0
  Within none k = Unit
  Within (some limit) k = k ≤ limit

  -- At most one line, or no more lines and bytes than the settings allow.
  abbrev pub IsSmall : List L → Type 0
  IsSmall ls = (length ls ≤ 1) ⊎ (Within events_limit (length ls) × Within bytes_limit (bytes ls))

  -- The files that are closed, and the open file with the lines not yet flushed, hold the lines in
  -- order. The counters count the open file.
  record IsWriting (w : Writer L) (lines : List L) : Type 0 where
    earlier : List ℕ
    paths_are : w.paths ≡ earlier ++ (w.file_index ∷ [])
    below : All (λ i. i < w.file_index) earlier
    holds : contents earlier w.files ++ (content w.file_index w.files ++ w.buffer) ≡ lines
    opened : w.is_open ≡ true
    small : All (λ i. IsSmall (content i w.files)) earlier
    small_now : IsSmall (content w.file_index w.files ++ w.buffer)
    events_now : w.current_events ≡ length (content w.file_index w.files ++ w.buffer)
    bytes_now : w.current_bytes ≡ bytes (content w.file_index w.files ++ w.buffer)
    same_events : w.rotate_every_events ≡ events_limit
    same_bytes : w.rotate_every_bytes ≡ bytes_limit

  -- A file with a new index leaves those before it as small as they were.
  insert-IsSmall :
      (k : ℕ) (ls : List L) (ks : List ℕ) (files : Dict ℕ (List L))
      → All (λ i. i < k) ks
      → All (λ i. IsSmall (content i files)) ks
      → All (λ i. IsSmall (content i (insert k ls files))) ks
  insert-IsSmall k ls [] files b h = tt
  insert-IsSmall k ls (i ∷ ks) files (lt, b) (h, hs) =
      let e : content i (insert k ls files) ≡ content i files =
        ground (arith, content-insert k i ls files) in
      (rw e h, insert-IsSmall k ls ks files b hs)

  flush-IsWriting : (w : Writer L) (lines : List L) → IsWriting w lines → IsWriting (flush w) lines
  unfolding flush
  flush-IsWriting w lines h =
      let k = w.file_index in
      let now = content k w.files ++ w.buffer in
      let e : content k (insert k now w.files) ++ [] ≡ now =
        append-nil _ ∙ ground (arith, content-insert k k now w.files) in
      record {
        earlier = h.earlier;
        paths_are = h.paths_are;
        below = h.below;
        holds = rw (e, contents-insert k now h.earlier w.files h.below) h.holds;
        opened = h.opened;
        small = insert-IsSmall k now h.earlier w.files h.below h.small;
        small_now = rw e h.small_now;
        events_now = rw e h.events_now;
        bytes_now = rw e h.bytes_now;
        same_events = h.same_events;
        same_bytes = h.same_bytes;
      }

  -- A closed file that was written: what a new file starts from.
  start_next :
      (w : Writer L) (lines : List L)
      → w.is_open ≡ false
      → (earlier : List ℕ) → w.paths ≡ earlier
      → All (λ i. i < w.file_index) earlier
      → contents earlier w.files ≡ lines
      → All (λ i. IsSmall (content i w.files)) earlier
      → w.buffer ≡ []
      → w.rotate_every_events ≡ events_limit
      → w.rotate_every_bytes ≡ bytes_limit
      → IsWriting (open_file w) lines
  unfolding open_file
  start_next w lines shut earlier paths below holds small empty same_e same_b =
      let k = w.file_index in
      let e : content k (insert k [] w.files) ≡ [] =
        ground (arith, content-insert k k [] w.files) in
      simp (shut, empty)
        (record {
          earlier = earlier;
          paths_are = ap (λ ps. ps ++ (k ∷ [])) paths;
          below = below;
          holds = rw (e, contents-insert k [] earlier w.files below) (append-nil _ ∙ holds);
          opened = refl;
          small = insert-IsSmall k [] earlier w.files below small;
          small_now = rw e (inl (omega arith));
          events_now = rw e refl;
          bytes_now = rw e refl;
          same_events = same_e;
          same_bytes = same_b;
        })

  rotate_lem :
      (w : Writer L)
      → w.is_open ≡ true
      → rotate w ≡ open_file (record (flush w) { is_open = false; file_index = suc w.file_index })
  unfolding rotate close flush
  rotate_lem w opened = simp opened

  rotated_events : (w : Writer L) → w.is_open ≡ true → (rotate w).current_events ≡ 0
  unfolding open_file
  rotated_events w opened = rw (rotate_lem w opened)

  All-lower : (k : ℕ) (ks : List ℕ) → All (λ i. i < k) ks → All (λ i. i < suc k) (ks ++ (k ∷ []))
  All-lower k ks h = All-append _ ks _ (All-map _ _ (λ i lt. omega arith) ks h) (omega arith, tt)

  rotate-IsWriting :
      (w : Writer L) (lines : List L) → IsWriting w lines → IsWriting (rotate w) lines
  unfolding flush
  rotate-IsWriting w lines h =
      let f = flush-IsWriting w lines h in
      let k = w.file_index in
      let files = (flush w).files in
      rw (rotate_lem w h.opened) (
        start_next (record (flush w) { is_open = false; file_index = suc k }) lines refl
          (f.earlier ++ (k ∷ [])) f.paths_are (All-lower k f.earlier f.below)
          (contents-append f.earlier (k ∷ []) files ∙ f.holds)
          (All-append _ f.earlier _ f.small (rw (← append-nil (content k files)) f.small_now, tt))
          refl f.same_events f.same_bytes)

  put_line-IsWriting :
      (w : Writer L) (lines : List L) (l : L)
      → IsWriting w lines
      → IsSmall ((content w.file_index w.files ++ w.buffer) ++ (l ∷ []))
      → IsWriting (put_line w l (j.encoded_len l)) (lines ++ (l ∷ []))
  unfolding put_line
  put_line-IsWriting w lines l h small =
      let now = content w.file_index w.files ++ w.buffer in
      let e : content w.file_index w.files ++ (w.buffer ++ (l ∷ [])) ≡ now ++ (l ∷ []) =
        sym (append_assoc (content w.file_index w.files) w.buffer (l ∷ [])) in
      record {
        earlier = h.earlier;
        paths_are = h.paths_are;
        below = h.below;
        holds = rw e (sym (append_assoc _ now _) ∙ ap (λ ls. ls ++ (l ∷ [])) h.holds);
        opened = h.opened;
        small = h.small;
        small_now = rw e small;
        events_now = rw e (omega (arith, h.events_now, length-append now (l ∷ [])));
        bytes_now = rw e (omega (arith, h.bytes_now, bytes-append now (l ∷ [])));
        same_events = h.same_events;
        same_bytes = h.same_bytes;
      }

  flush_if_due-IsWriting :
      (w : Writer L) (lines : List L) → IsWriting w lines → IsWriting (flush_if_due w) lines
  unfolding flush_if_due
  flush_if_due-IsWriting w lines h =
      elim (Bool-cases (nat_beq (w.total_events % w.flush_every_events) 0)) [
        | inl e ↦ rw e (flush-IsWriting w lines h)
        | inr e ↦ rw e h
      ]

  under_limit :
      (limit set : Option ℕ) (k n : ℕ)
      → set ≡ limit
      → suc k ≡ n
      → at_limit set k ≡ false
      → Within limit n
  under_limit none set k n same count e = tt
  under_limit (some limit) set k n same count e =
      let f : at_limit (some limit) k ≡ false = ap (λ o. at_limit o k) (sym same) ∙ e in
      ground arith

  not_past_limit :
      (limit set : Option ℕ) (k n : ℕ)
      → set ≡ limit
      → k ≡ n
      → past_limit set k ≡ false
      → Within limit n
  not_past_limit none set k n same size e = tt
  not_past_limit (some limit) set k n same size e =
      let f : past_limit (some limit) k ≡ false = ap (λ o. past_limit o k) (sym same) ∙ e in
      ground arith

  no_rotation :
      (first at past : Bool)
      → (if first then false else if at then true else past) ≡ false
      → (first ≡ true) ⊎ ((at ≡ false) × (past ≡ false))
  no_rotation true at past e = inl refl
  no_rotation false true past e = ground arith
  no_rotation false false past e = inr (refl, e)

  first_line : (k n : ℕ) → nat_beq k 0 ≡ true → suc k ≡ n → n ≤ 1
  first_line k n e count = ground arith

  -- The test before a write keeps the file small.
  room :
      (w : Writer L) (lines : List L) (l : L)
      → IsWriting w lines
      → should_rotate_before_write w (j.encoded_len l) ≡ false
      → IsSmall ((content w.file_index w.files ++ w.buffer) ++ (l ∷ []))
  unfolding should_rotate_before_write
  room w lines l h t =
      let now = content w.file_index w.files ++ w.buffer in
      let count : suc w.current_events ≡ length (now ++ (l ∷ [])) =
        omega (arith, h.events_now, length-append now (l ∷ [])) in
      let size : w.current_bytes + j.encoded_len l ≡ bytes (now ++ (l ∷ [])) =
        omega (arith, h.bytes_now, bytes-append now (l ∷ [])) in
      elim (no_rotation (nat_beq w.current_events 0)
        (at_limit w.rotate_every_events w.current_events)
        (past_limit w.rotate_every_bytes (w.current_bytes + j.encoded_len l)) t) [
          | inl e ↦ inl (first_line _ _ e count)
          | inr (e, f) ↦ inr (
            under_limit _ _ _ _ h.same_events count e,
            not_past_limit _ _ _ _ h.same_bytes size f,
          )
        ]

  open_file_lem : (w : Writer L) → w.is_open ≡ true → open_file w ≡ w
  unfolding open_file
  open_file_lem w opened = rw opened

  -- The first line of a file is always small enough.
  fresh_room :
      (w : Writer L) (lines : List L) (l : L)
      → IsWriting w lines
      → w.current_events ≡ 0
      → IsSmall ((content w.file_index w.files ++ w.buffer) ++ (l ∷ []))
  fresh_room w lines l h none_yet =
      let now = content w.file_index w.files ++ w.buffer in
      inl (omega (arith, h.events_now, none_yet, length-append now (l ∷ [])))

  put-IsWriting :
      (w : Writer L) (lines : List L) (l : L)
      → IsWriting w lines
      → IsWriting
          (flush_if_due (
            put_line
              (if should_rotate_before_write w (j.encoded_len l) then rotate w else w)
              l
              (j.encoded_len l)))
          (lines ++ (l ∷ []))
  put-IsWriting w lines l h =
      flush_if_due-IsWriting _ _
        (elim (Bool-cases (should_rotate_before_write w (j.encoded_len l))) [
          | inl e ↦
              let r = rotate-IsWriting w lines h in
              rw e (
                put_line-IsWriting (rotate w) lines l r
                  (fresh_room (rotate w) lines l r (rotated_events w h.opened)))
          | inr e ↦ rw e (put_line-IsWriting w lines l h (room w lines l h e))
        ])

  write-IsWriting :
      (w : Writer L) (lines : List L) (e : E)
      → IsWriting w lines
      → IsWriting (write j w e) (lines ++ (j.to_json e ∷ []))
  unfolding write
  write-IsWriting w lines e h =
      rw (open_file_lem w h.opened) (put-IsWriting w lines (j.to_json e) h)

  write_all-IsWriting :
      (w : Writer L) (lines : List L) (es : List E)
      → IsWriting w lines
      → IsWriting (write_all j w es) (lines ++ write_jsonl j es)
  unfolding write_all
  write_all-IsWriting w lines [] h = rw (append-nil lines) h
  write_all-IsWriting w lines (e ∷ es) h =
      rw (← append_assoc lines (j.to_json e ∷ []) (write_jsonl j es)) (
        write_all-IsWriting (write j w e) (lines ++ (j.to_json e ∷ [])) es
          (write-IsWriting w lines e h))

  new_writer-IsWriting :
      (flush_every : ℕ) → IsWriting (open_file (new_writer events_limit bytes_limit flush_every)) []
  unfolding new_writer
  new_writer-IsWriting flush_every =
      start_next (new_writer events_limit bytes_limit flush_every) [] refl [] refl tt refl tt refl
        refl refl

  close_lem : (w : Writer L) → w.is_open ≡ true → close w ≡ record (flush w) { is_open = false }
  unfolding close
  close_lem w opened = rw opened

  -- Closing leaves the lines in the files that are named.
  close-contents :
      (w : Writer L) (lines : List L)
      → IsWriting w lines
      → contents (close w).paths (close w).files ≡ lines
  unfolding flush
  close-contents w lines h =
      let f = flush-IsWriting w lines h in
      rw (close_lem w h.opened, f.paths_are)
        (contents-append f.earlier (w.file_index ∷ []) (flush w).files ∙ f.holds)

  close-IsSmall :
      (w : Writer L) (lines : List L)
      → IsWriting w lines
      → All (λ k. IsSmall (content k (close w).files)) (close w).paths
  unfolding flush
  close-IsSmall w lines h =
      let f = flush-IsWriting w lines h in
      rw (close_lem w h.opened, f.paths_are)
        (All-append _ f.earlier _ f.small
          (rw (← append-nil (content w.file_index (flush w).files)) f.small_now, tt))

  written :
      (flush_every : ℕ) (es : List E)
      → IsWriting
          (write_all j (open_file (new_writer events_limit bytes_limit flush_every)) es)
          (write_jsonl j es)
  written flush_every es = write_all-IsWriting _ [] es (new_writer-IsWriting flush_every)

  -- Read one after the other, the files of a recording give back the events that were recorded, in order.
  pub record_all-read_files :
      (f : IsFaithful j) (flush_every : ℕ) (es : List E)
      → read_files j
          (record_all j (new_writer events_limit bytes_limit flush_every) es).paths
          (record_all j (new_writer events_limit bytes_limit flush_every) es).files
        ≡ some es
  unfolding record_all
  record_all-read_files f flush_every es =
      let w = record_all j (new_writer events_limit bytes_limit flush_every) es in
      read_files-contents j w.paths w.files
      ∙ ap (read_jsonl j) (close-contents _ _ (written flush_every es))
      ∙ read_jsonl-write_jsonl j f es

  -- Every file of a recording has at most one line, or no more lines and bytes than the settings allow.
  pub record_all-IsSmall :
      (flush_every : ℕ) (es : List E)
      → All
          (λ k.
            IsSmall
              (content k (record_all j (new_writer events_limit bytes_limit flush_every) es).files))
          (record_all j (new_writer events_limit bytes_limit flush_every) es).paths
  unfolding record_all
  record_all-IsSmall flush_every es = close-IsSmall _ _ (written flush_every es)
