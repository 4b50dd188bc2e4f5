-- ===== src/Recorder/Split/Partition.antt =====
-- The parts of recorder/split.py take every data event once.
use Prim.Native.Nat.{◌≤◌, ◌<◌}
use mathlib.Core.Path.{subst}
use ghost_amm.Base.{ℕ, zero, suc, ◌≡◌, refl, ◌⊎◌, inl, inr, true, nat_eq, Bool-cases, arith}
use ghost_amm.Num.{Num, IsOrdered, leb, ◌≼◌, ◌≺◌}
use ghost_amm.Num.Order.{lt_of_not_le, not_le_of_lt}
use ghost_amm.Recorder.Split.{event_in_split, boundary, takes}

j_is_zero : (j : ℕ) → j ≤ 0 → j ≡ 0
j_is_zero j h = omega (arith, h)

next_or_before : (j k : ℕ) → j ≤ suc k → (j ≤ k) ⊎ (j ≡ suc k)
next_or_before j k h = ground arith

before_same_after : (j k : ℕ) → (j < k) ⊎ ((j ≡ k) ⊎ (k < j))
before_same_after j k = ground arith

module _ {F : Type 0} ⦃n : Num F⦄ (laws : IsOrdered F) where
  -- The boundaries start and end where the recording does, and never go back. They do where the
  -- arithmetic of the times is exact, such as on whole milliseconds.
  pub record IsEven (first_ts last_ts : F) (parts : ℕ) : Type 0 where
    pub start : boundary first_ts last_ts parts 0 ≡ first_ts
    pub end : boundary first_ts last_ts parts parts ≡ last_ts
    pub ascending :
        (k : ℕ)
        → k < parts
        → boundary first_ts last_ts parts k ≼ boundary first_ts last_ts parts (suc k)

  -- Exactly one part takes the time.
  pub record IsTakenOnce (first_ts last_ts : F) (parts : ℕ) (ts : F) : Type 0 where
    pub index : ℕ
    pub in_range : index < parts
    pub taken : takes first_ts last_ts parts index ts ≡ true
    pub no_other : (j : ℕ) → j < parts → takes first_ts last_ts parts j ts ≡ true → j ≡ index

  -- Between two boundaries, or past the last.
  locate :
      (b : ℕ → F) (ts : F) (k : ℕ)
      → b 0 ≼ ts
      → (b k ≼ ts) ⊎ ((j : ℕ) × (j < k) × (b j ≼ ts) × (ts ≺ b (suc j)))
  locate b ts zero h = inl h
  locate b ts (suc k) h = elim (locate b ts k h) [
    | inl below ↦ elim (Bool-cases (leb (b (suc k)) ts)) [
      | inl past ↦ inl past
      | inr before ↦ inr (k, omega arith, below, lt_of_not_le laws (b (suc k)) ts before)
    ]
    | inr (j, lt, below, above) ↦ inr (j, omega (arith, lt), below, above)
  ]

  ascends :
      (b : ℕ → F) (parts : ℕ)
      → ((k : ℕ) → k < parts → b k ≼ b (suc k))
      → (j k : ℕ) → j ≤ k
      → k ≤ parts
      → b j ≼ b k
  ascends b parts up j zero h m = subst (λ i. b j ≼ b i) (j_is_zero j h) (laws.le_refl (b j))
  ascends b parts up j (suc k) h m = elim (next_or_before j k h) [
    | inl before ↦
        laws.le_trans _ _ _ (ascends b parts up j k before (omega (arith, m)))
          (up k (omega (arith, m)))
    | inr same ↦ subst (λ i. b j ≼ b i) same (laws.le_refl (b j))
  ]

  takes-start :
      (first_ts last_ts : F) (parts index : ℕ) (ts : F)
      → takes first_ts last_ts parts index ts ≡ true
      → boundary first_ts last_ts parts index ≼ ts
  unfolding takes event_in_split
  takes-start first_ts last_ts parts index ts h = ground arith

  -- A part that is not the last ends before its end.
  takes-end :
      (first_ts last_ts : F) (parts index : ℕ) (ts : F)
      → suc index < parts
      → takes first_ts last_ts parts index ts ≡ true
      → ts ≺ boundary first_ts last_ts parts (suc index)
  unfolding takes event_in_split
  takes-end first_ts last_ts parts index ts lt h = ground arith

  takes-inner :
      (first_ts last_ts : F) (parts index : ℕ) (ts : F)
      → suc index < parts
      → boundary first_ts last_ts parts index ≼ ts
      → ts ≺ boundary first_ts last_ts parts (suc index)
      → takes first_ts last_ts parts index ts ≡ true
  unfolding takes event_in_split
  takes-inner first_ts last_ts parts index ts lt below above = ground arith

  takes-last :
      (first_ts last_ts : F) (parts index : ℕ) (ts : F)
      → suc index ≡ parts
      → boundary first_ts last_ts parts index ≼ ts
      → ts ≼ boundary first_ts last_ts parts (suc index)
      → takes first_ts last_ts parts index ts ≡ true
  unfolding takes event_in_split
  takes-last first_ts last_ts parts index ts e below above = ground arith

  -- No two parts take the same time.
  not_earlier :
      (first_ts last_ts : F) (parts j k : ℕ) (ts : F)
      → IsEven first_ts last_ts parts
      → j < k
      → k < parts
      → takes first_ts last_ts parts j ts ≡ true
      → ¬ (takes first_ts last_ts parts k ts ≡ true)
  not_earlier first_ts last_ts parts j k ts even lt in_range first second =
      let above = takes-end first_ts last_ts parts j ts (omega (arith, lt, in_range)) first in
      let below = takes-start first_ts last_ts parts k ts second in
      let up =
        ascends (boundary first_ts last_ts parts) parts even.ascending (suc j) k (omega (arith, lt))
          (omega (arith, in_range)) in
      let not_below = not_le_of_lt laws ts _ above in
      let through = laws.le_trans _ _ _ up below in ground (arith, not_below, through)

  same_part :
      (first_ts last_ts : F) (parts j k : ℕ) (ts : F)
      → IsEven first_ts last_ts parts
      → j < parts
      → k < parts
      → takes first_ts last_ts parts j ts ≡ true
      → takes first_ts last_ts parts k ts ≡ true
      → j ≡ k
  same_part first_ts last_ts parts j k ts even j_in k_in first second =
      elim (before_same_after j k) [
        | inl lt ↦ absurd (not_earlier first_ts last_ts parts j k ts even lt k_in first second)
        | inr (inl same) ↦ same
        | inr (inr gt) ↦
            absurd (not_earlier first_ts last_ts parts k j ts even gt j_in second first)
      ]

  -- A time of the recording is taken by exactly one of its parts.
  pub taken_once :
      (first_ts last_ts : F) (last : ℕ) (ts : F)
      → IsEven first_ts last_ts (suc last)
      → first_ts ≼ ts
      → ts ≼ last_ts
      → IsTakenOnce first_ts last_ts (suc last) ts
  taken_once first_ts last_ts last ts even below above =
      let b = boundary first_ts last_ts (suc last) in
      let once : (k : ℕ)
          → k < suc last
          → takes first_ts last_ts (suc last) k ts ≡ true
          → IsTakenOnce first_ts last_ts (suc last) ts =
        λ k in_range taken. record {
          index = k;
          in_range = in_range;
          taken = taken;
          no_other = λ j j_in other.
              same_part first_ts last_ts (suc last) j k ts even j_in in_range other taken;
        } in
      elim (locate b ts last (rw even.start below)) [
        | inl past ↦
            once last (omega arith)
              (takes-last first_ts last_ts (suc last) last ts refl past (rw even.end above))
        | inr (j, lt, from, to) ↦
            once j (omega (arith, lt))
              (takes-inner first_ts last_ts (suc last) j ts (omega (arith, lt)) from to)
      ]
