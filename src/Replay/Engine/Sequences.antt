-- ===== src/Replay/Engine/Sequences.antt =====
-- The check of the sequence numbers in replay/engine.py against what it is for.
use ghost_amm.Base.{
  ◌≡◌, refl, ◌↔◌, true, false, Option, none, some, List, [], ◌∷◌, All, All-map, Dict, lookup,
  insert, lookup-insert, arith, inl, inr, Bool-cases, Option-cases, ◌==◌,
}
use mathlib.Core.Bool.{false≢true}
use ghost_amm.Base.Int.{ℤ, ◌≤ℤ◌}
use ghost_amm.Num.{Num}
use ghost_amm.Events.{Event, to_int}
use ghost_amm.Replay.Engine.{Stream, stream_of, stream_eq, is_monotonic, goes_back}

-- Two sequence numbers in order, where both are known.
abbrev pub InOrder : Option ℤ → Option ℤ → Type 0
InOrder none b = Unit
InOrder (some a) none = Unit
InOrder (some a) (some b) = a ≤ℤ b

InOrder-none : (a : Option ℤ) → InOrder a none
InOrder-none none = tt
InOrder-none (some a) = tt

not_back : (a : Option ℤ) (b : ℤ) → goes_back b a ≡ false → InOrder a (some b)
not_back none b h = tt
not_back (some a) b h = ground arith

in_order : (a : Option ℤ) (b : ℤ) → InOrder a (some b) → goes_back b a ≡ false
in_order none b h = refl
in_order (some a) b h = ground arith

InOrder-trans :
    (a : Option ℤ) (b : ℤ) (c : Option ℤ) → InOrder a (some b) → InOrder (some b) c → InOrder a c
InOrder-trans none b c h k = tt
InOrder-trans (some a) b none h k = tt
InOrder-trans (some a) b (some c) h k = omega arith

module _ {F : Type 0} ⦃n : Num F⦄ where
  -- A later event of the same stream has no smaller sequence number.
  abbrev pub Follows : Event F → Event F → Type 0
  Follows e later =
      stream_of e ≡ stream_of later → InOrder (to_int F e.sequence) (to_int F later.sequence)

  -- Every event against all behind it.
  abbrev pub AreInSequence : List (Event F) → Type 0
  AreInSequence [] = Unit
  AreInSequence (e ∷ es) = All (Follows e) es × AreInSequence es

  abbrev After : Dict Stream ℤ → Event F → Type 0
  After last e = InOrder (lookup (stream_of e) last) (to_int F e.sequence)

  After-insert :
      (last : Dict Stream ℤ) (e later : Event F) (s : ℤ)
      → to_int F e.sequence ≡ some s
      → InOrder (lookup (stream_of e) last) (some s)
      → After (insert (stream_of e) s last) later
      → After last later × Follows e later
  After-insert last e later s t h a = elim (Bool-cases (stream_of e == stream_of later)) [
    | inl q ↦
        let p = (stream_eq.beq_iff (stream_of e) (stream_of later)).0 q in
        let b : InOrder (some s) (to_int F later.sequence) = rw (lookup-insert, q) at a in
        (rw (← p) (InOrder-trans _ s _ h b), λ _. rw t b)
    | inr q ↦ (
      rw (lookup-insert, q) at a,
      λ p. ground (arith, stream_eq.beq_iff (stream_of e) (stream_of later)),
    )
  ]

  insert-After :
      (last : Dict Stream ℤ) (e later : Event F) (s : ℤ)
      → to_int F e.sequence ≡ some s
      → After last later
      → Follows e later
      → After (insert (stream_of e) s last) later
  insert-After last e later s t a f = elim (Bool-cases (stream_of e == stream_of later)) [
    | inl q ↦
        let b = f ((stream_eq.beq_iff (stream_of e) (stream_of later)).0 q) in
        rw (lookup-insert, q) (rw t at b)
    | inr q ↦ rw (lookup-insert, q) a
  ]

  All-both :
      (P Q : Event F → Type 0) (es : List (Event F)) → All P es → All Q es → All (λ e. P e × Q e) es
  All-both P Q [] h k = tt
  All-both P Q (e ∷ es) (h, hs) (k, ks) = ((h, k), All-both P Q es hs ks)

  passes-AreInSequence :
      (last : Dict Stream ℤ) (es : List (Event F))
      → is_monotonic last es ≡ true
      → All (After last) es × AreInSequence es
  unfolding is_monotonic
  passes-AreInSequence last [] h = (tt, tt)
  passes-AreInSequence last (e ∷ es) h = elim (Option-cases (to_int F e.sequence)) [
    | inl t ↦
        let (after, rest) = passes-AreInSequence last es (rw (t, is_monotonic) at h) in
        ((rw t (InOrder-none _), after), (All-map _ _ (λ x _ _. rw t tt) es after, rest))
    | inr (s, t) ↦ elim (Bool-cases (goes_back s (lookup (stream_of e) last))) [
      | inl back ↦ absurd (false≢true (rw (t, is_monotonic, back) at h))
      | inr fine ↦
          let (after, rest) =
            passes-AreInSequence (insert (stream_of e) s last) es
              (rw (t, is_monotonic, fine) at h) in
          let a = not_back _ s fine in
          let both = All-map _ _ (λ x k. After-insert last e x s t a k) es after in
          ((rw t a, All-map _ _ (λ x k. k.0) es both), (All-map _ _ (λ x k. k.1) es both, rest))
    ]
  ]

  AreInSequence-passes :
      (last : Dict Stream ℤ) (es : List (Event F))
      → All (After last) es
      → AreInSequence es
      → is_monotonic last es ≡ true
  unfolding is_monotonic
  AreInSequence-passes last [] a h = refl
  AreInSequence-passes last (e ∷ es) (a, after) (follows, h) =
      elim (Option-cases (to_int F e.sequence)) [
        | inl t ↦ rw (t, is_monotonic) (AreInSequence-passes last es after h)
        | inr (s, t) ↦
            rw (t, is_monotonic, in_order _ s (rw t at a))
              (AreInSequence-passes (insert (stream_of e) s last) es
                (All-map _ _ (λ x k. insert-After last e x s t k.0 k.1) es
                  (All-both _ _ es after follows))
                h)
      ]

  nothing_before : (es : List (Event F)) → All (After []) es
  nothing_before [] = tt
  nothing_before (e ∷ es) = (tt, nothing_before es)

  -- The check passes if and only if, in every stream, no event has a smaller sequence number than an
  -- event before it.
  pub is_monotonic_iff : (es : List (Event F)) → (is_monotonic [] es ≡ true) ↔ AreInSequence es
  is_monotonic_iff es =
      (λ h. (passes-AreInSequence [] es h).1, λ h. AreInSequence-passes [] es (nothing_before es) h)
