-- ===== src/Market/FairPrice/Agreement.antt =====
-- When `from_sources` of market/fair_price.py gives a fair price, and what bounds it.
use Prim.Native.Nat.{◌≤◌}
use mathlib.Core.Option.{some-ne-none}
use ghost_amm.Base.{
  ◌≡◌, refl, ◌≢◌, ◌↔◌, true, none, some, List, [], ◌∷◌, All, All-filter, filter, arith, Bool-cases,
  Option-cases, inl, inr,
}
use ghost_amm.Num.{Num, IsOrdered, IsArithmetic}
use ghost_amm.Market.FairPrice.{
  FairPriceSource, FairPriceState, FairPriceEngine, median, median_sorted, sorted, insert_sorted,
  from_kept, from_sources, is_fresh, agrees, fairs, fair_of,
}
use ghost_amm.Market.FairPrice.Median.{Within, median-Within}

module _ {F : Type 0} ⦃n : Num F⦄ where
  -- A fresh source lies between the bounds; an old one may lie anywhere.
  abbrev pub WithinIfFresh : FairPriceEngine F → F → F → F → FairPriceSource F → Type 0
  WithinIfFresh e now lo hi s = is_fresh e now s ≡ true → Within lo hi s.fair

  fairs-All {κ} :
      (P : F → Type κ) (ss : List (FairPriceSource F)) → All (λ s. P s.fair) ss → All P (fairs ss)
  fairs-All P [] h = tt
  fairs-All P (s ∷ ss) (h, hs) = (h, fairs-All P ss hs)

  insert_sorted-ne-nil : (x : F) (xs : List F) → insert_sorted x xs ≢ []
  unfolding insert_sorted
  insert_sorted-ne-nil x [] = cc
  insert_sorted-ne-nil x (y ∷ ys) = ground arith

  median-cons-ne-none : (x : F) (xs : List F) → median (x ∷ xs) ≢ none
  unfolding median median_sorted sorted
  median-cons-ne-none x xs = ground (arith, insert_sorted-ne-nil x (sorted xs))

  fair_of-ne-none :
      (e : FairPriceEngine F) (kept : List (FairPriceSource F)) → kept ≢ [] → fair_of e kept ≢ none
  fair_of-ne-none e [] h = absurd (h refl)
  fair_of-ne-none e (s ∷ kept) h = ground (arith, median-cons-ne-none s.fair (fairs kept))

  from_kept-ne-none :
      (e : FairPriceEngine F) (r : F) (kept : List (FairPriceSource F))
      → 1 ≤ e.min_source_count
      → from_kept e r kept ≢ none
  unfolding from_kept
  from_kept-ne-none e r [] h = ground arith
  from_kept-ne-none e r (s ∷ kept) h = ground (arith, fair_of-ne-none e (s ∷ kept))

  -- As long as at least one source is required, `from_sources` returns a state: neither `median` nor
  -- the mean meets an empty list.
  pub from_sources-ne-none :
      (e : FairPriceEngine F) (ss : List (FairPriceSource F)) (now : F)
      → 1 ≤ e.min_source_count
      → from_sources e ss now ≢ none
  unfolding from_sources
  from_sources-ne-none e ss now h =
      elim (Option-cases (median (fairs (filter (is_fresh e now) ss)))) [
        | inl none_fresh ↦ rw none_fresh (λ p. cc)
        | inr (r, q) ↦
            rw q (from_kept-ne-none e r (filter (agrees e r) (filter (is_fresh e now) ss)) h)
      ]

  -- No source is required, and the fresh ones have a median with which none of them agrees.
  abbrev pub IsDisagreement : FairPriceEngine F → List (FairPriceSource F) → F → Type 0
  IsDisagreement e ss now =
      (e.min_source_count ≡ 0)
      × ((reference : F) × (median (fairs (filter (is_fresh e now) ss)) ≡ some reference)
          × (filter (agrees e reference) (filter (is_fresh e now) ss) ≡ []))

  from_kept_raises :
      (e : FairPriceEngine F) (r : F) (kept : List (FairPriceSource F))
      → from_kept e r kept ≡ none
      → (e.min_source_count ≡ 0) × (kept ≡ [])
  unfolding from_kept
  from_kept_raises e r [] h = (ground arith, refl)
  from_kept_raises e r (s ∷ kept) h = absurd (ground (arith, fair_of-ne-none e (s ∷ kept)))

  -- `from_sources` raises exactly where no source is required and there are fresh sources all of which
  -- are too far from their median; everywhere else it returns a state.
  pub from_sources_raises_iff :
      (e : FairPriceEngine F) (ss : List (FairPriceSource F)) (now : F)
      → (from_sources e ss now ≡ none) ↔ IsDisagreement e ss now
  unfolding from_sources from_kept
  from_sources_raises_iff e ss now = (
    λ h. elim (Option-cases (median (fairs (filter (is_fresh e now) ss)))) [
      | inl none_fresh ↦ absurd (some-ne-none _ (rw none_fresh at h))
      | inr (r, q) ↦
          let (none_needed, none_left) =
            from_kept_raises e r (filter (agrees e r) (filter (is_fresh e now) ss)) (rw q at h) in
          (none_needed, (r, q, none_left))
    ],
    λ (none_needed, (r, q, none_left)). rw (q, none_left, none_needed),
  )

module _ {F : Type 0} ⦃n : Num F⦄ (laws : IsOrdered F) (numbers : IsArithmetic F) where
  fair_of-Within :
      (e : FairPriceEngine F) (kept : List (FairPriceSource F)) (lo hi : F) {fair : F}
      → e.use_median ≡ true
      → All (λ s. Within lo hi s.fair) kept
      → fair_of e kept ≡ some fair
      → Within lo hi fair
  fair_of-Within e [] lo hi m h q = cc
  fair_of-Within e (s ∷ kept) lo hi m h q =
      median-Within laws numbers lo hi (fairs (s ∷ kept)) (fairs-All (Within lo hi) (s ∷ kept) h)
        (rw m at q)

  from_kept-Within :
      (e : FairPriceEngine F) (r lo hi : F) (kept : List (FairPriceSource F))
      {st : FairPriceState F}
      → e.use_median ≡ true
      → All (λ s. Within lo hi s.fair) kept
      → from_kept e r kept ≡ some st
      → st.is_valid ≡ true
      → (fair : F) × (st.fair ≡ some fair)
        × Within lo hi fair
        × (e.min_source_count ≤ st.source_count)
  unfolding from_kept
  from_kept-Within e r lo hi kept m h q v = elim (Option-cases (fair_of e kept)) [
    | inl no_fair ↦ absurd (ground arith)
    | inr (fair, p) ↦ (fair, ground arith, fair_of-Within e kept lo hi m h p, ground arith)
  ]

  keep_fresh :
      (e : FairPriceEngine F) (now lo hi : F) (ss : List (FairPriceSource F))
      → All (WithinIfFresh e now lo hi) ss
      → All (λ s. Within lo hi s.fair) (filter (is_fresh e now) ss)
  keep_fresh e now lo hi [] h = tt
  keep_fresh e now lo hi (s ∷ ss) (h, hs) = elim (Bool-cases (is_fresh e now s)) [
    | inl p ↦ rw p (h p, keep_fresh e now lo hi ss hs)
    | inr p ↦ rw p (keep_fresh e now lo hi ss hs)
  ]

  -- With the median in use, the fair price of a valid state rests on at least the required number of
  -- sources, and lies between any two bounds that hold every fresh source, wherever old ones are.
  pub from_sources-Within :
      (e : FairPriceEngine F) (ss : List (FairPriceSource F)) (now lo hi : F)
      {st : FairPriceState F}
      → e.use_median ≡ true
      → All (WithinIfFresh e now lo hi) ss
      → from_sources e ss now ≡ some st
      → st.is_valid ≡ true
      → (fair : F) × (st.fair ≡ some fair)
        × Within lo hi fair
        × (e.min_source_count ≤ st.source_count)
  unfolding from_sources
  from_sources-Within e ss now lo hi m h q v =
      elim (Option-cases (median (fairs (filter (is_fresh e now) ss)))) [
        | inl none_fresh ↦ absurd (ground arith)
        | inr (r, p) ↦
            from_kept-Within e r lo hi (filter (agrees e r) (filter (is_fresh e now) ss)) m
              (All-filter _ (agrees e r) (filter (is_fresh e now) ss) (keep_fresh e now lo hi ss h))
              (rw p at q) v
      ]
