-- ===== src/Market/FairPrice/Median.antt =====
-- The median of market/fair_price.py (`statistics.median`) over a total order.
use ghost_amm.Base.{◌≡◌, some, List, [], ◌∷◌, All, All-map, Bool-cases, inl, inr}
use mathlib.Core.Option.{some-injective}
use ghost_amm.Num.{Num, IsOrdered, IsArithmetic, ◌≼◌, ltb}
use ghost_amm.Num.Order.{le_of_lt, le_of_not_lt}
use ghost_amm.Market.FairPrice.{insert_sorted, sorted, middle_of, median_sorted, median}

module _ {F : Type 0} ⦃n : Num F⦄ where
  abbrev pub IsSorted : List F → Type 0
  IsSorted [] = Unit
  IsSorted (x ∷ xs) = All (λ y. x ≼ y) xs × IsSorted xs

  abbrev pub Within : F → F → F → Type 0
  Within lo hi x = (lo ≼ x) × (x ≼ hi)

  insert_sorted-All {κ} :
      (P : F → Type κ) (x : F) (xs : List F) → P x → All P xs → All P (insert_sorted x xs)
  unfolding insert_sorted
  insert_sorted-All P x [] p h = (p, tt)
  insert_sorted-All P x (y ∷ ys) p (h, hs) = elim (Bool-cases (ltb y x)) [
    | inl e ↦ rw e (h, insert_sorted-All P x ys p hs)
    | inr e ↦ rw e (p, (h, hs))
  ]

  sorted-All {κ} : (P : F → Type κ) (xs : List F) → All P xs → All P (sorted xs)
  unfolding sorted
  sorted-All P [] h = tt
  sorted-All P (x ∷ xs) (h, hs) = insert_sorted-All P x (sorted xs) h (sorted-All P xs hs)

module _ {F : Type 0} ⦃n : Num F⦄ (laws : IsOrdered F) where
  insert_sorted-IsSorted : (x : F) (xs : List F) → IsSorted xs → IsSorted (insert_sorted x xs)
  unfolding insert_sorted
  insert_sorted-IsSorted x [] h = (tt, tt)
  insert_sorted-IsSorted x (y ∷ ys) (h, hs) = elim (Bool-cases (ltb y x)) [
    | inl e ↦ rw e (
      insert_sorted-All (λ z. y ≼ z) x ys (le_of_lt laws y x e) h,
      insert_sorted-IsSorted x ys hs,
    )
    | inr e ↦
        let xy = le_of_not_lt laws y x e in
        rw e ((xy, All-map _ _ (λ z yz. laws.le_trans x y z xy yz) ys h), (h, hs))
  ]

  sorted-IsSorted : (xs : List F) → IsSorted (sorted xs)
  unfolding sorted
  sorted-IsSorted [] = tt
  sorted-IsSorted (x ∷ xs) = insert_sorted-IsSorted x (sorted xs) (sorted-IsSorted xs)

  module _ (numbers : IsArithmetic F) (lo hi : F) where
    middle_of-Within :
        (x : F) (rest fast : List F)
        → Within lo hi x
        → All (Within lo hi) rest
        → IsSorted (x ∷ rest)
        → Within lo hi (middle_of x rest fast)
    unfolding middle_of
    middle_of-Within x rest [] h hs s = h
    middle_of-Within x [] (a ∷ fast) h hs s = h
    middle_of-Within x (y ∷ rest) (a ∷ []) h hs s = (
      laws.le_trans _ _ _ h.0 (numbers.le-middle x y s.0.0),
      laws.le_trans _ _ _ (numbers.middle-le x y s.0.0) hs.0.1,
    )
    middle_of-Within x (y ∷ rest) (a ∷ b ∷ fast) h hs s = middle_of-Within y rest fast hs.0 hs.1 s.1

    median_sorted-Within :
        (xs : List F) {m : F}
        → All (Within lo hi) xs
        → IsSorted xs
        → median_sorted xs ≡ some m
        → Within lo hi m
    unfolding median_sorted
    median_sorted-Within [] h s e = cc
    median_sorted-Within (x ∷ xs) h s e =
        rw (← some-injective _ _ e) (middle_of-Within x xs xs h.0 h.1 s)

    -- The median of values that all lie between two bounds lies between them.
    pub median-Within :
        (xs : List F) {m : F} → All (Within lo hi) xs → median xs ≡ some m → Within lo hi m
    unfolding median
    median-Within xs h e =
        median_sorted-Within (sorted xs) (sorted-All _ xs h) (sorted-IsSorted xs) e
