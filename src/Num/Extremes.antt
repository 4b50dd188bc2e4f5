-- ===== src/Num/Extremes.antt =====
-- Python's `min` and `max` of a list, which is `none` for an empty one.
use mathlib.Core.Path.{subst}
use mathlib.Core.Option.{some-injective}
use ghost_amm.Base.{◌≡◌, Option, none, some, List, [], ◌∷◌, All}
use ghost_amm.Num.{Num, IsOrdered, max, min, ◌≼◌}
use ghost_amm.Num.Order.{min-le_left, min-le_right, le-max_left, le-max_right}

module _ {F : Type 0} ⦃n : Num F⦄ where
  abbrev least_from : F → List F → F
  least_from m [] = m
  least_from m (x ∷ xs) = least_from (min m x) xs

  abbrev greatest_from : F → List F → F
  greatest_from m [] = m
  greatest_from m (x ∷ xs) = greatest_from (max m x) xs

  abbrev pub least : List F → Option F
  least [] = none
  least (x ∷ xs) = some (least_from x xs)

  abbrev pub greatest : List F → Option F
  greatest [] = none
  greatest (x ∷ xs) = some (greatest_from x xs)

module _ {F : Type 0} ⦃n : Num F⦄ (laws : IsOrdered F) where
  least_from-le : (m : F) (xs : List F) → (least_from m xs ≼ m) × All (λ x. least_from m xs ≼ x) xs
  least_from-le m [] = (laws.le_refl m, tt)
  least_from-le m (x ∷ xs) =
      let (below, rest) = least_from-le (min m x) xs in
      (
        laws.le_trans _ _ _ below (min-le_left laws m x),
        (laws.le_trans _ _ _ below (min-le_right laws m x), rest),
      )

  greatest_from-ge :
      (m : F) (xs : List F) → (m ≼ greatest_from m xs) × All (λ x. x ≼ greatest_from m xs) xs
  greatest_from-ge m [] = (laws.le_refl m, tt)
  greatest_from-ge m (x ∷ xs) =
      let (above, rest) = greatest_from-ge (max m x) xs in
      (
        laws.le_trans _ _ _ (le-max_left laws m x) above,
        (laws.le_trans _ _ _ (le-max_right laws m x) above, rest),
      )

  pub least-le : (xs : List F) (m : F) → least xs ≡ some m → All (λ x. m ≼ x) xs
  least-le [] m e = tt
  least-le (x ∷ xs) m e =
      subst (λ y. All (λ z. y ≼ z) (x ∷ xs)) (some-injective _ m e) (least_from-le x xs)

  pub greatest-ge : (xs : List F) (m : F) → greatest xs ≡ some m → All (λ x. x ≼ m) xs
  greatest-ge [] m e = tt
  greatest-ge (x ∷ xs) m e =
      subst (λ y. All (λ z. z ≼ y) (x ∷ xs)) (some-injective _ m e) (greatest_from-ge x xs)
