-- ===== src/Num/Order.antt =====
-- What follows from the order laws, and bounds on Python's `max`, `min` and `abs`.
use ghost_amm.Base.{◌≡◌, ◌⊎◌, false, true, arith}
use ghost_amm.Num.{Num, IsOrdered, ltb, leb, ◌≼◌, ◌≺◌, max, min}

module _ {F : Type 0} ⦃n : Num F⦄ where
  -- `max` and `min` are one of their arguments.
  pub max-cases : (a b : F) → (max a b ≡ a) ⊎ (max a b ≡ b)
  max-cases a b = ground arith

  pub min-cases : (a b : F) → (min a b ≡ a) ⊎ (min a b ≡ b)
  min-cases a b = ground arith

module _ {F : Type 0} ⦃n : Num F⦄ (laws : IsOrdered F) where
  pub le_of_not_le : (a b : F) → leb a b ≡ false → b ≼ a
  le_of_not_le a b h = ground (arith, laws.le_total a b)

  pub le_of_lt : (a b : F) → ltb a b ≡ true → a ≼ b
  le_of_lt a b h = ground (arith, laws.le_total a b, laws.lt-eq-not-le a b)

  pub le_of_not_lt : (a b : F) → ltb a b ≡ false → b ≼ a
  le_of_not_lt a b h = ground (arith, laws.lt-eq-not-le a b)

  pub lt_of_not_le : (a b : F) → leb a b ≡ false → b ≺ a
  lt_of_not_le a b h = ground (arith, laws.lt-eq-not-le b a)

  pub not_le_of_lt : (a b : F) → a ≺ b → leb b a ≡ false
  not_le_of_lt a b h = ground (arith, laws.lt-eq-not-le a b)

  pub le-max_left : (a b : F) → a ≼ max a b
  le-max_left a b = ground (arith, le_of_lt a b, laws.le_refl a)

  pub le-max_right : (a b : F) → b ≼ max a b
  le-max_right a b = ground (arith, le_of_not_lt a b, laws.le_refl b)

  pub min-le_left : (a b : F) → min a b ≼ a
  min-le_left a b = ground (arith, le_of_lt b a, laws.le_refl a)

  pub min-le_right : (a b : F) → min a b ≼ b
  min-le_right a b = ground (arith, le_of_not_lt b a, laws.le_refl b)

  pub lt_of_lt_of_le : (a b c : F) → a ≺ b → b ≼ c → a ≺ c
  lt_of_lt_of_le a b c h k =
      ground (arith, laws.lt-eq-not-le a b, laws.lt-eq-not-le a c, laws.le_trans b c a k)

  pub lt_of_le_of_lt : (a b c : F) → a ≼ b → b ≺ c → a ≺ c
  lt_of_le_of_lt a b c h k =
      ground (
        arith,
        laws.lt-eq-not-le b c,
        laws.lt-eq-not-le a c,
        λ (p : c ≼ a). laws.le_trans c a b p h,
      )
