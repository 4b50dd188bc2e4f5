-- ===== src/Replay/FillModel/Priority.antt =====
-- The order in which replay/fill_model.py fills: best price first, then the oldest.
use ghost_amm.Base.{
  ◌≡◌, ◌⊎◌, Bool, true, false, List, [], ◌∷◌, All, All-map, arith, inl, inr, Bool-cases,
}
use ghost_amm.Num.{Num, IsOrdered, IsArithmetic, ◌≼◌, ◌≺◌, ltb, num_eq}
use ghost_amm.Num.Order.{le_of_lt, le_of_not_lt, lt_of_lt_of_le}
use ghost_amm.Exchange.BitbankRules.{Side, is_sell}
use ghost_amm.Replay.FillModel.{
  FillModel, TrackedOrder, eligible_orders, insert_order, sort_orders, precedes,
}

module _ {F : Type 0} ⦃n : Num F⦄ where
  -- The better price for the taker: high for one that sells, low for one that buys.
  abbrev pub Better : Bool → F → F → Type 0
  Better true p q = q ≺ p
  Better false p q = p ≺ q

  -- A better price, or the same price and no later creation.
  abbrev pub Ranks : Bool → TrackedOrder F → TrackedOrder F → Type 0
  Ranks sells a b =
      Better sells a.price b.price ⊎ (a.price ≡ b.price) × (a.created_at ≼ b.created_at)

  -- Every order ranks before those behind it.
  abbrev pub AreRanked : Bool → List (TrackedOrder F) → Type 0
  AreRanked sells [] = Unit
  AreRanked sells (o ∷ os) = All (Ranks sells o) os × AreRanked sells os

  insert_order-All {κ} :
      (P : TrackedOrder F → Type κ) (sells : Bool) (o : TrackedOrder F) (os : List (TrackedOrder F))
      → P o
      → All P os
      → All P (insert_order sells o os)
  unfolding insert_order
  insert_order-All P sells o [] p h = (p, tt)
  insert_order-All P sells o (x ∷ xs) p (h, hs) = elim (Bool-cases (precedes sells x o)) [
    | inl e ↦ rw e (h, insert_order-All P sells o xs p hs)
    | inr e ↦ rw e (p, (h, hs))
  ]

module _ {F : Type 0} ⦃n : Num F⦄ (laws : IsOrdered F) (numbers : IsArithmetic F) where
  precedes-Ranks :
      (sells : Bool) (a b : TrackedOrder F) → precedes sells a b ≡ true → Ranks sells a b
  unfolding precedes
  precedes-Ranks true a b h = ground (
    arith,
    n.equality.beq_iff a.price b.price,
    n.equality.beq_iff a.created_at b.created_at,
    numbers.neg_lt a.price b.price,
    laws.le_refl a.created_at,
    le_of_lt laws a.created_at b.created_at,
  )
  precedes-Ranks false a b h = ground (
    arith,
    n.equality.beq_iff a.price b.price,
    n.equality.beq_iff a.created_at b.created_at,
    laws.le_refl a.created_at,
    le_of_lt laws a.created_at b.created_at,
  )

  strict : (p q : F) → n.equality.beq p q ≡ false → ltb p q ≡ false → q ≺ p
  strict p q h k = ground (
    arith,
    n.equality.beq_iff p q,
    laws.lt-eq-not-le p q,
    laws.lt-eq-not-le q p,
    laws.le_antisymm p q,
  )

  not_precedes-Ranks :
      (sells : Bool) (a b : TrackedOrder F) → precedes sells a b ≡ false → Ranks sells b a
  unfolding precedes
  not_precedes-Ranks true a b h = ground (
    arith,
    n.equality.beq_iff a.price b.price,
    n.equality.beq_iff a.created_at b.created_at,
    numbers.neg_lt a.price b.price,
    laws.le_refl a.created_at,
    strict b.price a.price,
    n.equality.beq_iff b.price a.price,
    le_of_not_lt laws a.created_at b.created_at,
  )
  not_precedes-Ranks false a b h = ground (
    arith,
    n.equality.beq_iff a.price b.price,
    n.equality.beq_iff a.created_at b.created_at,
    laws.le_refl a.created_at,
    strict a.price b.price,
    le_of_not_lt laws a.created_at b.created_at,
  )

  Ranks-trans :
      (sells : Bool) (a b c : TrackedOrder F) → Ranks sells a b → Ranks sells b c → Ranks sells a c
  Ranks-trans true a b c h k = ground (
    arith,
    lt_of_lt_of_le laws c.price b.price a.price,
    le_of_lt laws b.price a.price,
    laws.le_trans a.created_at b.created_at c.created_at,
  )
  Ranks-trans false a b c h k = ground (
    arith,
    lt_of_lt_of_le laws a.price b.price c.price,
    le_of_lt laws b.price c.price,
    laws.le_trans a.created_at b.created_at c.created_at,
  )

  insert_order-AreRanked :
      (sells : Bool) (o : TrackedOrder F) (os : List (TrackedOrder F))
      → AreRanked sells os
      → AreRanked sells (insert_order sells o os)
  unfolding insert_order
  insert_order-AreRanked sells o [] h = (tt, tt)
  insert_order-AreRanked sells o (x ∷ xs) (h, hs) = elim (Bool-cases (precedes sells x o)) [
    | inl e ↦ rw e (
      insert_order-All (Ranks sells x) sells o xs (precedes-Ranks sells x o e) h,
      insert_order-AreRanked sells o xs hs,
    )
    | inr e ↦
        let first = not_precedes-Ranks sells x o e in
        rw e ((first, All-map _ _ (λ y r. Ranks-trans sells o x y first r) xs h), (h, hs))
  ]

  sort_orders-AreRanked :
      (sells : Bool) (os : List (TrackedOrder F)) → AreRanked sells (sort_orders sells os)
  unfolding sort_orders
  sort_orders-AreRanked sells [] = tt
  sort_orders-AreRanked sells (x ∷ xs) =
      insert_order-AreRanked sells x (sort_orders sells xs) (sort_orders-AreRanked sells xs)

  -- A trade goes through the orders by price and time: each order has a better price for the taker
  -- than every order behind it, or the same price and no later creation.
  pub eligible_orders-AreRanked :
      (m : FillModel F) (side : Side) (price now : F)
      → AreRanked (is_sell side) (eligible_orders m side price now)
  unfolding eligible_orders
  eligible_orders-AreRanked m side price now = sort_orders-AreRanked (is_sell side) _
