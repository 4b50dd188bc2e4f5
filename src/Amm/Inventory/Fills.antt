-- ===== src/Amm/Inventory/Fills.antt =====
-- Balances after the fills of amm/inventory.py, and when the skew is known.
use ghost_amm.Base.{◌≡◌, false, Option, none, some, List, [], ◌∷◌, arith, inl, inr, Option-cases}
use ghost_amm.Num.{Num, IsOrdered, ◌≼◌, dec, leb, ◌*◌, ◌+◌, ◌-◌}
use ghost_amm.Num.Order.{le_of_not_lt}
use ghost_amm.Exchange.BitbankRules.{Side, buy, sell, other_side}
use ghost_amm.Amm.Inventory.{InventoryState, FillError, snapshot, skew, apply_fill}

-- A fill, as the arguments of `apply_fill`.
pub record Fill (F : Type 0) : Type 0 where
  pub side : Side
  pub price : F
  pub amount : F
  pub fee : F

module _ {F : Type 0} ⦃n : Num F⦄ where
  -- No balance is below zero by more than the tolerance of the code.
  pub record IsCovered (s : InventoryState F) : Type 0 where
    pub base : n.neg (dec 1 12) ≼ s.base_qty
    pub quote : n.neg (dec 1 6) ≼ s.quote_qty

  -- The fills in turn, up to the first exception.
  abbrev pub apply_fills : InventoryState F → List (Fill F) → InventoryState F × Option FillError
  apply_fills s [] = (s, none)
  apply_fills s (f ∷ fs) =
      let (s', error) = apply_fill s f.side f.price f.amount f.fee in
      elim error [ none ↦ apply_fills s' fs | some e ↦ (s', some e) ]

  -- The skew is known only for a positive fair price and a positive equity, so that the division
  -- by the equity is never by zero.
  pub skew_known :
      (s : InventoryState F) (fair k : F)
      → skew s (some fair) ≡ some k
      → (leb fair (dec 0 0) ≡ false) × (leb (s.base_qty * fair + s.quote_qty) (dec 0 0) ≡ false)
  unfolding skew snapshot
  skew_known s fair k h = ground arith

module _ {F : Type 0} ⦃n : Num F⦄ (laws : IsOrdered F) where
  at_side :
      (s : InventoryState F) (side : Side) (price amount fee : F)
      → s.negative_balances_allowed ≡ false
      → (apply_fill s side price amount fee).1 ≡ none
      → IsCovered (apply_fill s side price amount fee).0
        × ((apply_fill s side price amount fee).0.negative_balances_allowed ≡ false)
  unfolding apply_fill
  at_side s buy price amount fee off h = ground (
    arith,
    le_of_not_lt laws (s.base_qty + amount) (n.neg (dec 1 12)),
    le_of_not_lt laws (s.quote_qty - (price * amount + fee)) (n.neg (dec 1 6)),
  )
  at_side s sell price amount fee off h = ground (
    arith,
    le_of_not_lt laws (s.base_qty - amount) (n.neg (dec 1 12)),
    le_of_not_lt laws (s.quote_qty + (price * amount - fee)) (n.neg (dec 1 6)),
  )
  at_side s (other_side name) price amount fee off h = absurd (ground arith)

  apply_fill-IsCovered :
      (s : InventoryState F) (f : Fill F)
      → s.negative_balances_allowed ≡ false
      → (apply_fill s f.side f.price f.amount f.fee).1 ≡ none
      → IsCovered (apply_fill s f.side f.price f.amount f.fee).0
        × ((apply_fill s f.side f.price f.amount f.fee).0.negative_balances_allowed ≡ false)
  apply_fill-IsCovered s f off h = at_side s f.side f.price f.amount f.fee off h

  -- Where negative balances are off, any run of fills that raises nothing leaves both balances
  -- covered, if they were covered before.
  pub apply_fills-IsCovered :
      (s : InventoryState F) (fs : List (Fill F))
      → s.negative_balances_allowed ≡ false
      → IsCovered s
      → (apply_fills s fs).1 ≡ none
      → IsCovered (apply_fills s fs).0
  apply_fills-IsCovered s [] off c h = c
  apply_fills-IsCovered s (f ∷ fs) off c h =
      elim (Option-cases (apply_fill s f.side f.price f.amount f.fee).1) [
        | inl e ↦
            let (c', off') = apply_fill-IsCovered s f off e in
            rw (e, apply_fills)
              (apply_fills-IsCovered (apply_fill s f.side f.price f.amount f.fee).0 fs off' c'
                (rw (e, apply_fills) at h))
        | inr (error, e) ↦ absurd (ground arith)
      ]
