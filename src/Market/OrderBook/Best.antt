-- ===== src/Market/OrderBook/Best.antt =====
-- The best prices of market/orderbook.py are the extreme keys of their sides, and the middle lies
-- between them.
use ghost_amm.Base.{◌≡◌, refl, ◌⊎◌, inl, Option, none, some, List, [], ◌∷◌, keys, All, arith}
use ghost_amm.Num.{Num, IsOrdered, IsArithmetic, ◌≼◌, ◌≺◌, max, min}
use ghost_amm.Num.Order.{
  le-max_left, le-max_right, min-le_left, min-le_right, max-cases, min-cases, le_of_not_le,
  lt_of_not_le,
}
use ghost_amm.Market.OrderBook.{
  OrderBook, largest, smallest, best_bid, best_ask, mid, top, bottom, mid_of,
}

module _ {F : Type 0} ⦃n : Num F⦄ where
  -- `p` stands in the list.
  abbrev pub Has : F → List F → Type 0
  Has p [] = ⊥
  Has p (x ∷ xs) = (x ≡ p) ⊎ Has p xs

  -- The best of no price is none; else it is a price of the list that no other passes.
  abbrev pub IsHighest : List F → Option F → Type 0
  IsHighest xs none = xs ≡ []
  IsHighest xs (some p) = Has p xs × All (λ x. x ≼ p) xs

  abbrev pub IsLowest : List F → Option F → Type 0
  IsLowest xs none = xs ≡ []
  IsLowest xs (some p) = Has p xs × All (λ x. p ≼ x) xs

module _ {F : Type 0} ⦃n : Num F⦄ (laws : IsOrdered F) where
  largest-Has : (m : F) (xs : List F) → (m ≡ largest m xs) ⊎ Has (largest m xs) xs
  unfolding largest
  largest-Has m [] = inl refl
  largest-Has m (x ∷ xs) = grind (arith, largest-Has (max m x) xs, max-cases m x)

  le-largest : (m : F) (xs : List F) → (m ≼ largest m xs) × All (λ x. x ≼ largest m xs) xs
  unfolding largest
  le-largest m [] = (laws.le_refl m, tt)
  le-largest m (x ∷ xs) =
      let (h, rest) = le-largest (max m x) xs in
      (
        laws.le_trans _ _ _ (le-max_left laws m x) h,
        (laws.le_trans _ _ _ (le-max_right laws m x) h, rest),
      )

  smallest-Has : (m : F) (xs : List F) → (m ≡ smallest m xs) ⊎ Has (smallest m xs) xs
  unfolding smallest
  smallest-Has m [] = inl refl
  smallest-Has m (x ∷ xs) = grind (arith, smallest-Has (min m x) xs, min-cases m x)

  smallest-le : (m : F) (xs : List F) → (smallest m xs ≼ m) × All (λ x. smallest m xs ≼ x) xs
  unfolding smallest
  smallest-le m [] = (laws.le_refl m, tt)
  smallest-le m (x ∷ xs) =
      let (h, rest) = smallest-le (min m x) xs in
      (
        laws.le_trans _ _ _ h (min-le_left laws m x),
        (laws.le_trans _ _ _ h (min-le_right laws m x), rest),
      )

  top-IsHighest : (xs : List F) → IsHighest xs (top xs)
  top-IsHighest [] = refl
  top-IsHighest (x ∷ xs) = (largest-Has x xs, le-largest x xs)

  bottom-IsLowest : (xs : List F) → IsLowest xs (bottom xs)
  bottom-IsLowest [] = refl
  bottom-IsLowest (x ∷ xs) = (smallest-Has x xs, smallest-le x xs)

  -- On a total order of prices, `best_bid` is None exactly for a side without bids and is otherwise
  -- the highest bid, and `best_ask` likewise the lowest ask.
  pub best-IsExtreme :
      (b : OrderBook F) → IsHighest (keys b.bids) (best_bid b) × IsLowest (keys b.asks) (best_ask b)
  unfolding best_bid best_ask
  best-IsExtreme b = (top-IsHighest (keys b.bids), bottom-IsLowest (keys b.asks))

  module _ (numbers : IsArithmetic F) where
    mid_of_lem :
        (bid ask : Option F) {m : F}
        → mid_of bid ask ≡ some m
        → (p : F) × (q : F) × (bid ≡ some p) × (ask ≡ some q) × (p ≺ q) × (p ≼ m) × (m ≼ q)
    mid_of_lem (some p) (some q) h = (
      p,
      q,
      refl,
      refl,
      ground (arith, lt_of_not_le laws q p),
      ground (arith, le_of_not_le laws q p, numbers.le-middle p q),
      ground (arith, le_of_not_le laws q p, numbers.middle-le p q),
    )
    mid_of_lem (some p) none h = cc
    mid_of_lem none ask h = cc

    -- A book with a mid price has a bid strictly below its ask, and the mid lies between the two.
    pub mid_between :
        (b : OrderBook F) {m : F}
        → mid b ≡ some m
        → (p : F) × (q : F) × (best_bid b ≡ some p)
          × (best_ask b ≡ some q)
          × (p ≺ q)
          × (p ≼ m)
          × (m ≼ q)
    unfolding mid
    mid_between b h = mid_of_lem (best_bid b) (best_ask b) h
