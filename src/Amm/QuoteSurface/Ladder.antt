-- ===== src/Amm/QuoteSurface/Ladder.antt =====
-- The ladder of amm/quote_surface.py: one quote a side and level, none below the smallest size.
use Prim.Native.Nat.{◌+◌ as nat_add, ◌*◌ as nat_mul, ◌≤◌, ◌<◌}
use mathlib.Core.Path.{subst}
use ghost_amm.Base.{
  ℕ, zero, suc, ◌≡◌, ◌≢◌, refl, ◌⊎◌, Bool, true, false, Option, none, some, List, [], ◌∷◌, ◌++◌,
  All, All-append, All-map, length, length-append, if◌then◌else◌, arith, inl, inr,
}
use ghost_amm.Base.Int.{pos}
use ghost_amm.Num.{Num, ◌≼◌, dec, ◌+◌, ◌-◌, ◌*◌, ◌/◌}
use ghost_amm.Exchange.BitbankRules.{Side, buy, sell, floor_to_step}
use ghost_amm.Amm.QuoteSurface.{
  QuoteSurface, QuoteInput, Quote, generate, quotes_from, level_quotes, quote_of, floor_quote_size,
  ceil_to_step, bid_size, ask_size, bid_price, ask_price, distance_at,
}

module _ {F : Type 0} ⦃n : Num F⦄ where
  -- How far from the fair price a level is, and how far the inventory moves both sides down.
  abbrev pub away : QuoteSurface F → ℕ → F
  away s level =
      s.half_spread_bps / dec 10_000 0 + n.of_int (pos level) * (s.step_bps / dec 10_000 0)

  abbrev pub tilt : QuoteSurface F → QuoteInput F → F
  tilt s i = s.skew_strength_bps * i.inventory_skew / dec 10_000 0

  -- A bid is the fair price lowered by the distance and the tilt, rounded down to a tick; an ask is
  -- the fair price raised by the distance less the tilt, rounded up.
  abbrev pub IsBid : QuoteSurface F → QuoteInput F → Side → (activation price : F) → ℕ → Type 0
  IsBid s i side activation price level =
      (side ≡ buy)
      × (activation ≡ i.bid_activation)
      × (price ≡ floor_to_step (i.fair * n.exp (n.neg (away s level + tilt s i))) s.tick_size)

  abbrev pub IsAsk : QuoteSurface F → QuoteInput F → Side → (activation price : F) → ℕ → Type 0
  IsAsk s i side activation price level =
      (side ≡ sell)
      × (activation ≡ i.ask_activation)
      × (price ≡ ceil_to_step (i.fair * n.exp (away s level - tilt s i)) s.tick_size)

  -- What holds of each quote: its level is one of the surface's, its size is not below the smallest,
  -- and its price and activation are those of a bid or of an ask on its level.
  pub record IsRung (s : QuoteSurface F) (i : QuoteInput F) (low high : ℕ) (q : Quote F)
      : Type 0 where
    pub from : low ≤ q.level
    pub below : q.level < high
    pub large : s.min_order_size ≼ q.size
    pub at_fair : q.fair ≡ i.fair
    pub side :
        IsBid s i q.side q.activation q.price q.level
        ⊎ IsAsk s i q.side q.activation q.price q.level

  -- No two quotes share a side and a level.
  abbrev pub AreApart : List (Quote F) → Type 0
  AreApart [] = Unit
  AreApart (q ∷ qs) = All (λ r. (q.level ≢ r.level) ⊎ (q.side ≢ r.side)) qs × AreApart qs

  floor_quote_size-le :
      (s : QuoteSurface F) (value : F) {size : F}
      → floor_quote_size s value ≡ some size
      → s.min_order_size ≼ size
  unfolding floor_quote_size
  floor_quote_size-le s value h = ground arith

  quote_of-IsRung :
      (s : QuoteSurface F) (i : QuoteInput F) (side : Side) (activation price : F) (level : ℕ)
      (size : Option F)
      → IsBid s i side activation price level ⊎ IsAsk s i side activation price level
      → ((v : F) → size ≡ some v → s.min_order_size ≼ v)
      → All (IsRung s i level (suc level)) (quote_of i side activation price level size)
  quote_of-IsRung s i side activation price level none known large = tt
  quote_of-IsRung s i side activation price level (some v) known large = (
    record {
      from = omega arith;
      below = omega arith;
      large = large v refl;
      at_fair = refl;
      side = known;
    },
    tt,
  )

  level_quotes-IsRung :
      (s : QuoteSurface F) (i : QuoteInput F) (level : ℕ)
      → All (IsRung s i level (suc level)) (level_quotes s i level)
  unfolding level_quotes
  level_quotes-IsRung s i level =
      All-append _ _ _
        (quote_of-IsRung s i buy _ _ level (bid_size s i) (inl (refl, refl, refl))
          (λ v e. floor_quote_size-le s _ e))
        (quote_of-IsRung s i sell _ _ level (ask_size s i) (inr (refl, refl, refl))
          (λ v e. floor_quote_size-le s _ e))

  wider :
      (s : QuoteSurface F) (i : QuoteInput F) (low high low' high' : ℕ)
      → low' ≤ low
      → high ≤ high'
      → (q : Quote F) → IsRung s i low high q
      → IsRung s i low' high' q
  wider s i low high low' high' h k q r = record {
    from = omega arith;
    below = omega arith;
    large = r.large;
    at_fair = r.at_fair;
    side = r.side;
  }

  quotes_from-IsRung :
      (s : QuoteSurface F) (i : QuoteInput F) (left level : ℕ)
      → All (IsRung s i level (nat_add level left)) (quotes_from s i left level)
  unfolding quotes_from
  quotes_from-IsRung s i zero level = tt
  quotes_from-IsRung s i (suc left) level =
      All-append _ _ _
        (All-map _ _
          (wider s i level (suc level) level (nat_add level (suc left)) (omega arith) (omega arith))
          _ (level_quotes-IsRung s i level))
        (All-map _ _
          (wider s i (suc level) (nat_add (suc level) left) level (nat_add level (suc left))
            (omega arith) (omega arith))
          _ (quotes_from-IsRung s i left (suc level)))

  if-All {κ} :
      (P : Quote F → Type κ) (c : Bool) (qs : List (Quote F))
      → All P qs
      → All P (if c then [] else qs)
  if-All P true qs h = tt
  if-All P false qs h = h

  -- Every quote of `generate` is on a level of the surface, is not smaller than the smallest order,
  -- names the fair price, and is a bid or an ask with the activation of its side: the bid at the fair
  -- price times exp(-(d + t)), rounded down to a tick, the ask at the fair price times exp(d - t),
  -- rounded up, for the distance d of the level and the tilt t of the inventory.
  pub generate-IsRung :
      (s : QuoteSurface F) (i : QuoteInput F) → All (IsRung s i 0 s.levels) (generate s i)
  unfolding generate
  generate-IsRung s i = if-All _ _ (quotes_from s i s.levels zero) (
      subst (λ h. All (IsRung s i 0 h) (quotes_from s i s.levels zero)) (omega arith)
        (quotes_from-IsRung s i s.levels zero))

  AreApart-append :
      (qs rs : List (Quote F))
      → AreApart qs
      → AreApart rs
      → All (λ q. All (λ r. (q.level ≢ r.level) ⊎ (q.side ≢ r.side)) rs) qs
      → AreApart (qs ++ rs)
  AreApart-append [] rs h k apart = k
  AreApart-append (q ∷ qs) rs (h, hs) k (a, apart) =
      (All-append _ qs rs h a, AreApart-append qs rs hs k apart)

  pair-AreApart :
      (i : QuoteInput F) (level : ℕ) (a b p q : F) (bid ask : Option F)
      → AreApart (quote_of i buy a p level bid ++ quote_of i sell b q level ask)
  pair-AreApart i level a b p q none none = tt
  pair-AreApart i level a b p q none (some y) = (tt, tt)
  pair-AreApart i level a b p q (some x) none = (tt, tt)
  pair-AreApart i level a b p q (some x) (some y) = ((inr (λ e. cc), tt), (tt, tt))

  level_quotes-AreApart :
      (s : QuoteSurface F) (i : QuoteInput F) (level : ℕ) → AreApart (level_quotes s i level)
  unfolding level_quotes
  level_quotes-AreApart s i level = pair-AreApart i level _ _ _ _ (bid_size s i) (ask_size s i)

  levels_apart :
      (s : QuoteSurface F) (i : QuoteInput F) (level high : ℕ) (q r : Quote F)
      → IsRung s i level (suc level) q
      → IsRung s i (suc level) high r
      → (q.level ≢ r.level) ⊎ (q.side ≢ r.side)
  levels_apart s i level high q r h k =
      let low : q.level < suc level = h.below in
      let high : suc level ≤ r.level = k.from in inl (omega arith)

  quotes_from-AreApart :
      (s : QuoteSurface F) (i : QuoteInput F) (left level : ℕ)
      → AreApart (quotes_from s i left level)
  unfolding quotes_from
  quotes_from-AreApart s i zero level = tt
  quotes_from-AreApart s i (suc left) level =
      AreApart-append _ _ (level_quotes-AreApart s i level)
        (quotes_from-AreApart s i left (suc level))
        (All-map _ _
          (λ q h.
            All-map _ _ (λ r k. levels_apart s i level _ q r h k) _
              (quotes_from-IsRung s i left (suc level)))
          _ (level_quotes-IsRung s i level))

  length-quote_of :
      (i : QuoteInput F) (side : Side) (a p : F) (level : ℕ) (size : Option F)
      → length (quote_of i side a p level size) ≤ 1
  length-quote_of i side a p level none = omega arith
  length-quote_of i side a p level (some v) = omega arith

  length-level_quotes :
      (s : QuoteSurface F) (i : QuoteInput F) (level : ℕ) → length (level_quotes s i level) ≤ 2
  unfolding level_quotes
  length-level_quotes s i level = omega (
    arith,
    length-append
        (quote_of i buy i.bid_activation (bid_price s i (distance_at s level)) level (bid_size s i))
        (quote_of i sell i.ask_activation (ask_price s i (distance_at s level)) level
          (ask_size s i)),
    length-quote_of i buy i.bid_activation (bid_price s i (distance_at s level)) level
        (bid_size s i),
    length-quote_of i sell i.ask_activation (ask_price s i (distance_at s level)) level
        (ask_size s i),
  )

  length-quotes_from :
      (s : QuoteSurface F) (i : QuoteInput F) (left level : ℕ)
      → length (quotes_from s i left level) ≤ nat_mul 2 left
  unfolding quotes_from
  length-quotes_from s i zero level = omega arith
  length-quotes_from s i (suc left) level = omega (
    arith,
    length-append (level_quotes s i level) (quotes_from s i left (suc level)),
    length-level_quotes s i level,
    length-quotes_from s i left (suc level),
  )

  if-AreApart :
      (c : Bool) (qs : List (Quote F)) (k : ℕ)
      → AreApart qs
      → length qs ≤ k
      → AreApart (if c then [] else qs) × (length (if c then [] else qs) ≤ k)
  if-AreApart true qs k h l = (tt, omega arith)
  if-AreApart false qs k h l = (h, l)

  -- No two quotes of `generate` share a side and a level, so each has a key of its own among the
  -- virtual orders, and there are at most two for each level.
  pub generate-AreApart :
      (s : QuoteSurface F) (i : QuoteInput F)
      → AreApart (generate s i) × (length (generate s i) ≤ nat_mul 2 s.levels)
  unfolding generate
  generate-AreApart s i =
      if-AreApart _ (quotes_from s i s.levels zero) _ (quotes_from-AreApart s i s.levels zero)
        (length-quotes_from s i s.levels zero)
