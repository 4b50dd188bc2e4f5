-- ===== src/Market/OrderBook/Levels.antt =====
-- What snapshots and deltas of market/orderbook.py leave at each price.
use ghost_amm.Base.{
  ◌≡◌, refl, false, Option, none, some, List, [], ◌∷◌, Dict, lookup, insert, All, IsDict, ◌==◌,
  if◌then◌else◌, arith, Bool-cases, inl, inr, lookup-insert, lookup-erase_ne, lookup-erase_self,
  insert-IsDict, erase-IsDict, insert-All,
}
use ghost_amm.Num.{Num, ltb, dec, num_eq, ◌≺◌}
use ghost_amm.Events.{Event, Payload, Sequence}
use ghost_amm.Exchange.BitbankRules.{Side, is_buy}
use ghost_amm.Market.OrderBook.{
  OrderBook, snapshot_levels, set_level, set_levels, apply_snapshot, apply_delta, apply_payload,
  apply_event, queue_at, amount_or_zero,
}

module _ {F : Type 0} ⦃n : Num F⦄ where
  -- What a list of level updates says of one price: its last entry decides, and zero takes it away.
  abbrev pub said_of : F → List (F × F) → Option F → Option F
  said_of p [] old = old
  said_of p ((price, amount) ∷ rest) old =
      said_of p rest (if price == p then (if amount == dec 0 0 then none else some amount) else old)

  lookup-set_level :
      (p price amount : F) (d : Dict F F)
      → IsDict d
      → lookup p (set_level d price amount)
        ≡ (if price == p then (if amount == dec 0 0 then none else some amount) else lookup p d)
  unfolding set_level
  lookup-set_level p price amount d h = ground (
    arith,
    n.equality.beq_iff price p,
    lookup-insert price p amount d,
    lookup-erase_ne price p d,
    lookup-erase_self price d h,
  )

  set_level-IsDict :
      (price amount : F) (d : Dict F F) → IsDict d → IsDict (set_level d price amount)
  unfolding set_level
  set_level-IsDict price amount d h =
      ground (arith, insert-IsDict price amount d h, erase-IsDict price d h)

  lookup-set_levels :
      (p : F) (d : Dict F F) (ls : List (F × F))
      → IsDict d
      → lookup p (set_levels d ls) ≡ said_of p ls (lookup p d)
  unfolding set_levels
  lookup-set_levels p d [] h = refl
  lookup-set_levels p d ((price, amount) ∷ rest) h =
      rw (← lookup-set_level p price amount d h)
        (lookup-set_levels p (set_level d price amount) rest (set_level-IsDict price amount d h))

  set_levels-IsDict : (d : Dict F F) (ls : List (F × F)) → IsDict d → IsDict (set_levels d ls)
  unfolding set_levels
  set_levels-IsDict d [] h = h
  set_levels-IsDict d ((price, amount) ∷ rest) h =
      set_levels-IsDict (set_level d price amount) rest (set_level-IsDict price amount d h)

  -- Every amount of the side is positive.
  abbrev pub IsPositive : Dict F F → Type 0
  IsPositive = All (λ e. dec 0 0 ≺ e.1)

  snapshot_levels_lem :
      (d : Dict F F) (ls : List (F × F))
      → IsDict d
      → IsPositive d
      → IsDict (snapshot_levels d ls) × IsPositive (snapshot_levels d ls)
  unfolding snapshot_levels
  snapshot_levels_lem d [] h k = (h, k)
  snapshot_levels_lem d ((price, amount) ∷ rest) h k = elim (Bool-cases (ltb (dec 0 0) amount)) [
    | inl e ↦ rw e (
        snapshot_levels_lem (insert price amount d) rest (insert-IsDict price amount d h)
          (insert-All (λ e. dec 0 0 ≺ e.1) price amount d e k))
    | inr e ↦ rw e (snapshot_levels_lem d rest h k)
  ]

  -- No price stands twice on a side.
  pub record IsBook (b : OrderBook F) : Type 0 where
    pub bids_once : IsDict b.bids
    pub asks_once : IsDict b.asks

  abbrev pub side_of : OrderBook F → Side → Dict F F
  side_of b side = if is_buy side then b.bids else b.asks

  abbrev pub updates_of : List (F × F) → List (F × F) → Side → List (F × F)
  updates_of bids asks side = if is_buy side then bids else asks

  apply_payload-IsBook :
      (b : OrderBook F) (p : Payload F) (s : Sequence) (ts : F)
      → IsBook b
      → IsBook (apply_payload b p s ts)
  unfolding apply_payload apply_snapshot apply_delta
  apply_payload-IsBook b (Payload.order_book_snapshot bids asks) s ts h = record {
    bids_once = (snapshot_levels_lem [] bids tt tt).0;
    asks_once = (snapshot_levels_lem [] asks tt tt).0;
  }
  apply_payload-IsBook b (Payload.order_book_delta bids asks) s ts h =
      ground (
        arith,
        set_levels-IsDict b.bids bids h.bids_once,
        set_levels-IsDict b.asks asks h.asks_once,
      )
  apply_payload-IsBook b _ s ts h = h

  -- Every event keeps each price of a side at one amount.
  pub apply_event-IsBook : (b : OrderBook F) (e : Event F) → IsBook b → IsBook (apply_event b e)
  unfolding apply_event
  apply_event-IsBook b e h = apply_payload-IsBook b e.payload e.sequence e.ts_exchange h

  -- A snapshot leaves only positive amounts, whatever the book was.
  pub apply_snapshot-IsPositive :
      (b : OrderBook F) (bids asks : List (F × F)) (s : Sequence) (ts : F)
      → IsPositive (apply_snapshot b bids asks s ts).bids
        × IsPositive (apply_snapshot b bids asks s ts).asks
  unfolding apply_snapshot
  apply_snapshot-IsPositive b bids asks s ts =
      ((snapshot_levels_lem [] bids tt tt).1, (snapshot_levels_lem [] asks tt tt).1)

  -- A delta that is applied changes the queue at a price to what its last entry for that price
  -- says, zero where that entry takes the level away, and leaves it where it has no entry.
  pub queue_at-apply_delta :
      (b : OrderBook F) (bids asks : List (F × F)) (s : Sequence) (ts : F) (side : Side) (p : F)
      → IsBook b
      → (apply_delta b bids asks s ts).stale ≡ false
      → queue_at (apply_delta b bids asks s ts) side p
        ≡ amount_or_zero (said_of p (updates_of bids asks side) (lookup p (side_of b side)))
  unfolding apply_delta queue_at
  queue_at-apply_delta b bids asks s ts side p h fresh = ground (
    arith,
    lookup-set_levels p b.bids bids h.bids_once,
    lookup-set_levels p b.asks asks h.asks_once,
  )
