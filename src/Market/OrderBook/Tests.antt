-- ===== src/Market/OrderBook/Tests.antt =====
-- market/orderbook.py on the book and the delta of the fixtures.
use ghost_amm.Base.{◌≡◌, ◌↔◌, refl, true, false, not, some, List, [], ◌∷◌, keys, lookup}
use ghost_amm.Base.Int.{ℤ, pos, int_eq}
use ghost_amm.Num.{◌≼◌, ◌≺◌}
use ghost_amm.Num.Whole.{whole, whole-IsOrdered, whole-IsArithmetic}
use ghost_amm.Exchange.BitbankRules.{buy}
use ghost_amm.Events.{Event, Sequence, int, absent, Payload}
use ghost_amm.Market.OrderBook.{
  OrderBook, apply_event, apply_delta, apply_snapshot, best_bid, best_ask, mid, queue_at,
  amount_or_zero,
}
use ghost_amm.Market.OrderBook.Best.{IsHighest, IsLowest, best-IsExtreme, mid_between}
use ghost_amm.Market.OrderBook.Levels.{IsBook, side_of, updates_of, said_of, queue_at-apply_delta}
use ghost_amm.Market.OrderBook.Sequencing.{apply_events, AreUpwards, numbers_of, stale-apply_events}
use ghost_amm.Fixtures.{book, delta, sale, event_of}

book-IsBook : IsBook book
book-IsBook = record { bids_once = (refl, (refl, tt)); asks_once = (refl, (refl, tt)) }

best-IsExtreme_example :
    IsHighest (keys book.bids) (best_bid book) × IsLowest (keys book.asks) (best_ask book)
best-IsExtreme_example = best-IsExtreme whole-IsOrdered book

mid_between_example :
    (p : ℤ) × (q : ℤ) × (best_bid book ≡ some p)
    × (best_ask book ≡ some q)
    × (p ≺ q)
    × (p ≼ pos 101)
    × (pos 101 ≼ q)
unfolding mid best_bid best_ask ghost_amm.Market.OrderBook.smallest
    ghost_amm.Market.OrderBook.largest ghost_amm.Base.Int.◌+ℤ◌
mid_between_example = mid_between whole-IsOrdered whole-IsArithmetic book refl

bids_seen : List (ℤ × ℤ)
bids_seen = (pos 98, pos 2) ∷ (pos 97, pos 0) ∷ []

abbrev cut : List (ℤ × ℤ)
cut = (pos 100, pos 0) ∷ []

queue_at-apply_delta_example :
    queue_at (apply_delta book cut [] (int (pos 8)) (pos 2_000)) buy (pos 100)
    ≡ amount_or_zero
        (said_of (pos 100) (updates_of cut [] buy) (lookup (pos 100) (side_of book buy)))
unfolding apply_delta ghost_amm.Events.to_int
queue_at-apply_delta_example =
    queue_at-apply_delta book cut [] (int (pos 8)) (pos 2_000) buy (pos 100) book-IsBook refl

-- A delta, and one from before it.
abbrev deltas : List (Event ℤ)
deltas =
    delta ∷ event_of (int (pos 5)) (Payload.order_book_delta ((pos 99, pos 1) ∷ []) []) ∷ sale ∷ []

stale-apply_events_example :
    ((apply_events book deltas).stale ≡ false) ↔ AreUpwards (some (pos 7)) (numbers_of deltas)
stale-apply_events_example = stale-apply_events book deltas refl (refl, (refl, (refl, tt)))
