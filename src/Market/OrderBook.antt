-- ===== src/Market/OrderBook.antt =====
-- ghost_amm/market/orderbook.py: the local order book, rebuilt from snapshots and deltas.
use ghost_amm.Base.{
  map, filter, Bool, true, false, not, ◌&&◌, ◌||◌, Option, none, some, String, List, [], ◌∷◌, Dict,
  keys, lookup, insert, erase, ◌==◌, if◌then◌else◌,
}
use ghost_amm.Base.Int.{ℤ, leb_ℤ}
use ghost_amm.Num.{Num, num_eq, ltb, leb, dec, max, min, ◌+◌, ◌-◌, ◌*◌, ◌/◌}
use ghost_amm.Exchange.BitbankRules.{Side, is_buy}
use ghost_amm.Events.{Sequence, Payload, Event, to_int}
pub mod Best
pub mod Levels
pub mod Sequencing
mod Tests

-- `venue` and `symbol` are carried and never read.
pub record Bbo (F : Type 0) : Type 0 where
  pub bid : Option F
  pub ask : Option F

pub record OrderBook (F : Type 0) : Type 0 where
  pub venue : String
  pub symbol : String
  pub bids : Dict F F
  pub asks : Dict F F
  pub last_sequence : Option ℤ
  pub last_ts : Option F
  pub stale : Bool
  pub stale_reason : Option String

-- `seq is not None and last is not None and seq <= last`
abbrev pub not_after : Option ℤ → Option ℤ → Bool
not_after (some seq) (some last) = leb_ℤ seq last
not_after (some seq) none = false
not_after none last = false

abbrev pub or_else {ℓ} : {A : Type ℓ} → Option A → Option A → Option A
or_else (some a) b = some a
or_else none b = b

module _ {F : Type 0} where
  -- The book of a new object, before any event.
  abbrev pub empty : String → String → OrderBook F
  empty venue symbol = record {
    venue = venue;
    symbol = symbol;
    bids = [];
    asks = [];
    last_sequence = none;
    last_ts = none;
    stale = true;
    stale_reason = some "no_snapshot";
  }

module _ {F : Type 0} ⦃n : Num F⦄ where
  -- The dict comprehension of a snapshot, from what was read so far.
  unfoldable pub snapshot_levels : Dict F F → List (F × F) → Dict F F
  snapshot_levels d [] = d
  snapshot_levels d ((price, amount) ∷ rest) =
      snapshot_levels (if ltb (dec 0 0) amount then insert price amount d else d) rest

  unfoldable pub apply_snapshot :
      OrderBook F → List (F × F) → List (F × F) → Sequence → F → OrderBook F
  apply_snapshot b bids asks sequence ts = record b {
    bids = snapshot_levels [] bids;
    asks = snapshot_levels [] asks;
    last_sequence = to_int F sequence;
    last_ts = some ts;
    stale = false;
    stale_reason = none;
  }

  unfoldable pub set_level : Dict F F → F → F → Dict F F
  set_level side price amount =
      if amount == dec 0 0 then erase price side else insert price amount side

  -- The loop of `apply_delta` over one side.
  unfoldable pub set_levels : Dict F F → List (F × F) → Dict F F
  set_levels d [] = d
  set_levels d ((price, amount) ∷ rest) = set_levels (set_level d price amount) rest

  unfoldable pub apply_delta :
      OrderBook F → List (F × F) → List (F × F) → Sequence → F → OrderBook F
  apply_delta b bids asks sequence ts =
      let seq = to_int F sequence in
      if b.stale
      then b
      else if not_after seq b.last_sequence
      then record b { stale = true; stale_reason = some "sequence_not_monotonic" }
      else record b {
        bids = set_levels b.bids bids;
        asks = set_levels b.asks asks;
        last_sequence = or_else seq b.last_sequence;
        last_ts = some ts;
      }

  unfoldable pub apply_payload : OrderBook F → Payload F → Sequence → F → OrderBook F
  apply_payload b (Payload.order_book_snapshot bids asks) sequence ts =
      apply_snapshot b bids asks sequence ts
  apply_payload b (Payload.order_book_delta bids asks) sequence ts =
      apply_delta b bids asks sequence ts
  apply_payload b _ sequence ts = b

  unfoldable pub apply_event : OrderBook F → Event F → OrderBook F
  unfolding apply_payload
  apply_event b e = apply_payload b e.payload e.sequence e.ts_exchange

  -- Python's `max` and `min` of the keys that follow the first.
  unfoldable pub largest : F → List F → F
  largest m [] = m
  largest m (x ∷ xs) = largest (max m x) xs

  unfoldable pub smallest : F → List F → F
  smallest m [] = m
  smallest m (x ∷ xs) = smallest (min m x) xs

  abbrev top : List F → Option F
  top [] = none
  top (x ∷ xs) = some (largest x xs)

  abbrev bottom : List F → Option F
  bottom [] = none
  bottom (x ∷ xs) = some (smallest x xs)

  unfoldable pub best_bid : OrderBook F → Option F
  best_bid b = top (keys b.bids)

  unfoldable pub best_ask : OrderBook F → Option F
  best_ask b = bottom (keys b.asks)

  abbrev mid_of : Option F → Option F → Option F
  mid_of (some bid) (some ask) = if leb ask bid then none else some ((bid + ask) / dec 2 0)
  mid_of (some bid) none = none
  mid_of none ask = none

  unfoldable pub mid : OrderBook F → Option F
  mid b = mid_of (best_bid b) (best_ask b)

  abbrev spread_of : Option F → Option F → Option F
  spread_of (some bid) (some ask) =
      let middle = (bid + ask) / dec 2 0 in
      if leb middle (dec 0 0) then none else some ((ask - bid) / middle * dec 10_000 0)
  spread_of (some bid) none = none
  spread_of none ask = none

  unfoldable pub spread_bps : OrderBook F → Option F
  spread_bps b = spread_of (best_bid b) (best_ask b)

  -- `sum(price * amount for price, amount in side.items() if keep(price))`
  unfoldable pub notional : (F → Bool) → Dict F F → F
  notional keep side =
      n.sum (map (λ (price, amount). price * amount) (filter (λ (price, amount). keep price) side))

  abbrev depth_at : OrderBook F → F → Option F → F
  depth_at b bps none = dec 0 0
  depth_at b bps (some middle) =
      let bid_floor = middle * (dec 1 0 - bps / dec 10_000 0) in
      let ask_ceiling = middle * (dec 1 0 + bps / dec 10_000 0) in
      notional (λ price. leb bid_floor price) b.bids
      + notional (λ price. leb price ask_ceiling) b.asks

  unfoldable pub depth_around_mid : OrderBook F → F → F
  depth_around_mid b bps = depth_at b bps (mid b)

  abbrev pub amount_or_zero : Option F → F
  amount_or_zero none = dec 0 0
  amount_or_zero (some a) = a

  unfoldable pub bbo : OrderBook F → Bbo F
  bbo b = record { bid = best_bid b; ask = best_ask b }

  unfoldable pub queue_at : OrderBook F → Side → F → F
  queue_at b side price = amount_or_zero (lookup price (if is_buy side then b.bids else b.asks))
