-- ===== src/Market/OrderBook/Sequencing.antt =====
-- Sequence numbers and staleness of market/orderbook.py over runs of events.
use ghost_amm.Base.{
  ◌≡◌, ◌↔◌, ◌∙◌, sym, refl, true, false, Bool, not, Option, none, some, List, [], ◌∷◌, All, arith,
  Bool-cases, inl, inr, if◌then◌else◌,
}
use ghost_amm.Base.Int.{ℤ, ◌≤ℤ◌, ltb_ℤ}
use ghost_amm.Num.{Num}
use ghost_amm.Events.{Event, Payload, Sequence, to_int}
use ghost_amm.Market.OrderBook.{
  OrderBook, apply_delta, apply_payload, apply_event, not_after, or_else, set_levels,
}

module _ {F : Type 0} where
  abbrev pub is_snapshot : Payload F → Bool
  is_snapshot (Payload.order_book_snapshot bids asks) = true
  is_snapshot _ = false

module _ {F : Type 0} where
  abbrev pub is_delta : Payload F → Bool
  is_delta (Payload.order_book_delta bids asks) = true
  is_delta _ = false

-- The numbers go up strictly, from above the last number if there is one.
abbrev pub IsAbove : Option ℤ → ℤ → Type 0
IsAbove none k = Unit
IsAbove (some last) k = ltb_ℤ last k ≡ true

abbrev pub AreUpwards : Option ℤ → List ℤ → Type 0
AreUpwards last [] = Unit
AreUpwards last (k ∷ ks) = IsAbove last k × AreUpwards (some k) ks

-- The last sequence number known before is not above the one known after.
abbrev pub NotBack : Option ℤ → Option ℤ → Type 0
NotBack none later = Unit
NotBack (some a) none = ⊥
NotBack (some a) (some b) = a ≤ℤ b

of_not : (c : Bool) → not c ≡ false → c ≡ true
of_not c h = ground arith

NotBack-refl : (a : Option ℤ) → NotBack a a
NotBack-refl none = tt
NotBack-refl (some a) = omega arith

NotBack-trans : (a b c : Option ℤ) → NotBack a b → NotBack b c → NotBack a c
NotBack-trans none b c h k = tt
NotBack-trans (some a) (some b) (some c) h k = omega arith
NotBack-trans (some a) (some b) none h k = k
NotBack-trans (some a) none c h k = absurd h

NotBack-or_else :
    (seq last : Option ℤ) → not_after seq last ≡ false → NotBack last (or_else seq last)
NotBack-or_else seq none h = tt
NotBack-or_else none (some b) h = omega arith
NotBack-or_else (some a) (some b) h = ground arith

module _ {F : Type 0} ⦃n : Num F⦄ where
  -- The events in order.
  abbrev pub apply_events : OrderBook F → List (Event F) → OrderBook F
  apply_events b [] = b
  apply_events b (e ∷ es) = apply_events (apply_event b e) es

  abbrev pub NoSnapshot : List (Event F) → Type 0
  NoSnapshot = All (λ e. is_snapshot e.payload ≡ false)

  apply_payload-stale :
      (b : OrderBook F) (p : Payload F) (s : Sequence) (ts : F)
      → b.stale ≡ true
      → is_snapshot p ≡ false
      → apply_payload b p s ts ≡ b
  unfolding apply_payload apply_delta
  apply_payload-stale b (Payload.order_book_snapshot bids asks) s ts h k = cc
  apply_payload-stale b (Payload.order_book_delta bids asks) s ts h k = rw h
  apply_payload-stale b _ s ts h k = refl

  -- A stale book ignores every event until a snapshot: no run of other events changes anything.
  pub apply_events-stale :
      (b : OrderBook F) (es : List (Event F))
      → b.stale ≡ true
      → NoSnapshot es
      → apply_events b es ≡ b
  unfolding apply_event
  apply_events-stale b [] h k = refl
  apply_events-stale b (e ∷ es) h k =
      rw (apply_payload-stale b e.payload e.sequence e.ts_exchange h k.0)
        (apply_events-stale b es h k.1)

  apply_payload-NotBack :
      (b : OrderBook F) (p : Payload F) (s : Sequence) (ts : F)
      → is_snapshot p ≡ false
      → NotBack b.last_sequence (apply_payload b p s ts).last_sequence
  unfolding apply_payload apply_delta
  apply_payload-NotBack b (Payload.order_book_snapshot bids asks) s ts k = cc
  apply_payload-NotBack b (Payload.order_book_delta bids asks) s ts k =
      ground (arith, NotBack-refl b.last_sequence, NotBack-or_else (to_int F s) b.last_sequence)
  apply_payload-NotBack b _ s ts k = NotBack-refl b.last_sequence

  -- Between snapshots the last sequence number never goes back, over any run of events.
  pub apply_events-NotBack :
      (b : OrderBook F) (es : List (Event F))
      → NoSnapshot es
      → NotBack b.last_sequence (apply_events b es).last_sequence
  unfolding apply_event
  apply_events-NotBack b [] k = NotBack-refl b.last_sequence
  apply_events-NotBack b (e ∷ es) k =
      NotBack-trans b.last_sequence _ _
        (apply_payload-NotBack b e.payload e.sequence e.ts_exchange k.0)
        (apply_events-NotBack (apply_event b e) es k.1)

  -- Whether the deltas of a run are numbered upwards: one without a number counts as next in line.
  abbrev pub in_order : Option ℤ → List (Event F) → Bool
  in_order last [] = true
  in_order last (e ∷ es) =
      if is_delta e.payload
      then (if not_after (to_int F e.sequence) last
          then false
          else in_order (or_else (to_int F e.sequence) last) es)
      else in_order last es

  -- The rest of a run after one event, by what the event is.
  abbrev order_rest : Payload F → Option ℤ → Option ℤ → List (Event F) → Bool
  order_rest p seq last es =
      if is_delta p
      then (if not_after seq last then false else in_order (or_else seq last) es)
      else in_order last es

  module _ (es : List (Event F))
      (later : (b : OrderBook F)
        → b.stale ≡ false
        → (apply_events b es).stale ≡ not (in_order b.last_sequence es))
      (none_later : NoSnapshot es) where
    stale-apply_payload :
        (b : OrderBook F) (p : Payload F) (s : Sequence) (ts : F)
        → b.stale ≡ false
        → is_snapshot p ≡ false
        → (apply_events (apply_payload b p s ts) es).stale
          ≡ not (order_rest p (to_int F s) b.last_sequence es)
    unfolding apply_payload apply_delta
    stale-apply_payload b (Payload.order_book_snapshot bids asks) s ts h k = cc
    stale-apply_payload b (Payload.order_book_delta bids asks) s ts h k =
        elim (Bool-cases (not_after (to_int F s) b.last_sequence)) [
          | inl e ↦
              rw (h, e)
                (rw (
                  apply_events-stale
                    (record b { stale = true; stale_reason = some "sequence_not_monotonic" }) es
                    refl none_later))
          | inr e ↦
              rw (h, e)
                (later
                  (record b {
                    bids = set_levels b.bids bids;
                    asks = set_levels b.asks asks;
                    last_sequence = or_else (to_int F s) b.last_sequence;
                    last_ts = some ts;
                    stale = false;
                  })
                  refl)
        ]
    stale-apply_payload b (Payload.trade _ _ _) s ts h k = later b h
    stale-apply_payload b _ s ts h k = later b h

  -- The numbers of the deltas of a run, in order; a delta may have none.
  abbrev numbered : Payload F → Option ℤ → List ℤ → List ℤ
  numbered (Payload.order_book_delta bids asks) (some seq) rest = seq ∷ rest
  numbered _ seq rest = rest

  abbrev pub numbers_of : List (Event F) → List ℤ
  numbers_of [] = []
  numbers_of (e ∷ es) = numbered e.payload (to_int F e.sequence) (numbers_of es)

  rest_iff :
      (p : Payload F) (seq last : Option ℤ) (es : List (Event F))
      → ((next : Option ℤ) → (in_order next es ≡ true) ↔ AreUpwards next (numbers_of es))
      → (order_rest p seq last es ≡ true) ↔ AreUpwards last (numbered p seq (numbers_of es))
  rest_iff (Payload.order_book_delta bids asks) none last es later = later last
  rest_iff (Payload.order_book_delta bids asks) (some seq) none es later =
      let rest = later (some seq) in (λ h. (tt, rest.0 h), λ (_, h). rest.1 h)
  rest_iff (Payload.order_book_delta bids asks) (some seq) (some last) es later =
      ground (arith, later (some seq))
  rest_iff _ seq last es later = later last

  in_order_iff :
      (last : Option ℤ) (es : List (Event F))
      → (in_order last es ≡ true) ↔ AreUpwards last (numbers_of es)
  in_order_iff last [] = (λ h. tt, λ h. refl)
  in_order_iff last (e ∷ es) =
      rest_iff e.payload (to_int F e.sequence) last es (λ next. in_order_iff next es)

  -- The book through the run, by the test on each of its events.
  stale-in_order :
      (b : OrderBook F) (es : List (Event F))
      → b.stale ≡ false
      → NoSnapshot es
      → (apply_events b es).stale ≡ not (in_order b.last_sequence es)
  unfolding apply_event
  stale-in_order b [] h k = rw h
  stale-in_order b (e ∷ es) h k =
      stale-apply_payload es (λ c fresh. stale-in_order c es fresh k.1) k.1 b e.payload e.sequence
        e.ts_exchange h k.0

  -- After a run without snapshots a book that was fresh is fresh still exactly when the numbers of
  -- the run's deltas go up strictly, from above the book's last sequence number if it has one; deltas
  -- without a number do not matter.
  pub stale-apply_events :
      (b : OrderBook F) (es : List (Event F))
      → b.stale ≡ false
      → NoSnapshot es
      → ((apply_events b es).stale ≡ false) ↔ AreUpwards b.last_sequence (numbers_of es)
  stale-apply_events b es h k =
      let ordered = in_order_iff b.last_sequence es in
      let stale = stale-in_order b es h k in
      (
        λ fresh. ordered.0 (of_not (in_order b.last_sequence es) (sym stale ∙ fresh)),
        λ up. rw (stale, ordered.1 up),
      )
