-- ===== src/Market/FairEngine/Sources.antt =====
-- When market/fair_price.py trusts the order book, and that the engine's book source is never older
-- than the book.
use mathlib.Core.Path.{subst}
use mathlib.Core.Option.{some-injective, none-ne-some}
use ghost_amm.Base.{
  ◌≡◌, ◌⊎◌, refl, sym, ◌≢◌, true, false, Option, none, some, String, Dict, lookup, IsDict, arith,
  Bool-cases, Option-cases, inl, inr, lookup-insert_self, lookup-erase_self, insert-IsDict,
  erase-IsDict, string_eq,
}
use text.Mathlib.TextEquality.{eq_iff}
use ghost_amm.Num.{Num, IsOrdered, IsArithmetic, ◌≼◌, ◌≺◌}
use ghost_amm.Num.Order.{le_of_not_lt, lt_of_not_le, le_of_not_le}
use ghost_amm.Events.{Event, Payload}
use ghost_amm.Market.OrderBook.{OrderBook, best_bid, best_ask}
use ghost_amm.Market.FairPrice.{FairPriceSource, FairPriceState, FairPriceEngine}
use ghost_amm.Market.FairEngine.{
  source_of_prices, source_from_orderbook, invalid_prices, invalid_orderbook_state, from_source,
  from_orderbook, orderbook_state, spread_raises, from_market_event, event_sources, book_sources,
  add_source, add_read, with_own, is_old, spread_between, source_from_ticker,
  source_from_external_fair,
}

module _ {F : Type 0} ⦃n : Num F⦄ where
  invalid_orderbook_unreachable_at :
      (e : FairPriceEngine F) (last : Option F) (now : F) (bid ask : Option F)
      → (from_source
          (invalid_prices e last now bid ask)
          (source_of_prices e last now bid ask)).reason
        ≢ some "invalid_orderbook"
  invalid_orderbook_unreachable_at e last now none ask = cc
  invalid_orderbook_unreachable_at e last now (some bid) none = cc
  invalid_orderbook_unreachable_at e last now (some bid) (some ask) = ground (
    arith,
    eq_iff "crossed_or_locked_book" "invalid_orderbook",
    eq_iff "stale_book_timestamp" "invalid_orderbook",
    eq_iff "spread_too_wide" "invalid_orderbook",
  )

  -- The last answer of `_invalid_orderbook_state`, "invalid_orderbook", is never given: for a book
  -- that is not stale the tests before it say why `_source_from_orderbook` gave no source.
  pub invalid_orderbook_unreachable :
      (e : FairPriceEngine F) (b : OrderBook F) (now : F)
      → b.stale ≡ false
      → (orderbook_state e b now).reason ≢ some "invalid_orderbook"
  unfolding invalid_orderbook_state source_from_orderbook
  invalid_orderbook_unreachable e b now h =
      simp h (invalid_orderbook_unreachable_at e b.last_ts now (best_bid b) (best_ask b))

module _ {F : Type 0} ⦃n : Num F⦄ (laws : IsOrdered F) (numbers : IsArithmetic F) where
  -- What a trusted order book shows.
  pub record IsTrusted (e : FairPriceEngine F) (b : OrderBook F) (now fair bid ask : F)
      : Type 0 where
    pub fresh : b.stale ≡ false
    pub bid_eq : best_bid b ≡ some bid
    pub ask_eq : best_ask b ≡ some ask
    pub uncrossed : bid ≺ ask
    pub recent : is_old e b.last_ts now ≡ false
    pub narrow : spread_between bid ask ≼ e.max_spread_bps
    pub above : bid ≼ fair
    pub below : fair ≼ ask

  source_of_prices_lem :
      (e : FairPriceEngine F) (last : Option F) (now : F) (bid ask : Option F)
      {s : FairPriceSource F}
      → source_of_prices e last now bid ask ≡ some s
      → (p : F) × (q : F) × (bid ≡ some p)
        × (ask ≡ some q)
        × (p ≺ q)
        × (is_old e last now ≡ false)
        × (spread_between p q ≼ e.max_spread_bps)
        × (p ≼ s.fair)
        × (s.fair ≼ q)
  source_of_prices_lem e last now (some p) (some q) h = (
    p,
    q,
    refl,
    refl,
    ground (arith, lt_of_not_le laws q p),
    ground arith,
    ground (arith, le_of_not_lt laws e.max_spread_bps (spread_between p q)),
    ground (arith, le_of_not_le laws q p, numbers.le-middle p q),
    ground (arith, le_of_not_le laws q p, numbers.middle-le p q),
  )
  source_of_prices_lem e last now (some p) none h = cc
  source_of_prices_lem e last now none ask h = cc

  invalid_prices_lem :
      (e : FairPriceEngine F) (last : Option F) (now : F) (bid ask : Option F)
      → (invalid_prices e last now bid ask).is_valid ≡ false
  invalid_prices_lem e last now (some p) (some q) = ground arith
  invalid_prices_lem e last now (some p) none = refl
  invalid_prices_lem e last now none ask = refl

  orderbook_state-IsTrusted :
      (e : FairPriceEngine F) (b : OrderBook F) (now : F) {fair : F}
      → (orderbook_state e b now).is_valid ≡ true
      → (orderbook_state e b now).fair ≡ some fair
      → (bid : F) × (ask : F) × IsTrusted e b now fair bid ask
  unfolding invalid_orderbook_state source_from_orderbook
  orderbook_state-IsTrusted e b now {fair} v q = elim (Bool-cases b.stale) [
    | inl old ↦ absurd (ground arith)
    | inr fresh ↦ elim (Option-cases (source_of_prices e b.last_ts now (best_bid b) (best_ask b))) [
      | inl no_source ↦
          absurd (ground (arith, invalid_prices_lem e b.last_ts now (best_bid b) (best_ask b)))
      | inr (s, p) ↦
          let (bid, ask, pb, pa, lt, recent, narrow, above, below) =
            source_of_prices_lem e b.last_ts now (best_bid b) (best_ask b) p in
          let same : s.fair ≡ fair = ground arith in
          (
            bid,
            ask,
            record {
              fresh = fresh;
              bid_eq = pb;
              ask_eq = pa;
              uncrossed = lt;
              recent = recent;
              narrow = narrow;
              above = rw (← same) above;
              below = rw (← same) below;
            },
          )
    ]
  ]

  -- Where `from_orderbook` returns, it gives a valid state only for a book that is fresh, recent, uncrossed and narrow
  -- enough, and the fair price then lies between the best bid and the best ask.
  pub from_orderbook-IsTrusted :
      (e : FairPriceEngine F) (b : OrderBook F) (now : F) {st : FairPriceState F} {fair : F}
      → from_orderbook e b now ≡ some st
      → st.is_valid ≡ true
      → st.fair ≡ some fair
      → (bid : F) × (ask : F) × IsTrusted e b now fair bid ask
  unfolding from_orderbook
  from_orderbook-IsTrusted e b now {st} {fair} returned v q =
      elim (Bool-cases (spread_raises e b now)) [
        | inl r ↦ absurd (none-ne-some _ (rw r at returned))
        | inr r ↦
            let same = some-injective _ _ (rw r at returned) in
            orderbook_state-IsTrusted e b now (subst (λ s. s.is_valid ≡ true) (sym same) v)
              (subst (λ s. s.fair ≡ some fair) (sym same) q)
      ]

module _ {F : Type 0} ⦃n : Num F⦄ where
  add_source-IsDict :
      (s : Option (FairPriceSource F)) (d : Dict String (FairPriceSource F))
      → IsDict d
      → IsDict (add_source s d)
  add_source-IsDict none d h = h
  add_source-IsDict (some s) d h = insert-IsDict s.name s d h

  add_read-IsDict :
      (s : Option (Option (FairPriceSource F))) (d : Dict String (FairPriceSource F))
      {own : Dict String (FairPriceSource F)}
      → IsDict d
      → add_read s d ≡ some own
      → IsDict own
  add_read-IsDict none d h q = cc
  add_read-IsDict (some s) d h q = subst IsDict (some-injective _ _ q) (add_source-IsDict s d h)

  event_sources-IsDict :
      (p : Payload F) (ts : F) (d : Dict String (FairPriceSource F))
      {own : Dict String (FairPriceSource F)}
      → IsDict d
      → event_sources p ts d ≡ some own
      → IsDict own
  event_sources-IsDict (Payload.bitbank_ticker buy sell last) ts d h q =
      add_read-IsDict (source_from_ticker ts buy sell last) d h q
  event_sources-IsDict (Payload.external_fair_price x) ts d h q =
      add_read-IsDict (source_from_external_fair x ts) d h q
  event_sources-IsDict _ ts d h q = subst IsDict (some-injective _ _ q) h

  source_of_prices_name :
      (e : FairPriceEngine F) (last : Option F) (now : F) (bid ask : Option F)
      {s : FairPriceSource F}
      → source_of_prices e last now bid ask ≡ some s
      → s.name ≡ "bitbank_orderbook_mid"
  source_of_prices_name e last now (some p) (some q) h = ground arith
  source_of_prices_name e last now (some p) none h = cc
  source_of_prices_name e last now none ask h = cc

  source_from_orderbook_name :
      (e : FairPriceEngine F) (b : OrderBook F) (now : F) {s : FairPriceSource F}
      → source_from_orderbook e b now ≡ some s
      → s.name ≡ "bitbank_orderbook_mid"
  unfolding source_from_orderbook
  source_from_orderbook_name e b now h =
      ground (arith, source_of_prices_name e b.last_ts now (best_bid b) (best_ask b))

  lookup-book_sources :
      (s : Option (FairPriceSource F)) (d : Dict String (FairPriceSource F))
      → ((t : FairPriceSource F) → s ≡ some t → t.name ≡ "bitbank_orderbook_mid")
      → IsDict d
      → (lookup "bitbank_orderbook_mid" (book_sources s d) ≡ s) × IsDict (book_sources s d)
  lookup-book_sources none d name h = (lookup-erase_self _ d h, erase-IsDict _ d h)
  lookup-book_sources (some s) d name h =
      (rw (← name s refl) (lookup-insert_self s.name s d), insert-IsDict s.name s d h)

  -- Where the event's own source does not read the engine stays as it was, and where the spread of the
  -- book raises it has taken only the event's own source.
  abbrev pub IsUpToDate :
      FairPriceEngine F
      → OrderBook F
      → F
      → Option (Dict String (FairPriceSource F))
      → FairPriceEngine F
      → Type 0
  IsUpToDate e b now none e' = e' ≡ e
  IsUpToDate e b now (some own) e' =
      ((spread_raises e b now ≡ true) × (e'.sources ≡ own))
      ⊎ ((spread_raises e b now ≡ false)
          × (lookup "bitbank_orderbook_mid" e'.sources ≡ source_from_orderbook e b now))

  with_own-IsUpToDate :
      (e : FairPriceEngine F) (b : OrderBook F) (now : F)
      (own : Option (Dict String (FairPriceSource F)))
      → IsDict e.sources
      → ((d : Dict String (FairPriceSource F)) → own ≡ some d → IsDict d)
      → IsUpToDate e b now own (with_own e b now own).0 × IsDict (with_own e b now own).0.sources
  with_own-IsUpToDate e b now none h k = (refl, h)
  with_own-IsUpToDate e b now (some own) h k =
      let (current, once) =
        lookup-book_sources (source_from_orderbook e b now) own
          (λ t p. source_from_orderbook_name e b now p) (k own refl) in
      elim (Bool-cases (spread_raises e b now)) [
        | inl r ↦ rw r (inl (refl, refl), k own refl)
        | inr r ↦ rw r (inr (refl, current), once)
      ]

  -- After every event the engine's source for the order book is the one that the book gives now, and
  -- is gone if the book gives none, unless reading the event's own source raised, which leaves the
  -- engine as it was, or the spread of the book, which leaves it with the event's own source; the
  -- engine keeps one source for each name.
  pub lookup-from_market_event :
      (e : FairPriceEngine F) (b : OrderBook F) (event : Event F) (now : F)
      → IsDict e.sources
      → let e' = (from_market_event e b event now).0 in
        IsUpToDate e b now (event_sources event.payload event.ts_exchange e.sources) e'
        × IsDict e'.sources
  unfolding from_market_event
  lookup-from_market_event e b event now h =
      with_own-IsUpToDate e b now (event_sources event.payload event.ts_exchange e.sources) h
        (λ d q. event_sources-IsDict event.payload event.ts_exchange e.sources h q)
