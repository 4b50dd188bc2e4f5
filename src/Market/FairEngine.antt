-- ===== src/Market/FairEngine.antt =====
-- ghost_amm/market/fair_price.py: the sources of a fair price (order book, ticker, external feed), the
-- engine that keeps them, and the state from the order book alone.
use ghost_amm.Base.{
  ℕ, Bool, true, false, not, ◌&&◌, ◌||◌, Option, none, some, String, List, [], ◌∷◌, Dict, values,
  insert, erase, ◌==◌, if◌then◌else◌, string_eq,
}
use ghost_amm.Num.{Num, num_eq, ltb, leb, dec, ◌+◌, ◌-◌, ◌*◌, ◌/◌}
use ghost_amm.Events.{Field, missing, null, unreadable, number, ExternalFair, Payload, Event}
use ghost_amm.Market.OrderBook.{OrderBook, best_bid, best_ask}
use ghost_amm.Market.FairPrice.{
  FairPriceSource, FairPriceState, FairPriceEngine, invalid, from_sources,
}
pub mod Sources
pub mod Reading
mod Tests

-- The value of an option, or a default.
abbrev get_or {ℓ} : {A : Type ℓ} → Option A → A → A
get_or none d = d
get_or (some a) d = a

-- `book.stale_reason or "book_stale"`
abbrev pub stale_reason_of : Option String → String
stale_reason_of none = "book_stale"
stale_reason_of (some r) = if r == "" then "book_stale" else r

module _ {F : Type 0} ⦃n : Num F⦄ where
  abbrev is_old : FairPriceEngine F → Option F → F → Bool
  is_old e none now = false
  is_old e (some last) now = ltb e.stale_after_ms (now - last)

  -- `last_ts or now_ms`: a time of 0 counts as none.
  abbrev time_or : Option F → F → F
  time_or none now = now
  time_or (some t) now = if t == dec 0 0 then now else t

  abbrev pub spread_between : F → F → F
  spread_between bid ask = (ask - bid) / ((ask + bid) / dec 2 0) * dec 10_000 0

  abbrev divides_by_zero : FairPriceEngine F → Option F → F → Option F → Option F → Bool
  divides_by_zero e last now (some bid) (some ask) =
      not (leb ask bid) && not (is_old e last now) && (ask + bid) / dec 2 0 == dec 0 0
  divides_by_zero e last now (some bid) none = false
  divides_by_zero e last now none ask = false

  -- Whether `_source_from_orderbook` raises ZeroDivisionError on its way to the spread: the best prices
  -- sum up to zero. What is below says what it returns where it does not.
  unfoldable pub spread_raises : FairPriceEngine F → OrderBook F → F → Bool
  spread_raises e b now =
      if b.stale then false else divides_by_zero e b.last_ts now (best_bid b) (best_ask b)

  abbrev source_of_prices :
      FairPriceEngine F → Option F → F → Option F → Option F → Option (FairPriceSource F)
  source_of_prices e last now (some bid) (some ask) =
      if leb ask bid
      then none
      else if is_old e last now
      then none
      else if ltb e.max_spread_bps (spread_between bid ask)
      then none
      else some (record {
        name = "bitbank_orderbook_mid";
        fair = (bid + ask) / dec 2 0;
        ts_ms = time_or last now;
        spread_bps = some (spread_between bid ask);
        confidence = dec 1 0;
      })
  source_of_prices e last now (some bid) none = none
  source_of_prices e last now none ask = none

  unfoldable pub source_from_orderbook :
      FairPriceEngine F → OrderBook F → F → Option (FairPriceSource F)
  source_from_orderbook e b now =
      if b.stale then none else source_of_prices e b.last_ts now (best_bid b) (best_ask b)

  abbrev invalid_prices : FairPriceEngine F → Option F → F → Option F → Option F → FairPriceState F
  invalid_prices e last now none ask = invalid none "missing_bid"
  invalid_prices e last now (some bid) none = invalid none "missing_ask"
  invalid_prices e last now (some bid) (some ask) =
      if leb ask bid
      then invalid none "crossed_or_locked_book"
      else if is_old e last now
      then invalid none "stale_book_timestamp"
      else if ltb e.max_spread_bps (spread_between bid ask)
      then invalid (some (spread_between bid ask)) "spread_too_wide"
      else invalid (some (spread_between bid ask)) "invalid_orderbook"

  unfoldable pub invalid_orderbook_state : FairPriceEngine F → OrderBook F → F → FairPriceState F
  invalid_orderbook_state e b now =
      if b.stale
      then invalid none (stale_reason_of b.stale_reason)
      else invalid_prices e b.last_ts now (best_bid b) (best_ask b)

  abbrev from_source : FairPriceState F → Option (FairPriceSource F) → FairPriceState F
  from_source otherwise none = otherwise
  from_source otherwise (some s) = record {
    fair = some s.fair;
    source_count = 1;
    spread_bps = s.spread_bps;
    is_valid = true;
    reason = none;
    sources = s.name ∷ [];
    deviation_bps = some (dec 0 0);
  }

  abbrev pub orderbook_state : FairPriceEngine F → OrderBook F → F → FairPriceState F
  orderbook_state e b now =
      from_source (invalid_orderbook_state e b now) (source_from_orderbook e b now)

  unfoldable pub from_orderbook : FairPriceEngine F → OrderBook F → F → Option (FairPriceState F)
  from_orderbook e b now = if spread_raises e b now then none else some (orderbook_state e b now)

  -- `float(x)` where x is not None: the outer `none` where it raises.
  abbrev pub float_if_any : Field F → Option (Option F)
  float_if_any missing = some none
  float_if_any null = some none
  float_if_any unreadable = none
  float_if_any (number x) = some (some x)

  abbrev last_of_ticker : F → F → Option (FairPriceSource F)
  last_of_ticker ts last =
      if ltb (dec 0 0) last
      then some (record {
        name = "bitbank_ticker_last";
        fair = last;
        ts_ms = ts;
        spread_bps = none;
        confidence = dec 5 1;
      })
      else none

  abbrev pub last_source : F → Option (Option F) → Option (Option (FairPriceSource F))
  last_source ts none = none
  last_source ts (some none) = some none
  last_source ts (some (some last)) = some (last_of_ticker ts last)

  abbrev pub mid_source :
      F → Option (Option F) → Option (Option F) → Field F → Option (Option (FairPriceSource F))
  mid_source ts (some (some bid)) (some (some ask)) last =
      let middle = (bid + ask) / dec 2 0 in
      if ltb (dec 0 0) bid && ltb (dec 0 0) ask && ltb bid ask
      then some (
          some (record {
            name = "bitbank_ticker_mid";
            fair = middle;
            ts_ms = ts;
            spread_bps = some ((ask - bid) / middle * dec 10_000 0);
            confidence = dec 1 0;
          }))
      else last_source ts (float_if_any last)
  mid_source ts _ _ last = none

  abbrev is_none : Field F → Bool
  is_none missing = true
  is_none null = true
  is_none unreadable = false
  is_none (number x) = false

  -- `none` where a value makes `float` raise; buy and sell are read only if both are there.
  unfoldable pub source_from_ticker :
      F → Field F → Field F → Field F → Option (Option (FairPriceSource F))
  source_from_ticker ts buy sell last =
      if is_none buy || is_none sell
      then last_source ts (float_if_any last)
      else mid_source ts (float_if_any buy) (float_if_any sell) last

  unfoldable pub positive_payload_float : Field F → Option F
  positive_payload_float (number x) = if ltb (dec 0 0) x then some x else none
  positive_payload_float _ = none

  -- `payload.get(key, payload.get(other))`
  abbrev get_or_get : Field F → Field F → Field F
  get_or_get missing other = other
  get_or_get null other = null
  get_or_get unreadable other = unreadable
  get_or_get (number x) other = number x

  abbrev or_product : Option F → Option F → Option F
  or_product none product = product
  or_product (some direct) product = some direct

  abbrev product_if_positive : Option F → Option F → Option F
  product_if_positive (some a) (some b) = if ltb (dec 0 0) (a * b) then some (a * b) else none
  product_if_positive (some a) none = none
  product_if_positive none b = none

  unfoldable pub external_fair_jpy : ExternalFair F → Option F
  unfolding positive_payload_float
  external_fair_jpy x = or_product (positive_payload_float (get_or_get x.fair_jpy x.fair)) (
      product_if_positive (positive_payload_float (get_or_get x.btc_usd x.btc_price))
        (positive_payload_float (get_or_get x.usd_jpy x.fx_rate_jpy)))

  -- `float(payload.get(key, default))`, `none` where it raises.
  abbrev pub float_or : F → Field F → Option F
  float_or default missing = some default
  float_or default null = none
  float_or default unreadable = none
  float_or default (number x) = some x

  abbrev external_of :
      ExternalFair F
      → F
      → Option F
      → Option (Option F)
      → Option F
      → Option (Option (FairPriceSource F))
  external_of x fair (some ts) (some spread) (some confidence) = some (
      some (record {
        name = get_or x.source "external_btc_usd_jpy";
        fair = fair;
        ts_ms = ts;
        spread_bps = spread;
        confidence = confidence;
      }))
  external_of x fair _ _ _ = none

  abbrev pub external_source : ExternalFair F → F → Option F → Option (Option (FairPriceSource F))
  external_source x ts none = some none
  external_source x ts (some fair) =
      external_of x fair (float_or ts x.ts_ms) (float_if_any x.spread_bps)
        (float_or (dec 8 1) x.confidence)

  -- `none` where a value makes `float` raise.
  unfoldable pub source_from_external_fair :
      ExternalFair F → F → Option (Option (FairPriceSource F))
  source_from_external_fair x ts = external_source x ts (external_fair_jpy x)

  abbrev add_source :
      Option (FairPriceSource F) → Dict String (FairPriceSource F) → Dict String (FairPriceSource F)
  add_source none d = d
  add_source (some s) d = insert s.name s d

  abbrev pub add_read :
      Option (Option (FairPriceSource F))
      → Dict String (FairPriceSource F)
      → Option (Dict String (FairPriceSource F))
  add_read none d = none
  add_read (some s) d = some (add_source s d)

  -- `self.sources` after the event's own source, `none` where reading it raises.
  abbrev pub event_sources :
      Payload F → F → Dict String (FairPriceSource F) → Option (Dict String (FairPriceSource F))
  event_sources (Payload.bitbank_ticker buy sell last) ts d =
      add_read (source_from_ticker ts buy sell last) d
  event_sources (Payload.external_fair_price x) ts d = add_read (source_from_external_fair x ts) d
  event_sources _ ts d = some d

  abbrev book_sources :
      Option (FairPriceSource F) → Dict String (FairPriceSource F) → Dict String (FairPriceSource F)
  book_sources none d = erase "bitbank_orderbook_mid" d
  book_sources (some s) d = insert s.name s d

  -- `from_market_event` behind the event's own source.
  abbrev pub with_own :
      FairPriceEngine F
      → OrderBook F
      → F
      → Option (Dict String (FairPriceSource F))
      → FairPriceEngine F × Option (FairPriceState F)
  with_own e b now none = (e, none)
  with_own e b now (some own) =
      let sources = book_sources (source_from_orderbook e b now) own in
      if spread_raises e b now
      then (record e { sources = own }, none)
      else (record e { sources = sources }, from_sources e (values sources) now)

  -- The engine after the event, with its state unless an exception was raised on the way: reading the
  -- event's own source comes before any change of the engine, the spread of the book before the change
  -- of the book's source, and `from_sources` behind all of them.
  unfoldable pub from_market_event :
      FairPriceEngine F → OrderBook F → Event F → F → FairPriceEngine F × Option (FairPriceState F)
  from_market_event e b event now =
      with_own e b now (event_sources event.payload event.ts_exchange e.sources)
