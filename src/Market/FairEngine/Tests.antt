-- ===== src/Market/FairEngine/Tests.antt =====
-- The sources of market/fair_price.py on the book of the fixtures.
use ghost_amm.Base.{◌≡◌, ◌≢◌, refl, some, IsDict, lookup, string_eq}
use ghost_amm.Base.Int.{ℤ, pos}
use ghost_amm.Num.Whole.{whole, whole-IsOrdered, whole-IsArithmetic}
use ghost_amm.Market.FairPrice.{FairPriceState}
use ghost_amm.Market.FairEngine.{
  from_orderbook, orderbook_state, spread_raises, from_market_event, source_from_orderbook,
  event_sources,
}
use ghost_amm.Market.FairEngine.Sources.{
  IsTrusted, IsUpToDate, from_orderbook-IsTrusted, lookup-from_market_event,
}
use ghost_amm.Fixtures.{fair_engine, book, sale}

abbrev book_state : FairPriceState ℤ
book_state = orderbook_state fair_engine book (pos 2_000)

from_orderbook-IsTrusted_example :
    (bid : ℤ) × (ask : ℤ) × IsTrusted whole-IsOrdered whole-IsArithmetic fair_engine book
      (pos 2_000)
      (pos 101)
      bid
      ask
unfolding from_orderbook spread_raises source_from_orderbook ghost_amm.Market.OrderBook.best_bid
    ghost_amm.Market.OrderBook.best_ask ghost_amm.Market.OrderBook.smallest
    ghost_amm.Market.OrderBook.largest ghost_amm.Base.Int.◌-ℤ◌ ghost_amm.Base.Int.◌*ℤ◌
    ghost_amm.Base.Int.◌+ℤ◌
from_orderbook-IsTrusted_example =
    from_orderbook-IsTrusted whole-IsOrdered whole-IsArithmetic fair_engine book (pos 2_000)
      {st = book_state} refl refl refl

lookup-from_market_event_example :
    IsUpToDate fair_engine book
      (pos 2_000)
      (event_sources sale.payload sale.ts_exchange fair_engine.sources)
      (from_market_event fair_engine book sale (pos 2_000)).0
    × IsDict (from_market_event fair_engine book sale (pos 2_000)).0.sources
lookup-from_market_event_example = lookup-from_market_event fair_engine book sale (pos 2_000) tt
