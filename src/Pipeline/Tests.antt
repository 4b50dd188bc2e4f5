-- ===== src/Pipeline/Tests.antt =====
-- pipeline.py on the sale of the fixtures, which fills the bid.
use ghost_amm.Base.{
  ◌≡◌, refl, Bool, true, false, Option, none, some, List, [], ◌∷◌, All, IsDict, arith,
}
use ghost_amm.Base.Int.{ℤ, pos}
use ghost_amm.Num.Whole.{whole, whole-IsOrdered, whole-IsArithmetic}
use ghost_amm.PipelineState.{Pipeline, Emitted, Result, ok, raised}
use ghost_amm.Market.OrderBook.{apply_event}
use ghost_amm.Market.FairEngine.{spread_raises}
use ghost_amm.Pipeline.{process}
use ghost_amm.Pipeline.Observation.{IsBlocked, process-IsBlocked}
use ghost_amm.Pipeline.Tracking.{IsBooked}
use ghost_amm.Pipeline.Returning.{Returns, CanGoOn, process-Returns}
use ghost_amm.Pipeline.Books.{process-IsBooked}
use ghost_amm.Amm.OrderId.{order_id_eq}
use ghost_amm.Fixtures.Booked.{pipeline-IsBooked}
use ghost_amm.Fixtures.{pipeline, inventory, sale, outside}

abbrev end_of : Result (Pipeline ℤ × List (Emitted ℤ)) → Pipeline ℤ
end_of (ok (p, events)) = p
end_of (raised e) = pipeline

abbrev events_of : Result (Pipeline ℤ × List (Emitted ℤ)) → List (Emitted ℤ)
events_of (ok (p, events)) = events
events_of (raised e) = []

abbrev is_ok : Result (Pipeline ℤ × List (Emitted ℤ)) → Bool
is_ok (ok x) = true
is_ok (raised e) = false

ok_of :
    (r : Result (Pipeline ℤ × List (Emitted ℤ))) → is_ok r ≡ true → r ≡ ok (end_of r, events_of r)
ok_of (ok x) h = refl
ok_of (raised e) h = cc

sale_returns : is_ok (process outside pipeline sale) ≡ true
unfolding process ghost_amm.Market.FairEngine.from_market_event
    ghost_amm.Market.FairPrice.from_sources ghost_amm.Market.FairPrice.median
    ghost_amm.Market.FairPrice.median_sorted ghost_amm.Market.FairPrice.sorted spread_raises
    ghost_amm.Market.FairEngine.source_from_orderbook ghost_amm.Pipeline.ingest_market
    ghost_amm.Market.OrderBook.apply_event ghost_amm.Pipeline.ingest_metadata
    ghost_amm.Market.OrderBook.best_bid ghost_amm.Market.OrderBook.best_ask
    ghost_amm.Market.OrderBook.smallest ghost_amm.Market.OrderBook.largest ghost_amm.Base.Int.◌-ℤ◌
    ghost_amm.Base.Int.◌*ℤ◌ ghost_amm.Base.Int.◌+ℤ◌ ghost_amm.Pipeline.take_fills
    ghost_amm.Replay.FillModel.on_market_event ghost_amm.Replay.FillModel.consume_all
    ghost_amm.Replay.FillModel.eligible_orders ghost_amm.Replay.FillModel.is_eligible
    ghost_amm.Replay.FillModel.insert_order ghost_amm.Replay.FillModel.consume
    ghost_amm.Replay.FillModel.eat_queue ghost_amm.Replay.FillModel.fill_order
    ghost_amm.Amm.Inventory.apply_fill
sale_returns = refl

process-IsBooked_example : IsBooked (end_of (process outside pipeline sale))
process-IsBooked_example =
    process-IsBooked outside pipeline (end_of (process outside pipeline sale)) sale
      (events_of (process outside pipeline sale)) pipeline-IsBooked (ok_of _ sale_returns)

process-IsBlocked_example : All IsBlocked (events_of (process outside pipeline sale))
process-IsBlocked_example =
    process-IsBlocked outside pipeline (end_of (process outside pipeline sale)) sale
      (events_of (process outside pipeline sale)) (ok_of _ sale_returns)

abbrev overdrawn : Pipeline ℤ
overdrawn = record pipeline { inventory = record inventory { negative_balances_allowed = true } }

no_division_by_zero :
    spread_raises overdrawn.fair_engine (apply_event overdrawn.book sale) sale.ts_exchange ≡ false
unfolding spread_raises apply_event ghost_amm.Market.OrderBook.best_bid
    ghost_amm.Market.OrderBook.best_ask ghost_amm.Market.OrderBook.smallest
    ghost_amm.Market.OrderBook.largest ghost_amm.Base.Int.◌+ℤ◌ ghost_amm.Base.Int.◌-ℤ◌
no_division_by_zero = refl

process-Returns_example : Returns CanGoOn (process outside overdrawn sale)
process-Returns_example =
    process-Returns whole-IsOrdered whole-IsArithmetic outside overdrawn sale refl tt
      no_division_by_zero (record { sources = omega arith; overdraft = refl })
