-- ===== src/Replay/Engine/Tests.antt =====
-- replay/engine.py on three events of the fixtures.
use ghost_amm.Base.{◌≡◌, ◌↔◌, refl, Bool, true, false, Option, none, some, List, [], ◌∷◌}
use ghost_amm.Base.Int.{ℤ, pos}
use ghost_amm.Num.Whole.{whole, whole-IsOrdered}
use ghost_amm.Events.{Event, int}
use ghost_amm.PipelineState.{Pipeline, mark_price}
use ghost_amm.Replay.FillModel.{on_market_event}
use ghost_amm.Replay.Engine.{
  ReplayConfig, Replayed, done, failed, Output, fed, emitted, is_monotonic, sort_events,
  enrich_fair_after, run,
}
use ghost_amm.Replay.Engine.Order.{IsSorting, sort_events-IsSorting}
use ghost_amm.Replay.Engine.Run.{IsRun, run-IsRun}
use ghost_amm.Fixtures.Booked.{pipeline-IsBooked}
use ghost_amm.Fixtures.{sale, delta, fair_state, pipeline, outside}

abbrev events : List (Event ℤ)
events = delta ∷ sale ∷ record delta { sequence = int (pos 9); ts_exchange = pos 1_500 } ∷ []

sort_events-IsSorting_example : IsSorting whole-IsOrdered events (sort_events events)
sort_events-IsSorting_example = sort_events-IsSorting whole-IsOrdered events

abbrev output : List (Output ℤ)
output =
    fed sale none
    ∷ emitted (pos 2_000) (mark_price fair_state)
    ∷ emitted (pos 2_000) (mark_price (record fair_state { fair = some (pos 105) }))
    ∷ []

abbrev settings : ReplayConfig
settings = record {
  order = "arrival_order";
  strict_sequence = true;
  allow_exchange_time_sort = false;
}

abbrev replayed : Replayed (Pipeline ℤ × List (Output ℤ))
replayed = run settings outside pipeline (sale ∷ []) none none

abbrev end_of : Replayed (Pipeline ℤ × List (Output ℤ)) → Pipeline ℤ
end_of (done (p, out)) = p
end_of (failed e) = pipeline

abbrev output_of : Replayed (Pipeline ℤ × List (Output ℤ)) → List (Output ℤ)
output_of (done (p, out)) = out
output_of (failed e) = []

abbrev is_done : Replayed (Pipeline ℤ × List (Output ℤ)) → Bool
is_done (done x) = true
is_done (failed e) = false

done_of :
    (r : Replayed (Pipeline ℤ × List (Output ℤ)))
    → is_done r ≡ true
    → r ≡ done (end_of r, output_of r)
done_of (done x) h = refl
done_of (failed e) h = cc

sale_replayed : is_done replayed ≡ true
unfolding run ghost_amm.Replay.Engine.order_events is_monotonic ghost_amm.Events.to_int
    ghost_amm.Replay.Engine.process_all ghost_amm.Pipeline.process
    ghost_amm.Market.FairEngine.from_market_event ghost_amm.Market.FairPrice.from_sources
    ghost_amm.Market.FairPrice.median ghost_amm.Market.FairPrice.median_sorted
    ghost_amm.Market.FairPrice.sorted ghost_amm.Market.FairEngine.spread_raises
    ghost_amm.Market.FairEngine.source_from_orderbook ghost_amm.Pipeline.ingest_market
    ghost_amm.Market.OrderBook.apply_event ghost_amm.Pipeline.ingest_metadata
    ghost_amm.Market.OrderBook.best_bid ghost_amm.Market.OrderBook.best_ask
    ghost_amm.Market.OrderBook.smallest ghost_amm.Market.OrderBook.largest ghost_amm.Base.Int.◌-ℤ◌
    ghost_amm.Base.Int.◌*ℤ◌ ghost_amm.Base.Int.◌+ℤ◌ ghost_amm.Pipeline.take_fills on_market_event
    ghost_amm.Replay.FillModel.consume_all ghost_amm.Replay.FillModel.eligible_orders
    ghost_amm.Replay.FillModel.is_eligible ghost_amm.Replay.FillModel.insert_order
    ghost_amm.Replay.FillModel.consume ghost_amm.Replay.FillModel.eat_queue
    ghost_amm.Replay.FillModel.fill_order ghost_amm.Amm.Inventory.apply_fill
sale_replayed = refl

run-IsRun_example : IsRun settings (sale ∷ []) none none (end_of replayed) (output_of replayed)
run-IsRun_example =
    run-IsRun settings outside pipeline (end_of replayed) (sale ∷ []) none none (output_of replayed)
      pipeline-IsBooked (done_of replayed sale_replayed)
