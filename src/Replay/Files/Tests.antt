-- ===== src/Replay/Files/Tests.antt =====
-- replay/engine.py on a recorded sale.
use ghost_amm.Base.{◌≡◌, refl, Bool, true, false, Option, none, some, List, [], ◌∷◌}
use ghost_amm.Base.Int.{ℤ, pos}
use ghost_amm.Num.Whole.{whole}
use ghost_amm.Events.{Event}
use ghost_amm.Jsonl.{JsonLines, IsFaithful}
use ghost_amm.Recorder.JsonlWriter.{new_writer, record_all}
use ghost_amm.Replay.Engine.{ReplayConfig, Replayed, done, failed}
use ghost_amm.Replay.Files.{InitialBalances, Report, run_events, run_files}
use ghost_amm.Replay.Files.Accounting.{IsAccount, run_files-IsAccount}
use ghost_amm.Fixtures.{sale, pipeline, outside}

abbrev settings : ReplayConfig
settings = record {
  order = "arrival_order";
  strict_sequence = true;
  allow_exchange_time_sort = false;
}

abbrev balances : InitialBalances ℤ
balances = record {
  base_qty = pipeline.inventory.base_qty;
  quote_qty = pipeline.inventory.quote_qty;
}

abbrev lines : JsonLines (Event ℤ) (Option (Event ℤ))
lines = record {
  to_json = some;
  from_json = λ l. l;
  is_blank = λ l. elim l [ none ↦ true | some e ↦ false ];
  encoded_len = λ l. 100;
}

lines-IsFaithful : IsFaithful lines
lines-IsFaithful = record { from_json-to_json = λ e. refl; not_blank = λ e. refl }

abbrev replayed : Replayed (Report ℤ)
replayed = run_events settings outside pipeline balances none none (sale ∷ [])

abbrev is_done : Replayed (Report ℤ) → Bool
is_done (done r) = true
is_done (failed e) = false

abbrev done_or : Report ℤ → Replayed (Report ℤ) → Report ℤ
done_or r (done r') = r'
done_or r (failed e) = r

-- The report of the run, which returns.
report_of_run : (r : Replayed (Report ℤ)) → is_done r ≡ true → (s : Report ℤ) × (r ≡ done s)
report_of_run (done r) h = (r, refl)
report_of_run (failed e) h = cc

sale_reported : is_done replayed ≡ true
unfolding run_events ghost_amm.Replay.Engine.run ghost_amm.Replay.Engine.order_events
    ghost_amm.Replay.Engine.is_monotonic ghost_amm.Events.to_int ghost_amm.Replay.Engine.process_all
    ghost_amm.Pipeline.process ghost_amm.Market.FairEngine.from_market_event
    ghost_amm.Market.FairPrice.from_sources ghost_amm.Market.FairPrice.median
    ghost_amm.Market.FairPrice.median_sorted ghost_amm.Market.FairPrice.sorted
    ghost_amm.Market.FairEngine.spread_raises ghost_amm.Market.FairEngine.source_from_orderbook
    ghost_amm.Pipeline.ingest_market ghost_amm.Market.OrderBook.apply_event
    ghost_amm.Pipeline.ingest_metadata ghost_amm.Market.OrderBook.best_bid
    ghost_amm.Market.OrderBook.best_ask ghost_amm.Market.OrderBook.smallest
    ghost_amm.Market.OrderBook.largest ghost_amm.Base.Int.◌-ℤ◌ ghost_amm.Base.Int.◌*ℤ◌
    ghost_amm.Base.Int.◌+ℤ◌ ghost_amm.Pipeline.take_fills ghost_amm.Replay.FillModel.on_market_event
    ghost_amm.Replay.FillModel.consume_all ghost_amm.Replay.FillModel.eligible_orders
    ghost_amm.Replay.FillModel.is_eligible ghost_amm.Replay.FillModel.insert_order
    ghost_amm.Replay.FillModel.consume ghost_amm.Replay.FillModel.eat_queue
    ghost_amm.Replay.FillModel.fill_order ghost_amm.Amm.Inventory.apply_fill
sale_reported = refl

run_files-IsAccount_example :
    (run_files lines settings outside pipeline balances none none
        (record_all lines (new_writer (some 1) none 1) (sale ∷ [])).paths
        (record_all lines (new_writer (some 1) none 1) (sale ∷ [])).files
      ≡ some (done (report_of_run replayed sale_reported).0))
    × IsAccount pipeline (report_of_run replayed sale_reported).0
run_files-IsAccount_example =
    run_files-IsAccount lines lines-IsFaithful (some 1) none 1 settings outside pipeline balances
      none none (sale ∷ []) (report_of_run replayed sale_reported).0 refl refl (tt, tt)
      (report_of_run replayed sale_reported).1
