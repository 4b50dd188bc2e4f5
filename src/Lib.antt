-- ===== src/Lib.antt =====
-- ghost_amm: a virtual market maker that quotes around a fair price, replays or observes market events
-- and never submits a live order. This library models its core and proves what the parts promise.
--
-- The parts and how they interact. An event goes through `process` of ghost_amm/pipeline.py: it updates the
-- order book, the sources of the fair price and the shock activation; the fill model fills virtual orders
-- by the trades; the risk kernel decides which sides may be quoted; the quote surface makes a ladder of
-- quotes; the projector turns it into virtual orders, whose events go back to the fill model and to the
-- gates for live orders, which are observed only. The replay engine feeds recorded events in order and
-- sums the output up. The recorder writes events to files that rotate; recordings are inspected, watched
-- and split, and the quality gate judges the reports. The configuration is a merge into the defaults.
--
-- Files and sources, under src/ghost_amm/ of the repository:
-- - Exchange/BitbankRules: exchange/bitbank_rules.py (tick, lot, rounding, validate_order, the status)
-- - Events: the events of events.py, by what the components read of them
-- - Market/OrderBook: market/orderbook.py (apply_event, best prices, mid, spread, depth, queue_at)
-- - Market/FairPrice, Market/FairEngine: market/fair_price.py (from_sources; from_market_event,
--   from_orderbook and the sources)
-- - Market/Shock: market/shock.py (update)
-- - Amm/Inventory, Amm/QuoteSurface: amm/inventory.py, amm/quote_surface.py
-- - Amm/OrderId, Amm/Projector: amm/projector.py (ids and keys; sync, cancel_all, remove_filled)
-- - Risk/Kernel, Risk/Checks, Risk/Evaluate: risk/kernel.py (recording, the checks, evaluate)
-- - Replay/FillModel: replay/fill_model.py; Replay/Engine: replay/engine.py (run, enrich_fair_after)
-- - Replay/Files: replay/engine.py (run_files, without the files it writes)
-- - Execution/LiveGates: execution/live_gates.py and execution/order_state.py; LiveGates/Settings reads
--   the settings of the gates from the configuration
-- - Config, Config/Defaults: config.py (deep_merge, get, section; DEFAULT_CONFIG)
-- - Jsonl: events.py (read_jsonl, write_jsonl)
-- - Recorder/JsonlWriter: recorder/jsonl_writer.py; Recorder/Split: recorder/split.py
-- - Recorder/Inspection, Recorder/Status: recorder/inspection.py, recorder/status.py
-- - Analytics/Metrics: analytics/metrics.py (the fills; Drawdown, Churn and Summary below it)
-- - Analytics/QualityGate: analytics/quality_gate.py (evaluate_quality_gate)
-- - PipelineState, Pipeline: pipeline.py (the state and what is emitted; process)
-- - Base, Num: shared names, dicts as association lists, integers, the interface of numbers
-- - Fixtures: a concrete market for the tests
--
-- Numbers. A float is an element of any type with the operations of the record Num; what a theorem needs
-- of their order and arithmetic are the laws IsOrdered and IsArithmetic, which it takes as arguments. They
-- speak of numbers that are not NaN, with 0.0 and -0.0 one number, and Num/Whole gives whole numbers that
-- meet them. The sum of a list is an operation of its own. The OverflowError of math.exp, or of
-- rounding an infinity, is not modelled. That float refuses a value, and that a spread is divided by zero, is modelled in the sources of
-- the fair price; other payloads hold numbers. Sequence numbers and counters are integers and native numbers.
--
-- State and errors. An operation takes the state and returns the new one. An exception is a value: an
-- Option for from_sources, the status of a recording and the gate, FillError, PipelineError, ReplayError
-- and SplitError elsewhere. A file is the lines it holds, by its index. Loops are recursion on the
-- list that the code goes through, so no fuel is needed; the digits of a number take the number itself as
-- fuel, since each round takes a digit off.
--
-- From outside: the digest that names a forced-flow event and os.environ are parameters (Outside), as are
-- the digest that names moved metadata, Python's str of a setting and the JSON of an event (JsonLines,
-- whose law IsFaithful says that a line reads back as its event and is not blank). Settings are records
-- with the defaults filled in, except where Config is named; a payload is its event's constructor with the
-- numbers parsed. An event of another type carries its payload as JSON, and Outside says how this reads
-- where the type is one that a pipeline emits: the output of an earlier run may be replayed.
--
-- Not modelled: the envelopes and hashes of emitted events, the JSON of a value, the YAML parsers, the
-- command line, the recorder of public streams with its normaliser and mock, report files, sweeps and risk
-- diagnostics, the dry run, and the clients of exchanges.
pub mod Base
pub mod Num
pub mod Exchange
pub mod Events
pub mod Jsonl
pub mod Config
pub mod Market
pub mod Amm
pub mod Risk
pub mod Replay
pub mod Execution
pub mod PipelineState
pub mod Pipeline
pub mod Analytics
pub mod Recorder
pub mod Fixtures
