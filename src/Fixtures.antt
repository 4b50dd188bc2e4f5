-- ===== src/Fixtures.antt =====
-- A concrete market and its settings, in whole numbers, on which the tests run.
use ghost_amm.Base.{
  ℕ, Bool, true, false, Option, none, some, String, List, [], ◌∷◌, ◌==◌, if◌then◌else◌, string_eq,
}
use ghost_amm.Base.Int.{ℤ, pos, negsuc, int_eq}
use ghost_amm.Num.Whole.{whole}
use ghost_amm.Exchange.BitbankRules.{Side, buy, sell, BitbankPairSpec, BitbankStatus}
use ghost_amm.Events.{Event, Payload, Sequence, absent, int}
use ghost_amm.Market.OrderBook.{OrderBook}
use ghost_amm.Market.FairPrice.{FairPriceSource, FairPriceState, FairPriceEngine}
use ghost_amm.Market.Shock.{Direction, neutral, sell_shock, ShockState, ShockActivator, ForcedFlow}
use ghost_amm.Amm.Inventory.{InventoryState}
use ghost_amm.Amm.QuoteSurface.{Quote, AmmConfig, QuoteSurface, QuoteInput}
use ghost_amm.Amm.OrderId.{OrderId}
use ghost_amm.Amm.Projector.{OrderProjector, ActiveVirtualOrder}
use ghost_amm.Risk.Kernel.{RiskConfig, RiskDecision, RiskKernel}
use ghost_amm.Replay.FillModel.{FillModel, TrackedOrder}
use ghost_amm.Execution.LiveGates.{ExecutionConfig, OrderIntent}
use ghost_amm.PipelineState.{PipelineConfig, Pipeline, Outside}
pub mod Booked

abbrev pub book : OrderBook ℤ
book = record {
  venue = "bitbank";
  symbol = "BTC/JPY";
  bids = (pos 99, pos 4) ∷ (pos 100, pos 2) ∷ [];
  asks = (pos 104, pos 3) ∷ (pos 102, pos 5) ∷ [];
  last_sequence = some (pos 7);
  last_ts = some (pos 1_000);
  stale = false;
  stale_reason = none;
}

abbrev pub event_of : Sequence → Payload ℤ → Event ℤ
event_of sequence payload = record {
  ts_exchange = pos 2_000;
  ts_local = pos 2_000;
  venue = "bitbank";
  symbol = "BTC/JPY";
  sequence = sequence;
  payload = payload;
}

-- Someone sells into the bids.
abbrev pub sale : Event ℤ
sale = event_of absent (Payload.trade (pos 99) (pos 6) sell)

abbrev pub delta : Event ℤ
delta =
    event_of (int (pos 8))
      (Payload.order_book_delta ((pos 100, pos 0) ∷ []) ((pos 103, pos 1) ∷ []))

abbrev pub pair_spec : BitbankPairSpec ℤ
pair_spec = record {
  name = "btc_jpy";
  base_asset = "btc";
  quote_asset = "jpy";
  unit_amount = pos 1;
  limit_max_amount = pos 1_000;
  price_digits = pos 0;
  amount_digits = pos 0;
  maker_fee_rate_base = pos 0;
  maker_fee_rate_quote = pos 0;
  taker_fee_rate_base = pos 0;
  taker_fee_rate_quote = pos 0;
  is_enabled = true;
  stop_order = false;
  stop_order_and_cancel = false;
  stop_buy_order = false;
  stop_sell_order = false;
}

abbrev pub status : BitbankStatus ℤ
status = record { pair = "btc_jpy"; status = "NORMAL"; min_amount = pos 1 }

abbrev pub source_of : String → ℤ → FairPriceSource ℤ
source_of name fair = record {
  name = name;
  fair = fair;
  ts_ms = pos 1_900;
  spread_bps = none;
  confidence = pos 1;
}

abbrev pub fair_engine : FairPriceEngine ℤ
fair_engine = record {
  max_spread_bps = pos 500;
  stale_after_ms = pos 2_000;
  min_source_count = 1;
  max_source_age_ms = pos 500;
  max_source_deviation_bps = pos 1_000;
  use_median = true;
  sources = [];
}

abbrev pub fair_state : FairPriceState ℤ
fair_state = record {
  fair = some (pos 101);
  source_count = 1;
  spread_bps = none;
  is_valid = true;
  reason = none;
  sources = "bitbank_orderbook_mid" ∷ [];
  deviation_bps = none;
}

abbrev pub shock : ShockActivator ℤ
shock = record {
  window_ms = pos 1_000;
  depth_bps = pos 500;
  threshold = pos 0;
  temperature = pos 1;
  minimum_wait_after_shock_ms = pos 0;
  activation_decay_ms = pos 1_000;
  opposite_side_activation_ratio = pos 0;
  trades = [];
  last_shock_ts = none;
  last_shock_event_id = none;
  last_shock_direction = neutral;
}

abbrev pub shock_state : ShockState ℤ
shock_state = record {
  activation = pos 1;
  force_ratio = pos 1;
  recent_taker_buy_notional = pos 0;
  recent_taker_sell_notional = pos 594;
  depth_20bps = pos 594;
  last_shock_ts = some (pos 2_000);
  reason = none;
  direction = sell_shock;
  bid_activation = pos 1;
  ask_activation = pos 1;
  last_shock_event_id = some "event";
  shock_age_ms = some (pos 0);
}

abbrev pub inventory : InventoryState ℤ
inventory = record {
  base_qty = pos 10;
  quote_qty = pos 5_000;
  target_base_ratio = pos 0;
  negative_balances_allowed = false;
}

abbrev pub amm_config : AmmConfig ℤ
amm_config = record {
  levels = 2;
  base_order_size = pos 3;
  half_spread_bps = pos 200;
  step_bps = pos 100;
  skew_strength_bps = pos 0;
  size_skew_strength = pos 0;
  min_order_size_fallback = pos 1;
  max_order_size = pos 4;
  tick_size_fallback_jpy = pos 1;
  lot_size_fallback_btc = pos 1;
}

abbrev pub surface : QuoteSurface ℤ
surface = record {
  levels = 2;
  base_order_size = pos 3;
  half_spread_bps = pos 200;
  step_bps = pos 100;
  skew_strength_bps = pos 0;
  size_skew_strength = pos 0;
  min_order_size = pos 1;
  max_order_size = pos 4;
  tick_size = pos 1;
  lot_size = pos 1;
}

abbrev pub quote_input : QuoteInput ℤ
quote_input = record {
  fair = pos 101;
  inventory_skew = pos 0;
  bid_activation = pos 1;
  ask_activation = pos 1;
  shock_event_id = none;
  shock_direction = neutral;
  shock_age_ms = none;
}

abbrev pub quote_at : Side → ℤ → ℕ → Quote ℤ
quote_at side price level = record {
  side = side;
  price = price;
  size = pos 3;
  level = level;
  activation = pos 1;
  inventory_skew = pos 0;
  fair = pos 101;
  shock_event_id = none;
  shock_direction = neutral;
  shock_age_ms = none;
}

abbrev pub order_at : Side → ℤ → ℕ → ℕ → ActiveVirtualOrder ℤ
order_at side price level number = record {
  order_id = record { at = pos 1_000; number = number };
  side = side;
  price = price;
  size = pos 3;
  level = level;
  created_at = pos 1_000;
  expires_at = pos 4_000;
  activation = pos 1;
  inventory_skew = pos 0;
  fair_price_at_creation = pos 101;
  shock_event_id = none;
  shock_direction = neutral;
  shock_age_ms = none;
}

-- A bid that the sale reaches and an ask, under the numbers 1 and 2.
abbrev pub projector : OrderProjector ℤ
projector = record {
  max_active_orders = 2;
  ttl_ms = pos 3_000;
  min_replace_interval_ms = pos 0;
  replace_threshold_bps = pos 0;
  size_replace_threshold_ratio = pos 0;
  active =
      (record { side = buy; level = 0 }, order_at buy (pos 100) 0 1)
      ∷ (record { side = sell; level = 0 }, order_at sell (pos 103) 0 2)
      ∷ [];
  counter = 2;
}

abbrev pub tracked_at : Side → ℤ → ℕ → TrackedOrder ℤ
tracked_at side price number = record {
  order_id = record { at = pos 1_000; number = number };
  side = side;
  price = price;
  remaining_size = pos 3;
  created_at = pos 1_000;
  queue_ahead = pos 2;
  fair_at_creation = pos 101;
  activation = pos 1;
  shock_event_id = none;
  shock_direction = neutral;
  shock_age_ms = none;
}

abbrev pub fill_model : FillModel ℤ
fill_model = record {
  queue_ahead_multiplier = pos 1;
  maker_fee_bps = pos 0;
  min_resting_time_ms = pos 500;
  orders =
      (record { at = pos 1_000; number = 1 }, tracked_at buy (pos 100) 1)
      ∷ (record { at = pos 1_000; number = 2 }, tracked_at sell (pos 103) 2)
      ∷ [];
  counter = 0;
}

abbrev pub risk_config : RiskConfig ℤ
risk_config = record {
  max_order_size = pos 4;
  max_spread_bps = pos 500;
  min_depth_20bps_jpy = pos 0;
  min_activation_to_quote = pos 1;
  max_abs_skew = pos 10;
  block_on_unfetched_pair_spec = true;
  block_on_bitbank_status_not_normal = true;
  block_on_pair_stop_flags = true;
  block_on_sequence_ordering_violation = true;
  max_same_side_fills_per_window = 1;
  fill_burst_window_ms = pos 1_000;
  fill_burst_cooldown_ms = pos 5_000;
  max_fair_drop_bps_1s_for_bid = pos 100;
  max_fair_rise_bps_1s_for_ask = pos 100;
  max_fair_drop_bps_5s_for_bid = pos 100;
  max_fair_rise_bps_5s_for_ask = pos 100;
  max_last_trade_fair_deviation_bps = pos 500;
  last_trade_fair_deviation_max_age_ms = pos 1_000;
  negative_balances_allowed = false;
  max_base_qty = pos 100;
  max_quote_usage_jpy = pos 5_000;
  initial_quote_qty = some (pos 5_000);
  max_inventory_notional_jpy = pos 100_000;
  max_one_side_inventory_change_jpy_per_minute = pos 5_000;
}

abbrev pub risk : RiskKernel ℤ
risk = record {
  config = risk_config;
  fair_history = [];
  fill_history = [];
  inventory_change_history = [];
  fill_burst_cooldown_until = record { on_buy = none; on_sell = none };
  last_trade = none;
}

abbrev pub decision : RiskDecision ℤ
decision = record {
  allow_quote = true;
  allow_buy = true;
  allow_sell = true;
  max_order_size = pos 4;
  reason = none;
  blocked_sides = [];
  cooldown_until_ms = none;
  side_block_reasons = record { on_buy = none; on_sell = none };
}

abbrev pub execution : ExecutionConfig ℤ
execution = record {
  mode = "live";
  venue = "bitbank";
  enable_live_orders = true;
  live_env_var_name = "LIVE";
  live_env_var_value = "YES";
  post_only_only = true;
  unmanaged_open_orders_present = false;
  confirm_api_key_no_withdrawal_permission = true;
  positive_quality_gate_passed = true;
  clock_drift_limit_ms = pos 1_000;
}

abbrev pub intent : OrderIntent ℤ
intent = record {
  venue = "bitbank";
  pair = "btc_jpy";
  symbol = "BTC/JPY";
  side = buy;
  price = pos 100;
  amount = pos 3;
  order_type = "limit";
  post_only = true;
  client_order_id = none;
}

abbrev pub pipeline : Pipeline ℤ
pipeline = record {
  config = record {
    amm = amm_config;
    execution = execution;
    pair = "btc_jpy";
    symbol = "BTC/JPY";
    maker_fee_source = "bitbank_pair_spec";
    negative_maker_fee_policy = "clamp_to_zero";
  };
  inventory = inventory;
  book = book;
  fair_engine = fair_engine;
  risk = risk;
  shock = shock;
  projector = projector;
  fill_model = fill_model;
  pair_spec = some pair_spec;
  status = some status;
  last_fair = fair_state;
  last_shock = shock_state;
  last_risk = decision;
}

abbrev pub outside : Outside ℤ
outside = record {
  event_id = λ f. "event";
  env = λ name. if name == "LIVE" then some "YES" else some "key";
  read_report = λ name payload. none;
}
