-- ===== src/Config/Defaults.antt =====
-- `DEFAULT_CONFIG` of ghost_amm/config.py, a definition for each section.
use ghost_amm.Base.{true, false, [], ◌∷◌}
use ghost_amm.Base.Int.{pos}
use ghost_amm.Num.{Num, dec}
use ghost_amm.Config.{bool, int, float, text, items, mapping, Entries, entries, value_list}

module _ {F : Type 0} ⦃n : Num F⦄ where
  abbrev replay_defaults : Entries F
  replay_defaults = entries (
      ("order", text "arrival_order")
      ∷ ("strict_sequence", bool true)
      ∷ ("allow_exchange_time_sort", bool false)
      ∷ [])

  abbrev bitbank_defaults : Entries F
  bitbank_defaults = entries (
      ("public_ws_url", text "wss://stream.bitbank.cc/socket.io/?EIO=4&transport=websocket")
      ∷ ("public_rest_url", text "https://public.bitbank.cc")
      ∷ ("private_rest_url", text "https://api.bitbank.cc/v1")
      ∷ ("pair", text "btc_jpy")
      ∷ (
        "channels",
        items (
            value_list (
              text "ticker_btc_jpy"
              ∷ text "transactions_btc_jpy"
              ∷ text "depth_whole_btc_jpy"
              ∷ text "depth_diff_btc_jpy"
              ∷ [])),
      )
      ∷ ("require_status_normal", bool true)
      ∷ ("require_post_only", bool true)
      ∷ ("sequence_policy", text "monotonic_not_consecutive")
      ∷ ("block_on_crossed_book", bool true)
      ∷ ("clock_drift_limit_ms", int (pos 1000))
      ∷ [])

  abbrev ccxt_defaults : Entries F
  ccxt_defaults = entries (
      ("enabled", bool true)
      ∷ ("exchange_id", text "bitbank")
      ∷ ("public_rest_only_in_mvp", bool true)
      ∷ ("allow_private_calls", bool false)
      ∷ ("allow_order_submission", bool false)
      ∷ ("forbid_withdrawal_methods", bool true)
      ∷ [])

  abbrev execution_defaults : Entries F
  execution_defaults = entries (
      ("mode", text "replay")
      ∷ ("venue", text "bitbank")
      ∷ ("enable_live_orders", bool false)
      ∷ ("post_only_only", bool true)
      ∷ ("unmanaged_open_orders_present", bool false)
      ∷ ("confirm_api_key_no_withdrawal_permission", bool false)
      ∷ ("positive_quality_gate_passed", bool false)
      ∷ ("live_env_var_name", text "GHOST_AMM_ENABLE_LIVE")
      ∷ ("live_env_var_value", text "I_ACCEPT_RISK")
      ∷ ("max_active_orders_per_pair", int (pos 20))
      ∷ ("quote_ttl_ms", int (pos 3000))
      ∷ ("min_quote_replace_interval_ms", int (pos 0))
      ∷ ("quote_replace_threshold_bps", int (pos 0))
      ∷ ("size_replace_threshold_ratio", int (pos 0))
      ∷ [])

  abbrev market_defaults : Entries F
  market_defaults = entries (
      ("stale_after_ms", int (pos 3000))
      ∷ ("max_spread_bps", int (pos 50))
      ∷ ("min_depth_20bps_jpy", int (pos 5000000))
      ∷ ("reject_circuit_break_book", bool true)
      ∷ [])

  abbrev fair_defaults : Entries F
  fair_defaults = entries (
      ("min_source_count", int (pos 1))
      ∷ ("max_source_age_ms", int (pos 3000))
      ∷ ("max_source_deviation_bps", int (pos 80))
      ∷ ("use_median", bool true)
      ∷ [])

  abbrev inventory_defaults : Entries F
  inventory_defaults = entries (
      ("initial_base_qty", float (dec 1 2))
      ∷ ("initial_quote_qty", int (pos 150000))
      ∷ ("target_base_ratio", float (dec 5 1))
      ∷ ("max_abs_skew", float (dec 35 2))
      ∷ ("negative_balances_allowed", bool false)
      ∷ [])

  abbrev amm_defaults : Entries F
  amm_defaults = entries (
      ("levels", int (pos 6))
      ∷ ("base_order_size", float (dec 1 3))
      ∷ ("half_spread_bps", int (pos 8))
      ∷ ("step_bps", int (pos 10))
      ∷ ("skew_strength_bps", int (pos 80))
      ∷ ("size_skew_strength", float (dec 30 1))
      ∷ ("min_order_size_fallback", float (dec 1 4))
      ∷ ("max_order_size", float (dec 2 3))
      ∷ ("tick_size_fallback_jpy", int (pos 1))
      ∷ ("lot_size_fallback_btc", float (dec 1 4))
      ∷ ("use_bitbank_pair_spec_rounding", bool true)
      ∷ [])

  abbrev shock_defaults : Entries F
  shock_defaults = entries (
      ("forced_flow_window_ms", int (pos 5000))
      ∷ ("depth_bps", int (pos 20))
      ∷ ("threshold", float (dec 10 1))
      ∷ ("temperature", float (dec 15 1))
      ∷ ("minimum_wait_after_shock_ms", int (pos 2000))
      ∷ ("activation_decay_ms", int (pos 30000))
      ∷ ("min_activation_to_quote", float (dec 15 2))
      ∷ ("opposite_side_activation_ratio", float (dec 0 1))
      ∷ [])

  abbrev fill_model_defaults : Entries F
  fill_model_defaults = entries (
      ("queue_ahead_multiplier", float (dec 15 1))
      ∷ ("maker_fee_bps_fallback", int (pos 0))
      ∷ ("taker_fee_bps_fallback", int (pos 10))
      ∷ ("latency_ms", int (pos 150))
      ∷ ("cancel_latency_ms", int (pos 150))
      ∷ ("min_resting_time_ms", int (pos 500))
      ∷ [])

  abbrev fee_defaults : Entries F
  fee_defaults = entries (
      ("maker_fee_source", text "bitbank_pair_spec")
      ∷ ("negative_maker_fee_policy", text "clamp_to_zero")
      ∷ [])

  abbrev risk_defaults : Entries F
  risk_defaults = entries (
      ("max_drawdown_pct", int (pos 5))
      ∷ ("max_daily_loss_pct", int (pos 3))
      ∷ ("max_virtual_fills_per_minute", int (pos 20))
      ∷ ("max_same_side_fills_per_window", int (pos 3))
      ∷ ("fill_burst_window_ms", int (pos 10000))
      ∷ ("fill_burst_cooldown_ms", int (pos 60000))
      ∷ ("max_base_qty", int (pos 0))
      ∷ ("max_quote_usage_jpy", int (pos 0))
      ∷ ("max_inventory_notional_jpy", int (pos 0))
      ∷ ("max_one_side_inventory_change_jpy_per_minute", int (pos 0))
      ∷ ("max_fair_drop_bps_1s_for_bid", int (pos 0))
      ∷ ("max_fair_rise_bps_1s_for_ask", int (pos 0))
      ∷ ("max_fair_drop_bps_5s_for_bid", int (pos 0))
      ∷ ("max_fair_rise_bps_5s_for_ask", int (pos 0))
      ∷ ("max_last_trade_fair_deviation_bps", int (pos 0))
      ∷ ("last_trade_fair_deviation_max_age_ms", int (pos 3000))
      ∷ ("block_on_sequence_ordering_violation", bool true)
      ∷ ("block_on_bitbank_status_not_normal", bool true)
      ∷ ("block_on_pair_stop_flags", bool true)
      ∷ ("block_on_unfetched_pair_spec", bool true)
      ∷ [])

  abbrev pub default_config : Entries F
  default_config = entries (
      ("symbol", text "BTC/JPY")
      ∷ ("venue", text "synthetic_bitbank")
      ∷ ("market_type", text "spot")
      ∷ ("pair", text "btc_jpy")
      ∷ ("replay", mapping replay_defaults)
      ∷ ("bitbank", mapping bitbank_defaults)
      ∷ ("ccxt", mapping ccxt_defaults)
      ∷ ("execution", mapping execution_defaults)
      ∷ ("market", mapping market_defaults)
      ∷ ("fair", mapping fair_defaults)
      ∷ ("inventory", mapping inventory_defaults)
      ∷ ("amm", mapping amm_defaults)
      ∷ ("shock", mapping shock_defaults)
      ∷ ("fill_model", mapping fill_model_defaults)
      ∷ ("fee", mapping fee_defaults)
      ∷ ("risk", mapping risk_defaults)
      ∷ [])
