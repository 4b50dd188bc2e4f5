-- ===== src/Execution/LiveGates.antt =====
-- ghost_amm/execution/live_gates.py and order_state.py: the gates before a live order.
use ghost_amm.Base.{
  Bool, true, false, not, ◌&&◌, ◌||◌, Option, none, some, String, ◌==◌, if◌then◌else◌, string_eq,
}
use ghost_amm.Num.{Num, ltb, leb, abs}
use ghost_amm.Exchange.BitbankRules.{
  Side, is_buy, is_sell, BitbankPairSpec, BitbankStatus, is_normal, validate_order,
}
use ghost_amm.Amm.OrderId.{OrderId}
use ghost_amm.Market.OrderBook.{OrderBook, best_bid, best_ask}
use ghost_amm.Risk.Kernel.{RiskDecision}
pub mod Soundness
pub mod Settings
mod Tests

pub record OrderIntent (F : Type 0) : Type 0 where
  pub venue : String
  pub pair : String
  pub symbol : String
  pub side : Side
  pub price : F
  pub amount : F
  pub order_type : String
  pub post_only : Bool
  pub client_order_id : Option OrderId

-- The settings that the gates read, their defaults filled in.
pub record ExecutionConfig (F : Type 0) : Type 0 where
  pub mode : String
  pub venue : String
  pub enable_live_orders : Bool
  pub live_env_var_name : String
  pub live_env_var_value : String
  pub post_only_only : Bool
  pub unmanaged_open_orders_present : Bool
  pub confirm_api_key_no_withdrawal_permission : Bool
  pub positive_quality_gate_passed : Bool
  pub clock_drift_limit_ms : F

pub record LiveGateResult : Type 0 where
  pub allowed : Bool
  pub reason : Option String

pub record GateInput (F : Type 0) : Type 0 where
  pub config : ExecutionConfig F
  pub intent : OrderIntent F
  pub pair_spec : Option (BitbankPairSpec F)
  pub status : Option (BitbankStatus F)
  pub book : Option (OrderBook F)
  pub risk : RiskDecision F
  pub clock_drift_ms : F
  -- `env.get`
  pub env : String → Option String

abbrev refused : String → LiveGateResult
refused reason = record { allowed = false; reason = some reason }

-- `not env.get(name)`: missing or empty.
abbrev is_blank : Option String → Bool
is_blank none = true
is_blank (some s) = s == ""

abbrev differs : Option String → String → Bool
differs none value = true
differs (some s) value = not (s == value)

abbrev of_validation : Option String → LiveGateResult
of_validation none = record { allowed = true; reason = none }
of_validation (some reason) = refused reason

module _ {F : Type 0} ⦃n : Num F⦄ where
  abbrev status_is_bad : Option (BitbankStatus F) → Bool
  status_is_bad none = true
  status_is_bad (some s) = not (is_normal s)

  abbrev reaches : F → Option F → Bool
  reaches price none = false
  reaches price (some ask) = leb ask price

  abbrev sinks_to : F → Option F → Bool
  sinks_to price none = false
  sinks_to price (some bid) = leb price bid

  unfoldable pub would_cross : OrderIntent F → Option (OrderBook F) → Bool
  would_cross i none = false
  would_cross i (some b) =
      is_buy i.side && reaches i.price (best_ask b)
      || is_sell i.side && sinks_to i.price (best_bid b)

  -- The gates that look at the pair's metadata, from `intent.pair != "btc_jpy"` on.
  unfoldable pub order_gates : GateInput F → BitbankPairSpec F → LiveGateResult
  order_gates g spec =
      let i = g.intent in
      if not (i.pair == "btc_jpy") || not (spec.name == "btc_jpy")
      then refused "mvp_pair_must_be_btc_jpy"
      else if not spec.is_enabled
      then refused "pair_disabled"
      else if spec.stop_order || spec.stop_order_and_cancel
      then refused "pair_order_stopped"
      else if is_buy i.side && spec.stop_buy_order
      then refused "buy_stopped"
      else if is_sell i.side && spec.stop_sell_order
      then refused "sell_stopped"
      else if ltb g.config.clock_drift_limit_ms (abs g.clock_drift_ms)
      then refused "clock_drift_too_high"
      else if not g.risk.allow_quote
          || is_buy i.side && not g.risk.allow_buy
          || is_sell i.side && not g.risk.allow_sell
      then refused "risk_kernel_blocked"
      else if not (i.order_type == "limit") || not i.post_only
      then refused "order_must_be_post_only_limit"
      else if would_cross i g.book
      then refused "post_only_order_would_cross"
      else of_validation (validate_order spec i.side i.price i.amount)

  abbrev spec_gates : GateInput F → Option (BitbankPairSpec F) → LiveGateResult
  spec_gates g none = refused "pair_metadata_unfetched"
  spec_gates g (some spec) =
      if status_is_bad g.status
      then refused "bitbank_status_not_normal"
      else if not g.config.post_only_only
      then refused "post_only_only_false"
      else if g.config.unmanaged_open_orders_present
      then refused "unmanaged_open_orders_present"
      else if not g.config.confirm_api_key_no_withdrawal_permission
      then refused "api_key_withdrawal_permission_unconfirmed"
      else if not g.config.positive_quality_gate_passed
      then refused "positive_quality_gate_not_passed"
      else order_gates g spec

  unfoldable pub evaluate_live_order_gates : GateInput F → LiveGateResult
  evaluate_live_order_gates g =
      let c = g.config in
      if not (c.mode == "live")
      then refused "execution_mode_not_live"
      else if not (c.venue == "bitbank") || not (g.intent.venue == "bitbank")
      then refused "venue_not_bitbank"
      else if not c.enable_live_orders
      then refused "enable_live_orders_false"
      else if differs (g.env c.live_env_var_name) c.live_env_var_value
      then refused "live_env_var_missing"
      else if is_blank (g.env "BITBANK_API_KEY") || is_blank (g.env "BITBANK_API_SECRET")
      then refused "api_key_or_secret_missing"
      else spec_gates g g.pair_spec
