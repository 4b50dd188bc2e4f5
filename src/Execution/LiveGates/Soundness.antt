-- ===== src/Execution/LiveGates/Soundness.antt =====
-- execution/live_gates.py lets an order through exactly when every gate is open.
use ghost_amm.Base.{
  ◌≡◌, refl, ◌↔◌, true, false, not, ◌&&◌, Option, none, some, ◌==◌, string_eq, arith,
}
use ghost_amm.Num.{Num, ltb, abs}
use ghost_amm.Exchange.BitbankRules.{is_buy, is_sell, BitbankPairSpec, validate_order}
use ghost_amm.Execution.LiveGates.{
  GateInput, evaluate_live_order_gates, order_gates, would_cross, differs, is_blank, status_is_bad,
}

-- A gate: the order is refused when the test holds.
module _ {F : Type 0} ⦃n : Num F⦄ where
  -- What an order and the pair must be.
  pub record IsOrderClear (g : GateInput F) (spec : BitbankPairSpec F) : Type 0 where
    pub pair : (g.intent.pair == "btc_jpy") ≡ true
    pub name : (spec.name == "btc_jpy") ≡ true
    pub enabled : spec.is_enabled ≡ true
    pub running : spec.stop_order ≡ false
    pub not_canceling : spec.stop_order_and_cancel ≡ false
    pub buys_run : (is_buy g.intent.side && spec.stop_buy_order) ≡ false
    pub sells_run : (is_sell g.intent.side && spec.stop_sell_order) ≡ false
    pub clock : ltb g.config.clock_drift_limit_ms (abs g.clock_drift_ms) ≡ false
    pub risk : g.risk.allow_quote ≡ true
    pub risk_buy : (is_buy g.intent.side && not g.risk.allow_buy) ≡ false
    pub risk_sell : (is_sell g.intent.side && not g.risk.allow_sell) ≡ false
    pub limit : (g.intent.order_type == "limit") ≡ true
    pub post_only : g.intent.post_only ≡ true
    pub no_cross : would_cross g.intent g.book ≡ false
    pub valid : validate_order spec g.intent.side g.intent.price g.intent.amount ≡ none

  -- What the settings, the environment and the exchange must be.
  pub record IsOpen (g : GateInput F) (spec : BitbankPairSpec F) : Type 0 where
    pub mode : (g.config.mode == "live") ≡ true
    pub venue : (g.config.venue == "bitbank") ≡ true
    pub intent_venue : (g.intent.venue == "bitbank") ≡ true
    pub enabled : g.config.enable_live_orders ≡ true
    pub accepted : differs (g.env g.config.live_env_var_name) g.config.live_env_var_value ≡ false
    pub has_key : is_blank (g.env "BITBANK_API_KEY") ≡ false
    pub has_secret : is_blank (g.env "BITBANK_API_SECRET") ≡ false
    pub known_pair : g.pair_spec ≡ some spec
    pub normal : status_is_bad g.status ≡ false
    pub post_only : g.config.post_only_only ≡ true
    pub managed : g.config.unmanaged_open_orders_present ≡ false
    pub no_withdrawal : g.config.confirm_api_key_no_withdrawal_permission ≡ true
    pub quality : g.config.positive_quality_gate_passed ≡ true

  order_gates_sound :
      (g : GateInput F) (spec : BitbankPairSpec F)
      → (order_gates g spec).allowed ≡ true
      → IsOrderClear g spec
  unfolding order_gates
  order_gates_sound g spec h = ground arith

  order_gates_complete :
      (g : GateInput F) (spec : BitbankPairSpec F)
      → IsOrderClear g spec
      → order_gates g spec ≡ record { allowed = true; reason = none }
  unfolding order_gates
  order_gates_complete g spec c = ground arith

  IsOpen-sound :
      (g : GateInput F) (spec : BitbankPairSpec F)
      → g.pair_spec ≡ some spec
      → (evaluate_live_order_gates g).allowed ≡ true
      → IsOpen g spec × ((order_gates g spec).allowed ≡ true)
  unfolding evaluate_live_order_gates
  IsOpen-sound g spec known h = ground arith

  unknown-refused :
      (g : GateInput F) → g.pair_spec ≡ none → ¬ ((evaluate_live_order_gates g).allowed ≡ true)
  unfolding evaluate_live_order_gates
  unknown-refused g e h = ground arith

  IsOpen-complete :
      (g : GateInput F) (spec : BitbankPairSpec F)
      → IsOpen g spec
      → IsOrderClear g spec
      → (evaluate_live_order_gates g).allowed ≡ true
  unfolding evaluate_live_order_gates
  IsOpen-complete g spec p c = ground (arith, order_gates_complete g spec c)

  -- An order may go out exactly when the mode, the venue, the opt-in by setting and environment, the
  -- keys, the exchange's status and every safety setting are as required for the known pair, and the
  -- order itself passes the pair's flags, the clock, the risk decision, the post-only test against
  -- the book and the exchange's validation.
  pub evaluate_live_order_gates_iff :
      (g : GateInput F)
      → ((evaluate_live_order_gates g).allowed ≡ true)
        ↔ ((spec : BitbankPairSpec F) × IsOpen g spec × IsOrderClear g spec)
  evaluate_live_order_gates_iff g = (sound g.pair_spec refl, complete)
    where
      sound :
          (o : Option (BitbankPairSpec F))
          → g.pair_spec ≡ o
          → (evaluate_live_order_gates g).allowed ≡ true
          → (spec : BitbankPairSpec F) × IsOpen g spec × IsOrderClear g spec
      sound none e h = absurd (unknown-refused g e h)
      sound (some spec) e h =
          let (is_open, order) = IsOpen-sound g spec e h in
          (spec, is_open, order_gates_sound g spec order)

      complete :
          (spec : BitbankPairSpec F) × IsOpen g spec × IsOrderClear g spec
          → (evaluate_live_order_gates g).allowed ≡ true
      complete (spec, is_open, clear) = IsOpen-complete g spec is_open clear
