-- ===== src/Execution/LiveGates/Tests.antt =====
-- execution/live_gates.py on an order that passes all gates.
use ghost_amm.Base.{◌≡◌, refl, ◌↔◌, true, some, String, [], ◌∷◌}
use ghost_amm.Base.Int.{ℤ, pos}
use ghost_amm.Num.Whole.{whole}
use ghost_amm.Exchange.BitbankRules.{BitbankPairSpec}
use ghost_amm.Config.{Value, bool, text, mapping, Entries, entries, deep_merge}
use ghost_amm.Config.Lookup.{HasKeysOnce}
use ghost_amm.Config.Defaults.{default_config}
use ghost_amm.Execution.LiveGates.Settings.{
  execution_config, ChoosesLive, TurnsOn, live_order_needs_override,
}
use ghost_amm.Execution.LiveGates.{GateInput, evaluate_live_order_gates}
use ghost_amm.Execution.LiveGates.Soundness.{IsOpen, IsOrderClear, evaluate_live_order_gates_iff}
use ghost_amm.Fixtures.{execution, intent, pair_spec, status, book, decision, outside}

abbrev input : GateInput ℤ
input = record {
  config = execution;
  intent = intent;
  pair_spec = some pair_spec;
  status = some status;
  book = some book;
  risk = decision;
  clock_drift_ms = pos 10;
  env = outside.env;
}

evaluate_live_order_gates_iff_example :
    ((evaluate_live_order_gates input).allowed ≡ true)
    ↔ ((spec : BitbankPairSpec ℤ) × IsOpen input spec × IsOrderClear input spec)
evaluate_live_order_gates_iff_example = evaluate_live_order_gates_iff input

-- An override that chooses everything that a live order needs.
abbrev override : Entries ℤ
override = entries (
    (
      "execution",
      mapping (
          entries (
            ("mode", text "live")
            ∷ ("enable_live_orders", bool true)
            ∷ ("confirm_api_key_no_withdrawal_permission", bool true)
            ∷ ("positive_quality_gate_passed", bool true)
            ∷ ("live_env_var_name", text "LIVE")
            ∷ ("live_env_var_value", text "YES")
            ∷ [])),
    )
    ∷ [])

override-HasKeysOnce : HasKeysOnce override
unfolding HasKeysOnce
override-HasKeysOnce =
    (refl, (refl, tt, (refl, tt, (refl, tt, (refl, tt, (refl, tt, (refl, tt, tt)))))), tt)

abbrev str : Value ℤ → String
str v = elim v [ text s ↦ s | _ ↦ "" ]

abbrev live_input : GateInput ℤ
live_input = record input {
  config = execution_config str (pos 1_000) (deep_merge default_config override);
}

live_input-allowed : (evaluate_live_order_gates live_input).allowed ≡ true
unfolding evaluate_live_order_gates execution_config ghost_amm.Config.get deep_merge
    ghost_amm.Execution.LiveGates.Settings.truthy ghost_amm.Exchange.BitbankRules.is_normal
    ghost_amm.Execution.LiveGates.order_gates ghost_amm.Execution.LiveGates.would_cross
    ghost_amm.Market.OrderBook.best_ask ghost_amm.Market.OrderBook.smallest
    ghost_amm.Exchange.BitbankRules.validate_order ghost_amm.Exchange.BitbankRules.round_amount
    ghost_amm.Exchange.BitbankRules.floor_to_step ghost_amm.Exchange.BitbankRules.lot_size
    ghost_amm.Base.Int.◌*ℤ◌ ghost_amm.Base.Int.◌+ℤ◌ ghost_amm.Exchange.BitbankRules.round_price
    ghost_amm.Exchange.BitbankRules.tick_size
live_input-allowed = refl

live_order_needs_override_example :
    ChoosesLive override
    × TurnsOn override "enable_live_orders"
    × TurnsOn override "confirm_api_key_no_withdrawal_permission"
    × TurnsOn override "positive_quality_gate_passed"
live_order_needs_override_example =
    live_order_needs_override str (pos 1_000) override live_input override-HasKeysOnce refl
      live_input-allowed
