-- ===== src/Risk/Tests.antt =====
-- risk/kernel.py on the market of the fixtures.
use ghost_amm.Base.{◌∷◌, [], ◌≡◌, refl, true, false, none, some, arith}
use ghost_amm.Base.Int.{ℤ, pos}
use ghost_amm.Num.Whole.{whole}
use ghost_amm.Exchange.BitbankRules.{buy, sell}
use ghost_amm.Risk.Kernel.{RiskKernel, record_fill}
use ghost_amm.Risk.Evaluate.{RiskInput, evaluate}
use ghost_amm.Risk.Evaluate.Gates.{IsQuotable, evaluate-IsQuotable}
use ghost_amm.Risk.Evaluate.Sides.{
  IsCoherent, BuyBehind, SellBehind, evaluate-IsCoherent, evaluate-buy, evaluate-sell,
}
use ghost_amm.Risk.Cooldown.{IsBurst, after_decisions, burst_blocks_buy}
use ghost_amm.Fixtures.{risk, book, fair_state, shock_state, inventory, pair_spec, status}

abbrev input : RiskInput ℤ
input = record {
  book = book;
  fair_state = fair_state;
  shock_state = shock_state;
  inventory = inventory;
  pair_spec = some pair_spec;
  status = some status;
  now_ms = pos 2_000;
}

evaluate-IsQuotable_example :
    (fair : ℤ) × (spread : ℤ) × (skew : ℤ) × IsQuotable risk input fair spread skew
unfolding evaluate ghost_amm.Risk.Evaluate.market_block ghost_amm.Market.OrderBook.spread_bps
    ghost_amm.Market.OrderBook.best_bid ghost_amm.Market.OrderBook.best_ask ghost_amm.Base.Int.◌+ℤ◌
    ghost_amm.Market.OrderBook.largest ghost_amm.Market.OrderBook.smallest ghost_amm.Base.Int.◌*ℤ◌
    ghost_amm.Base.Int.◌-ℤ◌ ghost_amm.Market.OrderBook.depth_around_mid
    ghost_amm.Market.OrderBook.mid ghost_amm.Market.OrderBook.notional
    ghost_amm.Amm.Inventory.snapshot ghost_amm.Exchange.BitbankRules.is_normal
    ghost_amm.Risk.Checks.last_trade_deviation_too_large ghost_amm.Risk.Evaluate.decide
    ghost_amm.Risk.Evaluate.side_reasons ghost_amm.Risk.Checks.fill_burst_blocked_sides
    ghost_amm.Risk.Checks.fair_drift_blocked_sides ghost_amm.Risk.Checks.fair_at_or_before
    ghost_amm.Risk.Checks.inventory_blocked_sides ghost_amm.Risk.Evaluate.settle
    ghost_amm.Risk.Checks.expire_changes ghost_amm.Risk.Checks.pop_cooldowns
    ghost_amm.Risk.Kernel.record_fair ghost_amm.Risk.Checks.change_of
    ghost_amm.Risk.Kernel.expire_history
evaluate-IsQuotable_example = evaluate-IsQuotable risk input refl

evaluate-IsCoherent_example : IsCoherent (evaluate risk input).1
evaluate-IsCoherent_example = evaluate-IsCoherent risk input

evaluate-buy_example : BuyBehind risk input
unfolding evaluate ghost_amm.Risk.Evaluate.market_block ghost_amm.Market.OrderBook.spread_bps
    ghost_amm.Market.OrderBook.best_bid ghost_amm.Market.OrderBook.best_ask ghost_amm.Base.Int.◌+ℤ◌
    ghost_amm.Market.OrderBook.largest ghost_amm.Market.OrderBook.smallest ghost_amm.Base.Int.◌*ℤ◌
    ghost_amm.Base.Int.◌-ℤ◌ ghost_amm.Market.OrderBook.depth_around_mid
    ghost_amm.Market.OrderBook.mid ghost_amm.Market.OrderBook.notional
    ghost_amm.Amm.Inventory.snapshot ghost_amm.Exchange.BitbankRules.is_normal
    ghost_amm.Risk.Checks.last_trade_deviation_too_large ghost_amm.Risk.Evaluate.decide
    ghost_amm.Risk.Evaluate.side_reasons ghost_amm.Risk.Checks.fill_burst_blocked_sides
    ghost_amm.Risk.Checks.fair_drift_blocked_sides ghost_amm.Risk.Checks.fair_at_or_before
    ghost_amm.Risk.Checks.inventory_blocked_sides ghost_amm.Risk.Evaluate.settle
    ghost_amm.Risk.Checks.expire_changes ghost_amm.Risk.Checks.pop_cooldowns
    ghost_amm.Risk.Kernel.record_fair ghost_amm.Risk.Checks.change_of
    ghost_amm.Risk.Kernel.expire_history
evaluate-buy_example = evaluate-buy risk input refl

evaluate-sell_example : SellBehind risk input
unfolding evaluate ghost_amm.Risk.Evaluate.market_block ghost_amm.Market.OrderBook.spread_bps
    ghost_amm.Market.OrderBook.best_bid ghost_amm.Market.OrderBook.best_ask ghost_amm.Base.Int.◌+ℤ◌
    ghost_amm.Market.OrderBook.largest ghost_amm.Market.OrderBook.smallest ghost_amm.Base.Int.◌*ℤ◌
    ghost_amm.Base.Int.◌-ℤ◌ ghost_amm.Market.OrderBook.depth_around_mid
    ghost_amm.Market.OrderBook.mid ghost_amm.Market.OrderBook.notional
    ghost_amm.Amm.Inventory.snapshot ghost_amm.Exchange.BitbankRules.is_normal
    ghost_amm.Risk.Checks.last_trade_deviation_too_large ghost_amm.Risk.Evaluate.decide
    ghost_amm.Risk.Evaluate.side_reasons ghost_amm.Risk.Checks.fill_burst_blocked_sides
    ghost_amm.Risk.Checks.fair_drift_blocked_sides ghost_amm.Risk.Checks.fair_at_or_before
    ghost_amm.Risk.Checks.inventory_blocked_sides ghost_amm.Risk.Evaluate.settle
    ghost_amm.Risk.Checks.expire_changes ghost_amm.Risk.Checks.pop_cooldowns
    ghost_amm.Risk.Kernel.record_fair ghost_amm.Risk.Checks.change_of
    ghost_amm.Risk.Kernel.expire_history
evaluate-sell_example = evaluate-sell risk input refl

buy-IsBurst : IsBurst risk buy (pos 2_000)
unfolding ghost_amm.Risk.Kernel.count_side ghost_amm.Risk.Kernel.expire_history
    ghost_amm.Base.Int.◌-ℤ◌
buy-IsBurst = record { limited = omega arith; reached = omega arith }

burst_blocks_buy_example :
    (evaluate
      (after_decisions
        (record_fill risk buy (pos 2_000) (some (pos 100)) (some (pos 3)))
        (input ∷ []))
      input).1.allow_buy
    ≡ false
unfolding ghost_amm.Base.Int.◌+ℤ◌
burst_blocks_buy_example =
    burst_blocks_buy risk (pos 2_000) (some (pos 100)) (some (pos 3)) (input ∷ []) input buy-IsBurst
      (refl, tt) refl

sell-IsBurst : IsBurst risk sell (pos 2_000)
unfolding ghost_amm.Risk.Kernel.count_side ghost_amm.Risk.Kernel.expire_history
    ghost_amm.Base.Int.◌-ℤ◌
sell-IsBurst = record { limited = omega arith; reached = omega arith }
