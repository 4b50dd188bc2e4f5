-- ===== src/Replay/FillModel/Tests.antt =====
-- replay/fill_model.py on the sale of the fixtures.
use ghost_amm.Base.{refl, All, Some, values}
use ghost_amm.Base.Int.{ℤ, pos}
use ghost_amm.Num.Whole.{whole, whole-IsOrdered, whole-IsArithmetic}
use ghost_amm.Exchange.BitbankRules.{sell, is_sell}
use ghost_amm.Replay.FillModel.{on_market_event, eligible_orders}
use ghost_amm.Replay.FillModel.Flow.{IsHit, IsFillOf, Takes, on_market_event-fills}
use ghost_amm.Replay.FillModel.Priority.{AreRanked, eligible_orders-AreRanked}
use ghost_amm.Fixtures.{fill_model, sale, fair_state}

on_market_event-fills_example :
    All
      (λ f.
        Some
          (λ o. IsHit fill_model sell (pos 99) (pos 2_000) o × IsFillOf o (pos 6) f)
          (values fill_model.orders))
      (on_market_event fill_model sale fair_state).1
    × ((left : ℤ) × Takes whole-IsOrdered whole-IsArithmetic
          (pos 6)
          (on_market_event fill_model sale fair_state).1
          left)
on_market_event-fills_example =
    on_market_event-fills whole-IsOrdered whole-IsArithmetic fill_model sale fair_state (pos 99)
      (pos 6) sell refl refl

eligible_orders-AreRanked_example :
    AreRanked (is_sell sell) (eligible_orders fill_model sell (pos 99) (pos 2_000))
eligible_orders-AreRanked_example =
    eligible_orders-AreRanked whole-IsOrdered whole-IsArithmetic fill_model sell (pos 99)
      (pos 2_000)
