-- ===== src/Analytics/Metrics/Tests.antt =====
-- analytics/metrics.py on a few values.
use ghost_amm.Base.{◌≡◌, refl, ◌⊎◌, List, [], ◌∷◌}
use ghost_amm.Base.Int.{ℤ, pos}
use ghost_amm.Num.{dec, ◌≼◌}
use ghost_amm.Num.Whole.{whole, whole-IsOrdered, whole-IsArithmetic}
use ghost_amm.Analytics.Metrics.Drawdown.{
  max_drawdown, HasFallsBelow, HasFall, max_drawdown-IsLargest,
}

abbrev equities : List ℤ
equities = pos 10 ∷ pos 14 ∷ pos 9 ∷ pos 12 ∷ pos 11 ∷ []

drawdown_of_equities : max_drawdown equities ≡ pos 5
unfolding max_drawdown ghost_amm.Analytics.Metrics.Drawdown.drawdown_from ghost_amm.Base.Int.◌-ℤ◌
drawdown_of_equities = refl

max_drawdown-IsLargest_example :
    (dec 0 0 ≼ max_drawdown equities)
    × HasFallsBelow (max_drawdown equities) equities
    × ((max_drawdown equities ≡ dec 0 0) ⊎ HasFall (max_drawdown equities) equities)
max_drawdown-IsLargest_example = max_drawdown-IsLargest whole-IsOrdered whole-IsArithmetic equities
