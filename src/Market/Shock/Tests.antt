-- ===== src/Market/Shock/Tests.antt =====
-- market/shock.py on the sale of the fixtures.
use ghost_amm.Base.{List, [], ◌∷◌, none}
use ghost_amm.Base.Int.{ℤ, pos}
use ghost_amm.Num.Whole.{whole, whole-IsOrdered, whole-IsArithmetic}
use ghost_amm.Market.Shock.{update}
use ghost_amm.Market.Shock.Activation.{IsActivation, update-IsActivation}
use ghost_amm.Market.Shock.Spacing.{Feed, AreSpaced, shocks_of, shocks_of-AreSpaced}
use ghost_amm.Fixtures.{shock, sale, book, fair_state, outside}

update-IsActivation_example : IsActivation (update outside.event_id shock sale book fair_state).1
update-IsActivation_example =
    update-IsActivation whole-IsOrdered whole-IsArithmetic outside.event_id shock sale book
      fair_state

abbrev feed : List (Feed ℤ)
feed = (sale, book, fair_state) ∷ (record sale { ts_exchange = pos 4_000 }, book, fair_state) ∷ []

shocks_of-AreSpaced_example :
    AreSpaced (pos 1_000) (pos 0) none (shocks_of outside.event_id shock feed)
shocks_of-AreSpaced_example = shocks_of-AreSpaced outside.event_id shock feed
