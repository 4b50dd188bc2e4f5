-- ===== src/Amm/Inventory/Tests.antt =====
-- amm/inventory.py on the balances of the fixtures.
use ghost_amm.Base.{◌≡◌, refl, false, some, List, [], ◌∷◌}
use ghost_amm.Base.Int.{ℤ, pos}
use ghost_amm.Num.Whole.{whole, whole-IsOrdered}
use ghost_amm.Exchange.BitbankRules.{buy, sell}
use ghost_amm.Amm.Inventory.Fills.{Fill, IsCovered, apply_fills, apply_fills-IsCovered}
use ghost_amm.Fixtures.{inventory}

abbrev fills : List (Fill ℤ)
fills =
    record { side = buy; price = pos 100; amount = pos 3; fee = pos 1 }
    ∷ record { side = sell; price = pos 103; amount = pos 5; fee = pos 0 }
    ∷ []

apply_fills-IsCovered_example : IsCovered (apply_fills inventory fills).0
unfolding ghost_amm.Base.Int.◌-ℤ◌ ghost_amm.Amm.Inventory.apply_fill ghost_amm.Base.Int.◌+ℤ◌
    ghost_amm.Base.Int.◌*ℤ◌
apply_fills-IsCovered_example =
    apply_fills-IsCovered whole-IsOrdered inventory fills refl
      (record { base = refl; quote = refl }) refl
