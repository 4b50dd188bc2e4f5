-- ===== src/Market/FairPrice/Tests.antt =====
-- market/fair_price.py on three fresh sources.
use ghost_amm.Base.{◌≡◌, ◌↔◌, refl, true, false, none, some, Option, List, [], ◌∷◌, arith}
use Prim.Native.Nat.{◌≤◌}
use ghost_amm.Base.Int.{ℤ, pos, negsuc}
use ghost_amm.Num.Whole.{whole, whole-IsOrdered, whole-IsArithmetic}
use ghost_amm.Market.FairPrice.{
  FairPriceSource, FairPriceState, FairPriceEngine, from_sources, median,
}
use ghost_amm.Market.FairPrice.Median.{Within}
use ghost_amm.Market.FairPrice.Agreement.{
  IsDisagreement, from_sources_raises_iff, from_sources-Within,
}
use ghost_amm.Fixtures.{fair_engine, source_of}

abbrev sources : List (FairPriceSource ℤ)
sources = source_of "a" (pos 101) ∷ source_of "b" (pos 180) ∷ source_of "c" (pos 103) ∷ []

abbrev lax : FairPriceEngine ℤ
lax = record fair_engine { min_source_count = 0; max_source_deviation_bps = negsuc 0 }

-- Whole numbers round the deviations to zero, so it takes a limit below zero for none to agree.
abbrev apart : List (FairPriceSource ℤ)
apart = source_of "a" (pos 1) ∷ source_of "b" (pos 5) ∷ []

from_sources_raises_iff_example :
    (from_sources lax apart (pos 2_000) ≡ none) ↔ IsDisagreement lax apart (pos 2_000)
from_sources_raises_iff_example = from_sources_raises_iff lax apart (pos 2_000)

abbrev state : FairPriceState ℤ
state = record {
  fair = some (pos 103);
  source_count = 3;
  spread_bps = none;
  is_valid = true;
  reason = none;
  sources = "a" ∷ "b" ∷ "c" ∷ [];
  deviation_bps = some (pos 0);
}

from_sources-Within_example :
    (fair : ℤ) × (state.fair ≡ some fair) × Within (pos 100) (pos 200) fair × (1 ≤ 3)
unfolding from_sources median ghost_amm.Market.FairPrice.median_sorted
    ghost_amm.Market.FairPrice.sorted ghost_amm.Base.Int.◌-ℤ◌
    ghost_amm.Market.FairPrice.insert_sorted ghost_amm.Market.FairPrice.from_kept
    ghost_amm.Market.FairPrice.deviation_bps ghost_amm.Market.FairPrice.middle_of
    ghost_amm.Base.Int.◌*ℤ◌ ghost_amm.Market.FairPrice.max_deviation
    ghost_amm.Market.FairPrice.largest_deviation
from_sources-Within_example =
    from_sources-Within whole-IsOrdered whole-IsArithmetic fair_engine sources (pos 2_000) (pos 100)
      (pos 200) {st = state} refl
      ((λ h. (refl, refl)), ((λ h. (refl, refl)), ((λ h. (refl, refl)), tt))) refl refl
