-- ===== src/Amm/QuoteSurface/Tests.antt =====
-- amm/quote_surface.py on the surface of the fixtures.
use ghost_amm.Base.{All}
use Prim.Native.Nat.{◌≤◌, ◌*◌ as nat_mul}
use ghost_amm.Base.{length}
use ghost_amm.Num.Whole.{whole}
use ghost_amm.Amm.QuoteSurface.{generate}
use ghost_amm.Amm.QuoteSurface.Ladder.{IsRung, AreApart, generate-IsRung, generate-AreApart}
use ghost_amm.Fixtures.{surface, quote_input}

generate-IsRung_example : All (IsRung surface quote_input 0 2) (generate surface quote_input)
generate-IsRung_example = generate-IsRung surface quote_input

generate-AreApart_example :
    AreApart (generate surface quote_input) × (length (generate surface quote_input) ≤ nat_mul 2 2)
generate-AreApart_example = generate-AreApart surface quote_input
