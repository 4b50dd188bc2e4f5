-- ===== src/Amm/Projector/Tests.antt =====
-- amm/projector.py on the two orders of the fixtures: the bid goes to another price, the ask goes.
use ghost_amm.Base.{refl, [], ◌∷◌, arith}
use ghost_amm.Base.Int.{ℤ, pos}
use ghost_amm.Num.Whole.{whole}
use ghost_amm.Exchange.BitbankRules.{buy, sell}
use ghost_amm.Amm.Projector.{SyncInput, sync}
use ghost_amm.Amm.Projector.Safety.{IsProjected, sync-IsProjected}
use ghost_amm.Amm.Projector.Replay.{IsNumbered, Tells, sync-Tells}
use ghost_amm.Fixtures.{projector, book, decision, quote_at}

abbrev input : SyncInput ℤ
input = record {
  quotes = quote_at buy (pos 98) 0 ∷ quote_at sell (pos 105) 1 ∷ quote_at buy (pos 103) 1 ∷ [];
  book = book;
  risk = decision;
  now_ms = pos 2_000;
}

projector-IsNumbered : IsNumbered projector
unfolding ghost_amm.Amm.OrderId.key_beq ghost_amm.Amm.OrderId.order_id_beq
projector-IsNumbered = record {
  once = (refl, (refl, tt));
  numbered = (omega arith, refl, (omega arith, refl, tt));
}

sync-IsProjected_example : IsProjected input projector (sync projector input).0
unfolding ghost_amm.Amm.OrderId.key_beq
sync-IsProjected_example = sync-IsProjected input projector (refl, (refl, tt)) refl

sync-Tells_example : Tells projector (sync projector input).0 (sync projector input).1
sync-Tells_example = sync-Tells projector input projector-IsNumbered
