-- ===== src/Fixtures/Booked.antt =====
-- The two books of virtual orders in the fixtures agree.
use ghost_amm.Base.{◌≡◌, refl, true, arith}
use ghost_amm.Num.Whole.{whole}
use ghost_amm.Pipeline.Tracking.{IsBooked}
use ghost_amm.Replay.FillModel.Keeping.{is_tracked}
use ghost_amm.Amm.OrderId.{OrderId, order_id_eq}
use ghost_amm.Amm.Projector.Events.{has_id}
use ghost_amm.Fixtures.{pipeline}

active_tracked :
    (id : OrderId)
    → has_id id pipeline.projector.active ≡ true
    → is_tracked id pipeline.fill_model ≡ true
active_tracked id h = ground arith

pub pipeline-IsBooked : IsBooked pipeline
unfolding ghost_amm.Amm.OrderId.key_beq ghost_amm.Amm.OrderId.order_id_beq
pipeline-IsBooked = record {
  projected = record {
    once = (refl, (refl, tt));
    numbered = (omega arith, refl, (omega arith, refl, tt));
  };
  once = (refl, (refl, tt));
  covered = active_tracked;
}
