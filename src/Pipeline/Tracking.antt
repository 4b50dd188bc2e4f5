-- ===== src/Pipeline/Tracking.antt =====
-- The virtual orders of pipeline.py in its two books: those that the projector holds active, and those
-- that the fill model tracks.
use ghost_amm.Base.{
  ◌≡◌, refl, sym, ◌∙◌, ap, Bool, true, false, List, [], ◌∷◌, IsDict, insert-IsDict, erase-IsDict,
  lookup-insert, arith, if◌then◌else◌, ◌==◌,
}
use mathlib.Core.Path.{subst}
use ghost_amm.Num.{Num}
use ghost_amm.Market.OrderBook.{OrderBook}
use ghost_amm.Market.FairPrice.{FairPriceState}
use ghost_amm.Market.Shock.{ShockState}
use ghost_amm.Amm.OrderId.{OrderId, order_id_eq}
use ghost_amm.Amm.Projector.{ProjectorEvent, placed, canceled, ActiveVirtualOrder, SyncInput, sync}
use ghost_amm.Amm.Projector.Events.{has_id, live}
use ghost_amm.Amm.Projector.Replay.{IsNumbered, sync-Tells}
use ghost_amm.Replay.FillModel.Keeping.{is_tracked, is_tracked-erase}
use ghost_amm.Replay.FillModel.{FillModel, on_virtual_order, on_cancel, tracked}
use ghost_amm.PipelineState.{Pipeline, Outside}
use ghost_amm.Pipeline.{track_events, quote_and_project}

module _ {F : Type 0} ⦃n : Num F⦄ where
  is_tracked-insert :
      (id : OrderId) (m : FillModel F) (o : ActiveVirtualOrder F) (b : OrderBook F)
      → is_tracked id (on_virtual_order m o b)
        ≡ (if o.order_id == id then true else is_tracked id m)
  unfolding on_virtual_order
  is_tracked-insert id m o b = ground (arith, lookup-insert o.order_id id (tracked m o b) m.orders)

  placed-IsDict :
      (m : FillModel F) (o : ActiveVirtualOrder F) (b : OrderBook F)
      → IsDict m.orders
      → IsDict (on_virtual_order m o b).orders
  unfolding on_virtual_order
  placed-IsDict m o b h = insert-IsDict o.order_id (tracked m o b) m.orders h

  canceled-IsDict :
      (m : FillModel F) (j : OrderId) → IsDict m.orders → IsDict (on_cancel m j).orders
  unfolding on_cancel
  canceled-IsDict m j h = erase-IsDict j m.orders h

  canceled_lem :
      (m : FillModel F) (j id : OrderId)
      → IsDict m.orders
      → is_tracked id (on_cancel m j) ≡ (if j == id then false else is_tracked id m)
  unfolding on_cancel
  canceled_lem m j id h = is_tracked-erase id j m.orders h

  track_events-IsDict :
      (m : FillModel F) (b : OrderBook F) (events : List (ProjectorEvent F))
      → IsDict m.orders
      → IsDict (track_events m b events).orders
  unfolding track_events
  track_events-IsDict m b [] h = h
  track_events-IsDict m b (placed sequence o ∷ rest) h =
      track_events-IsDict (on_virtual_order m o b) b rest (placed-IsDict m o b h)
  track_events-IsDict m b (canceled sequence j reason side price size ∷ rest) h =
      track_events-IsDict (on_cancel m j) b rest (canceled-IsDict m j h)

  -- Who was live stays so longer than who was not.
  live_mono :
      (id : OrderId) (es : List (ProjectorEvent F)) (b b' : Bool)
      → (b ≡ true → b' ≡ true)
      → live b es id ≡ true
      → live b' es id ≡ true
  live_mono id [] b b' le h = le h
  live_mono id (placed s o ∷ es) b b' le h = live_mono id es _ _ (λ q. ground arith) h
  live_mono id (canceled s j reason side price size ∷ es) b b' le h =
      live_mono id es _ _ (λ q. ground arith) h

  -- What the fill model tracks after the events of the projector is what they leave live.
  pub track_events-live :
      (m : FillModel F) (b : OrderBook F) (events : List (ProjectorEvent F)) (id : OrderId)
      → IsDict m.orders
      → is_tracked id (track_events m b events) ≡ live (is_tracked id m) events id
  unfolding track_events
  track_events-live m b [] id h = refl
  track_events-live m b (placed sequence o ∷ rest) id h =
      track_events-live (on_virtual_order m o b) b rest id (placed-IsDict m o b h)
      ∙ ap (λ x. live x rest id) (is_tracked-insert id m o b)
  track_events-live m b (canceled sequence j reason side price size ∷ rest) id h =
      track_events-live (on_cancel m j) b rest id (canceled-IsDict m j h)
      ∙ ap (λ x. live x rest id) (canceled_lem m j id h)

  -- The two books agree: the ids and keys of the active orders do not repeat, nor do those that the
  -- fill model tracks, and it tracks every active order.
  pub record IsBooked (p : Pipeline F) : Type 0 where
    pub projected : IsNumbered p.projector
    pub once : IsDict p.fill_model.orders
    pub covered :
        (id : OrderId) → has_id id p.projector.active ≡ true → is_tracked id p.fill_model ≡ true

  synced-IsBooked :
      (p p' : Pipeline F) (b : OrderBook F) (i : SyncInput F)
      → p'.projector ≡ (sync p.projector i).0
      → p'.fill_model ≡ track_events p.fill_model b (sync p.projector i).1
      → IsBooked p
      → IsBooked p'
  synced-IsBooked p p' b i e k h =
      let told = sync-Tells p.projector i h.projected in
      record {
        projected = subst IsNumbered (sym e) told.stays;
        once = subst (λ m. IsDict m.orders) (sym k) (track_events-IsDict p.fill_model b _ h.once);
        covered = λ id a.
            ap (is_tracked id) k
            ∙ track_events-live p.fill_model b (sync p.projector i).1 id h.once
            ∙ live_mono id (sync p.projector i).1 _ _ (h.covered id)
                (sym (told.tells id) ∙ ap (λ q. has_id id q.active) (sym e) ∙ a);
      }

  pub quote_and_project-IsBooked :
      (o : Outside F) (p : Pipeline F) (fair : FairPriceState F) (shock : ShockState F) (now : F)
      → IsBooked p
      → IsBooked (quote_and_project o p fair shock now).0
  unfolding quote_and_project
  quote_and_project-IsBooked o p fair shock now h = synced-IsBooked p _ p.book _ refl refl h
