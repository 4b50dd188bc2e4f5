-- ===== src/Pipeline/Books.antt =====
-- The two books of pipeline.py under the fills of a trade, and under `process` as a whole.
use ghost_amm.PipelineState.Outcome.{Gives, bind-Gives, any-Gives, map-Gives, of_gives}
use mathlib.Core.Path.{subst}
use ghost_amm.Base.{
  ℕ, ◌≡◌, refl, sym, ◌∙◌, ap, Bool, true, false, Option, none, some, List, [], ◌∷◌, Some, Dict,
  lookup, IsDict, arith, inl, inr, Bool-cases, if◌then◌else◌,
}
use ghost_amm.Num.{Num}
use ghost_amm.Events.{Event, Payload}
use ghost_amm.Market.FairPrice.{FairPriceState, FairPriceEngine}
use ghost_amm.Amm.OrderId.{OrderId, order_id_eq, Key, key_eq}
use ghost_amm.Amm.Projector.{ActiveVirtualOrder, remove_filled, without_order}
use ghost_amm.Amm.Projector.Events.{has_id, AreNumbered}
use ghost_amm.Amm.Projector.Replay.{IsNumbered}
use ghost_amm.Replay.FillModel.{FillModel, VirtualFill, on_market_event, set_maker_fee_bps}
use ghost_amm.PipelineState.{Pipeline, Outside, ok, Emitted, or_raise}
use ghost_amm.Pipeline.{
  unless_raised, take_fill, take_fills, process, after_fair, after_fills, ingest_market,
  ingest_metadata, ingest_payload,
}
use ghost_amm.Replay.FillModel.Keeping.{Keeps, on_market_event-Keeps}
use ghost_amm.Pipeline.Tracking.{IsBooked, quote_and_project-IsBooked}

module _ {F : Type 0} where
  lookup-without_order :
      (k : Key) (id : OrderId) (d : Dict Key (ActiveVirtualOrder F))
      → lookup k d ≡ none
      → lookup k (without_order id d) ≡ none
  unfolding without_order
  lookup-without_order k id [] h = refl
  lookup-without_order k id ((j, o) ∷ d) h = ground (arith, lookup-without_order k id d)

  without_order-IsDict :
      (id : OrderId) (d : Dict Key (ActiveVirtualOrder F)) → IsDict d → IsDict (without_order id d)
  unfolding without_order
  without_order-IsDict id [] h = tt
  without_order-IsDict id ((j, o) ∷ d) h =
      ground (arith, lookup-without_order j id d, without_order-IsDict id d h.1)

  has_id-without_order :
      (j id : OrderId) (d : Dict Key (ActiveVirtualOrder F))
      → has_id j d ≡ false
      → has_id j (without_order id d) ≡ false
  unfolding without_order
  has_id-without_order j id [] h = refl
  has_id-without_order j id ((k, o) ∷ d) h = ground (arith, has_id-without_order j id d)

  has_id-without_order_self :
      (c : ℕ) (id : OrderId) (d : Dict Key (ActiveVirtualOrder F))
      → AreNumbered c d
      → has_id id (without_order id d) ≡ false
  unfolding without_order
  has_id-without_order_self c id [] h = refl
  has_id-without_order_self c id ((k, o) ∷ d) (num, fresh, h) =
      ground (arith, order_id_eq.beq_iff o.order_id id, has_id-without_order_self c id d h)

  without_order-AreNumbered :
      (c : ℕ) (id : OrderId) (d : Dict Key (ActiveVirtualOrder F))
      → AreNumbered c d
      → AreNumbered c (without_order id d)
  unfolding without_order
  without_order-AreNumbered c id [] h = tt
  without_order-AreNumbered c id ((k, o) ∷ d) (num, fresh, h) =
      ground (arith, has_id-without_order o.order_id id d, without_order-AreNumbered c id d h)

  -- The fills leave the fill model alone, and the orders that they name are no longer active.
  record Took (p : Pipeline F) (fills : List (VirtualFill F)) (p' : Pipeline F) : Type 0 where
    stays : IsNumbered p'.projector
    same : p'.fill_model ≡ p.fill_model
    before :
        (id : OrderId)
        → has_id id p.projector.active ≡ false
        → has_id id p'.projector.active ≡ false
    gone :
        (id : OrderId) → Some (λ f. f.order_id ≡ id) fills → has_id id p'.projector.active ≡ false

  Took-trans :
      (p p' p'' : Pipeline F) (f : VirtualFill F) (fs : List (VirtualFill F))
      → Took p (f ∷ []) p'
      → Took p' fs p''
      → Took p (f ∷ fs) p''
  Took-trans p p' p'' f fs h k = record {
    stays = k.stays;
    same = k.same ∙ h.same;
    before = λ id b. k.before id (h.before id b);
    gone = λ id s. elim s [ inl e ↦ k.before id (h.gone id (inl e)) | inr t ↦ k.gone id t ];
  }

  filled-Took :
      (p p' : Pipeline F) (f : VirtualFill F)
      → p'.projector ≡ remove_filled p.projector f.order_id
      → p'.fill_model ≡ p.fill_model
      → IsNumbered p.projector
      → Took p (f ∷ []) p'
  unfolding remove_filled
  filled-Took p p' f e k h =
      let start = p.projector in
      record {
        stays = subst IsNumbered (sym e) (record {
          once = without_order-IsDict f.order_id start.active h.once;
          numbered = without_order-AreNumbered start.counter f.order_id start.active h.numbered;
        });
        same = k;
        before = λ id b. rw e (has_id-without_order id f.order_id start.active b);
        gone = λ id s. elim s [
          | inl q ↦
              rw (e, ← q)
                (has_id-without_order_self start.counter f.order_id start.active h.numbered)
          | inr t ↦ absurd t
        ];
      }

module _ {F : Type 0} ⦃n : Num F⦄ where
  unless_raised-Gives :
      (P : Pipeline F → Type 0) (e : Option _) (p : Pipeline F) → P p → Gives P (unless_raised e p)
  unless_raised-Gives P none p h = h
  unless_raised-Gives P (some e) p h = tt

  take_fill-Gives :
      (p : Pipeline F) (f : VirtualFill F)
      → IsNumbered p.projector
      → Gives (Took p (f ∷ [])) (take_fill p f)
  take_fill-Gives p f h = unless_raised-Gives (Took p (f ∷ [])) _ _ (filled-Took p _ f refl refl h)

  take_fills-Gives :
      (p : Pipeline F) (fs : List (VirtualFill F))
      → IsNumbered p.projector
      → Gives (Took p fs) (take_fills p fs)
  unfolding take_fills
  take_fills-Gives p [] h = record {
    stays = h;
    same = refl;
    before = λ id b. b;
    gone = λ id s. absurd s;
  }
  take_fills-Gives p (f ∷ fs) h =
      bind-Gives (Took p (f ∷ [])) (Took p (f ∷ fs)) (take_fill p f) (λ p'. take_fills p' fs)
        (take_fill-Gives p f h)
        (λ p' t.
          map-Gives (Took p' fs) (Took p (f ∷ fs)) (take_fills p' fs)
            (λ p'' k. Took-trans p p' p'' f fs t k) (take_fills-Gives p' fs t.stays))

  -- The state before the fills are taken, the state after, and what the fill model did between.
  taken-IsBooked :
      (p start p' : Pipeline F) (fills : List (VirtualFill F))
      → IsBooked p
      → start.projector ≡ p.projector
      → Keeps p.fill_model start.fill_model fills
      → Took start fills p'
      → IsBooked p'
  taken-IsBooked p start p' fills h e k t = record {
    projected = t.stays;
    once = rw t.same k.once;
    covered = λ id a. elim (Bool-cases (has_id id p.projector.active)) [
      | inl was ↦ elim (k.keeps id (h.covered id was)) [
        | inl kept ↦ rw t.same kept
        | inr s ↦ ground (arith, t.gone id s)
      ]
      | inr not_was ↦ ground (arith, t.before id (ap (λ q. has_id id q.active) e ∙ not_was))
    ];
  }

  abbrev Ends : Pipeline F × List (Emitted F) → Type 0
  Ends (p, events) = IsBooked p

  after_fair-Ends :
      (o : Outside F) (p : Pipeline F) (e : Event F) (engine : FairPriceEngine F)
      (fair : FairPriceState F)
      → IsBooked p
      → Gives Ends (after_fair o p e engine fair)
  after_fair-Ends o p e engine fair h =
      let (model, fills) = on_market_event p.fill_model e fair in
      bind-Gives (Took _ fills) Ends (take_fills _ fills)
        (after_fills o fair _ _ fills e.ts_exchange) (take_fills-Gives _ fills h.projected)
        (λ p' t.
          quote_and_project-IsBooked o p' fair _ e.ts_exchange (
            taken-IsBooked p _ p' fills h refl (on_market_event-Keeps p.fill_model e fair h.once)
              t))

  pick-orders :
      (c : Bool) (m m' : FillModel F)
      → m'.orders ≡ m.orders
      → (if c then m' else m).orders ≡ m.orders
  pick-orders true m m' e = e
  pick-orders false m m' e = refl

  ingested-IsBooked :
      (p p' : Pipeline F)
      → p'.projector ≡ p.projector
      → p'.fill_model.orders ≡ p.fill_model.orders
      → IsBooked p
      → IsBooked p'
  ingested-IsBooked p p' e k h = record {
    projected = subst IsNumbered (sym e) h.projected;
    once = rw k h.once;
    covered = λ id a. rw k (h.covered id (sym (ap (λ q. has_id id q.active) e) ∙ a));
  }

  fee_set : (m : FillModel F) (fee : F) → (set_maker_fee_bps m fee).orders ≡ m.orders
  unfolding set_maker_fee_bps
  fee_set m fee = refl

  ingest_payload-IsBooked :
      (p : Pipeline F) (payload : Payload F) → IsBooked p → IsBooked (ingest_payload p payload)
  ingest_payload-IsBooked p (Payload.bitbank_pair_spec spec) h =
      ingested-IsBooked p (ingest_payload p (Payload.bitbank_pair_spec spec)) refl
        (pick-orders _ p.fill_model _ (fee_set p.fill_model _)) h
  ingest_payload-IsBooked p (Payload.bitbank_status (some status)) h =
      ingested-IsBooked p (ingest_payload p (Payload.bitbank_status (some status))) refl refl h
  ingest_payload-IsBooked p payload h = h

  ingest-IsBooked :
      (p : Pipeline F) (e : Event F) → IsBooked p → IsBooked (ingest_market (ingest_metadata p e) e)
  unfolding ingest_metadata ingest_market
  ingest-IsBooked p e h =
      ingested-IsBooked (ingest_payload p e.payload) _ refl refl
        (ingest_payload-IsBooked p e.payload h)

  process-Gives :
      (o : Outside F) (p : Pipeline F) (e : Event F) → IsBooked p → Gives Ends (process o p e)
  unfolding process
  process-Gives o p e h =
      let p' = ingest_market (ingest_metadata p e) e in
      bind-Gives (λ _. Unit) Ends (or_raise _ _) (after_fair o p' e _) (any-Gives _)
        (λ fair _. after_fair-Ends o p' e _ fair (ingest-IsBooked p e h))

  -- `process` keeps the two books in agreement, whatever the event: the fill model tracks every order
  -- that the projector holds active, and no id or key is given twice.
  pub process-IsBooked :
      (o : Outside F) (p p' : Pipeline F) (e : Event F) (events : List (Emitted F))
      → IsBooked p
      → process o p e ≡ ok (p', events)
      → IsBooked p'
  process-IsBooked o p p' e events h r =
      of_gives Ends (process o p e) (p', events) r (process-Gives o p e h)
