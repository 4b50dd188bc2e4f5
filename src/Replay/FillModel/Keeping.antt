-- ===== src/Replay/FillModel/Keeping.antt =====
-- What replay/fill_model.py tracks: no order goes unless a fill names it.
use ghost_amm.Base.{
  ◌≡◌, refl, ◌∙◌, ◌⊎◌, Bool, true, false, Option, List, [], ◌∷◌, ◌++◌, Some, Dict, lookup, insert,
  erase, IsDict, insert-IsDict, erase-IsDict, lookup-insert, lookup-erase_self, lookup-erase_ne,
  is_some, arith, inl, inr, Bool-cases, if◌then◌else◌, ◌==◌,
}
use ghost_amm.Num.{Num, leb, dec, min, ◌-◌}
use ghost_amm.Events.{Event, Payload}
use ghost_amm.Market.FairPrice.{FairPriceState}
use ghost_amm.Amm.OrderId.{OrderId, order_id_eq, key_eq}
use ghost_amm.Replay.FillModel.{
  FillModel, TrackedOrder, VirtualFill, track, eat_queue, fill_order, drop_done, consume,
  consume_all, on_market_event, fills_of_payload, eligible_orders,
}

Some-later {ℓ} : {A : Type ℓ} (P : A → Type 0) (xs ys : List A) → Some P ys → Some P (xs ++ ys)
Some-later P [] ys h = h
Some-later P (x ∷ xs) ys h = inr (Some-later P xs ys h)

Some-first {ℓ} : {A : Type ℓ} (P : A → Type 0) (xs ys : List A) → Some P xs → Some P (xs ++ ys)
Some-first P [] ys h = absurd h
Some-first P (x ∷ xs) ys (inl h) = inl h
Some-first P (x ∷ xs) ys (inr h) = inr (Some-first P xs ys h)

module _ {F : Type 0} where
  -- Whether the fill model tracks an order with the id.
  abbrev pub is_tracked : OrderId → FillModel F → Bool
  is_tracked id m = is_some (lookup id m.orders)

  pub is_tracked-erase :
      (id j : OrderId) (d : Dict OrderId (TrackedOrder F))
      → IsDict d
      → is_some (lookup id (erase j d)) ≡ (if j == id then false else is_some (lookup id d))
  is_tracked-erase id j d h = elim (Bool-cases (j == id)) [
    | inl e ↦ rw (e, (order_id_eq.beq_iff j id).0 e, lookup-erase_self id d h) refl
    | inr e ↦ rw (e, lookup-erase_ne j id d (λ q. ground (arith, order_id_eq.beq_iff j id))) refl
  ]

  -- The keys stay without repetition, and what is tracked stays so unless a fill names it.
  pub record Keeps (m m' : FillModel F) (fills : List (VirtualFill F)) : Type 0 where
    pub once : IsDict m'.orders
    pub keeps :
        (id : OrderId)
        → is_tracked id m ≡ true
        → (is_tracked id m' ≡ true) ⊎ Some (λ f. f.order_id ≡ id) fills

  Keeps-trans :
      (m m' m'' : FillModel F) (fs gs : List (VirtualFill F))
      → Keeps m m' fs
      → Keeps m' m'' gs
      → Keeps m m'' (fs ++ gs)
  Keeps-trans m m' m'' fs gs h k = record {
    once = k.once;
    keeps = λ id t. elim (h.keeps id t) [
      | inl u ↦ elim (k.keeps id u) [ inl v ↦ inl v | inr s ↦ inr (Some-later _ fs gs s) ]
      | inr s ↦ inr (Some-first _ fs gs s)
    ];
  }

  Keeps-refl : (m : FillModel F) → IsDict m.orders → Keeps m m []
  Keeps-refl m h = record { once = h; keeps = λ id t. inl t }

  insert-keeps :
      (id : OrderId) (o : TrackedOrder F) (d : Dict OrderId (TrackedOrder F))
      → is_some (lookup id d) ≡ true
      → is_some (lookup id (insert o.order_id o d)) ≡ true
  insert-keeps id o d h = ground (arith, lookup-insert o.order_id id o d)

  insert-erase-keeps :
      (id : OrderId) (o : TrackedOrder F) (d : Dict OrderId (TrackedOrder F)) (f : VirtualFill F)
      → IsDict d
      → f.order_id ≡ o.order_id
      → is_some (lookup id d) ≡ true
      → (is_some (lookup id (erase o.order_id (insert o.order_id o d))) ≡ true)
        ⊎ Some (λ f. f.order_id ≡ id) (f ∷ [])
  insert-erase-keeps id o d f once e h = elim (Bool-cases (o.order_id == id)) [
    | inl t ↦ inr (inl (e ∙ (order_id_eq.beq_iff o.order_id id).0 t))
    | inr t ↦ inl (
        is_tracked-erase id o.order_id (insert o.order_id o d) (insert-IsDict o.order_id o d once)
        ∙ rw t (insert-keeps id o d h))
  ]

module _ {F : Type 0} ⦃n : Num F⦄ where
  track-Keeps : (m : FillModel F) (o : TrackedOrder F) → IsDict m.orders → Keeps m (track m o) []
  unfolding track
  track-Keeps m o h = record {
    once = insert-IsDict o.order_id o m.orders h;
    keeps = λ id t. inl (insert-keeps id o m.orders t);
  }

  pick-Keeps-all :
      (m : FillModel F) (c : Bool) (x y : FillModel F × List (VirtualFill F) × F)
      → Keeps m x.0 x.1
      → Keeps m y.0 y.1
      → Keeps m (if c then x else y).0 (if c then x else y).1
  pick-Keeps-all m true x y h k = h
  pick-Keeps-all m false x y h k = k

  pick-Keeps :
      (m x y : FillModel F) (c : Bool) (fills : List (VirtualFill F))
      → Keeps m x fills
      → Keeps m y fills
      → Keeps m (if c then x else y) fills
  pick-Keeps m x y true fills h k = h
  pick-Keeps m x y false fills h k = k

  -- A tracked order that a fill names.
  drop_done-Keeps :
      (m m' : FillModel F) (o : TrackedOrder F) (f : VirtualFill F)
      → IsDict m.orders
      → m'.orders ≡ insert o.order_id o m.orders
      → f.order_id ≡ o.order_id
      → Keeps m (drop_done m' o) (f ∷ [])
  unfolding drop_done
  drop_done-Keeps m m' o f h e id =
      let once = insert-IsDict o.order_id o m.orders h in
      pick-Keeps m (record m' { orders = erase o.order_id m'.orders }) m'
        (leb o.remaining_size (dec 1 12)) (f ∷ [])
        (record {
          once = rw e (erase-IsDict o.order_id _ once);
          keeps = λ j t. rw e (insert-erase-keeps j o m.orders f h id t);
        })
        (record { once = rw e once; keeps = λ j t. inl (rw e (insert-keeps j o m.orders t)) })

  fill_order-Keeps :
      (m : FillModel F) (o : TrackedOrder F) (flow ts : F) (fair : Option F)
      → IsDict m.orders
      → Keeps m (fill_order m o flow ts fair).0 (fill_order m o flow ts fair).1
  unfolding fill_order track
  fill_order-Keeps m o flow ts fair h =
      pick-Keeps-all m (leb (min o.remaining_size flow) (dec 0 0)) (track m o, [], flow) _
        (track-Keeps m o h)
        (drop_done-Keeps m _
          (record o { remaining_size = o.remaining_size - min o.remaining_size flow }) _ h refl
          refl)

  consume-Keeps :
      (m : FillModel F) (o : TrackedOrder F) (amount ts : F) (fair : Option F)
      → IsDict m.orders
      → Keeps m (consume m o amount ts fair).0 (consume m o amount ts fair).1
  unfolding consume
  consume-Keeps m o amount ts fair h =
      pick-Keeps-all m _ _ _ (track-Keeps m (eat_queue o amount).0 h)
        (fill_order-Keeps m (eat_queue o amount).0 (eat_queue o amount).1 ts fair h)

  consume_all-Keeps :
      (m : FillModel F) (os : List (TrackedOrder F)) (amount ts : F) (fair : Option F)
      → IsDict m.orders
      → Keeps m (consume_all m os amount ts fair).0 (consume_all m os amount ts fair).1
  unfolding consume_all
  consume_all-Keeps m [] amount ts fair h = Keeps-refl m h
  consume_all-Keeps m (o ∷ os) amount ts fair h =
      let first = consume-Keeps m o amount ts fair h in
      pick-Keeps-all m (leb amount (dec 0 0)) (m, [], amount) _ (Keeps-refl m h)
        (Keeps-trans m (consume m o amount ts fair).0 _ (consume m o amount ts fair).1 _ first (
          consume_all-Keeps (consume m o amount ts fair).0 os (consume m o amount ts fair).2 ts fair
            first.once))

  fills_of_payload-Keeps :
      (m : FillModel F) (p : Payload F) (ts : F) (fair : Option F)
      → IsDict m.orders
      → Keeps m (fills_of_payload m p ts fair).0 (fills_of_payload m p ts fair).1
  fills_of_payload-Keeps m (Payload.trade price amount side) ts fair h =
      consume_all-Keeps m (eligible_orders m side price ts) amount ts fair h
  fills_of_payload-Keeps m p ts fair h = Keeps-refl m h

  pub on_market_event-Keeps :
      (m : FillModel F) (e : Event F) (fair : FairPriceState F)
      → IsDict m.orders
      → Keeps m (on_market_event m e fair).0 (on_market_event m e fair).1
  unfolding on_market_event
  on_market_event-Keeps m e fair h = fills_of_payload-Keeps m e.payload e.ts_exchange fair.fair h
