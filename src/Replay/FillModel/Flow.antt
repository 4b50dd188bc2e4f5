-- ===== src/Replay/FillModel/Flow.antt =====
-- The flow of a trade through the orders of replay/fill_model.py: what fills an order, and how much.
use ghost_amm.Base.{
  ◌≡◌, ◌∙◌, refl, ◌⊎◌, Bool, true, false, ◌||◌, Option, List, [], ◌∷◌, ◌++◌, All, All-append,
  All-map, Some, Some-map, Some-filter, values, arith, inl, inr, Bool-cases, filter,
}
use ghost_amm.Num.{Num, IsOrdered, IsArithmetic, ◌≼◌, ◌≺◌, dec, ltb, leb, min, ◌-◌}
use ghost_amm.Num.Order.{le_of_lt, le_of_not_le, lt_of_not_le, min-le_left, min-le_right}
use ghost_amm.Exchange.BitbankRules.{Side, is_buy, is_sell}
use ghost_amm.Events.{Event, Payload}
use ghost_amm.Market.FairPrice.{FairPriceState}
use ghost_amm.Replay.FillModel.{
  FillModel, TrackedOrder, VirtualFill, is_eligible, eat_queue, fill_order, consume, consume_all,
  eligible_orders, insert_order, sort_orders, on_market_event, precedes, fills_of_payload,
}

module _ {F : Type 0} ⦃n : Num F⦄ where
  -- A fill of an order by a flow: at the order's price, of a positive size within both.
  pub record IsFillOf (o : TrackedOrder F) (flow : F) (f : VirtualFill F) : Type 0 where
    pub same_id : f.order_id ≡ o.order_id
    pub same_side : f.side ≡ o.side
    pub same_price : f.fill_price ≡ o.price
    pub positive : dec 0 0 ≺ f.fill_size
    pub within_order : f.fill_size ≼ o.remaining_size
    pub within_flow : f.fill_size ≼ flow

  -- The order rested long enough, and the trade is on the other side at the order's price or through
  -- it.
  pub record IsHit (m : FillModel F) (side : Side) (price now : F) (o : TrackedOrder F)
      : Type 0 where
    pub rested : ltb (now - o.created_at) m.min_resting_time_ms ≡ false
    pub crossed :
        ((is_buy o.side ≡ true) × (is_sell side ≡ true) × (price ≼ o.price))
        ⊎ ((is_sell o.side ≡ true) × (is_buy side ≡ true) × (o.price ≼ price))

  is_eligible-IsHit :
      (m : FillModel F) (side : Side) (price now : F) (o : TrackedOrder F)
      → is_eligible m side price now o ≡ true
      → IsHit m side price now o
  unfolding is_eligible
  is_eligible-IsHit m side price now o h = ground arith

  eligible-Some :
      (P : TrackedOrder F → Type 0) (m : FillModel F) (side : Side) (price now : F)
      → Some P (eligible_orders m side price now)
      → Some P
          (sort_orders (is_sell side) (filter (is_eligible m side price now) (values m.orders)))
  unfolding eligible_orders
  eligible-Some P m side price now h = h

  insert_order-Some :
      (P : TrackedOrder F → Type 0) (sells : Bool) (o : TrackedOrder F) (os : List (TrackedOrder F))
      → Some P (insert_order sells o os)
      → P o ⊎ Some P os
  unfolding insert_order
  insert_order-Some P sells o [] h = h
  insert_order-Some P sells o (x ∷ xs) h = elim (Bool-cases (precedes sells x o)) [
    | inl e ↦ elim (rw e at h) [
      | inl p ↦ inr (inl p)
      | inr q ↦ elim (insert_order-Some P sells o xs q) [ inl p ↦ inl p | inr r ↦ inr (inr r) ]
    ]
    | inr e ↦ rw e at h
  ]

  sort_orders-Some :
      (P : TrackedOrder F → Type 0) (sells : Bool) (os : List (TrackedOrder F))
      → Some P (sort_orders sells os)
      → Some P os
  unfolding sort_orders
  sort_orders-Some P sells [] h = h
  sort_orders-Some P sells (x ∷ xs) h =
      elim (insert_order-Some P sells x (sort_orders sells xs) h) [
        | inl p ↦ inl p
        | inr q ↦ inr (sort_orders-Some P sells xs q)
      ]

module _ {F : Type 0} ⦃n : Num F⦄ (laws : IsOrdered F) (numbers : IsArithmetic F) where
  min_nonneg : (a b : F) → dec 0 0 ≼ a → dec 0 0 ≼ b → dec 0 0 ≼ min a b
  min_nonneg a b h k = ground arith

  -- Each fill is within what the flow has left after the fills before it, and so is what is left at
  -- the end.
  abbrev pub Takes : F → List (VirtualFill F) → F → Type 0
  Takes flow [] left = left ≼ flow
  Takes flow (f ∷ fs) left = (f.fill_size ≼ flow) × Takes (flow - f.fill_size) fs left

  Takes-wider :
      (flow flow' left : F) (fs : List (VirtualFill F))
      → flow ≼ flow'
      → Takes flow fs left
      → Takes flow' fs left
  Takes-wider flow flow' left [] le h = laws.le_trans _ _ _ h le
  Takes-wider flow flow' left (f ∷ fs) le (size, h) = (
    laws.le_trans _ _ _ size le,
    Takes-wider (flow - f.fill_size) (flow' - f.fill_size) left fs
        (numbers.minus_mono flow flow' f.fill_size le) h,
  )

  Takes-append :
      (flow middle left : F) (fs gs : List (VirtualFill F))
      → Takes flow fs middle
      → Takes middle gs left
      → Takes flow (fs ++ gs) left
  Takes-append flow middle left [] gs h k = Takes-wider middle flow left gs h k
  Takes-append flow middle left (f ∷ fs) gs (size, h) k =
      (size, Takes-append (flow - f.fill_size) middle left fs gs h k)

  -- Between nothing and all of the flow is left.
  abbrev Rest : F → F → Type 0
  Rest flow left = (dec 0 0 ≼ left) × (left ≼ flow)

  eat_queue_lem :
      (o : TrackedOrder F) (flow : F)
      → dec 0 0 ≼ flow
      → let (o', left) = eat_queue o flow in
        Rest flow left
        × (o'.order_id ≡ o.order_id)
        × (o'.side ≡ o.side)
        × (o'.price ≡ o.price)
        × (o'.remaining_size ≡ o.remaining_size)
  unfolding eat_queue
  eat_queue_lem o flow h = ground (
    arith,
    laws.le_refl flow,
    le_of_lt laws (dec 0 0) o.queue_ahead,
    min_nonneg o.queue_ahead flow,
    numbers.minus_nonneg flow (min o.queue_ahead flow),
    numbers.minus-le flow (min o.queue_ahead flow),
    min-le_right laws o.queue_ahead flow,
  )

  fill_order_lem :
      (m : FillModel F) (o : TrackedOrder F) (flow ts : F) (fair : Option F)
      → dec 0 0 ≼ flow
      → let (m', fills, left) = fill_order m o flow ts fair in
        Rest flow left × All (IsFillOf o flow) fills
  unfolding fill_order
  fill_order_lem m o flow ts fair h = ground (
    arith,
    laws.le_refl flow,
    lt_of_not_le laws (min o.remaining_size flow) (dec 0 0),
    le_of_not_le laws (min o.remaining_size flow) (dec 0 0),
    min-le_left laws o.remaining_size flow,
    min-le_right laws o.remaining_size flow,
    numbers.minus_nonneg flow (min o.remaining_size flow),
    numbers.minus-le flow (min o.remaining_size flow),
  )

  fill_order-Takes :
      (m : FillModel F) (o : TrackedOrder F) (flow ts : F) (fair : Option F)
      → let (m', fills, left) = fill_order m o flow ts fair in Takes flow fills left
  unfolding fill_order
  fill_order-Takes m o flow ts fair =
      elim (Bool-cases (leb (min o.remaining_size flow) (dec 0 0))) [
        | inl e ↦ rw e (laws.le_refl flow)
        | inr e ↦ rw e (min-le_right laws o.remaining_size flow, laws.le_refl _)
      ]

  refit :
      (o o' : TrackedOrder F) (flow flow' : F)
      → o'.order_id ≡ o.order_id
      → o'.side ≡ o.side
      → o'.price ≡ o.price
      → o'.remaining_size ≡ o.remaining_size
      → flow' ≼ flow
      → (f : VirtualFill F) → IsFillOf o' flow' f
      → IsFillOf o flow f
  refit o o' flow flow' id side price size le f p = record {
    same_id = p.same_id ∙ id;
    same_side = p.same_side ∙ side;
    same_price = p.same_price ∙ price;
    positive = p.positive;
    within_order = rw (← size) p.within_order;
    within_flow = laws.le_trans _ _ _ p.within_flow le;
  }

  widen :
      (o : TrackedOrder F) (flow' flow : F)
      → flow' ≼ flow
      → (f : VirtualFill F) → IsFillOf o flow' f
      → IsFillOf o flow f
  widen o flow' flow le f p = refit o o flow flow' refl refl refl refl le f p

  consume_lem :
      (m : FillModel F) (o : TrackedOrder F) (amount ts : F) (fair : Option F)
      → dec 0 0 ≼ amount
      → let (m', fills, left) = consume m o amount ts fair in
        Rest amount left × All (IsFillOf o amount) fills × Takes amount fills left
  unfolding consume
  consume_lem m o amount ts fair h =
      let (rest, id, side, price, size) = eat_queue_lem o amount h in
      elim (Bool-cases (
        ltb (dec 0 0) (eat_queue o amount).0.queue_ahead || leb (eat_queue o amount).1 (dec 0 0))) [
          | inl e ↦ rw e (rest, tt, rest.1)
          | inr e ↦
              let (left, fills) =
                fill_order_lem m (eat_queue o amount).0 (eat_queue o amount).1 ts fair rest.0 in
              rw e (
                (left.0, laws.le_trans _ _ _ left.1 rest.1),
                All-map _ _
                    (refit o (eat_queue o amount).0 amount (eat_queue o amount).1 id side price size
                      rest.1)
                    _ fills,
                Takes-wider (eat_queue o amount).1 amount _ _ rest.1
                    (fill_order-Takes m (eat_queue o amount).0 (eat_queue o amount).1 ts fair),
              )
        ]

  -- The loop: each fill is of one of the orders, within the whole amount.
  consume_all_lem :
      (m : FillModel F) (os : List (TrackedOrder F)) (amount ts : F) (fair : Option F)
      → dec 0 0 ≼ amount
      → let (m', fills, left) = consume_all m os amount ts fair in
        Rest amount left
        × All (λ f. Some (λ o. IsFillOf o amount f) os) fills
        × Takes amount fills left
  unfolding consume_all
  consume_all_lem m [] amount ts fair h = ((h, laws.le_refl amount), tt, laws.le_refl amount)
  consume_all_lem m (o ∷ os) amount ts fair h =
      let (rest, fills, taken) = consume_lem m o amount ts fair h in
      let (end, more, taken_later) =
        consume_all_lem (consume m o amount ts fair).0 os (consume m o amount ts fair).2 ts fair
          rest.0 in
      elim (Bool-cases (leb amount (dec 0 0))) [
        | inl e ↦ rw e ((h, laws.le_refl amount), tt, laws.le_refl amount)
        | inr e ↦ rw e (
          (end.0, laws.le_trans _ _ _ end.1 rest.1),
          All-append _ _ _ (All-map _ _ (λ f p. inl p) _ fills) (
              All-map _ _ (λ f p. inr (Some-map _ _ (λ x q. widen x _ amount rest.1 f q) os p)) _
                more),
          Takes-append amount _ _ (consume m o amount ts fair).1 _ taken taken_later,
        )
      ]

  -- Where a trade's amount is not negative, every fill of it is of an order that the model tracks,
  -- that rested long enough and that the trade reaches on the other side, at the order's price and of
  -- a positive size within what the order had left; and each fill, in turn, is within what the fills
  -- before it leave of the trade's amount.
  pub on_market_event-fills :
      (m : FillModel F) (e : Event F) (fair : FairPriceState F) (price amount : F) (side : Side)
      → e.payload ≡ Payload.trade price amount side
      → dec 0 0 ≼ amount
      → All
          (λ f.
            Some (λ o. IsHit m side price e.ts_exchange o × IsFillOf o amount f) (values m.orders))
          (on_market_event m e fair).1
        × ((left : F) × Takes amount (on_market_event m e fair).1 left)
  unfolding on_market_event
  on_market_event-fills m e fair price amount side p h =
      let (_, fills, taken) =
        consume_all_lem m (eligible_orders m side price e.ts_exchange) amount e.ts_exchange
          fair.fair h in
      rw (p, fills_of_payload)
        (
          All-map _ _
              (λ f q.
                Some-map _ _ (λ o (t, r). (is_eligible-IsHit m side price e.ts_exchange o t, r))
                  (values m.orders)
                  (Some-filter _ (is_eligible m side price e.ts_exchange) (values m.orders) (
                    sort_orders-Some _ (is_sell side) _
                      (eligible-Some _ m side price e.ts_exchange q))))
              _ fills,
          (_, taken),
        )
