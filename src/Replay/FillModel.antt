-- ===== src/Replay/FillModel.antt =====
-- ghost_amm/replay/fill_model.py: when the virtual orders are filled by the trades of the market.
use ghost_amm.Base.{
  ℕ, zero, suc, Bool, true, false, not, ◌&&◌, ◌||◌, Option, none, some, String, List, [], ◌∷◌, ◌++◌,
  Dict, values, lookup, insert, erase, ◌==◌, if◌then◌else◌, filter,
}
use ghost_amm.Num.{Num, num_eq, ltb, leb, dec, max, min, ◌+◌, ◌-◌, ◌*◌, ◌/◌}
use ghost_amm.Exchange.BitbankRules.{Side, is_buy, is_sell}
use ghost_amm.Events.{Payload, Event}
use ghost_amm.Market.OrderBook.{OrderBook, queue_at}
use ghost_amm.Market.FairPrice.{FairPriceState}
use ghost_amm.Market.Shock.{Direction}
use ghost_amm.Amm.OrderId.{OrderId, order_id_eq, id_lt}
use ghost_amm.Amm.Projector.{ActiveVirtualOrder}
pub mod Flow
pub mod Keeping
pub mod Priority
mod Tests

pub record TrackedOrder (F : Type 0) : Type 0 where
  pub order_id : OrderId
  pub side : Side
  pub price : F
  pub remaining_size : F
  pub created_at : F
  pub queue_ahead : F
  pub fair_at_creation : F
  pub activation : F
  pub shock_event_id : Option String
  pub shock_direction : Direction
  pub shock_age_ms : Option F

pub record FillModel (F : Type 0) : Type 0 where
  pub queue_ahead_multiplier : F
  pub maker_fee_bps : F
  pub min_resting_time_ms : F
  pub orders : Dict OrderId (TrackedOrder F)
  pub counter : ℕ

-- The payload of a "virtual_fill" event; the sequence is the text `fill-{counter}`.
pub record VirtualFill (F : Type 0) : Type 0 where
  pub counter : ℕ
  pub order_id : OrderId
  pub side : Side
  pub fill_price : F
  pub fill_size : F
  pub fill_ts : F
  pub fee : F
  pub maker_fee_bps : F
  pub queue_ahead_estimate : F
  pub fair_at_fill : Option F
  pub fair_after_1s : Option F
  pub fair_after_5s : Option F
  pub fair_after_30s : Option F
  pub activation : F
  pub shock_event_id : Option String
  pub shock_direction : Direction
  pub shock_age_ms : Option F

module _ {F : Type 0} where
  unfoldable pub set_maker_fee_bps : FillModel F → F → FillModel F
  set_maker_fee_bps m fee = record m { maker_fee_bps = fee }

  unfoldable pub on_cancel : FillModel F → OrderId → FillModel F
  on_cancel m id = record m { orders = erase id m.orders }

module _ {F : Type 0} ⦃n : Num F⦄ where
  unfoldable pub tracked : FillModel F → ActiveVirtualOrder F → OrderBook F → TrackedOrder F
  tracked m o b = record {
    order_id = o.order_id;
    side = o.side;
    price = o.price;
    remaining_size = o.size;
    created_at = o.created_at;
    queue_ahead =
        max (queue_at b o.side o.price * m.queue_ahead_multiplier)
          (o.size * m.queue_ahead_multiplier);
    fair_at_creation = o.fair_price_at_creation;
    activation = o.activation;
    shock_event_id = o.shock_event_id;
    shock_direction = o.shock_direction;
    shock_age_ms = o.shock_age_ms;
  }

  -- `on_virtual_order`, from the order in the payload of a "virtual_order_placed" event.
  unfoldable pub on_virtual_order : FillModel F → ActiveVirtualOrder F → OrderBook F → FillModel F
  unfolding tracked
  on_virtual_order m o b = record m { orders = insert o.order_id (tracked m o b) m.orders }

  unfoldable pub is_eligible : FillModel F → Side → F → F → TrackedOrder F → Bool
  is_eligible m trade_side trade_price now o =
      if ltb (now - o.created_at) m.min_resting_time_ms
      then false
      else if is_buy o.side && is_sell trade_side && leb trade_price o.price
      then true
      else is_sell o.side && is_buy trade_side && leb o.price trade_price

  -- `<` on the keys by which the eligible orders are sorted.
  unfoldable pub precedes : Bool → TrackedOrder F → TrackedOrder F → Bool
  precedes sells a b =
      if a.price == b.price
      then (if a.created_at == b.created_at
          then id_lt a.order_id b.order_id
          else ltb a.created_at b.created_at)
      else if sells
      then ltb (n.neg a.price) (n.neg b.price)
      else ltb a.price b.price

  -- `sorted`, which is stable: an order goes behind those that it does not precede.
  unfoldable pub insert_order :
      Bool → TrackedOrder F → List (TrackedOrder F) → List (TrackedOrder F)
  insert_order sells o [] = o ∷ []
  insert_order sells o (x ∷ xs) =
      if precedes sells x o then x ∷ insert_order sells o xs else o ∷ x ∷ xs

  unfoldable pub sort_orders : Bool → List (TrackedOrder F) → List (TrackedOrder F)
  sort_orders sells [] = []
  sort_orders sells (x ∷ xs) = insert_order sells x (sort_orders sells xs)

  unfoldable pub eligible_orders : FillModel F → Side → F → F → List (TrackedOrder F)
  unfolding sort_orders
  eligible_orders m trade_side trade_price now =
      sort_orders (is_sell trade_side)
        (filter (is_eligible m trade_side trade_price now) (values m.orders))

  abbrev fill_of : FillModel F → TrackedOrder F → F → F → Option F → VirtualFill F
  fill_of m o fill_size ts fair = record {
    counter = suc m.counter;
    order_id = o.order_id;
    side = o.side;
    fill_price = o.price;
    fill_size = fill_size;
    fill_ts = ts;
    fee = o.price * fill_size * m.maker_fee_bps / dec 10_000 0;
    maker_fee_bps = m.maker_fee_bps;
    queue_ahead_estimate = o.queue_ahead;
    fair_at_fill = fair;
    fair_after_1s = none;
    fair_after_5s = none;
    fair_after_30s = none;
    activation = o.activation;
    shock_event_id = o.shock_event_id;
    shock_direction = o.shock_direction;
    shock_age_ms = o.shock_age_ms;
  }

  -- The order after the flow ate into the queue before it, and the flow that is left.
  unfoldable pub eat_queue : TrackedOrder F → F → TrackedOrder F × F
  eat_queue o flow =
      let reduction = min o.queue_ahead flow in
      if ltb (dec 0 0) o.queue_ahead
      then (record o { queue_ahead = o.queue_ahead - reduction }, flow - reduction)
      else (o, flow)

  -- The order is mutated in place, so the dict holds the order as the call leaves it.
  unfoldable pub track : FillModel F → TrackedOrder F → FillModel F
  track m o = record m { orders = insert o.order_id o m.orders }

  -- The end of a fill: an order that is done goes.
  unfoldable pub drop_done : FillModel F → TrackedOrder F → FillModel F
  drop_done m o =
      if leb o.remaining_size (dec 1 12) then record m { orders = erase o.order_id m.orders } else m

  -- The fill of an order whose queue is gone: the model, the fill and the flow that is left.
  unfoldable pub fill_order :
      FillModel F → TrackedOrder F → F → F → Option F → FillModel F × List (VirtualFill F) × F
  unfolding track
  fill_order m o flow ts fair =
      let fill_size = min o.remaining_size flow in
      let o' = record o { remaining_size = o.remaining_size - fill_size } in
      let m' = record (track m o') { counter = suc m.counter } in
      if leb fill_size (dec 0 0)
      then (track m o, [], flow)
      else (drop_done m' o', fill_of m o fill_size ts fair ∷ [], flow - fill_size)

  unfoldable pub consume :
      FillModel F → TrackedOrder F → F → F → Option F → FillModel F × List (VirtualFill F) × F
  consume m o trade_amount ts fair =
      let (o', flow) = eat_queue o trade_amount in
      if ltb (dec 0 0) o'.queue_ahead || leb flow (dec 0 0)
      then (track m o', [], flow)
      else fill_order m o' flow ts fair

  -- The loop of `on_market_event` over the eligible orders.
  unfoldable pub consume_all :
      FillModel F
      → List (TrackedOrder F)
      → F
      → F
      → Option F
      → FillModel F × List (VirtualFill F) × F
  consume_all m [] amount ts fair = (m, [], amount)
  consume_all m (o ∷ rest) amount ts fair =
      let (m', fills, left) = consume m o amount ts fair in
      let (m'', more, end) = consume_all m' rest left ts fair in
      if leb amount (dec 0 0) then (m, [], amount) else (m'', fills ++ more, end)

  abbrev fills_of_payload :
      FillModel F → Payload F → F → Option F → FillModel F × List (VirtualFill F)
  fills_of_payload m (Payload.trade price amount side) ts fair =
      let (m', fills, _) = consume_all m (eligible_orders m side price ts) amount ts fair in
      (m', fills)
  fills_of_payload m _ ts fair = (m, [])

  unfoldable pub on_market_event :
      FillModel F → Event F → FairPriceState F → FillModel F × List (VirtualFill F)
  on_market_event m e fair = fills_of_payload m e.payload e.ts_exchange fair.fair
