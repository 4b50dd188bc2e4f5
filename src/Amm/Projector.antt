-- ===== src/Amm/Projector.antt =====
-- ghost_amm/amm/projector.py: the quotes of the surface as virtual orders, placed and canceled.
use ghost_amm.Base.{
  ℕ, zero, suc, ◌≡◌, ◌↔◌, refl, Bool, true, false, not, ◌&&◌, ◌||◌, Option, none, some, String,
  List, [], ◌∷◌, ◌++◌, Dict, keys, lookup, insert, erase, Eq, ◌==◌, if◌then◌else◌, filter, take,
  any, arith, string_eq, nat_eq, is_some,
}
use ghost_amm.Num.{Num, num_eq, ltb, leb, dec, max, abs, ◌+◌, ◌-◌, ◌*◌, ◌/◌}
use ghost_amm.Exchange.BitbankRules.{Side, buy, sell, other_side, is_buy}
use ghost_amm.Market.OrderBook.{OrderBook, best_bid, best_ask}
use ghost_amm.Market.Shock.{Direction}
use ghost_amm.Risk.Kernel.{RiskDecision, text_or}
use ghost_amm.Amm.QuoteSurface.{Quote}
use ghost_amm.Amm.OrderId.{OrderId, order_id_eq, Key, key_eq}
pub mod Events
pub mod Replay
pub mod Safety
mod Tests

pub record ActiveVirtualOrder (F : Type 0) : Type 0 where
  pub order_id : OrderId
  pub side : Side
  pub price : F
  pub size : F
  pub level : ℕ
  pub created_at : F
  pub expires_at : F
  pub activation : F
  pub inventory_skew : F
  pub fair_price_at_creation : F
  pub shock_event_id : Option String
  pub shock_direction : Direction
  pub shock_age_ms : Option F

pub record OrderProjector (F : Type 0) : Type 0 where
  pub max_active_orders : ℕ
  pub ttl_ms : F
  pub min_replace_interval_ms : F
  pub replace_threshold_bps : F
  pub size_replace_threshold_ratio : F
  pub active : Dict Key (ActiveVirtualOrder F)
  pub counter : ℕ

-- The events "virtual_order_placed" and "virtual_order_canceled". The payload of the first holds the
-- fields of the order.
pub data ProjectorEvent (F : Type 0) : Type 0 where
  placed : (sequence : ℕ) → ActiveVirtualOrder F → ProjectorEvent F
  canceled :
      (sequence : ℕ) (order_id : OrderId) (reason : String) (side : Side) (price size : F)
      → ProjectorEvent F

-- The arguments of `sync`.
pub record SyncInput (F : Type 0) : Type 0 where
  pub quotes : List (Quote F)
  pub book : OrderBook F
  pub risk : RiskDecision F
  pub now_ms : F

module _ {F : Type 0} where
  abbrev pub key_of : Quote F → Key
  key_of q = record { side = q.side; level = q.level }

  unfoldable pub is_desired : Key → List (Quote F) → Bool
  is_desired k [] = false
  is_desired k (q ∷ qs) = if key_of q == k then true else is_desired k qs

  unfoldable pub cancel_event : ℕ → ActiveVirtualOrder F → String → ProjectorEvent F
  cancel_event sequence o reason = canceled sequence o.order_id reason o.side o.price o.size

  -- The events of `cancel_all`, numbered from the counter.
  unfoldable pub cancel_events :
      ℕ → Dict Key (ActiveVirtualOrder F) → String → List (ProjectorEvent F)
  unfolding cancel_event
  cancel_events counter [] reason = []
  cancel_events counter ((k, o) ∷ rest) reason =
      cancel_event (suc counter) o reason ∷ cancel_events (suc counter) rest reason

  abbrev advance : ℕ → Dict Key (ActiveVirtualOrder F) → ℕ
  advance counter [] = counter
  advance counter (e ∷ rest) = advance (suc counter) rest

  unfoldable pub cancel_all : OrderProjector F → String → OrderProjector F × List (ProjectorEvent F)
  cancel_all p reason = (
    record p { active = []; counter = advance p.counter p.active },
    cancel_events p.counter p.active reason,
  )

  -- The loop of `remove_filled` over the items.
  unfoldable pub without_order :
      OrderId → Dict Key (ActiveVirtualOrder F) → Dict Key (ActiveVirtualOrder F)
  without_order id [] = []
  without_order id ((k, o) ∷ rest) =
      if o.order_id == id then rest else (k, o) ∷ without_order id rest

  unfoldable pub remove_filled : OrderProjector F → OrderId → OrderProjector F
  remove_filled p id = record p { active = without_order id p.active }

module _ {F : Type 0} ⦃n : Num F⦄ where
  abbrev below : F → Option F → Bool
  below price none = false
  below price (some ask) = ltb price ask

  abbrev above : F → Option F → Bool
  above price none = false
  above price (some bid) = ltb bid price

  -- `_post_only_safe` and `_active_post_only_safe`, for a quote's or an order's side and price.
  unfoldable pub post_only_safe : Side → F → OrderBook F → RiskDecision F → Bool
  post_only_safe side price book risk =
      if is_buy side
      then risk.allow_buy && below price (best_ask book)
      else risk.allow_sell && above price (best_bid book)

  unfoldable pub should_keep_existing : OrderProjector F → ActiveVirtualOrder F → Quote F → F → Bool
  should_keep_existing p o q now =
      if leb o.expires_at now
      then false
      else if o.price == q.price && o.size == q.size
      then true
      else if ltb (now - o.created_at) p.min_replace_interval_ms
      then true
      else leb (abs (q.price - o.price) / max o.price (dec 1 12) * dec 10_000 0)
          p.replace_threshold_bps
        && leb (abs (q.size - o.size) / max o.size (dec 1 12)) p.size_replace_threshold_ratio

  unfoldable pub desired_of : OrderProjector F → SyncInput F → List (Quote F)
  desired_of p i =
      take p.max_active_orders (filter (λ q. post_only_safe q.side q.price i.book i.risk) i.quotes)

  unfoldable pub is_stale : SyncInput F → List (Quote F) → Key → ActiveVirtualOrder F → Bool
  is_stale i desired k o =
      not (is_desired k desired)
      || leb o.expires_at i.now_ms
      || not (post_only_safe o.side o.price i.book i.risk)

  -- The loop of `sync` over the active orders: the orders that stay, the counter, the events.
  unfoldable pub drop_stale :
      SyncInput F
      → List (Quote F)
      → ℕ
      → Dict Key (ActiveVirtualOrder F)
      → Dict Key (ActiveVirtualOrder F) × ℕ × List (ProjectorEvent F)
  unfolding cancel_event
  drop_stale i desired counter [] = ([], counter, [])
  drop_stale i desired counter ((k, o) ∷ rest) =
      let gone = drop_stale i desired (suc counter) rest in
      let kept = drop_stale i desired counter rest in
      if is_stale i desired k o
      then (gone.0, gone.1, cancel_event (suc counter) o "stale_or_replaced" ∷ gone.2)
      else ((k, o) ∷ kept.0, kept.1, kept.2)

  unfoldable pub order_of : OrderProjector F → Quote F → F → ℕ → ActiveVirtualOrder F
  order_of p q now counter = record {
    order_id = record { at = n.truncate now; number = counter };
    side = q.side;
    price = q.price;
    size = q.size;
    level = q.level;
    created_at = now;
    expires_at = now + p.ttl_ms;
    activation = q.activation;
    inventory_skew = q.inventory_skew;
    fair_price_at_creation = q.fair;
    shock_event_id = q.shock_event_id;
    shock_direction = q.shock_direction;
    shock_age_ms = q.shock_age_ms;
  }

  unfoldable pub place : OrderProjector F → Quote F → F → OrderProjector F × List (ProjectorEvent F)
  place p q now =
      let counter = suc p.counter in
      let order = order_of p q now counter in
      (
        record p { active = insert (key_of q) order p.active; counter = counter },
        placed counter order ∷ [],
      )

  abbrev project_over :
      OrderProjector F
      → Quote F
      → F
      → Option (ActiveVirtualOrder F)
      → OrderProjector F × List (ProjectorEvent F)
  project_over p q now none = place p q now
  project_over p q now (some existing) =
      let cleared = record p { active = erase (key_of q) p.active; counter = suc p.counter } in
      let next = place cleared q now in
      if should_keep_existing p existing q now
      then (p, [])
      else (next.0, cancel_event (suc p.counter) existing "replaced" ∷ next.1)

  -- One round of the loop of `sync` over the desired quotes.
  unfoldable pub project_one :
      OrderProjector F → Quote F → F → OrderProjector F × List (ProjectorEvent F)
  unfolding cancel_event
  project_one p q now = project_over p q now (lookup (key_of q) p.active)

  unfoldable pub project_all :
      OrderProjector F → List (Quote F) → F → OrderProjector F × List (ProjectorEvent F)
  project_all p [] now = (p, [])
  project_all p (q ∷ qs) now =
      let (p', events) = project_one p q now in
      let (p'', more) = project_all p' qs now in (p'', events ++ more)

  -- `sync` where quoting is allowed.
  unfoldable pub project_quotes :
      OrderProjector F → SyncInput F → OrderProjector F × List (ProjectorEvent F)
  project_quotes p i =
      let desired = desired_of p i in
      let (active, counter, dropped) = drop_stale i desired p.counter p.active in
      let (p', events) =
        project_all (record p { active = active; counter = counter }) desired i.now_ms in
      (p', dropped ++ events)

  -- `risk.reason or "risk_block"`
  unfoldable pub sync : OrderProjector F → SyncInput F → OrderProjector F × List (ProjectorEvent F)
  sync p i =
      if i.risk.allow_quote
      then project_quotes p i
      else cancel_all p (text_or i.risk.reason "risk_block")
