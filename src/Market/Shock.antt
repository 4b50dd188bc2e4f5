-- ===== src/Market/Shock.antt =====
-- ghost_amm/market/shock.py: forced flow, and how active the quotes are after a shock.
use ghost_amm.Base.{
  map, filter, Bool, true, false, not, ◌&&◌, ◌||◌, Option, none, some, String, List, [], ◌∷◌, ◌++◌,
  if◌then◌else◌, ◌==◌, string_eq,
}
use ghost_amm.Num.{Num, ltb, leb, dec, max, min, ◌+◌, ◌-◌, ◌*◌, ◌/◌}
use ghost_amm.Exchange.BitbankRules.{Side, is_buy, is_sell}
use ghost_amm.Events.{Payload, Event, Sequence}
use ghost_amm.Market.OrderBook.{OrderBook, depth_around_mid}
use ghost_amm.Market.FairPrice.{FairPriceState}
pub mod Activation
pub mod Spacing
mod Tests

pub data Direction : Type 0 where
  neutral sell_shock buy_shock : Direction

pub record ShockState (F : Type 0) : Type 0 where
  pub activation : F
  pub force_ratio : F
  pub recent_taker_buy_notional : F
  pub recent_taker_sell_notional : F
  pub depth_20bps : F
  pub last_shock_ts : Option F
  pub reason : Option String
  pub direction : Direction
  pub bid_activation : F
  pub ask_activation : F
  pub last_shock_event_id : Option String
  pub shock_age_ms : Option F

-- The payload of a "forced_flow" event, with the event's time.
pub record ForcedFlow (F : Type 0) : Type 0 where
  pub ts : F
  pub sequence : Sequence
  pub force_ratio : F
  pub recent_taker_buy_notional : F
  pub recent_taker_sell_notional : F
  pub depth_20bps : F
  pub direction : Direction

pub record TakerTrade (F : Type 0) : Type 0 where
  pub ts : F
  pub side : Side
  pub notional : F

pub record Window (F : Type 0) : Type 0 where
  pub trades : List (TakerTrade F)
  pub buy : F
  pub sell : F
  pub depth : F
  pub force_ratio : F
  pub direction : Direction

pub record ShockActivator (F : Type 0) : Type 0 where
  pub window_ms : F
  pub depth_bps : F
  pub threshold : F
  pub temperature : F
  pub minimum_wait_after_shock_ms : F
  pub activation_decay_ms : F
  pub opposite_side_activation_ratio : F
  pub trades : List (TakerTrade F)
  pub last_shock_ts : Option F
  pub last_shock_event_id : Option String
  pub last_shock_direction : Direction

-- `fair_state.reason or "invalid_fair"`
abbrev invalid_reason : Option String → String
invalid_reason none = "invalid_fair"
invalid_reason (some r) = if r == "" then "invalid_fair" else r

module _ {F : Type 0} ⦃n : Num F⦄ where
  unfoldable pub pressure_direction : F → F → Direction
  pressure_direction buy sell =
      if ltb buy sell
      then Direction.sell_shock
      else if ltb sell buy
      then Direction.buy_shock
      else Direction.neutral

  -- The activations of bids and asks.
  unfoldable pub side_activations : F → Direction → F → F × F
  side_activations activation direction opposite_ratio =
      let opposite = max (dec 0 0) (min (dec 1 0) opposite_ratio) * activation in
      elim direction [
        | sell_shock ↦ (activation, opposite)
        | buy_shock ↦ (opposite, activation)
        | neutral ↦ (dec 0 0, dec 0 0)
      ]

  -- `_expire`: a deque loses its front while that is older than the window.
  unfoldable pub expire : F → F → List (TakerTrade F) → List (TakerTrade F)
  expire window now [] = []
  expire window now (t ∷ ts) = if ltb window (now - t.ts) then expire window now ts else t ∷ ts

  -- `self.trades` with the event's own trade.
  abbrev add_trade : F → Payload F → List (TakerTrade F) → List (TakerTrade F)
  add_trade now (Payload.trade price amount side) ts =
      ts ++ record { ts = now; side = side; notional = price * amount } ∷ []
  add_trade now _ ts = ts

  -- `sum(n for _, side, n in self.trades if test(side))`
  unfoldable pub notional_of : (Side → Bool) → List (TakerTrade F) → F
  notional_of test ts = n.sum (map (λ t. t.notional) (filter (λ t. test t.side) ts))

  abbrev is_due : Option F → F → F → Bool
  is_due none now window = true
  is_due (some last) now window = ltb window (now - last)

  -- The activation since the last shock: its value, the direction, the age, the reason.
  abbrev pub aftershock : ShockActivator F → F → F → Option F → F × Direction × Option F × String
  aftershock a force_ratio now none = (dec 0 0, Direction.neutral, none, "no_recent_shock")
  aftershock a force_ratio now (some last) =
      let age = now - last in
      let raw = dec 1 0 / (dec 1 0 + n.exp (n.neg a.temperature * (force_ratio - a.threshold))) in
      let decay = n.exp (n.neg age / max a.activation_decay_ms (dec 1 0)) in
      if ltb age a.minimum_wait_after_shock_ms
      then (dec 0 0, a.last_shock_direction, some age, "waiting_after_shock")
      else (
        max (dec 0 0) (min (dec 1 0) (raw * decay)),
        a.last_shock_direction,
        some age,
        "aftershock_rebuild",
      )

  abbrev pub gated :
      FairPriceState F → F × Direction × Option F × String → F × Direction × Option F × String
  gated fair (activation, direction, age, reason) =
      if fair.is_valid
      then (activation, direction, age, reason)
      else (dec 0 0, Direction.neutral, age, invalid_reason fair.reason)

  -- The sums over the window, with the event's own trade in it.
  unfoldable pub observe : ShockActivator F → Event F → OrderBook F → Window F
  observe a e b =
      let now = e.ts_exchange in
      let trades = expire a.window_ms now (add_trade now e.payload a.trades) in
      let buy = notional_of is_buy trades in
      let sell = notional_of is_sell trades in
      let depth = depth_around_mid b a.depth_bps in
      record {
        trades = trades;
        buy = buy;
        sell = sell;
        depth = depth;
        force_ratio = max buy sell / max depth (dec 1 0);
        direction = pressure_direction buy sell;
      }

  -- The shock event, if the force reaches the threshold and none was sent within the window.
  unfoldable pub shock_of : ShockActivator F → Event F → Window F → Option (ForcedFlow F)
  shock_of a e w =
      if leb a.threshold w.force_ratio && is_due a.last_shock_ts e.ts_exchange a.window_ms
      then some (record {
        ts = e.ts_exchange;
        sequence = e.sequence;
        force_ratio = w.force_ratio;
        recent_taker_buy_notional = w.buy;
        recent_taker_sell_notional = w.sell;
        depth_20bps = w.depth;
        direction = w.direction;
      })
      else none

  -- `event_id` is the digest that `make_event` gives the event that it makes.
  unfoldable pub remember :
      (ForcedFlow F → String)
      → List (TakerTrade F)
      → Option (ForcedFlow F)
      → ShockActivator F
      → ShockActivator F
  remember event_id trades none a = record a { trades = trades }
  remember event_id trades (some shock) a = record a {
    trades = trades;
    last_shock_ts = some shock.ts;
    last_shock_event_id = some (event_id shock);
    last_shock_direction = shock.direction;
  }

  unfoldable pub state_of : ShockActivator F → Window F → FairPriceState F → F → ShockState F
  state_of a w fair now =
      let (activation, direction, age, reason) =
        gated fair (aftershock a w.force_ratio now a.last_shock_ts) in
      let (bid, ask) = side_activations activation direction a.opposite_side_activation_ratio in
      record {
        activation = activation;
        force_ratio = w.force_ratio;
        recent_taker_buy_notional = w.buy;
        recent_taker_sell_notional = w.sell;
        depth_20bps = w.depth;
        last_shock_ts = a.last_shock_ts;
        reason = some reason;
        direction = direction;
        bid_activation = bid;
        ask_activation = ask;
        last_shock_event_id = a.last_shock_event_id;
        shock_age_ms = age;
      }

  unfoldable pub update :
      (ForcedFlow F → String)
      → ShockActivator F
      → Event F
      → OrderBook F
      → FairPriceState F
      → ShockActivator F × ShockState F × Option (ForcedFlow F)
  update event_id a e b fair =
      let w = observe a e b in
      let shock = shock_of a e w in
      let a' = remember event_id w.trades shock a in (a', state_of a' w fair e.ts_exchange, shock)
