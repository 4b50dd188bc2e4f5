-- ===== src/Amm/QuoteSurface.antt =====
-- ghost_amm/amm/quote_surface.py: the ladder of bids and asks around a fair price.
use ghost_amm.Base.{
  ℕ, zero, suc, Bool, true, false, ◌&&◌, ◌||◌, Option, none, some, String, List, [], ◌∷◌, ◌++◌,
  if◌then◌else◌,
}
use ghost_amm.Base.Int.{pos}
use ghost_amm.Num.{Num, ltb, leb, dec, min, ◌+◌, ◌-◌, ◌*◌, ◌/◌}
use ghost_amm.Exchange.BitbankRules.{
  Side, buy, sell, BitbankPairSpec, tick_size, lot_size, floor_to_step, step_decimals,
}
use ghost_amm.Market.Shock.{Direction}
pub mod Ladder
mod Tests

pub record Quote (F : Type 0) : Type 0 where
  pub side : Side
  pub price : F
  pub size : F
  pub level : ℕ
  pub activation : F
  pub inventory_skew : F
  pub fair : F
  pub shock_event_id : Option String
  pub shock_direction : Direction
  pub shock_age_ms : Option F

-- The section "amm" of the settings, its defaults filled in.
pub record AmmConfig (F : Type 0) : Type 0 where
  pub levels : ℕ
  pub base_order_size : F
  pub half_spread_bps : F
  pub step_bps : F
  pub skew_strength_bps : F
  pub size_skew_strength : F
  pub min_order_size_fallback : F
  pub max_order_size : F
  pub tick_size_fallback_jpy : F
  pub lot_size_fallback_btc : F

pub record QuoteSurface (F : Type 0) : Type 0 where
  pub levels : ℕ
  pub base_order_size : F
  pub half_spread_bps : F
  pub step_bps : F
  pub skew_strength_bps : F
  pub size_skew_strength : F
  pub min_order_size : F
  pub max_order_size : F
  pub tick_size : F
  pub lot_size : F

-- The arguments of `generate`, the two optional activations filled in by the caller.
pub record QuoteInput (F : Type 0) : Type 0 where
  pub fair : F
  pub inventory_skew : F
  pub bid_activation : F
  pub ask_activation : F
  pub shock_event_id : Option String
  pub shock_direction : Direction
  pub shock_age_ms : Option F

module _ {F : Type 0} ⦃n : Num F⦄ where
  abbrev surface_with : AmmConfig F → (tick lot min_size : F) → QuoteSurface F
  surface_with cfg tick lot min_size = record {
    levels = cfg.levels;
    base_order_size = cfg.base_order_size;
    half_spread_bps = cfg.half_spread_bps;
    step_bps = cfg.step_bps;
    skew_strength_bps = cfg.skew_strength_bps;
    size_skew_strength = cfg.size_skew_strength;
    min_order_size = min_size;
    max_order_size = cfg.max_order_size;
    tick_size = tick;
    lot_size = lot;
  }

  unfoldable pub from_config : AmmConfig F → Option (BitbankPairSpec F) → QuoteSurface F
  from_config cfg none =
      surface_with cfg cfg.tick_size_fallback_jpy cfg.lot_size_fallback_btc
        cfg.min_order_size_fallback
  from_config cfg (some spec) = surface_with cfg (tick_size spec) (lot_size spec) spec.unit_amount

  unfoldable pub ceil_to_step : F → F → F
  ceil_to_step value step =
      if leb step (dec 0 0)
      then value
      else n.round_to (n.ceil ((value - step * dec 1 9) / step) * step) (step_decimals step)

  unfoldable pub floor_quote_size : QuoteSurface F → F → Option F
  floor_quote_size s value =
      let size = floor_to_step (min value s.max_order_size) s.lot_size in
      if ltb value s.min_order_size
      then none
      else if leb s.min_order_size size
      then some size
      else none

  abbrev quote_of : QuoteInput F → Side → F → F → ℕ → Option F → List (Quote F)
  quote_of i side activation price level none = []
  quote_of i side activation price level (some size) =
      record {
        side = side;
        price = price;
        size = size;
        level = level;
        activation = activation;
        inventory_skew = i.inventory_skew;
        fair = i.fair;
        shock_event_id = i.shock_event_id;
        shock_direction = i.shock_direction;
        shock_age_ms = i.shock_age_ms;
      }
      ∷ []

  abbrev bid_price : QuoteSurface F → QuoteInput F → F → F
  bid_price s i distance =
      let skew = s.skew_strength_bps * i.inventory_skew / dec 10_000 0 in
      floor_to_step (i.fair * n.exp (n.neg (distance + skew))) s.tick_size

  abbrev ask_price : QuoteSurface F → QuoteInput F → F → F
  ask_price s i distance =
      let skew = s.skew_strength_bps * i.inventory_skew / dec 10_000 0 in
      ceil_to_step (i.fair * n.exp (distance - skew)) s.tick_size

  abbrev bid_size : QuoteSurface F → QuoteInput F → Option F
  bid_size s i =
      floor_quote_size s (
        s.base_order_size
        * i.bid_activation
        * n.exp (n.neg s.size_skew_strength * i.inventory_skew))

  abbrev ask_size : QuoteSurface F → QuoteInput F → Option F
  ask_size s i =
      floor_quote_size s
        (s.base_order_size * i.ask_activation * n.exp (s.size_skew_strength * i.inventory_skew))

  abbrev distance_at : QuoteSurface F → ℕ → F
  distance_at s level =
      s.half_spread_bps / dec 10_000 0 + n.of_int (pos level) * (s.step_bps / dec 10_000 0)

  -- The quotes of one level: a bid, an ask, both or none.
  unfoldable pub level_quotes : QuoteSurface F → QuoteInput F → ℕ → List (Quote F)
  level_quotes s i level =
      let distance = distance_at s level in
      quote_of i buy i.bid_activation (bid_price s i distance) level (bid_size s i)
      ++ quote_of i sell i.ask_activation (ask_price s i distance) level (ask_size s i)

  -- `for level in range(levels)`, with `left` levels to go.
  unfoldable pub quotes_from : QuoteSurface F → QuoteInput F → ℕ → ℕ → List (Quote F)
  quotes_from s i zero level = []
  quotes_from s i (suc left) level = level_quotes s i level ++ quotes_from s i left (suc level)

  unfoldable pub generate : QuoteSurface F → QuoteInput F → List (Quote F)
  generate s i =
      if leb i.fair (dec 0 0) || leb i.bid_activation (dec 0 0) && leb i.ask_activation (dec 0 0)
      then []
      else quotes_from s i s.levels zero
