-- ===== src/Exchange/BitbankRules.antt =====
-- ghost_amm/exchange/bitbank_rules.py: pair metadata, exchange status and order validation.
use ghost_amm.Base.{
  ℕ, Bool, true, false, not, ◌&&◌, ◌||◌, Option, none, some, String, ◌==◌, if◌then◌else◌, string_eq,
  Eq, ◌≡◌, ◌↔◌, arith,
}
use ghost_amm.Base.Int.{ℤ, pos, pos_part}
use Prim.Native.Nat.{suc, ◌^◌}
use ghost_amm.Num.{Num, ltb, leb, dec, ◌+◌, ◌*◌, ◌/◌, num_eq}

-- The side of an order or trade: a text in the source, compared with "buy" and "sell" only.
pub data Side : Type 0 where
  buy sell : Side
  other_side : String → Side

abbrev pub is_buy : Side → Bool
is_buy buy = true
is_buy sell = false
is_buy (other_side s) = false

abbrev pub is_sell : Side → Bool
is_sell buy = false
is_sell sell = true
is_sell (other_side s) = false

abbrev side_beq : Side → Side → Bool
side_beq buy buy = true
side_beq sell sell = true
side_beq (other_side s) (other_side t) = s == t
side_beq _ _ = false

pub side_beq_iff : (a b : Side) → (side_beq a b ≡ true) ↔ (a ≡ b)
side_beq_iff buy b = ground arith
side_beq_iff sell b = ground arith
side_beq_iff (other_side s) (other_side t) = ground (arith, string_eq.beq_iff s t)
side_beq_iff (other_side s) b = ground arith

instance abbrev pub side_eq : Eq Side
side_eq = record { beq = side_beq; beq_iff = side_beq_iff }

pub record BitbankPairSpec (F : Type 0) : Type 0 where
  pub name : String
  pub base_asset : String
  pub quote_asset : String
  pub unit_amount : F
  pub limit_max_amount : F
  pub price_digits : ℤ
  pub amount_digits : ℤ
  pub maker_fee_rate_base : F
  pub maker_fee_rate_quote : F
  pub taker_fee_rate_base : F
  pub taker_fee_rate_quote : F
  pub is_enabled : Bool
  pub stop_order : Bool
  pub stop_order_and_cancel : Bool
  pub stop_buy_order : Bool
  pub stop_sell_order : Bool

-- 10 ^ k
abbrev ten_power : ℕ → ℕ
ten_power k = 10 ^ k

pub record BitbankStatus (F : Type 0) : Type 0 where
  pub pair : String
  pub status : String
  pub min_amount : F

module _ {F : Type 0} where
  unfoldable pub is_normal : BitbankStatus F → Bool
  is_normal s = s.status == "NORMAL"

module _ {F : Type 0} ⦃n : Num F⦄ where
  -- `10.0 ** (-digits)`: a literal where digits is not negative.
  abbrev pub ten_to_minus : ℤ → F
  ten_to_minus (ℤ.pos k) = n.dec 1 k
  ten_to_minus (ℤ.negsuc k) = n.of_int (pos (ten_power (suc k)))

  unfoldable pub tick_size : BitbankPairSpec F → F
  tick_size s = ten_to_minus s.price_digits

  unfoldable pub lot_size : BitbankPairSpec F → F
  lot_size s = ten_to_minus s.amount_digits

  pub maker_fee_bps_quote : BitbankPairSpec F → F
  maker_fee_bps_quote s = s.maker_fee_rate_quote * dec 10_000 0

  -- `max(0, int(round(-math.log10(step)))) if step < 1 else 0`
  unfoldable pub step_decimals : F → ℕ
  step_decimals step = if ltb step (dec 1 0) then pos_part (n.round (n.neg (n.log10 step))) else 0

  unfoldable pub floor_to_step : F → F → F
  floor_to_step value step =
      if leb step (dec 0 0)
      then value
      else n.round_to (n.floor ((value + step * dec 1 9) / step) * step) (step_decimals step)

  unfoldable pub round_price : BitbankPairSpec F → F → F
  round_price s price = floor_to_step price (tick_size s)

  unfoldable pub round_amount : BitbankPairSpec F → F → F
  round_amount s amount = floor_to_step amount (lot_size s)

  -- `(True, None)` is `none`, and `(False, reason)` is `some reason`.
  unfoldable pub validate_order : BitbankPairSpec F → Side → F → F → Option String
  validate_order s side price amount =
      if not (s.name == "btc_jpy")
      then some "mvp_pair_must_be_btc_jpy"
      else if not s.is_enabled
      then some "pair_disabled"
      else if s.stop_order || s.stop_order_and_cancel
      then some "pair_order_stopped"
      else if is_buy side && s.stop_buy_order
      then some "buy_stopped"
      else if is_sell side && s.stop_sell_order
      then some "sell_stopped"
      else if ltb amount s.unit_amount
      then some "amount_below_unit_amount"
      else if ltb s.limit_max_amount amount
      then some "amount_above_limit_max_amount"
      else if not (round_amount s amount == amount)
      then some "amount_precision_invalid"
      else if not (round_price s price == price)
      then some "price_precision_invalid"
      else none

  unfoldable pub fallback_btc_jpy_spec : BitbankPairSpec F
  fallback_btc_jpy_spec = record {
    name = "btc_jpy";
    base_asset = "btc";
    quote_asset = "jpy";
    unit_amount = dec 1 4;
    limit_max_amount = dec 1_000 0;
    price_digits = pos 0;
    amount_digits = pos 4;
    maker_fee_rate_base = dec 0 0;
    maker_fee_rate_quote = dec 0 0;
    taker_fee_rate_base = dec 0 0;
    taker_fee_rate_quote = dec 0 0;
    is_enabled = true;
    stop_order = false;
    stop_order_and_cancel = false;
    stop_buy_order = false;
    stop_sell_order = false;
  }
