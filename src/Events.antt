-- ===== src/Events.antt =====
-- ghost_amm/events.py: the events that the program is fed, after their payload was read. A payload's
-- dict is a constructor with the keys that the code reads, each number already a float.
use ghost_amm.Base.{Option, none, some, String, List}
use ghost_amm.Base.Int.{ℤ}
use ghost_amm.Num.{Num}
use ghost_amm.Exchange.BitbankRules.{Side, BitbankPairSpec, BitbankStatus}

-- `int | str | None`
pub data Sequence : Type 0 where
  absent : Sequence
  int : ℤ → Sequence
  text : String → Sequence

-- What `dict.get` and `float` find at a key whose value the code tries to read: no such key, None,
-- something that `float` refuses, or a number.
pub data Field (F : Type 0) : Type 0 where
  missing null unreadable : Field F
  number : F → Field F

pub record ExternalFair (F : Type 0) : Type 0 where
  pub fair_jpy : Field F
  pub fair : Field F
  pub btc_usd : Field F
  pub btc_price : Field F
  pub usd_jpy : Field F
  pub fx_rate_jpy : Field F
  -- `none` for a source that is missing, None or empty
  pub source : Option String
  pub spread_bps : Field F
  pub confidence : Field F
  pub ts_ms : Field F

pub data Payload (F : Type 0) : Type 0 where
  order_book_snapshot order_book_delta : List (F × F) → List (F × F) → Payload F
  trade : (price amount : F) → Side → Payload F
  bitbank_ticker : (buy sell last : Field F) → Payload F
  external_fair_price : ExternalFair F → Payload F
  bitbank_pair_spec : BitbankPairSpec F → Payload F
  -- `none` where the payload lacks "status" or "min_amount"
  bitbank_status : Option (BitbankStatus F) → Payload F
  -- any other type, by its name, with its payload as JSON
  other_event : (name payload : String) → Payload F

pub record Event (F : Type 0) : Type 0 where
  pub ts_exchange : F
  pub ts_local : F
  pub venue : String
  pub symbol : String
  pub sequence : Sequence
  pub payload : Payload F

module _ {F : Type 0} where
  unfoldable pub event_type : Payload F → String
  event_type (order_book_snapshot bids asks) = "order_book_snapshot"
  event_type (order_book_delta bids asks) = "order_book_delta"
  event_type (trade price amount side) = "trade"
  event_type (bitbank_ticker buy sell last) = "bitbank_ticker"
  event_type (external_fair_price e) = "external_fair_price"
  event_type (bitbank_pair_spec s) = "bitbank_pair_spec"
  event_type (bitbank_status s) = "bitbank_status"
  event_type (other_event name payload) = name

-- `_to_int` of market/orderbook.py and replay/engine.py
unfoldable pub to_int : (F : Type 0) ⦃n : Num F⦄ → Sequence → Option ℤ
to_int F absent = none
to_int F (int k) = some k
to_int F ⦃n⦄ (text s) = n.parse_int s
