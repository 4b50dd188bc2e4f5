-- ===== src/Amm/Inventory.antt =====
-- ghost_amm/amm/inventory.py: the balances and their skew.
use ghost_amm.Base.{Bool, true, false, not, ◌&&◌, ◌||◌, Option, none, some, String, if◌then◌else◌}
use ghost_amm.Num.{Num, ltb, leb, dec, ◌+◌, ◌-◌, ◌*◌, ◌/◌}
use ghost_amm.Exchange.BitbankRules.{Side, buy, sell, other_side}
pub mod Fills
mod Tests

pub record InventoryState (F : Type 0) : Type 0 where
  pub base_qty : F
  pub quote_qty : F
  pub target_base_ratio : F
  pub negative_balances_allowed : Bool

-- `base_qty` and `quote_qty` stand in the dict of `snapshot` as they are in the state.
pub record Snapshot (F : Type 0) : Type 0 where
  pub base_qty : F
  pub quote_qty : F
  pub equity : Option F
  pub base_ratio : Option F
  pub skew : Option F

-- The exceptions of `apply_fill`.
pub data FillError : Type 0 where
  unknown_fill_side negative_balances : FillError

module _ {F : Type 0} ⦃n : Num F⦄ where
  abbrev without_ratio : InventoryState F → Option F → Snapshot F
  without_ratio s equity = record {
    base_qty = s.base_qty;
    quote_qty = s.quote_qty;
    equity = equity;
    base_ratio = none;
    skew = none;
  }

  unfoldable pub snapshot : InventoryState F → Option F → Snapshot F
  snapshot s none = without_ratio s none
  snapshot s (some fair) =
      let equity = s.base_qty * fair + s.quote_qty in
      let base_ratio = s.base_qty * fair / equity in
      if leb fair (dec 0 0)
      then without_ratio s none
      else if leb equity (dec 0 0)
      then without_ratio s (some equity)
      else record {
        base_qty = s.base_qty;
        quote_qty = s.quote_qty;
        equity = some equity;
        base_ratio = some base_ratio;
        skew = some (base_ratio - s.target_base_ratio);
      }

  unfoldable pub skew : InventoryState F → Option F → Option F
  skew s fair = (snapshot s fair).skew

  -- `not negative_balances_allowed and (base < -1e-12 or quote < -1e-6)`
  abbrev is_overdrawn : InventoryState F → Bool
  is_overdrawn s =
      not s.negative_balances_allowed
      && (ltb s.base_qty (n.neg (dec 1 12)) || ltb s.quote_qty (n.neg (dec 1 6)))

  -- The check comes after the balances were written, so they stay written when it raises.
  abbrev checked : InventoryState F → InventoryState F × Option FillError
  checked s = (s, if is_overdrawn s then some negative_balances else none)

  -- The state after the call, and the exception that it raised.
  unfoldable pub apply_fill :
      InventoryState F → Side → (price amount fee : F) → InventoryState F × Option FillError
  apply_fill s buy price amount fee = checked (record s {
    base_qty = s.base_qty + amount;
    quote_qty = s.quote_qty - (price * amount + fee);
  })
  apply_fill s sell price amount fee = checked (record s {
    base_qty = s.base_qty - amount;
    quote_qty = s.quote_qty + (price * amount - fee);
  })
  apply_fill s (other_side name) price amount fee = (s, some unknown_fill_side)
