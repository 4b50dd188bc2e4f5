-- ===== src/Risk/Kernel.antt =====
-- ghost_amm/risk/kernel.py: which sides may quote, from the market, the inventory and recent fills.
use ghost_amm.Base.{
  ℕ, suc, Bool, true, false, ◌&&◌, ◌||◌, Option, none, some, String, List, [], ◌∷◌, ◌++◌, ◌==◌,
  if◌then◌else◌, nat_leb, string_eq,
}
use ghost_amm.Num.{Num, ltb, dec, max, ◌+◌, ◌-◌, ◌*◌}
use ghost_amm.Exchange.BitbankRules.{Side, buy, sell, other_side, is_buy, is_sell}

-- The settings that the kernel reads, their defaults filled in; 0 turns a limit off.
pub record RiskConfig (F : Type 0) : Type 0 where
  pub max_order_size : F
  pub max_spread_bps : F
  pub min_depth_20bps_jpy : F
  pub min_activation_to_quote : F
  pub max_abs_skew : F
  pub block_on_unfetched_pair_spec : Bool
  pub block_on_bitbank_status_not_normal : Bool
  pub block_on_pair_stop_flags : Bool
  pub block_on_sequence_ordering_violation : Bool
  pub max_same_side_fills_per_window : ℕ
  pub fill_burst_window_ms : F
  pub fill_burst_cooldown_ms : F
  pub max_fair_drop_bps_1s_for_bid : F
  pub max_fair_rise_bps_1s_for_ask : F
  pub max_fair_drop_bps_5s_for_bid : F
  pub max_fair_rise_bps_5s_for_ask : F
  pub max_last_trade_fair_deviation_bps : F
  pub last_trade_fair_deviation_max_age_ms : F
  pub negative_balances_allowed : Bool
  pub max_base_qty : F
  pub max_quote_usage_jpy : F
  pub initial_quote_qty : Option F
  pub max_inventory_notional_jpy : F
  pub max_one_side_inventory_change_jpy_per_minute : F

-- The dicts that are keyed by a side have the keys "buy" and "sell" only: a value for each.
pub record PerSide {ℓ} (A : Type ℓ) : Type ℓ where
  pub on_buy : A
  pub on_sell : A

abbrev pub at_side {ℓ} : {A : Type ℓ} → Side → PerSide A → A
at_side side p = if is_buy side then p.on_buy else p.on_sell

pub record RiskDecision (F : Type 0) : Type 0 where
  pub allow_quote : Bool
  pub allow_buy : Bool
  pub allow_sell : Bool
  pub max_order_size : F
  pub reason : Option String
  pub blocked_sides : List Side
  pub cooldown_until_ms : Option F
  pub side_block_reasons : PerSide (Option String)

pub record RiskKernel (F : Type 0) : Type 0 where
  pub config : RiskConfig F
  pub fair_history : List (F × F)
  pub fill_history : List (F × Side)
  pub inventory_change_history : List (F × (Side × F))
  pub fill_burst_cooldown_until : PerSide (Option F)
  pub last_trade : Option (F × F)

-- `a or b` on texts: None and the empty text give way.
abbrev pub text_or : Option String → String → String
text_or none d = d
text_or (some s) d = if s == "" then d else s

-- `first.setdefault(side, reason)`
abbrev pub or_reason : Option String → Option String → Option String
or_reason (some r) later = some r
or_reason none later = later

abbrev pub reason_if : Bool → String → Option String
reason_if true reason = some reason
reason_if false reason = none

abbrev pub sides_if : Bool → Bool → List Side
sides_if true true = buy ∷ sell ∷ []
sides_if true false = buy ∷ []
sides_if false true = sell ∷ []
sides_if false false = []

abbrev pub same_side : Side → Side → Bool
same_side a b = is_buy a && is_buy b || is_sell a && is_sell b

abbrev pub set_side {ℓ} : {A : Type ℓ} → Side → A → PerSide A → PerSide A
set_side side a p = if is_buy side then record p { on_buy = a } else record p { on_sell = a }

module _ {F : Type 0} where
  -- `RiskDecision(False, False, False, 0.0, reason)`
  abbrev pub blocked_at : F → String → RiskDecision F
  blocked_at nought reason = record {
    allow_quote = false;
    allow_buy = false;
    allow_sell = false;
    max_order_size = nought;
    reason = some reason;
    blocked_sides = [];
    cooldown_until_ms = none;
    side_block_reasons = record { on_buy = none; on_sell = none };
  }

module _ {F : Type 0} ⦃n : Num F⦄ where
  -- A deque loses its front while that is older than the window; each history has its own entries.
  unfoldable pub expire_history {ℓ} : {A : Type ℓ} → F → F → List (F × A) → List (F × A)
  expire_history window now [] = []
  expire_history window now ((ts, a) ∷ rest) =
      if ltb window (now - ts) then expire_history window now rest else (ts, a) ∷ rest

  unfoldable pub count_side : Side → List (F × Side) → ℕ
  count_side side [] = 0
  count_side side ((ts, s) ∷ rest) =
      if same_side s side then suc (count_side side rest) else count_side side rest

  abbrev add_change : Side → F → Option F → Option F → List (F × (Side × F)) → List (F × (Side × F))
  add_change side ts (some price) (some amount) h =
      h ++ (ts, (side, max (dec 0 0) (price * amount))) ∷ []
  add_change side ts (some price) none h = h
  add_change side ts none amount h = h

  abbrev with_change : RiskKernel F → Side → F → Option F → Option F → RiskKernel F
  with_change k side ts price amount = record k {
    inventory_change_history = add_change side ts price amount k.inventory_change_history;
  }

  -- The burst check of `record_fill`, for a limit that is on.
  unfoldable pub record_burst : RiskKernel F → Side → F → RiskKernel F
  record_burst k side ts =
      let history =
        expire_history k.config.fill_burst_window_ms ts (k.fill_history ++ (ts, side) ∷ []) in
      record k {
        fill_history = history;
        fill_burst_cooldown_until =
            if nat_leb k.config.max_same_side_fills_per_window (count_side side history)
            then set_side side (some (ts + k.config.fill_burst_cooldown_ms))
                k.fill_burst_cooldown_until
            else k.fill_burst_cooldown_until;
      }

  abbrev record_known_fill : RiskKernel F → Side → F → Option F → Option F → RiskKernel F
  record_known_fill k side ts price amount =
      let k' = with_change k side ts price amount in
      if nat_leb k.config.max_same_side_fills_per_window 0 then k' else record_burst k' side ts

  unfoldable pub record_fill : RiskKernel F → Side → F → Option F → Option F → RiskKernel F
  record_fill k buy ts price amount = record_known_fill k buy ts price amount
  record_fill k sell ts price amount = record_known_fill k sell ts price amount
  record_fill k (other_side name) ts price amount = k

  unfoldable pub record_trade : RiskKernel F → F → F → RiskKernel F
  record_trade k price ts =
      if ltb (dec 0 0) price then record k { last_trade = some (ts, price) } else k

  unfoldable pub record_fair : RiskKernel F → F → F → RiskKernel F
  record_fair k now fair = record k {
    fair_history = expire_history (dec 5_000 0) now (k.fair_history ++ (now, fair) ∷ []);
  }
