-- ===== src/Market/Shock/Activation.antt =====
-- The activation of market/shock.py stays between 0 and 1, on each side, and is off without a fair
-- price.
use ghost_amm.Base.{true, false, Bool, Option, none, some, String, arith, if◌then◌else◌}
use ghost_amm.Num.{Num, IsOrdered, IsArithmetic, ◌≼◌, dec, max, min, ◌*◌}
use ghost_amm.Num.Order.{le-max_left, min-le_left}
use ghost_amm.Events.{Event}
use ghost_amm.Market.OrderBook.{OrderBook}
use ghost_amm.Market.FairPrice.{FairPriceState}
use ghost_amm.Market.Shock.{
  ShockActivator, ShockState, Window, ForcedFlow, Direction, side_activations, aftershock, gated,
  state_of, update, observe, shock_of, remember,
}

module _ {F : Type 0} ⦃n : Num F⦄ where
  abbrev pub IsShare : F → Type 0
  IsShare x = (dec 0 0 ≼ x) × (x ≼ dec 1 0)

  -- Each side's activation is a share of 1 that the activation itself bounds.
  pub record IsActivation (s : ShockState F) : Type 0 where
    pub share : IsShare s.activation
    pub bid_share : IsShare s.bid_activation
    pub ask_share : IsShare s.ask_activation
    pub bid-le : s.bid_activation ≼ s.activation
    pub ask-le : s.ask_activation ≼ s.activation

module _ {F : Type 0} ⦃n : Num F⦄ (laws : IsOrdered F) (numbers : IsArithmetic F) where
  clamp-IsShare : (x : F) → IsShare (max (dec 0 0) (min (dec 1 0) x))
  clamp-IsShare x = ground (
    arith,
    le-max_left laws (dec 0 0) (min (dec 1 0) x),
    min-le_left laws (dec 1 0) x,
    numbers.zero-le-one,
  )

  zero-IsShare : IsShare {F = F} (dec 0 0)
  zero-IsShare = (laws.le_refl _, numbers.zero-le-one)

  pick-IsShare :
      (c : Bool) (t u : F × Direction × Option F × String)
      → IsShare t.0
      → IsShare u.0
      → IsShare (if c then t else u).0
  pick-IsShare true t u h k = h
  pick-IsShare false t u h k = k

  aftershock-IsShare :
      (a : ShockActivator F) (force now : F) (last : Option F)
      → IsShare (aftershock a force now last).0
  aftershock-IsShare a force now none = zero-IsShare
  aftershock-IsShare a force now (some last) = pick-IsShare _ _ _ zero-IsShare (clamp-IsShare _)

  scaled-IsShare : (x y : F) → IsShare x → IsShare y → IsShare (x * y) × (x * y ≼ y)
  scaled-IsShare x y h k =
      let le : x * y ≼ y = numbers.times-le x y h.1 k.0 in
      ((numbers.times_nonneg x y h.0 k.0, laws.le_trans _ _ _ le k.1), le)

  side_activations-IsShare :
      (x ratio : F) (d : Direction)
      → IsShare x
      → let (bid, ask) = side_activations x d ratio in
        IsShare bid × IsShare ask × (bid ≼ x) × (ask ≼ x)
  unfolding side_activations
  side_activations-IsShare x ratio Direction.neutral h = (zero-IsShare, zero-IsShare, h.0, h.0)
  side_activations-IsShare x ratio Direction.sell_shock h =
      let (share, le) = scaled-IsShare _ x (clamp-IsShare ratio) h in (h, share, laws.le_refl x, le)
  side_activations-IsShare x ratio Direction.buy_shock h =
      let (share, le) = scaled-IsShare _ x (clamp-IsShare ratio) h in (share, h, le, laws.le_refl x)

  gated-IsShare :
      (fair : FairPriceState F) (t : F × Direction × Option F × String)
      → IsShare t.0
      → IsShare (gated fair t).0
  gated-IsShare fair t h = pick-IsShare fair.is_valid t _ h zero-IsShare

  state_of-IsActivation :
      (a : ShockActivator F) (w : Window F) (fair : FairPriceState F) (now : F)
      → IsActivation (state_of a w fair now)
  unfolding state_of
  state_of-IsActivation a w fair now =
      let t = gated fair (aftershock a w.force_ratio now a.last_shock_ts) in
      let share : IsShare t.0 =
        gated-IsShare fair _ (aftershock-IsShare a w.force_ratio now a.last_shock_ts) in
      let (bid, ask, bid_le, ask_le) =
        side_activations-IsShare t.0 a.opposite_side_activation_ratio t.1 share in
      record { share = share; bid_share = bid; ask_share = ask; bid-le = bid_le; ask-le = ask_le }

  -- Whatever the trades, the book and the settings, every update gives activations between 0 and 1,
  -- and neither side is more active than the shock.
  pub update-IsActivation :
      (event_id : ForcedFlow F → String) (a : ShockActivator F) (e : Event F) (b : OrderBook F)
      (fair : FairPriceState F)
      → IsActivation (update event_id a e b fair).1
  unfolding update
  update-IsActivation event_id a e b fair =
      let w = observe a e b in
      let a' = remember event_id w.trades (shock_of a e w) a in
      state_of-IsActivation a' w fair e.ts_exchange
