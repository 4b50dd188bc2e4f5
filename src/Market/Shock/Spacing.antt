-- ===== src/Market/Shock/Spacing.antt =====
-- Over a run of events, market/shock.py sends its forced-flow events more than a window apart.
use ghost_amm.Base.{
  ◌≡◌, refl, true, Option, none, some, String, List, [], ◌∷◌, arith, inl, inr, Bool-cases,
}
use mathlib.Core.Option.{some-injective}
use ghost_amm.Num.{Num, ◌≼◌, ◌≺◌, ◌-◌, leb}
use ghost_amm.Events.{Event}
use ghost_amm.Market.OrderBook.{OrderBook}
use ghost_amm.Market.FairPrice.{FairPriceState}
use ghost_amm.Market.Shock.{
  ShockActivator, Window, ForcedFlow, update, observe, shock_of, remember, is_due,
}

-- What the pipeline feeds an update with: an event, and the book and fair price after it.
abbrev pub Feed : Type 0 → Type 0
Feed F = Event F × OrderBook F × FairPriceState F

module _ {F : Type 0} ⦃n : Num F⦄ where
  abbrev add_shock : Option (ForcedFlow F) → List (ForcedFlow F) → List (ForcedFlow F)
  add_shock none shocks = shocks
  add_shock (some s) shocks = s ∷ shocks

  -- The shocks of a run, in order.
  abbrev pub shocks_of :
      (ForcedFlow F → String) → ShockActivator F → List (Feed F) → List (ForcedFlow F)
  shocks_of event_id a [] = []
  shocks_of event_id a ((e, b, fair) ∷ feed) =
      let (a', _, shock) = update event_id a e b fair in
      add_shock shock (shocks_of event_id a' feed)

  -- More than a window after the last one, if there was one.
  abbrev pub IsApart : F → Option F → F → Type 0
  IsApart window none ts = Unit
  IsApart window (some last) ts = window ≺ (ts - last)

  is_due-IsApart :
      (window : F) (last : Option F) (ts : F)
      → is_due last ts window ≡ true
      → IsApart window last ts
  is_due-IsApart window none ts h = tt
  is_due-IsApart window (some last) ts h = h

  -- Each shock reaches the threshold, and comes more than a window after the one before it.
  abbrev pub AreSpaced : F → F → Option F → List (ForcedFlow F) → Type 0
  AreSpaced window threshold last [] = Unit
  AreSpaced window threshold last (s ∷ shocks) =
      IsApart window last s.ts
      × (threshold ≼ s.force_ratio)
      × AreSpaced window threshold (some s.ts) shocks

  shock_of_lem :
      (a : ShockActivator F) (e : Event F) (w : Window F) {s : ForcedFlow F}
      → shock_of a e w ≡ some s
      → (is_due a.last_shock_ts s.ts a.window_ms ≡ true) × (a.threshold ≼ s.force_ratio)
  unfolding shock_of
  shock_of_lem a e w h = elim (Bool-cases (leb a.threshold w.force_ratio)) [
    | inl t ↦ elim (Bool-cases (is_due a.last_shock_ts e.ts_exchange a.window_ms)) [
      | inl d ↦ let p = some-injective _ _ (rw (t, d) at h) in rw (← p) (d, t)
      | inr d ↦ absurd (ground arith)
    ]
    | inr t ↦ absurd (ground arith)
  ]

  AreSpaced-add_shock :
      (event_id : ForcedFlow F → String) (a : ShockActivator F) (e : Event F) (w : Window F)
      (shock : Option (ForcedFlow F)) (rest : List (ForcedFlow F))
      → shock_of a e w ≡ shock
      → let a' = remember event_id w.trades shock a in
        AreSpaced a'.window_ms a'.threshold a'.last_shock_ts rest
        → AreSpaced a.window_ms a.threshold a.last_shock_ts (add_shock shock rest)
  unfolding remember
  AreSpaced-add_shock event_id a e w none rest h k = k
  AreSpaced-add_shock event_id a e w (some s) rest h k =
      let (due, reached) = shock_of_lem a e w h in
      (is_due-IsApart a.window_ms a.last_shock_ts s.ts due, reached, k)

  -- Over any run, each forced-flow event has a force ratio of at least the threshold and, but for the
  -- first, a time more than the window after the forced-flow event before it.
  pub shocks_of-AreSpaced :
      (event_id : ForcedFlow F → String) (a : ShockActivator F) (feed : List (Feed F))
      → AreSpaced a.window_ms a.threshold a.last_shock_ts (shocks_of event_id a feed)
  unfolding update
  shocks_of-AreSpaced event_id a [] = tt
  shocks_of-AreSpaced event_id a ((e, b, fair) ∷ feed) =
      let w = observe a e b in
      AreSpaced-add_shock event_id a e w (shock_of a e w) _ refl
        (shocks_of-AreSpaced event_id (remember event_id w.trades (shock_of a e w) a) feed)
