-- ===== src/Pipeline/Payment.antt =====
-- The inventory of pipeline.py follows the fills that are emitted, in their order.
use mathlib.Core.Path.{subst}
use ghost_amm.Base.{
  ◌≡◌, refl, sym, ap, ◌∙◌, Option, none, some, List, [], ◌∷◌, ◌++◌, All, All-append,
}
use mathlib.Core.List.{append-nil}
use ghost_amm.Num.{Num}
use ghost_amm.Events.{Event, Payload}
use ghost_amm.Exchange.BitbankRules.{Side, buy, sell, other_side}
use ghost_amm.Market.FairPrice.{FairPriceState, FairPriceEngine}
use ghost_amm.Market.Shock.{ShockState, ForcedFlow}
use ghost_amm.Amm.Inventory.{InventoryState, FillError, apply_fill}
use ghost_amm.Amm.Projector.{ProjectorEvent, placed, canceled}
use ghost_amm.Risk.Kernel.{RiskDecision}
use ghost_amm.Replay.FillModel.{VirtualFill, on_market_event}
use ghost_amm.PipelineState.{
  Emitted, mark_price, forced_flow, virtual_fill, risk_state, virtual_order, live_order_intent,
  live_order_blocked, Pipeline, Outside, or_raise,
}
use ghost_amm.PipelineState.Outcome.{Gives, bind-Gives, any-Gives, map-Gives}
use ghost_amm.Pipeline.{
  mark_events, shock_events, fill_events, virtual_order_events, observations, observation_events,
  unless_raised, take_fill, take_fills, quote_and_project, after_fills, after_fair, ingest_market,
  ingest_metadata, ingest_payload, process,
}

abbrev pub IsKnownSide : Side → Type 0
IsKnownSide buy = Unit
IsKnownSide sell = Unit
IsKnownSide (other_side name) = ⊥

module _ {F : Type 0} where
  abbrev pub fills_in : List (Emitted F) → List (VirtualFill F)
  fills_in [] = []
  fills_in (virtual_fill f ∷ es) = f ∷ fills_in es
  fills_in (mark_price s ∷ es) = fills_in es
  fills_in (forced_flow s ∷ es) = fills_in es
  fills_in (risk_state r ∷ es) = fills_in es
  fills_in (virtual_order e ∷ es) = fills_in es
  fills_in (live_order_intent i ∷ es) = fills_in es
  fills_in (live_order_blocked i r ∷ es) = fills_in es

module _ {F : Type 0} ⦃n : Num F⦄ where
  -- The second inventory is the first after these fills, each of a buy or a sell.
  abbrev pub Pays : InventoryState F → List (VirtualFill F) → InventoryState F → Type 0
  Pays i [] i' = i' ≡ i
  Pays i (f ∷ fs) i' =
      IsKnownSide f.side × Pays (apply_fill i f.side f.fill_price f.fill_size f.fee).0 fs i'

  pub Pays-append :
      (xs ys : List (VirtualFill F)) (i i' i'' : InventoryState F)
      → Pays i xs i'
      → Pays i' ys i''
      → Pays i (xs ++ ys) i''
  Pays-append [] ys i i' i'' e h = subst (λ x. Pays x ys i'') e h
  Pays-append (x ∷ xs) ys i i' i'' (known, g) h = (known, Pays-append xs ys _ i' i'' g h)

  unless_raised-Gives :
      (P : Pipeline F → Type 0) (error : Option FillError) (p : Pipeline F)
      → P p
      → Gives P (unless_raised error p)
  unless_raised-Gives P none p h = h
  unless_raised-Gives P (some error) p h = tt

  -- A fill of an unknown side raises.
  raised_or_known :
      (i : InventoryState F) (s : Side) (price amount fee : F) (p : Pipeline F)
      → p.inventory ≡ (apply_fill i s price amount fee).0
      → Gives
          (λ p'. IsKnownSide s × (p'.inventory ≡ (apply_fill i s price amount fee).0))
          (unless_raised (apply_fill i s price amount fee).1 p)
  unfolding apply_fill
  raised_or_known i buy price amount fee p e =
      unless_raised-Gives
        (λ p'. IsKnownSide buy × (p'.inventory ≡ (apply_fill i buy price amount fee).0)) _ p (tt, e)
  raised_or_known i sell price amount fee p e =
      unless_raised-Gives
        (λ p'. IsKnownSide sell × (p'.inventory ≡ (apply_fill i sell price amount fee).0)) _ p
        (tt, e)
  raised_or_known i (other_side name) price amount fee p e = tt

  take_fills-Pays :
      (p : Pipeline F) (fs : List (VirtualFill F))
      → Gives (λ p'. Pays p.inventory fs p'.inventory) (take_fills p fs)
  unfolding take_fills
  take_fills-Pays p [] = refl
  take_fills-Pays p (f ∷ fs) =
      bind-Gives _ _ (take_fill p f) (λ p'. take_fills p' fs)
        (raised_or_known p.inventory f.side f.fill_price f.fill_size f.fee _ refl)
        (λ p' (known, e).
          map-Gives _ _ (take_fills p' fs)
            (λ p'' h. (known, subst (λ i. Pays i fs p''.inventory) e h)) (take_fills-Pays p' fs))

  abbrev IsNoFill : Emitted F → Type 0
  IsNoFill (virtual_fill f) = ⊥
  IsNoFill _ = Unit

  fills_in-append : (xs ys : List (Emitted F)) → All IsNoFill xs → fills_in (xs ++ ys) ≡ fills_in ys
  fills_in-append [] ys h = refl
  fills_in-append (virtual_fill f ∷ xs) ys (h, hs) = absurd h
  fills_in-append (mark_price s ∷ xs) ys (h, hs) = fills_in-append xs ys hs
  fills_in-append (forced_flow s ∷ xs) ys (h, hs) = fills_in-append xs ys hs
  fills_in-append (risk_state s ∷ xs) ys (h, hs) = fills_in-append xs ys hs
  fills_in-append (virtual_order s ∷ xs) ys (h, hs) = fills_in-append xs ys hs
  fills_in-append (live_order_intent s ∷ xs) ys (h, hs) = fills_in-append xs ys hs
  fills_in-append (live_order_blocked i s ∷ xs) ys (h, hs) = fills_in-append xs ys hs

  mark_events-IsNoFill : (s : FairPriceState F) → All IsNoFill (mark_events s)
  mark_events-IsNoFill s =
      elim (s.fair) as (λ f. All IsNoFill (elim f [ none ↦ [] | some _ ↦ mark_price s ∷ [] ])) [
        | none ↦ tt
        | some x ↦ (tt, tt)
      ]

  shock_events-IsNoFill : (s : Option (ForcedFlow F)) → All IsNoFill (shock_events s)
  shock_events-IsNoFill none = tt
  shock_events-IsNoFill (some s) = (tt, tt)

  virtual_order_events-IsNoFill :
      (es : List (ProjectorEvent F)) → All IsNoFill (virtual_order_events es)
  virtual_order_events-IsNoFill [] = tt
  virtual_order_events-IsNoFill (e ∷ es) = (tt, virtual_order_events-IsNoFill es)

  observations-IsNoFill :
      (o : Outside F) (p : Pipeline F) (risk : RiskDecision F) (es : List (ProjectorEvent F))
      → All IsNoFill (observations o p risk es)
  unfolding observations observation_events
  observations-IsNoFill o p risk [] = tt
  observations-IsNoFill o p risk (placed sequence order ∷ rest) =
      (tt, (tt, observations-IsNoFill o p risk rest))
  observations-IsNoFill o p risk (canceled sequence id reason side price size ∷ rest) =
      observations-IsNoFill o p risk rest

  quote_and_project-IsNoFill :
      (o : Outside F) (p : Pipeline F) (fair : FairPriceState F) (shock : ShockState F) (now : F)
      → All IsNoFill (quote_and_project o p fair shock now).1
  unfolding quote_and_project
  quote_and_project-IsNoFill o p fair shock now =
      (tt, All-append _ _ _ (virtual_order_events-IsNoFill _) (observations-IsNoFill o _ _ _))

  fills_in-fill_events :
      (fs : List (VirtualFill F)) (rest : List (Emitted F))
      → All IsNoFill rest
      → fills_in (fill_events fs ++ rest) ≡ fs
  fills_in-fill_events [] rest h = ap fills_in (sym (append-nil rest)) ∙ fills_in-append rest [] h
  fills_in-fill_events (f ∷ fs) rest h = ap (λ xs. f ∷ xs) (fills_in-fill_events fs rest h)

  -- The fills of an event's answer are those that were taken.
  fills_in-answer :
      (fair : FairPriceState F) (s : Option (ForcedFlow F)) (fs : List (VirtualFill F))
      (rest : List (Emitted F))
      → All IsNoFill rest
      → fills_in (mark_events fair ++ (shock_events s ++ (fill_events fs ++ rest))) ≡ fs
  fills_in-answer fair s fs rest h =
      fills_in-append (mark_events fair) _ (mark_events-IsNoFill fair)
      ∙ fills_in-append (shock_events s) _ (shock_events-IsNoFill s)
      ∙ fills_in-fill_events fs rest h

  quote_and_project-inventory :
      (o : Outside F) (p : Pipeline F) (fair : FairPriceState F) (shock : ShockState F) (now : F)
      → (quote_and_project o p fair shock now).0.inventory ≡ p.inventory
  unfolding quote_and_project
  quote_and_project-inventory o p fair shock now = refl

  abbrev Paid : InventoryState F → Pipeline F × List (Emitted F) → Type 0
  Paid i (p, events) = Pays i (fills_in events) p.inventory

  after_fills-Paid :
      (o : Outside F) (fair : FairPriceState F) (shock : ShockState F)
      (forced : Option (ForcedFlow F)) (fills : List (VirtualFill F)) (now : F)
      (i : InventoryState F) (p : Pipeline F)
      → Pays i fills p.inventory
      → Gives (Paid i) (after_fills o fair shock forced fills now p)
  after_fills-Paid o fair shock forced fills now i p h =
      rw
        (
          fills_in-answer fair forced fills _ (quote_and_project-IsNoFill o p fair shock now),
          quote_and_project-inventory o p fair shock now,
        )
        h

  after_fair-Paid :
      (o : Outside F) (p : Pipeline F) (e : Event F) (engine : FairPriceEngine F)
      (fair : FairPriceState F)
      → Gives (Paid p.inventory) (after_fair o p e engine fair)
  after_fair-Paid o p e engine fair =
      let (model, fills) = on_market_event p.fill_model e fair in
      bind-Gives (λ p'. Pays p.inventory fills p'.inventory) _ (take_fills _ fills)
        (after_fills o fair _ _ fills e.ts_exchange) (take_fills-Pays _ fills)
        (λ p' h. after_fills-Paid o fair _ _ fills e.ts_exchange p.inventory p' h)

  ingest_payload-inventory :
      (p : Pipeline F) (payload : Payload F) → (ingest_payload p payload).inventory ≡ p.inventory
  ingest_payload-inventory p (Payload.bitbank_pair_spec spec) = refl
  ingest_payload-inventory p (Payload.bitbank_status (some status)) = refl
  ingest_payload-inventory p payload = refl

  ingest-inventory :
      (p : Pipeline F) (e : Event F)
      → (ingest_market (ingest_metadata p e) e).inventory ≡ p.inventory
  unfolding ingest_metadata ingest_market
  ingest-inventory p e = ingest_payload-inventory p e.payload

  -- The inventory after `process` is the one before after the fills that it emits.
  pub process-Paid :
      (o : Outside F) (p : Pipeline F) (e : Event F) → Gives (Paid p.inventory) (process o p e)
  unfolding process
  process-Paid o p e =
      let p' = ingest_market (ingest_metadata p e) e in
      subst (λ i. Gives (Paid i) (process o p e)) (ingest-inventory p e)
        (bind-Gives (λ _. Unit) (Paid p'.inventory) (or_raise _ _) (after_fair o p' e _)
          (any-Gives _) (λ fair _. after_fair-Paid o p' e _ fair))
