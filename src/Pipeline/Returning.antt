-- ===== src/Pipeline/Returning.antt =====
-- When `process` of pipeline.py meets an exception that the model has: that of the fair price sources or
-- that of a fill.
use Prim.Native.Nat.{◌≤◌}
use mathlib.Core.Path.{subst}
use ghost_amm.Base.{
  ◌≡◌, ◌≢◌, refl, sym, ◌⊎◌, inl, inr, true, false, Option, none, some, List, [], ◌∷◌, All, Some,
  All-map, values, arith,
}
use ghost_amm.Num.{Num, IsOrdered, IsArithmetic, dec, ◌≼◌}
use ghost_amm.Events.{Event, Payload}
use ghost_amm.Exchange.BitbankRules.{Side, buy, sell, other_side, is_buy, is_sell}
use ghost_amm.Market.OrderBook.{apply_event}
use ghost_amm.Market.FairPrice.{FairPriceState, FairPriceEngine}
use ghost_amm.Market.FairEngine.{from_market_event, event_sources, spread_raises}
use ghost_amm.Market.FairEngine.Reading.{IsReadable, event_sources-ne-none, with_own-ne-none}
use ghost_amm.Market.Shock.{ShockState, ForcedFlow}
use ghost_amm.Amm.Inventory.{InventoryState, FillError, apply_fill}
use ghost_amm.Replay.FillModel.{FillModel, VirtualFill, TrackedOrder, on_market_event}
use ghost_amm.Replay.FillModel.Flow.{IsHit, IsFillOf, on_market_event-fills}
use ghost_amm.PipelineState.{
  Emitted, Pipeline, Outside, Result, ok, ◌>>=◌, or_raise, fair_price_raised,
}
use ghost_amm.Pipeline.{
  unless_raised, take_fill, take_fills, quote_and_project, after_fills, after_fair, ingest_market,
  ingest_metadata, ingest_payload, process,
}
use ghost_amm.Pipeline.Payment.{IsKnownSide}

-- A value is returned, and something holds of it.
abbrev pub Returns : {A : Type 0} → (A → Type 0) → Result A → Type 0
Returns {A = A} P r = (a : A) × (r ≡ ok a) × P a

bind-Returns :
    {A B : Type 0} (Q : A → Type 0) (P : B → Type 0) (r : Result A) (f : A → Result B)
    → Returns Q r
    → ((a : A) → Q a → Returns P (f a))
    → Returns P (r >>= f)
bind-Returns Q P r f (a, e, q) h = subst (λ x. Returns P (x >>= f)) (sym e) (h a q)

known_of_hit : (s : Side) → (is_buy s ≡ true) ⊎ (is_sell s ≡ true) → IsKnownSide s
known_of_hit buy h = tt
known_of_hit sell h = tt
known_of_hit (other_side name) h = elim h [ inl e ↦ ground arith | inr e ↦ ground arith ]

or_raise-Returns :
    {A B : Type 0} (P : B → Type 0) (state : Option A) (f : A → Result B)
    → state ≢ none
    → ((a : A) → Returns P (f a))
    → Returns P (or_raise state fair_price_raised >>= f)
or_raise-Returns P none f h k = absurd (h refl)
or_raise-Returns P (some a) f h k = k a

module _ {F : Type 0} ⦃n : Num F⦄ where
  -- At least one source is required, and balances may be negative.
  pub record CanRun (p : Pipeline F) : Type 0 where
    pub sources : 1 ≤ p.fair_engine.min_source_count
    pub overdraft : p.inventory.negative_balances_allowed ≡ true

  -- A trade has an amount that is not negative.
  abbrev pub IsAmountFine : Payload F → Type 0
  IsAmountFine (Payload.trade price amount side) = dec 0 0 ≼ amount
  IsAmountFine _ = Unit

  known_of_fill :
      (m : FillModel F) (side : Side) (price amount now : F) (f : VirtualFill F)
      (os : List (TrackedOrder F))
      → Some (λ o. IsHit m side price now o × IsFillOf o amount f) os
      → IsKnownSide f.side
  known_of_fill m side price amount now f [] h = absurd h
  known_of_fill m side price amount now f (o ∷ os) (inl (hit, fill)) =
      subst IsKnownSide (sym fill.same_side)
        (known_of_hit o.side (elim (hit.crossed) [ inl (b, _, _) ↦ inl b | inr (s, _, _) ↦ inr s ]))
  known_of_fill m side price amount now f (o ∷ os) (inr h) =
      known_of_fill m side price amount now f os h

  -- Only orders to buy or sell are filled.
  fills-KnownSide :
      (order : IsOrdered F) (laws : IsArithmetic F) (m : FillModel F) (e : Event F)
      (fair : FairPriceState F) (payload : Payload F)
      → e.payload ≡ payload
      → IsAmountFine payload
      → All (λ f. IsKnownSide f.side) (on_market_event m e fair).1
  unfolding on_market_event
  fills-KnownSide order laws m e fair (Payload.trade price amount side) q fine =
      All-map _ _ (λ f h. known_of_fill m side price amount e.ts_exchange f (values m.orders) h)
        (on_market_event m e fair).1
        (on_market_event-fills order laws m e fair price amount side q fine).0
  fills-KnownSide order laws m e fair payload q fine = rw q tt

  apply_fill-known :
      (i : InventoryState F) (s : Side) (price amount fee : F)
      → IsKnownSide s
      → i.negative_balances_allowed ≡ true
      → ((apply_fill i s price amount fee).1 ≡ none)
        × ((apply_fill i s price amount fee).0.negative_balances_allowed ≡ true)
  unfolding apply_fill
  apply_fill-known i buy price amount fee known h = (rw h refl, h)
  apply_fill-known i sell price amount fee known h = (rw h refl, h)
  apply_fill-known i (other_side name) price amount fee known h = absurd known

  unless_raised-Returns :
      (error : Option FillError) (p : Pipeline F)
      → error ≡ none
      → CanRun p
      → Returns CanRun (unless_raised error p)
  unless_raised-Returns none p e can = (p, refl, can)
  unless_raised-Returns (some x) p e can = cc

  take_fill-Returns :
      (p : Pipeline F) (f : VirtualFill F)
      → IsKnownSide f.side
      → CanRun p
      → Returns CanRun (take_fill p f)
  take_fill-Returns p f known can =
      let (no_error, overdraft) =
        apply_fill-known p.inventory f.side f.fill_price f.fill_size f.fee known can.overdraft in
      unless_raised-Returns (apply_fill p.inventory f.side f.fill_price f.fill_size f.fee).1 _
        no_error (record { sources = can.sources; overdraft = overdraft })

  take_fills-Returns :
      (fs : List (VirtualFill F)) (p : Pipeline F)
      → All (λ f. IsKnownSide f.side) fs
      → CanRun p
      → Returns CanRun (take_fills p fs)
  unfolding take_fills
  take_fills-Returns [] p h can = (p, refl, can)
  take_fills-Returns (f ∷ fs) p (known, h) can =
      bind-Returns CanRun CanRun (take_fill p f) (λ p'. take_fills p' fs)
        (take_fill-Returns p f known can) (λ p' can'. take_fills-Returns fs p' h can')

  abbrev pub CanGoOn : Pipeline F × List (Emitted F) → Type 0
  CanGoOn (p, events) = CanRun p

  after_fills-Returns :
      (o : Outside F) (fair : FairPriceState F) (shock : ShockState F)
      (forced : Option (ForcedFlow F)) (fills : List (VirtualFill F)) (now : F) (p : Pipeline F)
      → CanRun p
      → Returns CanGoOn (after_fills o fair shock forced fills now p)
  unfolding quote_and_project
  after_fills-Returns o fair shock forced fills now p can =
      (_, refl, record { sources = can.sources; overdraft = can.overdraft })

  after_fair-Returns :
      (order : IsOrdered F) (laws : IsArithmetic F) (o : Outside F) (p : Pipeline F) (e : Event F)
      (engine : FairPriceEngine F) (fair : FairPriceState F)
      → IsAmountFine e.payload
      → 1 ≤ engine.min_source_count
      → CanRun p
      → Returns CanGoOn (after_fair o p e engine fair)
  after_fair-Returns order laws o p e engine fair fine sources can =
      let fills = (on_market_event p.fill_model e fair).1 in
      bind-Returns CanRun CanGoOn (take_fills _ fills) (after_fills o fair _ _ fills e.ts_exchange)
        (take_fills-Returns fills _
          (fills-KnownSide order laws p.fill_model e fair e.payload refl fine)
          (record { sources = sources; overdraft = can.overdraft }))
        (λ p' can'. after_fills-Returns o fair _ _ fills e.ts_exchange p' can')

  -- Neither the pair rules nor the status nor the book change what `process` needs.
  ingest_payload-Same :
      (p : Pipeline F) (payload : Payload F)
      → ((ingest_payload p payload).fair_engine ≡ p.fair_engine)
        × ((ingest_payload p payload).inventory ≡ p.inventory)
        × ((ingest_payload p payload).book ≡ p.book)
  ingest_payload-Same p (Payload.bitbank_pair_spec spec) = (refl, refl, refl)
  ingest_payload-Same p (Payload.bitbank_status (some status)) = (refl, refl, refl)
  ingest_payload-Same p _ = (refl, refl, refl)

  -- Of the exceptions that the model has, an empty list of fair price sources, a value of a source that
  -- does not read, a spread over zero and a fill that the inventory refuses, `process` meets none, and
  -- it leaves a pipeline on which the conditions hold again, when at least one fair price source is
  -- required, balances may be negative, and the event has no negative amount, if it is a trade, and no
  -- value that `float` refuses, if it is a ticker or an external fair price, and leaves a book whose
  -- spread is not divided by zero; the order and the arithmetic are lawful. Nothing is said of an
  -- OverflowError, of math.exp or of rounding an infinity, which is outside the model.
  pub process-Returns :
      (order : IsOrdered F) (laws : IsArithmetic F) (o : Outside F) (p : Pipeline F) (e : Event F)
      → IsAmountFine e.payload
      → IsReadable e.payload
      → spread_raises p.fair_engine (apply_event p.book e) e.ts_exchange ≡ false
      → CanRun p
      → Returns CanGoOn (process o p e)
  unfolding process ingest_market ingest_metadata from_market_event
  process-Returns order laws o p e fine readable spread can =
      let (same_engine, same_inventory, same_book) = ingest_payload-Same p e.payload in
      let p' = ingest_market (ingest_metadata p e) e in
      let sources = subst (λ x. 1 ≤ x.min_source_count) (sym same_engine) can.sources in
      let own = event_sources e.payload e.ts_exchange p'.fair_engine.sources in
      let (returns, same_count) =
        with_own-ne-none p'.fair_engine p'.book e.ts_exchange own sources
          (rw (same_engine, same_book) spread)
          (event_sources-ne-none e.payload e.ts_exchange p'.fair_engine.sources readable) in
      or_raise-Returns CanGoOn _ _ returns (λ fair.
        after_fair-Returns order laws o p' e _ fair fine
          (subst (λ k. 1 ≤ k) (sym same_count) sources)
          (record {
            sources = sources;
            overdraft =
                subst (λ x. x.negative_balances_allowed ≡ true) (sym same_inventory) can.overdraft;
          }))
