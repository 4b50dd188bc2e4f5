-- ===== src/Pipeline/Observation.antt =====
-- The live orders that pipeline.py reports: it observes what the gates say and never submits one.
use ghost_amm.Base.{◌≡◌, false, Option, none, some, List, [], ◌∷◌, ◌++◌, All, All-append, arith}
use ghost_amm.PipelineState.Outcome.{Gives, bind-Gives, any-Gives, of_gives}
use ghost_amm.Num.{Num}
use ghost_amm.Events.{Event}
use ghost_amm.Market.FairPrice.{FairPriceState, FairPriceEngine}
use ghost_amm.Market.Shock.{ForcedFlow, ShockState}
use ghost_amm.Amm.Projector.{ProjectorEvent, placed, canceled}
use ghost_amm.Risk.Kernel.{RiskDecision}
use ghost_amm.Replay.FillModel.{VirtualFill}
use ghost_amm.Execution.LiveGates.{LiveGateResult}
use ghost_amm.PipelineState.{
  Emitted, mark_price, forced_flow, virtual_fill, risk_state, virtual_order, live_order_intent,
  live_order_blocked, Pipeline, ok, or_raise, never_live, Outside,
}
use ghost_amm.Pipeline.{
  process, quote_and_project, observations, observation_events, ingest_market, ingest_metadata,
  after_fills, after_fair, take_fills, virtual_order_events, fill_events, shock_events, mark_events,
}

never_live_lem : (r : LiveGateResult) → (never_live r).allowed ≡ false
unfolding never_live
never_live_lem r = ground arith

module _ {F : Type 0} where
  -- A blocked live order that is reported is one that was not allowed.
  abbrev pub IsBlocked : Emitted F → Type 0
  IsBlocked (live_order_blocked intent result) = result.allowed ≡ false
  IsBlocked (mark_price s) = Unit
  IsBlocked (forced_flow s) = Unit
  IsBlocked (virtual_fill f) = Unit
  IsBlocked (risk_state r) = Unit
  IsBlocked (virtual_order e) = Unit
  IsBlocked (live_order_intent i) = Unit

module _ {F : Type 0} ⦃n : Num F⦄ where
  virtual_order_events-IsBlocked :
      (es : List (ProjectorEvent F)) → All IsBlocked (virtual_order_events es)
  virtual_order_events-IsBlocked [] = tt
  virtual_order_events-IsBlocked (e ∷ es) = (tt, virtual_order_events-IsBlocked es)

  fill_events-IsBlocked : (fs : List (VirtualFill F)) → All IsBlocked (fill_events fs)
  fill_events-IsBlocked [] = tt
  fill_events-IsBlocked (f ∷ fs) = (tt, fill_events-IsBlocked fs)

  shock_events-IsBlocked : (s : Option (ForcedFlow F)) → All IsBlocked (shock_events s)
  shock_events-IsBlocked none = tt
  shock_events-IsBlocked (some s) = (tt, tt)

  mark_events-IsBlocked : (s : FairPriceState F) → All IsBlocked (mark_events s)
  mark_events-IsBlocked s =
      elim (s.fair) as (λ f. All IsBlocked (elim f [ none ↦ [] | some _ ↦ mark_price s ∷ [] ])) [
        | none ↦ tt
        | some x ↦ (tt, tt)
      ]

  emitted-IsBlocked :
      (fair : FairPriceState F) (s : Option (ForcedFlow F)) (fs : List (VirtualFill F))
      (es : List (Emitted F))
      → All IsBlocked es
      → All IsBlocked (mark_events fair ++ (shock_events s ++ (fill_events fs ++ es)))
  emitted-IsBlocked fair s fs es h =
      All-append IsBlocked (mark_events fair) _ (mark_events-IsBlocked fair) (
        All-append IsBlocked (shock_events s) _ (shock_events-IsBlocked s)
          (All-append IsBlocked (fill_events fs) es (fill_events-IsBlocked fs) h))

module _ {F : Type 0} ⦃n : Num F⦄ (o : Outside F) where
  observations-IsBlocked :
      (p : Pipeline F) (risk : RiskDecision F) (es : List (ProjectorEvent F))
      → All IsBlocked (observations o p risk es)
  unfolding observations observation_events
  observations-IsBlocked p risk [] = tt
  observations-IsBlocked p risk (placed sequence order ∷ rest) =
      (tt, (never_live_lem _, observations-IsBlocked p risk rest))
  observations-IsBlocked p risk (canceled sequence id reason side price size ∷ rest) =
      observations-IsBlocked p risk rest

  quote_and_project-IsBlocked :
      (p : Pipeline F) (fair : FairPriceState F) (shock : ShockState F) (now : F)
      → All IsBlocked (quote_and_project o p fair shock now).1
  unfolding quote_and_project
  quote_and_project-IsBlocked p fair shock now =
      (tt, All-append _ _ _ (virtual_order_events-IsBlocked _) (observations-IsBlocked _ _ _))

  abbrev Blocked : Pipeline F × List (Emitted F) → Type 0
  Blocked (p, events) = All IsBlocked events

  after_fills-Gives :
      (fair : FairPriceState F) (shock : ShockState F) (forced : Option (ForcedFlow F))
      (fills : List (VirtualFill F)) (now : F) (p : Pipeline F)
      → Gives Blocked (after_fills o fair shock forced fills now p)
  after_fills-Gives fair shock forced fills now p =
      emitted-IsBlocked fair forced fills _ (quote_and_project-IsBlocked p fair shock now)

  after_fair-Gives :
      (p : Pipeline F) (e : Event F) (engine : FairPriceEngine F) (fair : FairPriceState F)
      → Gives Blocked (after_fair o p e engine fair)
  after_fair-Gives p e engine fair =
      bind-Gives (λ _. Unit) Blocked (take_fills _ _) (after_fills o fair _ _ _ e.ts_exchange)
        (any-Gives _) (λ p' _. after_fills-Gives fair _ _ _ e.ts_exchange p')

  process-Gives : (p : Pipeline F) (e : Event F) → Gives Blocked (process o p e)
  unfolding process
  process-Gives p e =
      let p' = ingest_market (ingest_metadata p e) e in
      bind-Gives (λ _. Unit) Blocked (or_raise _ _) (after_fair o p' e _) (any-Gives _)
        (λ fair _. after_fair-Gives p' e _ fair)

  -- Whatever the gates say, `process` never reports a live order as allowed.
  pub process-IsBlocked :
      (p p' : Pipeline F) (e : Event F) (events : List (Emitted F))
      → process o p e ≡ ok (p', events)
      → All IsBlocked events
  process-IsBlocked p p' e events h = of_gives _ (process o p e) (p', events) h (process-Gives p e)
