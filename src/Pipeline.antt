-- ===== src/Pipeline.antt =====
-- ghost_amm/pipeline.py: the path of an event through all components, shared by replay and dry run.
use ghost_amm.Base.{
  ℕ, Bool, true, false, not, ◌&&◌, ◌||◌, Option, none, some, String, List, [], ◌∷◌, ◌++◌, ◌==◌,
  if◌then◌else◌, string_eq,
}
use ghost_amm.Num.{Num, ltb, dec}
use ghost_amm.Exchange.BitbankRules.{Side, BitbankPairSpec, BitbankStatus, maker_fee_bps_quote}
use ghost_amm.Events.{Payload, Event}
use ghost_amm.Market.OrderBook.{OrderBook, apply_event, spread_bps, depth_around_mid}
use ghost_amm.Market.FairPrice.{FairPriceState, FairPriceEngine}
use ghost_amm.Market.FairEngine.{from_market_event}
use ghost_amm.Market.Shock.{ShockActivator, ShockState, ForcedFlow, update}
use ghost_amm.Amm.Inventory.{InventoryState, FillError, apply_fill, skew}
use ghost_amm.Amm.QuoteSurface.{AmmConfig, Quote, from_config, generate}
use ghost_amm.Amm.Projector.{
  OrderProjector, ActiveVirtualOrder, ProjectorEvent, placed, canceled, sync, remove_filled,
}
use ghost_amm.Risk.Kernel.{RiskKernel, RiskDecision, record_fill, record_trade}
use ghost_amm.Risk.Evaluate.{RiskInput, evaluate}
use ghost_amm.Replay.FillModel.{
  FillModel, VirtualFill, set_maker_fee_bps, on_virtual_order, on_cancel, on_market_event,
}
use ghost_amm.Execution.LiveGates.{
  OrderIntent, ExecutionConfig, LiveGateResult, GateInput, evaluate_live_order_gates,
}
use ghost_amm.PipelineState.{
  RiskReport, Emitted, mark_price, forced_flow, virtual_fill, risk_state, virtual_order,
  live_order_intent, live_order_blocked, PipelineConfig, Pipeline, PipelineError, fair_price_raised,
  bad_fill, Result, ok, raised, ◌>>=◌, or_raise, never_live, Outside,
}
pub mod Observation
pub mod Tracking
pub mod Books
pub mod Payment
pub mod Returning
mod Tests

module _ {F : Type 0} ⦃n : Num F⦄ where
  unfoldable pub maker_fee_bps_from_pair_spec : PipelineConfig F → BitbankPairSpec F → F
  maker_fee_bps_from_pair_spec c spec =
      let fee = maker_fee_bps_quote spec in
      if ltb fee (dec 0 0) && c.negative_maker_fee_policy == "clamp_to_zero" then dec 0 0 else fee

  abbrev ingest_payload : Pipeline F → Payload F → Pipeline F
  ingest_payload p (Payload.bitbank_pair_spec spec) = record p {
    pair_spec = some spec;
    fill_model =
        if p.config.maker_fee_source == "bitbank_pair_spec"
        then set_maker_fee_bps p.fill_model (maker_fee_bps_from_pair_spec p.config spec)
        else p.fill_model;
  }
  ingest_payload p (Payload.bitbank_status (some status)) = record p { status = some status }
  ingest_payload p _ = p

  unfoldable pub ingest_metadata : Pipeline F → Event F → Pipeline F
  ingest_metadata p e = ingest_payload p e.payload

  abbrev ingest_trade : RiskKernel F → Payload F → F → RiskKernel F
  ingest_trade k (Payload.trade price amount side) ts = record_trade k price ts
  ingest_trade k _ ts = k

  -- `book.apply_event` looks at the event's type itself.
  unfoldable pub ingest_market : Pipeline F → Event F → Pipeline F
  ingest_market p e = record p {
    book = apply_event p.book e;
    risk = ingest_trade p.risk e.payload e.ts_exchange;
  }

  abbrev mark_events : FairPriceState F → List (Emitted F)
  mark_events fair = elim (fair.fair) [ none ↦ [] | some _ ↦ mark_price fair ∷ [] ]

  abbrev shock_events : Option (ForcedFlow F) → List (Emitted F)
  shock_events none = []
  shock_events (some s) = forced_flow s ∷ []

  abbrev fill_events : List (VirtualFill F) → List (Emitted F)
  fill_events [] = []
  fill_events (f ∷ fs) = virtual_fill f ∷ fill_events fs

  -- `apply_fill` raises before it changes the state.
  abbrev pub unless_raised : Option FillError → Pipeline F → Result (Pipeline F)
  unless_raised none p = ok p
  unless_raised (some e) p = raised (bad_fill e)

  -- One round of the loop of `process` over the fills.
  abbrev pub take_fill : Pipeline F → VirtualFill F → Result (Pipeline F)
  take_fill p f =
      let (inventory, error) = apply_fill p.inventory f.side f.fill_price f.fill_size f.fee in
      unless_raised error (record p {
        inventory = inventory;
        risk = record_fill p.risk f.side f.fill_ts (some f.fill_price) (some f.fill_size);
        projector = remove_filled p.projector f.order_id;
      })

  unfoldable pub take_fills : Pipeline F → List (VirtualFill F) → Result (Pipeline F)
  take_fills p [] = ok p
  take_fills p (f ∷ fs) = do p' ← take_fill p f; take_fills p' fs

  abbrev or_zero : Option F → F
  or_zero none = dec 0 0
  or_zero (some x) = x

  abbrev quotes_at : Pipeline F → ShockState F → Bool → Option F → List (Quote F)
  quotes_at p shock true (some fair) = generate (from_config p.config.amm p.pair_spec) (record {
    fair = fair;
    inventory_skew = or_zero (skew p.inventory (some fair));
    bid_activation = shock.bid_activation;
    ask_activation = shock.ask_activation;
    shock_event_id = shock.last_shock_event_id;
    shock_direction = shock.direction;
    shock_age_ms = shock.shock_age_ms;
  })
  quotes_at p shock true none = []
  quotes_at p shock false fair = []

  abbrev intent_of : Pipeline F → ActiveVirtualOrder F → OrderIntent F
  intent_of p o = record {
    venue = p.book.venue;
    pair = p.config.pair;
    symbol = p.config.symbol;
    side = o.side;
    price = o.price;
    amount = o.size;
    order_type = "limit";
    post_only = true;
    client_order_id = some o.order_id;
  }

  -- `_live_order_observation_events`
  unfoldable pub observation_events :
      Outside F → Pipeline F → ActiveVirtualOrder F → RiskDecision F → List (Emitted F)
  observation_events o p order risk =
      let intent = intent_of p order in
      let result = evaluate_live_order_gates (record {
        config = p.config.execution;
        intent = intent;
        pair_spec = p.pair_spec;
        status = p.status;
        book = some p.book;
        risk = risk;
        clock_drift_ms = dec 0 0;
        env = o.env;
      }) in
      live_order_intent intent ∷ live_order_blocked intent (never_live result) ∷ []

  unfoldable pub track_events : FillModel F → OrderBook F → List (ProjectorEvent F) → FillModel F
  track_events m b [] = m
  track_events m b (placed sequence o ∷ rest) = track_events (on_virtual_order m o b) b rest
  track_events m b (canceled sequence id reason side price size ∷ rest) =
      track_events (on_cancel m id) b rest

  unfoldable pub observations :
      Outside F → Pipeline F → RiskDecision F → List (ProjectorEvent F) → List (Emitted F)
  observations o p risk [] = []
  observations o p risk (placed sequence order ∷ rest) =
      observation_events o p order risk ++ observations o p risk rest
  observations o p risk (canceled sequence id reason side price size ∷ rest) =
      observations o p risk rest

  abbrev virtual_order_events : List (ProjectorEvent F) → List (Emitted F)
  virtual_order_events [] = []
  virtual_order_events (e ∷ es) = virtual_order e ∷ virtual_order_events es

  abbrev report_of : Pipeline F → RiskDecision F → ShockState F → FairPriceState F → RiskReport F
  report_of p decision shock fair = record {
    decision = decision;
    shock = shock;
    fair = fair;
    book_spread_bps = spread_bps p.book;
    book_depth_20bps = depth_around_mid p.book (dec 20 0);
    book_stale = p.book.stale;
    book_stale_reason = p.book.stale_reason;
    inventory_skew = skew p.inventory fair.fair;
  }

  -- `process` after the fills: the decision, the quotes, the virtual orders.
  unfoldable pub quote_and_project :
      Outside F → Pipeline F → FairPriceState F → ShockState F → F → Pipeline F × List (Emitted F)
  quote_and_project o p fair shock now =
      let (risk, decision) = evaluate p.risk (record {
        book = p.book;
        fair_state = fair;
        shock_state = shock;
        inventory = p.inventory;
        pair_spec = p.pair_spec;
        status = p.status;
        now_ms = now;
      }) in
      let (projector, events) = sync p.projector (record {
        quotes = quotes_at p shock fair.is_valid fair.fair;
        book = p.book;
        risk = decision;
        now_ms = now;
      }) in
      let p' = record p {
        risk = risk;
        last_risk = decision;
        projector = projector;
        fill_model = track_events p.fill_model p.book events;
      } in
      (
        p',
        risk_state (report_of p decision shock fair)
            ∷ (virtual_order_events events ++ observations o p' decision events),
      )

  -- `process` after the loop over the fills: the end of the state and everything that is emitted.
  abbrev pub after_fills :
      Outside F
      → FairPriceState F
      → ShockState F
      → Option (ForcedFlow F)
      → List (VirtualFill F)
      → F
      → Pipeline F
      → Result (Pipeline F × List (Emitted F))
  after_fills o fair shock forced fills now p =
      let (p', events) = quote_and_project o p fair shock now in
      ok (p', mark_events fair ++ (shock_events forced ++ (fill_events fills ++ events)))

  -- `process` from the fair price on.
  abbrev pub after_fair :
      Outside F
      → Pipeline F
      → Event F
      → FairPriceEngine F
      → FairPriceState F
      → Result (Pipeline F × List (Emitted F))
  after_fair o p e engine fair =
      let now = e.ts_exchange in
      let (shock, shock_state, forced) = update o.event_id p.shock e p.book fair in
      let (model, fills) = on_market_event p.fill_model e fair in
      let start = record p {
        fair_engine = engine;
        last_fair = fair;
        shock = shock;
        last_shock = shock_state;
        fill_model = model;
      } in
      take_fills start fills >>= after_fills o fair shock_state forced fills now

  unfoldable pub process : Outside F → Pipeline F → Event F → Result (Pipeline F × List (Emitted F))
  process o p e =
      let p' = ingest_market (ingest_metadata p e) e in
      let (engine, state) = from_market_event p'.fair_engine p'.book e e.ts_exchange in
      or_raise state fair_price_raised >>= after_fair o p' e engine
