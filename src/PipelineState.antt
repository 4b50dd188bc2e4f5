-- ===== src/PipelineState.antt =====
-- ghost_amm/pipeline.py: the state of the pipeline, the events that it emits and its exceptions.
use ghost_amm.Base.{Bool, false, Option, none, some, String, if◌then◌else◌, string_eq}
use ghost_amm.Exchange.BitbankRules.{BitbankPairSpec, BitbankStatus}
use ghost_amm.Market.OrderBook.{OrderBook}
use ghost_amm.Market.FairPrice.{FairPriceState, FairPriceEngine}
use ghost_amm.Market.Shock.{ShockActivator, ShockState, ForcedFlow}
use ghost_amm.Amm.Inventory.{InventoryState, FillError}
use ghost_amm.Amm.QuoteSurface.{AmmConfig}
use ghost_amm.Amm.Projector.{OrderProjector, ProjectorEvent}
use ghost_amm.Risk.Kernel.{RiskKernel, RiskDecision}
use ghost_amm.Replay.FillModel.{FillModel, VirtualFill}
use ghost_amm.Execution.LiveGates.{OrderIntent, ExecutionConfig, LiveGateResult}
pub mod Outcome

-- The payload of a "risk_state" event.
pub record RiskReport (F : Type 0) : Type 0 where
  pub decision : RiskDecision F
  pub shock : ShockState F
  pub fair : FairPriceState F
  pub book_spread_bps : Option F
  pub book_depth_20bps : F
  pub book_stale : Bool
  pub book_stale_reason : Option String
  pub inventory_skew : Option F

pub data Emitted (F : Type 0) : Type 0 where
  mark_price : FairPriceState F → Emitted F
  forced_flow : ForcedFlow F → Emitted F
  virtual_fill : VirtualFill F → Emitted F
  risk_state : RiskReport F → Emitted F
  virtual_order : ProjectorEvent F → Emitted F
  live_order_intent : OrderIntent F → Emitted F
  live_order_blocked : OrderIntent F → LiveGateResult → Emitted F

pub record PipelineConfig (F : Type 0) : Type 0 where
  pub amm : AmmConfig F
  pub execution : ExecutionConfig F
  pub pair : String
  pub symbol : String
  pub maker_fee_source : String
  pub negative_maker_fee_policy : String

pub record Pipeline (F : Type 0) : Type 0 where
  pub config : PipelineConfig F
  pub inventory : InventoryState F
  pub book : OrderBook F
  pub fair_engine : FairPriceEngine F
  pub risk : RiskKernel F
  pub shock : ShockActivator F
  pub projector : OrderProjector F
  pub fill_model : FillModel F
  pub pair_spec : Option (BitbankPairSpec F)
  pub status : Option (BitbankStatus F)
  pub last_fair : FairPriceState F
  pub last_shock : ShockState F
  pub last_risk : RiskDecision F

-- An exception leaves `process` and ends the run.
pub data PipelineError : Type 0 where
  fair_price_raised : PipelineError
  bad_fill : FillError → PipelineError

pub data Result {ℓ} (A : Type ℓ) : Type ℓ where
  ok : A → Result A
  raised : PipelineError → Result A

infixl 5 ◌>>=◌
abbrev pub ◌>>=◌ {ℓ κ} : {A : Type ℓ} {B : Type κ} → Result A → (A → Result B) → Result B
ok a >>= f = f a
raised e >>= f = raised e

abbrev pub or_raise {ℓ} : {A : Type ℓ} → Option A → PipelineError → Result A
or_raise none e = raised e
or_raise (some a) e = ok a

-- What the process takes from outside: the digest that names a forced-flow event, `os.environ`, and
-- how the JSON of a payload reads, by the type of its event, where that is a type that a pipeline emits.
pub record Outside (F : Type 0) : Type 0 where
  pub event_id : ForcedFlow F → String
  pub env : String → Option String
  pub read_report : (name payload : String) → Option (Emitted F)

unfoldable pub never_live : LiveGateResult → LiveGateResult
never_live r =
    if r.allowed
    then record { allowed = false; reason = some "mvp_live_submission_disabled" }
    else r
