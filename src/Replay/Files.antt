-- ===== src/Replay/Files.antt =====
-- `run_files` of replay/engine.py: the events of recorded files, their replay and its summary. The
-- files that `write_report` makes of the result are left out.
use ghost_amm.Base.{ℕ, Bool, Option, none, some, String, List, Dict, nat_eq}
use ghost_amm.Num.{Num}
use ghost_amm.Events.{Event}
use ghost_amm.PipelineState.{Pipeline, Outside}
use ghost_amm.Jsonl.{JsonLines}
use ghost_amm.Recorder.JsonlWriter.{read_files}
use ghost_amm.Replay.Engine.{Output, ReplayConfig, Replayed, done, ◌>>=◌, run}
use ghost_amm.Analytics.Metrics.Summary.{MetricsSummary, summarize}
pub mod Accounting
mod Tests

-- The settings "initial_base_qty" and "initial_quote_qty" of the inventory.
pub record InitialBalances (F : Type 0) : Type 0 where
  pub base_qty : F
  pub quote_qty : F

-- The state that the run leaves, its output, and the summary.
pub record Report (F : Type 0) : Type 0 where
  pub pipeline : Pipeline F
  pub output : List (Output F)
  pub summary : MetricsSummary F

module _ {F : Type 0} ⦃n : Num F⦄ where
  abbrev pub report_run : InitialBalances F → Pipeline F × List (Output F) → Replayed (Report F)
  report_run b (p, out) = done (record {
    pipeline = p;
    output = out;
    summary = summarize out b.base_qty b.quote_qty p.last_fair.fair;
  })

  unfoldable pub run_events :
      ReplayConfig
      → Outside F
      → Pipeline F
      → InitialBalances F
      → Option String
      → Option Bool
      → List (Event F)
      → Replayed (Report F)
  run_events c o p b replay_order strict events =
      run c o p events replay_order strict >>= report_run b

  abbrev run_read :
      ReplayConfig
      → Outside F
      → Pipeline F
      → InitialBalances F
      → Option String
      → Option Bool
      → Option (List (Event F))
      → Option (Replayed (Report F))
  run_read c o p b replay_order strict none = none
  run_read c o p b replay_order strict (some events) =
      some (run_events c o p b replay_order strict events)

  -- `none` where a line of a file does not read as an event.
  unfoldable pub run_files :
      {L : Type 0}
      → JsonLines (Event F) L
      → ReplayConfig
      → Outside F
      → Pipeline F
      → InitialBalances F
      → Option String
      → Option Bool
      → List ℕ
      → Dict ℕ (List L)
      → Option (Replayed (Report F))
  run_files j c o p b replay_order strict event_paths files =
      run_read c o p b replay_order strict (read_files j event_paths files)
