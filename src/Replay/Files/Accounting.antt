-- ===== src/Replay/Files/Accounting.antt =====
-- What the report of replay/engine.py says of the end of the run.
use mathlib.Core.Path.{ap₂}
use ghost_amm.Base.{ℕ, ◌≡◌, ap, ◌∙◌, Bool, Option, some, String, List, All}
use ghost_amm.Num.{Num, ◌+◌, ◌-◌, ◌*◌}
use ghost_amm.Events.{Event}
use ghost_amm.PipelineState.{Pipeline, Outside}
use ghost_amm.Jsonl.{JsonLines, IsFaithful}
use ghost_amm.Recorder.JsonlWriter.{new_writer, record_all}
use ghost_amm.Recorder.JsonlWriter.Recording.{record_all-read_files}
use ghost_amm.Replay.Engine.{Output, ReplayConfig, done, run}
use ghost_amm.Replay.Engine.Outcome.{Yields, bind-Yields, of_yields}
use ghost_amm.Analytics.Metrics.{or_number, new_tally, fills_of}
use ghost_amm.Analytics.Metrics.Summary.{summarize, start_fair_of}
use ghost_amm.Analytics.Metrics.Accounting.{
  PaidOut, BringsNoFill, run-PaidOut, count_fills-AgreesWith,
}
use ghost_amm.Replay.Files.{InitialBalances, Report, report_run, run_events, run_files, run_read}

module _ {F : Type 0} ⦃n : Num F⦄ where
  -- The last fair price, else the first one in the output, else zero.
  abbrev pub end_fair : Report F → F
  end_fair r = let last = r.pipeline.last_fair.fair in or_number last (start_fair_of r.output last)

  -- The equity at the end is that of the inventory, and the strategy's share is what is above the
  -- balances that the run started from.
  pub record IsAccount (p : Pipeline F) (r : Report F) : Type 0 where
    pub equity :
        r.summary.end_equity
        ≡ r.pipeline.inventory.base_qty * end_fair r + r.pipeline.inventory.quote_qty
    pub alpha :
        r.summary.strategy_alpha_pnl
        ≡ (r.pipeline.inventory.base_qty * end_fair r + r.pipeline.inventory.quote_qty)
          - (p.inventory.base_qty * end_fair r + p.inventory.quote_qty)

  reported-IsAccount :
      (p p' : Pipeline F) (b : InitialBalances F) (out : List (Output F))
      → b.base_qty ≡ p.inventory.base_qty
      → b.quote_qty ≡ p.inventory.quote_qty
      → PaidOut p.inventory (p', out)
      → Yields (IsAccount p) (report_run b (p', out))
  unfolding summarize new_tally
  reported-IsAccount p p' b out same_base same_quote paid =
      let last = p'.last_fair.fair in
      let fair = or_number last (start_fair_of out last) in
      let (base, cash) =
        count_fills-AgreesWith last (fills_of out) (new_tally b.base_qty b.quote_qty) p.inventory
          p'.inventory (same_base, same_quote) paid in
      let equity = ap₂ (λ x y. x * fair + y) base cash in
      record {
        equity = equity;
        alpha = ap₂ (λ x y. x - y) equity (ap₂ (λ x y. x * fair + y) same_base same_quote);
      }

  run_events-IsAccount :
      (c : ReplayConfig) (o : Outside F) (p : Pipeline F) (b : InitialBalances F)
      (replay_order : Option String) (strict : Option Bool) (events : List (Event F))
      → b.base_qty ≡ p.inventory.base_qty
      → b.quote_qty ≡ p.inventory.quote_qty
      → All (BringsNoFill o) events
      → Yields (IsAccount p) (run_events c o p b replay_order strict events)
  unfolding run_events
  run_events-IsAccount c o p b replay_order strict events same_base same_quote no_fills =
      bind-Yields (PaidOut p.inventory) (IsAccount p) (run c o p events replay_order strict)
        (report_run b) (run-PaidOut c o p events replay_order strict no_fills)
        (λ (p', out) paid. reported-IsAccount p p' b out same_base same_quote paid)

  -- Where events replay to a report, they do so too from the files of the writer that recorded them,
  -- whatever their size, and the report's equity at the end is that of the pipeline's inventory at the
  -- last fair price, its alpha what this is above the equity of the balances at the start. This
  -- takes it that the lines read back as the events, that the pipeline starts with the balances of the
  -- settings, and that none of the events is a fill of an earlier run, which the report would count too.
  pub run_files-IsAccount :
      {L : Type 0} (j : JsonLines (Event F) L) (f : IsFaithful j)
      (events_limit bytes_limit : Option ℕ) (flush_every : ℕ) (c : ReplayConfig) (o : Outside F)
      (p : Pipeline F) (b : InitialBalances F) (replay_order : Option String) (strict : Option Bool)
      (events : List (Event F)) (r : Report F)
      → b.base_qty ≡ p.inventory.base_qty
      → b.quote_qty ≡ p.inventory.quote_qty
      → All (BringsNoFill o) events
      → run_events c o p b replay_order strict events ≡ done r
      → (run_files j c o p b replay_order strict
            (record_all j (new_writer events_limit bytes_limit flush_every) events).paths
            (record_all j (new_writer events_limit bytes_limit flush_every) events).files
          ≡ some (done r))
        × IsAccount p r
  unfolding run_files
  run_files-IsAccount j f events_limit bytes_limit flush_every c o p b replay_order strict events r
        same_base same_quote no_fills returned =
      (
        ap (run_read c o p b replay_order strict)
              (record_all-read_files j events_limit bytes_limit f flush_every events)
            ∙ ap some returned,
        of_yields (IsAccount p) (run_events c o p b replay_order strict events) r returned
            (run_events-IsAccount c o p b replay_order strict events same_base same_quote no_fills),
      )
