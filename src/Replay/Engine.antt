-- ===== src/Replay/Engine.antt =====
-- ghost_amm/replay/engine.py: recorded events in order, through the pipeline, with the later fair prices
-- filled in.
use Prim.Native.Char.{code}
use ghost_amm.Base.{
  ℕ, Bool, true, false, not, ◌&&◌, ◌||◌, Option, none, some, String, List, [], ◌∷◌, ◌++◌, Dict,
  lookup, insert, Eq, ◌==◌, ◌≡◌, ◌↔◌, if◌then◌else◌, string_eq, arith, is_some,
}
use ghost_amm.Base.Int.{ℤ, ltb_ℤ}
use ghost_amm.Num.{Num, num_eq, ltb, leb, dec, ◌+◌}
use ghost_amm.Events.{Event, Payload, Sequence, absent, int, text, event_type, to_int}
use ghost_amm.Market.FairPrice.{FairPriceState}
use ghost_amm.Amm.OrderId.{int_text, text_lt}
use ghost_amm.Replay.FillModel.{VirtualFill}
use ghost_amm.PipelineState.{
  Pipeline, PipelineError, Emitted, mark_price, virtual_fill, Outside, Result, ok, raised,
}
use ghost_amm.Pipeline.{process}
pub mod Sequences
pub mod Order
pub mod Enrichment
pub mod Outcome
pub mod Run
mod Tests

pub record ReplayConfig : Type 0 where
  pub order : String
  pub strict_sequence : Bool
  pub allow_exchange_time_sort : Bool

-- The exceptions of a replay.
pub data ReplayError : Type 0 where
  unsupported_order : String → ReplayError
  sort_not_allowed sequence_violation : ReplayError
  in_pipeline : PipelineError → ReplayError

pub data Replayed {ℓ} (A : Type ℓ) : Type ℓ where
  done : A → Replayed A
  failed : ReplayError → Replayed A

infixl 5 ◌>>=◌
abbrev pub ◌>>=◌ {ℓ κ} : {A : Type ℓ} {B : Type κ} → Replayed A → (A → Replayed B) → Replayed B
done a >>= f = f a
failed e >>= f = failed e

-- The output holds the events fed in, and those emitted, with the time of the event they answer. What
-- an earlier run emitted may be fed in again; such an event stands with its payload as a report.
pub data Output (F : Type 0) : Type 0 where
  fed : Event F → Option (Emitted F) → Output F
  emitted : F → Emitted F → Output F

-- The stream of an event: venue, symbol and `_sequence_stream` of its type.
pub record Stream : Type 0 where
  pub venue : String
  pub symbol : String
  pub kind : String

unfoldable pub stream_beq : Stream → Stream → Bool
stream_beq a b =
    if a.venue == b.venue then (if a.symbol == b.symbol then a.kind == b.kind else false) else false

pub stream_beq_iff : (a b : Stream) → (stream_beq a b ≡ true) ↔ (a ≡ b)
unfolding stream_beq
stream_beq_iff a b = ground (
  arith,
  string_eq.beq_iff a.venue b.venue,
  string_eq.beq_iff a.symbol b.symbol,
  string_eq.beq_iff a.kind b.kind,
)

instance abbrev pub stream_eq : Eq Stream
stream_eq = record { beq = stream_beq; beq_iff = stream_beq_iff }

unfoldable pub sequence_stream : String → String
sequence_stream kind =
    if kind == "order_book_snapshot" || kind == "order_book_delta" then "order_book" else kind

abbrev codes : String → List ℕ
codes String.[] = []
codes (String.◌∷◌ c s) = code c ∷ codes s

-- `str(event.sequence)`
unfoldable pub sequence_text : Sequence → List ℕ
unfolding int_text
sequence_text absent = codes "None"
sequence_text (int k) = int_text k
sequence_text (text s) = codes s

abbrev pub replay_order_of : ReplayConfig → Option String → String
replay_order_of c none = c.order
replay_order_of c (some order) = if order == "" then c.order else order

abbrev goes_back : ℤ → Option ℤ → Bool
goes_back seq none = false
goes_back seq (some previous) = ltb_ℤ seq previous

abbrev pub or_setting : Option Bool → Bool → Bool
or_setting none setting = setting
or_setting (some given) setting = given

module _ {F : Type 0} where
  abbrev pub stream_of : Event F → Stream
  stream_of e = record {
    venue = e.venue;
    symbol = e.symbol;
    kind = sequence_stream (event_type e.payload);
  }

module _ {F : Type 0} ⦃n : Num F⦄ where
  -- `<` on the keys `(event.ts_exchange, str(event.sequence))`.
  unfoldable pub comes_before : Event F → Event F → Bool
  unfolding text_lt
  comes_before a b =
      if a.ts_exchange == b.ts_exchange
      then text_lt (sequence_text a.sequence) (sequence_text b.sequence)
      else ltb a.ts_exchange b.ts_exchange

  unfoldable pub insert_event : Event F → List (Event F) → List (Event F)
  insert_event e [] = e ∷ []
  insert_event e (x ∷ xs) = if comes_before x e then x ∷ insert_event e xs else e ∷ x ∷ xs

  -- `sorted`, which is stable.
  unfoldable pub sort_events : List (Event F) → List (Event F)
  sort_events [] = []
  sort_events (e ∷ es) = insert_event e (sort_events es)

  unfoldable pub order_events :
      ReplayConfig → List (Event F) → Option String → Replayed (List (Event F))
  order_events c events replay_order =
      let order = replay_order_of c replay_order in
      if order == "exchange_time_sort"
      then (if c.allow_exchange_time_sort || is_some replay_order
          then done (sort_events events)
          else failed sort_not_allowed)
      else if order == "arrival_order"
      then done events
      else failed (unsupported_order order)

  -- `_assert_monotonic_sequences`: whether it passes without raising.
  unfoldable pub is_monotonic : Dict Stream ℤ → List (Event F) → Bool
  is_monotonic last [] = true
  is_monotonic last (e ∷ es) = elim (to_int F e.sequence) [
    | none ↦ is_monotonic last es
    | some seq ↦
        if goes_back seq (lookup (stream_of e) last)
        then false
        else is_monotonic (insert (stream_of e) seq last) es
  ]

  abbrev pub time_in : Output F → F
  time_in (fed e report) = e.ts_exchange
  time_in (emitted ts x) = ts

  abbrev pub report_in : Output F → Option (Emitted F)
  report_in (fed e report) = report
  report_in (emitted ts x) = some x

  abbrev pub reported : Outside F → Payload F → Option (Emitted F)
  reported o (Payload.other_event name payload) = o.read_report name payload
  reported o _ = none

  abbrev pub answers : F → List (Emitted F) → List (Output F)
  answers ts [] = []
  answers ts (x ∷ xs) = emitted ts x ∷ answers ts xs

  -- The output for an event and what is made of those behind it.
  abbrev pub with_answers :
      Event F
      → Option (Emitted F)
      → List (Emitted F)
      → Pipeline F × List (Output F)
      → Replayed (Pipeline F × List (Output F))
  with_answers e report events (p, rest) =
      done (p, fed e report ∷ (answers e.ts_exchange events ++ rest))

  abbrev pub answered :
      Event F
      → Option (Emitted F)
      → Result (Pipeline F × List (Emitted F))
      → (Pipeline F → Replayed (Pipeline F × List (Output F)))
      → Replayed (Pipeline F × List (Output F))
  answered e report (raised error) next = failed (in_pipeline error)
  answered e report (ok (p, events)) next = next p >>= with_answers e report events

  -- The loop of `run`.
  unfoldable pub process_all :
      Outside F → Pipeline F → List (Event F) → Replayed (Pipeline F × List (Output F))
  process_all o p [] = done (p, [])
  process_all o p (e ∷ es) =
      answered e (reported o e.payload) (process o p e) (λ p'. process_all o p' es)

  abbrev add_point : F → Option F → List (F × F) → List (F × F)
  add_point ts none points = points
  add_point ts (some fair) points = (ts, fair) ∷ points

  abbrev add_report : F → Option (Emitted F) → List (F × F) → List (F × F)
  add_report ts (some (mark_price s)) points = add_point ts s.fair points
  add_report ts _ points = points

  unfoldable pub fair_points : List (Output F) → List (F × F)
  fair_points [] = []
  fair_points (x ∷ rest) = add_report (time_in x) (report_in x) (fair_points rest)

  -- `_fair_at_or_after` of the points, the first of which is given apart: they are never empty.
  unfoldable pub fair_at_or_after : F × F → List (F × F) → F → F
  fair_at_or_after (ts, fair) [] target = fair
  fair_at_or_after (ts, fair) (next ∷ rest) target =
      let later = fair_at_or_after next rest target in if leb target ts then fair else later

  abbrev enrich_fill : F × F → List (F × F) → F → VirtualFill F → VirtualFill F
  enrich_fill first points ts f = record f {
    fair_after_1s = some (fair_at_or_after first points (ts + dec 1_000 0));
    fair_after_5s = some (fair_at_or_after first points (ts + dec 5_000 0));
    fair_after_30s = some (fair_at_or_after first points (ts + dec 30_000 0));
  }

  abbrev pub enrich_emitted : F × F → List (F × F) → F → Emitted F → Emitted F
  enrich_emitted first points ts (virtual_fill f) = virtual_fill (enrich_fill first points ts f)
  enrich_emitted first points ts x = x

  abbrev pub enrich_report : F × F → List (F × F) → F → Option (Emitted F) → Option (Emitted F)
  enrich_report first points ts none = none
  enrich_report first points ts (some x) = some (enrich_emitted first points ts x)

  unfoldable pub enrich_all : F × F → List (F × F) → List (Output F) → List (Output F)
  enrich_all first points [] = []
  enrich_all first points (fed e report ∷ rest) =
      fed e (enrich_report first points e.ts_exchange report) ∷ enrich_all first points rest
  enrich_all first points (emitted ts x ∷ rest) =
      emitted ts (enrich_emitted first points ts x) ∷ enrich_all first points rest

  abbrev enrich_from : List (F × F) → List (Output F) → List (Output F)
  enrich_from [] events = events
  enrich_from (first ∷ points) events = enrich_all first points events

  unfoldable pub enrich_fair_after : List (Output F) → List (Output F)
  enrich_fair_after events = enrich_from (fair_points events) events

  abbrev pub enriched : Pipeline F × List (Output F) → Replayed (Pipeline F × List (Output F))
  enriched (p, output) = done (p, enrich_fair_after output)

  -- `run` after the events are in order.
  abbrev pub run_ordered :
      ReplayConfig
      → Outside F
      → Pipeline F
      → Option Bool
      → List (Event F)
      → Replayed (Pipeline F × List (Output F))
  run_ordered c o p strict ordered =
      if or_setting strict c.strict_sequence && not (is_monotonic [] ordered)
      then failed sequence_violation
      else process_all o p ordered >>= enriched

  unfoldable pub run :
      ReplayConfig
      → Outside F
      → Pipeline F
      → List (Event F)
      → Option String
      → Option Bool
      → Replayed (Pipeline F × List (Output F))
  run c o p events replay_order strict =
      order_events c events replay_order >>= run_ordered c o p strict
