-- ===== src/Market/FairEngine/Reading.antt =====
-- When market/fair_price.py reads the source that an event brings, without an exception of `float`.
use Prim.Native.Nat.{◌≤◌}
use mathlib.Core.Option.{some-ne-none}
use ghost_amm.Base.{
  ◌≡◌, ◌≢◌, refl, inl, inr, Bool-cases, ◌&&◌, String, Dict, Option, none, some, false,
}
use ghost_amm.Num.{Num, dec, ltb}
use ghost_amm.Events.{Payload, Field, missing, null, unreadable, number, ExternalFair}
use ghost_amm.Market.OrderBook.{OrderBook}
use ghost_amm.Market.FairPrice.{FairPriceSource, FairPriceEngine}
use ghost_amm.Market.FairPrice.Agreement.{from_sources-ne-none}
use ghost_amm.Market.FairEngine.{
  spread_raises, with_own, event_sources, add_read, external_source, external_fair_jpy,
  source_from_external_fair, source_from_ticker, mid_source, last_source, float_or, float_if_any,
}

module _ {F : Type 0} ⦃n : Num F⦄ where
  -- `float` reads the value, or is given the default where there is none.
  abbrev Reads : Field F → Type 0
  Reads missing = Unit
  Reads null = ⊥
  Reads unreadable = ⊥
  Reads (number x) = Unit

  -- The value is missing or None, or `float` reads it.
  abbrev ReadsIfAny : Field F → Type 0
  ReadsIfAny missing = Unit
  ReadsIfAny null = Unit
  ReadsIfAny unreadable = ⊥
  ReadsIfAny (number x) = Unit

  -- `float` reads what a ticker or an external fair price holds.
  abbrev pub IsReadable : Payload F → Type 0
  IsReadable (Payload.bitbank_ticker buy sell last) =
      ReadsIfAny buy × ReadsIfAny sell × ReadsIfAny last
  IsReadable (Payload.external_fair_price x) =
      Reads x.ts_ms × ReadsIfAny x.spread_bps × Reads x.confidence
  IsReadable _ = Unit

  last_source-ne-none :
      (ts : F) (last : Field F) → ReadsIfAny last → last_source ts (float_if_any last) ≢ none
  last_source-ne-none ts missing h e = some-ne-none _ e
  last_source-ne-none ts null h e = some-ne-none _ e
  last_source-ne-none ts unreadable h e = h
  last_source-ne-none ts (number x) h e = some-ne-none _ e

  mid_source-ne-none :
      (ts bid ask : F) (last : Field F)
      → ReadsIfAny last
      → mid_source ts (some (some bid)) (some (some ask)) last ≢ none
  mid_source-ne-none ts bid ask last h =
      elim (Bool-cases (ltb (dec 0 0) bid && ltb (dec 0 0) ask && ltb bid ask)) [
        | inl e ↦ rw e (λ q. some-ne-none _ q)
        | inr e ↦ rw e (last_source-ne-none ts last h)
      ]

  source_from_ticker-ne-none :
      (ts : F) (buy sell last : Field F)
      → ReadsIfAny buy
      → ReadsIfAny sell
      → ReadsIfAny last
      → source_from_ticker ts buy sell last ≢ none
  unfolding source_from_ticker
  source_from_ticker-ne-none ts missing sell last h k l = last_source-ne-none ts last l
  source_from_ticker-ne-none ts null sell last h k l = last_source-ne-none ts last l
  source_from_ticker-ne-none ts unreadable sell last h k l = absurd h
  source_from_ticker-ne-none ts (number bid) missing last h k l = last_source-ne-none ts last l
  source_from_ticker-ne-none ts (number bid) null last h k l = last_source-ne-none ts last l
  source_from_ticker-ne-none ts (number bid) unreadable last h k l = absurd k
  source_from_ticker-ne-none ts (number bid) (number ask) last h k l =
      mid_source-ne-none ts bid ask last l

  float_or_given : (d : F) (f : Field F) → Reads f → (v : F) × (float_or d f ≡ some v)
  float_or_given d missing h = (d, refl)
  float_or_given d null h = absurd h
  float_or_given d unreadable h = absurd h
  float_or_given d (number x) h = (x, refl)

  float_if_any_given : (f : Field F) → ReadsIfAny f → (v : Option F) × (float_if_any f ≡ some v)
  float_if_any_given missing h = (none, refl)
  float_if_any_given null h = (none, refl)
  float_if_any_given unreadable h = absurd h
  float_if_any_given (number x) h = (some x, refl)

  external_source-ne-none :
      (x : ExternalFair F) (ts : F) (fair : Option F)
      → IsReadable (Payload.external_fair_price x)
      → external_source x ts fair ≢ none
  external_source-ne-none x ts none h = λ e. some-ne-none _ e
  external_source-ne-none x ts (some fair) (a, b, c) =
      let (t, read_t) = float_or_given ts x.ts_ms a in
      let (s, read_s) = float_if_any_given x.spread_bps b in
      let (k, read_k) = float_or_given (dec 8 1) x.confidence c in
      rw (read_t, read_s, read_k) (λ e. some-ne-none _ e)

  add_read-ne-none :
      (s : Option (Option (FairPriceSource F))) (d : Dict String (FairPriceSource F))
      → s ≢ none
      → add_read s d ≢ none
  add_read-ne-none none d h = absurd (h refl)
  add_read-ne-none (some s) d h = λ e. some-ne-none _ e

  pub event_sources-ne-none :
      (p : Payload F) (ts : F) (d : Dict String (FairPriceSource F))
      → IsReadable p
      → event_sources p ts d ≢ none
  unfolding source_from_external_fair
  event_sources-ne-none (Payload.bitbank_ticker buy sell last) ts d (a, b, c) =
      add_read-ne-none _ d (source_from_ticker-ne-none ts buy sell last a b c)
  event_sources-ne-none (Payload.external_fair_price x) ts d h =
      add_read-ne-none _ d (external_source-ne-none x ts (external_fair_jpy x) h)
  event_sources-ne-none _ ts d h = λ e. some-ne-none _ e

  pub with_own-ne-none :
      (e : FairPriceEngine F) (b : OrderBook F) (now : F)
      (own : Option (Dict String (FairPriceSource F)))
      → 1 ≤ e.min_source_count
      → spread_raises e b now ≡ false
      → own ≢ none
      → ((with_own e b now own).1 ≢ none)
        × ((with_own e b now own).0.min_source_count ≡ e.min_source_count)
  with_own-ne-none e b now none h r k = absurd (k refl)
  with_own-ne-none e b now (some own) h r k = rw r (from_sources-ne-none _ _ now h, refl)
