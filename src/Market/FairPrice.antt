-- ===== src/Market/FairPrice.antt =====
-- ghost_amm/market/fair_price.py: the fair price from fresh sources that agree.
use ghost_amm.Base.{
  ℕ, Bool, true, false, not, ◌&&◌, ◌||◌, Option, none, some, String, List, [], ◌∷◌, ◌++◌, map, Dict,
  values, insert, erase, ◌==◌, if◌then◌else◌, filter, length, nat_ltb, is_some, string_eq,
}
use ghost_amm.Base.Int.{pos}
use ghost_amm.Num.{Num, num_eq, ltb, leb, dec, max, abs, ◌+◌, ◌-◌, ◌*◌, ◌/◌}
use ghost_amm.Events.{Field, missing, null, unreadable, number, ExternalFair, Payload, Event}
use ghost_amm.Market.OrderBook.{OrderBook, best_bid, best_ask}
use mathlib.Core.Option
pub mod Median
mod Tests
pub mod Agreement

pub record FairPriceSource (F : Type 0) : Type 0 where
  pub name : String
  pub fair : F
  pub ts_ms : F
  pub spread_bps : Option F
  pub confidence : F

pub record FairPriceState (F : Type 0) : Type 0 where
  pub fair : Option F
  pub source_count : ℕ
  pub spread_bps : Option F
  pub is_valid : Bool
  pub reason : Option String
  pub sources : List String
  pub deviation_bps : Option F

pub record FairPriceEngine (F : Type 0) : Type 0 where
  pub max_spread_bps : F
  pub stale_after_ms : F
  pub min_source_count : ℕ
  pub max_source_age_ms : F
  pub max_source_deviation_bps : F
  pub use_median : Bool
  pub sources : Dict String (FairPriceSource F)

module _ {F : Type 0} where
  abbrev pub invalid : Option F → String → FairPriceState F
  invalid spread reason = record {
    fair = none;
    source_count = 0;
    spread_bps = spread;
    is_valid = false;
    reason = some reason;
    sources = [];
    deviation_bps = none;
  }

  abbrev pub names : List (FairPriceSource F) → List String
  names [] = []
  names (s ∷ ss) = s.name ∷ names ss

  abbrev pub fairs : List (FairPriceSource F) → List F
  fairs [] = []
  fairs (s ∷ ss) = s.fair ∷ fairs ss

  abbrev add_known : Option F → List F → List F
  add_known none xs = xs
  add_known (some x) xs = x ∷ xs

  -- The spreads that are not None.
  abbrev pub known_spreads : List (FairPriceSource F) → List F
  known_spreads [] = []
  known_spreads (s ∷ ss) = add_known s.spread_bps (known_spreads ss)

module _ {F : Type 0} ⦃n : Num F⦄ where
  -- `sorted` of numbers, and `statistics.median`: the middle value, or the mean of the middle two.
  unfoldable pub insert_sorted : F → List F → List F
  insert_sorted x [] = x ∷ []
  insert_sorted x (y ∷ ys) = if ltb y x then y ∷ insert_sorted x ys else x ∷ y ∷ ys

  unfoldable pub sorted : List F → List F
  sorted [] = []
  sorted (x ∷ xs) = insert_sorted x (sorted xs)

  -- Walks two lists, the second twice as fast, to the middle of the first.
  unfoldable pub middle_of : F → List F → List F → F
  middle_of x rest [] = x
  middle_of x [] (a ∷ fast) = x
  middle_of x (y ∷ rest) (a ∷ []) = (x + y) / dec 2 0
  middle_of x (y ∷ rest) (a ∷ b ∷ fast) = middle_of y rest fast

  unfoldable pub median_sorted : List F → Option F
  median_sorted [] = none
  median_sorted (x ∷ xs) = some (middle_of x xs xs)

  -- `none` where `median` raises, on no values.
  unfoldable pub median : List F → Option F
  median xs = median_sorted (sorted xs)

  -- The callers take the median of lists that are not empty.
  unfoldable pub deviation_bps : F → F → F
  deviation_bps value reference =
      if leb reference (dec 0 0)
      then dec 0 0
      else abs (value - reference) / reference * dec 10_000 0

  unfoldable pub largest_deviation : F → F → List (FairPriceSource F) → F
  largest_deviation fair worst [] = worst
  largest_deviation fair worst (s ∷ ss) =
      largest_deviation fair (max worst (deviation_bps s.fair fair)) ss

  unfoldable pub max_deviation : List (FairPriceSource F) → F → Option F
  max_deviation [] fair = none
  max_deviation (s ∷ ss) fair = some (largest_deviation fair (deviation_bps s.fair fair) ss)

  abbrev pub mean : List F → F
  mean xs = n.sum xs / n.of_int (pos (length xs))

  abbrev pub is_fresh : FairPriceEngine F → F → FairPriceSource F → Bool
  is_fresh e now s = leb (now - s.ts_ms) e.max_source_age_ms

  abbrev pub agrees : FairPriceEngine F → F → FairPriceSource F → Bool
  agrees e reference s = leb (deviation_bps s.fair reference) e.max_source_deviation_bps

  abbrev pub fair_of : FairPriceEngine F → List (FairPriceSource F) → Option F
  fair_of e [] = none
  fair_of e (s ∷ kept) =
      if e.use_median then median (fairs (s ∷ kept)) else some (mean (fairs (s ∷ kept)))

  abbrev pub valid_state : List (FairPriceSource F) → F → FairPriceState F
  valid_state kept fair = record {
    fair = some fair;
    source_count = length kept;
    spread_bps = median (known_spreads kept);
    is_valid = true;
    reason = none;
    sources = names kept;
    deviation_bps = max_deviation kept fair;
  }

  -- The end of `from_sources`, from the sources that agree with the reference. `none` is the
  -- exception that `median`, or the division by the count, raises when no source is left.
  unfoldable pub from_kept :
      FairPriceEngine F → F → List (FairPriceSource F) → Option (FairPriceState F)
  from_kept e reference kept =
      if nat_ltb (length kept) e.min_source_count
      then some (record {
        fair = none;
        source_count = length kept;
        spread_bps = median (known_spreads kept);
        is_valid = false;
        reason = some "insufficient_fair_sources";
        sources = names kept;
        deviation_bps = max_deviation kept reference;
      })
      else Option.map (valid_state kept) (fair_of e kept)

  abbrev from_reference :
      FairPriceEngine F → List (FairPriceSource F) → Option F → Option (FairPriceState F)
  from_reference e fresh none = some (invalid none "no_fresh_fair_sources")
  from_reference e fresh (some reference) =
      from_kept e reference (filter (agrees e reference) fresh)

  unfoldable pub from_sources :
      FairPriceEngine F → List (FairPriceSource F) → F → Option (FairPriceState F)
  from_sources e sources now =
      let fresh = filter (is_fresh e now) sources in from_reference e fresh (median (fairs fresh))

  unfoldable pub largest_state_deviation : F → F → List F → F
  largest_state_deviation fair worst [] = worst
  largest_state_deviation fair worst (x ∷ xs) =
      largest_state_deviation fair (max worst (deviation_bps x fair)) xs

  abbrev max_state_deviation : List F → F → Option F
  max_state_deviation [] fair = none
  max_state_deviation (x ∷ xs) fair = some (largest_state_deviation fair (deviation_bps x fair) xs)

  -- The valid states with a price, each with that price.
  unfoldable pub valid_prices : List (FairPriceState F) → List (F × FairPriceState F)
  valid_prices [] = []
  valid_prices (s ∷ ss) = elim (s.fair) [
    | none ↦ valid_prices ss
    | some x ↦ if s.is_valid then (x, s) ∷ valid_prices ss else valid_prices ss
  ]

  abbrev prices : List (F × FairPriceState F) → List F
  prices [] = []
  prices ((x, s) ∷ rest) = x ∷ prices rest

  abbrev state_spreads : List (F × FairPriceState F) → List F
  state_spreads [] = []
  state_spreads ((x, s) ∷ rest) = add_known s.spread_bps (state_spreads rest)

  abbrev state_sources : List (F × FairPriceState F) → List String
  state_sources [] = []
  state_sources ((x, s) ∷ rest) = s.sources ++ state_sources rest

  abbrev merged : List (F × FairPriceState F) → Option F → FairPriceState F
  merged valid none = invalid none "no_valid_sources"
  merged valid (some fair) = record {
    fair = some fair;
    source_count = length valid;
    spread_bps = median (state_spreads valid);
    is_valid = true;
    reason = none;
    sources = state_sources valid;
    deviation_bps = max_state_deviation (prices valid) fair;
  }

  unfoldable pub multi_source_median : List (FairPriceState F) → FairPriceState F
  multi_source_median states =
      let valid = valid_prices states in merged valid (median (prices valid))
