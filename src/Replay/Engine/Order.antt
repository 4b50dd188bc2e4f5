-- ===== src/Replay/Engine/Order.antt =====
-- The order in which replay/engine.py feeds the events.
use ghost_amm.Base.{
  ℕ, suc, ◌≡◌, refl, Bool, true, false, Option, String, List, [], ◌∷◌, All, All-map, arith, inl,
  inr, Bool-cases, ◌||◌, ◌==◌, is_some, string_eq, if◌then◌else◌,
}
use ghost_amm.Num.{Num, IsOrdered, ◌≼◌, num_eq}
use ghost_amm.Num.Order.{le_of_lt, le_of_not_lt}
use ghost_amm.Events.{Event}
use ghost_amm.Replay.Engine.{
  ReplayConfig, Replayed, done, failed, sort_not_allowed, unsupported_order, replay_order_of,
  comes_before, insert_event, sort_events, order_events,
}
use ghost_amm.Replay.Engine.Outcome.{Yields}

if-Yields :
    {A : Type 0} (P : A → Type 0) (test : Bool) (r s : Replayed A)
    → Yields P r
    → Yields P s
    → Yields P (if test then r else s)
if-Yields P true r s h k = h
if-Yields P false r s h k = k

module _ {F : Type 0} where
  -- How often an event passes a test.
  abbrev pub count : (Event F → Bool) → List (Event F) → ℕ
  count t [] = 0
  count t (e ∷ es) = let rest = count t es in if t e then suc rest else rest

module _ {F : Type 0} ⦃n : Num F⦄ where
  insert_event-count :
      (t : Event F → Bool) (e : Event F) (es : List (Event F))
      → count t (insert_event e es) ≡ count t (e ∷ es)
  unfolding insert_event
  insert_event-count t e [] = refl
  insert_event-count t e (x ∷ xs) = ground (arith, insert_event-count t e xs)

  -- Sorting keeps every event, as often as it was there.
  pub sort_events-count :
      (t : Event F → Bool) (es : List (Event F)) → count t (sort_events es) ≡ count t es
  unfolding sort_events
  sort_events-count t [] = refl
  sort_events-count t (e ∷ es) =
      ground (arith, insert_event-count t e (sort_events es), sort_events-count t es)

  -- No later in exchange time.
  abbrev pub Until : Event F → Event F → Type 0
  Until e later = e.ts_exchange ≼ later.ts_exchange

  abbrev pub AreInTime : List (Event F) → Type 0
  AreInTime [] = Unit
  AreInTime (e ∷ es) = All (Until e) es × AreInTime es

  insert_event-All :
      (P : Event F → Type 0) (e : Event F) (es : List (Event F))
      → P e
      → All P es
      → All P (insert_event e es)
  unfolding insert_event
  insert_event-All P e [] p h = (p, tt)
  insert_event-All P e (x ∷ xs) p (h, hs) = elim (Bool-cases (comes_before x e)) [
    | inl t ↦ rw t (h, insert_event-All P e xs p hs)
    | inr t ↦ rw t (p, (h, hs))
  ]

  -- What holds of all events holds of them in any order that is asked for.
  sort_events-All : (P : Event F → Type 0) (es : List (Event F)) → All P es → All P (sort_events es)
  unfolding sort_events
  sort_events-All P [] h = tt
  sort_events-All P (e ∷ es) (h, hs) =
      insert_event-All P e (sort_events es) h (sort_events-All P es hs)

  pub order_events-All :
      (P : Event F → Type 0) (c : ReplayConfig) (es : List (Event F)) (order : Option String)
      → All P es
      → Yields (All P) (order_events c es order)
  unfolding order_events
  order_events-All P c es order h =
      let name = replay_order_of c order in
      let in_time = c.allow_exchange_time_sort || is_some order in
      if-Yields (All P) (name == "exchange_time_sort")
        (if in_time then done (sort_events es) else failed sort_not_allowed)
        (if name == "arrival_order" then done es else failed (unsupported_order name))
        (if-Yields (All P) in_time (done (sort_events es)) (failed sort_not_allowed)
          (sort_events-All P es h) tt)
        (if-Yields (All P) (name == "arrival_order") (done es) (failed (unsupported_order name)) h
          tt)

module _ {F : Type 0} ⦃n : Num F⦄ (laws : IsOrdered F) where
  comes_before-Until : (a b : Event F) → comes_before a b ≡ true → Until a b
  unfolding comes_before
  comes_before-Until a b h = ground (
    arith,
    n.equality.beq_iff a.ts_exchange b.ts_exchange,
    laws.le_refl a.ts_exchange,
    le_of_lt laws a.ts_exchange b.ts_exchange,
  )

  not_before-Until : (a b : Event F) → comes_before a b ≡ false → Until b a
  unfolding comes_before
  not_before-Until a b h = ground (
    arith,
    n.equality.beq_iff a.ts_exchange b.ts_exchange,
    laws.le_refl a.ts_exchange,
    le_of_not_lt laws a.ts_exchange b.ts_exchange,
  )

  insert_event-AreInTime :
      (e : Event F) (es : List (Event F)) → AreInTime es → AreInTime (insert_event e es)
  unfolding insert_event
  insert_event-AreInTime e [] h = (tt, tt)
  insert_event-AreInTime e (x ∷ xs) (h, hs) = elim (Bool-cases (comes_before x e)) [
    | inl t ↦ rw t (
      insert_event-All (Until x) e xs (comes_before-Until x e t) h,
      insert_event-AreInTime e xs hs,
    )
    | inr t ↦
        let first = not_before-Until x e t in
        rw t ((first, All-map _ _ (λ y k. laws.le_trans _ _ _ first k) xs h), (h, hs))
  ]

  -- The events come out in exchange time.
  pub sort_events-AreInTime : (es : List (Event F)) → AreInTime (sort_events es)
  unfolding sort_events
  sort_events-AreInTime [] = tt
  sort_events-AreInTime (e ∷ es) =
      insert_event-AreInTime e (sort_events es) (sort_events-AreInTime es)

  -- In exchange time, and every event as often as before.
  pub record IsSorting (es sorted : List (Event F)) : Type 0 where
    pub in_time : AreInTime sorted
    pub same : (t : Event F → Bool) → count t sorted ≡ count t es

  -- The events sorted come out in exchange time, and each as often as it was there.
  pub sort_events-IsSorting : (es : List (Event F)) → IsSorting es (sort_events es)
  sort_events-IsSorting es = record {
    in_time = sort_events-AreInTime es;
    same = λ t. sort_events-count t es;
  }
