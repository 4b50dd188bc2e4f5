-- ===== src/Amm/Projector/Safety.antt =====
-- What amm/projector.py leaves active after `sync`.
use Prim.Native.Nat.{◌≤◌}
use ghost_amm.Base.{
  ℕ, suc, ◌≡◌, refl, Bool, true, false, Option, none, some, List, [], ◌∷◌, All, All-map, All-take,
  filter-All, length, length-take-le, beq_refl, Dict, lookup, erase, IsDict, insert-IsDict,
  erase-IsDict, insert-All, erase-All, lookup-erase_self, arith, inl, inr, Bool-cases,
  if◌then◌else◌,
}
use ghost_amm.Num.{Num}
use ghost_amm.Amm.OrderId.{Key, key_eq}
use ghost_amm.Amm.QuoteSurface.{Quote}
use ghost_amm.Amm.Projector.{
  OrderProjector, ActiveVirtualOrder, SyncInput, ProjectorEvent, key_of, post_only_safe,
  should_keep_existing, desired_of, is_desired, is_stale, drop_stale, order_of, place, project_over,
  project_one, project_all, sync, project_quotes,
}

undesired : (F : Type 0) (k : Key) → ¬ (is_desired {F = F} k [] ≡ true)
unfolding is_desired
undesired F k h = cc

module _ {F : Type 0} where
  length-erase :
      (k : Key) (d : Dict Key (ActiveVirtualOrder F)) → length d ≤ suc (length (erase k d))
  length-erase k [] = omega arith
  length-erase k ((j, o) ∷ d) = ground (arith, length-erase k d)

  All-others :
      (q : Quote F) (qs : List (Quote F)) (k : Key) (d : Dict Key (ActiveVirtualOrder F))
      → key_of q ≡ k
      → lookup k d ≡ none
      → All (λ e. is_desired e.0 (q ∷ qs) ≡ true) d
      → All (λ e. is_desired e.0 qs ≡ true) d
  unfolding is_desired
  All-others q qs k [] e l h = tt
  All-others q qs k ((j, o) ∷ d) e l (h, hs) = (
    ground (arith, key_eq.beq_iff (key_of q) j, key_eq.beq_iff j k),
    All-others q qs k d e (ground arith) hs,
  )

  -- Keys that do not repeat and all belong to a list of quotes are no more than those quotes.
  length-le_desired :
      (qs : List (Quote F)) (d : Dict Key (ActiveVirtualOrder F))
      → IsDict d
      → All (λ e. is_desired e.0 qs ≡ true) d
      → length d ≤ length qs
  length-le_desired [] [] h a = omega arith
  length-le_desired [] (e ∷ d) h a = absurd (undesired F e.0 a.0)
  length-le_desired (q ∷ qs) d h a =
      let k = key_of q in
      let rest = All-others q qs k (erase k d) refl (lookup-erase_self k d h) (erase-All _ k d a) in
      omega (arith, length-erase k d, length-le_desired qs (erase k d) (erase-IsDict k d h) rest)

module _ {F : Type 0} ⦃n : Num F⦄ (i : SyncInput F) where
  -- The entry's key is that of a desired quote, and the order may rest post-only under the decision.
  abbrev pub IsSafe : List (Quote F) → Key × ActiveVirtualOrder F → Type 0
  IsSafe desired (k, o) =
      (is_desired k desired ≡ true) × (post_only_safe o.side o.price i.book i.risk ≡ true)

  abbrev pub QuoteIsSafe : Quote F → Type 0
  QuoteIsSafe q = post_only_safe q.side q.price i.book i.risk ≡ true

  kept-IsSafe :
      (desired : List (Quote F)) (k : Key) (o : ActiveVirtualOrder F)
      → is_stale i desired k o ≡ false
      → IsSafe desired (k, o)
  unfolding is_stale
  kept-IsSafe desired k o h = ground arith

  drop_stale-IsSafe :
      (desired : List (Quote F)) (counter : ℕ) (d : Dict Key (ActiveVirtualOrder F))
      → All (IsSafe desired) (drop_stale i desired counter d).0
  unfolding drop_stale
  drop_stale-IsSafe desired counter [] = tt
  drop_stale-IsSafe desired counter ((k, o) ∷ rest) = elim (Bool-cases (is_stale i desired k o)) [
    | inl e ↦ rw e (drop_stale-IsSafe desired (suc counter) rest)
    | inr e ↦ rw e (kept-IsSafe desired k o e, drop_stale-IsSafe desired counter rest)
  ]

  lookup-drop_stale :
      (desired : List (Quote F)) (counter : ℕ) (k : Key) (d : Dict Key (ActiveVirtualOrder F))
      → lookup k d ≡ none
      → lookup k (drop_stale i desired counter d).0 ≡ none
  unfolding drop_stale
  lookup-drop_stale desired counter k [] h = refl
  lookup-drop_stale desired counter k ((j, o) ∷ rest) h = ground (
    arith,
    lookup-drop_stale desired (suc counter) k rest,
    lookup-drop_stale desired counter k rest,
  )

  pub drop_stale-IsDict :
      (desired : List (Quote F)) (counter : ℕ) (d : Dict Key (ActiveVirtualOrder F))
      → IsDict d
      → IsDict (drop_stale i desired counter d).0
  unfolding drop_stale
  drop_stale-IsDict desired counter [] h = tt
  drop_stale-IsDict desired counter ((k, o) ∷ rest) h = ground (
    arith,
    lookup-drop_stale desired counter k rest,
    drop_stale-IsDict desired counter rest h.1,
    drop_stale-IsDict desired (suc counter) rest h.1,
  )

  -- Safe entries under keys that do not repeat.
  abbrev IsSound : List (Quote F) → OrderProjector F → Type 0
  IsSound desired p = IsDict p.active × All (IsSafe desired) p.active

  place-IsSound :
      (desired : List (Quote F)) (p : OrderProjector F) (q : Quote F)
      → is_desired (key_of q) desired ≡ true
      → QuoteIsSafe q
      → IsSound desired p
      → IsSound desired (place p q i.now_ms).0
  unfolding place order_of
  place-IsSound desired p q d s (h, hs) = (
    insert-IsDict (key_of q) _ p.active h,
    insert-All (IsSafe desired) (key_of q) _ p.active (d, s) hs,
  )

  pick-IsSound :
      (desired : List (Quote F)) (c : Bool) (x y : OrderProjector F × List (ProjectorEvent F))
      → IsSound desired x.0
      → IsSound desired y.0
      → IsSound desired (if c then x else y).0
  pick-IsSound desired true x y h k = h
  pick-IsSound desired false x y h k = k

  project_over-IsSound :
      (desired : List (Quote F)) (p : OrderProjector F) (q : Quote F)
      (o : Option (ActiveVirtualOrder F))
      → is_desired (key_of q) desired ≡ true
      → QuoteIsSafe q
      → IsSound desired p
      → IsSound desired (project_over p q i.now_ms o).0
  project_over-IsSound desired p q none d s h = place-IsSound desired p q d s h
  project_over-IsSound desired p q (some o) d s h =
      pick-IsSound desired (should_keep_existing p o q i.now_ms) _ _ h (
        place-IsSound desired
          (record p { active = erase (key_of q) p.active; counter = suc p.counter }) q d s
          (
            erase-IsDict (key_of q) p.active h.0,
            erase-All (IsSafe desired) (key_of q) p.active h.1,
          ))

  project_all-IsSound :
      (desired : List (Quote F)) (p : OrderProjector F) (qs : List (Quote F))
      → All (λ q. (is_desired (key_of q) desired ≡ true) × QuoteIsSafe q) qs
      → IsSound desired p
      → IsSound desired (project_all p qs i.now_ms).0
  unfolding project_all project_one
  project_all-IsSound desired p [] a h = h
  project_all-IsSound desired p (q ∷ qs) (a, as_) h =
      project_all-IsSound desired (project_one p q i.now_ms).0 qs as_
        (project_over-IsSound desired p q (lookup (key_of q) p.active) a.0 a.1 h)

  is_desired_self : (q : Quote F) (qs : List (Quote F)) → is_desired (key_of q) (q ∷ qs) ≡ true
  unfolding is_desired
  is_desired_self q qs = rw (beq_refl (key_of q))

  is_desired_later :
      (k : Key) (q : Quote F) (qs : List (Quote F))
      → is_desired k qs ≡ true
      → is_desired k (q ∷ qs) ≡ true
  unfolding is_desired
  is_desired_later k q qs h = ground arith

  All-desired : (qs : List (Quote F)) → All (λ q. is_desired (key_of q) qs ≡ true) qs
  All-desired [] = tt
  All-desired (q ∷ qs) = (
    is_desired_self q qs,
    All-map _ _ (λ r h. is_desired_later (key_of r) q qs h) qs (All-desired qs),
  )

  All-both :
      (P Q : Quote F → Type 0) (qs : List (Quote F)) → All P qs → All Q qs → All (λ q. P q × Q q) qs
  All-both P Q [] h k = tt
  All-both P Q (q ∷ qs) (h, hs) (k, ks) = ((h, k), All-both P Q qs hs ks)

  desired_of-safe : (p : OrderProjector F) → All QuoteIsSafe (desired_of p i)
  unfolding desired_of
  desired_of-safe p = All-take _ p.max_active_orders _ (filter-All _ i.quotes)

  length-desired_of : (p : OrderProjector F) → length (desired_of p i) ≤ p.max_active_orders
  unfolding desired_of
  length-desired_of p = length-take-le p.max_active_orders _

  -- What is active after a sync with quoting allowed: every order is under the key of a quote that is
  -- still wanted, may rest without crossing the book on a side that the decision allows, and there
  -- are at most `max_active_orders` of them.
  pub record IsProjected (p p' : OrderProjector F) : Type 0 where
    pub once : IsDict p'.active
    pub safe : All (IsSafe (desired_of p i)) p'.active
    pub few : length p'.active ≤ p.max_active_orders

  project_quotes-IsProjected :
      (p : OrderProjector F) → IsDict p.active → IsProjected p (project_quotes p i).0
  unfolding project_quotes
  project_quotes-IsProjected p h =
      let desired = desired_of p i in
      let dropped = drop_stale i desired p.counter p.active in
      let start : OrderProjector F = record p { active = dropped.0; counter = dropped.1 } in
      let (once, safe) =
        project_all-IsSound desired start desired
          (All-both _ _ desired (All-desired desired) (desired_of-safe p))
          (
            drop_stale-IsDict desired p.counter p.active h,
            drop_stale-IsSafe desired p.counter p.active,
          ) in
      record {
        once = once;
        safe = safe;
        few = omega (
          arith,
          length-le_desired desired _ once (All-map _ _ (λ e s. s.0) _ safe),
          length-desired_of p,
        );
      }

  pub sync-allowed :
      (p : OrderProjector F) → i.risk.allow_quote ≡ true → sync p i ≡ project_quotes p i
  unfolding sync
  sync-allowed p allowed = simp allowed

  -- A sync with quoting allowed leaves only wanted and safe orders, never more than the limit.
  pub sync-IsProjected :
      (p : OrderProjector F)
      → IsDict p.active
      → i.risk.allow_quote ≡ true
      → IsProjected p (sync p i).0
  sync-IsProjected p h allowed = rw (sync-allowed p allowed) (project_quotes-IsProjected p h)
