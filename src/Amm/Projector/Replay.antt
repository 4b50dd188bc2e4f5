-- ===== src/Amm/Projector/Replay.antt =====
-- The events of `sync` of amm/projector.py say exactly what changed: who replays them knows which orders
-- are active.
use ghost_amm.Base.{
  ℕ, suc, ◌≡◌, refl, Bool, true, false, Option, none, some, List, [], ◌∷◌, ◌++◌, Dict, lookup,
  insert, erase, IsDict, insert-IsDict, erase-IsDict, lookup-erase_self, arith, if◌then◌else◌,
}
use ghost_amm.Num.{Num}
use ghost_amm.Amm.OrderId.{OrderId, order_id_eq, Key, key_eq}
use ghost_amm.Amm.QuoteSurface.{Quote}
use ghost_amm.Amm.Projector.{
  OrderProjector, ActiveVirtualOrder, SyncInput, ProjectorEvent, key_of, should_keep_existing,
  desired_of, drop_stale, order_of, place, project_over, project_one, project_all, project_quotes,
  sync, cancel_all, cancel_event, cancel_events,
}
use ghost_amm.Amm.Projector.Events.{
  has_id, live, AreNumbered, live-append, AreNumbered-mono, has_id-erase, has_id-insert,
  erase-AreNumbered, has_id-drop_stale, AreNumbered-drop_stale,
}
use ghost_amm.Amm.Projector.Safety.{drop_stale-IsDict}

module _ {F : Type 0} where
  -- Orders under keys that do not repeat, with ids that do not repeat and that the counter is past.
  pub record IsNumbered (p : OrderProjector F) : Type 0 where
    pub once : IsDict p.active
    pub numbered : AreNumbered p.counter p.active

  -- The new state is in order, and its orders are those that the events leave live.
  pub record Tells (p p' : OrderProjector F) (events : List (ProjectorEvent F)) : Type 0 where
    pub stays : IsNumbered p'
    pub tells : (id : OrderId) → has_id id p'.active ≡ live (has_id id p.active) events id

  Tells-trans :
      (p p' p'' : OrderProjector F) (es fs : List (ProjectorEvent F))
      → Tells p p' es
      → Tells p' p'' fs
      → Tells p p'' (es ++ fs)
  Tells-trans p p' p'' es fs h k = record {
    stays = k.stays;
    tells = λ id. rw (live-append, ← h.tells id) (k.tells id);
  }

  insert-AreNumbered :
      (k : Key) (o : ActiveVirtualOrder F) (c : ℕ) (d : Dict Key (ActiveVirtualOrder F))
      → o.order_id.number ≡ suc c
      → lookup k d ≡ none
      → AreNumbered c d
      → AreNumbered (suc c) (insert k o d)
  insert-AreNumbered k o c [] e l h = (omega arith, refl, tt)
  insert-AreNumbered k o c ((j, w) ∷ d) e l (num, fresh, h) = ground (
    arith,
    insert-AreNumbered k o c d e,
    has_id-insert k o d w.order_id,
    order_id_eq.beq_iff o.order_id w.order_id,
  )

  cleared-Tells :
      (c m : ℕ) (d : Dict Key (ActiveVirtualOrder F)) (id : OrderId) (reason : _)
      → AreNumbered m d
      → false ≡ live (has_id id d) (cancel_events c d reason) id
  unfolding cancel_events cancel_event
  cleared-Tells c m [] id reason h = refl
  cleared-Tells c m ((k, o) ∷ d) id reason (num, fresh, h) =
      ground (arith, cleared-Tells (suc c) m d id reason h, order_id_eq.beq_iff o.order_id id)

  cancel_all-Tells :
      (p : OrderProjector F) (reason : _)
      → IsNumbered p
      → Tells p (cancel_all p reason).0 (cancel_all p reason).1
  unfolding cancel_all
  cancel_all-Tells p reason h = record {
    stays = record { once = tt; numbered = tt };
    tells = λ id. cleared-Tells p.counter p.counter p.active id reason h.numbered;
  }

module _ {F : Type 0} ⦃n : Num F⦄ where
  place-Tells :
      (p : OrderProjector F) (q : Quote F) (now : F)
      → lookup (key_of q) p.active ≡ none
      → IsNumbered p
      → Tells p (place p q now).0 (place p q now).1
  unfolding place order_of
  place-Tells p q now l h = record {
    stays = record {
      once = insert-IsDict (key_of q) _ p.active h.once;
      numbered = insert-AreNumbered (key_of q) _ p.counter p.active refl l h.numbered;
    };
    tells = λ id. has_id-insert (key_of q) _ p.active id l;
  }

  pick-Tells :
      (p : OrderProjector F) (c : Bool) (x y : OrderProjector F × List (ProjectorEvent F))
      → Tells p x.0 x.1
      → Tells p y.0 y.1
      → Tells p (if c then x else y).0 (if c then x else y).1
  pick-Tells p true x y h k = h
  pick-Tells p false x y h k = k

  Tells-refl : (p : OrderProjector F) → IsNumbered p → Tells p p []
  Tells-refl p h = record { stays = h; tells = λ id. refl }

  erase-Tells :
      (p : OrderProjector F) (k : Key) (o : ActiveVirtualOrder F) (reason : _)
      → lookup k p.active ≡ some o
      → IsNumbered p
      → Tells p
          (record p { active = erase k p.active; counter = suc p.counter })
          (cancel_event (suc p.counter) o reason ∷ [])
  unfolding cancel_event
  erase-Tells p k o reason l h = record {
    stays = record {
      once = erase-IsDict k p.active h.once;
      numbered =
          AreNumbered-mono p.counter (suc p.counter) _ (omega arith)
            (erase-AreNumbered k p.counter p.active h.numbered);
    };
    tells = λ id. has_id-erase k o p.counter p.active id h.numbered l;
  }

  project_over-Tells :
      (p : OrderProjector F) (q : Quote F) (now : F) (found : Option (ActiveVirtualOrder F))
      → lookup (key_of q) p.active ≡ found
      → IsNumbered p
      → Tells p (project_over p q now found).0 (project_over p q now found).1
  project_over-Tells p q now none l h = place-Tells p q now l h
  project_over-Tells p q now (some o) l h =
      let cleared = erase-Tells p (key_of q) o "replaced" l h in
      pick-Tells p (should_keep_existing p o q now) _ _ (Tells-refl p h) (
        Tells-trans p _ _ _ _ cleared (
          place-Tells (record p { active = erase (key_of q) p.active; counter = suc p.counter }) q
            now (lookup-erase_self (key_of q) p.active h.once) cleared.stays))

  project_all-Tells :
      (p : OrderProjector F) (qs : List (Quote F)) (now : F)
      → IsNumbered p
      → Tells p (project_all p qs now).0 (project_all p qs now).1
  unfolding project_all project_one
  project_all-Tells p [] now h = Tells-refl p h
  project_all-Tells p (q ∷ qs) now h =
      let first = project_over-Tells p q now (lookup (key_of q) p.active) refl h in
      Tells-trans p (project_one p q now).0 _ (project_one p q now).1 _ first
        (project_all-Tells (project_one p q now).0 qs now first.stays)

  project_quotes-Tells :
      (p : OrderProjector F) (i : SyncInput F)
      → IsNumbered p
      → Tells p (project_quotes p i).0 (project_quotes p i).1
  unfolding project_quotes
  project_quotes-Tells p i h =
      let desired = desired_of p i in
      let dropped = drop_stale i desired p.counter p.active in
      let start : OrderProjector F = record p { active = dropped.0; counter = dropped.1 } in
      let kept : Tells p start dropped.2 = record {
        stays = record {
          once = drop_stale-IsDict i desired p.counter p.active h.once;
          numbered =
              (AreNumbered-drop_stale i desired p.counter p.counter p.active (omega arith)
                h.numbered).1;
        };
        tells = λ id. has_id-drop_stale i desired p.counter p.counter p.active id h.numbered;
      } in
      Tells-trans p start _ dropped.2 _ kept (project_all-Tells start desired i.now_ms kept.stays)

  -- The events of a sync tell exactly how the active orders changed: an id is active afterwards if and
  -- only if the events, replayed in order from whether it was active before, leave it live. The orders
  -- keep ids and keys that do not repeat.
  pub sync-Tells :
      (p : OrderProjector F) (i : SyncInput F) → IsNumbered p → Tells p (sync p i).0 (sync p i).1
  unfolding sync
  sync-Tells p i h =
      pick-Tells p i.risk.allow_quote _ _ (project_quotes-Tells p i h) (cancel_all-Tells p _ h)
