-- ===== src/Amm/Projector/Events.antt =====
-- The ids of the active orders of amm/projector.py, and which of them the emitted events leave live.
use Prim.Native.Nat.{◌≤◌, ◌<◌}
use ghost_amm.Base.{
  ℕ, suc, ◌≡◌, refl, Bool, true, false, none, some, List, [], ◌∷◌, ◌++◌, Dict, lookup, insert,
  erase, arith, inl, inr, Bool-cases, if◌then◌else◌, ◌==◌,
}
use ghost_amm.Num.{Num}
use ghost_amm.Amm.OrderId.{OrderId, order_id_eq, Key, key_eq}
use ghost_amm.Amm.QuoteSurface.{Quote}
use ghost_amm.Amm.Projector.{
  ActiveVirtualOrder, SyncInput, ProjectorEvent, placed, canceled, is_stale, drop_stale,
  cancel_event,
}

module _ {F : Type 0} where
  -- Whether an order with the id is among the active orders.
  abbrev pub has_id : OrderId → Dict Key (ActiveVirtualOrder F) → Bool
  has_id id [] = false
  has_id id ((k, o) ∷ d) = if o.order_id == id then true else has_id id d

  -- Whether the order with the id is live after the events, from whether it was before.
  abbrev pub live : Bool → List (ProjectorEvent F) → OrderId → Bool
  live b [] id = b
  live b (placed s o ∷ es) id = live (if o.order_id == id then true else b) es id
  live b (canceled s j reason side price size ∷ es) id = live (if j == id then false else b) es id

  -- The ids that were given out differ and are numbered up to the counter.
  abbrev pub AreNumbered : ℕ → Dict Key (ActiveVirtualOrder F) → Type 0
  AreNumbered c [] = Unit
  AreNumbered c ((k, o) ∷ d) =
      (o.order_id.number ≤ c) × (has_id o.order_id d ≡ false) × AreNumbered c d

  pub live-append :
      (b : Bool) (es fs : List (ProjectorEvent F)) (id : OrderId)
      → live b (es ++ fs) id ≡ live (live b es id) fs id
  live-append b [] fs id = refl
  live-append b (placed s o ∷ es) fs id =
      live-append (if o.order_id == id then true else b) es fs id
  live-append b (canceled s j reason side price size ∷ es) fs id =
      live-append (if j == id then false else b) es fs id

  -- An id above the counter is not in use.
  pub number_unused :
      (c : ℕ) (id : OrderId) (d : Dict Key (ActiveVirtualOrder F))
      → AreNumbered c d
      → c < id.number
      → has_id id d ≡ false
  number_unused c id [] h lt = refl
  number_unused c id ((k, o) ∷ d) h lt =
      ground (arith, order_id_eq.beq_iff o.order_id id, number_unused c id d h.2 lt)

  pub AreNumbered-mono :
      (c c' : ℕ) (d : Dict Key (ActiveVirtualOrder F)) → c ≤ c' → AreNumbered c d → AreNumbered c' d
  AreNumbered-mono c c' [] le h = tt
  AreNumbered-mono c c' ((k, o) ∷ d) le (num, fresh, h) =
      (omega arith, fresh, AreNumbered-mono c c' d le h)

  lookup-has_id :
      (k : Key) (o : ActiveVirtualOrder F) (d : Dict Key (ActiveVirtualOrder F))
      → lookup k d ≡ some o
      → has_id o.order_id d ≡ true
  lookup-has_id k o [] l = cc
  lookup-has_id k o ((j, w) ∷ d) l =
      ground (arith, lookup-has_id k o d, order_id_eq.beq_iff w.order_id o.order_id)

  has_id-erase_none :
      (k : Key) (d : Dict Key (ActiveVirtualOrder F)) (id : OrderId)
      → has_id id d ≡ false
      → has_id id (erase k d) ≡ false
  has_id-erase_none k [] id h = refl
  has_id-erase_none k ((j, w) ∷ d) id h = ground (arith, has_id-erase_none k d id)

  pub has_id-erase :
      (k : Key) (o : ActiveVirtualOrder F) (c : ℕ) (d : Dict Key (ActiveVirtualOrder F))
      (id : OrderId)
      → AreNumbered c d
      → lookup k d ≡ some o
      → has_id id (erase k d) ≡ (if o.order_id == id then false else has_id id d)
  has_id-erase k o c [] id h l = cc
  has_id-erase k o c ((j, w) ∷ d) id (num, fresh, h) l = ground (
    arith,
    has_id-erase k o c d id h,
    order_id_eq.beq_iff o.order_id id,
    order_id_eq.beq_iff w.order_id id,
    lookup-has_id k o d,
  )

  pub has_id-insert :
      (k : Key) (o : ActiveVirtualOrder F) (d : Dict Key (ActiveVirtualOrder F)) (id : OrderId)
      → lookup k d ≡ none
      → has_id id (insert k o d) ≡ (if o.order_id == id then true else has_id id d)
  has_id-insert k o [] id l = refl
  has_id-insert k o ((j, w) ∷ d) id l = ground (arith, has_id-insert k o d id)

  pub erase-AreNumbered :
      (k : Key) (c : ℕ) (d : Dict Key (ActiveVirtualOrder F))
      → AreNumbered c d
      → AreNumbered c (erase k d)
  erase-AreNumbered k c [] h = tt
  erase-AreNumbered k c ((j, w) ∷ d) (num, fresh, h) =
      ground (arith, erase-AreNumbered k c d h, has_id-erase_none k d w.order_id)

module _ {F : Type 0} ⦃n : Num F⦄ (i : SyncInput F) (desired : List (Quote F)) where
  -- The events of the orders that go name only orders that were active.
  live-drop_stale_other :
      (c : ℕ) (d : Dict Key (ActiveVirtualOrder F)) (b : Bool) (id : OrderId)
      → has_id id d ≡ false
      → live b (drop_stale i desired c d).2 id ≡ b
  unfolding drop_stale cancel_event
  live-drop_stale_other c [] b id h = refl
  live-drop_stale_other c ((k, o) ∷ d) b id h =
      ground (arith, live-drop_stale_other (suc c) d b id, live-drop_stale_other c d b id)

  has_id-drop_stale_none :
      (c : ℕ) (d : Dict Key (ActiveVirtualOrder F)) (id : OrderId)
      → has_id id d ≡ false
      → has_id id (drop_stale i desired c d).0 ≡ false
  unfolding drop_stale
  has_id-drop_stale_none c [] id h = refl
  has_id-drop_stale_none c ((k, o) ∷ d) id h =
      ground (arith, has_id-drop_stale_none (suc c) d id, has_id-drop_stale_none c d id)

  pub has_id-drop_stale :
      (c m : ℕ) (d : Dict Key (ActiveVirtualOrder F)) (id : OrderId)
      → AreNumbered m d
      → has_id id (drop_stale i desired c d).0 ≡ live (has_id id d) (drop_stale i desired c d).2 id
  unfolding drop_stale cancel_event
  has_id-drop_stale c m [] id h = refl
  has_id-drop_stale c m ((k, o) ∷ d) id (num, fresh, h) = ground (
    arith,
    has_id-drop_stale (suc c) m d id h,
    has_id-drop_stale c m d id h,
    order_id_eq.beq_iff o.order_id id,
    live-drop_stale_other c d true id,
    live-drop_stale_other (suc c) d false id,
  )

  -- The counter only grows, and the ids that stay are those that were there.
  pub AreNumbered-drop_stale :
      (c m : ℕ) (d : Dict Key (ActiveVirtualOrder F))
      → m ≤ c
      → AreNumbered m d
      → (c ≤ (drop_stale i desired c d).1)
        × AreNumbered (drop_stale i desired c d).1 (drop_stale i desired c d).0
  unfolding drop_stale
  AreNumbered-drop_stale c m [] le h = (omega arith, tt)
  AreNumbered-drop_stale c m ((k, o) ∷ d) le (num, fresh, h) =
      elim (Bool-cases (is_stale i desired k o)) [
        | inl e ↦
            let (low, numbered) = AreNumbered-drop_stale (suc c) m d (omega arith) h in
            rw e (omega arith, numbered)
        | inr e ↦
            let (low, numbered) = AreNumbered-drop_stale c m d le h in
            rw e (low, (omega arith, has_id-drop_stale_none c d o.order_id fresh, numbered))
      ]
