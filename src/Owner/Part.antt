-- ===== src/Owner/Part.antt =====
-- Writing one part of a shared memory, with an owner or without, when nobody interferes
-- (src/edge_runtime/sync/shared_atomic.hpp, owner_snapshot.hpp).
use edge_runtime.Common.{ℕ, ◌+◌, ◌%◌, ◌≤◌, ◌≡◌, refl, true, arith}
use edge_runtime.Owner.{
  Owner, Cell, max_committed_epoch, CommitResult, store_owner, begin_owner_commit,
  owner_epoch_capacity,
}
use edge_runtime.Owner.Quiet.{begin_owner_commit-quiet, owner_epoch_capacity-quiet}
use edge_runtime.Shared.{
  Result, ok, World, quiet, Action, ◌>>◌, shared_load, shared_store, shared_cas,
}
use edge_runtime.Shared.Laws.{then_ok}

-- A part of a memory that can be read and written on its own
pub record Part (S X : Type 0) : Type 0 where
  pub get : S → X
  pub set : X → S → S
  pub get_set : (x : X) (m : S) → get (set x m) ≡ x
  pub set_set : (x y : X) (m : S) → set x (set y m) ≡ set x m

-- The owner of a part as an owner of the memory
abbrev pub owner_of : {S X : Type 0} → Part S X → Cell X → Cell S
owner_of p c = record {
  state = λ m. c.state (p.get m);
  epoch = λ m. c.epoch (p.get m);
  owner = λ m. c.owner (p.get m);
  set_state = λ v m. p.set (c.set_state v (p.get m)) m;
  set_epoch = λ v m. p.set (c.set_epoch v (p.get m)) m;
  set_owner = λ v m. p.set (c.set_owner v (p.get m)) m;
}

module _ {S X : Type 0} (p : Part S X) where
  -- A store into the part that was written last
  pub store-part :
      (g : X → X) (x : X) (m : S)
      → shared_store (λ n. p.set (g (p.get n)) n) (quiet (p.set x m))
        ≡ (ok tt, quiet (p.set (g x) m))
  unfolding shared_store
  store-part g x m = rw (p.get_set x m, p.set_set (g x) x m) refl

  -- Two stores into one part are one store.
  pub store-part_then :
      (g : X → X) (x : X) (m : S) {B : Type 0} (k : Action S B) {r : Result B × World S}
      → k (quiet (p.set (g x) m)) ≡ r
      → (shared_store (λ n. p.set (g (p.get n)) n) >> k) (quiet (p.set x m)) ≡ r
  store-part_then g x m k e = then_ok _ k (store-part g x m) e

  pub load-part :
      {A : Type 0} (f : X → A) (x : X) (m : S)
      → shared_load (λ n. f (p.get n)) (quiet (p.set x m)) ≡ (ok (f x), quiet (p.set x m))
  unfolding shared_load
  load-part f x m = rw (p.get_set x m) refl

  -- A compare-and-swap that finds what it expects
  pub claim-part :
      (f : X → ℕ) (expected : ℕ) (g : X → X) (m : S)
      → f (p.get m) ≡ expected
      → shared_cas (λ n. f (p.get n)) expected (λ n. p.set (g (p.get n)) n) (quiet m)
        ≡ (ok true, quiet (p.set (g (p.get m)) m))
  unfolding shared_cas
  claim-part f expected g m e = ground arith

  module _ (c : Cell X) where
    -- The identity that the four stores leave
    abbrev pub owned_by : Owner → X → X
    owned_by v x =
        let a = c.set_owner (record (c.owner x) { pid = v.pid }) x in
        let b = c.set_owner (record (c.owner a) { proc_start_ticks = v.proc_start_ticks }) a in
        let d = c.set_owner (record (c.owner b) { boot_id_hash_hi = v.boot_id_hash_hi }) b in
        c.set_owner (record (c.owner d) { boot_id_hash_lo = v.boot_id_hash_lo }) d

    pub store_owner-part :
        (v : Owner) (x : X) (m : S)
        → store_owner (owner_of p c) v (quiet (p.set x m)) ≡ (ok tt, quiet (p.set (owned_by v x) m))
    unfolding store_owner
    store_owner-part v x m =
        store-part_then (λ y. c.set_owner (record (c.owner y) { pid = v.pid }) y) x m _
          (store-part_then
            (λ y. c.set_owner (record (c.owner y) { proc_start_ticks = v.proc_start_ticks }) y) _ m
            _
            (store-part_then
              (λ y. c.set_owner (record (c.owner y) { boot_id_hash_hi = v.boot_id_hash_hi }) y) _ m
              _
              (store-part
                (λ y. c.set_owner (record (c.owner y) { boot_id_hash_lo = v.boot_id_hash_lo }) y) _
                m)))

    pub begin_owner_commit-part :
        (reserve : ℕ) (x : X) (m : S)
        → c.epoch x % 2 ≡ 0
        → c.epoch x + reserve ≤ max_committed_epoch
        → begin_owner_commit (owner_of p c) reserve (quiet (p.set x m)) ≡ (
          ok (CommitResult.ready (c.epoch x + 2)),
          quiet (p.set (c.set_epoch (c.epoch x + 1) x) m),
        )
    begin_owner_commit-part reserve x m e l =
        rw (p.get_set x m, p.set_set (c.set_epoch (c.epoch x + 1) x) x m) at
          (begin_owner_commit-quiet (owner_of p c) reserve (p.set x m) (rw (p.get_set x m) e)
            (rw (p.get_set x m) l))

    pub owner_epoch_capacity-part :
        (reserve : ℕ) (x : X) (m : S)
        → c.epoch x % 2 ≡ 0
        → c.epoch x + reserve ≤ max_committed_epoch
        → owner_epoch_capacity (owner_of p c) reserve (quiet (p.set x m))
          ≡ (ok (CommitResult.ready (c.epoch x)), quiet (p.set x m))
    owner_epoch_capacity-part reserve x m e l = rw (p.get_set x m) at (
        owner_epoch_capacity-quiet (owner_of p c) reserve (p.set x m) (rw (p.get_set x m) e)
          (rw (p.get_set x m) l))
