-- ===== src/Mpmc/State/Slots.antt =====
-- Writing one slot of a queue's memory.
use mathlib.Core.Path.{fun_ext}
use edge_runtime.Common.{ℕ, ◌+◌, ◌%◌, ◌≤◌, ◌≡◌, ap, ◌≢◌, true, arith}
use edge_runtime.Mpmc.State.{Slot, Memory, update_slot, set_slot, slot_cell}
use edge_runtime.Owner.{Owner, max_committed_epoch, CommitResult, store_owner, begin_owner_commit}
use edge_runtime.Owner.Quiet.{begin_owner_commit-quiet}
use edge_runtime.Shared.{Result, ok, World, quiet, Action, ◌>>◌, shared_store, shared_cas}
use edge_runtime.Shared.Laws.{then_ok}

pub slots-set_slot_self :
    (offset : ℕ) (s : Slot) (m : Memory) → (set_slot offset s m).slots offset ≡ s
unfolding set_slot
slots-set_slot_self offset s m = ground arith

pub slots-set_slot_ne :
    (offset k : ℕ) (s : Slot) (m : Memory) → k ≢ offset → (set_slot offset s m).slots k ≡ m.slots k
unfolding set_slot
slots-set_slot_ne offset k s m n = ground arith

pub update_slot-ne :
    (offset i : ℕ) (s : Slot) (f : ℕ → Slot) → i ≢ offset → update_slot offset s f i ≡ f i
update_slot-ne offset i s f n = ground arith

pub update_slot_self : (offset : ℕ) (s : Slot) (f : ℕ → Slot) → update_slot offset s f offset ≡ s
update_slot_self offset s f = ground arith

update_slot-update_slot :
    (offset : ℕ) (s t : Slot) (f : ℕ → Slot)
    → update_slot offset s (update_slot offset t f) ≡ update_slot offset s f
update_slot-update_slot offset s t f = fun_ext λ k. ground arith

pub set_slot-set_slot :
    (offset : ℕ) (s t : Slot) (m : Memory)
    → set_slot offset s (set_slot offset t m) ≡ set_slot offset s m
unfolding set_slot
set_slot-set_slot offset s t m =
    ap (λ (f : ℕ → Slot). record m { slots = f }) (update_slot-update_slot offset s t m.slots)

pub ruleset slot_writes = (slots-set_slot_self, set_slot-set_slot)

-- A store into the slot that was written last
pub store-slot :
    (offset : ℕ) (g : Slot → Slot) (s : Slot) (m : Memory)
    → shared_store (λ n. set_slot offset (g (n.slots offset)) n) (quiet (set_slot offset s m))
      ≡ (ok tt, quiet (set_slot offset (g s) m))
unfolding shared_store
store-slot offset g s m = rw (slots-set_slot_self offset s m, set_slot-set_slot offset (g s) s m)

-- Two stores into one slot are one store.
pub store-slot_then :
    (offset : ℕ) (g : Slot → Slot) (s : Slot) (m : Memory) {B : Type 0} (k : Action Memory B)
    {r : Result B × World Memory}
    → k (quiet (set_slot offset (g s) m)) ≡ r
    → (shared_store (λ n. set_slot offset (g (n.slots offset)) n) >> k)
        (quiet (set_slot offset s m))
      ≡ r
store-slot_then offset g s m k p = then_ok _ k (store-slot offset g s m) p

pub store_owner-slot :
    (offset : ℕ) (v : Owner) (s : Slot) (m : Memory)
    → store_owner (slot_cell offset) v (quiet (set_slot offset s m))
      ≡ (ok tt, quiet (set_slot offset (record s { owner = v }) m))
unfolding store_owner
store_owner-slot offset v s m =
    store-slot_then offset (λ t. record t { owner = record (t.owner) { pid = v.pid } }) s m _
      (store-slot_then offset
        (λ t. record t { owner = record (t.owner) { proc_start_ticks = v.proc_start_ticks } }) _ m _
        (store-slot_then offset
          (λ t. record t { owner = record (t.owner) { boot_id_hash_hi = v.boot_id_hash_hi } }) _ m _
          (store-slot offset
            (λ t. record t { owner = record (t.owner) { boot_id_hash_lo = v.boot_id_hash_lo } }) _
            m)))

-- Claiming a slot by its state
pub claim-slot :
    (offset expected desired : ℕ) (m : Memory)
    → (m.slots offset).state ≡ expected
    → shared_cas (slot_cell offset).state expected ((slot_cell offset).set_state desired) (quiet m)
      ≡ (ok true, quiet (set_slot offset (record (m.slots offset) { state = desired }) m))
unfolding shared_cas
claim-slot offset expected desired m e = ground arith

-- Beginning to commit an owner of the slot that was written last
pub begin_owner_commit-slot :
    (offset reserve : ℕ) (s : Slot) (m : Memory)
    → s.owner_epoch % 2 ≡ 0
    → s.owner_epoch + reserve ≤ max_committed_epoch
    → begin_owner_commit (slot_cell offset) reserve (quiet (set_slot offset s m)) ≡ (
      ok (CommitResult.ready (s.owner_epoch + 2)),
      quiet (set_slot offset (record s { owner_epoch = s.owner_epoch + 1 }) m),
    )
unfolding set_slot
begin_owner_commit-slot offset reserve s m e l =
    rw
      (
        slots-set_slot_self offset s m,
        set_slot-set_slot offset (record s { owner_epoch = s.owner_epoch + 1 }) s m,
      )
      at
      (begin_owner_commit-quiet (slot_cell offset) reserve (set_slot offset s m)
        (rw (slots-set_slot_self offset s m) e) (rw (slots-set_slot_self offset s m) l))
