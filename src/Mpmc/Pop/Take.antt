-- ===== src/Mpmc/Pop/Take.antt =====
-- What a pop does to its slot when nobody interferes (src/edge_runtime/queue/mpmc_queue.cpp).
use edge_runtime.Common.{ℕ, ◌+◌, ◌%◌, ◌≤◌, ◌≡◌, refl}
use edge_runtime.Mpmc.Pop.{require_pop_epoch, pop_commit, take, pop_slot}
use edge_runtime.Mpmc.Push.{require_capacity, require_slot}
use edge_runtime.Mpmc.Push.Publish.{slot_fits-ok}
use edge_runtime.Mpmc.State.{
  slot_free, slot_ready, slot_dequeue_claiming, slot_dequeue_owned, Slot, Memory, Handle, set_slot,
  slot_cell,
}
use edge_runtime.Mpmc.State.Slots.{
  slots-set_slot_self, store-slot_then, store_owner-slot, claim-slot, begin_owner_commit-slot,
}
use edge_runtime.Owner.{max_committed_epoch}
use edge_runtime.Owner.Quiet.{owner_epoch_capacity-quiet}
use edge_runtime.Shared.{ok, quiet, pure, ◌>>◌, require, shared_load, shared_store}
use edge_runtime.Shared.Laws.{bind_ok, then_ok}

-- The slot after it was given back
abbrev pub reclaimed_slot : Handle → ℕ → ℕ → ℕ → Slot → Slot
reclaimed_slot h dequeue reclaim_sequence committed_epoch s = record {
  sequence = reclaim_sequence;
  state = slot_free;
  owner = h.self;
  ticket = dequeue;
  owner_epoch = committed_epoch;
  payload = s.payload;
}

load-slot :
    {A : Type 0} (offset : ℕ) (g : Slot → A) (s : Slot) (m : Memory)
    → shared_load (λ n. g (n.slots offset)) (quiet (set_slot offset s m))
      ≡ (ok (g s), quiet (set_slot offset s m))
unfolding shared_load
load-slot offset g s m = rw (slots-set_slot_self offset s m)

pub take-quiet :
    (h : Handle) (offset dequeue next_dequeue reclaim_sequence committed_epoch : ℕ) (s : Slot)
    (m : Memory)
    → take h offset dequeue next_dequeue reclaim_sequence committed_epoch
        (quiet (set_slot offset s m))
      ≡ (
        ok s.payload,
        quiet
            (record (set_slot offset
              (reclaimed_slot h dequeue reclaim_sequence committed_epoch s)
              m) { dequeue_position = next_dequeue }),
      )
unfolding take
take-quiet h offset dequeue next_dequeue reclaim_sequence committed_epoch s m =
    then_ok _ _ (store_owner-slot offset h.self s m) (
      store-slot_then offset (λ t. record t { ticket = dequeue }) _ m _
        (store-slot_then offset (λ t. record t { owner_epoch = committed_epoch }) _ m _
          (store-slot_then offset (λ t. record t { state = slot_dequeue_owned }) _ m _
            (bind_ok _ _ (load-slot offset (λ t. t.payload) _ m) (
              store-slot_then offset (λ t. record t { sequence = reclaim_sequence }) _ m _
                (store-slot_then offset (λ t. record t { state = slot_free }) _ m _
                  (unfold shared_store ◌>>◌ pure in refl)))))))

-- A slot that a pop finds as it should be
pub record IsPublished (position : ℕ) (s : Slot) : Type 0 where
  pub sequence : s.sequence ≡ position + 1
  pub filled : s.state ≡ slot_ready
  pub even : s.owner_epoch % 2 ≡ 0
  pub room : s.owner_epoch + 2 ≤ max_committed_epoch

pub pop_slot-quiet :
    (h : Handle) (offset dequeue reclaim_sequence : ℕ) (m : Memory)
    → IsPublished dequeue (m.slots offset)
    → pop_slot h offset dequeue (dequeue + 1) reclaim_sequence (quiet m) ≡ (
      ok (m.slots offset).payload,
      quiet
          (record (set_slot offset
            (reclaimed_slot h dequeue reclaim_sequence
              ((m.slots offset).owner_epoch + 2)
              (m.slots offset))
            m) { dequeue_position = dequeue + 1 }),
    )
unfolding pop_slot require_slot require_pop_epoch require_capacity pop_commit pure require
pop_slot-quiet h offset dequeue reclaim_sequence m v =
    bind_ok _ _ (slot_fits-ok offset (dequeue + 1) slot_ready m v.sequence v.filled) (
      then_ok _ _ refl (
        then_ok _ _
          (bind_ok _ _ (owner_epoch_capacity-quiet (slot_cell offset) 2 m v.even v.room) refl)
          (bind_ok _ _ (claim-slot offset slot_ready slot_dequeue_claiming m v.filled) (
            then_ok _ _ refl (
              bind_ok _ _
                (begin_owner_commit-slot offset 2
                  (record (m.slots offset) { state = slot_dequeue_claiming }) m v.even v.room)
                (bind_ok _ _ refl (
                  take-quiet h offset dequeue (dequeue + 1) reclaim_sequence
                    ((m.slots offset).owner_epoch + 2) _ m)))))))
