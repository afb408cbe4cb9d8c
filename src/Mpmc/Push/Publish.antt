-- ===== src/Mpmc/Push/Publish.antt =====
-- What a push does to its slot when nobody interferes (src/edge_runtime/queue/mpmc_queue.cpp).
use edge_runtime.Common.{ℕ, ◌+◌, ◌%◌, ◌≤◌, ◌≡◌, refl, true, List, arith}
use edge_runtime.Mpmc.Push.{
  require_capacity, slot_fits, require_slot, require_slot_epoch, slot_commit, publish, push_slot,
}
use edge_runtime.Mpmc.State.{
  slot_free, slot_enqueue_claiming, slot_enqueue_owned, slot_ready, Slot, Memory, Handle, set_slot,
  slot_cell,
}
use edge_runtime.Mpmc.State.Slots.{
  store-slot_then, store_owner-slot, claim-slot, begin_owner_commit-slot,
}
use edge_runtime.Owner.{max_committed_epoch}
use edge_runtime.Owner.Quiet.{owner_epoch_capacity-quiet}
use edge_runtime.Shared.{ok, quiet, pure, ◌>>=◌, require, shared_load, shared_store}
use edge_runtime.Shared.Laws.{bind_ok, then_ok, or_else_ok}

-- The slot after its publication
abbrev pub published_slot : Handle → ℕ → ℕ → ℕ → List ℕ → Slot
published_slot h enqueue next_enqueue committed_epoch payload = record {
  sequence = next_enqueue;
  state = slot_ready;
  owner = h.self;
  ticket = enqueue;
  owner_epoch = committed_epoch;
  payload = payload;
}

pub publish-quiet :
    (h : Handle) (offset enqueue next_enqueue committed_epoch : ℕ) (payload : List ℕ) (s : Slot)
    (m : Memory)
    → publish h offset enqueue next_enqueue committed_epoch payload (quiet (set_slot offset s m))
      ≡ (
        ok tt,
        quiet
            (record (set_slot offset
              (published_slot h enqueue next_enqueue committed_epoch payload)
              m) { enqueue_position = next_enqueue }),
      )
unfolding publish
publish-quiet h offset enqueue next_enqueue committed_epoch payload s m =
    then_ok _ _ (store_owner-slot offset h.self s m) (
      store-slot_then offset (λ t. record t { ticket = enqueue }) _ m _
        (store-slot_then offset (λ t. record t { owner_epoch = committed_epoch }) _ m _
          (store-slot_then offset (λ t. record t { state = slot_enqueue_owned }) _ m _
            (store-slot_then offset (λ t. record t { payload = payload }) _ m _
              (store-slot_then offset (λ t. record t { sequence = next_enqueue }) _ m _
                (store-slot_then offset (λ t. record t { state = slot_ready }) _ m _
                  (unfold shared_store in refl)))))))

-- A slot that a push finds as it should be
pub record IsVacant (position : ℕ) (s : Slot) : Type 0 where
  pub sequence : s.sequence ≡ position
  pub free : s.state ≡ slot_free
  pub even : s.owner_epoch % 2 ≡ 0
  pub room : s.owner_epoch + 4 ≤ max_committed_epoch

pub slot_fits-ok :
    (offset sequence state : ℕ) (m : Memory)
    → (m.slots offset).sequence ≡ sequence
    → (m.slots offset).state ≡ state
    → slot_fits offset sequence state (quiet m) ≡ (ok true, quiet m)
unfolding slot_fits shared_load pure ◌>>=◌
slot_fits-ok offset sequence state m e f = ground arith

pub push_slot-quiet :
    (h : Handle) (offset enqueue next_enqueue : ℕ) (payload : List ℕ) (m : Memory)
    → IsVacant enqueue (m.slots offset)
    → push_slot h offset enqueue next_enqueue payload (quiet m) ≡ (
      ok tt,
      quiet
          (record (set_slot offset
            (published_slot h enqueue next_enqueue ((m.slots offset).owner_epoch + 2) payload)
            m) { enqueue_position = next_enqueue }),
    )
unfolding push_slot require_slot require_slot_epoch require_capacity slot_commit pure require
push_slot-quiet h offset enqueue next_enqueue payload m v =
    bind_ok _ _ (slot_fits-ok offset enqueue slot_free m v.sequence v.free) (
      then_ok _ _ refl (
        then_ok _ _
          (bind_ok _ _ (owner_epoch_capacity-quiet (slot_cell offset) 4 m v.even v.room)
            (or_else_ok _ _ refl))
          (bind_ok _ _ (claim-slot offset slot_free slot_enqueue_claiming m v.free) (
            then_ok _ _ refl (
              bind_ok _ _
                (begin_owner_commit-slot offset 4
                  (record (m.slots offset) { state = slot_enqueue_claiming }) m v.even v.room)
                (bind_ok _ _ refl (
                  publish-quiet h offset enqueue next_enqueue ((m.slots offset).owner_epoch + 2)
                    payload _ m)))))))
