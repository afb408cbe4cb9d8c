-- ===== src/Mpmc/Pop.antt =====
-- `mpmc_try_pop_impl` (src/edge_runtime/queue/mpmc_queue.cpp).
pub mod Take
pub mod Success
use edge_runtime.Common.{◌==◌, if◌then◌else◌, ℕ, true, false, not, Option, none, some, List}
use edge_runtime.Error.{ErrorCode}
use edge_runtime.Mpmc.Admission.{
  validate_queue_positions, snapshot_queue_positions, validate_ticket_bounds, dequeue_drain_budget,
}
use edge_runtime.Mpmc.Gate.{
  gate_busy_result, claim_gate, commit_claimed_gate, release_gate, notify_waiters,
}
use edge_runtime.Mpmc.Push.{
  validate_live_handle, slot_at, check_other_gate, require_capacity, slot_fits, require_slot,
}
use edge_runtime.Mpmc.State.{
  lock_free, slot_free, slot_ready, slot_dequeue_claiming, slot_dequeue_owned, Memory, Handle,
  gate_cell, set_slot, slot_cell,
}
use edge_runtime.Owner.{CommitResult, store_owner, begin_owner_commit, owner_epoch_capacity}
use edge_runtime.Shared.{
  Action, pure, fail, ◌>>=◌, ◌>>◌, or_else, require, read, shared_load, shared_store, shared_cas,
}

-- What a pop answers to an empty queue; `release` is run after the producers' gate was looked at.
unfoldable pub report_empty : {A : Type 0} → Handle → Action Memory (Unit {0}) → Action Memory A
report_empty h release = do check_other_gate h true release; fail ErrorCode.queue_empty

-- The answer before the gate was claimed
unfoldable pub report_empty_ungated : {A : Type 0} → Handle → Action Memory A
report_empty_ungated h = do
  dequeue_state ← shared_load (gate_cell false).state
  if not (dequeue_state == lock_free) then gate_busy_result h false else report_empty h (pure tt)

-- The slot's epoch must leave room for this pop; the slot stays as it is.
unfoldable pub require_pop_epoch : ℕ → Action Memory (Unit {0})
require_pop_epoch offset = do
  slot_capacity ← owner_epoch_capacity (slot_cell offset) 2
  require_capacity ErrorCode.recovery_blocked slot_capacity

-- The committed epoch of the slot; after a failure the slot is published again.
unfoldable pub pop_commit : ℕ → CommitResult → Action Memory ℕ
pop_commit offset (CommitResult.ready committed_epoch) = pure committed_epoch
pop_commit offset failed = do
  shared_store ((slot_cell offset).set_state slot_ready)
  fail ErrorCode.recovery_blocked

-- From the claimed slot on: its owner, the payload, and the slot's return to the producers
unfoldable pub take : Handle → ℕ → ℕ → ℕ → ℕ → ℕ → Action Memory (List ℕ)
take h offset dequeue next_dequeue reclaim_sequence committed_epoch = do
  store_owner (slot_cell offset) h.self
  shared_store (λ m. set_slot offset (record (m.slots offset) { ticket = dequeue }) m)
  shared_store ((slot_cell offset).set_epoch committed_epoch)
  shared_store ((slot_cell offset).set_state slot_dequeue_owned)
  payload ← shared_load (λ m. (m.slots offset).payload)
  shared_store (λ m. set_slot offset (record (m.slots offset) { sequence = reclaim_sequence }) m)
  shared_store ((slot_cell offset).set_state slot_free)
  shared_store (λ m. record m { dequeue_position = next_dequeue })
  pure payload

-- What is done with the slot under the gate
unfoldable pub pop_slot : Handle → ℕ → ℕ → ℕ → ℕ → Action Memory (List ℕ)
pop_slot h offset dequeue next_dequeue reclaim_sequence = do
  fits ← slot_fits offset next_dequeue slot_ready
  require_slot offset false fits
  require_pop_epoch offset
  claimed ←
      shared_cas (slot_cell offset).state slot_ready
        ((slot_cell offset).set_state slot_dequeue_claiming)
  require claimed ErrorCode.queue_contention
  owner_commit ← begin_owner_commit (slot_cell offset) 2
  committed_epoch ← pop_commit offset owner_commit
  take h offset dequeue next_dequeue reclaim_sequence committed_epoch

unfoldable pub pop_at : Handle → Option ℕ → ℕ → ℕ → ℕ → Action Memory (List ℕ)
pop_at h none dequeue next_dequeue reclaim_sequence = fail ErrorCode.recovery_blocked
pop_at h (some offset) dequeue next_dequeue reclaim_sequence =
    pop_slot h offset dequeue next_dequeue reclaim_sequence

-- What is done under the committed gate
unfoldable pub pop_owned : Handle → ℕ → ℕ → ℕ → Action Memory (List ℕ)
pop_owned h dequeue next_dequeue reclaim_sequence = do
  offset ← slot_at h dequeue
  pop_at h offset dequeue next_dequeue reclaim_sequence

-- What is done once the consumers' gate is claimed. A gate whose commit fails is not released.
unfoldable pub pop_gated : Handle → Action Memory (List ℕ)
pop_gated h = do
  capacity ← read (λ m. m.capacity)
  p ← or_else (release_gate false) snapshot_queue_positions
  or_else (release_gate false) (validate_queue_positions p capacity)
  bounds ← or_else (release_gate false) (validate_ticket_bounds p.dequeue capacity)
  if p.dequeue == p.enqueue then report_empty h (release_gate false) else do
    commit_claimed_gate h false
    or_else (release_gate false) (pop_owned h p.dequeue bounds.0 bounds.1)

-- The payload that is written through the pointer is returned.
unfoldable pub try_pop : Handle → ℕ → Action Memory (List ℕ)
try_pop h payload_size = do
  validate_live_handle h
  expected_size ← read (λ m. m.payload_size)
  require (payload_size == expected_size) ErrorCode.invalid_options
  capacity ← read (λ m. m.capacity)
  p ← snapshot_queue_positions
  validate_queue_positions p capacity
  bounds ← validate_ticket_bounds p.dequeue capacity
  if p.dequeue == p.enqueue then report_empty_ungated h else do
    drain_budget ← dequeue_drain_budget h
    require (not (drain_budget == 0)) ErrorCode.sequence_exhausted
    claim_gate h false
    payload ← pop_gated h
    release_gate false
    notify_waiters
    pure payload
