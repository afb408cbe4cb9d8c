-- ===== src/Mpmc/Push.antt =====
-- `mpmc_try_push_impl` (src/edge_runtime/queue/mpmc_queue.cpp).
pub mod Publish
pub mod Success
use edge_runtime.Common.{
  ◌==◌, if◌then◌else◌, length, ℕ, zero, suc, ◌-◌, ◌%◌, Bool, true, false, not, Option, none, some,
  List,
}
use edge_runtime.Error.{ErrorCode}
use edge_runtime.Mpmc.Admission.{
  validate_queue_positions, snapshot_queue_positions, validate_ticket_bounds, dequeue_drain_budget,
  validate_push_drain_admission,
}
use edge_runtime.Mpmc.Gate.{
  Disposition, snapshot_gate_owner, snapshot_slot_owner, gate_busy_result, acquire_gate,
  release_gate, notify_waiters, owner_observation_is_unrecoverable,
}
use edge_runtime.Mpmc.Layout.{slot_offset}
use edge_runtime.Mpmc.State.{
  init_ready, lock_free, slot_free, slot_enqueue_claiming, slot_enqueue_owned, slot_ready,
  slot_epoch_exhausted, slot_owner_protocol_fault, Memory, Handle, gate_cell, set_slot, slot_cell,
}
use edge_runtime.Owner.{CommitResult, store_owner, begin_owner_commit, owner_epoch_capacity}
use edge_runtime.Shared.{
  Result, ok, err, Action, pure, fail, ◌>>=◌, ◌>>◌, or_else, attempt, require, read, shared_load,
  shared_store, shared_cas,
}

-- `validate_live_handle`
unfoldable pub validate_live_handle : Handle → Action Memory (Unit {0})
validate_live_handle h = if h.removed then fail ErrorCode.stale_handle else do
  state ← shared_load (λ m. m.init_state)
  require (state == init_ready) ErrorCode.initialization_incomplete

-- `slot_at`: the byte offset of a position's slot
unfoldable pub slot_at : Handle → ℕ → Action Memory (Option ℕ)
slot_at h position = do
  capacity ← read (λ m. m.capacity)
  pure (slot_offset (position % capacity) capacity h.slot_stride)

unfoldable pub gate_state_code : Disposition → Option ErrorCode
gate_state_code Disposition.changed = some ErrorCode.queue_contention
gate_state_code Disposition.unrecoverable = some ErrorCode.recovery_blocked
gate_state_code Disposition.not_unrecoverable = none

-- Fails if the other side's gate is in a state that waiting does not mend.
unfoldable pub check_other_gate :
    Handle → Bool → Action Memory (Unit {0}) → Action Memory (Unit {0})
check_other_gate h enqueue release = do
  observation ← snapshot_gate_owner enqueue
  disposition ← owner_observation_is_unrecoverable h enqueue observation
  release
  elim (gate_state_code disposition) [ none ↦ pure tt | some e ↦ fail e ]

-- The outcome for a full queue once the consumers' drain budget was asked for
unfoldable pub full_code : Result ℕ → ErrorCode
full_code (err ErrorCode.queue_contention) = ErrorCode.queue_full
full_code (err e) = e
full_code (ok zero) = ErrorCode.sequence_exhausted
full_code (ok (suc n)) = ErrorCode.queue_full

-- What a push answers to a full queue; `release` is run after the consumers' gate was looked at.
unfoldable pub report_full : {A : Type 0} → Handle → Action Memory (Unit {0}) → Action Memory A
report_full h release = do
  check_other_gate h false release
  drain_budget ← attempt (dequeue_drain_budget h)
  fail (full_code drain_budget)

-- The answer before the gate was acquired
unfoldable pub report_full_ungated : {A : Type 0} → Handle → Action Memory A
report_full_ungated h = do
  enqueue_state ← shared_load (gate_cell true).state
  if not (enqueue_state == lock_free) then gate_busy_result h true else report_full h (pure tt)

unfoldable pub require_capacity : ErrorCode → CommitResult → Action Memory (Unit {0})
require_capacity e (CommitResult.ready _) = pure tt
require_capacity e _ = fail e

unfoldable pub slot_terminal : CommitResult → ℕ
slot_terminal CommitResult.epoch_exhausted = slot_epoch_exhausted
slot_terminal _ = slot_owner_protocol_fault

-- `slot_invalid` of a push or pop: the slot's sequence or state is not the expected one. The
-- sequence is read first, and the state only if the sequence fits.
unfoldable pub slot_fits : ℕ → ℕ → ℕ → Action Memory Bool
slot_fits offset expected_sequence expected_state = do
  sequence ← shared_load (λ m. (m.slots offset).sequence)
  if not (sequence == expected_sequence)
      then pure false
      else do state ← shared_load (λ m. (m.slots offset).state); pure (state == expected_state)

-- Refuses an inconsistent slot; both outcomes of the owner's snapshot have one code.
unfoldable pub require_slot : ℕ → Bool → Bool → Action Memory (Unit {0})
require_slot offset enqueue true = pure tt
require_slot offset enqueue false = do
  slot_owner ← snapshot_slot_owner offset enqueue
  fail ErrorCode.recovery_blocked

-- The slot's epoch must leave room for this push and the pop that follows.
unfoldable pub require_slot_epoch : ℕ → Action Memory (Unit {0})
require_slot_epoch offset = do
  slot_capacity ← owner_epoch_capacity (slot_cell offset) 4
  or_else (shared_store ((slot_cell offset).set_state (slot_terminal slot_capacity)))
      (require_capacity ErrorCode.recovery_blocked slot_capacity)

-- The committed epoch of the slot
unfoldable pub slot_commit : ℕ → CommitResult → Action Memory ℕ
slot_commit offset (CommitResult.ready committed_epoch) = pure committed_epoch
slot_commit offset failed = do
  shared_store ((slot_cell offset).set_state (slot_terminal failed))
  fail ErrorCode.recovery_blocked

-- From the claimed slot on: its owner, the payload, and the publication. The payload and the ticket
-- are plain stores, since the slot is owned.
unfoldable pub publish : Handle → ℕ → ℕ → ℕ → ℕ → List ℕ → Action Memory (Unit {0})
publish h offset enqueue next_enqueue committed_epoch payload = do
  store_owner (slot_cell offset) h.self
  shared_store (λ m. set_slot offset (record (m.slots offset) { ticket = enqueue }) m)
  shared_store ((slot_cell offset).set_epoch committed_epoch)
  shared_store ((slot_cell offset).set_state slot_enqueue_owned)
  shared_store (λ m. set_slot offset (record (m.slots offset) { payload = payload }) m)
  shared_store (λ m. set_slot offset (record (m.slots offset) { sequence = next_enqueue }) m)
  shared_store ((slot_cell offset).set_state slot_ready)
  shared_store (λ m. record m { enqueue_position = next_enqueue })

-- What is done with the slot under the gate
unfoldable pub push_slot : Handle → ℕ → ℕ → ℕ → List ℕ → Action Memory (Unit {0})
push_slot h offset enqueue next_enqueue payload = do
  fits ← slot_fits offset enqueue slot_free
  require_slot offset true fits
  require_slot_epoch offset
  claimed ←
      shared_cas (slot_cell offset).state slot_free
        ((slot_cell offset).set_state slot_enqueue_claiming)
  require claimed ErrorCode.queue_contention
  owner_commit ← begin_owner_commit (slot_cell offset) 4
  committed_epoch ← slot_commit offset owner_commit
  publish h offset enqueue next_enqueue committed_epoch payload

-- Without a slot nothing can be pushed.
unfoldable pub push_at : Handle → Option ℕ → ℕ → ℕ → List ℕ → Action Memory (Unit {0})
push_at h none enqueue next_enqueue payload = fail ErrorCode.recovery_blocked
push_at h (some offset) enqueue next_enqueue payload =
    push_slot h offset enqueue next_enqueue payload

-- What is done under the producers' gate; every error of `locked` releases the gate.
unfoldable pub push_gated : Handle → List ℕ → Action Memory (Unit {0})
push_gated h payload = do
  capacity ← read (λ m. m.capacity)
  p ← or_else (release_gate true) snapshot_queue_positions
  or_else (release_gate true) (validate_queue_positions p capacity)
  bounds ← or_else (release_gate true) (validate_ticket_bounds p.enqueue capacity)
  if p.enqueue - p.dequeue == capacity
      then report_full h (release_gate true)
      else or_else (release_gate true) do
        q ← validate_push_drain_admission h p
        offset ← slot_at h q.enqueue
        push_at h offset q.enqueue bounds.0 payload

unfoldable pub try_push : Handle → List ℕ → Action Memory (Unit {0})
try_push h payload = do
  validate_live_handle h
  payload_size ← read (λ m. m.payload_size)
  require (length payload == payload_size) ErrorCode.invalid_options
  capacity ← read (λ m. m.capacity)
  p ← snapshot_queue_positions
  validate_queue_positions p capacity
  bounds ← validate_ticket_bounds p.enqueue capacity
  if p.enqueue - p.dequeue == capacity then report_full_ungated h else do
    q ← validate_push_drain_admission h p
    acquire_gate h true
    push_gated h payload
    release_gate true
    notify_waiters
