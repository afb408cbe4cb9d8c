-- ===== src/Mpmc/Gate.antt =====
-- The two gates of a queue: who may push and who may pop
-- (src/edge_runtime/queue/mpmc_queue.cpp).
pub mod Quiet
pub mod Exclusion
mod Tests
use edge_runtime.Common.{◌==◌, if◌then◌else◌, ℕ, ◌+◌, ◌%◌, ◌^◌, Bool, true, false, not, ◌&&◌, ◌||◌}
use edge_runtime.Error.{ErrorCode}
use edge_runtime.Mpmc.State.{
  lock_free, lock_claiming, lock_owned, lock_epoch_exhausted, lock_owner_protocol_fault, slot_free,
  slot_enqueue_claiming, slot_enqueue_owned, slot_ready, slot_dequeue_claiming, slot_dequeue_owned,
  slot_epoch_exhausted, slot_owner_protocol_fault, Liveness, Memory, Handle, gate_cell, slot_cell,
}
use edge_runtime.Owner.{
  Owner, SnapshotKind, StateKind, OwnerSnapshot, CommitResult, store_owner, begin_owner_commit,
  snapshot_owner,
}
use edge_runtime.Owner.Quiet.{observed}
use edge_runtime.Shared.{
  Action, pure, fail, ◌>>=◌, ◌>>◌, require, shared_load, shared_store, shared_cas,
}

pub data Disposition : Type 0 where
  not_unrecoverable changed unrecoverable : Disposition

unfoldable pub owner_valid : Owner → Bool
owner_valid o =
    not (o.pid == 0)
    && not (o.proc_start_ticks == 0)
    && not (o.boot_id_hash_hi == 0)
    && not (o.boot_id_hash_lo == 0)

-- `owner_matches`, and the comparison of owners in `same_stable_owner_observation`
unfoldable pub owner_matches : Owner → Owner → Bool
owner_matches a b =
    a.pid == b.pid
    && a.proc_start_ticks == b.proc_start_ticks
    && a.boot_id_hash_hi == b.boot_id_hash_hi
    && a.boot_id_hash_lo == b.boot_id_hash_lo

unfoldable pub is_stable : SnapshotKind → Bool
is_stable SnapshotKind.stable = true
is_stable _ = false

unfoldable pub same_stable_owner_observation : OwnerSnapshot → OwnerSnapshot → Bool
same_stable_owner_observation first second =
    is_stable first.kind
    && is_stable second.kind
    && first.state == second.state
    && first.epoch == second.epoch
    && owner_matches first.owner second.owner

-- The classifier of `snapshot_owner`
unfoldable pub classify_state : ℕ → ℕ → ℕ → ℕ → ℕ → ℕ → StateKind
classify_state inactive_state claiming_state owned_state exhausted_state fault_state current =
    if current == inactive_state
    then StateKind.inactive
    else if current == claiming_state
    then StateKind.claiming
    else if current == owned_state
    then StateKind.owned
    else if current == exhausted_state
    then StateKind.epoch_exhausted
    else if current == fault_state
    then StateKind.protocol_fault
    else StateKind.unexpected

abbrev pub classify_gate : ℕ → StateKind
classify_gate =
    classify_state lock_free lock_claiming lock_owned lock_epoch_exhausted lock_owner_protocol_fault

unfoldable pub snapshot_gate_owner : Bool → Action Memory OwnerSnapshot
snapshot_gate_owner enqueue = snapshot_owner (gate_cell enqueue) classify_gate owner_valid

abbrev pub classify_slot : Bool → ℕ → StateKind
classify_slot enqueue =
    if enqueue
    then classify_state slot_free slot_enqueue_claiming slot_enqueue_owned slot_epoch_exhausted
        slot_owner_protocol_fault
    else classify_state slot_ready slot_dequeue_claiming slot_dequeue_owned slot_epoch_exhausted
        slot_owner_protocol_fault

unfoldable pub snapshot_slot_owner : ℕ → Bool → Action Memory OwnerSnapshot
snapshot_slot_owner offset enqueue =
    snapshot_owner (slot_cell offset) (classify_slot enqueue) owner_valid

unfoldable pub is_alive : Liveness → Bool
is_alive Liveness.alive = true
is_alive _ = false

-- An owner from before the last boot
unfoldable pub foreign_boot : Handle → Owner → Bool
foreign_boot h o =
    not (o.boot_id_hash_hi == h.self.boot_id_hash_hi)
    || not (o.boot_id_hash_lo == h.self.boot_id_hash_lo)

unfoldable pub probe_owner : Handle → Owner → Action Memory Liveness
probe_owner h o =
    if foreign_boot h o
    then pure Liveness.unverifiable
    else shared_load (λ m. m.processes o.pid o.proc_start_ticks)

unfoldable pub confirm_owner_liveness : Handle → Bool → OwnerSnapshot → Action Memory Disposition
confirm_owner_liveness h enqueue observation = do
  liveness ← probe_owner h observation.owner
  confirmed ← snapshot_gate_owner enqueue
  pure (
      if not (same_stable_owner_observation observation confirmed)
      then Disposition.changed
      else if foreign_boot h observation.owner
      then Disposition.unrecoverable
      else if is_alive liveness
      then Disposition.not_unrecoverable
      else Disposition.unrecoverable)

-- What `gate_busy_result` returns for a stable owner with this disposition
unfoldable pub busy_code : Bool → Disposition → ErrorCode
busy_code mine Disposition.changed = ErrorCode.queue_contention
busy_code true _ = ErrorCode.concurrent_handle_use
busy_code false Disposition.not_unrecoverable = ErrorCode.queue_contention
busy_code false Disposition.unrecoverable = ErrorCode.recovery_blocked

unfoldable pub gate_busy_for :
    {A : Type 0} → SnapshotKind → Handle → Bool → OwnerSnapshot → Action Memory A
gate_busy_for SnapshotKind.inactive h enqueue o = fail ErrorCode.queue_contention
gate_busy_for SnapshotKind.claiming h enqueue o = fail ErrorCode.queue_contention
gate_busy_for SnapshotKind.unstable h enqueue o = fail ErrorCode.queue_contention
gate_busy_for SnapshotKind.corrupt h enqueue o = fail ErrorCode.recovery_blocked
gate_busy_for SnapshotKind.epoch_exhausted h enqueue o = fail ErrorCode.recovery_blocked
gate_busy_for SnapshotKind.stable h enqueue o = do
  disposition ← confirm_owner_liveness h enqueue o
  fail (busy_code (owner_matches o.owner h.self) disposition)

unfoldable pub gate_busy_result : {A : Type 0} → Handle → Bool → Action Memory A
gate_busy_result h enqueue = do
  observation ← snapshot_gate_owner enqueue
  gate_busy_for observation.kind h enqueue observation

unfoldable pub claim_gate : Handle → Bool → Action Memory (Unit {0})
claim_gate h enqueue = do
  observed ← shared_load (gate_cell enqueue).state
  if not (observed == lock_free) then gate_busy_result h enqueue else do
    swapped ←
        shared_cas (gate_cell enqueue).state lock_free ((gate_cell enqueue).set_state lock_claiming)
    require swapped ErrorCode.queue_contention

unfoldable pub mark_gate_protocol_failure : Bool → ℕ → Action Memory (Unit {0})
mark_gate_protocol_failure enqueue terminal = shared_store ((gate_cell enqueue).set_state terminal)

unfoldable pub commit_gate_with : Handle → Bool → CommitResult → Action Memory (Unit {0})
commit_gate_with h enqueue (CommitResult.ready committed_epoch) = do
  store_owner (gate_cell enqueue) h.self
  shared_store ((gate_cell enqueue).set_epoch committed_epoch)
  shared_store ((gate_cell enqueue).set_state lock_owned)
commit_gate_with h enqueue CommitResult.epoch_exhausted = do
  mark_gate_protocol_failure enqueue lock_epoch_exhausted
  fail ErrorCode.recovery_blocked
commit_gate_with h enqueue CommitResult.corrupt = do
  mark_gate_protocol_failure enqueue lock_owner_protocol_fault
  fail ErrorCode.recovery_blocked

unfoldable pub commit_claimed_gate : Handle → Bool → Action Memory (Unit {0})
commit_claimed_gate h enqueue = do
  owner_commit ← begin_owner_commit (gate_cell enqueue) 2
  commit_gate_with h enqueue owner_commit

unfoldable pub acquire_gate : Handle → Bool → Action Memory (Unit {0})
acquire_gate h enqueue = do claim_gate h enqueue; commit_claimed_gate h enqueue

unfoldable pub release_gate : Bool → Action Memory (Unit {0})
release_gate enqueue = shared_store ((gate_cell enqueue).set_state lock_free)

-- The epoch is a `uint32_t`; that `futex_wake` wakes sleepers changes no memory.
unfoldable pub notify_waiters : Action Memory (Unit {0})
notify_waiters = shared_store (λ m. record m { notify_epoch = (m.notify_epoch + 1) % 2 ^ 32 })

unfoldable pub disposition_for :
    SnapshotKind → Handle → Bool → OwnerSnapshot → Action Memory Disposition
disposition_for SnapshotKind.inactive h enqueue o = pure Disposition.not_unrecoverable
disposition_for SnapshotKind.claiming h enqueue o = pure Disposition.not_unrecoverable
disposition_for SnapshotKind.unstable h enqueue o = pure Disposition.not_unrecoverable
disposition_for SnapshotKind.corrupt h enqueue o = pure Disposition.unrecoverable
disposition_for SnapshotKind.epoch_exhausted h enqueue o = pure Disposition.unrecoverable
disposition_for SnapshotKind.stable h enqueue o = confirm_owner_liveness h enqueue o

unfoldable pub owner_observation_is_unrecoverable :
    Handle → Bool → OwnerSnapshot → Action Memory Disposition
owner_observation_is_unrecoverable h enqueue observation =
    disposition_for observation.kind h enqueue observation
