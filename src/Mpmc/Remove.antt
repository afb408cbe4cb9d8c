-- ===== src/Mpmc/Remove.antt =====
-- Removing a queue by its creator (src/edge_runtime/queue/mpmc_queue.cpp). Unlinking the name of the
-- object is the system's, and a parameter.
pub mod Rights
use edge_runtime.Common.{◌==◌, if◌then◌else◌, ℕ, Bool, true, false, not, Option, none, some}
use edge_runtime.Error.{ErrorCode}
use edge_runtime.Mpmc.Gate.{
  Disposition, owner_matches, snapshot_gate_owner, owner_observation_is_unrecoverable,
}
use edge_runtime.Mpmc.Push.{validate_live_handle}
use edge_runtime.Mpmc.State.{lock_free, Memory, Handle, gate_cell}
use edge_runtime.Owner.{SnapshotKind}
use edge_runtime.Shared.{Action, pure, fail, ◌>>=◌, ◌>>◌, require, read, shared_load}

abbrev pub Unlink : Type 0
Unlink = Action Memory (Unit {0})

-- An owner that is dead under a protocol that is intact
unfoldable pub removal_code : Disposition → SnapshotKind → Option ErrorCode
removal_code Disposition.unrecoverable SnapshotKind.corrupt = some ErrorCode.recovery_blocked
removal_code Disposition.unrecoverable SnapshotKind.epoch_exhausted =
    some ErrorCode.recovery_blocked
removal_code Disposition.unrecoverable _ = none
removal_code _ _ = some ErrorCode.queue_contention

-- A gate that is in use must have an owner that is gone.
unfoldable pub check_abandoned : Handle → Bool → Bool → Action Memory (Unit {0})
check_abandoned h enqueue false = pure tt
check_abandoned h enqueue true = do
  observation ← snapshot_gate_owner enqueue
  disposition ← owner_observation_is_unrecoverable h enqueue observation
  elim (removal_code disposition observation.kind) [ none ↦ pure tt | some e ↦ fail e ]

unfoldable pub gate_active : Bool → Action Memory Bool
gate_active enqueue = do
  lock ← shared_load (gate_cell enqueue).state
  pure (not (lock == lock_free))

-- `mpmc_remove_if_creator_impl`, with the handle that it leaves
unfoldable pub remove_if_creator : Unlink → Handle → Action Memory Handle
remove_if_creator unlink h = do
  validate_live_handle h
  creator ← read (λ m. m.creator)
  require (owner_matches creator h.self) ErrorCode.permission_denied
  enqueue_active ← gate_active true
  dequeue_active ← gate_active false
  check_abandoned h true enqueue_active
  check_abandoned h false dequeue_active
  unlink
  pure (record h { removed = true })

-- `mpmc_capacity_impl`
unfoldable pub capacity_of : Handle → Memory → ℕ
capacity_of h m = if h.removed then 0 else m.capacity

-- `mpmc_generation_impl`
unfoldable pub generation_of : Handle → Memory → ℕ
generation_of h m = if h.removed then 0 else m.generation
