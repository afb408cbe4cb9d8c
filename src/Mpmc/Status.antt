-- ===== src/Mpmc/Status.antt =====
-- The status report of a queue (src/edge_runtime/queue/mpmc_queue.cpp), without the words of the
-- header that are copied as they are.
pub mod Quiet
use edge_runtime.Common.{◌==◌, if◌then◌else◌, ℕ, Bool, true, false}
use edge_runtime.Error.{ErrorCode}
use edge_runtime.Mpmc.Gate.{
  Disposition, not_unrecoverable, snapshot_gate_owner, foreign_boot, confirm_owner_liveness,
}
use edge_runtime.Mpmc.Push.{validate_live_handle}
use edge_runtime.Mpmc.State.{init_ready, Memory, Handle, gate_cell}
use edge_runtime.Owner.{SnapshotKind, OwnerSnapshot}
use edge_runtime.Shared.{Action, pure, fail, ◌>>=◌, ◌>>◌, read, shared_load}

-- What the report says of one gate
pub record GateStatus : Type 0 where
  pub lock_state : ℕ
  pub owner_pid : ℕ
  pub owner_alive : Bool

-- The words of MpmcQueueStatus that change
pub record Status : Type 0 where
  pub ready : Bool
  pub capacity : ℕ
  pub payload_size : ℕ
  pub generation : ℕ
  pub enqueue_position : ℕ
  pub dequeue_position : ℕ
  pub enqueue_gate : GateStatus
  pub dequeue_gate : GateStatus

-- The report on a stable owner
unfoldable pub stable_status : Handle → OwnerSnapshot → Disposition → Action Memory GateStatus
stable_status h o Disposition.changed = fail ErrorCode.queue_contention
stable_status h o disposition =
    if foreign_boot h o.owner
    then fail ErrorCode.recovery_blocked
    else pure (record {
      lock_state = o.state;
      owner_pid = o.owner.pid;
      owner_alive = elim disposition [ not_unrecoverable ↦ true | _ ↦ false ];
    })

unfoldable pub gate_status_for :
    SnapshotKind → Handle → Bool → OwnerSnapshot → Action Memory GateStatus
gate_status_for SnapshotKind.inactive h enqueue o =
    pure (record { lock_state = o.state; owner_pid = 0; owner_alive = false })
gate_status_for SnapshotKind.claiming h enqueue o = fail ErrorCode.queue_contention
gate_status_for SnapshotKind.unstable h enqueue o = fail ErrorCode.queue_contention
gate_status_for SnapshotKind.corrupt h enqueue o = fail ErrorCode.recovery_blocked
gate_status_for SnapshotKind.epoch_exhausted h enqueue o = fail ErrorCode.recovery_blocked
gate_status_for SnapshotKind.stable h enqueue o = do
  disposition ← confirm_owner_liveness h enqueue o
  stable_status h o disposition

unfoldable pub fill_status_owner : Handle → Bool → Action Memory GateStatus
fill_status_owner h enqueue = do
  observation ← snapshot_gate_owner enqueue
  gate_status_for observation.kind h enqueue observation

-- The loads of the lock words are overwritten by `fill_status_owner`.
unfoldable pub queue_status : Handle → Action Memory Status
queue_status h = do
  validate_live_handle h
  init ← shared_load (λ m. m.init_state)
  capacity ← read (λ m. m.capacity)
  payload_size ← read (λ m. m.payload_size)
  generation ← read (λ m. m.generation)
  enqueue ← shared_load (λ m. m.enqueue_position)
  dequeue ← shared_load (λ m. m.dequeue_position)
  enqueue_lock ← shared_load (gate_cell true).state
  dequeue_lock ← shared_load (gate_cell false).state
  enqueue_status ← fill_status_owner h true
  dequeue_status ← fill_status_owner h false
  pure (record {
    ready = init == init_ready;
    capacity = capacity;
    payload_size = payload_size;
    generation = generation;
    enqueue_position = enqueue;
    dequeue_position = dequeue;
    enqueue_gate = enqueue_status;
    dequeue_gate = dequeue_status;
  })
