-- ===== src/Mpmc/Admission.antt =====
-- Positions of a queue and what a push has to leave for the consumers
-- (src/edge_runtime/queue/mpmc_queue.cpp).
pub mod Quiet
use edge_runtime.Common.{
  ltb, leb, ◌==◌, if◌then◌else◌, ℕ, zero, suc, ◌-◌, ◌/◌, false, not, ◌&&◌, Option, none, some,
}
use edge_runtime.CheckedMath.{checked_add}
use edge_runtime.Error.{ErrorCode}
use edge_runtime.Mpmc.Gate.{
  Disposition, is_stable, snapshot_gate_owner, owner_observation_is_unrecoverable,
}
use edge_runtime.Mpmc.Layout.{checked_ticket_bounds}
use edge_runtime.Mpmc.State.{Memory, Handle}
use edge_runtime.Owner.{SnapshotKind, snapshot_retries, max_committed_epoch, epoch_invalid}
use edge_runtime.Shared.{Action, pure, fail, ◌>>=◌, ◌>>◌, require, read, shared_load}

pub record Positions : Type 0 where
  pub enqueue : ℕ
  pub dequeue : ℕ

-- `validate_queue_positions`
unfoldable pub validate_queue_positions : Positions → ℕ → Action Memory (Unit {0})
validate_queue_positions p capacity =
    if ltb p.enqueue p.dequeue
    then fail ErrorCode.recovery_blocked
    else if ltb capacity (p.enqueue - p.dequeue)
    then fail ErrorCode.recovery_blocked
    else pure tt

-- One round of `snapshot_queue_positions`; `none` is a changed position.
unfoldable pub position_round : Action Memory (Option Positions)
position_round = do
  first_enqueue ← shared_load (λ m. m.enqueue_position)
  first_dequeue ← shared_load (λ m. m.dequeue_position)
  second_enqueue ← shared_load (λ m. m.enqueue_position)
  second_dequeue ← shared_load (λ m. m.dequeue_position)
  pure (
      if first_enqueue == second_enqueue && first_dequeue == second_dequeue
      then some (record { enqueue = second_enqueue; dequeue = second_dequeue })
      else none)

unfoldable pub position_rounds : ℕ → Action Memory Positions
position_rounds zero = fail ErrorCode.queue_contention
position_rounds (suc n) =
    let rest = position_rounds n in do r ← position_round; elim r [ some p ↦ pure p | none ↦ rest ]

unfoldable pub snapshot_queue_positions : Action Memory Positions
snapshot_queue_positions = position_rounds snapshot_retries

-- `validate_ticket_bounds`: the next ticket and the reclaim sequence
unfoldable pub validate_ticket_bounds : ℕ → ℕ → Action Memory (ℕ × ℕ)
validate_ticket_bounds ticket capacity = elim (checked_ticket_bounds ticket capacity) [
  | some bounds ↦ pure bounds
  | none ↦ fail ErrorCode.sequence_exhausted
]

-- The checks of `dequeue_drain_budget` before it looks at a stable owner
unfoldable pub drain_kind : SnapshotKind → Action Memory (Unit {0})
drain_kind SnapshotKind.inactive = pure tt
drain_kind SnapshotKind.stable = pure tt
drain_kind SnapshotKind.claiming = fail ErrorCode.queue_contention
drain_kind SnapshotKind.unstable = fail ErrorCode.queue_contention
drain_kind SnapshotKind.epoch_exhausted = fail ErrorCode.sequence_exhausted
drain_kind SnapshotKind.corrupt = fail ErrorCode.recovery_blocked

unfoldable pub drain_stable_code : Disposition → ErrorCode
drain_stable_code Disposition.changed = ErrorCode.queue_contention
drain_stable_code Disposition.unrecoverable = ErrorCode.recovery_blocked
drain_stable_code Disposition.not_unrecoverable = ErrorCode.queue_contention

-- How often the consumers' gate can still be claimed
unfoldable pub dequeue_drain_budget : Handle → Action Memory ℕ
dequeue_drain_budget h = do
  observation ← snapshot_gate_owner false
  drain_kind observation.kind
  require (not (epoch_invalid observation.epoch)) ErrorCode.recovery_blocked
  if not (is_stable observation.kind)
      then pure ((max_committed_epoch - observation.epoch) / 2)
      else do
        disposition ← owner_observation_is_unrecoverable h false observation
        fail (drain_stable_code disposition)

-- One round of `validate_push_drain_admission`: `none` is admitted, `some` asks for another round
-- at new positions.
unfoldable pub admission_round : Handle → ℕ → Positions → Action Memory (Option Positions)
admission_round h capacity p = do
  validate_queue_positions p capacity
  elim (checked_add (p.enqueue - p.dequeue) 1) [
    | none ↦ fail ErrorCode.sequence_exhausted
    | some pending_after ↦ do
      budget ← dequeue_drain_budget h
      if p.enqueue - p.dequeue == capacity
          then fail (if budget == 0 then ErrorCode.sequence_exhausted else ErrorCode.queue_full)
          else do
            refreshed ← snapshot_queue_positions
            if not (refreshed.enqueue == p.enqueue && refreshed.dequeue == p.dequeue)
                then pure (some refreshed)
                else do require (leb pending_after budget) ErrorCode.sequence_exhausted; pure none
  ]

-- The positions at which the push is admitted
unfoldable pub admission_rounds : Handle → ℕ → ℕ → Positions → Action Memory Positions
admission_rounds h capacity zero p = fail ErrorCode.queue_contention
admission_rounds h capacity (suc n) p =
    let again = admission_rounds h capacity n in
    do r ← admission_round h capacity p; elim r [ none ↦ pure p | some refreshed ↦ again refreshed ]

unfoldable pub validate_push_drain_admission : Handle → Positions → Action Memory Positions
validate_push_drain_admission h p = do
  capacity ← read (λ m. m.capacity)
  admission_rounds h capacity snapshot_retries p
