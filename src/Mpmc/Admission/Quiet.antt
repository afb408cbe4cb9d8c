-- ===== src/Mpmc/Admission/Quiet.antt =====
-- Positions and the admission of a push when nobody interferes
-- (src/edge_runtime/queue/mpmc_queue.cpp).
use edge_runtime.Common.{u64_max, ℕ, ◌+◌, ◌-◌, ◌/◌, ◌≤◌, ◌<◌, ◌≡◌, refl, false, none, arith}
use edge_runtime.CheckedMath.Bounds.{checked_add-eq}
use edge_runtime.Mpmc.Admission.{
  Positions, validate_queue_positions, position_round, position_rounds, snapshot_queue_positions,
  validate_ticket_bounds, drain_kind, dequeue_drain_budget, admission_round, admission_rounds,
  validate_push_drain_admission,
}
use edge_runtime.Mpmc.Gate.{is_stable}
use edge_runtime.Mpmc.Gate.Quiet.{snapshot_gate_owner-open}
use edge_runtime.Mpmc.Layout.{checked_ticket_bounds}
use edge_runtime.Mpmc.State.{lock_free, Memory, Handle}
use edge_runtime.Owner.{max_committed_epoch, epoch_invalid}
use edge_runtime.Shared.{ok, World, quiet, pure, ◌>>=◌, ◌>>◌, require, read, shared_load}
use edge_runtime.Shared.Laws.{bind_ok}

-- The positions that the memory holds
abbrev pub positions_of : Memory → Positions
positions_of m = record { enqueue = m.enqueue_position; dequeue = m.dequeue_position }

pub snapshot_queue_positions-quiet :
    (m : Memory) → snapshot_queue_positions (quiet m) ≡ (ok (positions_of m), quiet m)
unfolding snapshot_queue_positions position_rounds position_round shared_load pure ◌>>=◌
snapshot_queue_positions-quiet m = ground arith

pub validate_queue_positions-ok :
    (p : Positions) (capacity : ℕ) (w : World Memory)
    → p.dequeue ≤ p.enqueue
    → p.enqueue ≤ p.dequeue + capacity
    → validate_queue_positions p capacity w ≡ (ok tt, w)
unfolding validate_queue_positions pure
validate_queue_positions-ok p capacity w l k = ground arith

pub validate_ticket_bounds-ok :
    (ticket capacity : ℕ) (w : World Memory)
    → 0 < capacity
    → ticket + capacity ≤ u64_max
    → validate_ticket_bounds ticket capacity w ≡ (ok (ticket + 1, ticket + capacity), w)
unfolding validate_ticket_bounds checked_ticket_bounds pure
validate_ticket_bounds-ok ticket capacity w l k =
    ground (arith, checked_add-eq ticket 1, checked_add-eq ticket capacity)

-- How often the consumers' gate can still be claimed
abbrev pub drain_budget_of : Memory → ℕ
drain_budget_of m = (max_committed_epoch - m.dequeue_gate.owner_epoch) / 2

pub dequeue_drain_budget-open :
    (h : Handle) (m : Memory)
    → m.dequeue_gate.lock ≡ lock_free
    → epoch_invalid m.dequeue_gate.owner_epoch ≡ false
    → dequeue_drain_budget h (quiet m) ≡ (ok (drain_budget_of m), quiet m)
unfolding dequeue_drain_budget drain_kind is_stable pure require ◌>>◌
dequeue_drain_budget-open h m e f = bind_ok _ _ (snapshot_gate_owner-open false m e f) (rw f refl)

-- A push is admitted if the consumers can still drain it with what is pending.
module _ (h : Handle) (m : Memory) (l : m.dequeue_position ≤ m.enqueue_position)
    (k : m.enqueue_position < m.dequeue_position + m.capacity) (u : m.enqueue_position < u64_max)
    (e : m.dequeue_gate.lock ≡ lock_free) (f : epoch_invalid m.dequeue_gate.owner_epoch ≡ false)
    (b : m.enqueue_position - m.dequeue_position < drain_budget_of m) where
  admission_round-ok : admission_round h m.capacity (positions_of m) (quiet m) ≡ (ok none, quiet m)
  unfolding admission_round ◌>>=◌ ◌>>◌ pure require
  admission_round-ok = ground (
    arith,
    validate_queue_positions-ok (positions_of m) m.capacity (quiet m) l,
    checked_add-eq (m.enqueue_position - m.dequeue_position) 1,
    dequeue_drain_budget-open h m e f,
    snapshot_queue_positions-quiet m,
  )

  pub validate_push_drain_admission-ok :
      validate_push_drain_admission h (positions_of m) (quiet m) ≡ (ok (positions_of m), quiet m)
  unfolding validate_push_drain_admission admission_rounds read pure
  validate_push_drain_admission-ok = bind_ok _ _ refl (bind_ok _ _ admission_round-ok refl)
