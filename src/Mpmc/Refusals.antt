-- ===== src/Mpmc/Refusals.antt =====
-- A push to a full queue and a pop from an empty one, when nobody interferes
-- (src/edge_runtime/queue/mpmc_queue.cpp).
use edge_runtime.Common.{
  ◌==◌, eq→==, length, u64_max, ℕ, zero, suc, ◌+◌, ◌-◌, ◌≤◌, ◌≡◌, refl, ap, ◌≢◌, Bool, true, false,
  not, List, arith,
}
use edge_runtime.Error.{ErrorCode}
use edge_runtime.Mpmc.Admission.Quiet.{
  positions_of, snapshot_queue_positions-quiet, validate_queue_positions-ok,
  validate_ticket_bounds-ok, drain_budget_of, dequeue_drain_budget-open,
}
use edge_runtime.Mpmc.Gate.{disposition_for, owner_observation_is_unrecoverable}
use edge_runtime.Mpmc.Gate.Quiet.{snapshot_gate_owner-open}
use edge_runtime.Mpmc.Invariant.{IsQueue}
use edge_runtime.Mpmc.Pop.{report_empty, report_empty_ungated, try_pop}
use edge_runtime.Mpmc.Push.{
  gate_state_code, check_other_gate, full_code, report_full, report_full_ungated, try_push,
}
use edge_runtime.Mpmc.Push.Success.{validate_live_handle-ok}
use edge_runtime.Mpmc.State.{lock_free, Memory, Handle, gate_of, gate_cell}
use edge_runtime.Owner.{max_committed_epoch, epoch_invalid}
use edge_runtime.Shared.{Result, ok, err, World, quiet, pure, fail, attempt, require, read}
use edge_runtime.Shared.Laws.{bind_ok, then_ok, if_yes, if_no, load-quiet}

pub check_other_gate-open :
    (h : Handle) (enqueue : Bool) (m : Memory)
    → (gate_of enqueue m).lock ≡ lock_free
    → epoch_invalid (gate_of enqueue m).owner_epoch ≡ false
    → check_other_gate h enqueue (pure tt) (quiet m) ≡ (ok tt, quiet m)
unfolding check_other_gate owner_observation_is_unrecoverable disposition_for gate_state_code pure
check_other_gate-open h enqueue m e f =
    bind_ok _ _ (snapshot_gate_owner-open enqueue m e f) (bind_ok _ _ refl (then_ok _ _ refl refl))

full_code-some : (n : ℕ) → n ≢ 0 → full_code (ok n) ≡ ErrorCode.queue_full
unfolding full_code
full_code-some zero h = absurd (h refl)
full_code-some (suc n) h = refl

report_full-open :
    {A : Type 0} (h : Handle) (m : Memory)
    → m.dequeue_gate.lock ≡ lock_free
    → epoch_invalid m.dequeue_gate.owner_epoch ≡ false
    → drain_budget_of m ≢ 0
    → report_full {A = A} h (pure tt) (quiet m) ≡ (err ErrorCode.queue_full, quiet m)
unfolding report_full attempt fail
report_full-open h m e f b = then_ok _ _ (check_other_gate-open h false m e f) (
    bind_ok _ _
      (ap (λ (t : Result ℕ × World Memory). (ok t.0, t.1)) (dequeue_drain_budget-open h m e f))
      (rw (full_code-some (drain_budget_of m) b)))

-- No consumer's counter is at its end.
pub record CanReport (m : Memory) : Type 0 where
  pub drain_valid : m.dequeue_gate.owner_epoch + 2 ≤ max_committed_epoch
  pub fill_valid : m.enqueue_gate.owner_epoch ≤ max_committed_epoch
  pub push_tickets : m.enqueue_position + m.capacity ≤ u64_max
  pub pop_tickets : m.dequeue_position + m.capacity ≤ u64_max

module _ (h : Handle) (m : Memory) (v : IsQueue h m) (c : CanReport m) where
  dequeue_epoch_valid : epoch_invalid m.dequeue_gate.owner_epoch ≡ false
  dequeue_epoch_valid = ground (arith, v.dequeue_even, c.drain_valid)

  enqueue_epoch_valid : epoch_invalid m.enqueue_gate.owner_epoch ≡ false
  enqueue_epoch_valid = ground (arith, v.enqueue_even, c.fill_valid)

  enqueue_unlocked : not (m.enqueue_gate.lock == lock_free) ≡ false
  enqueue_unlocked = rw v.enqueue_free refl

  dequeue_unlocked : not (m.dequeue_gate.lock == lock_free) ≡ false
  dequeue_unlocked = rw v.dequeue_free refl

  -- A push to a full queue that nobody uses is refused as full, and changes nothing.
  pub try_push-full :
      (payload : List ℕ)
      → length payload ≡ m.payload_size
      → m.enqueue_position ≡ m.dequeue_position + m.capacity
      → try_push h payload (quiet m) ≡ (err ErrorCode.queue_full, quiet m)
  unfolding try_push read require report_full_ungated
  try_push-full payload e full =
      then_ok _ _ (validate_live_handle-ok h m v.open_handle v.initialised) (
        bind_ok _ _ refl (
          then_ok _ _ (rw (eq→== _ _ e) refl) (
            bind_ok _ _ refl (
              bind_ok _ _ (snapshot_queue_positions-quiet m) (
                then_ok _ _
                  (validate_queue_positions-ok (positions_of m) m.capacity (quiet m) v.order
                    v.bounded)
                  (bind_ok _ _
                    (validate_ticket_bounds-ok m.enqueue_position m.capacity (quiet m)
                      v.shape.some_slots c.push_tickets)
                    (if_yes _ _
                      (eq→== (m.enqueue_position - m.dequeue_position) m.capacity (omega arith))
                      (bind_ok _ _ (load-quiet (gate_cell true).state m) (
                        if_no _ _ enqueue_unlocked (
                          report_full-open h m v.dequeue_free dequeue_epoch_valid
                            (λ none_left. omega (arith, c.drain_valid))))))))))))

  -- A pop from an empty queue that nobody uses is refused as empty, and changes nothing.
  pub try_pop-empty :
      m.enqueue_position ≡ m.dequeue_position
      → try_pop h m.payload_size (quiet m) ≡ (err ErrorCode.queue_empty, quiet m)
  unfolding try_pop read require report_empty_ungated report_empty fail
  try_pop-empty empty = then_ok _ _ (validate_live_handle-ok h m v.open_handle v.initialised) (
      bind_ok _ _ refl (
        then_ok _ _ (rw (eq→== m.payload_size m.payload_size refl) refl) (
          bind_ok _ _ refl (
            bind_ok _ _ (snapshot_queue_positions-quiet m) (
              then_ok _ _
                (validate_queue_positions-ok (positions_of m) m.capacity (quiet m) v.order
                  v.bounded)
                (bind_ok _ _
                  (validate_ticket_bounds-ok m.dequeue_position m.capacity (quiet m)
                    v.shape.some_slots c.pop_tickets)
                  (if_yes _ _ (eq→== m.dequeue_position m.enqueue_position (omega arith)) (
                    bind_ok _ _ (load-quiet (gate_cell false).state m) (
                      if_no _ _ dequeue_unlocked (
                        then_ok _ _
                          (check_other_gate-open h true m v.enqueue_free enqueue_epoch_valid)
                          refl))))))))))
