-- ===== src/Mpmc/Status/Quiet.antt =====
-- What the status report says of a well-formed queue that nobody interferes with
-- (src/edge_runtime/queue/mpmc_queue.cpp).
use edge_runtime.Common.{eq→==, length, ◌-◌, ◌≡◌, refl, Bool, true, false, arith}
use edge_runtime.Mpmc.Gate.Quiet.{snapshot_gate_owner-open}
use edge_runtime.Mpmc.Invariant.{IsQueue, contents}
use edge_runtime.Mpmc.Push.Success.{validate_live_handle-ok}
use edge_runtime.Mpmc.Refine.{length-contents}
use edge_runtime.Mpmc.Refusals.{CanReport}
use edge_runtime.Mpmc.State.{lock_free, Memory, Handle, gate_of, gate_cell}
use edge_runtime.Mpmc.Status.{GateStatus, Status, gate_status_for, fill_status_owner, queue_status}
use edge_runtime.Owner.{epoch_invalid}
use edge_runtime.Shared.{ok, quiet, pure, read}
use edge_runtime.Shared.Laws.{bind_ok, then_ok, load-quiet}

-- A gate that nobody holds
abbrev pub free_status : GateStatus
free_status = record { lock_state = lock_free; owner_pid = 0; owner_alive = false }

fill_status_owner-quiet :
    (h : Handle) (enqueue : Bool) (m : Memory)
    → (gate_of enqueue m).lock ≡ lock_free
    → epoch_invalid (gate_of enqueue m).owner_epoch ≡ false
    → fill_status_owner h enqueue (quiet m) ≡ (ok free_status, quiet m)
unfolding fill_status_owner gate_status_for pure
fill_status_owner-quiet h enqueue m e f = bind_ok _ _ (snapshot_gate_owner-open enqueue m e f) refl

-- The report on a well-formed queue that nobody interferes with, and whose gates' counters are not
-- worn out, says that it is ready, what its shape and positions are, and that nobody holds a gate;
-- the difference of the reported positions is the number of its messages. It changes nothing.
pub queue_status-quiet :
    (h : Handle) (m : Memory)
    → IsQueue h m
    → CanReport m
    → (s : Status) × (queue_status h (quiet m) ≡ (ok s, quiet m))
      × (s.ready ≡ true)
      × (s.capacity ≡ m.capacity)
      × (s.payload_size ≡ m.payload_size)
      × (s.enqueue_position ≡ m.enqueue_position)
      × (s.dequeue_position ≡ m.dequeue_position)
      × (s.enqueue_gate ≡ free_status)
      × (s.dequeue_gate ≡ free_status)
      × (length (contents m) ≡ s.enqueue_position - s.dequeue_position)
unfolding queue_status read pure
queue_status-quiet h m v c = (
  _,
  then_ok _ _ (validate_live_handle-ok h m v.open_handle v.initialised) (
      bind_ok _ _ (load-quiet (λ m. m.init_state) m) (
        bind_ok _ _ refl (
          bind_ok _ _ refl (
            bind_ok _ _ refl (
              bind_ok _ _ (load-quiet (λ m. m.enqueue_position) m) (
                bind_ok _ _ (load-quiet (λ m. m.dequeue_position) m) (
                  bind_ok _ _ (load-quiet (gate_cell true).state m) (
                    bind_ok _ _ (load-quiet (gate_cell false).state m) (
                      bind_ok _ _
                        (fill_status_owner-quiet h true m v.enqueue_free
                          (ground (arith, v.enqueue_even, c.fill_valid)))
                        (bind_ok _ _
                          (fill_status_owner-quiet h false m v.dequeue_free
                            (ground (arith, v.dequeue_even, c.drain_valid)))
                          refl)))))))))),
  eq→== _ _ v.initialised,
  refl,
  refl,
  refl,
  refl,
  refl,
  refl,
  length-contents m,
)
