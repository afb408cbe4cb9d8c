-- ===== src/Mpmc/Pop/Success.antt =====
-- A pop that nobody interferes with succeeds where there is a message
-- (src/edge_runtime/queue/mpmc_queue.cpp).
use edge_runtime.Common.{
  ◌==◌, eq→==, ne→==_false, u64_max, ◌+◌, ◌%◌, ◌^◌, ◌≤◌, ◌<◌, ◌≡◌, refl, false, arith,
}
use edge_runtime.Mpmc.Admission.Quiet.{
  positions_of, snapshot_queue_positions-quiet, validate_queue_positions-ok,
  validate_ticket_bounds-ok, drain_budget_of, dequeue_drain_budget-open,
}
use edge_runtime.Mpmc.Gate.{release_gate, notify_waiters}
use edge_runtime.Mpmc.Gate.Quiet.{
  claimed_gate, owned_gate, released_gate, claim_gate-open, commit_claimed_gate-open,
}
use edge_runtime.Mpmc.Invariant.{offset_of, slot_of, IsQueue}
use edge_runtime.Mpmc.Pop.{pop_at, pop_owned, pop_gated, try_pop}
use edge_runtime.Mpmc.Pop.Take.{reclaimed_slot, IsPublished, pop_slot-quiet}
use edge_runtime.Mpmc.Push.Success.{validate_live_handle-ok, slot_at-quiet}
use edge_runtime.Mpmc.State.{Memory, Handle, set_gate, update_slot, set_slot}
use edge_runtime.Owner.{max_committed_epoch, epoch_invalid}
use edge_runtime.Shared.{ok, quiet, pure, ◌>>◌, require, read, shared_store}
use edge_runtime.Shared.Laws.{bind_ok, then_ok, or_else_ok, if_no}

-- There is a message, and no counter is near its end.
pub record CanPop (m : Memory) : Type 0 where
  pub message : m.dequeue_position < m.enqueue_position
  pub gate_room : m.dequeue_gate.owner_epoch + 2 ≤ max_committed_epoch
  pub slot_room : (slot_of m m.dequeue_position).owner_epoch + 2 ≤ max_committed_epoch
  pub ticket_room : m.dequeue_position + m.capacity ≤ u64_max

-- The memory after the pop
abbrev pub popped : Handle → Memory → Memory
popped h m = record m {
  dequeue_position = m.dequeue_position + 1;
  dequeue_gate = released_gate h.self m.dequeue_gate;
  slots =
      update_slot (offset_of m m.dequeue_position)
        (reclaimed_slot h m.dequeue_position (m.dequeue_position + m.capacity)
          ((slot_of m m.dequeue_position).owner_epoch + 2) (slot_of m m.dequeue_position))
        m.slots;
  notify_epoch = (m.notify_epoch + 1) % 2 ^ 32;
}

module _ (h : Handle) (m : Memory) (v : IsQueue h m) (c : CanPop m) where
  -- The memory while the consumers' gate is claimed, and while it is held
  abbrev claimed : Memory
  claimed = set_gate false (claimed_gate m.dequeue_gate) m

  abbrev gated : Memory
  gated = set_gate false (owned_gate h.self m.dequeue_gate) m

  dequeue_epoch_valid : epoch_invalid m.dequeue_gate.owner_epoch ≡ false
  dequeue_epoch_valid = ground (arith, v.dequeue_even, c.gate_room)

  not_empty : (m.dequeue_position == m.enqueue_position) ≡ false
  not_empty = ground (arith, c.message)

  budget_left : (drain_budget_of m == 0) ≡ false
  budget_left = ne→==_false (drain_budget_of m) 0 (λ none_left. omega (arith, c.gate_room))

  published : IsPublished m.dequeue_position (slot_of m m.dequeue_position)
  published =
      let p = v.filled m.dequeue_position (omega arith) c.message in
      record { sequence = p.0; filled = p.1; even = p.2; room = c.slot_room }

  pop_gated-ok : pop_gated h (quiet claimed) ≡ (
    ok (slot_of m m.dequeue_position).payload,
    quiet
        (record (set_slot
          (offset_of m m.dequeue_position)
          (reclaimed_slot h m.dequeue_position
            (m.dequeue_position + m.capacity)
            ((slot_of m m.dequeue_position).owner_epoch + 2)
            (slot_of m m.dequeue_position))
          gated) { dequeue_position = m.dequeue_position + 1 }),
  )
  unfolding pop_gated pop_owned read pop_at
  pop_gated-ok = bind_ok _ _ refl (
      bind_ok _ _ (or_else_ok _ _ (snapshot_queue_positions-quiet claimed)) (
        then_ok _ _
          (or_else_ok _ _ (
            validate_queue_positions-ok (positions_of m) m.capacity (quiet claimed) v.order
              v.bounded))
          (bind_ok _ _
            (or_else_ok _ _ (
              validate_ticket_bounds-ok m.dequeue_position m.capacity (quiet claimed)
                v.shape.some_slots c.ticket_room))
            (if_no _ _ not_empty (
              then_ok _ _
                (commit_claimed_gate-open h false m.dequeue_gate m
                  (record { free = v.dequeue_free; even = v.dequeue_even; room = c.gate_room }))
                (or_else_ok _ _ (
                  bind_ok _ _ (slot_at-quiet h gated m.dequeue_position v.shape v.stride) (
                    pop_slot-quiet h (offset_of m m.dequeue_position) m.dequeue_position
                      (m.dequeue_position + m.capacity) gated published))))))))

  -- A pop with a message in the queue and room in every counter returns the payload of the dequeue
  -- position, gives its slot back to the producers of the next lap, advances the position, leaves
  -- the gate free with the popper as its last owner and an epoch two further, counts the notification
  -- epoch on modulo 2^32, and changes nothing else.
  pub try_pop-ok :
      try_pop h m.payload_size (quiet m)
      ≡ (ok (slot_of m m.dequeue_position).payload, quiet (popped h m))
  unfolding try_pop read require set_slot
  try_pop-ok = then_ok _ _ (validate_live_handle-ok h m v.open_handle v.initialised) (
      bind_ok _ _ refl (
        then_ok _ _ (rw (eq→== m.payload_size m.payload_size refl) refl) (
          bind_ok _ _ refl (
            bind_ok _ _ (snapshot_queue_positions-quiet m) (
              then_ok _ _
                (validate_queue_positions-ok (positions_of m) m.capacity (quiet m) v.order
                  v.bounded)
                (bind_ok _ _
                  (validate_ticket_bounds-ok m.dequeue_position m.capacity (quiet m)
                    v.shape.some_slots c.ticket_room)
                  (if_no _ _ not_empty (
                    bind_ok _ _ (dequeue_drain_budget-open h m v.dequeue_free dequeue_epoch_valid) (
                      then_ok _ _ (rw budget_left refl) (
                        then_ok _ _ (claim_gate-open h false m v.dequeue_free) (
                          bind_ok _ _ pop_gated-ok (
                            unfold release_gate notify_waiters shared_store ◌>>◌ pure in
                            refl))))))))))))
