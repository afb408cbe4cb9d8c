-- ===== src/Mpmc/Push/Success.antt =====
-- A push that nobody interferes with succeeds where there is room
-- (src/edge_runtime/queue/mpmc_queue.cpp).
use native.Mathlib.Nat.{mod-lt}
use edge_runtime.Common.{
  ◌==◌, eq→==, length, u64_max, ℕ, ◌+◌, ◌-◌, ◌%◌, ◌^◌, ◌≤◌, ◌<◌, ◌≡◌, refl, true, false, some, List,
  arith,
}
use edge_runtime.Mpmc.Admission.Quiet.{
  positions_of, snapshot_queue_positions-quiet, validate_queue_positions-ok,
  validate_ticket_bounds-ok, drain_budget_of, validate_push_drain_admission-ok,
}
use edge_runtime.Mpmc.Gate.{release_gate, notify_waiters}
use edge_runtime.Mpmc.Gate.Quiet.{owned_gate, released_gate, acquire_gate-open}
use edge_runtime.Mpmc.Invariant.{offset_of, slot_of, IsQueue}
use edge_runtime.Mpmc.Layout.Regions.{stride_of, IsShape, slot_offset-eq}
use edge_runtime.Mpmc.Push.{validate_live_handle, slot_at, push_at, push_gated, try_push}
use edge_runtime.Mpmc.Push.Publish.{published_slot, IsVacant, push_slot-quiet}
use edge_runtime.Mpmc.State.{init_ready, Memory, Handle, set_gate, update_slot, set_slot}
use edge_runtime.Owner.{max_committed_epoch, epoch_invalid}
use edge_runtime.Shared.{ok, quiet, pure, ◌>>=◌, ◌>>◌, require, read, shared_load, shared_store}
use edge_runtime.Shared.Laws.{bind_ok, then_ok, or_else_ok, if_no}

-- There is room for a message, and no counter is near its end.
pub record CanPush (m : Memory) : Type 0 where
  pub gap : m.enqueue_position < m.dequeue_position + m.capacity
  pub gate_room : m.enqueue_gate.owner_epoch + 2 ≤ max_committed_epoch
  pub drain_valid : m.dequeue_gate.owner_epoch ≤ max_committed_epoch
  pub drain : m.enqueue_position - m.dequeue_position < drain_budget_of m
  pub slot_room : (slot_of m m.enqueue_position).owner_epoch + 4 ≤ max_committed_epoch
  pub ticket_room : m.enqueue_position + m.capacity ≤ u64_max

pub validate_live_handle-ok :
    (h : Handle) (m : Memory)
    → h.removed ≡ false
    → m.init_state ≡ init_ready
    → validate_live_handle h (quiet m) ≡ (ok tt, quiet m)
unfolding validate_live_handle shared_load require ◌>>=◌
validate_live_handle-ok h m e f = ground arith

pub slot_at-quiet :
    (h : Handle) (m : Memory) (position : ℕ)
    → IsShape m.capacity m.payload_size
    → h.slot_stride ≡ stride_of m.payload_size
    → slot_at h position (quiet m) ≡ (ok (some (offset_of m position)), quiet m)
unfolding slot_at read pure ◌>>=◌
slot_at-quiet h m position s e = rw (
  e,
  slot_offset-eq (position % m.capacity) m.capacity m.payload_size s (mod-lt position s.some_slots),
)

-- The memory after the push
abbrev pub pushed : Handle → List ℕ → Memory → Memory
pushed h payload m = record m {
  enqueue_position = m.enqueue_position + 1;
  enqueue_gate = released_gate h.self m.enqueue_gate;
  slots =
      update_slot (offset_of m m.enqueue_position)
        (published_slot h m.enqueue_position (m.enqueue_position + 1)
          ((slot_of m m.enqueue_position).owner_epoch + 2) payload)
        m.slots;
  notify_epoch = (m.notify_epoch + 1) % 2 ^ 32;
}

module _ (h : Handle) (payload : List ℕ) (m : Memory) (v : IsQueue h m) (c : CanPush m) where
  -- The memory while the producers' gate is held
  abbrev gated : Memory
  gated = set_gate true (owned_gate h.self m.enqueue_gate) m

  dequeue_epoch_valid : epoch_invalid m.dequeue_gate.owner_epoch ≡ false
  dequeue_epoch_valid = ground (arith, v.dequeue_even, c.drain_valid)

  not_full : (m.enqueue_position - m.dequeue_position == m.capacity) ≡ false
  not_full = ground (arith, c.gap, v.order)

  IsVacant-slot : IsVacant m.enqueue_position (slot_of m m.enqueue_position)
  IsVacant-slot =
      let p = v.vacant m.enqueue_position (omega arith) c.gap in
      record { sequence = p.0; free = p.1; even = p.2; room = c.slot_room }

  push_gated-ok : push_gated h payload (quiet gated) ≡ (
    ok tt,
    quiet
        (record (set_slot
          (offset_of m m.enqueue_position)
          (published_slot h m.enqueue_position
            (m.enqueue_position + 1)
            ((slot_of m m.enqueue_position).owner_epoch + 2)
            payload)
          gated) { enqueue_position = m.enqueue_position + 1 }),
  )
  unfolding push_gated read push_at
  push_gated-ok = bind_ok _ _ refl (
      bind_ok _ _ (or_else_ok _ _ (snapshot_queue_positions-quiet gated)) (
        then_ok _ _
          (or_else_ok _ _ (
            validate_queue_positions-ok (positions_of m) m.capacity (quiet gated) v.order
              v.bounded))
          (bind_ok _ _
            (or_else_ok _ _ (
              validate_ticket_bounds-ok m.enqueue_position m.capacity (quiet gated)
                v.shape.some_slots c.ticket_room))
            (if_no _ _ not_full (
              or_else_ok _ _ (
                bind_ok _ _
                  (validate_push_drain_admission-ok h gated v.order c.gap
                    (omega (arith, c.ticket_room, v.shape.some_slots)) v.dequeue_free
                    dequeue_epoch_valid c.drain)
                  (bind_ok _ _ (slot_at-quiet h gated m.enqueue_position v.shape v.stride) (
                    push_slot-quiet h (offset_of m m.enqueue_position) m.enqueue_position
                      (m.enqueue_position + 1) payload gated IsVacant-slot))))))))

  -- A push with room in the queue and in every counter succeeds, publishes the payload in the slot
  -- of the enqueue position under its owner's name, advances the position, leaves the gate free
  -- with the pusher as its last owner and an epoch two further, counts the notification epoch on
  -- modulo 2^32, and changes nothing else.
  pub try_push-ok :
      length payload ≡ m.payload_size
      → try_push h payload (quiet m) ≡ (ok tt, quiet (pushed h payload m))
  unfolding try_push read require set_slot
  try_push-ok e = then_ok _ _ (validate_live_handle-ok h m v.open_handle v.initialised) (
      bind_ok _ _ refl (
        then_ok _ _ (rw (eq→== _ _ e) refl) (
          bind_ok _ _ refl (
            bind_ok _ _ (snapshot_queue_positions-quiet m) (
              then_ok _ _
                (validate_queue_positions-ok (positions_of m) m.capacity (quiet m) v.order
                  v.bounded)
                (bind_ok _ _
                  (validate_ticket_bounds-ok m.enqueue_position m.capacity (quiet m)
                    v.shape.some_slots c.ticket_room)
                  (if_no _ _ not_full (
                    bind_ok _ _
                      (validate_push_drain_admission-ok h m v.order c.gap
                        (omega (arith, c.ticket_room, v.shape.some_slots)) v.dequeue_free
                        dequeue_epoch_valid c.drain)
                      (then_ok _ _
                        (acquire_gate-open h true m (record {
                          free = v.enqueue_free;
                          even = v.enqueue_even;
                          room = c.gate_room;
                        }))
                        (then_ok _ _ push_gated-ok
                          (unfold release_gate notify_waiters shared_store ◌>>◌ in refl)))))))))))
