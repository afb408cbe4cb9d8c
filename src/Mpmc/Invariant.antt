-- ===== src/Mpmc/Invariant.antt =====
-- The invariant of a queue between operations, and the messages that it holds
-- (src/edge_runtime/queue/mpmc_queue.cpp).
use edge_runtime.Common.{ℕ, zero, suc, ◌+◌, ◌-◌, ◌*◌, ◌%◌, ◌≤◌, ◌<◌, ◌≡◌, false, List, [], ◌∷◌}
use edge_runtime.Mpmc.Layout.{first_slot_offset}
use edge_runtime.Mpmc.Layout.Regions.{stride_of, IsShape}
use edge_runtime.Mpmc.State.{init_ready, lock_free, slot_free, slot_ready, Slot, Memory, Handle}

-- The byte offset of a position's slot
abbrev pub offset_of : Memory → ℕ → ℕ
offset_of m p = first_slot_offset + p % m.capacity * stride_of m.payload_size

abbrev pub slot_of : Memory → ℕ → Slot
slot_of m p = m.slots (offset_of m p)

-- A published message
abbrev pub IsFilled : ℕ → Slot → Type 0
IsFilled p s = (s.sequence ≡ p + 1) × (s.state ≡ slot_ready) × (s.owner_epoch % 2 ≡ 0)

-- A slot that waits for the message of a position
abbrev pub IsFree : ℕ → Slot → Type 0
IsFree p s = (s.sequence ≡ p) × (s.state ≡ slot_free) × (s.owner_epoch % 2 ≡ 0)

-- Between operations: the positions differ by at most the capacity, the slots from the dequeue
-- position on hold published messages, and the others wait for the next lap. Nobody holds a gate.
pub record IsQueue (h : Handle) (m : Memory) : Type 0 where
  pub shape : IsShape m.capacity m.payload_size
  pub stride : h.slot_stride ≡ stride_of m.payload_size
  pub open_handle : h.removed ≡ false
  pub initialised : m.init_state ≡ init_ready
  pub order : m.dequeue_position ≤ m.enqueue_position
  pub bounded : m.enqueue_position ≤ m.dequeue_position + m.capacity
  pub filled : (p : ℕ) → m.dequeue_position ≤ p → p < m.enqueue_position → IsFilled p (slot_of m p)
  pub vacant :
      (p : ℕ)
      → m.enqueue_position ≤ p
      → p < m.dequeue_position + m.capacity
      → IsFree p (slot_of m p)
  pub enqueue_free : m.enqueue_gate.lock ≡ lock_free
  pub dequeue_free : m.dequeue_gate.lock ≡ lock_free
  pub enqueue_even : m.enqueue_gate.owner_epoch % 2 ≡ 0
  pub dequeue_even : m.dequeue_gate.owner_epoch % 2 ≡ 0

-- The payloads of the `n` positions from `p` on
unfoldable pub messages_from : Memory → ℕ → ℕ → List (List ℕ)
messages_from m p zero = []
messages_from m p (suc n) = (slot_of m p).payload ∷ messages_from m (p + 1) n

-- What the queue holds, oldest first
unfoldable pub contents : Memory → List (List ℕ)
contents m = messages_from m m.dequeue_position (m.enqueue_position - m.dequeue_position)
