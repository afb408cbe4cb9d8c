-- ===== src/Mpmc/Fifo.antt =====
-- Pushes and pops keep the queue's invariant, and act on the messages as on a list
-- (src/edge_runtime/queue/mpmc_queue.cpp).
use native.Mathlib.Decide.{ℕ_discrete}
use mathlib.Core.Path.{ap₂}
use edge_runtime.Common.{
  ℕ, zero, suc, ◌+◌, ◌-◌, ◌≤◌, ◌<◌, ◌≡◌, refl, sym, ap, ◌∙◌, ◌≢◌, List, [], ◌∷◌, ◌++◌, arith,
}
use edge_runtime.Mpmc.Invariant.{
  offset_of, slot_of, IsFilled, IsFree, IsQueue, messages_from, contents,
}
use edge_runtime.Mpmc.Laps.{offset_of-ne, offset_of-lap, offset_of-distinct}
use edge_runtime.Mpmc.Pop.Success.{CanPop, popped}
use edge_runtime.Mpmc.Pop.Take.{reclaimed_slot}
use edge_runtime.Mpmc.Push.Publish.{published_slot}
use edge_runtime.Mpmc.Push.Success.{CanPush, pushed}
use edge_runtime.Mpmc.State.{Slot, Memory, Handle}
use edge_runtime.Mpmc.State.Slots.{update_slot-ne, update_slot_self}

-- Two memories hold the same messages at the positions from `p` on.
messages_from-eq :
    (m m' : Memory) (n p : ℕ)
    → ((q : ℕ) → p ≤ q → q < p + n → (slot_of m' q).payload ≡ (slot_of m q).payload)
    → messages_from m' p n ≡ messages_from m p n
unfolding messages_from
messages_from-eq m m' zero p same = refl
messages_from-eq m m' (suc n) p same = rw (
  same p (omega arith) (omega arith),
  messages_from-eq m m' n (p + 1) (λ q l k. same q (omega arith) (omega arith)),
)

messages_from-snoc :
    (m : Memory) (n p last : ℕ)
    → p + n ≡ last
    → messages_from m p (suc n) ≡ messages_from m p n ++ (slot_of m last).payload ∷ []
unfolding messages_from
messages_from-snoc m zero p last e =
    ap (λ (q : ℕ). (slot_of m q).payload ∷ []) (let f : p ≡ last = omega arith in f)
messages_from-snoc m (suc n) p last e =
    ap (λ (r : List (List ℕ)). (slot_of m p).payload ∷ r)
      (messages_from-snoc m n (p + 1) last (omega arith))

module _ (h k : Handle) (payload : List ℕ) (m : Memory) (v : IsQueue k m) (c : CanPush m) where
  slot-pushed_other :
      (q : ℕ)
      → m.dequeue_position ≤ q
      → q < m.dequeue_position + m.capacity
      → q ≢ m.enqueue_position
      → slot_of (pushed h payload m) q ≡ slot_of m q
  slot-pushed_other q l u n =
      update_slot-ne (offset_of m m.enqueue_position) (offset_of m q) _ m.slots (
        offset_of-distinct m v.shape q m.enqueue_position n (omega (arith, v.order))
          (omega (arith, c.gap)))

  slot-pushed_self :
      slot_of (pushed h payload m) m.enqueue_position
      ≡ published_slot h m.enqueue_position
          (m.enqueue_position + 1)
          ((slot_of m m.enqueue_position).owner_epoch + 2)
          payload
  slot-pushed_self = update_slot_self (offset_of m m.enqueue_position) _ m.slots

  pushed-IsFilled :
      (q : ℕ)
      → m.dequeue_position ≤ q
      → q < m.enqueue_position + 1
      → IsFilled q (slot_of (pushed h payload m) q)
  pushed-IsFilled q l u = elim (ℕ_discrete q m.enqueue_position) [
    | yes e ↦ rw e (
        rw slot-pushed_self
          (refl, refl, omega (arith, (v.vacant m.enqueue_position (omega arith) c.gap).2)))
    | no n ↦ rw (slot-pushed_other q l (omega (arith, c.gap)) n) (v.filled q l (omega arith))
  ]

  pushed-IsFree :
      (q : ℕ)
      → m.enqueue_position + 1 ≤ q
      → q < m.dequeue_position + m.capacity
      → IsFree q (slot_of (pushed h payload m) q)
  pushed-IsFree q l u =
      rw (slot-pushed_other q (omega (arith, v.order)) u (λ e. omega arith))
        (v.vacant q (omega arith) u)

  -- A push by any process keeps the invariant, as every process sees it.
  pub pushed-IsQueue : IsQueue k (pushed h payload m)
  pushed-IsQueue = record {
    shape = v.shape;
    stride = v.stride;
    open_handle = v.open_handle;
    initialised = v.initialised;
    order = omega (arith, v.order);
    bounded = omega (arith, c.gap);
    filled = pushed-IsFilled;
    vacant = pushed-IsFree;
    enqueue_free = refl;
    dequeue_free = v.dequeue_free;
    enqueue_even = omega (arith, v.enqueue_even);
    dequeue_even = v.dequeue_even;
  }

  -- A push appends its payload.
  pub contents-pushed : contents (pushed h payload m) ≡ contents m ++ payload ∷ []
  unfolding contents
  contents-pushed =
      ap (messages_from (pushed h payload m) m.dequeue_position) (
        let one_more : m.enqueue_position + 1 - m.dequeue_position
            ≡ suc (m.enqueue_position - m.dequeue_position) =
          omega (arith, v.order) in
        one_more)
      ∙ messages_from-snoc (pushed h payload m) (m.enqueue_position - m.dequeue_position)
          m.dequeue_position m.enqueue_position (omega (arith, v.order))
      ∙ ap₂ (λ (r : List (List ℕ)) (s : Slot). r ++ s.payload ∷ [])
          (messages_from-eq m (pushed h payload m) (m.enqueue_position - m.dequeue_position)
            m.dequeue_position
            (λ q l u.
              ap (λ (s : Slot). s.payload)
                (slot-pushed_other q l (omega (arith, c.gap)) (λ e. omega arith))))
          slot-pushed_self

module _ (h k : Handle) (m : Memory) (v : IsQueue k m) (c : CanPop m) where
  slot-popped_other :
      (q : ℕ)
      → m.dequeue_position < q
      → q < m.dequeue_position + m.capacity
      → slot_of (popped h m) q ≡ slot_of m q
  slot-popped_other q l u =
      update_slot-ne (offset_of m m.dequeue_position) (offset_of m q) _ m.slots
        (λ e. offset_of-ne m v.shape m.dequeue_position q l u (sym e))

  slot-popped_lap :
      slot_of (popped h m) (m.dequeue_position + m.capacity)
      ≡ reclaimed_slot h m.dequeue_position
          (m.dequeue_position + m.capacity)
          ((slot_of m m.dequeue_position).owner_epoch + 2)
          (slot_of m m.dequeue_position)
  slot-popped_lap =
      rw (offset_of-lap m v.shape m.dequeue_position)
        (update_slot_self (offset_of m m.dequeue_position) _ m.slots)

  popped-IsFree :
      (q : ℕ)
      → m.enqueue_position ≤ q
      → q < m.dequeue_position + 1 + m.capacity
      → IsFree q (slot_of (popped h m) q)
  popped-IsFree q l u = elim (ℕ_discrete q (m.dequeue_position + m.capacity)) [
    | yes e ↦ rw e (
        rw slot-popped_lap
          (refl, refl, omega (arith, (v.filled m.dequeue_position (omega arith) c.message).2)))
    | no n ↦
        rw (slot-popped_other q (omega (arith, c.message)) (omega arith))
          (v.vacant q l (omega arith))
  ]

  -- A pop by any process keeps the invariant, as every process sees it.
  pub popped-IsQueue : IsQueue k (popped h m)
  popped-IsQueue = record {
    shape = v.shape;
    stride = v.stride;
    open_handle = v.open_handle;
    initialised = v.initialised;
    order = omega (arith, c.message);
    bounded = omega (arith, v.bounded);
    filled = λ q l u.
        rw (slot-popped_other q (omega arith) (omega (arith, v.bounded)))
          (v.filled q (omega arith) u);
    vacant = popped-IsFree;
    enqueue_free = v.enqueue_free;
    dequeue_free = refl;
    enqueue_even = v.enqueue_even;
    dequeue_even = omega (arith, v.dequeue_even);
  }

  -- A pop removes the oldest message.
  pub contents-popped : contents m ≡ (slot_of m m.dequeue_position).payload ∷ contents (popped h m)
  unfolding contents messages_from
  contents-popped =
      ap (messages_from m m.dequeue_position) (
        let one_less : m.enqueue_position - m.dequeue_position
            ≡ suc (m.enqueue_position - (m.dequeue_position + 1)) =
          omega (arith, c.message) in
        one_less)
      ∙ ap (λ (r : List (List ℕ)). (slot_of m m.dequeue_position).payload ∷ r)
          (sym (
            messages_from-eq m (popped h m) (m.enqueue_position - (m.dequeue_position + 1))
              (m.dequeue_position + 1)
              (λ q l u.
                ap (λ (s : Slot). s.payload)
                  (slot-popped_other q (omega arith) (omega (arith, v.bounded, c.message))))))
