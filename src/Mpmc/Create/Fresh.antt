-- ===== src/Mpmc/Create/Fresh.antt =====
-- A queue that was just created is empty and well formed
-- (src/edge_runtime/queue/mpmc_queue.cpp).
use edge_runtime.Common.{
  ℕ, zero, suc, ◌+◌, ◌*◌, ◌^◌, ◌<◌, ◌≡◌, refl, subst, ◌≢◌, true, false, some, List, [], arith,
}
use edge_runtime.Mpmc.Create.{
  zero_slot, init_slot, init_slots, bytes_missing, identity_or_nonce_failed, nonce_word,
  validate_options, ready_memory, create,
}
use edge_runtime.Mpmc.Gate.{owner_valid}
use edge_runtime.Mpmc.Header.{Schema, blank_header, sealed}
use edge_runtime.Mpmc.Invariant.{IsFree, IsQueue, messages_from, contents}
use edge_runtime.Mpmc.Laps.{offset_distinct}
use edge_runtime.Mpmc.Layout.{first_slot_offset}
use edge_runtime.Mpmc.Layout.Regions.{
  stride_of, slot_stride-eq, IsShape, mapping_size_for-eq, slot_offset-eq,
}
use edge_runtime.Mpmc.Refine.{Headroom}
use edge_runtime.Mpmc.State.{Slot, Liveness, Memory, Handle, update_slot}
use edge_runtime.Mpmc.State.Slots.{update_slot-ne, update_slot_self}
use edge_runtime.Names.{validate_channel_name}
use edge_runtime.Names.Safety.{validate_channel_name-parts}
use edge_runtime.Owner.{Owner}
use edge_runtime.Shared.{ok}
use native.Mathlib.Decide.{dec_lt}
use native.Mathlib.Nat.{mod-eq_of_lt}

-- Where the first `i` slots are set up, and no slot has ever been owned.
record IsInitialised (i payload_size : ℕ) (slots : ℕ → Slot) : Type 0 where
  done_slots : (j : ℕ) → j < i → IsFree j (slots (first_slot_offset + j * stride_of payload_size))
  unowned : (offset : ℕ) → (slots offset).owner_epoch ≡ 0

init_slots-round :
    (i capacity payload_size : ℕ) (slots : ℕ → Slot)
    → IsInitialised i payload_size slots
    → IsInitialised (i + 1) payload_size (
        update_slot
          (first_slot_offset + i * stride_of payload_size)
          (init_slot i (slots (first_slot_offset + i * stride_of payload_size)))
          slots)
unfolding init_slot
init_slots-round i capacity payload_size slots v = record {
  done_slots = λ j l. elim (dec_lt j i) [
    | yes before ↦
        rw
          (update_slot-ne (first_slot_offset + i * stride_of payload_size)
            (first_slot_offset + j * stride_of payload_size) _ slots
            (λ e.
              offset_distinct (stride_of payload_size) j i (omega arith) (λ f. omega arith)
                (omega arith)))
          (v.done_slots j before)
    | no here ↦
        let same : j ≡ i = omega arith in
        rw same (
          rw (update_slot_self (first_slot_offset + i * stride_of payload_size) _ slots)
            (refl, refl, omega arith))
  ];
  unowned = λ offset. ground (arith, v.unowned offset);
}

init_slots-ok :
    (n i capacity payload_size : ℕ) (slots : ℕ → Slot)
    → IsShape capacity payload_size
    → i + n ≡ capacity
    → IsInitialised i payload_size slots
    → (slots' : ℕ → Slot) × (init_slots n i capacity (stride_of payload_size) slots ≡ some slots')
      × IsInitialised capacity payload_size slots'
unfolding init_slots
init_slots-ok zero i capacity payload_size slots s e v =
    (slots, refl, subst (λ (c : ℕ). IsInitialised c payload_size slots) (omega arith) v)
init_slots-ok (suc n) i capacity payload_size slots s e v =
    let (slots', f, w) =
      init_slots-ok n (i + 1) capacity payload_size _ s (omega arith)
        (init_slots-round i capacity payload_size slots v) in
    (slots', rw (slot_offset-eq i capacity payload_size s (omega arith), init_slots) f, w)

-- Sixty-two bits of operations
abbrev pub many : ℕ
many = 2 ^ 62

module _ (name : List ℕ) (self : Owner) (nonce_hi nonce_lo capacity : ℕ) (schema : Schema)
    (payload_size : ℕ) (processes : ℕ → ℕ → Liveness) (s : IsShape capacity payload_size) where
  fresh_handle : Handle
  fresh_handle = record { self = self; slot_stride = stride_of payload_size; removed = false }

  module _ (slots : ℕ → Slot) (v : IsInitialised capacity payload_size slots) where
    abbrev memory : Memory
    memory = ready_memory self capacity payload_size processes slots

    memory-IsQueue : IsQueue fresh_handle memory
    unfolding fresh_handle
    memory-IsQueue = record {
      shape = s;
      stride = refl;
      open_handle = refl;
      initialised = refl;
      order = omega arith;
      bounded = omega arith;
      filled = λ p l u. absurd (omega arith);
      vacant =
          λ p l u. let h : p < capacity = omega arith in rw (mod-eq_of_lt h) (v.done_slots p h);
      enqueue_free = refl;
      dequeue_free = refl;
      enqueue_even = omega arith;
      dequeue_even = omega arith;
    }

    memory-Headroom : Headroom many memory
    memory-Headroom = record {
      enqueue_gate = omega arith;
      dequeue_gate = omega (arith, s.few_slots);
      slots = λ offset. omega (arith, v.unowned offset);
      tickets = omega (arith, s.few_slots);
    }

  -- Creation with a valid name, shape, schema version and process identity, and with random bytes for
  -- the nonce, succeeds, if the system creates and maps the object: the header says what was asked for
  -- and has the nonce, and the queue is well formed, holds nothing, and has room for 2^62 operations in
  -- every counter.
  pub create-fresh :
      validate_channel_name name ≡ true
      → schema.version ≢ 0
      → owner_valid self ≡ true
      → (h : Handle) × (m : Memory) × (create name self
            (some nonce_hi)
            (some nonce_lo)
            capacity
            schema
            payload_size
            processes
          ≡ ok (
            h,
            sealed (
                blank_header capacity schema payload_size
                  (first_slot_offset + capacity * stride_of payload_size)
                  nonce_hi
                  nonce_lo
                  self),
            m,
          ))
        × IsQueue h m
        × (contents m ≡ [])
        × Headroom many m
  unfolding create validate_options contents messages_from fresh_handle identity_or_nonce_failed
      bytes_missing nonce_word owner_valid
  create-fresh g n e =
      let (slots, f, v) =
        init_slots-ok capacity 0 capacity payload_size (λ offset. zero_slot payload_size) s
          (omega arith)
          (record { done_slots = λ j l. absurd (omega arith); unowned = λ offset. refl }) in
      (
        fresh_handle,
        memory slots v,
        ground (
          arith,
          validate_channel_name-parts name g,
          mapping_size_for-eq capacity payload_size s,
          slot_stride-eq payload_size,
          f,
        ),
        memory-IsQueue slots v,
        refl,
        memory-Headroom slots v,
      )
