-- ===== src/Mpmc/Refine.antt =====
-- Operations of any processes, one after the other, behave as on a bounded list
-- (src/edge_runtime/queue/mpmc_queue.cpp).
use edge_runtime.Common.{
  ltb, ◌==◌, if◌then◌else◌, ltb→lt, ==_iff, Bool-cases, length, u64_max, ℕ, zero, suc, ◌+◌, ◌-◌,
  ◌*◌, ◌≤◌, ◌<◌, ◌≡◌, refl, sym, ap, ◌∙◌, inl, inr, List, [], ◌∷◌, arith,
}
use edge_runtime.Mpmc.Fifo.{pushed-IsQueue, contents-pushed, popped-IsQueue, contents-popped}
use edge_runtime.Mpmc.Invariant.{offset_of, slot_of, IsQueue, messages_from, contents}
use edge_runtime.Mpmc.Pop.Success.{CanPop, popped, try_pop-ok}
use edge_runtime.Mpmc.Push.Success.{CanPush, pushed, try_push-ok}
use edge_runtime.Mpmc.Refusals.{CanReport, try_push-full, try_pop-empty}
use edge_runtime.Mpmc.Spec.{
  Op, push, pop, Reply, done, was_full, was_empty, got, spec_step, spec_run, run_step, run,
}
use edge_runtime.Mpmc.State.{Slot, Memory, Handle, update_slot}
use edge_runtime.Owner.{max_committed_epoch}

-- Every counter of the queue has room for `n` more operations.
pub record Headroom (n : ℕ) (m : Memory) : Type 0 where
  pub enqueue_gate : m.enqueue_gate.owner_epoch + 2 * n ≤ max_committed_epoch
  pub dequeue_gate : m.dequeue_gate.owner_epoch + 2 * n + 2 * m.capacity + 2 ≤ max_committed_epoch
  pub slots : (offset : ℕ) → (m.slots offset).owner_epoch + 2 * n + 4 ≤ max_committed_epoch
  pub tickets : m.enqueue_position + m.capacity + n ≤ u64_max

-- The handle is one on this queue, and a pushed payload has the queue's size.
abbrev pub OpFits : Op → Memory → Type 0
OpFits (push h payload) m = IsQueue h m × (length payload ≡ m.payload_size)
OpFits (pop h) m = IsQueue h m

length-messages_from : (m : Memory) (p n : ℕ) → length (messages_from m p n) ≡ n
unfolding messages_from
length-messages_from m p zero = refl
length-messages_from m p (suc n) = ap suc (length-messages_from m (p + 1) n)

pub length-contents : (m : Memory) → length (contents m) ≡ m.enqueue_position - m.dequeue_position
unfolding contents
length-contents m =
    length-messages_from m m.dequeue_position (m.enqueue_position - m.dequeue_position)

module _ {n : ℕ} (m : Memory) (r : Headroom (suc n) m) where
  Headroom-CanPush :
      m.dequeue_position ≤ m.enqueue_position
      → m.enqueue_position < m.dequeue_position + m.capacity
      → CanPush m
  Headroom-CanPush o g = record {
    gap = g;
    gate_room = omega (arith, r.enqueue_gate);
    drain_valid = omega (arith, r.dequeue_gate);
    drain = omega (arith, r.dequeue_gate);
    slot_room = omega (arith, r.slots (offset_of m m.enqueue_position));
    ticket_room = omega (arith, r.tickets);
  }

  Headroom-CanPop : m.dequeue_position < m.enqueue_position → CanPop m
  Headroom-CanPop l = record {
    message = l;
    gate_room = omega (arith, r.dequeue_gate);
    slot_room = omega (arith, r.slots (offset_of m m.dequeue_position));
    ticket_room = omega (arith, r.tickets);
  }

  Headroom-CanReport : m.dequeue_position ≤ m.enqueue_position → CanReport m
  Headroom-CanReport o = record {
    drain_valid = omega (arith, r.dequeue_gate);
    fill_valid = omega (arith, r.enqueue_gate);
    push_tickets = omega (arith, r.tickets);
    pop_tickets = omega (arith, r.tickets);
  }

  update_slot-room :
      (off : ℕ) (s : Slot)
      → s.owner_epoch + 2 * n + 4 ≤ max_committed_epoch
      → (offset : ℕ)
      → (update_slot off s m.slots offset).owner_epoch + 2 * n + 4 ≤ max_committed_epoch
  update_slot-room off s h offset = ground (arith, r.slots offset)

  Headroom-pushed : (h : Handle) (payload : List ℕ) → Headroom n (pushed h payload m)
  Headroom-pushed h payload = record {
    enqueue_gate = omega (arith, r.enqueue_gate);
    dequeue_gate = omega (arith, r.dequeue_gate);
    slots =
        update_slot-room (offset_of m m.enqueue_position) _
          (omega (arith, r.slots (offset_of m m.enqueue_position)));
    tickets = omega (arith, r.tickets);
  }

  Headroom-popped : (h : Handle) → Headroom n (popped h m)
  Headroom-popped h = record {
    enqueue_gate = omega (arith, r.enqueue_gate);
    dequeue_gate = omega (arith, r.dequeue_gate);
    slots =
        update_slot-room (offset_of m m.dequeue_position) _
          (omega (arith, r.slots (offset_of m m.dequeue_position)));
    tickets = omega (arith, r.tickets);
  }

  Headroom-less : Headroom n m
  Headroom-less = record {
    enqueue_gate = omega (arith, r.enqueue_gate);
    dequeue_gate = omega (arith, r.dequeue_gate);
    slots = λ offset. omega (arith, r.slots offset);
    tickets = omega (arith, r.tickets);
  }

try_push-step :
    (n : ℕ) (h : Handle) (payload : List ℕ) (m : Memory)
    → IsQueue h m
    → length payload ≡ m.payload_size
    → Headroom (suc n) m
    → run_step (push h payload) m ≡ (
        if ltb (m.enqueue_position - m.dequeue_position) m.capacity
        then (done, pushed h payload m)
        else (was_full, m))
unfolding run_step
try_push-step n h payload m v e r =
    elim (Bool-cases (ltb (m.enqueue_position - m.dequeue_position) m.capacity)) [
      | inl room ↦
          let gap : m.enqueue_position < m.dequeue_position + m.capacity =
            omega (arith, ltb→lt _ _ room, v.order) in
          rw (room, try_push-ok h payload m v (Headroom-CanPush m r v.order gap) e)
      | inr no_room ↦
          let at_end : m.enqueue_position ≡ m.dequeue_position + m.capacity =
            ground (arith, v.order, v.bounded) in
          rw (no_room, try_push-full h m v (Headroom-CanReport m r v.order) payload e at_end)
    ]

try_pop-step :
    (n : ℕ) (h : Handle) (m : Memory)
    → IsQueue h m
    → Headroom (suc n) m
    → run_step (pop h) m ≡ (
        if m.enqueue_position == m.dequeue_position
        then (was_empty, m)
        else (got (slot_of m m.dequeue_position).payload, popped h m))
unfolding run_step
try_pop-step n h m v r = elim (Bool-cases (m.enqueue_position == m.dequeue_position)) [
  | inl same ↦ rw (same, try_pop-empty h m v (Headroom-CanReport m r v.order) ((==_iff _ _).0 same))
  | inr differ ↦
      let message : m.dequeue_position < m.enqueue_position = ground (arith, v.order) in
      rw (differ, try_pop-ok h m v (Headroom-CanPop m r message))
]

contents-empty : (m : Memory) → m.enqueue_position ≡ m.dequeue_position → contents m ≡ []
unfolding contents messages_from
contents-empty m e =
    ap (messages_from m m.dequeue_position)
      (let none_left : m.enqueue_position - m.dequeue_position ≡ 0 = omega arith in none_left)

-- An outcome of a step that is what the list does, and leaves a queue with one step less of room
record Refines (n : ℕ) (op : Op) (m : Memory) (t : Reply × Memory) : Type 0 where
  same : (t.0, contents t.1) ≡ spec_step m.capacity op (contents m)
  capacity_kept : t.1.capacity ≡ m.capacity
  size_kept : t.1.payload_size ≡ m.payload_size
  invariant : (k : Handle) → IsQueue k m → IsQueue k t.1
  room : Headroom n t.1

module _ (n : ℕ) (h : Handle) (m : Memory) (v : IsQueue h m) (r : Headroom (suc n) m) where
  push-Refines :
      (payload : List ℕ)
      → length payload ≡ m.payload_size
      → Refines n (push h payload) m (run_step (push h payload) m)
  unfolding spec_step
  push-Refines payload e =
      elim (Bool-cases (ltb (m.enqueue_position - m.dequeue_position) m.capacity)) [
        | inl yes_room ↦
            let c : CanPush m =
              Headroom-CanPush m r v.order (omega (arith, ltb→lt _ _ yes_room, v.order)) in
            rw (try_push-step n h payload m v e r, yes_room)
              (record {
                same =
                    rw (length-contents m, yes_room)
                      (ap (λ (q : List (List ℕ)). (done, q)) (contents-pushed h h payload m v c));
                capacity_kept = refl;
                size_kept = refl;
                invariant = λ k w. pushed-IsQueue h k payload m w c;
                room = Headroom-pushed m r h payload;
              })
        | inr no_room ↦
            rw (try_push-step n h payload m v e r, no_room)
              (record {
                same = rw (length-contents m, no_room) refl;
                capacity_kept = refl;
                size_kept = refl;
                invariant = λ k w. w;
                room = Headroom-less m r;
              })
      ]

  pop-Refines : Refines n (pop h) m (run_step (pop h) m)
  unfolding spec_step
  pop-Refines = elim (Bool-cases (m.enqueue_position == m.dequeue_position)) [
    | inl same ↦
        rw (try_pop-step n h m v r, same)
          (record {
            same = rw (contents-empty m ((==_iff _ _).0 same)) refl;
            capacity_kept = refl;
            size_kept = refl;
            invariant = λ k w. w;
            room = Headroom-less m r;
          })
    | inr differ ↦
        let c : CanPop m = Headroom-CanPop m r (ground (arith, v.order)) in
        rw (try_pop-step n h m v r, differ)
          (record {
            same = rw (contents-popped h h m v c) refl;
            capacity_kept = refl;
            size_kept = refl;
            invariant = λ k w. popped-IsQueue h k m w c;
            room = Headroom-popped m r h;
          })
  ]

-- Every operation fits the queue.
abbrev pub AllFit : List Op → Memory → Type 0
AllFit [] m = Unit
AllFit (op ∷ ops) m = OpFits op m × AllFit ops m

OpFits-step :
    (op : Op) (m m' : Memory)
    → ((k : Handle) → IsQueue k m → IsQueue k m')
    → m'.payload_size ≡ m.payload_size
    → OpFits op m
    → OpFits op m'
OpFits-step (push h payload) m m' inv e (v, l) = (inv h v, l ∙ sym e)
OpFits-step (pop h) m m' inv e v = inv h v

AllFit-step :
    (ops : List Op) (m m' : Memory)
    → ((k : Handle) → IsQueue k m → IsQueue k m')
    → m'.payload_size ≡ m.payload_size
    → AllFit ops m
    → AllFit ops m'
AllFit-step [] m m' inv e f = tt
AllFit-step (op ∷ ops) m m' inv e (f, g) =
    (OpFits-step op m m' inv e f, AllFit-step ops m m' inv e g)

run_step-Refines :
    (n : ℕ) (op : Op) (m : Memory)
    → OpFits op m
    → Headroom (suc n) m
    → Refines n op m (run_step op m)
run_step-Refines n (push h payload) m (v, e) r = push-Refines n h m v r payload e
run_step-Refines n (pop h) m v r = pop-Refines n h m v r

-- Pushes and pops by any processes, one after the other and with nobody else interfering, answer
-- exactly as a first-in-first-out list of at most `capacity` messages does, and leave the queue
-- holding that list, as long as no counter comes to its end.
pub run-refines :
    (ops : List Op) (m : Memory)
    → AllFit ops m
    → Headroom (length ops) m
    → ((run ops m).0, contents (run ops m).1) ≡ spec_run m.capacity ops (contents m)
unfolding run spec_run
run-refines [] m f r = refl
run-refines (op ∷ ops) m (f, g) r =
    let s = run_step-Refines (length ops) op m f r in
    let rest =
      run-refines ops (run_step op m).1
        (AllFit-step ops m (run_step op m).1 s.invariant s.size_kept g) s.room in
    rw (← s.same) (
      ap (λ (p : List Reply × List (List ℕ)). ((run_step op m).0 ∷ p.0, p.1))
        (rest ∙ ap (λ (c : ℕ). spec_run c ops (contents (run_step op m).1)) s.capacity_kept))
