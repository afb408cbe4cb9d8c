-- ===== src/Mpmc/Tests.antt =====
-- The queue's theorems at concrete queues of two one-byte messages
-- (src/edge_runtime/queue/mpmc_queue.cpp).
mod Removing
mod Waiting
use edge_runtime.Common.{
  ◌==◌, if◌then◌else◌, length, ℕ, ◌+◌, ◌-◌, ◌*◌, ◌≡◌, refl, true, false, some, List, [], ◌∷◌, ◌++◌,
  arith, replicate,
}
use edge_runtime.Error.{ErrorCode}
use edge_runtime.Mpmc.Create.{ready_memory, create}
use edge_runtime.Mpmc.Create.Fresh.{many, create-fresh}
use edge_runtime.Mpmc.Gate.{owner_valid}
use edge_runtime.Mpmc.Header.{Schema, blank_header, sealed}
use edge_runtime.Mpmc.Invariant.{IsQueue, contents}
use edge_runtime.Mpmc.Layout.{first_slot_offset, slot_stride}
use edge_runtime.Mpmc.Layout.Regions.{stride_of, IsShape}
use edge_runtime.Mpmc.Ops.{try_push-appends, try_pop-takes_oldest}
use edge_runtime.Mpmc.Pop.{try_pop}
use edge_runtime.Mpmc.Pop.Success.{CanPop, popped, try_pop-ok}
use edge_runtime.Mpmc.Push.{try_push}
use edge_runtime.Mpmc.Push.Success.{CanPush, pushed, try_push-ok}
use edge_runtime.Mpmc.Refine.{Headroom, run-refines}
use edge_runtime.Mpmc.Refusals.{CanReport, try_push-full, try_pop-empty}
use edge_runtime.Mpmc.Spec.{Op, push, pop, spec_run, run}
use edge_runtime.Mpmc.State.{slot_free, slot_ready, Slot, Liveness, Memory, Handle}
use edge_runtime.Mpmc.Status.{Status, queue_status}
use edge_runtime.Mpmc.Status.Quiet.{free_status, queue_status-quiet}
use edge_runtime.Names.{allowed, all_allowed, no_dot_dot, validate_channel_name}
use edge_runtime.Owner.{Owner, no_owner}
use edge_runtime.Shared.{ok, err, quiet}

abbrev self : Owner
self = record { pid = 1; proc_start_ticks = 2; boot_id_hash_hi = 3; boot_id_hash_lo = 4 }

abbrev pub handle : Handle
handle = record { self = self; slot_stride = 128; removed = false }

abbrev all_alive : ℕ → ℕ → Liveness
all_alive pid start = Liveness.alive

abbrev slot : ℕ → ℕ → List ℕ → Slot
slot sequence state payload = record {
  sequence = sequence;
  state = state;
  owner = no_owner;
  ticket = 0;
  owner_epoch = 0;
  payload = payload;
}

abbrev two_slots : Slot → Slot → ℕ → Slot
two_slots s t offset = if offset == 448 then t else s

abbrev pub empty : Memory
empty =
    ready_memory self 2 1 all_alive
      (two_slots (slot 0 slot_free (0 ∷ [])) (slot 1 slot_free (0 ∷ [])))

abbrev pub full : Memory
full =
    record (ready_memory self 2 1 all_alive
      (two_slots (slot 1 slot_ready (5 ∷ [])) (slot 2 slot_ready (6 ∷ [])))) {
        enqueue_position = 2;
      }

small : IsShape 2 1
small = record {
  some_slots = omega arith;
  few_slots = omega arith;
  some_bytes = omega arith;
  few_bytes = omega arith;
}

pub empty-IsQueue : IsQueue handle empty
empty-IsQueue = record {
  shape = small;
  stride = refl;
  open_handle = refl;
  initialised = refl;
  order = omega arith;
  bounded = omega arith;
  filled = λ p l u. absurd (omega arith);
  vacant = λ p l u. ground arith;
  enqueue_free = refl;
  dequeue_free = refl;
  enqueue_even = refl;
  dequeue_even = refl;
}

pub full-IsQueue : IsQueue handle full
full-IsQueue = record {
  shape = small;
  stride = refl;
  open_handle = refl;
  initialised = refl;
  order = omega arith;
  bounded = omega arith;
  filled = λ p l u. ground arith;
  vacant = λ p l u. absurd (omega arith);
  enqueue_free = refl;
  dequeue_free = refl;
  enqueue_even = refl;
  dequeue_even = refl;
}

pub empty-CanPush : CanPush empty
empty-CanPush = record {
  gap = omega arith;
  gate_room = omega arith;
  drain_valid = omega arith;
  drain = omega arith;
  slot_room = omega arith;
  ticket_room = omega arith;
}

pub full-CanPop : CanPop full
full-CanPop = record {
  message = omega arith;
  gate_room = omega arith;
  slot_room = ground arith;
  ticket_room = omega arith;
}

pub full-CanReport : CanReport full
full-CanReport = record {
  drain_valid = omega arith;
  fill_valid = omega arith;
  push_tickets = omega arith;
  pop_tickets = omega arith;
}

pub empty-CanReport : CanReport empty
empty-CanReport = record {
  drain_valid = omega arith;
  fill_valid = omega arith;
  push_tickets = omega arith;
  pop_tickets = omega arith;
}

abbrev history : List Op
history = push handle (7 ∷ []) ∷ push handle (8 ∷ []) ∷ push handle (9 ∷ []) ∷ pop handle ∷ []

empty-Headroom : Headroom (length history) empty
empty-Headroom = record {
  enqueue_gate = omega arith;
  dequeue_gate = omega arith;
  slots = λ offset. ground arith;
  tickets = omega arith;
}

run-refines_example :
    ((run history empty).0, contents (run history empty).1) ≡ spec_run 2 history (contents empty)
run-refines_example =
    run-refines history empty
      ((empty-IsQueue, refl), ((empty-IsQueue, refl), ((empty-IsQueue, refl), (empty-IsQueue, tt))))
      empty-Headroom

try_push-ok_example :
    try_push handle (7 ∷ []) (quiet empty) ≡ (ok tt, quiet (pushed handle (7 ∷ []) empty))
try_push-ok_example = try_push-ok handle (7 ∷ []) empty empty-IsQueue empty-CanPush refl

try_pop-ok_example : try_pop handle 1 (quiet full) ≡ (ok (5 ∷ []), quiet (popped handle full))
try_pop-ok_example = try_pop-ok handle full full-IsQueue full-CanPop

try_push-appends_example :
    let t = try_push handle (7 ∷ []) (quiet empty) in
    (t.0 ≡ ok tt) × IsQueue handle t.1.mem × (contents t.1.mem ≡ contents empty ++ (7 ∷ []) ∷ [])
try_push-appends_example =
    try_push-appends handle handle empty empty-IsQueue empty-IsQueue (7 ∷ []) empty-CanPush refl

try_pop-takes_oldest_example :
    let t = try_pop handle 1 (quiet full) in
    (payload : List ℕ) × (t.0 ≡ ok payload)
    × IsQueue handle t.1.mem
    × (contents full ≡ payload ∷ contents t.1.mem)
try_pop-takes_oldest_example =
    try_pop-takes_oldest handle handle full full-IsQueue full-IsQueue full-CanPop

try_push-full_example :
    try_push handle (7 ∷ []) (quiet full) ≡ (err ErrorCode.queue_full, quiet full)
try_push-full_example = try_push-full handle full full-IsQueue full-CanReport (7 ∷ []) refl refl

try_pop-empty_example : try_pop handle 1 (quiet empty) ≡ (err ErrorCode.queue_empty, quiet empty)
try_pop-empty_example = try_pop-empty handle empty empty-IsQueue empty-CanReport refl

abbrev fresh_schema : Schema
fresh_schema = record { version = 1; fingerprint = replicate 32 9 }

create-fresh_example :
    (h : Handle) × (m : Memory) × (create
        (113 ∷ [])
        self
        (some 11)
        (some 12)
        2
        fresh_schema
        1
        all_alive
      ≡ ok (
        h,
        sealed (blank_header 2 fresh_schema 1 (first_slot_offset + 2 * stride_of 1) 11 12 self),
        m,
      ))
    × IsQueue h m
    × (contents m ≡ [])
    × Headroom many m
unfolding owner_valid validate_channel_name all_allowed allowed no_dot_dot
create-fresh_example =
    create-fresh (113 ∷ []) self 11 12 2 fresh_schema 1 all_alive small refl (λ e. omega arith) refl

queue_status-quiet_example :
    (s : Status) × (queue_status handle (quiet full) ≡ (ok s, quiet full))
    × (s.ready ≡ true)
    × (s.capacity ≡ 2)
    × (s.payload_size ≡ 1)
    × (s.enqueue_position ≡ 2)
    × (s.dequeue_position ≡ 0)
    × (s.enqueue_gate ≡ free_status)
    × (s.dequeue_gate ≡ free_status)
    × (length (contents full) ≡ s.enqueue_position - s.dequeue_position)
queue_status-quiet_example = queue_status-quiet handle full full-IsQueue full-CanReport
