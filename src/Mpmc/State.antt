-- ===== src/Mpmc/State.antt =====
-- A queue's shared memory and a process's handle on it (src/edge_runtime/queue/mpmc_layout.hpp,
-- mpmc_queue.cpp).
pub mod Slots
use edge_runtime.Common.{◌==◌, if◌then◌else◌, ℕ, Bool, true, false, List}
use edge_runtime.Owner.{Owner, Cell}

-- enum class MpmcInitState
abbrev pub init_initializing : ℕ
init_initializing = 1

abbrev pub init_ready : ℕ
init_ready = 2

-- enum class MpmcLockState
abbrev pub lock_free : ℕ
lock_free = 0

abbrev pub lock_claiming : ℕ
lock_claiming = 1

abbrev pub lock_owned : ℕ
lock_owned = 2

abbrev pub lock_epoch_exhausted : ℕ
lock_epoch_exhausted = 3

abbrev pub lock_owner_protocol_fault : ℕ
lock_owner_protocol_fault = 4

-- enum class MpmcSlotState
abbrev pub slot_free : ℕ
slot_free = 0

abbrev pub slot_enqueue_claiming : ℕ
slot_enqueue_claiming = 1

abbrev pub slot_enqueue_owned : ℕ
slot_enqueue_owned = 2

abbrev pub slot_ready : ℕ
slot_ready = 3

abbrev pub slot_dequeue_claiming : ℕ
slot_dequeue_claiming = 4

abbrev pub slot_dequeue_owned : ℕ
slot_dequeue_owned = 5

abbrev pub slot_epoch_exhausted : ℕ
slot_epoch_exhausted = 6

abbrev pub slot_owner_protocol_fault : ℕ
slot_owner_protocol_fault = 7

-- One of the two locks of the header with its owner
pub record Gate : Type 0 where
  pub lock : ℕ
  pub owner_epoch : ℕ
  pub owner : Owner

-- MpmcSlotHeaderAbi and the payload behind it
pub record Slot : Type 0 where
  pub sequence : ℕ
  pub state : ℕ
  pub owner : Owner
  pub ticket : ℕ
  pub owner_epoch : ℕ
  pub payload : List ℕ

-- enum class Liveness
pub data Liveness : Type 0 where
  alive exited pid_reused unverifiable : Liveness

-- The mapping, as far as operations on an open queue read or write it, and the processes of the
-- machine. A slot is found at its byte offset; `Layout.Regions` shows that slots do not overlap.
pub record Memory : Type 0 where
  pub init_state : ℕ
  pub capacity : ℕ
  pub payload_size : ℕ
  pub generation : ℕ
  pub creator : Owner
  pub enqueue_position : ℕ
  pub dequeue_position : ℕ
  pub enqueue_gate : Gate
  pub dequeue_gate : Gate
  pub notify_epoch : ℕ
  pub slots : ℕ → Slot
  -- What `probe_liveness` finds of a pid and a start time
  pub processes : ℕ → ℕ → Liveness
  -- The machine's steady clock in nanoseconds
  pub now : ℕ
  -- Whether the name still stands for this object
  pub linked : Bool

-- MpmcQueueHandle, with the identity of the process that holds it
pub record Handle : Type 0 where
  pub self : Owner
  pub slot_stride : ℕ
  pub removed : Bool

abbrev pub gate_of : Bool → Memory → Gate
gate_of true m = m.enqueue_gate
gate_of false m = m.dequeue_gate

abbrev pub set_gate : Bool → Gate → Memory → Memory
set_gate true g m = record m { enqueue_gate = g }
set_gate false g m = record m { dequeue_gate = g }

-- `gate_for`: the words of the producers' or of the consumers' gate
abbrev pub gate_cell : Bool → Cell Memory
gate_cell enqueue = record {
  state = λ m. (gate_of enqueue m).lock;
  epoch = λ m. (gate_of enqueue m).owner_epoch;
  owner = λ m. (gate_of enqueue m).owner;
  set_state = λ v m. set_gate enqueue (record (gate_of enqueue m) { lock = v }) m;
  set_epoch = λ v m. set_gate enqueue (record (gate_of enqueue m) { owner_epoch = v }) m;
  set_owner = λ v m. set_gate enqueue (record (gate_of enqueue m) { owner = v }) m;
}

abbrev pub update_slot : ℕ → Slot → (ℕ → Slot) → ℕ → Slot
update_slot offset s slots k = if k == offset then s else slots k

unfoldable pub set_slot : ℕ → Slot → Memory → Memory
set_slot offset s m = record m { slots = update_slot offset s m.slots }

-- The words of the slot at an offset
abbrev pub slot_cell : ℕ → Cell Memory
slot_cell offset = record {
  state = λ m. (m.slots offset).state;
  epoch = λ m. (m.slots offset).owner_epoch;
  owner = λ m. (m.slots offset).owner;
  set_state = λ v m. set_slot offset (record (m.slots offset) { state = v }) m;
  set_epoch = λ v m. set_slot offset (record (m.slots offset) { owner_epoch = v }) m;
  set_owner = λ v m. set_slot offset (record (m.slots offset) { owner = v }) m;
}
