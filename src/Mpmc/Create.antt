-- ===== src/Mpmc/Create.antt =====
-- Setting up a new queue: the checks and the initialised memory of `mpmc_create_impl`
-- (src/edge_runtime/queue/mpmc_queue.cpp). Opening and mapping the object is the system's, and so are
-- the random bytes.
pub mod Fresh
use edge_runtime.Common.{
  ltb, ◌==◌, if◌then◌else◌, length, ℕ, zero, suc, ◌+◌, Bool, true, false, not, ◌||◌, Option, none,
  some, List, replicate,
}
use edge_runtime.Error.{ErrorCode}
use edge_runtime.Mpmc.Header.{Schema, Header, blank_header, sealed}
use edge_runtime.Mpmc.Layout.{
  max_capacity, max_payload_size, max_name_length, slot_stride, mapping_size_for, slot_offset,
}
use edge_runtime.Mpmc.State.{
  init_ready, slot_free, Gate, Slot, Liveness, Memory, Handle, update_slot,
}
use edge_runtime.Names.{validate_channel_name}
use edge_runtime.Owner.{Owner, no_owner}
use edge_runtime.Shared.{Result, ok, err}

-- A slot after the `memset`
abbrev pub zero_slot : ℕ → Slot
zero_slot payload_size = record {
  sequence = 0;
  state = 0;
  owner = no_owner;
  ticket = 0;
  owner_epoch = 0;
  payload = replicate payload_size 0;
}

abbrev pub zero_gate : Gate
zero_gate = record { lock = 0; owner_epoch = 0; owner = no_owner }

-- The body of the loop over the slots
unfoldable pub init_slot : ℕ → Slot → Slot
init_slot i s = record s { sequence = i; state = slot_free; ticket = i; owner_epoch = 0 }

-- The loop, with the rounds left and the index; `none` is an offset that overflows.
unfoldable pub init_slots : ℕ → ℕ → ℕ → ℕ → (ℕ → Slot) → Option (ℕ → Slot)
init_slots zero i capacity stride slots = some slots
init_slots (suc n) i capacity stride slots = elim (slot_offset i capacity stride) [
  | none ↦ none
  | some offset ↦
      init_slots n (i + 1) capacity stride (update_slot offset (init_slot i (slots offset)) slots)
]

-- Whether `random_bytes` failed
unfoldable pub bytes_missing : Option ℕ → Bool
bytes_missing none = true
bytes_missing (some nonce) = false

-- The check of the identity and of the two words of the nonce, before the header is written
unfoldable pub identity_or_nonce_failed : Owner → Option ℕ → Option ℕ → Bool
identity_or_nonce_failed o nonce_hi nonce_lo =
    o.pid == 0
    || o.proc_start_ticks == 0
    || o.boot_id_hash_hi == 0
    || o.boot_id_hash_lo == 0
    || bytes_missing nonce_hi
    || bytes_missing nonce_lo

-- A word of the nonce in the header: what `random_bytes` wrote over the zero of the `memset`
unfoldable pub nonce_word : Option ℕ → ℕ
nonce_word none = 0
nonce_word (some nonce) = nonce

unfoldable pub validate_options : List ℕ → ℕ → ℕ → ℕ → Result (Unit {0})
validate_options name capacity schema_version payload_size =
    if not (validate_channel_name name) || ltb max_name_length (length name)
    then err ErrorCode.invalid_name
    else if capacity == 0
        || ltb max_capacity capacity
        || payload_size == 0
        || ltb max_payload_size payload_size
        || schema_version == 0
    then err ErrorCode.invalid_options
    else ok tt

-- The memory that is published as ready
abbrev pub ready_memory : Owner → ℕ → ℕ → (ℕ → ℕ → Liveness) → (ℕ → Slot) → Memory
ready_memory self capacity payload_size processes slots = record {
  init_state = init_ready;
  capacity = capacity;
  payload_size = payload_size;
  generation = 1;
  creator = self;
  enqueue_position = 0;
  dequeue_position = 0;
  enqueue_gate = zero_gate;
  dequeue_gate = zero_gate;
  notify_epoch = 0;
  slots = slots;
  processes = processes;
  now = 0;
  linked = true;
}

-- The new queue's handle, header and memory for the process `self`; `nonce_hi` and `nonce_lo` are
-- what the two calls of `random_bytes` give, if they succeed.
unfoldable pub create :
    List ℕ
    → Owner
    → Option ℕ
    → Option ℕ
    → ℕ
    → Schema
    → ℕ
    → (ℕ → ℕ → Liveness)
    → Result (Handle × Header × Memory)
create name self nonce_hi nonce_lo capacity schema payload_size processes =
    elim (validate_options name capacity schema.version payload_size) [
      | err e ↦ err e
      | ok _ ↦ elim (mapping_size_for capacity payload_size) [
        | none ↦ err ErrorCode.invalid_options
        | some mapping_size ↦
            if identity_or_nonce_failed self nonce_hi nonce_lo
            then err ErrorCode.system_error
            else elim (slot_stride payload_size) [
              | none ↦ err ErrorCode.invalid_options
              | some stride ↦
                  elim (init_slots capacity 0 capacity stride (λ offset. zero_slot payload_size)) [
                    | none ↦ err ErrorCode.invalid_options
                    | some slots ↦ ok (
                      record { self = self; slot_stride = stride; removed = false },
                      sealed (
                          blank_header capacity schema payload_size mapping_size
                            (nonce_word nonce_hi) (nonce_word nonce_lo) self),
                      ready_memory self capacity payload_size processes slots,
                    )
                  ]
            ]
      ]
    ]
