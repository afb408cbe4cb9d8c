-- ===== src/Mpmc/Header.antt =====
-- The immutable part of a queue's header, its validation, and opening a queue
-- (src/edge_runtime/queue/mpmc_layout.hpp, mpmc_queue.cpp). Opening and mapping the object is the
-- system's: the mapping's size, its header and the state word are what it finds there.
pub mod Agreement
mod Tests
use edge_runtime.Common.{
  ltb, ◌==◌, if◌then◌else◌, ℕ, zero, suc, ◌/◌, ◌%◌, Bool, true, false, not, ◌&&◌, ◌||◌, none, some,
  List, [], ◌∷◌, ◌++◌, replicate,
}
use edge_runtime.Checksum.{fnv1a64}
use edge_runtime.Error.{ErrorCode}
use edge_runtime.Mpmc.Layout.{
  header_size, max_capacity, max_payload_size, slot_stride, mapping_size_for,
}
use edge_runtime.Mpmc.State.{init_initializing, init_ready, Handle}
use edge_runtime.Owner.{Owner}
use edge_runtime.Shared.{Result, ok, err}

abbrev pub abi_major_version : ℕ
abi_major_version = 2

abbrev pub abi_minor_version : ℕ
abi_minor_version = 0

-- kMpmcEndianMarker
abbrev pub endian_mark : ℕ
endian_mark = 0x01020304

-- "EDGMPMC2"
abbrev pub header_magic : List ℕ
header_magic = 69 ∷ 68 ∷ 71 ∷ 77 ∷ 80 ∷ 77 ∷ 67 ∷ 50 ∷ []

-- "EDGMPMC1"
abbrev pub legacy_header_magic : List ℕ
legacy_header_magic = 69 ∷ 68 ∷ 71 ∷ 77 ∷ 80 ∷ 77 ∷ 67 ∷ 49 ∷ []

-- The offset of `init_state` and its four bytes
abbrev pub header_probe_size : ℕ
header_probe_size = 164

pub record Schema : Type 0 where
  pub version : ℕ
  pub fingerprint : List ℕ

-- The fields that are written once, and the checksum of those before `enqueue_position`
pub record Header : Type 0 where
  pub magic : List ℕ
  pub abi_major : ℕ
  pub abi_minor : ℕ
  pub size_field : ℕ
  pub endian_marker : ℕ
  pub capacity : ℕ
  pub payload_size : ℕ
  pub schema_version : ℕ
  -- `reserved0` and the padding after it
  pub reserved : List ℕ
  pub mapping_size : ℕ
  pub schema_fingerprint : List ℕ
  pub generation : ℕ
  pub instance_nonce_hi : ℕ
  pub instance_nonce_lo : ℕ
  pub creator : Owner
  pub checksum : ℕ

-- The bytes of a number, lowest first
unfoldable pub le_bytes : ℕ → ℕ → List ℕ
le_bytes zero v = []
le_bytes (suc n) v = v % 256 ∷ le_bytes n (v / 256)

-- kMpmcImmutableHeaderBytes of the mapping on a little-endian machine
unfoldable pub immutable_bytes : Header → List ℕ
immutable_bytes h =
    h.magic
    ++ le_bytes 2 h.abi_major
    ++ le_bytes 2 h.abi_minor
    ++ le_bytes 4 h.size_field
    ++ le_bytes 4 h.endian_marker
    ++ le_bytes 4 h.capacity
    ++ le_bytes 4 h.payload_size
    ++ le_bytes 4 h.schema_version
    ++ h.reserved
    ++ le_bytes 8 h.mapping_size
    ++ h.schema_fingerprint
    ++ le_bytes 8 h.generation
    ++ le_bytes 8 h.instance_nonce_hi
    ++ le_bytes 8 h.instance_nonce_lo
    ++ le_bytes 8 h.creator.pid
    ++ le_bytes 8 h.creator.proc_start_ticks
    ++ le_bytes 8 h.creator.boot_id_hash_hi
    ++ le_bytes 8 h.creator.boot_id_hash_lo

unfoldable pub header_checksum : Header → ℕ
header_checksum h = fnv1a64 (immutable_bytes h)

-- memcmp(...) == 0
unfoldable pub same_bytes : List ℕ → List ℕ → Bool
same_bytes [] [] = true
same_bytes [] (y ∷ ys) = false
same_bytes (x ∷ xs) [] = false
same_bytes (x ∷ xs) (y ∷ ys) = if x == y then same_bytes xs ys else false

unfoldable pub same_schema : Header → Schema → Bool
same_schema h schema =
    h.schema_version == schema.version && same_bytes h.schema_fingerprint schema.fingerprint

-- Whether the computed size is the one of the header and of the object
unfoldable pub size_fits : Header → ℕ → Bool
size_fits h actual_size = elim (mapping_size_for h.capacity h.payload_size) [
  | none ↦ false
  | some expected_size ↦ expected_size == h.mapping_size && actual_size == h.mapping_size
]

-- `validate_header` with the size of the object, the state word, and the caller's capacity, schema
-- and payload size
unfoldable pub validate_header : Header → ℕ → ℕ → ℕ → Schema → ℕ → Result (Unit {0})
validate_header h actual_size init capacity schema payload_size =
    if same_bytes h.magic legacy_header_magic
    then err ErrorCode.abi_mismatch
    else if not (same_bytes h.magic header_magic)
    then err ErrorCode.corrupt_header
    else if not (h.abi_major == abi_major_version) || not (h.abi_minor == abi_minor_version)
    then err ErrorCode.abi_mismatch
    else if not (h.size_field == header_size) || not (h.endian_marker == endian_mark)
    then err ErrorCode.corrupt_header
    else if h.capacity == 0
        || ltb max_capacity h.capacity
        || h.payload_size == 0
        || ltb max_payload_size h.payload_size
        || h.generation == 0
    then err ErrorCode.corrupt_header
    else if not (size_fits h actual_size)
    then err ErrorCode.corrupt_header
    else if not (h.checksum == header_checksum h)
    then err ErrorCode.corrupt_header
    else if not (h.capacity == capacity) || not (h.payload_size == payload_size)
    then err ErrorCode.invalid_options
    else if not (same_schema h schema)
    then err ErrorCode.schema_mismatch
    else if not (init == init_ready)
    then err ErrorCode.initialization_incomplete
    else ok tt

-- `open_existing` once the object is mapped; nobody writes the state word meanwhile.
unfoldable pub open_existing : Owner → Header → ℕ → ℕ → ℕ → Schema → ℕ → Result Handle
open_existing self h size init capacity schema payload_size =
    if ltb size header_probe_size
    then err ErrorCode.initialization_incomplete
    else if same_bytes h.magic legacy_header_magic
        || not (h.abi_major == abi_major_version)
        || not (h.size_field == header_size)
        || ltb size header_size
    then err ErrorCode.abi_mismatch
    else if init == init_initializing
    then err ErrorCode.initialization_incomplete
    else if not (init == init_ready)
    then err ErrorCode.corrupt_header
    else elim (validate_header h size init capacity schema payload_size) [
      | err e ↦ err e
      | ok _ ↦ elim (slot_stride payload_size) [
        | none ↦ err ErrorCode.invalid_options
        | some stride ↦ ok (record { self = self; slot_stride = stride; removed = false })
      ]
    ]

-- The header that `mpmc_create_impl` writes, before its checksum
unfoldable pub blank_header : ℕ → Schema → ℕ → ℕ → ℕ → ℕ → Owner → Header
blank_header capacity schema payload_size mapping_size nonce_hi nonce_lo creator = record {
  magic = header_magic;
  abi_major = abi_major_version;
  abi_minor = abi_minor_version;
  size_field = header_size;
  endian_marker = endian_mark;
  capacity = capacity;
  payload_size = payload_size;
  schema_version = schema.version;
  reserved = replicate 8 0;
  mapping_size = mapping_size;
  schema_fingerprint = schema.fingerprint;
  generation = 1;
  instance_nonce_hi = nonce_hi;
  instance_nonce_lo = nonce_lo;
  creator = creator;
  checksum = 0;
}

unfoldable pub sealed : Header → Header
sealed h = record h { checksum = header_checksum h }
