-- ===== src/Pool/Header.antt =====
-- The options and the header of a pool, and opening one whose object is mapped
-- (src/edge_runtime/buffer/shared_buffer_pool.cpp, shared_buffer_pool_layout.hpp).
use edge_runtime.Common.{
  ltb, ◌==◌, if◌then◌else◌, length, ℕ, Bool, false, not, ◌&&◌, ◌||◌, none, some, List, [], ◌∷◌,
  ◌++◌,
}
use edge_runtime.Checksum.{fnv1a64}
use edge_runtime.Error.{ErrorCode}
use edge_runtime.Mpmc.Gate.{owner_valid}
use edge_runtime.Mpmc.Header.{endian_mark, Schema, le_bytes, same_bytes}
use edge_runtime.Names.{validate_channel_name, shm_prefix}
use edge_runtime.Owner.{Owner}
use edge_runtime.Pool.Blocks.{schema_matches}
use edge_runtime.Pool.Layout.{
  max_block_count, pool_header_size, block_size_valid, pool_mapping_size_for,
}
use edge_runtime.Pool.State.{pool_ready, PoolHandle}
use edge_runtime.Shared.{Result, ok, err}

-- "ERBPOOL2"
abbrev pub pool_magic : List ℕ
pool_magic = 69 ∷ 82 ∷ 66 ∷ 80 ∷ 79 ∷ 79 ∷ 76 ∷ 50 ∷ []

-- "ERBPOOL1"
abbrev pub pool_legacy_magic : List ℕ
pool_legacy_magic = 69 ∷ 82 ∷ 66 ∷ 80 ∷ 79 ∷ 79 ∷ 76 ∷ 49 ∷ []

abbrev pub pool_abi_major : ℕ
pool_abi_major = 2

abbrev pub pool_abi_minor : ℕ
pool_abi_minor = 0

-- kSharedBufferPoolMaxNameLength
abbrev pub max_pool_name_length : ℕ
max_pool_name_length = 64

-- SharedBufferPoolHeaderAbi without the state word
pub record PoolHeader : Type 0 where
  pub magic : List ℕ
  pub abi_major : ℕ
  pub abi_minor : ℕ
  pub endian_marker : ℕ
  pub size_field : ℕ
  pub block_size : ℕ
  pub block_count : ℕ
  -- The padding before `mapping_size`
  pub padding : List ℕ
  pub mapping_size : ℕ
  pub generation : ℕ
  pub instance_nonce_hi : ℕ
  pub instance_nonce_lo : ℕ
  pub schema : Schema
  pub checksum : ℕ
  pub creator : Owner
  -- `reserved` and the padding after it
  pub tail : List ℕ

-- The bytes of the header on a little-endian machine, with zeros for the state and the checksum
unfoldable pub checked_bytes : PoolHeader → List ℕ
checked_bytes h =
    h.magic
    ++ le_bytes 2 h.abi_major
    ++ le_bytes 2 h.abi_minor
    ++ le_bytes 4 h.endian_marker
    ++ le_bytes 4 h.size_field
    ++ le_bytes 4 h.block_size
    ++ le_bytes 4 h.block_count
    ++ h.padding
    ++ le_bytes 8 h.mapping_size
    ++ le_bytes 8 h.generation
    ++ le_bytes 8 h.instance_nonce_hi
    ++ le_bytes 8 h.instance_nonce_lo
    ++ h.schema.fingerprint
    ++ le_bytes 4 h.schema.version
    ++ le_bytes 4 0
    ++ le_bytes 8 0
    ++ le_bytes 8 h.creator.pid
    ++ le_bytes 8 h.creator.proc_start_ticks
    ++ le_bytes 8 h.creator.boot_id_hash_hi
    ++ le_bytes 8 h.creator.boot_id_hash_lo
    ++ h.tail

unfoldable pub pool_header_checksum : PoolHeader → ℕ
pool_header_checksum h = fnv1a64 (checked_bytes h)

unfoldable pub pool_shm_name : List ℕ → List ℕ → List ℕ
pool_shm_name uid pool_name =
    shm_prefix
    ++ 98 ∷ 117 ∷ 102 ∷ 102 ∷ 101 ∷ 114 ∷ 112 ∷ 111 ∷ 111 ∷ 108 ∷ 46 ∷ uid
    ++ 46 ∷ pool_name

unfoldable pub validate_pool_options : List ℕ → ℕ → ℕ → Schema → Result (Unit {0})
validate_pool_options name block_size block_count schema =
    if not (validate_channel_name name) || ltb max_pool_name_length (length name)
    then err ErrorCode.invalid_name
    else if not (block_size_valid block_size)
        || block_count == 0
        || ltb max_block_count block_count
        || schema.version == 0
    then err ErrorCode.invalid_options
    else ok tt

-- Whether the computed size is the one of the header and of the object
unfoldable pub pool_size_fits : PoolHeader → ℕ → Bool
pool_size_fits h actual_size = elim (pool_mapping_size_for h.block_size h.block_count) [
  | none ↦ false
  | some expected_size ↦ expected_size == h.mapping_size && actual_size == h.mapping_size
]

unfoldable pub header_values_invalid : PoolHeader → Bool
header_values_invalid h =
    not (block_size_valid h.block_size)
    || h.block_count == 0
    || ltb max_block_count h.block_count
    || h.generation == 0
    || (h.instance_nonce_hi == 0 && h.instance_nonce_lo == 0)
    || h.schema.version == 0
    || not (owner_valid h.creator)

-- `validate_header` with the size of the object, the state word and the caller's options
unfoldable pub validate_pool_header : PoolHeader → ℕ → ℕ → ℕ → ℕ → Schema → Result (Unit {0})
validate_pool_header h actual_size init block_size block_count schema =
    if same_bytes h.magic pool_legacy_magic
    then err ErrorCode.abi_mismatch
    else if not (same_bytes h.magic pool_magic)
    then err ErrorCode.corrupt_header
    else if not (h.abi_major == pool_abi_major) || ltb pool_abi_minor h.abi_minor
    then err ErrorCode.abi_mismatch
    else if not (h.size_field == pool_header_size) || not (h.endian_marker == endian_mark)
    then err ErrorCode.corrupt_header
    else if header_values_invalid h
    then err ErrorCode.corrupt_header
    else if not (pool_size_fits h actual_size)
    then err ErrorCode.corrupt_header
    else if not (init == pool_ready)
    then err ErrorCode.initialization_incomplete
    else if not (h.checksum == pool_header_checksum h)
    then err ErrorCode.corrupt_header
    else if not (h.block_size == block_size) || not (h.block_count == block_count)
    then err ErrorCode.invalid_options
    else if not (schema_matches h.schema schema)
    then err ErrorCode.schema_mismatch
    else ok tt

-- `open_existing` once the object is mapped; nobody writes the state word meanwhile.
unfoldable pub open_existing_pool : Owner → PoolHeader → ℕ → ℕ → ℕ → ℕ → Schema → Result PoolHandle
open_existing_pool self h size init block_size block_count schema =
    if ltb size pool_header_size
    then err ErrorCode.initialization_incomplete
    else if not (init == pool_ready)
    then err ErrorCode.initialization_incomplete
    else elim (validate_pool_header h size init block_size block_count schema) [
      | err e ↦ err e
      | ok _ ↦ ok (record { self = self; object_size = size; removed = false })
    ]
