-- ===== src/Pool/Create.antt =====
-- Setting up a pool (src/edge_runtime/buffer/shared_buffer_pool.cpp). Creating and mapping the object
-- is the system's, and so are the random bytes, which `nonce` stands for.
pub mod Valid
pub mod Fresh
pub mod Usable
use edge_runtime.Common.{
  ◌==◌, if◌then◌else◌, ℕ, zero, suc, ◌+◌, Bool, true, false, not, ◌&&◌, ◌||◌, Option, none, some,
  List, replicate,
}
use edge_runtime.Error.{ErrorCode}
use edge_runtime.Mpmc.Gate.{owner_valid}
use edge_runtime.Mpmc.Header.{endian_mark, Schema}
use edge_runtime.Mpmc.State.{Liveness}
use edge_runtime.Owner.{Owner, no_owner}
use edge_runtime.Pool.Header.{
  pool_magic, pool_abi_major, pool_abi_minor, PoolHeader, pool_header_checksum,
  validate_pool_options,
}
use edge_runtime.Pool.Layout.{pool_header_size, pool_mapping_size_for, block_offset_for}
use edge_runtime.Pool.State.{block_free, Block, PoolMemory, PoolHandle, update_block}
use edge_runtime.Shared.{Result, ok, err}

-- A block after the `memset`
abbrev pub zero_block : ℕ → Block
zero_block block_size = record {
  state = 0;
  block_generation = 0;
  owner = no_owner;
  owner_epoch = 0;
  payload = replicate block_size 0;
}

-- The body of the loop over the blocks
unfoldable pub init_block : Block → Block
init_block b = record b { state = block_free; block_generation = 0; owner_epoch = 0 }

-- The loop, with the blocks left and the next one; `none` is an offset that overflows.
unfoldable pub init_blocks : ℕ → ℕ → ℕ → ℕ → (ℕ → Block) → Option (ℕ → Block)
init_blocks zero block_id block_size block_count blocks = some blocks
init_blocks (suc n) block_id block_size block_count blocks =
    elim (block_offset_for block_size block_id block_count) [
      | none ↦ none
      | some o ↦
          init_blocks n (block_id + 1) block_size block_count
            (update_block (o.0) (init_block (blocks (o.0))) blocks)
    ]

-- The header before its checksum
unfoldable pub blank_pool_header : ℕ → ℕ → Schema → ℕ → ℕ × ℕ → Owner → PoolHeader
blank_pool_header block_size block_count schema mapping_size nonce creator = record {
  magic = pool_magic;
  abi_major = pool_abi_major;
  abi_minor = pool_abi_minor;
  endian_marker = endian_mark;
  size_field = pool_header_size;
  block_size = block_size;
  block_count = block_count;
  padding = replicate 4 0;
  mapping_size = mapping_size;
  generation = 1;
  instance_nonce_hi = nonce.0;
  instance_nonce_lo = nonce.1;
  schema = schema;
  checksum = 0;
  creator = creator;
  tail = replicate 48 0;
}

unfoldable pub sealed_pool : PoolHeader → PoolHeader
sealed_pool h = record h { checksum = pool_header_checksum h }

-- The memory that operations see of a header and its blocks
abbrev pub pool_memory : PoolHeader → ℕ → (ℕ → ℕ → Liveness) → (ℕ → Block) → PoolMemory
pool_memory h init processes blocks = record {
  init_state = init;
  block_size = h.block_size;
  block_count = h.block_count;
  generation = h.generation;
  instance_nonce_hi = h.instance_nonce_hi;
  instance_nonce_lo = h.instance_nonce_lo;
  schema = h.schema;
  creator = h.creator;
  blocks = blocks;
  processes = processes;
}

-- Whether the identity and the nonce are refused
unfoldable pub identity_or_nonce_missing : Owner → Option (ℕ × ℕ) → Bool
identity_or_nonce_missing self none = true
identity_or_nonce_missing self (some nonce) =
    not (owner_valid self) || (nonce.0 == 0 && nonce.1 == 0)

abbrev pub nonce_or_zero : Option (ℕ × ℕ) → ℕ × ℕ
nonce_or_zero none = (0, 0)
nonce_or_zero (some nonce) = nonce

-- The new pool's handle, header and blocks for the process `self`; `nonce` are the random bytes, if
-- there are any.
unfoldable pub create_pool :
    List ℕ
    → Owner
    → Option (ℕ × ℕ)
    → ℕ
    → ℕ
    → Schema
    → Result (PoolHandle × PoolHeader × (ℕ → Block))
create_pool name self nonce block_size block_count schema =
    elim (validate_pool_options name block_size block_count schema) [
      | err e ↦ err e
      | ok _ ↦ elim (pool_mapping_size_for block_size block_count) [
        | none ↦ err ErrorCode.invalid_options
        | some mapping_size ↦
            if identity_or_nonce_missing self nonce
            then err ErrorCode.system_error
            else elim (init_blocks block_count 0 block_size block_count
                (λ offset. zero_block block_size)) [
                  | none ↦ err ErrorCode.invalid_options
                  | some blocks ↦ ok (
                    record { self = self; object_size = mapping_size; removed = false },
                    sealed_pool (
                        blank_pool_header block_size block_count schema mapping_size
                          (nonce_or_zero nonce) self),
                    blocks,
                  )
                ]
      ]
    ]
