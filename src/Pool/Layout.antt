-- ===== src/Pool/Layout.antt =====
-- Sizes and offsets in a pool's mapping (src/edge_runtime/buffer/shared_buffer_pool_layout.hpp).
pub mod Regions
use edge_runtime.Common.{ltb, leb, ◌==◌, if◌then◌else◌, ℕ, ◌+◌, Bool, not, ◌||◌, Option, none, some}
use edge_runtime.CheckedMath.{checked_add, checked_mul, round_up_to_multiple}

abbrev pub max_block_count : ℕ
max_block_count = 4096

-- kSharedBufferPoolBlockSize4K and 16K
abbrev pub block_size_4k : ℕ
block_size_4k = 4096

abbrev pub block_size_16k : ℕ
block_size_16k = 16384

-- sizeof(SharedBufferPoolHeaderAbi)
abbrev pub pool_header_size : ℕ
pool_header_size = 192

-- sizeof(SharedBufferBlockHeaderAbi)
abbrev pub block_header_size : ℕ
block_header_size = 64

unfoldable pub block_size_valid : ℕ → Bool
block_size_valid block_size = block_size == block_size_4k || block_size == block_size_16k

unfoldable pub stride_for : ℕ → Option ℕ
stride_for block_size =
    if not (block_size_valid block_size)
    then none
    else round_up_to_multiple (block_header_size + block_size) 64

unfoldable pub pool_mapping_size_for : ℕ → ℕ → Option ℕ
pool_mapping_size_for block_size block_count =
    if block_count == 0 || ltb max_block_count block_count
    then none
    else elim (stride_for block_size) [
      | none ↦ none
      | some stride ↦ elim (checked_mul stride block_count) [
        | none ↦ none
        | some blocks_size ↦ checked_add pool_header_size blocks_size
      ]
    ]

-- The offsets of the block and of its payload
unfoldable pub block_offset_for : ℕ → ℕ → ℕ → Option (ℕ × ℕ)
block_offset_for block_size block_id block_count =
    if leb block_count block_id then none else elim (pool_mapping_size_for block_size block_count) [
      | none ↦ none
      | some mapping_size ↦ elim (stride_for block_size) [
        | none ↦ none
        | some stride ↦ elim (checked_mul stride block_id) [
          | none ↦ none
          | some index_offset ↦ elim (checked_add pool_header_size index_offset) [
            | none ↦ none
            | some block_offset ↦ elim (checked_add block_offset block_header_size) [
              | none ↦ none
              | some payload_offset ↦ some (block_offset, payload_offset)
            ]
          ]
        ]
      ]
    ]
