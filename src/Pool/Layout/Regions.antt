-- ===== src/Pool/Layout/Regions.antt =====
-- Where the blocks of a pool lie in its mapping
-- (src/edge_runtime/buffer/shared_buffer_pool_layout.hpp).
use edge_runtime.Common.{ℕ, ◌+◌, ◌*◌, ◌%◌, ◌≤◌, ◌<◌, ◌≡◌, ◌≢◌, ◌⊎◌, some, arith}
use edge_runtime.CheckedMath.{round_up_to_multiple}
use edge_runtime.CheckedMath.Bounds.{checked_add-eq, checked_mul-eq}
use edge_runtime.Pool.Layout.{
  max_block_count, block_size_4k, block_size_16k, pool_header_size, block_header_size,
  block_size_valid, stride_for, pool_mapping_size_for, block_offset_for,
}
use native.Mathlib.Nat.{mul-le-mul_left, mul-le-mul}

-- A pool's shape as its header carries it
pub record IsPoolShape (block_size block_count : ℕ) : Type 0 where
  pub two_sizes : (block_size ≡ block_size_4k) ⊎ (block_size ≡ block_size_16k)
  pub some_blocks : 0 < block_count
  pub few_blocks : block_count ≤ max_block_count

-- Where a block begins
abbrev pub block_start : ℕ → ℕ → ℕ
block_start block_size block_id = pool_header_size + (block_header_size + block_size) * block_id

stride_for-eq :
    (block_size block_count : ℕ)
    → IsPoolShape block_size block_count
    → stride_for block_size ≡ some (block_header_size + block_size)
unfolding stride_for block_size_valid round_up_to_multiple
stride_for-eq block_size block_count s = ground (arith, s.two_sizes)

blocks-le :
    {block_size block_count : ℕ} (i : ℕ)
    → IsPoolShape block_size block_count
    → i ≤ block_count
    → (block_header_size + block_size) * i ≤ 16448 * 4096
blocks-le {block_size} {block_count} i s h =
    mul-le-mul {n₁ = block_header_size + block_size} {m₁ = i} {n₂ = 16448} {m₂ = 4096}
      (ground (arith, s.two_sizes)) (omega (arith, s.few_blocks))

pub pool_mapping_size_for-eq :
    (block_size block_count : ℕ)
    → IsPoolShape block_size block_count
    → pool_mapping_size_for block_size block_count ≡ some (block_start block_size block_count)
unfolding pool_mapping_size_for
pool_mapping_size_for-eq block_size block_count s = ground (
  arith,
  stride_for-eq block_size block_count s,
  checked_mul-eq (block_header_size + block_size) block_count,
  checked_add-eq pool_header_size ((block_header_size + block_size) * block_count),
  blocks-le block_count s,
  s.some_blocks,
  s.few_blocks,
)

pub block_offset_for-eq :
    (block_size block_id block_count : ℕ)
    → IsPoolShape block_size block_count
    → block_id < block_count
    → block_offset_for block_size block_id block_count
      ≡ some (block_start block_size block_id, block_start block_size block_id + block_header_size)
unfolding block_offset_for
block_offset_for-eq block_size block_id block_count s h = ground (
  arith,
  pool_mapping_size_for-eq block_size block_count s,
  stride_for-eq block_size block_count s,
  checked_mul-eq (block_header_size + block_size) block_id,
  checked_add-eq pool_header_size ((block_header_size + block_size) * block_id),
  checked_add-eq (block_start block_size block_id) block_header_size,
  blocks-le block_id s,
)

block_offset_for-lt :
    (block_size block_id block_count : ℕ) {o : ℕ × ℕ}
    → block_offset_for block_size block_id block_count ≡ some o
    → block_id < block_count
unfolding block_offset_for
block_offset_for-lt block_size block_id block_count e = ground arith

pub block_room :
    (block_size i j : ℕ)
    → i < j
    → block_start block_size i + block_header_size + block_size ≤ block_start block_size j
block_room block_size i j h = omega (arith, mul-le-mul_left (block_header_size + block_size) h)

-- Every block is 64-byte aligned, has its payload right behind its header, and lies inside the
-- mapping; of two blocks that are not the same, one ends before the other begins.
pub blocks_apart :
    (block_size i j block_count size : ℕ) (p q : ℕ × ℕ)
    → IsPoolShape block_size block_count
    → pool_mapping_size_for block_size block_count ≡ some size
    → block_offset_for block_size i block_count ≡ some p
    → block_offset_for block_size j block_count ≡ some q
    → (p.0 % 64 ≡ 0)
      × (p.1 ≡ p.0 + block_header_size)
      × (p.1 + block_size ≤ size)
      × ((i ≡ j) ⊎ (p.1 + block_size ≤ q.0) ⊎ (q.1 + block_size ≤ p.0))
blocks_apart block_size i j block_count size p q s e f g =
    let a = block_offset_for-lt block_size i block_count f in
    let b = block_offset_for-lt block_size j block_count g in
    ground (
      arith,
      s.two_sizes,
      pool_mapping_size_for-eq block_size block_count s,
      block_offset_for-eq block_size i block_count s a,
      block_offset_for-eq block_size j block_count s b,
      block_room block_size i j,
      block_room block_size j i,
      block_room block_size i block_count a,
    )

pub block_start-ne :
    (block_size i j : ℕ) → i ≢ j → block_start block_size i ≢ block_start block_size j
block_start-ne block_size i j n e =
    ground (arith, block_room block_size i j, block_room block_size j i)
