-- ===== src/Pool/Remove.antt =====
-- Removing a pool by its creator (src/edge_runtime/buffer/shared_buffer_pool.cpp). Unlinking the name
-- of the object is the system's, and a parameter.
pub mod Idle
use edge_runtime.Common.{◌==◌, if◌then◌else◌, ℕ, zero, suc, ◌+◌, true, not, Option, none, some}
use edge_runtime.Error.{ErrorCode}
use edge_runtime.Mpmc.Gate.{owner_matches}
use edge_runtime.Owner.{SnapshotKind}
use edge_runtime.Pool.Blocks.{snapshot_block_owner, block_at, validate_live_pool}
use edge_runtime.Pool.State.{block_free, block_published, PoolMemory, PoolHandle, block_cell}
use edge_runtime.Shared.{Action, pure, fail, ◌>>=◌, ◌>>◌, require, read, shared_load}

abbrev pub UnlinkPool : Type 0
UnlinkPool = Action PoolMemory (Unit {0})

-- The code for a block that somebody may still use
unfoldable pub active_block_code : SnapshotKind → ErrorCode
active_block_code SnapshotKind.corrupt = ErrorCode.recovery_blocked
active_block_code SnapshotKind.epoch_exhausted = ErrorCode.recovery_blocked
active_block_code _ = ErrorCode.buffer_pool_contention

unfoldable pub refuse_active : ℕ → Action PoolMemory (Unit {0})
refuse_active offset = do
  observation ← snapshot_block_owner offset
  fail (active_block_code observation.kind)

unfoldable pub require_free : Option ℕ → Action PoolMemory (Unit {0})
require_free none = fail ErrorCode.corrupt_slot
require_free (some offset) = do
  state ← shared_load (block_cell offset).state
  if state == block_free
      then pure tt
      else if state == block_published
      then fail ErrorCode.buffer_pool_contention
      else refuse_active offset

-- The loop, with the blocks left and the next block
unfoldable pub require_all_free : ℕ → ℕ → PoolHandle → Action PoolMemory (Unit {0})
require_all_free zero block_id h = pure tt
require_all_free (suc n) block_id h =
    let rest = require_all_free n (block_id + 1) h in
    do offset ← block_at h block_id; require_free offset; rest

-- `shared_buffer_pool_remove_if_creator_impl`, with the handle that it leaves
unfoldable pub remove_pool_if_creator : UnlinkPool → PoolHandle → Action PoolMemory PoolHandle
remove_pool_if_creator unlink h = do
  validate_live_pool h
  creator ← read (λ m. m.creator)
  require (owner_matches creator h.self) ErrorCode.permission_denied
  block_count ← read (λ m. m.block_count)
  require_all_free block_count 0 h
  unlink
  pure (record h { removed = true })

-- The getters of a pool
unfoldable pub block_size_of : PoolHandle → PoolMemory → ℕ
block_size_of h m = if not h.removed then m.block_size else 0

unfoldable pub block_count_of : PoolHandle → PoolMemory → ℕ
block_count_of h m = if not h.removed then m.block_count else 0

unfoldable pub pool_generation_of : PoolHandle → PoolMemory → ℕ
pool_generation_of h m = if not h.removed then m.generation else 0
