-- ===== src/Pool/Read.antt =====
-- Acquiring and releasing a read buffer (src/edge_runtime/buffer/shared_buffer_pool.cpp).
pub mod Stale
use edge_runtime.Common.{leb, ◌==◌, if◌then◌else◌, ℕ, true, not, ◌||◌, Option, none, some}
use edge_runtime.Error.{ErrorCode}
use edge_runtime.Owner.{CommitResult, store_owner, begin_owner_commit, owner_epoch_capacity}
use edge_runtime.Pool.Blocks.{
  offsets_of, block_at, payload_at, validate_live_pool, schema_matches, classify_active_block,
}
use edge_runtime.Pool.State.{
  block_free, block_published, block_reading_claiming, block_reading, PoolMemory, PoolHandle,
  BufferHandle, Buffer, block_cell,
}
use edge_runtime.Pool.Write.{give_back}
use edge_runtime.Shared.{
  Action, pure, fail, ◌>>=◌, ◌>>◌, require, read, shared_load, shared_store, shared_cas,
}

-- What is wrong with a descriptor, apart from its block's generation
unfoldable pub descriptor_code : PoolMemory → BufferHandle → Option ErrorCode
descriptor_code m d =
    if not (d.pool_generation == m.generation)
      || not (d.instance_nonce_hi == m.instance_nonce_hi)
      || not (d.instance_nonce_lo == m.instance_nonce_lo)
    then some ErrorCode.buffer_invalid_handle
    else if not (schema_matches d.schema m.schema)
    then some ErrorCode.schema_mismatch
    else if not (d.reserved == 0) || leb m.block_count d.block_id || not (d.length == m.block_size)
    then some ErrorCode.buffer_invalid_handle
    else elim (offsets_of d.block_id m) [
      | none ↦ some ErrorCode.buffer_invalid_handle
      | some o ↦
          if not (d.offset == o.1) || d.block_generation == 0
          then some ErrorCode.buffer_invalid_handle
          else none
    ]

-- The block of the descriptor must have its generation still.
unfoldable pub require_generation : BufferHandle → Option ℕ → Action PoolMemory (Unit {0})
require_generation d none = fail ErrorCode.buffer_invalid_handle
require_generation d (some offset) = do
  block_generation ← shared_load (λ m. (m.blocks offset).block_generation)
  require (block_generation == d.block_generation) ErrorCode.buffer_invalid_handle

-- With what was found wrong, if anything
unfoldable pub require_current :
    PoolHandle → BufferHandle → Option ErrorCode → Action PoolMemory (Unit {0})
require_current h d (some e) = fail e
require_current h d none = do block ← block_at h d.block_id; require_generation d block

unfoldable pub validate_descriptor : PoolHandle → BufferHandle → Action PoolMemory (Unit {0})
validate_descriptor h d = do
  validate_live_pool h
  code ← read (λ m. descriptor_code m d)
  require_current h d code

-- The answer for a block that is not published
unfoldable pub refuse_read : PoolHandle → ℕ → ℕ → Action PoolMemory Buffer
refuse_read h offset state =
    if state == block_free
    then fail ErrorCode.buffer_state_mismatch
    else do code ← classify_active_block h offset; fail code

-- Takes the reading claim back, and then reports `e`.
unfoldable pub roll_back : {A : Type 0} → ℕ → ErrorCode → Action PoolMemory A
roll_back offset e = do
  restored ←
      shared_cas (block_cell offset).state block_reading_claiming
        ((block_cell offset).set_state block_published)
  require restored ErrorCode.recovery_blocked
  fail e

-- The error for an epoch that cannot be committed
unfoldable pub read_commit_code : CommitResult → ErrorCode
read_commit_code CommitResult.epoch_exhausted = ErrorCode.sequence_exhausted
read_commit_code _ = ErrorCode.recovery_blocked

unfoldable pub own_read : PoolHandle → BufferHandle → ℕ → ℕ → Action PoolMemory Buffer
own_read h d offset committed_epoch = do
  store_owner (block_cell offset) h.self
  shared_store ((block_cell offset).set_epoch committed_epoch)
  shared_store ((block_cell offset).set_state block_reading)
  pure (record { pool = h; block = offset; descriptor = d; active = true })

unfoldable pub read_committed :
    PoolHandle → BufferHandle → ℕ → CommitResult → Action PoolMemory Buffer
read_committed h d offset (CommitResult.ready committed_epoch) = own_read h d offset committed_epoch
read_committed h d offset failed = roll_back offset (read_commit_code failed)

unfoldable pub read_capacity :
    PoolHandle → BufferHandle → ℕ → CommitResult → Action PoolMemory Buffer
read_capacity h d offset (CommitResult.ready _) = do
  owner_commit ← begin_owner_commit (block_cell offset) 2
  read_committed h d offset owner_commit
read_capacity h d offset failed = roll_back offset (read_commit_code failed)

-- From the claimed block on
unfoldable pub read_claimed : PoolHandle → BufferHandle → ℕ → Action PoolMemory Buffer
read_claimed h d offset = do
  block_generation ← shared_load (λ m. (m.blocks offset).block_generation)
  if not (block_generation == d.block_generation)
      then roll_back offset ErrorCode.buffer_invalid_handle
      else do
        epoch_capacity ← owner_epoch_capacity (block_cell offset) 2
        read_capacity h d offset epoch_capacity

-- The claim of a published block
unfoldable pub read_published : PoolHandle → BufferHandle → ℕ → Action PoolMemory Buffer
read_published h d offset = do
  block_generation ← shared_load (λ m. (m.blocks offset).block_generation)
  require (block_generation == d.block_generation) ErrorCode.buffer_invalid_handle
  claimed ←
      shared_cas (block_cell offset).state block_published
        ((block_cell offset).set_state block_reading_claiming)
  require claimed ErrorCode.buffer_pool_contention
  read_claimed h d offset

unfoldable pub read_block : PoolHandle → BufferHandle → ℕ → Action PoolMemory Buffer
read_block h d offset = do
  state ← shared_load (block_cell offset).state
  if not (state == block_published) then refuse_read h offset state else read_published h d offset

unfoldable pub read_at : PoolHandle → BufferHandle → Option ℕ → Option ℕ → Action PoolMemory Buffer
read_at h d (some offset) (some payload) = read_block h d offset
read_at h d _ _ = fail ErrorCode.corrupt_slot

unfoldable pub acquire_read : PoolHandle → BufferHandle → Action PoolMemory Buffer
acquire_read h d = do
  validate_descriptor h d
  block ← block_at h d.block_id
  payload ← payload_at h d.block_id
  read_at h d block payload

-- `release_read_impl`
unfoldable pub release_read : Buffer → Action PoolMemory Buffer
release_read = give_back block_reading
