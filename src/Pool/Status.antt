-- ===== src/Pool/Status.antt =====
-- The status report of a pool (src/edge_runtime/buffer/shared_buffer_pool.cpp), without the words of
-- the header that are copied as they are.
pub mod Counts
pub mod Tally
use edge_runtime.Common.{
  ◌==◌, if◌then◌else◌, ℕ, zero, suc, ◌+◌, Bool, true, false, not, ◌||◌, Option, none, some,
}
use edge_runtime.Error.{ErrorCode}
use edge_runtime.Mpmc.Gate.{owner_valid, is_alive}
use edge_runtime.Owner.{Owner, SnapshotKind, OwnerSnapshot}
use edge_runtime.Pool.Blocks.{snapshot_block_owner, block_at, validate_live_pool, other_boot}
use edge_runtime.Pool.State.{
  block_free, block_writing_claiming, block_writing, block_published, block_reading_claiming,
  block_reading, block_epoch_exhausted, block_owner_protocol_fault, PoolMemory, PoolHandle,
  block_cell,
}
use edge_runtime.Shared.{Action, pure, fail, ◌>>=◌, ◌>>◌, read, shared_load}

pub record BlockCounts : Type 0 where
  pub free_blocks : ℕ
  pub writing_blocks : ℕ
  pub published_blocks : ℕ
  pub reading_blocks : ℕ
  pub recovery_blocked_blocks : ℕ

pub record PoolStatus : Type 0 where
  pub block_size : ℕ
  pub block_count : ℕ
  pub generation : ℕ
  pub creator_pid : ℕ
  pub creator_alive : Bool
  pub counts : BlockCounts

abbrev pub no_blocks : BlockCounts
no_blocks = record {
  free_blocks = 0;
  writing_blocks = 0;
  published_blocks = 0;
  reading_blocks = 0;
  recovery_blocked_blocks = 0;
}

-- A stable owner's block; `none` is a state that a stable owner cannot have.
unfoldable pub count_owned : ℕ → BlockCounts → Option BlockCounts
count_owned state c =
    if state == block_writing
    then some (record c { writing_blocks = c.writing_blocks + 1 })
    else if state == block_reading
    then some (record c { reading_blocks = c.reading_blocks + 1 })
    else none

-- Whether a stable owner can still be expected to go on
unfoldable pub owner_alive : PoolHandle → Owner → Action PoolMemory Bool
owner_alive h o = if other_boot h o then pure false else do
  liveness ← shared_load (λ m. m.processes o.pid o.proc_start_ticks)
  pure (is_alive liveness)

unfoldable pub count_recovery : Bool → BlockCounts → BlockCounts
count_recovery true c = c
count_recovery false c = record c { recovery_blocked_blocks = c.recovery_blocked_blocks + 1 }

unfoldable pub count_stable :
    PoolHandle → Owner → Option BlockCounts → Action PoolMemory BlockCounts
count_stable h o none = fail ErrorCode.corrupt_slot
count_stable h o (some c) = do lives ← owner_alive h o; pure (count_recovery lives c)

unfoldable pub count_observed :
    SnapshotKind → PoolHandle → OwnerSnapshot → BlockCounts → Action PoolMemory BlockCounts
count_observed SnapshotKind.stable h o c = count_stable h o.owner (count_owned o.state c)
count_observed SnapshotKind.inactive h o c = fail ErrorCode.buffer_pool_contention
count_observed SnapshotKind.claiming h o c = fail ErrorCode.buffer_pool_contention
count_observed SnapshotKind.unstable h o c = fail ErrorCode.buffer_pool_contention
count_observed SnapshotKind.corrupt h o c = fail ErrorCode.recovery_blocked
count_observed SnapshotKind.epoch_exhausted h o c = fail ErrorCode.recovery_blocked

unfoldable pub count_active : PoolHandle → ℕ → BlockCounts → Action PoolMemory BlockCounts
count_active h offset c = do
  observation ← snapshot_block_owner offset
  count_observed observation.kind h observation c

unfoldable pub count_block : PoolHandle → ℕ → ℕ → BlockCounts → Action PoolMemory BlockCounts
count_block h offset state c =
    if state == block_free
    then pure (record c { free_blocks = c.free_blocks + 1 })
    else if state == block_published
    then pure (record c { published_blocks = c.published_blocks + 1 })
    else if state == block_writing || state == block_reading
    then count_active h offset c
    else if state == block_writing_claiming || state == block_reading_claiming
    then fail ErrorCode.buffer_pool_contention
    else if state == block_epoch_exhausted || state == block_owner_protocol_fault
    then fail ErrorCode.recovery_blocked
    else fail ErrorCode.corrupt_slot

unfoldable pub count_at : PoolHandle → BlockCounts → Option ℕ → Action PoolMemory BlockCounts
count_at h c none = fail ErrorCode.corrupt_slot
count_at h c (some offset) = do
  state ← shared_load (block_cell offset).state
  count_block h offset state c

-- The loop, with the blocks left and the next block
unfoldable pub count_from : ℕ → ℕ → PoolHandle → BlockCounts → Action PoolMemory BlockCounts
count_from zero block_id h c = pure c
count_from (suc n) block_id h c =
    let rest = count_from n (block_id + 1) h in
    do offset ← block_at h block_id; counted ← count_at h c offset; rest counted

-- Whether the creator still runs; its liveness is asked for only if it is of this boot.
unfoldable pub creator_alive : PoolHandle → Owner → Action PoolMemory Bool
creator_alive h creator = if not (owner_valid creator) then pure false else owner_alive h creator

unfoldable pub pool_status : PoolHandle → Action PoolMemory PoolStatus
pool_status h = do
  validate_live_pool h
  m ← read (λ m. m)
  lives ← creator_alive h m.creator
  counts ← count_from m.block_count 0 h no_blocks
  pure (record {
    block_size = m.block_size;
    block_count = m.block_count;
    generation = m.generation;
    creator_pid = m.creator.pid;
    creator_alive = lives;
    counts = counts;
  })
