-- ===== src/Pool/Write.antt =====
-- Acquiring, publishing and aborting a write buffer (src/edge_runtime/buffer/shared_buffer_pool.cpp).
pub mod Acquire
use edge_runtime.Common.{
  ◌==◌, if◌then◌else◌, u64_max, ℕ, zero, suc, ◌+◌, Bool, true, false, not, ◌&&◌, Option, none, some,
}
use edge_runtime.Error.{ErrorCode}
use edge_runtime.Mpmc.Gate.{owner_matches, is_stable}
use edge_runtime.Owner.{
  SnapshotKind, OwnerSnapshot, CommitResult, store_owner, begin_owner_commit, owner_epoch_capacity,
}
use edge_runtime.Pool.Blocks.{
  snapshot_block_owner, block_at, payload_at, make_handle, validate_live_pool,
  classify_active_block,
}
use edge_runtime.Pool.State.{
  block_free, block_writing_claiming, block_writing, block_published, block_epoch_exhausted,
  block_owner_protocol_fault, PoolMemory, PoolHandle, BufferHandle, Buffer, set_block, block_cell,
}
use edge_runtime.Shared.{
  Action, pure, fail, ◌>>=◌, ◌>>◌, require, read, shared_load, shared_store, shared_cas,
}

-- What the search saw of the blocks that it passed by
pub record Seen : Type 0 where
  pub contention : Bool
  pub recovery : Bool
  pub exhausted : Bool

abbrev pub nothing_seen : Seen
nothing_seen = record { contention = false; recovery = false; exhausted = false }

-- The end of a round: the function returns, or `continue`s.
pub data Round : Type 0 where
  acquired : Buffer → Round
  passed_by : Seen → Round

unfoldable pub after_busy : ErrorCode → Seen → Seen
after_busy ErrorCode.recovery_blocked s = record s { recovery = true }
after_busy ErrorCode.buffer_pool_contention s = record s { contention = true }
after_busy ErrorCode.concurrent_handle_use s = record s { contention = true }
after_busy _ s = s

-- A block that is neither free nor published
unfoldable pub pass_busy : PoolHandle → ℕ → ℕ → Seen → Action PoolMemory Round
pass_busy h offset state s =
    if state == block_epoch_exhausted
    then pure (passed_by (record s { exhausted = true }))
    else do busy ← classify_active_block h offset; pure (passed_by (after_busy busy s))

unfoldable pub block_terminal : CommitResult → ℕ
block_terminal CommitResult.epoch_exhausted = block_epoch_exhausted
block_terminal _ = block_owner_protocol_fault

unfoldable pub after_failed : CommitResult → Seen → Seen
after_failed CommitResult.epoch_exhausted s = record s { exhausted = true }
after_failed _ s = record s { recovery = true }

-- A claimed block whose epoch cannot be committed is taken out of use.
unfoldable pub retire_block : ℕ → CommitResult → Seen → Action PoolMemory Round
retire_block offset failed s = do
  shared_store ((block_cell offset).set_state (block_terminal failed))
  pure (passed_by (after_failed failed s))

unfoldable pub hand_out_write : PoolHandle → ℕ → ℕ → Option ℕ → Action PoolMemory Round
hand_out_write h block_id offset none = do
  shared_store ((block_cell offset).set_state block_free)
  fail ErrorCode.corrupt_slot
hand_out_write h block_id offset (some payload) = do
  descriptor ← make_handle block_id offset
  pure (acquired (record { pool = h; block = offset; descriptor = descriptor; active = true }))

-- The new generation, the owner and the state of the block. The generation is not the last one, so
-- that it does not wrap around.
unfoldable pub own_write : PoolHandle → ℕ → ℕ → ℕ → ℕ → Action PoolMemory Round
own_write h block_id offset previous_generation committed_epoch = do
  shared_store (λ m.
      set_block offset (record (m.blocks offset) { block_generation = previous_generation + 1 }) m)
  store_owner (block_cell offset) h.self
  shared_store ((block_cell offset).set_epoch committed_epoch)
  shared_store ((block_cell offset).set_state block_writing)
  payload ← payload_at h block_id
  hand_out_write h block_id offset payload

unfoldable pub write_committed :
    PoolHandle → ℕ → ℕ → ℕ → Seen → CommitResult → Action PoolMemory Round
write_committed h block_id offset previous_generation s (CommitResult.ready committed_epoch) =
    own_write h block_id offset previous_generation committed_epoch
write_committed h block_id offset previous_generation s failed = retire_block offset failed s

unfoldable pub write_capacity :
    PoolHandle → ℕ → ℕ → ℕ → Seen → CommitResult → Action PoolMemory Round
write_capacity h block_id offset previous_generation s (CommitResult.ready _) = do
  owner_commit ← begin_owner_commit (block_cell offset) 4
  write_committed h block_id offset previous_generation s owner_commit
write_capacity h block_id offset previous_generation s failed = retire_block offset failed s

-- A block that has had its last generation is given back.
unfoldable pub pass_worn_out : ℕ → Seen → Action PoolMemory Round
pass_worn_out offset s = do
  shared_store ((block_cell offset).set_state block_free)
  pure (passed_by (record s { exhausted = true }))

-- From the claimed block on
unfoldable pub write_claimed : PoolHandle → ℕ → ℕ → Seen → Action PoolMemory Round
write_claimed h block_id offset s = do
  previous_generation ← shared_load (λ m. (m.blocks offset).block_generation)
  if previous_generation == u64_max then pass_worn_out offset s else do
    epoch_capacity ← owner_epoch_capacity (block_cell offset) 4
    write_capacity h block_id offset previous_generation s epoch_capacity

-- The body of the loop, for the block at an offset
unfoldable pub write_round : PoolHandle → ℕ → ℕ → Seen → Action PoolMemory Round
write_round h block_id offset s = do
  state ← shared_load (block_cell offset).state
  if state == block_published
      then pure (passed_by s)
      else if not (state == block_free)
      then pass_busy h offset state s
      else do
        claimed ←
            shared_cas (block_cell offset).state block_free
              ((block_cell offset).set_state block_writing_claiming)
        if not claimed
            then pure (passed_by (record s { contention = true }))
            else write_claimed h block_id offset s

unfoldable pub write_refusal : Seen → ErrorCode
write_refusal s =
    if s.recovery
    then ErrorCode.recovery_blocked
    else if s.exhausted
    then ErrorCode.sequence_exhausted
    else if s.contention
    then ErrorCode.buffer_pool_contention
    else ErrorCode.buffer_pool_full

-- One step of the loop; `rest` are the further blocks.
unfoldable pub write_at :
    PoolHandle → ℕ → Seen → (Seen → Action PoolMemory Buffer) → Option ℕ → Action PoolMemory Buffer
write_at h block_id s rest none = fail ErrorCode.corrupt_slot
write_at h block_id s rest (some offset) = do
  round ← write_round h block_id offset s
  elim round [ acquired b ↦ pure b | passed_by s' ↦ rest s' ]

-- The loop, with the blocks left and the next block
unfoldable pub acquire_from : ℕ → ℕ → PoolHandle → Seen → Action PoolMemory Buffer
acquire_from zero block_id h s = fail (write_refusal s)
acquire_from (suc n) block_id h s =
    let rest = acquire_from n (block_id + 1) h in
    do offset ← block_at h block_id; write_at h block_id s rest offset

unfoldable pub try_acquire_write : PoolHandle → Action PoolMemory Buffer
try_acquire_write h = do
  validate_live_pool h
  block_count ← read (λ m. m.block_count)
  acquire_from block_count 0 h nothing_seen

-- The buffer after `publish`, `abort` or `release`
abbrev pub closed : Buffer → Buffer
closed b = record b { active = false }

-- The refusal for a snapshot that is not a stable one
unfoldable pub require_stable : SnapshotKind → Action PoolMemory (Unit {0})
require_stable SnapshotKind.stable = pure tt
require_stable SnapshotKind.claiming = fail ErrorCode.buffer_pool_contention
require_stable SnapshotKind.unstable = fail ErrorCode.buffer_pool_contention
require_stable _ = fail ErrorCode.recovery_blocked

-- The descriptor that is handed on, and the buffer that is left
unfoldable pub publish_write : Buffer → Action PoolMemory (BufferHandle × Buffer)
publish_write b = do
  require b.active ErrorCode.invalid_options
  validate_live_pool b.pool
  state ← shared_load (block_cell b.block).state
  require (state == block_writing) ErrorCode.buffer_state_mismatch
  observation ← snapshot_block_owner b.block
  require_stable observation.kind
  require (owner_matches observation.owner b.pool.self) ErrorCode.recovery_blocked
  block_generation ← shared_load (λ m. (m.blocks b.block).block_generation)
  require (block_generation == b.descriptor.block_generation) ErrorCode.buffer_invalid_handle
  shared_store ((block_cell b.block).set_state block_published)
  pure (b.descriptor, closed b)

-- Frees the buffer's block, if it is still in this state and this buffer's.
unfoldable pub free_if_owned : ℕ → Buffer → OwnerSnapshot → Action PoolMemory (Unit {0})
free_if_owned state b observation =
    if not (
      is_stable observation.kind
      && observation.state == state
      && owner_matches observation.owner b.pool.self)
    then pure tt
    else do
      block_generation ← shared_load (λ m. (m.blocks b.block).block_generation)
      if not (block_generation == b.descriptor.block_generation)
          then pure tt
          else shared_store ((block_cell b.block).set_state block_free)

unfoldable pub give_back : ℕ → Buffer → Action PoolMemory Buffer
give_back state b = if not b.active then pure b else if b.pool.removed then pure (closed b) else do
  observation ← snapshot_block_owner b.block
  free_if_owned state b observation
  pure (closed b)

-- `abort_write_impl`
unfoldable pub abort_write : Buffer → Action PoolMemory Buffer
abort_write = give_back block_writing
