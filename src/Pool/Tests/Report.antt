-- ===== src/Pool/Tests/Report.antt =====
-- The theorem on the status report at a pool of two blocks (src/edge_runtime/buffer/).
use edge_runtime.Common.{◌==◌, if◌then◌else◌, ◌+◌, ◌≡◌, refl, false}
use edge_runtime.CheckedMath.{checked_add, checked_mul, round_up_to_multiple}
use edge_runtime.Mpmc.Gate.{owner_valid, is_alive}
use edge_runtime.Mpmc.State.{Liveness}
use edge_runtime.Owner.{
  load_owner, judge_owned, owned_round, reported, round_for, snapshot_round, snapshot_rounds,
  snapshot_owner,
}
use edge_runtime.Pool.Blocks.{
  classify_block_state, snapshot_block_owner, offsets_of, fits_object, block_at, validate_live_pool,
  other_boot,
}
use edge_runtime.Pool.Blocks.Quiet.{IsPool}
use edge_runtime.Pool.Create.Fresh.{pool_handle}
use edge_runtime.Pool.Layout.{block_size_valid, stride_for, pool_mapping_size_for, block_offset_for}
use edge_runtime.Pool.State.{block_free, block_writing, block_published, block_reading, PoolMemory}
use edge_runtime.Pool.Status.{
  PoolStatus, no_blocks, count_owned, owner_alive, count_recovery, count_stable, count_observed,
  count_active, count_block, count_at, count_from, creator_alive, pool_status,
}
use edge_runtime.Pool.Status.Tally.{in_state, is_abandoned, blocks_with, pool_status-exact}
use edge_runtime.Pool.Tests.{reader, idle, memory, two_blocks}
use edge_runtime.Shared.{quiet, pure, ◌>>=◌, ◌>>◌, require, read, shared_load}

-- A pool whose first block is published, and whose second one was being written when its owner died
abbrev used_memory : PoolMemory
used_memory = record memory {
  blocks = λ k. record idle { state = if k == 192 then block_published else block_writing };
  processes = λ p s. Liveness.exited;
}

abbrev report : PoolStatus
report = record {
  block_size = 4096;
  block_count = 2;
  generation = 1;
  creator_pid = 1;
  creator_alive = false;
  counts = record no_blocks {
    published_blocks = 1;
    writing_blocks = 1;
    recovery_blocked_blocks = 1;
  };
}

used-IsPool : IsPool (pool_handle 4096 2 reader) used_memory
used-IsPool = record { shape = two_blocks; whole = refl; open_handle = refl; initialised = refl }

pool_status-exact_example :
    (0 ≡ blocks_with (in_state block_free) used_memory)
    × (1 ≡ blocks_with (in_state block_writing) used_memory)
    × (1 ≡ blocks_with (in_state block_published) used_memory)
    × (0 ≡ blocks_with (in_state block_reading) used_memory)
    × (1 ≡ blocks_with (is_abandoned (pool_handle 4096 2 reader) used_memory) used_memory)
    × (0 + 1 + 1 + 0 ≡ 2)
unfolding pool_status validate_live_pool shared_load require read pure creator_alive owner_valid
    owner_alive other_boot ◌>>◌ ◌>>=◌ count_from block_at count_at offsets_of block_offset_for
    checked_add checked_mul round_up_to_multiple is_alive fits_object block_size_valid
    pool_mapping_size_for stride_for snapshot_owner snapshot_rounds snapshot_round round_for
    owned_round judge_owned reported load_owner classify_block_state count_block count_active
    count_observed count_stable count_owned count_recovery snapshot_block_owner
pool_status-exact_example =
    pool_status-exact (pool_handle 4096 2 reader) used_memory (quiet used_memory) report used-IsPool
      refl
