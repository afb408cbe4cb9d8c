-- ===== src/Pool/Tests.antt =====
-- The theorems on pools at a pool of two blocks of 4 KiB (src/edge_runtime/buffer/).
mod Report
use edge_runtime.Common.{
  length, ℕ, ◌+◌, ◌%◌, ◌≤◌, ◌<◌, ◌≡◌, refl, ◌∙◌, ◌≢◌, ◌⊎◌, inl, true, some, List, [], ◌∷◌, arith,
  replicate, length-replicate,
}
use edge_runtime.CheckedMath.{checked_add, checked_mul, round_up_to_multiple}
use edge_runtime.Mpmc.Gate.{owner_valid, owner_matches}
use edge_runtime.Mpmc.Header.{Schema}
use edge_runtime.Mpmc.State.{Liveness}
use edge_runtime.Names.{allowed, all_allowed, no_dot_dot, validate_channel_name}
use edge_runtime.Owner.{Owner}
use edge_runtime.Pool.Blocks.{offsets_of, descriptor_for}
use edge_runtime.Pool.Blocks.Quiet.{IsPool}
use edge_runtime.Pool.Create.{pool_memory, create_pool}
use edge_runtime.Pool.Create.Fresh.{pool_handle}
use edge_runtime.Pool.Create.Usable.{create_pool-delivers}
use edge_runtime.Pool.HandOver.{hand_over, used_block, hand_over-delivers}
use edge_runtime.Pool.Header.{PoolHeader, validate_pool_options, open_existing_pool}
use edge_runtime.Pool.Layout.{
  block_header_size, block_size_valid, stride_for, pool_mapping_size_for, block_offset_for,
}
use edge_runtime.Pool.Layout.Regions.{IsPoolShape, blocks_apart}
use edge_runtime.Pool.Owned.{read_buffer}
use edge_runtime.Pool.Read.{acquire_read}
use edge_runtime.Pool.Read.Stale.{KeepsGenerations, acquire_read-stale}
use edge_runtime.Pool.Remove.{UnlinkPool}
use edge_runtime.Pool.Remove.Idle.{remove_pool_if_creator-unlinks, remove_pool_if_creator-idle}
use edge_runtime.Pool.State.{
  pool_ready, block_free, Block, PoolMemory, PoolHandle, BufferHandle, set_block,
}
use edge_runtime.Pool.Write.{try_acquire_write}
use edge_runtime.Pool.Write.Acquire.{
  IsWritable, writing_block, write_buffer, with_writer, try_acquire_write-ok,
}
use edge_runtime.Shared.{ok, quiet, pure}
use edge_runtime.Shared.Laws.{then_ok}

abbrev creator : Owner
creator = record { pid = 1; proc_start_ticks = 2; boot_id_hash_hi = 3; boot_id_hash_lo = 4 }

abbrev pub reader : Owner
reader = record { pid = 5; proc_start_ticks = 6; boot_id_hash_hi = 3; boot_id_hash_lo = 4 }

abbrev schema : Schema
schema = record { version = 1; fingerprint = replicate 32 9 }

-- A message of the block size
abbrev message : List ℕ
message = 1 ∷ 2 ∷ 3 ∷ replicate 4093 7

-- A block between two messages
abbrev pub idle : Block
idle = record {
  state = block_free;
  block_generation = 7;
  owner = reader;
  owner_epoch = 28;
  payload = replicate 4096 5;
}

abbrev pub memory : PoolMemory
memory = record {
  init_state = pool_ready;
  block_size = 4096;
  block_count = 2;
  generation = 1;
  instance_nonce_hi = 11;
  instance_nonce_lo = 12;
  schema = schema;
  creator = creator;
  blocks = λ k. idle;
  processes = λ p s. Liveness.alive;
}

pub two_blocks : IsPoolShape 4096 2
two_blocks = record { two_sizes = inl refl; some_blocks = omega arith; few_blocks = omega arith }

on_IsPool : (o : Owner) → IsPool (pool_handle 4096 2 o) memory
on_IsPool o = record { shape = two_blocks; whole = refl; open_handle = refl; initialised = refl }

idle-IsWritable : IsWritable idle
idle-IsWritable = record { free = refl; fresh = omega arith; even = refl; room = omega arith }

none_before : (i : ℕ) → i < 0 → idle.state ≢ block_free
none_before i l = absurd (omega arith)

known_creator : owner_valid creator ≡ true
unfolding owner_valid
known_creator = refl

known_reader : owner_valid reader ≡ true
unfolding owner_valid
known_reader = refl

message_size : length message ≡ 4096
message_size = omega (arith, length-replicate {A = ℕ} 4093 7)

-- The memory after the message went through the first block
abbrev memory_after : PoolMemory
memory_after = set_block 192 (used_block reader message idle) memory

hand_over-delivers_example :
    hand_over (pool_handle 4096 2 creator) (pool_handle 4096 2 reader) message (quiet memory)
    ≡ (ok message, quiet memory_after)
hand_over-delivers_example =
    hand_over-delivers (pool_handle 4096 2 creator) (pool_handle 4096 2 reader) message 0 memory
      (on_IsPool creator) (on_IsPool reader) (omega arith) idle-IsWritable none_before known_creator
      known_reader (length-replicate {A = ℕ} 4096 5) message_size

try_acquire_write-ok_example : try_acquire_write (pool_handle 4096 2 creator) (quiet memory) ≡ (
  ok (write_buffer (pool_handle 4096 2 creator) 0 memory),
  quiet (with_writer (pool_handle 4096 2 creator) 0 memory),
)
try_acquire_write-ok_example =
    try_acquire_write-ok (pool_handle 4096 2 creator) 0 memory (on_IsPool creator) (omega arith)
      idle-IsWritable none_before

create_pool-delivers_example :
    (h : PoolHandle) × (k : PoolHandle) × (header : PoolHeader) × (blocks : ℕ → Block)
    × (create_pool (112 ∷ []) creator (some (11, 12)) 4096 2 schema ≡ ok (h, header, blocks))
    × (open_existing_pool reader header h.object_size pool_ready 4096 2 schema ≡ ok k)
    × ((hand_over h k message
          (quiet (pool_memory header pool_ready (λ p s. Liveness.alive) blocks))).0
        ≡ ok message)
unfolding validate_pool_options validate_channel_name all_allowed allowed no_dot_dot
    block_size_valid
create_pool-delivers_example =
    create_pool-delivers (112 ∷ []) 4096 2 schema creator reader (11, 12) (λ p s. Liveness.alive)
      message refl known_creator known_reader refl message_size

-- A descriptor of the generation before
abbrev old_descriptor : BufferHandle
old_descriptor = descriptor_for memory 0 6

-- Meanwhile the creator writes into the first block.
abbrev taken : PoolMemory → PoolMemory
taken m = set_block 192 (writing_block creator (m.blocks 192)) m

taken_keeps : (m : PoolMemory) → KeepsGenerations m (taken m)
unfolding set_block
taken_keeps m = record { same_size = refl; same_count = refl; grows = λ k. ground arith }

acquire_read-stale_example :
    acquire_read
      (pool_handle 4096 2 reader)
      old_descriptor
      (record { mem = memory; env = taken ∷ [] })
    ≢ (ok (read_buffer (pool_handle 4096 2 reader) 0 6 memory), quiet (taken memory))
unfolding descriptor_for offsets_of block_offset_for pool_mapping_size_for stride_for
    block_size_valid round_up_to_multiple checked_mul checked_add
acquire_read-stale_example =
    acquire_read-stale (pool_handle 4096 2 reader) old_descriptor (192, 256)
      (record { mem = memory; env = taken ∷ [] }) (quiet (taken memory))
      (read_buffer (pool_handle 4096 2 reader) 0 6 memory) (taken_keeps, tt)
      (record { named = refl; past = omega arith })

creator_itself : owner_matches creator creator ≡ true
unfolding owner_matches
creator_itself = refl

abbrev unlinked : UnlinkPool
unlinked w = (ok tt, w)

remove_pool_if_creator-idle_example :
    (owner_matches creator creator ≡ true)
    × ((i : ℕ) → i < 2 → idle.state ≡ block_free)
    × (true ≡ true)
unfolding pure
remove_pool_if_creator-idle_example =
    remove_pool_if_creator-idle unlinked (pool_handle 4096 2 creator)
      (record (pool_handle 4096 2 creator) { removed = true }) memory (quiet memory)
      (on_IsPool creator)
      (remove_pool_if_creator-unlinks (pool_handle 4096 2 creator) memory (on_IsPool creator)
          unlinked creator_itself (λ i l. refl)
        ∙ then_ok _ _ refl refl)

blocks_apart_example :
    (4352 % 64 ≡ 0)
    × (4416 ≡ 4352 + block_header_size)
    × (4416 + 4096 ≤ 8512)
    × (◌≡◌ {A = ℕ} 1 0 ⊎ (4416 + 4096 ≤ 192) ⊎ (256 + 4096 ≤ 4352))
unfolding pool_mapping_size_for stride_for block_size_valid round_up_to_multiple checked_mul
    checked_add block_offset_for
blocks_apart_example =
    blocks_apart 4096 1 0 2 8512 (4352, 4416) (192, 256) two_blocks refl refl refl
