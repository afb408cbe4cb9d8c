-- ===== src/Pool/Create/Usable.antt =====
-- A created pool at work: it is opened, and carries a message
-- (src/edge_runtime/buffer/shared_buffer_pool.cpp).
use edge_runtime.Common.{
  ◌==◌, length, ℕ, ◌≡◌, ap, true, false, ◌&&◌, some, List, arith, length-replicate,
}
use edge_runtime.Mpmc.Gate.{owner_valid}
use edge_runtime.Mpmc.Header.{Schema}
use edge_runtime.Mpmc.State.{Liveness}
use edge_runtime.Owner.{Owner}
use edge_runtime.Pool.Blocks.Quiet.{block_of}
use edge_runtime.Pool.Create.{blank_pool_header, sealed_pool, pool_memory, create_pool}
use edge_runtime.Pool.Create.Fresh.{
  pool_header, pool_handle, created-shape, create_pool-ok, open_existing_pool-created,
  created-IsPool, created-IsWritable,
}
use edge_runtime.Pool.HandOver.{hand_over, hand_over-delivers}
use edge_runtime.Pool.Header.{PoolHeader, validate_pool_options, open_existing_pool}
use edge_runtime.Pool.State.{pool_ready, Block, PoolHandle}
use edge_runtime.Shared.{ok, quiet}

-- With valid options, identities and a nonce: a pool is created, another process opens it, and any
-- message of the block size goes from the creator to that process unchanged, if nobody interferes.
pub create_pool-delivers :
    (name : List ℕ) (block_size block_count : ℕ) (schema : Schema) (creator reader : Owner)
    (nonce : ℕ × ℕ) (processes : ℕ → ℕ → Liveness) (message : List ℕ)
    → validate_pool_options name block_size block_count schema ≡ ok tt
    → owner_valid creator ≡ true
    → owner_valid reader ≡ true
    → (nonce.0 == 0 && nonce.1 == 0) ≡ false
    → length message ≡ block_size
    → (h : PoolHandle) × (k : PoolHandle) × (header : PoolHeader) × (blocks : ℕ → Block)
      × (create_pool name creator (some nonce) block_size block_count schema
          ≡ ok (h, header, blocks))
      × (open_existing_pool reader header h.object_size pool_ready block_size block_count schema
          ≡ ok k)
      × ((hand_over h k message (quiet (pool_memory header pool_ready processes blocks))).0
          ≡ ok message)
unfolding sealed_pool blank_pool_header
create_pool-delivers name block_size block_count schema creator reader nonce processes message valid
      known reader_known random fits =
    let (blocks, e, zeroed) =
      create_pool-ok name block_size block_count schema creator nonce valid known random in
    let shape = created-shape name block_size block_count schema creator nonce valid known random in
    let is_pool =
      created-IsPool name block_size block_count schema creator nonce valid known random processes
        blocks zeroed in
    let writable =
      created-IsWritable name block_size block_count schema creator nonce valid known random
        processes blocks zeroed in
    (
      pool_handle block_size block_count creator,
      pool_handle block_size block_count reader,
      pool_header block_size block_count schema nonce creator,
      blocks,
      e,
      open_existing_pool-created name block_size block_count schema creator nonce valid known random
          reader,
      ap (λ r. r.0)
          (hand_over-delivers _ _ message 0 _ (is_pool creator) (is_pool reader) shape.some_blocks
            (writable _) (λ i l. absurd (omega arith)) known reader_known
            (rw
              (zeroed (
                block_of
                  (pool_memory (pool_header block_size block_count schema nonce creator) pool_ready
                    processes blocks)
                  0))
              (length-replicate block_size 0))
            fits),
    )
