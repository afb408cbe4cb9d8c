-- ===== src/Pool/Create/Fresh.antt =====
-- A pool that was just created, and opening it (src/edge_runtime/buffer/shared_buffer_pool.cpp).
use edge_runtime.Common.{
  ◌==◌, ℕ, zero, suc, ◌+◌, ◌≡◌, refl, sym, true, false, ◌&&◌, some, List, arith,
}
use edge_runtime.Mpmc.Gate.{owner_valid}
use edge_runtime.Mpmc.Header.{Schema, same_bytes}
use edge_runtime.Mpmc.State.{Liveness}
use edge_runtime.Owner.{Owner}
use edge_runtime.Pool.Blocks.Quiet.{IsPool}
use edge_runtime.Pool.Create.{
  zero_block, init_block, init_blocks, blank_pool_header, sealed_pool, pool_memory,
  identity_or_nonce_missing, create_pool,
}
use edge_runtime.Pool.Create.Valid.{
  pool_header_checksum-sealed, IsPoolHeader, open_existing_pool-ok,
}
use edge_runtime.Pool.Header.{PoolHeader, validate_pool_options, open_existing_pool}
use edge_runtime.Pool.Layout.{block_size_valid}
use edge_runtime.Pool.Layout.Regions.{
  IsPoolShape, block_start, pool_mapping_size_for-eq, block_offset_for-eq,
}
use edge_runtime.Pool.State.{pool_ready, Block, PoolMemory, PoolHandle, update_block}
use edge_runtime.Pool.Write.Acquire.{IsWritable}
use edge_runtime.Shared.{ok}

validate_pool_options-facts :
    (name : List ℕ) (block_size block_count : ℕ) (schema : Schema)
    → validate_pool_options name block_size block_count schema ≡ ok tt
    → IsPoolShape block_size block_count × ((schema.version == 0) ≡ false)
unfolding validate_pool_options block_size_valid
validate_pool_options-facts name block_size block_count schema e = (
  record { two_sizes = ground arith; some_blocks = ground arith; few_blocks = ground arith },
  ground arith,
)

initialised_block-zero :
    (block_size offset : ℕ) (f : ℕ → Block)
    → ((k : ℕ) → f k ≡ zero_block block_size)
    → (k : ℕ) → update_block offset (init_block (f offset)) f k ≡ zero_block block_size
unfolding init_block
initialised_block-zero block_size offset f h k = rw (h offset) (ground (arith, h k))

-- The loop over the blocks ends, and leaves every block zero.
init_blocks-zero :
    (n block_id block_size block_count : ℕ) (f : ℕ → Block)
    → IsPoolShape block_size block_count
    → block_id + n ≡ block_count
    → ((k : ℕ) → f k ≡ zero_block block_size)
    → (g : ℕ → Block) × (init_blocks n block_id block_size block_count f ≡ some g)
      × ((k : ℕ) → g k ≡ zero_block block_size)
unfolding init_blocks
init_blocks-zero zero block_id block_size block_count f s e h = (f, refl, h)
init_blocks-zero (suc n) block_id block_size block_count f s e h =
    let o = block_start block_size block_id in
    let found = block_offset_for-eq block_size block_id block_count s (omega arith) in
    rw (found, init_blocks)
      (init_blocks-zero n (block_id + 1) block_size block_count
        (update_block o (init_block (f o)) f) s (omega arith)
        (initialised_block-zero block_size o f h))

-- What a creation writes into the header
abbrev pub pool_header : ℕ → ℕ → Schema → ℕ × ℕ → Owner → PoolHeader
pool_header block_size block_count schema nonce self = sealed_pool (
    blank_pool_header block_size block_count schema (block_start block_size block_count) nonce self)

-- The handle of a process on the created pool
abbrev pub pool_handle : ℕ → ℕ → Owner → PoolHandle
pool_handle block_size block_count self = record {
  self = self;
  object_size = block_start block_size block_count;
  removed = false;
}

module _ (name : List ℕ) (block_size block_count : ℕ) (schema : Schema) (creator : Owner)
    (nonce : ℕ × ℕ) (valid : validate_pool_options name block_size block_count schema ≡ ok tt)
    (known : owner_valid creator ≡ true) (random : (nonce.0 == 0 && nonce.1 == 0) ≡ false) where
  pub created-shape : IsPoolShape block_size block_count
  created-shape = (validate_pool_options-facts name block_size block_count schema valid).0

  created-IsPoolHeader : IsPoolHeader (pool_header block_size block_count schema nonce creator)
  unfolding sealed_pool blank_pool_header same_bytes
  created-IsPoolHeader = record {
    magic = refl;
    not_legacy = refl;
    major = refl;
    minor = refl;
    endian = refl;
    size_of_header = refl;
    first_generation = refl;
    some_nonce = random;
    some_version = (validate_pool_options-facts name block_size block_count schema valid).1;
    creator_known = known;
    shape = created-shape;
    size = refl;
    right_checksum = sym (
        pool_header_checksum-sealed (
          blank_pool_header block_size block_count schema (block_start block_size block_count) nonce
            creator));
  }

  -- With valid options, a valid identity and a nonce, the creation succeeds and leaves every block
  -- zero.
  pub create_pool-ok :
      (blocks : ℕ → Block) × (create_pool name creator (some nonce) block_size block_count schema
        ≡ ok (
          pool_handle block_size block_count creator,
          pool_header block_size block_count schema nonce creator,
          blocks,
        ))
      × ((k : ℕ) → blocks k ≡ zero_block block_size)
  unfolding create_pool identity_or_nonce_missing
  create_pool-ok =
      let (blocks, e, z) =
        init_blocks-zero block_count 0 block_size block_count (λ offset. zero_block block_size)
          created-shape (omega arith) (λ k. refl) in
      (
        blocks,
        rw
            (
              create_pool,
              valid,
              pool_mapping_size_for-eq block_size block_count created-shape,
              identity_or_nonce_missing,
              known,
              random,
              e,
            )
            refl,
        z,
      )

  -- Any process can open the pool that was created, with the options of the creation.
  pub open_existing_pool-created :
      (self : Owner)
      → open_existing_pool self
          (pool_header block_size block_count schema nonce creator)
          (block_start block_size block_count)
          pool_ready
          block_size
          block_count
          schema
        ≡ ok (pool_handle block_size block_count self)
  unfolding sealed_pool blank_pool_header
  open_existing_pool-created self =
      open_existing_pool-ok self (pool_header block_size block_count schema nonce creator)
        created-IsPoolHeader

  module _ (processes : ℕ → ℕ → Liveness) (blocks : ℕ → Block)
      (zeroed : (k : ℕ) → blocks k ≡ zero_block block_size) where
    abbrev pub created_memory : PoolMemory
    created_memory =
        pool_memory (pool_header block_size block_count schema nonce creator) pool_ready processes
          blocks

    pub created-IsPool :
        (self : Owner) → IsPool (pool_handle block_size block_count self) created_memory
    unfolding sealed_pool blank_pool_header
    created-IsPool self = record {
      shape = created-shape;
      whole = refl;
      open_handle = refl;
      initialised = refl;
    }

    pub created-IsWritable : (k : ℕ) → IsWritable (blocks k)
    created-IsWritable k =
        rw (zeroed k) (record { free = refl; fresh = omega arith; even = refl; room = omega arith })
