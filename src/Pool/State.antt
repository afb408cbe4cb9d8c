-- ===== src/Pool/State.antt =====
-- A pool's shared memory, a process's handle on it, and buffers
-- (src/edge_runtime/buffer/shared_buffer_pool_layout.hpp, shared_buffer_pool.cpp,
-- include/edge_runtime/buffer/shared_buffer_pool.hpp).
use edge_runtime.Common.{◌==◌, if◌then◌else◌, ℕ, Bool, List}
use edge_runtime.Mpmc.Header.{Schema}
use edge_runtime.Mpmc.State.{Liveness}
use edge_runtime.Owner.{Owner, Cell}

-- enum class SharedBufferPoolInitState
abbrev pub pool_initializing : ℕ
pool_initializing = 1

abbrev pub pool_ready : ℕ
pool_ready = 2

-- enum class SharedBufferBlockState
abbrev pub block_free : ℕ
block_free = 0

abbrev pub block_writing_claiming : ℕ
block_writing_claiming = 1

abbrev pub block_writing : ℕ
block_writing = 2

abbrev pub block_published : ℕ
block_published = 3

abbrev pub block_reading_claiming : ℕ
block_reading_claiming = 4

abbrev pub block_reading : ℕ
block_reading = 5

abbrev pub block_epoch_exhausted : ℕ
block_epoch_exhausted = 6

abbrev pub block_owner_protocol_fault : ℕ
block_owner_protocol_fault = 7

-- SharedBufferBlockHeaderAbi and the payload behind it
pub record Block : Type 0 where
  pub state : ℕ
  pub block_generation : ℕ
  pub owner : Owner
  pub owner_epoch : ℕ
  pub payload : List ℕ

-- The mapping, as far as operations on an open pool read or write it, and the processes of the
-- machine. A block is found at its byte offset.
pub record PoolMemory : Type 0 where
  pub init_state : ℕ
  pub block_size : ℕ
  pub block_count : ℕ
  pub generation : ℕ
  pub instance_nonce_hi : ℕ
  pub instance_nonce_lo : ℕ
  pub schema : Schema
  pub creator : Owner
  pub blocks : ℕ → Block
  -- What `probe_liveness` finds of a pid and a start time
  pub processes : ℕ → ℕ → Liveness

-- SharedBufferPoolHandle, with the size of its mapping
pub record PoolHandle : Type 0 where
  pub self : Owner
  pub object_size : ℕ
  pub removed : Bool

-- What one process hands to another: where a published message lies
pub record BufferHandle : Type 0 where
  pub pool_generation : ℕ
  pub block_generation : ℕ
  pub instance_nonce_hi : ℕ
  pub instance_nonce_lo : ℕ
  pub offset : ℕ
  pub block_id : ℕ
  pub length : ℕ
  pub schema : Schema
  pub reserved : ℕ

-- WriteBuffer and ReadBuffer: a process's block with its descriptor, while it is active
pub record Buffer : Type 0 where
  pub pool : PoolHandle
  pub block : ℕ
  pub descriptor : BufferHandle
  pub active : Bool

abbrev pub update_block : ℕ → Block → (ℕ → Block) → ℕ → Block
update_block offset b blocks k = if k == offset then b else blocks k

unfoldable pub set_block : ℕ → Block → PoolMemory → PoolMemory
set_block offset b m = record m { blocks = update_block offset b m.blocks }

-- The words of the block at an offset
abbrev pub block_cell : ℕ → Cell PoolMemory
block_cell offset = record {
  state = λ m. (m.blocks offset).state;
  epoch = λ m. (m.blocks offset).owner_epoch;
  owner = λ m. (m.blocks offset).owner;
  set_state = λ v m. set_block offset (record (m.blocks offset) { state = v }) m;
  set_epoch = λ v m. set_block offset (record (m.blocks offset) { owner_epoch = v }) m;
  set_owner = λ v m. set_block offset (record (m.blocks offset) { owner = v }) m;
}
