-- ===== src/Pool/Blocks.antt =====
-- Blocks, their owners and their descriptors (src/edge_runtime/buffer/shared_buffer_pool.cpp). The
-- checks of an owner are those of `Mpmc.Gate`, whose code the pool repeats.
pub mod Quiet
use edge_runtime.Common.{
  ltb, ◌==◌, if◌then◌else◌, ℕ, ◌-◌, Bool, not, ◌&&◌, ◌||◌, Option, none, some,
}
use edge_runtime.Error.{ErrorCode}
use edge_runtime.Mpmc.Gate.{owner_valid, owner_matches, is_alive}
use edge_runtime.Mpmc.Header.{Schema, same_bytes}
use edge_runtime.Owner.{Owner, SnapshotKind, StateKind, OwnerSnapshot, snapshot_owner}
use edge_runtime.Pool.Layout.{block_header_size, block_offset_for}
use edge_runtime.Pool.State.{
  pool_ready, block_free, block_writing_claiming, block_writing, block_published,
  block_reading_claiming, block_reading, block_epoch_exhausted, block_owner_protocol_fault,
  PoolMemory, PoolHandle, BufferHandle, block_cell,
}
use edge_runtime.Shared.{Action, pure, fail, ◌>>=◌, require, read, shared_load}

unfoldable pub classify_block_state : ℕ → StateKind
classify_block_state state =
    if state == block_free || state == block_published
    then StateKind.inactive
    else if state == block_writing_claiming || state == block_reading_claiming
    then StateKind.claiming
    else if state == block_writing || state == block_reading
    then StateKind.owned
    else if state == block_epoch_exhausted
    then StateKind.epoch_exhausted
    else if state == block_owner_protocol_fault
    then StateKind.protocol_fault
    else StateKind.unexpected

unfoldable pub snapshot_block_owner : ℕ → Action PoolMemory OwnerSnapshot
snapshot_block_owner offset = snapshot_owner (block_cell offset) classify_block_state owner_valid

-- The offsets of a block and its payload, as the header gives them
unfoldable pub offsets_of : ℕ → PoolMemory → Option (ℕ × ℕ)
offsets_of block_id m = block_offset_for m.block_size block_id m.block_count

-- Whether so many bytes from an offset on lie in the mapping
unfoldable pub fits_object : PoolHandle → ℕ → ℕ → Bool
fits_object h offset bytes =
    not (ltb h.object_size offset) && not (ltb (h.object_size - offset) bytes)

unfoldable pub block_at : PoolHandle → ℕ → Action PoolMemory (Option ℕ)
block_at h block_id = do
  offsets ← read (offsets_of block_id)
  pure (elim offsets [
    | none ↦ none
    | some o ↦ if fits_object h o.0 block_header_size then some (o.0) else none
  ])

-- The offset of the payload
unfoldable pub payload_at : PoolHandle → ℕ → Action PoolMemory (Option ℕ)
payload_at h block_id = do
  offsets ← read (offsets_of block_id)
  block_size ← read (λ m. m.block_size)
  pure (elim offsets [
    | none ↦ none
    | some o ↦ if fits_object h o.1 block_size then some (o.1) else none
  ])

-- The payload's offset in a descriptor; zero where there is none
unfoldable pub descriptor_offset : Option (ℕ × ℕ) → ℕ
descriptor_offset none = 0
descriptor_offset (some o) = o.1

unfoldable pub descriptor_for : PoolMemory → ℕ → ℕ → BufferHandle
descriptor_for m block_id block_generation = record {
  pool_generation = m.generation;
  block_generation = block_generation;
  instance_nonce_hi = m.instance_nonce_hi;
  instance_nonce_lo = m.instance_nonce_lo;
  offset = descriptor_offset (offsets_of block_id m);
  block_id = block_id;
  length = m.block_size;
  schema = m.schema;
  reserved = 0;
}

unfoldable pub make_handle : ℕ → ℕ → Action PoolMemory BufferHandle
make_handle block_id offset = do
  block_generation ← shared_load (λ m. (m.blocks offset).block_generation)
  read (λ m. descriptor_for m block_id block_generation)

unfoldable pub validate_live_pool : PoolHandle → Action PoolMemory (Unit {0})
validate_live_pool h = if h.removed then fail ErrorCode.stale_handle else do
  init ← shared_load (λ m. m.init_state)
  require (init == pool_ready) ErrorCode.initialization_incomplete

-- memcmp of the fingerprints, and the versions
unfoldable pub schema_matches : Schema → Schema → Bool
schema_matches s t = s.version == t.version && same_bytes s.fingerprint t.fingerprint

unfoldable pub other_boot : PoolHandle → Owner → Bool
other_boot h o =
    not (o.boot_id_hash_hi == h.self.boot_id_hash_hi)
    || not (o.boot_id_hash_lo == h.self.boot_id_hash_lo)

-- The code for a stable owner that is somebody else's
unfoldable pub other_owner_code : PoolHandle → Owner → Action PoolMemory ErrorCode
other_owner_code h o = if other_boot h o then pure ErrorCode.recovery_blocked else do
  liveness ← shared_load (λ m. m.processes o.pid o.proc_start_ticks)
  pure (if is_alive liveness then ErrorCode.buffer_pool_contention else ErrorCode.recovery_blocked)

unfoldable pub active_code : SnapshotKind → PoolHandle → Owner → Action PoolMemory ErrorCode
active_code SnapshotKind.inactive h o = pure ErrorCode.buffer_pool_contention
active_code SnapshotKind.claiming h o = pure ErrorCode.buffer_pool_contention
active_code SnapshotKind.unstable h o = pure ErrorCode.buffer_pool_contention
active_code SnapshotKind.corrupt h o = pure ErrorCode.recovery_blocked
active_code SnapshotKind.epoch_exhausted h o = pure ErrorCode.recovery_blocked
active_code SnapshotKind.stable h o =
    if owner_matches o h.self then pure ErrorCode.concurrent_handle_use else other_owner_code h o

-- `classify_active_block`, which returns an error always: its code
unfoldable pub classify_active_block : PoolHandle → ℕ → Action PoolMemory ErrorCode
classify_active_block h offset = do
  observation ← snapshot_block_owner offset
  active_code observation.kind h observation.owner
