-- ===== src/Pool/Create/Valid.antt =====
-- Headers that a process accepts when it opens a pool (src/edge_runtime/buffer/shared_buffer_pool.cpp,
-- `validate_header` and `open_existing`).
use edge_runtime.Common.{◌==◌, ℕ, ◌≡◌, refl, true, false, ◌&&◌, arith}
use edge_runtime.Mpmc.Gate.{owner_valid}
use edge_runtime.Mpmc.Header.{endian_mark, Schema, same_bytes}
use edge_runtime.Mpmc.Header.Agreement.{same_bytes_self}
use edge_runtime.Owner.{Owner}
use edge_runtime.Pool.Blocks.{schema_matches}
use edge_runtime.Pool.Create.{sealed_pool}
use edge_runtime.Pool.Header.{
  pool_magic, pool_legacy_magic, pool_abi_major, pool_abi_minor, PoolHeader, checked_bytes,
  pool_header_checksum, pool_size_fits, header_values_invalid, validate_pool_header,
  open_existing_pool,
}
use edge_runtime.Pool.Layout.{pool_header_size, block_size_valid}
use edge_runtime.Pool.Layout.Regions.{IsPoolShape, block_start, pool_mapping_size_for-eq}
use edge_runtime.Pool.State.{pool_ready}
use edge_runtime.Shared.{ok}

pool_size_fits-ok :
    (h : PoolHeader)
    → IsPoolShape h.block_size h.block_count
    → h.mapping_size ≡ block_start h.block_size h.block_count
    → pool_size_fits h h.mapping_size ≡ true
unfolding pool_size_fits
pool_size_fits-ok h s e = ground (arith, pool_mapping_size_for-eq h.block_size h.block_count s)

pub pool_header_checksum-sealed :
    (h : PoolHeader) → pool_header_checksum (sealed_pool h) ≡ pool_header_checksum h
unfolding pool_header_checksum checked_bytes sealed_pool
pool_header_checksum-sealed h = refl

-- A header with the values that a creation gives it
pub record IsPoolHeader (h : PoolHeader) : Type 0 where
  pub magic : same_bytes h.magic pool_magic ≡ true
  pub not_legacy : same_bytes h.magic pool_legacy_magic ≡ false
  pub major : h.abi_major ≡ pool_abi_major
  pub minor : h.abi_minor ≡ pool_abi_minor
  pub endian : h.endian_marker ≡ endian_mark
  pub size_of_header : h.size_field ≡ pool_header_size
  pub first_generation : h.generation ≡ 1
  pub some_nonce : (h.instance_nonce_hi == 0 && h.instance_nonce_lo == 0) ≡ false
  pub some_version : (h.schema.version == 0) ≡ false
  pub creator_known : owner_valid h.creator ≡ true
  pub shape : IsPoolShape h.block_size h.block_count
  pub size : h.mapping_size ≡ block_start h.block_size h.block_count
  pub right_checksum : h.checksum ≡ pool_header_checksum h

block_size_valid-ok :
    (block_size block_count : ℕ)
    → IsPoolShape block_size block_count
    → block_size_valid block_size ≡ true
unfolding block_size_valid
block_size_valid-ok block_size block_count s = ground (arith, s.two_sizes)

header_values-ok : (h : PoolHeader) → IsPoolHeader h → header_values_invalid h ≡ false
unfolding header_values_invalid
header_values-ok h i = ground (
  arith,
  block_size_valid-ok h.block_size h.block_count i.shape,
  i.shape.some_blocks,
  i.shape.few_blocks,
  i.first_generation,
  i.some_nonce,
  i.some_version,
  i.creator_known,
)

same_schema_self : (s : Schema) → schema_matches s s ≡ true
unfolding schema_matches
same_schema_self s = ground (arith, same_bytes_self s.fingerprint)

validate_pool_header-ok :
    (h : PoolHeader)
    → IsPoolHeader h
    → validate_pool_header h h.mapping_size pool_ready h.block_size h.block_count h.schema ≡ ok tt
unfolding validate_pool_header
validate_pool_header-ok h i = ground (
  arith,
  i.magic,
  i.not_legacy,
  i.major,
  i.minor,
  i.endian,
  i.size_of_header,
  header_values-ok h i,
  pool_size_fits-ok h i.shape i.size,
  i.right_checksum,
  same_schema_self h.schema,
)

pub open_existing_pool-ok :
    (self : Owner) (h : PoolHeader)
    → IsPoolHeader h
    → open_existing_pool self h h.mapping_size pool_ready h.block_size h.block_count h.schema
      ≡ ok (record { self = self; object_size = h.mapping_size; removed = false })
unfolding open_existing_pool
open_existing_pool-ok self h i =
    ground (arith, validate_pool_header-ok h i, i.size, i.shape.some_blocks)
