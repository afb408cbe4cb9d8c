-- ===== src/Mpmc/Header/Tests.antt =====
-- The theorems on headers at a queue of two one-byte messages (src/edge_runtime/queue/mpmc_queue.cpp),
-- and the published test value of the checksum (src/edge_runtime/utility/checksum.cpp).
use edge_runtime.Common.{◌+◌, ◌*◌, ◌≡◌, refl, false, [], ◌∷◌, arith, replicate}
use edge_runtime.CheckedMath.{checked_add, checked_mul, round_up_to_multiple}
use edge_runtime.Checksum.{fnv_from, fnv1a64}
use edge_runtime.Mpmc.Header.{
  Schema, Header, le_bytes, immutable_bytes, header_checksum, same_bytes, same_schema, size_fits,
  validate_header, open_existing, blank_header, sealed,
}
use edge_runtime.Mpmc.Header.Agreement.{validate_header-agrees, open_existing-created}
use edge_runtime.Mpmc.Layout.{first_slot_offset, slot_stride, mapping_size_for}
use edge_runtime.Mpmc.Layout.Regions.{stride_of, IsShape}
use edge_runtime.Mpmc.State.{init_ready}
use edge_runtime.Owner.{Owner}
use edge_runtime.Shared.{ok}

fnv1a64-a : fnv1a64 (97 ∷ []) ≡ 0xaf63dc4c8601ec8c
unfolding fnv1a64 fnv_from
fnv1a64-a = refl

abbrev self : Owner
self = record { pid = 1; proc_start_ticks = 2; boot_id_hash_hi = 3; boot_id_hash_lo = 4 }

abbrev schema : Schema
schema = record { version = 1; fingerprint = replicate 32 9 }

small : IsShape 2 1
small = record {
  some_slots = omega arith;
  few_slots = omega arith;
  some_bytes = omega arith;
  few_bytes = omega arith;
}

abbrev header : Header
header = sealed (blank_header 2 schema 1 576 11 12 self)

open_existing-created_example :
    open_existing self header 576 init_ready 2 schema 1
    ≡ ok (record { self = self; slot_stride = 128; removed = false })
open_existing-created_example = open_existing-created self self 2 schema 1 11 12 small

validate_header-agrees_example :
    IsShape 2 1
    × (header.capacity ≡ 2)
    × (header.payload_size ≡ 1)
    × (header.schema_version ≡ 1)
    × (header.schema_fingerprint ≡ replicate 32 9)
    × (init_ready ≡ init_ready)
    × (576 ≡ first_slot_offset + 2 * stride_of 1)
    × (header.mapping_size ≡ 576)
unfolding validate_header size_fits same_schema same_bytes sealed blank_header header_checksum
    immutable_bytes le_bytes fnv1a64 fnv_from mapping_size_for slot_stride checked_add checked_mul
    round_up_to_multiple
validate_header-agrees_example = validate_header-agrees header 576 init_ready 2 schema 1 refl
