-- ===== src/Mpmc/Layout/Tests.antt =====
-- The theorems on a queue's layout at two one-byte slots (src/edge_runtime/queue/mpmc_layout.hpp).
use edge_runtime.Common.{◌+◌, ◌%◌, ◌≤◌, ◌≡◌, ◌⊎◌, arith}
use edge_runtime.Mpmc.Layout.Regions.{
  IsShape, mapping_size_for-eq, slot_offset-eq, slot-in-mapping, slots_disjoint,
}

small : IsShape 2 1
small = record {
  some_slots = omega arith;
  few_slots = omega arith;
  some_bytes = omega arith;
  few_bytes = omega arith;
}

slot-in-mapping_example : (448 % 64 ≡ 0) × (320 ≤ 448) × (448 + 64 + 1 ≤ 576)
slot-in-mapping_example =
    slot-in-mapping 1 2 1 576 448 small (mapping_size_for-eq 2 1 small)
      (slot_offset-eq 1 2 1 small (omega arith))

slots_disjoint_example : (320 + 64 + 1 ≤ 448) ⊎ (448 + 64 + 1 ≤ 320)
slots_disjoint_example =
    slots_disjoint 0 1 2 1 320 448 small (λ e. omega arith)
      (slot_offset-eq 0 2 1 small (omega arith)) (slot_offset-eq 1 2 1 small (omega arith))
