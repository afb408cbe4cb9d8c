-- ===== src/Mpmc/Layout.antt =====
-- Sizes and offsets in a queue's shared mapping (src/edge_runtime/queue/mpmc_layout.hpp).
pub mod Regions
mod Tests
use edge_runtime.Common.{
  ℕ, ◌+◌, ◌-◌, ◌*◌, ◌/◌, ◌%◌, ◌^◌, ◌≤◌, ◌<◌, ◌≡◌, refl, Bool, Option, none, some, not, ◌&&◌, ◌||◌,
  arith, u64_max, ltb, leb, ◌==◌, if◌then◌else◌,
}
use edge_runtime.CheckedMath.{checked_add, checked_mul, round_up_to_multiple}

-- kMpmcHeaderSize, which is kMpmcFirstSlotOffset
abbrev pub header_size : ℕ
header_size = 320

abbrev pub first_slot_offset : ℕ
first_slot_offset = header_size

abbrev pub max_capacity : ℕ
max_capacity = 4096

abbrev pub max_payload_size : ℕ
max_payload_size = 64 * 1024

abbrev pub max_name_length : ℕ
max_name_length = 64

-- sizeof(MpmcSlotHeaderAbi)
abbrev pub slot_header_size : ℕ
slot_header_size = 64

-- The stride that `mpmc_create_impl` and `open_existing` compute.
unfoldable pub slot_stride : ℕ → Option ℕ
slot_stride payload_size = round_up_to_multiple (slot_header_size + payload_size) 64

unfoldable pub mapping_size_for : ℕ → ℕ → Option ℕ
mapping_size_for capacity payload_size =
    if capacity == 0
      || ltb max_capacity capacity
      || payload_size == 0
      || ltb max_payload_size payload_size
    then none
    else elim (slot_stride payload_size) [
      | none ↦ none
      | some stride ↦ elim (checked_mul capacity stride) [
        | none ↦ none
        | some slots ↦ checked_add first_slot_offset slots
      ]
    ]

unfoldable pub slot_offset : ℕ → ℕ → ℕ → Option ℕ
slot_offset slot_index capacity stride =
    if leb capacity slot_index then none else elim (checked_mul slot_index stride) [
      | none ↦ none
      | some offset ↦ checked_add first_slot_offset offset
    ]

-- The next ticket and the sequence that a slot gets when it is reclaimed.
unfoldable pub checked_ticket_bounds : ℕ → ℕ → Option (ℕ × ℕ)
checked_ticket_bounds ticket capacity =
    if capacity == 0 then none else elim (checked_add ticket 1) [
      | none ↦ none
      | some next_ticket ↦ elim (checked_add ticket capacity) [
        | none ↦ none
        | some reclaim_sequence ↦ some (next_ticket, reclaim_sequence)
      ]
    ]
