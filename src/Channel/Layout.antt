-- ===== src/Channel/Layout.antt =====
-- Tickets, sizes and offsets of a channel (src/edge_runtime/channel/channel_layout.hpp,
-- slot_protocol.cpp).
pub mod Tickets
use edge_runtime.Common.{leb, if◌then◌else◌, ℕ, ◌+◌, ◌-◌, ◌*◌, ◌/◌, ◌%◌, ◌^◌, Option, none, some}
use edge_runtime.CheckedMath.{checked_add, checked_mul, round_up_to_multiple}

abbrev pub slot_count : ℕ
slot_count = 3

-- kMaxSampleSequence
abbrev pub max_sample_sequence : ℕ
max_sample_sequence = 2 ^ 62 - 1

-- The index that no slot has
abbrev pub invalid_slot : ℕ
invalid_slot = 4294967295

-- kFirstSlotOffset
abbrev pub first_sample_offset : ℕ
first_sample_offset = 448

-- sizeof(SlotHeaderAbi)
abbrev pub sample_header_size : ℕ
sample_header_size = 64

-- The shift is a `uint64_t`; the two bits of the slot are free after it.
unfoldable pub make_ticket : ℕ → ℕ → ℕ
make_ticket sequence slot_index = (sequence * 4) % 2 ^ 64 + slot_index % 4

unfoldable pub ticket_slot : ℕ → ℕ
ticket_slot ticket = ticket % 4

unfoldable pub ticket_sequence : ℕ → ℕ
ticket_sequence ticket = ticket / 4

-- The stride of the slots, as publishing and reading compute it
unfoldable pub sample_stride : ℕ → Option ℕ
sample_stride payload_size = round_up_to_multiple (sample_header_size + payload_size) 64

unfoldable pub mapping_size_for_payload : ℕ → Option ℕ
mapping_size_for_payload payload_size = elim (sample_stride payload_size) [
  | none ↦ none
  | some stride ↦ elim (checked_mul slot_count stride) [
    | none ↦ none
    | some slots_total ↦ checked_add first_sample_offset slots_total
  ]
]

unfoldable pub slot_byte_offset : ℕ → ℕ → Option ℕ
slot_byte_offset slot_index stride =
    if leb slot_count slot_index then none else elim (checked_mul slot_index stride) [
      | none ↦ none
      | some index_offset ↦ checked_add first_sample_offset index_offset
    ]

-- The sequence of the next sample; there is none after the last.
unfoldable pub checked_next_sequence : ℕ → Option ℕ
checked_next_sequence current_ticket =
    if leb max_sample_sequence (ticket_sequence current_ticket)
    then none
    else some (ticket_sequence current_ticket + 1)

-- How many samples lie between two
unfoldable pub saturated_gap : ℕ → ℕ → ℕ
saturated_gap last_sequence current_sequence =
    if leb current_sequence last_sequence then 0 else current_sequence - last_sequence - 1
