-- ===== src/Channel/Layout/Tickets.antt =====
-- Tickets and places of slots (src/edge_runtime/channel/channel_layout.hpp).
use edge_runtime.Common.{u64_max, ℕ, ◌+◌, ◌*◌, ◌/◌, ◌≤◌, ◌<◌, ◌≡◌, some, arith}
use edge_runtime.Channel.Layout.{
  slot_count, max_sample_sequence, first_sample_offset, sample_header_size, make_ticket,
  ticket_slot, ticket_sequence, sample_stride, mapping_size_for_payload, slot_byte_offset,
}
use edge_runtime.CheckedMath.{round_up_to_multiple}
use edge_runtime.CheckedMath.Bounds.{checked_add-eq, checked_mul-eq}
use native.Mathlib.Nat.{mul-le-mul}

-- A ticket of a sequence number that the protocol allows is a 64-bit number that is not zero, and
-- says the sequence number and the slot that it was made of.
pub make_ticket-parts :
    (sequence slot_index : ℕ)
    → 0 < sequence
    → sequence ≤ max_sample_sequence
    → slot_index < 4
    → (0 < make_ticket sequence slot_index)
      × (make_ticket sequence slot_index ≤ u64_max)
      × (ticket_sequence (make_ticket sequence slot_index) ≡ sequence)
      × (ticket_slot (make_ticket sequence slot_index) ≡ slot_index)
unfolding make_ticket ticket_sequence ticket_slot
make_ticket-parts sequence slot_index p l k = (omega arith, omega arith, omega arith, omega arith)

pub make_ticket-eq :
    (sequence slot_index : ℕ)
    → sequence ≤ max_sample_sequence
    → slot_index < 4
    → make_ticket sequence slot_index ≡ sequence * 4 + slot_index
unfolding make_ticket
make_ticket-eq sequence slot_index l k = omega arith

-- A payload size that a producer may have
pub record IsSampleSize (payload_size : ℕ) : Type 0 where
  pub some_bytes : 0 < payload_size
  pub few_bytes : payload_size ≤ 65536

-- The stride and the places of slots in closed form
abbrev pub sample_stride_of : ℕ → ℕ
sample_stride_of payload_size = (sample_header_size + payload_size + 63) / 64 * 64

abbrev pub sample_place : ℕ → ℕ → ℕ
sample_place payload_size i = first_sample_offset + i * sample_stride_of payload_size

pub sample_stride-eq :
    (payload_size : ℕ)
    → IsSampleSize payload_size
    → sample_stride payload_size ≡ some (sample_stride_of payload_size)
unfolding sample_stride round_up_to_multiple
sample_stride-eq payload_size s = ground (arith, s.few_bytes)

strides-le :
    (payload_size i : ℕ)
    → IsSampleSize payload_size
    → i ≤ 3
    → i * sample_stride_of payload_size ≤ 3 * 131072
strides-le payload_size i s l =
    mul-le-mul {n₁ = i} {m₁ = sample_stride_of payload_size} {n₂ = 3} {m₂ = 131072} l
      (omega (arith, s.few_bytes))

pub slot_byte_offset-eq :
    (payload_size i : ℕ)
    → IsSampleSize payload_size
    → i < 3
    → slot_byte_offset i (sample_stride_of payload_size) ≡ some (sample_place payload_size i)
unfolding slot_byte_offset
slot_byte_offset-eq payload_size i s l = ground (
  arith,
  checked_mul-eq i (sample_stride_of payload_size),
  checked_add-eq first_sample_offset (i * sample_stride_of payload_size),
  strides-le payload_size i s,
)

pub mapping_size_for_payload-eq :
    (payload_size : ℕ)
    → IsSampleSize payload_size
    → mapping_size_for_payload payload_size ≡ some (sample_place payload_size 3)
unfolding mapping_size_for_payload
mapping_size_for_payload-eq payload_size s = ground (
  arith,
  sample_stride-eq payload_size s,
  checked_mul-eq 3 (sample_stride_of payload_size),
  checked_add-eq first_sample_offset (3 * sample_stride_of payload_size),
  strides-le payload_size 3 s,
)

pub slot_byte_offset-lt :
    (i stride : ℕ) {offset : ℕ} → slot_byte_offset i stride ≡ some offset → i < slot_count
unfolding slot_byte_offset
slot_byte_offset-lt i stride e = ground arith
