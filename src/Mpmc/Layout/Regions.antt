-- ===== src/Mpmc/Layout/Regions.antt =====
-- Where the slots of a queue lie in its mapping (src/edge_runtime/queue/mpmc_layout.hpp).
use native.Mathlib.Nat.{mul-le-mul, mul-le-mul_right}
use edge_runtime.Common.{ℕ, ◌+◌, ◌*◌, ◌/◌, ◌%◌, ◌≤◌, ◌<◌, ◌≡◌, ◌≢◌, ◌⊎◌, some, arith}
use edge_runtime.CheckedMath.{round_up_to_multiple}
use edge_runtime.CheckedMath.Bounds.{checked_add-eq, checked_mul-eq}
use edge_runtime.Mpmc.Layout.{
  first_slot_offset, max_capacity, max_payload_size, slot_header_size, slot_stride,
  mapping_size_for, slot_offset,
}

-- The stride in closed form.
abbrev pub stride_of : ℕ → ℕ
stride_of payload_size = (slot_header_size + payload_size + 63) / 64 * 64

pub slot_stride-eq :
    (payload_size : ℕ)
    → payload_size ≤ max_payload_size
    → slot_stride payload_size ≡ some (stride_of payload_size)
unfolding slot_stride round_up_to_multiple
slot_stride-eq payload_size h = ground arith

-- A queue's shape as its header carries it.
pub record IsShape (capacity payload_size : ℕ) : Type 0 where
  pub some_slots : 0 < capacity
  pub few_slots : capacity ≤ max_capacity
  pub some_bytes : 0 < payload_size
  pub few_bytes : payload_size ≤ max_payload_size

pub slots-le :
    {capacity payload_size : ℕ} (i : ℕ)
    → IsShape capacity payload_size
    → i ≤ capacity
    → i * stride_of payload_size ≤ 4096 * 131072
slots-le {capacity} {payload_size} i s h =
    mul-le-mul {n₁ = i} {m₁ = stride_of payload_size} {n₂ = 4096} {m₂ = 131072} (omega arith)
      (omega arith)

pub mapping_size_for-eq :
    (capacity payload_size : ℕ)
    → IsShape capacity payload_size
    → mapping_size_for capacity payload_size
      ≡ some (first_slot_offset + capacity * stride_of payload_size)
unfolding mapping_size_for
mapping_size_for-eq capacity payload_size s = ground (
  arith,
  slot_stride-eq payload_size,
  checked_mul-eq capacity (stride_of payload_size),
  checked_add-eq first_slot_offset (capacity * stride_of payload_size),
  slots-le capacity s,
)

pub slot_offset-eq :
    (i capacity payload_size : ℕ)
    → IsShape capacity payload_size
    → i < capacity
    → slot_offset i capacity (stride_of payload_size)
      ≡ some (first_slot_offset + i * stride_of payload_size)
unfolding slot_offset
slot_offset-eq i capacity payload_size s h = ground (
  arith,
  checked_mul-eq i (stride_of payload_size),
  checked_add-eq first_slot_offset (i * stride_of payload_size),
  slots-le i s,
)

slot_offset-lt :
    (i capacity stride : ℕ) {p : ℕ} → slot_offset i capacity stride ≡ some p → i < capacity
unfolding slot_offset
slot_offset-lt i capacity stride e = ground arith

module _ {capacity payload_size : ℕ} (s : IsShape capacity payload_size) where
  pub slot_offset-value :
      (i : ℕ) {p : ℕ}
      → slot_offset i capacity (stride_of payload_size) ≡ some p
      → (i < capacity) × (p ≡ first_slot_offset + i * stride_of payload_size)
  slot_offset-value i e =
      let h : i < capacity = slot_offset-lt i capacity (stride_of payload_size) e in
      (h, ground (arith, slot_offset-eq i capacity payload_size s h))

  -- One slot's bytes end before a later slot begins.
  stride_room :
      (i j : ℕ)
      → i < j
      → i * stride_of payload_size + slot_header_size + payload_size ≤ j * stride_of payload_size
  stride_room i j h = omega (arith, mul-le-mul_right (stride_of payload_size) h)

-- A slot is 64-byte aligned, holds its header and payload, and lies in the mapping.
pub slot-in-mapping :
    (i capacity payload_size size offset : ℕ)
    → IsShape capacity payload_size
    → mapping_size_for capacity payload_size ≡ some size
    → slot_offset i capacity (stride_of payload_size) ≡ some offset
    → (offset % 64 ≡ 0)
      × (first_slot_offset ≤ offset)
      × (offset + slot_header_size + payload_size ≤ size)
slot-in-mapping i capacity payload_size size offset s e f = ground (
  arith,
  mapping_size_for-eq capacity payload_size s,
  slot_offset-value s i f,
  stride_room s i capacity,
)

-- The slots of distinct indices do not overlap.
pub slots_disjoint :
    (i j capacity payload_size p q : ℕ)
    → IsShape capacity payload_size
    → i ≢ j
    → slot_offset i capacity (stride_of payload_size) ≡ some p
    → slot_offset j capacity (stride_of payload_size) ≡ some q
    → (p + slot_header_size + payload_size ≤ q) ⊎ (q + slot_header_size + payload_size ≤ p)
slots_disjoint i j capacity payload_size p q s n e f =
    ground (
      arith,
      slot_offset-value s i e,
      slot_offset-value s j f,
      stride_room s i j,
      stride_room s j i,
    )
