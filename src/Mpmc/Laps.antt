-- ===== src/Mpmc/Laps.antt =====
-- Which positions of a queue share a slot (src/edge_runtime/queue/mpmc_queue.cpp).
use native.Mathlib.Nat.{div-add-mod, mul-le-mul_left, mul-le-mul_right, add-mod_right}
use native.Mathlib.Decide.{dec_lt}
use edge_runtime.Common.{ℕ, suc, ◌+◌, ◌*◌, ◌/◌, ◌%◌, ◌≤◌, ◌<◌, ◌≡◌, sym, ap, ◌≢◌, arith}
use edge_runtime.Mpmc.Invariant.{offset_of}
use edge_runtime.Mpmc.Layout.{first_slot_offset}
use edge_runtime.Mpmc.Layout.Regions.{stride_of, IsShape}
use edge_runtime.Mpmc.State.{Memory}

-- Positions less than one lap apart have different slots.
mod_distinct : (c p q : ℕ) → p < q → q < p + c → p % c ≢ q % c
mod_distinct c p q l k e = elim (dec_lt (p / c) (q / c)) [
  | yes h ↦ omega (arith, div-add-mod p c, div-add-mod q c, mul-le-mul_left c h)
  | no h ↦ omega (
    arith,
    div-add-mod p c,
    div-add-mod q c,
    mul-le-mul_left c (let n : q / c ≤ p / c = omega arith in n),
  )
]

-- Slots at different indices lie at different offsets.
pub offset_distinct : (stride i j : ℕ) → 0 < stride → i ≢ j → i * stride ≢ j * stride
offset_distinct stride i j h n e = elim (dec_lt i j) [
  | yes l ↦ omega (arith, mul-le-mul_right stride l)
  | no l ↦ omega (arith, mul-le-mul_right stride (let g : suc j ≤ i = omega arith in g))
]

module _ (m : Memory) (s : IsShape m.capacity m.payload_size) where
  pub offset_of-ne : (p q : ℕ) → p < q → q < p + m.capacity → offset_of m p ≢ offset_of m q
  offset_of-ne p q l k e =
      offset_distinct (stride_of m.payload_size) (p % m.capacity) (q % m.capacity) (omega arith)
        (mod_distinct m.capacity p q l k) (omega (arith, e))

  -- One lap later the slot is the same.
  pub offset_of-lap : (p : ℕ) → offset_of m (p + m.capacity) ≡ offset_of m p
  offset_of-lap p =
      ap (λ (i : ℕ). first_slot_offset + i * stride_of m.payload_size) (add-mod_right p m.capacity)

  pub offset_of-distinct :
      (p q : ℕ) → p ≢ q → p < q + m.capacity → q < p + m.capacity → offset_of m p ≢ offset_of m q
  offset_of-distinct p q n l k = elim (dec_lt p q) [
    | yes below ↦ offset_of-ne p q below k
    | no above ↦ λ e. offset_of-ne q p (omega arith) l (sym e)
  ]
