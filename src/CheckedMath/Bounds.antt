-- ===== src/CheckedMath/Bounds.antt =====
-- What checked arithmetic returns, against arithmetic without bounds
-- (src/edge_runtime/utility/checked_math.hpp).
use Prim.Native.Nat.{min}
use native.Mathlib.Decide.{dec_lt}
use native.Mathlib.Nat.{
  mod-add-mod, mod_self, mul-le-mul_left, mul_comm, le-div_iff_mul-le, div-lt_iff_lt-mul,
  div-add-mod, mod-lt,
}
use edge_runtime.Common.{
  sym, ap, ◌∙◌, ℕ, ◌+◌, ◌-◌, ◌*◌, ◌/◌, ◌%◌, ◌≤◌, ◌<◌, ◌≡◌, ◌≢◌, true, none, some, arith, u64_max,
  leb, if◌then◌else◌,
}
use mathlib.Core.Logic.{◌↔◌}
use edge_runtime.CheckedMath.{
  checked_add, checked_mul, saturating_mul, elapsed_exceeds, round_up_to_multiple,
}

-- For 64-bit operands the checked sum is the true sum where that fits in 64 bits, and is refused
-- exactly where it does not.
pub checked_add-eq :
    (a b : ℕ) → a ≤ u64_max → checked_add a b ≡ (if leb (a + b) u64_max then some (a + b) else none)
unfolding checked_add
checked_add-eq a b h = ground arith

mul_fits : (a b : ℕ) → 0 < a → b ≤ u64_max / a → a * b ≤ u64_max
mul_fits a b h k = rw mul_comm ((le-div_iff_mul-le h).0 k)

mul_overflows : (a b : ℕ) → 0 < a → u64_max / a < b → u64_max < a * b
mul_overflows a b h k = rw mul_comm ((div-lt_iff_lt-mul h).0 k)

-- The checked product is the true product where that fits in 64 bits, and is refused exactly where
-- it does not.
pub checked_mul-eq :
    (a b : ℕ) → checked_mul a b ≡ (if leb (a * b) u64_max then some (a * b) else none)
unfolding checked_mul
checked_mul-eq a b = ground (arith, mul_fits a b, mul_overflows a b)

-- The saturating product is the smaller of the true product and the largest 64-bit number.
pub saturating_mul-eq-min : (a b : ℕ) → saturating_mul a b ≡ min (a * b) u64_max
unfolding saturating_mul
saturating_mul-eq-min a b = ground (arith, checked_mul-eq a b)

-- The test for an elapsed limit holds exactly where `now` is later than the limit after `then`; a
-- clock that went backwards never passes it.
pub elapsed_exceeds_iff :
    (now then_ns limit : ℕ) → (elapsed_exceeds now then_ns limit ≡ true) ↔ (then_ns + limit < now)
unfolding elapsed_exceeds
elapsed_exceeds_iff now then_ns limit = ground arith

-- Where an increment carries a number to the next multiple.
next_multiple : (v align : ℕ) → 0 < align → (v + (align - v % align)) % align ≡ 0
next_multiple v align h =
    sym (mod-add-mod v align (align - v % align))
    ∙ ap (λ t. t % align) (omega (arith, mod-lt v h))
    ∙ mod_self align

-- A multiple of `align` from `v` on is at least the next one.
le_multiple :
    (v align m : ℕ)
    → 0 < align
    → m % align ≡ 0
    → v ≤ m
    → v % align ≢ 0
    → v + (align - v % align) ≤ m
le_multiple v align m h e k n = elim (dec_lt (v / align) (m / align)) [
  | yes p ↦
      omega (arith, div-add-mod v align, div-add-mod m align, mod-lt v h, mul-le-mul_left align p)
  | no p ↦ omega (
    arith,
    div-add-mod v align,
    div-add-mod m align,
    mul-le-mul_left align (let q : m / align ≤ v / align = omega arith in q),
  )
]

-- Rounding up to a positive alignment returns, where it succeeds, the least multiple of the
-- alignment that is not below the number, and a 64-bit number.
pub round_up_to_multiple-least :
    (v align r : ℕ)
    → 0 < align
    → v ≤ u64_max
    → round_up_to_multiple v align ≡ some r
    → (v ≤ r) × (r < v + align) × (r % align ≡ 0) × (r ≤ u64_max)
unfolding round_up_to_multiple
round_up_to_multiple-least v align r h k e = ground (arith, next_multiple v align h)

-- Rounding up to a positive alignment fails only where no 64-bit multiple of the alignment is left
-- above the number.
pub round_up_to_multiple-none :
    (v align m : ℕ)
    → 0 < align
    → v ≤ u64_max
    → round_up_to_multiple v align ≡ none
    → m % align ≡ 0
    → v ≤ m
    → u64_max < m
unfolding round_up_to_multiple
round_up_to_multiple-none v align m h k e d l = ground (arith, le_multiple v align m)
