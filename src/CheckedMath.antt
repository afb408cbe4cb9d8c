-- ===== src/CheckedMath.antt =====
-- Checked 64-bit arithmetic (src/edge_runtime/utility/checked_math.hpp). A function that returns
-- `bool` and writes `*out` returns the written value, or `none` for `false`.
pub mod Bounds
mod Tests
use edge_runtime.Common.{
  ℕ, ◌+◌, ◌-◌, ◌*◌, ◌/◌, ◌%◌, ◌^◌, ◌≤◌, ◌<◌, ◌≡◌, refl, Bool, Option, none, some, not, ◌&&◌, arith,
  u64_max, ltb, leb, ◌==◌, if◌then◌else◌,
}

unfoldable pub checked_add : ℕ → ℕ → Option ℕ
checked_add a b = if ltb (u64_max - a) b then none else some ((a + b) % 2 ^ 64)

unfoldable pub checked_mul : ℕ → ℕ → Option ℕ
checked_mul a b = if not (a == 0) && ltb (u64_max / a) b then none else some ((a * b) % 2 ^ 64)

pub saturating_mul : ℕ → ℕ → ℕ
saturating_mul a b = elim (checked_mul a b) [ some out ↦ out | none ↦ u64_max ]

pub elapsed_exceeds : ℕ → ℕ → ℕ → Bool
elapsed_exceeds now then_ns limit = leb then_ns now && ltb limit (now - then_ns)

unfoldable pub round_up_to_multiple : ℕ → ℕ → Option ℕ
round_up_to_multiple v align =
    if align == 0
    then none
    else if v % align == 0
    then some v
    else if ltb (u64_max - (align - v % align)) v
    then none
    else some ((v + (align - v % align)) % 2 ^ 64)
