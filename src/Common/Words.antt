-- ===== src/Common/Words.antt =====
-- Machine words as native numbers.
use Prim.Native.Nat.{ℕ, ◌-◌, ◌^◌}

-- UINT64_MAX
abbrev pub u64_max : ℕ
u64_max = 2 ^ 64 - 1

-- UINT32_MAX
abbrev pub u32_max : ℕ
u32_max = 2 ^ 32 - 1
