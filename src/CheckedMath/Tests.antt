-- ===== src/CheckedMath/Tests.antt =====
-- The theorems on checked arithmetic at concrete numbers (src/edge_runtime/utility/checked_math.hpp).
use edge_runtime.Common.{u64_max, ◌+◌, ◌%◌, ◌≤◌, ◌<◌, ◌≡◌, refl, arith}
use edge_runtime.CheckedMath.{round_up_to_multiple}
use edge_runtime.CheckedMath.Bounds.{round_up_to_multiple-least}

round_up_to_multiple-least_example : (65 ≤ 128) × (128 < 65 + 64) × (128 % 64 ≡ 0) × (128 ≤ u64_max)
round_up_to_multiple-least_example =
    round_up_to_multiple-least 65 64 128 (omega arith) (omega arith)
      (unfold round_up_to_multiple in refl)
