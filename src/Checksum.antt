-- ===== src/Checksum.antt =====
-- The checksum of a header (src/edge_runtime/utility/checksum.cpp).
use Prim.Native.Nat.{bit_xor}
use edge_runtime.Common.{ℕ, ◌*◌, ◌%◌, ◌^◌, List, [], ◌∷◌}

-- kOffsetBasis
abbrev pub offset_basis : ℕ
offset_basis = 14695981039346656037

-- kPrime
abbrev pub fnv_prime : ℕ
fnv_prime = 1099511628211

-- The loop, from a hash on
unfoldable pub fnv_from : ℕ → List ℕ → ℕ
fnv_from hash [] = hash
fnv_from hash (b ∷ data_bytes) = fnv_from (bit_xor hash (b % 256) * fnv_prime % 2 ^ 64) data_bytes

unfoldable pub fnv1a64 : List ℕ → ℕ
fnv1a64 data_bytes = fnv_from offset_basis data_bytes
