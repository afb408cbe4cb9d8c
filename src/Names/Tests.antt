-- ===== src/Names/Tests.antt =====
-- The theorems on names at "q.1" (src/edge_runtime/channel/channel_layout.cpp).
use edge_runtime.Common.{length, ℕ, ◌≤◌, ◌≡◌, refl, ◌≢◌, List, [], ◌∷◌, ◌++◌, arith}
use edge_runtime.Names.{
  allowed, all_allowed, no_dot_dot, validate_channel_name, channel_shm_name, mpmc_shm_name,
}
use edge_runtime.Names.Safety.{
  IsSafe, validate_channel_name-IsSafe, shm_names-apart, shm_names_injective,
}

abbrev name : List ℕ
name = 113 ∷ 46 ∷ 49 ∷ []

abbrev root_id : List ℕ
root_id = 48 ∷ []

validate_channel_name-IsSafe_example :
    (1 ≤ length name)
    × (length name ≤ 64)
    × ((pre suf : List ℕ) (c : ℕ) → name ≡ pre ++ c ∷ suf → IsSafe c)
    × ((pre suf : List ℕ) → name ≢ pre ++ 46 ∷ 46 ∷ suf)
unfolding validate_channel_name all_allowed allowed no_dot_dot
validate_channel_name-IsSafe_example = validate_channel_name-IsSafe name refl

shm_names-apart_example : mpmc_shm_name root_id name ≢ channel_shm_name root_id name
shm_names-apart_example = shm_names-apart 48 [] root_id name name (omega arith)

shm_names_injective_example :
    ((mpmc_shm_name root_id name ≡ mpmc_shm_name root_id name) → name ≡ name)
    × ((channel_shm_name root_id name ≡ channel_shm_name root_id name) → name ≡ name)
shm_names_injective_example = shm_names_injective root_id name name
