-- ===== src/Names.antt =====
-- Names of channels and queues, and of their objects, as lists of bytes
-- (src/edge_runtime/channel/channel_layout.cpp, src/edge_runtime/queue/mpmc_queue.cpp). The decimal
-- digits of the user's id, `std::to_string(getuid())`, are a parameter.
pub mod Safety
mod Tests
use edge_runtime.Common.{
  ltb, leb, ◌==◌, if◌then◌else◌, length, ℕ, Bool, true, false, not, ◌&&◌, ◌||◌, List, [], ◌∷◌, ◌++◌,
}

-- kMaxChannelNameLen
abbrev pub max_channel_name_len : ℕ
max_channel_name_len = 64

unfoldable pub allowed : ℕ → Bool
allowed c =
    (leb 97 c && leb c 122)
    || (leb 65 c && leb c 90)
    || (leb 48 c && leb c 57)
    || c == 95
    || c == 46
    || c == 45

unfoldable pub all_allowed : List ℕ → Bool
all_allowed [] = true
all_allowed (c ∷ name) = if not (allowed c) then false else all_allowed name

-- The loop over the pairs of neighbours: whether it runs to its end
unfoldable pub no_dot_dot : List ℕ → Bool
no_dot_dot [] = true
no_dot_dot (c ∷ []) = true
no_dot_dot (c ∷ d ∷ name) = if c == 46 && d == 46 then false else no_dot_dot (d ∷ name)

unfoldable pub validate_channel_name : List ℕ → Bool
validate_channel_name name =
    if ltb (length name) 1 || ltb max_channel_name_len (length name)
    then false
    else if not (all_allowed name)
    then false
    else no_dot_dot name

-- "/edgeruntime."
abbrev pub shm_prefix : List ℕ
shm_prefix = 47 ∷ 101 ∷ 100 ∷ 103 ∷ 101 ∷ 114 ∷ 117 ∷ 110 ∷ 116 ∷ 105 ∷ 109 ∷ 101 ∷ 46 ∷ []

unfoldable pub channel_shm_name : List ℕ → List ℕ → List ℕ
channel_shm_name uid channel_name = shm_prefix ++ uid ++ 46 ∷ channel_name

-- With "mpmc." after the prefix
unfoldable pub mpmc_shm_name : List ℕ → List ℕ → List ℕ
mpmc_shm_name uid queue_name = shm_prefix ++ 109 ∷ 112 ∷ 109 ∷ 99 ∷ 46 ∷ uid ++ 46 ∷ queue_name
