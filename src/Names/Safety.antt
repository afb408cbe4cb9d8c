-- ===== src/Names/Safety.antt =====
-- What a valid name cannot contain, and that objects of different things have different names
-- (src/edge_runtime/channel/channel_layout.cpp, src/edge_runtime/queue/mpmc_queue.cpp).
use edge_runtime.Common.{
  length, ℕ, ◌≤◌, ◌≡◌, refl, sym, ap, ◌∙◌, ◌≢◌, true, false, List, [], ◌∷◌, ◌++◌, arith,
}
use edge_runtime.Names.{
  max_channel_name_len, allowed, all_allowed, no_dot_dot, validate_channel_name, channel_shm_name,
  mpmc_shm_name,
}

-- The bytes that the code allows, one by one
abbrev pub IsSafe : ℕ → Type 0
IsSafe c = (45 ≤ c) × (c ≤ 122) × (c ≢ 47)

allowed-IsSafe : (c : ℕ) → allowed c ≡ true → IsSafe c
unfolding allowed
allowed-IsSafe c h = ground arith

all_allowed-IsSafe :
    (pre : List ℕ) (c : ℕ) (suf : List ℕ) → all_allowed (pre ++ c ∷ suf) ≡ true → IsSafe c
unfolding all_allowed
all_allowed-IsSafe [] c suf h = ground (arith, allowed-IsSafe c)
all_allowed-IsSafe (d ∷ pre) c suf h = ground (arith, all_allowed-IsSafe pre c suf)

no_dot_dot-split : (pre suf : List ℕ) → no_dot_dot (pre ++ 46 ∷ 46 ∷ suf) ≡ false
unfolding no_dot_dot
no_dot_dot-split [] suf = refl
no_dot_dot-split (c ∷ []) suf = ground arith
no_dot_dot-split (c ∷ d ∷ pre) suf = ground (arith, no_dot_dot-split (d ∷ pre) suf)

pub validate_channel_name-parts :
    (name : List ℕ)
    → validate_channel_name name ≡ true
    → (1 ≤ length name)
      × (length name ≤ max_channel_name_len)
      × (all_allowed name ≡ true)
      × (no_dot_dot name ≡ true)
unfolding validate_channel_name
validate_channel_name-parts name h = ground arith

-- A valid name has one to 64 bytes, none of them a slash, a NUL or a control character, and never
-- two dots in a row: wherever the name is cut, the next byte is a safe one, and the next two are not
-- both dots. So it is one component of a path, and not the parent directory.
pub validate_channel_name-IsSafe :
    (name : List ℕ)
    → validate_channel_name name ≡ true
    → (1 ≤ length name)
      × (length name ≤ 64)
      × ((pre suf : List ℕ) (c : ℕ) → name ≡ pre ++ c ∷ suf → IsSafe c)
      × ((pre suf : List ℕ) → name ≢ pre ++ 46 ∷ 46 ∷ suf)
validate_channel_name-IsSafe name h =
    let (some_bytes, few_bytes, a, d) = validate_channel_name-parts name h in
    (
      some_bytes,
      few_bytes,
      λ pre suf c e. all_allowed-IsSafe pre c suf (rw (← e) a),
      λ pre suf e.
          let clash : true ≡ false = sym d ∙ ap no_dot_dot e ∙ no_dot_dot-split pre suf in
          absurd (cc clash),
    )

-- The object of a queue never has the name of a channel's object, for any names and users, since the
-- digits of a user's id begin with no letter.
pub shm_names-apart :
    (first : ℕ) (uid uid' queue_name channel_name : List ℕ)
    → first ≤ 57
    → mpmc_shm_name uid' queue_name ≢ channel_shm_name (first ∷ uid) channel_name
unfolding mpmc_shm_name channel_shm_name
shm_names-apart first uid uid' queue_name channel_name l e =
    let same : 109 ≡ first = cc e in omega arith

append-inj : {A : Type 0} (p : List A) {x y : List A} → p ++ x ≡ p ++ y → x ≡ y
append-inj [] e = e
append-inj (a ∷ p) e = append-inj p (cc e)

-- Different names of one user's queues are different objects, and so are those of channels.
pub shm_names_injective :
    (uid name name' : List ℕ)
    → ((mpmc_shm_name uid name ≡ mpmc_shm_name uid name') → name ≡ name')
      × ((channel_shm_name uid name ≡ channel_shm_name uid name') → name ≡ name')
unfolding mpmc_shm_name channel_shm_name
shm_names_injective uid name name' = (
  λ e. append-inj (46 ∷ []) (append-inj uid (cc e)),
  λ e. append-inj (46 ∷ []) (append-inj uid (cc e)),
)
