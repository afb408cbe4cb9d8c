-- ===== src/Shared.antt =====
-- Shared memory that other processes change between two accesses
-- (src/edge_runtime/sync/shared_atomic.hpp), and the error results of the operations on it
-- (include/edge_runtime/common/result.hpp).
pub mod Laws
pub mod Keeps
use edge_runtime.Common.{◌==◌, if◌then◌else◌, ℕ, Bool, true, false, List, [], ◌∷◌}
use edge_runtime.Error.{ErrorCode}

-- `Result<T>`; of an `Error` only the code is kept.
pub data Result (A : Type 0) : Type 0 where
  ok : A → Result A
  err : ErrorCode → Result A

-- The memory, and what the other processes do to it before each of the coming accesses. Once the
-- list is used up nobody interferes.
pub record World (S : Type 0) : Type 0 where
  pub mem : S
  pub env : List (S → S)

abbrev pub settle : {S : Type 0} → S → List (S → S) → World S
settle m [] = record { mem = m; env = [] }
settle m (e ∷ es) = record { mem = e m; env = es }

-- The world in which the next access takes place.
abbrev pub tick : {S : Type 0} → World S → World S
tick w = settle w.mem w.env

-- A memory with which nobody interferes.
abbrev pub quiet : {S : Type 0} → S → World S
quiet m = record { mem = m; env = [] }

-- An operation of one process: it may fail, and leaves a world.
abbrev pub Action : Type 0 → Type 0 → Type 0
Action S A = World S → Result A × World S

unfoldable pub pure : {S A : Type 0} → A → Action S A
pure a w = (ok a, w)

unfoldable pub fail : {S A : Type 0} → ErrorCode → Action S A
fail e w = (err e, w)

-- Goes on after a success, and returns an error at once.
abbrev pub proceed : {S A B : Type 0} → Result A × World S → (A → Action S B) → Result B × World S
proceed (ok a, w) f = f a w
proceed (err e, w) f = (err e, w)

infixl 5 ◌>>=◌ ◌>>◌
unfoldable pub ◌>>=◌ : {S A B : Type 0} → Action S A → (A → Action S B) → Action S B
◌>>=◌ m f w = proceed (m w) f

unfoldable pub ◌>>◌ : {S B : Type 0} → Action S (Unit {0}) → Action S B → Action S B
◌>>◌ m k w = proceed (m w) (λ _. k)

abbrev pub clean_up : {S A : Type 0} → Action S (Unit {0}) → Result A × World S → Result A × World S
clean_up c (ok a, w) = (ok a, w)
clean_up c (err e, w) = (err e, (c w).1)

-- `if (!r) { cleanup; return r.error(); }`
unfoldable pub or_else : {S A : Type 0} → Action S (Unit {0}) → Action S A → Action S A
or_else c m w = clean_up c (m w)

-- The result as a value: `auto r = m;`
unfoldable pub attempt : {S A : Type 0} → Action S A → Action S (Result A)
attempt m w = (ok (m w).0, (m w).1)

-- `return error` unless the test holds.
unfoldable pub require : {S : Type 0} → Bool → ErrorCode → Action S (Unit {0})
require true e w = (ok tt, w)
require false e w = (err e, w)

-- A plain read of a field that nobody writes after creation
unfoldable pub read : {S A : Type 0} → (S → A) → Action S A
read get w = (ok (get w.mem), w)

-- shared_load_*
unfoldable pub shared_load : {S A : Type 0} → (S → A) → Action S A
shared_load get w = (ok (get (tick w).mem), tick w)

-- shared_store_*
unfoldable pub shared_store : {S : Type 0} → (S → S) → Action S (Unit {0})
shared_store put w = (ok tt, record { mem = put (tick w).mem; env = (tick w).env })

-- shared_cas_*
unfoldable pub shared_cas : {S : Type 0} → (S → ℕ) → ℕ → (S → S) → Action S Bool
shared_cas get expected put w =
    if get (tick w).mem == expected
    then (ok true, record { mem = put (tick w).mem; env = (tick w).env })
    else (ok false, tick w)
