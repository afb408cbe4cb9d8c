-- ===== src/Shared/Laws.antt =====
-- How actions compose, what a quiet memory does, and what an environment guarantees.
use edge_runtime.Common.{if◌then◌else◌, ◌≡◌, refl, ◌≢◌, Bool, true, false, List, [], ◌∷◌}
use edge_runtime.Error.{ErrorCode}
use edge_runtime.Shared.{
  Result, ok, err, World, settle, tick, quiet, Action, pure, fail, proceed, ◌>>=◌, ◌>>◌, or_else,
  attempt, require, shared_load, shared_store,
}

module _ {S A B : Type 0} (m : Action S A) (f : A → Action S B) {w w' : World S} where
  pub bind_ok : {a : A} {r : Result B × World S} → m w ≡ (ok a, w') → f a w' ≡ r → (m >>= f) w ≡ r
  unfolding ◌>>=◌
  bind_ok p q = rw p q

  pub bind_err : {e : ErrorCode} → m w ≡ (err e, w') → (m >>= f) w ≡ (err e, w')
  unfolding ◌>>=◌
  bind_err p = rw p

module _ {S B : Type 0} (m : Action S (Unit {0})) (k : Action S B) {w w' : World S} where
  pub then_ok : {r : Result B × World S} → m w ≡ (ok tt, w') → k w' ≡ r → (m >> k) w ≡ r
  unfolding ◌>>◌
  then_ok p q = rw p q

  pub then_err : {e : ErrorCode} → m w ≡ (err e, w') → (m >> k) w ≡ (err e, w')
  unfolding ◌>>◌
  then_err p = rw p

module _ {S A : Type 0} (c : Action S (Unit {0})) (m : Action S A) {w w' : World S} where
  pub or_else_ok : {a : A} → m w ≡ (ok a, w') → or_else c m w ≡ (ok a, w')
  unfolding or_else
  or_else_ok p = rw p

  pub or_else_err :
      {e : ErrorCode} {u : World S} {r : Result (Unit {0})}
      → m w ≡ (err e, w')
      → c w' ≡ (r, u)
      → or_else c m w ≡ (err e, u)
  unfolding or_else
  or_else_err p q = rw (p, q)

pub attempt_eq :
    {S A : Type 0} (m : Action S A) {w w' : World S} {r : Result A}
    → m w ≡ (r, w')
    → attempt m w ≡ (ok r, w')
unfolding attempt
attempt_eq m p = rw p refl

-- What holds of every step of the environment.
abbrev pub Rely : {S : Type 0} → (S → S → Type 0) → List (S → S) → Type 0
Rely R [] = Unit
Rely {S} R (e ∷ es) = ((m : S) → R m (e m)) × Rely R es

module _ {S : Type 0} (R : S → S → Type 0) (R_refl : (m : S) → R m m) where
  -- Before an access the environment takes one step of its relation, and goes on keeping it.
  pub Rely-tick : (w : World S) → Rely R w.env → R w.mem (tick w).mem × Rely R (tick w).env
  Rely-tick w r = go w.mem w.env r
    where
      go :
          (m : S) (es : List (S → S)) → Rely R es → R m (settle m es).mem × Rely R (settle m es).env
      go m [] r = (R_refl m, tt)
      go m (e ∷ es) r = (r.0 m, r.1)

-- A successful composition was successful in both parts.
pub >>=-eq-ok :
    {S A B : Type 0} (m : Action S A) (f : A → Action S B) {w w' : World S} {b : B}
    → (m >>= f) w ≡ (ok b, w')
    → (a : A) × (u : World S) × (m w ≡ (ok a, u)) × (f a u ≡ (ok b, w'))
unfolding ◌>>=◌
>>=-eq-ok {S} {A} {B} m f {w} {w'} {b} h = go (m w) refl h
  where
    go :
        (t : Result A × World S)
        → m w ≡ t
        → proceed t f ≡ (ok b, w')
        → (a : A) × (u : World S) × (m w ≡ (ok a, u)) × (f a u ≡ (ok b, w'))
    go (ok a, u) e k = (a, u, e, k)
    go (err e, u) q k = absurd (cc k)

pub fail-ne-ok :
    {S A : Type 0} (e : ErrorCode) (w : World S) {a : A} {w' : World S} → fail e w ≢ (ok a, w')
unfolding fail
fail-ne-ok e w = cc

pub pure-eq-ok :
    {S A : Type 0} (w : World S) {w' : World S} {a b : A} → pure a w ≡ (ok b, w') → a ≡ b
unfolding pure
pure-eq-ok w e = cc e

pub >>-eq-ok :
    {S B : Type 0} (m : Action S (Unit {0})) (k : Action S B) {w w' : World S} {b : B}
    → (m >> k) w ≡ (ok b, w')
    → (u : World S) × (m w ≡ (ok tt, u)) × (k u ≡ (ok b, w'))
unfolding ◌>>◌
>>-eq-ok {S} {B} m k {w} {w'} {b} h = go (m w) refl h
  where
    go :
        (t : Result (Unit {0}) × World S)
        → m w ≡ t
        → proceed t (λ _. k) ≡ (ok b, w')
        → (u : World S) × (m w ≡ (ok tt, u)) × (k u ≡ (ok b, w'))
    go (ok tt, u) e f = (u, e, f)
    go (err e, u) q f = absurd (cc f)

module _ {S A : Type 0} (x y : Action S A) {b : Bool} {w : World S} {r : Result A × World S} where
  pub if_yes : b ≡ true → x w ≡ r → (if b then x else y) w ≡ r
  if_yes e p = rw e p

  pub if_no : b ≡ false → y w ≡ r → (if b then x else y) w ≡ r
  if_no e p = rw e p

pub load-quiet :
    {S A : Type 0} (get : S → A) (m : S) → shared_load get (quiet m) ≡ (ok (get m), quiet m)
unfolding shared_load
load-quiet get m = refl

pub store-quiet :
    {S : Type 0} (put : S → S) (m : S) → shared_store put (quiet m) ≡ (ok tt, quiet (put m))
unfolding shared_store
store-quiet put m = refl

pub require-ok :
    {S : Type 0} {b : Bool} (e : ErrorCode) (w : World S) → b ≡ true → require b e w ≡ (ok tt, w)
unfolding require
require-ok e w p = rw p refl
