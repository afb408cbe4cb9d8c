-- ===== src/Common/Lists.antt =====
-- Lists measured by native numbers, under the library's names.
use Prim.Native.Nat.{ℕ, zero, suc, ◌+◌}
use mathlib.Core.Path.{◌≡◌, refl, ap}
use mathlib.Core.List.{List, [], ◌∷◌, ◌++◌}
use native.Mathlib.Omega.{arith}

module _ {ℓ} {A : Type ℓ} where
  abbrev pub length : List A → ℕ
  length [] = 0
  length (x ∷ xs) = suc (length xs)

  pub length-append : (xs ys : List A) → length (xs ++ ys) ≡ length xs + length ys
  length-append [] ys = omega arith
  length-append (x ∷ xs) ys = omega (arith, length-append xs ys)

module _ {ℓ} {A : Type ℓ} where
  abbrev pub replicate : ℕ → A → List A
  replicate zero a = []
  replicate (suc n) a = a ∷ replicate n a

  pub length-replicate : (n : ℕ) (a : A) → length (replicate n a) ≡ n
  length-replicate zero a = refl
  length-replicate (suc n) a = omega (arith, length-replicate n a)

  -- A copy of the first list over the second, as far as that reaches
  abbrev pub overwrite : List A → List A → List A
  overwrite xs [] = []
  overwrite [] (y ∷ ys) = y ∷ ys
  overwrite (x ∷ xs) (y ∷ ys) = x ∷ overwrite xs ys

  pub overwrite-whole : (xs ys : List A) → length xs ≡ length ys → overwrite xs ys ≡ xs
  overwrite-whole [] [] e = refl
  overwrite-whole [] (y ∷ ys) e = absurd (omega arith)
  overwrite-whole (x ∷ xs) [] e = absurd (omega arith)
  overwrite-whole (x ∷ xs) (y ∷ ys) e = ap (◌∷◌ x) (overwrite-whole xs ys (omega arith))
