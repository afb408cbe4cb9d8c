-- ===== src/Shared/Keeps.antt =====
-- What an action ensures while other processes keep to a relation between memories
-- (src/edge_runtime/sync/shared_atomic.hpp).
use edge_runtime.Common.{
  ◌==◌, if◌then◌else◌, Bool-cases, ℕ, ◌≡◌, refl, inl, inr, Bool, true, false, List, [], ◌∷◌,
}
use edge_runtime.Error.{ErrorCode}
use edge_runtime.Shared.{
  Result, ok, err, World, settle, tick, Action, pure, fail, proceed, ◌>>=◌, ◌>>◌, attempt, require,
  read, shared_load, shared_store, shared_cas,
}
use edge_runtime.Shared.Laws.{Rely}

module _ {S : Type 0} (R : S → S → Type 0) where
  -- What others cannot end
  pub record IsStable (I : S → Type 0) : Type 0 where
    pub kept : (m m' : S) → R m m' → I m → I m'

  -- A run ends with `Q` of its value, or with `E` where it fails; others go on keeping the relation.
  abbrev pub Ends : {A : Type 0} → (A → S → Type 0) → (S → Type 0) → Result A × World S → Type 0
  Ends Q E (ok a, w) = Q a w.mem × Rely R w.env
  Ends Q E (err e, w) = E w.mem × Rely R w.env

  -- From any memory with `I`
  pub record Ensures {A : Type 0} (I : S → Type 0) (Q : A → S → Type 0) (E : S → Type 0)
      (m : Action S A) : Type 0 where
    pub ends : (w : World S) → I w.mem → Rely R w.env → Ends Q E (m w)

  abbrev pub Keeps : {A : Type 0} → (S → Type 0) → Action S A → Type 0
  Keeps I m = Ensures I (λ a. I) I m

module _ {S : Type 0} {R : S → S → Type 0} where
  module _ {I : S → Type 0} (stable : IsStable R I) where
    pub tick_keeps : (w : World S) → I w.mem → Rely R w.env → I (tick w).mem × Rely R (tick w).env
    tick_keeps w i r = go w.mem w.env i r
      where
        go :
            (m : S) (es : List (S → S))
            → I m
            → Rely R es
            → I (settle m es).mem × Rely R (settle m es).env
        go m [] i r = (i, r)
        go m (e ∷ es) i r = (stable.kept m (e m) (r.0 m) i, r.1)

    pub load-Ensures :
        {A : Type 0} {Q : A → S → Type 0} {E : S → Type 0} (get : S → A)
        → ((m : S) → I m → Q (get m) m)
        → Ensures R I Q E (shared_load get)
    unfolding shared_load
    load-Ensures get q = record {
      ends = λ w i r. let (j, s) = tick_keeps w i r in (q (tick w).mem j, s);
    }

    pub store-Ensures :
        {Q : S → Type 0} {E : S → Type 0} (put : S → S)
        → ((m : S) → I m → Q (put m))
        → Ensures R I (λ a. Q) E (shared_store put)
    unfolding shared_store
    store-Ensures put q = record {
      ends = λ w i r. let (j, s) = tick_keeps w i r in (q (tick w).mem j, s);
    }

    pub cas-Keeps :
        (get : S → ℕ) (expected : ℕ) (put : S → S)
        → ((m : S) → I m → I (put m))
        → Keeps R I (shared_cas get expected put)
    unfolding shared_cas
    cas-Keeps get expected put q = record {
      ends = λ w i r.
          let (j, s) = tick_keeps w i r in
          elim (Bool-cases (get (tick w).mem == expected)) [
            | inl same ↦ rw same (q (tick w).mem j, s)
            | inr other ↦ rw other (j, s)
          ];
    }

  module _ {A B : Type 0} {I : S → Type 0} {P : A → S → Type 0} {Q : B → S → Type 0}
      {E : S → Type 0} where
    pub bind-Ensures :
        (m : Action S A) (f : A → Action S B)
        → Ensures R I P E m
        → ((a : A) → Ensures R (P a) Q E (f a))
        → Ensures R I Q E (m >>= f)
    unfolding ◌>>=◌
    bind-Ensures m f p q = record { ends = λ w i r. go (m w) (p.ends w i r) }
      where
        go : (t : Result A × World S) → Ends R P E t → Ends R Q E (proceed t f)
        go (ok a, u) h = (q a).ends u h.0 h.1
        go (err e, u) h = h

  module _ {B : Type 0} {I P : S → Type 0} {Q : B → S → Type 0} {E : S → Type 0} where
    pub then-Ensures :
        (m : Action S (Unit {0})) (k : Action S B)
        → Ensures R I (λ a. P) E m
        → Ensures R P Q E k
        → Ensures R I Q E (m >> k)
    unfolding ◌>>◌
    then-Ensures m k p q = record { ends = λ w i r. go (m w) (p.ends w i r) }
      where
        go :
            (t : Result (Unit {0}) × World S)
            → Ends R (λ a. P) E t
            → Ends R Q E (proceed t (λ _. k))
        go (ok x, u) h = q.ends u h.0 h.1
        go (err e, u) h = h

  module _ {A : Type 0} {I : S → Type 0} {Q : A → S → Type 0} {E : S → Type 0} where
    pub pure-Ensures : (a : A) → ((m : S) → I m → Q a m) → Ensures R I Q E (pure a)
    unfolding pure
    pure-Ensures a q = record { ends = λ w i r. (q w.mem i, r) }

    pub fail-Ensures : (e : ErrorCode) → ((m : S) → I m → E m) → Ensures R I Q E (fail e)
    unfolding fail
    fail-Ensures e q = record { ends = λ w i r. (q w.mem i, r) }

    pub read-Ensures : (get : S → A) → ((m : S) → I m → Q (get m) m) → Ensures R I Q E (read get)
    unfolding read
    read-Ensures get q = record { ends = λ w i r. (q w.mem i, r) }

    pub if-Ensures :
        (b : Bool) {x y : Action S A}
        → Ensures R I Q E x
        → Ensures R I Q E y
        → Ensures R I Q E (if b then x else y)
    if-Ensures true p q = p
    if-Ensures false p q = q

    -- What holds of every successful run besides
    pub fact-Ensures :
        {F : A → Type 0} (m : Action S A)
        → Ensures R I Q E m
        → ((w w' : World S) (a : A) → m w ≡ (ok a, w') → F a)
        → Ensures R I (λ a n. Q a n × F a) E m
    fact-Ensures {F} m p f = record { ends = λ w i r. go w (m w) refl (p.ends w i r) }
      where
        go :
            (w : World S) (t : Result A × World S)
            → m w ≡ t
            → Ends R Q E t
            → Ends R (λ a n. Q a n × F a) E t
        go w (ok a, u) e h = ((h.0, f w u a e), h.1)
        go w (err c, u) e h = h

    -- A run may end with less.
    pub weaker-Ensures :
        {P : A → S → Type 0} {D : S → Type 0} (m : Action S A)
        → Ensures R I P D m
        → ((a : A) (n : S) → P a n → Q a n)
        → ((n : S) → D n → E n)
        → Ensures R I Q E m
    weaker-Ensures {P} {D} m p q e = record { ends = λ w i r. go (m w) (p.ends w i r) }
      where
        go : (t : Result A × World S) → Ends R P D t → Ends R Q E t
        go (ok a, u) h = (q a u.mem h.0, h.1)
        go (err c, u) h = (e u.mem h.0, h.1)

  module _ {A : Type 0} {I : S → Type 0} where
    pub kept-run :
        (m : Action S A) (w : World S)
        → Keeps R I m
        → I w.mem
        → Rely R w.env
        → I (m w).1.mem × Rely R (m w).1.env
    kept-run m w p i r = go (m w) (p.ends w i r)
      where
        go : (t : Result A × World S) → Ends R (λ a. I) I t → I t.1.mem × Rely R t.1.env
        go (ok a, u) h = h
        go (err c, u) h = h

    pub attempt-Keeps : (m : Action S A) → Keeps R I m → Keeps R I (attempt m)
    unfolding attempt
    attempt-Keeps m p = record { ends = λ w i r. kept-run m w p i r }

    -- What is known apart from the memory
    pub given-Ensures :
        {Q : A → S → Type 0} {E : S → Type 0} {F : Type 0} (m : Action S A)
        → (F → Ensures R I Q E m)
        → Ensures R (λ n. I n × F) Q E m
    given-Ensures m p = record { ends = λ w i r. (p i.1).ends w i.0 r }

  module _ {I E : S → Type 0} where
    pub require-Ensures :
        (b : Bool) (e : ErrorCode) → ((m : S) → I m → E m) → Ensures R I (λ a. I) E (require b e)
    unfolding require
    require-Ensures true e q = record { ends = λ w i r. (i, r) }
    require-Ensures false e q = record { ends = λ w i r. (q w.mem i, r) }
