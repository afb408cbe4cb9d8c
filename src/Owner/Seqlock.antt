-- ===== src/Owner/Seqlock.antt =====
-- What the writers of an owner keep to, as a relation on memories
-- (src/edge_runtime/sync/owner_snapshot.hpp).
use edge_runtime.Common.{◌%◌, ◌≤◌, ◌≡◌, refl, sym, ◌∙◌, subst, arith}
use edge_runtime.Owner.{Cell}
use edge_runtime.Shared.{World, tick}
use edge_runtime.Shared.Laws.{Rely, Rely-tick}

-- What writers keep to: the epoch never falls, and the identity fields change only while the epoch
-- is odd, so that one even epoch stands for one identity.
pub record Seqlock {S : Type 0} (c : Cell S) (m m' : S) : Type 0 where
  pub grows : c.epoch m ≤ c.epoch m'
  pub kept : c.epoch m ≡ c.epoch m' → c.epoch m % 2 ≡ 0 → c.owner m' ≡ c.owner m

module _ {S : Type 0} (c : Cell S) where
  pub Seqlock-refl : (m : S) → Seqlock c m m
  Seqlock-refl m = record { grows = omega arith; kept = λ _ _. refl }

  pub Seqlock-trans : (a b d : S) → Seqlock c a b → Seqlock c b d → Seqlock c a d
  Seqlock-trans a b d p q = record {
    grows = omega (arith, p.grows, q.grows);
    kept = λ e v.
        let same : c.epoch a ≡ c.epoch b = omega (arith, p.grows, q.grows) in
        q.kept (omega (arith, p.grows, q.grows)) (rw (← same) v) ∙ p.kept same v;
  }

-- `w'` comes after `w` under an environment that keeps to the protocol, which goes on.
pub record Passed {S : Type 0} (c : Cell S) (w w' : World S) : Type 0 where
  pub path : Seqlock c w.mem w'.mem
  pub rest : Rely (Seqlock c) w'.env

module _ {S : Type 0} (c : Cell S) where
  pub Passed-tick : (w : World S) → Rely (Seqlock c) w.env → Passed c w (tick w)
  Passed-tick w r =
      let p = Rely-tick (Seqlock c) (Seqlock-refl c) w r in record { path = p.0; rest = p.1 }

  pub Passed-trans : {u v w : World S} → Passed c u v → Passed c v w → Passed c u w
  Passed-trans {u} {v} {w} p q = record {
    path = Seqlock-trans c u.mem v.mem w.mem p.path q.path;
    rest = q.rest;
  }

  -- One access later
  pub Passed-next : {u v : World S} → Passed c u v → Passed c u (tick v)
  Passed-next {u} {v} p = Passed-trans p (Passed-tick v p.rest)

  pub Rely-at : {u v : World S} (w : World S) → Passed c u v → v ≡ w → Rely (Seqlock c) w.env
  Rely-at w p e = subst (λ (x : World S). Rely (Seqlock c) x.env) e p.rest

  -- Between two moments of one even epoch the identity is the same.
  pub same_owner :
      {u v w : World S}
      → Passed c u v
      → Passed c v w
      → c.epoch u.mem ≡ c.epoch w.mem
      → c.epoch u.mem % 2 ≡ 0
      → c.owner v.mem ≡ c.owner w.mem
  same_owner {u} {v} {w} p q e z = sym (
      q.path.kept (omega (arith, p.path.grows, q.path.grows)) (
        rw (let f : c.epoch v.mem ≡ c.epoch u.mem = omega (arith, p.path.grows, q.path.grows) in f)
          z))
