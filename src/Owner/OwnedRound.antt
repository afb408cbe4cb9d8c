-- ===== src/Owner/OwnedRound.antt =====
-- A round of a snapshot that finds an owned state, while other processes write
-- (src/edge_runtime/sync/owner_snapshot.hpp).
use edge_runtime.Common.{
  ◌==◌, if◌then◌else◌, ℕ, ◌%◌, ◌≡◌, refl, ap, ◌∙◌, subst, ◌≢◌, Bool, true, not, Option, none, some,
  arith,
}
use edge_runtime.Owner.{
  Owner, SnapshotKind, StateKind, OwnerSnapshot, Cell, load_owner, judge_inactive, judge_owned,
  owned_round,
}
use edge_runtime.Owner.Seqlock.{Seqlock, Passed, Passed-tick, Passed-trans, Passed-next, same_owner}
use edge_runtime.Shared.{ok, World, tick, pure, ◌>>=◌, shared_load}
use edge_runtime.Shared.Laws.{Rely}

module _ {S : Type 0} (c : Cell S) where
  -- What `load_owner` reads, field by field, and the world that it leaves.
  load_owner-eq :
      (w : World S)
      → load_owner c w ≡ (
        ok (record {
          pid = (c.owner (tick w).mem).pid;
          proc_start_ticks = (c.owner (tick (tick w)).mem).proc_start_ticks;
          boot_id_hash_hi = (c.owner (tick (tick (tick w))).mem).boot_id_hash_hi;
          boot_id_hash_lo = (c.owner (tick (tick (tick (tick w)))).mem).boot_id_hash_lo;
        }),
        tick (tick (tick (tick w))),
      )
  unfolding load_owner ◌>>=◌ shared_load pure
  load_owner-eq w = refl

  module _ (classify : ℕ → StateKind) (valid : Owner → Bool) where
    -- A snapshot agrees with the memory of a world: owner and epoch stand there together.
    pub record IsConsistent (s : OwnerSnapshot) (m : S) : Type 0 where
      pub same_epoch : s.epoch ≡ c.epoch m
      pub same_identity : s.owner ≡ c.owner m
      pub even_epoch : s.epoch % 2 ≡ 0
      pub valid_owner : valid s.owner ≡ true
      pub owned_state : classify s.state ≡ StateKind.owned

    judge_owned-stable :
        (e1 e2 st e3 : ℕ) (o : Owner) (s : OwnerSnapshot)
        → judge_owned c classify valid e1 o e2 st e3 ≡ some s
        → s.kind ≡ SnapshotKind.stable
        → (e1 ≡ e2)
          × (e2 ≡ e3)
          × (e3 % 2 ≡ 0)
          × (valid o ≡ true)
          × (classify st ≡ StateKind.owned)
          × (s.owner ≡ o)
          × (s.epoch ≡ e3)
          × (s.state ≡ st)
    unfolding judge_owned
    judge_owned-stable e1 e2 st e3 o s h k = ground arith

    pub judge_inactive-stable :
        (s1 e1 s2 e2 : ℕ) (s : OwnerSnapshot)
        → judge_inactive c classify valid s1 e1 s2 e2 ≡ some s
        → s.kind ≢ SnapshotKind.stable
    unfolding judge_inactive
    judge_inactive-stable s1 e1 s2 e2 s h k = ground arith

    -- The identity that `load_owner` reads from the world `w` on
    abbrev pub read_owner : World S → Owner
    read_owner w = record {
      pid = (c.owner (tick w).mem).pid;
      proc_start_ticks = (c.owner (tick (tick w)).mem).proc_start_ticks;
      boot_id_hash_hi = (c.owner (tick (tick (tick w))).mem).boot_id_hash_hi;
      boot_id_hash_lo = (c.owner (tick (tick (tick (tick w)))).mem).boot_id_hash_lo;
    }

    -- What the round judges, read from the world `w` of its first access on
    abbrev pub judged : World S → World S → Option OwnerSnapshot
    judged w v =
        judge_owned c classify valid (c.epoch w.mem) (read_owner w) (c.epoch (tick v).mem)
          (c.state (tick (tick v)).mem) (c.epoch (tick (tick (tick v))).mem)

    pub owned_round-eq :
        (w : World S)
        → owned_round c classify valid w ≡ (
            if not (c.epoch (tick w).mem % 2 == 0) then (ok none, tick w) else (
              ok (judged (tick w) (tick (tick (tick (tick (tick w)))))),
              tick (tick (tick (tick (tick (tick (tick (tick w))))))),
            ))
    unfolding owned_round load_owner ◌>>=◌ shared_load pure
    owned_round-eq w = ground arith

    -- The four reads between two equal even epochs give the identity of the later moment.
    read_owner-eq :
        (w v : World S)
        → Rely (Seqlock c) w.env
        → Passed c (tick (tick (tick (tick w)))) v
        → c.epoch w.mem ≡ c.epoch v.mem
        → c.epoch w.mem % 2 ≡ 0
        → read_owner w ≡ c.owner v.mem
    read_owner-eq w v r q4 e z =
        let p1 = Passed-tick c w r in
        let p2 = Passed-next c p1 in
        let p3 = Passed-next c p2 in
        let p4 = Passed-next c p3 in
        let q3 = Passed-trans c (Passed-tick c (tick (tick (tick w))) p3.rest) q4 in
        let q2 = Passed-trans c (Passed-tick c (tick (tick w)) p2.rest) q3 in
        let q1 = Passed-trans c (Passed-tick c (tick w) p1.rest) q2 in
        fields (same_owner c p1 q1 e z) (same_owner c p2 q2 e z) (same_owner c p3 q3 e z)
          (same_owner c p4 q4 e z)
      where
        fields :
            {a b d f : Owner}
            → a ≡ c.owner v.mem
            → b ≡ c.owner v.mem
            → d ≡ c.owner v.mem
            → f ≡ c.owner v.mem
            → ◌≡◌ {A = Owner}
                (record {
                  pid = a.pid;
                  proc_start_ticks = b.proc_start_ticks;
                  boot_id_hash_hi = d.boot_id_hash_hi;
                  boot_id_hash_lo = f.boot_id_hash_lo;
                })
                (c.owner v.mem)
        fields p q r t = rw (p, q, r, t)

    owned_round-some :
        (w : World S) {s : OwnerSnapshot} {w' : World S}
        → owned_round c classify valid w ≡ (ok (some s), w')
        → (judged (tick w) (tick (tick (tick (tick (tick w))))) ≡ some s)
          × (tick (tick (tick (tick (tick (tick (tick (tick w))))))) ≡ w')
    owned_round-some w h = ground (arith, owned_round-eq w)

    -- A round that ends in a stable snapshot is consistent with the world that it leaves.
    pub owned_round-IsConsistent :
        (w : World S) {s : OwnerSnapshot} {w' : World S}
        → Rely (Seqlock c) w.env
        → owned_round c classify valid w ≡ (ok (some s), w')
        → s.kind ≡ SnapshotKind.stable
        → IsConsistent s w'.mem
    owned_round-IsConsistent w {s} {w'} r h k =
        let found = owned_round-some w h in
        let p1 = Passed-tick c w r in
        let p5 = Passed-next c (Passed-next c (Passed-next c (Passed-next c p1))) in
        let q5 = Passed-next c (Passed-next c (Passed-tick c _ p5.rest)) in
        let j = judge_owned-stable _ _ _ _ _ s found.0 k in
        subst (λ (v : World S). IsConsistent s v.mem) found.1
          (record {
            same_epoch = j.6;
            same_identity =
                j.5
                ∙ read_owner-eq (tick w) _ p1.rest q5 (j.0 ∙ j.1)
                    (ap (λ e. e % 2) (j.0 ∙ j.1) ∙ j.2);
            even_epoch = ap (λ e. e % 2) j.6 ∙ j.2;
            valid_owner = ap valid j.5 ∙ j.3;
            owned_state = ap classify j.7 ∙ j.4;
          })
