-- ===== src/Owner/Snapshot.antt =====
-- Reading an owner without a lock, while other processes write it
-- (src/edge_runtime/sync/owner_snapshot.hpp).
use edge_runtime.Common.{
  ◌==◌, Bool-cases, ℕ, zero, suc, ◌%◌, ◌≡◌, ap, ◌∙◌, subst, ◌≢◌, inl, inr, Bool, Option, none, some,
  arith,
}
use edge_runtime.Owner.{
  Owner, SnapshotKind, StateKind, OwnerSnapshot, Cell, final_kind, snapshot_retries, report,
  judge_inactive, inactive_round, owned_round, reported, round_for, snapshot_round, snapshot_final,
  snapshot_rounds, snapshot_owner,
}
use edge_runtime.Owner.OwnedRound.{
  IsConsistent, judge_inactive-stable, owned_round-eq, owned_round-IsConsistent,
}
use edge_runtime.Owner.Seqlock.{Seqlock, Passed, Passed-tick, Passed-next, Rely-at}
use edge_runtime.Shared.{ok, World, tick, Action, pure, ◌>>=◌, shared_load}
use edge_runtime.Shared.Laws.{Rely, >>=-eq-ok}

module _ {S : Type 0} (c : Cell S) where
  module _ (classify : ℕ → StateKind) (valid : Owner → Bool) where
    -- What holds once a round is over.
    record Ends (r : Option OwnerSnapshot) (w : World S) : Type 0 where
      still : Rely (Seqlock c) w.env
      agrees :
          (s : OwnerSnapshot)
          → r ≡ some s
          → s.kind ≡ SnapshotKind.stable
          → IsConsistent c classify valid s w.mem

    owned_round-Ends :
        (w : World S) {r : Option OwnerSnapshot} {w' : World S}
        → Rely (Seqlock c) w.env
        → owned_round c classify valid w ≡ (ok r, w')
        → Ends r w'
    owned_round-Ends w {r} {w'} l h = record {
      still = elim (Bool-cases (c.epoch (tick w).mem % 2 == 0)) [
        | inl even ↦ Rely-at c w' p8 (ground (arith, owned_round-eq c classify valid w))
        | inr odd ↦ Rely-at c w' p1 (ground (arith, owned_round-eq c classify valid w))
      ];
      agrees = λ s e k.
          owned_round-IsConsistent c classify valid w l
            (h ∙ ap (λ (t : Option OwnerSnapshot). (ok t, w')) e) k;
    }
      where
        p1 : Passed c w (tick w)
        p1 = Passed-tick c w l

        p8 : Passed c w (tick (tick (tick (tick (tick (tick (tick (tick w))))))))
        p8 = Passed-next c (
            Passed-next c
              (Passed-next c (Passed-next c (Passed-next c (Passed-next c (Passed-next c p1))))))

    inactive_round-Ends :
        (st : ℕ) (w : World S) {r : Option OwnerSnapshot} {w' : World S}
        → Rely (Seqlock c) w.env
        → inactive_round c classify valid st w ≡ (ok r, w')
        → Ends r w'
    unfolding inactive_round ◌>>=◌ shared_load pure
    inactive_round-Ends st w {r} {w'} l h = record {
      still = Rely-at c w' (Passed-next c (Passed-next c (Passed-tick c w l))) (cc);
      agrees = λ s e k. absurd (judge_inactive-stable c classify valid st _ _ _ s (read ∙ e) k);
    }
      where
        read :
            judge_inactive c classify valid st
              (c.epoch (tick w).mem)
              (c.state (tick (tick w)).mem)
              (c.epoch (tick (tick (tick w))).mem)
            ≡ r
        read = cc

    reported-Ends :
        (k : SnapshotKind) (st : ℕ) (w : World S) {r : Option OwnerSnapshot} {w' : World S}
        → k ≢ SnapshotKind.stable
        → Rely (Seqlock c) w.env
        → reported c classify valid k st w ≡ (ok r, w')
        → Ends r w'
    unfolding reported report ◌>>=◌ shared_load pure
    reported-Ends k st w {r} {w'} n l h = record {
      still = Rely-at c w' (Passed-tick c w l) (cc);
      agrees = λ s e q. absurd (n (ground arith));
    }

    round_for-Ends :
        (k : StateKind) (st : ℕ) (w : World S) {r : Option OwnerSnapshot} {w' : World S}
        → Rely (Seqlock c) w.env
        → round_for c classify valid k st w ≡ (ok r, w')
        → Ends r w'
    unfolding round_for
    round_for-Ends StateKind.inactive st w l h = inactive_round-Ends st w l h
    round_for-Ends StateKind.claiming st w l h = reported-Ends SnapshotKind.claiming st w (cc) l h
    round_for-Ends StateKind.epoch_exhausted st w l h =
        reported-Ends SnapshotKind.epoch_exhausted st w (cc) l h
    round_for-Ends StateKind.protocol_fault st w l h =
        reported-Ends SnapshotKind.corrupt st w (cc) l h
    round_for-Ends StateKind.unexpected st w l h = reported-Ends SnapshotKind.corrupt st w (cc) l h
    round_for-Ends StateKind.owned st w l h = owned_round-Ends w l h

    final_kind-ne-stable : (k : StateKind) → final_kind k ≢ SnapshotKind.stable
    unfolding final_kind
    final_kind-ne-stable StateKind.inactive = cc
    final_kind-ne-stable _ = cc

    snapshot_round-Ends :
        (w : World S) {r : Option OwnerSnapshot} {w' : World S}
        → Rely (Seqlock c) w.env
        → snapshot_round c classify valid w ≡ (ok r, w')
        → Ends r w'
    unfolding snapshot_round ◌>>=◌ shared_load
    snapshot_round-Ends w l h =
        round_for-Ends (classify (c.state (tick w).mem)) (c.state (tick w).mem) (tick w)
          (Passed-tick c w l).rest h

    snapshot_final-ne-stable :
        (w : World S) {s : OwnerSnapshot} {w' : World S}
        → snapshot_final c classify valid w ≡ (ok s, w')
        → s.kind ≢ SnapshotKind.stable
    unfolding snapshot_final report ◌>>=◌ shared_load pure
    snapshot_final-ne-stable w h k =
        final_kind-ne-stable (classify (c.state (tick w).mem)) (ground arith)

    snapshot_rounds-IsConsistent :
        (n : ℕ) (w : World S) {s : OwnerSnapshot} {w' : World S}
        → Rely (Seqlock c) w.env
        → snapshot_rounds c classify valid n w ≡ (ok s, w')
        → s.kind ≡ SnapshotKind.stable
        → IsConsistent c classify valid s w'.mem
    unfolding snapshot_rounds pure
    snapshot_rounds-IsConsistent zero w l h k = absurd (snapshot_final-ne-stable w h k)
    snapshot_rounds-IsConsistent (suc n) w {s} {w'} l h k =
        let (r, u, e, f) = >>=-eq-ok (snapshot_round c classify valid) _ h in
        go r u (snapshot_round-Ends w l e) f
          (λ rest. snapshot_rounds-IsConsistent n u (snapshot_round-Ends w l e).still rest k)
      where
        go :
            (r : Option OwnerSnapshot) (u : World S)
            → Ends r u
            → (elim r as (λ x. Action S OwnerSnapshot) [
              | some t ↦ pure t
              | none ↦ snapshot_rounds c classify valid n
            ])
                u
              ≡ (ok s, w')
            → (snapshot_rounds c classify valid n u ≡ (ok s, w')
                → IsConsistent c classify valid s w'.mem)
            → IsConsistent c classify valid s w'.mem
        go none u d f again = again f
        go (some t) u d f again =
            let e : u ≡ w' = cc in
            subst (λ (v : World S). IsConsistent c classify valid s v.mem) e (d.agrees s (cc) k)

    -- Under interference that keeps to the writers' protocol, a snapshot that is reported stable is
    -- no mixture of two owners: its owner and its epoch stand together in the memory that the
    -- snapshot leaves, the epoch is even, the owner is valid and its state was an owned one.
    pub snapshot_owner-IsConsistent :
        (w : World S) {s : OwnerSnapshot} {w' : World S}
        → Rely (Seqlock c) w.env
        → snapshot_owner c classify valid w ≡ (ok s, w')
        → s.kind ≡ SnapshotKind.stable
        → IsConsistent c classify valid s w'.mem
    unfolding snapshot_owner
    snapshot_owner-IsConsistent w l h k = snapshot_rounds-IsConsistent snapshot_retries w l h k
