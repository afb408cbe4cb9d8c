-- ===== src/Owner/Quiet.antt =====
-- Owner snapshots in a memory with which nobody interferes
-- (src/edge_runtime/sync/owner_snapshot.hpp).
use edge_runtime.Common.{
  ◌==◌, if◌then◌else◌, ℕ, ◌+◌, ◌%◌, ◌≤◌, ◌≡◌, Bool, true, not, none, some, arith,
}
use edge_runtime.Owner.{
  Owner, SnapshotKind, StateKind, OwnerSnapshot, Cell, seen, final_kind, max_committed_epoch,
  epoch_invalid, CommitResult, load_owner, begin_owner_commit, owner_epoch_capacity, report,
  judge_inactive, inactive_round, judge_owned, owned_round, reported, round_for, snapshot_round,
  snapshot_final, snapshot_rounds, snapshot_owner,
}
use edge_runtime.Shared.{ok, quiet, pure, ◌>>=◌, shared_load, shared_cas}

module _ {S : Type 0} (c : Cell S) (classify : ℕ → StateKind) (valid : Owner → Bool) where
  -- What a snapshot says of a memory that does not change.
  unfoldable pub observed : S → OwnerSnapshot
  observed m = elim (classify (c.state m)) [
    | StateKind.inactive ↦
        if epoch_invalid (c.epoch m)
        then seen SnapshotKind.corrupt (c.state m) (c.epoch m)
        else seen SnapshotKind.inactive (c.state m) (c.epoch m)
    | StateKind.claiming ↦ seen SnapshotKind.claiming (c.state m) (c.epoch m)
    | StateKind.epoch_exhausted ↦ seen SnapshotKind.epoch_exhausted (c.state m) (c.epoch m)
    | StateKind.protocol_fault ↦ seen SnapshotKind.corrupt (c.state m) (c.epoch m)
    | StateKind.unexpected ↦ seen SnapshotKind.corrupt (c.state m) (c.epoch m)
    | StateKind.owned ↦
        if not (c.epoch m % 2 == 0)
        then seen SnapshotKind.unstable (c.state m) (c.epoch m)
        else record {
          kind = if valid (c.owner m) then SnapshotKind.stable else SnapshotKind.corrupt;
          state = c.state m;
          owner = c.owner m;
          epoch = c.epoch m;
        }
  ]

  judge_inactive-same :
      (s e : ℕ)
      → judge_inactive c classify valid s e s e
        ≡ some (
            if epoch_invalid e
            then seen SnapshotKind.corrupt s e
            else seen SnapshotKind.inactive s e)
  unfolding judge_inactive
  judge_inactive-same s e = ground arith

  inactive_round-quiet :
      (m : S)
      → classify (c.state m) ≡ StateKind.inactive
      → inactive_round c classify valid (c.state m) (quiet m) ≡ (ok (some (observed m)), quiet m)
  unfolding inactive_round observed ◌>>=◌ shared_load pure
  inactive_round-quiet m e = rw (judge_inactive-same (c.state m) (c.epoch m)) (ground arith)

  judge_owned-same :
      (m : S)
      → classify (c.state m) ≡ StateKind.owned
      → (c.epoch m % 2 == 0) ≡ true
      → judge_owned c classify valid (c.epoch m) (c.owner m) (c.epoch m) (c.state m) (c.epoch m)
        ≡ some (observed m)
  unfolding judge_owned observed
  judge_owned-same m e p = ground arith

  owned_round-quiet :
      (m : S)
      → classify (c.state m) ≡ StateKind.owned
      → owned_round c classify valid (quiet m)
        ≡ (ok (if not (c.epoch m % 2 == 0) then none else some (observed m)), quiet m)
  unfolding owned_round load_owner ◌>>=◌ shared_load pure
  owned_round-quiet m e = ground (arith, judge_owned-same m)

  -- With nobody interfering a snapshot changes nothing, always returns, and says what the memory
  -- holds: the owner exactly of an owned cell whose epoch is even.
  pub snapshot_owner-quiet :
      (m : S) → snapshot_owner c classify valid (quiet m) ≡ (ok (observed m), quiet m)
  unfolding snapshot_owner round_for final_kind snapshot_rounds snapshot_final snapshot_round
      reported report observed ◌>>=◌ shared_load pure
  snapshot_owner-quiet m = ground (arith, inactive_round-quiet m, owned_round-quiet m)

pub begin_owner_commit-quiet :
    {S : Type 0} (c : Cell S) (reserve : ℕ) (m : S)
    → c.epoch m % 2 ≡ 0
    → c.epoch m + reserve ≤ max_committed_epoch
    → begin_owner_commit c reserve (quiet m)
      ≡ (ok (CommitResult.ready (c.epoch m + 2)), quiet (c.set_epoch (c.epoch m + 1) m))
unfolding begin_owner_commit shared_load shared_cas pure ◌>>=◌
begin_owner_commit-quiet c reserve m e l = ground arith

pub owner_epoch_capacity-quiet :
    {S : Type 0} (c : Cell S) (reserve : ℕ) (m : S)
    → c.epoch m % 2 ≡ 0
    → c.epoch m + reserve ≤ max_committed_epoch
    → owner_epoch_capacity c reserve (quiet m) ≡ (ok (CommitResult.ready (c.epoch m)), quiet m)
unfolding owner_epoch_capacity shared_load pure ◌>>=◌
owner_epoch_capacity-quiet c reserve m e l = ground arith
