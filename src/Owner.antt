-- ===== src/Owner.antt =====
-- Who owns a lock or a slot in shared memory, and reading it without a lock
-- (src/edge_runtime/sync/owner_snapshot.hpp). The failpoint hooks are places where the environment
-- of `Shared.World` may act anyway.
pub mod Seqlock
pub mod OwnedRound
pub mod Snapshot
pub mod Quiet
pub mod Part
mod Tests
use edge_runtime.Common.{
  ltb, leb, ◌==◌, if◌then◌else◌, u64_max, ℕ, zero, suc, ◌+◌, ◌-◌, ◌%◌, Bool, not, ◌&&◌, ◌||◌,
  Option, none, some,
}
use edge_runtime.Shared.{Action, pure, ◌>>=◌, ◌>>◌, shared_load, shared_store, shared_cas}

-- The identity fields of MpmcOwnerAbi
pub record Owner : Type 0 where
  pub pid : ℕ
  pub proc_start_ticks : ℕ
  pub boot_id_hash_hi : ℕ
  pub boot_id_hash_lo : ℕ

pub data SnapshotKind : Type 0 where
  inactive claiming stable unstable corrupt epoch_exhausted : SnapshotKind

pub data StateKind : Type 0 where
  inactive claiming owned epoch_exhausted protocol_fault unexpected : StateKind

pub record OwnerSnapshot : Type 0 where
  pub kind : SnapshotKind
  pub state : ℕ
  pub owner : Owner
  pub epoch : ℕ

-- The three shared words groups that the C++ functions take by pointer.
pub record Cell (S : Type 0) : Type 0 where
  pub state : S → ℕ
  pub epoch : S → ℕ
  pub owner : S → Owner
  pub set_state : ℕ → S → S
  pub set_epoch : ℕ → S → S
  pub set_owner : Owner → S → S

abbrev pub no_owner : Owner
no_owner = record { pid = 0; proc_start_ticks = 0; boot_id_hash_hi = 0; boot_id_hash_lo = 0 }

-- A snapshot with no owner
abbrev pub seen : SnapshotKind → ℕ → ℕ → OwnerSnapshot
seen k s e = record { kind = k; state = s; owner = no_owner; epoch = e }

-- What is reported of the state that is read after the loop
unfoldable pub final_kind : StateKind → SnapshotKind
final_kind StateKind.epoch_exhausted = SnapshotKind.epoch_exhausted
final_kind StateKind.protocol_fault = SnapshotKind.corrupt
final_kind StateKind.unexpected = SnapshotKind.corrupt
final_kind StateKind.inactive = SnapshotKind.unstable
final_kind StateKind.claiming = SnapshotKind.unstable
final_kind StateKind.owned = SnapshotKind.unstable

abbrev pub snapshot_retries : ℕ
snapshot_retries = 4

abbrev pub max_committed_epoch : ℕ
max_committed_epoch = u64_max - 1

-- Odd, or past the largest committed epoch
abbrev pub epoch_invalid : ℕ → Bool
epoch_invalid e = not (e % 2 == 0) || ltb max_committed_epoch e

-- `ready` carries `*committed_epoch`.
pub data CommitResult : Type 0 where
  ready : ℕ → CommitResult
  epoch_exhausted corrupt : CommitResult

module _ {S : Type 0} (c : Cell S) where
  unfoldable pub load_owner : Action S Owner
  load_owner = do
    p ← shared_load (λ m. (c.owner m).pid)
    t ← shared_load (λ m. (c.owner m).proc_start_ticks)
    h ← shared_load (λ m. (c.owner m).boot_id_hash_hi)
    l ← shared_load (λ m. (c.owner m).boot_id_hash_lo)
    pure (record { pid = p; proc_start_ticks = t; boot_id_hash_hi = h; boot_id_hash_lo = l })

  unfoldable pub store_owner : Owner → Action S (Unit {0})
  store_owner v = do
    shared_store (λ m. c.set_owner (record (c.owner m) { pid = v.pid }) m)
    shared_store (λ m. c.set_owner (record (c.owner m) { proc_start_ticks = v.proc_start_ticks }) m)
    shared_store (λ m. c.set_owner (record (c.owner m) { boot_id_hash_hi = v.boot_id_hash_hi }) m)
    shared_store (λ m. c.set_owner (record (c.owner m) { boot_id_hash_lo = v.boot_id_hash_lo }) m)

  unfoldable pub begin_owner_commit : ℕ → Action S CommitResult
  begin_owner_commit reserve_after_commit = do
    current ← shared_load c.epoch
    if epoch_invalid current
        then pure corrupt
        else if ltb (max_committed_epoch - current) reserve_after_commit
        then pure epoch_exhausted
        else do
          swapped ← shared_cas c.epoch current (c.set_epoch (current + 1))
          if swapped then pure (ready (current + 2)) else pure corrupt

  -- `ready` is given with the current epoch.
  unfoldable pub owner_epoch_capacity : ℕ → Action S CommitResult
  owner_epoch_capacity reserve_after_commit = do
    current ← shared_load c.epoch
    if epoch_invalid current
        then pure corrupt
        else if leb reserve_after_commit (max_committed_epoch - current)
        then pure (ready current)
        else pure epoch_exhausted

  module _ (classify : ℕ → StateKind) (valid : Owner → Bool) where
    -- `{kind, state, {}, shared_load_seq_cst(epoch)}`
    unfoldable pub report : SnapshotKind → ℕ → Action S OwnerSnapshot
    report k s = do e ← shared_load c.epoch; pure (seen k s e)

    -- What a round makes of an inactive state once everything is read; `none` is `continue`.
    unfoldable pub judge_inactive : ℕ → ℕ → ℕ → ℕ → Option OwnerSnapshot
    judge_inactive state_before epoch_before state_after epoch_after =
        if state_after == state_before && epoch_before == epoch_after
        then (if epoch_invalid epoch_after
            then some (seen SnapshotKind.corrupt state_after epoch_after)
            else some (seen SnapshotKind.inactive state_after epoch_after))
        else elim (classify state_after) [
          | claiming ↦ some (seen SnapshotKind.claiming state_after epoch_after)
          | epoch_exhausted ↦ some (seen SnapshotKind.epoch_exhausted state_after epoch_after)
          | protocol_fault ↦ some (seen SnapshotKind.corrupt state_after epoch_after)
          | unexpected ↦ some (seen SnapshotKind.corrupt state_after epoch_after)
          | inactive ↦ none
          | owned ↦ none
        ]

    -- The `kInactive` case of a round
    unfoldable pub inactive_round : ℕ → Action S (Option OwnerSnapshot)
    inactive_round state_before = do
      epoch_before ← shared_load c.epoch
      state_after ← shared_load c.state
      epoch_after ← shared_load c.epoch
      pure (judge_inactive state_before epoch_before state_after epoch_after)

    -- What a round makes of an owned state once everything is read.
    unfoldable pub judge_owned : ℕ → Owner → ℕ → ℕ → ℕ → Option OwnerSnapshot
    judge_owned epoch_before candidate epoch_after_fields state_after epoch_after_state =
        elim (classify state_after) [
          | owned ↦
              if epoch_before == epoch_after_fields
                && epoch_after_fields == epoch_after_state
                && epoch_after_state % 2 == 0
              then (if valid candidate
                  then some (record {
                    kind = SnapshotKind.stable;
                    state = state_after;
                    owner = candidate;
                    epoch = epoch_after_state;
                  })
                  else some (record {
                    kind = SnapshotKind.corrupt;
                    state = state_after;
                    owner = candidate;
                    epoch = epoch_after_state;
                  }))
              else none
          | epoch_exhausted ↦ some (seen SnapshotKind.epoch_exhausted state_after epoch_after_state)
          | protocol_fault ↦ some (seen SnapshotKind.corrupt state_after epoch_after_state)
          | unexpected ↦ some (seen SnapshotKind.corrupt state_after epoch_after_state)
          | inactive ↦ none
          | claiming ↦ none
        ]

    -- The `kOwned` case of a round
    unfoldable pub owned_round : Action S (Option OwnerSnapshot)
    owned_round = do
      epoch_before ← shared_load c.epoch
      if not (epoch_before % 2 == 0) then pure none else do
        candidate ← load_owner
        epoch_after_fields ← shared_load c.epoch
        state_after ← shared_load c.state
        epoch_after_state ← shared_load c.epoch
        pure (judge_owned epoch_before candidate epoch_after_fields state_after epoch_after_state)

    unfoldable pub reported : SnapshotKind → ℕ → Action S (Option OwnerSnapshot)
    reported k s = do r ← report k s; pure (some r)

    -- The `switch` of a round
    unfoldable pub round_for : StateKind → ℕ → Action S (Option OwnerSnapshot)
    round_for StateKind.inactive state_before = inactive_round state_before
    round_for StateKind.claiming state_before = reported SnapshotKind.claiming state_before
    round_for StateKind.epoch_exhausted state_before =
        reported SnapshotKind.epoch_exhausted state_before
    round_for StateKind.protocol_fault state_before = reported SnapshotKind.corrupt state_before
    round_for StateKind.unexpected state_before = reported SnapshotKind.corrupt state_before
    round_for StateKind.owned state_before = owned_round

    -- One round of the loop
    unfoldable pub snapshot_round : Action S (Option OwnerSnapshot)
    snapshot_round = do
      state_before ← shared_load c.state
      round_for (classify state_before) state_before

    unfoldable pub snapshot_final : Action S OwnerSnapshot
    snapshot_final = do
      final_state ← shared_load c.state
      report (final_kind (classify final_state)) final_state

    unfoldable pub snapshot_rounds : ℕ → Action S OwnerSnapshot
    snapshot_rounds zero = snapshot_final
    snapshot_rounds (suc n) =
        let rest = snapshot_rounds n in
        do r ← snapshot_round; elim r [ some s ↦ pure s | none ↦ rest ]

    unfoldable pub snapshot_owner : Action S OwnerSnapshot
    snapshot_owner = snapshot_rounds snapshot_retries
