-- ===== src/Owner/Tests.antt =====
-- The theorems on owners at one lock that changes hands (src/edge_runtime/sync/owner_snapshot.hpp).
use edge_runtime.Common.{◌==◌, if◌then◌else◌, ℕ, ◌≡◌, refl, Bool, not, List, [], ◌∷◌, arith}
use edge_runtime.Owner.{
  Owner, SnapshotKind, StateKind, Cell, load_owner, report, judge_owned, owned_round, reported,
  round_for, snapshot_round, snapshot_final, snapshot_rounds, snapshot_owner,
}
use edge_runtime.Owner.OwnedRound.{IsConsistent}
use edge_runtime.Owner.Quiet.{observed, snapshot_owner-quiet}
use edge_runtime.Owner.Seqlock.{Seqlock, Seqlock-refl}
use edge_runtime.Owner.Snapshot.{snapshot_owner-IsConsistent}
use edge_runtime.Shared.{ok, quiet, pure, ◌>>=◌, shared_load}
use edge_runtime.Shared.Laws.{Rely}

-- A lock word with its owner
record Lock : Type 0 where
  lock : ℕ
  epoch : ℕ
  owner : Owner

abbrev lock_cell : Cell Lock
lock_cell = record {
  state = λ m. m.lock;
  epoch = λ m. m.epoch;
  owner = λ m. m.owner;
  set_state = λ v m. record m { lock = v };
  set_epoch = λ v m. record m { epoch = v };
  set_owner = λ v m. record m { owner = v };
}

abbrev classify : ℕ → StateKind
classify s = if s == 2 then StateKind.owned else StateKind.inactive

abbrev valid : Owner → Bool
valid o = not (o.pid == 0)

abbrev process : ℕ → Owner
process pid = record { pid = pid; proc_start_ticks = 9; boot_id_hash_hi = 3; boot_id_hash_lo = 4 }

abbrev held : Lock
held = record { lock = 2; epoch = 2; owner = process 1 }

-- Another process commits to the lock while the snapshot reads it.
abbrev handover : List (Lock → Lock)
handover =
    (λ m. m)
    ∷ (λ m. m)
    ∷ (λ m. if m.epoch == 2 then record m { epoch = 3 } else m)
    ∷ (λ m. if m.epoch == 3 then record m { owner = process 5 } else m)
    ∷ (λ m. if m.epoch == 3 then record m { epoch = 4 } else m)
    ∷ []

handover-Rely : Rely (Seqlock lock_cell) handover
handover-Rely = (
  λ m. Seqlock-refl lock_cell m,
  (
    λ m. Seqlock-refl lock_cell m,
    (
      λ m. record { grows = ground arith; kept = λ e p. ground arith },
      (
        λ m. record { grows = ground arith; kept = λ e p. ground arith },
        (λ m. record { grows = ground arith; kept = λ e p. ground arith }, tt),
      ),
    ),
  ),
)

snapshot_owner-IsConsistent_example :
    IsConsistent lock_cell classify valid
      (record { kind = SnapshotKind.stable; state = 2; owner = process 5; epoch = 4 })
      (record held { epoch = 4; owner = process 5 })
unfolding snapshot_owner snapshot_rounds snapshot_round snapshot_final round_for owned_round
    reported report judge_owned load_owner shared_load pure ◌>>=◌
snapshot_owner-IsConsistent_example =
    snapshot_owner-IsConsistent lock_cell classify valid (record { mem = held; env = handover })
      handover-Rely refl refl

snapshot_owner-quiet_example :
    snapshot_owner lock_cell classify valid (quiet held)
    ≡ (ok (observed lock_cell classify valid held), quiet held)
snapshot_owner-quiet_example = snapshot_owner-quiet lock_cell classify valid held
