-- ===== src/Mpmc/Gate/Quiet.antt =====
-- The gates when nobody interferes (src/edge_runtime/queue/mpmc_queue.cpp).
use edge_runtime.Common.{◌+◌, ◌%◌, ◌≤◌, ◌≡◌, refl, ap, ◌∙◌, Bool, true, false, arith}
use edge_runtime.Mpmc.Gate.{
  owner_valid, classify_state, classify_gate, snapshot_gate_owner, claim_gate, commit_gate_with,
  commit_claimed_gate, acquire_gate,
}
use edge_runtime.Mpmc.State.{
  lock_free, lock_claiming, lock_owned, Gate, Memory, Handle, gate_of, set_gate, gate_cell,
}
use edge_runtime.Owner.{
  Owner, SnapshotKind, OwnerSnapshot, seen, max_committed_epoch, epoch_invalid, store_owner,
}
use edge_runtime.Owner.Quiet.{observed, snapshot_owner-quiet, begin_owner_commit-quiet}
use edge_runtime.Shared.{ok, quiet, ◌>>=◌, ◌>>◌, require, shared_load, shared_store, shared_cas}
use edge_runtime.Shared.Laws.{bind_ok, then_ok}

-- A gate that is free, whose epoch admits another claim
pub record IsOpen (g : Gate) : Type 0 where
  pub free : g.lock ≡ lock_free
  pub even : g.owner_epoch % 2 ≡ 0
  pub room : g.owner_epoch + 2 ≤ max_committed_epoch

pub snapshot_gate_owner-open :
    (enqueue : Bool) (m : Memory)
    → (gate_of enqueue m).lock ≡ lock_free
    → epoch_invalid (gate_of enqueue m).owner_epoch ≡ false
    → snapshot_gate_owner enqueue (quiet m)
      ≡ (ok (seen SnapshotKind.inactive lock_free (gate_of enqueue m).owner_epoch), quiet m)
unfolding snapshot_gate_owner observed classify_state
snapshot_gate_owner-open enqueue m e f =
    snapshot_owner-quiet (gate_cell enqueue) classify_gate owner_valid m
    ∙ ap (λ (s : OwnerSnapshot). (ok s, quiet m)) (ground arith)

-- A gate while its next owner has claimed it, and once it owns it
abbrev pub claimed_gate : Gate → Gate
claimed_gate g = record g { lock = lock_claiming }

abbrev pub owned_gate : Owner → Gate → Gate
owned_gate o g = record { lock = lock_owned; owner_epoch = g.owner_epoch + 2; owner = o }

-- A gate after its owner has let go of it
abbrev pub released_gate : Owner → Gate → Gate
released_gate o g = record { lock = lock_free; owner_epoch = g.owner_epoch + 2; owner = o }

pub claim_gate-open :
    (h : Handle) (enqueue : Bool) (m : Memory)
    → (gate_of enqueue m).lock ≡ lock_free
    → claim_gate h enqueue (quiet m)
      ≡ (ok tt, quiet (set_gate enqueue (claimed_gate (gate_of enqueue m)) m))
unfolding claim_gate shared_load shared_cas require ◌>>=◌
claim_gate-open h true m e = rw e refl
claim_gate-open h false m e = rw e refl

pub commit_claimed_gate-open :
    (h : Handle) (enqueue : Bool) (g : Gate) (m : Memory)
    → IsOpen g
    → commit_claimed_gate h enqueue (quiet (set_gate enqueue (claimed_gate g) m))
      ≡ (ok tt, quiet (set_gate enqueue (owned_gate h.self g) m))
unfolding commit_claimed_gate commit_gate_with store_owner shared_store ◌>>◌
commit_claimed_gate-open h true g m o =
    bind_ok _ _
      (begin_owner_commit-quiet (gate_cell true) 2 (set_gate true (claimed_gate g) m) o.even o.room)
      refl
commit_claimed_gate-open h false g m o =
    bind_ok _ _
      (begin_owner_commit-quiet (gate_cell false) 2 (set_gate false (claimed_gate g) m) o.even
        o.room)
      refl

pub acquire_gate-open :
    (h : Handle) (enqueue : Bool) (m : Memory)
    → IsOpen (gate_of enqueue m)
    → acquire_gate h enqueue (quiet m)
      ≡ (ok tt, quiet (set_gate enqueue (owned_gate h.self (gate_of enqueue m)) m))
unfolding acquire_gate
acquire_gate-open h enqueue m o =
    then_ok _ _ (claim_gate-open h enqueue m o.free)
      (commit_claimed_gate-open h enqueue (gate_of enqueue m) m o)
