-- ===== src/Mpmc/Gate/Exclusion.antt =====
-- Taking a gate while other processes work on it (src/edge_runtime/queue/mpmc_queue.cpp).
use edge_runtime.Common.{◌≡◌, refl, sym, ◌∙◌, ◌≢◌, Bool, arith}
use edge_runtime.Mpmc.Gate.{gate_busy_for, gate_busy_result, claim_gate}
use edge_runtime.Mpmc.State.{lock_free, lock_claiming, Memory, Handle, gate_of, set_gate}
use edge_runtime.Owner.{SnapshotKind, OwnerSnapshot}
use edge_runtime.Shared.{ok, World, tick, ◌>>=◌, require, shared_load, shared_cas}
use edge_runtime.Shared.Laws.{Rely, Rely-tick, >>=-eq-ok, fail-ne-ok}

module _ (h : Handle) (enqueue : Bool) where
  gate_busy_for-fails :
      (k : SnapshotKind) (o : OwnerSnapshot) (w : World Memory) {w' : World Memory}
      → gate_busy_for {A = Unit {0}} k h enqueue o w ≢ (ok tt, w')
  unfolding gate_busy_for
  gate_busy_for-fails SnapshotKind.inactive o w e = fail-ne-ok _ w e
  gate_busy_for-fails SnapshotKind.claiming o w e = fail-ne-ok _ w e
  gate_busy_for-fails SnapshotKind.unstable o w e = fail-ne-ok _ w e
  gate_busy_for-fails SnapshotKind.corrupt o w e = fail-ne-ok _ w e
  gate_busy_for-fails SnapshotKind.epoch_exhausted o w e = fail-ne-ok _ w e
  gate_busy_for-fails SnapshotKind.stable o w e =
      let (d, u, _, f) = >>=-eq-ok _ _ e in fail-ne-ok _ u f

  gate_busy_result-fails :
      (w : World Memory) {w' : World Memory}
      → gate_busy_result {A = Unit {0}} h enqueue w ≢ (ok tt, w')
  unfolding gate_busy_result
  gate_busy_result-fails w e =
      let (o, u, _, f) = >>=-eq-ok _ _ e in gate_busy_for-fails o.kind o u f

  -- Whatever others do, a claim that succeeds found the gate free twice: at its look, which is its
  -- first access, and at its second access, which changes the lock from free to claimed in one step
  -- and is its last. What others did up to that access is kept, and nothing else changes.
  pub claim_gate-takes_free :
      (w w' : World Memory)
      → claim_gate h enqueue w ≡ (ok tt, w')
      → ((gate_of enqueue (tick w).mem).lock ≡ lock_free)
        × ((gate_of enqueue (tick (tick w)).mem).lock ≡ lock_free)
        × (w' ≡ record {
          mem =
              set_gate enqueue
                (record (gate_of enqueue (tick (tick w)).mem) { lock = lock_claiming })
                (tick (tick w)).mem;
          env = (tick (tick w)).env;
        })
  unfolding claim_gate shared_load shared_cas require ◌>>=◌
  claim_gate-takes_free w w' e = ground (arith, gate_busy_result-fails (tick w) {w' = w'})

-- Others leave a gate alone that is not free.
abbrev pub Respects : Bool → Memory → Memory → Type 0
Respects enqueue m m' =
    (gate_of enqueue m).lock ≢ lock_free → (gate_of enqueue m').lock ≡ (gate_of enqueue m).lock

-- While a gate is taken, and the others leave it to its owner, no process succeeds in claiming it.
pub claim_gate-excluded :
    (h : Handle) (enqueue : Bool) (w w' : World Memory)
    → (gate_of enqueue w.mem).lock ≢ lock_free
    → Rely (Respects enqueue) w.env
    → claim_gate h enqueue w ≢ (ok tt, w')
claim_gate-excluded h enqueue w w' taken r e =
    let (free, _, _) = claim_gate-takes_free h enqueue w w' e in
    let step = Rely-tick (Respects enqueue) (λ m _. refl) w r in taken (sym (step.0 taken) ∙ free)
