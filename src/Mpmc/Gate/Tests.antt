-- ===== src/Mpmc/Gate/Tests.antt =====
-- The theorems on taking a gate at a queue that another process uses
-- (src/edge_runtime/queue/mpmc_queue.cpp).
use edge_runtime.Common.{ℕ, ◌≡◌, refl, ◌≢◌, true, false, [], ◌∷◌, arith}
use edge_runtime.Mpmc.Gate.{claim_gate}
use edge_runtime.Mpmc.Gate.Exclusion.{claim_gate-takes_free, claim_gate-excluded}
use edge_runtime.Mpmc.State.{
  lock_free, lock_claiming, Gate, Liveness, Memory, Handle, gate_of, set_gate,
}
use edge_runtime.Owner.{Owner, no_owner}
use edge_runtime.Shared.{ok, World, tick, quiet, ◌>>=◌, require, shared_load, shared_cas}

abbrev process : ℕ → Owner
process pid = record { pid = pid; proc_start_ticks = 2; boot_id_hash_hi = 3; boot_id_hash_lo = 4 }

abbrev handle : Handle
handle = record { self = process 1; slot_stride = 128; removed = false }

abbrev gate : ℕ → Gate
gate lock = record { lock = lock; owner_epoch = 2; owner = process 5 }

abbrev memory : ℕ → Memory
memory lock = record {
  init_state = 2;
  capacity = 2;
  payload_size = 1;
  generation = 1;
  creator = process 1;
  enqueue_position = 0;
  dequeue_position = 0;
  enqueue_gate = gate lock;
  dequeue_gate = gate 0;
  notify_epoch = 0;
  slots = λ offset. record {
    sequence = 0;
    state = 0;
    owner = no_owner;
    ticket = 0;
    owner_epoch = 0;
    payload = [];
  };
  processes = λ pid start. Liveness.alive;
  now = 0;
  linked = true;
}

-- Another process goes from claiming the gate to releasing it.
abbrev released : World Memory
released = record { mem = memory 1; env = (λ m. memory 0) ∷ [] }

claim_gate-takes_free_example :
    ((gate_of true (tick released).mem).lock ≡ lock_free)
    × ((gate_of true (tick (tick released)).mem).lock ≡ lock_free)
    × (quiet (memory 1) ≡ record {
      mem =
          set_gate true
            (record (gate_of true (tick (tick released)).mem) { lock = lock_claiming })
            (tick (tick released)).mem;
      env = (tick (tick released)).env;
    })
unfolding claim_gate shared_load shared_cas require ◌>>=◌
claim_gate-takes_free_example = claim_gate-takes_free handle true released (quiet (memory 1)) refl

-- Another process goes on in the consumers' gate while the producers' gate is owned.
abbrev busy : World Memory
busy = record { mem = memory 2; env = (λ m. record m { dequeue_gate = gate 1 }) ∷ [] }

claim_gate-excluded_example : claim_gate handle true busy ≢ (ok tt, quiet (memory 1))
claim_gate-excluded_example =
    claim_gate-excluded handle true busy (quiet (memory 1)) (λ e. omega arith) (λ m t. refl, tt)
