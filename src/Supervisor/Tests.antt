-- ===== src/Supervisor/Tests.antt =====
-- The theorems on restarts at concrete options (src/edge_runtime/process/supervisor_impl.cpp).
use Prim.Native.Nat.{min}
use edge_runtime.Common.{◌-◌, ◌≡◌, refl, [], ◌∷◌, arith}
use edge_runtime.Supervisor.Restart.{RestartOptions, ms_to_ns, cap_of, backoff_delay_ns, ran_stable}
use edge_runtime.Supervisor.Restart.Backoff.{backoff_delay_ns-eq}
use edge_runtime.Supervisor.Restart.Bound.{restarts, restarts-eq}

abbrev options : RestartOptions
options = record {
  initial_delay = 100;
  max_delay = 10000;
  multiplier = 2;
  max_restarts = 1;
  stable_reset_window = 60000;
}

backoff_delay_ns-eq_example :
    backoff_delay_ns options (record { consecutive_failures = 4; last_spawn_mono_ns = 7 })
    ≡ min 800000000 10000000000
unfolding ms_to_ns cap_of
backoff_delay_ns-eq_example =
    backoff_delay_ns-eq options (record { consecutive_failures = 4; last_spawn_mono_ns = 7 })
      (omega arith)

restarts-eq_example :
    restarts options
      ((5, 6) ∷ (7, 8) ∷ [])
      (record { consecutive_failures = 0; last_spawn_mono_ns = 0 })
    ≡ min 2 (1 - 0)
unfolding ran_stable ms_to_ns
restarts-eq_example =
    restarts-eq options ((5, 6) ∷ (7, 8) ∷ [])
      (record { consecutive_failures = 0; last_spawn_mono_ns = 0 }) (omega arith) (omega arith)
      (λ c. refl, (λ c. refl, tt))
