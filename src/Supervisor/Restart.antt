-- ===== src/Supervisor/Restart.antt =====
-- When a supervisor restarts its child, and after which delay
-- (src/edge_runtime/process/supervisor_impl.cpp). Counts of milliseconds are those that
-- `supervisor_create_impl` accepts: none is negative.
pub mod Backoff
pub mod Bound
use edge_runtime.Common.{
  ltb, leb, ◌==◌, if◌then◌else◌, ℕ, zero, suc, ◌+◌, ◌-◌, ◌*◌, ◌/◌, ◌%◌, ◌^◌, Bool, true, false, not,
  ◌&&◌,
}

-- The options of a restart
pub record RestartOptions : Type 0 where
  pub initial_delay : ℕ
  pub max_delay : ℕ
  pub multiplier : ℕ
  pub max_restarts : ℕ
  pub stable_reset_window : ℕ

-- The words of SupervisorHandle that decide on a restart
pub record Failures : Type 0 where
  pub consecutive_failures : ℕ
  pub last_spawn_mono_ns : ℕ

-- A `uint64_t` product
unfoldable pub ms_to_ns : ℕ → ℕ
ms_to_ns ms = ms * 1000000 % 2 ^ 64

-- The loop, with the rounds left
unfoldable pub backoff_rounds : ℕ → ℕ → ℕ → ℕ → ℕ
backoff_rounds zero capped multiplier delay = delay
backoff_rounds (suc n) capped multiplier delay =
    let rest = backoff_rounds n capped multiplier (delay * multiplier % 2 ^ 64) in
    if not (ltb delay capped)
    then delay
    else if ltb (capped / multiplier) delay
    then capped
    else rest

unfoldable pub cap_of : RestartOptions → ℕ
cap_of options =
    if ms_to_ns options.max_delay == 0
    then ms_to_ns options.initial_delay
    else ms_to_ns options.max_delay

-- The last `if` of `backoff_delay_ns`
unfoldable pub capped_delay : ℕ → ℕ → ℕ
capped_delay capped delay = if ltb capped delay then capped else delay

unfoldable pub backoff_delay_ns : RestartOptions → Failures → ℕ
backoff_delay_ns options f = capped_delay (cap_of options) (
    backoff_rounds (f.consecutive_failures - 1) (cap_of options) options.multiplier
      (ms_to_ns options.initial_delay))

-- Whether the child ran long enough for the failures before it to be forgotten; `now` is what the
-- monotonic clock says, or zero.
unfoldable pub ran_stable : RestartOptions → ℕ → Failures → Bool
ran_stable options now f =
    not (now == 0)
    && not (f.last_spawn_mono_ns == 0)
    && leb f.last_spawn_mono_ns now
    && leb (ms_to_ns options.stable_reset_window) (now - f.last_spawn_mono_ns)

unfoldable pub forget_failures : RestartOptions → ℕ → Failures → Failures
forget_failures options now f =
    if ran_stable options now f then record f { consecutive_failures = 0 } else f

-- Whether the restarts are exhausted; if not, one more failure is counted.
unfoldable pub add_failure : RestartOptions → Failures → Bool × Failures
add_failure options f =
    if leb options.max_restarts f.consecutive_failures
    then (true, f)
    else (false, record f { consecutive_failures = (f.consecutive_failures + 1) % 2 ^ 32 })

unfoldable pub count_failure : RestartOptions → ℕ → Failures → Bool × Failures
count_failure options now f = add_failure options (forget_failures options now f)
