-- ===== src/Mpmc/Tests/Waiting.antt =====
-- The theorems on waiting at a queue of two slots (src/edge_runtime/queue/mpmc_queue.cpp).
use edge_runtime.Common.{ℕ, ◌+◌, ◌≤◌, ◌≡◌, refl, some, [], ◌∷◌, arith}
use edge_runtime.Error.{ErrorCode}
use edge_runtime.Mpmc.Pop.Success.{popped}
use edge_runtime.Mpmc.Push.Success.{pushed}
use edge_runtime.Mpmc.Tests.{
  handle, empty, full, empty-IsQueue, full-IsQueue, empty-CanPush, full-CanPop, full-CanReport,
  empty-CanReport,
}
use edge_runtime.Mpmc.Wait.{etimedout, FutexWait, wait_push_until, wait_pop_until}
use edge_runtime.Mpmc.Wait.Deadline.{Sleeps}
use edge_runtime.Mpmc.Wait.Pop.{wait_pop_until-timeout, wait_pop_until-ready}
use edge_runtime.Mpmc.Wait.Push.{wait_push_until-timeout, wait_push_until-ready}
use edge_runtime.Shared.{ok, err, quiet}

-- A system call that sleeps for its timeout
abbrev sleeping : FutexWait
sleeping expected timeout_ns w =
    (etimedout, record { mem = record w.mem { now = w.mem.now + timeout_ns }; env = w.env })

sleeping-Sleeps : Sleeps sleeping
sleeping-Sleeps expected timeout_ns m e = (timeout_ns, omega arith, refl)

wait_push_until-timeout_example :
    (t : ℕ) × (25000000 ≤ t)
    × (wait_push_until 4 sleeping handle (7 ∷ []) 25000000 (quiet full)
        ≡ (err ErrorCode.timeout, quiet (record full { now = t })))
wait_push_until-timeout_example =
    wait_push_until-timeout sleeping sleeping-Sleeps 25000000 handle (7 ∷ []) 3 full full-IsQueue
      full-CanReport refl refl (omega arith)

wait_pop_until-timeout_example :
    (t : ℕ) × (25000000 ≤ t)
    × (wait_pop_until 4 sleeping handle 1 25000000 (quiet empty)
        ≡ (err ErrorCode.timeout, quiet (record empty { now = t })))
wait_pop_until-timeout_example =
    wait_pop_until-timeout sleeping sleeping-Sleeps 25000000 handle 3 empty empty-IsQueue
      empty-CanReport refl (omega arith)

wait_push_until-ready_example :
    wait_push_until 1 sleeping handle (7 ∷ []) 25000000 (quiet empty)
    ≡ (ok (some tt), quiet (pushed handle (7 ∷ []) empty))
wait_push_until-ready_example =
    wait_push_until-ready 0 sleeping handle (7 ∷ []) 25000000 empty empty-IsQueue empty-CanPush refl

wait_pop_until-ready_example :
    wait_pop_until 1 sleeping handle 1 25000000 (quiet full)
    ≡ (ok (some (5 ∷ [])), quiet (popped handle full))
wait_pop_until-ready_example =
    wait_pop_until-ready 0 sleeping handle 25000000 full full-IsQueue full-CanPop
