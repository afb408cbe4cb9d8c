-- ===== src/Mpmc/Wait.antt =====
-- Waiting for room or for a message until a deadline (src/edge_runtime/queue/mpmc_queue.cpp).
-- The futex system call is a parameter: with the expected value and the timeout in nanoseconds, it
-- returns zero or an errno. The steady clock counts nanoseconds.
pub mod Deadline
pub mod Push
pub mod Pop
use edge_runtime.Common.{
  ltb, leb, ◌==◌, if◌then◌else◌, ℕ, zero, suc, ◌-◌, Bool, true, false, not, ◌||◌, Option, none,
  some, List,
}
use edge_runtime.Error.{ErrorCode}
use edge_runtime.Mpmc.Admission.{dequeue_drain_budget}
use edge_runtime.Mpmc.Pop.{try_pop}
use edge_runtime.Mpmc.Push.{try_push}
use edge_runtime.Mpmc.State.{Memory, Handle}
use edge_runtime.Shared.{
  Result, ok, err, World, Action, pure, fail, ◌>>=◌, ◌>>◌, attempt, require, shared_load,
}

-- kMpmcWaitSliceNs
abbrev pub wait_slice_ns : ℕ
wait_slice_ns = 10000000

abbrev pub eintr : ℕ
eintr = 4

abbrev pub eagain : ℕ
eagain = 11

abbrev pub etimedout : ℕ
etimedout = 110

abbrev pub FutexWait : Type 0
FutexWait = ℕ → ℕ → World Memory → ℕ × World Memory

unfoldable pub is_push_waitable : ErrorCode → Bool
is_push_waitable ErrorCode.queue_full = true
is_push_waitable ErrorCode.queue_contention = true
is_push_waitable _ = false

unfoldable pub is_pop_waitable : ErrorCode → Bool
is_pop_waitable ErrorCode.queue_empty = true
is_pop_waitable ErrorCode.queue_contention = true
is_pop_waitable _ = false

unfoldable pub deadline_has_time : ℕ → Action Memory Bool
deadline_has_time deadline = do now ← shared_load (λ m. m.now); pure (ltb now deadline)

-- `none` is `false`
unfoldable pub remaining_wait_ns : ℕ → Action Memory (Option ℕ)
remaining_wait_ns deadline = do
  now ← shared_load (λ m. m.now)
  pure (if leb deadline now then none else some (deadline - now))

-- The timeout in nanoseconds
unfoldable pub relative_wait : ℕ → ℕ
relative_wait remaining_ns = if ltb remaining_ns wait_slice_ns then remaining_ns else wait_slice_ns

unfoldable pub futex : FutexWait → ℕ → ℕ → Action Memory ℕ
futex futex_wait expected timeout_ns w =
    (ok (futex_wait expected timeout_ns w).0, (futex_wait expected timeout_ns w).1)

-- The errnos after which the caller looks again
unfoldable pub is_wakeup : ℕ → Bool
is_wakeup rc = rc == 0 || rc == eagain || rc == eintr || rc == etimedout

unfoldable pub wait_on_notify_epoch : FutexWait → ℕ → ℕ → Action Memory (Unit {0})
wait_on_notify_epoch futex_wait deadline expected = do
  remaining ← remaining_wait_ns deadline
  elim remaining [
    | none ↦ fail ErrorCode.timeout
    | some remaining_ns ↦ do
      rc ← futex futex_wait expected (relative_wait remaining_ns)
      require (is_wakeup rc) ErrorCode.system_error
  ]

-- What is returned after an attempt; `none` goes on waiting.
unfoldable pub after_attempt :
    {A : Type 0} → (ErrorCode → Bool) → Result A → Action Memory (Option A)
after_attempt waitable (ok a) = pure (some a)
after_attempt waitable (err e) = if waitable e then pure none else fail e

-- The end of a round: it sleeps unless somebody notified since `before`.
unfoldable pub sleep_unless_notified : FutexWait → ℕ → ℕ → Action Memory (Unit {0})
sleep_unless_notified futex_wait deadline before = do
  after ← shared_load (λ m. m.notify_epoch)
  if not (before == after) then pure tt else wait_on_notify_epoch futex_wait deadline after

-- A round after its first attempt; `none` is a further round.
unfoldable pub wait_push_again : FutexWait → Handle → List ℕ → ℕ → Action Memory (Option (Unit {0}))
wait_push_again futex_wait h payload deadline = do
  has_time ← deadline_has_time deadline
  require has_time ErrorCode.timeout
  before ← shared_load (λ m. m.notify_epoch)
  attempted ← attempt (try_push h payload)
  outcome ← after_attempt is_push_waitable attempted
  elim outcome [
    | some _ ↦ pure (some tt)
    | none ↦ do sleep_unless_notified futex_wait deadline before; pure none
  ]

unfoldable pub wait_push_round : FutexWait → Handle → List ℕ → ℕ → Action Memory (Option (Unit {0}))
wait_push_round futex_wait h payload deadline = do
  attempted ← attempt (try_push h payload)
  outcome ← after_attempt is_push_waitable attempted
  elim outcome [ some _ ↦ pure (some tt) | none ↦ wait_push_again futex_wait h payload deadline ]

-- `mpmc_wait_push_until_impl` for so many rounds; `none` is that it still waits.
unfoldable pub wait_push_until :
    ℕ → FutexWait → Handle → List ℕ → ℕ → Action Memory (Option (Unit {0}))
wait_push_until zero futex_wait h payload deadline = pure none
wait_push_until (suc n) futex_wait h payload deadline =
    let rest = wait_push_until n futex_wait h payload deadline in
    do
      outcome ← wait_push_round futex_wait h payload deadline
      elim outcome [ some _ ↦ pure (some tt) | none ↦ rest ]

-- What a consumer that waits does with the drain budget
unfoldable pub wait_budget : Result ℕ → Action Memory (Unit {0})
wait_budget (err ErrorCode.queue_contention) = pure tt
wait_budget (err e) = fail e
wait_budget (ok zero) = fail ErrorCode.sequence_exhausted
wait_budget (ok (suc n)) = pure tt

-- After an attempt that found the queue empty, the consumers' gate must not be worn out.
unfoldable pub check_budget : Handle → Result (List ℕ) → Action Memory (Unit {0})
check_budget h (err ErrorCode.queue_empty) = do
  drain_budget ← attempt (dequeue_drain_budget h)
  wait_budget drain_budget
check_budget h _ = pure tt

-- A round after its first attempt; `none` is a further round.
unfoldable pub wait_pop_again : FutexWait → Handle → ℕ → ℕ → Action Memory (Option (List ℕ))
wait_pop_again futex_wait h payload_size deadline = do
  has_time ← deadline_has_time deadline
  require has_time ErrorCode.timeout
  before ← shared_load (λ m. m.notify_epoch)
  attempted ← attempt (try_pop h payload_size)
  outcome ← after_attempt is_pop_waitable attempted
  elim outcome [
    | some payload ↦ pure (some payload)
    | none ↦ do
      check_budget h attempted
      sleep_unless_notified futex_wait deadline before
      pure none
  ]

unfoldable pub wait_pop_round : FutexWait → Handle → ℕ → ℕ → Action Memory (Option (List ℕ))
wait_pop_round futex_wait h payload_size deadline = do
  attempted ← attempt (try_pop h payload_size)
  outcome ← after_attempt is_pop_waitable attempted
  elim outcome [
    | some payload ↦ pure (some payload)
    | none ↦ do check_budget h attempted; wait_pop_again futex_wait h payload_size deadline
  ]

-- `mpmc_wait_pop_until_impl` for so many rounds; `none` is that it still waits.
unfoldable pub wait_pop_until : ℕ → FutexWait → Handle → ℕ → ℕ → Action Memory (Option (List ℕ))
wait_pop_until zero futex_wait h payload_size deadline = pure none
wait_pop_until (suc n) futex_wait h payload_size deadline =
    let rest = wait_pop_until n futex_wait h payload_size deadline in
    do
      outcome ← wait_pop_round futex_wait h payload_size deadline
      elim outcome [ some payload ↦ pure (some payload) | none ↦ rest ]
