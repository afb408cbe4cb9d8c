-- ===== src/Mpmc/Wait/Push.antt =====
-- A push that waits, when nobody interferes (src/edge_runtime/queue/mpmc_queue.cpp).
use edge_runtime.Common.{
  ltb, ltb→lt, le→ltb_false, Bool-cases, length, ℕ, zero, suc, ◌+◌, ◌-◌, ◌*◌, ◌≤◌, ◌≡◌, refl, inl,
  inr, true, false, none, some, List, arith,
}
use edge_runtime.Error.{ErrorCode}
use edge_runtime.Mpmc.Invariant.{IsQueue}
use edge_runtime.Mpmc.Push.{try_push}
use edge_runtime.Mpmc.Push.Success.{CanPush, pushed, try_push-ok}
use edge_runtime.Mpmc.Refusals.{CanReport, try_push-full}
use edge_runtime.Mpmc.State.{Memory, Handle}
use edge_runtime.Mpmc.Wait.{
  wait_slice_ns, FutexWait, is_push_waitable, relative_wait, after_attempt, wait_push_again,
  wait_push_round, wait_push_until,
}
use edge_runtime.Mpmc.Wait.Deadline.{
  Sleeps, later, later-IsQueue, later-CanReport, later-enough, sleep_unless_notified-quiet,
  has_time-quiet,
}
use edge_runtime.Shared.{ok, err, quiet, pure, attempt, require}
use edge_runtime.Shared.Laws.{bind_ok, bind_err, then_ok, then_err, attempt_eq, load-quiet}

module _ (futex_wait : FutexWait) (s : Sleeps futex_wait) (deadline : ℕ) (h : Handle)
    (payload : List ℕ) where
  module _ (m : Memory) (v : IsQueue h m) (c : CanReport m) (e : length payload ≡ m.payload_size)
      (full : m.enqueue_position ≡ m.dequeue_position + m.capacity) where
    attempt_push-full :
        attempt (try_push h payload) (quiet m) ≡ (ok (err ErrorCode.queue_full), quiet m)
    attempt_push-full = attempt_eq _ (try_push-full h m v c payload e full)

    wait_push_round-late :
        ltb m.now deadline ≡ false
        → wait_push_round futex_wait h payload deadline (quiet m) ≡ (err ErrorCode.timeout, quiet m)
    unfolding wait_push_round wait_push_again after_attempt is_push_waitable pure require
    wait_push_round-late l = bind_ok _ _ attempt_push-full (
        bind_ok _ _ refl
          (bind_ok _ _ (has_time-quiet futex_wait s deadline m) (then_err _ _ (rw l refl))))

    wait_push_round-sleeps :
        ltb m.now deadline ≡ true
        → (t : ℕ) × (relative_wait (deadline - m.now) ≤ t)
          × (wait_push_round futex_wait h payload deadline (quiet m)
              ≡ (ok none, quiet (later (m.now + t) m)))
    unfolding wait_push_round wait_push_again after_attempt is_push_waitable pure require
    wait_push_round-sleeps l =
        let (t, b, f) = sleep_unless_notified-quiet futex_wait s deadline m (ltb→lt _ _ l) in
        (
          t,
          b,
          bind_ok _ _ attempt_push-full (
              bind_ok _ _ refl (
                bind_ok _ _ (has_time-quiet futex_wait s deadline m) (
                  then_ok _ _ (rw l refl) (
                    bind_ok _ _ (load-quiet (λ m. m.notify_epoch) m)
                      (bind_ok _ _ attempt_push-full (bind_ok _ _ refl (then_ok _ _ f refl))))))),
        )

  -- A push that waits on a full queue that nobody touches gives up with a timeout once the deadline
  -- has passed, and not before; the queue stays as it is. There is a round for every slice of the
  -- time that is left, and one more.
  pub wait_push_until-timeout :
      (n : ℕ) (m : Memory)
      → IsQueue h m
      → CanReport m
      → length payload ≡ m.payload_size
      → m.enqueue_position ≡ m.dequeue_position + m.capacity
      → deadline ≤ m.now + n * wait_slice_ns
      → (t : ℕ) × (deadline ≤ t)
        × (wait_push_until (suc n) futex_wait h payload deadline (quiet m)
            ≡ (err ErrorCode.timeout, quiet (record m { now = t })))
  unfolding wait_push_until
  wait_push_until-timeout zero m v c e full enough = (
    m.now,
    ground arith,
    bind_err _ _ (wait_push_round-late m v c e full (le→ltb_false _ _ (omega arith))),
  )
  wait_push_until-timeout (suc n) m v c e full enough = elim (Bool-cases (ltb m.now deadline)) [
    | inr late ↦ (m.now, ground arith, bind_err _ _ (wait_push_round-late m v c e full late))
    | inl early ↦
        let (t, b, f) = wait_push_round-sleeps m v c e full early in
        let (t', d, g) =
          wait_push_until-timeout n (later (m.now + t) m) (later-IsQueue h m (m.now + t) v)
            (later-CanReport m (m.now + t) c) e full (later-enough m.now t n deadline b enough) in
        (t', d, bind_ok _ _ f g)
  ]

-- A push that waits returns at once where there is room: it does what `try_push` does, in the first
-- round, and neither looks at the clock nor sleeps.
pub wait_push_until-ready :
    (n : ℕ) (futex_wait : FutexWait) (h : Handle) (payload : List ℕ) (deadline : ℕ) (m : Memory)
    → IsQueue h m
    → CanPush m
    → length payload ≡ m.payload_size
    → wait_push_until (suc n) futex_wait h payload deadline (quiet m)
      ≡ (ok (some tt), quiet (pushed h payload m))
unfolding wait_push_until wait_push_round after_attempt pure
wait_push_until-ready n futex_wait h payload deadline m v c e =
    bind_ok _ _ (bind_ok _ _ (attempt_eq _ (try_push-ok h payload m v c e)) (bind_ok _ _ refl refl))
      refl
