-- ===== src/Mpmc/Wait/Pop.antt =====
-- A pop that waits, when nobody interferes (src/edge_runtime/queue/mpmc_queue.cpp).
use edge_runtime.Common.{
  ltb, ltb→lt, le→ltb_false, Bool-cases, ℕ, zero, suc, ◌+◌, ◌-◌, ◌*◌, ◌≤◌, ◌≡◌, refl, ◌≢◌, inl, inr,
  true, false, none, some, arith,
}
use edge_runtime.Error.{ErrorCode}
use edge_runtime.Mpmc.Admission.Quiet.{drain_budget_of, dequeue_drain_budget-open}
use edge_runtime.Mpmc.Invariant.{slot_of, IsQueue}
use edge_runtime.Mpmc.Pop.{try_pop}
use edge_runtime.Mpmc.Pop.Success.{CanPop, popped, try_pop-ok}
use edge_runtime.Mpmc.Refusals.{CanReport, try_pop-empty}
use edge_runtime.Mpmc.State.{Memory, Handle}
use edge_runtime.Mpmc.Wait.{
  wait_slice_ns, FutexWait, is_pop_waitable, relative_wait, after_attempt, wait_budget,
  check_budget, wait_pop_again, wait_pop_round, wait_pop_until,
}
use edge_runtime.Mpmc.Wait.Deadline.{
  Sleeps, later, later-IsQueue, later-CanReport, later-enough, sleep_unless_notified-quiet,
  has_time-quiet,
}
use edge_runtime.Owner.{epoch_invalid}
use edge_runtime.Shared.{ok, err, World, quiet, pure, attempt, require}
use edge_runtime.Shared.Laws.{bind_ok, bind_err, then_ok, then_err, attempt_eq, load-quiet}

wait_budget-some : (n : ℕ) (w : World Memory) → n ≢ 0 → wait_budget (ok n) w ≡ (ok tt, w)
unfolding wait_budget pure
wait_budget-some zero w h = absurd (h refl)
wait_budget-some (suc n) w h = refl

dequeue_epoch-valid :
    {h : Handle} (m : Memory)
    → IsQueue h m
    → CanReport m
    → epoch_invalid m.dequeue_gate.owner_epoch ≡ false
dequeue_epoch-valid m v c = ground (arith, v.dequeue_even, c.drain_valid)

module _ (futex_wait : FutexWait) (s : Sleeps futex_wait) (deadline : ℕ) (h : Handle) where
  module _ (m : Memory) (v : IsQueue h m) (c : CanReport m)
      (empty : m.enqueue_position ≡ m.dequeue_position) where
    attempt_pop-empty :
        attempt (try_pop h m.payload_size) (quiet m) ≡ (ok (err ErrorCode.queue_empty), quiet m)
    attempt_pop-empty = attempt_eq _ (try_pop-empty h m v c empty)

    check_budget-open : check_budget h (err ErrorCode.queue_empty) (quiet m) ≡ (ok tt, quiet m)
    unfolding check_budget attempt
    check_budget-open =
        bind_ok _ _
          (rw (dequeue_drain_budget-open h m v.dequeue_free (dequeue_epoch-valid m v c)) refl)
          (wait_budget-some (drain_budget_of m) (quiet m)
            (λ none_left. omega (arith, c.drain_valid)))

    wait_pop_round-late :
        ltb m.now deadline ≡ false
        → wait_pop_round futex_wait h m.payload_size deadline (quiet m)
          ≡ (err ErrorCode.timeout, quiet m)
    unfolding wait_pop_round wait_pop_again after_attempt is_pop_waitable pure require
    wait_pop_round-late l = bind_ok _ _ attempt_pop-empty (
        bind_ok _ _ refl (
          then_ok _ _ check_budget-open
            (bind_ok _ _ (has_time-quiet futex_wait s deadline m) (then_err _ _ (rw l refl)))))

    wait_pop_round-sleeps :
        ltb m.now deadline ≡ true
        → (t : ℕ) × (relative_wait (deadline - m.now) ≤ t)
          × (wait_pop_round futex_wait h m.payload_size deadline (quiet m)
              ≡ (ok none, quiet (later (m.now + t) m)))
    unfolding wait_pop_round wait_pop_again after_attempt is_pop_waitable pure require
    wait_pop_round-sleeps l =
        let (t, b, f) = sleep_unless_notified-quiet futex_wait s deadline m (ltb→lt _ _ l) in
        (
          t,
          b,
          bind_ok _ _ attempt_pop-empty (
              bind_ok _ _ refl (
                then_ok _ _ check_budget-open (
                  bind_ok _ _ (has_time-quiet futex_wait s deadline m) (
                    then_ok _ _ (rw l refl) (
                      bind_ok _ _ (load-quiet (λ m. m.notify_epoch) m) (
                        bind_ok _ _ attempt_pop-empty (
                          bind_ok _ _ refl
                            (then_ok _ _ check_budget-open (then_ok _ _ f refl))))))))),
        )

  -- A pop that waits on an empty queue that nobody touches gives up with a timeout once the deadline
  -- has passed, and not before; the queue stays as it is. There is a round for every slice of the
  -- time that is left, and one more.
  pub wait_pop_until-timeout :
      (n : ℕ) (m : Memory)
      → IsQueue h m
      → CanReport m
      → m.enqueue_position ≡ m.dequeue_position
      → deadline ≤ m.now + n * wait_slice_ns
      → (t : ℕ) × (deadline ≤ t)
        × (wait_pop_until (suc n) futex_wait h m.payload_size deadline (quiet m)
            ≡ (err ErrorCode.timeout, quiet (record m { now = t })))
  unfolding wait_pop_until
  wait_pop_until-timeout zero m v c empty enough = (
    m.now,
    ground arith,
    bind_err _ _ (wait_pop_round-late m v c empty (le→ltb_false _ _ (omega arith))),
  )
  wait_pop_until-timeout (suc n) m v c empty enough = elim (Bool-cases (ltb m.now deadline)) [
    | inr late ↦ (m.now, ground arith, bind_err _ _ (wait_pop_round-late m v c empty late))
    | inl early ↦
        let (t, b, f) = wait_pop_round-sleeps m v c empty early in
        let (t', d, g) =
          wait_pop_until-timeout n (later (m.now + t) m) (later-IsQueue h m (m.now + t) v)
            (later-CanReport m (m.now + t) c) empty (later-enough m.now t n deadline b enough) in
        (t', d, bind_ok _ _ f g)
  ]

-- A pop that waits returns at once where there is a message: it does what `try_pop` does, in the
-- first round, and neither looks at the clock nor sleeps.
pub wait_pop_until-ready :
    (n : ℕ) (futex_wait : FutexWait) (h : Handle) (deadline : ℕ) (m : Memory)
    → IsQueue h m
    → CanPop m
    → wait_pop_until (suc n) futex_wait h m.payload_size deadline (quiet m)
      ≡ (ok (some (slot_of m m.dequeue_position).payload), quiet (popped h m))
unfolding wait_pop_until wait_pop_round after_attempt pure
wait_pop_until-ready n futex_wait h deadline m v c =
    bind_ok _ _ (bind_ok _ _ (attempt_eq _ (try_pop-ok h m v c)) (bind_ok _ _ refl refl)) refl
