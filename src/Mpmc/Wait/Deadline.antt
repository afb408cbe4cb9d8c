-- ===== src/Mpmc/Wait/Deadline.antt =====
-- Waiting when nobody interferes: at once where the queue is ready, and otherwise until the deadline
-- (src/edge_runtime/queue/mpmc_queue.cpp).
use edge_runtime.Common.{ltb, ◌==◌, ℕ, suc, ◌+◌, ◌-◌, ◌*◌, ◌≤◌, ◌<◌, ◌≡◌, refl, false, not, arith}
use edge_runtime.Mpmc.Invariant.{IsQueue}
use edge_runtime.Mpmc.Refusals.{CanReport}
use edge_runtime.Mpmc.State.{Memory, Handle}
use edge_runtime.Mpmc.Wait.{
  wait_slice_ns, etimedout, FutexWait, deadline_has_time, remaining_wait_ns, relative_wait, futex,
  is_wakeup, wait_on_notify_epoch, sleep_unless_notified,
}
use edge_runtime.Shared.{ok, quiet, pure, ◌>>=◌, ◌>>◌, require, shared_load}
use edge_runtime.Shared.Laws.{bind_ok, if_no, load-quiet}

-- A futex that nobody wakes, and whose word has the expected value, sleeps for the timeout or
-- longer, and then says so.
abbrev pub Sleeps : FutexWait → Type 0
Sleeps futex_wait =
    (expected timeout_ns : ℕ) (m : Memory)
    → m.notify_epoch ≡ expected
    → (t : ℕ) × (timeout_ns ≤ t)
      × (futex_wait expected timeout_ns (quiet m)
          ≡ (etimedout, quiet (record m { now = m.now + t })))

-- The memory at a later moment
abbrev pub later : ℕ → Memory → Memory
later t m = record m { now = t }

pub later-IsQueue : (h : Handle) (m : Memory) (t : ℕ) → IsQueue h m → IsQueue h (later t m)
later-IsQueue h m t v = record {
  shape = v.shape;
  stride = v.stride;
  open_handle = v.open_handle;
  initialised = v.initialised;
  order = v.order;
  bounded = v.bounded;
  filled = v.filled;
  vacant = v.vacant;
  enqueue_free = v.enqueue_free;
  dequeue_free = v.dequeue_free;
  enqueue_even = v.enqueue_even;
  dequeue_even = v.dequeue_even;
}

pub later-CanReport : (m : Memory) (t : ℕ) → CanReport m → CanReport (later t m)
later-CanReport m t c = record {
  drain_valid = c.drain_valid;
  fill_valid = c.fill_valid;
  push_tickets = c.push_tickets;
  pop_tickets = c.pop_tickets;
}

-- A sleep leaves a slice less, or nothing.
pub later-enough :
    (now t k deadline : ℕ)
    → relative_wait (deadline - now) ≤ t
    → deadline ≤ now + suc k * wait_slice_ns
    → deadline ≤ now + t + k * wait_slice_ns
unfolding relative_wait
later-enough now t k deadline b l = ground arith

not_notified : (epoch : ℕ) → not (epoch == epoch) ≡ false
not_notified epoch = ground arith

module _ (futex_wait : FutexWait) (s : Sleeps futex_wait) (deadline : ℕ) where
  wait_on_notify_epoch-quiet :
      (m : Memory) (e t : ℕ)
      → m.now < deadline
      → futex_wait e (relative_wait (deadline - m.now)) (quiet m)
        ≡ (etimedout, quiet (later (m.now + t) m))
      → wait_on_notify_epoch futex_wait deadline e (quiet m) ≡ (ok tt, quiet (later (m.now + t) m))
  unfolding wait_on_notify_epoch remaining_wait_ns futex is_wakeup shared_load pure require ◌>>=◌
      ◌>>◌
  wait_on_notify_epoch-quiet m e t l f = ground arith

  -- The sleep takes a slice or the time that is left.
  pub sleep_unless_notified-quiet :
      (m : Memory)
      → m.now < deadline
      → (t : ℕ) × (relative_wait (deadline - m.now) ≤ t)
        × (sleep_unless_notified futex_wait deadline m.notify_epoch (quiet m)
            ≡ (ok tt, quiet (later (m.now + t) m)))
  unfolding sleep_unless_notified
  sleep_unless_notified-quiet m l =
      let (t, b, f) = s m.notify_epoch (relative_wait (deadline - m.now)) m refl in
      (
        t,
        b,
        bind_ok _ _ (load-quiet (λ m. m.notify_epoch) m) (
            if_no _ _ (not_notified m.notify_epoch)
              (wait_on_notify_epoch-quiet m m.notify_epoch t l f)),
      )

  pub has_time-quiet :
      (m : Memory) → deadline_has_time deadline (quiet m) ≡ (ok (ltb m.now deadline), quiet m)
  unfolding deadline_has_time shared_load pure ◌>>=◌
  has_time-quiet m = refl
