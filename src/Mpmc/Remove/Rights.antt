-- ===== src/Mpmc/Remove/Rights.antt =====
-- Who may remove a queue, and what a removed queue's handle still does
-- (src/edge_runtime/queue/mpmc_queue.cpp).
use edge_runtime.Common.{
  ◌==◌, if◌then◌else◌, Bool-cases, ℕ, ◌≡◌, refl, subst, inl, inr, Bool, true, false, not, List,
  arith,
}
use edge_runtime.Error.{ErrorCode}
use edge_runtime.Mpmc.Gate.{owner_matches}
use edge_runtime.Mpmc.Invariant.{IsQueue}
use edge_runtime.Mpmc.Pop.{try_pop}
use edge_runtime.Mpmc.Push.{validate_live_handle, try_push}
use edge_runtime.Mpmc.Push.Success.{validate_live_handle-ok}
use edge_runtime.Mpmc.Remove.{Unlink, check_abandoned, gate_active, remove_if_creator, capacity_of}
use edge_runtime.Mpmc.State.{lock_free, Memory, Handle, gate_of}
use edge_runtime.Shared.{ok, err, World, quiet, pure, fail, ◌>>=◌, ◌>>◌, require, read, shared_load}
use edge_runtime.Shared.Laws.{bind_ok, then_ok, then_err, >>=-eq-ok, pure-eq-ok, >>-eq-ok}

gate_active-quiet :
    (enqueue : Bool) (m : Memory)
    → gate_active enqueue (quiet m) ≡ (ok (not ((gate_of enqueue m).lock == lock_free)), quiet m)
unfolding gate_active shared_load pure ◌>>=◌
gate_active-quiet enqueue m = refl

unlocked : (lock : ℕ) → lock ≡ lock_free → not (lock == lock_free) ≡ false
unlocked lock e = ground arith

-- Of a well-formed queue that nobody interferes with, the process that created it unlinks the name,
-- and if that succeeds its handle is marked as removed; any other process is refused for want of
-- permission, and nothing changes.
pub remove_if_creator-rights :
    (unlink : Unlink) (h : Handle) (m : Memory)
    → IsQueue h m
    → remove_if_creator unlink h (quiet m) ≡ (
        if owner_matches m.creator h.self
        then (unlink >> pure (record h { removed = true })) (quiet m)
        else (err ErrorCode.permission_denied, quiet m))
unfolding remove_if_creator read require check_abandoned pure
remove_if_creator-rights unlink h m v = elim (Bool-cases (owner_matches m.creator h.self)) [
  | inl mine ↦ rw mine (
      then_ok _ _ (validate_live_handle-ok h m v.open_handle v.initialised) (
        bind_ok _ _ refl (
          then_ok _ _ (rw mine refl) (
            bind_ok _ _ (gate_active-quiet true m) (
              bind_ok _ _ (gate_active-quiet false m) (
                rw (unlocked _ v.enqueue_free, unlocked _ v.dequeue_free)
                  (then_ok _ _ refl (then_ok _ _ refl refl))))))))
  | inr other ↦ rw other (
      then_ok _ _ (validate_live_handle-ok h m v.open_handle v.initialised)
        (bind_ok _ _ refl (then_err _ _ (rw other refl))))
]

remove_if_creator-removed :
    (unlink : Unlink) (h h' : Handle) (u w : World Memory)
    → remove_if_creator unlink h u ≡ (ok h', w)
    → h'.removed ≡ true
unfolding remove_if_creator
remove_if_creator-removed unlink h h' u w e =
    let (u1, _, e1) = >>-eq-ok _ _ e in
    let (_, u2, _, e2) = >>=-eq-ok _ _ e1 in
    let (u3, _, e3) = >>-eq-ok _ _ e2 in
    let (_, u4, _, e4) = >>=-eq-ok _ _ e3 in
    let (_, u5, _, e5) = >>=-eq-ok _ _ e4 in
    let (u6, _, e6) = >>-eq-ok _ _ e5 in
    let (u7, _, e7) = >>-eq-ok _ _ e6 in
    let (u8, _, e8) = >>-eq-ok _ _ e7 in
    subst (λ (k : Handle). k.removed ≡ true) (pure-eq-ok u8 e8) refl

validate_live_handle-stale :
    (h : Handle) (v : World Memory)
    → h.removed ≡ true
    → validate_live_handle h v ≡ (err ErrorCode.stale_handle, v)
unfolding validate_live_handle fail
validate_live_handle-stale h v e = rw e refl

-- After a successful removal the handle refuses pushes, pops and further removals as stale, whatever
-- the memory holds and whatever others do, and it reports a capacity of zero.
pub removed-stale :
    (unlink : Unlink) (h h' : Handle) (u w : World Memory)
    → remove_if_creator unlink h u ≡ (ok h', w)
    → (payload : List ℕ) (payload_size : ℕ) (v : World Memory)
    → (try_push h' payload v ≡ (err ErrorCode.stale_handle, v))
      × (try_pop h' payload_size v ≡ (err ErrorCode.stale_handle, v))
      × (remove_if_creator unlink h' v ≡ (err ErrorCode.stale_handle, v))
      × (capacity_of h' v.mem ≡ 0)
unfolding try_push try_pop remove_if_creator capacity_of
removed-stale unlink h h' u w e payload payload_size v =
    let removed = remove_if_creator-removed unlink h h' u w e in
    let stale = validate_live_handle-stale h' v removed in
    (then_err _ _ stale, then_err _ _ stale, then_err _ _ stale, rw removed refl)
