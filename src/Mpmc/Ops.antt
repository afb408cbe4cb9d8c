-- ===== src/Mpmc/Ops.antt =====
-- What a push and a pop do to the messages of a well-formed queue, when nobody interferes
-- (src/edge_runtime/queue/mpmc_queue.cpp).
use edge_runtime.Common.{length, ℕ, ◌≡◌, refl, List, [], ◌∷◌, ◌++◌}
use edge_runtime.Mpmc.Fifo.{pushed-IsQueue, contents-pushed, popped-IsQueue, contents-popped}
use edge_runtime.Mpmc.Invariant.{slot_of, IsQueue, contents}
use edge_runtime.Mpmc.Pop.{try_pop}
use edge_runtime.Mpmc.Pop.Success.{CanPop, try_pop-ok}
use edge_runtime.Mpmc.Push.{try_push}
use edge_runtime.Mpmc.Push.Success.{CanPush, try_push-ok}
use edge_runtime.Mpmc.State.{Memory, Handle}
use edge_runtime.Shared.{ok, quiet}

module _ (h k : Handle) (m : Memory) (v : IsQueue h m) (u : IsQueue k m) where
  -- A push with room in the queue and in every counter succeeds, leaves a queue that is well formed
  -- for every handle for which it was, and appends the payload to its messages.
  pub try_push-appends :
      (payload : List ℕ)
      → CanPush m
      → length payload ≡ m.payload_size
      → let t = try_push h payload (quiet m) in
        (t.0 ≡ ok tt) × IsQueue k t.1.mem × (contents t.1.mem ≡ contents m ++ payload ∷ [])
  try_push-appends payload c e =
      rw (try_push-ok h payload m v c e)
        (refl, pushed-IsQueue h k payload m u c, contents-pushed h k payload m u c)

  -- A pop with a message in the queue and room in every counter leaves a queue that is well formed
  -- for every handle for which it was; it returns the oldest message and removes it.
  pub try_pop-takes_oldest :
      CanPop m
      → let t = try_pop h m.payload_size (quiet m) in
        (payload : List ℕ) × (t.0 ≡ ok payload)
        × IsQueue k t.1.mem
        × (contents m ≡ payload ∷ contents t.1.mem)
  try_pop-takes_oldest c = rw (try_pop-ok h m v c) (
    (slot_of m m.dequeue_position).payload,
    refl,
    popped-IsQueue h k m u c,
    contents-popped h k m u c,
  )
