-- ===== src/Mpmc/Spec.antt =====
-- What a bounded queue promises: a list with a capacity, and a sequence of operations on it.
use edge_runtime.Common.{ltb, if◌then◌else◌, length, ℕ, List, [], ◌∷◌, ◌++◌}
use edge_runtime.Error.{ErrorCode}
use edge_runtime.Mpmc.Pop.{try_pop}
use edge_runtime.Mpmc.Push.{try_push}
use edge_runtime.Mpmc.State.{Memory, Handle}
use edge_runtime.Shared.{Result, ok, err, quiet}

-- An operation of one process, given by its handle
pub data Op : Type 0 where
  push : Handle → List ℕ → Op
  pop : Handle → Op

-- What the caller sees of an operation
pub data Reply : Type 0 where
  done was_full was_empty : Reply
  got : List ℕ → Reply
  refused : ErrorCode → Reply

-- The queue as a list of messages, oldest first
unfoldable pub spec_step : ℕ → Op → List (List ℕ) → Reply × List (List ℕ)
spec_step capacity (push h payload) q =
    if ltb (length q) capacity then (done, q ++ payload ∷ []) else (was_full, q)
spec_step capacity (pop h) [] = (was_empty, [])
spec_step capacity (pop h) (payload ∷ q) = (got payload, q)

unfoldable pub spec_run : ℕ → List Op → List (List ℕ) → List Reply × List (List ℕ)
spec_run capacity [] q = ([], q)
spec_run capacity (op ∷ ops) q =
    let (r, q') = spec_step capacity op q in
    let (rs, q'') = spec_run capacity ops q' in (r ∷ rs, q'')

abbrev pub push_reply : Result (Unit {0}) → Reply
push_reply (ok _) = done
push_reply (err ErrorCode.queue_full) = was_full
push_reply (err e) = refused e

abbrev pub pop_reply : Result (List ℕ) → Reply
pop_reply (ok payload) = got payload
pop_reply (err ErrorCode.queue_empty) = was_empty
pop_reply (err e) = refused e

-- One operation of the implementation, with nobody interfering
unfoldable pub run_step : Op → Memory → Reply × Memory
run_step (push h payload) m = let (r, w) = try_push h payload (quiet m) in (push_reply r, w.mem)
run_step (pop h) m = let (r, w) = try_pop h m.payload_size (quiet m) in (pop_reply r, w.mem)

unfoldable pub run : List Op → Memory → List Reply × Memory
run [] m = ([], m)
run (op ∷ ops) m = let (r, m') = run_step op m in let (rs, m'') = run ops m' in (r ∷ rs, m'')
