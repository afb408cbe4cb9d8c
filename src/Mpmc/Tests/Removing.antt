-- ===== src/Mpmc/Tests/Removing.antt =====
-- The theorems on removal at a queue of two slots (src/edge_runtime/queue/mpmc_queue.cpp).
use edge_runtime.Common.{◌≡◌, true, false, []}
use edge_runtime.Error.{ErrorCode}
use edge_runtime.Mpmc.Gate.{owner_matches}
use edge_runtime.Mpmc.Pop.{try_pop}
use edge_runtime.Mpmc.Push.{try_push}
use edge_runtime.Mpmc.Remove.{Unlink, remove_if_creator, capacity_of}
use edge_runtime.Mpmc.Remove.Rights.{remove_if_creator-rights, removed-stale}
use edge_runtime.Mpmc.Tests.{handle, full, full-IsQueue}
use edge_runtime.Shared.{ok, err, quiet, pure, ◌>>◌}

-- Unlinking that succeeds
abbrev unlinked : Unlink
unlinked w = (ok tt, record { mem = record w.mem { linked = false }; env = w.env })

remove_if_creator-rights_example :
    remove_if_creator unlinked handle (quiet full)
    ≡ (ok (record handle { removed = true }), quiet (record full { linked = false }))
unfolding ◌>>◌ pure owner_matches
remove_if_creator-rights_example = remove_if_creator-rights unlinked handle full full-IsQueue

removed-stale_example :
    let h' = record handle { removed = true } in
    (try_push h' [] (quiet full) ≡ (err ErrorCode.stale_handle, quiet full))
    × (try_pop h' 1 (quiet full) ≡ (err ErrorCode.stale_handle, quiet full))
    × (remove_if_creator unlinked h' (quiet full) ≡ (err ErrorCode.stale_handle, quiet full))
    × (capacity_of h' full ≡ 0)
unfolding ◌>>◌ pure owner_matches
removed-stale_example =
    removed-stale unlinked handle (record handle { removed = true }) (quiet full)
      (quiet (record full { linked = false }))
      (remove_if_creator-rights unlinked handle full full-IsQueue) [] 1 (quiet full)
