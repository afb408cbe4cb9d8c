-- ===== src/Pool/Remove/Idle.antt =====
-- Which pools can be removed (src/edge_runtime/buffer/shared_buffer_pool.cpp).
use edge_runtime.Common.{
  ◌==◌, Bool-cases, ℕ, zero, suc, ◌+◌, ◌≤◌, ◌<◌, ◌≡◌, refl, sym, ◌∙◌, subst, ◌≢◌, inl, inr, true,
  false, some, arith,
}
use edge_runtime.Error.{ErrorCode}
use edge_runtime.Mpmc.Gate.{owner_matches}
use edge_runtime.Mpmc.Wait.Deadline.{later}
use edge_runtime.Pool.Blocks.Quiet.{IsPool, block_of, validate_live_pool-ok, block_at-ok}
use edge_runtime.Pool.Remove.{
  UnlinkPool, active_block_code, refuse_active, require_free, require_all_free,
  remove_pool_if_creator,
}
use edge_runtime.Pool.State.{block_free, block_published, Block, PoolMemory, PoolHandle, block_cell}
use edge_runtime.Shared.{ok, World, quiet, pure, fail, ◌>>=◌, ◌>>◌, require, read, shared_load}
use edge_runtime.Shared.Laws.{
  bind_ok, then_ok, then_err, >>=-eq-ok, fail-ne-ok, pure-eq-ok, >>-eq-ok, load-quiet,
}
use native.Mathlib.Decide.{ℕ_discrete}

refuse_active-ne-ok : (offset : ℕ) (u w : World PoolMemory) → refuse_active offset u ≢ (ok tt, w)
unfolding refuse_active
refuse_active-ne-ok offset u w e =
    let (o, v, p, q) = >>=-eq-ok _ _ e in fail-ne-ok (active_block_code o.kind) v q

not_free : (b : Block) → b.state ≢ block_free → (b.state == block_free) ≡ false
not_free b n = ground (arith, n)

-- A block that is not free does not pass the check.
require_free-busy :
    (offset : ℕ) (m : PoolMemory) (w : World PoolMemory)
    → (m.blocks offset).state ≢ block_free
    → require_free (some offset) (quiet m) ≢ (ok tt, w)
unfolding require_free shared_load ◌>>=◌
require_free-busy offset m w n e = elim (Bool-cases ((m.blocks offset).state == block_published)) [
  | inl here ↦
      fail-ne-ok ErrorCode.buffer_pool_contention (quiet m)
        (rw (not_free (m.blocks offset) n, here) at e)
  | inr away ↦ refuse_active-ne-ok offset (quiet m) w (rw (not_free (m.blocks offset) n, away) at e)
]

require_free-ok :
    (offset : ℕ) (m : PoolMemory)
    → (m.blocks offset).state ≡ block_free
    → require_free (some offset) (quiet m) ≡ (ok tt, quiet m)
unfolding require_free pure
require_free-ok offset m e = bind_ok _ _ (load-quiet (block_cell offset).state m) (rw e refl)

module _ (h : PoolHandle) (m : PoolMemory) (v : IsPool h m) where
  -- The blocks from one on are free.
  abbrev FreeFrom : ℕ → Type 0
  FreeFrom i = (j : ℕ) → i ≤ j → j < m.block_count → (m.blocks (block_of m j)).state ≡ block_free

  require_all_free-ok :
      (n i : ℕ)
      → i + n ≡ m.block_count
      → FreeFrom i
      → require_all_free n i h (quiet m) ≡ (ok tt, quiet m)
  unfolding require_all_free pure
  require_all_free-ok zero i e f = refl
  require_all_free-ok (suc n) i e f = bind_ok _ _ (block_at-ok h m v i (omega arith)) (
      then_ok _ _ (require_free-ok (block_of m i) m (f i (omega arith) (omega arith)))
        (require_all_free-ok n (i + 1) (omega arith) (λ j l. f j (omega arith))))

  require_all_free-facts :
      (n i : ℕ) (w : World PoolMemory)
      → i + n ≡ m.block_count
      → require_all_free n i h (quiet m) ≡ (ok tt, w)
      → FreeFrom i
  unfolding require_all_free
  require_all_free-facts zero i w e r j l k = absurd (omega arith)
  require_all_free-facts (suc n) i w e r j l k =
      elim (ℕ_discrete (m.blocks (block_of m i)).state block_free) [
        | yes free ↦ elim (ℕ_discrete i j) [
          | yes here ↦ rw (← here) free
          | no later ↦
              require_all_free-facts n (i + 1) w (omega arith)
                (sym (
                    bind_ok _ _ (block_at-ok h m v i (omega arith))
                      (then_ok _ _ (require_free-ok (block_of m i) m free) refl))
                  ∙ r)
                j (omega arith) k
        ]
        | no busy ↦
            let (u, p, q) =
              >>-eq-ok (require_free (some (block_of m i))) _
                (sym (bind_ok _ _ (block_at-ok h m v i (omega arith)) refl) ∙ r) in
            absurd (require_free-busy (block_of m i) m u busy p)
      ]

  all_free-facts :
      (w : World PoolMemory)
      → require_all_free m.block_count 0 h (quiet m) ≡ (ok tt, w)
      → (i : ℕ) → i < m.block_count
      → (m.blocks (block_of m i)).state ≡ block_free
  all_free-facts w e i l =
      require_all_free-facts m.block_count 0 w (omega arith) e i (omega arith) l

  -- The creator of an idle pool unlinks its name, and marks its handle as removed.
  pub remove_pool_if_creator-unlinks :
      (unlink : UnlinkPool)
      → owner_matches m.creator h.self ≡ true
      → ((i : ℕ) → i < m.block_count → (m.blocks (block_of m i)).state ≡ block_free)
      → remove_pool_if_creator unlink h (quiet m)
        ≡ (unlink >> pure (record h { removed = true })) (quiet m)
  unfolding remove_pool_if_creator read require pure
  remove_pool_if_creator-unlinks unlink mine f = then_ok _ _ (validate_live_pool-ok h m v) (
      bind_ok _ _ refl (
        then_ok _ _ (rw mine refl) (
          bind_ok _ _ refl
            (then_ok _ _ (require_all_free-ok m.block_count 0 (omega arith) (λ j l. f j)) refl))))

-- A pool that nobody interferes with is removed only by the process that created it, and only while
-- every block is free; the handle is marked as removed then.
pub remove_pool_if_creator-idle :
    (unlink : UnlinkPool) (h h' : PoolHandle) (m : PoolMemory) (w : World PoolMemory)
    → IsPool h m
    → remove_pool_if_creator unlink h (quiet m) ≡ (ok h', w)
    → (owner_matches m.creator h.self ≡ true)
      × ((i : ℕ) → i < m.block_count → (m.blocks (block_of m i)).state ≡ block_free)
      × (h'.removed ≡ true)
unfolding remove_pool_if_creator read require fail
remove_pool_if_creator-idle unlink h h' m w v e =
    elim (Bool-cases (owner_matches m.creator h.self)) [
      | inl mine ↦
          let (u, p, q) = >>-eq-ok (require_all_free m.block_count 0 h) _ (
            sym (
              then_ok _ _ (validate_live_pool-ok h m v)
                (bind_ok _ _ refl (then_ok _ _ (rw mine refl) (bind_ok _ _ refl refl))))
            ∙ e) in
          let (u', _, q') = >>-eq-ok unlink _ q in
          (
            mine,
            all_free-facts h m v u p,
            subst (λ (k : PoolHandle). k.removed ≡ true) (pure-eq-ok u' q') refl,
          )
      | inr other ↦ absurd (
          fail-ne-ok ErrorCode.permission_denied (quiet m) (
            sym (
              then_ok _ _ (validate_live_pool-ok h m v)
                (bind_ok _ _ refl (then_err _ _ (rw other refl))))
            ∙ e))
    ]
