-- ===== src/Pool/Status/Counts.antt =====
-- What the counts of a status report add up to, whatever other processes do meanwhile
-- (src/edge_runtime/buffer/shared_buffer_pool.cpp).
use edge_runtime.Common.{ℕ, zero, suc, ◌+◌, ◌≤◌, ◌≡◌, refl, subst, Bool, Option, none, some, arith}
use edge_runtime.Owner.{Owner, SnapshotKind, OwnerSnapshot}
use edge_runtime.Pool.State.{PoolMemory, PoolHandle}
use edge_runtime.Pool.Status.{
  BlockCounts, PoolStatus, no_blocks, count_owned, count_recovery, count_stable, count_observed,
  count_active, count_block, count_at, count_from, pool_status,
}
use edge_runtime.Shared.{ok, World, pure, fail}
use edge_runtime.Shared.Laws.{>>=-eq-ok, fail-ne-ok, pure-eq-ok, >>-eq-ok}

-- The blocks that were counted
abbrev pub counted_blocks : BlockCounts → ℕ
counted_blocks c = c.free_blocks + c.writing_blocks + c.published_blocks + c.reading_blocks

-- `c'` counts `n` blocks more than `c`, and of those at most the owned ones as blocked.
pub record IsLater (n : ℕ) (c c' : BlockCounts) : Type 0 where
  pub more : counted_blocks c' ≡ counted_blocks c + n
  pub blocked :
      c'.recovery_blocked_blocks + c.writing_blocks + c.reading_blocks
      ≤ c.recovery_blocked_blocks + c'.writing_blocks + c'.reading_blocks

count_stable-some :
    (h : PoolHandle) (o : Owner) (r : Option BlockCounts) (w : World PoolMemory) {c' : BlockCounts}
    {w' : World PoolMemory}
    → count_stable h o r w ≡ (ok c', w')
    → (c1 : BlockCounts) × (lives : Bool) × (r ≡ some c1) × (count_recovery lives c1 ≡ c')
unfolding count_stable
count_stable-some h o none w e = absurd (fail-ne-ok _ w e)
count_stable-some h o (some c) w e =
    let (lives, u, _, f) = >>=-eq-ok _ _ e in (c, lives, refl, pure-eq-ok u f)

recovery-IsLater :
    (state : ℕ) (lives : Bool) (c c1 : BlockCounts)
    → count_owned state c ≡ some c1
    → IsLater 1 c (count_recovery lives c1)
unfolding count_owned count_recovery
recovery-IsLater state lives c c1 e = ground arith

count_observed-IsLater :
    (k : SnapshotKind) (h : PoolHandle) (o : OwnerSnapshot) (c : BlockCounts) (w : World PoolMemory)
    {c' : BlockCounts} {w' : World PoolMemory}
    → count_observed k h o c w ≡ (ok c', w')
    → IsLater 1 c c'
unfolding count_observed
count_observed-IsLater SnapshotKind.stable h o c w e =
    let (c1, lives, f, g) = count_stable-some h o.owner (count_owned o.state c) w e in
    subst (λ (d : BlockCounts). IsLater 1 c d) g (recovery-IsLater o.state lives c c1 f)
count_observed-IsLater SnapshotKind.inactive h o c w e = absurd (fail-ne-ok _ w e)
count_observed-IsLater SnapshotKind.claiming h o c w e = absurd (fail-ne-ok _ w e)
count_observed-IsLater SnapshotKind.unstable h o c w e = absurd (fail-ne-ok _ w e)
count_observed-IsLater SnapshotKind.corrupt h o c w e = absurd (fail-ne-ok _ w e)
count_observed-IsLater SnapshotKind.epoch_exhausted h o c w e = absurd (fail-ne-ok _ w e)

count_active-IsLater :
    (h : PoolHandle) (offset : ℕ) (c : BlockCounts) (w : World PoolMemory) {c' : BlockCounts}
    {w' : World PoolMemory}
    → count_active h offset c w ≡ (ok c', w')
    → IsLater 1 c c'
unfolding count_active
count_active-IsLater h offset c w e =
    let (o, u, _, f) = >>=-eq-ok _ _ e in count_observed-IsLater o.kind h o c u f

count_block-IsLater :
    (h : PoolHandle) (offset state : ℕ) (c : BlockCounts) (w : World PoolMemory) {c' : BlockCounts}
    {w' : World PoolMemory}
    → count_block h offset state c w ≡ (ok c', w')
    → IsLater 1 c c'
unfolding count_block pure fail
count_block-IsLater h offset state c w {c'} {w'} e =
    ground (arith, count_active-IsLater h offset c w {c' = c'} {w' = w'})

count_at-IsLater :
    (h : PoolHandle) (c : BlockCounts) (offset : Option ℕ) (w : World PoolMemory) {c' : BlockCounts}
    {w' : World PoolMemory}
    → count_at h c offset w ≡ (ok c', w')
    → IsLater 1 c c'
unfolding count_at
count_at-IsLater h c none w e = absurd (fail-ne-ok _ w e)
count_at-IsLater h c (some offset) w e =
    let (state, u, _, f) = >>=-eq-ok _ _ e in count_block-IsLater h offset state c u f

IsLater-trans : (n : ℕ) (a b d : BlockCounts) → IsLater 1 a b → IsLater n b d → IsLater (suc n) a d
IsLater-trans n a b d p q = record {
  more = omega (arith, p.more, q.more);
  blocked = omega (arith, p.blocked, q.blocked);
}

pub count_from-IsLater :
    (n block_id : ℕ) (h : PoolHandle) (c : BlockCounts) (w : World PoolMemory) {c' : BlockCounts}
    {w' : World PoolMemory}
    → count_from n block_id h c w ≡ (ok c', w')
    → IsLater n c c'
unfolding count_from
count_from-IsLater zero block_id h c w e =
    subst (λ (d : BlockCounts). IsLater 0 c d) (pure-eq-ok w e)
      (record { more = omega arith; blocked = omega arith })
count_from-IsLater (suc n) block_id h c w {c'} e =
    let (offset, u, _, f) = >>=-eq-ok _ _ e in
    let (b, v, g, k) = >>=-eq-ok _ _ f in
    IsLater-trans n c b c' (count_at-IsLater h c offset u g)
      (count_from-IsLater n (block_id + 1) h b v k)

-- Whatever other processes do meanwhile, the four counts of a report that succeeds add up to the number
-- of blocks, and no more blocks are counted as blocked than as being written or read.
pub pool_status-counts :
    (h : PoolHandle) (w w' : World PoolMemory) (s : PoolStatus)
    → pool_status h w ≡ (ok s, w')
    → (s.counts.free_blocks + s.counts.writing_blocks + s.counts.published_blocks
          + s.counts.reading_blocks
        ≡ s.block_count)
      × (s.counts.recovery_blocked_blocks ≤ s.counts.writing_blocks + s.counts.reading_blocks)
unfolding pool_status
pool_status-counts h w w' s e =
    let (_, _, e1) = >>-eq-ok _ _ e in
    let (m, _, _, e2) = >>=-eq-ok _ _ e1 in
    let (lives, _, _, e3) = >>=-eq-ok _ _ e2 in
    let (c, u, f, e4) = >>=-eq-ok _ _ e3 in
    let l = count_from-IsLater m.block_count 0 h no_blocks _ f in
    subst
      (λ (t : PoolStatus).
        (counted_blocks t.counts ≡ t.block_count)
        × (t.counts.recovery_blocked_blocks ≤ t.counts.writing_blocks + t.counts.reading_blocks))
      (pure-eq-ok u e4) (omega (arith, l.more), omega (arith, l.blocked))
