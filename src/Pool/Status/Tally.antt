-- ===== src/Pool/Status/Tally.antt =====
-- What the counts of a status report say of a pool that nobody interferes with
-- (src/edge_runtime/buffer/shared_buffer_pool.cpp).
use edge_runtime.Common.{
  ◌==◌, if◌then◌else◌, ℕ, zero, suc, ◌+◌, ◌≡◌, refl, sym, ap, ◌∙◌, subst, Bool, false, not, ◌&&◌,
  ◌||◌, Option, none, some, arith,
}
use edge_runtime.Mpmc.Gate.{owner_valid, is_alive}
use edge_runtime.Owner.{Owner, SnapshotKind, OwnerSnapshot}
use edge_runtime.Owner.Quiet.{observed, snapshot_owner-quiet}
use edge_runtime.Pool.Blocks.{classify_block_state, snapshot_block_owner, other_boot}
use edge_runtime.Pool.Blocks.Quiet.{IsPool, block_of, validate_live_pool-ok, block_at-ok}
use edge_runtime.Pool.State.{
  block_free, block_writing, block_published, block_reading, Block, PoolMemory, PoolHandle,
  block_cell,
}
use edge_runtime.Pool.Status.{
  BlockCounts, PoolStatus, no_blocks, count_owned, owner_alive, count_recovery, count_stable,
  count_observed, count_active, count_block, count_at, count_from, creator_alive, pool_status,
}
use edge_runtime.Pool.Status.Counts.{counted_blocks, count_from-IsLater}
use edge_runtime.Shared.{Result, ok, World, quiet, pure, fail, ◌>>=◌, read, shared_load}
use edge_runtime.Shared.Laws.{bind_ok, then_ok, >>=-eq-ok, fail-ne-ok, pure-eq-ok, load-quiet}

-- Whether the process that owns a block can still be expected to go on
abbrev pub owner_lives : PoolHandle → PoolMemory → Owner → Bool
owner_lives h m o =
    if other_boot h o then false else is_alive (m.processes o.pid o.proc_start_ticks)

abbrev pub in_state : ℕ → Block → Bool
in_state state b = b.state == state

-- A block that somebody owns who is gone
abbrev pub is_abandoned : PoolHandle → PoolMemory → Block → Bool
is_abandoned h m b =
    (b.state == block_writing || b.state == block_reading) && not (owner_lives h m b.owner)

abbrev one_if : Bool → ℕ
one_if b = if b then 1 else 0

-- How many of `n` blocks from the block `i` on have a property
abbrev tally : (Block → Bool) → ℕ → ℕ → PoolMemory → ℕ
tally p zero i m = 0
tally p (suc n) i m = one_if (p (m.blocks (block_of m i))) + tally p n (i + 1) m

-- How many blocks of the pool have a property
abbrev pub blocks_with : (Block → Bool) → PoolMemory → ℕ
blocks_with p m = tally p m.block_count 0 m

-- `c'` is `c` with the blocks counted that `amount` numbers for each property.
record IsCounted (h : PoolHandle) (m : PoolMemory) (amount : (Block → Bool) → ℕ)
    (c c' : BlockCounts) : Type 0 where
  free : c'.free_blocks ≡ c.free_blocks + amount (in_state block_free)
  writing : c'.writing_blocks ≡ c.writing_blocks + amount (in_state block_writing)
  published : c'.published_blocks ≡ c.published_blocks + amount (in_state block_published)
  reading : c'.reading_blocks ≡ c.reading_blocks + amount (in_state block_reading)
  blocked : c'.recovery_blocked_blocks ≡ c.recovery_blocked_blocks + amount (is_abandoned h m)

same_result :
    {A : Type 0} {a b : A} {w w' : World PoolMemory}
    → ◌≡◌ {A = Result A × World PoolMemory} (ok a, w) (ok b, w')
    → (w' ≡ w) × (a ≡ b)
same_result e = (cc e, cc e)

module _ (h : PoolHandle) (m : PoolMemory) where
  abbrev IsBlockCounted : Block → BlockCounts → BlockCounts → Type 0
  IsBlockCounted b = IsCounted h m (λ p. one_if (p b))

  owner_alive-quiet : (o : Owner) → owner_alive h o (quiet m) ≡ (ok (owner_lives h m o), quiet m)
  unfolding owner_alive shared_load pure ◌>>=◌
  owner_alive-quiet o = ground arith

  count_owned-IsBlockCounted :
      (b : Block) (c c1 : BlockCounts)
      → count_owned b.state c ≡ some c1
      → IsBlockCounted b c (count_recovery (owner_lives h m b.owner) c1)
  unfolding count_owned count_recovery
  count_owned-IsBlockCounted b c c1 e = ground arith

  count_stable-IsBlockCounted :
      (b : Block) (c : BlockCounts) (r : Option BlockCounts) {c' : BlockCounts}
      {w' : World PoolMemory}
      → count_owned b.state c ≡ r
      → count_stable h b.owner r (quiet m) ≡ (ok c', w')
      → (w' ≡ quiet m) × IsBlockCounted b c c'
  unfolding count_stable pure
  count_stable-IsBlockCounted b c none q e = absurd (fail-ne-ok _ (quiet m) e)
  count_stable-IsBlockCounted b c (some c1) {c'} {w'} q e =
      let f = sym (bind_ok _ _ (owner_alive-quiet b.owner) refl) ∙ e in
      let (same, is) = same_result f in
      (
        same,
        subst (λ (d : BlockCounts). IsBlockCounted b c d) is (count_owned-IsBlockCounted b c c1 q),
      )

  count_observed-IsBlockCounted :
      (k : SnapshotKind) (b : Block) (o : OwnerSnapshot) (c : BlockCounts) {c' : BlockCounts}
      {w' : World PoolMemory}
      → (k ≡ SnapshotKind.stable → (o.state ≡ b.state) × (o.owner ≡ b.owner))
      → count_observed k h o c (quiet m) ≡ (ok c', w')
      → (w' ≡ quiet m) × IsBlockCounted b c c'
  unfolding count_observed
  count_observed-IsBlockCounted SnapshotKind.stable b o c same e =
      let (f, g) = same refl in
      count_stable-IsBlockCounted b c (count_owned b.state c) refl (rw (f, g) at e)
  count_observed-IsBlockCounted SnapshotKind.inactive b o c same e =
      absurd (fail-ne-ok _ (quiet m) e)
  count_observed-IsBlockCounted SnapshotKind.claiming b o c same e =
      absurd (fail-ne-ok _ (quiet m) e)
  count_observed-IsBlockCounted SnapshotKind.unstable b o c same e =
      absurd (fail-ne-ok _ (quiet m) e)
  count_observed-IsBlockCounted SnapshotKind.corrupt b o c same e =
      absurd (fail-ne-ok _ (quiet m) e)
  count_observed-IsBlockCounted SnapshotKind.epoch_exhausted b o c same e =
      absurd (fail-ne-ok _ (quiet m) e)

  module _ (offset : ℕ) where
    abbrev seen_block : OwnerSnapshot
    seen_block = observed (block_cell offset) classify_block_state owner_valid m

    seen_block-same :
        seen_block.kind ≡ SnapshotKind.stable
        → (seen_block.state ≡ (m.blocks offset).state)
          × (seen_block.owner ≡ (m.blocks offset).owner)
    unfolding observed
    seen_block-same e = ground arith

    count_active-IsBlockCounted :
        (c : BlockCounts) {c' : BlockCounts} {w' : World PoolMemory}
        → count_active h offset c (quiet m) ≡ (ok c', w')
        → (w' ≡ quiet m) × IsBlockCounted (m.blocks offset) c c'
    unfolding count_active snapshot_block_owner
    count_active-IsBlockCounted c e =
        count_observed-IsBlockCounted seen_block.kind (m.blocks offset) seen_block c seen_block-same
          (sym (
              bind_ok _ _
                (snapshot_owner-quiet (block_cell offset) classify_block_state owner_valid m) refl)
            ∙ e)

    count_block-IsBlockCounted :
        (c : BlockCounts) {c' : BlockCounts} {w' : World PoolMemory}
        → count_block h offset (m.blocks offset).state c (quiet m) ≡ (ok c', w')
        → (w' ≡ quiet m) × IsBlockCounted (m.blocks offset) c c'
    unfolding count_block pure fail
    count_block-IsBlockCounted c {c'} {w'} e =
        ground (arith, count_active-IsBlockCounted c {c' = c'} {w' = w'})

  count_at-IsBlockCounted :
      (offset : ℕ) (c : BlockCounts) {c' : BlockCounts} {w' : World PoolMemory}
      → count_at h c (some offset) (quiet m) ≡ (ok c', w')
      → (w' ≡ quiet m) × IsBlockCounted (m.blocks offset) c c'
  unfolding count_at
  count_at-IsBlockCounted offset c e =
      count_block-IsBlockCounted offset c
        (sym (bind_ok _ _ (load-quiet (block_cell offset).state m) refl) ∙ e)

  count_from-IsCounted :
      (v : IsPool h m) (n i : ℕ) (c : BlockCounts) {c' : BlockCounts} {w' : World PoolMemory}
      → i + n ≡ m.block_count
      → count_from n i h c (quiet m) ≡ (ok c', w')
      → IsCounted h m (λ p. tally p n i m) c c'
  unfolding count_from
  count_from-IsCounted v zero i c l e =
      subst (λ (d : BlockCounts). IsCounted h m (λ p. 0) c d) (pure-eq-ok (quiet m) e)
        (record {
          free = omega arith;
          writing = omega arith;
          published = omega arith;
          reading = omega arith;
          blocked = omega arith;
        })
  count_from-IsCounted v (suc n) i c {c'} l e =
      let f = sym (bind_ok _ _ (block_at-ok h m v i (omega arith)) refl) ∙ e in
      let (b, u, g, k) = >>=-eq-ok (count_at h c (some (block_of m i))) _ f in
      let (same, one) = count_at-IsBlockCounted (block_of m i) c g in
      let rest = count_from-IsCounted v n (i + 1) b (omega arith) (rw same at k) in
      record {
        free = omega (arith, one.free, rest.free);
        writing = omega (arith, one.writing, rest.writing);
        published = omega (arith, one.published, rest.published);
        reading = omega (arith, one.reading, rest.reading);
        blocked = omega (arith, one.blocked, rest.blocked);
      }

creator_alive-quiet :
    (h : PoolHandle) (m : PoolMemory) (o : Owner)
    → creator_alive h o (quiet m) ≡ (ok (owner_valid o && owner_lives h m o), quiet m)
unfolding creator_alive pure
creator_alive-quiet h m o = ground (arith, owner_alive-quiet h m o)

-- A report on a pool that nobody interferes with, where it succeeds, is exact: it numbers the blocks
-- that are free, being written, published and being read; as blocked it counts those that are being
-- written or read by a process that is gone. These four kinds are all blocks of the pool.
pub pool_status-exact :
    (h : PoolHandle) (m : PoolMemory) (w' : World PoolMemory) (s : PoolStatus)
    → IsPool h m
    → pool_status h (quiet m) ≡ (ok s, w')
    → (s.counts.free_blocks ≡ blocks_with (in_state block_free) m)
      × (s.counts.writing_blocks ≡ blocks_with (in_state block_writing) m)
      × (s.counts.published_blocks ≡ blocks_with (in_state block_published) m)
      × (s.counts.reading_blocks ≡ blocks_with (in_state block_reading) m)
      × (s.counts.recovery_blocked_blocks ≡ blocks_with (is_abandoned h m) m)
      × (s.counts.free_blocks + s.counts.writing_blocks + s.counts.published_blocks
            + s.counts.reading_blocks
          ≡ m.block_count)
unfolding pool_status read
pool_status-exact h m w' s v e =
    let f =
      sym (
        then_ok _ _ (validate_live_pool-ok h m v)
          (bind_ok _ _ refl (bind_ok _ _ (creator_alive-quiet h m m.creator) refl)))
      ∙ e in
    let (c, u, g, k) = >>=-eq-ok (count_from m.block_count 0 h no_blocks) _ f in
    let t = count_from-IsCounted h m v m.block_count 0 no_blocks (omega arith) g in
    let l = count_from-IsLater m.block_count 0 h no_blocks _ g in
    let is : c ≡ s.counts = ap (λ (r : PoolStatus). r.counts) (pure-eq-ok u k) in
    subst
      (λ (d : BlockCounts).
        (d.free_blocks ≡ blocks_with (in_state block_free) m)
        × (d.writing_blocks ≡ blocks_with (in_state block_writing) m)
        × (d.published_blocks ≡ blocks_with (in_state block_published) m)
        × (d.reading_blocks ≡ blocks_with (in_state block_reading) m)
        × (d.recovery_blocked_blocks ≡ blocks_with (is_abandoned h m) m)
        × (counted_blocks d ≡ m.block_count))
      is
      (
        omega (arith, t.free),
        omega (arith, t.writing),
        omega (arith, t.published),
        omega (arith, t.reading),
        omega (arith, t.blocked),
        omega (arith, l.more),
      )
