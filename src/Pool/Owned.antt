-- ===== src/Pool/Owned.antt =====
-- Publishing, reading and giving back a block when nobody interferes
-- (src/edge_runtime/buffer/shared_buffer_pool.cpp).
use edge_runtime.Common.{
  ◌==◌, eq→==, ℕ, ◌+◌, ◌%◌, ◌≤◌, ◌<◌, ◌≡◌, refl, ◌⊎◌, true, false, not, none, some, arith,
}
use edge_runtime.Mpmc.Gate.{owner_valid, owner_matches, is_stable}
use edge_runtime.Mpmc.Header.Agreement.{same_bytes_self}
use edge_runtime.Owner.{Owner, SnapshotKind, OwnerSnapshot, max_committed_epoch}
use edge_runtime.Owner.Part.{
  store-part_then, load-part, claim-part, store_owner-part, begin_owner_commit-part,
  owner_epoch_capacity-part,
}
use edge_runtime.Pool.Blocks.{
  snapshot_block_owner, offsets_of, descriptor_offset, descriptor_for, schema_matches,
}
use edge_runtime.Pool.Blocks.Quiet.{
  IsPool, block_of, block_part, block_words, validate_live_pool-ok, offsets_of-eq, block_at-ok,
  payload_at-ok, snapshot_block_owner-owned,
}
use edge_runtime.Pool.Layout.{block_header_size}
use edge_runtime.Pool.Read.{
  descriptor_code, require_generation, require_current, validate_descriptor, own_read,
  read_committed, read_capacity, read_claimed, read_published, read_block, read_at, acquire_read,
}
use edge_runtime.Pool.State.{
  block_free, block_writing, block_published, block_reading_claiming, block_reading, Block,
  PoolMemory, PoolHandle, BufferHandle, Buffer, set_block, block_cell,
}
use edge_runtime.Pool.Write.{closed, require_stable, publish_write, free_if_owned, give_back}
use edge_runtime.Shared.{ok, quiet, pure, ◌>>=◌, require, read, shared_load, shared_store}
use edge_runtime.Shared.Laws.{bind_ok, then_ok, if_no, load-quiet, store-quiet}

owner_matches_self : (o : Owner) → owner_matches o o ≡ true
unfolding owner_matches
owner_matches_self o = ground arith

-- A buffer that is active, on a block that its process owns
pub record IsHeld (state : ℕ) (b : Buffer) (x : Block) : Type 0 where
  pub in_use : b.active ≡ true
  pub in_state : x.state ≡ state
  pub owned_state : (state ≡ block_writing) ⊎ (state ≡ block_reading)
  pub by_self : x.owner ≡ b.pool.self
  pub valid : owner_valid b.pool.self ≡ true
  pub even : x.owner_epoch % 2 ≡ 0
  pub same_generation : x.block_generation ≡ b.descriptor.block_generation

module _ (state : ℕ) (b : Buffer) (m : PoolMemory) (i : IsHeld state b (m.blocks b.block)) where
  abbrev seen_owner : OwnerSnapshot
  seen_owner = record {
    kind = SnapshotKind.stable;
    state = (m.blocks b.block).state;
    owner = (m.blocks b.block).owner;
    epoch = (m.blocks b.block).owner_epoch;
  }

  snapshot-ok : snapshot_block_owner b.block (quiet m) ≡ (ok seen_owner, quiet m)
  snapshot-ok =
      snapshot_block_owner-owned b.block m (rw i.in_state i.owned_state) i.even
        (rw i.by_self i.valid)

  owner_ok : owner_matches seen_owner.owner b.pool.self ≡ true
  owner_ok = rw i.by_self (owner_matches_self b.pool.self)

  generation_ok : ((m.blocks b.block).block_generation == b.descriptor.block_generation) ≡ true
  generation_ok = eq→== _ _ i.same_generation

  state_ok : ((m.blocks b.block).state == state) ≡ true
  state_ok = eq→== _ _ i.in_state

  in_use_known : not b.active ≡ false
  in_use_known = rw i.in_use refl

  free_if_owned-ok :
      free_if_owned state b seen_owner (quiet m)
      ≡ (ok tt, quiet (set_block b.block (record (m.blocks b.block) { state = block_free }) m))
  unfolding free_if_owned is_stable shared_load shared_store ◌>>=◌
  free_if_owned-ok = rw (state_ok, owner_ok, generation_ok) refl

  -- A buffer that is given back leaves its block free, and nothing else changed.
  pub give_back-ok :
      b.pool.removed ≡ false
      → give_back state b (quiet m) ≡ (
        ok (closed b),
        quiet (set_block b.block (record (m.blocks b.block) { state = block_free }) m),
      )
  unfolding give_back pure
  give_back-ok r =
      if_no _ _ in_use_known
        (if_no _ _ r (bind_ok _ _ snapshot-ok (then_ok _ _ free_if_owned-ok refl)))

pub publish_write-ok :
    (b : Buffer) (m : PoolMemory)
    → IsPool b.pool m
    → IsHeld block_writing b (m.blocks b.block)
    → publish_write b (quiet m) ≡ (
      ok (b.descriptor, closed b),
      quiet (set_block b.block (record (m.blocks b.block) { state = block_published }) m),
    )
unfolding publish_write require_stable pure require
publish_write-ok b m v i = then_ok _ _ (rw i.in_use refl) (
    then_ok _ _ (validate_live_pool-ok b.pool m v) (
      bind_ok _ _ (load-quiet (block_cell b.block).state m) (
        then_ok _ _ (rw (state_ok block_writing b m i) refl) (
          bind_ok _ _ (snapshot-ok block_writing b m i) (
            then_ok _ _ refl (
              then_ok _ _ (rw (owner_ok block_writing b m i) refl) (
                bind_ok _ _ (load-quiet (λ n. (n.blocks b.block).block_generation) m) (
                  then_ok _ _ (rw (generation_ok block_writing b m i) refl) (
                    then_ok _ _
                      (store-quiet
                        (λ n.
                          set_block b.block (record (n.blocks b.block) { state = block_published })
                            n)
                        m)
                      refl)))))))))

-- A descriptor that agrees with the pool in every field
descriptor_code-none :
    (m : PoolMemory) (d : BufferHandle) (o : ℕ × ℕ)
    → d.pool_generation ≡ m.generation
    → d.instance_nonce_hi ≡ m.instance_nonce_hi
    → d.instance_nonce_lo ≡ m.instance_nonce_lo
    → schema_matches d.schema m.schema ≡ true
    → d.reserved ≡ 0
    → d.block_id < m.block_count
    → d.length ≡ m.block_size
    → offsets_of d.block_id m ≡ some o
    → d.offset ≡ o.1
    → 0 < d.block_generation
    → descriptor_code m d ≡ none
unfolding descriptor_code
descriptor_code-none m d o g hi lo s r i n e f b =
    rw e (ground (arith, s, g, hi, lo, r, i, n, f, b))

-- A published block that a reader can take
pub record IsReadable (generation : ℕ) (x : Block) : Type 0 where
  pub published : x.state ≡ block_published
  pub generation_kept : x.block_generation ≡ generation
  pub not_first : 0 < generation
  pub even : x.owner_epoch % 2 ≡ 0
  pub room : x.owner_epoch + 2 ≤ max_committed_epoch

-- The block in its reader's hands
abbrev pub reading_block : Owner → Block → Block
reading_block o x = record x { state = block_reading; owner = o; owner_epoch = x.owner_epoch + 2 }

-- The reader's buffer
abbrev pub read_buffer : PoolHandle → ℕ → ℕ → PoolMemory → Buffer
read_buffer h block_id generation m = record {
  pool = h;
  block = block_of m block_id;
  descriptor = descriptor_for m block_id generation;
  active = true;
}

module _ (h : PoolHandle) (block_id generation : ℕ) (m : PoolMemory) (v : IsPool h m)
    (l : block_id < m.block_count)
    (a : IsReadable generation (m.blocks (block_of m block_id))) where
  abbrev offset : ℕ
  offset = block_of m block_id

  abbrev descriptor : BufferHandle
  descriptor = descriptor_for m block_id generation

  abbrev claimed_block : Block
  claimed_block = record (m.blocks offset) { state = block_reading_claiming }

  same_fingerprint : schema_matches m.schema m.schema ≡ true
  unfolding schema_matches
  same_fingerprint = ground (arith, same_bytes_self m.schema.fingerprint)

  descriptor_code-ok : descriptor_code m descriptor ≡ none
  unfolding descriptor_for descriptor_offset
  descriptor_code-ok =
      descriptor_code-none m descriptor (offset, offset + block_header_size) refl refl refl
        same_fingerprint refl l refl (offsets_of-eq h m v block_id l)
        (rw (offsets_of-eq h m v block_id l) refl) a.not_first

  generation_fits : ((m.blocks offset).block_generation == generation) ≡ true
  generation_fits = eq→== _ _ a.generation_kept

  generation_known : not ((m.blocks offset).block_generation == generation) ≡ false
  generation_known = rw generation_fits refl

  published_ok : not ((m.blocks offset).state == block_published) ≡ false
  published_ok = rw a.published refl

  validate_descriptor-ok : validate_descriptor h descriptor (quiet m) ≡ (ok tt, quiet m)
  unfolding validate_descriptor require_current read require_generation require descriptor_for
  validate_descriptor-ok = then_ok _ _ (validate_live_pool-ok h m v) (
      bind_ok _ _ refl (
        rw descriptor_code-ok (
          bind_ok _ _ (block_at-ok h m v block_id l) (
            bind_ok _ _ (load-quiet (λ n. (n.blocks offset).block_generation) m)
              (rw generation_fits refl)))))

  own_read-ok :
      own_read h descriptor offset ((m.blocks offset).owner_epoch + 2) (
        quiet (
          set_block offset
            (record claimed_block { owner_epoch = claimed_block.owner_epoch + 1 })
            m))
      ≡ (
        ok (read_buffer h block_id generation m),
        quiet (set_block offset (reading_block h.self (m.blocks offset)) m),
      )
  unfolding own_read pure
  own_read-ok = then_ok _ _ (store_owner-part (block_part offset) block_words h.self _ m) (
      store-part_then (block_part offset)
        (λ b. record b { owner_epoch = (m.blocks offset).owner_epoch + 2 }) _ m _
        (store-part_then (block_part offset) (λ b. record b { state = block_reading }) _ m _ refl))

  read_claimed-ok : read_claimed h descriptor offset (quiet (set_block offset claimed_block m)) ≡ (
    ok (read_buffer h block_id generation m),
    quiet (set_block offset (reading_block h.self (m.blocks offset)) m),
  )
  unfolding read_claimed read_capacity read_committed descriptor_for
  read_claimed-ok =
      bind_ok _ _ (load-part (block_part offset) (λ b. b.block_generation) claimed_block m) (
        if_no _ _ generation_known (
          bind_ok _ _
            (owner_epoch_capacity-part (block_part offset) block_words 2 claimed_block m a.even
              a.room)
            (bind_ok _ _
              (begin_owner_commit-part (block_part offset) block_words 2 claimed_block m a.even
                a.room)
              own_read-ok)))

  read_published-ok : read_published h descriptor offset (quiet m) ≡ (
    ok (read_buffer h block_id generation m),
    quiet (set_block offset (reading_block h.self (m.blocks offset)) m),
  )
  unfolding read_published require descriptor_for
  read_published-ok = bind_ok _ _ (load-quiet (λ n. (n.blocks offset).block_generation) m) (
      then_ok _ _ (rw generation_fits refl) (
        bind_ok _ _
          (claim-part (block_part offset) (λ b. b.state) block_published
            (λ b. record b { state = block_reading_claiming }) m a.published)
          (then_ok _ _ refl read_claimed-ok)))

  -- A reader with the descriptor of a published block gets the block.
  pub acquire_read-ok : acquire_read h descriptor (quiet m) ≡ (
    ok (read_buffer h block_id generation m),
    quiet (set_block offset (reading_block h.self (m.blocks offset)) m),
  )
  unfolding acquire_read read_at read_block descriptor_for
  acquire_read-ok = then_ok _ _ validate_descriptor-ok (
      bind_ok _ _ (block_at-ok h m v block_id l) (
        bind_ok _ _ (payload_at-ok h m v block_id l) (
          bind_ok _ _ (load-quiet (block_cell offset).state m)
            (if_no _ _ published_ok read_published-ok))))
