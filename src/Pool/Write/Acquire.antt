-- ===== src/Pool/Write/Acquire.antt =====
-- Acquiring a write buffer when nobody interferes (src/edge_runtime/buffer/shared_buffer_pool.cpp).
use edge_runtime.Common.{
  ◌==◌, Bool-cases, u64_max, ℕ, zero, suc, ◌+◌, ◌%◌, ◌≤◌, ◌<◌, ◌≡◌, refl, ◌≢◌, inl, inr, true,
  false, not, some, arith,
}
use edge_runtime.Owner.{Owner, max_committed_epoch}
use edge_runtime.Owner.Part.{
  store-part_then, load-part, claim-part, store_owner-part, begin_owner_commit-part,
  owner_epoch_capacity-part,
}
use edge_runtime.Pool.Blocks.{offsets_of, descriptor_for, make_handle}
use edge_runtime.Pool.Blocks.Quiet.{
  IsPool, block_of, block_part, block_words, validate_live_pool-ok, block_at-ok, payload_at-ok,
  classify_active_block-quiet,
}
use edge_runtime.Pool.Layout.{block_header_size}
use edge_runtime.Pool.State.{
  block_free, block_writing_claiming, block_writing, block_published, block_epoch_exhausted, Block,
  PoolMemory, PoolHandle, Buffer, set_block, block_cell,
}
use edge_runtime.Pool.Write.{
  Seen, nothing_seen, acquired, passed_by, after_busy, pass_busy, hand_out_write, own_write,
  write_committed, write_capacity, write_claimed, write_round, write_at, acquire_from,
  try_acquire_write,
}
use edge_runtime.Shared.{ok, quiet, pure, read}
use edge_runtime.Shared.Laws.{bind_ok, then_ok, if_yes, if_no, load-quiet}
use native.Mathlib.Decide.{ℕ_discrete}

-- A block that can be written, and read after that
pub record IsWritable (b : Block) : Type 0 where
  pub free : b.state ≡ block_free
  pub fresh : b.block_generation < u64_max
  pub even : b.owner_epoch % 2 ≡ 0
  pub room : b.owner_epoch + 4 ≤ max_committed_epoch

-- The block in its writer's hands
abbrev pub writing_block : Owner → Block → Block
writing_block o b = record b {
  state = block_writing;
  block_generation = b.block_generation + 1;
  owner = o;
  owner_epoch = b.owner_epoch + 2;
}

module _ {b : Block} (a : IsWritable b) where
  not_published : (b.state == block_published) ≡ false
  not_published = rw a.free refl

  is_free : not (b.state == block_free) ≡ false
  is_free = rw a.free refl

  not_last : (b.block_generation == u64_max) ≡ false
  not_last = ground (arith, a.fresh)

pub set_block-IsPool :
    (h : PoolHandle) (offset : ℕ) (b : Block) (m : PoolMemory)
    → IsPool h m
    → IsPool h (set_block offset b m)
unfolding set_block
set_block-IsPool h offset b m v = record {
  shape = v.shape;
  whole = v.whole;
  open_handle = v.open_handle;
  initialised = v.initialised;
}

-- The buffer that the search returns for a block
abbrev pub write_buffer : PoolHandle → ℕ → PoolMemory → Buffer
write_buffer h block_id m = record {
  pool = h;
  block = block_of m block_id;
  descriptor = descriptor_for m block_id ((m.blocks (block_of m block_id)).block_generation + 1);
  active = true;
}

-- The memory that the search leaves
abbrev pub with_writer : PoolHandle → ℕ → PoolMemory → PoolMemory
with_writer h block_id m =
    set_block (block_of m block_id) (writing_block h.self (m.blocks (block_of m block_id))) m

module _ (h : PoolHandle) (block_id : ℕ) (m : PoolMemory) (v : IsPool h m)
    (l : block_id < m.block_count) where
  abbrev offset : ℕ
  offset = block_of m block_id

  hand_out_write-ok :
      hand_out_write h block_id offset
        (some (offset + block_header_size))
        (quiet (with_writer h block_id m))
      ≡ (ok (acquired (write_buffer h block_id m)), quiet (with_writer h block_id m))
  unfolding hand_out_write make_handle read pure set_block descriptor_for offsets_of
  hand_out_write-ok =
      bind_ok _ _
        (bind_ok _ _
          (load-part (block_part offset) (λ b. b.block_generation)
            (writing_block h.self (m.blocks offset)) m)
          refl)
        refl

  -- The block while it is claimed
  abbrev claimed_block : Block
  claimed_block = record (m.blocks offset) { state = block_writing_claiming }

  own_write-ok :
      own_write h block_id offset
        (m.blocks offset).block_generation
        ((m.blocks offset).owner_epoch + 2)
        (quiet (
          set_block offset
            (record claimed_block { owner_epoch = claimed_block.owner_epoch + 1 })
            m))
      ≡ (ok (acquired (write_buffer h block_id m)), quiet (with_writer h block_id m))
  unfolding own_write set_block
  own_write-ok =
      store-part_then (block_part offset)
        (λ b. record b { block_generation = (m.blocks offset).block_generation + 1 }) _ m _
        (then_ok _ _ (store_owner-part (block_part offset) block_words h.self _ m) (
          store-part_then (block_part offset)
            (λ b. record b { owner_epoch = (m.blocks offset).owner_epoch + 2 }) _ m _
            (store-part_then (block_part offset) (λ b. record b { state = block_writing }) _ m _
              (bind_ok _ _
                (payload_at-ok h (with_writer h block_id m) (set_block-IsPool h offset _ m v)
                  block_id l)
                hand_out_write-ok))))

  write_claimed-ok :
      (s : Seen)
      → IsWritable (m.blocks offset)
      → write_claimed h block_id offset s (quiet (set_block offset claimed_block m))
        ≡ (ok (acquired (write_buffer h block_id m)), quiet (with_writer h block_id m))
  unfolding write_claimed write_capacity write_committed
  write_claimed-ok s a =
      bind_ok _ _ (load-part (block_part offset) (λ b. b.block_generation) claimed_block m) (
        if_no _ _ (not_last a) (
          bind_ok _ _
            (owner_epoch_capacity-part (block_part offset) block_words 4 claimed_block m a.even
              a.room)
            (bind_ok _ _
              (begin_owner_commit-part (block_part offset) block_words 4 claimed_block m a.even
                a.room)
              own_write-ok)))

  write_round-ok :
      (s : Seen)
      → IsWritable (m.blocks offset)
      → write_round h block_id offset s (quiet m)
        ≡ (ok (acquired (write_buffer h block_id m)), quiet (with_writer h block_id m))
  unfolding write_round
  write_round-ok s a = bind_ok _ _ (load-quiet (block_cell offset).state m) (
      if_no _ _ (not_published a) (
        if_no _ _ (is_free a) (
          bind_ok _ _
            (claim-part (block_part offset) (λ b. b.state) block_free
              (λ b. record b { state = block_writing_claiming }) m a.free)
            (write_claimed-ok s a))))

-- A block that is in use is passed by.
write_round-busy :
    (h : PoolHandle) (block_id offset : ℕ) (s : Seen) (m : PoolMemory)
    → (m.blocks offset).state ≢ block_free
    → (s' : Seen) × (write_round h block_id offset s (quiet m) ≡ (ok (passed_by s'), quiet m))
unfolding write_round pass_busy pure
write_round-busy h block_id offset s m n =
    elim (Bool-cases ((m.blocks offset).state == block_published)) [
      | inl published ↦
          (s, bind_ok _ _ (load-quiet (block_cell offset).state m) (if_yes _ _ published refl))
      | inr unpublished ↦
          let busy : not ((m.blocks offset).state == block_free) ≡ true = ground arith in
          elim (Bool-cases ((m.blocks offset).state == block_epoch_exhausted)) [
            | inl exhausted ↦ (
              record s { exhausted = true },
              bind_ok _ _ (load-quiet (block_cell offset).state m)
                  (if_no _ _ unpublished (if_yes _ _ busy (if_yes _ _ exhausted refl))),
            )
            | inr usable ↦
                let (code, e) = classify_active_block-quiet h m offset in
                (
                  after_busy code s,
                  bind_ok _ _ (load-quiet (block_cell offset).state m) (
                      if_no _ _ unpublished
                        (if_yes _ _ busy (if_no _ _ usable (bind_ok _ _ e refl)))),
                )
          ]
    ]

module _ (h : PoolHandle) (block_id : ℕ) (m : PoolMemory) (v : IsPool h m)
    (l : block_id < m.block_count) (a : IsWritable (m.blocks (block_of m block_id)))
    (first : (i : ℕ) → i < block_id → (m.blocks (block_of m i)).state ≢ block_free) where
  acquire_from-ok :
      (n i : ℕ) (s : Seen)
      → i + n ≡ m.block_count
      → i ≤ block_id
      → acquire_from n i h s (quiet m)
        ≡ (ok (write_buffer h block_id m), quiet (with_writer h block_id m))
  unfolding acquire_from write_at pure
  acquire_from-ok zero i s e k = absurd (omega arith)
  acquire_from-ok (suc n) i s e k = elim (ℕ_discrete i block_id) [
    | yes here ↦ rw here (
        bind_ok _ _ (block_at-ok h m v block_id l)
          (bind_ok _ _ (write_round-ok h block_id m v l s a) refl))
    | no before ↦
        let (s', f) = write_round-busy h i (block_of m i) s m (first i (omega arith)) in
        bind_ok _ _ (block_at-ok h m v i (omega arith))
          (bind_ok _ _ f (acquire_from-ok n (i + 1) s' (omega arith) (omega arith)))
  ]

  -- The first free block of a pool that nobody interferes with is handed out, if its counters have
  -- room: under the next generation, in the caller's name, and with nothing else changed.
  pub try_acquire_write-ok :
      try_acquire_write h (quiet m)
      ≡ (ok (write_buffer h block_id m), quiet (with_writer h block_id m))
  unfolding try_acquire_write read
  try_acquire_write-ok =
      then_ok _ _ (validate_live_pool-ok h m v) (
        bind_ok _ _ refl (acquire_from-ok m.block_count 0 nothing_seen (omega arith) (omega arith)))
