-- ===== src/Pool/HandOver.antt =====
-- A message from one process to another through a block of the pool
-- (src/edge_runtime/buffer/shared_buffer_pool.cpp).
use edge_runtime.Common.{
  length, ℕ, ◌+◌, ◌<◌, ◌≡◌, refl, sym, ◌∙◌, ◌≢◌, inl, inr, true, false, List, arith, overwrite,
  overwrite-whole,
}
use edge_runtime.Mpmc.Gate.{owner_valid}
use edge_runtime.Owner.{Owner}
use edge_runtime.Owner.Part.{store-part_then, load-part}
use edge_runtime.Pool.Blocks.{offsets_of, descriptor_for}
use edge_runtime.Pool.Blocks.Quiet.{
  IsPool, block_of, blocks-set_block_self, set_block-set_block, block_part,
}
use edge_runtime.Pool.Owned.{
  IsHeld, give_back-ok, publish_write-ok, IsReadable, reading_block, read_buffer, acquire_read-ok,
}
use edge_runtime.Pool.Read.{acquire_read, release_read}
use edge_runtime.Pool.State.{
  block_free, block_writing, block_published, block_reading, Block, PoolMemory, PoolHandle, Buffer,
  set_block,
}
use edge_runtime.Pool.Write.{try_acquire_write, closed, publish_write, give_back}
use edge_runtime.Pool.Write.Acquire.{
  IsWritable, writing_block, set_block-IsPool, write_buffer, try_acquire_write-ok,
}
use edge_runtime.Shared.{ok, quiet, Action, pure, ◌>>=◌, ◌>>◌, shared_load, shared_store}
use edge_runtime.Shared.Laws.{bind_ok}

abbrev pub fill_block : List ℕ → Block → Block
fill_block message b = record b { payload = overwrite message b.payload }

-- One process copies a message over the bytes of a block, as far as these reach, and publishes it; the
-- other opens the descriptor, reads all bytes of the block, and releases it.
unfoldable pub hand_over : PoolHandle → PoolHandle → List ℕ → Action PoolMemory (List ℕ)
hand_over writer reader message = do
  buffer ← try_acquire_write writer
  shared_store (λ m. set_block buffer.block (fill_block message (m.blocks buffer.block)) m)
  published ← publish_write buffer
  opened ← acquire_read reader published.0
  received ← shared_load (λ m. (m.blocks opened.block).payload)
  closed_buffer ← release_read opened
  pure received

-- The block after the message was delivered
abbrev pub used_block : Owner → List ℕ → Block → Block
used_block reader message b = record {
  state = block_free;
  block_generation = b.block_generation + 1;
  owner = reader;
  owner_epoch = b.owner_epoch + 2 + 2;
  payload = message;
}

pub publish_write-part :
    (b : Buffer) (x : Block) (m : PoolMemory)
    → IsPool b.pool m
    → IsHeld block_writing b x
    → publish_write b (quiet (set_block b.block x m)) ≡ (
      ok (b.descriptor, closed b),
      quiet (set_block b.block (record x { state = block_published }) m),
    )
publish_write-part b x m v i =
    rw (blocks-set_block_self b.block x m, set_block-set_block b.block) at
      (publish_write-ok b (set_block b.block x m) (set_block-IsPool b.pool b.block x m v)
        (rw (blocks-set_block_self b.block x m) i))

pub give_back-part :
    (state : ℕ) (b : Buffer) (x : Block) (m : PoolMemory)
    → IsHeld state b x
    → b.pool.removed ≡ false
    → give_back state b (quiet (set_block b.block x m))
      ≡ (ok (closed b), quiet (set_block b.block (record x { state = block_free }) m))
give_back-part state b x m i r =
    rw (blocks-set_block_self b.block x m, set_block-set_block b.block) at
      (give_back-ok state b (set_block b.block x m) (rw (blocks-set_block_self b.block x m) i) r)

pub acquire_read-part :
    (h : PoolHandle) (block_id generation : ℕ) (x : Block) (m : PoolMemory)
    → IsPool h m
    → block_id < m.block_count
    → IsReadable generation x
    → acquire_read h
        (descriptor_for m block_id generation)
        (quiet (set_block (block_of m block_id) x m))
      ≡ (
        ok (read_buffer h block_id generation m),
        quiet (set_block (block_of m block_id) (reading_block h.self x) m),
      )
unfolding set_block descriptor_for offsets_of
acquire_read-part h block_id generation x m v l a =
    let offset = block_of m block_id in
    rw (blocks-set_block_self offset x m, set_block-set_block offset (reading_block h.self x) x m)
      at
      (acquire_read-ok h block_id generation (set_block offset x m)
        (set_block-IsPool h offset x m v) l (rw (blocks-set_block_self offset x m) a))

module _ (writer reader : PoolHandle) (message : List ℕ) (block_id : ℕ) (m : PoolMemory)
    (v : IsPool writer m) (u : IsPool reader m) (l : block_id < m.block_count)
    (a : IsWritable (m.blocks (block_of m block_id)))
    (first : (i : ℕ) → i < block_id → (m.blocks (block_of m i)).state ≢ block_free)
    (writer_known : owner_valid writer.self ≡ true)
    (reader_known : owner_valid reader.self ≡ true) where
  abbrev before : Block
  before = m.blocks (block_of m block_id)

  -- The block with the message in it
  abbrev filled : Block
  filled = fill_block message (writing_block writer.self before)

  filled-IsHeld : IsHeld block_writing (write_buffer writer block_id m) filled
  unfolding descriptor_for
  filled-IsHeld = record {
    in_use = refl;
    in_state = refl;
    owned_state = inl refl;
    by_self = refl;
    valid = writer_known;
    even = omega (arith, a.even);
    same_generation = refl;
  }

  -- The block when its message can be read
  abbrev published : Block
  published = record filled { state = block_published }

  published-IsReadable : IsReadable (before.block_generation + 1) published
  published-IsReadable = record {
    published = refl;
    generation_kept = refl;
    not_first = omega arith;
    even = omega (arith, a.even);
    room = omega (arith, a.room);
  }

  opened-IsHeld :
      IsHeld block_reading
        (read_buffer reader block_id (before.block_generation + 1) m)
        (reading_block reader.self published)
  unfolding descriptor_for
  opened-IsHeld = record {
    in_use = refl;
    in_state = refl;
    owned_state = inr refl;
    by_self = refl;
    valid = reader_known;
    even = omega (arith, a.even);
    same_generation = refl;
  }

  -- The reader gets the bytes of the block as they are after the copy.
  hand_over-fills : hand_over writer reader message (quiet m) ≡ (
    ok filled.payload,
    quiet (set_block (block_of m block_id) (used_block reader.self filled.payload before) m),
  )
  unfolding hand_over release_read pure
  hand_over-fills = bind_ok _ _ (try_acquire_write-ok writer block_id m v l a first) (
      store-part_then (block_part (block_of m block_id)) (fill_block message)
        (writing_block writer.self before) m _
        (bind_ok _ _ (publish_write-part (write_buffer writer block_id m) filled m v filled-IsHeld)
          (bind_ok _ _
            (acquire_read-part reader block_id (before.block_generation + 1) published m u l
              published-IsReadable)
            (bind_ok _ _
              (load-part (block_part (block_of m block_id)) (λ b. b.payload)
                (reading_block reader.self published) m)
              (bind_ok _ _
                (give_back-part block_reading
                  (read_buffer reader block_id (before.block_generation + 1) m)
                  (reading_block reader.self published) m opened-IsHeld u.open_handle)
                refl)))))

  -- A message of the block's size goes from the writer to the reader unchanged, through the first free
  -- block, if its counters have room and nobody interferes. The block is free again then, one
  -- generation further and owned last by the reader, and nothing else has changed.
  pub hand_over-delivers :
      length before.payload ≡ m.block_size
      → length message ≡ m.block_size
      → hand_over writer reader message (quiet m) ≡ (
        ok message,
        quiet (set_block (block_of m block_id) (used_block reader.self message before) m),
      )
  hand_over-delivers whole fits =
      rw (overwrite-whole message before.payload (fits ∙ sym whole)) at hand_over-fills
