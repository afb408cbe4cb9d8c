-- ===== src/Pool/Blocks/Quiet.antt =====
-- Blocks when nobody interferes (src/edge_runtime/buffer/shared_buffer_pool.cpp).
use edge_runtime.Common.{
  Bool-cases, ℕ, ◌+◌, ◌%◌, ◌<◌, ◌≡◌, refl, ap, ◌∙◌, ◌≢◌, ◌⊎◌, inl, inr, true, false, some, arith,
}
use edge_runtime.Error.{ErrorCode}
use edge_runtime.Mpmc.Gate.{owner_valid, owner_matches}
use edge_runtime.Owner.{Owner, SnapshotKind, OwnerSnapshot, Cell}
use edge_runtime.Owner.Part.{Part}
use edge_runtime.Owner.Quiet.{observed, snapshot_owner-quiet}
use edge_runtime.Pool.Blocks.{
  classify_block_state, snapshot_block_owner, offsets_of, fits_object, block_at, payload_at,
  validate_live_pool, other_boot, other_owner_code, active_code, classify_active_block,
}
use edge_runtime.Pool.Layout.{block_header_size}
use edge_runtime.Pool.Layout.Regions.{IsPoolShape, block_start, block_offset_for-eq, block_room}
use edge_runtime.Pool.State.{
  pool_ready, block_writing, block_reading, Block, PoolMemory, PoolHandle, update_block, set_block,
  block_cell,
}
use edge_runtime.Shared.{ok, quiet, pure, ◌>>=◌, require, read, shared_load}
use edge_runtime.Shared.Laws.{bind_ok}
use mathlib.Core.Path.{fun_ext}

-- A handle on a pool that is open, with a mapping of the pool's size
pub record IsPool (h : PoolHandle) (m : PoolMemory) : Type 0 where
  pub shape : IsPoolShape m.block_size m.block_count
  pub whole : h.object_size ≡ block_start m.block_size m.block_count
  pub open_handle : h.removed ≡ false
  pub initialised : m.init_state ≡ pool_ready

-- The byte offset of a block
abbrev pub block_of : PoolMemory → ℕ → ℕ
block_of m block_id = block_start m.block_size block_id

pub blocks-set_block_self :
    (offset : ℕ) (b : Block) (m : PoolMemory) → (set_block offset b m).blocks offset ≡ b
unfolding set_block
blocks-set_block_self offset b m = ground arith

update_block-update_block :
    (offset : ℕ) (a b : Block) (f : ℕ → Block)
    → update_block offset a (update_block offset b f) ≡ update_block offset a f
update_block-update_block offset a b f = fun_ext λ k. ground arith

pub set_block-set_block :
    (offset : ℕ) (a b : Block) (m : PoolMemory)
    → set_block offset a (set_block offset b m) ≡ set_block offset a m
unfolding set_block
set_block-set_block offset a b m =
    ap (λ (f : ℕ → Block). record m { blocks = f }) (update_block-update_block offset a b m.blocks)

pub blocks-set_block_ne :
    (offset k : ℕ) (b : Block) (m : PoolMemory)
    → k ≢ offset
    → (set_block offset b m).blocks k ≡ m.blocks k
unfolding set_block
blocks-set_block_ne offset k b m n = ground arith

abbrev pub block_part : ℕ → Part PoolMemory Block
block_part offset = record {
  get = λ m. m.blocks offset;
  set = set_block offset;
  get_set = blocks-set_block_self offset;
  set_set = set_block-set_block offset;
}

abbrev pub block_words : Cell Block
block_words = record {
  state = λ b. b.state;
  epoch = λ b. b.owner_epoch;
  owner = λ b. b.owner;
  set_state = λ v b. record b { state = v };
  set_epoch = λ v b. record b { owner_epoch = v };
  set_owner = λ v b. record b { owner = v };
}

module _ (h : PoolHandle) (m : PoolMemory) (v : IsPool h m) where
  pub validate_live_pool-ok : validate_live_pool h (quiet m) ≡ (ok tt, quiet m)
  unfolding validate_live_pool shared_load require ◌>>=◌
  validate_live_pool-ok = ground (arith, v.open_handle, v.initialised)

  module _ (block_id : ℕ) (l : block_id < m.block_count) where
    pub offsets_of-eq :
        offsets_of block_id m ≡ some (block_of m block_id, block_of m block_id + block_header_size)
    unfolding offsets_of
    offsets_of-eq = block_offset_for-eq m.block_size block_id m.block_count v.shape l

    block_fits : fits_object h (block_of m block_id) block_header_size ≡ true
    unfolding fits_object
    block_fits = ground (arith, v.whole, block_room m.block_size block_id m.block_count l)

    payload_fits : fits_object h (block_of m block_id + block_header_size) m.block_size ≡ true
    unfolding fits_object
    payload_fits = ground (arith, v.whole, block_room m.block_size block_id m.block_count l)

    pub block_at-ok : block_at h block_id (quiet m) ≡ (ok (some (block_of m block_id)), quiet m)
    unfolding block_at read pure ◌>>=◌
    block_at-ok = rw (offsets_of-eq, block_fits) refl

    pub payload_at-ok :
        payload_at h block_id (quiet m)
        ≡ (ok (some (block_of m block_id + block_header_size)), quiet m)
    unfolding payload_at read pure ◌>>=◌
    payload_at-ok = rw (offsets_of-eq, payload_fits) refl

-- What a snapshot says of a block that somebody owns under a valid identity
pub snapshot_block_owner-owned :
    (offset : ℕ) (m : PoolMemory)
    → ((m.blocks offset).state ≡ block_writing) ⊎ ((m.blocks offset).state ≡ block_reading)
    → (m.blocks offset).owner_epoch % 2 ≡ 0
    → owner_valid (m.blocks offset).owner ≡ true
    → snapshot_block_owner offset (quiet m) ≡ (
      ok (record {
        kind = SnapshotKind.stable;
        state = (m.blocks offset).state;
        owner = (m.blocks offset).owner;
        epoch = (m.blocks offset).owner_epoch;
      }),
      quiet m,
    )
unfolding snapshot_block_owner observed classify_block_state
snapshot_block_owner-owned offset m s e v =
    snapshot_owner-quiet (block_cell offset) classify_block_state owner_valid m
    ∙ ap (λ (o : OwnerSnapshot). (ok o, quiet m)) (ground (arith, s))

module _ (h : PoolHandle) (m : PoolMemory) where
  other_owner_code-quiet :
      (o : Owner) → (code : ErrorCode) × (other_owner_code h o (quiet m) ≡ (ok code, quiet m))
  unfolding other_owner_code pure ◌>>=◌ shared_load
  other_owner_code-quiet o = elim (Bool-cases (other_boot h o)) [
    | inl other ↦ (ErrorCode.recovery_blocked, rw other refl)
    | inr ours ↦ rw ours (_, refl)
  ]

  active_code-quiet :
      (k : SnapshotKind) (o : Owner)
      → (code : ErrorCode) × (active_code k h o (quiet m) ≡ (ok code, quiet m))
  unfolding active_code pure
  active_code-quiet SnapshotKind.inactive o = (_, refl)
  active_code-quiet SnapshotKind.claiming o = (_, refl)
  active_code-quiet SnapshotKind.unstable o = (_, refl)
  active_code-quiet SnapshotKind.corrupt o = (_, refl)
  active_code-quiet SnapshotKind.epoch_exhausted o = (_, refl)
  active_code-quiet SnapshotKind.stable o = elim (Bool-cases (owner_matches o h.self)) [
    | inl mine ↦ (ErrorCode.concurrent_handle_use, rw mine refl)
    | inr theirs ↦ rw theirs (other_owner_code-quiet o)
  ]

  -- Looking at a block changes nothing, and gives some code.
  pub classify_active_block-quiet :
      (offset : ℕ)
      → (code : ErrorCode) × (classify_active_block h offset (quiet m) ≡ (ok code, quiet m))
  unfolding classify_active_block snapshot_block_owner
  classify_active_block-quiet offset =
      let o = observed (block_cell offset) classify_block_state owner_valid m in
      let (code, e) = active_code-quiet o.kind o.owner in
      (
        code,
        bind_ok _ _ (snapshot_owner-quiet (block_cell offset) classify_block_state owner_valid m) e,
      )
