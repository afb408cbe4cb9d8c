-- ===== src/Pool/Read/Stale.antt =====
-- Descriptors of blocks that have moved on (src/edge_runtime/buffer/shared_buffer_pool.cpp,
-- `validate_descriptor`).
use edge_runtime.Common.{
  Bool-cases, ℕ, ◌≤◌, ◌<◌, ◌≡◌, refl, sym, ◌∙◌, subst, ◌≢◌, ◌⊎◌, inl, inr, Option, none, some,
  arith,
}
use edge_runtime.Error.{ErrorCode}
use edge_runtime.Pool.Blocks.{offsets_of, fits_object, block_at, validate_live_pool}
use edge_runtime.Pool.Layout.{block_header_size}
use edge_runtime.Pool.Read.{
  descriptor_code, require_generation, require_current, validate_descriptor, acquire_read,
}
use edge_runtime.Pool.State.{PoolMemory, PoolHandle, BufferHandle, Buffer}
use edge_runtime.Shared.{ok, World, tick, pure, fail, ◌>>=◌, require, read, shared_load}
use edge_runtime.Shared.Laws.{bind_ok, Rely, Rely-tick, fail-ne-ok, >>-eq-ok}

-- What the other processes may do to an open pool: its shape stays, and no block goes back to an
-- earlier generation.
pub record KeepsGenerations (m n : PoolMemory) : Type 0 where
  pub same_size : n.block_size ≡ m.block_size
  pub same_count : n.block_count ≡ m.block_count
  pub grows : (k : ℕ) → (m.blocks k).block_generation ≤ (n.blocks k).block_generation

pub KeepsGenerations-refl : (m : PoolMemory) → KeepsGenerations m m
KeepsGenerations-refl m = record { same_size = refl; same_count = refl; grows = λ k. omega arith }

-- The block that the descriptor names is past the descriptor's generation.
pub record IsStale (d : BufferHandle) (o : ℕ × ℕ) (m : PoolMemory) : Type 0 where
  pub named : offsets_of d.block_id m ≡ some o
  pub past : d.block_generation < (m.blocks o.0).block_generation

module _ (d : BufferHandle) (o : ℕ × ℕ) where
  IsStale-kept : (m n : PoolMemory) → KeepsGenerations m n → IsStale d o m → IsStale d o n
  unfolding offsets_of
  IsStale-kept m n k s = record {
    named = rw (k.same_size, k.same_count) s.named;
    past = omega (arith, k.grows o.0, s.past);
  }

  IsStale-tick :
      (w : World PoolMemory)
      → Rely KeepsGenerations w.env
      → IsStale d o w.mem
      → IsStale d o (tick w).mem × Rely KeepsGenerations (tick w).env
  IsStale-tick w r s =
      let (k, r') = Rely-tick KeepsGenerations KeepsGenerations-refl w r in
      (IsStale-kept w.mem (tick w).mem k s, r')

  generation_refused :
      (w w' : World PoolMemory)
      → Rely KeepsGenerations w.env
      → IsStale d o w.mem
      → require_generation d (some o.0) w ≢ (ok tt, w')
  unfolding require_generation shared_load require ◌>>=◌
  generation_refused w w' r s e = let (t, r') = IsStale-tick w r s in ground (arith, t.past, e)

  validate_live_pool-world :
      (h : PoolHandle) (w u : World PoolMemory) → validate_live_pool h w ≡ (ok tt, u) → tick w ≡ u
  unfolding validate_live_pool shared_load require ◌>>=◌ fail
  validate_live_pool-world h w u e = ground (arith, e)

  block_at-named :
      (h : PoolHandle) (w : World PoolMemory)
      → offsets_of d.block_id w.mem ≡ some o
      → (block_at h d.block_id w ≡ (ok none, w)) ⊎ (block_at h d.block_id w ≡ (ok (some o.0), w))
  unfolding block_at read pure ◌>>=◌
  block_at-named h w e = elim (Bool-cases (fits_object h o.0 block_header_size)) [
    | inl fits ↦ inr (rw (e, fits) refl)
    | inr outside ↦ inl (rw (e, outside) refl)
  ]

  generation_reached :
      (h : PoolHandle) (w w' : World PoolMemory)
      → Rely KeepsGenerations w.env
      → IsStale d o w.mem
      → (block_at h d.block_id >>= require_generation d) w ≢ (ok tt, w')
  unfolding require_generation
  generation_reached h w w' r s e = elim (block_at-named h w s.named) [
    | inl outside ↦
        fail-ne-ok ErrorCode.buffer_invalid_handle w
          (sym (bind_ok (block_at h d.block_id) (require_generation d) outside refl) ∙ e)
    | inr inside ↦
        generation_refused w w' r s
          (sym (bind_ok (block_at h d.block_id) (require_generation d) inside refl) ∙ e)
  ]

  current_refused :
      (h : PoolHandle) (c : Option ErrorCode) (w w' : World PoolMemory)
      → Rely KeepsGenerations w.env
      → IsStale d o w.mem
      → require_current h d c w ≢ (ok tt, w')
  unfolding require_current
  current_refused h (some c) w w' r s e = fail-ne-ok c w e
  current_refused h none w w' r s e = generation_reached h w w' r s e

  descriptor_refused :
      (h : PoolHandle) (w w' : World PoolMemory)
      → Rely KeepsGenerations w.env
      → IsStale d o w.mem
      → validate_descriptor h d w ≢ (ok tt, w')
  unfolding validate_descriptor read
  descriptor_refused h w w' r s e =
      let (u, p, q) = >>-eq-ok (validate_live_pool h) _ e in
      let (t, r') =
        subst (λ x. IsStale d o x.mem × Rely KeepsGenerations x.env)
          (validate_live_pool-world h w u p) (IsStale-tick w r s) in
      current_refused h (descriptor_code u.mem d) u w' r' t
        (sym (bind_ok (read (λ m. descriptor_code m d)) (require_current h d) refl refl) ∙ q)

-- Whatever the other processes do, as long as they keep the pool's shape and take no block back to an
-- earlier generation: a descriptor of an earlier generation of its block opens no buffer.
pub acquire_read-stale :
    (h : PoolHandle) (d : BufferHandle) (o : ℕ × ℕ) (w w' : World PoolMemory) (b : Buffer)
    → Rely KeepsGenerations w.env
    → IsStale d o w.mem
    → acquire_read h d w ≢ (ok b, w')
unfolding acquire_read
acquire_read-stale h d o w w' b r s e =
    let (u, p, q) = >>-eq-ok (validate_descriptor h d) _ e in descriptor_refused d o h w u r s p
