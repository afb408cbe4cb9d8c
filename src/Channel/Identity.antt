-- ===== src/Channel/Identity.antt =====
-- Reading and writing who has a role (src/edge_runtime/channel/channel_abi.cpp).
use edge_runtime.Common.{ltb, ◌==◌, if◌then◌else◌, u64_max, ℕ, zero, suc, ◌+◌, ◌-◌, ◌%◌, not, ◌||◌}
use edge_runtime.Channel.State.{RoleIdentity, ChannelMemory}
use edge_runtime.Error.{ErrorCode}
use edge_runtime.Owner.{Owner}
use edge_runtime.Shared.{Action, pure, fail, ◌>>=◌, ◌>>◌, require, shared_load, shared_store}

pub data Role : Type 0 where
  producer_role consumer_role : Role

abbrev pub role_of : Role → ChannelMemory → RoleIdentity
role_of producer_role m = m.producer
role_of consumer_role m = m.consumer

abbrev pub set_role : Role → RoleIdentity → ChannelMemory → ChannelMemory
set_role producer_role i m = record m { producer = i }
set_role consumer_role i m = record m { consumer = i }

-- A store to the identity of a role
unfoldable pub store_role : Role → (RoleIdentity → RoleIdentity) → Action ChannelMemory (Unit {0})
store_role r change = shared_store (λ m. set_role r (change (role_of r m)) m)

unfoldable pub load_process : Role → Action ChannelMemory Owner
load_process r = do
  pid ← shared_load (λ m. (role_of r m).process.pid)
  proc_start_ticks ← shared_load (λ m. (role_of r m).process.proc_start_ticks)
  boot_id_hash_hi ← shared_load (λ m. (role_of r m).process.boot_id_hash_hi)
  boot_id_hash_lo ← shared_load (λ m. (role_of r m).process.boot_id_hash_lo)
  pure (record {
    pid = pid;
    proc_start_ticks = proc_start_ticks;
    boot_id_hash_hi = boot_id_hash_hi;
    boot_id_hash_lo = boot_id_hash_lo;
  })

-- kIdentitySnapshotRetries
abbrev pub identity_snapshot_retries : ℕ
identity_snapshot_retries = 8

-- One attempt; `rest` are the further ones.
unfoldable pub identity_round :
    Role → Action ChannelMemory RoleIdentity → Action ChannelMemory RoleIdentity
identity_round r rest = do
  before ← shared_load (λ m. (role_of r m).role_epoch)
  if not (before % 2 == 0) then rest else do
    process ← load_process r
    after ← shared_load (λ m. (role_of r m).role_epoch)
    if not (after % 2 == 0) || not (after == before)
        then rest
        else pure (record { role_epoch = after; process = process })

unfoldable pub identity_rounds : ℕ → Role → Action ChannelMemory RoleIdentity
identity_rounds zero r = fail ErrorCode.recovery_blocked
identity_rounds (suc n) r = identity_round r (identity_rounds n r)

unfoldable pub identity_snapshot_read : Role → Action ChannelMemory RoleIdentity
identity_snapshot_read r = identity_rounds identity_snapshot_retries r

-- The stores of a write that begins at an even epoch below the last two
unfoldable pub write_identity : Role → ℕ → Owner → Action ChannelMemory ℕ
write_identity r cur process = do
  store_role r (λ i. record i { role_epoch = cur + 1 })
  store_role r (λ i. record i { process = record i.process { pid = process.pid } })
  store_role r
      (λ i. record i { process = record i.process { proc_start_ticks = process.proc_start_ticks } })
  store_role r
      (λ i. record i { process = record i.process { boot_id_hash_hi = process.boot_id_hash_hi } })
  store_role r
      (λ i. record i { process = record i.process { boot_id_hash_lo = process.boot_id_hash_lo } })
  store_role r (λ i. record i { role_epoch = cur + 2 })
  pure (cur + 2)

unfoldable pub identity_snapshot_write : Role → Owner → Action ChannelMemory ℕ
identity_snapshot_write r process = do
  cur ← shared_load (λ m. (role_of r m).role_epoch)
  require (cur % 2 == 0) ErrorCode.recovery_blocked
  require (not (ltb (u64_max - 2) cur)) ErrorCode.recovery_blocked
  write_identity r cur process
