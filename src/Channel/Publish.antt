-- ===== src/Channel/Publish.antt =====
-- Publishing a sample, at once or through a loan (src/edge_runtime/channel/producer_impl.cpp).
pub mod Spare
pub mod Latest
pub mod Kept
pub mod Spared
pub mod Quiet
pub mod Success
use edge_runtime.Common.{
  ◌==◌, if◌then◌else◌, length, ℕ, zero, suc, ◌+◌, ◌%◌, ◌^◌, Bool, true, false, not, ◌&&◌, ◌||◌,
  Option, none, some, List,
}
use edge_runtime.Channel.Identity.{producer_role, identity_snapshot_read}
use edge_runtime.Channel.Layout.{
  slot_count, invalid_slot, make_ticket, ticket_slot, sample_stride, slot_byte_offset,
  checked_next_sequence,
}
use edge_runtime.Channel.Slot.{slot_claim_writable, slot_publish, slot_abort_write}
use edge_runtime.Channel.State.{
  channel_ready, endpoint_online, sample_free, sample_published, ChannelMemory, Endpoint,
  store_slot, load_slot,
}
use edge_runtime.Channel.Use.{begin_use, end_use, guarded, same_role, release_loan_operation}
use edge_runtime.Checksum.{fnv1a64}
use edge_runtime.Error.{ErrorCode}
use edge_runtime.Owner.Quiet.{observed}
use edge_runtime.Shared.{
  Action, pure, fail, ◌>>=◌, ◌>>◌, or_else, attempt, require, read, shared_load, shared_store,
}

unfoldable pub same_instance : Endpoint → ChannelMemory → Bool
same_instance h m =
    m.generation == h.generation
    && m.instance_nonce_hi == h.instance_nonce_hi
    && m.instance_nonce_lo == h.instance_nonce_lo

unfoldable pub verify_handle_ownership : Endpoint → Action ChannelMemory (Unit {0})
verify_handle_ownership h = do
  boot_init ← shared_load (λ m. m.boot_init_state)
  require (boot_init == channel_ready) ErrorCode.stale_handle
  init ← shared_load (λ m. m.init_state)
  require (init == channel_ready) ErrorCode.stale_handle
  same ← read (same_instance h)
  require same ErrorCode.stale_handle
  identity ← attempt (identity_snapshot_read producer_role)
  require (same_role h identity) ErrorCode.stale_handle
  state ← shared_load (λ m. m.producer_state)
  require (state == endpoint_online) ErrorCode.producer_offline

-- The offset and the index of a slot
abbrev pub SlotPlace : Type 0
SlotPlace = ℕ × ℕ

-- A slot that is neither being read nor written is claimed; otherwise the further ones are tried.
unfoldable pub try_slot : ℕ → ℕ → Action ChannelMemory SlotPlace → Action ChannelMemory SlotPlace
try_slot offset i rest = do
  observed ← load_slot offset (λ s. s.state)
  if not (observed == sample_free || observed == sample_published) then rest else do
    claimed ← slot_claim_writable offset observed
    if claimed then pure (offset, i) else rest

-- An index without an offset is passed by.
unfoldable pub try_place :
    ℕ → Action ChannelMemory SlotPlace → Option ℕ → Action ChannelMemory SlotPlace
try_place i rest none = rest
try_place i rest (some offset) = try_slot offset i rest

-- The loop, with the slots left and the next slot; the current slot is passed by.
unfoldable pub choose_from : ℕ → ℕ → ℕ → ℕ → Action ChannelMemory SlotPlace
choose_from zero i current_slot stride = fail ErrorCode.no_writable_slot
choose_from (suc n) i current_slot stride =
    let rest = choose_from n (i + 1) current_slot stride in
    if i == current_slot then rest else try_place i rest (slot_byte_offset i stride)

unfoldable pub current_slot_of : ℕ → ℕ
current_slot_of current = if current == 0 then invalid_slot else ticket_slot current

unfoldable pub choose_slot : Option ℕ → ℕ → Action ChannelMemory SlotPlace
choose_slot none current = fail ErrorCode.invalid_options
choose_slot (some stride) current = choose_from slot_count 0 (current_slot_of current) stride

unfoldable pub require_sequence : Option ℕ → Action ChannelMemory ℕ
require_sequence none = fail ErrorCode.sequence_exhausted
require_sequence (some next_sequence) = pure next_sequence

pub record PublishInfo : Type 0 where
  pub generation : ℕ
  pub sequence : ℕ
  pub publish_boot_ns : ℕ

-- That `futex_wake` wakes a sleeper changes no memory.
unfoldable pub notify_consumer : ℕ → Action ChannelMemory (Unit {0})
notify_consumer publish_boot_ns = do
  shared_store (λ m. record m { publish_count = (m.publish_count + 1) % 2 ^ 64 })
  shared_store (λ m. record m { last_publish_boot_ns = publish_boot_ns })
  shared_store (λ m. record m { notify_epoch = (m.notify_epoch + 1) % 2 ^ 32 })

-- From the checksum on
unfoldable pub finish_publish : Endpoint → SlotPlace → ℕ → ℕ → ℕ → Action ChannelMemory PublishInfo
finish_publish h place sequence publish_boot_ns checksum = do
  store_slot place.0 (λ s. record s { payload_checksum = checksum })
  slot_publish place.0
  shared_store (λ m. record m { latest_ticket = make_ticket sequence place.1 })
  notify_consumer publish_boot_ns
  pure
      (record { generation = h.generation; sequence = sequence; publish_boot_ns = publish_boot_ns })

-- The words before the payload
unfoldable pub describe_sample : ℕ → ℕ → ℕ → ℕ → Action ChannelMemory (Unit {0})
describe_sample offset size sequence publish_boot_ns = do
  store_slot offset (λ s. record s { payload_size = size })
  store_slot offset (λ s. record s { sample_sequence = sequence })
  store_slot offset (λ s. record s { publish_boot_ns = publish_boot_ns })

unfoldable pub publish_verified : Endpoint → List ℕ → Action ChannelMemory PublishInfo
publish_verified h encoded = do
  current ← shared_load (λ m. m.latest_ticket)
  next_sequence ← require_sequence (checked_next_sequence current)
  publish_boot_ns ← shared_load (λ m. m.boottime)
  require (not (publish_boot_ns == 0)) ErrorCode.clock_anomaly
  place ← choose_slot (sample_stride h.payload_size) current
  describe_sample place.0 (length encoded) next_sequence publish_boot_ns
  store_slot place.0 (λ s. record s { payload = encoded })
  finish_publish h place next_sequence publish_boot_ns (fnv1a64 encoded)

-- `producer_publish_impl`
unfoldable pub publish_sample : Endpoint → List ℕ → Action ChannelMemory PublishInfo
publish_sample h encoded = guarded producer_role (do
  require (length encoded == h.payload_size) ErrorCode.payload_encode_failed
  verify_handle_ownership h
  publish_verified h encoded)

-- WriteLoan: a slot in its caller's hands, to be written
pub record WriteLoan : Type 0 where
  pub handle : Endpoint
  pub place : SlotPlace
  pub sequence : ℕ
  pub active : Bool

unfoldable pub reserve_slot : Endpoint → Action ChannelMemory WriteLoan
reserve_slot h = do
  verify_handle_ownership h
  current ← shared_load (λ m. m.latest_ticket)
  next_sequence ← require_sequence (checked_next_sequence current)
  place ← choose_slot (sample_stride h.payload_size) current
  pure (record { handle = h; place = place; sequence = next_sequence; active = true })

-- `producer_loan_impl`: the handle stays in use while the loan lasts.
unfoldable pub loan_slot : Endpoint → Action ChannelMemory WriteLoan
loan_slot h = do
  busy ← begin_use producer_role
  if busy
      then fail ErrorCode.concurrent_handle_use
      else or_else (end_use producer_role) (reserve_slot h)

unfoldable pub commit_verified : WriteLoan → Action ChannelMemory PublishInfo
commit_verified l = do
  verify_handle_ownership l.handle
  publish_boot_ns ← shared_load (λ m. m.boottime)
  require (not (publish_boot_ns == 0)) ErrorCode.clock_anomaly
  checksum ← load_slot l.place.0 (λ s. fnv1a64 s.payload)
  describe_sample l.place.0 l.handle.payload_size l.sequence publish_boot_ns
  finish_publish l.handle l.place l.sequence publish_boot_ns checksum

-- `producer_commit_loan_impl`; a refused commit takes the slot back.
unfoldable pub commit_loan : WriteLoan → Action ChannelMemory PublishInfo
commit_loan l = do
  require l.active ErrorCode.invalid_options
  info ←
      or_else (do slot_abort_write l.place.0; release_loan_operation producer_role l.handle)
        (commit_verified l)
  release_loan_operation producer_role l.handle
  pure info

-- `producer_abort_loan_impl`
unfoldable pub abort_loan : WriteLoan → Action ChannelMemory WriteLoan
abort_loan l = if not l.active then pure l else do
  slot_abort_write l.place.0
  release_loan_operation producer_role l.handle
  pure (record l { active = false })
