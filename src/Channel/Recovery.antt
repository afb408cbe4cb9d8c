-- ===== src/Channel/Recovery.antt =====
-- Slots that a dead consumer left (src/edge_runtime/channel/consumer_impl.cpp).
pub mod Quiet
use edge_runtime.Common.{◌==◌, if◌then◌else◌, ℕ, zero, suc, ◌+◌, ◌||◌, Option, none, some}
use edge_runtime.Channel.Layout.{slot_count, sample_stride, slot_byte_offset}
use edge_runtime.Channel.Slot.{slot_release_read}
use edge_runtime.Channel.State.{sample_reading_claiming, sample_reading, ChannelMemory, load_slot}
use edge_runtime.Error.{ErrorCode}
use edge_runtime.Shared.{Action, pure, fail, ◌>>=◌, ◌>>◌, require}

-- A slot that was being claimed: the epoch may not have been written yet.
unfoldable pub reclaim_claiming : ℕ → ℕ → Action ChannelMemory (Unit {0})
reclaim_claiming old_role_epoch offset = do
  epoch ← load_slot offset (λ s. s.reader_role_epoch)
  require (epoch == 0 || epoch == old_role_epoch) ErrorCode.recovery_blocked
  slot_release_read offset

unfoldable pub reclaim_reading : ℕ → ℕ → Action ChannelMemory (Unit {0})
reclaim_reading old_role_epoch offset = do
  epoch ← load_slot offset (λ s. s.reader_role_epoch)
  require (epoch == old_role_epoch) ErrorCode.recovery_blocked
  slot_release_read offset

unfoldable pub reclaim_slot : ℕ → Option ℕ → Action ChannelMemory (Unit {0})
reclaim_slot old_role_epoch none = fail ErrorCode.corrupt_slot
reclaim_slot old_role_epoch (some offset) = do
  state ← load_slot offset (λ s. s.state)
  if state == sample_reading_claiming
      then reclaim_claiming old_role_epoch offset
      else if state == sample_reading
      then reclaim_reading old_role_epoch offset
      else pure tt

-- The loop, with the slots left and the next slot
unfoldable pub reclaim_from : ℕ → ℕ → ℕ → ℕ → Action ChannelMemory (Unit {0})
reclaim_from zero i old_role_epoch stride = pure tt
reclaim_from (suc n) i old_role_epoch stride = do
  reclaim_slot old_role_epoch (slot_byte_offset i stride)
  reclaim_from n (i + 1) old_role_epoch stride

unfoldable pub reclaim_with : ℕ → Option ℕ → Action ChannelMemory (Unit {0})
reclaim_with old_role_epoch none = fail ErrorCode.invalid_options
reclaim_with old_role_epoch (some stride) = reclaim_from slot_count 0 old_role_epoch stride

unfoldable pub reclaim_dead_consumer_slots : ℕ → ℕ → Action ChannelMemory (Unit {0})
reclaim_dead_consumer_slots old_role_epoch payload_size =
    reclaim_with old_role_epoch (sample_stride payload_size)
