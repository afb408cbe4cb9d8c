-- ===== src/Channel/Slot.antt =====
-- The transitions of a slot (src/edge_runtime/channel/slot_protocol.cpp).
use edge_runtime.Common.{ℕ, Bool}
use edge_runtime.Channel.State.{
  sample_free, sample_writing, sample_published, sample_reading_claiming, sample_reading,
  ChannelMemory, set_sample, store_slot,
}
use edge_runtime.Owner.Quiet.{observed}
use edge_runtime.Shared.{Action, ◌>>◌, shared_cas}

unfoldable pub slot_claim_writable : ℕ → ℕ → Action ChannelMemory Bool
slot_claim_writable offset observed =
    shared_cas (λ m. (m.slots offset).state) observed
      (λ m. set_sample offset (record (m.slots offset) { state = sample_writing }) m)

unfoldable pub slot_publish : ℕ → Action ChannelMemory (Unit {0})
slot_publish offset = store_slot offset (λ s. record s { state = sample_published })

unfoldable pub slot_abort_write : ℕ → Action ChannelMemory (Unit {0})
slot_abort_write offset = store_slot offset (λ s. record s { state = sample_free })

unfoldable pub slot_claim_readable : ℕ → Action ChannelMemory Bool
slot_claim_readable offset =
    shared_cas (λ m. (m.slots offset).state) sample_published
      (λ m. set_sample offset (record (m.slots offset) { state = sample_reading_claiming }) m)

unfoldable pub slot_mark_reading : ℕ → ℕ → Action ChannelMemory (Unit {0})
slot_mark_reading offset consumer_role_epoch = do
  store_slot offset (λ s. record s { reader_role_epoch = consumer_role_epoch })
  store_slot offset (λ s. record s { state = sample_reading })

unfoldable pub slot_release_read : ℕ → Action ChannelMemory (Unit {0})
slot_release_read offset = do
  store_slot offset (λ s. record s { reader_role_epoch = 0 })
  store_slot offset (λ s. record s { state = sample_published })
