-- ===== src/Channel/Tests/Latest.antt =====
-- The theorem on the latest sample at a channel that is being read (src/edge_runtime/channel/).
use edge_runtime.Common.{◌==◌, if◌then◌else◌, ℕ, ◌≡◌, refl, ◌≢◌, [], ◌∷◌, arith}
use edge_runtime.Channel.Identity.{
  load_process, identity_round, identity_rounds, identity_snapshot_read,
}
use edge_runtime.Channel.Layout.{
  make_ticket, ticket_slot, ticket_sequence, sample_stride, slot_byte_offset, checked_next_sequence,
}
use edge_runtime.Channel.Publish.{
  same_instance, verify_handle_ownership, try_slot, try_place, choose_from, current_slot_of,
  choose_slot, require_sequence, notify_consumer, finish_publish, describe_sample, publish_verified,
  publish_sample,
}
use edge_runtime.Channel.Publish.Latest.{content, KeepsSamples}
use edge_runtime.Channel.Publish.Spared.{publish_sample-spares_latest}
use edge_runtime.Channel.Slot.{slot_claim_writable, slot_publish}
use edge_runtime.Channel.State.{
  sample_published, sample_reading, Sample, ChannelMemory, set_sample, store_slot, load_slot,
}
use edge_runtime.Channel.Tests.{endpoint, unused, channel, three_bytes}
use edge_runtime.Channel.Use.{begin_use, end_use, and_finally, guarded, same_role}
use edge_runtime.CheckedMath.{checked_add, checked_mul, round_up_to_multiple}
use edge_runtime.Checksum.{fnv1a64}
use edge_runtime.Shared.{
  ok, World, pure, ◌>>=◌, ◌>>◌, attempt, require, read, shared_load, shared_store, shared_cas,
}
use edge_runtime.Shared.Laws.{Rely}

-- The seventh sample, in the second slot
abbrev seventh : Sample
seventh = record {
  state = sample_published;
  payload_size = 3;
  sample_sequence = 7;
  publish_boot_ns = 100;
  payload_checksum = fnv1a64 (1 ∷ 2 ∷ 3 ∷ []);
  reader_role_epoch = 0;
  payload = 1 ∷ 2 ∷ 3 ∷ [];
}

-- While the producer checks its handle, the consumer begins to read the seventh sample.
abbrev begin_reading : ChannelMemory → ChannelMemory
begin_reading m = set_sample 576 (record (m.slots 576) { state = sample_reading }) m

abbrev being_read : World ChannelMemory
being_read = record {
  mem = record channel { slots = λ k. if k == 576 then seventh else unused };
  env = (λ m. m) ∷ (λ m. m) ∷ begin_reading ∷ [];
}

nothing-KeepsSamples : (m : ChannelMemory) → KeepsSamples m m
nothing-KeepsSamples m = record { ticket_kept = refl; content_kept = λ k. refl }

begin_reading-KeepsSamples : (m : ChannelMemory) → KeepsSamples m (begin_reading m)
unfolding set_sample
begin_reading-KeepsSamples m = record { ticket_kept = refl; content_kept = λ k. ground arith }

being_read-Rely : Rely KeepsSamples being_read.env
being_read-Rely = (nothing-KeepsSamples, (nothing-KeepsSamples, (begin_reading-KeepsSamples, tt)))

-- The world after the eighth sample was published
abbrev eighth_published : World ChannelMemory
eighth_published = (publish_sample endpoint (5 ∷ 6 ∷ 7 ∷ []) being_read).1

publish_sample-spares_latest_example :
    (content (eighth_published.mem.slots 576) ≡ content seventh)
    × (ticket_slot eighth_published.mem.latest_ticket ≢ 1)
    × (ticket_sequence eighth_published.mem.latest_ticket ≡ 8)
    × (◌≡◌ {A = ℕ} 8 8)
unfolding publish_sample guarded begin_use ticket_slot ticket_sequence end_use and_finally require
    verify_handle_ownership identity_snapshot_read identity_rounds identity_round load_process
    same_role same_instance attempt read shared_load shared_store shared_cas pure ◌>>=◌ ◌>>◌
    publish_verified require_sequence checked_next_sequence choose_slot sample_stride
    round_up_to_multiple choose_from current_slot_of try_place slot_byte_offset checked_mul
    checked_add try_slot load_slot slot_claim_writable set_sample store_slot describe_sample
    finish_publish slot_publish make_ticket notify_consumer
publish_sample-spares_latest_example =
    publish_sample-spares_latest endpoint (5 ∷ 6 ∷ 7 ∷ []) being_read eighth_published
      (ok (record { generation = 1; sequence = 8; publish_boot_ns = 200 })) three_bytes
      (omega arith) being_read-Rely refl
