-- ===== src/Channel/Tests.antt =====
-- The theorems on channels at a channel of three-byte samples (src/edge_runtime/channel/).
mod Latest
use edge_runtime.Common.{
  u64_max, ℕ, ◌≤◌, ◌<◌, ◌≡◌, refl, inl, inr, false, some, [], ◌∷◌, arith, replicate,
}
use edge_runtime.Channel.Delivery.{publish-then-read}
use edge_runtime.Channel.Header.{channel_header_magic, ChannelHeader, validate_header_parse}
use edge_runtime.Channel.Layout.{
  slot_count, make_ticket, ticket_slot, ticket_sequence, sample_stride, mapping_size_for_payload,
  saturated_gap,
}
use edge_runtime.Channel.Layout.Tickets.{make_ticket-parts, IsSampleSize, sample_place}
use edge_runtime.Channel.Publish.{same_instance, current_slot_of, publish_sample}
use edge_runtime.Channel.Publish.Quiet.{IsFreeSlot}
use edge_runtime.Channel.Quiet.{IsProducer}
use edge_runtime.Channel.Read.{missed_samples_of, try_read_latest}
use edge_runtime.Channel.Recovery.{reclaim_dead_consumer_slots}
use edge_runtime.Channel.Recovery.Quiet.{reclaim_dead_consumer_slots-gives_back}
use edge_runtime.Channel.State.{
  channel_ready, endpoint_online, sample_free, sample_published, sample_reading, Sample,
  HandleFlags, ChannelMemory, Endpoint,
}
use edge_runtime.CheckedMath.{checked_add, checked_mul, round_up_to_multiple}
use edge_runtime.Mpmc.Header.{endian_mark, Schema, same_bytes}
use edge_runtime.Owner.{Owner, ready}
use edge_runtime.Shared.{ok, quiet, ◌>>=◌}

abbrev pub endpoint : Endpoint
endpoint = record {
  generation = 1;
  role_epoch = 2;
  instance_nonce_hi = 11;
  instance_nonce_lo = 12;
  payload_size = 3;
}

abbrev process : Owner
process = record { pid = 1; proc_start_ticks = 2; boot_id_hash_hi = 3; boot_id_hash_lo = 4 }

abbrev pub unused : Sample
unused = record {
  state = sample_free;
  payload_size = 0;
  sample_sequence = 0;
  publish_boot_ns = 0;
  payload_checksum = 0;
  reader_role_epoch = 0;
  payload = replicate 3 0;
}

abbrev flags : HandleFlags
flags = record { operation_in_use = false; shutdown_pending = false; shutdown_started = false }

-- The seventh sample is in the second slot, and the consumer has seen four.
abbrev pub channel : ChannelMemory
channel = record {
  boot_init_state = channel_ready;
  init_state = channel_ready;
  generation = 1;
  instance_nonce_hi = 11;
  instance_nonce_lo = 12;
  producer = record { role_epoch = 2; process = process };
  consumer = record { role_epoch = 2; process = process };
  latest_ticket = 29;
  notify_epoch = 7;
  producer_state = endpoint_online;
  consumer_state = endpoint_online;
  publish_count = 7;
  read_count = 4;
  last_publish_boot_ns = 100;
  slots = λ k. unused;
  producer_flags = flags;
  consumer_flags = flags;
  last_sequence = 4;
  first_sample_in_generation = false;
  boottime = 200;
}

pub three_bytes : IsSampleSize 3
three_bytes = record { some_bytes = omega arith; few_bytes = omega arith }

channel-IsProducer : IsProducer endpoint channel
unfolding same_instance
channel-IsProducer = record {
  boot_ready = refl;
  ready = refl;
  instance_kept = refl;
  even = refl;
  role_kept = refl;
  online = refl;
}

first-IsFreeSlot : IsFreeSlot endpoint channel three_bytes (current_slot_of 29) 0
unfolding current_slot_of ticket_slot
first-IsFreeSlot = record {
  in_channel = omega arith;
  not_current = λ e. absurd (omega (arith, e));
  idle = inl refl;
}

publish-then-read_example :
    ((publish_sample endpoint (5 ∷ 6 ∷ 7 ∷ []) >>= λ info. try_read_latest endpoint 3)
      (quiet channel)).0
    ≡ ok (
      5 ∷ 6 ∷ 7 ∷ [],
      record {
        encoded_size = 3;
        sample_sequence = 8;
        publish_boot_ns = 200;
        receive_boot_ns = 200;
        generation = 1;
        missed_samples = 3;
      },
    )
unfolding ticket_sequence missed_samples_of saturated_gap
publish-then-read_example =
    publish-then-read endpoint channel (5 ∷ 6 ∷ 7 ∷ []) three_bytes refl channel-IsProducer refl
      (omega arith) (omega arith) endpoint 3 refl (omega arith) refl (omega arith) 0
      first-IsFreeSlot

make_ticket-parts_example :
    (0 < make_ticket 7 1)
    × (make_ticket 7 1 ≤ u64_max)
    × (ticket_sequence (make_ticket 7 1) ≡ 7)
    × (ticket_slot (make_ticket 7 1) ≡ 1)
make_ticket-parts_example = make_ticket-parts 7 1 (omega arith) (omega arith) (omega arith)

-- A slot that the consumer with epoch two reads
abbrev read_slot : Sample
read_slot = record unused { state = sample_reading; sample_sequence = 7; reader_role_epoch = 2 }

abbrev abandoned : ChannelMemory
abandoned = record channel { slots = λ k. read_slot }

reclaim_dead_consumer_slots-gives_back_example :
    (m' : ChannelMemory) × (reclaim_dead_consumer_slots 2 3 (quiet abandoned) ≡ (ok tt, quiet m'))
    × ((k : ℕ)
        → k < slot_count
        → m'.slots (sample_place 3 k)
          ≡ record unused { state = sample_published; sample_sequence = 7 })
    × (m'.latest_ticket ≡ 29)
reclaim_dead_consumer_slots-gives_back_example =
    reclaim_dead_consumer_slots-gives_back 2 3 three_bytes abandoned (λ k l. inr (inr (refl, refl)))

abbrev sample_schema : Schema
sample_schema = record { version = 1; fingerprint = replicate 32 9 }

-- A header that says a mapping too small for its slots
abbrev small_header : ChannelHeader
small_header = record {
  magic = channel_header_magic;
  abi_major = 1;
  abi_minor = 0;
  size_field = 320;
  endian_marker = endian_mark;
  slots = 3;
  payload_size = 3;
  schema = sample_schema;
  mapping_size = 192;
  generation = 1;
  instance_nonce_hi = 11;
  instance_nonce_lo = 12;
}

-- The check of a header accepts it, though three slots of three bytes need more.
small_header-accepted :
    (validate_header_parse small_header sample_schema 3 ≡ ok tt)
    × (mapping_size_for_payload 3 ≡ some 832)
unfolding validate_header_parse same_bytes mapping_size_for_payload sample_stride
    round_up_to_multiple checked_mul checked_add
small_header-accepted = (refl, refl)
