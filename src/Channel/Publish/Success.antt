-- ===== src/Channel/Publish/Success.antt =====
-- A sample that is published when nobody interferes (src/edge_runtime/channel/producer_impl.cpp).
use edge_runtime.Common.{
  ◌==◌, length, ℕ, ◌+◌, ◌%◌, ◌^◌, ◌<◌, ◌≡◌, refl, true, not, some, List, arith,
}
use edge_runtime.Channel.Layout.{
  slot_count, max_sample_sequence, make_ticket, ticket_sequence, checked_next_sequence,
}
use edge_runtime.Channel.Layout.Tickets.{IsSampleSize, sample_place, sample_stride-eq}
use edge_runtime.Channel.Publish.{
  current_slot_of, choose_slot, require_sequence, PublishInfo, notify_consumer, finish_publish,
  describe_sample, publish_verified,
}
use edge_runtime.Channel.Publish.Quiet.{writing, IsFreeSlot, choose_from-free}
use edge_runtime.Channel.Quiet.{store_slot-part}
use edge_runtime.Channel.Slot.{slot_publish}
use edge_runtime.Channel.State.{sample_published, Sample, ChannelMemory, Endpoint, set_sample}
use edge_runtime.Checksum.{fnv1a64}
use edge_runtime.Shared.{ok, quiet, pure, shared_store}
use edge_runtime.Shared.Laws.{bind_ok, then_ok, load-quiet, require-ok}

-- The sequence number after the latest one
abbrev pub next_of : ChannelMemory → ℕ
next_of m = ticket_sequence m.latest_ticket + 1

-- The slot with the new sample
abbrev pub new_sample : ℕ → ℕ → List ℕ → Sample → Sample
new_sample sequence boot_ns encoded s = record s {
  state = sample_published;
  payload_size = length encoded;
  sample_sequence = sequence;
  publish_boot_ns = boot_ns;
  payload_checksum = fnv1a64 encoded;
  payload = encoded;
}

-- The header with the new ticket
abbrev pub with_ticket : ℕ → ChannelMemory → ChannelMemory
with_ticket ticket m = record m {
  latest_ticket = ticket;
  publish_count = (m.publish_count + 1) % 2 ^ 64;
  last_publish_boot_ns = m.boottime;
  notify_epoch = (m.notify_epoch + 1) % 2 ^ 32;
}

abbrev pub published_memory : ℕ → ℕ → List ℕ → ChannelMemory → ChannelMemory
published_memory offset i encoded m =
    set_sample offset (new_sample (next_of m) m.boottime encoded (m.slots offset))
      (with_ticket (make_ticket (next_of m) i) m)

module _ (h : Endpoint) (m : ChannelMemory) (encoded : List ℕ) (size : IsSampleSize h.payload_size)
    (last : ticket_sequence m.latest_ticket < max_sample_sequence) (clock : 0 < m.boottime) where
  abbrev publish_info : PublishInfo
  publish_info = record {
    generation = h.generation;
    sequence = next_of m;
    publish_boot_ns = m.boottime;
  }

  finish_publish-quiet :
      (offset i : ℕ) (s : Sample)
      → finish_publish h
          (offset, i)
          (next_of m)
          m.boottime
          (fnv1a64 encoded)
          (quiet (set_sample offset s m))
        ≡ (
          ok publish_info,
          quiet (
              set_sample offset
                (record s { payload_checksum = fnv1a64 encoded; state = sample_published })
                (with_ticket (make_ticket (next_of m) i) m)),
        )
  unfolding finish_publish slot_publish notify_consumer shared_store pure set_sample
  finish_publish-quiet offset i s =
      then_ok _ _
        (store_slot-part offset (λ x. record x { payload_checksum = fnv1a64 encoded }) s m)
        (then_ok _ _ (store_slot-part offset (λ x. record x { state = sample_published }) _ m)
          (then_ok _ _ refl (then_ok _ _ (then_ok _ _ refl (then_ok _ _ refl refl)) refl)))

  describe_sample-quiet :
      (offset : ℕ) (s : Sample)
      → describe_sample offset
          (length encoded)
          (next_of m)
          m.boottime
          (quiet (set_sample offset s m))
        ≡ (
          ok tt,
          quiet (
              set_sample offset
                (record s {
                  payload_size = length encoded;
                  sample_sequence = next_of m;
                  publish_boot_ns = m.boottime;
                })
                m),
        )
  unfolding describe_sample
  describe_sample-quiet offset s =
      then_ok _ _ (store_slot-part offset (λ x. record x { payload_size = length encoded }) s m) (
        then_ok _ _ (store_slot-part offset (λ x. record x { sample_sequence = next_of m }) _ m)
          (store_slot-part offset (λ x. record x { publish_boot_ns = m.boottime }) _ m))

  next_sequence-some : checked_next_sequence m.latest_ticket ≡ some (next_of m)
  unfolding checked_next_sequence
  next_sequence-some = ground (arith, last)

  clock_fine : not (m.boottime == 0) ≡ true
  clock_fine = ground (arith, clock)

  -- A producer of a channel in order with an idle slot besides the current one publishes there.
  pub publish_verified-ok :
      (j : ℕ)
      → IsFreeSlot h m size (current_slot_of m.latest_ticket) j
      → (k : ℕ) × IsFreeSlot h m size (current_slot_of m.latest_ticket) k
        × (publish_verified h encoded (quiet m) ≡ (
          ok publish_info,
          quiet (published_memory (sample_place h.payload_size k) k encoded m),
        ))
  unfolding publish_verified require_sequence pure choose_slot
  publish_verified-ok j f =
      let (k, c) =
        choose_from-free h m size slot_count 0 (current_slot_of m.latest_ticket) j (omega arith)
          (omega arith) f in
      let offset = sample_place h.payload_size k in
      (
        k,
        c.taken,
        bind_ok _ _ (load-quiet (λ n. n.latest_ticket) m) (
            bind_ok _ _ (rw next_sequence-some refl) (
              bind_ok _ _ (load-quiet (λ n. n.boottime) m) (
                then_ok _ _ (require-ok _ _ clock_fine) (
                  bind_ok _ _ (rw (sample_stride-eq h.payload_size size) c.chosen) (
                    then_ok _ _ (describe_sample-quiet offset (writing (m.slots offset))) (
                      then_ok _ _ (store_slot-part offset (λ x. record x { payload = encoded }) _ m)
                        (finish_publish-quiet offset k _))))))),
      )
