-- ===== src/Channel/Read/Quiet.antt =====
-- Reading the latest sample when nobody interferes (src/edge_runtime/channel/consumer_impl.cpp).
use edge_runtime.Common.{
  leb, ◌==◌, ℕ, ◌+◌, ◌%◌, ◌^◌, ◌≤◌, ◌<◌, ◌≡◌, refl, true, false, not, ◌||◌, arith,
}
use edge_runtime.Channel.Layout.{
  slot_count, max_sample_sequence, make_ticket, ticket_slot, ticket_sequence,
}
use edge_runtime.Channel.Layout.Tickets.{
  make_ticket-parts, IsSampleSize, sample_place, sample_stride-eq, slot_byte_offset-eq,
}
use edge_runtime.Channel.Quiet.{
  slots-set_sample_self, set_sample-set_sample, slot_part, store_slot-part, load_slot-part,
}
use edge_runtime.Channel.Read.{
  ReadSnapshot, ClaimedRead, SampleWords, load_words, missed_samples_of, accept_sample,
  check_payload, check_clock, check_sample, read_claimed_slot, claim_slot, read_round, read_rounds,
  rounds_with, claim_latest_unlocked,
}
use edge_runtime.Channel.Slot.{slot_claim_readable, slot_mark_reading}
use edge_runtime.Channel.State.{
  sample_published, sample_reading_claiming, sample_reading, Sample, ChannelMemory, Endpoint,
  set_sample,
}
use edge_runtime.Checksum.{fnv1a64}
use edge_runtime.Owner.Part.{claim-part}
use edge_runtime.Shared.{ok, quiet, Action, pure, read, shared_store}
use edge_runtime.Shared.Laws.{bind_ok, then_ok, if_no, load-quiet}

-- The slot of the latest ticket, with a sample that the consumer has not seen
pub record IsNews (h : Endpoint) (i : ℕ) (s : Sample) (m : ChannelMemory) : Type 0 where
  pub in_channel : i < slot_count
  pub latest : m.latest_ticket ≡ make_ticket s.sample_sequence i
  pub some_sequence : 0 < s.sample_sequence
  pub sequence_fits : s.sample_sequence ≤ max_sample_sequence
  pub unseen : m.last_sequence < s.sample_sequence
  pub published : s.state ≡ sample_published
  pub same_size : s.payload_size ≡ h.payload_size
  pub intact : s.payload_checksum ≡ fnv1a64 s.payload
  pub clock : 0 < m.boottime

abbrev pub reading : Endpoint → Sample → Sample
reading h s = record s { reader_role_epoch = h.role_epoch; state = sample_reading }

-- The consumer's cursor after a sample
abbrev pub with_cursor : ℕ → ChannelMemory → ChannelMemory
with_cursor sequence m = record m {
  last_sequence = sequence;
  first_sample_in_generation = false;
  read_count = (m.read_count + 1) % 2 ^ 64;
}

-- What a read reports of a sample
abbrev pub snapshot_of : Endpoint → Sample → ChannelMemory → ReadSnapshot
snapshot_of h s m = record {
  encoded_size = s.payload_size;
  sample_sequence = s.sample_sequence;
  publish_boot_ns = s.publish_boot_ns;
  receive_boot_ns = m.boottime;
  generation = h.generation;
  missed_samples = missed_samples_of s.sample_sequence m;
}

module _ (h : Endpoint) (i : ℕ) (s : Sample) (m : ChannelMemory)
    (size : IsSampleSize h.payload_size) (v : IsNews h i s m) where
  abbrev place : ℕ
  place = sample_place h.payload_size i

  abbrev words : SampleWords
  words = record {
    payload_size = s.payload_size;
    sample_sequence = s.sample_sequence;
    publish_boot_ns = s.publish_boot_ns;
    payload_checksum = s.payload_checksum;
  }

  abbrev pub claimed_read : ClaimedRead
  claimed_read = record { offset = place; snapshot = snapshot_of h s m }

  slot_of_ticket : ticket_slot m.latest_ticket ≡ i
  slot_of_ticket =
      let (_, _, _, d) =
        make_ticket-parts s.sample_sequence i v.some_sequence v.sequence_fits
          (omega (arith, v.in_channel)) in
      rw v.latest d

  is_new : (m.latest_ticket == 0 || leb (ticket_sequence m.latest_ticket) m.last_sequence) ≡ false
  is_new =
      let (a, _, c, _) =
        make_ticket-parts s.sample_sequence i v.some_sequence v.sequence_fits
          (omega (arith, v.in_channel)) in
      rw v.latest (ground (arith, a, c, v.unseen))

  size_fits_handle : not (s.payload_size == h.payload_size) ≡ false
  size_fits_handle = rw v.same_size (ground arith)

  checksum_fits : not (fnv1a64 s.payload == s.payload_checksum) ≡ false
  checksum_fits = rw v.intact (ground arith)

  clock_runs : (m.boottime == 0) ≡ false
  clock_runs = ground (arith, v.clock)

  still_latest : not (m.latest_ticket == make_ticket s.sample_sequence i) ≡ false
  still_latest = rw v.latest (ground arith)

  load_words-quiet :
      load_words place (quiet (set_sample place (reading h s) m))
      ≡ (ok words, quiet (set_sample place (reading h s) m))
  unfolding load_words pure
  load_words-quiet = bind_ok _ _ (load_slot-part place (λ x. x.payload_size) (reading h s) m) (
      bind_ok _ _ (load_slot-part place (λ x. x.sample_sequence) (reading h s) m) (
        bind_ok _ _ (load_slot-part place (λ x. x.publish_boot_ns) (reading h s) m)
          (bind_ok _ _ (load_slot-part place (λ x. x.payload_checksum) (reading h s) m) refl)))

  accept_sample-quiet :
      accept_sample h place words m.boottime (quiet (set_sample place (reading h s) m))
      ≡ (ok claimed_read, quiet (set_sample place (reading h s) (with_cursor s.sample_sequence m)))
  unfolding accept_sample read shared_store pure set_sample missed_samples_of
  accept_sample-quiet = bind_ok _ _ refl (then_ok _ _ refl (then_ok _ _ refl refl))

  check_sample-quiet :
      check_sample h place (quiet (set_sample place (reading h s) m))
      ≡ (ok claimed_read, quiet (set_sample place (reading h s) (with_cursor s.sample_sequence m)))
  unfolding check_sample check_clock check_payload set_sample
  check_sample-quiet = bind_ok _ _ load_words-quiet (
      if_no _ _ size_fits_handle (
        bind_ok _ _ (load-quiet (λ n. n.boottime) (set_sample place (reading h s) m)) (
          if_no _ _ clock_runs (
            bind_ok _ _ (load_slot-part place (λ x. x.payload) (reading h s) m)
              (if_no _ _ checksum_fits accept_sample-quiet)))))

  slot_claim_readable-quiet :
      slot_claim_readable place (quiet (set_sample place s m))
      ≡ (ok true, quiet (set_sample place (record s { state = sample_reading_claiming }) m))
  unfolding slot_claim_readable
  slot_claim_readable-quiet =
      rw (slots-set_sample_self place s m, set_sample-set_sample place) at
        (claim-part (slot_part place) (λ x. x.state) sample_published
          (λ x. record x { state = sample_reading_claiming }) (set_sample place s m)
          (rw (slots-set_sample_self place s m) v.published))

  read_claimed_slot-quiet :
      (rest : Action ChannelMemory ClaimedRead)
      → read_claimed_slot h i place rest
          (quiet (set_sample place (record s { state = sample_reading_claiming }) m))
        ≡ (
          ok claimed_read,
          quiet (set_sample place (reading h s) (with_cursor s.sample_sequence m)),
        )
  unfolding read_claimed_slot slot_mark_reading set_sample
  read_claimed_slot-quiet rest =
      then_ok _ _
        (then_ok _ _
          (store_slot-part place (λ x. record x { reader_role_epoch = h.role_epoch })
            (record s { state = sample_reading_claiming }) m)
          (store_slot-part place (λ x. record x { state = sample_reading }) _ m))
        (bind_ok _ _ (load_slot-part place (λ x. x.sample_sequence) (reading h s) m) (
          bind_ok _ _ (load-quiet (λ n. n.latest_ticket) (set_sample place (reading h s) m))
            (if_no _ _ still_latest check_sample-quiet)))

  -- The latest sample, if the consumer has not seen it, is claimed in the first attempt.
  pub claim_latest-ok :
      claim_latest_unlocked h (quiet (set_sample place s m))
      ≡ (ok claimed_read, quiet (set_sample place (reading h s) (with_cursor s.sample_sequence m)))
  unfolding claim_latest_unlocked rounds_with read_rounds read_round read claim_slot set_sample
  claim_latest-ok = rw (sample_stride-eq h.payload_size size) (
      bind_ok _ _ (load-quiet (λ n. n.latest_ticket) (set_sample place s m)) (
        bind_ok _ _ refl (
          if_no _ _ is_new (
            rw (slot_of_ticket, slot_byte_offset-eq h.payload_size i size v.in_channel)
              (bind_ok _ _ slot_claim_readable-quiet (read_claimed_slot-quiet _))))))
