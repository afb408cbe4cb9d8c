-- ===== src/Channel/Delivery.antt =====
-- A sample on its way from the producer to the consumer (src/edge_runtime/channel/).
use edge_runtime.Common.{
  ltb, eq→==, length, ℕ, ◌≤◌, ◌<◌, ◌≡◌, refl, sym, ap, ◌∙◌, subst, true, false, List, arith,
}
use edge_runtime.Channel.Identity.{Role, producer_role, consumer_role}
use edge_runtime.Channel.Layout.{slot_count, max_sample_sequence, make_ticket, ticket_sequence}
use edge_runtime.Channel.Layout.Tickets.{IsSampleSize, sample_place}
use edge_runtime.Channel.Publish.{same_instance, current_slot_of, publish_sample}
use edge_runtime.Channel.Publish.Quiet.{IsFreeSlot}
use edge_runtime.Channel.Publish.Success.{
  next_of, new_sample, with_ticket, published_memory, publish_verified-ok,
}
use edge_runtime.Channel.Quiet.{
  store_slot-part, load_slot-part, IsProducer, verify_handle_ownership-ok,
}
use edge_runtime.Channel.Read.{
  ReadSnapshot, missed_samples_of, copy_out, try_read_latest_unlocked, try_read_latest,
}
use edge_runtime.Channel.Read.Quiet.{IsNews, reading, with_cursor, snapshot_of, claim_latest-ok}
use edge_runtime.Channel.Slot.{slot_release_read}
use edge_runtime.Channel.State.{sample_published, Sample, ChannelMemory, Endpoint, set_sample}
use edge_runtime.Channel.Use.{flags_of, set_flags, begin_use, end_use, and_finally, guarded}
use edge_runtime.Shared.{ok, quiet, Action, pure, ◌>>=◌, shared_store}
use edge_runtime.Shared.Laws.{bind_ok, then_ok, if_no, require-ok}

-- The handle of a role while an operation runs on it, and after that
abbrev pub in_use : Role → ChannelMemory → ChannelMemory
in_use r m = set_flags r (record (flags_of r m) { operation_in_use = true }) m

abbrev pub given_up : Role → ChannelMemory → ChannelMemory
given_up r m = set_flags r (record (flags_of r m) { operation_in_use = false }) m

guarded-ok :
    {A : Type 0} (r : Role) (operation : Action ChannelMemory A) (m : ChannelMemory) {a : A}
    {m' : ChannelMemory}
    → (flags_of r m).operation_in_use ≡ false
    → operation (quiet (in_use r m)) ≡ (ok a, quiet m')
    → guarded r operation (quiet m) ≡ (ok a, quiet (given_up r m'))
unfolding guarded begin_use end_use and_finally shared_store ◌>>=◌
guarded-ok r operation m free e = rw (free, e) refl

-- The slot after it was read
abbrev pub released : Sample → Sample
released s = record s { reader_role_epoch = 0; state = sample_published }

try_read_latest_unlocked-ok :
    (h : Endpoint) (encoded_cap i : ℕ) (s : Sample) (m : ChannelMemory)
    (size : IsSampleSize h.payload_size)
    → IsNews h i s m
    → s.payload_size ≤ encoded_cap
    → try_read_latest_unlocked h encoded_cap
        (quiet (set_sample (sample_place h.payload_size i) s m))
      ≡ (
        ok (s.payload, snapshot_of h s m),
        quiet (
            set_sample
              (sample_place h.payload_size i)
              (released s)
              (with_cursor s.sample_sequence m)),
      )
unfolding try_read_latest_unlocked copy_out slot_release_read pure
try_read_latest_unlocked-ok h encoded_cap i s m size v l =
    let place = sample_place h.payload_size i in
    let n = with_cursor s.sample_sequence m in
    bind_ok _ _ (claim_latest-ok h i s m size v) (
      if_no _ _ (room encoded_cap s.payload_size l) (
        bind_ok _ _ (load_slot-part place (λ x. x.payload) (reading h s) n) (
          then_ok _ _
            (then_ok _ _
              (store_slot-part place (λ x. record x { reader_role_epoch = 0 }) (reading h s) n)
              (store_slot-part place (λ x. record x { state = sample_published }) _ n))
            refl)))
  where
    room : (a b : ℕ) → b ≤ a → ltb a b ≡ false
    room a b l = ground (arith, l)

module _ (h : Endpoint) (m : ChannelMemory) (encoded : List ℕ) (size : IsSampleSize h.payload_size)
    (fits : length encoded ≡ h.payload_size) (v : IsProducer h m)
    (idle : m.producer_flags.operation_in_use ≡ false)
    (last : ticket_sequence m.latest_ticket < max_sample_sequence) (clock : 0 < m.boottime) where
  in_use-IsProducer : IsProducer h (in_use producer_role m)
  unfolding same_instance
  in_use-IsProducer = record {
    boot_ready = v.boot_ready;
    ready = v.ready;
    instance_kept = v.instance_kept;
    even = v.even;
    role_kept = v.role_kept;
    online = v.online;
  }

  pub publish_sample-ok :
      (j : ℕ)
      → IsFreeSlot h m size (current_slot_of m.latest_ticket) j
      → (k : ℕ) × IsFreeSlot h m size (current_slot_of m.latest_ticket) k
        × (publish_sample h encoded (quiet m) ≡ (
          ok (record {
            generation = h.generation;
            sequence = next_of m;
            publish_boot_ns = m.boottime;
          }),
          quiet (
              given_up producer_role (
                published_memory
                  (sample_place h.payload_size k)
                  k
                  encoded
                  (in_use producer_role m))),
        ))
  unfolding publish_sample
  publish_sample-ok j f =
      let (k, g, e) =
        publish_verified-ok h (in_use producer_role m) encoded size last clock j
          (record { in_channel = f.in_channel; not_current = f.not_current; idle = f.idle }) in
      (
        k,
        record { in_channel = g.in_channel; not_current = g.not_current; idle = g.idle },
        guarded-ok producer_role _ m idle (
            then_ok _ _ (require-ok _ _ (eq→== _ _ fits)) (
              then_ok _ _ (verify_handle_ownership-ok h (in_use producer_role m) in_use-IsProducer)
                e)),
      )

  module _ (consumer : Endpoint) (encoded_cap : ℕ) (same : consumer.payload_size ≡ h.payload_size)
      (room : h.payload_size ≤ encoded_cap)
      (consumer_idle : m.consumer_flags.operation_in_use ≡ false)
      (behind : m.last_sequence ≤ ticket_sequence m.latest_ticket) where
    -- The report on the sample
    abbrev pub delivered : ReadSnapshot
    delivered = record {
      encoded_size = length encoded;
      sample_sequence = next_of m;
      publish_boot_ns = m.boottime;
      receive_boot_ns = m.boottime;
      generation = consumer.generation;
      missed_samples = missed_samples_of (next_of m) m;
    }

    -- The channel when the consumer looks at the new sample, but for the sample's slot
    abbrev published_header : ℕ → ChannelMemory
    published_header k =
        in_use consumer_role (
          given_up producer_role (with_ticket (make_ticket (next_of m) k) (in_use producer_role m)))

    published-IsNews :
        (k : ℕ)
        → k < slot_count
        → IsNews consumer k
            (new_sample (next_of m) m.boottime encoded (m.slots (sample_place h.payload_size k)))
            (published_header k)
    published-IsNews k l = record {
      in_channel = l;
      latest = refl;
      some_sequence = omega arith;
      sequence_fits = omega (arith, last);
      unseen = omega (arith, behind);
      published = refl;
      same_size = fits ∙ sym same;
      intact = refl;
      clock = clock;
    }

    -- The slot that the new sample gets
    abbrev published_sample : ℕ → Sample
    published_sample k =
        new_sample (next_of m) m.boottime encoded (m.slots (sample_place h.payload_size k))

    read_published :
        (k : ℕ)
        → k < slot_count
        → try_read_latest_unlocked consumer encoded_cap (
            quiet (
              set_sample (sample_place h.payload_size k) (published_sample k) (published_header k)))
          ≡ (
            ok (encoded, delivered),
            quiet (
                set_sample
                  (sample_place h.payload_size k)
                  (released (published_sample k))
                  (with_cursor (next_of m) (published_header k))),
          )
    unfolding missed_samples_of
    read_published k l =
        subst
          (λ (place : ℕ).
            try_read_latest_unlocked consumer encoded_cap
              (quiet (set_sample place (published_sample k) (published_header k)))
            ≡ (
              ok (encoded, delivered),
              quiet (
                  set_sample place (released (published_sample k))
                    (with_cursor (next_of m) (published_header k))),
            ))
          (ap (λ (n : ℕ). sample_place n k) same)
          (try_read_latest_unlocked-ok consumer encoded_cap k (published_sample k)
            (published_header k) (rw same size) (published-IsNews k l) (rw fits room))

    -- A sample that is published is the next one that the consumer reads: with its payload unchanged,
    -- under the sequence number after the latest one, and with the count of samples that the consumer
    -- missed. This holds for channels in order that nobody interferes with, if a slot besides the
    -- current one is idle.
    pub publish-then-read :
        (j : ℕ)
        → IsFreeSlot h m size (current_slot_of m.latest_ticket) j
        → ((publish_sample h encoded >>= λ info. try_read_latest consumer encoded_cap) (quiet m)).0
          ≡ ok (encoded, delivered)
    unfolding try_read_latest set_sample
    publish-then-read j f =
        let (k, g, e) = publish_sample-ok j f in
        ap (λ r. r.0)
          (bind_ok _ _ e (
            guarded-ok consumer_role (try_read_latest_unlocked consumer encoded_cap)
              (given_up producer_role (
                published_memory (sample_place h.payload_size k) k encoded
                  (in_use producer_role m)))
              consumer_idle (read_published k g.in_channel)))
