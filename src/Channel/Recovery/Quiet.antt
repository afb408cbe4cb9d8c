-- ===== src/Channel/Recovery/Quiet.antt =====
-- Taking back the slots of a dead consumer when nobody interferes
-- (src/edge_runtime/channel/consumer_impl.cpp).
use edge_runtime.Common.{
  ◌==◌, if◌then◌else◌, eq→==, ℕ, zero, suc, ◌+◌, ◌*◌, ◌≤◌, ◌<◌, ◌≡◌, refl, sym, ap, ◌∙◌, subst, ◌≢◌,
  ◌⊎◌, inl, inr, Bool, true, false, ◌||◌, some, arith,
}
use edge_runtime.Channel.Delivery.{released}
use edge_runtime.Channel.Layout.{slot_count}
use edge_runtime.Channel.Layout.Tickets.{
  IsSampleSize, sample_stride_of, sample_place, sample_stride-eq, slot_byte_offset-eq,
}
use edge_runtime.Channel.Quiet.{slot_part}
use edge_runtime.Channel.Recovery.{
  reclaim_claiming, reclaim_reading, reclaim_slot, reclaim_from, reclaim_with,
  reclaim_dead_consumer_slots,
}
use edge_runtime.Channel.Slot.{slot_release_read}
use edge_runtime.Channel.State.{
  sample_published, sample_reading_claiming, sample_reading, Sample, ChannelMemory, set_sample,
  store_slot, load_slot,
}
use edge_runtime.Owner.Part.{store-part}
use edge_runtime.Shared.{ok, quiet, pure}
use edge_runtime.Shared.Laws.{bind_ok, then_ok, if_yes, if_no, load-quiet, store-quiet, require-ok}
use native.Mathlib.Decide.{ℕ_discrete}
use native.Mathlib.Nat.{mul-le-mul_right}

abbrev pub is_read : Sample → Bool
is_read s = s.state == sample_reading_claiming || s.state == sample_reading

-- The slot after the recovery: published again if it was being read
abbrev pub recovered : Sample → Sample
recovered s = if is_read s then released s else s

-- A slot that is not being read, or is read by the dead consumer, whose claim may not bear its epoch
-- yet
abbrev pub IsLeft : ℕ → Sample → Type 0
IsLeft old_role_epoch s =
    (is_read s ≡ false)
    ⊎ ((s.state ≡ sample_reading_claiming)
        × ((s.reader_role_epoch ≡ 0) ⊎ (s.reader_role_epoch ≡ old_role_epoch)))
    ⊎ ((s.state ≡ sample_reading) × (s.reader_role_epoch ≡ old_role_epoch))

slot_release_read-quiet :
    (offset : ℕ) (m : ChannelMemory)
    → slot_release_read offset (quiet m)
      ≡ (ok tt, quiet (set_sample offset (released (m.slots offset)) m))
unfolding slot_release_read store_slot
slot_release_read-quiet offset m =
    then_ok _ _
      (store-quiet (λ n. set_sample offset (record (n.slots offset) { reader_role_epoch = 0 }) n) m)
      (store-part (slot_part offset) (λ x. record x { state = sample_published })
        (record (m.slots offset) { reader_role_epoch = 0 }) m)

-- What the recovery of one slot does to the memory
record IsRecovery (offset : ℕ) (m n : ChannelMemory) : Type 0 where
  back : n.slots offset ≡ recovered (m.slots offset)
  others : (k : ℕ) → k ≢ offset → n.slots k ≡ m.slots k
  same_ticket : n.latest_ticket ≡ m.latest_ticket

module _ (old_role_epoch offset : ℕ) (m : ChannelMemory) where
  abbrev slot : Sample
  slot = m.slots offset

  abbrev given_back : ChannelMemory
  given_back = set_sample offset (released slot) m

  -- The slot's recovery ends, and leaves this memory.
  abbrev Recovers : ChannelMemory → Type 0
  Recovers n =
      (reclaim_slot old_role_epoch (some offset) (quiet m) ≡ (ok tt, quiet n))
      × IsRecovery offset m n

  given_back-IsRecovery : is_read slot ≡ true → IsRecovery offset m given_back
  unfolding set_sample
  given_back-IsRecovery r = record {
    back = rw r (ground arith);
    others = λ k n. ground (arith, n);
    same_ticket = refl;
  }

  kept-IsRecovery : is_read slot ≡ false → IsRecovery offset m m
  kept-IsRecovery r = record { back = rw r refl; others = λ k n. refl; same_ticket = refl }

  reclaim_claiming-quiet :
      (slot.reader_role_epoch ≡ 0) ⊎ (slot.reader_role_epoch ≡ old_role_epoch)
      → reclaim_claiming old_role_epoch offset (quiet m) ≡ (ok tt, quiet given_back)
  unfolding reclaim_claiming load_slot
  reclaim_claiming-quiet marked =
      bind_ok _ _ (load-quiet (λ n. (n.slots offset).reader_role_epoch) m)
        (then_ok _ _ (require-ok _ _ (ground (arith, marked))) (slot_release_read-quiet offset m))

  reclaim_reading-quiet :
      slot.reader_role_epoch ≡ old_role_epoch
      → reclaim_reading old_role_epoch offset (quiet m) ≡ (ok tt, quiet given_back)
  unfolding reclaim_reading load_slot
  reclaim_reading-quiet marked =
      bind_ok _ _ (load-quiet (λ n. (n.slots offset).reader_role_epoch) m)
        (then_ok _ _ (require-ok _ _ (eq→== _ _ marked)) (slot_release_read-quiet offset m))

  reclaim_slot-quiet : IsLeft old_role_epoch slot → (n : ChannelMemory) × Recovers n
  unfolding reclaim_slot load_slot pure
  reclaim_slot-quiet left = elim left [
    | inl other ↦
        let done =
          bind_ok _ _ (load-quiet (λ n. (n.slots offset).state) m)
            (if_no _ _ (not_claiming other) (if_no _ _ (not_reading other) refl)) in
        (m, (done, kept-IsRecovery other))
    | inr (inl (claiming, marked)) ↦
        let done =
          bind_ok _ _ (load-quiet (λ n. (n.slots offset).state) m)
            (if_yes _ _ (eq→== _ _ claiming) (reclaim_claiming-quiet marked)) in
        (given_back, (done, given_back-IsRecovery (rw claiming refl)))
    | inr (inr (held, marked)) ↦
        let done = bind_ok _ _ (load-quiet (λ n. (n.slots offset).state) m) (
          if_no _ _ (reading_only held)
            (if_yes _ _ (eq→== _ _ held) (reclaim_reading-quiet marked))) in
        (given_back, (done, given_back-IsRecovery (rw held refl)))
  ]
    where
      not_claiming : is_read slot ≡ false → (slot.state == sample_reading_claiming) ≡ false
      not_claiming e = ground (arith, e)

      not_reading : is_read slot ≡ false → (slot.state == sample_reading) ≡ false
      not_reading e = ground (arith, e)

      reading_only : slot.state ≡ sample_reading → (slot.state == sample_reading_claiming) ≡ false
      reading_only e = rw e refl

multiples_apart : (s i j : ℕ) → 0 < s → i ≢ j → i * s ≢ j * s
multiples_apart s i j p n e =
    ground
      (arith, p, n, e, λ (h : i < j). mul-le-mul_right s h, λ (h : j < i). mul-le-mul_right s h)

module _ (old_role_epoch payload_size : ℕ) (size : IsSampleSize payload_size) where
  -- From one slot on, every slot is given back, and the earlier ones stay as they are.
  record IsRecoveredFrom (i : ℕ) (m n : ChannelMemory) : Type 0 where
    back :
        (k : ℕ)
        → i ≤ k
        → k < slot_count
        → n.slots (sample_place payload_size k) ≡ recovered (m.slots (sample_place payload_size k))
    others :
        (k : ℕ)
        → k < i
        → n.slots (sample_place payload_size k) ≡ m.slots (sample_place payload_size k)
    same_ticket : n.latest_ticket ≡ m.latest_ticket

  places_apart : (i j : ℕ) → i ≢ j → sample_place payload_size i ≢ sample_place payload_size j
  places_apart i j n e =
      multiples_apart (sample_stride_of payload_size) i j (omega arith) n (omega (arith, e))

  reclaim_from-quiet :
      (n i : ℕ) (m : ChannelMemory)
      → i + n ≡ slot_count
      → ((k : ℕ)
          → i ≤ k
          → k < slot_count
          → IsLeft old_role_epoch (m.slots (sample_place payload_size k)))
      → (m' : ChannelMemory) × (reclaim_from n i old_role_epoch
            (sample_stride_of payload_size)
            (quiet m)
          ≡ (ok tt, quiet m'))
        × IsRecoveredFrom i m m'
  unfolding reclaim_from pure
  reclaim_from-quiet zero i m e left = (
    m,
    refl,
    record { back = λ k l u. absurd (omega arith); others = λ k l. refl; same_ticket = refl },
  )
  reclaim_from-quiet (suc n) i m e left =
      let (m1, (a, r)) =
        reclaim_slot-quiet old_role_epoch (sample_place payload_size i) m
          (left i (omega arith) (omega arith)) in
      let apart =
        λ (k : ℕ) (d : k ≢ i). r.others (sample_place payload_size k) (places_apart k i d) in
      let (m2, b, t) = reclaim_from-quiet n (i + 1) m1 (omega arith) (λ k l u.
        subst (λ x. IsLeft old_role_epoch x) (sym (apart k (omega (arith, l))))
          (left k (omega (arith, l)) u)) in
      (
        m2,
        rw (slot_byte_offset-eq payload_size i size (omega arith)) (then_ok _ _ a b),
        record {
          back = λ k l u. elim (ℕ_discrete k i) [
            | yes here ↦
                subst
                  (λ x.
                    m2.slots (sample_place payload_size x)
                    ≡ recovered (m.slots (sample_place payload_size x)))
                  (sym here) (t.others i (omega arith) ∙ r.back)
            | no away ↦ t.back k (omega (arith, l, away)) u ∙ ap recovered (apart k away)
          ];
          others = λ k l. t.others k (omega (arith, l)) ∙ apart k (omega (arith, l));
          same_ticket = t.same_ticket ∙ r.same_ticket;
        },
      )

  -- If every slot that is being read was left by the consumer with the old epoch, the recovery gives
  -- back these slots, with their samples, and leaves the others and the latest ticket as they are.
  pub reclaim_dead_consumer_slots-gives_back :
      (m : ChannelMemory)
      → ((k : ℕ) → k < slot_count → IsLeft old_role_epoch (m.slots (sample_place payload_size k)))
      → (m' : ChannelMemory) × (reclaim_dead_consumer_slots old_role_epoch payload_size (quiet m)
          ≡ (ok tt, quiet m'))
        × ((k : ℕ)
            → k < slot_count
            → m'.slots (sample_place payload_size k)
              ≡ recovered (m.slots (sample_place payload_size k)))
        × (m'.latest_ticket ≡ m.latest_ticket)
  unfolding reclaim_dead_consumer_slots reclaim_with
  reclaim_dead_consumer_slots-gives_back m left =
      let (m', e, r) = reclaim_from-quiet slot_count 0 m (omega arith) (λ k l. left k) in
      (
        m',
        rw (sample_stride-eq payload_size size) e,
        λ k l. r.back k (omega arith) l,
        r.same_ticket,
      )
