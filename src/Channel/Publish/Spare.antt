-- ===== src/Channel/Publish/Spare.antt =====
-- Which slots a producer writes (src/edge_runtime/channel/producer_impl.cpp).
use edge_runtime.Common.{
  ◌==◌, if◌then◌else◌, Bool-cases, ℕ, zero, suc, ◌+◌, ◌<◌, ◌≡◌, refl, sym, ◌≢◌, ◌⊎◌, inl, inr, Bool,
  true, false, not, ◌||◌, Option, none, some, arith,
}
use edge_runtime.Channel.Layout.{slot_count, ticket_slot, sample_stride, slot_byte_offset}
use edge_runtime.Channel.Layout.Tickets.{
  IsSampleSize, sample_stride_of, sample_place, sample_stride-eq, slot_byte_offset-eq,
  slot_byte_offset-lt,
}
use edge_runtime.Channel.Publish.{
  SlotPlace, try_slot, try_place, choose_from, current_slot_of, choose_slot,
}
use edge_runtime.Channel.Slot.{slot_claim_writable}
use edge_runtime.Channel.State.{sample_free, sample_published, ChannelMemory, load_slot}
use edge_runtime.Error.{ErrorCode}
use edge_runtime.Owner.Quiet.{observed}
use edge_runtime.Shared.{ok, World, Action, pure, ◌>>=◌}
use edge_runtime.Shared.Laws.{>>=-eq-ok, fail-ne-ok, pure-eq-ok}

-- A place that is not the current slot's
pub record IsSpare (current_slot stride : ℕ) (place : SlotPlace) : Type 0 where
  pub not_current : place.1 ≢ current_slot
  pub placed : slot_byte_offset place.1 stride ≡ some place.0

try_slot-eq-ok :
    (offset i : ℕ) (rest : Action ChannelMemory SlotPlace) (w w' : World ChannelMemory)
    (place : SlotPlace)
    → try_slot offset i rest w ≡ (ok place, w')
    → (place ≡ (offset, i)) ⊎ ((u : World ChannelMemory) × (rest u ≡ (ok place, w')))
unfolding try_slot
try_slot-eq-ok offset i rest w w' place e =
    let (observed, u, _, f) = >>=-eq-ok (load_slot offset (λ s. s.state)) _ e in
    observed_slot observed u f
  where
    claimed_slot :
        (claimed : Bool) (u : World ChannelMemory)
        → (if claimed then pure (offset, i) else rest) u ≡ (ok place, w')
        → (place ≡ (offset, i)) ⊎ ((u : World ChannelMemory) × (rest u ≡ (ok place, w')))
    claimed_slot true u f = inl (sym (pure-eq-ok u f))
    claimed_slot false u f = inr (u, f)

    observed_slot :
        (observed : ℕ) (u : World ChannelMemory)
        → (if not (observed == sample_free || observed == sample_published) then rest else do
          claimed ← slot_claim_writable offset observed
          if claimed then pure (offset, i) else rest)
            u
          ≡ (ok place, w')
        → (place ≡ (offset, i)) ⊎ ((u : World ChannelMemory) × (rest u ≡ (ok place, w')))
    observed_slot observed u f =
        elim (Bool-cases (not (observed == sample_free || observed == sample_published))) [
          | inl busy ↦ inr (u, rw busy at f)
          | inr idle ↦
              let (claimed, v, _, g) =
                >>=-eq-ok (slot_claim_writable offset observed) _ (rw idle at f) in
              claimed_slot claimed v g
        ]

placed_slot :
    (i current_slot stride : ℕ) (o : Option ℕ) (rest : Action ChannelMemory SlotPlace)
    (w w' : World ChannelMemory) (place : SlotPlace)
    → i ≢ current_slot
    → slot_byte_offset i stride ≡ o
    → ((u : World ChannelMemory) → rest u ≡ (ok place, w') → IsSpare current_slot stride place)
    → try_place i rest o w ≡ (ok place, w')
    → IsSpare current_slot stride place
unfolding try_place
placed_slot i current_slot stride none rest w w' place n e further f = further w f
placed_slot i current_slot stride (some offset) rest w w' place n e further f =
    elim (try_slot-eq-ok offset i rest w w' place f) [
      | inl here ↦ rw here (record { not_current = n; placed = e })
      | inr (u, g) ↦ further u g
    ]

-- The slot that a producer chooses is not the current one, whatever others do.
choose_from-IsSpare :
    (n i current_slot stride : ℕ) (w w' : World ChannelMemory) (place : SlotPlace)
    → choose_from n i current_slot stride w ≡ (ok place, w')
    → IsSpare current_slot stride place
unfolding choose_from
choose_from-IsSpare zero i current_slot stride w w' place e =
    absurd (fail-ne-ok ErrorCode.no_writable_slot w e)
choose_from-IsSpare (suc n) i current_slot stride w w' place e =
    elim (Bool-cases (i == current_slot)) [
      | inl here ↦ choose_from-IsSpare n (i + 1) current_slot stride w w' place (rw here at e)
      | inr away ↦
          placed_slot i current_slot stride (slot_byte_offset i stride)
            (choose_from n (i + 1) current_slot stride) w w' place (ground (arith, away)) refl
            (λ u. choose_from-IsSpare n (i + 1) current_slot stride u w' place) (rw away at e)
    ]

-- Whatever others do, the slot that the search finds lies in the channel, and is not the one that the
-- given ticket names.
pub choose_slot-spares_latest :
    (payload_size current : ℕ) (w w' : World ChannelMemory) (place : SlotPlace)
    → IsSampleSize payload_size
    → 0 < current
    → choose_slot (sample_stride payload_size) current w ≡ (ok place, w')
    → (place.1 ≢ ticket_slot current)
      × (place.1 < slot_count)
      × (place.0 ≡ sample_place payload_size place.1)
unfolding choose_slot current_slot_of
choose_slot-spares_latest payload_size current w w' place s p e =
    let spare =
      choose_from-IsSpare slot_count 0 (current_slot_of current) (sample_stride_of payload_size) w
        w' place (rw (sample_stride-eq payload_size s) at e) in
    let inside = slot_byte_offset-lt place.1 (sample_stride_of payload_size) spare.placed in
    (
      ground (arith, spare.not_current),
      inside,
      ground (arith, spare.placed, slot_byte_offset-eq payload_size place.1 s inside),
    )
