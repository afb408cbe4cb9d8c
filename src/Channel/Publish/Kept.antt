-- ===== src/Channel/Publish/Kept.antt =====
-- The slot that publishing chooses, and the latest sample (src/edge_runtime/channel/producer_impl.cpp).
use edge_runtime.Common.{
  ℕ, zero, suc, ◌+◌, ◌<◌, ◌≡◌, sym, ◌∙◌, ◌≢◌, Option, none, some, List, arith,
}
use edge_runtime.Channel.Layout.{slot_count, ticket_slot, sample_stride, slot_byte_offset}
use edge_runtime.Channel.Layout.Tickets.{IsSampleSize, sample_stride_of, sample_place}
use edge_runtime.Channel.Publish.{SlotPlace, try_slot, try_place, choose_from, choose_slot}
use edge_runtime.Channel.Publish.Latest.{KeepsSamples, IsKept, IsKept-IsStable, load-Keeps}
use edge_runtime.Channel.Publish.Spare.{choose_slot-spares_latest}
use edge_runtime.Channel.Slot.{slot_claim_writable}
use edge_runtime.Channel.State.{Sample, ChannelMemory, Endpoint, set_sample, store_slot, load_slot}
use edge_runtime.Mpmc.Laps.{offset_distinct}
use edge_runtime.Shared.{Action}
use edge_runtime.Shared.Keeps.{
  IsStable, Ensures, Keeps, store-Ensures, cas-Keeps, bind-Ensures, pure-Ensures, fail-Ensures,
  if-Ensures, fact-Ensures,
}

sample_place-ne :
    (payload_size i j : ℕ) → i ≢ j → sample_place payload_size i ≢ sample_place payload_size j
sample_place-ne payload_size i j n e =
    offset_distinct (sample_stride_of payload_size) i j (omega arith) n (omega arith)

-- The slot of a ticket
abbrev pub place_of_ticket : Endpoint → ℕ → ℕ
place_of_ticket h ticket = sample_place h.payload_size (ticket_slot ticket)

module _ (h : Endpoint) (t : ℕ) (c : ℕ × ℕ × ℕ × ℕ × List ℕ) where
  abbrev pub Kept : ChannelMemory → Type 0
  Kept = IsKept (place_of_ticket h t) c t

  pub stable : IsStable KeepsSamples Kept
  stable = IsKept-IsStable (place_of_ticket h t) c t

  -- A place that the latest sample does not have
  pub record IsAway (place : SlotPlace) : Type 0 where
    pub other_slot : place.1 ≢ ticket_slot t
    pub in_channel : place.1 < slot_count
    pub at_slot : place.0 ≡ sample_place h.payload_size place.1

  pub store_slot-Keeps :
      (place : SlotPlace) (change : Sample → Sample)
      → IsAway place
      → Keeps KeepsSamples Kept (store_slot place.0 change)
  unfolding store_slot set_sample
  store_slot-Keeps place change a =
      let apart : place_of_ticket h t ≢ place.0 = λ e.
        sample_place-ne h.payload_size (ticket_slot t) place.1 (λ same. a.other_slot (sym same))
          (e ∙ a.at_slot) in
      store-Ensures stable _ (λ m i. record {
        same_ticket = i.same_ticket;
        same_content = ground (arith, apart, i.same_content);
      })

  slot_claim_writable-Keeps :
      (offset seen_state : ℕ) → Keeps KeepsSamples Kept (slot_claim_writable offset seen_state)
  unfolding slot_claim_writable set_sample
  slot_claim_writable-Keeps offset seen_state =
      cas-Keeps stable _ _ _ (λ m i. record {
        same_ticket = i.same_ticket;
        same_content = ground (arith, i.same_content);
      })

  try_place-Keeps :
      (i : ℕ) (rest : Action ChannelMemory SlotPlace) (o : Option ℕ)
      → Keeps KeepsSamples Kept rest
      → Keeps KeepsSamples Kept (try_place i rest o)
  unfolding try_place try_slot load_slot
  try_place-Keeps i rest none p = p
  try_place-Keeps i rest (some offset) p = bind-Ensures _ _ (load-Keeps stable _) (λ seen_state.
      if-Ensures _ p (
        bind-Ensures _ _ (slot_claim_writable-Keeps offset seen_state)
          (λ claimed. if-Ensures _ (pure-Ensures _ (λ m i. i)) p)))

  choose_from-Keeps :
      (n i current_slot stride : ℕ) → Keeps KeepsSamples Kept (choose_from n i current_slot stride)
  unfolding choose_from
  choose_from-Keeps zero i current_slot stride = fail-Ensures _ (λ m i. i)
  choose_from-Keeps (suc n) i current_slot stride =
      let rest = choose_from-Keeps n (i + 1) current_slot stride in
      if-Ensures _ rest (try_place-Keeps i _ (slot_byte_offset i stride) rest)

  choose_slot-Keeps :
      (stride : Option ℕ) (current : ℕ) → Keeps KeepsSamples Kept (choose_slot stride current)
  unfolding choose_slot
  choose_slot-Keeps none current = fail-Ensures _ (λ m i. i)
  choose_slot-Keeps (some stride) current = choose_from-Keeps slot_count 0 _ stride

  module _ (size : IsSampleSize h.payload_size) (published : 0 < t) where
    -- The place that the search finds is not the latest sample's.
    pub choose_slot-IsAway :
        Ensures KeepsSamples Kept
          (λ place m. Kept m × IsAway place)
          Kept
          (choose_slot (sample_stride h.payload_size) t)
    choose_slot-IsAway =
        fact-Ensures _ (choose_slot-Keeps (sample_stride h.payload_size) t) (λ w w' place e.
          let (n, l, p) = choose_slot-spares_latest h.payload_size t w w' place size published e in
          record { other_slot = n; in_channel = l; at_slot = p })
