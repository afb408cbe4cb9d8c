-- ===== src/Channel/Publish/Quiet.antt =====
-- Publishing a sample when nobody interferes (src/edge_runtime/channel/producer_impl.cpp).
use edge_runtime.Common.{
  ◌==◌, eq→==, ℕ, zero, suc, ◌+◌, ◌≤◌, ◌<◌, ◌≡◌, sym, ◌∙◌, subst, ◌≢◌, ◌⊎◌, inl, inr, false, arith,
}
use edge_runtime.Channel.Layout.{slot_count}
use edge_runtime.Channel.Layout.Tickets.{
  IsSampleSize, sample_stride_of, sample_place, slot_byte_offset-eq,
}
use edge_runtime.Channel.Publish.{SlotPlace, try_slot, try_place, choose_from}
use edge_runtime.Channel.Slot.{slot_claim_writable}
use edge_runtime.Channel.State.{
  sample_free, sample_writing, sample_published, Sample, ChannelMemory, Endpoint, set_sample,
  load_slot,
}
use edge_runtime.Shared.{Result, ok, World, quiet, Action, pure, ◌>>=◌, shared_load, shared_cas}
use edge_runtime.Shared.Laws.{if_yes, if_no}
use native.Mathlib.Decide.{ℕ_discrete}

-- A slot that a producer may take
abbrev pub IsIdle : Sample → Type 0
IsIdle s = (s.state ≡ sample_free) ⊎ (s.state ≡ sample_published)

abbrev pub writing : Sample → Sample
writing s = record s { state = sample_writing }

different : (i j : ℕ) → i ≢ j → (i == j) ≡ false
different i j n = ground (arith, n)

module _ (h : Endpoint) (m : ChannelMemory) (size : IsSampleSize h.payload_size) where
  abbrev place_of : ℕ → ℕ
  place_of i = sample_place h.payload_size i

  try_slot-idle :
      (i : ℕ) (rest : Action ChannelMemory SlotPlace)
      → IsIdle (m.slots (place_of i))
      → try_slot (place_of i) i rest (quiet m)
        ≡ (ok (place_of i, i), quiet (set_sample (place_of i) (writing (m.slots (place_of i))) m))
  unfolding try_slot load_slot slot_claim_writable shared_load shared_cas pure ◌>>=◌
  try_slot-idle i rest idle = ground (arith, idle)

  try_slot-busy :
      (i : ℕ) (rest : Action ChannelMemory SlotPlace)
      → ¬ IsIdle (m.slots (place_of i))
      → try_slot (place_of i) i rest (quiet m) ≡ rest (quiet m)
  unfolding try_slot load_slot shared_load ◌>>=◌
  try_slot-busy i rest busy = ground (arith, busy)

  -- An idle slot that the search may take
  pub record IsFreeSlot (current_slot i : ℕ) : Type 0 where
    pub in_channel : i < slot_count
    pub not_current : i ≢ current_slot
    pub idle : IsIdle (m.slots (place_of i))

  -- What the search leaves when it takes a slot
  pub record IsChoice (current_slot i : ℕ) (r : Result SlotPlace × World ChannelMemory)
      : Type 0 where
    pub taken : IsFreeSlot current_slot i
    pub chosen :
        r ≡ (ok (place_of i, i), quiet (set_sample (place_of i) (writing (m.slots (place_of i))) m))

  IsIdle-dec : (s : Sample) → Dec (IsIdle s)
  IsIdle-dec s = elim (ℕ_discrete s.state sample_free) [
    | yes free ↦ yes (inl free)
    | no used ↦ elim (ℕ_discrete s.state sample_published) [
      | yes published ↦ yes (inr published)
      | no busy ↦ no (λ e. elim e [ inl f ↦ used f | inr p ↦ busy p ])
    ]
  ]

  pub choose_from-free :
      (n i current_slot j : ℕ)
      → i + n ≡ slot_count
      → i ≤ j
      → IsFreeSlot current_slot j
      → (k : ℕ) × IsChoice current_slot k
          (choose_from n i current_slot (sample_stride_of h.payload_size) (quiet m))
  unfolding choose_from try_place
  choose_from-free zero i current_slot j e l f = absurd (omega (arith, f.in_channel))
  choose_from-free (suc n) i current_slot j e l f =
      let further = λ (d : i ≢ j).
        choose_from-free n (i + 1) current_slot j (omega arith) (omega (arith, d)) f in
      let rest = choose_from n (i + 1) current_slot (sample_stride_of h.payload_size) in
      let placed = slot_byte_offset-eq h.payload_size i size (omega arith) in
      elim (ℕ_discrete i current_slot) [
        | yes here ↦
            let (k, c) = further (λ same. f.not_current (sym same ∙ here)) in
            (
              k,
              record { taken = c.taken; chosen = if_yes _ _ (eq→== i current_slot here) c.chosen },
            )
        | no away ↦ elim (IsIdle-dec (m.slots (place_of i))) [
          | yes idle ↦ (
            i,
            record {
              taken = record { in_channel = omega arith; not_current = away; idle = idle };
              chosen =
                  if_no _ _ (different i current_slot away) (rw placed (try_slot-idle i rest idle));
            },
          )
          | no busy ↦
              let (k, c) =
                further
                  (λ same. busy (subst (λ x. IsIdle (m.slots (place_of x))) (sym same) f.idle)) in
              (
                k,
                record {
                  taken = c.taken;
                  chosen =
                      if_no _ _ (different i current_slot away)
                        (rw placed (try_slot-busy i rest busy ∙ c.chosen));
                },
              )
        ]
      ]
