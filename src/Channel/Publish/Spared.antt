-- ===== src/Channel/Publish/Spared.antt =====
-- Publishing never writes over the latest sample (src/edge_runtime/channel/producer_impl.cpp).
use edge_runtime.Common.{
  ℕ, ◌+◌, ◌≤◌, ◌<◌, ◌≡◌, refl, sym, ap, ◌∙◌, subst, ◌≢◌, Option, none, some, List, arith,
}
use edge_runtime.Channel.Identity.{producer_role}
use edge_runtime.Channel.Layout.{
  max_sample_sequence, make_ticket, ticket_slot, ticket_sequence, checked_next_sequence,
}
use edge_runtime.Channel.Layout.Tickets.{make_ticket-parts, IsSampleSize}
use edge_runtime.Channel.Publish.{
  SlotPlace, require_sequence, PublishInfo, notify_consumer, finish_publish, describe_sample,
  publish_verified, publish_sample,
}
use edge_runtime.Channel.Publish.Kept.{
  stable, place_of_ticket, Kept, IsAway, store_slot-Keeps, choose_slot-IsAway,
}
use edge_runtime.Channel.Publish.Latest.{
  content, KeepsSamples, IsKept, IsKept-IsStable, load-Keeps, verify_handle_ownership-Keeps,
  word-IsKept, notify_consumer-Ensures, and_finally-Ensures,
}
use edge_runtime.Channel.Slot.{slot_publish}
use edge_runtime.Channel.State.{ChannelMemory, Endpoint}
use edge_runtime.Channel.Use.{begin_use, end_use, guarded}
use edge_runtime.Shared.{Result, ok, err, World}
use edge_runtime.Shared.Keeps.{
  IsStable, Ends, Ensures, Keeps, tick_keeps, load-Ensures, store-Ensures, bind-Ensures,
  then-Ensures, pure-Ensures, fail-Ensures, if-Ensures, given-Ensures, require-Ensures,
}
use edge_runtime.Shared.Laws.{Rely}

-- A publication from the ticket `t`, where the slot of that ticket has the content `c`
module _ (h : Endpoint) (t : ℕ) (c : ℕ × ℕ × ℕ × ℕ × List ℕ) (size : IsSampleSize h.payload_size)
    (published : 0 < t) where
  -- What a publication leaves: the sample before, and a ticket of the next sequence in another slot
  record IsPublished (info : PublishInfo) (m : ChannelMemory) : Type 0 where
    kept_content : content (m.slots (place_of_ticket h t)) ≡ c
    moved : ticket_slot m.latest_ticket ≢ ticket_slot t
    counted : ticket_sequence m.latest_ticket ≡ ticket_sequence t + 1
    told : info.sequence ≡ ticket_sequence t + 1

  IsPublished-IsStable : {info : PublishInfo} → IsStable KeepsSamples (IsPublished info)
  IsPublished-IsStable = record {
    kept = λ m m' r i. record {
      kept_content = r.content_kept (place_of_ticket h t) ∙ i.kept_content;
      moved = λ same. i.moved (ap ticket_slot (sym r.ticket_kept) ∙ same);
      counted = ap ticket_sequence r.ticket_kept ∙ i.counted;
      told = i.told;
    };
  }

  finish_publish-IsPublished :
      (place : SlotPlace) (sequence boot_ns checksum : ℕ)
      → IsAway h t c place
      → checked_next_sequence t ≡ some sequence
      → Ensures KeepsSamples
          (Kept h t c)
          IsPublished
          (Kept h t c)
          (finish_publish h place sequence boot_ns checksum)
  unfolding finish_publish notify_consumer slot_publish checked_next_sequence
  finish_publish-IsPublished place sequence boot_ns checksum a e =
      let next : (sequence ≡ ticket_sequence t + 1) × (sequence ≤ max_sample_sequence) =
        ground arith in
      let (_, _, f, g) =
        make_ticket-parts sequence place.1 (omega (arith, next.0)) next.1
          (omega (arith, a.in_channel)) in
      let ticket = make_ticket sequence place.1 in
      let after = IsKept-IsStable (place_of_ticket h t) c ticket in
      then-Ensures _ _ (store_slot-Keeps h t c place _ a) (
        then-Ensures _ _ (store_slot-Keeps h t c place _ a) (
          then-Ensures {P = IsKept (place_of_ticket h t) c ticket} _ _
            (store-Ensures (stable h t c) _
              (λ m i. record { same_ticket = refl; same_content = i.same_content }))
            (then-Ensures _ _ (notify_consumer-Ensures (place_of_ticket h t) c ticket boot_ns) (
              pure-Ensures _ (λ m i. record {
                kept_content = i.same_content;
                moved = λ same. a.other_slot (sym g ∙ ap ticket_slot (sym i.same_ticket) ∙ same);
                counted = ap ticket_sequence i.same_ticket ∙ f ∙ next.0;
                told = next.0;
              })))))

  require_sequence-next :
      Ensures KeepsSamples
        (Kept h t c)
        (λ sequence m. Kept h t c m × (checked_next_sequence t ≡ some sequence))
        (Kept h t c)
        (require_sequence (checked_next_sequence t))
  unfolding require_sequence
  require_sequence-next = known (checked_next_sequence t) refl
    where
      known :
          (o : Option ℕ)
          → checked_next_sequence t ≡ o
          → Ensures KeepsSamples
              (Kept h t c)
              (λ sequence m. Kept h t c m × (checked_next_sequence t ≡ some sequence))
              (Kept h t c)
              (require_sequence o)
      known none e = fail-Ensures _ (λ m i. i)
      known (some sequence) e = pure-Ensures _ (λ m i. (i, e))

  publish_verified-IsPublished :
      (encoded : List ℕ)
      → Ensures KeepsSamples (Kept h t c) IsPublished (Kept h t c) (publish_verified h encoded)
  unfolding publish_verified describe_sample
  publish_verified-IsPublished encoded =
      bind-Ensures {P = λ current m. Kept h t c m × (t ≡ current)} _ _
        (load-Ensures (stable h t c) _ (λ m i. (i, sym i.same_ticket)))
        (λ current. given-Ensures _ (λ same. rw (← same) (
          bind-Ensures _ _ require_sequence-next (λ sequence. given-Ensures _ (λ next.
            bind-Ensures _ _ (load-Keeps (stable h t c) _) (λ boot_ns.
              then-Ensures _ _ (require-Ensures _ _ (λ m i. i)) (
                bind-Ensures _ _ (choose_slot-IsAway h t c size published) (λ place.
                  given-Ensures _ (λ away.
                    then-Ensures _ _
                      (then-Ensures _ _ (store_slot-Keeps h t c place _ away) (
                        then-Ensures _ _ (store_slot-Keeps h t c place _ away)
                          (store_slot-Keeps h t c place _ away)))
                      (then-Ensures _ _ (store_slot-Keeps h t c place _ away)
                        (finish_publish-IsPublished place sequence boot_ns _ away next)))))))))))

  -- The exchange of the flag, and its reset
  begin_use-Keeps : Keeps KeepsSamples (Kept h t c) (begin_use producer_role)
  unfolding begin_use
  begin_use-Keeps = record {
    ends = λ w i r.
        let (j, s) = tick_keeps (stable h t c) w i r in
        (record { same_ticket = j.same_ticket; same_content = j.same_content }, s);
  }

  publish_sample-IsPublished :
      (encoded : List ℕ)
      → Ensures KeepsSamples (Kept h t c) IsPublished (Kept h t c) (publish_sample h encoded)
  unfolding publish_sample guarded end_use
  publish_sample-IsPublished encoded = bind-Ensures _ _ begin_use-Keeps (λ busy.
      if-Ensures _ (fail-Ensures _ (λ m i. i)) (
        and_finally-Ensures _ _
          (then-Ensures _ _ (require-Ensures _ _ (λ m i. i)) (
            then-Ensures _ _ (verify_handle_ownership-Keeps (stable h t c) h)
              (publish_verified-IsPublished encoded)))
          (λ info. store-Ensures IsPublished-IsStable _ (λ m i. record {
            kept_content = i.kept_content;
            moved = i.moved;
            counted = i.counted;
            told = i.told;
          }))
          (word-IsKept _ _ _ _ (λ m. refl) (λ m. refl))))

-- What a publication that began at `m` leaves. The latest sample keeps its content; where the
-- publication succeeds, the latest ticket names another slot and the next sequence number, which is
-- reported, and otherwise the ticket stays.
abbrev pub IsSpared : Endpoint → ChannelMemory → Result PublishInfo → World ChannelMemory → Type 0
IsSpared h m (ok info) w =
    (content (w.mem.slots (place_of_ticket h m.latest_ticket))
      ≡ content (m.slots (place_of_ticket h m.latest_ticket)))
    × (ticket_slot w.mem.latest_ticket ≢ ticket_slot m.latest_ticket)
    × (ticket_sequence w.mem.latest_ticket ≡ ticket_sequence m.latest_ticket + 1)
    × (info.sequence ≡ ticket_sequence m.latest_ticket + 1)
IsSpared h m (err e) w =
    (content (w.mem.slots (place_of_ticket h m.latest_ticket))
      ≡ content (m.slots (place_of_ticket h m.latest_ticket)))
    × (w.mem.latest_ticket ≡ m.latest_ticket)

-- Publishing never writes over the latest sample, whatever others do between its accesses, as long as
-- they keep the latest ticket and what the producer wrote into the slots. At the end the slot of the
-- ticket from before has the size, the sequence number, the time, the checksum and the payload that it
-- had. After a success the latest ticket names another slot and the next sequence number, which is
-- the reported one; after an error the latest ticket is the one from before.
pub publish_sample-spares_latest :
    (h : Endpoint) (encoded : List ℕ) (w w' : World ChannelMemory) (r : Result PublishInfo)
    → IsSampleSize h.payload_size
    → 0 < w.mem.latest_ticket
    → Rely KeepsSamples w.env
    → publish_sample h encoded w ≡ (r, w')
    → IsSpared h w.mem r w'
publish_sample-spares_latest h encoded w w' r size published rely e =
    let t = w.mem.latest_ticket in
    let c = content (w.mem.slots (place_of_ticket h t)) in
    spared r (
      subst
        (λ (run : Result PublishInfo × World ChannelMemory).
          Ends KeepsSamples (IsPublished h t c size published) (Kept h t c) run)
        e
        ((publish_sample-IsPublished h t c size published encoded).ends w
          (record { same_ticket = refl; same_content = refl }) rely))
  where
    spared :
        (r : Result PublishInfo)
        → Ends KeepsSamples
            (IsPublished h w.mem.latest_ticket
              (content (w.mem.slots (place_of_ticket h w.mem.latest_ticket)))
              size
              published)
            (Kept h w.mem.latest_ticket
              (content (w.mem.slots (place_of_ticket h w.mem.latest_ticket))))
            (r, w')
        → IsSpared h w.mem r w'
    spared (ok info) x = (x.0.kept_content, x.0.moved, x.0.counted, x.0.told)
    spared (err e) x = (x.0.same_content, x.0.same_ticket)
