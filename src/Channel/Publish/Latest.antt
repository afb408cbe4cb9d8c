-- ===== src/Channel/Publish/Latest.antt =====
-- What publishing does to the latest sample, whatever the consumer does meanwhile
-- (src/edge_runtime/channel/producer_impl.cpp).
use edge_runtime.Common.{ℕ, zero, suc, ◌≡◌, refl, ap, ◌∙◌, List}
use edge_runtime.Channel.Identity.{
  Role, load_process, identity_round, identity_rounds, identity_snapshot_read,
}
use edge_runtime.Channel.Publish.{verify_handle_ownership, notify_consumer}
use edge_runtime.Channel.State.{RoleIdentity, Sample, ChannelMemory, Endpoint}
use edge_runtime.Channel.Use.{and_finally}
use edge_runtime.Shared.{Result, ok, err, World, Action, shared_load, shared_store}
use edge_runtime.Shared.Keeps.{
  IsStable, Ends, Ensures, Keeps, load-Ensures, store-Ensures, bind-Ensures, then-Ensures,
  pure-Ensures, fail-Ensures, read-Ensures, if-Ensures, kept-run, attempt-Keeps, require-Ensures,
}

-- A sample as its producer wrote it
abbrev pub content : Sample → ℕ × ℕ × ℕ × ℕ × List ℕ
content s = (s.payload_size, s.sample_sequence, s.publish_boot_ns, s.payload_checksum, s.payload)

-- Others publish nothing: they keep the latest ticket and what was written into the slots. They may
-- change the states of the slots, the roles, the flags, the cursor and everything else.
pub record KeepsSamples (m m' : ChannelMemory) : Type 0 where
  pub ticket_kept : m'.latest_ticket ≡ m.latest_ticket
  pub content_kept : (k : ℕ) → content (m'.slots k) ≡ content (m.slots k)

-- The ticket is `ticket`, and the slot at `offset` has the content `c`.
pub record IsKept (offset : ℕ) (c : ℕ × ℕ × ℕ × ℕ × List ℕ) (ticket : ℕ) (m : ChannelMemory)
    : Type 0 where
  pub same_ticket : m.latest_ticket ≡ ticket
  pub same_content : content (m.slots offset) ≡ c

pub IsKept-IsStable :
    (offset : ℕ) (c : ℕ × ℕ × ℕ × ℕ × List ℕ) (ticket : ℕ)
    → IsStable KeepsSamples (IsKept offset c ticket)
IsKept-IsStable offset c ticket = record {
  kept = λ m m' r i. record {
    same_ticket = r.ticket_kept ∙ i.same_ticket;
    same_content = r.content_kept offset ∙ i.same_content;
  };
}

-- Loads keep what others keep.
module _ {I : ChannelMemory → Type 0} (s : IsStable KeepsSamples I) where
  pub load-Keeps : {A : Type 0} (get : ChannelMemory → A) → Keeps KeepsSamples I (shared_load get)
  load-Keeps get = load-Ensures s get (λ m i. i)

  load_process-Keeps : (r : Role) → Keeps KeepsSamples I (load_process r)
  unfolding load_process
  load_process-Keeps r = bind-Ensures _ _ (load-Keeps _) (λ a. bind-Ensures _ _ (load-Keeps _) (λ b.
      bind-Ensures _ _ (load-Keeps _)
        (λ c. bind-Ensures _ _ (load-Keeps _) (λ d. pure-Ensures _ (λ m i. i)))))

  identity_round-Keeps :
      (r : Role) (rest : Action ChannelMemory RoleIdentity)
      → Keeps KeepsSamples I rest
      → Keeps KeepsSamples I (identity_round r rest)
  unfolding identity_round
  identity_round-Keeps r rest p = bind-Ensures _ _ (load-Keeps _) (λ before. if-Ensures _ p (
      bind-Ensures _ _ (load_process-Keeps r) (λ process.
        bind-Ensures _ _ (load-Keeps _) (λ after. if-Ensures _ p (pure-Ensures _ (λ m i. i))))))

  identity_rounds-Keeps : (n : ℕ) (r : Role) → Keeps KeepsSamples I (identity_rounds n r)
  unfolding identity_rounds
  identity_rounds-Keeps zero r = fail-Ensures _ (λ m i. i)
  identity_rounds-Keeps (suc n) r = identity_round-Keeps r _ (identity_rounds-Keeps n r)

  pub verify_handle_ownership-Keeps :
      (h : Endpoint) → Keeps KeepsSamples I (verify_handle_ownership h)
  unfolding verify_handle_ownership identity_snapshot_read
  verify_handle_ownership-Keeps h = bind-Ensures _ _ (load-Keeps _) (λ boot_init.
      then-Ensures _ _ (require-Ensures _ _ (λ m i. i)) (
        bind-Ensures _ _ (load-Keeps _) (λ init. then-Ensures _ _ (require-Ensures _ _ (λ m i. i)) (
          bind-Ensures _ _ (read-Ensures _ (λ m i. i)) (λ same.
            then-Ensures _ _ (require-Ensures _ _ (λ m i. i)) (
              bind-Ensures _ _ (attempt-Keeps _ (identity_rounds-Keeps _ _)) (λ identity.
                then-Ensures _ _ (require-Ensures _ _ (λ m i. i))
                  (bind-Ensures _ _ (load-Keeps _) (λ state. require-Ensures _ _ (λ m i. i))))))))))

-- A store beside the latest ticket and the slots
pub word-IsKept :
    (offset : ℕ) (c : ℕ × ℕ × ℕ × ℕ × List ℕ) (ticket : ℕ) (put : ChannelMemory → ChannelMemory)
    {E : ChannelMemory → Type 0}
    → ((m : ChannelMemory) → (put m).latest_ticket ≡ m.latest_ticket)
    → ((m : ChannelMemory) → (put m).slots offset ≡ m.slots offset)
    → Ensures KeepsSamples
        (IsKept offset c ticket)
        (λ a. IsKept offset c ticket)
        E
        (shared_store put)
word-IsKept offset c ticket put a b = store-Ensures (IsKept-IsStable offset c ticket) put (λ m i.
    record { same_ticket = a m ∙ i.same_ticket; same_content = ap content (b m) ∙ i.same_content })

pub notify_consumer-Ensures :
    (offset : ℕ) (c : ℕ × ℕ × ℕ × ℕ × List ℕ) (ticket boot_ns : ℕ) {E : ChannelMemory → Type 0}
    → Ensures KeepsSamples
        (IsKept offset c ticket)
        (λ a. IsKept offset c ticket)
        E
        (notify_consumer boot_ns)
unfolding notify_consumer
notify_consumer-Ensures offset c ticket boot_ns =
    then-Ensures _ _ (word-IsKept _ _ _ _ (λ m. refl) (λ m. refl)) (
      then-Ensures _ _ (word-IsKept _ _ _ _ (λ m. refl) (λ m. refl))
        (word-IsKept _ _ _ _ (λ m. refl) (λ m. refl)))

-- A guard that resets its flag keeps what an operation ensures, if that does not speak of the flag.
pub and_finally-Ensures :
    {A : Type 0} {I E : ChannelMemory → Type 0} {Q : A → ChannelMemory → Type 0}
    (last : Action ChannelMemory (Unit {0})) (m : Action ChannelMemory A)
    → Ensures KeepsSamples I Q E m
    → ((a : A) → Keeps KeepsSamples (Q a) last)
    → Keeps KeepsSamples E last
    → Ensures KeepsSamples I Q E (and_finally last m)
unfolding and_finally
and_finally-Ensures {A} {I} {E} {Q} last m p q e = record {
  ends = λ w i r. go (m w) (p.ends w i r);
}
  where
    go :
        (t : Result A × World ChannelMemory)
        → Ends KeepsSamples Q E t
        → Ends KeepsSamples Q E (t.0, (last t.1).1)
    go (ok a, u) h = kept-run last u (q a) h.0 h.1
    go (err c, u) h = kept-run last u e h.0 h.1
