-- ===== src/Channel/Quiet.antt =====
-- A channel when nobody interferes (src/edge_runtime/channel/).
use edge_runtime.Common.{eq→==, ℕ, ◌%◌, ◌≡◌, refl, ap, true, arith}
use edge_runtime.Channel.Identity.{
  Role, producer_role, role_of, load_process, identity_round, identity_rounds,
  identity_snapshot_read,
}
use edge_runtime.Channel.Publish.{same_instance, verify_handle_ownership}
use edge_runtime.Channel.State.{
  channel_ready, endpoint_online, Sample, ChannelMemory, Endpoint, update_sample, set_sample,
  store_slot, load_slot,
}
use edge_runtime.Channel.Use.{same_role}
use edge_runtime.Owner.Part.{Part, store-part, load-part}
use edge_runtime.Shared.{ok, quiet, pure, ◌>>=◌, read, shared_load}
use edge_runtime.Shared.Laws.{bind_ok, then_ok, attempt_eq, load-quiet, require-ok}
use mathlib.Core.Path.{fun_ext}

pub slots-set_sample_self :
    (offset : ℕ) (s : Sample) (m : ChannelMemory) → (set_sample offset s m).slots offset ≡ s
unfolding set_sample
slots-set_sample_self offset s m = ground arith

update_sample-update_sample :
    (offset : ℕ) (a b : Sample) (f : ℕ → Sample)
    → update_sample offset a (update_sample offset b f) ≡ update_sample offset a f
update_sample-update_sample offset a b f = fun_ext λ k. ground arith

pub set_sample-set_sample :
    (offset : ℕ) (a b : Sample) (m : ChannelMemory)
    → set_sample offset a (set_sample offset b m) ≡ set_sample offset a m
unfolding set_sample
set_sample-set_sample offset a b m =
    ap (λ (f : ℕ → Sample). record m { slots = f }) (update_sample-update_sample offset a b m.slots)

abbrev pub slot_part : ℕ → Part ChannelMemory Sample
slot_part offset = record {
  get = λ m. m.slots offset;
  set = set_sample offset;
  get_set = slots-set_sample_self offset;
  set_set = set_sample-set_sample offset;
}

pub store_slot-part :
    (offset : ℕ) (change : Sample → Sample) (s : Sample) (m : ChannelMemory)
    → store_slot offset change (quiet (set_sample offset s m))
      ≡ (ok tt, quiet (set_sample offset (change s) m))
unfolding store_slot
store_slot-part offset change s m = store-part (slot_part offset) change s m

pub load_slot-part :
    {A : Type 0} (offset : ℕ) (get : Sample → A) (s : Sample) (m : ChannelMemory)
    → load_slot offset get (quiet (set_sample offset s m))
      ≡ (ok (get s), quiet (set_sample offset s m))
unfolding load_slot
load_slot-part offset get s m = load-part (slot_part offset) get s m

pub identity_snapshot_read-quiet :
    (r : Role) (m : ChannelMemory)
    → (role_of r m).role_epoch % 2 ≡ 0
    → identity_snapshot_read r (quiet m) ≡ (ok (role_of r m), quiet m)
unfolding identity_snapshot_read identity_rounds identity_round load_process shared_load pure ◌>>=◌
identity_snapshot_read-quiet r m e = ground (arith, e)

-- The producer's handle of a channel that is in order
pub record IsProducer (h : Endpoint) (m : ChannelMemory) : Type 0 where
  pub boot_ready : m.boot_init_state ≡ channel_ready
  pub ready : m.init_state ≡ channel_ready
  pub instance_kept : same_instance h m ≡ true
  pub even : m.producer.role_epoch % 2 ≡ 0
  pub role_kept : m.producer.role_epoch ≡ h.role_epoch
  pub online : m.producer_state ≡ endpoint_online

pub verify_handle_ownership-ok :
    (h : Endpoint) (m : ChannelMemory)
    → IsProducer h m
    → verify_handle_ownership h (quiet m) ≡ (ok tt, quiet m)
unfolding verify_handle_ownership read same_role
verify_handle_ownership-ok h m v = bind_ok _ _ (load-quiet (λ n. n.boot_init_state) m) (
    then_ok _ _ (require-ok _ _ (eq→== _ _ v.boot_ready)) (
      bind_ok _ _ (load-quiet (λ n. n.init_state) m) (
        then_ok _ _ (require-ok _ _ (eq→== _ _ v.ready)) (
          bind_ok _ _ refl (
            then_ok _ _ (require-ok _ _ v.instance_kept) (
              bind_ok _ _
                (attempt_eq (identity_snapshot_read producer_role)
                  (identity_snapshot_read-quiet producer_role m v.even))
                (then_ok _ _ (require-ok _ _ (eq→== _ _ v.role_kept)) (
                  bind_ok _ _ (load-quiet (λ n. n.producer_state) m)
                    (require-ok _ _ (eq→== _ _ v.online))))))))))
