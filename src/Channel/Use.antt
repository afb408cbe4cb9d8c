-- ===== src/Channel/Use.antt =====
-- One operation at a time on a handle, and its shutdown (src/edge_runtime/channel/producer_impl.cpp,
-- consumer_impl.cpp). Of the producer's shutdown the socket of the memfd transport is left out.
use edge_runtime.Common.{◌==◌, if◌then◌else◌, ℕ, Bool, true, false, not}
use edge_runtime.Channel.Identity.{Role, producer_role, consumer_role, identity_snapshot_read}
use edge_runtime.Channel.State.{
  endpoint_offline, RoleIdentity, HandleFlags, ChannelMemory, Endpoint,
}
use edge_runtime.Error.{ErrorCode}
use edge_runtime.Shared.{
  Result, ok, err, tick, Action, pure, fail, ◌>>=◌, ◌>>◌, attempt, shared_load, shared_store,
}

abbrev pub flags_of : Role → ChannelMemory → HandleFlags
flags_of producer_role m = m.producer_flags
flags_of consumer_role m = m.consumer_flags

abbrev pub set_flags : Role → HandleFlags → ChannelMemory → ChannelMemory
set_flags producer_role f m = record m { producer_flags = f }
set_flags consumer_role f m = record m { consumer_flags = f }

unfoldable pub set_state_of : Role → ℕ → ChannelMemory → ChannelMemory
set_state_of producer_role v m = record m { producer_state = v }
set_state_of consumer_role v m = record m { consumer_state = v }

-- An exchange of the flag with `true`, in one step: whether it was set before
unfoldable pub begin_use : Role → Action ChannelMemory Bool
begin_use r w = (
  ok (flags_of r (tick w).mem).operation_in_use,
  record {
    mem = set_flags r (record (flags_of r (tick w).mem) { operation_in_use = true }) (tick w).mem;
    env = (tick w).env;
  },
)

unfoldable pub end_use : Role → Action ChannelMemory (Unit {0})
end_use r = shared_store (λ m. set_flags r (record (flags_of r m) { operation_in_use = false }) m)

-- What a guard does at the end of its block, whatever the result
unfoldable pub and_finally :
    {A : Type 0} → Action ChannelMemory (Unit {0}) → Action ChannelMemory A → Action ChannelMemory A
and_finally last m w = ((m w).0, (last (m w).1).1)

-- ProducerUseGuard and ConsumerUseGuard around an operation
unfoldable pub guarded : {A : Type 0} → Role → Action ChannelMemory A → Action ChannelMemory A
guarded r operation = do
  busy ← begin_use r
  if busy then fail ErrorCode.concurrent_handle_use else and_finally (end_use r) operation

-- compare_exchange_strong of a flag from `false` to `true`
unfoldable pub raise_flag :
    Role → (HandleFlags → Bool) → (HandleFlags → HandleFlags) → Action ChannelMemory Bool
raise_flag r get raise w = if get (flags_of r (tick w).mem) then (ok false, tick w) else (
  ok true,
  record { mem = set_flags r (raise (flags_of r (tick w).mem)) (tick w).mem; env = (tick w).env },
)

-- Whether the role is still the handle's
unfoldable pub same_role : Endpoint → Result RoleIdentity → Bool
same_role h (ok i) = i.role_epoch == h.role_epoch
same_role h (err _) = false

-- mark_producer_offline and mark_consumer_offline
unfoldable pub mark_offline : Role → Endpoint → Action ChannelMemory (Unit {0})
mark_offline r h = do
  identity ← attempt (identity_snapshot_read r)
  if not (same_role h identity) then pure tt else shared_store (set_state_of r endpoint_offline)

-- Once the handle is in this thread's hands
unfoldable pub start_shutdown : Role → Endpoint → Action ChannelMemory (Unit {0})
start_shutdown r h = do
  first ← raise_flag r (λ f. f.shutdown_started) (λ f. record f { shutdown_started = true })
  if first then mark_offline r h else pure tt

unfoldable pub shut_down_if_idle : Role → Endpoint → Action ChannelMemory (Unit {0})
shut_down_if_idle r h = do
  idle ← raise_flag r (λ f. f.operation_in_use) (λ f. record f { operation_in_use = true })
  if not idle then pure tt else do start_shutdown r h; end_use r

-- service_producer_shutdown and service_consumer_shutdown
unfoldable pub service_shutdown : Role → Endpoint → Action ChannelMemory (Unit {0})
service_shutdown r h = do
  pending ← shared_load (λ m. (flags_of r m).shutdown_pending)
  if not pending then pure tt else shut_down_if_idle r h

-- release_producer_loan_operation and release_consumer_loan_operation
unfoldable pub release_loan_operation : Role → Endpoint → Action ChannelMemory (Unit {0})
release_loan_operation r h = do end_use r; service_shutdown r h

-- producer_shutdown_impl and consumer_shutdown_impl
unfoldable pub shut_down : Role → Endpoint → Action ChannelMemory (Unit {0})
shut_down r h = do
  shared_store (λ m. set_flags r (record (flags_of r m) { shutdown_pending = true }) m)
  service_shutdown r h
