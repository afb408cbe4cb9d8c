-- ===== src/Channel/State.antt =====
-- A channel's shared memory and the handles on it (src/edge_runtime/channel/channel_layout.hpp,
-- slot_protocol.hpp, producer_impl.hpp, consumer_impl.hpp).
use edge_runtime.Common.{◌==◌, if◌then◌else◌, ℕ, Bool, List}
use edge_runtime.Owner.{Owner}
use edge_runtime.Shared.{Action, shared_load, shared_store}

-- InitState::kReady
abbrev pub channel_ready : ℕ
channel_ready = 2

-- enum class EndpointState
abbrev pub endpoint_offline : ℕ
endpoint_offline = 0

abbrev pub endpoint_online : ℕ
endpoint_online = 1

-- enum class SlotState
abbrev pub sample_free : ℕ
sample_free = 0

abbrev pub sample_writing : ℕ
sample_writing = 1

abbrev pub sample_published : ℕ
sample_published = 2

abbrev pub sample_reading_claiming : ℕ
sample_reading_claiming = 3

abbrev pub sample_reading : ℕ
sample_reading = 4

-- ProcessIdentityAbi: who has a role, under an epoch that is odd while that changes
pub record RoleIdentity : Type 0 where
  pub role_epoch : ℕ
  pub process : Owner

-- SlotHeaderAbi and the payload behind it
pub record Sample : Type 0 where
  pub state : ℕ
  pub payload_size : ℕ
  pub sample_sequence : ℕ
  pub publish_boot_ns : ℕ
  pub payload_checksum : ℕ
  pub reader_role_epoch : ℕ
  pub payload : List ℕ

-- The flags of a handle that threads of its process share
pub record HandleFlags : Type 0 where
  pub operation_in_use : Bool
  pub shutdown_pending : Bool
  pub shutdown_started : Bool

-- The mapping, as far as publishing and reading use it; the flags of the producer's and the
-- consumer's handle, with the consumer's cursor; and the clock. A slot is found at its byte offset.
pub record ChannelMemory : Type 0 where
  pub boot_init_state : ℕ
  pub init_state : ℕ
  pub generation : ℕ
  pub instance_nonce_hi : ℕ
  pub instance_nonce_lo : ℕ
  pub producer : RoleIdentity
  pub consumer : RoleIdentity
  pub latest_ticket : ℕ
  pub notify_epoch : ℕ
  pub producer_state : ℕ
  pub consumer_state : ℕ
  pub publish_count : ℕ
  pub read_count : ℕ
  pub last_publish_boot_ns : ℕ
  pub slots : ℕ → Sample
  pub producer_flags : HandleFlags
  pub consumer_flags : HandleFlags
  pub last_sequence : ℕ
  pub first_sample_in_generation : Bool
  -- What `boottime_now_ns` returns: zero where the clock fails
  pub boottime : ℕ

-- The fields of ProducerHandle and ConsumerHandle that stay as they are
pub record Endpoint : Type 0 where
  pub generation : ℕ
  pub role_epoch : ℕ
  pub instance_nonce_hi : ℕ
  pub instance_nonce_lo : ℕ
  pub payload_size : ℕ

abbrev pub update_sample : ℕ → Sample → (ℕ → Sample) → ℕ → Sample
update_sample offset s slots k = if k == offset then s else slots k

unfoldable pub set_sample : ℕ → Sample → ChannelMemory → ChannelMemory
set_sample offset s m = record m { slots = update_sample offset s m.slots }

-- A store to the slot at an offset
unfoldable pub store_slot : ℕ → (Sample → Sample) → Action ChannelMemory (Unit {0})
store_slot offset change = shared_store (λ m. set_sample offset (change (m.slots offset)) m)

unfoldable pub load_slot : {A : Type 0} → ℕ → (Sample → A) → Action ChannelMemory A
load_slot offset get = shared_load (λ m. get (m.slots offset))
