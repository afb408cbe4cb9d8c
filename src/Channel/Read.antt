-- ===== src/Channel/Read.antt =====
-- Reading the latest sample, by copying or through a loan
-- (src/edge_runtime/channel/consumer_impl.cpp).
pub mod Quiet
use edge_runtime.Common.{
  ltb, leb, ◌==◌, if◌then◌else◌, ℕ, zero, suc, ◌+◌, ◌%◌, ◌^◌, false, not, ◌||◌, Option, none, some,
  List,
}
use edge_runtime.Channel.Identity.{consumer_role}
use edge_runtime.Channel.Layout.{
  make_ticket, ticket_slot, ticket_sequence, sample_stride, slot_byte_offset, saturated_gap,
}
use edge_runtime.Channel.Slot.{slot_claim_readable, slot_mark_reading, slot_release_read}
use edge_runtime.Channel.State.{ChannelMemory, Endpoint, load_slot}
use edge_runtime.Channel.Use.{begin_use, guarded, release_loan_operation}
use edge_runtime.Checksum.{fnv1a64}
use edge_runtime.Error.{ErrorCode}
use edge_runtime.Shared.{Action, pure, fail, ◌>>=◌, ◌>>◌, or_else, read, shared_load, shared_store}

-- kMaxReadRetries
abbrev pub max_read_retries : ℕ
max_read_retries = 8

-- ReadSnapshot without the words that are copies of the handle's
pub record ReadSnapshot : Type 0 where
  pub encoded_size : ℕ
  pub sample_sequence : ℕ
  pub publish_boot_ns : ℕ
  pub receive_boot_ns : ℕ
  pub generation : ℕ
  pub missed_samples : ℕ

-- A slot that is being read, and what was found in it
pub record ClaimedRead : Type 0 where
  pub offset : ℕ
  pub snapshot : ReadSnapshot

-- Gives the slot back, and reports `e`.
unfoldable pub refuse_claimed : {A : Type 0} → ℕ → ErrorCode → Action ChannelMemory A
refuse_claimed offset e = do slot_release_read offset; fail e

-- The words of the slot's header
pub record SampleWords : Type 0 where
  pub payload_size : ℕ
  pub sample_sequence : ℕ
  pub publish_boot_ns : ℕ
  pub payload_checksum : ℕ

unfoldable pub load_words : ℕ → Action ChannelMemory SampleWords
load_words offset = do
  payload_size ← load_slot offset (λ s. s.payload_size)
  sample_sequence ← load_slot offset (λ s. s.sample_sequence)
  publish_boot_ns ← load_slot offset (λ s. s.publish_boot_ns)
  payload_checksum ← load_slot offset (λ s. s.payload_checksum)
  pure (record {
    payload_size = payload_size;
    sample_sequence = sample_sequence;
    publish_boot_ns = publish_boot_ns;
    payload_checksum = payload_checksum;
  })

-- How many samples the consumer never saw
unfoldable pub missed_samples_of : ℕ → ChannelMemory → ℕ
missed_samples_of sample_sequence m =
    if m.first_sample_in_generation then 0 else saturated_gap m.last_sequence sample_sequence

-- The cursor and the count, for a sample that is in order
unfoldable pub accept_sample : Endpoint → ℕ → SampleWords → ℕ → Action ChannelMemory ClaimedRead
accept_sample h offset words receive_boot_ns = do
  missed ← read (missed_samples_of words.sample_sequence)
  shared_store
      (λ m. record m { last_sequence = words.sample_sequence; first_sample_in_generation = false })
  shared_store (λ m. record m { read_count = (m.read_count + 1) % 2 ^ 64 })
  pure (record {
    offset = offset;
    snapshot = record {
      encoded_size = words.payload_size;
      sample_sequence = words.sample_sequence;
      publish_boot_ns = words.publish_boot_ns;
      receive_boot_ns = receive_boot_ns;
      generation = h.generation;
      missed_samples = missed;
    };
  })

unfoldable pub check_payload : Endpoint → ℕ → SampleWords → ℕ → Action ChannelMemory ClaimedRead
check_payload h offset words receive_boot_ns = do
  payload ← load_slot offset (λ s. s.payload)
  if not (fnv1a64 payload == words.payload_checksum)
      then refuse_claimed offset ErrorCode.payload_corrupt
      else accept_sample h offset words receive_boot_ns

unfoldable pub check_clock : Endpoint → ℕ → SampleWords → Action ChannelMemory ClaimedRead
check_clock h offset words = do
  receive_boot_ns ← shared_load (λ m. m.boottime)
  if receive_boot_ns == 0
      then refuse_claimed offset ErrorCode.clock_anomaly
      else check_payload h offset words receive_boot_ns

unfoldable pub check_sample : Endpoint → ℕ → Action ChannelMemory ClaimedRead
check_sample h offset = do
  words ← load_words offset
  if not (words.payload_size == h.payload_size)
      then refuse_claimed offset ErrorCode.payload_corrupt
      else check_clock h offset words

-- Gives a slot back that is not the latest one any more.
unfoldable pub give_up_slot : {A : Type 0} → ℕ → Action ChannelMemory A → Action ChannelMemory A
give_up_slot offset rest = do slot_release_read offset; rest

-- From the claimed slot on: it must still be the latest one.
unfoldable pub read_claimed_slot :
    Endpoint → ℕ → ℕ → Action ChannelMemory ClaimedRead → Action ChannelMemory ClaimedRead
read_claimed_slot h slot_index offset rest = do
  slot_mark_reading offset h.role_epoch
  sequence ← load_slot offset (λ s. s.sample_sequence)
  latest ← shared_load (λ m. m.latest_ticket)
  if not (latest == make_ticket sequence slot_index)
      then give_up_slot offset rest
      else check_sample h offset

-- The claim of the slot that the ticket names
unfoldable pub claim_slot :
    Endpoint → ℕ → Option ℕ → Action ChannelMemory ClaimedRead → Action ChannelMemory ClaimedRead
claim_slot h slot_index none rest = fail ErrorCode.corrupt_slot
claim_slot h slot_index (some offset) rest = do
  claimed ← slot_claim_readable offset
  if not claimed then rest else read_claimed_slot h slot_index offset rest

-- One attempt; `rest` are the further ones.
unfoldable pub read_round :
    Endpoint → ℕ → Action ChannelMemory ClaimedRead → Action ChannelMemory ClaimedRead
read_round h stride rest = do
  ticket ← shared_load (λ m. m.latest_ticket)
  last_sequence ← read (λ m. m.last_sequence)
  if ticket == 0 || leb (ticket_sequence ticket) last_sequence
      then fail ErrorCode.no_new_sample
      else claim_slot h (ticket_slot ticket) (slot_byte_offset (ticket_slot ticket) stride) rest

unfoldable pub read_rounds : ℕ → Endpoint → ℕ → Action ChannelMemory ClaimedRead
read_rounds zero h stride = fail ErrorCode.read_contention
read_rounds (suc n) h stride = read_round h stride (read_rounds n h stride)

unfoldable pub rounds_with : Endpoint → Option ℕ → Action ChannelMemory ClaimedRead
rounds_with h none = fail ErrorCode.invalid_options
rounds_with h (some stride) = read_rounds max_read_retries h stride

unfoldable pub claim_latest_unlocked : Endpoint → Action ChannelMemory ClaimedRead
claim_latest_unlocked h = rounds_with h (sample_stride h.payload_size)

-- The payload is copied out, and the slot given back.
unfoldable pub copy_out : ℕ → ClaimedRead → Action ChannelMemory (List ℕ × ReadSnapshot)
copy_out encoded_cap claimed =
    if ltb encoded_cap claimed.snapshot.encoded_size
    then refuse_claimed claimed.offset ErrorCode.payload_corrupt
    else do
      encoded ← load_slot claimed.offset (λ s. s.payload)
      slot_release_read claimed.offset
      pure (encoded, claimed.snapshot)

unfoldable pub try_read_latest_unlocked :
    Endpoint → ℕ → Action ChannelMemory (List ℕ × ReadSnapshot)
try_read_latest_unlocked h encoded_cap = do
  claimed ← claim_latest_unlocked h
  copy_out encoded_cap claimed

-- `consumer_try_read_latest_impl`
unfoldable pub try_read_latest : Endpoint → ℕ → Action ChannelMemory (List ℕ × ReadSnapshot)
try_read_latest h encoded_cap = guarded consumer_role (try_read_latest_unlocked h encoded_cap)

-- `consumer_try_loan_latest_impl`: the handle stays in use while the loan lasts.
unfoldable pub try_loan_latest : Endpoint → Action ChannelMemory ClaimedRead
try_loan_latest h = do
  busy ← begin_use consumer_role
  if busy
      then fail ErrorCode.concurrent_handle_use
      else or_else (release_loan_operation consumer_role h) (claim_latest_unlocked h)

-- `consumer_release_loan_impl` of an active loan
unfoldable pub release_loan : Endpoint → ClaimedRead → Action ChannelMemory (Unit {0})
release_loan h claimed = do slot_release_read claimed.offset; release_loan_operation consumer_role h
