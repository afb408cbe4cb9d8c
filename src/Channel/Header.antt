-- ===== src/Channel/Header.antt =====
-- Checking the bootstrap and the header of a channel before it is used
-- (src/edge_runtime/channel/channel_abi.cpp).
use edge_runtime.Common.{
  ltb, ◌==◌, if◌then◌else◌, ℕ, ◌+◌, ◌≡◌, not, ◌&&◌, ◌||◌, List, [], ◌∷◌, ◌++◌, arith,
}
use edge_runtime.Channel.Layout.{slot_count, sample_header_size}
use edge_runtime.Checksum.{fnv1a64}
use edge_runtime.Error.{ErrorCode}
use edge_runtime.Mpmc.Header.{endian_mark, Schema, le_bytes, same_bytes}
use edge_runtime.Owner.{Owner}
use edge_runtime.Shared.{Result, ok, err}

-- "EDGBOOT1"
abbrev pub bootstrap_magic : List ℕ
bootstrap_magic = 69 ∷ 68 ∷ 71 ∷ 66 ∷ 79 ∷ 79 ∷ 84 ∷ 49 ∷ []

-- "EDGERT01"
abbrev pub channel_header_magic : List ℕ
channel_header_magic = 69 ∷ 68 ∷ 71 ∷ 69 ∷ 82 ∷ 84 ∷ 48 ∷ 49 ∷ []

abbrev pub channel_abi_major : ℕ
channel_abi_major = 1

-- kAbiMinorMax
abbrev pub channel_abi_minor_max : ℕ
channel_abi_minor_max = 1

-- sizeof(BootstrapHeaderAbi)
abbrev pub bootstrap_size : ℕ
bootstrap_size = 128

-- sizeof(ChannelHeaderAbi)
abbrev pub channel_header_size : ℕ
channel_header_size = 320

-- BootstrapHeaderAbi without the state word, which the checksum does not cover
pub record BootstrapHeader : Type 0 where
  pub magic : List ℕ
  pub abi_major : ℕ
  pub abi_minor : ℕ
  pub size_field : ℕ
  pub expected_mapping_size : ℕ
  pub creator_nonce_hi : ℕ
  pub creator_nonce_lo : ℕ
  pub creator : Owner
  pub reserved0 : ℕ
  pub checksum : ℕ
  pub reserved : List ℕ

-- The immutable words of ChannelHeaderAbi
pub record ChannelHeader : Type 0 where
  pub magic : List ℕ
  pub abi_major : ℕ
  pub abi_minor : ℕ
  pub size_field : ℕ
  pub endian_marker : ℕ
  pub slots : ℕ
  pub payload_size : ℕ
  pub schema : Schema
  pub mapping_size : ℕ
  pub generation : ℕ
  pub instance_nonce_hi : ℕ
  pub instance_nonce_lo : ℕ

-- The bytes on a little-endian machine, with zeros for the state and the checksum
unfoldable pub bootstrap_bytes : BootstrapHeader → List ℕ
bootstrap_bytes b =
    b.magic
    ++ le_bytes 2 b.abi_major
    ++ le_bytes 2 b.abi_minor
    ++ le_bytes 4 b.size_field
    ++ le_bytes 8 b.expected_mapping_size
    ++ le_bytes 8 b.creator_nonce_hi
    ++ le_bytes 8 b.creator_nonce_lo
    ++ le_bytes 8 b.creator.pid
    ++ le_bytes 8 b.creator.proc_start_ticks
    ++ le_bytes 8 b.creator.boot_id_hash_hi
    ++ le_bytes 8 b.creator.boot_id_hash_lo
    ++ le_bytes 4 0
    ++ le_bytes 4 b.reserved0
    ++ le_bytes 8 0
    ++ b.reserved

unfoldable pub bootstrap_checksum_of : BootstrapHeader → ℕ
bootstrap_checksum_of b = fnv1a64 (bootstrap_bytes b)

unfoldable pub validate_bootstrap_parse : BootstrapHeader → ℕ → Result (Unit {0})
validate_bootstrap_parse b shm_size =
    if not (same_bytes b.magic bootstrap_magic)
    then err ErrorCode.corrupt_header
    else if not (b.abi_major == channel_abi_major) || ltb channel_abi_minor_max b.abi_minor
    then err ErrorCode.abi_mismatch
    else if not (b.size_field == bootstrap_size)
    then err ErrorCode.corrupt_header
    else if b.expected_mapping_size == 0
    then err ErrorCode.corrupt_header
    else if not (bootstrap_checksum_of b == b.checksum)
    then err ErrorCode.corrupt_header
    else if not (shm_size == 0) && ltb shm_size bootstrap_size
    then err ErrorCode.initialization_incomplete
    else ok tt

-- The smallest mapping that either check of a header accepts
abbrev pub least_mapping_size : ℕ
least_mapping_size = 128 + sample_header_size

unfoldable pub validate_header_parse : ChannelHeader → Schema → ℕ → Result (Unit {0})
validate_header_parse h schema payload_size =
    if not (same_bytes h.magic channel_header_magic)
    then err ErrorCode.corrupt_header
    else if not (h.abi_major == channel_abi_major) || ltb channel_abi_minor_max h.abi_minor
    then err ErrorCode.abi_mismatch
    else if not (h.size_field == channel_header_size)
    then err ErrorCode.corrupt_header
    else if not (h.endian_marker == endian_mark)
    then err ErrorCode.corrupt_header
    else if not (h.slots == slot_count)
    then err ErrorCode.corrupt_header
    else if not (h.payload_size == payload_size)
    then err ErrorCode.schema_mismatch
    else if not (h.schema.version == schema.version)
    then err ErrorCode.schema_mismatch
    else if not (same_bytes h.schema.fingerprint schema.fingerprint)
    then err ErrorCode.schema_mismatch
    else if ltb h.mapping_size least_mapping_size
    then err ErrorCode.corrupt_header
    else if h.generation == 0
    then err ErrorCode.corrupt_header
    else if h.instance_nonce_hi == 0 && h.instance_nonce_lo == 0
    then err ErrorCode.corrupt_header
    else ok tt

unfoldable pub validate_header_shape : ChannelHeader → Result (Unit {0})
validate_header_shape h =
    if not (same_bytes h.magic channel_header_magic)
    then err ErrorCode.corrupt_header
    else if not (h.abi_major == channel_abi_major) || ltb channel_abi_minor_max h.abi_minor
    then err ErrorCode.abi_mismatch
    else if not (h.size_field == channel_header_size)
    then err ErrorCode.corrupt_header
    else if not (h.endian_marker == endian_mark)
    then err ErrorCode.corrupt_header
    else if not (h.slots == slot_count)
    then err ErrorCode.corrupt_header
    else if ltb h.mapping_size least_mapping_size
    then err ErrorCode.corrupt_header
    else if h.generation == 0
    then err ErrorCode.corrupt_header
    else ok tt

-- A header that a client accepts passes the observer's check of its shape as well, and has the
-- client's payload size.
pub validate_header_parse-shape :
    (h : ChannelHeader) (schema : Schema) (payload_size : ℕ)
    → validate_header_parse h schema payload_size ≡ ok tt
    → (validate_header_shape h ≡ ok tt)
      × (h.payload_size ≡ payload_size)
      × (h.schema.version ≡ schema.version)
unfolding validate_header_parse validate_header_shape
validate_header_parse-shape h schema payload_size e = ground (arith, e)
