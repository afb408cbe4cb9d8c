-- ===== src/Mpmc/Header/Agreement.antt =====
-- What a validated header says, and that a created queue can be opened
-- (src/edge_runtime/queue/mpmc_queue.cpp).
use edge_runtime.Common.{
  ◌==◌, ℕ, ◌+◌, ◌*◌, ◌≤◌, ◌<◌, ◌≡◌, refl, sym, true, false, List, [], ◌∷◌, arith,
}
use edge_runtime.Mpmc.Header.{
  abi_major_version, abi_minor_version, endian_mark, header_magic, legacy_header_magic, Schema,
  Header, immutable_bytes, header_checksum, same_bytes, same_schema, size_fits, validate_header,
  open_existing, blank_header, sealed,
}
use edge_runtime.Mpmc.Layout.{header_size, first_slot_offset, max_capacity, max_payload_size}
use edge_runtime.Mpmc.Layout.Regions.{stride_of, slot_stride-eq, IsShape, mapping_size_for-eq}
use edge_runtime.Mpmc.State.{init_ready}
use edge_runtime.Owner.{Owner}
use edge_runtime.Shared.{ok}

pub same_bytes_self : (xs : List ℕ) → same_bytes xs xs ≡ true
unfolding same_bytes
same_bytes_self [] = refl
same_bytes_self (x ∷ xs) = ground (arith, same_bytes_self xs)

same_bytes-eq : (xs ys : List ℕ) → same_bytes xs ys ≡ true → xs ≡ ys
unfolding same_bytes
same_bytes-eq [] [] h = refl
same_bytes-eq [] (y ∷ ys) h = absurd (cc h)
same_bytes-eq (x ∷ xs) [] h = absurd (cc h)
same_bytes-eq (x ∷ xs) (y ∷ ys) h = ground (arith, same_bytes-eq xs ys)

validate_header-facts :
    (h : Header) (actual_size init capacity : ℕ) (schema : Schema) (payload_size : ℕ)
    → validate_header h actual_size init capacity schema payload_size ≡ ok tt
    → (0 < h.capacity)
      × (h.capacity ≤ max_capacity)
      × (0 < h.payload_size)
      × (h.payload_size ≤ max_payload_size)
      × (size_fits h actual_size ≡ true)
      × (h.capacity ≡ capacity)
      × (h.payload_size ≡ payload_size)
      × (same_schema h schema ≡ true)
      × (init ≡ init_ready)
unfolding validate_header
validate_header-facts h actual_size init capacity schema payload_size e = ground arith

same_schema-eq :
    (h : Header) (schema : Schema)
    → same_schema h schema ≡ true
    → (h.schema_version ≡ schema.version) × (h.schema_fingerprint ≡ schema.fingerprint)
unfolding same_schema
same_schema-eq h schema e = ground (arith, same_bytes-eq h.schema_fingerprint schema.fingerprint)

same_schema-ok :
    (h : Header) (schema : Schema)
    → h.schema_version ≡ schema.version
    → h.schema_fingerprint ≡ schema.fingerprint
    → same_schema h schema ≡ true
unfolding same_schema
same_schema-ok h schema e f = rw (e, f) (ground (arith, same_bytes_self schema.fingerprint))

size_fits-eq :
    (h : Header) (actual_size : ℕ)
    → IsShape h.capacity h.payload_size
    → size_fits h actual_size ≡ true
    → (actual_size ≡ first_slot_offset + h.capacity * stride_of h.payload_size)
      × (h.mapping_size ≡ actual_size)
unfolding size_fits
size_fits-eq h actual_size s e = ground (arith, mapping_size_for-eq h.capacity h.payload_size s)

header_checksum-sealed : (h : Header) → header_checksum (sealed h) ≡ header_checksum h
unfolding header_checksum immutable_bytes sealed
header_checksum-sealed h = refl

-- A validated header agrees with what the caller asked for and with the object: capacity, payload
-- size and schema are the caller's, the shape is in bounds, the queue was published as ready, and
-- the header and the object have the size that the shape needs.
pub validate_header-agrees :
    (h : Header) (actual_size init capacity : ℕ) (schema : Schema) (payload_size : ℕ)
    → validate_header h actual_size init capacity schema payload_size ≡ ok tt
    → IsShape capacity payload_size
      × (h.capacity ≡ capacity)
      × (h.payload_size ≡ payload_size)
      × (h.schema_version ≡ schema.version)
      × (h.schema_fingerprint ≡ schema.fingerprint)
      × (init ≡ init_ready)
      × (actual_size ≡ first_slot_offset + capacity * stride_of payload_size)
      × (h.mapping_size ≡ actual_size)
validate_header-agrees h actual_size init capacity schema payload_size e =
    let (a, b, c, d, f, g, k, l, n) =
      validate_header-facts h actual_size init capacity schema payload_size e in
    let s : IsShape h.capacity h.payload_size = record {
      some_slots = a;
      few_slots = b;
      some_bytes = c;
      few_bytes = d;
    } in
    let fits = size_fits-eq h actual_size s f in
    let same = same_schema-eq h schema l in
    (rw (← g, ← k) s, g, k, same.0, same.1, n, rw (← g, ← k) fits.0, fits.1)

-- A header that is in order
record IsSealed (h : Header) : Type 0 where
  new_magic : same_bytes h.magic header_magic ≡ true
  not_legacy : same_bytes h.magic legacy_header_magic ≡ false
  major : h.abi_major ≡ abi_major_version
  minor : h.abi_minor ≡ abi_minor_version
  size_of_header : h.size_field ≡ header_size
  endian : h.endian_marker ≡ endian_mark
  some_generation : (h.generation == 0) ≡ false
  right_checksum : h.checksum ≡ header_checksum h

size_fits-ok :
    (h : Header)
    → IsShape h.capacity h.payload_size
    → h.mapping_size ≡ first_slot_offset + h.capacity * stride_of h.payload_size
    → size_fits h h.mapping_size ≡ true
unfolding size_fits
size_fits-ok h s e = ground (arith, mapping_size_for-eq h.capacity h.payload_size s)

validate_header-ok :
    (h : Header) (schema : Schema)
    → IsSealed h
    → IsShape h.capacity h.payload_size
    → h.mapping_size ≡ first_slot_offset + h.capacity * stride_of h.payload_size
    → same_schema h schema ≡ true
    → validate_header h h.mapping_size init_ready h.capacity schema h.payload_size ≡ ok tt
unfolding validate_header
validate_header-ok h schema d s e f = ground (
  arith,
  size_fits-ok h s e,
  d.new_magic,
  d.not_legacy,
  d.major,
  d.minor,
  d.size_of_header,
  d.endian,
  d.some_generation,
  d.right_checksum,
)

open_existing-ok :
    (self : Owner) (h : Header) (schema : Schema)
    → IsSealed h
    → IsShape h.capacity h.payload_size
    → h.mapping_size ≡ first_slot_offset + h.capacity * stride_of h.payload_size
    → same_schema h schema ≡ true
    → open_existing self h h.mapping_size init_ready h.capacity schema h.payload_size
      ≡ ok (record { self = self; slot_stride = stride_of h.payload_size; removed = false })
unfolding open_existing
open_existing-ok self h schema d s e f = ground (
  arith,
  validate_header-ok h schema d s e f,
  slot_stride-eq h.payload_size,
  d.not_legacy,
  d.major,
  d.size_of_header,
)

-- A queue that was created can be opened by any process with the same capacity, schema and payload
-- size, once it is published as ready.
pub open_existing-created :
    (self creator : Owner) (capacity : ℕ) (schema : Schema) (payload_size nonce_hi nonce_lo : ℕ)
    → IsShape capacity payload_size
    → let size = first_slot_offset + capacity * stride_of payload_size in
      open_existing self
        (sealed (blank_header capacity schema payload_size size nonce_hi nonce_lo creator))
        size
        init_ready
        capacity
        schema
        payload_size
      ≡ ok (record { self = self; slot_stride = stride_of payload_size; removed = false })
unfolding sealed blank_header same_bytes
open_existing-created self creator capacity schema payload_size nonce_hi nonce_lo s =
    let blank =
      blank_header capacity schema payload_size
        (first_slot_offset + capacity * stride_of payload_size) nonce_hi nonce_lo creator in
    open_existing-ok self (sealed blank) schema
      (record {
        new_magic = refl;
        not_legacy = refl;
        major = refl;
        minor = refl;
        size_of_header = refl;
        endian = refl;
        some_generation = refl;
        right_checksum = sym (header_checksum-sealed blank);
      })
      s refl (same_schema-ok (sealed blank) schema refl refl)
