-- ===== src/WriteBatch/RoundTrip.antt =====
-- `WriteBatchCodec::decode` reads back what `encode` wrote.
use mizu.Base.{
  ℕ, ◌+◌, ◌*◌, ◌/◌, ◌≤◌, ◌<◌, ◌≡◌, refl, ap, ◌∙◌, List, [], ◌∷◌, ◌++◌, true, false, ltb, ◌==◌,
  length, All, arith, append_assoc, length-append, append-nil, some, take-append_left,
  drop-append_left, inl, inr, sym,
}
use mizu.Base.Order.{Bytes}
use mizu.Status.{ok, Result-cases}
use mizu.Coding.{encode_fixed32, put_fixed32, put_fixed64}
use mizu.Coding.RoundTrip.{
  length-encode_fixed32, length-encode_fixed64, get_fixed32-encode, get_fixed64-encode,
  put_fixed64-encode, encode_fixed64,
}
use mizu.InternalKey.{max_sequence_number}
use mizu.WriteBatch.{
  OperationType, Operation, WriteBatch, empty_batch, count, max_payload_size, u32_max,
  batch_header_size, has_valid_sequence_range, take_byte, take_bytes, put, erase, append_operations,
  check_operations, encode, decode_operation, decode_operations, decode,
}
use mizu.WriteBatch.Payload.{
  value_bytes, operation_bytes, batch_bytes, operation_size, operations_size, IsNormal,
  append_operations-bytes, length-batch_bytes, check_operations-ok, check_operations-eq_ok,
}

-- What `put` and `erase` do with one decoded operation.
abbrev pub added : WriteBatch → List Operation → WriteBatch
added batch os = record { operations = batch.operations ++ os }

pub take_bytes-append :
    (xs rest : Bytes) (n : ℕ) → length xs ≡ n → take_bytes (xs ++ rest) n ≡ some (xs, rest)
unfolding take_bytes
take_bytes-append xs rest n e =
    ground
      (arith, length-append xs rest, take-append_left n xs rest e, drop-append_left n xs rest e)

decode_operation-bytes :
    (t : OperationType) (k v rest : Bytes) (batch : WriteBatch)
    → let o : Operation = record { type = t; key = k; value = v } in
      IsNormal o
      → operation_size o ≤ max_payload_size
      → decode_operation (operation_bytes o rest) batch ≡ ok (rest, added batch (o ∷ []))
unfolding decode_operation operation_bytes value_bytes take_byte put erase
decode_operation-bytes OperationType.put k v rest batch normal fits = rw (
  get_fixed32-encode (length k) _ (omega arith),
  take_bytes-append k _ (length k) refl,
  get_fixed32-encode (length v) _ (omega arith),
  take_bytes-append v rest (length v) refl,
)
decode_operation-bytes OperationType.delete k v rest batch normal fits =
    rw
      (get_fixed32-encode (length k) _ (omega arith), take_bytes-append k _ (length k) refl, normal)

-- The decoding loop adds the operations of a batch in order, and stops before what follows them.
pub decode_operations-bytes :
    (os : List Operation) (rest : Bytes) (batch : WriteBatch)
    → All IsNormal os
    → operations_size os ≤ max_payload_size
    → decode_operations (length os) (batch_bytes os rest) batch ≡ ok (rest, added batch os)
unfolding decode_operations batch_bytes
decode_operations-bytes [] rest batch normal fits =
    ap (λ os. ok (rest, record { operations = os })) (sym (append-nil batch.operations))
decode_operations-bytes (o ∷ os) rest batch normal fits =
    rw
      (decode_operation-bytes o.type o.key o.value (batch_bytes os rest) batch normal.0
        (omega arith))
      (decode_operations-bytes os rest (added batch (o ∷ [])) normal.1 (omega arith)
        ∙ ap (λ all. ok (rest, record { operations = all }))
            (append_assoc batch.operations (o ∷ []) os))

-- The payload of a batch.
abbrev pub payload : WriteBatch → ℕ → Bytes
payload batch s =
    encode_fixed64 s ++ (encode_fixed32 (count batch) ++ batch_bytes batch.operations [])

pub length-payload :
    (batch : WriteBatch) (s : ℕ) → length (payload batch s) ≡ 12 + operations_size batch.operations
length-payload batch s = omega (
  arith,
  length-append (encode_fixed64 s)
      (encode_fixed32 (count batch) ++ batch_bytes batch.operations []),
  length-append (encode_fixed32 (count batch)) (batch_bytes batch.operations []),
  length-batch_bytes batch.operations [],
  length-encode_fixed64 s,
  length-encode_fixed32 (count batch),
)

-- What a batch must satisfy to be stored at a sequence.
pub record IsEncodable (batch : WriteBatch) (s : ℕ) : Type 0 where
  pub nonempty : 0 < count batch
  pub positive : 0 < s
  pub in_range : s + count batch ≤ max_sequence_number + 1
  pub fits : 12 + operations_size batch.operations ≤ max_payload_size

count-le-size : (os : List Operation) → 5 * length os ≤ operations_size os
count-le-size [] = omega arith
count-le-size (o ∷ os) = omega (arith, count-le-size os)

pub valid_range :
    (s n : ℕ)
    → 0 < n
    → 0 < s
    → s + n ≤ max_sequence_number + 1
    → n ≤ u32_max
    → has_valid_sequence_range s n ≡ true
unfolding has_valid_sequence_range
valid_range s n hn hs hr hu = ground arith

pub valid_range-eq_true :
    (s n : ℕ)
    → has_valid_sequence_range s n ≡ true
    → (0 < n) × (0 < s) × (s + n ≤ max_sequence_number + 1) × (n ≤ u32_max)
unfolding has_valid_sequence_range
valid_range-eq_true s n h = ground arith

written :
    (batch : WriteBatch) (s : ℕ)
    → append_operations batch.operations (put_fixed32 (put_fixed64 [] s) (count batch))
      ≡ payload batch s
unfolding put_fixed32
written batch s =
    sym (append-nil _)
    ∙ append_operations-bytes batch.operations _ []
    ∙ rw put_fixed64-encode (append_assoc (encode_fixed64 s) _ _)

-- An encodable batch is written as its payload.
pub encode-ok :
    (batch : WriteBatch) (s : ℕ) → IsEncodable batch s → encode batch s ≡ ok (payload batch s)
unfolding encode
encode-ok batch s h =
    let range =
      valid_range s (count batch) h.nonempty h.positive h.in_range
        (omega (arith, h.fits, count-le-size batch.operations)) in
    let some_count : (count batch == 0) ≡ false = ground (arith, h.nonempty) in
    rw (
      some_count,
      range,
      check_operations-ok batch.operations batch_header_size h.fits,
      written batch s,
    )

-- Nothing else is written.
pub encode-eq_ok :
    (batch : WriteBatch) (s : ℕ) (bytes : Bytes)
    → encode batch s ≡ ok bytes
    → IsEncodable batch s × (bytes ≡ payload batch s)
unfolding encode
encode-eq_ok batch s bytes e = elim (Result-cases (check_operations batch.operations 12)) [
  | inl (n, checked) ↦ ground (
    arith,
    checked,
    check_operations-eq_ok batch.operations 12 n (omega arith) checked,
    valid_range-eq_true s (count batch),
    written batch s,
  )
  | inr (status, failed) ↦ ground (arith, failed)
]

-- A payload that `encode` wrote for a batch whose deletions hold no value decodes to that batch and
-- its sequence.
pub decode-encode :
    (batch : WriteBatch) (s : ℕ) (bytes : Bytes)
    → All IsNormal batch.operations
    → encode batch s ≡ ok bytes
    → decode bytes ≡ ok (s, batch)
unfolding decode
decode-encode batch s bytes normal e =
    let (valid, same) = encode-eq_ok batch s bytes e in
    let n = count batch in
    let size = count-le-size batch.operations in
    let long : ltb (length (payload batch s)) batch_header_size ≡ false =
      ground (arith, length-payload batch s) in
    let short : ltb max_payload_size (length (payload batch s)) ≡ false =
      ground (arith, length-payload batch s, valid.fits) in
    let room : ltb (length (batch_bytes batch.operations []) / 5) n ≡ false =
      ground (arith, length-batch_bytes batch.operations [], size) in
    rw (
      same,
      long,
      short,
      get_fixed64-encode s _ (omega (arith, valid.in_range)),
      get_fixed32-encode n _ (omega (arith, valid.fits, size)),
      valid_range s n valid.nonempty valid.positive valid.in_range
          (omega (arith, valid.fits, size)),
      room,
      decode_operations-bytes batch.operations [] empty_batch normal (omega (arith, valid.fits)),
    )
