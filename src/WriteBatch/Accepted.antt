-- ===== src/WriteBatch/Accepted.antt =====
-- What `WriteBatchCodec::decode` accepts: the payloads that `encode` writes, and no others.
use mizu.Base.{
  All-append_right, ℕ, zero, suc, ◌≤◌, ◌≡◌, refl, ap, ◌∙◌, List, [], ◌∷◌, ◌++◌, true, ◌==◌, length,
  All, arith, append_assoc, append-nil, some, sym, take-append-drop, length-take, inl, inr,
  Bool-cases, Option-cases, subst, length-eq_zero,
}
use mizu.Base.Order.{Bytes}
use mizu.Status.{Result, ok, >>=-eq-ok, Result-cases}
use mizu.Coding.{IsByte, encode_fixed32, get_fixed32, get_fixed64}
use mizu.Coding.RoundTrip.{encode_fixed64, get_fixed32-eq_some, get_fixed64-eq_some}
use mizu.WriteBatch.{
  OperationType, Operation, WriteBatch, empty_batch, count, has_valid_sequence_range,
  max_payload_size, take_byte, take_bytes, put, erase, encode, decode_value, decode_operation,
  decode_operations, decode,
}
use mizu.WriteBatch.Payload.{value_bytes, operation_bytes, batch_bytes, IsNormal}
use mizu.WriteBatch.RoundTrip.{
  added, payload, IsEncodable, encode-ok, valid_range-eq_true, length-payload,
}

-- A length-prefixed string that was read stood at the front of the input.
take_bytes-eq_some :
    (input value rest : Bytes) (n : ℕ)
    → take_bytes input n ≡ some (value, rest)
    → (input ≡ value ++ rest) × (length value ≡ n)
unfolding take_bytes
take_bytes-eq_some input value rest n h =
    ground (arith, take-append-drop n input, length-take n input)

prefixed-eq_some :
    (cursor : Bytes) (n : ℕ) (more value rest : Bytes)
    → All IsByte cursor
    → get_fixed32 cursor ≡ some (n, more)
    → take_bytes more n ≡ some (value, rest)
    → (cursor ≡ encode_fixed32 (length value) ++ (value ++ rest)) × All IsByte rest
prefixed-eq_some cursor n more value rest bytes h k =
    let (whole, fits) = get_fixed32-eq_some cursor n more bytes h in
    let (split, size) = take_bytes-eq_some more value rest n k in
    let same : cursor ≡ encode_fixed32 (length value) ++ (value ++ rest) =
      whole
      ∙ ap (λ m. encode_fixed32 n ++ m) split
      ∙ ap (λ m. encode_fixed32 m ++ (value ++ rest)) (sym size) in
    (
      same,
      All-append_right IsByte value rest (
          All-append_right IsByte (encode_fixed32 (length value)) (value ++ rest)
            (subst (All IsByte) same bytes)),
    )

-- What one round of the decoding loop consumed.
record Consumed (cursor : Bytes) (batch : WriteBatch) (rest : Bytes) (after : WriteBatch)
    : Type 0 where
  operation : Operation
  normal : IsNormal operation
  bytes : cursor ≡ operation_bytes operation rest
  grown : after ≡ added batch (operation ∷ [])
  left : All IsByte rest

Consumed-put :
    (cursor key after_key : Bytes) (batch : WriteBatch) (rest : Bytes) (after : WriteBatch)
    → All IsByte after_key
    → cursor ≡ encode_fixed32 (length key) ++ (key ++ after_key)
    → decode_value 1 key after_key batch ≡ ok (rest, after)
    → Consumed (1 ∷ cursor) batch rest after
unfolding decode_value operation_bytes value_bytes put
Consumed-put cursor key after_key batch rest after bytes split h =
    elim (Option-cases (get_fixed32 after_key)) [
      | inl e ↦ absurd (ground (arith, e))
      | inr ((n, more), e) ↦ elim (Option-cases (take_bytes more n)) [
        | inl k ↦ absurd (ground (arith, e, k))
        | inr ((value, tail), k) ↦
            let (same, good) = prefixed-eq_some after_key n more value tail bytes e k in
            let result : ◌≡◌ {A = Result (Bytes × WriteBatch)} (ok (tail, put batch key value))
                (ok (rest, after)) =
              rw (e, k) at h in
            let same_rest : tail ≡ rest = cc in
            record {
              operation = record { type = OperationType.put; key = key; value = value };
              normal = tt;
              bytes = ap (◌∷◌ 1) split ∙ cc (same, same_rest);
              grown = cc;
              left = subst (All IsByte) same_rest good;
            }
      ]
    ]

Consumed-delete :
    (cursor key after_key : Bytes) (batch : WriteBatch) (rest : Bytes) (after : WriteBatch)
    → All IsByte after_key
    → cursor ≡ encode_fixed32 (length key) ++ (key ++ after_key)
    → decode_value 2 key after_key batch ≡ ok (rest, after)
    → Consumed (2 ∷ cursor) batch rest after
unfolding decode_value operation_bytes value_bytes erase
Consumed-delete cursor key after_key batch rest after bytes split h =
    let same_rest : after_key ≡ rest = cc in
    record {
      operation = record { type = OperationType.delete; key = key; value = [] };
      normal = refl;
      bytes = ap (◌∷◌ 2) split ∙ cc (same_rest);
      grown = cc;
      left = subst (All IsByte) same_rest bytes;
    }

decode_operation-eq_ok :
    (cursor : Bytes) (batch : WriteBatch) (rest : Bytes) (after : WriteBatch)
    → All IsByte cursor
    → decode_operation cursor batch ≡ ok (rest, after)
    → Consumed cursor batch rest after
unfolding decode_operation take_byte
decode_operation-eq_ok [] batch rest after bytes h = cc
decode_operation-eq_ok (b ∷ cursor) batch rest after bytes h =
    elim (Option-cases (get_fixed32 cursor)) [
      | inl e ↦ absurd (ground (arith, e))
      | inr ((n, more), e) ↦ elim (Option-cases (take_bytes more n)) [
        | inl k ↦ absurd (ground (arith, e, k))
        | inr ((key, after_key), k) ↦
            let (same, good) = prefixed-eq_some cursor n more key after_key bytes.1 e k in
            elim (Bool-cases (b == 1)) [
              | inl is_put ↦
                  let b1 : b ≡ 1 = ground arith in
                  subst (λ x. Consumed (x ∷ cursor) batch rest after) (sym b1)
                    (Consumed-put cursor key after_key batch rest after good same
                      (rw (b1, e, k) at h))
              | inr not_put ↦ elim (Bool-cases (b == 2)) [
                | inl is_delete ↦
                    let b2 : b ≡ 2 = ground arith in
                    subst (λ x. Consumed (x ∷ cursor) batch rest after) (sym b2)
                      (Consumed-delete cursor key after_key batch rest after good same
                        (rw (b2, e, k) at h))
                | inr unknown ↦ absurd (ground (arith, not_put, unknown))
              ]
            ]
      ]
    ]

-- What the whole loop consumed.
record ConsumedAll (n : ℕ) (cursor : Bytes) (batch : WriteBatch) (rest : Bytes) (after : WriteBatch)
    : Type 0 where
  operations : List Operation
  counted : length operations ≡ n
  normal : All IsNormal operations
  bytes : cursor ≡ batch_bytes operations rest
  grown : after ≡ added batch operations

decode_operations-eq_ok :
    (n : ℕ) (cursor : Bytes) (batch : WriteBatch) (rest : Bytes) (after : WriteBatch)
    → All IsByte cursor
    → decode_operations n cursor batch ≡ ok (rest, after)
    → ConsumedAll n cursor batch rest after
unfolding decode_operations batch_bytes
decode_operations-eq_ok zero cursor batch rest after bytes h = record {
  operations = [];
  counted = refl;
  normal = tt;
  bytes = cc;
  grown = sym (ap (λ os. record { operations = os }) (append-nil batch.operations) ∙ cc);
}
decode_operations-eq_ok (suc n) cursor batch rest after bytes h =
    let ((mid, more), first, later) =
      >>=-eq-ok (decode_operation cursor batch) (λ r. decode_operations n r.0 r.1) h in
    let one = decode_operation-eq_ok cursor batch mid more bytes first in
    let all = decode_operations-eq_ok n mid more rest after one.left later in
    record {
      operations = one.operation ∷ all.operations;
      counted = ap suc all.counted;
      normal = (one.normal, all.normal);
      bytes = one.bytes ∙ ap (operation_bytes one.operation) all.bytes;
      grown =
          all.grown
          ∙ ap (λ b. added b all.operations) one.grown
          ∙ ap (λ os. record { operations = os })
              (append_assoc batch.operations (one.operation ∷ []) all.operations);
    }

-- A cursor that was consumed to its end, behind a header, is the payload of the batch.
accepted :
    (input after_sequence cursor rest : Bytes) (s n : ℕ) (batch : WriteBatch)
    → All IsByte input
    → get_fixed64 input ≡ some (s, after_sequence)
    → get_fixed32 after_sequence ≡ some (n, cursor)
    → decode_operations n cursor empty_batch ≡ ok (rest, batch)
    → length rest ≡ 0
    → (input ≡ payload batch s) × (n ≡ count batch) × All IsNormal batch.operations
accepted input after_sequence cursor rest s n batch bytes e k r ends =
    let (sequence, _) = get_fixed64-eq_some input s after_sequence bytes e in
    let tail_bytes =
      All-append_right IsByte (encode_fixed64 s) after_sequence
        (subst (All IsByte) sequence bytes) in
    let (header, _) = get_fixed32-eq_some after_sequence n cursor tail_bytes k in
    let cursor_bytes =
      All-append_right IsByte (encode_fixed32 n) cursor (subst (All IsByte) header tail_bytes) in
    let all = decode_operations-eq_ok n cursor empty_batch rest batch cursor_bytes r in
    let os : batch.operations ≡ all.operations = ap (λ (b : WriteBatch). b.operations) all.grown in
    let counted : n ≡ count batch = sym all.counted ∙ ap length (sym os) in
    let body : cursor ≡ batch_bytes batch.operations [] =
      all.bytes
      ∙ ap (batch_bytes all.operations) (length-eq_zero rest ends)
      ∙ ap (λ l. batch_bytes l []) (sym os) in
    (
      sequence
          ∙ ap (λ t. encode_fixed64 s ++ t)
              (header
                ∙ ap (λ m. encode_fixed32 m ++ cursor) counted
                ∙ ap (λ t. encode_fixed32 (count batch) ++ t) body),
      counted,
      subst (All IsNormal) (sym os) all.normal,
    )

-- A payload of bytes that decodes to a batch and a sequence is the one that `encode` writes for them,
-- and the deletions of the batch hold no value.
pub encode-decode :
    (input : Bytes) (s : ℕ) (batch : WriteBatch)
    → All IsByte input
    → decode input ≡ ok (s, batch)
    → (encode batch s ≡ ok input) × All IsNormal batch.operations
unfolding decode
encode-decode input s batch bytes h = elim (Option-cases (get_fixed64 input)) [
  | inl e ↦ absurd (ground (arith, e))
  | inr ((q, after_sequence), e) ↦ elim (Option-cases (get_fixed32 after_sequence)) [
    | inl k ↦ absurd (ground (arith, e, k))
    | inr ((n, cursor), k) ↦ elim (Result-cases (decode_operations n cursor empty_batch)) [
      | inr (status, r) ↦ absurd (ground (arith, e, k, r))
      | inl ((rest, decoded), r) ↦
          let ends : length rest ≡ 0 = ground (arith, e, k, r) in
          let range : has_valid_sequence_range q n ≡ true = ground (arith, e, k, r) in
          let small : length input ≤ max_payload_size = ground (arith, e, k, r) in
          let same_s : q ≡ s = ground (arith, e, k, r) in
          let same_b : decoded ≡ batch = ground (arith, e, k, r) in
          let (whole, counted, normal) =
            accepted input after_sequence cursor rest q n decoded bytes e k r ends in
          let (a, b, c, d) = valid_range-eq_true q n range in
          let valid : IsEncodable decoded q =
            omega (arith, counted, ap length whole, length-payload decoded q) in
          subst (λ x. (encode batch x ≡ ok input) × All IsNormal batch.operations) same_s
            (subst (λ x. (encode x q ≡ ok input) × All IsNormal x.operations) same_b
              (encode-ok decoded q valid ∙ ap ok (sym whole), normal))
    ]
  ]
]
