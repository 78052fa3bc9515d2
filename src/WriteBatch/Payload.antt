-- ===== src/WriteBatch/Payload.antt =====
-- The bytes of a payload, described apart from the code that appends them.
use mizu.Base.{
  ℕ, ◌+◌, ◌≤◌, ◌≡◌, refl, ap, ◌∙◌, List, [], ◌∷◌, ◌++◌, length, arith, append_assoc, length-append,
}
use mizu.Base.Order.{Bytes}
use mizu.Status.{ok, >>=-eq-ok}
use mizu.Coding.{encode_fixed32, put_fixed32}
use mizu.Coding.RoundTrip.{length-encode_fixed32}
use mizu.WriteBatch.{
  OperationType, Operation, max_payload_size, record_type, check_operation, check_operations,
  append_value, append_operation, append_operations,
}

-- A record followed by `rest`: type, key length, key, and for a put value length and value.
unfoldable pub value_bytes : Operation → Bytes → Bytes
value_bytes o rest = elim o.type [
  | OperationType.put ↦ encode_fixed32 (length o.value) ++ (o.value ++ rest)
  | OperationType.delete ↦ rest
]

unfoldable pub operation_bytes : Operation → Bytes → Bytes
operation_bytes o rest =
    record_type o.type ∷ encode_fixed32 (length o.key) ++ (o.key ++ value_bytes o rest)

unfoldable pub batch_bytes : List Operation → Bytes → Bytes
batch_bytes [] rest = rest
batch_bytes (o ∷ os) rest = operation_bytes o (batch_bytes os rest)

abbrev pub value_size : Operation → ℕ
value_size o = elim o.type [ OperationType.put ↦ 4 + length o.value | OperationType.delete ↦ 0 ]

abbrev pub operation_size : Operation → ℕ
operation_size o = 5 + length o.key + value_size o

abbrev pub operations_size : List Operation → ℕ
operations_size [] = 0
operations_size (o ∷ os) = operation_size o + operations_size os

-- `erase` stores no value: what `put` and `erase` build.
abbrev pub IsNormal : Operation → Type 0
IsNormal o = elim o.type [ OperationType.put ↦ Unit {0} | OperationType.delete ↦ o.value ≡ [] ]

append_value-bytes :
    (t : OperationType) (k v dst rest : Bytes)
    → let o : Operation = record { type = t; key = k; value = v } in
      append_value o dst ++ rest ≡ dst ++ value_bytes o rest
unfolding append_value value_bytes put_fixed32
append_value-bytes OperationType.put k v dst rest = simp append_assoc
append_value-bytes OperationType.delete k v dst rest = refl

append_operation-bytes :
    (o : Operation) (dst rest : Bytes)
    → append_operation o dst ++ rest ≡ dst ++ operation_bytes o rest
unfolding append_operation operation_bytes put_fixed32
append_operation-bytes o dst rest =
    append_value-bytes o.type o.key o.value _ rest ∙ simp append_assoc

-- Appending operations to an output adds their records behind it.
pub append_operations-bytes :
    (os : List Operation) (dst rest : Bytes)
    → append_operations os dst ++ rest ≡ dst ++ batch_bytes os rest
unfolding append_operations batch_bytes
append_operations-bytes [] dst rest = refl
append_operations-bytes (o ∷ os) dst rest =
    append_operations-bytes os (append_operation o dst) rest
    ∙ append_operation-bytes o dst (batch_bytes os rest)

length-value_bytes :
    (t : OperationType) (k v rest : Bytes)
    → let o : Operation = record { type = t; key = k; value = v } in
      length (value_bytes o rest) ≡ value_size o + length rest
unfolding value_bytes
length-value_bytes OperationType.put k v rest = omega (
  arith,
  length-append (encode_fixed32 (length v)) (v ++ rest),
  length-append v rest,
  length-encode_fixed32 (length v),
)
length-value_bytes OperationType.delete k v rest = omega arith

pub length-operation_bytes :
    (o : Operation) (rest : Bytes)
    → length (operation_bytes o rest) ≡ operation_size o + length rest
unfolding operation_bytes
length-operation_bytes o rest = omega (
  arith,
  length-append (encode_fixed32 (length o.key)) (o.key ++ value_bytes o rest),
  length-append o.key (value_bytes o rest),
  length-encode_fixed32 (length o.key),
  length-value_bytes o.type o.key o.value rest,
)

pub length-batch_bytes :
    (os : List Operation) (rest : Bytes)
    → length (batch_bytes os rest) ≡ operations_size os + length rest
unfolding batch_bytes
length-batch_bytes [] rest = omega arith
length-batch_bytes (o ∷ os) rest =
    omega (arith, length-operation_bytes o (batch_bytes os rest), length-batch_bytes os rest)

-- The validating loop counts the size of the records, and accepts what fits the limit.
check_operation-ok :
    (t : OperationType) (k v : Bytes) (total : ℕ)
    → let o : Operation = record { type = t; key = k; value = v } in
      total + operation_size o ≤ max_payload_size
      → check_operation o total ≡ ok (total + operation_size o)
unfolding check_operation
check_operation-ok OperationType.put k v total h = ground arith
check_operation-ok OperationType.delete k v total h = ground arith

check_operation-eq_ok :
    (t : OperationType) (k v : Bytes) (total after : ℕ)
    → let o : Operation = record { type = t; key = k; value = v } in
      total ≤ max_payload_size
      → check_operation o total ≡ ok after
      → (after ≡ total + operation_size o) × (after ≤ max_payload_size)
unfolding check_operation
check_operation-eq_ok OperationType.put k v total after h e = ground arith
check_operation-eq_ok OperationType.delete k v total after h e = ground arith

pub check_operations-ok :
    (os : List Operation) (total : ℕ)
    → total + operations_size os ≤ max_payload_size
    → check_operations os total ≡ ok (total + operations_size os)
unfolding check_operations
check_operations-ok [] total h = ap ok (omega arith)
check_operations-ok (o ∷ os) total h =
    rw (check_operation-ok o.type o.key o.value total (omega arith))
      (check_operations-ok os (total + operation_size o) (omega arith) ∙ ap ok (omega arith))

pub check_operations-eq_ok :
    (os : List Operation) (total after : ℕ)
    → total ≤ max_payload_size
    → check_operations os total ≡ ok after
    → (after ≡ total + operations_size os) × (after ≤ max_payload_size)
unfolding check_operations
check_operations-eq_ok [] total after h e = ground arith
check_operations-eq_ok (o ∷ os) total after h e =
    let (mid, first, more) = >>=-eq-ok (check_operation o total) (check_operations os) e in
    let (sum, fits) = check_operation-eq_ok o.type o.key o.value total mid h first in
    let (all, ends) = check_operations-eq_ok os mid after fits more in (omega arith, ends)
