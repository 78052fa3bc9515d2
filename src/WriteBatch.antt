-- ===== src/WriteBatch.antt =====
-- engine/lsmtree/src/db/write_batch.cc, write_batch_internal.h and write_batch_codec.cc: a batch of
-- operations, and the payload that stores it in one WAL record.
mod Rep
pub mod Payload
pub mod RoundTrip
pub mod Accepted
pub use Rep.{OperationType, Operation, WriteBatch}
use mizu.Base.{
  ℕ, zero, suc, ◌+◌, ◌-◌, ◌*◌, ◌/◌, ◌^◌, Bool, true, false, not, ◌&&◌, ◌||◌, Option, none, some,
  List, [], ◌∷◌, ◌++◌, ltb, ◌==◌, if◌then◌else◌, length, take, drop,
}
use mizu.Base.Order.{Bytes}
use mizu.Status.{
  Status, Result, ok, err, ◌>>=◌, ◌>>◌, require, or_error, invalid_argument, corruption,
}
use mizu.Coding.{put_fixed32, put_fixed64, get_fixed32, get_fixed64}
use mizu.InternalKey.{max_sequence_number}

abbrev pub empty_batch : WriteBatch
empty_batch = record { operations = [] }

unfoldable pub put : WriteBatch → Bytes → Bytes → WriteBatch
put batch key value = record {
  operations =
      batch.operations ++ record { type = OperationType.put; key = key; value = value } ∷ [];
}

unfoldable pub erase : WriteBatch → Bytes → WriteBatch
erase batch key = record {
  operations =
      batch.operations ++ record { type = OperationType.delete; key = key; value = [] } ∷ [];
}

abbrev pub clear : WriteBatch → WriteBatch
clear batch = record { operations = [] }

abbrev pub empty : WriteBatch → Bool
empty batch = length batch.operations == 0

abbrev pub count : WriteBatch → ℕ
count batch = length batch.operations

abbrev pub max_payload_size : ℕ
max_payload_size = 64 * 1024 * 1024

abbrev pub u32_max : ℕ
u32_max = 2 ^ 32 - 1

-- kPutRecord and kDeleteRecord
abbrev pub record_type : OperationType → ℕ
record_type OperationType.put = 1
record_type OperationType.delete = 2

abbrev pub batch_header_size : ℕ
batch_header_size = 8 + 4

abbrev pub operation_header_size : ℕ
operation_header_size = 1 + 4

unfoldable pub has_valid_sequence_range : ℕ → ℕ → Bool
has_valid_sequence_range first_sequence operation_count =
    if first_sequence == 0
      || ltb max_sequence_number first_sequence
      || operation_count == 0
      || ltb u32_max operation_count
    then false
    else not (ltb (max_sequence_number - first_sequence) (operation_count - 1))

-- `total` never passes the limit, so the difference does not wrap.
unfoldable pub add_encoded_size : ℕ → ℕ → Option ℕ
add_encoded_size amount total =
    if ltb (max_payload_size - total) amount then none else some (total + amount)

unfoldable pub take_byte : Bytes → Option (ℕ × Bytes)
take_byte [] = none
take_byte (b ∷ input) = some (b, input)

unfoldable pub take_bytes : Bytes → ℕ → Option (Bytes × Bytes)
take_bytes input size =
    if ltb (length input) size then none else some (take size input, drop size input)

abbrev pub too_large : Status
too_large = invalid_argument "write batch payload exceeds 64 MiB"

unfoldable pub check_value : Operation → ℕ → Result ℕ
unfolding add_encoded_size
check_value operation total = elim operation.type [
  | OperationType.put ↦ do
    require (not (ltb u32_max (length operation.value)))
        (invalid_argument "write batch value is too large")
    with_size ← or_error (add_encoded_size 4 total) too_large
    or_error (add_encoded_size (length operation.value) with_size) too_large
  | OperationType.delete ↦ ok total
]

-- The round of the validating loop for one operation, on the size that is counted so far.
unfoldable pub check_operation : Operation → ℕ → Result ℕ
unfolding add_encoded_size check_value
check_operation operation total = do
  require (not (ltb u32_max (length operation.key)))
      (invalid_argument "write batch key is too large")
  with_header ← or_error (add_encoded_size operation_header_size total) too_large
  with_key ← or_error (add_encoded_size (length operation.key) with_header) too_large
  check_value operation with_key

unfoldable pub check_operations : List Operation → ℕ → Result ℕ
check_operations [] total = ok total
check_operations (operation ∷ rest) total = do
  more ← check_operation operation total
  check_operations rest more

unfoldable pub append_value : Operation → Bytes → Bytes
append_value operation encoded = elim operation.type [
  | OperationType.put ↦ put_fixed32 encoded (length operation.value) ++ operation.value
  | OperationType.delete ↦ encoded
]

unfoldable pub append_operation : Operation → Bytes → Bytes
unfolding append_value
append_operation operation encoded = append_value operation (
    put_fixed32 (encoded ++ record_type operation.type ∷ []) (length operation.key)
    ++ operation.key)

unfoldable pub append_operations : List Operation → Bytes → Bytes
append_operations [] encoded = encoded
append_operations (operation ∷ rest) encoded =
    append_operations rest (append_operation operation encoded)

unfoldable pub encode : WriteBatch → ℕ → Result Bytes
encode batch first_sequence = do
  require (not (count batch == 0)) (invalid_argument "cannot encode an empty write batch")
  require (has_valid_sequence_range first_sequence (count batch))
      (invalid_argument "invalid write batch sequence range")
  encoded_size ← check_operations batch.operations batch_header_size
  ok (
      append_operations batch.operations
        (put_fixed32 (put_fixed64 [] first_sequence) (count batch)))

unfoldable pub decode_value : ℕ → Bytes → Bytes → WriteBatch → Result (Bytes × WriteBatch)
decode_value operation_type key cursor batch =
    if operation_type == 1
    then (do
      (value_length, after_length) ←
          or_error (get_fixed32 cursor) (corruption "truncated write batch value length")
      (value, rest) ←
          or_error (take_bytes after_length value_length) (corruption "truncated write batch value")
      ok (rest, put batch key value))
    else ok (cursor, erase batch key)

-- One round of the decoding loop: the cursor and the batch behind it.
unfoldable pub decode_operation : Bytes → WriteBatch → Result (Bytes × WriteBatch)
unfolding decode_value
decode_operation cursor batch = do
  (operation_type, after_type) ←
      or_error (take_byte cursor) (corruption "missing write batch operation type")
  require (operation_type == 1 || operation_type == 2)
      (corruption "unknown write batch operation type")
  (key_length, after_length) ←
      or_error (get_fixed32 after_type) (corruption "truncated write batch key length")
  (key, after_key) ←
      or_error (take_bytes after_length key_length) (corruption "truncated write batch key")
  decode_value operation_type key after_key batch

unfoldable pub decode_operations : ℕ → Bytes → WriteBatch → Result (Bytes × WriteBatch)
decode_operations zero cursor batch = ok (cursor, batch)
decode_operations (suc rounds) cursor batch = do
  (rest, more) ← decode_operation cursor batch
  decode_operations rounds rest more

unfoldable pub decode : Bytes → Result (ℕ × WriteBatch)
decode input = do
  require (not (ltb (length input) batch_header_size))
      (corruption "write batch payload is shorter than its header")
  require (not (ltb max_payload_size (length input)))
      (corruption "write batch payload exceeds 64 MiB")
  (first_sequence, after_sequence) ←
      or_error (get_fixed64 input) (corruption "invalid write batch header")
  (operation_count, cursor) ←
      or_error (get_fixed32 after_sequence) (corruption "invalid write batch header")
  require (has_valid_sequence_range first_sequence operation_count)
      (corruption "invalid write batch sequence range")
  require (not (ltb (length cursor / operation_header_size) operation_count))
      (corruption "write batch operation count exceeds payload")
  (rest, batch) ← decode_operations operation_count cursor empty_batch
  require (length rest == 0) (corruption "write batch payload has trailing bytes")
  ok (first_sequence, batch)
