-- ===== src/Tests/Codec.antt =====
-- util/coding.cc, util/crc32c.cc, db/internal_key.cc and db/write_batch_codec.cc at concrete inputs.
use mizu.Base.{◌≤◌, ◌≡◌, refl, true, none, some, [], ◌∷◌, ◌++◌, All, arith}
use mizu.Base.Order.{Bytes, slice_compare}
use mizu.Status.{ok, err, corruption}
use mizu.Coding.{
  IsU64, put_fixed64, get_fixed64, get_fixed32, encode_fixed32, decode_fixed64, decode_fixed32,
  put_fixed32,
}
use mizu.Coding.RoundTrip.{encode_fixed64, put_fixed64_round_trip, get_fixed64-eq_some}
use mizu.Crc.{crc32c}
use mizu.InternalKey.{
  ValueType, max_sequence_number, encode_internal_key, parse_internal_key, internal_key_less,
  user_then_tag_less, decode_tag,
}
use mizu.InternalKey.Format.{parse_internal_key-encode, encode_internal_key-parse}
use mizu.InternalKey.Order.{internal_key_less_trans, internal_key_less_total, less_lookup_key}
use mizu.WriteBatch.{
  OperationType, WriteBatch, empty_batch, put, erase, encode, decode, decode_operations,
  decode_operation, has_valid_sequence_range, take_byte, take_bytes, check_operations,
  check_operation, append_operations, append_operation,
}
use mizu.WriteBatch.Payload.{IsNormal}
use mizu.WriteBatch.RoundTrip.{decode-encode}
use mizu.WriteBatch.Accepted.{encode-decode}

-- The check value of CRC-32C: the CRC of "123456789".
crc32c_check : crc32c (49 ∷ 50 ∷ 51 ∷ 52 ∷ 53 ∷ 54 ∷ 55 ∷ 56 ∷ 57 ∷ []) ≡ 0xe3069283
unfolding crc32c
crc32c_check = refl

fixed64_bytes : put_fixed64 (9 ∷ []) 0x0102 ≡ 9 ∷ 2 ∷ 1 ∷ 0 ∷ 0 ∷ 0 ∷ 0 ∷ 0 ∷ 0 ∷ []
unfolding put_fixed64
fixed64_bytes = refl

put_fixed64_round_trip_example : get_fixed64 (put_fixed64 [] 258 ++ 5 ∷ []) ≡ some (258, 5 ∷ [])
put_fixed64_round_trip_example = put_fixed64_round_trip 258 (5 ∷ []) (omega arith)

get_fixed64-eq_some_example :
    (2 ∷ 1 ∷ 0 ∷ 0 ∷ 0 ∷ 0 ∷ 0 ∷ 0 ∷ 5 ∷ [] ≡ encode_fixed64 258 ++ 5 ∷ []) × IsU64 258
unfolding get_fixed64 decode_fixed64
get_fixed64-eq_some_example =
    get_fixed64-eq_some (2 ∷ 1 ∷ 0 ∷ 0 ∷ 0 ∷ 0 ∷ 0 ∷ 0 ∷ 5 ∷ []) 258 (5 ∷ []) (omega arith) refl

parse_internal_key-encode_example :
    parse_internal_key (encode_internal_key (97 ∷ []) 300 ValueType.value)
    ≡ some (record { user_key = 97 ∷ []; sequence = 300; type = ValueType.value })
parse_internal_key-encode_example =
    parse_internal_key-encode (97 ∷ []) 300 ValueType.value (omega arith)

abbrev stored_key : Bytes
stored_key = 97 ∷ 1 ∷ 44 ∷ 1 ∷ 0 ∷ 0 ∷ 0 ∷ 0 ∷ 0 ∷ []

encode_internal_key-parse_example :
    (encode_internal_key (97 ∷ []) 300 ValueType.value ≡ stored_key) × (300 ≤ max_sequence_number)
unfolding parse_internal_key decode_tag get_fixed64 decode_fixed64
encode_internal_key-parse_example =
    encode_internal_key-parse stored_key
      (record { user_key = 97 ∷ []; sequence = 300; type = ValueType.value }) (omega arith) refl

-- A tag with an unknown type byte is refused.
parse_unknown_type : parse_internal_key (97 ∷ 2 ∷ 0 ∷ 0 ∷ 0 ∷ 0 ∷ 0 ∷ 0 ∷ 0 ∷ []) ≡ none
unfolding parse_internal_key decode_tag get_fixed64 decode_fixed64
parse_unknown_type = refl

abbrev older_key : Bytes
older_key = 97 ∷ 1 ∷ 43 ∷ 1 ∷ 0 ∷ 0 ∷ 0 ∷ 0 ∷ 0 ∷ []

abbrev next_key : Bytes
next_key = 98 ∷ 1 ∷ 43 ∷ 1 ∷ 0 ∷ 0 ∷ 0 ∷ 0 ∷ 0 ∷ []

internal_key_less_trans_example : internal_key_less stored_key next_key ≡ true
unfolding internal_key_less user_then_tag_less slice_compare decode_tag get_fixed64 decode_fixed64
internal_key_less_trans_example =
    internal_key_less_trans stored_key older_key next_key (omega arith) (omega arith) (omega arith)
      refl refl

internal_key_less_total_example : stored_key ≡ stored_key
unfolding internal_key_less user_then_tag_less slice_compare decode_tag get_fixed64 decode_fixed64
internal_key_less_total_example =
    internal_key_less_total stored_key stored_key (omega arith) (omega arith) (omega arith)
      (omega arith) refl refl

less_lookup_key_example :
    internal_key_less
      (encode_internal_key (97 ∷ []) 300 ValueType.deletion)
      (encode_internal_key (97 ∷ []) 299 ValueType.value)
    ≡ true
less_lookup_key_example =
    less_lookup_key (97 ∷ []) 299 300 ValueType.deletion (omega arith) (omega arith)

abbrev two_operations : WriteBatch
two_operations = record {
  operations =
      record { type = OperationType.put; key = 97 ∷ []; value = 98 ∷ [] }
      ∷ record { type = OperationType.delete; key = 99 ∷ []; value = [] }
      ∷ [];
}

two_operations_built : erase (put empty_batch (97 ∷ []) (98 ∷ [])) (99 ∷ []) ≡ two_operations
unfolding erase put
two_operations_built = refl

abbrev two_operations_payload : Bytes
two_operations_payload =
    7 ∷ 0 ∷ 0 ∷ 0 ∷ 0 ∷ 0 ∷ 0 ∷ 0 ∷ 2 ∷ 0 ∷ 0 ∷ 0 ∷ 1 ∷ 1 ∷ 0 ∷ 0 ∷ 0 ∷ 97 ∷ 1 ∷ 0 ∷ 0 ∷ 0 ∷ 98 ∷ 2
    ∷ 1 ∷ 0 ∷ 0 ∷ 0 ∷ 99 ∷ []

encode-two_operations : encode two_operations 7 ≡ ok two_operations_payload
unfolding encode has_valid_sequence_range check_operations check_operation append_operations
    append_operation put_fixed32 put_fixed64 encode_fixed32
encode-two_operations = refl

decode-two_operations : decode two_operations_payload ≡ ok (7, two_operations)
unfolding decode decode_operations decode_operation has_valid_sequence_range take_byte take_bytes
    get_fixed32 get_fixed64 decode_fixed32 decode_fixed64 put erase
decode-two_operations = refl

decode_cut :
    decode (7 ∷ 0 ∷ 0 ∷ 0 ∷ 0 ∷ 0 ∷ 0 ∷ 0 ∷ 1 ∷ 0 ∷ 0 ∷ 0 ∷ 1 ∷ 9 ∷ 0 ∷ 0 ∷ 0 ∷ 97 ∷ [])
    ≡ err (corruption "truncated write batch key")
unfolding decode decode_operations decode_operation has_valid_sequence_range take_byte take_bytes
    get_fixed32 get_fixed64 decode_fixed32 decode_fixed64
decode_cut = refl

decode-encode_example : decode two_operations_payload ≡ ok (7, two_operations)
decode-encode_example =
    decode-encode two_operations 7 two_operations_payload (tt, (refl, tt)) encode-two_operations

encode-decode_example :
    (encode two_operations 7 ≡ ok two_operations_payload) × All IsNormal two_operations.operations
encode-decode_example =
    encode-decode two_operations_payload 7 two_operations (omega arith) decode-two_operations
