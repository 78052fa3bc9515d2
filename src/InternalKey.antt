-- ===== src/InternalKey.antt =====
-- engine/lsmtree/src/db/internal_key.{h,cc}: a user key with an eight-byte tag behind it, which
-- holds the sequence in its high 56 bits and the value type in its low 8.
pub mod Format
pub mod Order
use mizu.Base.{
  ℕ, ◌+◌, ◌-◌, ◌*◌, ◌/◌, ◌%◌, ◌^◌, ◌≤◌, Ordering, Bool, true, false, bit_or, Option, none, some,
  ltb, ◌==◌, if◌then◌else◌, length, take, drop,
}
use mizu.Base.Order.{Bytes, slice_compare}
use mizu.Coding.{put_fixed64, get_fixed64}

abbrev pub max_sequence_number : ℕ
max_sequence_number = 2 ^ 56 - 1

pub data ValueType : Type 0 where
  deletion value : ValueType

abbrev pub tag_size : ℕ
tag_size = 8

-- `static_cast<std::uint8_t>(type)`
abbrev pub type_byte : ValueType → ℕ
type_byte ValueType.deletion = 0
type_byte ValueType.value = 1

-- The cast back, with `isValidValueType`: other bytes are no value type.
abbrev pub value_type : ℕ → Option ValueType
value_type b =
    if b == 0 then some ValueType.deletion else if b == 1 then some ValueType.value else none

pub record ParsedInternalKey : Type 0 where
  pub user_key : Bytes
  pub sequence : ℕ
  pub type : ValueType

-- The variable `tag` behind a call of `getFixed64`: it was 0 before.
abbrev pub or_zero : Option (ℕ × Bytes) → ℕ
or_zero none = 0
or_zero (some (tag, _)) = tag

-- The code asserts that the key holds a tag.
unfoldable pub decode_tag : Bytes → ℕ
decode_tag internal_key = or_zero (get_fixed64 (drop (length internal_key - tag_size) internal_key))

unfoldable pub encode_internal_key : Bytes → ℕ → ValueType → Bytes
encode_internal_key user_key sequence type =
    put_fixed64 user_key (bit_or (sequence * 2 ^ 8 % 2 ^ 64) (type_byte type))

unfoldable pub parse_internal_key : Bytes → Option ParsedInternalKey
parse_internal_key encoded =
    if ltb (length encoded) tag_size then none else elim (value_type (decode_tag encoded % 256)) [
      | none ↦ none
      | some type ↦ some (record {
        user_key = take (length encoded - tag_size) encoded;
        sequence = decode_tag encoded / 2 ^ 8;
        type = type;
      })
    ]

-- The user key of a slice that holds a tag.
abbrev pub user_part : Bytes → Bytes
user_part key = take (length key - tag_size) key

unfoldable pub user_then_tag_less : Bytes → ℕ → Bytes → ℕ → Bool
user_then_tag_less lhs_user lhs_tag rhs_user rhs_tag = elim (slice_compare lhs_user rhs_user) [
  | Ordering.lt ↦ true
  | Ordering.gt ↦ false
  | Ordering.eq ↦ ltb rhs_tag lhs_tag
]

-- `InternalKeyLess`: user keys ascend, and tags descend below one user key. The code asserts that both
-- keys have eight bytes or more.
unfoldable pub internal_key_less : Bytes → Bytes → Bool
internal_key_less lhs rhs =
    user_then_tag_less (user_part lhs) (decode_tag lhs) (user_part rhs) (decode_tag rhs)
