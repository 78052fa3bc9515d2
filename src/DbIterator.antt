-- ===== src/DbIterator.antt =====
-- engine/lsmtree/src/db/db_iterator.cc: the iterator over the user keys that are visible at a
-- sequence, on top of an iterator over internal keys.
pub mod View
pub mod Collect
pub mod Seek
use mizu.Base.{ℕ, Bool, true, false, ◌&&◌, Option, none, some, [], ltb, if◌then◌else◌}
use mizu.Base.Order.{Bytes, slice_eq}
use mizu.Status.{Status, success, corruption, is_ok}
use mizu.InternalKey.{ValueType, ParsedInternalKey, encode_internal_key, parse_internal_key}

-- What an `InternalIterator` (internal_iterator.h) delivers from its position on: `valid()` at an
-- entry, an error of `status()`, or the end.
pub data Input : Type 0 where
  end : Input
  failed : Status → Input
  entry : Bytes → Bytes → Input → Input

abbrev pub input_status : Input → Status
input_status Input.end = success
input_status (Input.failed s) = s
input_status (Input.entry key value rest) = success

abbrev pub input_valid : Input → Bool
input_valid Input.end = false
input_valid (Input.failed s) = false
input_valid (Input.entry key value rest) = true

abbrev pub advance : Input → Input
advance Input.end = Input.end
advance (Input.failed s) = Input.failed s
advance (Input.entry key value rest) = rest

pub record DbIterator : Type 0 where
  pub input : Input
  pub visible_sequence : ℕ
  pub is_valid : Bool
  pub status : Status
  pub skip_key : Bytes

abbrev parse_error : Status
parse_error = corruption "invalid internal key in DB iterator"

-- The loop of `findNextUserEntry`, with `skipping` and `skip_key_`, on what the input delivers.
unfoldable pub find_loop : Input → Bool → DbIterator → DbIterator
find_loop Input.end skipping iterator = record iterator {
  input = Input.end;
  is_valid = false;
  skip_key = [];
}
find_loop (Input.failed s) skipping iterator = record iterator {
  input = Input.failed s;
  is_valid = false;
}
find_loop (Input.entry key value rest) skipping iterator = elim (parse_internal_key key) [
  | none ↦ record iterator {
    input = Input.entry key value rest;
    is_valid = false;
    status = parse_error;
    skip_key = [];
  }
  | some current ↦ elim (skipping && slice_eq current.user_key iterator.skip_key) [
    | true ↦ find_loop rest true iterator
    | false ↦
        let iterator' = record iterator { skip_key = if skipping then [] else iterator.skip_key } in
        elim (ltb iterator.visible_sequence current.sequence) [
          | true ↦ find_loop rest false iterator'
          | false ↦ elim current.type [
            | ValueType.deletion ↦
                find_loop rest true (record iterator { skip_key = current.user_key })
            | ValueType.value ↦ record iterator' {
              input = Input.entry key value rest;
              is_valid = true;
            }
          ]
        ]
  ]
]

unfoldable pub find_next_user_entry : Bool → DbIterator → DbIterator
unfolding find_loop
find_next_user_entry skipping iterator =
    find_loop iterator.input skipping (record iterator { is_valid = false })

unfoldable pub valid : DbIterator → Bool
valid iterator =
    iterator.is_valid
    && is_ok iterator.status
    && is_ok (input_status iterator.input)
    && input_valid iterator.input

-- `first` is what the input delivers after its own `seekToFirst`.
unfoldable pub seek_to_first : Input → DbIterator → DbIterator
seek_to_first first iterator =
    if is_ok iterator.status
    then find_next_user_entry false
        (record iterator { input = first; is_valid = false; skip_key = [] })
    else iterator

-- `seek_input` is what the input delivers after its own `seek` to an internal key.
unfoldable pub seek : (Bytes → Input) → Bytes → DbIterator → DbIterator
seek seek_input target iterator =
    if is_ok iterator.status
    then find_next_user_entry false (record iterator {
      input = seek_input (encode_internal_key target iterator.visible_sequence ValueType.value);
      is_valid = false;
      skip_key = [];
    })
    else iterator

abbrev current_key : Input → Bytes
current_key Input.end = []
current_key (Input.failed s) = []
current_key (Input.entry k v rest) = k

abbrev parsed_user_key : Option ParsedInternalKey → Bytes
parsed_user_key none = []
parsed_user_key (some parsed) = parsed.user_key

-- `key()` and `value()` are called on a valid iterator only.
unfoldable pub key : DbIterator → Bytes
key iterator = parsed_user_key (parse_internal_key (current_key iterator.input))

unfoldable pub value : DbIterator → Bytes
value iterator = elim iterator.input [
  | Input.end ↦ []
  | Input.failed s ↦ []
  | Input.entry k v rest ↦ v
]

unfoldable pub next : DbIterator → DbIterator
unfolding key
next iterator =
    find_next_user_entry true (record iterator {
      input = advance iterator.input;
      is_valid = false;
      skip_key = key iterator;
    })

unfoldable pub status : DbIterator → Status
status iterator = if is_ok iterator.status then input_status iterator.input else iterator.status
