-- ===== src/Manifest.antt =====
-- engine/lsmtree/src/db/manifest.{h,cc}: the state that a manifest stores, its checks and its bytes.
mod State
pub mod Format
pub mod Checked
pub mod Fails
pub mod RoundTrip
pub mod Size
pub mod Published
pub mod File
pub mod Errors
pub mod Fills
pub mod Atomic
pub use State.{ManifestState}
use mizu.Base.{
  ℕ, zero, suc, ◌-◌, ◌*◌, ◌/◌, ◌+◌, ◌^◌, Bool, true, false, not, ◌&&◌, ◌||◌, Option, none, some,
  List, [], ◌∷◌, ◌++◌, String, ltb, ◌==◌, if◌then◌else◌, length, take, drop,
}
use mizu.Base.Order.{Bytes, slice_eq, slice_lt}
use mizu.Status.{Status, Result, ok, ◌>>=◌, ◌>>◌, require, or_error, invalid_argument, corruption}
use mizu.Coding.{decode_fixed32, put_fixed32, put_fixed64, get_fixed32, get_fixed64}
use mizu.Crc.{crc32c}
use mizu.InternalKey.{ParsedInternalKey, max_sequence_number, parse_internal_key, internal_key_less}
use mizu.Compaction.{TableMeta, table_user_key}
use mizu.Compaction.Pick.{Levels}

-- "LSMMAN01"
abbrev pub manifest_magic : Bytes
manifest_magic = 76 ∷ 83 ∷ 77 ∷ 77 ∷ 65 ∷ 78 ∷ 48 ∷ 49 ∷ []

abbrev pub manifest_magic_size : ℕ
manifest_magic_size = 8

abbrev pub manifest_version : ℕ
manifest_version = 3

abbrev pub level1_manifest_version : ℕ
level1_manifest_version = 2

abbrev pub level0_manifest_version : ℕ
level0_manifest_version = 1

abbrev pub manifest_checksum_size : ℕ
manifest_checksum_size = 4

abbrev pub minimum_table_encoding_size : ℕ
minimum_table_encoding_size = 8 * 2 + 4 * 2 + 8 * 2

abbrev pub maximum_manifest_size : ℕ
maximum_manifest_size = 64 * 1024 * 1024

abbrev u32_max : ℕ
u32_max = 2 ^ 32 - 1

-- Membership in the set of table numbers.
unfoldable pub contains : ℕ → List ℕ → Bool
contains number [] = false
contains number (n ∷ numbers) = n == number || contains number numbers

-- Both keys parse, and the largest is not before the smallest.
unfoldable pub has_key_range : TableMeta → Bool
has_key_range table = elim (parse_internal_key table.smallest_key) [
  | none ↦ false
  | some smallest ↦ elim (parse_internal_key table.largest_key) [
    | none ↦ false
    | some largest ↦ not (internal_key_less table.largest_key table.smallest_key)
  ]
]

-- `has_previous && previous_largest >= smallest.user_key`
unfoldable pub overlaps_previous : Option Bytes → Bytes → Bool
overlaps_previous none smallest = false
overlaps_previous (some previous_largest) smallest = not (slice_lt previous_largest smallest)

-- An error of these checks is a text, of which the callers make a status by `fail`. The set of
-- numbers is the output.
module _ (fail : String → Status) where
  unfoldable pub validate_table : TableMeta → List ℕ → Result (List ℕ)
  validate_table table numbers = do
    require (not (table.number == 0 || table.file_size == 0))
        (fail "manifest contains invalid table metadata")
    require (not (contains table.number numbers))
        (fail "manifest contains a duplicate table number")
    require
        (not (ltb u32_max (length table.smallest_key) || ltb u32_max (length table.largest_key)))
        (fail "manifest table key is too large")
    require (has_key_range table) (fail "manifest contains an invalid table key range")
    ok (table.number ∷ numbers)

  unfoldable pub validate_level0 : List TableMeta → List ℕ → Result (List ℕ)
  validate_level0 [] numbers = ok numbers
  validate_level0 (table ∷ tables) numbers = do
    more ← validate_table table numbers
    validate_level0 tables more

  unfoldable pub validate_level : Option Bytes → List TableMeta → List ℕ → Result (List ℕ)
  validate_level previous [] numbers = ok numbers
  validate_level previous (table ∷ tables) numbers = do
    more ← validate_table table numbers
    require (not (overlaps_previous previous (table_user_key table.smallest_key)))
        (fail "manifest non-L0 table ranges overlap or are out of order")
    validate_level (some (table_user_key table.largest_key)) tables more

  unfoldable pub validate_state : ManifestState → Result (Unit {0})
  validate_state state = do
    require (not (ltb max_sequence_number state.flushed_sequence))
        (fail "manifest flushed sequence is out of range")
    require (not (state.oldest_wal_number == 0)) (fail "manifest WAL number must be positive")
    require
        (not (
          ltb u32_max (length state.levels.level0)
          || ltb u32_max (length state.levels.level1)
          || ltb u32_max (length state.levels.level2)))
        (fail "manifest has too many tables in a level")
    numbers0 ← validate_level0 state.levels.level0 []
    numbers1 ← validate_level none state.levels.level1 numbers0
    numbers2 ← validate_level none state.levels.level2 numbers1
    ok tt

unfoldable pub take_string : Bytes → Option (Bytes × Bytes)
take_string input = elim (get_fixed32 input) [
  | none ↦ none
  | some (size, rest) ↦
      if ltb (length rest) size then none else some (take size rest, drop size rest)
]

abbrev too_large : Status
too_large = invalid_argument "manifest exceeds 64 MiB"

unfoldable pub append_table : TableMeta → Bytes → Bytes
append_table table encoded =
    put_fixed32
      (put_fixed32 (put_fixed64 (put_fixed64 encoded table.number) table.file_size)
          (length table.smallest_key)
        ++ table.smallest_key)
      (length table.largest_key)
    ++ table.largest_key

-- The loop of `appendTables`.
unfoldable pub append_tables_loop : List TableMeta → Bytes → Result Bytes
append_tables_loop [] encoded = ok encoded
append_tables_loop (table ∷ tables) encoded = do
  require
      (not (
        ltb (maximum_manifest_size - manifest_checksum_size) (length (append_table table encoded))))
      too_large
  append_tables_loop tables (append_table table encoded)

unfoldable pub append_tables : List TableMeta → Bytes → Result Bytes
append_tables tables encoded = append_tables_loop tables (put_fixed32 encoded (length tables))

unfoldable pub take_table : Bytes → Option (TableMeta × Bytes)
take_table input = elim (get_fixed64 input) [
  | none ↦ none
  | some (number, after_number) ↦ elim (get_fixed64 after_number) [
    | none ↦ none
    | some (file_size, after_size) ↦ elim (take_string after_size) [
      | none ↦ none
      | some (smallest, after_smallest) ↦ elim (take_string after_smallest) [
        | none ↦ none
        | some (largest, rest) ↦ some (
          record {
            number = number;
            file_size = file_size;
            smallest_key = smallest;
            largest_key = largest;
          },
          rest,
        )
      ]
    ]
  ]
]

-- The rounds that are left, with the tables behind each other.
unfoldable pub take_tables_loop : ℕ → Bytes → Option (List TableMeta × Bytes)
take_tables_loop zero input = some ([], input)
take_tables_loop (suc rounds) input = elim (take_table input) [
  | none ↦ none
  | some (table, rest) ↦ elim (take_tables_loop rounds rest) [
    | none ↦ none
    | some (tables, left) ↦ some (table ∷ tables, left)
  ]
]

unfoldable pub take_tables : Bytes → Option (List TableMeta × Bytes)
take_tables input = elim (get_fixed32 input) [
  | none ↦ none
  | some (table_count, rest) ↦
      if ltb (length rest / minimum_table_encoding_size) table_count
      then none
      else take_tables_loop table_count rest
]

unfoldable pub encode_manifest : ManifestState → Result Bytes
encode_manifest state = do
  validate_state invalid_argument state
  let encoded =
      put_fixed64 (put_fixed64 (put_fixed32 manifest_magic manifest_version) state.flushed_sequence)
        state.oldest_wal_number
  with0 ← append_tables state.levels.level0 encoded
  with1 ← append_tables state.levels.level1 with0
  with2 ← append_tables state.levels.level2 with1
  ok (put_fixed32 with2 (crc32c with2))

-- A level that the version of the file has, or an empty one.
unfoldable pub take_tables_from : ℕ → ℕ → Bytes → Option (List TableMeta × Bytes)
take_tables_from first version cursor =
    if ltb version first then some ([], cursor) else take_tables cursor

abbrev header_size : ℕ
header_size = manifest_magic_size + 4 + 8 * 2 + 4

-- The part of `decodeManifest` behind the checksum.
unfoldable pub decode_contents : Bytes → Result ManifestState
decode_contents contents = do
  require (slice_eq (take manifest_magic_size contents) manifest_magic)
      (corruption "invalid manifest magic")
  (version, after_version) ←
      or_error (get_fixed32 (drop manifest_magic_size contents))
        (corruption "unsupported manifest version")
  require (not (ltb version level0_manifest_version || ltb manifest_version version))
      (corruption "unsupported manifest version")
  (flushed, after_flushed) ←
      or_error (get_fixed64 after_version) (corruption "truncated manifest header")
  (wal, after_wal) ← or_error (get_fixed64 after_flushed) (corruption "truncated manifest header")
  (level0, after0) ← or_error (take_tables after_wal) (corruption "invalid manifest L0 table list")
  (level1, after1) ←
      or_error (take_tables_from level1_manifest_version version after0)
        (corruption "invalid manifest L1 table list")
  (level2, after2) ←
      or_error (take_tables_from manifest_version version after1)
        (corruption "invalid manifest L2 table list")
  require (length after2 == 0) (corruption "manifest has trailing bytes")
  let decoded : ManifestState = record {
    flushed_sequence = flushed;
    oldest_wal_number = wal;
    levels = record { level0 = level0; level1 = level1; level2 = level2 };
  }
  validate_state corruption decoded
  ok decoded

unfoldable pub decode_manifest : Bytes → Result ManifestState
decode_manifest input = do
  require (not (ltb (length input) (header_size + manifest_checksum_size)))
      (corruption "manifest is shorter than its header")
  require (not (ltb maximum_manifest_size (length input))) (corruption "manifest exceeds 64 MiB")
  require
      (crc32c (take (length input - manifest_checksum_size) input)
        == decode_fixed32 (drop (length input - manifest_checksum_size) input))
      (corruption "manifest checksum mismatch")
  decode_contents (take (length input - manifest_checksum_size) input)
