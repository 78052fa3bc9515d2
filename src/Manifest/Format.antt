-- ===== src/Manifest/Format.antt =====
-- The bytes of a manifest on their own, that the encoder appends them, and that the readers take them.
use mizu.Base.{
  ◌+◌, ◌*◌, ◌≤◌, ◌≡◌, refl, ◌∙◌, some, List, [], ◌∷◌, ◌++◌, length, All, arith, append_assoc,
  length-append, take-append_left, drop-append_left,
}
use mizu.Base.Order.{Bytes}
use mizu.Status.{ok}
use mizu.Coding.{IsU32, IsU64, encode_fixed32, put_fixed32}
use mizu.Coding.RoundTrip.{
  encode_fixed64, put_fixed64-encode, get_fixed32-encode, get_fixed64-encode, length-encode_fixed32,
  length-encode_fixed64,
}
use mizu.Compaction.{TableMeta}
use mizu.Manifest.{
  take_string, append_table, append_tables_loop, append_tables, take_table, take_tables_loop,
  take_tables,
}

abbrev pub string_bytes : Bytes → Bytes → Bytes
string_bytes text rest = encode_fixed32 (length text) ++ (text ++ rest)

-- The bytes of a table in front of those of the rest.
abbrev pub table_bytes : TableMeta → Bytes → Bytes
table_bytes table rest =
    encode_fixed64 table.number
    ++ (encode_fixed64 table.file_size
        ++ string_bytes table.smallest_key (string_bytes table.largest_key rest))

abbrev pub tables_bytes : List TableMeta → Bytes → Bytes
tables_bytes [] rest = rest
tables_bytes (table ∷ tables) rest = table_bytes table (tables_bytes tables rest)

abbrev pub level_bytes : List TableMeta → Bytes → Bytes
level_bytes tables rest = encode_fixed32 (length tables) ++ tables_bytes tables rest

-- The fields fit their integers, and the keys hold a tag.
pub record IsTable (table : TableMeta) : Type 0 where
  pub number : IsU64 table.number
  pub file_size : IsU64 table.file_size
  pub smallest : IsU32 (length table.smallest_key)
  pub largest : IsU32 (length table.largest_key)
  pub smallest_tag : 8 ≤ length table.smallest_key
  pub largest_tag : 8 ≤ length table.largest_key

pub append_table-bytes :
    (table : TableMeta) (encoded rest : Bytes)
    → append_table table encoded ++ rest ≡ encoded ++ table_bytes table rest
unfolding append_table put_fixed32
append_table-bytes table encoded rest = simp (put_fixed64-encode, append_assoc)

pub append_tables_loop-bytes :
    (tables : List TableMeta) (encoded after rest : Bytes)
    → append_tables_loop tables encoded ≡ ok after
    → after ++ rest ≡ encoded ++ tables_bytes tables rest
unfolding append_tables_loop
append_tables_loop-bytes [] encoded after rest h = ground arith
append_tables_loop-bytes (table ∷ tables) encoded after rest h = ground (
  arith,
  append_tables_loop-bytes tables (append_table table encoded) after rest,
  append_table-bytes table encoded (tables_bytes tables rest),
)

pub append_tables-bytes :
    (tables : List TableMeta) (encoded after rest : Bytes)
    → append_tables tables encoded ≡ ok after
    → after ++ rest ≡ encoded ++ level_bytes tables rest
unfolding append_tables put_fixed32
append_tables-bytes tables encoded after rest h =
    append_tables_loop-bytes tables (encoded ++ encode_fixed32 (length tables)) after rest h
    ∙ append_assoc encoded (encode_fixed32 (length tables)) (tables_bytes tables rest)

pub take_string-bytes :
    (text rest : Bytes)
    → IsU32 (length text)
    → take_string (string_bytes text rest) ≡ some (text, rest)
unfolding take_string
take_string-bytes text rest h = ground (
  arith,
  get_fixed32-encode (length text) (text ++ rest) h,
  length-append text rest,
  take-append_left (length text) text rest refl,
  drop-append_left (length text) text rest refl,
)

pub take_table-bytes :
    (table : TableMeta) (rest : Bytes)
    → IsTable table
    → take_table (table_bytes table rest) ≡ some (table, rest)
unfolding take_table
take_table-bytes table rest h =
    let largest = string_bytes table.largest_key rest in
    let smallest = string_bytes table.smallest_key largest in
    rw (
      take_table,
      get_fixed64-encode table.number (encode_fixed64 table.file_size ++ smallest) h.number,
      get_fixed64-encode table.file_size smallest h.file_size,
      take_string-bytes table.smallest_key largest h.smallest,
      take_string-bytes table.largest_key rest h.largest,
    )

pub take_tables_loop-bytes :
    (tables : List TableMeta) (rest : Bytes)
    → All IsTable tables
    → take_tables_loop (length tables) (tables_bytes tables rest) ≡ some (tables, rest)
unfolding take_tables_loop
take_tables_loop-bytes [] rest h = refl
take_tables_loop-bytes (table ∷ tables) rest h = rw (
  take_tables_loop,
  take_table-bytes table (tables_bytes tables rest) h.0,
  take_tables_loop-bytes tables rest h.1,
)

length-table_bytes :
    (table : TableMeta) (rest : Bytes)
    → IsTable table
    → length rest + 40 ≤ length (table_bytes table rest)
length-table_bytes table rest h =
    let largest = string_bytes table.largest_key rest in
    let smallest = string_bytes table.smallest_key largest in
    omega (
      arith,
      h.smallest_tag,
      h.largest_tag,
      length-append {0},
      length-encode_fixed32,
      length-encode_fixed64,
    )

pub length-tables_bytes :
    (tables : List TableMeta) (rest : Bytes)
    → All IsTable tables
    → length rest + 40 * length tables ≤ length (tables_bytes tables rest)
length-tables_bytes [] rest h = omega arith
length-tables_bytes (table ∷ tables) rest h = omega (
  arith,
  length-table_bytes table (tables_bytes tables rest) h.0,
  length-tables_bytes tables rest h.1,
)

pub take_tables-bytes :
    (tables : List TableMeta) (rest : Bytes)
    → All IsTable tables
    → IsU32 (length tables)
    → take_tables (level_bytes tables rest) ≡ some (tables, rest)
unfolding take_tables
take_tables-bytes tables rest h few = ground (
  arith,
  get_fixed32-encode (length tables) (tables_bytes tables rest) few,
  take_tables_loop-bytes tables rest h,
  length-tables_bytes tables rest h,
)
