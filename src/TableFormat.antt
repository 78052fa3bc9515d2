-- ===== src/TableFormat.antt =====
-- engine/lsmtree/src/table/table_format.{h,cc}: block handles and the footer of a table on disk.
mod Handle
pub mod RoundTrip
pub use Handle.{BlockHandle}
use mizu.Base.{
  ℕ, Option, none, some, List, [], ◌∷◌, ◌++◌, ◌==◌, ◌&&◌, if◌then◌else◌, length, take, drop,
}
use mizu.Base.Order.{Bytes, slice_eq}
use mizu.Status.{Result, ok, ◌>>=◌, ◌>>◌, require, or_error, corruption, not_supported}
use mizu.Coding.{put_fixed32, put_fixed64, get_fixed32, get_fixed64}

-- "LSMTREE1"
abbrev pub sstable_magic : Bytes
sstable_magic = 76 ∷ 83 ∷ 77 ∷ 84 ∷ 82 ∷ 69 ∷ 69 ∷ 49 ∷ []

abbrev pub sstable_magic_size : ℕ
sstable_magic_size = 8

abbrev pub sstable_version : ℕ
sstable_version = 1

abbrev pub sstable_footer_size : ℕ
sstable_footer_size = 48

unfoldable pub put_block_handle : Bytes → BlockHandle → Bytes
put_block_handle destination handle =
    put_fixed64 (put_fixed64 destination handle.offset) handle.size

-- The handle and the input behind it; `none` leaves both alone.
unfoldable pub get_block_handle : Bytes → Option (BlockHandle × Bytes)
get_block_handle input = elim (get_fixed64 input) [
  | none ↦ none
  | some (offset, remaining) ↦ elim (get_fixed64 remaining) [
    | none ↦ none
    | some (size, rest) ↦ some (record { offset = offset; size = size }, rest)
  ]
]

unfoldable pub put_sstable_footer : Bytes → BlockHandle → BlockHandle → Bytes
put_sstable_footer destination filter_handle index_handle =
    put_block_handle
      (put_block_handle (put_fixed32 (put_fixed32 (destination ++ sstable_magic) sstable_version) 0)
        filter_handle)
      index_handle

unfoldable pub decode_sstable_footer : Bytes → Result (BlockHandle × BlockHandle)
decode_sstable_footer encoded = do
  require (length encoded == sstable_footer_size) (corruption "invalid SSTable footer size")
  require (slice_eq (take sstable_magic_size encoded) sstable_magic)
      (corruption "invalid SSTable magic")
  (version, after_version) ←
      or_error (get_fixed32 (drop sstable_magic_size encoded)) (corruption "invalid SSTable footer")
  (reserved, after_reserved) ←
      or_error (get_fixed32 after_version) (corruption "invalid SSTable footer")
  (filter_handle, after_filter) ←
      or_error (get_block_handle after_reserved) (corruption "invalid SSTable footer")
  (index_handle, rest) ←
      or_error (get_block_handle after_filter) (corruption "invalid SSTable footer")
  require (length rest == 0) (corruption "invalid SSTable footer")
  require (version == sstable_version) (not_supported "unsupported SSTable version")
  require (reserved == 0) (corruption "non-zero SSTable footer reserved field")
  ok (filter_handle, index_handle)
