-- ===== src/Tests/Names.antt =====
-- Names of files and decimal numbers.
use mizu.Base.{
  ◌<◌, ◌≤◌, ◌≡◌, refl, arith, not, ◌&&◌, some, none, [], ◌∷◌, leb, ltb, ◌==◌, length, if◌then◌else◌,
}
use mizu.Base.Order.{Bytes, slice_compare}
use mizu.FileName.{
  NumberedFileType, FilePath, u64_max, parse_number, parse_numbered_file_name, parse_suffixes,
  has_suffix, parse_digits, wal_file_name, sstable_file_name, sstable_temporary_file_name,
}
use mizu.FileName.Number.{all_digits, decimal, parse_number-decimal}
use mizu.FileName.Names.{
  IsNumbered, suffix_of, parse_numbered_file_name-names, parse_numbered_file_name-some,
}

-- "0042"
abbrev text : Bytes
text = 48 ∷ 48 ∷ 52 ∷ 50 ∷ []

parse_number-decimal_example : parse_number text ≡ (
    if not (length text == 0)
      && all_digits text
      && (ltb 0 (decimal 0 text) && leb (decimal 0 text) u64_max)
    then some (decimal 0 text)
    else none)
parse_number-decimal_example = parse_number-decimal text

parse_numbered_file_name-names_example :
    (parse_numbered_file_name (wal_file_name (100 ∷ []) 1234567)
      ≡ some (1234567, NumberedFileType.wal))
    × (parse_numbered_file_name (sstable_file_name (100 ∷ []) 1234567)
        ≡ some (1234567, NumberedFileType.sstable))
    × (parse_numbered_file_name (sstable_temporary_file_name (100 ∷ []) 1234567)
        ≡ some (1234567, NumberedFileType.sstable_temporary))
parse_numbered_file_name-names_example =
    parse_numbered_file_name-names (100 ∷ []) 1234567 (omega arith) (omega arith)

-- "7.sst"
abbrev path : FilePath
path = record { directory = 100 ∷ []; filename = 55 ∷ 46 ∷ 115 ∷ 115 ∷ 116 ∷ [] }

parsed : parse_numbered_file_name path ≡ some (7, NumberedFileType.sstable)
unfolding parse_numbered_file_name parse_suffixes has_suffix slice_compare parse_number parse_digits
parsed = refl

parse_numbered_file_name-some_example :
    IsNumbered path.filename 7 (suffix_of NumberedFileType.sstable) × (0 < 7) × (7 ≤ u64_max)
parse_numbered_file_name-some_example =
    parse_numbered_file_name-some path 7 NumberedFileType.sstable parsed
