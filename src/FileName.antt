-- ===== src/FileName.antt =====
-- engine/lsmtree/src/db/filename.{h,cc}: the names of the files of a database directory.
mod State
pub mod Number
pub mod Names
pub use State.{NumberedFileType, FilePath}
use mizu.Base.{
  ℕ, zero, suc, ◌+◌, ◌-◌, ◌*◌, ◌/◌, ◌%◌, ◌^◌, Bool, true, false, not, ◌&&◌, ◌||◌, Option, none,
  some, List, [], ◌∷◌, ◌++◌, ltb, leb, ◌==◌, if◌then◌else◌, length, take, drop, replicate,
}
use mizu.Base.Order.{Bytes, slice_eq}

-- `'0'` and `'9'`
abbrev pub digit_zero : ℕ
digit_zero = 48

abbrev pub digit_nine : ℕ
digit_nine = 57

abbrev pub u64_max : ℕ
u64_max = 2 ^ 64 - 1

-- `std::to_string`, for numbers of no more digits than the fuel and one.
unfoldable pub digits_of : ℕ → ℕ → Bytes
digits_of zero number = (digit_zero + number % 10) ∷ []
digits_of (suc fuel) number =
    let front = digits_of fuel (number / 10) in
    if ltb number 10 then (digit_zero + number) ∷ [] else front ++ ((digit_zero + number % 10) ∷ [])

-- A 64-bit number has 20 digits at most.
abbrev pub to_string : ℕ → Bytes
to_string number = digits_of 19 number

unfoldable pub numbered_name : ℕ → Bytes → Bytes
numbered_name number suffix =
    let digits = to_string number in
    (if ltb (length digits) 6 then replicate (6 - length digits) digit_zero ++ digits else digits)
    ++ suffix

-- The loop of `parseNumber`.
unfoldable pub parse_digits : ℕ → Bytes → Option ℕ
parse_digits parsed [] = some parsed
parse_digits parsed (character ∷ text) =
    let digit = character - digit_zero in
    let rest = parse_digits (parsed * 10 + digit) text in
    if ltb character digit_zero || ltb digit_nine character
    then none
    else if ltb ((u64_max - digit) / 10) parsed
    then none
    else rest

abbrev pub unless_zero : Option ℕ → Option ℕ
unless_zero none = none
unless_zero (some parsed) = if parsed == 0 then none else some parsed

unfoldable pub parse_number : Bytes → Option ℕ
parse_number [] = none
parse_number (character ∷ text) = unless_zero (parse_digits 0 (character ∷ text))

-- ".log", ".sst" and ".sst.tmp"
abbrev pub wal_suffix : Bytes
wal_suffix = 46 ∷ 108 ∷ 111 ∷ 103 ∷ []

abbrev pub sstable_suffix : Bytes
sstable_suffix = 46 ∷ 115 ∷ 115 ∷ 116 ∷ []

abbrev pub sstable_temporary_suffix : Bytes
sstable_temporary_suffix = 46 ∷ 115 ∷ 115 ∷ 116 ∷ 46 ∷ 116 ∷ 109 ∷ 112 ∷ []

unfoldable pub wal_file_name : Bytes → ℕ → FilePath
wal_file_name db_directory number = record {
  directory = db_directory;
  filename = numbered_name number wal_suffix;
}

unfoldable pub sstable_file_name : Bytes → ℕ → FilePath
sstable_file_name db_directory number = record {
  directory = db_directory;
  filename = numbered_name number sstable_suffix;
}

unfoldable pub sstable_temporary_file_name : Bytes → ℕ → FilePath
sstable_temporary_file_name db_directory number = record {
  directory = db_directory;
  filename = numbered_name number sstable_temporary_suffix;
}

-- "LOCK", "MANIFEST" and "MANIFEST.tmp"
unfoldable pub lock_file_name : Bytes → FilePath
lock_file_name db_directory = record { directory = db_directory; filename = 76 ∷ 79 ∷ 67 ∷ 75 ∷ [] }

unfoldable pub manifest_file_name : Bytes → FilePath
manifest_file_name db_directory = record {
  directory = db_directory;
  filename = 77 ∷ 65 ∷ 78 ∷ 73 ∷ 70 ∷ 69 ∷ 83 ∷ 84 ∷ [];
}

unfoldable pub manifest_temporary_file_name : Bytes → FilePath
manifest_temporary_file_name db_directory = record {
  directory = db_directory;
  filename = 77 ∷ 65 ∷ 78 ∷ 73 ∷ 70 ∷ 69 ∷ 83 ∷ 84 ∷ 46 ∷ 116 ∷ 109 ∷ 112 ∷ [];
}

-- The table `suffixes`.
abbrev pub suffixes : List (Bytes × NumberedFileType)
suffixes =
    (sstable_temporary_suffix, NumberedFileType.sstable_temporary)
    ∷ (sstable_suffix, NumberedFileType.sstable)
    ∷ (wal_suffix, NumberedFileType.wal)
    ∷ []

-- The name is longer than the suffix and ends in it.
unfoldable pub has_suffix : Bytes → Bytes → Bool
has_suffix name suffix =
    not (leb (length name) (length suffix))
    && slice_eq (drop (length name - length suffix) name) suffix

abbrev pub with_type : NumberedFileType → Option ℕ → Option (ℕ × NumberedFileType)
with_type type none = none
with_type type (some number) = some (number, type)

-- The loop over the suffixes.
unfoldable pub parse_suffixes :
    Bytes → List (Bytes × NumberedFileType) → Option (ℕ × NumberedFileType)
parse_suffixes name [] = none
parse_suffixes name ((suffix, type) ∷ more) =
    let rest = parse_suffixes name more in
    if has_suffix name suffix
    then with_type type (parse_number (take (length name - length suffix) name))
    else rest

unfoldable pub parse_numbered_file_name : FilePath → Option (ℕ × NumberedFileType)
parse_numbered_file_name path = parse_suffixes path.filename suffixes
