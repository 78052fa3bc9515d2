-- ===== src/FileName/Names.antt =====
-- The parser of file names against the functions that make them.
use mizu.Base.{
  ℕ, ◌+◌, ◌-◌, ◌≤◌, ◌<◌, ◌≡◌, refl, ap, ◌∙◌, sym, true, false, some, List, [], ◌∷◌, ◌++◌, leb,
  length, take, drop, arith, Bool-cases, Option-cases, inl, inr, ◌⊎◌, subst, length-append,
  take-append_left, drop-append_left, drop-add, take-append-drop,
}
use mizu.Base.Order.{Bytes, slice_compare, slice_eq, slice_eq-eq, slice_eq_refl}
use mizu.FileName.{
  NumberedFileType, FilePath, u64_max, numbered_name, parse_number, wal_suffix, sstable_suffix,
  sstable_temporary_suffix, wal_file_name, sstable_file_name, sstable_temporary_file_name, suffixes,
  has_suffix, with_type, parse_suffixes, parse_numbered_file_name,
}
use mizu.FileName.Number.{
  all_digits, decimal, parse_number-decimal, padded, padded-length, parse_number-padded,
}

-- A name that is put together has its suffix, and the digits are what is before it.
has_suffix-append :
    (digits suffix : Bytes) → 1 ≤ length digits → has_suffix (digits ++ suffix) suffix ≡ true
unfolding has_suffix
has_suffix-append digits suffix h =
    let size = length-append digits suffix in
    let long : leb (length (digits ++ suffix)) (length suffix) ≡ false = ground (arith, size) in
    let back : drop (length (digits ++ suffix) - length suffix) (digits ++ suffix) ≡ suffix =
      drop-append_left (length (digits ++ suffix) - length suffix) digits suffix
        (omega (arith, size)) in
    rw (long, back, slice_eq_refl suffix) refl

front :
    (digits suffix : Bytes)
    → take (length (digits ++ suffix) - length suffix) (digits ++ suffix) ≡ digits
front digits suffix =
    take-append_left (length (digits ++ suffix) - length suffix) digits suffix
      (omega (arith, length-append digits suffix))

-- A name has no suffix whose last four bytes are others.
has_suffix-other :
    (digits short suffix : Bytes)
    → length short ≡ 4
    → 4 ≤ length suffix
    → length suffix ≤ length digits + 4
    → slice_eq short (drop (length suffix - 4) suffix) ≡ false
    → has_suffix (digits ++ short) suffix ≡ false
unfolding has_suffix
has_suffix-other digits short suffix four some_four fits other =
    let name = digits ++ short in
    let size = length-append digits short in
    elim (Bool-cases (slice_eq (drop (length name - length suffix) name) suffix)) [
      | inr different ↦ rw different (ground arith)
      | inl same ↦
          let back : drop (length suffix - 4) (drop (length name - length suffix) name) ≡ short =
            drop-add (length name - length suffix) (length suffix - 4) (length digits) name
              (omega (arith, size))
            ∙ drop-append_left (length digits) digits short refl in
          let tail : short ≡ drop (length suffix - 4) suffix =
            sym back
            ∙ ap (drop (length suffix - 4))
                (slice_eq-eq (drop (length name - length suffix) name) suffix same) in
          let equal : slice_eq short (drop (length suffix - 4) suffix) ≡ true =
            ap (λ s. slice_eq s (drop (length suffix - 4) suffix)) tail
            ∙ slice_eq_refl (drop (length suffix - 4) suffix) in
          absurd (let f : true ≡ false = sym equal ∙ other in cc)
    ]

numbered_name-padded : (n : ℕ) (suffix : Bytes) → numbered_name n suffix ≡ padded n ++ suffix
unfolding numbered_name
numbered_name-padded n suffix = refl

parse-first :
    (n : ℕ) (suffix : Bytes) (type : NumberedFileType) (more : List (Bytes × NumberedFileType))
    → 0 < n
    → n ≤ u64_max
    → parse_suffixes (padded n ++ suffix) ((suffix, type) ∷ more) ≡ some (n, type)
unfolding parse_suffixes
parse-first n suffix type more positive fits =
    rw
      (
        has_suffix-append (padded n) suffix (omega (arith, padded-length n)),
        front (padded n) suffix,
        parse_number-padded n positive fits,
      )
      refl

parse-later :
    (n : ℕ) (short suffix : Bytes) (type : NumberedFileType)
    (more : List (Bytes × NumberedFileType))
    → length short ≡ 4
    → 4 ≤ length suffix
    → length suffix ≤ 10
    → slice_eq short (drop (length suffix - 4) suffix) ≡ false
    → parse_suffixes (padded n ++ short) ((suffix, type) ∷ more)
      ≡ parse_suffixes (padded n ++ short) more
unfolding parse_suffixes
parse-later n short suffix type more four long fits other =
    rw
      (has_suffix-other (padded n) short suffix four long (omega (arith, padded-length n, fits))
        other)
      refl

-- For each positive number that fits 64 bits, the parser gives the number and the type of each of the
-- three kinds of numbered files back from their names.
pub parse_numbered_file_name-names :
    (db_directory : Bytes) (number : ℕ)
    → 0 < number
    → number ≤ u64_max
    → (parse_numbered_file_name (wal_file_name db_directory number)
        ≡ some (number, NumberedFileType.wal))
      × (parse_numbered_file_name (sstable_file_name db_directory number)
          ≡ some (number, NumberedFileType.sstable))
      × (parse_numbered_file_name (sstable_temporary_file_name db_directory number)
          ≡ some (number, NumberedFileType.sstable_temporary))
unfolding parse_numbered_file_name wal_file_name sstable_file_name sstable_temporary_file_name
    slice_compare numbered_name
parse_numbered_file_name-names db_directory n positive fits = (
  parse-later n wal_suffix sstable_temporary_suffix NumberedFileType.sstable_temporary
        (drop 1 suffixes) (omega arith) (omega arith) (omega arith) refl
      ∙ parse-later n wal_suffix sstable_suffix NumberedFileType.sstable (drop 2 suffixes)
          (omega arith) (omega arith) (omega arith) refl
      ∙ parse-first n wal_suffix NumberedFileType.wal [] positive fits,
  parse-later n sstable_suffix sstable_temporary_suffix NumberedFileType.sstable_temporary
        (drop 1 suffixes) (omega arith) (omega arith) (omega arith) refl
      ∙ parse-first n sstable_suffix NumberedFileType.sstable (drop 2 suffixes) positive fits,
  parse-first n sstable_temporary_suffix NumberedFileType.sstable_temporary (drop 1 suffixes)
      positive fits,
)

-- A name is digits of a number and a suffix.
abbrev pub IsNumbered : Bytes → ℕ → Bytes → Type 0
IsNumbered name number suffix =
    (digits : Bytes) × (name ≡ digits ++ suffix)
    × (all_digits digits ≡ true)
    × (decimal 0 digits ≡ number)

abbrev pub suffix_of : NumberedFileType → Bytes
suffix_of NumberedFileType.wal = wal_suffix
suffix_of NumberedFileType.sstable = sstable_suffix
suffix_of NumberedFileType.sstable_temporary = sstable_temporary_suffix

parse_number-some :
    (text : Bytes) (n : ℕ)
    → parse_number text ≡ some n
    → (all_digits text ≡ true) × (decimal 0 text ≡ n) × (0 < n) × (n ≤ u64_max)
parse_number-some text n h =
    let whole = sym (parse_number-decimal text) ∙ h in
    (ground (arith, whole), ground (arith, whole), ground (arith, whole), ground (arith, whole))

has_suffix-split :
    (name suffix : Bytes)
    → has_suffix name suffix ≡ true
    → name ≡ take (length name - length suffix) name ++ suffix
unfolding has_suffix
has_suffix-split name suffix h =
    let cut = length name - length suffix in
    let same : slice_eq (drop cut name) suffix ≡ true = ground (arith, h) in
    sym (take-append-drop cut name)
    ∙ ap (λ s. take cut name ++ s) (slice_eq-eq (drop cut name) suffix same)

parse_suffixes-step :
    (name suffix : Bytes) (type found : NumberedFileType) (more : List (Bytes × NumberedFileType))
    (n : ℕ)
    → parse_suffixes name ((suffix, type) ∷ more) ≡ some (n, found)
    → ((type ≡ found) × IsNumbered name n suffix × (0 < n) × (n ≤ u64_max))
      ⊎ (parse_suffixes name more ≡ some (n, found))
unfolding parse_suffixes
parse_suffixes-step name suffix type found more n h = elim (Bool-cases (has_suffix name suffix)) [
  | inr other ↦ inr (rw other at h)
  | inl ends ↦
      let digits = take (length name - length suffix) name in
      let here : with_type type (parse_number digits) ≡ some (n, found) = rw ends at h in
      elim (Option-cases (parse_number digits)) [
        | inl bad ↦ absurd (ground (arith, here, bad))
        | inr (m, good) ↦
            let kind : type ≡ found = ground (arith, here, good) in
            let number : m ≡ n = ground (arith, here, good) in
            let (digital, value, positive, fits) =
              parse_number-some digits n (good ∙ ap some number) in
            inl (kind, (digits, has_suffix-split name suffix ends, digital, value), positive, fits)
      ]
]

-- A file whose name the parser accepts is named by digits of the number that it gives and the suffix
-- of the type that it gives, and the number is positive and fits 64 bits.
pub parse_numbered_file_name-some :
    (path : FilePath) (number : ℕ) (type : NumberedFileType)
    → parse_numbered_file_name path ≡ some (number, type)
    → IsNumbered path.filename number (suffix_of type) × (0 < number) × (number ≤ u64_max)
unfolding parse_numbered_file_name
parse_numbered_file_name-some path n type h =
    let name = path.filename in
    let answer =
      λ (t : NumberedFileType) (same : t ≡ type) (good : IsNumbered name n (suffix_of t)).
        subst (λ k. IsNumbered name n (suffix_of k)) same good in
    elim (parse_suffixes-step name sstable_temporary_suffix NumberedFileType.sstable_temporary type
      (drop 1 suffixes) n h) [
        | inl (same, good, positive, fits) ↦
            (answer NumberedFileType.sstable_temporary same good, positive, fits)
        | inr h1 ↦
            elim (parse_suffixes-step name sstable_suffix NumberedFileType.sstable type
              (drop 2 suffixes) n h1) [
                | inl (same, good, positive, fits) ↦
                    (answer NumberedFileType.sstable same good, positive, fits)
                | inr h2 ↦
                    elim (parse_suffixes-step name wal_suffix NumberedFileType.wal type [] n h2) [
                      | inl (same, good, positive, fits) ↦
                          (answer NumberedFileType.wal same good, positive, fits)
                      | inr h3 ↦ absurd (unfold parse_suffixes in ground (arith, h3))
                    ]
              ]
      ]
