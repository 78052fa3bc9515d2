-- ===== src/Manifest/RoundTrip.antt =====
-- `decodeManifest` reads back what `encodeManifest` wrote.
use mizu.Base.{
  ℕ, ◌+◌, ◌-◌, ◌≤◌, ◌≡◌, refl, ap, ◌∙◌, sym, true, some, List, [], ◌∷◌, ◌++◌, length, leb,
  if◌then◌else◌, All, arith, inl, inr, append-nil, append_assoc, length-append, take, drop,
  take-append_left, drop-append_left,
}
use mizu.Base.Order.{Bytes, slice_compare, slice_eq}
use mizu.Status.{ok, err, Result-cases, invalid_argument, corruption}
use mizu.Coding.{IsU64, encode_fixed32, put_fixed32, put_fixed64, decode_fixed32, get_fixed32}
use mizu.Coding.RoundTrip.{
  decode_fixed32-encode_fixed32, encode_fixed64, put_fixed64-encode, get_fixed32-encode,
  get_fixed64-encode, length-encode_fixed32, length-encode_fixed64,
}
use mizu.Crc.{crc32c, crc32c-IsU32}
use mizu.Compaction.{TableMeta}
use mizu.Manifest.{
  ManifestState, manifest_magic, maximum_manifest_size, validate_state, append_tables, take_tables,
  take_tables_from, encode_manifest, decode_contents, decode_manifest,
}
use mizu.Manifest.Format.{IsTable, level_bytes, append_tables-bytes, take_tables-bytes}
use mizu.Manifest.Fails.{validate_state-fail}
use mizu.Manifest.Checked.{IsSound, IsPublished, validate_state-ok}

-- The numbers of a table are 64-bit.
abbrev pub IsWord : TableMeta → Type 0
IsWord table = IsU64 table.number × IsU64 table.file_size

-- The 64-bit fields of a state.
pub record IsWords (state : ManifestState) : Type 0 where
  pub wal : IsU64 state.oldest_wal_number
  pub level0 : All IsWord state.levels.level0
  pub level1 : All IsWord state.levels.level1
  pub level2 : All IsWord state.levels.level2

sound-IsTable : (ts : List TableMeta) → All IsSound ts → All IsWord ts → All IsTable ts
sound-IsTable [] h w = tt
sound-IsTable (t ∷ ts) h w = (
  record {
    number = w.0.0;
    file_size = w.0.1;
    smallest = h.0.smallest;
    largest = h.0.largest;
    smallest_tag = h.0.smallest_tag;
    largest_tag = h.0.largest_tag;
  },
  sound-IsTable ts h.1 w.1,
)

-- What follows the magic in a manifest, but for the checksum.
fields : ManifestState → Bytes
fields state =
    encode_fixed32 3
    ++ (encode_fixed64 state.flushed_sequence
        ++ (encode_fixed64 state.oldest_wal_number
            ++ level_bytes state.levels.level0
                (level_bytes state.levels.level1 (level_bytes state.levels.level2 []))))

contents_of : ManifestState → Bytes
unfolding fields
contents_of state = manifest_magic ++ fields state

start_bytes :
    (state : ManifestState) (rest : Bytes)
    → put_fixed64
          (put_fixed64 (put_fixed32 manifest_magic 3) state.flushed_sequence)
          state.oldest_wal_number
        ++ rest
      ≡ manifest_magic
        ++ (encode_fixed32 3
            ++ (encode_fixed64 state.flushed_sequence
                ++ (encode_fixed64 state.oldest_wal_number ++ rest)))
unfolding put_fixed32
start_bytes state rest = simp (put_fixed64-encode, append_assoc)

-- What the encoder writes.
encode_manifest-ok :
    (state : ManifestState) (bytes : Bytes)
    → encode_manifest state ≡ ok bytes
    → (validate_state invalid_argument state ≡ ok tt)
      × (bytes ≡ contents_of state ++ encode_fixed32 (crc32c (contents_of state)))
unfolding encode_manifest put_fixed32 contents_of
encode_manifest-ok state bytes h =
    let start =
      put_fixed64 (put_fixed64 (put_fixed32 manifest_magic 3) state.flushed_sequence)
        state.oldest_wal_number in
    let l0 = state.levels.level0 in
    let l1 = state.levels.level1 in
    let l2 = state.levels.level2 in
    elim (Result-cases (validate_state invalid_argument state)) [
      | inr (e, v) ↦ absurd (ground (arith, v))
      | inl (u, v) ↦ elim (Result-cases (append_tables l0 start)) [
        | inr (e, a) ↦ absurd (ground (arith, v, a))
        | inl (w0, a) ↦ elim (Result-cases (append_tables l1 w0)) [
          | inr (e, b) ↦ absurd (ground (arith, v, a, b))
          | inl (w1, b) ↦ elim (Result-cases (append_tables l2 w1)) [
            | inr (e, c) ↦ absurd (ground (arith, v, a, b, c))
            | inl (w2, c) ↦
                let whole : w2 ≡ contents_of state =
                  sym (append-nil w2)
                  ∙ append_tables-bytes l2 w1 w2 [] c
                  ∙ append_tables-bytes l1 w0 w1 (level_bytes l2 []) b
                  ∙ append_tables-bytes l0 start w0 (level_bytes l1 (level_bytes l2 [])) a
                  ∙ start_bytes state (level_bytes l0 (level_bytes l1 (level_bytes l2 []))) in
                let put : put_fixed32 w2 (crc32c w2) ≡ bytes = ground (arith, v, a, b, c) in
                (v, sym put ∙ ap (λ w. w ++ encode_fixed32 (crc32c w)) whole)
          ]
        ]
      ]
    ]

take_tables_from-present :
    (first version : ℕ) (cursor : Bytes)
    → first ≤ version
    → take_tables_from first version cursor ≡ take_tables cursor
unfolding take_tables_from
take_tables_from-present first version cursor h = ground arith

contents-decoded :
    (state : ManifestState)
    → IsPublished state
    → IsWords state
    → validate_state corruption state ≡ ok tt
    → decode_contents (contents_of state) ≡ ok state
unfolding decode_contents
contents-decoded state good words valid =
    let l0 = state.levels.level0 in
    let l1 = state.levels.level1 in
    let l2 = state.levels.level2 in
    let rest1 = level_bytes l1 (level_bytes l2 []) in
    let rest0 = level_bytes l0 rest1 in
    let after_flushed = encode_fixed64 state.oldest_wal_number ++ rest0 in
    let after_version = encode_fixed64 state.flushed_sequence ++ after_flushed in
    let magic : slice_eq (take 8 (contents_of state)) manifest_magic ≡ true =
      unfold contents_of slice_compare in refl in
    let version : get_fixed32 (drop 8 (contents_of state)) ≡ some (3, after_version) =
      unfold contents_of fields in get_fixed32-encode 3 after_version (omega arith) in
    rw (
      magic,
      version,
      get_fixed64-encode state.flushed_sequence after_flushed (omega (arith, good.flushed)),
      get_fixed64-encode state.oldest_wal_number rest0 words.wal,
      take_tables-bytes l0 rest1 (sound-IsTable l0 good.sound0 words.level0) good.few0,
      take_tables_from-present 2 3 rest1 (omega arith),
      take_tables-bytes l1 (level_bytes l2 []) (sound-IsTable l1 good.sound1 words.level1)
          good.few1,
      take_tables_from-present 3 3 (level_bytes l2 []) (omega arith),
      take_tables-bytes l2 [] (sound-IsTable l2 good.sound2 words.level2) good.few2,
      valid,
    )

length-contents_of : (state : ManifestState) → 32 ≤ length (contents_of state)
unfolding contents_of fields
length-contents_of state =
    omega (arith, length-append {0}, length-encode_fixed32, length-encode_fixed64)

-- A state that `encodeManifest` accepts, with its numbers in 64 bits, is what `decodeManifest` makes
-- of the bytes, if they are no more than 64 MiB; longer ones it rejects.
pub decode-encode_manifest :
    (state : ManifestState) (bytes : Bytes)
    → IsWords state
    → encode_manifest state ≡ ok bytes
    → decode_manifest bytes ≡ (
        if leb (length bytes) maximum_manifest_size
        then ok state
        else err (corruption "manifest exceeds 64 MiB"))
unfolding decode_manifest
decode-encode_manifest state bytes words h =
    let (valid, whole) = encode_manifest-ok state bytes h in
    let contents = contents_of state in
    let tail = encode_fixed32 (crc32c contents) in
    let good = validate_state-ok invalid_argument state valid in
    let size : length bytes ≡ length contents + 4 = omega (
      arith,
      ap length whole,
      length-append contents tail,
      length-encode_fixed32 (crc32c contents),
    ) in
    let body : take (length bytes - 4) bytes ≡ contents =
      ap (take (length bytes - 4)) whole
      ∙ take-append_left (length bytes - 4) contents tail (omega (arith, size)) in
    let check : decode_fixed32 (drop (length bytes - 4) bytes) ≡ crc32c contents =
      ap (λ b. decode_fixed32 (drop (length bytes - 4) b)) whole
      ∙ ap decode_fixed32 (drop-append_left (length bytes - 4) contents tail (omega (arith, size)))
      ∙ decode_fixed32-encode_fixed32 (crc32c contents) (crc32c-IsU32 contents) in
    let read =
      contents-decoded state good words
        (validate_state-fail invalid_argument corruption state valid) in
    ground
      (arith, size, ap crc32c body, check, ap decode_contents body ∙ read, length-contents_of state)
