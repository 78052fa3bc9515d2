-- ===== src/InternalKey/Format.antt =====
-- Encoding and parsing of internal keys are inverse to each other.
use mizu.Base.{
  ℕ, ◌+◌, ◌-◌, ◌*◌, ◌/◌, ◌%◌, ◌^◌, ◌≤◌, ◌<◌, bit_or, ◌≡◌, refl, ap, ◌∙◌, sym, Option, none, some,
  [], ◌++◌, length, drop, All, arith, bit_or_high, bit_or_comm, length-append, length-drop,
  take-append_left, drop-append_left, take-append-drop, All-drop, append-nil, length-eq_zero,
}
use mizu.Base.Order.{Bytes}
use native.Mathlib.Nat.{mod-eq_of_lt}
use mizu.Coding.{IsByte, IsU64, get_fixed64}
use mizu.Coding.RoundTrip.{
  encode_fixed64, put_fixed64-encode, length-encode_fixed64, get_fixed64-encode,
  get_fixed64-eq_some, get_fixed64-none,
}
use mizu.InternalKey.{
  ValueType, ParsedInternalKey, max_sequence_number, type_byte, value_type, decode_tag,
  encode_internal_key, parse_internal_key, user_part, or_zero,
}

-- The tag as a number.
abbrev pub tag_of : ℕ → ValueType → ℕ
tag_of sequence type = sequence * 256 + type_byte type

type_byte-lt : (t : ValueType) → type_byte t < 2
type_byte-lt ValueType.deletion = omega arith
type_byte-lt ValueType.value = omega arith

pub bit_or_tag :
    (s : ℕ) (t : ValueType)
    → s ≤ max_sequence_number
    → bit_or (s * 2 ^ 8 % 2 ^ 64) (type_byte t) ≡ tag_of s t
bit_or_tag s t h =
    let fits : s * 2 ^ 8 < 2 ^ 64 = omega arith in
    rw
      (
        mod-eq_of_lt fits,
        bit_or_comm (s * 2 ^ 8) (type_byte t),
        bit_or_high 8 (type_byte t) s (omega (arith, type_byte-lt t)),
      )
      (omega arith)

-- An internal key is its user key and the eight bytes of its tag.
pub encode_internal_key-eq :
    (u : Bytes) (s : ℕ) (t : ValueType)
    → s ≤ max_sequence_number
    → encode_internal_key u s t ≡ u ++ encode_fixed64 (tag_of s t)
unfolding encode_internal_key
encode_internal_key-eq u s t h = rw (bit_or_tag s t h, put_fixed64-encode)

length-tagged : (u : Bytes) (v : ℕ) → length (u ++ encode_fixed64 v) ≡ length u + 8
length-tagged u v = omega (arith, length-append u (encode_fixed64 v), length-encode_fixed64 v)

user_part-tagged : (u : Bytes) (v : ℕ) → user_part (u ++ encode_fixed64 v) ≡ u
user_part-tagged u v = take-append_left _ u (encode_fixed64 v) (omega (arith, length-tagged u v))

decode_tag-tagged : (u : Bytes) (v : ℕ) → IsU64 v → decode_tag (u ++ encode_fixed64 v) ≡ v
unfolding decode_tag
decode_tag-tagged u v h =
    ap (λ x. or_zero (get_fixed64 x))
      (drop-append_left _ u (encode_fixed64 v) (omega (arith, length-tagged u v)))
    ∙ ap or_zero (rw append-nil at (get_fixed64-encode v [] h))

pub user_part-encode_internal_key :
    (u : Bytes) (s : ℕ) (t : ValueType)
    → s ≤ max_sequence_number
    → user_part (encode_internal_key u s t) ≡ u
user_part-encode_internal_key u s t h =
    rw (encode_internal_key-eq u s t h) (user_part-tagged u (tag_of s t))

tag_of-IsU64 : (s : ℕ) (t : ValueType) → s ≤ max_sequence_number → IsU64 (tag_of s t)
tag_of-IsU64 s t h = omega (arith, type_byte-lt t)

pub decode_tag-encode_internal_key :
    (u : Bytes) (s : ℕ) (t : ValueType)
    → s ≤ max_sequence_number
    → decode_tag (encode_internal_key u s t) ≡ tag_of s t
decode_tag-encode_internal_key u s t h =
    rw (encode_internal_key-eq u s t h) (decode_tag-tagged u (tag_of s t) (tag_of-IsU64 s t h))

pub length-encode_internal_key :
    (u : Bytes) (s : ℕ) (t : ValueType)
    → s ≤ max_sequence_number
    → length (encode_internal_key u s t) ≡ length u + 8
length-encode_internal_key u s t h =
    rw (encode_internal_key-eq u s t h) (length-tagged u (tag_of s t))

value_type-type_byte : (s : ℕ) (t : ValueType) → value_type (tag_of s t % 256) ≡ some t
value_type-type_byte s ValueType.deletion = ground arith
value_type-type_byte s ValueType.value = ground arith

-- For a sequence in range, parsing an encoded internal key gives back its user key, sequence and
-- type.
pub parse_internal_key-encode :
    (u : Bytes) (s : ℕ) (t : ValueType)
    → s ≤ max_sequence_number
    → parse_internal_key (encode_internal_key u s t)
      ≡ some (record { user_key = u; sequence = s; type = t })
unfolding parse_internal_key
parse_internal_key-encode u s t h = ground (
  arith,
  length-encode_internal_key u s t h,
  decode_tag-encode_internal_key u s t h,
  user_part-encode_internal_key u s t h,
  value_type-type_byte s t,
  type_byte-lt t,
)

-- A byte string of eight bytes or more is its user part and the encoding of its tag.
pub tagged-split :
    (k : Bytes)
    → All IsByte k
    → 8 ≤ length k
    → (k ≡ user_part k ++ encode_fixed64 (decode_tag k)) × IsU64 (decode_tag k)
unfolding decode_tag
tagged-split k bytes h = split (get_fixed64 tail) refl
  where
    tail : Bytes
    tail = drop (length k - 8) k

    size : length tail ≡ 8
    size = omega (arith, length-drop (length k - 8) k)

    split :
        (o : Option (ℕ × Bytes))
        → get_fixed64 tail ≡ o
        → (k ≡ user_part k ++ encode_fixed64 (or_zero (get_fixed64 tail)))
          × IsU64 (or_zero (get_fixed64 tail))
    split none e = absurd (omega (arith, size, get_fixed64-none tail e))
    split (some (v, rest)) e =
        let (whole, fits) =
          get_fixed64-eq_some tail v rest (All-drop IsByte (length k - 8) k bytes) e in
        let no_rest : rest ≡ [] = length-eq_zero rest (
          omega (
            arith,
            size,
            ap length whole,
            length-append (encode_fixed64 v) rest,
            length-encode_fixed64 v,
          )) in
        let read : or_zero (get_fixed64 tail) ≡ v = ap or_zero e in
        let exact : tail ≡ encode_fixed64 v =
          whole ∙ ap (λ r. encode_fixed64 v ++ r) no_rest ∙ append-nil _ in
        (
          rw read (sym (take-append-drop (length k - 8) k) ∙ ap (λ r. user_part k ++ r) exact),
          rw read fits,
        )

value_type-eq_some : (b : ℕ) (t : ValueType) → value_type b ≡ some t → b ≡ type_byte t
value_type-eq_some b ValueType.deletion h = ground arith
value_type-eq_some b ValueType.value h = ground arith

-- What a successful parse says of the bytes.
pub parse_internal_key-eq_some :
    (k : Bytes) (p : ParsedInternalKey)
    → parse_internal_key k ≡ some p
    → (8 ≤ length k)
      × (p.user_key ≡ user_part k)
      × (p.sequence ≡ decode_tag k / 2 ^ 8)
      × (value_type (decode_tag k % 256) ≡ some p.type)
unfolding parse_internal_key
parse_internal_key-eq_some k p h = ground arith

-- A string of bytes that parses is the encoding of what it parses to, and its sequence is in range.
pub encode_internal_key-parse :
    (k : Bytes) (p : ParsedInternalKey)
    → All IsByte k
    → parse_internal_key k ≡ some p
    → (encode_internal_key p.user_key p.sequence p.type ≡ k) × (p.sequence ≤ max_sequence_number)
encode_internal_key-parse k p bytes h =
    let (size, user, seq, type) = parse_internal_key-eq_some k p h in
    let (whole, fits) = tagged-split k bytes size in
    let low = value_type-eq_some (decode_tag k % 256) p.type type in
    let in_range : p.sequence ≤ max_sequence_number = omega arith in
    let tag : tag_of p.sequence p.type ≡ decode_tag k = omega arith in
    (
      encode_internal_key-eq p.user_key p.sequence p.type in_range ∙ rw (tag, user) (sym whole),
      in_range,
    )
