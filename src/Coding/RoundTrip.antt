-- ===== src/Coding/RoundTrip.antt =====
-- What the fixed-width encodings of coding.cc and their readers give to each other.
use mizu.Base.{
  ℕ, ◌+◌, ◌*◌, ◌%◌, ◌^◌, ◌<◌, bit_or, ◌≡◌, refl, ◌∙◌, none, some, [], ◌∷◌, ◌++◌, length, All, arith,
  append_assoc, append-nil, bit_or_high,
}
use native.Mathlib.Nat.{mod-eq_of_lt}
use mizu.Base.Order.{Bytes}
use mizu.Coding.{
  IsByte, IsU32, IsU64, byte_at, encode_fixed32, decode_fixed32, put_fixed64, decode_fixed64,
  get_fixed32, get_fixed64,
}

-- The eight bytes of `value`, lowest first.
unfoldable pub encode_fixed64 : ℕ → Bytes
encode_fixed64 value =
    byte_at value 0
    ∷ byte_at value 8
    ∷ byte_at value 16
    ∷ byte_at value 24
    ∷ byte_at value 32
    ∷ byte_at value 40
    ∷ byte_at value 48
    ∷ byte_at value 56
    ∷ []

pub put_fixed64-encode :
    (dst : Bytes) (value : ℕ) → put_fixed64 dst value ≡ dst ++ encode_fixed64 value
unfolding put_fixed64 encode_fixed64
put_fixed64-encode dst value = simp append_assoc

pub length-encode_fixed32 : (value : ℕ) → length (encode_fixed32 value) ≡ 4
unfolding encode_fixed32
length-encode_fixed32 value = refl

pub length-encode_fixed64 : (value : ℕ) → length (encode_fixed64 value) ≡ 8
unfolding encode_fixed64
length-encode_fixed64 value = refl

-- Four bytes as the sum of their weights.
decode_fixed32_sum :
    (a b c d : ℕ) (rest : Bytes)
    → IsByte a
    → IsByte b
    → IsByte c
    → IsByte d
    → decode_fixed32 (a ∷ b ∷ c ∷ d ∷ rest) ≡ a + b * 2 ^ 8 + c * 2 ^ 16 + d * 2 ^ 24
unfolding decode_fixed32
decode_fixed32_sum a b c d rest ha hb hc hd =
    let e1 : bit_or a (b * 2 ^ 8) ≡ a + b * 2 ^ 8 = bit_or_high 8 a b (omega arith) in
    let e2 : bit_or (a + b * 2 ^ 8) (c * 2 ^ 16) ≡ a + b * 2 ^ 8 + c * 2 ^ 16 =
      bit_or_high 16 (a + b * 2 ^ 8) c (omega arith) in
    let e3 : bit_or (a + b * 2 ^ 8 + c * 2 ^ 16) (d * 2 ^ 24)
        ≡ a + b * 2 ^ 8 + c * 2 ^ 16 + d * 2 ^ 24 =
      bit_or_high 24 (a + b * 2 ^ 8 + c * 2 ^ 16) d (omega arith) in
    rw (e1, e2, e3)

-- One round of `decodeFixed64`: the next byte goes above the bits that are there.
or_next :
    (k v b : ℕ) → v < 2 ^ k → b * 2 ^ k < 2 ^ 64 → bit_or v (b * 2 ^ k % 2 ^ 64) ≡ v + b * 2 ^ k
or_next k v b hv hb = rw (mod-eq_of_lt hb) (bit_or_high k v b hv)

-- Eight bytes as the sum of their weights.
decode_fixed64_sum :
    (a b c d e f g h : ℕ) (rest : Bytes)
    → All IsByte (a ∷ b ∷ c ∷ d ∷ e ∷ f ∷ g ∷ h ∷ [])
    → decode_fixed64 (a ∷ b ∷ c ∷ d ∷ e ∷ f ∷ g ∷ h ∷ rest)
      ≡ a + b * 2 ^ 8 + c * 2 ^ 16 + d * 2 ^ 24 + e * 2 ^ 32 + f * 2 ^ 40 + g * 2 ^ 48 + h * 2 ^ 56
unfolding decode_fixed64
decode_fixed64_sum a b c d e f g h rest bytes =
    let v1 = a + b * 2 ^ 8 in
    let v2 = v1 + c * 2 ^ 16 in
    let v3 = v2 + d * 2 ^ 24 in
    let v4 = v3 + e * 2 ^ 32 in
    let v5 = v4 + f * 2 ^ 40 in
    let v6 = v5 + g * 2 ^ 48 in
    let e0 : bit_or 0 (a * 2 ^ 0 % 2 ^ 64) ≡ a =
      or_next 0 0 a (omega arith) (omega arith) ∙ omega arith in
    rw (
      e0,
      or_next 8 a b (omega arith) (omega arith),
      or_next 16 v1 c (omega arith) (omega arith),
      or_next 24 v2 d (omega arith) (omega arith),
      or_next 32 v3 e (omega arith) (omega arith),
      or_next 40 v4 f (omega arith) (omega arith),
      or_next 48 v5 g (omega arith) (omega arith),
      or_next 56 v6 h (omega arith) (omega arith),
    )

-- A fixed32 is read back from the front of any input, with what follows it as the rest.
pub get_fixed32-encode :
    (v : ℕ) (rest : Bytes) → IsU32 v → get_fixed32 (encode_fixed32 v ++ rest) ≡ some (v, rest)
unfolding get_fixed32 encode_fixed32
get_fixed32-encode v rest h = ground (
  arith,
  decode_fixed32_sum (v % 256) (byte_at v 8) (byte_at v 16) (byte_at v 24) rest (omega arith)
      (omega arith) (omega arith) (omega arith),
)

pub get_fixed64-encode :
    (v : ℕ) (rest : Bytes) → IsU64 v → get_fixed64 (encode_fixed64 v ++ rest) ≡ some (v, rest)
unfolding get_fixed64 encode_fixed64
get_fixed64-encode v rest h = ground (
  arith,
  decode_fixed64_sum (byte_at v 0) (byte_at v 8) (byte_at v 16) (byte_at v 24) (byte_at v 32)
      (byte_at v 40) (byte_at v 48) (byte_at v 56) rest (omega arith),
)

-- What a successful read says of its input: it began with the encoding of the value.
pub get_fixed32-eq_some :
    (input : Bytes) (v : ℕ) (rest : Bytes)
    → All IsByte input
    → get_fixed32 input ≡ some (v, rest)
    → (input ≡ encode_fixed32 v ++ rest) × IsU32 v
unfolding get_fixed32 encode_fixed32
get_fixed32-eq_some [] v rest bytes h = cc
get_fixed32-eq_some (a ∷ []) v rest bytes h = cc
get_fixed32-eq_some (a ∷ b ∷ []) v rest bytes h = cc
get_fixed32-eq_some (a ∷ b ∷ c ∷ []) v rest bytes h = cc
get_fixed32-eq_some (a ∷ b ∷ c ∷ d ∷ more) v rest bytes h =
    ground (
      arith,
      decode_fixed32_sum a b c d more (omega arith) (omega arith) (omega arith) (omega arith),
    )

-- A value that `getFixed64` reads from a string of bytes fits 64 bits, and the string is its encoding
-- followed by the input that is left.
pub get_fixed64-eq_some :
    (input : Bytes) (v : ℕ) (rest : Bytes)
    → All IsByte input
    → get_fixed64 input ≡ some (v, rest)
    → (input ≡ encode_fixed64 v ++ rest) × IsU64 v
unfolding get_fixed64 encode_fixed64
get_fixed64-eq_some [] v rest bytes h = cc
get_fixed64-eq_some (a ∷ []) v rest bytes h = cc
get_fixed64-eq_some (a ∷ b ∷ []) v rest bytes h = cc
get_fixed64-eq_some (a ∷ b ∷ c ∷ []) v rest bytes h = cc
get_fixed64-eq_some (a ∷ b ∷ c ∷ d ∷ []) v rest bytes h = cc
get_fixed64-eq_some (a ∷ b ∷ c ∷ d ∷ e ∷ []) v rest bytes h = cc
get_fixed64-eq_some (a ∷ b ∷ c ∷ d ∷ e ∷ f ∷ []) v rest bytes h = cc
get_fixed64-eq_some (a ∷ b ∷ c ∷ d ∷ e ∷ f ∷ g ∷ []) v rest bytes h = cc
get_fixed64-eq_some (a ∷ b ∷ c ∷ d ∷ e ∷ f ∷ g ∷ i ∷ more) v rest bytes h =
    ground (arith, decode_fixed64_sum a b c d e f g i more (omega arith))

-- The readers fail exactly on inputs that are too short.
pub get_fixed32-eq_none : (input : Bytes) → length input < 4 → get_fixed32 input ≡ none
unfolding get_fixed32
get_fixed32-eq_none input h = ground arith

pub get_fixed64-eq_none : (input : Bytes) → length input < 8 → get_fixed64 input ≡ none
unfolding get_fixed64
get_fixed64-eq_none input h = ground arith

pub encode_fixed32-IsByte : (v : ℕ) → All IsByte (encode_fixed32 v)
unfolding encode_fixed32
encode_fixed32-IsByte v = omega arith

pub encode_fixed64-IsByte : (v : ℕ) → All IsByte (encode_fixed64 v)
unfolding encode_fixed64
encode_fixed64-IsByte v = omega arith

pub get_fixed32-none : (input : Bytes) → get_fixed32 input ≡ none → length input < 4
unfolding get_fixed32
get_fixed32-none input h = ground arith

pub get_fixed64-none : (input : Bytes) → get_fixed64 input ≡ none → length input < 8
unfolding get_fixed64
get_fixed64-none input h = ground arith

-- The encoding alone is read whole.
pub get_fixed32-encode_self : (v : ℕ) → IsU32 v → get_fixed32 (encode_fixed32 v) ≡ some (v, [])
get_fixed32-encode_self v h = rw append-nil at (get_fixed32-encode v [] h)

-- A 64-bit value that `putFixed64` appends to an empty string is read back by `getFixed64`, which
-- leaves the bytes behind it.
pub put_fixed64_round_trip :
    (v : ℕ) (rest : Bytes) → IsU64 v → get_fixed64 (put_fixed64 [] v ++ rest) ≡ some (v, rest)
put_fixed64_round_trip v rest h = rw (put_fixed64-encode [] v) (get_fixed64-encode v rest h)

pub decode_fixed32-encode_fixed32 : (v : ℕ) → IsU32 v → decode_fixed32 (encode_fixed32 v) ≡ v
unfolding encode_fixed32
decode_fixed32-encode_fixed32 v h =
    decode_fixed32_sum (v % 256) (byte_at v 8) (byte_at v 16) (byte_at v 24) [] (omega arith)
      (omega arith) (omega arith) (omega arith)
    ∙ omega arith
