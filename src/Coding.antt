-- ===== src/Coding.antt =====
-- engine/lsmtree/src/util/coding.cc: fixed-width little-endian integers on byte strings.
-- A `std::string` or `Slice` is the list of its bytes. A function that moves an input slice and
-- fills an output returns both, or `none` where the code returns false and leaves both alone.
pub mod RoundTrip
use mizu.Base.{
  ℕ, zero, suc, ◌+◌, ◌*◌, ◌/◌, ◌%◌, ◌^◌, ◌<◌, bit_or, Option, none, some, [], ◌∷◌, ◌++◌, ltb,
  if◌then◌else◌, length, drop, get_or,
}
use mizu.Base.Order.{Bytes}

abbrev pub IsByte : ℕ → Type 0
IsByte b = b < 256

abbrev pub IsU32 : ℕ → Type 0
IsU32 v = v < 2 ^ 32

abbrev pub IsU64 : ℕ → Type 0
IsU64 v = v < 2 ^ 64

-- `static_cast<char>((value >> k) & 0xff)`
abbrev pub byte_at : ℕ → ℕ → ℕ
byte_at value k = value / 2 ^ k % 256

unfoldable pub encode_fixed32 : ℕ → Bytes
encode_fixed32 value = value % 256 ∷ byte_at value 8 ∷ byte_at value 16 ∷ byte_at value 24 ∷ []

-- `src` points at four readable bytes or more.
unfoldable pub decode_fixed32 : Bytes → ℕ
decode_fixed32 src =
    bit_or (bit_or (bit_or (get_or src 0 0) (get_or src 1 0 * 2 ^ 8)) (get_or src 2 0 * 2 ^ 16))
      (get_or src 3 0 * 2 ^ 24)

unfoldable pub put_fixed32 : Bytes → ℕ → Bytes
put_fixed32 dst value = dst ++ encode_fixed32 value

-- The rounds of `for (index = 0; index < 8; ++index)` that are left, from `index` on.
unfoldable pub put_fixed64_loop : ℕ → ℕ → Bytes → ℕ → Bytes
put_fixed64_loop zero index dst value = dst
put_fixed64_loop (suc rounds) index dst value =
    put_fixed64_loop rounds (index + 1) (dst ++ byte_at value (index * 8) ∷ []) value

unfoldable pub put_fixed64 : Bytes → ℕ → Bytes
unfolding put_fixed64_loop
put_fixed64 dst value = put_fixed64_loop 8 0 dst value

unfoldable pub decode_fixed64_loop : ℕ → ℕ → ℕ → Bytes → ℕ
decode_fixed64_loop zero index value src = value
decode_fixed64_loop (suc rounds) index value src =
    decode_fixed64_loop rounds (index + 1)
      (bit_or value (get_or src index 0 * 2 ^ (index * 8) % 2 ^ 64)) src

unfoldable pub decode_fixed64 : Bytes → ℕ
unfolding decode_fixed64_loop
decode_fixed64 src = decode_fixed64_loop 8 0 0 src

unfoldable pub get_fixed32 : Bytes → Option (ℕ × Bytes)
get_fixed32 input = if ltb (length input) 4 then none else some (decode_fixed32 input, drop 4 input)

unfoldable pub get_fixed64 : Bytes → Option (ℕ × Bytes)
get_fixed64 input = if ltb (length input) 8 then none else some (decode_fixed64 input, drop 8 input)
