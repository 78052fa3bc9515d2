-- ===== src/BloomFilter.antt =====
-- engine/lsmtree/src/table/bloom_filter.{h,cc}: the filter over the user keys of a table. A filter is
-- the list of its bytes, with the number of probes last.
pub mod Filter
pub mod Probes
use mizu.Base.{
  ℕ, zero, suc, ◌+◌, ◌-◌, ◌*◌, ◌/◌, ◌%◌, ◌^◌, Bool, true, false, not, ◌||◌, List, [], ◌∷◌, ◌++◌,
  max, bit_or, bit_and, bit_xor, ltb, ◌==◌, if◌then◌else◌, length, get_or, map,
}
use mizu.Base.Order.{Bytes}
use mizu.Coding.{decode_fixed32}

abbrev bloom_hash_seed : ℕ
bloom_hash_seed = 3164544308

abbrev bloom_multiplier : ℕ
bloom_multiplier = 3332679571

abbrev pub bloom_bits_per_key : ℕ
bloom_bits_per_key = 10

abbrev pub bloom_probes : ℕ
bloom_probes = 6

abbrev pub minimum_bloom_bits : ℕ
minimum_bloom_bits = 64

abbrev pub maximum_probes : ℕ
maximum_probes = 30

-- `hash *= multiplier; hash ^= hash >> shift;` on 32 bits, after `hash += word`
unfoldable pub mix_word : ℕ → ℕ → ℕ → ℕ
mix_word shift word hash =
    let product = (hash + word) % 2 ^ 32 * bloom_multiplier % 2 ^ 32 in
    bit_xor product (product / 2 ^ shift)

-- The loop over words of four bytes, and the switch over the bytes that remain.
unfoldable pub hash_words : Bytes → ℕ → ℕ
hash_words [] hash = hash
hash_words (a ∷ []) hash = mix_word 24 a hash
hash_words (a ∷ b ∷ []) hash = mix_word 24 (b * 2 ^ 8 + a) hash
hash_words (a ∷ b ∷ c ∷ []) hash = mix_word 24 (c * 2 ^ 16 + b * 2 ^ 8 + a) hash
hash_words (a ∷ b ∷ c ∷ d ∷ rest) hash =
    hash_words rest (mix_word 16 (decode_fixed32 (a ∷ b ∷ c ∷ d ∷ [])) hash)

unfoldable pub bloom_hash : Bytes → ℕ
bloom_hash key =
    hash_words key (bit_xor bloom_hash_seed (length key % 2 ^ 32 * bloom_multiplier % 2 ^ 32))

unfoldable pub rotated_delta : ℕ → ℕ
rotated_delta hash = bit_or (hash / 2 ^ 17) (hash * 2 ^ 15 % 2 ^ 32)

-- `encoded[i] = b`
unfoldable pub set_at : Bytes → ℕ → ℕ → Bytes
set_at [] i b = []
set_at (x ∷ xs) zero b = b ∷ xs
set_at (x ∷ xs) (suc i) b = x ∷ set_at xs i b

unfoldable pub set_bit : Bytes → ℕ → Bytes
set_bit encoded bit = set_at encoded (bit / 8) (bit_or (get_or encoded (bit / 8) 0) (2 ^ (bit % 8)))

unfoldable pub test_bit : Bytes → ℕ → Bool
test_bit encoded bit = not (bit_and (get_or encoded (bit / 8) 0) (2 ^ (bit % 8)) == 0)

-- The probes that are left for one hash.
unfoldable pub set_probes : ℕ → ℕ → ℕ → ℕ → Bytes → Bytes
set_probes zero hash delta bit_count encoded = encoded
set_probes (suc probes) hash delta bit_count encoded =
    set_probes probes ((hash + delta) % 2 ^ 32) delta bit_count (set_bit encoded (hash % bit_count))

unfoldable pub set_hashes : List ℕ → ℕ → Bytes → Bytes
set_hashes [] bit_count encoded = encoded
set_hashes (hash ∷ hashes) bit_count encoded =
    set_hashes hashes bit_count
      (set_probes bloom_probes hash (rotated_delta hash) bit_count encoded)

-- `std::string encoded(byte_count, '\0')`
unfoldable pub zero_bytes : ℕ → Bytes
zero_bytes zero = []
zero_bytes (suc n) = 0 ∷ zero_bytes n

-- The size of the filter is taken to fit `size_t`.
unfoldable pub build_filter : List ℕ → Bytes
build_filter hashes =
    let byte_count = (max (length hashes * bloom_bits_per_key) minimum_bloom_bits + 7) / 8 in
    set_hashes hashes (byte_count * 8) (zero_bytes byte_count ++ bloom_probes ∷ [])

-- `add` for each key, and `finish`.
unfoldable pub filter_of : List Bytes → Bytes
filter_of keys = build_filter (map bloom_hash keys)

unfoldable pub test_probes : ℕ → ℕ → ℕ → ℕ → Bytes → Bool
test_probes zero hash delta bit_count encoded = true
test_probes (suc probes) hash delta bit_count encoded =
    let rest = test_probes probes ((hash + delta) % 2 ^ 32) delta bit_count encoded in
    if test_bit encoded (hash % bit_count) then rest else false

unfoldable pub bloom_filter_may_contain : Bytes → Bytes → Bool
bloom_filter_may_contain key [] = true
bloom_filter_may_contain key (b ∷ []) = true
bloom_filter_may_contain key (b ∷ c ∷ rest) =
    let encoded_filter = b ∷ c ∷ rest in
    let byte_count = length encoded_filter - 1 in
    let probes = get_or encoded_filter byte_count 0 in
    if probes == 0 || ltb maximum_probes probes
    then true
    else test_probes probes (bloom_hash key) (rotated_delta (bloom_hash key)) (byte_count * 8)
        encoded_filter
