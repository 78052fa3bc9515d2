-- ===== src/BloomFilter/Probes.antt =====
-- A filter says yes to every key that it was built from.
use mizu.Base.{
  ℕ, zero, suc, ◌+◌, ◌-◌, ◌*◌, ◌/◌, ◌%◌, ◌^◌, ◌≤◌, ◌<◌, ◌≡◌, refl, ap, ◌∙◌, true, List, [], ◌∷◌,
  ◌++◌, max, bit_or, length, get_or, map, arith, length-append,
}
use native.Mathlib.Nat.{mod-lt}
use mizu.Base.Order.{Bytes}
use mizu.BloomFilter.{
  bloom_hash, rotated_delta, set_at, set_bit, test_bit, set_probes, set_hashes, zero_bytes,
  build_filter, filter_of, test_probes, bloom_filter_may_contain, bloom_probes, minimum_bloom_bits,
  bloom_bits_per_key,
}
use mizu.BloomFilter.Filter.{
  get_or-set_at_other, test_bit-set_bit_same, test_bit-set_bit_keep, test_probes-set_bit,
  set_probes-keeps, set_hashes-keeps, length-set_bit,
}

-- Every probed byte is one of the filter's but the last.
byte_of_probe : (hash count : ℕ) → 0 < count → hash % (count * 8) / 8 < count
byte_of_probe hash count h = omega (arith, mod-lt hash {m = count * 8} (omega arith))

-- The probes of a hash find their own bits.
test_probes-set_probes :
    (probes hash delta count : ℕ) (f : Bytes)
    → 0 < count
    → count ≤ length f
    → test_probes probes hash delta (count * 8) (set_probes probes hash delta (count * 8) f) ≡ true
unfolding test_probes set_probes
test_probes-set_probes zero hash delta count f pos fits = refl
test_probes-set_probes (suc probes) hash delta count f pos fits =
    let bit = hash % (count * 8) in
    let hash' = (hash + delta) % 2 ^ 32 in
    let first =
      set_probes-keeps (λ g. test_bit g bit ≡ true) (λ g b. test_bit-set_bit_keep g b bit) probes
        hash' delta (count * 8) (set_bit f bit)
        (test_bit-set_bit_same f bit (omega (arith, byte_of_probe hash count pos))) in
    let rest =
      test_probes-set_probes probes hash' delta count (set_bit f bit) pos
        (omega (arith, length-set_bit f bit)) in
    rw (first, rest)

-- The probes of each hash of a list find their bits behind all of them.
test_probes-set_hashes :
    (before after : List ℕ) (hash count : ℕ) (f : Bytes)
    → 0 < count
    → count ≤ length f
    → test_probes bloom_probes hash
        (rotated_delta hash)
        (count * 8)
        (set_hashes (before ++ hash ∷ after) (count * 8) f)
      ≡ true
unfolding set_hashes
test_probes-set_hashes [] after hash count f pos fits =
    let n = count * 8 in
    let delta = rotated_delta hash in
    set_hashes-keeps (λ g. test_probes bloom_probes hash delta n g ≡ true)
      (λ g b. test_probes-set_bit bloom_probes hash delta n b g) after n
      (set_probes bloom_probes hash delta n f)
      (test_probes-set_probes bloom_probes hash delta count f pos fits)
test_probes-set_hashes (other ∷ before) after hash count f pos fits =
    let n = count * 8 in
    let size =
      set_probes-keeps (λ g. length g ≡ length f) (λ g b e. length-set_bit g b ∙ e) bloom_probes
        other (rotated_delta other) n f refl in
    test_probes-set_hashes before after hash count
      (set_probes bloom_probes other (rotated_delta other) n f) pos (omega (arith, size))

-- No probe touches the last byte.
set_probes-last :
    (probes hash delta count : ℕ) (f : Bytes)
    → 0 < count
    → get_or (set_probes probes hash delta (count * 8) f) count 0 ≡ get_or f count 0
unfolding set_probes set_bit
set_probes-last zero hash delta count f pos = refl
set_probes-last (suc probes) hash delta count f pos =
    let bit = hash % (count * 8) in
    let byte = bit_or (get_or f (bit / 8) 0) (2 ^ (bit % 8)) in
    set_probes-last probes ((hash + delta) % 2 ^ 32) delta count (set_at f (bit / 8) byte) pos
    ∙ get_or-set_at_other f (bit / 8) count byte
        (λ e. omega (arith, byte_of_probe hash count pos, e))

set_hashes-last :
    (hashes : List ℕ) (count : ℕ) (f : Bytes)
    → 0 < count
    → get_or (set_hashes hashes (count * 8) f) count 0 ≡ get_or f count 0
unfolding set_hashes
set_hashes-last [] count f pos = refl
set_hashes-last (hash ∷ hashes) count f pos =
    set_hashes-last hashes count (set_probes bloom_probes hash (rotated_delta hash) (count * 8) f)
      pos
    ∙ set_probes-last bloom_probes hash (rotated_delta hash) count f pos

length-zero_bytes : (n : ℕ) → length (zero_bytes n) ≡ n
unfolding zero_bytes
length-zero_bytes zero = refl
length-zero_bytes (suc n) = ap suc (length-zero_bytes n)

get_or-zero_bytes : (n b : ℕ) → get_or (zero_bytes n ++ b ∷ []) n 0 ≡ b
unfolding zero_bytes
get_or-zero_bytes zero b = refl
get_or-zero_bytes (suc n) b = get_or-zero_bytes n b

-- A filter of two bytes or more whose last byte is the builder's number of probes is asked by probes.
may_contain-probes :
    (key f : Bytes) (count : ℕ)
    → 0 < count
    → length f ≡ suc count
    → get_or f count 0 ≡ bloom_probes
    → bloom_filter_may_contain key f
      ≡ test_probes bloom_probes (bloom_hash key) (rotated_delta (bloom_hash key)) (count * 8) f
unfolding bloom_filter_may_contain
may_contain-probes key [] count pos size last = absurd (omega arith)
may_contain-probes key (b ∷ []) count pos size last = absurd (omega arith)
may_contain-probes key (b ∷ c ∷ rest) count pos size last =
    let at : suc (length rest) ≡ count = omega arith in
    let here : length (b ∷ c ∷ rest) - 1 ≡ count = omega arith in rw (here, last)

map-split :
    (before after : List Bytes) (key : Bytes)
    → map bloom_hash (before ++ key ∷ after)
      ≡ map bloom_hash before ++ bloom_hash key ∷ map bloom_hash after
map-split [] after key = refl
map-split (k ∷ before) after key = ap (λ hs. bloom_hash k ∷ hs) (map-split before after key)

-- The filter that the builder makes of any keys may contain each of them: there are no false
-- negatives.
pub may_contain-filter_of :
    (before after : List Bytes) (key : Bytes)
    → bloom_filter_may_contain key (filter_of (before ++ key ∷ after)) ≡ true
unfolding filter_of build_filter
may_contain-filter_of before after key =
    let hashes = map bloom_hash before ++ bloom_hash key ∷ map bloom_hash after in
    let count = (max (length hashes * bloom_bits_per_key) minimum_bloom_bits + 7) / 8 in
    let start = zero_bytes count ++ bloom_probes ∷ [] in
    let pos : 0 < count = omega arith in
    let size : length start ≡ suc count =
      omega
        (arith, length-append (zero_bytes count) (bloom_probes ∷ []), length-zero_bytes count) in
    let kept =
      set_hashes-keeps (λ g. length g ≡ length start) (λ g b e. length-set_bit g b ∙ e) hashes
        (count * 8) start refl in
    ap (λ hs. bloom_filter_may_contain key (build_filter hs)) (map-split before after key)
    ∙ may_contain-probes key (set_hashes hashes (count * 8) start) count pos (kept ∙ size)
        (set_hashes-last hashes count start pos ∙ get_or-zero_bytes count bloom_probes)
    ∙ test_probes-set_hashes (map bloom_hash before) (map bloom_hash after) (bloom_hash key) count
        start pos (omega (arith, size))
