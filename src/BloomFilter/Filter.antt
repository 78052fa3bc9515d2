-- ===== src/BloomFilter/Filter.antt =====
-- What `set_bit` and the probes do to the bytes of a filter.
use mizu.Base.{
  ℕ, zero, suc, ◌+◌, ◌/◌, ◌%◌, ◌^◌, ◌≤◌, ◌<◌, ◌≡◌, ◌≢◌, refl, ap, true, List, [], ◌∷◌, bit_or,
  bit_and, ltb, ◌==◌, length, get_or, arith, Bool-cases, inl, inr, bit_and-bit_or_set,
  bit_and-bit_or_keep, zero-bit_and,
}
use mizu.Base.Order.{Bytes}
use mizu.BloomFilter.{
  rotated_delta, set_at, set_bit, test_bit, set_probes, set_hashes, test_probes, bloom_probes,
}

pub length-set_at : (xs : Bytes) (i b : ℕ) → length (set_at xs i b) ≡ length xs
unfolding set_at
length-set_at [] i b = refl
length-set_at (x ∷ xs) zero b = refl
length-set_at (x ∷ xs) (suc i) b = ap suc (length-set_at xs i b)

pub get_or-set_at_same : (xs : Bytes) (i b : ℕ) → i < length xs → get_or (set_at xs i b) i 0 ≡ b
unfolding set_at
get_or-set_at_same [] i b h = absurd (omega arith)
get_or-set_at_same (x ∷ xs) zero b h = refl
get_or-set_at_same (x ∷ xs) (suc i) b h = get_or-set_at_same xs i b (omega arith)

pub get_or-set_at_other :
    (xs : Bytes) (i j b : ℕ) → i ≢ j → get_or (set_at xs i b) j 0 ≡ get_or xs j 0
unfolding set_at
get_or-set_at_other [] i j b h = refl
get_or-set_at_other (x ∷ xs) zero zero b h = absurd (h refl)
get_or-set_at_other (x ∷ xs) zero (suc j) b h = refl
get_or-set_at_other (x ∷ xs) (suc i) zero b h = refl
get_or-set_at_other (x ∷ xs) (suc i) (suc j) b h = get_or-set_at_other xs i j b (λ e. h (ap suc e))

pub get_or-past : (xs : Bytes) (i : ℕ) → length xs ≤ i → get_or xs i 0 ≡ 0
get_or-past [] i h = refl
get_or-past (x ∷ xs) zero h = absurd (omega arith)
get_or-past (x ∷ xs) (suc i) h = get_or-past xs i (omega arith)

pub test_bit-set_bit_same :
    (f : Bytes) (bit : ℕ) → bit / 8 < length f → test_bit (set_bit f bit) bit ≡ true
unfolding test_bit set_bit
test_bit-set_bit_same f bit h =
    let byte = get_or f (bit / 8) 0 in
    let set = bit_and-bit_or_set (bit % 8) byte in
    rw (get_or-set_at_same f (bit / 8) (bit_or byte (2 ^ (bit % 8))) h) (ground (arith, set))

pub test_bit-set_bit_keep :
    (f : Bytes) (bit other : ℕ) → test_bit f other ≡ true → test_bit (set_bit f bit) other ≡ true
unfolding test_bit set_bit
test_bit-set_bit_keep f bit other h = elim (Bool-cases (bit / 8 == other / 8)) [
  | inr apart ↦
      rw
        (get_or-set_at_other f (bit / 8) (other / 8) (bit_or (get_or f (bit / 8) 0) (2 ^ (bit % 8)))
          (λ e. ground (arith, apart, e)))
        h
  | inl same ↦
      let at : bit / 8 ≡ other / 8 = ground (arith, same) in
      let byte = get_or f (other / 8) 0 in
      let more = bit_or byte (2 ^ (bit % 8)) in
      elim (Bool-cases (ltb (other / 8) (length f))) [
        | inl inside ↦
            let kept = bit_and-bit_or_keep (other % 8) byte (2 ^ (bit % 8)) (ground (arith, h)) in
            rw (at, get_or-set_at_same f (other / 8) more (ground arith)) (ground (arith, kept))
        | inr past ↦ absurd (
            ground (
              arith,
              h,
              ap (λ b. bit_and b (2 ^ (other % 8))) (get_or-past f (other / 8) (ground arith)),
              zero-bit_and (2 ^ (other % 8)),
            ))
      ]
]

pub test_probes-set_bit :
    (probes hash delta n bit : ℕ) (f : Bytes)
    → test_probes probes hash delta n f ≡ true
    → test_probes probes hash delta n (set_bit f bit) ≡ true
unfolding test_probes
test_probes-set_bit zero hash delta n bit f h = refl
test_probes-set_bit (suc probes) hash delta n bit f h = ground (
  arith,
  test_bit-set_bit_keep f bit (hash % n),
  test_probes-set_bit probes ((hash + delta) % 2 ^ 32) delta n bit f,
)

-- What holds of a filter, if `set_bit` keeps it, holds behind `set_probes` and `set_hashes`.
pub set_probes-keeps :
    (P : Bytes → Type 0)
    → ((f : Bytes) (bit : ℕ) → P f → P (set_bit f bit))
    → (probes hash delta n : ℕ) (f : Bytes) → P f
    → P (set_probes probes hash delta n f)
unfolding set_probes
set_probes-keeps P keep zero hash delta n f h = h
set_probes-keeps P keep (suc probes) hash delta n f h =
    set_probes-keeps P keep probes ((hash + delta) % 2 ^ 32) delta n (set_bit f (hash % n))
      (keep f (hash % n) h)

pub set_hashes-keeps :
    (P : Bytes → Type 0)
    → ((f : Bytes) (bit : ℕ) → P f → P (set_bit f bit))
    → (hashes : List ℕ) (n : ℕ) (f : Bytes) → P f
    → P (set_hashes hashes n f)
unfolding set_hashes
set_hashes-keeps P keep [] n f h = h
set_hashes-keeps P keep (hash ∷ hashes) n f h =
    set_hashes-keeps P keep hashes n (set_probes bloom_probes hash (rotated_delta hash) n f)
      (set_probes-keeps P keep bloom_probes hash (rotated_delta hash) n f h)

pub length-set_bit : (f : Bytes) (bit : ℕ) → length (set_bit f bit) ≡ length f
unfolding set_bit
length-set_bit f bit = length-set_at f (bit / 8) (bit_or (get_or f (bit / 8) 0) (2 ^ (bit % 8)))
