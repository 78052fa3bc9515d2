-- ===== src/FileName/Number.antt =====
-- Decimal numbers: the parser accepts exactly the digits of a positive number that fits 64 bits.
use mizu.Base.{
  ℕ, zero, suc, ◌+◌, ◌-◌, ◌*◌, ◌/◌, ◌%◌, ◌≤◌, ◌<◌, ◌≡◌, refl, ap, ◌∙◌, Bool, true, false, not, ◌&&◌,
  ◌||◌, none, some, [], ◌∷◌, ◌++◌, ltb, leb, ◌==◌, if◌then◌else◌, length, arith, Bool-cases, inl,
  inr, replicate, length-append,
}
use mizu.Base.Order.{Bytes}
use mizu.FileName.{
  digit_zero, digit_nine, u64_max, digits_of, to_string, parse_digits, unless_zero, parse_number,
}

abbrev pub all_digits : Bytes → Bool
all_digits [] = true
all_digits (c ∷ text) = not (ltb c digit_zero || ltb digit_nine c) && all_digits text

-- The number that digits go on from a number to.
abbrev pub decimal : ℕ → Bytes → ℕ
decimal n [] = n
decimal n (c ∷ text) = decimal (n * 10 + (c - digit_zero)) text

decimal_grows : (n : ℕ) (text : Bytes) → n ≤ decimal n text
decimal_grows n [] = omega arith
decimal_grows n (c ∷ text) =
    let rest = decimal_grows (n * 10 + (c - digit_zero)) text in omega (arith, rest)

-- The overflow test of the loop is exact.
overflow_exact : (n d : ℕ) → d ≤ 9 → ltb ((u64_max - d) / 10) n ≡ ltb u64_max (n * 10 + d)
overflow_exact n d h = ground arith

parse_digits-decimal :
    (n : ℕ) (text : Bytes)
    → n ≤ u64_max
    → parse_digits n text
      ≡ (if all_digits text && leb (decimal n text) u64_max then some (decimal n text) else none)
unfolding parse_digits
parse_digits-decimal n [] h = ground arith
parse_digits-decimal n (c ∷ text) h =
    let d = c - digit_zero in
    let exact = overflow_exact n d in
    let grows = decimal_grows (n * 10 + d) text in
    elim (Bool-cases (ltb c digit_zero || ltb digit_nine c)) [
      | inl other ↦ rw other refl
      | inr digit ↦
          let small : d ≤ 9 = ground (arith, digit) in
          elim (Bool-cases (ltb u64_max (n * 10 + d))) [
            | inl over ↦
                let large : leb (decimal (n * 10 + d) text) u64_max ≡ false =
                  ground (arith, grows, over) in
                rw (digit, exact small ∙ over, large) (ground arith)
            | inr fits ↦
                rw (digit, exact small ∙ fits)
                  (parse_digits-decimal (n * 10 + d) text (ground (arith, fits)))
          ]
    ]

-- `parseNumber` accepts exactly the texts of decimal digits, one or more, whose number is positive and
-- fits 64 bits, and gives that number: its test for an overflow is exact.
pub parse_number-decimal :
    (text : Bytes)
    → parse_number text ≡ (
        if not (length text == 0)
          && all_digits text
          && (ltb 0 (decimal 0 text) && leb (decimal 0 text) u64_max)
        then some (decimal 0 text)
        else none)
unfolding parse_number
parse_number-decimal [] = refl
parse_number-decimal (c ∷ text) =
    ap unless_zero (parse_digits-decimal 0 (c ∷ text) (omega arith)) ∙ ground arith

decimal-append : (n : ℕ) (xs ys : Bytes) → decimal n (xs ++ ys) ≡ decimal (decimal n xs) ys
decimal-append n [] ys = refl
decimal-append n (x ∷ xs) ys = decimal-append (n * 10 + (x - digit_zero)) xs ys

all_digits-append : (xs ys : Bytes) → all_digits (xs ++ ys) ≡ all_digits xs && all_digits ys
all_digits-append [] ys = refl
all_digits-append (x ∷ xs) ys = ground (arith, all_digits-append xs ys)

-- The numbers that have one more digit than the fuel, or fewer.
abbrev limit : ℕ → ℕ
limit zero = 10
limit (suc fuel) = 10 * limit fuel

one_digit :
    (n : ℕ)
    → n < 10
    → (all_digits ((digit_zero + n) ∷ []) ≡ true) × (decimal 0 ((digit_zero + n) ∷ []) ≡ n)
one_digit n h = (ground arith, omega arith)

digits_of-decimal :
    (fuel n : ℕ)
    → n < limit fuel
    → (all_digits (digits_of fuel n) ≡ true) × (decimal 0 (digits_of fuel n) ≡ n)
unfolding digits_of
digits_of-decimal zero n h = (ground arith, omega arith)
digits_of-decimal (suc fuel) n h =
    let last = (digit_zero + n % 10) ∷ [] in
    let (good, same) = digits_of-decimal fuel (n / 10) (omega (arith, h)) in
    let tail = one_digit (n % 10) (omega arith) in
    elim (Bool-cases (ltb n 10)) [
      | inl small ↦ rw small (one_digit n (ground (arith, small)))
      | inr large ↦ rw large (
        all_digits-append (digits_of fuel (n / 10)) last ∙ ground (arith, good, tail.0),
        decimal-append 0 (digits_of fuel (n / 10)) last
            ∙ ap (λ m. m * 10 + (digit_zero + n % 10 - digit_zero)) same
            ∙ omega arith,
      )
    ]

padding :
    (k : ℕ)
    → (all_digits (replicate k digit_zero) ≡ true) × (decimal 0 (replicate k digit_zero) ≡ 0)
padding zero = (refl, refl)
padding (suc k) = (ground (arith, (padding k).0), (padding k).1)

-- The digits of a name, padded to six.
abbrev pub padded : ℕ → Bytes
padded n =
    if ltb (length (to_string n)) 6
    then replicate (6 - length (to_string n)) digit_zero ++ to_string n
    else to_string n

pub padded-decimal :
    (n : ℕ) → n ≤ u64_max → (all_digits (padded n) ≡ true) × (decimal 0 (padded n) ≡ n)
padded-decimal n h =
    let (good, same) = digits_of-decimal 19 n (omega arith) in
    let k = 6 - length (to_string n) in
    let (zeros, nought) = padding k in
    elim (Bool-cases (ltb (length (to_string n)) 6)) [
      | inr long ↦ rw long (good, same)
      | inl short ↦ rw short (
        all_digits-append (replicate k digit_zero) (to_string n) ∙ ground (arith, zeros, good),
        decimal-append 0 (replicate k digit_zero) (to_string n)
            ∙ ap (λ m. decimal m (to_string n)) nought
            ∙ same,
      )
    ]

length-replicate : (k : ℕ) → length (replicate k digit_zero) ≡ k
length-replicate zero = refl
length-replicate (suc k) = ap suc (length-replicate k)

pub padded-length : (n : ℕ) → 6 ≤ length (padded n)
padded-length n = elim (Bool-cases (ltb (length (to_string n)) 6)) [
  | inr long ↦ rw long (ground (arith, long))
  | inl short ↦
      let k = 6 - length (to_string n) in
      rw short
        (omega (arith, length-append (replicate k digit_zero) (to_string n), length-replicate k))
]

pub parse_number-padded : (n : ℕ) → 0 < n → n ≤ u64_max → parse_number (padded n) ≡ some n
parse_number-padded n positive fits =
    let (good, same) = padded-decimal n fits in
    let long = padded-length n in
    parse_number-decimal (padded n) ∙ rw (good, same) (ground (arith, long))
