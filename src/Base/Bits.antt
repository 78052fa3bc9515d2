-- ===== src/Base/Bits.antt =====
-- `|` of numbers whose bits do not meet is their sum.
use Prim.Native.Nat.{ℕ, zero, suc, ◌+◌, ◌*◌, ◌/◌, ◌%◌, ◌^◌, ◌≤◌, ◌<◌, max, min, bit_or, bit_and}
use Prim.Native.Nat.{digits, bit_or-bitwise, bit_and-bitwise}
use mathlib.Core.Path.{◌≡◌, refl, ap, ◌∙◌}
use native.Mathlib.Omega.{arith}
use native.Mathlib.Nat.{pow-suc}

abbrev merged : ℕ → ℕ → ℕ → ℕ
merged rounds x y = digits (λ rest. rest) max rounds x y

-- As many rounds as `x` are enough, and more change nothing.
merged_enough : (x y j k : ℕ) → x ≤ j → x ≤ k → merged j x y ≡ merged k x y
merged_enough (suc x) y (suc j) (suc k) hj hk =
    omega (arith, merged_enough (suc x / 2) (y / 2) j k (omega arith) (omega arith))
merged_enough (suc x) y zero k hj hk = absurd (omega arith)
merged_enough (suc x) y (suc j) zero hj hk = absurd (omega arith)
merged_enough zero y zero zero hj hk = refl
merged_enough zero y zero (suc k) hj hk = refl
merged_enough zero y (suc j) zero hj hk = refl
merged_enough zero y (suc j) (suc k) hj hk = refl

zero-bit_or : (y : ℕ) → bit_or 0 y ≡ y
zero-bit_or y = bit_or-bitwise 0 y

-- The lowest bit of `x | y` is the larger of the two lowest bits.
pub bit_or_step : (x y : ℕ) → bit_or x y ≡ bit_or (x / 2) (y / 2) * 2 + max (x % 2) (y % 2)
bit_or_step (suc x) y =
    let half = suc x / 2 in
    let fewer = merged_enough half (y / 2) x half (omega arith) (omega arith) in
    omega (arith, fewer, bit_or-bitwise half (y / 2), bit_or-bitwise (suc x) y)
bit_or_step zero y = omega (arith, zero-bit_or (y / 2), zero-bit_or y)

-- The low half `a` fits below `p = 2 ^ k`, and the high half is a multiple of `p`.
bit_or_below : (k p a b : ℕ) → p ≡ 2 ^ k → a < p → bit_or a (b * p) ≡ a + b * p
bit_or_below zero p a b e h =
    let e1 : p ≡ 1 = e in
    let a0 : a ≡ 0 = omega arith in
    ap (λ x. bit_or x (b * p)) a0 ∙ zero-bit_or (b * p) ∙ omega arith
bit_or_below (suc k) p a b e h =
    let e2 : p ≡ 2 * 2 ^ k = omega (arith, pow-suc 2 k) in
    let ep : b * p ≡ 2 * (b * 2 ^ k) = omega (arith, ap (λ (t : ℕ). b * t) e2) in
    let half : b * p / 2 ≡ b * 2 ^ k = omega arith in
    omega (
      arith,
      bit_or_step a (b * p),
      ap (λ (t : ℕ). bit_or (a / 2) t) half,
      bit_or_below k (2 ^ k) (a / 2) b refl (omega arith),
    )

-- `a | (b << k)` where `a` has no bit from `k` on.
pub bit_or_high : (k a b : ℕ) → a < 2 ^ k → bit_or a (b * 2 ^ k) ≡ a + b * 2 ^ k
bit_or_high k a b = bit_or_below k (2 ^ k) a b refl

bit_or_comm_below : (n a b : ℕ) → a ≤ n → b ≤ n → bit_or a b ≡ bit_or b a
bit_or_comm_below zero a b ha hb =
    let a0 : a ≡ 0 = omega arith in let b0 : b ≡ 0 = omega arith in cc (a0, b0)
bit_or_comm_below (suc n) a b ha hb = omega (
  arith,
  bit_or_step a b,
  bit_or_step b a,
  bit_or_comm_below n (a / 2) (b / 2) (omega arith) (omega arith),
)

pub bit_or_comm : (a b : ℕ) → bit_or a b ≡ bit_or b a
bit_or_comm a b = bit_or_comm_below (a + b) a b (omega arith) (omega arith)

abbrev masked : ℕ → ℕ → ℕ → ℕ
masked rounds x y = digits (λ rest. 0) min rounds x y

masked_enough : (x y j k : ℕ) → x ≤ j → x ≤ k → masked j x y ≡ masked k x y
masked_enough zero y zero zero hj hk = refl
masked_enough zero y zero (suc k) hj hk = refl
masked_enough zero y (suc j) zero hj hk = refl
masked_enough zero y (suc j) (suc k) hj hk = refl
masked_enough (suc x) y zero k hj hk = absurd (omega arith)
masked_enough (suc x) y (suc j) zero hj hk = absurd (omega arith)
masked_enough (suc x) y (suc j) (suc k) hj hk =
    omega (arith, masked_enough (suc x / 2) (y / 2) j k (omega arith) (omega arith))

pub zero-bit_and : (y : ℕ) → bit_and 0 y ≡ 0
zero-bit_and y = bit_and-bitwise 0 y

-- The lowest bit of `x & y` is the smaller of the two lowest bits.
pub bit_and_step : (x y : ℕ) → bit_and x y ≡ bit_and (x / 2) (y / 2) * 2 + min (x % 2) (y % 2)
bit_and_step (suc x) y =
    let half = suc x / 2 in
    let fewer = masked_enough half (y / 2) x half (omega arith) (omega arith) in
    omega (arith, fewer, bit_and-bitwise half (y / 2), bit_and-bitwise (suc x) y)
bit_and_step zero y = omega (arith, zero-bit_and (y / 2), zero-bit_and y)

bit_and-none : (x : ℕ) → bit_and x 0 ≡ 0
bit_and-none x = below x x (omega arith)
  where
    below : (n a : ℕ) → a ≤ n → bit_and a 0 ≡ 0
    below zero a h = ap (λ b. bit_and b 0) {x = a} {y = 0} (omega arith) ∙ zero-bit_and 0
    below (suc n) zero h = zero-bit_and 0
    below (suc n) (suc a) h =
        omega (arith, bit_and_step (suc a) 0, below n (suc a / 2) (omega arith))

bit_and_double : (i x : ℕ) → bit_and x (2 ^ suc i) ≡ bit_and (x / 2) (2 ^ i) * 2
bit_and_double i x =
    let halved : 2 ^ suc i / 2 ≡ 2 ^ i = omega (arith, pow-suc 2 i) in
    let even : 2 ^ suc i % 2 ≡ 0 = omega (arith, pow-suc 2 i) in
    omega (arith, bit_and_step x (2 ^ suc i), ap (λ p. bit_and (x / 2) p) halved)

bit_or_half : (x y : ℕ) → bit_or x y / 2 ≡ bit_or (x / 2) (y / 2)
bit_or_half x y = omega (arith, bit_or_step x y)

-- Whether `x & (1 << i)` is not zero, and that `|` keeps it and sets it.
pub bit_and-bit_or_set : (i x : ℕ) → 0 < bit_and (bit_or x (2 ^ i)) (2 ^ i)
bit_and-bit_or_set zero x = omega (arith, bit_and_step (bit_or x 1) 1, bit_or_step x 1)
bit_and-bit_or_set (suc i) x =
    let halved : 2 ^ suc i / 2 ≡ 2 ^ i = omega (arith, pow-suc 2 i) in
    let half : bit_or x (2 ^ suc i) / 2 ≡ bit_or (x / 2) (2 ^ i) =
      bit_or_half x (2 ^ suc i) ∙ ap (λ p. bit_or (x / 2) p) halved in
    omega (
      arith,
      bit_and_double i (bit_or x (2 ^ suc i)),
      ap (λ b. bit_and b (2 ^ i)) half,
      bit_and-bit_or_set i (x / 2),
    )

pub bit_and-bit_or_keep : (i x y : ℕ) → 0 < bit_and x (2 ^ i) → 0 < bit_and (bit_or x y) (2 ^ i)
bit_and-bit_or_keep zero x y h =
    omega
      (arith, bit_and_step (bit_or x y) 1, bit_or_step x y, bit_and_step x 1, bit_and-none (x / 2))
bit_and-bit_or_keep (suc i) x y h =
    let before : 0 < bit_and (x / 2) (2 ^ i) = omega (arith, bit_and_double i x) in
    omega (
      arith,
      bit_and_double i (bit_or x y),
      ap (λ b. bit_and b (2 ^ i)) (bit_or_half x y),
      bit_and-bit_or_keep i (x / 2) (y / 2) before,
    )
