-- ===== src/Base/Order.antt =====
-- `std::string_view::compare` on byte strings: the lexicographic order of the unsigned bytes.
use Prim.Native.Nat.{ℕ, compare, Ordering}
use mathlib.Core.Path.{◌≡◌, refl, ap}
use mathlib.Core.Logic.{◌≢◌}
use mathlib.Core.List.{List, [], ◌∷◌}
use mathlib.Core.Bool.{Bool, true, false}
use native.Mathlib.Omega.{arith}

abbrev pub Bytes : Type 0
Bytes = List ℕ

unfoldable pub slice_compare : Bytes → Bytes → Ordering
slice_compare [] [] = Ordering.eq
slice_compare [] (y ∷ ys) = Ordering.lt
slice_compare (x ∷ xs) [] = Ordering.gt
slice_compare (x ∷ xs) (y ∷ ys) = elim (compare x y) [
  | Ordering.lt ↦ Ordering.lt
  | Ordering.eq ↦ slice_compare xs ys
  | Ordering.gt ↦ Ordering.gt
]

abbrev pub is_lt : Ordering → Bool
is_lt o = elim o [ Ordering.lt ↦ true | _ ↦ false ]

abbrev pub is_eq : Ordering → Bool
is_eq o = elim o [ Ordering.eq ↦ true | _ ↦ false ]

abbrev pub opposite : Ordering → Ordering
opposite o = elim o [
  | Ordering.lt ↦ Ordering.gt
  | Ordering.eq ↦ Ordering.eq
  | Ordering.gt ↦ Ordering.lt
]

-- `lhs < rhs` and `lhs == rhs` on slices.
abbrev pub slice_lt : Bytes → Bytes → Bool
slice_lt xs ys = is_lt (slice_compare xs ys)

abbrev pub slice_eq : Bytes → Bytes → Bool
slice_eq xs ys = is_eq (slice_compare xs ys)

pub slice_compare_refl : (xs : Bytes) → slice_compare xs xs ≡ Ordering.eq
unfolding slice_compare
slice_compare_refl [] = refl
slice_compare_refl (x ∷ xs) = ground (arith, slice_compare_refl xs)

pub slice_compare-eq : (xs ys : Bytes) → slice_compare xs ys ≡ Ordering.eq → xs ≡ ys
unfolding slice_compare
slice_compare-eq [] [] h = refl
slice_compare-eq [] (y ∷ ys) h = cc
slice_compare-eq (x ∷ xs) [] h = cc
slice_compare-eq (x ∷ xs) (y ∷ ys) h = ground (arith, slice_compare-eq xs ys)

pub slice_compare_swap : (xs ys : Bytes) → slice_compare ys xs ≡ opposite (slice_compare xs ys)
unfolding slice_compare
slice_compare_swap [] [] = refl
slice_compare_swap [] (y ∷ ys) = refl
slice_compare_swap (x ∷ xs) [] = refl
slice_compare_swap (x ∷ xs) (y ∷ ys) = ground (arith, slice_compare_swap xs ys)

pub slice_compare_trans :
    (xs ys zs : Bytes)
    → slice_compare xs ys ≡ Ordering.lt
    → slice_compare ys zs ≡ Ordering.lt
    → slice_compare xs zs ≡ Ordering.lt
unfolding slice_compare
slice_compare_trans [] [] zs h k = cc
slice_compare_trans [] (y ∷ ys) [] h k = cc
slice_compare_trans [] (y ∷ ys) (z ∷ zs) h k = refl
slice_compare_trans (x ∷ xs) [] zs h k = cc
slice_compare_trans (x ∷ xs) (y ∷ ys) [] h k = cc
slice_compare_trans (x ∷ xs) (y ∷ ys) (z ∷ zs) h k = ground (arith, slice_compare_trans xs ys zs)

pub slice_eq-eq : (xs ys : Bytes) → slice_eq xs ys ≡ true → xs ≡ ys
slice_eq-eq xs ys h = slice_compare-eq xs ys (ground arith)

pub slice_eq_refl : (xs : Bytes) → slice_eq xs xs ≡ true
slice_eq_refl xs = ap is_eq (slice_compare_refl xs)

pub slice_eq-ne : (xs ys : Bytes) → xs ≢ ys → slice_eq xs ys ≡ false
slice_eq-ne xs ys h = ground (arith, slice_compare-eq xs ys)
