-- ===== src/Version/Apart.antt =====
-- A compaction keeps the tables of its output level apart.
use mizu.Base.{◌≡◌, true, false, List, [], ◌∷◌, ◌++◌, take, drop, All, arith, Bool-cases, inl, inr}
use mizu.Base.Order.{Bytes, slice_lt, slice_compare_swap, slice_compare_trans, slice_compare-eq}
use mizu.Compaction.{TableMeta}
use mizu.Compaction.Covers.{IsOrdered, holds, level_covers}
use mizu.Compaction.Pick.{lower_bound, find_behind}
use mizu.Manifest.Checked.{first_key, last_key, IsApart}

-- The first tables end before the second ones begin.
abbrev pub Ends : List TableMeta → List TableMeta → Type 0
Ends xs ys = All (λ x. All (λ y. slice_lt (last_key x) (first_key y) ≡ true) ys) xs

pub All-append {ℓ κ} :
    {A : Type ℓ} (P : A → Type κ) (xs ys : List A) → All P xs → All P ys → All P (xs ++ ys)
All-append P [] ys h k = k
All-append P (x ∷ xs) ys h k = (h.0, All-append P xs ys h.1 k)

pub All-split {ℓ κ} :
    {A : Type ℓ} (P : A → Type κ) (xs ys : List A) → All P (xs ++ ys) → All P xs × All P ys
All-split P [] ys h = (tt, h)
All-split P (x ∷ xs) ys h = let rest = All-split P xs ys h.1 in ((h.0, rest.0), rest.1)

pub IsApart-append :
    (xs ys : List TableMeta) → IsApart xs → IsApart ys → Ends xs ys → IsApart (xs ++ ys)
IsApart-append [] ys a b ends = b
IsApart-append (x ∷ xs) ys a b ends = (
  All-append (λ y. slice_lt (last_key x) (first_key y) ≡ true) xs ys a.0 ends.0,
  IsApart-append xs ys a.1 b ends.1,
)

pub IsApart-split :
    (xs ys : List TableMeta) → IsApart (xs ++ ys) → IsApart xs × IsApart ys × Ends xs ys
IsApart-split [] ys h = (tt, h, tt)
IsApart-split (x ∷ xs) ys h =
    let (a, b, ends) = IsApart-split xs ys h.1 in
    let (here, there) = All-split (λ y. slice_lt (last_key x) (first_key y) ≡ true) xs ys h.0 in
    ((here, a), b, (there, ends))

pub Ends-split_right : (xs ys zs : List TableMeta) → Ends xs (ys ++ zs) → Ends xs ys × Ends xs zs
Ends-split_right [] ys zs h = (tt, tt)
Ends-split_right (x ∷ xs) ys zs h =
    let (here, there) = All-split (λ y. slice_lt (last_key x) (first_key y) ≡ true) ys zs h.0 in
    let (a, b) = Ends-split_right xs ys zs h.1 in ((here, a), (there, b))

pub Ends-append_right : (xs ys zs : List TableMeta) → Ends xs ys → Ends xs zs → Ends xs (ys ++ zs)
Ends-append_right [] ys zs a b = tt
Ends-append_right (x ∷ xs) ys zs a b = (
  All-append (λ y. slice_lt (last_key x) (first_key y) ≡ true) ys zs a.0 b.0,
  Ends-append_right xs ys zs a.1 b.1,
)

-- Tables that end before a key, and tables that begin behind one.
abbrev pub EndBefore : List TableMeta → Bytes → Type 0
EndBefore xs k = All (λ x. slice_lt (last_key x) k ≡ true) xs

abbrev pub BeginBehind : List TableMeta → Bytes → Type 0
BeginBehind ys k = All (λ y. slice_lt k (first_key y) ≡ true) ys

-- A key that one of the second tables can hold is behind the first ones, and the other way round.
pub EndBefore-covered :
    (xs ys : List TableMeta) (k : Bytes) → Ends xs ys → level_covers k ys ≡ true → EndBefore xs k
EndBefore-covered [] ys k ends h = tt
EndBefore-covered (x ∷ xs) ys k ends h =
    (one (last_key x) ys ends.0 h, EndBefore-covered xs ys k ends.1 h)
  where
    one :
        (l : Bytes) (zs : List TableMeta)
        → All (λ y. slice_lt l (first_key y) ≡ true) zs
        → level_covers k zs ≡ true
        → slice_lt l k ≡ true
    one l [] all c = cc
    one l (z ∷ zs) all c = ground (
      arith,
      all.0,
      one l zs all.1,
      slice_compare_trans l (first_key z) k,
      slice_compare-eq (first_key z) k,
      slice_compare_swap (first_key z) k,
    )

pub BeginBehind-covered :
    (xs ys : List TableMeta) (k : Bytes) → Ends xs ys → level_covers k xs ≡ true → BeginBehind ys k
BeginBehind-covered [] ys k ends h = cc
BeginBehind-covered (x ∷ xs) ys k ends h = elim (Bool-cases (holds k x)) [
  | inl here ↦ all ys ends.0 here
  | inr elsewhere ↦ BeginBehind-covered xs ys k ends.1 (ground arith)
]
  where
    all :
        (zs : List TableMeta)
        → All (λ y. slice_lt (last_key x) (first_key y) ≡ true) zs
        → holds k x ≡ true
        → BeginBehind zs k
    all [] a c = tt
    all (z ∷ zs) a c = (
      ground (
        arith,
        a.0,
        slice_compare_trans k (last_key x) (first_key z),
        slice_compare-eq k (last_key x),
        slice_compare_swap k (last_key x),
      ),
      all zs a.1 c,
    )

-- The two bounds of the overlapping range.
pub lower_bound-EndBefore :
    (s : Bytes) (ts : List TableMeta) → EndBefore (take (lower_bound s ts) ts) s
unfolding lower_bound
lower_bound-EndBefore s [] = tt
lower_bound-EndBefore s (t ∷ ts) = elim (Bool-cases (slice_lt (last_key t) s)) [
  | inl before ↦ rw before (before, lower_bound-EndBefore s ts)
  | inr reached ↦ rw reached tt
]

pub find_behind-BeginBehind :
    (l : Bytes) (ts : List TableMeta)
    → IsApart ts
    → All (λ t. slice_lt (last_key t) (first_key t) ≡ false) ts
    → BeginBehind (drop (find_behind l ts) ts) l
unfolding find_behind
find_behind-BeginBehind l [] apart sound = tt
find_behind-BeginBehind l (t ∷ ts) apart sound = elim (Bool-cases (slice_lt l (first_key t))) [
  | inr reached ↦ rw reached (find_behind-BeginBehind l ts apart.1 sound.1)
  | inl behind ↦ rw behind (behind, all ts apart.0 behind)
]
  where
    all :
        (zs : List TableMeta)
        → All (λ y. slice_lt (last_key t) (first_key y) ≡ true) zs
        → slice_lt l (first_key t) ≡ true
        → BeginBehind zs l
    all [] a h = tt
    all (z ∷ zs) a h = (
      ground (
        arith,
        a.0,
        sound.0,
        slice_compare_trans l (first_key t) (first_key z),
        slice_compare_trans (first_key t) (last_key t) (first_key z),
        slice_compare-eq (first_key t) (last_key t),
        slice_compare_swap (first_key t) (last_key t),
      ),
      all zs a.1 h,
    )

-- The key ranges of tables are not empty.
abbrev pub IsRanged : TableMeta → Type 0
IsRanged t = slice_lt (last_key t) (first_key t) ≡ false

-- A level whose tables are apart is in order for the compaction.
later :
    (t : TableMeta) (ts : List TableMeta)
    → IsRanged t
    → All (λ x. slice_lt (last_key t) (first_key x) ≡ true) ts
    → All (λ x. slice_lt (first_key x) (first_key t) ≡ false) ts
later t [] sound h = tt
later t (x ∷ ts) sound h = (
  ground (
    arith,
    h.0,
    sound,
    slice_compare_trans (first_key t) (last_key t) (first_key x),
    slice_compare-eq (first_key t) (last_key t),
    slice_compare_swap (first_key t) (first_key x),
    slice_compare_swap (first_key t) (last_key t),
  ),
  later t ts sound h.1,
)

pub IsApart-IsOrdered : (ts : List TableMeta) → All IsRanged ts → IsApart ts → IsOrdered ts
IsApart-IsOrdered [] sound h = tt
IsApart-IsOrdered (t ∷ ts) sound h = (later t ts sound.0 h.0, IsApart-IsOrdered ts sound.1 h.1)
