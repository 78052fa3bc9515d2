-- ===== src/MergingIterator/Sorted.antt =====
-- The merge of sorted lists is sorted, and a lookup in it finds what it finds in the lists one behind
-- the other, if the versions of each key are newer in the lists before.
use mizu.Base.{
  ℕ, ◌≡◌, refl, ap, ◌∙◌, sym, Bool, true, false, not, ◌&&◌, ◌||◌, List, [], ◌∷◌, ◌++◌, ltb, leb,
  All, arith, Bool-cases, inl, inr,
}
use mizu.Base.Order.{Bytes, slice_eq, slice_compare-eq, slice_compare_swap, slice_compare_trans}
use mizu.InternalKey.{user_then_tag_less}
use mizu.Entries.{Entry, LookupResult, lookup, entry_less, IsSorted}
use mizu.Version.Lookup.{first_answer, lookup-append}
use mizu.MergingIterator.Merge.{merge_into, merge, merge_all}

-- If two entries are of one key, the first is newer.
abbrev pub newer : Entry → Entry → Bool
newer x y = not (slice_eq x.user_key y.user_key) || ltb y.sequence x.sequence

abbrev pub Newer : List Entry → List Entry → Type 0
Newer xs ys = All (λ x. All (λ y. newer x y ≡ true) ys) xs

-- Each list is newer than those behind it.
abbrev pub AllNewer : List (List Entry) → Type 0
AllNewer [] = Unit {0}
AllNewer (es ∷ ess) = All (Newer es) ess × AllNewer ess

entry_less_trans :
    (a b c : Entry) → entry_less a b ≡ true → entry_less b c ≡ true → entry_less a c ≡ true
unfolding user_then_tag_less
entry_less_trans a b c h k = ground (
  arith,
  slice_compare_trans a.user_key b.user_key c.user_key,
  slice_compare-eq a.user_key b.user_key,
  slice_compare-eq b.user_key c.user_key,
)

less_all :
    (a b : Entry) (es : List Entry)
    → entry_less a b ≡ true
    → All (λ x. entry_less b x ≡ true) es
    → All (λ x. entry_less a x ≡ true) es
less_all a b [] h all = tt
less_all a b (e ∷ es) h all = (entry_less_trans a b e h all.0, less_all a b es h all.1)

newer-less : (x y : Entry) → newer x y ≡ true → entry_less y x ≡ false → entry_less x y ≡ true
unfolding user_then_tag_less
newer-less x y h k = ground (arith, slice_compare_swap x.user_key y.user_key)

merge_into-All :
    (P : Entry → Type 0) (x : Entry) (rest : List Entry → List Entry) (ys : List Entry)
    → ((zs : List Entry) → All P zs → All P (rest zs))
    → P x
    → All P ys
    → All P (merge_into x rest ys)
unfolding merge_into
merge_into-All P x rest [] h p all = (p, h [] tt)
merge_into-All P x rest (y ∷ ys) h p all = elim (Bool-cases (entry_less y x)) [
  | inl less ↦ rw less (all.0, merge_into-All P x rest ys h p all.1)
  | inr first ↦ rw first (p, h (y ∷ ys) all)
]

merge-All : (P : Entry → Type 0) (xs ys : List Entry) → All P xs → All P ys → All P (merge xs ys)
unfolding merge
merge-All P [] ys h k = k
merge-All P (x ∷ xs) ys h k = merge_into-All P x (merge xs) ys (λ zs. merge-All P xs zs h.1) h.0 k

All-tail :
    (x : Entry) (xs : List Entry) (y : Entry) (ys : List Entry)
    → Newer (x ∷ xs) (y ∷ ys)
    → Newer (x ∷ xs) ys
All-tail x [] y ys h = (h.0.1, tt)
All-tail x (z ∷ xs) y ys h = (h.0.1, All-tail z xs y ys h.1)

merge_into-IsSorted :
    (x : Entry) (xs ys : List Entry)
    → ((zs : List Entry) → IsSorted zs → Newer xs zs → IsSorted (merge xs zs))
    → IsSorted (x ∷ xs)
    → IsSorted ys
    → Newer (x ∷ xs) ys
    → IsSorted (merge_into x (merge xs) ys)
unfolding merge_into
merge_into-IsSorted x xs [] ih first second new =
    (merge-All (λ z. entry_less x z ≡ true) xs [] first.0 tt, ih [] tt new.1)
merge_into-IsSorted x xs (y ∷ ys) ih first second new = elim (Bool-cases (entry_less y x)) [
  | inl less ↦ rw less (
    merge_into-All (λ z. entry_less y z ≡ true) x (merge xs) ys
        (λ zs all. merge-All (λ z. entry_less y z ≡ true) xs zs (less_all y x xs less first.0) all)
        less second.0,
    merge_into-IsSorted x xs ys ih first second.1 (All-tail x xs y ys new),
  )
  | inr reached ↦
      let front = newer-less x y new.0.0 reached in
      rw reached (
        merge-All (λ z. entry_less x z ≡ true) xs (y ∷ ys) first.0
            (front, less_all x y ys front second.0),
        ih (y ∷ ys) second new.1,
      )
]

pub merge-IsSorted :
    (xs ys : List Entry) → IsSorted xs → IsSorted ys → Newer xs ys → IsSorted (merge xs ys)
unfolding merge
merge-IsSorted [] ys first second new = second
merge-IsSorted (x ∷ xs) ys first second new =
    merge_into-IsSorted x xs ys (λ zs. merge-IsSorted xs zs first.1) first second new

-- Behind a version of a key there is none of entries that are newer.
lookup-behind :
    (s : ℕ) (k : Bytes) (y : Entry) (zs : List Entry)
    → slice_eq y.user_key k ≡ true
    → All (λ z. entry_less y z ≡ true) zs
    → All (λ z. newer z y ≡ true) zs
    → lookup s k zs ≡ LookupResult.absent
unfolding lookup user_then_tag_less
lookup-behind s k y [] at less new = refl
lookup-behind s k y (z ∷ zs) at less new = ground (
  arith,
  lookup-behind s k y zs at less.1 new.1,
  less.0,
  new.0,
  slice_compare-eq y.user_key k,
  slice_compare_swap z.user_key y.user_key,
)

newer_than :
    (xs : List Entry) (y : Entry) (ys : List Entry)
    → Newer xs (y ∷ ys)
    → All (λ z. newer z y ≡ true) xs
newer_than [] y ys h = tt
newer_than (x ∷ xs) y ys h = (h.0.0, newer_than xs y ys h.1)

merge_into-lookup :
    (s : ℕ) (k : Bytes) (x : Entry) (xs ys : List Entry)
    → ((zs : List Entry)
        → IsSorted zs
        → Newer xs zs
        → lookup s k (merge xs zs) ≡ first_answer (lookup s k xs) (lookup s k zs))
    → IsSorted (x ∷ xs)
    → Newer (x ∷ xs) ys
    → IsSorted ys
    → lookup s k (merge_into x (merge xs) ys) ≡ first_answer (lookup s k (x ∷ xs)) (lookup s k ys)
unfolding merge_into lookup
merge_into-lookup s k x xs [] ih first new second = ground (arith, ih [] tt new.1)
merge_into-lookup s k x xs (y ∷ ys) ih first new second = elim (Bool-cases (entry_less y x)) [
  | inl less ↦
      let rest = merge_into-lookup s k x xs ys ih first (All-tail x xs y ys new) second.1 in
      elim (Bool-cases (slice_eq y.user_key k && leb y.sequence s)) [
        | inr other ↦ rw (less, other) rest
        | inl here ↦
            let none =
              lookup-behind s k y (x ∷ xs) (ground (arith, here))
                (less, less_all y x xs less first.0) (newer_than (x ∷ xs) y ys new) in
            rw (less, here, none) refl
      ]
  | inr reached ↦ rw reached (ground (arith, ih (y ∷ ys) second new.1))
]

pub lookup-merge :
    (s : ℕ) (k : Bytes) (xs ys : List Entry)
    → IsSorted xs
    → IsSorted ys
    → Newer xs ys
    → lookup s k (merge xs ys) ≡ first_answer (lookup s k xs) (lookup s k ys)
unfolding merge lookup
lookup-merge s k [] ys first second new = refl
lookup-merge s k (x ∷ xs) ys first second new =
    merge_into-lookup s k x xs ys (λ zs sorted fits. lookup-merge s k xs zs first.1 sorted fits)
      first new second

Newer-merge : (es xs ys : List Entry) → Newer es xs → Newer es ys → Newer es (merge xs ys)
Newer-merge [] xs ys h k = tt
Newer-merge (e ∷ es) xs ys h k =
    (merge-All (λ y. newer e y ≡ true) xs ys h.0 k.0, Newer-merge es xs ys h.1 k.1)

Newer-empty : (es : List Entry) → Newer es []
Newer-empty [] = tt
Newer-empty (e ∷ es) = (tt, Newer-empty es)

Newer-merge_all :
    (es : List Entry) (ess : List (List Entry)) → All (Newer es) ess → Newer es (merge_all ess)
unfolding merge_all
Newer-merge_all es [] h = Newer-empty es
Newer-merge_all es (xs ∷ ess) h = Newer-merge es xs (merge_all ess) h.0 (Newer-merge_all es ess h.1)

-- The merge of lists that are sorted, each newer than those behind it, is sorted.
pub merge_all-IsSorted :
    (ess : List (List Entry)) → All IsSorted ess → AllNewer ess → IsSorted (merge_all ess)
unfolding merge_all
merge_all-IsSorted [] sorted new = tt
merge_all-IsSorted (es ∷ ess) sorted new =
    merge-IsSorted es (merge_all ess) sorted.0 (merge_all-IsSorted ess sorted.1 new.1)
      (Newer-merge_all es ess new.0)

pub merge_all-All :
    (P : Entry → Type 0) (ess : List (List Entry)) → All (All P) ess → All P (merge_all ess)
unfolding merge_all
merge_all-All P [] h = tt
merge_all-All P (es ∷ ess) h = merge-All P es (merge_all ess) h.0 (merge_all-All P ess h.1)

abbrev pub joined : List (List Entry) → List Entry
joined [] = []
joined (es ∷ ess) = es ++ joined ess

-- A lookup in the merge of lists that are sorted, each newer than those behind it, finds what it finds
-- in the lists one behind the other.
pub lookup-merge_all :
    (s : ℕ) (k : Bytes) (ess : List (List Entry))
    → All IsSorted ess
    → AllNewer ess
    → lookup s k (merge_all ess) ≡ lookup s k (joined ess)
unfolding merge_all
lookup-merge_all s k [] sorted new = refl
lookup-merge_all s k (es ∷ ess) sorted new =
    lookup-merge s k es (merge_all ess) sorted.0 (merge_all-IsSorted ess sorted.1 new.1)
      (Newer-merge_all es ess new.0)
    ∙ ap (first_answer (lookup s k es)) (lookup-merge_all s k ess sorted.1 new.1)
    ∙ sym (lookup-append s k es (joined ess))
