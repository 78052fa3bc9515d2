-- ===== src/MergingIterator/Order.antt =====
-- The children of a merging iterator that deliver entries, and the order of `Greater` on them.
use mizu.Base.{
  ℕ, zero, suc, ◌≡◌, ◌≢◌, refl, ap, ◌∙◌, Bool, true, false, none, List, [], ◌∷◌, ltb, if◌then◌else◌,
  All, arith, set, get_or,
}
use mizu.Base.Order.{slice_compare-eq, slice_compare_swap, slice_compare_trans, slice_compare_refl}
use mizu.Status.{success}
use mizu.InternalKey.{ValueType, user_then_tag_less, internal_key_less}
use mizu.InternalKey.Order.{internal_key_less-encode}
use mizu.Entries.{Entry, entry_less, entry_key, IsStored}
use mizu.DbIterator.{advance}
use mizu.DbIterator.Collect.{input_of}
use mizu.MergingIterator.{
  all_to_first, Child, child_at, advance_at, greater, check_children, input_key,
}
use mizu.MergingIterator.Merge.{comes_first}

-- Each child delivers the entries of a list from its position on.
abbrev pub Delivers : List Child → List (List Entry) → Type 0
Delivers [] [] = Unit {0}
Delivers [] (es ∷ ess) = true ≡ false
Delivers (child ∷ children) [] = true ≡ false
Delivers (child ∷ children) (es ∷ ess) = (child.position ≡ input_of es) × Delivers children ess

-- What the children deliver behind their own `seekToFirst`.
abbrev pub DeliversFirst : List Child → List (List Entry) → Type 0
DeliversFirst [] [] = Unit {0}
DeliversFirst [] (es ∷ ess) = true ≡ false
DeliversFirst (child ∷ children) [] = true ≡ false
DeliversFirst (child ∷ children) (es ∷ ess) =
    (child.from_first ≡ input_of es) × DeliversFirst children ess

pub all_to_first-Delivers :
    (children : List Child) (ess : List (List Entry))
    → DeliversFirst children ess
    → Delivers (all_to_first children) ess
all_to_first-Delivers [] [] h = tt
all_to_first-Delivers [] (es ∷ ess) h = h
all_to_first-Delivers (child ∷ children) [] h = h
all_to_first-Delivers (child ∷ children) (es ∷ ess) h =
    (h.0, all_to_first-Delivers children ess h.1)

pub child_at-Delivers :
    (children : List Child) (ess : List (List Entry)) (i : ℕ)
    → Delivers children ess
    → child_at children i ≡ input_of (get_or ess i [])
child_at-Delivers [] [] i h = refl
child_at-Delivers [] (es ∷ ess) i h = cc
child_at-Delivers (c ∷ cs) [] i h = cc
child_at-Delivers (c ∷ cs) (es ∷ ess) zero h = h.0
child_at-Delivers (c ∷ cs) (es ∷ ess) (suc i) h = child_at-Delivers cs ess i h.1

pub advance_at-Delivers :
    (t : ℕ) (children : List Child) (ess : List (List Entry)) (e : Entry) (es : List Entry)
    → get_or ess t [] ≡ e ∷ es
    → Delivers children ess
    → Delivers (advance_at t children) (set ess t es)
advance_at-Delivers t [] [] e es at h = tt
advance_at-Delivers t [] (xs ∷ ess) e es at h = cc
advance_at-Delivers t (c ∷ cs) [] e es at h = cc
advance_at-Delivers zero (c ∷ cs) (xs ∷ ess) e es at h = (ap advance (h.0 ∙ ap input_of at), h.1)
advance_at-Delivers (suc t) (c ∷ cs) (xs ∷ ess) e es at h =
    (h.0, advance_at-Delivers t cs ess e es at h.1)

pub check_children-Delivers :
    (children : List Child) (ess : List (List Entry))
    → Delivers children ess
    → check_children children ≡ none
unfolding check_children success
check_children-Delivers [] ess h = refl
check_children-Delivers (c ∷ cs) [] h = cc
check_children-Delivers (c ∷ cs) ([] ∷ ess) h = rw h.0 (check_children-Delivers cs ess h.1)
check_children-Delivers (c ∷ cs) ((e ∷ es) ∷ ess) h = rw h.0 (check_children-Delivers cs ess h.1)

-- The list at an index behind a change at an index.
pub get_or-set_same :
    (t : ℕ) (ess : List (List Entry)) (e : Entry) (es v : List Entry)
    → get_or ess t [] ≡ e ∷ es
    → get_or (set ess t v) t [] ≡ v
get_or-set_same t [] e es v h = cc
get_or-set_same zero (xs ∷ ess) e es v h = refl
get_or-set_same (suc t) (xs ∷ ess) e es v h = get_or-set_same t ess e es v h

pub get_or-set_other :
    (t j : ℕ) (ess : List (List Entry)) (v : List Entry)
    → j ≢ t
    → get_or (set ess t v) j [] ≡ get_or ess j []
get_or-set_other t j [] v h = refl
get_or-set_other zero zero (xs ∷ ess) v h = absurd (h refl)
get_or-set_other zero (suc j) (xs ∷ ess) v h = refl
get_or-set_other (suc t) zero (xs ∷ ess) v h = refl
get_or-set_other (suc t) (suc j) (xs ∷ ess) v h = get_or-set_other t j ess v (λ e. h (ap suc e))

abbrev pub AllStored : List (List Entry) → Type 0
AllStored ess = All (All IsStored) ess

pub get_or-IsStored :
    (t : ℕ) (ess : List (List Entry)) → AllStored ess → All IsStored (get_or ess t [])
get_or-IsStored t [] h = tt
get_or-IsStored zero (es ∷ ess) h = h.0
get_or-IsStored (suc t) (es ∷ ess) h = get_or-IsStored t ess h.1

pub set-IsStored :
    (t : ℕ) (ess : List (List Entry)) (es : List Entry)
    → All IsStored es
    → AllStored ess
    → AllStored (set ess t es)
set-IsStored t [] es k h = tt
set-IsStored zero (xs ∷ ess) es k h = (k, h.1)
set-IsStored (suc t) (xs ∷ ess) es k h = (h.0, set-IsStored t ess es k h.1)

-- The first entry of a list, and one at no position for an empty list.
abbrev no_entry : Entry
no_entry = record { user_key = []; sequence = 0; type = ValueType.deletion; stored = [] }

abbrev pub head_of : List Entry → Entry
head_of [] = no_entry
head_of (e ∷ es) = e

abbrev pub filled : List Entry → Bool
filled [] = false
filled (e ∷ es) = true

-- `Greater` on two indices and the first entries there.
abbrev pub is_later : ℕ → Entry → ℕ → Entry → Bool
is_later l a r b = if entry_less b a then true else if entry_less a b then false else ltb r l

pub is_later_refl : (l : ℕ) (a : Entry) → is_later l a l a ≡ false
unfolding user_then_tag_less
is_later_refl l a = ground (arith, slice_compare_refl a.user_key)

pub is_later_asym : (l r : ℕ) (a b : Entry) → is_later l a r b ≡ true → is_later r b l a ≡ false
unfolding user_then_tag_less
is_later_asym l r a b h = ground (arith, slice_compare_swap a.user_key b.user_key)

-- What is not behind an entry that is not behind a third one is not behind that either.
not_less_trans :
    (a b c : Entry) → entry_less b a ≡ false → entry_less c b ≡ false → entry_less c a ≡ false
unfolding user_then_tag_less
not_less_trans a b c h k = ground (
  arith,
  slice_compare_swap a.user_key b.user_key,
  slice_compare_swap b.user_key c.user_key,
  slice_compare_swap a.user_key c.user_key,
  slice_compare_trans a.user_key b.user_key c.user_key,
  slice_compare-eq a.user_key b.user_key,
  slice_compare-eq b.user_key c.user_key,
)

pub is_later_trans :
    (l m r : ℕ) (a b c : Entry)
    → is_later l a m b ≡ false
    → is_later m b r c ≡ false
    → is_later l a r c ≡ false
is_later_trans l m r a b c h k =
    ground (arith, not_less_trans a b c, not_less_trans b c a, not_less_trans c a b)

pub comes_first_later :
    (t j : ℕ) (e : Entry) (es : List Entry)
    → (filled es ≡ true → is_later t e j (head_of es) ≡ false)
    → comes_first t e j es ≡ true
comes_first_later t j e [] h = ground arith
comes_first_later t j e (x ∷ es) h = ground (arith, h refl)

entry_key-less :
    (a b : Entry)
    → IsStored a
    → IsStored b
    → internal_key_less (entry_key a) (entry_key b) ≡ entry_less a b
unfolding user_then_tag_less
entry_key-less a b h k =
    internal_key_less-encode a.user_key b.user_key a.sequence b.sequence a.type b.type h k
    ∙ ground arith

input_key-filled :
    (es : List Entry) → filled es ≡ true → input_key (input_of es) ≡ entry_key (head_of es)
input_key-filled [] h = cc
input_key-filled (e ∷ es) h = refl

head-IsStored : (es : List Entry) → All IsStored es → filled es ≡ true → IsStored (head_of es)
head-IsStored [] all h = cc
head-IsStored (e ∷ es) all h = all.0

pub greater-is_later :
    (children : List Child) (ess : List (List Entry)) (l r : ℕ)
    → Delivers children ess
    → AllStored ess
    → filled (get_or ess l []) ≡ true
    → filled (get_or ess r []) ≡ true
    → greater children l r ≡ is_later l (head_of (get_or ess l [])) r (head_of (get_or ess r []))
unfolding greater
greater-is_later children ess l r h stored left right =
    let xs = get_or ess l [] in
    let ys = get_or ess r [] in
    let a = head-IsStored xs (get_or-IsStored l ess stored) left in
    let b = head-IsStored ys (get_or-IsStored r ess stored) right in
    rw
      (
        child_at-Delivers children ess l h,
        child_at-Delivers children ess r h,
        input_key-filled xs left,
        input_key-filled ys right,
        entry_key-less (head_of xs) (head_of ys) a b,
        entry_key-less (head_of ys) (head_of xs) b a,
      )
      refl
