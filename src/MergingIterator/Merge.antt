-- ===== src/MergingIterator/Merge.antt =====
-- The merge of sorted entries that the iterator is held to, and its first entry.
use mizu.Base.{
  ℕ, zero, suc, ◌≡◌, refl, ap, ◌∙◌, sym, Bool, true, false, not, List, [], ◌∷◌, ltb, if◌then◌else◌,
  arith, Bool-cases, inl, inr, le→ltb, lt→ltb, set, get_or,
}
use mizu.Entries.{Entry, entry_less}

-- The second list's entries that are less than the first entry of the first list, that entry, and the
-- rest of both.
unfoldable pub merge_into : Entry → (List Entry → List Entry) → List Entry → List Entry
merge_into x rest [] = x ∷ rest []
merge_into x rest (y ∷ ys) =
    let more = merge_into x rest ys in if entry_less y x then y ∷ more else x ∷ rest (y ∷ ys)

-- Two lists in one; of equal entries the first list's comes first.
unfoldable pub merge : List Entry → List Entry → List Entry
merge [] ys = ys
merge (x ∷ xs) ys = merge_into x (merge xs) ys

unfoldable pub merge_all : List (List Entry) → List Entry
merge_all [] = []
merge_all (es ∷ ess) = merge es (merge_all ess)

-- The first entry of a list, if there is one, is not less than an entry, or is behind it.
abbrev pub not_before : Entry → List Entry → Bool
not_before e [] = true
not_before e (x ∷ xs) = not (entry_less x e)

abbrev pub begins_behind : Entry → List Entry → Bool
begins_behind e [] = true
begins_behind e (x ∷ xs) = entry_less e x

merge_into-not_before :
    (e x : Entry) (rest : List Entry → List Entry) (ys : List Entry)
    → not_before e (x ∷ []) ≡ true
    → not_before e ys ≡ true
    → not_before e (merge_into x rest ys) ≡ true
unfolding merge_into
merge_into-not_before e x rest [] h k = h
merge_into-not_before e x rest (y ∷ ys) h k = elim (Bool-cases (entry_less y x)) [
  | inl less ↦ rw less k
  | inr first ↦ rw first h
]

merge-not_before :
    (e : Entry) (xs ys : List Entry)
    → not_before e xs ≡ true
    → not_before e ys ≡ true
    → not_before e (merge xs ys) ≡ true
unfolding merge
merge-not_before e [] ys h k = k
merge-not_before e (x ∷ xs) ys h k = merge_into-not_before e x (merge xs) ys h k

merge_all-not_before :
    (e : Entry) (ess : List (List Entry))
    → ((j : ℕ) → not_before e (get_or ess j []) ≡ true)
    → not_before e (merge_all ess) ≡ true
unfolding merge_all
merge_all-not_before e [] h = refl
merge_all-not_before e (es ∷ ess) h =
    merge-not_before e es (merge_all ess) (h 0) (merge_all-not_before e ess (λ j. h (suc j)))

merge-first :
    (e : Entry) (xs ys : List Entry) → not_before e ys ≡ true → merge (e ∷ xs) ys ≡ e ∷ merge xs ys
unfolding merge merge_into
merge-first e xs [] h = refl
merge-first e xs (y ∷ ys) h = elim (Bool-cases (entry_less y e)) [
  | inl less ↦ absurd (ground arith)
  | inr first ↦ rw first refl
]

merge-second :
    (e : Entry) (xs ys : List Entry)
    → begins_behind e xs ≡ true
    → merge xs (e ∷ ys) ≡ e ∷ merge xs ys
unfolding merge merge_into
merge-second e [] ys h = refl
merge-second e (x ∷ xs) ys h = rw h refl

-- An entry at an index comes before what the list at another index begins with.
abbrev pub comes_first : ℕ → Entry → ℕ → List Entry → Bool
comes_first t e j es = if ltb j t then begins_behind e es else not_before e es

ltb_zero : (j : ℕ) → ltb j 0 ≡ false
ltb_zero j = le→ltb j 0 (omega arith)

ltb_successors : (j t : ℕ) → ltb (suc j) (suc t) ≡ ltb j t
ltb_successors j t = ground arith

-- The entry that comes first is the first of the merge; what is left is merged.
pub merge_all-set :
    (t : ℕ) (ess : List (List Entry)) (e : Entry) (es : List Entry)
    → get_or ess t [] ≡ e ∷ es
    → ((j : ℕ) → comes_first t e j (get_or ess j []) ≡ true)
    → merge_all ess ≡ e ∷ merge_all (set ess t es)
unfolding merge_all
merge_all-set t [] e es at h = cc
merge_all-set zero (xs ∷ ess) e es at h =
    ap (λ l. merge l (merge_all ess)) at
    ∙ merge-first e es (merge_all ess) (
        merge_all-not_before e ess (λ j.
          ap (λ b. if b then begins_behind e (get_or ess j []) else not_before e (get_or ess j []))
            (sym (ltb_zero (suc j)))
          ∙ h (suc j)))
merge_all-set (suc t) (xs ∷ ess) e es at h =
    ap (merge xs) (
      merge_all-set t ess e es at (λ j.
        ap (λ b. if b then begins_behind e (get_or ess j []) else not_before e (get_or ess j []))
          (sym (ltb_successors j t))
        ∙ h (suc j)))
    ∙ merge-second e xs (merge_all (set ess t es)) (
        ap (λ b. if b then begins_behind e xs else not_before e xs)
          (sym (lt→ltb 0 (suc t) (omega arith)))
        ∙ h 0)
