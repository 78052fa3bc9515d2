-- ===== src/MergingIterator/Top.antt =====
-- The index at the top of the heap of a merging iterator: its entry comes first.
use mizu.Base.{
  ℕ, ◌≡◌, refl, ◌∙◌, sym, subst, true, false, List, [], ◌∷◌, ◌==◌, if◌then◌else◌, All, arith,
  Bool-cases, inl, inr, get_or,
}
use mizu.Entries.{Entry}
use mizu.Manifest.{contains}
use mizu.MergingIterator.{Child, top, greater}
use mizu.MergingIterator.Merge.{comes_first}
use mizu.MergingIterator.Order.{
  Delivers, AllStored, head_of, filled, is_later, is_later_refl, is_later_asym, is_later_trans,
  comes_first_later, greater-is_later,
}
use mizu.MergingIterator.Heap.{IsHeap}

-- What holds of every index that a heap holds holds of all of it.
All-contains :
    (P : ℕ → Type 0) (heap : List ℕ) → ((j : ℕ) → contains j heap ≡ true → P j) → All P heap
unfolding contains
All-contains P [] h = tt
All-contains P (n ∷ heap) h =
    (h n (ground arith), All-contains P heap (λ j c. h j (ground (arith, c))))

contains-All : (P : ℕ → Type 0) (heap : List ℕ) (j : ℕ) → All P heap → contains j heap ≡ true → P j
unfolding contains
contains-All P [] j h c = cc
contains-All P (n ∷ heap) j h c = elim (Bool-cases (n == j)) [
  | inl same ↦ subst P (let e : n ≡ j = ground arith in e) h.0
  | inr other ↦ contains-All P heap j h.1 (ground arith)
]

-- The top of a heap is one of its indices, and none of the others is less.
abbrev AfterTop : List (List Entry) → ℕ → ℕ → Type 0
AfterTop ess t j = is_later t (head_of (get_or ess t [])) j (head_of (get_or ess j [])) ≡ false

IsTop : List (List Entry) → List ℕ → ℕ → Type 0
IsTop ess heap t = (contains t heap ≡ true) × All (AfterTop ess t) heap

AfterTop-All :
    (ess : List (List Entry)) (t i : ℕ) (heap : List ℕ)
    → AfterTop ess i t
    → All (AfterTop ess t) heap
    → All (AfterTop ess i) heap
AfterTop-All ess t i [] h all = tt
AfterTop-All ess t i (j ∷ heap) h all = (
  is_later_trans i t j (head_of (get_or ess i [])) (head_of (get_or ess t []))
      (head_of (get_or ess j [])) h all.0,
  AfterTop-All ess t i heap h all.1,
)

IsTop-kept :
    (ess : List (List Entry)) (n t : ℕ) (heap : List ℕ)
    → is_later n (head_of (get_or ess n [])) t (head_of (get_or ess t [])) ≡ true
    → IsTop ess heap t
    → IsTop ess (n ∷ heap) t
unfolding contains IsTop
IsTop-kept ess n t heap later (inside, all) = (
  ground (arith, inside),
  (is_later_asym n t (head_of (get_or ess n [])) (head_of (get_or ess t [])) later, all),
)

IsTop-new :
    (ess : List (List Entry)) (n t : ℕ) (heap : List ℕ)
    → AfterTop ess n t
    → IsTop ess heap t
    → IsTop ess (n ∷ heap) n
unfolding contains IsTop
IsTop-new ess n t heap least (inside, all) = (
  ground arith,
  (is_later_refl n (head_of (get_or ess n [])), AfterTop-All ess t n heap least all),
)

top_first :
    (children : List Child) (n m : ℕ) (heap : List ℕ)
    → let t : ℕ = top children (m ∷ heap) in
      top children (n ∷ m ∷ heap) ≡ (if greater children n t then t else n)
unfolding top
top_first children n m heap = refl

IsTop-contains :
    (ess : List (List Entry)) (heap : List ℕ) (t : ℕ) → IsTop ess heap t → contains t heap ≡ true
unfolding IsTop
IsTop-contains ess heap t h = h.0

IsTop-one : (ess : List (List Entry)) (n : ℕ) → IsTop ess (n ∷ []) n
unfolding IsTop contains
IsTop-one ess n = (ground arith, (is_later_refl n (head_of (get_or ess n [])), tt))

top_one : (children : List Child) (n : ℕ) → top children (n ∷ []) ≡ n
unfolding top
top_one children n = refl

top-IsTop :
    (children : List Child) (ess : List (List Entry)) (n : ℕ) (heap : List ℕ)
    → Delivers children ess
    → AllStored ess
    → All (λ j. filled (get_or ess j []) ≡ true) (n ∷ heap)
    → IsTop ess (n ∷ heap) (top children (n ∷ heap))
top-IsTop children ess n [] h stored full =
    subst (IsTop ess (n ∷ [])) (sym (top_one children n)) (IsTop-one ess n)
top-IsTop children ess n (m ∷ heap) h stored full =
    let rest = top-IsTop children ess m heap h stored full.1 in
    let t = top children (m ∷ heap) in
    let filled_t =
      contains-All (λ j. filled (get_or ess j []) ≡ true) (m ∷ heap) t full.1
        (IsTop-contains ess (m ∷ heap) t rest) in
    let same = greater-is_later children ess n t h stored full.0 filled_t in
    subst (IsTop ess (n ∷ m ∷ heap)) (sym (top_first children n m heap))
      (elim (Bool-cases (greater children n t)) [
        | inl later ↦ rw later (IsTop-kept ess n t (m ∷ heap) (sym same ∙ later) rest)
        | inr least ↦ rw least (IsTop-new ess n t (m ∷ heap) (sym same ∙ least) rest)
      ])

-- The entry at the top comes first of all.
pub top-comes_first :
    (children : List Child) (ess : List (List Entry)) (n : ℕ) (heap : List ℕ)
    → Delivers children ess
    → AllStored ess
    → IsHeap ess (n ∷ heap)
    → let t : ℕ = top children (n ∷ heap) in
      (filled (get_or ess t []) ≡ true)
      × ((j : ℕ) → comes_first t (head_of (get_or ess t [])) j (get_or ess j []) ≡ true)
unfolding IsTop
top-comes_first children ess n heap h stored good =
    let full =
      All-contains (λ j. filled (get_or ess j []) ≡ true) (n ∷ heap)
        (λ j c. sym (good.complete j) ∙ c) in
    let t = top children (n ∷ heap) in
    let (inside, all) = top-IsTop children ess n heap h stored full in
    (
      sym (good.complete t) ∙ inside,
      λ j.
          comes_first_later t j (head_of (get_or ess t [])) (get_or ess j [])
            (λ f. contains-All (AfterTop ess t) (n ∷ heap) j all (good.complete j ∙ f)),
    )
