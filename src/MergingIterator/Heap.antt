-- ===== src/MergingIterator/Heap.antt =====
-- The heap of a merging iterator: the indices of the children that have an entry, and the one at the top.
use mizu.Base.{
  ℕ, zero, suc, ◌+◌, ◌≡◌, refl, ap, ◌∙◌, true, false, not, ◌&&◌, List, [], ◌∷◌, ltb, ◌==◌,
  if◌then◌else◌, arith, Bool-cases, inl, inr, set, get_or,
}
use mizu.Entries.{Entry}
use mizu.DbIterator.{input_valid}
use mizu.DbIterator.Collect.{input_of}
use mizu.Manifest.{contains}
use mizu.Manifest.Checked.{IsDistinct}
use mizu.MergingIterator.{Child, pop, rebuild_heap}
use mizu.MergingIterator.Order.{Delivers, filled, get_or-set_same, get_or-set_other}

-- The heap holds each index with an entry, once.
pub record IsHeap (ess : List (List Entry)) (heap : List ℕ) : Type 0 where
  pub complete : (j : ℕ) → contains j heap ≡ filled (get_or ess j [])
  pub distinct : IsDistinct heap

pop-contains :
    (t j : ℕ) (heap : List ℕ)
    → IsDistinct heap
    → contains j (pop t heap) ≡ contains j heap && not (j == t)
unfolding pop contains
pop-contains t j [] h = refl
pop-contains t j (n ∷ heap) h = elim (Bool-cases (n == t)) [
  | inr different ↦ rw different (ground (arith, different, pop-contains t j heap h.1))
  | inl same ↦ elim (Bool-cases (j == t)) [
    | inr other ↦ rw same (ground (arith, same, other))
    | inl here ↦
        let at_n : j ≡ n = ground arith in
        let none : contains j heap ≡ false = ap (λ i. contains i heap) at_n ∙ h.0 in
        rw (same, here) (ground (arith, none))
  ]
]

pop-IsDistinct : (t : ℕ) (heap : List ℕ) → IsDistinct heap → IsDistinct (pop t heap)
unfolding pop
pop-IsDistinct t [] h = tt
pop-IsDistinct t (n ∷ heap) h = elim (Bool-cases (n == t)) [
  | inl same ↦ rw same h.1
  | inr different ↦
      rw different (ground (arith, pop-contains t n heap h.1, h.0), pop-IsDistinct t heap h.1)
]

-- The heap behind `next`.
pub IsHeap-next :
    (ess : List (List Entry)) (heap : List ℕ) (t : ℕ) (e : Entry) (es : List Entry)
    → get_or ess t [] ≡ e ∷ es
    → IsHeap ess heap
    → IsHeap (set ess t es) (if filled es then t ∷ pop t heap else pop t heap)
unfolding contains
IsHeap-next ess heap t e es at good = record {
  complete = λ j. elim (Bool-cases (j == t)) [
    | inl here ↦
        let same : j ≡ t = ground arith in
        let new : get_or (set ess t es) j [] ≡ es =
          ap (λ i. get_or (set ess t es) i []) same ∙ get_or-set_same t ess e es es at in
        let popped = pop-contains t j heap good.distinct in
        rw new (elim (Bool-cases (filled es)) [
          | inl more ↦ rw more (ground arith)
          | inr done ↦ rw done (ground (arith, popped, here))
        ])
    | inr other ↦
        let old : get_or (set ess t es) j [] ≡ get_or ess j [] =
          get_or-set_other t j ess es (λ same. absurd (ground arith)) in
        let popped = pop-contains t j heap good.distinct in
        rw old (elim (Bool-cases (filled es)) [
          | inl more ↦ rw more (ground (arith, popped, good.complete j, other))
          | inr done ↦ rw done (ground (arith, popped, good.complete j, other))
        ])
  ];
  distinct = elim (Bool-cases (filled es)) [
    | inl more ↦
        rw more
          (ground (arith, pop-contains t t heap good.distinct), pop-IsDistinct t heap good.distinct)
    | inr done ↦ rw done (pop-IsDistinct t heap good.distinct)
  ];
}

-- The heap that `rebuildHeap` makes.
rebuild_heap-before :
    (k j : ℕ) (children : List Child)
    → ltb j k ≡ true
    → contains j (rebuild_heap k children) ≡ false
unfolding rebuild_heap contains
rebuild_heap-before k j [] h = refl
rebuild_heap-before k j (c ∷ cs) h =
    let rest = rebuild_heap-before (suc k) j cs (ground arith) in
    elim (Bool-cases (input_valid c.position)) [
      | inl here ↦ rw here (ground (arith, rest))
      | inr empty ↦ rw empty rest
    ]

pub input_valid-filled : (es : List Entry) → input_valid (input_of es) ≡ filled es
input_valid-filled [] = refl
input_valid-filled (e ∷ es) = refl

rebuild_heap-contains :
    (k j : ℕ) (children : List Child) (ess : List (List Entry))
    → Delivers children ess
    → contains (k + j) (rebuild_heap k children) ≡ filled (get_or ess j [])
unfolding rebuild_heap contains
rebuild_heap-contains k j [] [] h = refl
rebuild_heap-contains k j [] (es ∷ ess) h = cc
rebuild_heap-contains k j (c ∷ cs) [] h = cc
rebuild_heap-contains k zero (c ∷ cs) (es ∷ ess) h =
    let here : input_valid c.position ≡ filled es = ap input_valid h.0 ∙ input_valid-filled es in
    let later = rebuild_heap-before (suc k) (k + 0) cs (ground arith) in
    elim (Bool-cases (filled es)) [
      | inl more ↦ rw (here ∙ more, more) (ground arith)
      | inr done ↦ rw (here ∙ done, done) later
    ]
rebuild_heap-contains k (suc j) (c ∷ cs) (es ∷ ess) h =
    let rest =
      ap (λ i. contains i (rebuild_heap (suc k) cs)) {x = k + suc j} {y = suc k + j} (omega arith)
      ∙ rebuild_heap-contains (suc k) j cs ess h.1 in
    elim (Bool-cases (input_valid c.position)) [
      | inl here ↦ rw here (ground (arith, rest))
      | inr empty ↦ rw empty rest
    ]

rebuild_heap-IsDistinct : (k : ℕ) (children : List Child) → IsDistinct (rebuild_heap k children)
unfolding rebuild_heap
rebuild_heap-IsDistinct k [] = tt
rebuild_heap-IsDistinct k (c ∷ cs) = elim (Bool-cases (input_valid c.position)) [
  | inl here ↦
      rw here (rebuild_heap-before (suc k) k cs (ground arith), rebuild_heap-IsDistinct (suc k) cs)
  | inr empty ↦ rw empty (rebuild_heap-IsDistinct (suc k) cs)
]

pub IsHeap-rebuild_heap :
    (children : List Child) (ess : List (List Entry))
    → Delivers children ess
    → IsHeap ess (rebuild_heap 0 children)
IsHeap-rebuild_heap children ess h = record {
  complete = λ j.
      ap (λ i. contains i (rebuild_heap 0 children)) {x = j} {y = 0 + j} (omega arith)
      ∙ rebuild_heap-contains 0 j children ess h;
  distinct = rebuild_heap-IsDistinct 0 children;
}
