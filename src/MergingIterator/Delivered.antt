-- ===== src/MergingIterator/Delivered.antt =====
-- What a merging iterator delivers, record by record: the merge of what its children deliver.
use mizu.Base.{
  ℕ, zero, suc, ◌+◌, ◌<◌, ◌≡◌, refl, ap, ◌∙◌, sym, subst, true, false, some, List, [], ◌∷◌, ◌++◌,
  if◌then◌else◌, length, All, arith, set, get_or,
}
use mizu.Status.{Status, is_ok}
use mizu.Entries.{Entry, entry_key, IsStored}
use mizu.DbIterator.{Input, input_status}
use mizu.DbIterator.Collect.{input_of}
use mizu.Manifest.{contains}
use mizu.MergingIterator.{
  Child, MergingIterator, advance_at, all_to_first, top, pop, rebuild_heap, check_children,
  positioned, seek_to_first, is_empty, valid, internal_key, value, next,
}
use mizu.MergingIterator.Merge.{merge_into, merge, merge_all, merge_all-set}
use mizu.MergingIterator.Order.{
  Delivers, DeliversFirst, all_to_first-Delivers, AllStored, filled, head_of, child_at-Delivers,
  advance_at-Delivers, check_children-Delivers, get_or-set_same, get_or-IsStored, set-IsStored,
}
use mizu.MergingIterator.Top.{top-comes_first}
use mizu.MergingIterator.Heap.{IsHeap, IsHeap-next, IsHeap-rebuild_heap, input_valid-filled}

-- `for (; it.valid(); it.next())`, with fuel, and the status behind it.
unfoldable pub delivered : ℕ → MergingIterator → Input
delivered zero iterator = Input.end
delivered (suc fuel) iterator =
    let rest = delivered fuel (next iterator) in
    if valid iterator
    then Input.entry (internal_key iterator) (value iterator) rest
    else if is_ok iterator.status
    then Input.end
    else Input.failed iterator.status

abbrev pub total : List (List Entry) → ℕ
total [] = 0
total (es ∷ ess) = length es + total ess

length-merge_into :
    (x : Entry) (xs : List Entry) (rest : List Entry → List Entry) (ys : List Entry)
    → ((zs : List Entry) → length (rest zs) ≡ length xs + length zs)
    → length (merge_into x rest ys) ≡ suc (length xs + length ys)
unfolding merge_into
length-merge_into x xs rest [] h = omega (arith, h [])
length-merge_into x xs rest (y ∷ ys) h =
    ground (arith, h (y ∷ ys), length-merge_into x xs rest ys h)

length-merge : (xs ys : List Entry) → length (merge xs ys) ≡ length xs + length ys
unfolding merge
length-merge [] ys = omega arith
length-merge (x ∷ xs) ys = length-merge_into x xs (merge xs) ys (length-merge xs) ∙ omega arith

length-merge_all : (ess : List (List Entry)) → length (merge_all ess) ≡ total ess
unfolding merge_all
length-merge_all [] = refl
length-merge_all (es ∷ ess) = length-merge es (merge_all ess) ∙ omega (arith, length-merge_all ess)

-- Without an entry in any list there is none in the merge.
merge_all-empty :
    (ess : List (List Entry)) → ((j : ℕ) → filled (get_or ess j []) ≡ false) → merge_all ess ≡ []
unfolding merge_all merge
merge_all-empty [] h = refl
merge_all-empty ([] ∷ ess) h = merge_all-empty ess (λ j. h (suc j))
merge_all-empty ((e ∷ es) ∷ ess) h = absurd (let f : true ≡ false = h 0 in cc)

at_top : (es : List Entry) → filled es ≡ true → (xs : List Entry) × (es ≡ head_of es ∷ xs)
at_top [] h = cc
at_top (e ∷ es) h = (es, refl)

module _ (children : List Child) (ess : List (List Entry)) (h : Delivers children ess)
    (stored : AllStored ess) where
  next-Delivers :
      (n : ℕ) (heap : List ℕ) (status : Status) (e : Entry) (es : List Entry)
      → is_ok status ≡ true
      → get_or ess (top children (n ∷ heap)) [] ≡ e ∷ es
      → let t : ℕ = top children (n ∷ heap) in
        next (record { children = children; heap = n ∷ heap; status = status }) ≡ record {
          children = advance_at t children;
          heap = if filled es then t ∷ pop t (n ∷ heap) else pop t (n ∷ heap);
          status = status;
        }
  unfolding next
  next-Delivers n heap status e es good at =
      let t = top children (n ∷ heap) in
      let moved = advance_at-Delivers t children ess e es at h in
      rw
        (
          good,
          check_children-Delivers (advance_at t children) (set ess t es) moved,
          child_at-Delivers (advance_at t children) (set ess t es) t moved,
          get_or-set_same t ess e es es at,
          input_valid-filled es,
        )
        refl

  at_heap :
      (n : ℕ) (heap : List ℕ) (status : Status) (e : Entry) (es : List Entry)
      → is_ok status ≡ true
      → get_or ess (top children (n ∷ heap)) [] ≡ e ∷ es
      → let it : MergingIterator = record {
        children = children;
        heap = n ∷ heap;
        status = status;
      } in
        (valid it ≡ true) × (internal_key it ≡ entry_key e) × (value it ≡ e.stored)
  unfolding valid internal_key value is_empty
  at_heap n heap status e es good at =
      let here = child_at-Delivers children ess (top children (n ∷ heap)) h ∙ ap input_of at in
      (rw (good, here) refl, rw here refl, rw here refl)

delivered-step :
    (fuel : ℕ) (it after : MergingIterator) (e : Entry)
    → valid it ≡ true
    → internal_key it ≡ entry_key e
    → value it ≡ e.stored
    → next it ≡ after
    → delivered (suc fuel) it ≡ Input.entry (entry_key e) e.stored (delivered fuel after)
unfolding delivered
delivered-step fuel it after e v k w n = rw (v, k, w, n) refl

delivered-merge_all :
    (fuel : ℕ) (children : List Child) (heap : List ℕ) (status : Status) (ess : List (List Entry))
    → is_ok status ≡ true
    → Delivers children ess
    → AllStored ess
    → IsHeap ess heap
    → length (merge_all ess) < fuel
    → delivered fuel (record { children = children; heap = heap; status = status })
      ≡ input_of (merge_all ess)
unfolding delivered valid is_empty contains
delivered-merge_all zero children heap status ess good h stored heaped enough = absurd (omega arith)
delivered-merge_all (suc fuel) children [] status ess good h stored heaped enough =
    rw (good, merge_all-empty ess (λ j. sym (heaped.complete j))) refl
delivered-merge_all (suc fuel) children (n ∷ heap) status ess good h stored heaped enough =
    let t = top children (n ∷ heap) in
    let (full, first) = top-comes_first children ess n heap h stored heaped in
    let e = head_of (get_or ess t []) in
    let (es, at) = at_top (get_or ess t []) full in
    let step = merge_all-set t ess e es at first in
    let (v, k, w) = at_heap children ess h stored n heap status e es good at in
    let after = if filled es then t ∷ pop t (n ∷ heap) else pop t (n ∷ heap) in
    let moved = next-Delivers children ess h stored n heap status e es good at in
    let left : length (merge_all (set ess t es)) < fuel = omega (arith, ap length step) in
    delivered-step fuel (record { children = children; heap = n ∷ heap; status = status })
      (record { children = advance_at t children; heap = after; status = status }) e v k w moved
    ∙ ap (Input.entry (entry_key e) e.stored) (
        delivered-merge_all fuel (advance_at t children) after status (set ess t es) good
          (advance_at-Delivers t children ess e es at h)
          (set-IsStored t ess es (subst (All IsStored) at (get_or-IsStored t ess stored)).1 stored)
          (IsHeap-next ess (n ∷ heap) t e es at heaped) left)
    ∙ sym (ap input_of step)

positioned-merge_all :
    (fuel : ℕ) (iterator : MergingIterator) (children : List Child) (ess : List (List Entry))
    → is_ok iterator.status ≡ true
    → Delivers children ess
    → AllStored ess
    → total ess < fuel
    → delivered fuel (positioned children iterator) ≡ input_of (merge_all ess)
unfolding positioned
positioned-merge_all fuel iterator children ess good h stored enough =
    rw (positioned, check_children-Delivers children ess h)
      (delivered-merge_all fuel children (rebuild_heap 0 children) iterator.status ess good h stored
        (IsHeap-rebuild_heap children ess h) (omega (arith, length-merge_all ess)))

-- From `seekToFirst` on, a merging iterator without an error delivers the merge of what its children
-- deliver from their first record on, in as many rounds as these have entries and one more. The
-- children deliver entries whose sequences fit their keys, in any order, and no error.
pub seek_to_first-merge_all :
    (fuel : ℕ) (iterator : MergingIterator) (ess : List (List Entry))
    → is_ok iterator.status ≡ true
    → DeliversFirst iterator.children ess
    → AllStored ess
    → total ess < fuel
    → delivered fuel (seek_to_first iterator) ≡ input_of (merge_all ess)
unfolding seek_to_first
seek_to_first-merge_all fuel iterator ess good h stored enough = rw good (
    positioned-merge_all fuel iterator (all_to_first iterator.children) ess good
      (all_to_first-Delivers iterator.children ess h) stored enough)

-- What the check behind a step answers when the children before one are without an error.
check_children-first :
    (front : List Child) (child : Child) (rest : List Child)
    → All (λ c. is_ok (input_status c.position) ≡ true) front
    → is_ok (input_status child.position) ≡ false
    → check_children (front ++ child ∷ rest) ≡ some (input_status child.position)
unfolding check_children
check_children-first [] child rest fine bad = rw bad refl
check_children-first (c ∷ cs) child rest fine bad =
    rw (fine.0) (check_children-first cs child rest fine.1 bad)

-- If `next` is called on a valid iterator without an error, and among its children behind the step
-- one has failed and none before it has, the iterator delivers nothing more and ends with the status
-- of that child.
pub next-fails :
    (fuel : ℕ) (iterator : MergingIterator) (front : List Child) (child : Child) (rest : List Child)
    → valid iterator ≡ true
    → advance_at (top iterator.children iterator.heap) iterator.children ≡ front ++ child ∷ rest
    → All (λ c. is_ok (input_status c.position) ≡ true) front
    → is_ok (input_status child.position) ≡ false
    → delivered (suc fuel) (next iterator) ≡ Input.failed (input_status child.position)
unfolding delivered next valid is_empty
next-fails fuel iterator front child rest here moved fine bad =
    let good : is_ok iterator.status ≡ true = ground (arith, here) in
    let failed = check_children-first front child rest fine bad in
    rw (good, moved, failed, bad) refl
