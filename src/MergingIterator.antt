-- ===== src/MergingIterator.antt =====
-- engine/lsmtree/src/db/merging_iterator.{h,cc}: one iterator over the records of several.
mod State
pub mod Merge
pub mod Order
pub mod Heap
pub mod Top
pub mod Delivered
pub mod Sorted
pub mod Compacted
pub use State.{Child, MergingIterator}
use mizu.Base.{
  ℕ, zero, suc, Bool, true, false, not, ◌&&◌, Option, none, some, List, [], ◌∷◌, ltb, ◌==◌,
  if◌then◌else◌,
}
use mizu.Base.Order.{Bytes}
use mizu.Status.{Status, is_ok}
use mizu.InternalKey.{internal_key_less}
use mizu.DbIterator.{Input, input_status, input_valid, advance}

-- `children_[index]`, at the position where it stands.
abbrev pub child_at : List Child → ℕ → Input
child_at [] index = Input.end
child_at (child ∷ children) zero = child.position
child_at (child ∷ children) (suc index) = child_at children index

-- `children_[index]->next()`
abbrev pub advance_at : ℕ → List Child → List Child
advance_at index [] = []
advance_at zero (child ∷ children) = record child { position = advance child.position } ∷ children
advance_at (suc index) (child ∷ children) = child ∷ advance_at index children

abbrev pub input_key : Input → Bytes
input_key Input.end = []
input_key (Input.failed status) = []
input_key (Input.entry key value rest) = key

abbrev pub input_value : Input → Bytes
input_value Input.end = []
input_value (Input.failed status) = []
input_value (Input.entry key value rest) = value

-- `Greater::operator()`
unfoldable pub greater : List Child → ℕ → ℕ → Bool
greater children lhs rhs =
    let left = input_key (child_at children lhs) in
    let right = input_key (child_at children rhs) in
    if internal_key_less right left
    then true
    else if internal_key_less left right
    then false
    else ltb rhs lhs

-- `heap_.top()`: an index that is greater than no other one. The code asks for it on a heap that is
-- not empty.
unfoldable pub top : List Child → List ℕ → ℕ
top children [] = 0
top children (index ∷ []) = index
top children (index ∷ other ∷ heap) =
    let least = top children (other ∷ heap) in if greater children index least then least else index

-- `heap_.pop()`, for the index at the top.
unfoldable pub pop : ℕ → List ℕ → List ℕ
pop index [] = []
pop index (other ∷ heap) =
    let rest = pop index heap in if other == index then heap else other ∷ rest

-- The indices of `rebuildHeap`, from the first one on.
unfoldable pub rebuild_heap : ℕ → List Child → List ℕ
rebuild_heap index [] = []
rebuild_heap index (child ∷ children) =
    let rest = rebuild_heap (suc index) children in
    if input_valid child.position then index ∷ rest else rest

-- `checkChildren`: the status of the first child that has failed.
unfoldable pub check_children : List Child → Option Status
check_children [] = none
check_children (child ∷ children) =
    let rest = check_children children in
    if is_ok (input_status child.position) then rest else some (input_status child.position)

-- The end of `seekToFirst` and `seek`, with the children at their new positions.
unfoldable pub positioned : List Child → MergingIterator → MergingIterator
positioned children iterator = elim (check_children children) [
  | some status ↦ record { children = children; heap = []; status = status }
  | none ↦ record { children = children; heap = rebuild_heap 0 children; status = iterator.status }
]

abbrev pub all_to_first : List Child → List Child
all_to_first [] = []
all_to_first (child ∷ children) =
    record child { position = child.from_first } ∷ all_to_first children

abbrev pub all_to : Bytes → List Child → List Child
all_to target [] = []
all_to target (child ∷ children) =
    record child { position = child.from_target target } ∷ all_to target children

unfoldable pub seek_to_first : MergingIterator → MergingIterator
seek_to_first iterator =
    if is_ok iterator.status then positioned (all_to_first iterator.children) iterator else iterator

unfoldable pub seek : Bytes → MergingIterator → MergingIterator
seek target iterator =
    if is_ok iterator.status
    then positioned (all_to target iterator.children) iterator
    else iterator

unfoldable pub is_empty : List ℕ → Bool
is_empty [] = true
is_empty (index ∷ heap) = false

unfoldable pub valid : MergingIterator → Bool
valid iterator =
    is_ok iterator.status
    && not (is_empty iterator.heap)
    && input_valid (child_at iterator.children (top iterator.children iterator.heap))

unfoldable pub internal_key : MergingIterator → Bytes
internal_key iterator = input_key (child_at iterator.children (top iterator.children iterator.heap))

unfoldable pub value : MergingIterator → Bytes
value iterator = input_value (child_at iterator.children (top iterator.children iterator.heap))

-- The code asserts that the iterator is valid.
unfoldable pub next : MergingIterator → MergingIterator
next iterator =
    let index = top iterator.children iterator.heap in
    let heap = pop index iterator.heap in
    let children = advance_at index iterator.children in
    if is_ok iterator.status
    then elim (check_children children) [
      | some status ↦ record { children = children; heap = []; status = status }
      | none ↦ record iterator {
        children = children;
        heap = if input_valid (child_at children index) then index ∷ heap else heap;
      }
    ]
    else iterator
