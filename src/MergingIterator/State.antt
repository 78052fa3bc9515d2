-- ===== src/MergingIterator/State.antt =====
-- The children and the fields of a `MergingIterator`.
use mizu.Base.{ℕ, List}
use mizu.Base.Order.{Bytes}
use mizu.Status.{Status}
use mizu.DbIterator.{Input}

-- An `InternalIterator` as its caller sees it: what it delivers behind `seekToFirst` and `seek`, and
-- from its position on.
pub record Child : Type 0 where
  pub from_first : Input
  pub from_target : Bytes → Input
  pub position : Input

-- The heap is the indices in it, in any order.
pub record MergingIterator : Type 0 where
  pub children : List Child
  pub heap : List ℕ
  pub status : Status
