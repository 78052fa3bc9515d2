-- ===== src/MergingIterator/Compacted.antt =====
-- The loop of a compaction over a merging iterator.
use mizu.Base.{ℕ, ◌+◌, ◌<◌, ◌≡◌, ap, ◌∙◌, true, false, List, [], All}
use mizu.Base.Order.{Bytes}
use mizu.Status.{ok, is_ok}
use mizu.InternalKey.{max_sequence_number}
use mizu.Entries.{Entry, LookupResult, lookup, IsSorted, IsStored}
use mizu.Compaction.{TableMeta}
use mizu.Compaction.Loop.{compaction_loop, initial_state}
use mizu.Compaction.Covers.{covers, AllOrdered}
use mizu.Compaction.Survivors.{read_through}
use mizu.Compaction.Runs.{Preserves, compaction_loop-Preserves}
use mizu.MergingIterator.{MergingIterator, seek_to_first}
use mizu.MergingIterator.Merge.{merge_all}
use mizu.MergingIterator.Order.{DeliversFirst, AllStored}
use mizu.MergingIterator.Delivered.{delivered, total, seek_to_first-merge_all}
use mizu.MergingIterator.Sorted.{
  AllNewer, joined, merge_all-IsSorted, merge_all-All, lookup-merge_all,
}

-- `buildCompactionTables` on its inputs: the loop over a merging iterator, whose children deliver the
-- sorted entries of tables, each newer than those of the tables behind it, ends without an error. Its
-- records are those of entries in order, through which each key reads, at the oldest snapshot or any
-- later sequence and in front of the entries below, as through all the tables one behind the other.
-- The sequences fit the keys, the tables of each lower level are in order and cover each key that has
-- a version among the entries below, and the oldest snapshot is not the greatest sequence.
pub compaction_loop-delivered :
    (fuel oldest : ℕ) (iterator : MergingIterator) (ess : List (List Entry))
    (levels : List (List TableMeta)) (below : List Entry)
    → is_ok iterator.status ≡ true
    → DeliversFirst iterator.children ess
    → total ess < fuel
    → All IsSorted ess
    → AllNewer ess
    → AllStored ess
    → oldest < max_sequence_number
    → AllOrdered levels
    → ((s : ℕ) (k : Bytes) → covers k levels ≡ false → lookup s k below ≡ LookupResult.absent)
    → (records : List (Bytes × Bytes)) × (compaction_loop oldest []
          (initial_state levels)
          (delivered fuel (seek_to_first iterator))
        ≡ ok records)
      × Preserves oldest below (joined ess) records
compaction_loop-delivered fuel oldest iterator ess levels below good h enough sorted new stored
      small ordered promise =
    let merged =
      compaction_loop-Preserves oldest levels (merge_all ess) below small
        (merge_all-IsSorted ess sorted new) (merge_all-All IsStored ess stored) ordered promise in
    let (records, run, (kept, same, in_order, reads)) = merged in
    (
      records,
      ap (compaction_loop oldest [] (initial_state levels))
            (seek_to_first-merge_all fuel iterator ess good h stored enough)
          ∙ run,
      (
        kept,
        same,
        in_order,
        λ later k.
            reads later k
            ∙ ap (λ r. read_through r (lookup (oldest + later) k below))
                (lookup-merge_all (oldest + later) k ess sorted new),
      ),
    )
