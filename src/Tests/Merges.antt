-- ===== src/Tests/Merges.antt =====
-- A merging iterator over two children, one newer than the other.
use mizu.Base.{◌≡◌, true, All, refl, arith, ℕ, List, [], ◌∷◌}
use mizu.Base.Order.{Bytes, slice_compare}
use mizu.Status.{success, io_error, ok, is_ok}
use mizu.InternalKey.{ValueType, user_then_tag_less}
use mizu.Entries.{Entry, lookup, IsSorted}
use mizu.DbIterator.{Input}
use mizu.DbIterator.Collect.{input_of}
use mizu.Compaction.Loop.{compaction_loop, initial_state}
use mizu.Compaction.Runs.{Preserves}
use mizu.MergingIterator.{Child, MergingIterator, seek_to_first, next, top, valid, is_empty}
use mizu.MergingIterator.Merge.{merge_all}
use mizu.MergingIterator.Delivered.{delivered, seek_to_first-merge_all, next-fails}
use mizu.MergingIterator.Sorted.{joined}
use mizu.MergingIterator.Compacted.{compaction_loop-delivered}

abbrev entry : Bytes → ℕ → ValueType → Bytes → Entry
entry user_key sequence type stored = record {
  user_key = user_key;
  sequence = sequence;
  type = type;
  stored = stored;
}

abbrev new_entries : List Entry
new_entries =
    entry (1 ∷ []) 5 ValueType.value (50 ∷ []) ∷ entry (2 ∷ []) 4 ValueType.deletion [] ∷ []

abbrev old_entries : List Entry
old_entries =
    entry (1 ∷ []) 1 ValueType.value (10 ∷ []) ∷ entry (2 ∷ []) 2 ValueType.value (20 ∷ []) ∷ []

abbrev child_of : List Entry → Child
child_of es = record {
  from_first = input_of es;
  from_target = λ target. input_of es;
  position = Input.end;
}

abbrev iterator : MergingIterator
iterator = record {
  children = child_of new_entries ∷ child_of old_entries ∷ [];
  heap = [];
  status = success;
}

good : is_ok iterator.status ≡ true
unfolding success
good = refl

abbrev lists : List (List Entry)
lists = new_entries ∷ old_entries ∷ []

seek_to_first-merge_all_example : delivered 5 (seek_to_first iterator) ≡ input_of (merge_all lists)
seek_to_first-merge_all_example =
    seek_to_first-merge_all 5 iterator lists good (refl, (refl, tt))
      ((omega arith, (omega arith, tt)), ((omega arith, (omega arith, tt)), tt)) (omega arith)

-- The one child of this iterator fails behind its first record.
abbrev failing : MergingIterator
failing = record {
  children =
      record {
        from_first = Input.end;
        from_target = λ target. Input.end;
        position = Input.entry (1 ∷ []) [] (Input.failed (io_error "read"));
      }
      ∷ [];
  heap = 0 ∷ [];
  status = success;
}

next-fails_example : delivered 3 (next failing) ≡ Input.failed (io_error "read")
unfolding top valid is_empty success io_error
next-fails_example =
    next-fails 2 failing []
      (record {
        from_first = Input.end;
        from_target = λ target. Input.end;
        position = Input.failed (io_error "read");
      })
      [] refl refl tt refl

sorted : All IsSorted lists
unfolding user_then_tag_less slice_compare
sorted = (((refl, tt), (tt, tt)), (((refl, tt), (tt, tt)), tt))

compaction_loop-delivered_example :
    (records : List (Bytes × Bytes)) × (compaction_loop 3 []
        (initial_state [])
        (delivered 5 (seek_to_first iterator))
      ≡ ok records)
    × Preserves 3 [] (joined lists) records
unfolding slice_compare lookup
compaction_loop-delivered_example =
    compaction_loop-delivered 5 3 iterator lists [] [] good (refl, (refl, tt)) (omega arith) sorted
      ((((refl, (refl, tt)), ((refl, (refl, tt)), tt)), tt), (tt, tt))
      ((omega arith, (omega arith, tt)), ((omega arith, (omega arith, tt)), tt)) (omega arith) tt
      (λ s k h. refl)
