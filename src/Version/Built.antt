-- ===== src/Version/Built.antt =====
-- What `buildCompactionTables` makes of the tables of a plan: the outputs that the writer returns for
-- the records that the loop keeps of the merged input.
use mizu.Base.{
  ℕ, ◌<◌, ◌≡◌, refl, ap, ◌∙◌, sym, Bool, true, ◌&&◌, ◌||◌, List, [], ◌∷◌, ◌++◌, map, All, arith,
}
use mizu.Base.Order.{Bytes, slice_compare_swap}
use mizu.Status.{Status, Result, ok}
use mizu.InternalKey.{max_sequence_number}
use mizu.Entries.{Entry, lookup, IsSorted, IsStored}
use mizu.Entries.Order.{slice_le}
use mizu.DbIterator.Collect.{input_of}
use mizu.Compaction.{TableMeta}
use mizu.Compaction.Loop.{compaction_loop, initial_state}
use mizu.Compaction.Covers.{level_covers}
use mizu.Compaction.Survivors.{survivors, survivors-All}
use mizu.Compaction.Runs.{record_of, survivors-IsSorted, compaction_loop-survivors}
use mizu.Compaction.Pick.{IndexRange, CompactionPlan, in_range}
use mizu.Manifest.Checked.{first_key, last_key}
use mizu.MergingIterator.Merge.{merge_all}
use mizu.MergingIterator.Order.{AllStored}
use mizu.MergingIterator.Sorted.{
  AllNewer, joined, merge_all-IsSorted, merge_all-All, lookup-merge_all,
}
use mizu.Version.State.{Table}
use mizu.Version.Lookup.{metas, IsHeld, all_entries}
use mizu.Version.Change.{taken}
use mizu.Version.Exclusive.{metas-append, all_entries-append}
use mizu.Version.OutputWriter.{fresh_writer, write_outputs}
use mizu.Version.Outputs.{IsTableOf}
use mizu.Version.Written.{write_outputs-Holds}
use mizu.Version.Replaced.{tables_in, metas-tables_in, the_plan, Compacts}

-- Entries of tables that a merge keeps in order: sorted, those of each table newer than those of the
-- tables behind it, and with sequences that fit their keys.
abbrev pub IsMergeable : List (List Entry) → Type 0
IsMergeable ess = All IsSorted ess × AllNewer ess × AllStored ess

level_covers-append :
    (k : Bytes) (xs ys : List TableMeta)
    → level_covers k (xs ++ ys) ≡ level_covers k xs || level_covers k ys
level_covers-append k [] ys = refl
level_covers-append k (x ∷ xs) ys = ground (arith, level_covers-append k xs ys)

module _ (entries : Table → List Entry) where
  joined-entries : (ts : List Table) → joined (map entries ts) ≡ all_entries entries ts
  joined-entries [] = refl
  joined-entries (t ∷ ts) = ap (λ r. entries t ++ r) (joined-entries ts)

  -- A property of the keys that a table covers is one of its entries.
  entries-All :
      (P : Bytes → Bool) (t : Table) (es : List Entry)
      → All
          (λ e.
            slice_le (first_key t.meta) e.user_key && slice_le e.user_key (last_key t.meta) ≡ true)
          es
      → ((k : Bytes) → level_covers k (t.meta ∷ []) ≡ true → P k ≡ true)
      → All (λ e. P e.user_key ≡ true) es
  entries-All P t [] ranged h = tt
  entries-All P t (e ∷ es) ranged h = (
    h e.user_key (
        ground (
          arith,
          ranged.0,
          slice_compare_swap (first_key t.meta) e.user_key,
          slice_compare_swap (last_key t.meta) e.user_key,
        )),
    entries-All P t es ranged.1 h,
  )

  tables-All :
      (P : Bytes → Bool) (ts : List Table)
      → All (IsHeld entries) ts
      → ((k : Bytes) → level_covers k (metas ts) ≡ true → P k ≡ true)
      → All (All (λ e. P e.user_key ≡ true)) (map entries ts)
  tables-All P [] held h = tt
  tables-All P (t ∷ ts) held h = (
    entries-All P t (entries t) held.0.ranged (λ k c. h k (ground (arith, c))),
    tables-All P ts held.1 (λ k c. h k (ground (arith, c))),
  )

module _ (open_output : ℕ → Status) (builder_add : List (Bytes × Bytes) → Bytes × Bytes → Status)
    (finish_builder : ℕ → List (Bytes × Bytes) → Result Table)
    (estimated_file_size : List (Bytes × Bytes) → ℕ) (target_file_size : ℕ)
    (entries : Table → List Entry)
    (kept : (n : ℕ) (e : Entry) (es : List Entry) (t : Table)
      → All IsStored (e ∷ es)
      → finish_builder n (map record_of (e ∷ es)) ≡ ok t
      → IsTableOf entries t e es)
    (oldest level : ℕ) (inputs : IndexRange) (source target : List Table)
    (lower : List (List TableMeta)) where
  -- The tables whose iterators are merged.
  abbrev pub inputs_of : CompactionPlan → List Table
  inputs_of plan = tables_in inputs source ++ tables_in plan.overlaps target

  abbrev here : CompactionPlan
  here = the_plan entries oldest level inputs source target lower []

  abbrev merged : List Entry
  merged = merge_all (map entries (inputs_of here))

  takes :
      (k : Bytes)
      → level_covers k (metas (inputs_of here)) ≡ true
      → taken oldest level inputs (metas source) (metas target) k ≡ true
  takes k h =
      sym (
        level_covers-append k (metas (tables_in inputs source))
          (metas (tables_in here.overlaps target))
        ∙ ap (λ ms. level_covers k ms || level_covers k (metas (tables_in here.overlaps target)))
            (metas-tables_in inputs source)
        ∙ ap (λ ms. level_covers k (in_range inputs (metas source)) || level_covers k ms)
            (metas-tables_in here.overlaps target))
      ∙ ap (level_covers k)
          (sym (metas-append (tables_in inputs source) (tables_in here.overlaps target)))
      ∙ h

  pub build-Compacts :
      (records : List (Bytes × Bytes)) (outputs : List Table)
      → oldest < max_sequence_number
      → All (IsHeld entries) (inputs_of here)
      → IsMergeable (map entries (inputs_of here))
      → compaction_loop oldest [] (initial_state lower) (input_of merged) ≡ ok records
      → write_outputs open_output builder_add finish_builder estimated_file_size target_file_size
          fresh_writer records
        ≡ ok outputs
      → Compacts entries oldest level inputs source target lower merged outputs
  build-Compacts records outputs small held ready looped wrote =
      let ess = map entries (inputs_of here) in
      let sorted = merge_all-IsSorted ess ready.0 ready.1 in
      let stored = merge_all-All IsStored ess ready.2 in
      let state = initial_state lower in
      let left = survivors oldest state merged in
      let loop = compaction_loop-survivors oldest lower merged sorted stored in
      let same : map record_of left ≡ records = cc in
      let good =
        write_outputs-Holds open_output builder_add finish_builder estimated_file_size
          target_file_size entries kept left outputs (survivors-IsSorted oldest state merged sorted)
          (survivors-All IsStored oldest state merged stored)
          (ap
              (λ rs.
                write_outputs open_output builder_add finish_builder estimated_file_size
                  target_file_size fresh_writer rs)
              same
            ∙ wrote) in
      let P = λ (k : Bytes). taken oldest level inputs (metas source) (metas target) k in
      record {
        small = small;
        sorted = sorted;
        stored = stored;
        complete = λ s k.
            lookup-merge_all s k ess ready.0 ready.1
            ∙ ap (lookup s k) (
                joined-entries entries (inputs_of here)
                ∙ all_entries-append entries (tables_in inputs source)
                    (tables_in here.overlaps target));
        wrote = good.same;
        held = good.held;
        apart = good.apart;
        bounded = good.bounds P (
            survivors-All (λ e. P e.user_key ≡ true) oldest state merged
              (merge_all-All (λ e. P e.user_key ≡ true) ess
                (tables-All entries P (inputs_of here) held takes)));
      }
