-- ===== src/Version/Compacted.antt =====
-- The version that the database publishes behind a compaction: `pickCompaction` makes the plan, and
-- `withCompaction` takes what the plan names and the outputs that were written for it.
use mizu.Base.{
  ℕ, ◌+◌, ◌-◌, ◌<◌, ◌≡◌, subst, some, List, [], ◌∷◌, ◌++◌, map, leb, length, drop, All, All-take,
  All-drop, arith, Bool-cases, inl, inr, ◌⊎◌,
}
use mizu.Base.Order.{Bytes}
use mizu.Status.{Status, Result, ok}
use mizu.InternalKey.{max_sequence_number}
use mizu.Entries.{Entry, IsStored}
use mizu.DbIterator.Collect.{input_of}
use mizu.Compaction.Loop.{compaction_loop, initial_state}
use mizu.Compaction.Runs.{record_of}
use mizu.MergingIterator.Merge.{merge_all}
use mizu.Compaction.Pick.{
  IndexRange, CompactionOptions, CompactionPlan, pick_compaction, plan_for,
  level0_compaction_trigger, level_at_limit,
}
use mizu.Version.{Table, Version, get, with_compaction}
use mizu.Version.Lookup.{metas, IsHeld}
use mizu.Version.Apart.{All-append}
use mizu.Version.OutputWriter.{fresh_writer, write_outputs}
use mizu.Version.Outputs.{IsTableOf}
use mizu.Version.Built.{IsMergeable, build-Compacts}
use mizu.Version.Replaced.{tables_in, Compacts}
use mizu.Version.Levelled.{visible, levels_of, source_of, target_of, lower_of, IsLevelled}
use mizu.Version.FromLevel0.{compacted0-IsLevelled, compacted0-visible}
use mizu.Version.FromLevel1.{compacted1-IsLevelled, compacted1-visible}

-- The two plans that `pickCompaction` can make.
picked-cases :
    (oldest : ℕ) (options : CompactionOptions) (version : Version) (plan : CompactionPlan)
    → pick_compaction (some (levels_of version)) oldest options ≡ some plan
    → (plan_for oldest 0
          (record { begin = 0; end = length (metas version.level0) })
          (metas version.level0)
          (metas version.level1)
        ≡ plan)
      ⊎ (plan_for oldest 1
            (record { begin = 0; end = 1 })
            (metas version.level1)
            (metas version.level2)
          ≡ plan)
unfolding pick_compaction
picked-cases oldest options version plan h =
    elim (Bool-cases (leb level0_compaction_trigger (length (metas version.level0)))) [
      | inl full ↦ inl (ground arith)
      | inr few ↦ elim (Bool-cases (level_at_limit (metas version.level1) options.level1_bytes)) [
        | inl large ↦ inr (ground arith)
        | inr small ↦ absurd (ground arith)
      ]
    ]

-- The outputs stand for the versions that a compaction may keep of the merged input.
abbrev IsBuilt :
    (Table → List Entry) → ℕ → Version → CompactionPlan → List Entry → List Table → Type 0
IsBuilt entries oldest version plan merged outputs =
    Compacts entries oldest plan.input_level plan.inputs (source_of plan.input_level version)
      (target_of plan.input_level version) (lower_of plan.input_level version) merged outputs

abbrev pub compacted : CompactionPlan → List Table → Version → Version
compacted plan outputs version =
    with_compaction plan.input_level plan.inputs plan.overlaps outputs version

built-IsLevelled :
    (entries : Table → List Entry) (oldest : ℕ) (options : CompactionOptions) (version : Version)
    (plan : CompactionPlan) (merged : List Entry) (outputs : List Table)
    → IsLevelled entries version
    → pick_compaction (some (levels_of version)) oldest options ≡ some plan
    → IsBuilt entries oldest version plan merged outputs
    → IsLevelled entries (compacted plan outputs version)
unfolding plan_for
built-IsLevelled entries oldest options version plan merged outputs good picked built =
    elim (picked-cases oldest options version plan picked) [
      | inl upper ↦
          subst
            (λ p.
              IsBuilt entries oldest version p merged outputs
              → IsLevelled entries (compacted p outputs version))
            upper (compacted0-IsLevelled entries oldest version outputs merged good) built
      | inr middle ↦
          subst
            (λ p.
              IsBuilt entries oldest version p merged outputs
              → IsLevelled entries (compacted p outputs version))
            middle (compacted1-IsLevelled entries oldest version outputs merged good) built
    ]

built-visible :
    (entries : Table → List Entry) (oldest : ℕ) (options : CompactionOptions) (version : Version)
    (plan : CompactionPlan) (merged : List Entry) (outputs : List Table)
    → IsLevelled entries version
    → pick_compaction (some (levels_of version)) oldest options ≡ some plan
    → IsBuilt entries oldest version plan merged outputs
    → (later : ℕ) (k : Bytes)
    → visible (get k (oldest + later) (compacted plan outputs version))
      ≡ visible (get k (oldest + later) version)
unfolding plan_for
built-visible entries oldest options version plan merged outputs good picked built later k =
    elim (picked-cases oldest options version plan picked) [
      | inl upper ↦
          subst
            (λ p.
              IsBuilt entries oldest version p merged outputs
              → visible (get k (oldest + later) (compacted p outputs version))
                ≡ visible (get k (oldest + later) version))
            upper (λ b. compacted0-visible entries oldest version outputs merged good b later k)
            built
      | inr middle ↦
          subst
            (λ p.
              IsBuilt entries oldest version p merged outputs
              → visible (get k (oldest + later) (compacted p outputs version))
                ≡ visible (get k (oldest + later) version))
            middle (λ b. compacted1-visible entries oldest version outputs merged good b later k)
            built
    ]

-- The tables whose iterators `buildCompactionTables` merges: the inputs, and the overlaps.
abbrev pub compaction_inputs : CompactionPlan → Version → List Table
compaction_inputs plan version =
    tables_in plan.inputs (source_of plan.input_level version)
    ++ tables_in plan.overlaps (target_of plan.input_level version)

tables_in-IsHeld :
    (entries : Table → List Entry) (range : IndexRange) (ts : List Table)
    → All (IsHeld entries) ts
    → All (IsHeld entries) (tables_in range ts)
tables_in-IsHeld entries range ts held =
    All-take (IsHeld entries) (range.end - range.begin) (drop range.begin ts)
      (All-drop (IsHeld entries) range.begin ts held)

inputs-IsHeld :
    (entries : Table → List Entry) (inputs overlaps : IndexRange) (source target : List Table)
    → All (IsHeld entries) source
    → All (IsHeld entries) target
    → All (IsHeld entries) (tables_in inputs source ++ tables_in overlaps target)
inputs-IsHeld entries inputs overlaps source target upper lower =
    All-append (IsHeld entries) (tables_in inputs source) (tables_in overlaps target)
      (tables_in-IsHeld entries inputs source upper)
      (tables_in-IsHeld entries overlaps target lower)

module _ (open_output : ℕ → Status) (builder_add : List (Bytes × Bytes) → Bytes × Bytes → Status)
    (finish_builder : ℕ → List (Bytes × Bytes) → Result Table)
    (estimated_file_size : List (Bytes × Bytes) → ℕ) (target_file_size : ℕ)
    (entries : Table → List Entry)
    (kept : (n : ℕ) (e : Entry) (es : List Entry) (t : Table)
      → All IsStored (e ∷ es)
      → finish_builder n (map record_of (e ∷ es)) ≡ ok t
      → IsTableOf entries t e es) where
  abbrev ess_of : CompactionPlan → Version → List (List Entry)
  ess_of plan version = map entries (compaction_inputs plan version)

  abbrev loop_of : ℕ → CompactionPlan → Version → Result (List (Bytes × Bytes))
  loop_of oldest plan version =
      compaction_loop oldest [] (initial_state (lower_of plan.input_level version))
        (input_of (merge_all (ess_of plan version)))

  picked-IsBuilt :
      (oldest : ℕ) (options : CompactionOptions) (version : Version) (plan : CompactionPlan)
      (records : List (Bytes × Bytes)) (outputs : List Table)
      → IsLevelled entries version
      → pick_compaction (some (levels_of version)) oldest options ≡ some plan
      → oldest < max_sequence_number
      → IsMergeable (ess_of plan version)
      → loop_of oldest plan version ≡ ok records
      → write_outputs open_output builder_add finish_builder estimated_file_size target_file_size
          fresh_writer records
        ≡ ok outputs
      → IsBuilt entries oldest version plan (merge_all (ess_of plan version)) outputs
  unfolding plan_for
  picked-IsBuilt oldest options version plan records outputs good picked small ready looped wrote =
      let Built : CompactionPlan → Type 0 = λ p.
        IsMergeable (ess_of p version)
        → loop_of oldest p version ≡ ok records
        → IsBuilt entries oldest version p (merge_all (ess_of p version)) outputs in
      elim (picked-cases oldest options version plan picked) [
        | inl upper ↦
            let inputs : IndexRange = record { begin = 0; end = length (metas version.level0) } in
            subst Built upper
              (λ ready' looped'.
                build-Compacts open_output builder_add finish_builder estimated_file_size
                  target_file_size entries kept oldest 0 inputs version.level0 version.level1
                  (metas version.level2 ∷ []) records outputs small
                  (inputs-IsHeld entries inputs
                    (plan_for oldest 0 inputs (metas version.level0)
                      (metas version.level1)).overlaps
                    version.level0 version.level1 good.held0 good.held1)
                  ready' looped' wrote)
              ready looped
        | inr middle ↦
            let inputs : IndexRange = record { begin = 0; end = 1 } in
            subst Built middle
              (λ ready' looped'.
                build-Compacts open_output builder_add finish_builder estimated_file_size
                  target_file_size entries kept oldest 1 inputs version.level1 version.level2 []
                  records outputs small
                  (inputs-IsHeld entries inputs
                    (plan_for oldest 1 inputs (metas version.level1)
                      (metas version.level2)).overlaps
                    version.level1 version.level2 good.held1 good.held2)
                  ready' looped' wrote)
              ready looped
      ]

  -- The version behind a compaction again has readers that find what their tables hold, and levels 1
  -- and 2 that are apart, if the version before it had. The plan is the one of `pickCompaction`; the
  -- entries of its input tables are sorted, those of each table newer than those of the tables behind
  -- it, and their sequences fit the keys; the records are those that the loop keeps of the merged
  -- input, at an oldest snapshot below the greatest sequence, and the outputs are those that
  -- `CompactionOutputWriter` returns for them. Of a table that a builder has finished for some records
  -- it is assumed that its reader finds these and that its bounds are the first and the last of them.
  pub with_compaction-IsLevelled :
      (oldest : ℕ) (options : CompactionOptions) (version : Version) (plan : CompactionPlan)
      (records : List (Bytes × Bytes)) (outputs : List Table)
      → IsLevelled entries version
      → pick_compaction (some (levels_of version)) oldest options ≡ some plan
      → oldest < max_sequence_number
      → IsMergeable (ess_of plan version)
      → loop_of oldest plan version ≡ ok records
      → write_outputs open_output builder_add finish_builder estimated_file_size target_file_size
          fresh_writer records
        ≡ ok outputs
      → IsLevelled entries (compacted plan outputs version)
  with_compaction-IsLevelled oldest options version plan records outputs good picked small ready
        looped wrote =
      built-IsLevelled entries oldest options version plan (merge_all (ess_of plan version)) outputs
        good picked
        (picked-IsBuilt oldest options version plan records outputs good picked small ready looped
          wrote)

  -- A compaction is not seen by readers: `get` at the oldest snapshot or any later sequence delivers
  -- of each key what it delivered before, where a deleted key and one without a version count the
  -- same. Before it the readers of the version find what their tables hold, and levels 1 and 2 are
  -- apart. The plan is the one of `pickCompaction`; the entries of its input tables are sorted, those
  -- of each table newer than those of the tables behind it, and their sequences fit the keys; the
  -- records are those that the loop keeps of the merged input, at an oldest snapshot below the
  -- greatest sequence, and the outputs are those that `CompactionOutputWriter` returns for them. Of a
  -- table that a builder has finished for some records it is assumed that its reader finds these and
  -- that its bounds are the first and the last of them.
  pub get-with_compaction :
      (oldest : ℕ) (options : CompactionOptions) (version : Version) (plan : CompactionPlan)
      (records : List (Bytes × Bytes)) (outputs : List Table)
      → IsLevelled entries version
      → pick_compaction (some (levels_of version)) oldest options ≡ some plan
      → oldest < max_sequence_number
      → IsMergeable (ess_of plan version)
      → loop_of oldest plan version ≡ ok records
      → write_outputs open_output builder_add finish_builder estimated_file_size target_file_size
          fresh_writer records
        ≡ ok outputs
      → (later : ℕ) (k : Bytes)
      → visible (get k (oldest + later) (compacted plan outputs version))
        ≡ visible (get k (oldest + later) version)
  get-with_compaction oldest options version plan records outputs good picked small ready looped
        wrote later k =
      built-visible entries oldest options version plan (merge_all (ess_of plan version)) outputs
        good picked
        (picked-IsBuilt oldest options version plan records outputs good picked small ready looped
          wrote)
        later k
