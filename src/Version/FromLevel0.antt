-- ===== src/Version/FromLevel0.antt =====
-- A compaction of level 0 leaves a version that reads as before.
use mizu.Base.{
  ℕ, ◌+◌, ◌-◌, ◌≡◌, ap, ◌∙◌, sym, subst, false, List, [], ◌∷◌, length, drop, All, arith,
  take-length,
}
use mizu.Base.Order.{Bytes}
use mizu.Status.{ok}
use mizu.Entries.{Entry, LookupResult, lookup, value_of}
use mizu.Compaction.Covers.{covers}
use mizu.Compaction.Pick.{IndexRange, CompactionPlan}
use mizu.Version.{Table, Version, get, with_compaction, replace_range, erase_range}
use mizu.Version.Lookup.{metas, first_answer, IsHeld, all_entries}
use mizu.Version.Exclusive.{lookup-uncovered}
use mizu.Version.Replaced.{
  metas-IsRanged, tables_in, the_plan, Compacts, replaced-IsApart_tables, replaced-value,
}
use mizu.Version.Apart.{IsApart-IsOrdered}
use mizu.Version.Levelled.{
  visible, drop-length, length-metas, IsLevelled, found, get-found, All-replaced,
}

module _ (entries : Table → List Entry) (oldest : ℕ) (version : Version) (outputs : List Table)
    (merged : List Entry) (good : IsLevelled entries version)
    (built : Compacts entries oldest 0
      (record { begin = 0; end = length (metas version.level0) })
      version.level0
      version.level1
      (metas version.level2 ∷ [])
      merged
      outputs) where
  abbrev all_of : IndexRange
  all_of = record { begin = 0; end = length (metas version.level0) }

  abbrev plan : CompactionPlan
  plan =
      the_plan entries oldest 0 all_of version.level0 version.level1 (metas version.level2 ∷ [])
        merged

  erased : erase_range all_of version.level0 ≡ []
  erased =
      ap (λ n. drop n version.level0) (length-metas version.level0) ∙ drop-length version.level0

  inputs_all : tables_in all_of version.level0 ≡ version.level0
  inputs_all =
      take-length (length (metas version.level0) - 0) version.level0
        (omega (arith, length-metas version.level0))

  pub compacted0-IsLevelled :
      IsLevelled entries (with_compaction 0 all_of plan.overlaps outputs version)
  unfolding with_compaction
  compacted0-IsLevelled = record {
    held0 = subst (All (IsHeld entries)) (sym erased) tt;
    held1 = All-replaced entries plan.overlaps outputs version.level1 built.held good.held1;
    held2 = good.held2;
    apart1 =
        replaced-IsApart_tables entries oldest 0 all_of version.level0 version.level1
          (metas version.level2 ∷ []) merged good.apart1 good.held1 outputs built;
    apart2 = good.apart2;
  }

  lower_promise :
      (s : ℕ) (k : Bytes)
      → covers k (metas version.level2 ∷ []) ≡ false
      → found entries s k version.level2 ≡ LookupResult.absent
  lower_promise s k h = lookup-uncovered entries s k version.level2 good.held2 (ground (arith, h))

  pub compacted0-visible :
      (later : ℕ) (k : Bytes)
      → visible (get k (oldest + later) (with_compaction 0 all_of plan.overlaps outputs version))
        ≡ visible (get k (oldest + later) version)
  unfolding with_compaction lookup
  compacted0-visible later k =
      let s : ℕ = oldest + later in
      let kept =
        replaced-value entries oldest 0 all_of version.level0 version.level1
          (metas version.level2 ∷ []) merged good.apart1 good.held1 outputs built later
          (all_entries entries version.level2)
          (subst (All (IsHeld entries)) (sym inputs_all) good.held0)
          (
            IsApart-IsOrdered (metas version.level2)
                (metas-IsRanged entries version.level2 good.held2) good.apart2,
            tt,
          )
          (lower_promise s) k in
      let other = λ (ts : List Table).
        first_answer (found entries s k ts)
          (first_answer (found entries s k version.level1) (found entries s k version.level2)) in
      let outputs_in =
        first_answer (found entries s k (replace_range plan.overlaps outputs version.level1))
          (found entries s k version.level2) in
      ap visible (
        get-found entries k s (with_compaction 0 all_of plan.overlaps outputs version)
          compacted0-IsLevelled)
      ∙ ap ok (
          ap (λ ts. value_of (first_answer (found entries s k ts) outputs_in)) erased
          ∙ kept
          ∙ ap (λ ts. value_of (other ts)) inputs_all)
      ∙ sym (ap visible (get-found entries k s version good))
