-- ===== src/Version/FromLevel1.antt =====
-- A compaction of level 1 leaves a version that reads as before.
use mizu.Base.{
  ℕ, ◌+◌, ◌≡◌, refl, ap, ◌∙◌, sym, subst, List, [], ◌++◌, take, drop, All, All-take, All-drop,
  arith, Bool-cases, inl, inr, ◌⊎◌, take-append-drop,
}
use mizu.Base.Order.{Bytes}
use mizu.Status.{ok}
use mizu.Entries.{Entry, LookupResult, lookup, value_of}
use mizu.Compaction.Covers.{level_covers}
use mizu.Compaction.Pick.{IndexRange, CompactionPlan}
use mizu.Manifest.Checked.{IsApart}
use mizu.Version.{Table, Version, get, with_compaction, replace_range}
use mizu.Version.Lookup.{metas, first_answer, lookup-append, IsHeld, all_entries}
use mizu.Version.Apart.{IsApart-split}
use mizu.Version.Exclusive.{metas-append, lookup-uncovered, all_entries-append, Ends-uncovered}
use mizu.Version.Replaced.{the_plan, Compacts, replaced-IsApart_tables, replaced-value}
use mizu.Version.Levelled.{visible, IsLevelled, found, get-found, All-replaced}

-- Of two parts of a level that is apart, one has no version of a key.
one-absent :
    (entries : Table → List Entry) (s : ℕ) (k : Bytes) (xs ys : List Table)
    → All (IsHeld entries) xs
    → All (IsHeld entries) ys
    → IsApart (metas xs ++ metas ys)
    → (found entries s k xs ≡ LookupResult.absent) ⊎ (found entries s k ys ≡ LookupResult.absent)
one-absent entries s k xs ys first second apart = elim (Bool-cases (level_covers k (metas ys))) [
  | inr bare ↦ inr (lookup-uncovered entries s k ys second bare)
  | inl covered ↦ inl (
      lookup-uncovered entries s k xs first (
        Ends-uncovered (metas xs) (metas ys) k (IsApart-split (metas xs) (metas ys) apart).2
          covered))
]

-- The answers of level 0, of the rest of level 1 and of the two sides of the replacement.
answers_level1 :
    (z i r t u : LookupResult)
    → (i ≡ LookupResult.absent) ⊎ (r ≡ LookupResult.absent)
    → value_of (first_answer u LookupResult.absent)
      ≡ value_of (first_answer i (first_answer t LookupResult.absent))
    → value_of (first_answer z (first_answer r u))
      ≡ value_of (first_answer z (first_answer (first_answer i r) t))
answers_level1 z i r t u h same = ground arith

module _ (entries : Table → List Entry) (oldest : ℕ) (version : Version) (outputs : List Table)
    (merged : List Entry) (good : IsLevelled entries version)
    (built : Compacts entries oldest 1
      (record { begin = 0; end = 1 })
      version.level1
      version.level2
      []
      merged
      outputs) where
  abbrev first_of : IndexRange
  first_of = record { begin = 0; end = 1 }

  abbrev plan : CompactionPlan
  plan = the_plan entries oldest 1 first_of version.level1 version.level2 [] merged

  metas-split :
      metas version.level1 ≡ metas (take 1 version.level1) ++ metas (drop 1 version.level1)
  metas-split =
      ap metas (sym (take-append-drop 1 version.level1))
      ∙ metas-append (take 1 version.level1) (drop 1 version.level1)

  split-IsApart : IsApart (metas (take 1 version.level1) ++ metas (drop 1 version.level1))
  split-IsApart = subst IsApart metas-split good.apart1

  found-split :
      (s : ℕ) (k : Bytes)
      → found entries s k version.level1
        ≡ first_answer
            (found entries s k (take 1 version.level1))
            (found entries s k (drop 1 version.level1))
  found-split s k =
      ap (found entries s k) (sym (take-append-drop 1 version.level1))
      ∙ ap (lookup s k) (all_entries-append entries (take 1 version.level1) (drop 1 version.level1))
      ∙ lookup-append s k (all_entries entries (take 1 version.level1))
          (all_entries entries (drop 1 version.level1))

  pub compacted1-IsLevelled :
      IsLevelled entries (with_compaction 1 first_of plan.overlaps outputs version)
  unfolding with_compaction
  compacted1-IsLevelled = record {
    held0 = good.held0;
    held1 = All-drop (IsHeld entries) 1 version.level1 good.held1;
    held2 = All-replaced entries plan.overlaps outputs version.level2 built.held good.held2;
    apart1 =
        (IsApart-split (metas (take 1 version.level1)) (metas (drop 1 version.level1))
          split-IsApart).1;
    apart2 =
        replaced-IsApart_tables entries oldest 1 first_of version.level1 version.level2 [] merged
          good.apart2 good.held2 outputs built;
  }

  pub compacted1-visible :
      (later : ℕ) (k : Bytes)
      → visible (get k (oldest + later) (with_compaction 1 first_of plan.overlaps outputs version))
        ≡ visible (get k (oldest + later) version)
  unfolding with_compaction lookup
  compacted1-visible later k =
      let s : ℕ = oldest + later in
      let inputs = take 1 version.level1 in
      let left = drop 1 version.level1 in
      let inputs_held = All-take (IsHeld entries) 1 version.level1 good.held1 in
      let left_held = All-drop (IsHeld entries) 1 version.level1 good.held1 in
      let kept =
        replaced-value entries oldest 1 first_of version.level1 version.level2 [] merged good.apart2
          good.held2 outputs built later [] inputs_held tt (λ k' h. refl) k in
      ap visible (
        get-found entries k s (with_compaction 1 first_of plan.overlaps outputs version)
          compacted1-IsLevelled)
      ∙ ap ok (
          answers_level1 (found entries s k version.level0) (found entries s k inputs)
            (found entries s k left) (found entries s k version.level2)
            (found entries s k (replace_range plan.overlaps outputs version.level2))
            (one-absent entries s k inputs left inputs_held left_held split-IsApart) kept
          ∙ ap
              (λ r. value_of (
                first_answer (found entries s k version.level0)
                  (first_answer r (found entries s k version.level2))))
              (sym (found-split s k)))
      ∙ sym (ap visible (get-found entries k s version good))
