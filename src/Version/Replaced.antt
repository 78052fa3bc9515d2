-- ===== src/Version/Replaced.antt =====
-- What a read through a level finds once the outputs of a compaction stand in place of the tables that
-- it overlapped.
use mizu.Base.{
  ℕ, ◌+◌, ◌-◌, ◌≤◌, ◌<◌, ◌≡◌, refl, ap, ◌∙◌, sym, subst, false, List, [], ◌∷◌, ◌++◌, take, drop,
  All, All-take, All-drop, arith, Bool-cases, inl, inr, ◌⊎◌, take-append-drop, drop-add,
}
use mizu.Base.Order.{Bytes, slice_compare_swap}
use mizu.InternalKey.{max_sequence_number}
use mizu.Entries.{Entry, LookupResult, lookup, value_of, IsSorted, IsStored}
use mizu.Compaction.{TableMeta}
use mizu.Compaction.Loop.{initial_state}
use mizu.Compaction.Covers.{covers, level_covers, AllOrdered}
use mizu.Compaction.Keeps.{survivors-lookup}
use mizu.Compaction.Survivors.{survivors, read_through}
use mizu.Compaction.Pick.{IndexRange, CompactionPlan, in_range, plan_for}
use mizu.Compaction.Pick.Overlap.{plan_for-bounds}
use mizu.Manifest.Checked.{first_key, last_key, IsApart}
use mizu.Version.{Table, replace_range}
use mizu.Version.Lookup.{metas, first_answer, lookup-append, IsHeld, all_entries}
use mizu.Version.Apart.{IsRanged, BeginBehind-covered}
use mizu.Version.Change.{
  before, behind, taken, taken-bounds, IsOutput, outputs-Ends, replaced-IsApart,
}
use mizu.Version.Exclusive.{
  metas-take, metas-drop, metas-append, EndBefore-uncovered, BeginBehind-uncovered,
  lookup-uncovered, all_entries-append, answers_level0,
}

-- The tables of an index range, with their readers.
abbrev pub tables_in : IndexRange → List Table → List Table
tables_in range ts = take (range.end - range.begin) (drop range.begin ts)

pub metas-tables_in :
    (range : IndexRange) (ts : List Table) → metas (tables_in range ts) ≡ in_range range (metas ts)
metas-tables_in range ts =
    metas-take (range.end - range.begin) (drop range.begin ts)
    ∙ ap (λ ms. take (range.end - range.begin) ms) (metas-drop range.begin ts)

split-tables_in :
    (range : IndexRange) (ts : List Table)
    → range.begin ≤ range.end
    → take range.begin ts ++ (tables_in range ts ++ drop range.end ts) ≡ ts
split-tables_in range ts h =
    ap (λ r. take range.begin ts ++ (tables_in range ts ++ r))
      (sym (drop-add range.begin (range.end - range.begin) range.end ts (omega arith)))
    ∙ ap (λ r. take range.begin ts ++ r)
        (take-append-drop (range.end - range.begin) (drop range.begin ts))
    ∙ take-append-drop range.begin ts

pub metas-IsRanged :
    (entries : Table → List Entry) (ts : List Table)
    → All (IsHeld entries) ts
    → All IsRanged (metas ts)
metas-IsRanged entries [] held = tt
metas-IsRanged entries (t ∷ ts) held = (
  ground (arith, held.0.ordered, slice_compare_swap (first_key t.meta) (last_key t.meta)),
  metas-IsRanged entries ts held.1,
)

module _ (entries : Table → List Entry) (oldest level : ℕ) (inputs : IndexRange)
    (source target : List Table) (lower : List (List TableMeta)) (merged : List Entry) where
  abbrev pub the_plan : CompactionPlan
  the_plan = plan_for oldest level inputs (metas source) (metas target)

  -- The outputs hold what the loop keeps of the merged versions of the inputs and the overlap, in
  -- tables that are apart and whose bounds are keys of these.
  pub record Compacts (outputs : List Table) : Type 0 where
    pub small : oldest < max_sequence_number
    pub sorted : IsSorted merged
    pub stored : All IsStored merged
    pub complete :
        (s : ℕ) (k : Bytes)
        → lookup s k merged
          ≡ lookup s k (
              all_entries entries (tables_in inputs source)
              ++ all_entries entries (tables_in the_plan.overlaps target))
    pub wrote : all_entries entries outputs ≡ survivors oldest (initial_state lower) merged
    pub held : All (IsHeld entries) outputs
    pub apart : IsApart (metas outputs)
    pub bounded : All (IsOutput oldest level inputs (metas source) (metas target)) (metas outputs)

  module _ (apart : IsApart (metas target)) (held : All (IsHeld entries) target)
      (outputs : List Table) (good : Compacts outputs) where
    abbrev overlaps : IndexRange
    overlaps = the_plan.overlaps

    replaced-metas :
        metas (replace_range overlaps outputs target)
        ≡ before overlaps (metas target) ++ (metas outputs ++ behind overlaps (metas target))
    replaced-metas =
        metas-append (take overlaps.begin target) (outputs ++ drop overlaps.end target)
        ∙ ap (λ xs. xs ++ metas (outputs ++ drop overlaps.end target))
            (metas-take overlaps.begin target)
        ∙ ap (λ ys. before overlaps (metas target) ++ ys)
            (metas-append outputs (drop overlaps.end target)
              ∙ ap (λ ys. metas outputs ++ ys) (metas-drop overlaps.end target))

    pub replaced-IsApart_tables : IsApart (metas (replace_range overlaps outputs target))
    replaced-IsApart_tables = subst IsApart (sym replaced-metas) (
        replaced-IsApart oldest level inputs (metas source) (metas target) apart
          (metas-IsRanged entries target held) (metas outputs) good.apart good.bounded)

    abbrev found_in : ℕ → Bytes → List Table → LookupResult
    found_in s k ts = lookup s k (all_entries entries ts)

    found_in-append :
        (s : ℕ) (k : Bytes) (xs ys : List Table)
        → found_in s k (xs ++ ys) ≡ first_answer (found_in s k xs) (found_in s k ys)
    found_in-append s k xs ys =
        ap (lookup s k) (all_entries-append entries xs ys)
        ∙ lookup-append s k (all_entries entries xs) (all_entries entries ys)

    found_in-parts :
        (s : ℕ) (k : Bytes) (xs ys zs : List Table)
        → found_in s k (xs ++ (ys ++ zs))
          ≡ first_answer (found_in s k xs) (first_answer (found_in s k ys) (found_in s k zs))
    found_in-parts s k xs ys zs =
        found_in-append s k xs (ys ++ zs)
        ∙ ap (first_answer (found_in s k xs)) (found_in-append s k ys zs)

    found_in-target :
        (s : ℕ) (k : Bytes)
        → found_in s k target
          ≡ first_answer (found_in s k (take overlaps.begin target)) (
              first_answer
                (found_in s k (tables_in overlaps target))
                (found_in s k (drop overlaps.end target)))
    found_in-target s k =
        ap (found_in s k) (
          sym (
            split-tables_in overlaps target
              (plan_for-bounds oldest level inputs (metas source) (metas target)).0))
        ∙ found_in-parts s k (take overlaps.begin target) (tables_in overlaps target)
            (drop overlaps.end target)

    -- A part of the levels that does not cover a key has no version of it.
    part-absent :
        (s : ℕ) (k : Bytes) (ts : List Table) (ms : List TableMeta)
        → All (IsHeld entries) ts
        → metas ts ≡ ms
        → level_covers k ms ≡ false
        → found_in s k ts ≡ LookupResult.absent
    part-absent s k ts ms all same h =
        lookup-uncovered entries s k ts all (ap (level_covers k) same ∙ h)

    -- Versions of a key that the inputs and the overlap do not have are left where they are.
    taken-split :
        (s : ℕ) (k : Bytes)
        → All (IsHeld entries) (tables_in inputs source)
        → ((found_in s k (take overlaps.begin target) ≡ LookupResult.absent)
            × (found_in s k (drop overlaps.end target) ≡ LookupResult.absent))
          ⊎ ((found_in s k (tables_in inputs source) ≡ LookupResult.absent)
              × (found_in s k (tables_in overlaps target) ≡ LookupResult.absent))
    taken-split s k sources =
        let ranged = metas-IsRanged entries target held in
        elim (Bool-cases (taken oldest level inputs (metas source) (metas target) k)) [
          | inl shared ↦
              let bounds =
                taken-bounds oldest level inputs (metas source) (metas target) apart ranged k
                  shared in
              inl (
                part-absent s k (take overlaps.begin target) (before overlaps (metas target))
                    (All-take (IsHeld entries) overlaps.begin target held)
                    (metas-take overlaps.begin target)
                    (EndBefore-uncovered (before overlaps (metas target)) k bounds.0),
                part-absent s k (drop overlaps.end target) (behind overlaps (metas target))
                    (All-drop (IsHeld entries) overlaps.end target held)
                    (metas-drop overlaps.end target)
                    (BeginBehind-uncovered (behind overlaps (metas target)) k bounds.1),
              )
          | inr alone ↦ inr (
            part-absent s k (tables_in inputs source) (in_range inputs (metas source)) sources
                (metas-tables_in inputs source) (ground (arith, alone)),
            part-absent s k (tables_in overlaps target) (in_range overlaps (metas target))
                (All-take (IsHeld entries) (overlaps.end - overlaps.begin)
                  (drop overlaps.begin target)
                  (All-drop (IsHeld entries) overlaps.begin target held))
                (metas-tables_in overlaps target) (ground (arith, alone)),
          )
        ]

    behind-absent :
        (s : ℕ) (k : Bytes)
        → (found_in s k (drop overlaps.end target) ≡ LookupResult.absent)
          ⊎ (found_in s k outputs ≡ LookupResult.absent)
    behind-absent s k =
        let ranged = metas-IsRanged entries target held in
        let rest = behind overlaps (metas target) in
        elim (Bool-cases (level_covers k (metas outputs))) [
          | inr bare ↦ inr (part-absent s k outputs (metas outputs) good.held refl bare)
          | inl covered ↦ inl (
              part-absent s k (drop overlaps.end target) rest
                (All-drop (IsHeld entries) overlaps.end target held)
                (metas-drop overlaps.end target)
                (BeginBehind-uncovered rest k (
                  BeginBehind-covered (metas outputs) rest k
                    (outputs-Ends oldest level inputs (metas source) (metas target) apart ranged
                      (metas outputs) good.bounded)
                    covered)))
        ]

    -- At the oldest snapshot or any later sequence, the output level reads as the inputs in front of
    -- the old level, whatever is below.
    pub replaced-value :
        (later : ℕ) (below : List Entry)
        → All (IsHeld entries) (tables_in inputs source)
        → AllOrdered lower
        → ((k : Bytes)
            → covers k lower ≡ false
            → lookup (oldest + later) k below ≡ LookupResult.absent)
        → (k : Bytes)
        → let s : ℕ = oldest + later in
          value_of
            (first_answer (found_in s k (replace_range overlaps outputs target)) (lookup s k below))
          ≡ value_of (
              first_answer
                (found_in s k (tables_in inputs source))
                (first_answer (found_in s k target) (lookup s k below)))
    replaced-value later below sources ordered promise k =
        let s : ℕ = oldest + later in
        let same =
          survivors-lookup oldest s lower merged below good.small (omega arith) good.sorted
            good.stored ordered promise k in
        let merged_parts =
          good.complete s k
          ∙ lookup-append s k (all_entries entries (tables_in inputs source))
              (all_entries entries (tables_in overlaps target)) in
        let first = taken-split s k sources in
        let last = behind-absent s k in
        rw
          (
            found_in-parts s k (take overlaps.begin target) outputs (drop overlaps.end target),
            found_in-target s k,
          )
          (answers_level0 (found_in s k (tables_in inputs source))
            (found_in s k (take overlaps.begin target)) (found_in s k (tables_in overlaps target))
            (found_in s k (drop overlaps.end target)) (found_in s k outputs) (lookup s k below)
            (elim first [ inl bare ↦ inl bare.0 | inr moved ↦ inr moved ])
            (elim first [
              | inl bare ↦ inl bare.1
              | inr moved ↦ elim last [
                | inl bare ↦ inl bare
                | inr empty ↦ inr (moved.0, moved.1, empty)
              ]
            ])
            (ap (λ es. read_through (lookup s k es) (lookup s k below)) good.wrote
              ∙ same
              ∙ ap (λ r. read_through r (lookup s k below)) merged_parts))
