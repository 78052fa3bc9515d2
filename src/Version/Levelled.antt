-- ===== src/Version/Levelled.antt =====
-- Versions whose tables are held and apart, and what reads through them find.
use mizu.Base.{
  ℕ, suc, ◌≡◌, refl, ap, ◌∙◌, Option, List, [], ◌∷◌, ◌++◌, ◌==◌, if◌then◌else◌, length, take, drop,
  All, All-take, All-drop,
}
use mizu.Base.Order.{Bytes}
use mizu.Status.{Result, ok, err}
use mizu.Entries.{Entry, LookupResult, lookup, value_of}
use mizu.Compaction.{TableMeta}
use mizu.Compaction.Pick.{IndexRange, Levels}
use mizu.Manifest.Checked.{IsApart}
use mizu.Version.{Table, Version, get, replace_range}
use mizu.Version.Lookup.{metas, first_answer, lookup-append, IsHeld, all_entries, get-lookup}
use mizu.Version.Apart.{All-append}

-- The value that a read delivers: none for a key without a version and for a deleted one.
abbrev pub visible : Result LookupResult → Result (Option Bytes)
visible (ok result) = ok (value_of result)
visible (err status) = err status

abbrev pub levels_of : Version → Levels
levels_of version = record {
  level0 = metas version.level0;
  level1 = metas version.level1;
  level2 = metas version.level2;
}

-- `input_version->level(plan.input_level)`, `level(plan.outputLevel())` and the levels below that one.
abbrev pub source_of : ℕ → Version → List Table
source_of input_level version = if input_level == 0 then version.level0 else version.level1

abbrev pub target_of : ℕ → Version → List Table
target_of input_level version = if input_level == 0 then version.level1 else version.level2

abbrev pub lower_of : ℕ → Version → List (List TableMeta)
lower_of input_level version = if input_level == 0 then metas version.level2 ∷ [] else []

pub drop-length {ℓ} : {A : Type ℓ} (xs : List A) → drop (length xs) xs ≡ []
drop-length [] = refl
drop-length (x ∷ xs) = drop-length xs

pub length-metas : (ts : List Table) → length (metas ts) ≡ length ts
length-metas [] = refl
length-metas (t ∷ ts) = ap suc (length-metas ts)

module _ (entries : Table → List Entry) where
  -- The readers find what their tables hold, in their key ranges, and levels 1 and 2 are apart.
  pub record IsLevelled (version : Version) : Type 0 where
    pub held0 : All (IsHeld entries) version.level0
    pub held1 : All (IsHeld entries) version.level1
    pub held2 : All (IsHeld entries) version.level2
    pub apart1 : IsApart (metas version.level1)
    pub apart2 : IsApart (metas version.level2)

  abbrev pub found : ℕ → Bytes → List Table → LookupResult
  found s k ts = lookup s k (all_entries entries ts)

  pub get-found :
      (k : Bytes) (s : ℕ) (version : Version)
      → IsLevelled version
      → get k s version
        ≡ ok (
            first_answer
              (found s k version.level0)
              (first_answer (found s k version.level1) (found s k version.level2)))
  get-found k s version good =
      get-lookup entries k s version good.held0 good.held1 good.held2 good.apart1 good.apart2
      ∙ ap ok (
          lookup-append s k (all_entries entries version.level0)
            (all_entries entries version.level1 ++ all_entries entries version.level2)
          ∙ ap (first_answer (found s k version.level0)) (
              lookup-append s k (all_entries entries version.level1)
                (all_entries entries version.level2)))

  pub All-replaced :
      (range : IndexRange) (outputs ts : List Table)
      → All (IsHeld entries) outputs
      → All (IsHeld entries) ts
      → All (IsHeld entries) (replace_range range outputs ts)
  All-replaced range outputs ts new old =
      All-append (IsHeld entries) (take range.begin ts) (outputs ++ drop range.end ts)
        (All-take (IsHeld entries) range.begin ts old)
        (All-append (IsHeld entries) outputs (drop range.end ts) new
          (All-drop (IsHeld entries) range.end ts old))
