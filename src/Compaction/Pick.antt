-- ===== src/Compaction/Pick.antt =====
-- `needsCompaction` and `pickCompaction`: the tables that the next compaction replaces.
mod Plan
pub mod Overlap
use mizu.Base.{
  ℕ, suc, ◌+◌, ◌-◌, ◌*◌, Bool, true, false, ◌||◌, Option, none, some, List, [], ◌∷◌, leb, ◌==◌,
  if◌then◌else◌, length, take, drop,
}
use mizu.Base.Order.{Bytes, slice_lt}
use mizu.Compaction.Tables.{TableMeta, table_user_key}
pub use Plan.{IndexRange, Levels, CompactionOptions, CompactionPlan}

abbrev pub level0_compaction_trigger : ℕ
level0_compaction_trigger = 4

-- `CompactionOptions` as they are by default.
abbrev pub default_options : CompactionOptions
default_options = record { level1_bytes = 10 * 1024 * 1024; output_bytes = 2 * 1024 * 1024 }

unfoldable pub at_limit_loop : ℕ → List TableMeta → Bool
at_limit_loop remaining [] = false
at_limit_loop remaining (table ∷ tables) =
    if leb remaining table.file_size
    then true
    else at_limit_loop (remaining - table.file_size) tables

unfoldable pub level_at_limit : List TableMeta → ℕ → Bool
level_at_limit [] limit = false
level_at_limit (table ∷ tables) limit =
    if limit == 0 then true else at_limit_loop limit (table ∷ tables)

unfoldable pub needs_compaction : Levels → CompactionOptions → Bool
needs_compaction version options =
    leb level0_compaction_trigger (length version.level0)
    || level_at_limit version.level1 options.level1_bytes

-- The tables of an index range.
abbrev pub in_range : IndexRange → List TableMeta → List TableMeta
in_range range tables = take (range.end - range.begin) (drop range.begin tables)

unfoldable pub user_range_loop : Bytes → Bytes → List TableMeta → Bytes × Bytes
user_range_loop smallest largest [] = (smallest, largest)
user_range_loop smallest largest (table ∷ tables) =
    let table_smallest = table_user_key table.smallest_key in
    let table_largest = table_user_key table.largest_key in
    user_range_loop (if slice_lt table_smallest smallest then table_smallest else smallest)
      (if slice_lt largest table_largest then table_largest else largest) tables

-- The code asserts that the range is not empty.
unfoldable pub user_range : List TableMeta → Bytes × Bytes
user_range [] = ([], [])
user_range (table ∷ tables) =
    user_range_loop (table_user_key table.smallest_key) (table_user_key table.largest_key) tables

-- `std::lower_bound` by the largest user key, on tables whose largest user keys do not descend.
unfoldable pub lower_bound : Bytes → List TableMeta → ℕ
lower_bound smallest [] = 0
lower_bound smallest (table ∷ tables) =
    if slice_lt (table_user_key table.largest_key) smallest
    then suc (lower_bound smallest tables)
    else 0

-- `std::find_if` for a table behind the largest user key.
unfoldable pub find_behind : Bytes → List TableMeta → ℕ
find_behind largest [] = 0
find_behind largest (table ∷ tables) =
    if slice_lt largest (table_user_key table.smallest_key)
    then 0
    else suc (find_behind largest tables)

unfoldable pub overlapping_range : List TableMeta → Bytes → Bytes → IndexRange
overlapping_range tables smallest largest =
    let first = lower_bound smallest tables in
    record { begin = first; end = first + find_behind largest (drop first tables) }

-- The plan for some tables of a level and what they overlap of the next one.
unfoldable pub plan_for : ℕ → ℕ → IndexRange → List TableMeta → List TableMeta → CompactionPlan
plan_for oldest_snapshot input_level inputs source target =
    let range = user_range (in_range inputs source) in
    record {
      oldest_snapshot = oldest_snapshot;
      input_level = input_level;
      inputs = inputs;
      overlaps = overlapping_range target range.0 range.1;
    }

-- `none` in place of the version stands for a null pointer.
unfoldable pub pick_compaction : Option Levels → ℕ → CompactionOptions → Option CompactionPlan
pick_compaction none oldest_snapshot options = none
pick_compaction (some version) oldest_snapshot options =
    if leb level0_compaction_trigger (length version.level0)
    then some (
        plan_for oldest_snapshot 0 (record { begin = 0; end = length version.level0 })
          version.level0 version.level1)
    else if level_at_limit version.level1 options.level1_bytes
    then some
        (plan_for oldest_snapshot 1 (record { begin = 0; end = 1 }) version.level1 version.level2)
    else none
