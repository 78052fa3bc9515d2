-- ===== src/Version.antt =====
-- engine/lsmtree/src/db/version.{h,cc}: the tables of each level, reads through them, and the two
-- changes of a version.
mod State
pub mod Lookup
pub mod Apart
pub mod Change
pub mod Exclusive
pub mod Replaced
pub mod Levelled
pub mod FromLevel0
pub mod FromLevel1
pub mod OutputWriter
pub mod Outputs
pub mod Written
pub mod Built
pub mod Compacted
pub use State.{Table, Version}
use mizu.Base.{ℕ, Bool, true, false, List, [], ◌∷◌, ◌++◌, ◌==◌, if◌then◌else◌, take, drop}
use mizu.Base.Order.{Bytes, slice_lt}
use mizu.Status.{Result, ok, err}
use mizu.Entries.{LookupResult}
use mizu.Compaction.{TableMeta, table_user_key}
use mizu.Compaction.Pick.{IndexRange}

-- `if (!status.ok() || result != LookupResult::kAbsent) return status;` behind a read, and what follows.
abbrev pub or_below : Result LookupResult → Result LookupResult → Result LookupResult
or_below (err status) below = err status
or_below (ok LookupResult.absent) below = below
or_below (ok LookupResult.deleted) below = ok LookupResult.deleted
or_below (ok (LookupResult.found value)) below = ok (LookupResult.found value)

-- The loop over level 0, from new tables to old ones.
unfoldable pub get_level0 : Bytes → ℕ → List Table → Result LookupResult
get_level0 user_key visible_sequence [] = ok LookupResult.absent
get_level0 user_key visible_sequence (table ∷ tables) =
    or_below (table.get user_key visible_sequence) (get_level0 user_key visible_sequence tables)

-- `std::lower_bound` by the largest user key: the tables from the candidate on.
unfoldable pub from_candidate : Bytes → List Table → List Table
from_candidate user_key [] = []
from_candidate user_key (table ∷ tables) =
    if slice_lt (table_user_key table.meta.largest_key) user_key
    then from_candidate user_key tables
    else table ∷ tables

-- One round of the loop over the other levels.
unfoldable pub get_candidate : Bytes → ℕ → List Table → Result LookupResult
get_candidate user_key visible_sequence [] = ok LookupResult.absent
get_candidate user_key visible_sequence (candidate ∷ tables) =
    if slice_lt user_key (table_user_key candidate.meta.smallest_key)
    then ok LookupResult.absent
    else candidate.get user_key visible_sequence

unfoldable pub get : Bytes → ℕ → Version → Result LookupResult
get user_key visible_sequence version =
    or_below (get_level0 user_key visible_sequence version.level0) (
      or_below (get_candidate user_key visible_sequence (from_candidate user_key version.level1)) (
        or_below (get_candidate user_key visible_sequence (from_candidate user_key version.level2))
          (ok LookupResult.absent)))

unfoldable pub with_level0_table : Table → Version → Version
with_level0_table table version = record version { level0 = table ∷ version.level0 }

-- `tables.erase(tables.begin() + range.begin, tables.begin() + range.end)`
abbrev pub erase_range : IndexRange → List Table → List Table
erase_range range tables = take range.begin tables ++ drop range.end tables

-- The erased range of the target level, and the outputs in its place.
abbrev pub replace_range : IndexRange → List Table → List Table → List Table
replace_range range outputs tables = take range.begin tables ++ (outputs ++ drop range.end tables)

-- The code asserts that the input level has a level below it, and that the ranges are there.
unfoldable pub with_compaction : ℕ → IndexRange → IndexRange → List Table → Version → Version
with_compaction input_level inputs overlaps outputs version =
    if input_level == 0
    then record version {
      level0 = erase_range inputs version.level0;
      level1 = replace_range overlaps outputs version.level1;
    }
    else record version {
      level1 = erase_range inputs version.level1;
      level2 = replace_range overlaps outputs version.level2;
    }
