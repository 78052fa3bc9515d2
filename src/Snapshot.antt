-- ===== src/Snapshot.antt =====
-- engine/lsmtree/src/db/snapshot.{h,cc}: how many snapshots are alive at each sequence. The mutex makes
-- each call one step; the `std::map` is the list of its entries in ascending order.
pub mod Oldest
use mizu.Base.{ℕ, ◌+◌, ◌-◌, List, [], ◌∷◌, ltb, ◌==◌, if◌then◌else◌}

-- `counts_`
abbrev pub Counts : Type 0
Counts = List (ℕ × ℕ)

unfoldable pub add : ℕ → Counts → Counts
add sequence [] = (sequence, 1) ∷ []
add sequence ((at, count) ∷ counts) =
    if ltb sequence at
    then (sequence, 1) ∷ (at, count) ∷ counts
    else if sequence == at
    then (at, count + 1) ∷ counts
    else (at, count) ∷ add sequence counts

-- The code asserts that the sequence has an entry, and that its count is positive.
unfoldable pub remove : ℕ → Counts → Counts
remove sequence [] = []
remove sequence ((at, count) ∷ counts) =
    if sequence == at
    then (if count - 1 == 0 then counts else (at, count - 1) ∷ counts)
    else (at, count) ∷ remove sequence counts

unfoldable pub oldest : ℕ → Counts → ℕ
oldest fallback [] = fallback
oldest fallback ((at, count) ∷ counts) = at
