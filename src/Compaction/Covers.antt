-- ===== src/Compaction/Covers.antt =====
-- `BaseLevelChecker` answers for keys in ascending order whether a table of a lower level can hold
-- the key.
use mizu.Base.{
  ◌≡◌, refl, ap, Bool, true, false, not, ◌&&◌, ◌||◌, List, [], ◌∷◌, All, arith, Bool-cases, inl,
  inr,
}
use mizu.Base.Order.{
  Bytes, slice_lt, is_lt, is_eq, slice_compare_refl, slice_compare-eq, slice_compare_swap,
  slice_compare_trans,
}
use mizu.Entries.Order.{slice_le, slice_lt_of_le}
use mizu.Compaction.Tables.{TableMeta, table_user_key}
use mizu.Compaction.Loop.{advance_index, blocks, is_base_level_for_key}

-- The range of a table holds the key.
abbrev pub holds : Bytes → TableMeta → Bool
holds k t =
    not (slice_lt k (table_user_key t.smallest_key))
    && not (slice_lt (table_user_key t.largest_key) k)

abbrev pub level_covers : Bytes → List TableMeta → Bool
level_covers k [] = false
level_covers k (t ∷ ts) = holds k t || level_covers k ts

-- Some table of some level can hold the key.
abbrev pub covers : Bytes → List (List TableMeta) → Bool
covers k [] = false
covers k (ts ∷ levels) = level_covers k ts || covers k levels

-- The tables of a level begin in ascending order, as `validateState` demands.
abbrev pub IsOrdered : List TableMeta → Type 0
IsOrdered [] = Unit {0}
IsOrdered (t ∷ ts) =
    All (λ x. slice_lt (table_user_key x.smallest_key) (table_user_key t.smallest_key) ≡ false) ts
    × IsOrdered ts

-- Advancing the cursor for one key changes nothing for that key and those behind it.
advance-covers :
    (u k : Bytes) (ts : List TableMeta)
    → slice_le u k ≡ true
    → level_covers k (advance_index u ts) ≡ level_covers k ts
unfolding advance_index
advance-covers u k [] h = refl
advance-covers u k (t ∷ ts) h =
    ground (arith, advance-covers u k ts h, slice_lt_of_le (table_user_key t.largest_key) u k)

advance-IsOrdered :
    (u : Bytes) (ts : List TableMeta) → IsOrdered ts → IsOrdered (advance_index u ts)
unfolding advance_index
advance-IsOrdered u [] h = tt
advance-IsOrdered u (t ∷ ts) h = ground (arith, advance-IsOrdered u ts h.1)

pub none_holds :
    (k b : Bytes) (ts : List TableMeta)
    → slice_lt k b ≡ true
    → All (λ x. slice_lt (table_user_key x.smallest_key) b ≡ false) ts
    → level_covers k ts ≡ false
none_holds k b [] h all = refl
none_holds k b (t ∷ ts) h all = ground (
  arith,
  none_holds k b ts h all.1,
  all.0,
  slice_compare_trans k b (table_user_key t.smallest_key),
  slice_compare_swap b (table_user_key t.smallest_key),
  slice_compare-eq b (table_user_key t.smallest_key),
)

-- If the first table left does not block the key, none does.
blocks-false :
    (k : Bytes) (ts : List TableMeta)
    → IsOrdered ts
    → blocks k ts ≡ false
    → level_covers k ts ≡ false
unfolding blocks
blocks-false k [] ordered h = refl
blocks-false k (t ∷ ts) ordered h =
    ground (arith, none_holds k (table_user_key t.smallest_key) ts (ground arith) ordered.0)

-- Every level's tables are in order.
abbrev pub AllOrdered : List (List TableMeta) → Type 0
AllOrdered levels = All IsOrdered levels

pub is_base_level_for_key-covers :
    (u k : Bytes) (levels : List (List TableMeta))
    → slice_le u k ≡ true
    → covers k ((is_base_level_for_key u levels).1) ≡ covers k levels
unfolding is_base_level_for_key
is_base_level_for_key-covers u k [] h = refl
is_base_level_for_key-covers u k (ts ∷ levels) h =
    ground (arith, is_base_level_for_key-covers u k levels h, advance-covers u k ts h)

pub is_base_level_for_key-AllOrdered :
    (u : Bytes) (levels : List (List TableMeta))
    → AllOrdered levels
    → AllOrdered ((is_base_level_for_key u levels).1)
unfolding is_base_level_for_key
is_base_level_for_key-AllOrdered u [] h = tt
is_base_level_for_key-AllOrdered u (ts ∷ levels) h =
    let rest = is_base_level_for_key-AllOrdered u levels h.1 in
    let first = advance-IsOrdered u ts h.0 in
    elim (Bool-cases (blocks u (advance_index u ts))) [
      | inl blocked ↦ rw blocked (first, h.1)
      | inr free ↦ rw free (first, rest)
    ]

-- If the checker calls a level the base level for a key, no lower table can hold the key.
pub is_base_level_for_key-true :
    (u : Bytes) (levels : List (List TableMeta))
    → AllOrdered levels
    → (is_base_level_for_key u levels).0 ≡ true
    → covers u levels ≡ false
unfolding is_base_level_for_key
is_base_level_for_key-true u [] h k = refl
is_base_level_for_key-true u (ts ∷ levels) h k = ground (
  arith,
  is_base_level_for_key-true u levels h.1,
  advance-covers u u ts (ap (λ o. is_lt o || is_eq o) (slice_compare_refl u)),
  blocks-false u (advance_index u ts) (advance-IsOrdered u ts h.0),
)
