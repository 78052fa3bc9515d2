-- ===== src/Tests/Picks.antt =====
-- The choice of a compaction on a small version.
use mizu.Base.{not, ◌&&◌, leb, ◌==◌, length, ◌≡◌, ℕ, [], ◌∷◌, some}
use mizu.InternalKey.{ValueType, encode_internal_key}
use mizu.Base.Order.{Bytes}
use mizu.Compaction.{TableMeta}
use mizu.Compaction.Pick.{
  Levels, default_options, pick_compaction, needs_compaction, level_at_limit,
}
use mizu.Compaction.Pick.Overlap.{
  Picks, pick_compaction-Picks, total_size, level_at_limit-total_size,
}

abbrev table : ℕ → Bytes → Bytes → TableMeta
table number smallest largest = record {
  number = number;
  file_size = 100;
  smallest_key = encode_internal_key smallest 5 ValueType.value;
  largest_key = encode_internal_key largest 5 ValueType.value;
}

-- Four tables on level 0, and one on level 1.
abbrev version : Levels
version = record {
  level0 =
      table 1 (1 ∷ []) (3 ∷ [])
      ∷ table 2 (2 ∷ []) (4 ∷ [])
      ∷ table 3 (2 ∷ []) (2 ∷ [])
      ∷ table 4 (3 ∷ []) (4 ∷ [])
      ∷ [];
  level1 = table 5 (3 ∷ []) (6 ∷ []) ∷ [];
  level2 = [];
}

pick_compaction-Picks_example :
    Picks version
      (pick_compaction (some version) 3 default_options)
      (needs_compaction version default_options)
pick_compaction-Picks_example =
    pick_compaction-Picks version 3 default_options (tt, tt) tt (tt, tt) tt

level_at_limit-total_size_example :
    level_at_limit version.level0 300
    ≡ not (length version.level0 == 0) && leb 300 (total_size version.level0)
level_at_limit-total_size_example = level_at_limit-total_size version.level0 300
