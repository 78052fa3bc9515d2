-- ===== src/Compaction/Pick/Plan.antt =====
-- `IndexRange` of db/level.h, and the options and the plan of db/compaction.h.
use mizu.Base.{ℕ, List}
use mizu.Compaction.Tables.{TableMeta}

pub record IndexRange : Type 0 where
  pub begin : ℕ
  pub end : ℕ

-- The tables of a version, level by level (`kNumLevels` is 3).
pub record Levels : Type 0 where
  pub level0 : List TableMeta
  pub level1 : List TableMeta
  pub level2 : List TableMeta

pub record CompactionOptions : Type 0 where
  pub level1_bytes : ℕ
  pub output_bytes : ℕ

-- Without the version itself, which the model hands on beside the plan.
pub record CompactionPlan : Type 0 where
  pub oldest_snapshot : ℕ
  pub input_level : ℕ
  pub inputs : IndexRange
  pub overlaps : IndexRange
