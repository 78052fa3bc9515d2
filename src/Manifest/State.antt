-- ===== src/Manifest/State.antt =====
-- `ManifestState` of db/manifest.h.
use mizu.Base.{ℕ}
use mizu.Compaction.Pick.{Levels}

pub record ManifestState : Type 0 where
  pub flushed_sequence : ℕ
  pub oldest_wal_number : ℕ
  pub levels : Levels
