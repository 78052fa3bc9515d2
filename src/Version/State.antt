-- ===== src/Version/State.antt =====
-- `Version::Table` and the levels of a `Version`.
use mizu.Base.{ℕ, List}
use mizu.Base.Order.{Bytes}
use mizu.Status.{Result}
use mizu.Entries.{LookupResult}
use mizu.Compaction.{TableMeta}

-- A table with its reader, of which a version uses `SSTableReader::get` alone.
pub record Table : Type 0 where
  pub meta : TableMeta
  pub get : Bytes → ℕ → Result LookupResult

pub record Version : Type 0 where
  pub level0 : List Table
  pub level1 : List Table
  pub level2 : List Table
