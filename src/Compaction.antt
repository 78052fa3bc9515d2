-- ===== src/Compaction.antt =====
-- engine/lsmtree/src/db/compaction.cc: how a compaction picks its tables, and which versions of the
-- merged input it keeps.
mod Tables
pub mod Pick
pub mod Loop
pub mod Covers
pub mod Survivors
pub mod Keeps
pub mod Runs
pub use Tables.{TableMeta}
unfoldable pub use Tables.{table_user_key}
