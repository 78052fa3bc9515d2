-- ===== src/FileName/State.antt =====
-- `NumberedFileType`, and a path as its directory and its `filename()`.
use mizu.Base.Order.{Bytes}

pub data NumberedFileType : Type 0 where
  wal sstable sstable_temporary : NumberedFileType

pub record FilePath : Type 0 where
  pub directory : Bytes
  pub filename : Bytes
