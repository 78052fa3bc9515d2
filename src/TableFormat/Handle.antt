-- ===== src/TableFormat/Handle.antt =====
-- `BlockHandle` of table/table_format.h.
use mizu.Base.{ℕ}

pub record BlockHandle : Type 0 where
  pub offset : ℕ
  pub size : ℕ
