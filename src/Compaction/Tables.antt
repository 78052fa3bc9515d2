-- ===== src/Compaction/Tables.antt =====
-- `TableMeta` of db/manifest.h, and `userKey` of db/compaction.cc and db/version.cc.
use mizu.Base.{ℕ, Option, none, some, []}
use mizu.Base.Order.{Bytes}
use mizu.InternalKey.{ParsedInternalKey, parse_internal_key}

pub record TableMeta : Type 0 where
  pub number : ℕ
  pub file_size : ℕ
  pub smallest_key : Bytes
  pub largest_key : Bytes

abbrev user_key_or_empty : Option ParsedInternalKey → Bytes
user_key_or_empty none = []
user_key_or_empty (some parsed) = parsed.user_key

-- The code asserts that the key parses.
unfoldable pub table_user_key : Bytes → Bytes
table_user_key internal_key = user_key_or_empty (parse_internal_key internal_key)
