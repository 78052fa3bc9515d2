-- ===== src/Compaction/Loop.antt =====
-- The loop of `buildCompactionTables` over the merged input, and `BaseLevelChecker`.
use mizu.Base.{ℕ, Bool, true, false, not, ◌||◌, List, [], ◌∷◌, leb, ◌==◌, if◌then◌else◌, length}
use mizu.Base.Order.{Bytes, slice_eq, slice_lt}
use mizu.Status.{Result, ok, err, ◌>>=◌, ◌>>◌, require, or_error, corruption}
use mizu.InternalKey.{
  ValueType, ParsedInternalKey, max_sequence_number, parse_internal_key, internal_key_less,
}
use mizu.DbIterator.{Input}
use mizu.Compaction.Tables.{TableMeta, table_user_key}

-- The tables of a level from its cursor on: `index` only moves forward.
unfoldable pub advance_index : Bytes → List TableMeta → List TableMeta
advance_index user_key [] = []
advance_index user_key (table ∷ tables) =
    if slice_lt (table_user_key table.largest_key) user_key
    then advance_index user_key tables
    else table ∷ tables

-- `index < tables.size() && userKey(smallest) <= user_key`
unfoldable pub blocks : Bytes → List TableMeta → Bool
blocks user_key [] = false
blocks user_key (table ∷ tables) = not (slice_lt user_key (table_user_key table.smallest_key))

-- The answer, and the levels with their cursors behind the call.
unfoldable pub is_base_level_for_key : Bytes → List (List TableMeta) → Bool × List (List TableMeta)
is_base_level_for_key user_key [] = (true, [])
is_base_level_for_key user_key (tables ∷ levels) =
    let tables' = advance_index user_key tables in
    let rest = is_base_level_for_key user_key levels in
    if blocks user_key tables' then (false, tables' ∷ levels) else (rest.0, tables' ∷ rest.1)

-- The variables of the loop, but for `previous_key`.
pub record LoopState : Type 0 where
  pub current_user_key : Bytes
  pub last_sequence_for_key : ℕ
  pub base_level : List (List TableMeta)

-- `if (current_user_key != parsed.user_key)`
unfoldable pub enter_key : ParsedInternalKey → LoopState → LoopState
enter_key parsed state =
    if slice_eq state.current_user_key parsed.user_key then state else record state {
      current_user_key = parsed.user_key;
      last_sequence_for_key = max_sequence_number;
    }

-- Whether a version is dropped, and the state behind it.
unfoldable pub drop_version : ℕ → ParsedInternalKey → LoopState → Bool × LoopState
drop_version oldest_snapshot parsed state =
    let after = record state { last_sequence_for_key = parsed.sequence } in
    if leb state.last_sequence_for_key oldest_snapshot then (true, after) else elim parsed.type [
      | ValueType.value ↦ (false, after)
      | ValueType.deletion ↦
          if leb parsed.sequence oldest_snapshot
          then (let checked = is_base_level_for_key parsed.user_key state.base_level in
              (checked.0, record after { base_level = checked.1 }))
          else (false, after)
    ]

abbrev pub kept : Bool × LoopState → Bytes → Bytes → List (Bytes × Bytes) → List (Bytes × Bytes)
kept decision key value more = if decision.0 then more else (key, value) ∷ more

-- The records that the loop hands to the output writer, or the status that ends it.
unfoldable pub compaction_loop : ℕ → Bytes → LoopState → Input → Result (List (Bytes × Bytes))
compaction_loop oldest_snapshot previous_key state Input.end = ok []
compaction_loop oldest_snapshot previous_key state (Input.failed status) = err status
compaction_loop oldest_snapshot previous_key state (Input.entry key value rest) = do
  require (length previous_key == 0 || internal_key_less previous_key key)
      (corruption "compaction inputs contain duplicate internal keys")
  parsed ←
      or_error (parse_internal_key key)
        (corruption "compaction input contains invalid internal key")
  let decision = drop_version oldest_snapshot parsed (enter_key parsed state)
  more ← compaction_loop oldest_snapshot key decision.1 rest
  ok (kept decision key value more)

unfoldable pub initial_state : List (List TableMeta) → LoopState
initial_state lower_levels = record {
  current_user_key = [];
  last_sequence_for_key = max_sequence_number;
  base_level = lower_levels;
}
