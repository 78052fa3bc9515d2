-- ===== src/Version/OutputWriter.antt =====
-- engine/lsmtree/src/db/compaction.cc: `CompactionOutputWriter`, which cuts the records that a
-- compaction keeps into output tables. The file number and the files of an output, and the builder of
-- its table, are parameters: the status of opening the output with an ordinal number, the status of
-- adding a record behind others, the table of an output once its builder is finished, its file renamed
-- and its reader opened, and the builder's estimate of the size of its file.
use mizu.Base.{ℕ, suc, Bool, not, ◌&&◌, ◌||◌, List, [], ◌∷◌, ◌++◌, leb, ◌==◌, if◌then◌else◌, length}
use mizu.Base.Order.{Bytes, slice_eq}
use mizu.Status.{Status, Result, ok, ◌>>=◌, ◌>>◌, require, is_ok}
use mizu.Compaction.{table_user_key}
use mizu.Version.State.{Table}

-- `builder` is the list of the records of the open builder, and empty if none is open: a builder is
-- opened only to add a record at once. `opened` counts the outputs that were finished.
pub record OutputWriter : Type 0 where
  pub builder : List (Bytes × Bytes)
  pub last_user_key : Bytes
  pub opened : ℕ

abbrev pub has_builder : OutputWriter → Bool
has_builder writer = not (length writer.builder == 0)

abbrev pub fresh_writer : OutputWriter
fresh_writer = record { builder = []; last_user_key = []; opened = 0 }

module _ (open_output : ℕ → Status) (builder_add : List (Bytes × Bytes) → Bytes × Bytes → Status)
    (finish_builder : ℕ → List (Bytes × Bytes) → Result Table)
    (estimated_file_size : List (Bytes × Bytes) → ℕ) (target_file_size : ℕ) where
  -- The table that is pushed to `completed_outputs_`, and the writer behind that.
  unfoldable pub finish_output : OutputWriter → Result (Table × OutputWriter)
  finish_output writer = do
    completed ← finish_builder writer.opened writer.builder
    ok (completed, record { builder = []; last_user_key = []; opened = suc writer.opened })

  -- The rest of `add` behind the first test.
  unfoldable pub add_record : OutputWriter → Bytes → Bytes → Bytes → Result OutputWriter
  add_record writer internal_key user_key value = do
    require (has_builder writer || is_ok (open_output writer.opened)) (open_output writer.opened)
    let added = builder_add writer.builder (internal_key, value)
    require (is_ok added) added
    ok (record writer {
      builder = writer.builder ++ (internal_key, value) ∷ [];
      last_user_key = user_key;
    })

  -- The output that `add` completes, if any, and the writer behind it.
  unfoldable pub add : OutputWriter → Bytes → Bytes → Bytes → Result (List Table × OutputWriter)
  add writer internal_key user_key value =
      if has_builder writer
        && not (slice_eq writer.last_user_key user_key)
        && leb target_file_size (estimated_file_size writer.builder)
      then (finish_output writer >>= λ done.
          add_record done.1 internal_key user_key value >>= λ after. ok (done.0 ∷ [], after))
      else (add_record writer internal_key user_key value >>= λ after. ok ([], after))

  unfoldable pub finish : OutputWriter → Result (List Table)
  finish writer =
      if has_builder writer then (finish_output writer >>= λ done. ok (done.0 ∷ [])) else ok []

  -- The calls of `add` that the loop of `buildCompactionTables` makes, and `finish`. A status that is
  -- not ok ends them, and no output is left.
  unfoldable pub write_outputs : OutputWriter → List (Bytes × Bytes) → Result (List Table)
  write_outputs writer [] = finish writer
  write_outputs writer ((key, value) ∷ records) = do
    step ← add writer key (table_user_key key) value
    more ← write_outputs step.1 records
    ok (step.0 ++ more)
