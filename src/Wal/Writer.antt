-- ===== src/Wal/Writer.antt =====
-- engine/lsmtree/src/wal/wal_writer.cc: `WalWriter` over the bytes of its file.
use mizu.Base.{
  ℕ, ◌*◌, true, false, Option, none, some, List, [], ◌∷◌, ◌++◌, String, min, ltb, ◌==◌,
  if◌then◌else◌, length, take, drop,
}
use mizu.Base.Order.{Bytes}
use mizu.Status.{Status, success, invalid_argument, io_error, is_ok}
use mizu.Coding.{put_fixed32}
use mizu.Crc.{crc32c}
use mizu.Wal.Io.{IoOutcome, transferred, interrupted, failed, killed}

abbrev pub record_header_size : ℕ
record_header_size = 8

abbrev pub max_record_payload_size : ℕ
max_record_payload_size = 64 * 1024 * 1024

abbrev pub eio : ℕ
eio = 5

pub record WalWriter : Type 0 where
  -- what the file descriptor's file holds; it is opened with O_APPEND
  pub file : Bytes
  pub error : Status

-- What a call leaves: its status, or `none` if the process stopped inside it, the outcomes that no
-- call has used, and the writer.
pub record Called : Type 0 where
  pub status : Option Status
  pub script : List IoOutcome
  pub writer : WalWriter

-- `describe` stands for the text of an errno, with the path.
module _ (describe : String → ℕ → String) where
  unfoldable pub latch_io_error : String → ℕ → WalWriter → WalWriter
  latch_io_error operation error_number writer =
      if is_ok writer.error
      then record writer { error = io_error (describe operation error_number) }
      else writer

  abbrev latched : List IoOutcome → String → ℕ → WalWriter → Called
  latched script operation error_number writer =
      let after = latch_io_error operation error_number writer in
      record { status = some after.error; script = script; writer = after }

  unfoldable pub write_all : List IoOutcome → WalWriter → Bytes → Called
  write_all script writer [] = record { status = some success; script = script; writer = writer }
  write_all [] writer (b ∷ rest) = record { status = none; script = []; writer = writer }
  write_all (interrupted ∷ script) writer (b ∷ rest) = write_all script writer (b ∷ rest)
  write_all (failed error_number ∷ script) writer (b ∷ rest) =
      latched script "write WAL" error_number writer
  write_all (killed n ∷ script) writer (b ∷ rest) =
      let written = min n (length (b ∷ rest)) in
      record {
        status = none;
        script = [];
        writer = record writer { file = writer.file ++ take written (b ∷ rest) };
      }
  write_all (transferred n ∷ script) writer (b ∷ rest) =
      let written = min n (length (b ∷ rest)) in
      elim (written == 0) [
        | true ↦ latched script "write WAL" eio writer
        | false ↦
            write_all script (record writer { file = writer.file ++ take written (b ∷ rest) })
              (drop written (b ∷ rest))
      ]

  -- `if (!status.ok()) return status; return writeAll(payload);`
  unfoldable pub then_write : Called → Bytes → Called
  then_write called payload = elim called.status [
    | none ↦ called
    | some status ↦ if is_ok status then write_all called.script called.writer payload else called
  ]

  unfoldable pub append : List IoOutcome → WalWriter → Bytes → Called
  append script writer payload =
      if is_ok writer.error
      then (if length payload == 0
          then record {
            status = some (invalid_argument "WAL record payload must not be empty");
            script = script;
            writer = writer;
          }
          else if ltb max_record_payload_size (length payload)
          then record {
            status = some (invalid_argument "WAL record payload exceeds 64 MiB");
            script = script;
            writer = writer;
          }
          else then_write
              (write_all script writer
                (put_fixed32 (put_fixed32 [] (length payload)) (crc32c payload)))
              payload)
      else record { status = some writer.error; script = script; writer = writer }

  unfoldable pub sync_loop : List IoOutcome → WalWriter → Called
  sync_loop [] writer = record { status = none; script = []; writer = writer }
  sync_loop (killed n ∷ script) writer = record { status = none; script = []; writer = writer }
  sync_loop (interrupted ∷ script) writer = sync_loop script writer
  sync_loop (failed error_number ∷ script) writer = latched script "sync WAL" error_number writer
  sync_loop (transferred n ∷ script) writer = record {
    status = some success;
    script = script;
    writer = writer;
  }

  unfoldable pub sync : List IoOutcome → WalWriter → Called
  sync script writer =
      if is_ok writer.error
      then sync_loop script writer
      else record { status = some writer.error; script = script; writer = writer }
