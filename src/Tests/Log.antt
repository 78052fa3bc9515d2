-- ===== src/Tests/Log.antt =====
-- wal/wal_writer.cc and wal/wal_reader.cc at concrete inputs.
use mizu.Base.{ℕ, ◌≡◌, refl, ◌⊎◌, some, List, [], ◌∷◌, ◌++◌, String, arith}
use mizu.Base.Order.{Bytes}
use mizu.Status.{success}
use mizu.Wal.{IoOutcome, transferred, interrupted, failed, killed}
use mizu.Wal.Writer.{WalWriter, append, write_all, then_write}
use mizu.Wal.Reader.{WalReader, read_next}
use mizu.Wal.Format.{header, log_bytes, scan}
use mizu.Wal.Appends.{Wrote, append-Wrote}
use mizu.Wal.Reads.{Answers, Disturbed, read_next-scan}
use mizu.Wal.Progress.{read_next-Answers}
use mizu.Coding.{put_fixed32, encode_fixed32, get_fixed32, decode_fixed32}
use mizu.Crc.{crc32c}
use mizu.Wal.Recovery.{Run, run_appends, recovered, scan_all, recovered-run_appends, log_size}

abbrev describe : String → ℕ → String
describe operation error_number = operation

abbrev fresh : WalWriter
fresh = record { file = []; error = success }

-- A short write, a signal, and an errno in the middle of the second entry.
abbrev script : List IoOutcome
script =
    transferred 3 ∷ interrupted ∷ transferred 100 ∷ transferred 2 ∷ transferred 5 ∷ failed 28 ∷ []

append-Wrote_example :
    Wrote [] (header (7 ∷ 8 ∷ []) ++ 7 ∷ 8 ∷ []) (append describe script fresh (7 ∷ 8 ∷ []))
unfolding success
append-Wrote_example =
    append-Wrote describe script fresh (7 ∷ 8 ∷ []) refl
      (record { nonempty = omega arith; fits = omega arith })

abbrev after_run : Run
after_run = run_appends describe script fresh [] ((7 ∷ 8 ∷ []) ∷ (9 ∷ []) ∷ (1 ∷ []) ∷ [])

recovered-run_appends_example :
    (recovered after_run.writer.file
      ≡ some (after_run.acknowledged, log_size after_run.acknowledged))
    ⊎ ((entry : Bytes) × (after_run.in_flight ≡ some entry)
        × (recovered after_run.writer.file
            ≡ some (
              after_run.acknowledged ++ entry ∷ [],
              log_size (after_run.acknowledged ++ entry ∷ []),
            )))
unfolding success
recovered-run_appends_example =
    recovered-run_appends describe script fresh [] ((7 ∷ 8 ∷ []) ∷ (9 ∷ []) ∷ (1 ∷ []) ∷ []) tt refl
      refl

-- The process is killed inside the last write of an entry, behind its last byte: the entry is recovered
-- although no call has acknowledged it.
abbrev killed_run : Run
killed_run =
    run_appends describe (transferred 100 ∷ killed 100 ∷ []) fresh [] ((7 ∷ []) ∷ (8 ∷ []) ∷ [])

killed_acknowledged : killed_run.acknowledged ≡ []
unfolding run_appends append write_all success then_write put_fixed32 encode_fixed32
killed_acknowledged = refl

killed_recovered : recovered killed_run.writer.file ≡ some ((7 ∷ []) ∷ [], log_size ((7 ∷ []) ∷ []))
unfolding run_appends append write_all success then_write put_fixed32 encode_fixed32 scan_all scan
    get_fixed32 decode_fixed32 crc32c
killed_recovered = refl

abbrev at_offset : String → ℕ → String
at_offset message offset = message

abbrev reader : WalReader
reader = record { unread = log_bytes ((7 ∷ 8 ∷ []) ∷ []) []; valid_bytes = 0 }

read_next-scan_example :
    Answers at_offset
      (scan reader.unread)
      reader
      (read_next (λ n. "") at_offset (transferred 4 ∷ transferred 9 ∷ transferred 9 ∷ []) reader)
    ⊎ Disturbed
        (λ n. "")
        at_offset
        (read_next (λ n. "") at_offset (transferred 4 ∷ transferred 9 ∷ transferred 9 ∷ []) reader)
read_next-scan_example =
    read_next-scan (λ n. "") at_offset (transferred 4 ∷ transferred 9 ∷ transferred 9 ∷ []) reader

read_next-Answers_example : Answers at_offset (scan reader.unread) reader (
    read_next
      (λ n. "")
      at_offset
      (transferred 4
        ∷ transferred 9
        ∷ transferred 9
        ∷ transferred 9
        ∷ transferred 9
        ∷ transferred 9
        ∷ transferred 9
        ∷ transferred 9
        ∷ transferred 9
        ∷ transferred 9
        ∷ transferred 9
        ∷ transferred 9
        ∷ [])
      reader)
unfolding encode_fixed32
read_next-Answers_example =
    read_next-Answers (λ n. "") at_offset
      (transferred 4
        ∷ transferred 9
        ∷ transferred 9
        ∷ transferred 9
        ∷ transferred 9
        ∷ transferred 9
        ∷ transferred 9
        ∷ transferred 9
        ∷ transferred 9
        ∷ transferred 9
        ∷ transferred 9
        ∷ transferred 9
        ∷ [])
      reader (omega arith) (omega arith)
