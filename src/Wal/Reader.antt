-- ===== src/Wal/Reader.antt =====
-- engine/lsmtree/src/wal/wal_reader.cc: `WalReader` over the bytes that are still unread.
use mizu.Base.{
  ℕ, zero, suc, ◌+◌, ◌-◌, true, false, Option, none, some, List, [], ◌∷◌, ◌++◌, String, min, ltb,
  ◌==◌, if◌then◌else◌, length, take, drop,
}
use mizu.Base.Order.{Bytes}
use mizu.Status.{Status, corruption, io_error}
use mizu.Coding.{get_fixed32}
use mizu.Crc.{crc32c}
use mizu.Wal.Io.{IoOutcome, transferred, interrupted, failed, killed}
use mizu.Wal.Writer.{record_header_size, max_record_payload_size}

pub record WalReader : Type 0 where
  pub unread : Bytes
  pub valid_bytes : ℕ

-- How a call of `readUpTo` ends: with the bytes that it read, with an errno, or not at all.
pub data ReadEnd : Type 0 where
  read : Bytes → ReadEnd
  io_failed : ℕ → ReadEnd
  stopped : ReadEnd

pub record ReadCall : Type 0 where
  pub ended : ReadEnd
  pub script : List IoOutcome
  pub unread : Bytes

-- `::read` returns 0 at the end of the file only: an outcome `transferred n` offers `n + 1` bytes.
unfoldable pub read_up_to : List IoOutcome → ℕ → Bytes → Bytes → ReadCall
read_up_to script zero total unread = record {
  ended = ReadEnd.read total;
  script = script;
  unread = unread;
}
read_up_to [] (suc size) total unread = record {
  ended = ReadEnd.stopped;
  script = [];
  unread = unread;
}
read_up_to (killed n ∷ script) (suc size) total unread = record {
  ended = ReadEnd.stopped;
  script = [];
  unread = unread;
}
read_up_to (interrupted ∷ script) (suc size) total unread =
    read_up_to script (suc size) total unread
read_up_to (failed error_number ∷ script) (suc size) total unread = record {
  ended = ReadEnd.io_failed error_number;
  script = script;
  unread = unread;
}
read_up_to (transferred n ∷ script) (suc size) total unread =
    let count = min (suc n) (min (suc size) (length unread)) in
    elim (count == 0) [
      | true ↦ record { ended = ReadEnd.read total; script = script; unread = unread }
      | false ↦
          read_up_to script (suc size - count) (total ++ take count unread) (drop count unread)
    ]

-- `WalReadResult` with the payload, a failed status, or no return at all.
pub data ReadResult : Type 0 where
  end : ReadResult
  entry : Bytes → ReadResult
  error : Status → ReadResult
  stopped : ReadResult

pub record ReadNext : Type 0 where
  pub result : ReadResult
  pub script : List IoOutcome
  pub reader : WalReader

-- The two fields of a whole header, or `none` where a `getFixed32` fails.
abbrev pub header_fields : Bytes → Option (ℕ × ℕ)
header_fields header = elim (get_fixed32 header) [
  | none ↦ none
  | some (payload_length, rest) ↦ elim (get_fixed32 rest) [
    | none ↦ none
    | some (expected_checksum, _) ↦ some (payload_length, expected_checksum)
  ]
]

-- `describe` stands for the text of an errno with the path, and `at_offset` for a corruption's
-- message with the offset.
module _ (describe : ℕ → String) (at_offset : String → ℕ → String) where
  unfoldable pub corruption_at : String → WalReader → ReadResult
  corruption_at message reader =
      ReadResult.error (corruption (at_offset message reader.valid_bytes))

  abbrev answer : ReadResult → ReadCall → WalReader → ReadNext
  answer result call reader = record {
    result = result;
    script = call.script;
    reader = record reader { unread = call.unread };
  }

  -- What follows the second `readUpTo`.
  unfoldable pub finish_payload : ReadCall → ℕ → ℕ → WalReader → ReadNext
  unfolding corruption_at
  finish_payload call payload_length expected_checksum reader = elim call.ended [
    | ReadEnd.stopped ↦ answer ReadResult.stopped call reader
    | ReadEnd.io_failed error_number ↦
        answer (ReadResult.error (io_error (describe error_number))) call reader
    | ReadEnd.read payload ↦
        if ltb (length payload) payload_length
        then answer ReadResult.end call reader
        else if crc32c payload == expected_checksum
        then record {
          result = ReadResult.entry payload;
          script = call.script;
          reader = record {
            unread = call.unread;
            valid_bytes = reader.valid_bytes + (record_header_size + payload_length);
          };
        }
        else answer (corruption_at "WAL record checksum mismatch" reader) call reader
  ]

  unfoldable pub read_payload : ReadCall → Option (ℕ × ℕ) → WalReader → ReadNext
  unfolding finish_payload
  read_payload call none reader =
      answer (corruption_at "invalid WAL record header" reader) call reader
  read_payload call (some (payload_length, expected_checksum)) reader =
      if payload_length == 0
      then answer (corruption_at "empty WAL record payload" reader) call reader
      else if ltb max_record_payload_size payload_length
      then answer (corruption_at "WAL record payload exceeds 64 MiB" reader) call reader
      else finish_payload (read_up_to call.script payload_length [] call.unread) payload_length
          expected_checksum reader

  unfoldable pub read_next : List IoOutcome → WalReader → ReadNext
  unfolding read_payload
  read_next script reader =
      let call = read_up_to script record_header_size [] reader.unread in
      elim call.ended [
        | ReadEnd.stopped ↦ answer ReadResult.stopped call reader
        | ReadEnd.io_failed error_number ↦
            answer (ReadResult.error (io_error (describe error_number))) call reader
        | ReadEnd.read header ↦
            if ltb (length header) record_header_size
            then answer ReadResult.end call reader
            else read_payload call (header_fields header) reader
      ]
