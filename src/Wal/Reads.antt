-- ===== src/Wal/Reads.antt =====
-- `WalReader::readNext` reads the entry that `scan` finds, however the system splits its reads.
use mizu.Base.{
  ℕ, zero, suc, ◌+◌, ◌-◌, ◌*◌, ◌≤◌, ◌<◌, ◌≡◌, ◌⊎◌, inl, inr, refl, ap, ◌∙◌, sym, Option, none, some,
  List, [], ◌∷◌, ◌++◌, String, min, ltb, ◌==◌, length, take, drop, arith, append_assoc, append-nil,
  length-take, take-add, drop-add, Bool-cases,
}
use mizu.Base.Order.{Bytes}
use mizu.Status.{io_error, corruption}
use mizu.Wal.Io.{IoOutcome, transferred, interrupted, failed, killed}
use mizu.Wal.Reader.{
  WalReader, ReadEnd, ReadCall, ReadResult, ReadNext, read_up_to, read_next, header_fields,
  read_payload, finish_payload,
}
use mizu.Wal.Format.{Scan, scan, scan_payload}

-- A call of `readUpTo` that ends has read what the file still holds, up to the size that was asked.
pub record ReadWhole (size : ℕ) (total unread : Bytes) (c : ReadCall) : Type 0 where
  pub got : c.ended ≡ ReadEnd.read (total ++ take size unread)
  pub left : c.unread ≡ drop size unread

abbrev pub Interfered : ReadCall → Type 0
Interfered c = (c.ended ≡ ReadEnd.stopped) ⊎ ((e : ℕ) × (c.ended ≡ ReadEnd.io_failed e))

pub read_up_to-interrupted :
    (script : List IoOutcome) (size : ℕ) (total unread : Bytes)
    → read_up_to (interrupted ∷ script) (suc size) total unread
      ≡ read_up_to script (suc size) total unread
unfolding read_up_to
read_up_to-interrupted script size total unread = refl

pub read_up_to-eof :
    (n : ℕ) (script : List IoOutcome) (size : ℕ) (total : Bytes)
    → read_up_to (transferred n ∷ script) (suc size) total []
      ≡ record { ended = ReadEnd.read total; script = script; unread = [] }
unfolding read_up_to
read_up_to-eof n script size total = ground arith

pub read_up_to-more :
    (n : ℕ) (script : List IoOutcome) (size : ℕ) (total : Bytes) (b : ℕ) (unread : Bytes)
    → let m : ℕ = min (suc n) (min (suc size) (length (b ∷ unread))) in
      read_up_to (transferred n ∷ script) (suc size) total (b ∷ unread)
      ≡ read_up_to script (suc size - m) (total ++ take m (b ∷ unread)) (drop m (b ∷ unread))
unfolding read_up_to
read_up_to-more n script size total b unread = ground arith

-- After the first `m` bytes, the rest.
pub ReadWhole-more :
    (size m : ℕ) (total unread : Bytes) (c : ReadCall)
    → m ≤ size
    → ReadWhole (size - m) (total ++ take m unread) (drop m unread) c
    → ReadWhole size total unread c
ReadWhole-more size m total unread c h r = record {
  got =
      r.got
      ∙ ap ReadEnd.read (
          append_assoc total (take m unread) (take (size - m) (drop m unread))
          ∙ ap (λ b. total ++ b) (take-add m (size - m) size unread (omega arith)));
  left = r.left ∙ drop-add m (size - m) size unread (omega arith);
}

pub read_up_to_lem :
    (script : List IoOutcome) (size : ℕ) (total unread : Bytes)
    → ReadWhole size total unread (read_up_to script size total unread)
      ⊎ Interfered (read_up_to script size total unread)
read_up_to_lem script zero total unread =
    unfold read_up_to in
    inl (record { got = ap ReadEnd.read (sym (append-nil total)); left = refl })
read_up_to_lem [] (suc size) total unread = unfold read_up_to in inr (inl refl)
read_up_to_lem (killed n ∷ script) (suc size) total unread = unfold read_up_to in inr (inl refl)
read_up_to_lem (interrupted ∷ script) (suc size) total unread =
    rw (read_up_to-interrupted script size total unread)
      (read_up_to_lem script (suc size) total unread)
read_up_to_lem (failed e ∷ script) (suc size) total unread =
    unfold read_up_to in inr (inr (e, refl))
read_up_to_lem (transferred n ∷ script) (suc size) total [] =
    rw (read_up_to-eof n script size total)
      (inl (record { got = ap ReadEnd.read (sym (append-nil total)); left = refl }))
read_up_to_lem (transferred n ∷ script) (suc size) total (b ∷ unread) =
    let m = min (suc n) (min (suc size) (length (b ∷ unread))) in
    let later =
      read_up_to_lem script (suc size - m) (total ++ take m (b ∷ unread)) (drop m (b ∷ unread)) in
    rw (read_up_to-more n script size total b unread) (elim later [
      | inl r ↦ inl (ReadWhole-more (suc size) m total (b ∷ unread) _ (omega arith) r)
      | inr i ↦ inr i
    ])

-- The result, the valid boundary and the unread bytes that a scan stands for.
module _ (at_offset : String → ℕ → String) where
  abbrev pub scan_result : Scan → WalReader → ReadResult
  scan_result found reader = elim found [
    | Scan.tail ↦ ReadResult.end
    | Scan.whole payload rest ↦ ReadResult.entry payload
    | Scan.bad message ↦ ReadResult.error (corruption (at_offset message reader.valid_bytes))
  ]

abbrev pub scan_valid : Scan → WalReader → ℕ
scan_valid found reader = elim found [
  | Scan.tail ↦ reader.valid_bytes
  | Scan.whole payload rest ↦ reader.valid_bytes + (8 + length payload)
  | Scan.bad message ↦ reader.valid_bytes
]

-- Behind an entry the reader stands at the scan's rest; an end or an error leaves no claim on it.
abbrev pub scan_unread : Scan → Bytes → Bytes
scan_unread found otherwise = elim found [
  | Scan.tail ↦ otherwise
  | Scan.whole payload rest ↦ rest
  | Scan.bad message ↦ otherwise
]

pub record Answers (at_offset : String → ℕ → String) (found : Scan) (reader : WalReader)
    (next : ReadNext) : Type 0 where
  pub result : next.result ≡ scan_result at_offset found reader
  pub valid : next.reader.valid_bytes ≡ scan_valid found reader
  pub unread : next.reader.unread ≡ scan_unread found next.reader.unread

module _ (describe : ℕ → String) (at_offset : String → ℕ → String) where
  abbrev pub Disturbed : ReadNext → Type 0
  Disturbed next =
      (next.result ≡ ReadResult.stopped)
      ⊎ ((e : ℕ) × (next.result ≡ ReadResult.error (io_error (describe e))))

  finish_payload_lem :
      (call : ReadCall) (size checksum : ℕ) (after : Bytes) (reader : WalReader)
      → 0 < size
      → size ≤ 64 * 1024 * 1024
      → ReadWhole size [] after call
      → Answers at_offset
          (scan_payload (some (size, checksum)) after)
          reader
          (finish_payload describe at_offset call size checksum reader)
  unfolding finish_payload scan_payload
  finish_payload_lem call size checksum after reader pos fits whole =
      ground (arith, whole.got, whole.left, length-take size after)

  finish_payload-Disturbed :
      (call : ReadCall) (size checksum : ℕ) (reader : WalReader)
      → Interfered call
      → Disturbed (finish_payload describe at_offset call size checksum reader)
  unfolding finish_payload
  finish_payload-Disturbed call size checksum reader (inl e) = inl (rw (e, finish_payload))
  finish_payload-Disturbed call size checksum reader (inr (n, e)) = inr (n, rw (e, finish_payload))

  pub read_payload-none :
      (call : ReadCall) (reader : WalReader)
      → Answers at_offset
          (scan_payload none call.unread)
          reader
          (read_payload describe at_offset call none reader)
  unfolding read_payload scan_payload
  read_payload-none call reader = ground arith

  -- The payload is read whole.
  pub read_payload_whole :
      (call : ReadCall) (size checksum : ℕ) (reader : WalReader)
      → ReadWhole size [] call.unread (read_up_to call.script size [] call.unread)
      → Answers at_offset
          (scan_payload (some (size, checksum)) call.unread)
          reader
          (read_payload describe at_offset call (some (size, checksum)) reader)
  unfolding read_payload scan_payload
  read_payload_whole call size checksum reader whole = elim (Bool-cases (size == 0)) [
    | inl zero_size ↦ ground (arith, zero_size)
    | inr nonzero ↦ elim (Bool-cases (ltb (64 * 1024 * 1024) size)) [
      | inl large ↦ ground (arith, nonzero, large)
      | inr fits ↦
          rw (nonzero, fits)
            (unfold scan_payload in
              rw (nonzero, fits) at
                (finish_payload_lem (read_up_to call.script size [] call.unread) size checksum
                  call.unread reader (ground (arith, nonzero)) (ground (arith, fits)) whole))
    ]
  ]

  read_payload-Disturbed :
      (call : ReadCall) (size checksum : ℕ) (reader : WalReader)
      → Interfered (read_up_to call.script size [] call.unread)
      → Answers at_offset
          (scan_payload (some (size, checksum)) call.unread)
          reader
          (read_payload describe at_offset call (some (size, checksum)) reader)
        ⊎ Disturbed (read_payload describe at_offset call (some (size, checksum)) reader)
  unfolding read_payload scan_payload
  read_payload-Disturbed call size checksum reader i = elim (Bool-cases (size == 0)) [
    | inl zero_size ↦ inl (ground (arith, zero_size))
    | inr nonzero ↦ elim (Bool-cases (ltb (64 * 1024 * 1024) size)) [
      | inl large ↦ inl (ground (arith, nonzero, large))
      | inr fits ↦ inr (
          rw (nonzero, fits)
            (finish_payload-Disturbed (read_up_to call.script size [] call.unread) size checksum
              reader i))
    ]
  ]

  read_payload_lem :
      (call : ReadCall) (fields : Option (ℕ × ℕ)) (reader : WalReader)
      → Answers at_offset
          (scan_payload fields call.unread)
          reader
          (read_payload describe at_offset call fields reader)
        ⊎ Disturbed (read_payload describe at_offset call fields reader)
  read_payload_lem call none reader = inl (read_payload-none call reader)
  read_payload_lem call (some (size, checksum)) reader =
      elim (read_up_to_lem call.script size [] call.unread) [
        | inl whole ↦ inl (read_payload_whole call size checksum reader whole)
        | inr i ↦ read_payload-Disturbed call size checksum reader i
      ]

  pub read_next-short :
      (script : List IoOutcome) (reader : WalReader)
      → ReadWhole 8 [] reader.unread (read_up_to script 8 [] reader.unread)
      → length reader.unread < 8
      → Answers at_offset (scan reader.unread) reader (read_next describe at_offset script reader)
  unfolding read_next scan
  read_next-short script reader whole h = ground (arith, whole.got, length-take 8 reader.unread)

  pub read_next-long :
      (script : List IoOutcome) (reader : WalReader)
      → ReadWhole 8 [] reader.unread (read_up_to script 8 [] reader.unread)
      → 8 ≤ length reader.unread
      → read_next describe at_offset script reader
        ≡ read_payload describe at_offset
            (read_up_to script 8 [] reader.unread)
            (header_fields (take 8 reader.unread))
            reader
  unfolding read_next
  read_next-long script reader whole h = ground (arith, whole.got, length-take 8 reader.unread)

  pub scan-long :
      (bytes after : Bytes)
      → 8 ≤ length bytes
      → after ≡ drop 8 bytes
      → scan bytes ≡ scan_payload (header_fields (take 8 bytes)) after
  unfolding scan
  scan-long bytes after h e = ground (arith, e)

  read_next-Disturbed :
      (script : List IoOutcome) (reader : WalReader)
      → Interfered (read_up_to script 8 [] reader.unread)
      → Disturbed (read_next describe at_offset script reader)
  unfolding read_next
  read_next-Disturbed script reader (inl e) = inl (rw (e, read_next))
  read_next-Disturbed script reader (inr (n, e)) = inr (n, rw (e, read_next))

  -- Whatever the system calls do, `readNext` answers what the scan of the unread bytes says, or it is
  -- stopped inside a call or returns the I/O error of an errno.
  pub read_next-scan :
      (script : List IoOutcome) (reader : WalReader)
      → Answers at_offset (scan reader.unread) reader (read_next describe at_offset script reader)
        ⊎ Disturbed (read_next describe at_offset script reader)
  read_next-scan script reader =
      let call = read_up_to script 8 [] reader.unread in
      elim (read_up_to_lem script 8 [] reader.unread) [
        | inr i ↦ inr (read_next-Disturbed script reader i)
        | inl whole ↦ elim (Bool-cases (ltb (length reader.unread) 8)) [
          | inl short ↦ inl (read_next-short script reader whole (ground (arith, short)))
          | inr long ↦
              rw
                (
                  read_next-long script reader whole (ground (arith, long)),
                  scan-long reader.unread call.unread (ground (arith, long)) whole.left,
                )
                (read_payload_lem call (header_fields (take 8 reader.unread)) reader)
        ]
      ]
