-- ===== src/Wal/Progress.antt =====
-- A `readNext` that no errno meets ends: an outcome for each unread byte and two more are enough.
use mizu.Base.{
  ℕ, zero, suc, ◌+◌, ◌-◌, ◌≤◌, inl, inr, refl, ap, sym, Option, none, some, List, [], ◌∷◌, ◌++◌,
  String, min, ltb, length, take, drop, arith, All, append-nil, length-drop, Bool-cases,
}
use mizu.Base.Order.{Bytes}
use mizu.Wal.Io.{IoOutcome, transferred, interrupted, failed, killed}
use mizu.Wal.Reader.{
  WalReader, ReadEnd, ReadCall, read_up_to, read_next, header_fields, read_payload,
}
use mizu.Wal.Format.{scan, scan_payload}
use mizu.Wal.Reads.{
  ReadWhole, Answers, ReadWhole-more, read_up_to-eof, read_up_to-more, read_payload-none,
  read_payload_whole, read_next-short, read_next-long, scan-long,
}

-- A call that moves bytes or finds the end of the file.
abbrev pub IsTransfer : IoOutcome → Type 0
IsTransfer (transferred n) = Unit {0}
IsTransfer interrupted = ⊥
IsTransfer (failed e) = ⊥
IsTransfer (killed n) = ⊥

-- `spare` outcomes stay for later calls, beside one for each byte that is left.
record Ends (size : ℕ) (total unread : Bytes) (spare : ℕ) (c : ReadCall) : Type 0 where
  whole : ReadWhole size total unread c
  calm : All IsTransfer c.script
  enough : length c.unread + spare ≤ length c.script

read_up_to-Ends :
    (script : List IoOutcome) (size : ℕ) (total unread : Bytes) (spare : ℕ)
    → All IsTransfer script
    → length unread + suc spare ≤ length script
    → Ends size total unread spare (read_up_to script size total unread)
read_up_to-Ends script zero total unread spare calm enough =
    unfold read_up_to in
    record {
      whole = record { got = ap ReadEnd.read (sym (append-nil total)); left = refl };
      calm = calm;
      enough = omega arith;
    }
read_up_to-Ends [] (suc size) total unread spare calm enough = absurd (omega arith)
read_up_to-Ends (interrupted ∷ script) (suc size) total unread spare calm enough = absurd calm.0
read_up_to-Ends (killed n ∷ script) (suc size) total unread spare calm enough = absurd calm.0
read_up_to-Ends (failed e ∷ script) (suc size) total unread spare calm enough = absurd calm.0
read_up_to-Ends (transferred n ∷ script) (suc size) total [] spare calm enough =
    rw (read_up_to-eof n script size total) (record {
      whole = record { got = ap ReadEnd.read (sym (append-nil total)); left = refl };
      calm = calm.1;
      enough = omega arith;
    })
read_up_to-Ends (transferred n ∷ script) (suc size) total (b ∷ unread) spare calm enough =
    let m = min (suc n) (min (suc size) (length (b ∷ unread))) in
    let later =
      read_up_to-Ends script (suc size - m) (total ++ take m (b ∷ unread)) (drop m (b ∷ unread))
        spare calm.1 (omega (arith, length-drop m (b ∷ unread))) in
    rw (read_up_to-more n script size total b unread) (record {
      whole = ReadWhole-more (suc size) m total (b ∷ unread) _ (omega arith) later.whole;
      calm = later.calm;
      enough = later.enough;
    })

module _ (describe : ℕ → String) (at_offset : String → ℕ → String) where
  read_payload-Answers :
      (call : ReadCall) (fields : Option (ℕ × ℕ)) (reader : WalReader)
      → All IsTransfer call.script
      → length call.unread + 1 ≤ length call.script
      → Answers at_offset
          (scan_payload fields call.unread)
          reader
          (read_payload describe at_offset call fields reader)
  read_payload-Answers call none reader calm enough =
      read_payload-none describe at_offset call reader
  read_payload-Answers call (some (size, checksum)) reader calm enough =
      read_payload_whole describe at_offset call size checksum reader
        (read_up_to-Ends call.script size [] call.unread 0 calm (omega arith)).whole

  -- If every system call moves bytes, or finds the end of the file, and an outcome is given for each
  -- unread byte and two more, `readNext` answers what the scan of the unread bytes says: the result,
  -- the boundary of the valid bytes and, behind an entry, the bytes left to read.
  pub read_next-Answers :
      (script : List IoOutcome) (reader : WalReader)
      → All IsTransfer script
      → length reader.unread + 2 ≤ length script
      → Answers at_offset (scan reader.unread) reader (read_next describe at_offset script reader)
  read_next-Answers script reader calm enough =
      let call = read_up_to script 8 [] reader.unread in
      let first = read_up_to-Ends script 8 [] reader.unread 1 calm (omega arith) in
      elim (Bool-cases (ltb (length reader.unread) 8)) [
        | inl short ↦
            read_next-short describe at_offset script reader first.whole (ground (arith, short))
        | inr long ↦
            rw
              (
                read_next-long describe at_offset script reader first.whole (ground (arith, long)),
                scan-long describe at_offset reader.unread call.unread (ground (arith, long))
                    first.whole.left,
              )
              (read_payload-Answers call (header_fields (take 8 reader.unread)) reader first.calm
                first.enough)
      ]
