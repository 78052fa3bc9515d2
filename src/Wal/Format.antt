-- ===== src/Wal/Format.antt =====
-- The layout of the log, apart from how it is written and read: an entry is the length of its
-- payload, the payload's CRC32C and the payload.
use mizu.Base.{
  ℕ, ◌+◌, ◌-◌, ◌≤◌, ◌<◌, ◌≡◌, refl, Option, none, some, List, [], ◌∷◌, ◌++◌, String, ltb, ◌==◌,
  if◌then◌else◌, length, take, drop, arith, length-append, take-append_left, drop-append_left,
  length-take, take-append_right, Bool-cases, inl, inr,
}
use mizu.Base.Order.{Bytes}
use mizu.Coding.{encode_fixed32}
use mizu.Coding.RoundTrip.{get_fixed32-encode, get_fixed32-encode_self, length-encode_fixed32}
use mizu.Crc.{crc32c, crc32c-IsU32}
use mizu.Wal.Writer.{max_record_payload_size}
use mizu.Wal.Reader.{header_fields}

abbrev pub header : Bytes → Bytes
header payload = encode_fixed32 (length payload) ++ encode_fixed32 (crc32c payload)

-- An entry, with what follows it.
abbrev pub entry_bytes : Bytes → Bytes → Bytes
entry_bytes payload rest = header payload ++ (payload ++ rest)

abbrev pub log_bytes : List Bytes → Bytes → Bytes
log_bytes [] rest = rest
log_bytes (payload ∷ payloads) rest = entry_bytes payload (log_bytes payloads rest)

-- What stands at the front of some bytes of a log.
pub data Scan : Type 0 where
  -- nothing, or an entry that was not written to its end
  tail : Scan
  whole : Bytes → Bytes → Scan
  bad : String → Scan

unfoldable pub scan_payload : Option (ℕ × ℕ) → Bytes → Scan
scan_payload none after = Scan.bad "invalid WAL record header"
scan_payload (some (size, checksum)) after =
    if size == 0
    then Scan.bad "empty WAL record payload"
    else if ltb max_record_payload_size size
    then Scan.bad "WAL record payload exceeds 64 MiB"
    else if ltb (length after) size
    then Scan.tail
    else if crc32c (take size after) == checksum
    then Scan.whole (take size after) (drop size after)
    else Scan.bad "WAL record checksum mismatch"

unfoldable pub scan : Bytes → Scan
unfolding scan_payload
scan bytes =
    if ltb (length bytes) 8
    then Scan.tail
    else scan_payload (header_fields (take 8 bytes)) (drop 8 bytes)

-- A payload that `append` accepts.
pub record IsPayload (payload : Bytes) : Type 0 where
  pub nonempty : 0 < length payload
  pub fits : length payload ≤ max_record_payload_size

pub length-header : (payload : Bytes) → length (header payload) ≡ 8
length-header payload = omega (
  arith,
  length-append (encode_fixed32 (length payload)) (encode_fixed32 (crc32c payload)),
  length-encode_fixed32 (length payload),
  length-encode_fixed32 (crc32c payload),
)

header_fields-header :
    (payload : Bytes)
    → IsPayload payload
    → header_fields (header payload) ≡ some (length payload, crc32c payload)
header_fields-header payload h = ground (
  arith,
  get_fixed32-encode (length payload) (encode_fixed32 (crc32c payload)) (omega (arith, h.fits)),
  get_fixed32-encode_self (crc32c payload) (crc32c-IsU32 payload),
)

pub length-entry_bytes :
    (payload rest : Bytes) → length (entry_bytes payload rest) ≡ 8 + length payload + length rest
length-entry_bytes payload rest = omega (
  arith,
  length-append (header payload) (payload ++ rest),
  length-append payload rest,
  length-header payload,
)

-- Behind the header of a payload stand fewer bytes than the payload has: nothing is read.
scan-header_short :
    (payload front : Bytes)
    → IsPayload payload
    → length front < length payload
    → scan (header payload ++ front) ≡ Scan.tail
unfolding scan
scan-header_short payload front h short = ground (
  arith,
  length-append (header payload) front,
  length-header payload,
  take-append_left 8 (header payload) front (length-header payload),
  drop-append_left 8 (header payload) front (length-header payload),
  header_fields-header payload h,
  h.nonempty,
  h.fits,
)

-- An entry is read with its payload, and what follows it is the rest.
pub scan-entry_bytes :
    (payload rest : Bytes)
    → IsPayload payload
    → scan (entry_bytes payload rest) ≡ Scan.whole payload rest
unfolding scan
scan-entry_bytes payload rest h = ground (
  arith,
  length-entry_bytes payload rest,
  length-append payload rest,
  take-append_left 8 (header payload) (payload ++ rest) (length-header payload),
  drop-append_left 8 (header payload) (payload ++ rest) (length-header payload),
  take-append_left (length payload) payload rest refl,
  drop-append_left (length payload) payload rest refl,
  header_fields-header payload h,
  h.nonempty,
  h.fits,
)

scan-short : (bytes : Bytes) → length bytes < 8 → scan bytes ≡ Scan.tail
unfolding scan
scan-short bytes h = ground arith

-- A proper prefix of an entry reads as the end of the log.
pub scan-torn :
    (payload : Bytes) (k : ℕ)
    → IsPayload payload
    → k < 8 + length payload
    → scan (take k (header payload ++ payload)) ≡ Scan.tail
scan-torn payload k h short = elim (Bool-cases (ltb k 8)) [
  | inl few ↦ scan-short _ (ground (arith, length-take k (header payload ++ payload)))
  | inr more ↦
      rw (take-append_right k (header payload) payload (ground (arith, length-header payload))) (
        scan-header_short payload (take (k - length (header payload)) payload) h (
          ground (
            arith,
            length-take (k - length (header payload)) payload,
            length-header payload,
            h.nonempty,
          )))
]
