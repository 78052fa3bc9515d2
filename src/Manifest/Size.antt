-- ===== src/Manifest/Size.antt =====
-- How long a manifest can become.
use mizu.Base.{
  ℕ, ◌+◌, ◌-◌, ◌≤◌, ◌≡◌, ap, ◌∙◌, List, [], ◌∷◌, ◌++◌, max, length, arith, inl, inr, length-append,
}
use mizu.Base.Order.{Bytes}
use mizu.Status.{ok, Result-cases, invalid_argument}
use mizu.Coding.{encode_fixed32, put_fixed32, put_fixed64}
use mizu.Coding.RoundTrip.{
  encode_fixed64, put_fixed64-encode, length-encode_fixed32, length-encode_fixed64,
}
use mizu.Crc.{crc32c}
use mizu.Compaction.{TableMeta}
use mizu.Manifest.{
  ManifestState, manifest_magic, maximum_manifest_size, validate_state, append_table,
  append_tables_loop, append_tables, encode_manifest,
}

length-put_fixed32 : (dst : Bytes) (v : ℕ) → length (put_fixed32 dst v) ≡ length dst + 4
unfolding put_fixed32
length-put_fixed32 dst v =
    omega (arith, length-append dst (encode_fixed32 v), length-encode_fixed32 v)

length-put_fixed64 : (dst : Bytes) (v : ℕ) → length (put_fixed64 dst v) ≡ length dst + 8
length-put_fixed64 dst v =
    ap length (put_fixed64-encode dst v)
    ∙ omega (arith, length-append dst (encode_fixed64 v), length-encode_fixed64 v)

-- `appendTables` checks the size behind each table, and not behind the count of a level.
append_tables_loop-size :
    (ts : List TableMeta) (encoded after : Bytes)
    → append_tables_loop ts encoded ≡ ok after
    → length after ≤ max (length encoded) (maximum_manifest_size - 4)
unfolding append_tables_loop
append_tables_loop-size [] encoded after h =
    let same : encoded ≡ after = cc in omega (arith, ap length same)
append_tables_loop-size (t ∷ ts) encoded after h =
    ground (arith, append_tables_loop-size ts (append_table t encoded) after)

append_tables-size :
    (ts : List TableMeta) (encoded after : Bytes)
    → append_tables ts encoded ≡ ok after
    → length after ≤ max (length encoded + 4) (maximum_manifest_size - 4)
unfolding append_tables put_fixed32
append_tables-size ts encoded after h = omega (
  arith,
  append_tables_loop-size ts (encoded ++ encode_fixed32 (length ts)) after h,
  length-append encoded (encode_fixed32 (length ts)),
  length-encode_fixed32 (length ts),
)

-- A manifest that `encodeManifest` writes is longer than 64 MiB by no more than eight bytes: the counts
-- of two empty levels may follow the last table that was checked.
pub encode_manifest-size :
    (state : ManifestState) (bytes : Bytes)
    → encode_manifest state ≡ ok bytes
    → length bytes ≤ maximum_manifest_size + 8
unfolding encode_manifest
encode_manifest-size state bytes h =
    let start =
      put_fixed64 (put_fixed64 (put_fixed32 manifest_magic 3) state.flushed_sequence)
        state.oldest_wal_number in
    let head : length start ≡ 28 = omega (arith, length-put_fixed32, length-put_fixed64) in
    let l0 = state.levels.level0 in
    let l1 = state.levels.level1 in
    let l2 = state.levels.level2 in
    elim (Result-cases (validate_state invalid_argument state)) [
      | inr (e, v) ↦ absurd (ground (arith, v))
      | inl (u, v) ↦ elim (Result-cases (append_tables l0 start)) [
        | inr (e, a) ↦ absurd (ground (arith, v, a))
        | inl (w0, a) ↦ elim (Result-cases (append_tables l1 w0)) [
          | inr (e, b) ↦ absurd (ground (arith, v, a, b))
          | inl (w1, b) ↦ elim (Result-cases (append_tables l2 w1)) [
            | inr (e, c) ↦ absurd (ground (arith, v, a, b, c))
            | inl (w2, c) ↦
                let put : put_fixed32 w2 (crc32c w2) ≡ bytes = ground (arith, v, a, b, c) in
                let last : length (put_fixed32 w2 (crc32c w2)) ≡ length w2 + 4 =
                  length-put_fixed32 w2 (crc32c w2) in
                omega (
                  arith,
                  head,
                  ap length put,
                  last,
                  append_tables-size l0 start w0 a,
                  append_tables-size l1 w0 w1 b,
                  append_tables-size l2 w1 w2 c,
                )
          ]
        ]
      ]
    ]
