-- ===== src/Manifest/Published.antt =====
-- What `decodeManifest` lets through.
use mizu.Base.{◌-◌, ◌≡◌, length, take, drop, arith, Option-cases, inl, inr, subst}
use mizu.Base.Order.{Bytes}
use mizu.Status.{ok, Result-cases, corruption}
use mizu.Coding.{get_fixed32, get_fixed64}
use mizu.Manifest.{
  ManifestState, validate_state, take_tables, take_tables_from, decode_contents, decode_manifest,
}
use mizu.Manifest.Checked.{IsPublished, validate_state-ok}

decode_contents-valid :
    (contents : Bytes) (state : ManifestState)
    → decode_contents contents ≡ ok state
    → validate_state corruption state ≡ ok tt
unfolding decode_contents
decode_contents-valid contents state h = elim (Option-cases (get_fixed32 (drop 8 contents))) [
  | inl a ↦ absurd (ground (arith, a))
  | inr ((version, r), a) ↦ elim (Option-cases (get_fixed64 r)) [
    | inl b ↦ absurd (ground (arith, a, b))
    | inr ((flushed, r1), b) ↦ elim (Option-cases (get_fixed64 r1)) [
      | inl c ↦ absurd (ground (arith, a, b, c))
      | inr ((wal, r2), c) ↦ elim (Option-cases (take_tables r2)) [
        | inl d ↦ absurd (ground (arith, a, b, c, d))
        | inr ((l0, r3), d) ↦ elim (Option-cases (take_tables_from 2 version r3)) [
          | inl e ↦ absurd (ground (arith, a, b, c, d, e))
          | inr ((l1, r4), e) ↦ elim (Option-cases (take_tables_from 3 version r4)) [
            | inl f ↦ absurd (ground (arith, a, b, c, d, e, f))
            | inr ((l2, r5), f) ↦
                let decoded : ManifestState = record {
                  flushed_sequence = flushed;
                  oldest_wal_number = wal;
                  levels = record { level0 = l0; level1 = l1; level2 = l2 };
                } in
                elim (Result-cases (validate_state corruption decoded)) [
                  | inr (s, g) ↦ absurd (ground (arith, a, b, c, d, e, f, g))
                  | inl (u, g) ↦
                      let same : decoded ≡ state = ground (arith, a, b, c, d, e, f, g) in
                      subst (λ x. validate_state corruption x ≡ ok tt) same g
                ]
          ]
        ]
      ]
    ]
  ]
]

-- A state that `decodeManifest` returns, whatever the bytes were, can be published: its sequence and
-- log number are in range, its tables have positive numbers that differ from each other, sizes and
-- parsed key ranges, and each table of levels 1 and 2 ends before the next one begins.
pub decode_manifest-IsPublished :
    (input : Bytes) (state : ManifestState) → decode_manifest input ≡ ok state → IsPublished state
unfolding decode_manifest
decode_manifest-IsPublished input state h =
    validate_state-ok corruption state
      (decode_contents-valid (take (length input - 4) input) state (ground arith))
