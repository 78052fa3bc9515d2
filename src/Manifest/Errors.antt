-- ===== src/Manifest/Errors.antt =====
-- The errors of `encodeManifest` are errors.
use mizu.Base.{ℕ, ◌≡◌, false, Option, some, none, List, [], ◌∷◌, length, arith, inl, inr}
use mizu.Base.Order.{Bytes}
use mizu.Status.{Status, Result, err, is_ok, invalid_argument, Result-cases}
use mizu.Coding.{put_fixed32, put_fixed64}
use mizu.Compaction.{TableMeta, table_user_key}
use mizu.Manifest.{
  ManifestState, validate_table, validate_level0, validate_level, validate_state,
  append_tables_loop, append_tables, append_table, encode_manifest, manifest_magic,
  manifest_version,
}

abbrev pub Fails {ℓ} : {A : Type ℓ} → Result A → Type ℓ
Fails r = (status : Status) → r ≡ err status → is_ok status ≡ false

validate_table-Fails :
    (t : TableMeta) (numbers : List ℕ) → Fails (validate_table invalid_argument t numbers)
unfolding validate_table invalid_argument
validate_table-Fails t numbers status h = ground (arith, h)

validate_level0-Fails :
    (ts : List TableMeta) (numbers : List ℕ) → Fails (validate_level0 invalid_argument ts numbers)
unfolding validate_level0 invalid_argument
validate_level0-Fails [] numbers status h = cc
validate_level0-Fails (t ∷ ts) numbers status h =
    elim (Result-cases (validate_table invalid_argument t numbers)) [
      | inr (e, a) ↦ ground (arith, h, a, validate_table-Fails t numbers e a)
      | inl (more, a) ↦ validate_level0-Fails ts more status (rw a at h)
    ]

validate_level-Fails :
    (previous : Option Bytes) (ts : List TableMeta) (numbers : List ℕ)
    → Fails (validate_level invalid_argument previous ts numbers)
unfolding validate_level invalid_argument
validate_level-Fails previous [] numbers status h = cc
validate_level-Fails previous (t ∷ ts) numbers status h =
    elim (Result-cases (validate_table invalid_argument t numbers)) [
      | inr (e, a) ↦ ground (arith, h, a, validate_table-Fails t numbers e a)
      | inl (more, a) ↦
          ground
            (arith, h, a, validate_level-Fails (some (table_user_key t.largest_key)) ts more status)
    ]

validate_state-Fails : (state : ManifestState) → Fails (validate_state invalid_argument state)
unfolding validate_state invalid_argument
validate_state-Fails state status h =
    elim (Result-cases (validate_level0 invalid_argument state.levels.level0 [])) [
      | inr (e, a) ↦ ground (arith, h, a, validate_level0-Fails state.levels.level0 [] e a)
      | inl (n0, a) ↦
          elim (Result-cases (validate_level invalid_argument none state.levels.level1 n0)) [
            | inr (e, b) ↦
                ground (arith, h, a, b, validate_level-Fails none state.levels.level1 n0 e b)
            | inl (n1, b) ↦
                elim (Result-cases (validate_level invalid_argument none state.levels.level2 n1)) [
                  | inr (e, c) ↦
                      ground
                        (arith, h, a, b, c, validate_level-Fails none state.levels.level2 n1 e c)
                  | inl (n2, c) ↦ ground (arith, h, a, b, c)
                ]
          ]
    ]

append_tables_loop-Fails :
    (ts : List TableMeta) (encoded : Bytes) → Fails (append_tables_loop ts encoded)
unfolding append_tables_loop invalid_argument
append_tables_loop-Fails [] encoded status h = cc
append_tables_loop-Fails (t ∷ ts) encoded status h =
    ground (arith, h, append_tables_loop-Fails ts (append_table t encoded) status)

append_tables-Fails : (ts : List TableMeta) (encoded : Bytes) → Fails (append_tables ts encoded)
unfolding append_tables
append_tables-Fails ts encoded = append_tables_loop-Fails ts (put_fixed32 encoded (length ts))

pub encode_manifest-Fails : (state : ManifestState) → Fails (encode_manifest state)
unfolding encode_manifest
encode_manifest-Fails state status h =
    let start =
      put_fixed64 (put_fixed64 (put_fixed32 manifest_magic manifest_version) state.flushed_sequence)
        state.oldest_wal_number in
    elim (Result-cases (validate_state invalid_argument state)) [
      | inr (e, v) ↦ ground (arith, h, v, validate_state-Fails state e v)
      | inl (u, v) ↦ elim (Result-cases (append_tables state.levels.level0 start)) [
        | inr (e, a) ↦ ground (arith, h, v, a, append_tables-Fails state.levels.level0 start e a)
        | inl (w0, a) ↦ elim (Result-cases (append_tables state.levels.level1 w0)) [
          | inr (e, b) ↦ ground (arith, h, v, a, b, append_tables-Fails state.levels.level1 w0 e b)
          | inl (w1, b) ↦ elim (Result-cases (append_tables state.levels.level2 w1)) [
            | inr (e, c) ↦
                ground (arith, h, v, a, b, c, append_tables-Fails state.levels.level2 w1 e c)
            | inl (w2, c) ↦ absurd (ground (arith, h, v, a, b, c))
          ]
        ]
      ]
    ]
