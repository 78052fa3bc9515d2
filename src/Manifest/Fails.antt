-- ===== src/Manifest/Fails.antt =====
-- Whether the checks of a manifest state pass does not depend on the status that their callers make.
use mizu.Base.{ℕ, ◌≡◌, none, some, Option, List, [], ◌∷◌, String, arith, inl, inr}
use mizu.Base.Order.{Bytes}
use mizu.Status.{Status, ok, >>=-eq-ok, Result-cases}
use mizu.Compaction.{TableMeta, table_user_key}
use mizu.Manifest.{ManifestState, validate_table, validate_level0, validate_level, validate_state}

validate_table-fail :
    (f g : String → Status) (t : TableMeta) (numbers after : List ℕ)
    → validate_table f t numbers ≡ ok after
    → validate_table g t numbers ≡ ok after
unfolding validate_table
validate_table-fail f g t numbers after h = ground arith

validate_level0-fail :
    (f g : String → Status) (ts : List TableMeta) (numbers after : List ℕ)
    → validate_level0 f ts numbers ≡ ok after
    → validate_level0 g ts numbers ≡ ok after
unfolding validate_level0
validate_level0-fail f g [] numbers after h = h
validate_level0-fail f g (t ∷ ts) numbers after h =
    let (more, k, l) = >>=-eq-ok (validate_table f t numbers) (validate_level0 f ts) h in
    rw (validate_table-fail f g t numbers more k) (validate_level0-fail f g ts more after l)

validate_level-fail :
    (f g : String → Status) (previous : Option Bytes) (ts : List TableMeta) (numbers after : List ℕ)
    → validate_level f previous ts numbers ≡ ok after
    → validate_level g previous ts numbers ≡ ok after
unfolding validate_level
validate_level-fail f g previous [] numbers after h = h
validate_level-fail f g previous (t ∷ ts) numbers after h =
    elim (Result-cases (validate_table f t numbers)) [
      | inr (e, k) ↦ absurd (ground (arith, k))
      | inl (more, k) ↦ ground (
        arith,
        k,
        validate_table-fail f g t numbers more k,
        validate_level-fail f g (some (table_user_key t.largest_key)) ts more after,
      )
    ]

pub validate_state-fail :
    (f g : String → Status) (state : ManifestState)
    → validate_state f state ≡ ok tt
    → validate_state g state ≡ ok tt
unfolding validate_state
validate_state-fail f g state h = elim (Result-cases (validate_level0 f state.levels.level0 [])) [
  | inr (e, a) ↦ absurd (ground (arith, a))
  | inl (n0, a) ↦ elim (Result-cases (validate_level f none state.levels.level1 n0)) [
    | inr (e, b) ↦ absurd (ground (arith, a, b))
    | inl (n1, b) ↦ elim (Result-cases (validate_level f none state.levels.level2 n1)) [
      | inr (e, c) ↦ absurd (ground (arith, a, b, c))
      | inl (n2, c) ↦ ground (
        arith,
        a,
        b,
        c,
        validate_level0-fail f g state.levels.level0 [] n0 a,
        validate_level-fail f g none state.levels.level1 n0 n1 b,
        validate_level-fail f g none state.levels.level2 n1 n2 c,
      )
    ]
  ]
]
