-- ===== src/Manifest/Checked.antt =====
-- What a manifest state that passes `validateState` is like.
use mizu.Base.{
  ℕ, ◌^◌, ◌≤◌, ◌<◌, ◌≡◌, ap, ◌∙◌, sym, true, false, not, Option, none, some, List, [], ◌∷◌, String,
  length, All, arith, Bool-cases, Option-cases, inl, inr, subst,
}
use mizu.Base.Order.{Bytes, slice_lt, slice_compare_swap}
use mizu.Status.{Status, ok, require, ◌>>◌, >>=-eq-ok, Result-cases}
use mizu.Entries.Order.{slice_le, slice_lt_trans, slice_lt_of_le}
use mizu.InternalKey.{
  max_sequence_number, parse_internal_key, internal_key_less, user_then_tag_less,
}
use mizu.InternalKey.Format.{parse_internal_key-eq_some}
use mizu.Compaction.{TableMeta, table_user_key}
use mizu.Manifest.{
  ManifestState, contains, has_key_range, validate_table, validate_level0, overlaps_previous,
  validate_level, validate_state,
}

-- The smallest and the largest user key of a table.
abbrev pub first_key : TableMeta → Bytes
first_key table = table_user_key table.smallest_key

abbrev pub last_key : TableMeta → Bytes
last_key table = table_user_key table.largest_key

-- The metadata of one table, as `validateTable` demands them.
pub record IsSound (table : TableMeta) : Type 0 where
  pub numbered : 0 < table.number
  pub sized : 0 < table.file_size
  pub smallest : length table.smallest_key < 2 ^ 32
  pub largest : length table.largest_key < 2 ^ 32
  pub smallest_tag : 8 ≤ length table.smallest_key
  pub largest_tag : 8 ≤ length table.largest_key
  pub ordered : slice_le (first_key table) (last_key table) ≡ true

-- Each table of a level ends before the next one begins.
abbrev pub IsApart : List TableMeta → Type 0
IsApart [] = Unit {0}
IsApart (t ∷ ts) = All (λ x. slice_lt (last_key t) (first_key x) ≡ true) ts × IsApart ts

has_key_range-true :
    (table : TableMeta)
    → has_key_range table ≡ true
    → (8 ≤ length table.smallest_key)
      × (8 ≤ length table.largest_key)
      × (slice_le (first_key table) (last_key table) ≡ true)
unfolding has_key_range table_user_key
has_key_range-true table h = elim (Option-cases (parse_internal_key table.smallest_key)) [
  | inl e ↦ absurd (ground (arith, e))
  | inr (s, e) ↦ elim (Option-cases (parse_internal_key table.largest_key)) [
    | inl k ↦ absurd (ground (arith, e, k))
    | inr (l, k) ↦
        let (a, b, c, d) = parse_internal_key-eq_some table.smallest_key s e in
        let (a', b', c', d') = parse_internal_key-eq_some table.largest_key l k in
        (
          a,
          a',
          unfold internal_key_less user_then_tag_less in
              ground (arith, e, k, b, b', slice_compare_swap l.user_key s.user_key),
        )
  ]
]

validate_table-ok :
    (fail : String → Status) (table : TableMeta) (numbers after : List ℕ)
    → validate_table fail table numbers ≡ ok after
    → IsSound table × (contains table.number numbers ≡ false) × (after ≡ table.number ∷ numbers)
unfolding validate_table
validate_table-ok fail table numbers after h =
    let range : has_key_range table ≡ true = ground arith in
    let (a, b, c) = has_key_range-true table range in
    (
      record {
        numbered = ground arith;
        sized = ground arith;
        smallest = ground arith;
        largest = ground arith;
        smallest_tag = a;
        largest_tag = b;
        ordered = c;
      },
      ground arith,
      ground arith,
    )

-- The numbers of some tables on top of others, and that no number stands twice.
abbrev pub numbers_of : List TableMeta → List ℕ → List ℕ
numbers_of [] numbers = numbers
numbers_of (t ∷ ts) numbers = numbers_of ts (t.number ∷ numbers)

abbrev pub IsDistinct : List ℕ → Type 0
IsDistinct [] = Unit {0}
IsDistinct (n ∷ ns) = (contains n ns ≡ false) × IsDistinct ns

validate_level0-ok :
    (fail : String → Status) (ts : List TableMeta) (numbers after : List ℕ)
    → IsDistinct numbers
    → validate_level0 fail ts numbers ≡ ok after
    → All IsSound ts × (after ≡ numbers_of ts numbers) × IsDistinct after
unfolding validate_level0
validate_level0-ok fail [] numbers after distinct h =
    let same : numbers ≡ after = cc in (tt, sym same, subst IsDistinct same distinct)
validate_level0-ok fail (t ∷ ts) numbers after distinct h =
    let (more, k, l) = >>=-eq-ok (validate_table fail t numbers) (validate_level0 fail ts) h in
    let (sound, new, same) = validate_table-ok fail t numbers more k in
    let grown : IsDistinct more = subst IsDistinct (sym same) (new, distinct) in
    let (rest, all, good) = validate_level0-ok fail ts more after grown l in
    ((sound, rest), all ∙ ap (numbers_of ts) same, good)

-- The tables begin behind the last key of those before.
abbrev Behind : Option Bytes → List TableMeta → Type 0
Behind none ts = Unit {0}
Behind (some key) ts = All (λ x. slice_lt key (first_key x) ≡ true) ts

Behind-weaken :
    (t : TableMeta) (previous : Option Bytes) (ts : List TableMeta)
    → IsSound t
    → overlaps_previous previous (first_key t) ≡ false
    → Behind (some (last_key t)) ts
    → Behind previous (t ∷ ts)
unfolding overlaps_previous
Behind-weaken t none ts sound h behind = tt
Behind-weaken t (some key) ts sound h behind =
    let first : slice_lt key (first_key t) ≡ true = ground arith in
    let last = slice_lt_of_le key (first_key t) (last_key t) first sound.ordered in
    (first, all ts behind last)
  where
    all :
        (xs : List TableMeta)
        → Behind (some (last_key t)) xs
        → slice_lt key (last_key t) ≡ true
        → Behind (some key) xs
    all [] b lt = tt
    all (x ∷ xs) b lt = (slice_lt_trans key (last_key t) (first_key x) lt b.0, all xs b.1 lt)

validate_level-ok :
    (fail : String → Status) (previous : Option Bytes) (ts : List TableMeta)
    (numbers after : List ℕ)
    → IsDistinct numbers
    → validate_level fail previous ts numbers ≡ ok after
    → All IsSound ts
      × (after ≡ numbers_of ts numbers)
      × IsDistinct after
      × IsApart ts
      × Behind previous ts
unfolding validate_level
validate_level-ok fail none [] numbers after distinct h =
    let same : numbers ≡ after = cc in (tt, sym same, subst IsDistinct same distinct, tt, tt)
validate_level-ok fail (some key) [] numbers after distinct h =
    let same : numbers ≡ after = cc in (tt, sym same, subst IsDistinct same distinct, tt, tt)
validate_level-ok fail previous (t ∷ ts) numbers after distinct h =
    let (more, k, l) =
      >>=-eq-ok (validate_table fail t numbers)
        (λ found.
          require (not (overlaps_previous previous (first_key t)))
            (fail "manifest non-L0 table ranges overlap or are out of order")
          >> validate_level fail (some (last_key t)) ts found)
        h in
    let (sound, new, same) = validate_table-ok fail t numbers more k in
    let grown : IsDistinct more = subst IsDistinct (sym same) (new, distinct) in
    elim (Bool-cases (overlaps_previous previous (first_key t))) [
      | inl clash ↦ absurd (ground (arith, l, clash))
      | inr apart ↦
          let rest_ok : validate_level fail (some (last_key t)) ts more ≡ ok after =
            rw apart at l in
          let (rest, all, good, ordered, behind) =
            validate_level-ok fail (some (last_key t)) ts more after grown rest_ok in
          (
            (sound, rest),
            all ∙ ap (numbers_of ts) same,
            good,
            (behind, ordered),
            Behind-weaken t previous ts sound apart behind,
          )
    ]

-- A state that can be published.
pub record IsPublished (state : ManifestState) : Type 0 where
  pub flushed : state.flushed_sequence ≤ max_sequence_number
  pub logged : 0 < state.oldest_wal_number
  pub few0 : length state.levels.level0 < 2 ^ 32
  pub few1 : length state.levels.level1 < 2 ^ 32
  pub few2 : length state.levels.level2 < 2 ^ 32
  pub sound0 : All IsSound state.levels.level0
  pub sound1 : All IsSound state.levels.level1
  pub sound2 : All IsSound state.levels.level2
  pub apart1 : IsApart state.levels.level1
  pub apart2 : IsApart state.levels.level2
  pub distinct : IsDistinct (
      numbers_of state.levels.level2
        (numbers_of state.levels.level1 (numbers_of state.levels.level0 [])))

-- The checks say no more of a state than that it can be published.
pub validate_state-ok :
    (fail : String → Status) (state : ManifestState)
    → validate_state fail state ≡ ok tt
    → IsPublished state
unfolding validate_state
validate_state-ok fail state h = elim (Result-cases (validate_level0 fail state.levels.level0 [])) [
  | inr (e, a) ↦ absurd (ground (arith, a))
  | inl (n0, a) ↦ elim (Result-cases (validate_level fail none state.levels.level1 n0)) [
    | inr (e, b) ↦ absurd (ground (arith, a, b))
    | inl (n1, b) ↦ elim (Result-cases (validate_level fail none state.levels.level2 n1)) [
      | inr (e, c) ↦ absurd (ground (arith, a, b, c))
      | inl (n2, c) ↦
          let (s0, e0, d0) = validate_level0-ok fail state.levels.level0 [] n0 tt a in
          let (s1, e1, d1, p1, q1) = validate_level-ok fail none state.levels.level1 n0 n1 d0 b in
          let (s2, e2, d2, p2, q2) = validate_level-ok fail none state.levels.level2 n1 n2 d1 c in
          record {
            flushed = ground (arith, a, b, c);
            logged = ground (arith, a, b, c);
            few0 = ground (arith, a, b, c);
            few1 = ground (arith, a, b, c);
            few2 = ground (arith, a, b, c);
            sound0 = s0;
            sound1 = s1;
            sound2 = s2;
            apart1 = p1;
            apart2 = p2;
            distinct =
                subst IsDistinct
                  (e2
                    ∙ ap (numbers_of state.levels.level2)
                        (e1 ∙ ap (numbers_of state.levels.level1) e0))
                  d2;
          }
    ]
  ]
]
