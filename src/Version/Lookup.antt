-- ===== src/Version/Lookup.antt =====
-- A read through the levels finds what a search of all versions of all tables finds.
use mizu.Base.{
  ℕ, ◌≡◌, refl, ap, ◌∙◌, sym, true, false, ◌&&◌, ◌||◌, List, [], ◌∷◌, ◌++◌, map, All, arith,
  Bool-cases, inl, inr,
}
use mizu.Base.Order.{Bytes, slice_lt, slice_compare_swap, slice_compare_trans, slice_compare-eq}
use mizu.Status.{ok}
use mizu.Entries.{Entry, LookupResult, lookup}
use mizu.Entries.Order.{slice_le}
use mizu.Compaction.{TableMeta}
use mizu.Manifest.Checked.{first_key, last_key, IsApart}
use mizu.Version.{Table, Version, get_level0, from_candidate, get_candidate, get}

abbrev pub metas : List Table → List TableMeta
metas ts = map (λ (t : Table). t.meta) ts

-- The first answer of two reads.
abbrev pub first_answer : LookupResult → LookupResult → LookupResult
first_answer LookupResult.absent below = below
first_answer LookupResult.deleted below = LookupResult.deleted
first_answer (LookupResult.found v) below = LookupResult.found v

pub first_answer-absent : (r : LookupResult) → first_answer r LookupResult.absent ≡ r
first_answer-absent LookupResult.absent = refl
first_answer-absent LookupResult.deleted = refl
first_answer-absent (LookupResult.found v) = refl

pub lookup-append :
    (s : ℕ) (k : Bytes) (xs ys : List Entry)
    → lookup s k (xs ++ ys) ≡ first_answer (lookup s k xs) (lookup s k ys)
unfolding lookup
lookup-append s k [] ys = refl
lookup-append s k (x ∷ xs) ys = ground (arith, lookup-append s k xs ys)

-- Which versions the file of a table holds: an argument, since the files are not part of the model.
module _ (entries : Table → List Entry) where
  -- The reader of a table finds its versions, and they lie in its key range.
  pub record IsHeld (t : Table) : Type 0 where
    pub reads : (k : Bytes) (s : ℕ) → t.get k s ≡ ok (lookup s k (entries t))
    pub ranged :
        All
          (λ e.
            slice_le (first_key t.meta) e.user_key && slice_le e.user_key (last_key t.meta) ≡ true)
          (entries t)
    pub ordered : slice_le (first_key t.meta) (last_key t.meta) ≡ true

  abbrev pub all_entries : List Table → List Entry
  all_entries [] = []
  all_entries (t ∷ ts) = entries t ++ all_entries ts

  get_level0-lookup :
      (k : Bytes) (s : ℕ) (ts : List Table)
      → All IsHeld ts
      → get_level0 k s ts ≡ ok (lookup s k (all_entries ts))
  unfolding get_level0
  get_level0-lookup k s [] held = unfold lookup in refl
  get_level0-lookup k s (t ∷ ts) held = ground (
    arith,
    held.0.reads k s,
    get_level0-lookup k s ts held.1,
    lookup-append s k (entries t) (all_entries ts),
  )

  -- A key outside the range of a table has no version in it.
  pub lookup-outside :
      (s : ℕ) (k f l : Bytes) (es : List Entry)
      → slice_lt k f || slice_lt l k ≡ true
      → All (λ e. slice_le f e.user_key && slice_le e.user_key l ≡ true) es
      → lookup s k es ≡ LookupResult.absent
  unfolding lookup
  lookup-outside s k f l [] h all = refl
  lookup-outside s k f l (e ∷ es) h all = ground (
    arith,
    all.0,
    lookup-outside s k f l es h all.1,
    slice_compare_trans k f e.user_key,
    slice_compare_trans e.user_key l k,
    slice_compare-eq f e.user_key,
    slice_compare-eq e.user_key l,
    slice_compare-eq e.user_key k,
    slice_compare_swap k f,
    slice_compare_swap l k,
    slice_compare_swap k e.user_key,
  )

  lookup-before_all :
      (s : ℕ) (k : Bytes) (ts : List Table)
      → All IsHeld ts
      → All (λ x. slice_lt k (first_key x) ≡ true) (metas ts)
      → lookup s k (all_entries ts) ≡ LookupResult.absent
  lookup-before_all s k [] held h = unfold lookup in refl
  lookup-before_all s k (t ∷ ts) held h = ground (
    arith,
    lookup-append s k (entries t) (all_entries ts),
    lookup-outside s k (first_key t.meta) (last_key t.meta) (entries t) (ground (arith, h.0))
        held.0.ranged,
    lookup-before_all s k ts held.1 h.1,
  )

  reached_before :
      (k l : Bytes) (ts : List Table)
      → slice_lt l k ≡ false
      → All (λ x. slice_lt l (first_key x) ≡ true) (metas ts)
      → All (λ x. slice_lt k (first_key x) ≡ true) (metas ts)
  reached_before k l [] h all = tt
  reached_before k l (t ∷ ts) h all = (
    ground (
      arith,
      all.0,
      slice_compare_trans k l (first_key t.meta),
      slice_compare-eq k l,
      slice_compare_swap k l,
    ),
    reached_before k l ts h all.1,
  )

  get_candidate-lookup :
      (k : Bytes) (s : ℕ) (ts : List Table)
      → All IsHeld ts
      → IsApart (metas ts)
      → get_candidate k s (from_candidate k ts) ≡ ok (lookup s k (all_entries ts))
  unfolding get_candidate from_candidate
  get_candidate-lookup k s [] held apart = unfold lookup in refl
  get_candidate-lookup k s (t ∷ ts) held apart =
      let split = lookup-append s k (entries t) (all_entries ts) in
      let outside = λ (h : slice_lt k (first_key t.meta) || slice_lt (last_key t.meta) k ≡ true).
        lookup-outside s k (first_key t.meta) (last_key t.meta) (entries t) h held.0.ranged in
      elim (Bool-cases (slice_lt (last_key t.meta) k)) [
        | inl before ↦
            rw (before, split, outside (ground (arith, before)))
              (get_candidate-lookup k s ts held.1 apart.1)
        | inr reached ↦
            let beyond =
              lookup-before_all s k ts held.1
                (reached_before k (last_key t.meta) ts reached apart.0) in
            elim (Bool-cases (slice_lt k (first_key t.meta))) [
              | inl gap ↦ rw (reached, gap, split, outside (ground (arith, gap)), beyond)
              | inr inside ↦
                  rw (reached, inside, split, beyond)
                    (held.0.reads k s ∙ sym (ap ok (first_answer-absent (lookup s k (entries t)))))
            ]
      ]

  -- A version in which each reader finds the versions of its table, these lie in the key range of the
  -- table, and the tables of levels 1 and 2 are apart: `get` finds what a search of all versions finds,
  -- table by table and level by level.
  pub get-lookup :
      (k : Bytes) (s : ℕ) (version : Version)
      → All IsHeld version.level0
      → All IsHeld version.level1
      → All IsHeld version.level2
      → IsApart (metas version.level1)
      → IsApart (metas version.level2)
      → get k s version
        ≡ ok (
            lookup s k (
              all_entries version.level0
              ++ (all_entries version.level1 ++ all_entries version.level2)))
  unfolding get
  get-lookup k s version h0 h1 h2 a1 a2 = ground (
    arith,
    get_level0-lookup k s version.level0 h0,
    get_candidate-lookup k s version.level1 h1 a1,
    get_candidate-lookup k s version.level2 h2 a2,
    lookup-append s k (all_entries version.level0)
        (all_entries version.level1 ++ all_entries version.level2),
    lookup-append s k (all_entries version.level1) (all_entries version.level2),
  )
