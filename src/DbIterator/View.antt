-- ===== src/DbIterator/View.antt =====
-- The visible keys and values of sorted entries, in one pass, and that they are what lookups give.
use mizu.Base.{
  ℕ, ◌≡◌, refl, ap, ◌∙◌, sym, subst, Bool, true, false, Option, none, some, List, [], ◌∷◌, ltb,
  if◌then◌else◌, All, arith, Bool-cases, inl, inr,
}
use mizu.Base.Order.{Bytes, slice_eq, slice_lt, slice_eq-eq}
use mizu.InternalKey.{ValueType}
use mizu.Entries.{Entry, lookup, value_of, IsSorted, assoc}
use mizu.Entries.Order.{slice_le, user_keys-le, user_keys-lt, lookup-before, slice_eq_sym}

-- `skip` is the user key whose further versions are passed over.
abbrev pub skips : Option Bytes → Bytes → Bool
skips none u = false
skips (some k) u = slice_eq u k

unfoldable pub live : ℕ → Option Bytes → List Entry → List (Bytes × Bytes)
live s skip [] = []
live s skip (e ∷ es) = elim (skips skip e.user_key) [
  | true ↦ live s skip es
  | false ↦ elim (ltb s e.sequence) [
    | true ↦ live s none es
    | false ↦ elim e.type [
      | ValueType.deletion ↦ live s (some e.user_key) es
      | ValueType.value ↦ (e.user_key, e.stored) ∷ live s (some e.user_key) es
    ]
  ]
]

-- The entries follow the skipped key.
abbrev pub Follows : Option Bytes → List Entry → Type 0
Follows none es = Unit {0}
Follows (some u) es = All (λ x. slice_le u x.user_key ≡ true) es

-- What a lookup gives beside the skipped key.
abbrev expected : ℕ → Option Bytes → Bytes → List Entry → Option Bytes
expected s none k es = value_of (lookup s k es)
expected s (some u) k es = if slice_eq u k then none else value_of (lookup s k es)

-- One entry that is not skipped, on top of what the rest gives.
fresh_entry :
    (s : ℕ) (k : Bytes) (e : Entry) (es : List Entry)
    → ltb s e.sequence ≡ false
    → assoc k (live s (some e.user_key) es) ≡ expected s (some e.user_key) k es
    → let rest : List (Bytes × Bytes) = live s (some e.user_key) es in
      assoc k (elim e.type [
        | ValueType.deletion ↦ rest
        | ValueType.value ↦ (e.user_key, e.stored) ∷ rest
      ])
      ≡ value_of (lookup s k (e ∷ es))
unfolding lookup
fresh_entry s k e es old ih = ground arith

pub live-newer :
    (s : ℕ) (skip : Option Bytes) (e : Entry) (es : List Entry)
    → skips skip e.user_key ≡ false
    → ltb s e.sequence ≡ true
    → live s skip (e ∷ es) ≡ live s none es
unfolding live
live-newer s skip e es h k = rw (h, k, live)

pub live-older :
    (s : ℕ) (skip : Option Bytes) (e : Entry) (es : List Entry)
    → skips skip e.user_key ≡ false
    → ltb s e.sequence ≡ false
    → let rest : List (Bytes × Bytes) = live s (some e.user_key) es in
      live s skip (e ∷ es)
      ≡ elim e.type [ ValueType.deletion ↦ rest | ValueType.value ↦ (e.user_key, e.stored) ∷ rest ]
unfolding live
live-older s skip e es h k = rw (h, k, live)

pub live-skipped :
    (s : ℕ) (skip : Option Bytes) (e : Entry) (es : List Entry)
    → skips skip e.user_key ≡ true
    → live s skip (e ∷ es) ≡ live s skip es
unfolding live
live-skipped s skip e es h = rw (h, live)

live-same :
    (s : ℕ) (u : Bytes) (e : Entry) (es : List Entry)
    → slice_eq u e.user_key ≡ true
    → live s (some u) (e ∷ es) ≡ live s (some u) es
live-same s u e es h = live-skipped s (some u) e es (slice_eq_sym e.user_key u ∙ h)

unskipped :
    (s : ℕ) (k : Bytes) (skip : Option Bytes) (e : Entry) (es : List Entry)
    → skips skip e.user_key ≡ false
    → assoc k (live s none es) ≡ expected s none k es
    → assoc k (live s (some e.user_key) es) ≡ expected s (some e.user_key) k es
    → assoc k (live s skip (e ∷ es)) ≡ value_of (lookup s k (e ∷ es))
unskipped s k skip e es fresh ih_none ih_some = elim (Bool-cases (ltb s e.sequence)) [
  | inl newer ↦
      ap (assoc k) (live-newer s skip e es fresh newer)
      ∙ unfold lookup in ground (arith, newer, ih_none)
  | inr old ↦ ap (assoc k) (live-older s skip e es fresh old) ∙ fresh_entry s k e es old ih_some
]

-- A version of the skipped key adds nothing.
expected-same :
    (s : ℕ) (u k : Bytes) (e : Entry) (es : List Entry)
    → slice_eq u e.user_key ≡ true
    → expected s (some u) k (e ∷ es) ≡ expected s (some u) k es
unfolding lookup
expected-same s u k e es h = ground (arith, slice_eq-eq u e.user_key)

-- Past the skipped key, it has no version.
expected-other :
    (s : ℕ) (u k : Bytes) (e : Entry) (es : List Entry)
    → slice_eq u e.user_key ≡ false
    → slice_le u e.user_key ≡ true
    → All (λ x. slice_le e.user_key x.user_key ≡ true) es
    → value_of (lookup s k (e ∷ es)) ≡ expected s (some u) k (e ∷ es)
expected-other s u k e es ne le follow =
    let lt : slice_lt u e.user_key ≡ true = ground arith in
    elim (Bool-cases (slice_eq u k)) [
      | inr other ↦ rw other
      | inl same ↦ rw same (
          ap (λ u'. value_of (lookup s u' (e ∷ es))) (sym (slice_eq-eq u k same))
          ∙ ap value_of (lookup-before s u (e ∷ es) (lt, user_keys-lt u e es lt follow)))
    ]

live-expected :
    (s : ℕ) (k : Bytes) (skip : Option Bytes) (es : List Entry)
    → IsSorted es
    → Follows skip es
    → assoc k (live s skip es) ≡ expected s skip k es
live-expected s k none [] sorted follows = unfold live lookup in refl
live-expected s k (some u) [] sorted follows = unfold live lookup in ground arith
live-expected s k none (e ∷ es) sorted follows =
    unskipped s k none e es refl (live-expected s k none es sorted.1 tt)
      (live-expected s k (some e.user_key) es sorted.1 (user_keys-le e es sorted.0))
live-expected s k (some u) (e ∷ es) sorted follows =
    let first = live-expected s k none es sorted.1 tt in
    let same_key = live-expected s k (some u) es sorted.1 follows.1 in
    let next_key = live-expected s k (some e.user_key) es sorted.1 (user_keys-le e es sorted.0) in
    elim (Bool-cases (slice_eq u e.user_key)) [
      | inl same ↦
          ap (assoc k) (live-same s u e es same) ∙ same_key ∙ sym (expected-same s u k e es same)
      | inr other ↦
          unskipped s k (some u) e es (slice_eq_sym e.user_key u ∙ other) first next_key
          ∙ expected-other s u k e es other follows.0 (user_keys-le e es sorted.0)
    ]

-- The pass over sorted entries holds for each key the value of its lookup, and no other keys.
pub live-lookup :
    (s : ℕ) (k : Bytes) (es : List Entry)
    → IsSorted es
    → assoc k (live s none es) ≡ value_of (lookup s k es)
live-lookup s k es sorted = live-expected s k none es sorted tt

-- Keys ascend strictly.
abbrev pub IsAscending : List (Bytes × Bytes) → Type 0
IsAscending [] = Unit {0}
IsAscending (p ∷ ps) = All (λ q. slice_lt p.0 q.0 ≡ true) ps × IsAscending ps

-- A strict bound on the keys of the pass, from the entries that it is over.
abbrev pub Above : Bytes → List (Bytes × Bytes) → Type 0
Above u ps = All (λ q. slice_lt u q.0 ≡ true) ps

-- One step of the pass, for a predicate on its result.
pub live_cases {κ} :
    (P : List (Bytes × Bytes) → Type κ) (s : ℕ) (skip : Option Bytes) (e : Entry) (es : List Entry)
    → P (live s skip es)
    → P (live s none es)
    → P (live s (some e.user_key) es)
    → P ((e.user_key, e.stored) ∷ live s (some e.user_key) es)
    → P (live s skip (e ∷ es))
live_cases P s skip e es skipped newer deleted found = elim (Bool-cases (skips skip e.user_key)) [
  | inl old ↦ subst P (sym (live-skipped s skip e es old)) skipped
  | inr fresh ↦ elim (Bool-cases (ltb s e.sequence)) [
    | inl later ↦ subst P (sym (live-newer s skip e es fresh later)) newer
    | inr seen ↦ subst P (sym (live-older s skip e es fresh seen)) (typed e.type)
  ]
]
  where
    typed :
        (t : ValueType)
        → P (elim t [
          | ValueType.deletion ↦ live s (some e.user_key) es
          | ValueType.value ↦ (e.user_key, e.stored) ∷ live s (some e.user_key) es
        ])
    typed ValueType.deletion = deleted
    typed ValueType.value = found

live-Above_lt :
    (s : ℕ) (u : Bytes) (skip : Option Bytes) (es : List Entry)
    → All (λ x. slice_lt u x.user_key ≡ true) es
    → Above u (live s skip es)
live-Above_lt s u skip [] h = unfold live in tt
live-Above_lt s u skip (e ∷ es) h =
    let rest = live-Above_lt s u (some e.user_key) es h.1 in
    live_cases (Above u) s skip e es (live-Above_lt s u skip es h.1) (live-Above_lt s u none es h.1)
      rest (h.0, rest)

live-Above :
    (s : ℕ) (u : Bytes) (es : List Entry)
    → IsSorted es
    → Follows (some u) es
    → Above u (live s (some u) es)
live-Above s u [] sorted follows = unfold live in tt
live-Above s u (e ∷ es) sorted follows =
    let ih = live-Above s u es sorted.1 follows.1 in
    elim (Bool-cases (slice_eq u e.user_key)) [
      | inl same ↦ subst (Above u) (sym (live-same s u e es same)) ih
      | inr other ↦
          let lt : slice_lt u e.user_key ≡ true = ground (arith, follows.0, other) in
          live-Above_lt s u (some u) (e ∷ es)
            (lt, user_keys-lt u e es lt (user_keys-le e es sorted.0))
    ]

-- The keys of the pass over sorted entries ascend strictly.
pub live-IsAscending :
    (s : ℕ) (skip : Option Bytes) (es : List Entry) → IsSorted es → IsAscending (live s skip es)
live-IsAscending s skip [] sorted = unfold live in tt
live-IsAscending s skip (e ∷ es) sorted =
    let rest = live-IsAscending s (some e.user_key) es sorted.1 in
    live_cases IsAscending s skip e es (live-IsAscending s skip es sorted.1)
      (live-IsAscending s none es sorted.1) rest
      (live-Above s e.user_key es sorted.1 (user_keys-le e es sorted.0), rest)
