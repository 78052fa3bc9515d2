-- ===== src/DbIterator/Collect.antt =====
-- The iterator over sorted entries delivers the visible keys and values, in order and once each.
use mizu.Base.{
  ℕ, zero, suc, ◌<◌, ◌≡◌, refl, ap, ◌∙◌, sym, subst, Bool, true, false, ◌&&◌, Option, none, some,
  List, [], ◌∷◌, ltb, if◌then◌else◌, length, All, arith, Bool-cases, inl, inr,
}
use mizu.Base.Order.{Bytes, slice_eq}
use mizu.Status.{success, is_ok}
use mizu.InternalKey.{ValueType}
use mizu.InternalKey.Format.{parse_internal_key-encode}
use mizu.Entries.{Entry, lookup, value_of, entry_key, IsSorted, IsStored, assoc}
use mizu.DbIterator.{
  Input, DbIterator, find_loop, find_next_user_entry, valid, seek_to_first, key, value, next,
}
use mizu.DbIterator.View.{
  live, skips, live-newer, live-older, live-skipped, live-lookup, live-IsAscending, IsAscending,
}

-- An input that delivers some entries and ends.
abbrev pub input_of : List Entry → Input
input_of [] = Input.end
input_of (e ∷ es) = Input.entry (entry_key e) e.stored (input_of es)

-- `for (; it.valid(); it.next())`: the keys and values, with fuel.
unfoldable pub collect : ℕ → DbIterator → List (Bytes × Bytes)
collect zero iterator = []
collect (suc fuel) iterator = elim (valid iterator) [
  | true ↦ (key iterator, value iterator) ∷ collect fuel (next iterator)
  | false ↦ []
]

abbrev pub skip_of : Bool → Bytes → Option Bytes
skip_of true k = some k
skip_of false k = none

-- The step of the loop for one stored entry.
abbrev find_entry : Entry → Input → Bool → DbIterator → DbIterator
find_entry e rest skipping iterator = elim (skipping && slice_eq e.user_key iterator.skip_key) [
  | true ↦ find_loop rest true iterator
  | false ↦
      let iterator' = record iterator { skip_key = if skipping then [] else iterator.skip_key } in
      elim (ltb iterator.visible_sequence e.sequence) [
        | true ↦ find_loop rest false iterator'
        | false ↦ elim e.type [
          | ValueType.deletion ↦ find_loop rest true (record iterator { skip_key = e.user_key })
          | ValueType.value ↦ record iterator' {
            input = Input.entry (entry_key e) e.stored rest;
            is_valid = true;
          }
        ]
      ]
]

find_loop-entry :
    (e : Entry) (rest : Input) (skipping : Bool) (it : DbIterator)
    → IsStored e
    → find_loop (Input.entry (entry_key e) e.stored rest) skipping it
      ≡ find_entry e rest skipping it
unfolding find_loop
find_loop-entry e rest skipping it stored =
    rw (parse_internal_key-encode e.user_key e.sequence e.type stored, find_loop)

valid-found :
    (e : Entry) (rest : Input) (it : DbIterator)
    → is_ok it.status ≡ true
    → valid (record it { input = Input.entry (entry_key e) e.stored rest; is_valid = true }) ≡ true
unfolding valid success
valid-found e rest it good = rw good

next-found :
    (e : Entry) (rest : Input) (it : DbIterator)
    → IsStored e
    → next (record it { input = Input.entry (entry_key e) e.stored rest; is_valid = true })
      ≡ find_loop rest true (record it { input = rest; is_valid = false; skip_key = e.user_key })
unfolding next find_next_user_entry
next-found e rest it stored = rw (parse_internal_key-encode e.user_key e.sequence e.type stored)

key-found :
    (e : Entry) (rest : Input) (it : DbIterator)
    → IsStored e
    → key (record it { input = Input.entry (entry_key e) e.stored rest; is_valid = true })
      ≡ e.user_key
unfolding key
key-found e rest it stored = rw (parse_internal_key-encode e.user_key e.sequence e.type stored)

collect-valid :
    (fuel : ℕ) (it : DbIterator)
    → valid it ≡ true
    → collect (suc fuel) it ≡ (key it, value it) ∷ collect fuel (next it)
unfolding collect
collect-valid fuel it h = rw (h, collect)

-- A found entry, and what `next` finds behind it.
collect-found :
    (fuel : ℕ) (e : Entry) (rest : Input) (it : DbIterator)
    → IsStored e
    → is_ok it.status ≡ true
    → collect
        (suc fuel)
        (record it { input = Input.entry (entry_key e) e.stored rest; is_valid = true })
      ≡ (e.user_key, e.stored)
        ∷ collect fuel (
            find_loop rest true
              (record it { input = rest; is_valid = false; skip_key = e.user_key }))
unfolding value
collect-found fuel e rest it stored good =
    let found = record it { input = Input.entry (entry_key e) e.stored rest; is_valid = true } in
    collect-valid fuel found (valid-found e rest it good)
    ∙ ap (λ k. (k, e.stored) ∷ collect fuel (next found)) (key-found e rest it stored)
    ∙ ap (λ i. (e.user_key, e.stored) ∷ collect fuel i) (next-found e rest it stored)

-- The iterators that the loop passes on from `it`.
abbrev resting : DbIterator → Input → Bytes → DbIterator
resting it input k = record it { input = input; is_valid = false; skip_key = k }

-- The statement of the loop over `es`, at every state.
abbrev pub Collects : ℕ → List Entry → Type 0
Collects s es =
    (skipping : Bool) (it : DbIterator) (fuel : ℕ)
    → it.visible_sequence ≡ s
    → is_ok it.status ≡ true
    → length es < fuel
    → collect fuel (find_loop (input_of es) skipping (record it { is_valid = false }))
      ≡ live s (skip_of skipping it.skip_key) es

-- The branch of the loop that looks at the sequence and the type of an entry.
collect-fresh :
    (e : Entry) (es : List Entry) (skip : Option Bytes) (it : DbIterator) (k : Bytes) (fuel : ℕ)
    → Collects it.visible_sequence es
    → IsStored e
    → is_ok it.status ≡ true
    → length es < fuel
    → skips skip e.user_key ≡ false
    → let it' : DbIterator = record it { is_valid = false; skip_key = k } in
      let s : ℕ = it.visible_sequence in
      collect (suc fuel) (elim (ltb s e.sequence) [
        | true ↦ find_loop (input_of es) false it'
        | false ↦ elim e.type [
          | ValueType.deletion ↦
              find_loop (input_of es) true (record it { is_valid = false; skip_key = e.user_key })
          | ValueType.value ↦ record it' {
            input = Input.entry (entry_key e) e.stored (input_of es);
            is_valid = true;
          }
        ]
      ])
      ≡ live s skip (e ∷ es)
collect-fresh e es skip it k fuel ih stored good enough fresh =
    let s = it.visible_sequence in
    elim (Bool-cases (ltb s e.sequence)) [
      | inl newer ↦ rw newer (
          ih false (record it { skip_key = k }) (suc fuel) refl good (omega arith)
          ∙ sym (live-newer s skip e es fresh newer))
      | inr older ↦ rw older (typed e.type ∙ sym (live-older s skip e es fresh older))
    ]
  where
    typed :
        (t : ValueType)
        → collect (suc fuel) (elim t [
          | ValueType.deletion ↦
              find_loop (input_of es) true (record it { is_valid = false; skip_key = e.user_key })
          | ValueType.value ↦ record it {
            input = Input.entry (entry_key e) e.stored (input_of es);
            is_valid = true;
            skip_key = k;
          }
        ])
          ≡ elim t [
            | ValueType.deletion ↦ live it.visible_sequence (some e.user_key) es
            | ValueType.value ↦
                (e.user_key, e.stored) ∷ live it.visible_sequence (some e.user_key) es
          ]
    typed ValueType.deletion =
        ih true (record it { skip_key = e.user_key }) (suc fuel) refl good (omega arith)
    typed ValueType.value =
        collect-found fuel e (input_of es) (record it { skip_key = k }) stored good
        ∙ ap (λ ps. (e.user_key, e.stored) ∷ ps)
            (ih true (record it { input = input_of es; skip_key = e.user_key }) fuel refl good
              enough)

-- An entry of the skipped key is passed over.
collect-skipped :
    (e : Entry) (es : List Entry) (it : DbIterator) (fuel : ℕ)
    → Collects it.visible_sequence es
    → IsStored e
    → is_ok it.status ≡ true
    → length es < fuel
    → slice_eq e.user_key it.skip_key ≡ true
    → collect fuel (find_loop (input_of (e ∷ es)) true (record it { is_valid = false }))
      ≡ live it.visible_sequence (some it.skip_key) (e ∷ es)
collect-skipped e es it fuel ih stored good enough same =
    ap (collect fuel) (
      find_loop-entry e (input_of es) true (record it { is_valid = false }) stored
      ∙ rw (same, find_entry))
    ∙ ih true it fuel refl good enough
    ∙ sym (live-skipped it.visible_sequence (some it.skip_key) e es same)

pub Collects-input_of : (s : ℕ) (es : List Entry) → All IsStored es → Collects s es
Collects-input_of s es stored skipping it zero visible good enough = absurd (omega arith)
Collects-input_of s [] stored skipping it (suc fuel) visible good enough =
    unfold collect find_loop valid live in refl
Collects-input_of s (e ∷ es) stored false it (suc fuel) visible good enough =
    let ih = Collects-input_of it.visible_sequence es stored.1 in
    ap (collect (suc fuel))
      (find_loop-entry e (input_of es) false (record it { is_valid = false }) stored.0)
    ∙ collect-fresh e es none it it.skip_key fuel ih stored.0 good (omega arith) refl
    ∙ ap (λ v. live v none (e ∷ es)) visible
Collects-input_of s (e ∷ es) stored true it (suc fuel) visible good enough =
    let ih = Collects-input_of it.visible_sequence es stored.1 in
    elim (Bool-cases (slice_eq e.user_key it.skip_key)) [
      | inl same ↦
          collect-skipped e es it (suc fuel) ih stored.0 good (omega arith) same
          ∙ ap (λ v. live v (some it.skip_key) (e ∷ es)) visible
      | inr other ↦
          ap (collect (suc fuel)) (
            find_loop-entry e (input_of es) true (record it { is_valid = false }) stored.0
            ∙ rw (other, find_entry))
          ∙ collect-fresh e es (some it.skip_key) it [] fuel ih stored.0 good (omega arith) other
          ∙ ap (λ v. live v (some it.skip_key) (e ∷ es)) visible
    ]

-- From its first position, an iterator without an error over stored entries delivers the pass over
-- them at its sequence; as much fuel as there are entries and one more is enough.
pub collect-seek_to_first :
    (es : List Entry) (it : DbIterator) (fuel : ℕ)
    → All IsStored es
    → is_ok it.status ≡ true
    → length es < fuel
    → collect fuel (seek_to_first (input_of es) it) ≡ live it.visible_sequence none es
unfolding seek_to_first find_next_user_entry
collect-seek_to_first es it fuel stored good enough = rw good (
    Collects-input_of it.visible_sequence es stored false
      (record it { input = input_of es; is_valid = false; skip_key = [] }) fuel refl good enough)

-- An iterator without an error over stored entries in order, set to its first position and moved to
-- its end, delivers keys that ascend strictly, and for each key the value that a lookup at its
-- sequence finds, if it finds one, and nothing else.
pub seek_to_first-lookup :
    (es : List Entry) (it : DbIterator) (fuel : ℕ)
    → IsSorted es
    → All IsStored es
    → is_ok it.status ≡ true
    → length es < fuel
    → let delivered : List (Bytes × Bytes) = collect fuel (seek_to_first (input_of es) it) in
      IsAscending delivered
      × ((k : Bytes) → assoc k delivered ≡ value_of (lookup it.visible_sequence k es))
seek_to_first-lookup es it fuel sorted stored good enough =
    let pass = collect-seek_to_first es it fuel stored good enough in
    (
      subst IsAscending (sym pass) (live-IsAscending it.visible_sequence none es sorted),
      λ k. ap (assoc k) pass ∙ live-lookup it.visible_sequence k es sorted,
    )
