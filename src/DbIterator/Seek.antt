-- ===== src/DbIterator/Seek.antt =====
-- Seeking to a user key: the iterator delivers what is visible from that key on.
use mizu.Base.{
  Option, none, some, ℕ, ◌≤◌, ◌<◌, ◌≡◌, refl, ap, ◌∙◌, sym, subst, true, false, ◌&&◌, List, [], ◌∷◌,
  leb, if◌then◌else◌, length, All, arith, Bool-cases, inl, inr,
}
use mizu.Base.Order.{Bytes, slice_eq, slice_compare-eq, slice_compare_swap, slice_compare_trans}
use mizu.Status.{is_ok}
use mizu.InternalKey.{ValueType, encode_internal_key, user_then_tag_less}
use mizu.Entries.{Entry, lookup, value_of, entry_less, IsSorted, IsStored, assoc}
use mizu.Entries.Order.{slice_le, slice_le_trans, user_keys-le}
use mizu.DbIterator.{Input, DbIterator, find_next_user_entry, seek}
use mizu.DbIterator.View.{live, live_cases, live-lookup, live-IsAscending, IsAscending}
use mizu.DbIterator.Collect.{input_of, collect, Collects-input_of}

abbrev probe : Bytes → ℕ → Entry
probe target s = record { user_key = target; sequence = s; type = ValueType.value; stored = [] }

-- The entries from the first one on that is not before the target's lookup key.
abbrev pub entries_from : Bytes → ℕ → List Entry → List Entry
entries_from target s [] = []
entries_from target s (e ∷ es) =
    if entry_less e (probe target s) then entries_from target s es else e ∷ es

before-hidden :
    (target k : Bytes) (s : ℕ) (e : Entry)
    → slice_le target k ≡ true
    → entry_less e (probe target s) ≡ true
    → slice_eq e.user_key k && leb e.sequence s ≡ false
unfolding user_then_tag_less
before-hidden target k s e le before = ground (
  arith,
  slice_compare_trans e.user_key target k,
  slice_compare-eq target k,
  slice_compare-eq e.user_key k,
  slice_compare_swap target k,
  slice_compare_swap e.user_key target,
)

lookup-entries_from :
    (target k : Bytes) (s : ℕ) (es : List Entry)
    → slice_le target k ≡ true
    → lookup s k (entries_from target s es) ≡ lookup s k es
unfolding lookup
lookup-entries_from target k s [] le = refl
lookup-entries_from target k s (e ∷ es) le = elim (Bool-cases (entry_less e (probe target s))) [
  | inr reached ↦ rw reached
  | inl before ↦
      rw (before, before-hidden target k s e le before) (lookup-entries_from target k s es le)
]

entries_from-All {κ} :
    (P : Entry → Type κ) (target : Bytes) (s : ℕ) (es : List Entry)
    → All P es
    → All P (entries_from target s es)
entries_from-All P target s [] h = tt
entries_from-All P target s (e ∷ es) h = elim (Bool-cases (entry_less e (probe target s))) [
  | inl before ↦ rw before (entries_from-All P target s es h.1)
  | inr reached ↦ rw reached h
]

entries_from-IsSorted :
    (target : Bytes) (s : ℕ) (es : List Entry) → IsSorted es → IsSorted (entries_from target s es)
entries_from-IsSorted target s [] h = tt
entries_from-IsSorted target s (e ∷ es) h = elim (Bool-cases (entry_less e (probe target s))) [
  | inl before ↦ rw before (entries_from-IsSorted target s es h.1)
  | inr reached ↦ rw reached h
]

entries_from-length :
    (target : Bytes) (s : ℕ) (es : List Entry) → length (entries_from target s es) ≤ length es
entries_from-length target s [] = omega arith
entries_from-length target s (e ∷ es) = ground (arith, entries_from-length target s es)

reached-le :
    (target : Bytes) (s : ℕ) (e : Entry)
    → entry_less e (probe target s) ≡ false
    → slice_le target e.user_key ≡ true
unfolding user_then_tag_less
reached-le target s e h = ground (arith, slice_compare_swap e.user_key target)

later-le :
    (target u : Bytes) (es : List Entry)
    → slice_le target u ≡ true
    → All (λ x. slice_le u x.user_key ≡ true) es
    → All (λ x. slice_le target x.user_key ≡ true) es
later-le target u [] h all = tt
later-le target u (x ∷ es) h all =
    (slice_le_trans target u x.user_key h all.0, later-le target u es h all.1)

entries_from-le :
    (target : Bytes) (s : ℕ) (es : List Entry)
    → IsSorted es
    → All (λ x. slice_le target x.user_key ≡ true) (entries_from target s es)
entries_from-le target s [] h = tt
entries_from-le target s (e ∷ es) h = elim (Bool-cases (entry_less e (probe target s))) [
  | inl before ↦ rw before (entries_from-le target s es h.1)
  | inr reached ↦
      let le = reached-le target s e reached in
      rw reached (le, later-le target e.user_key es le (user_keys-le e es h.0))
]

live-le :
    (s : ℕ) (u : Bytes) (skip : Option Bytes) (es : List Entry)
    → All (λ x. slice_le u x.user_key ≡ true) es
    → All (λ p. slice_le u p.0 ≡ true) (live s skip es)
live-le s u skip [] h = unfold live in tt
live-le s u skip (e ∷ es) h =
    let rest = live-le s u (some e.user_key) es h.1 in
    live_cases (λ ps. All (λ p. slice_le u p.0 ≡ true) ps) s skip e es (live-le s u skip es h.1)
      (live-le s u none es h.1) rest (h.0, rest)

assoc-before :
    (target k : Bytes) (ps : List (Bytes × Bytes))
    → All (λ p. slice_le target p.0 ≡ true) ps
    → slice_le target k ≡ false
    → assoc k ps ≡ none
assoc-before target k [] h before = refl
assoc-before target k (p ∷ ps) h before =
    ground (arith, h.0, assoc-before target k ps h.1 before, slice_compare-eq p.0 k)

-- An iterator without an error over stored entries in order, set to a user key by an input whose own
-- seek stops at the first entry that is not before the key's lookup key, and moved to its end,
-- delivers keys that ascend strictly, and for each key from the target on the value that a lookup at
-- its sequence finds, if it finds one, and nothing else.
pub seek-lookup :
    (es : List Entry) (seek_input : Bytes → Input) (target : Bytes) (it : DbIterator) (fuel : ℕ)
    → IsSorted es
    → All IsStored es
    → is_ok it.status ≡ true
    → length es < fuel
    → seek_input (encode_internal_key target it.visible_sequence ValueType.value)
      ≡ input_of (entries_from target it.visible_sequence es)
    → let delivered : List (Bytes × Bytes) = collect fuel (seek seek_input target it) in
      IsAscending delivered
      × ((k : Bytes)
          → assoc k delivered
            ≡ (if slice_le target k then value_of (lookup it.visible_sequence k es) else none))
unfolding seek find_next_user_entry
seek-lookup es seek_input target it fuel sorted stored good enough seeks =
    let s = it.visible_sequence in
    let left = entries_from target s es in
    let ordered = entries_from-IsSorted target s es sorted in
    let pass : collect fuel (seek seek_input target it) ≡ live s none left =
      rw (good, seeks)
        (Collects-input_of s left (entries_from-All IsStored target s es stored) false
          (record it { input = input_of left; is_valid = false; skip_key = [] }) fuel refl good
          (omega (arith, entries_from-length target s es))) in
    (
      subst IsAscending (sym pass) (live-IsAscending s none left ordered),
      λ k. ap (assoc k) pass ∙ elim (Bool-cases (slice_le target k)) [
        | inl reached ↦
            rw reached (
              live-lookup s k left ordered
              ∙ ap value_of (lookup-entries_from target k s es reached))
        | inr before ↦ rw before (
            assoc-before target k (live s none left)
              (live-le s target none left (entries_from-le target s es sorted)) before)
      ],
    )
