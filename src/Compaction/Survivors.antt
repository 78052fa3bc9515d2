-- ===== src/Compaction/Survivors.antt =====
-- The versions that the loop of `buildCompactionTables` keeps of sorted entries, and its state behind
-- each of them.
use mizu.Base.{
  ℕ, ◌<◌, ◌≡◌, refl, ap, ◌∙◌, sym, subst, Bool, true, false, ◌&&◌, ◌||◌, List, [], ◌∷◌, Option,
  none, some, leb, if◌then◌else◌, All, arith, Bool-cases, inl, inr, ◌⊎◌,
}
use mizu.Base.Order.{Bytes, slice_eq, slice_lt, slice_compare-eq, slice_eq-eq, slice_compare_swap}
use mizu.InternalKey.{ValueType, ParsedInternalKey, max_sequence_number, user_then_tag_less}
use mizu.Entries.{Entry, LookupResult, lookup, value_of, entry_less, IsSorted}
use mizu.Entries.Order.{slice_le, slice_le_trans, user_keys-le, user_keys-lt}
use mizu.Compaction.Loop.{LoopState, is_base_level_for_key, enter_key, drop_version}
use mizu.Compaction.Covers.{
  covers, AllOrdered, is_base_level_for_key-covers, is_base_level_for_key-AllOrdered,
}

abbrev pub parsed_of : Entry → ParsedInternalKey
parsed_of e = record { user_key = e.user_key; sequence = e.sequence; type = e.type }

-- The decision of the loop for one entry.
abbrev pub decide : ℕ → Entry → LoopState → Bool × LoopState
decide oldest e state = drop_version oldest (parsed_of e) (enter_key (parsed_of e) state)

-- The entries that the loop keeps.
unfoldable pub survivors : ℕ → LoopState → List Entry → List Entry
survivors oldest state [] = []
survivors oldest state (e ∷ es) =
    let rest = survivors oldest ((decide oldest e state).1) es in
    if (decide oldest e state).0 then rest else e ∷ rest

-- A read at a sequence of the versions of a compaction, and of those of the levels below it.
abbrev pub read_through : LookupResult → LookupResult → Option Bytes
read_through upper below = elim upper [
  | LookupResult.absent ↦ value_of below
  | LookupResult.deleted ↦ none
  | LookupResult.found v ↦ some v
]

-- What the loop has read comes before the entries that are left.
abbrev pub Ahead : LoopState → List Entry → Type 0
Ahead state es =
    All
      (λ x.
        (slice_lt state.current_user_key x.user_key
          || slice_eq state.current_user_key x.user_key
            && leb x.sequence state.last_sequence_for_key)
        ≡ true)
      es

entry_less-ahead :
    (e x : Entry)
    → entry_less e x ≡ true
    → (slice_lt e.user_key x.user_key
        || slice_eq e.user_key x.user_key && leb x.sequence e.sequence)
      ≡ true
unfolding user_then_tag_less
entry_less-ahead e x h = ground arith

-- What the levels below promise: a key that no table of theirs covers has no version.
abbrev pub Promise : ℕ → LoopState → List Entry → Type 0
Promise s state below =
    AllOrdered state.base_level
    × ((k : Bytes)
        → slice_le state.current_user_key k ≡ true
        → covers k state.base_level ≡ false
        → lookup s k below ≡ LookupResult.absent)

-- The state behind an entry.
pub decide-current :
    (oldest : ℕ) (e : Entry) (state : LoopState)
    → ((decide oldest e state).1).current_user_key ≡ e.user_key
unfolding drop_version enter_key
decide-current oldest e state = ground (arith, slice_compare-eq state.current_user_key e.user_key)

pub decide-last :
    (oldest : ℕ) (e : Entry) (state : LoopState)
    → ((decide oldest e state).1).last_sequence_for_key ≡ e.sequence
unfolding drop_version enter_key
decide-last oldest e state = ground arith

decide-covers :
    (oldest : ℕ) (e : Entry) (state : LoopState) (k : Bytes)
    → slice_le e.user_key k ≡ true
    → covers k (((decide oldest e state).1).base_level) ≡ covers k state.base_level
unfolding drop_version enter_key
decide-covers oldest e state k h =
    ground (arith, is_base_level_for_key-covers e.user_key k state.base_level h)

decide-AllOrdered :
    (oldest : ℕ) (e : Entry) (state : LoopState)
    → AllOrdered state.base_level
    → AllOrdered ((decide oldest e state).1).base_level
unfolding drop_version enter_key
decide-AllOrdered oldest e state h =
    ground (arith, is_base_level_for_key-AllOrdered e.user_key state.base_level h)

-- A version at the oldest snapshot or before it has been read of the current key.
abbrev pub shadowed : ℕ → Bytes → LoopState → Bool
shadowed oldest k state =
    slice_eq state.current_user_key k && leb state.last_sequence_for_key oldest

pub decide-shadowed :
    (oldest : ℕ) (e : Entry) (state : LoopState)
    → shadowed oldest e.user_key state ≡ true
    → (decide oldest e state).0 ≡ true
unfolding drop_version enter_key
decide-shadowed oldest e state h = ground arith

-- Why the loop drops a version.
pub decide-dropped :
    (oldest : ℕ) (e : Entry) (state : LoopState)
    → oldest < max_sequence_number
    → (decide oldest e state).0 ≡ true
    → (shadowed oldest e.user_key state ≡ true)
      ⊎ ((e.type ≡ ValueType.deletion)
          × (leb e.sequence oldest ≡ true)
          × ((is_base_level_for_key e.user_key state.base_level).0 ≡ true))
unfolding drop_version enter_key
decide-dropped oldest e state small h = elim (Bool-cases (shadowed oldest e.user_key state)) [
  | inl old ↦ inl old
  | inr fresh ↦ inr (ground arith, ground arith, ground arith)
]

pub Promise-decide :
    (oldest s : ℕ) (e : Entry) (state : LoopState) (below : List Entry)
    → slice_le state.current_user_key e.user_key ≡ true
    → Promise s state below
    → Promise s ((decide oldest e state).1) below
Promise-decide oldest s e state below h promise = (
  decide-AllOrdered oldest e state promise.0,
  λ k le bare.
      let behind : slice_le e.user_key k ≡ true =
        ap (λ u. slice_le u k) (sym (decide-current oldest e state)) ∙ le in
      promise.1 k (slice_le_trans state.current_user_key e.user_key k h behind)
        (sym (decide-covers oldest e state k behind) ∙ bare),
)

-- What survives were entries before.
pub survivors-All {κ} :
    (P : Entry → Type κ) (oldest : ℕ) (state : LoopState) (es : List Entry)
    → All P es
    → All P (survivors oldest state es)
unfolding survivors
survivors-All P oldest state [] h = tt
survivors-All P oldest state (e ∷ es) h =
    let rest = survivors-All P oldest ((decide oldest e state).1) es h.1 in
    elim (Bool-cases ((decide oldest e state).0)) [
      | inl dropped ↦ rw dropped rest
      | inr stays ↦ rw stays (h.0, rest)
    ]

pub survivors-dropped :
    (oldest : ℕ) (state : LoopState) (e : Entry) (es : List Entry)
    → (decide oldest e state).0 ≡ true
    → survivors oldest state (e ∷ es) ≡ survivors oldest ((decide oldest e state).1) es
unfolding survivors
survivors-dropped oldest state e es h = rw h

pub survivors-kept :
    (oldest : ℕ) (state : LoopState) (e : Entry) (es : List Entry)
    → (decide oldest e state).0 ≡ false
    → survivors oldest state (e ∷ es) ≡ e ∷ survivors oldest ((decide oldest e state).1) es
unfolding survivors
survivors-kept oldest state e es h = rw h

-- The state behind an entry is ahead of what follows it.
pub Ahead-decide :
    (oldest : ℕ) (e : Entry) (state : LoopState) (es : List Entry)
    → All (λ x. entry_less e x ≡ true) es
    → Ahead ((decide oldest e state).1) es
Ahead-decide oldest e state [] h = tt
Ahead-decide oldest e state (x ∷ es) h = (
  rw (decide-current oldest e state, decide-last oldest e state) (entry_less-ahead e x h.0),
  Ahead-decide oldest e state es h.1,
)

-- No entry is of the key.
abbrev pub Free : Bytes → List Entry → Type 0
Free k es = All (λ x. slice_eq x.user_key k ≡ false) es

lt-Free : (k : Bytes) (es : List Entry) → All (λ x. slice_lt k x.user_key ≡ true) es → Free k es
lt-Free k [] h = tt
lt-Free k (e ∷ es) h = (ground (arith, slice_compare_swap k e.user_key, h.0), lt-Free k es h.1)

lookup-Free :
    (s : ℕ) (k : Bytes) (es : List Entry) → Free k es → lookup s k es ≡ LookupResult.absent
unfolding lookup
lookup-Free s k [] h = refl
lookup-Free s k (e ∷ es) h = ground (arith, lookup-Free s k es h.1, h.0)

-- Of a shadowed key nothing survives.
pub survivors-Free :
    (oldest : ℕ) (k : Bytes) (state : LoopState) (es : List Entry)
    → IsSorted es
    → Ahead state es
    → shadowed oldest k state ≡ true
    → Free k (survivors oldest state es)
survivors-Free oldest k state [] sorted ahead old = unfold survivors in tt
survivors-Free oldest k state (e ∷ es) sorted ahead old =
    elim (Bool-cases (slice_eq e.user_key k)) [
      | inl same ↦
          let dropped = decide-shadowed oldest e state (
            subst (λ u. shadowed oldest u state ≡ true) (sym (slice_eq-eq e.user_key k same))
              old) in
          rw (survivors-dropped oldest state e es dropped) (
            survivors-Free oldest k ((decide oldest e state).1) es sorted.1
              (Ahead-decide oldest e state es sorted.0)
              (rw (decide-current oldest e state, decide-last oldest e state)
                (ground (
                  arith,
                  ahead.0,
                  slice_compare_swap state.current_user_key e.user_key,
                  slice_compare-eq state.current_user_key k,
                  slice_compare_swap e.user_key k,
                ))))
      | inr other ↦
          let behind : slice_lt k e.user_key ≡ true = ground (
            arith,
            ahead.0,
            slice_compare-eq state.current_user_key k,
            slice_compare_swap e.user_key k,
          ) in
          lt-Free k (survivors oldest state (e ∷ es)) (
            survivors-All (λ x. slice_lt k x.user_key ≡ true) oldest state (e ∷ es)
              (behind, user_keys-lt k e es behind (user_keys-le e es sorted.0)))
    ]

pub survivors-shadowed :
    (oldest s : ℕ) (k : Bytes) (state : LoopState) (es : List Entry)
    → IsSorted es
    → Ahead state es
    → shadowed oldest k state ≡ true
    → lookup s k (survivors oldest state es) ≡ LookupResult.absent
survivors-shadowed oldest s k state es sorted ahead old =
    lookup-Free s k (survivors oldest state es) (survivors-Free oldest k state es sorted ahead old)

pub shadowed-decide :
    (oldest : ℕ) (k : Bytes) (e : Entry) (state : LoopState)
    → shadowed oldest k ((decide oldest e state).1) ≡ slice_eq e.user_key k && leb e.sequence oldest
shadowed-decide oldest k e state = rw (decide-current oldest e state, decide-last oldest e state)
