-- ===== src/Compaction/Keeps.antt =====
-- The versions that the loop of `buildCompactionTables` drops are those that no read at the oldest
-- snapshot or behind it can see.
use mizu.Base.{
  ℕ, ◌≤◌, ◌<◌, ◌≡◌, refl, ap, ◌∙◌, sym, subst, true, false, ◌&&◌, List, [], ◌∷◌, leb, All, arith,
  Bool-cases, inl, inr,
}
use mizu.Base.Order.{Bytes, slice_compare, slice_eq, slice_eq-eq}
use mizu.InternalKey.{ValueType, max_sequence_number}
use mizu.Entries.{Entry, LookupResult, lookup, answer, IsSorted, IsStored}
use mizu.Entries.Order.{slice_le}
use mizu.Compaction.Tables.{TableMeta}
use mizu.Compaction.Loop.{LoopState, initial_state}
use mizu.Compaction.Covers.{covers, AllOrdered, is_base_level_for_key-true}
use mizu.Compaction.Survivors.{
  shadowed-decide, Ahead, Promise, shadowed, decide-dropped, Promise-decide, Ahead-decide,
  survivors-dropped, survivors-kept, survivors-shadowed, decide, survivors, read_through,
}

-- An entry of another key, or a newer one, changes nothing for a lookup.
lookup-hidden :
    (s : ℕ) (k : Bytes) (e : Entry) (es : List Entry)
    → slice_eq e.user_key k && leb e.sequence s ≡ false
    → lookup s k (e ∷ es) ≡ lookup s k es
unfolding lookup
lookup-hidden s k e es h = rw h

lookup-visible :
    (s : ℕ) (k : Bytes) (e : Entry) (es : List Entry)
    → slice_eq e.user_key k ≡ true
    → leb e.sequence s ≡ true
    → lookup s k (e ∷ es) ≡ answer e
unfolding lookup
lookup-visible s k e es h old = rw (h, old)

-- The read of what survives at a key that is not shadowed.
abbrev Reads : ℕ → ℕ → Bytes → List Entry → LoopState → List Entry → Type 0
Reads oldest s k below state es =
    read_through (lookup s k (survivors oldest state es)) (lookup s k below)
    ≡ read_through (lookup s k es) (lookup s k below)

-- The entry is not what the lookup is for.
Reads-hidden :
    (oldest s : ℕ) (k : Bytes) (below : List Entry) (state : LoopState) (e : Entry)
    (es : List Entry)
    → slice_eq e.user_key k && leb e.sequence s ≡ false
    → Reads oldest s k below ((decide oldest e state).1) es
    → Reads oldest s k below state (e ∷ es)
Reads-hidden oldest s k below state e es hidden ih = elim (Bool-cases ((decide oldest e state).0)) [
  | inl dropped ↦ rw (survivors-dropped oldest state e es dropped, lookup-hidden s k e es hidden) ih
  | inr stays ↦
      rw
        (
          survivors-kept oldest state e es stays,
          lookup-hidden s k e es hidden,
          lookup-hidden s k e (survivors oldest ((decide oldest e state).1) es) hidden,
        )
        ih
]

-- The entry is a version of the key, and stays.
Reads-kept :
    (oldest s : ℕ) (k : Bytes) (below : List Entry) (state : LoopState) (e : Entry)
    (es : List Entry)
    → slice_eq e.user_key k ≡ true
    → oldest ≤ s
    → (decide oldest e state).0 ≡ false
    → (shadowed oldest k ((decide oldest e state).1) ≡ false
        → Reads oldest s k below ((decide oldest e state).1) es)
    → Reads oldest s k below state (e ∷ es)
Reads-kept oldest s k below state e es same old stays ih = elim (Bool-cases (leb e.sequence s)) [
  | inl seen ↦ rw (
    survivors-kept oldest state e es stays,
    lookup-visible s k e es same seen,
    lookup-visible s k e (survivors oldest ((decide oldest e state).1) es) same seen,
  )
  | inr newer ↦
      Reads-hidden oldest s k below state e es (rw (same, newer))
        (ih (shadowed-decide oldest k e state ∙ ground arith))
]

-- The entry is the tombstone of the key that the loop drops.
Reads-tombstone :
    (oldest s : ℕ) (k : Bytes) (below : List Entry) (state : LoopState) (e : Entry)
    (es : List Entry)
    → slice_eq e.user_key k ≡ true
    → oldest ≤ s
    → IsSorted (e ∷ es)
    → lookup s k below ≡ LookupResult.absent
    → e.type ≡ ValueType.deletion
    → leb e.sequence oldest ≡ true
    → (decide oldest e state).0 ≡ true
    → Reads oldest s k below state (e ∷ es)
Reads-tombstone oldest s k below state e es same old sorted bare deleted seen dropped = rw (
  survivors-dropped oldest state e es dropped,
  survivors-shadowed oldest s k ((decide oldest e state).1) es sorted.1
      (Ahead-decide oldest e state es sorted.0)
      (shadowed-decide oldest k e state ∙ rw (same, seen)),
  bare,
  lookup-visible s k e es same (ground arith),
  deleted,
)

survivors-Reads :
    (oldest s : ℕ) (k : Bytes) (below : List Entry) (state : LoopState) (es : List Entry)
    → oldest ≤ s
    → oldest < max_sequence_number
    → IsSorted es
    → Ahead state es
    → Promise s state below
    → shadowed oldest k state ≡ false
    → Reads oldest s k below state es
survivors-Reads oldest s k below state [] old small sorted ahead promise fresh =
    unfold survivors in refl
survivors-Reads oldest s k below state (e ∷ es) old small sorted ahead promise fresh =
    let state' = (decide oldest e state).1 in
    let reached : slice_le state.current_user_key e.user_key ≡ true = ground (arith, ahead.0) in
    let ih = λ (h : shadowed oldest k state' ≡ false).
      survivors-Reads oldest s k below state' es old small sorted.1
        (Ahead-decide oldest e state es sorted.0)
        (Promise-decide oldest s e state below reached promise) h in
    elim (Bool-cases (slice_eq e.user_key k)) [
      | inr other ↦
          Reads-hidden oldest s k below state e es (rw other)
            (ih (shadowed-decide oldest k e state ∙ rw other))
      | inl same ↦
          let at_key : e.user_key ≡ k = slice_eq-eq e.user_key k same in
          elim (Bool-cases ((decide oldest e state).0)) [
            | inr stays ↦ Reads-kept oldest s k below state e es same old stays ih
            | inl dropped ↦ elim (decide-dropped oldest e state small dropped) [
              | inl shadow ↦
                  let hidden : shadowed oldest k state ≡ true =
                    subst (λ u. shadowed oldest u state ≡ true) at_key shadow in
                  cc
              | inr (deleted, seen, bottom) ↦
                  Reads-tombstone oldest s k below state e es same old sorted
                    (promise.1 k
                      (subst (λ u. slice_le state.current_user_key u ≡ true) at_key reached)
                      (ap (λ u. covers u state.base_level) (sym at_key)
                        ∙ is_base_level_for_key-true e.user_key state.base_level promise.0 bottom))
                    deleted seen dropped
            ]
          ]
    ]

empty-Ahead :
    (levels : List (List TableMeta)) (es : List Entry)
    → All (λ e. e.sequence ≤ max_sequence_number) es
    → Ahead (initial_state levels) es
unfolding initial_state slice_compare
empty-Ahead levels [] h = tt
empty-Ahead levels (e ∷ es) h = (ground (arith, h.0), empty-Ahead levels es h.1)

empty-le : (k : Bytes) → slice_le [] k ≡ true
unfolding slice_compare
empty-le [] = refl
empty-le (x ∷ xs) = refl

-- The same from the first state of the loop.
pub survivors-lookup :
    (oldest s : ℕ) (levels : List (List TableMeta)) (es below : List Entry)
    → oldest < max_sequence_number
    → oldest ≤ s
    → IsSorted es
    → All IsStored es
    → AllOrdered levels
    → ((k : Bytes) → covers k levels ≡ false → lookup s k below ≡ LookupResult.absent)
    → (k : Bytes)
    → read_through (lookup s k (survivors oldest (initial_state levels) es)) (lookup s k below)
      ≡ read_through (lookup s k es) (lookup s k below)
survivors-lookup oldest s levels es below small old sorted stored ordered promise k =
    survivors-Reads oldest s k below (initial_state levels) es old small sorted
      (empty-Ahead levels es stored) (unfold initial_state in (ordered, λ k' le. promise k'))
      (unfold initial_state in ground arith)
