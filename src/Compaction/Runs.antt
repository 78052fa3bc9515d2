-- ===== src/Compaction/Runs.antt =====
-- The loop of `buildCompactionTables` over sorted entries hands on those that survive.
use mizu.Base.{
  ℕ, ◌+◌, ◌≤◌, ◌<◌, ◌≡◌, refl, ap, ◌∙◌, true, false, ◌&&◌, ◌||◌, List, [], ◌∷◌, map, leb, ◌==◌,
  length, All, arith, Bool-cases, inl, inr,
}
use mizu.Base.Order.{Bytes, slice_eq, slice_eq_refl}
use mizu.Status.{ok, ◌>>=◌}
use mizu.InternalKey.{max_sequence_number, internal_key_less, user_then_tag_less}
use mizu.InternalKey.Format.{parse_internal_key-encode}
use mizu.InternalKey.Order.{internal_key_less-encode}
use mizu.Entries.{Entry, LookupResult, lookup, entry_key, entry_less, IsSorted, IsStored}
use mizu.DbIterator.Collect.{input_of}
use mizu.Compaction.Tables.{TableMeta}
use mizu.Compaction.Loop.{LoopState, drop_version, enter_key, compaction_loop, initial_state, kept}
use mizu.Compaction.Keeps.{survivors-lookup}
use mizu.Compaction.Covers.{covers, AllOrdered}
use mizu.Compaction.Survivors.{
  decide-last, Free, survivors-Free, Ahead-decide, shadowed-decide, decide, survivors, read_through,
  survivors-All, survivors-dropped, survivors-kept,
}

abbrev pub record_of : Entry → Bytes × Bytes
record_of e = (entry_key e, e.stored)

abbrev Precedes : Bytes → List Entry → Type 0
Precedes previous es =
    All (λ x. (length previous == 0 || internal_key_less previous (entry_key x)) ≡ true) es

loop-entry :
    (oldest : ℕ) (previous : Bytes) (state : LoopState) (e : Entry) (es : List Entry)
    → (length previous == 0 || internal_key_less previous (entry_key e)) ≡ true
    → IsStored e
    → compaction_loop oldest previous state (input_of (e ∷ es)) ≡ (
        compaction_loop oldest (entry_key e) ((decide oldest e state).1) (input_of es) >>= λ more.
        ok (kept (decide oldest e state) (entry_key e) e.stored more))
unfolding compaction_loop
loop-entry oldest previous state e es fits stored =
    rw (fits, parse_internal_key-encode e.user_key e.sequence e.type stored)

entry_key-less :
    (e x : Entry)
    → IsStored e
    → IsStored x
    → entry_less e x ≡ true
    → internal_key_less (entry_key e) (entry_key x) ≡ true
unfolding user_then_tag_less
entry_key-less e x stored later h =
    internal_key_less-encode e.user_key x.user_key e.sequence x.sequence e.type x.type stored later
    ∙ ground (arith, h)

Precedes-entry :
    (e : Entry) (es : List Entry)
    → IsStored e
    → All IsStored es
    → All (λ x. entry_less e x ≡ true) es
    → Precedes (entry_key e) es
Precedes-entry e [] stored later h = tt
Precedes-entry e (x ∷ es) stored later h =
    (ground (arith, entry_key-less e x stored later.0 h.0), Precedes-entry e es stored later.1 h.1)

loop-survivors :
    (oldest : ℕ) (previous : Bytes) (state : LoopState) (es : List Entry)
    → IsSorted es
    → All IsStored es
    → Precedes previous es
    → compaction_loop oldest previous state (input_of es)
      ≡ ok (map record_of (survivors oldest state es))
loop-survivors oldest previous state [] sorted stored fits =
    unfold compaction_loop survivors in refl
loop-survivors oldest previous state (e ∷ es) sorted stored fits =
    loop-entry oldest previous state e es fits.0 stored.0
    ∙ ap (λ r. r >>= λ more. ok (kept (decide oldest e state) (entry_key e) e.stored more))
        (loop-survivors oldest (entry_key e) ((decide oldest e state).1) es sorted.1 stored.1
          (Precedes-entry e es stored.0 stored.1 sorted.0))
    ∙ elim (Bool-cases ((decide oldest e state).0)) [
      | inl dropped ↦ rw (dropped, survivors-dropped oldest state e es dropped)
      | inr stays ↦ rw (stays, survivors-kept oldest state e es stays)
    ]

pub survivors-IsSorted :
    (oldest : ℕ) (state : LoopState) (es : List Entry)
    → IsSorted es
    → IsSorted (survivors oldest state es)
survivors-IsSorted oldest state [] sorted = unfold survivors in tt
survivors-IsSorted oldest state (e ∷ es) sorted =
    let rest = survivors-IsSorted oldest ((decide oldest e state).1) es sorted.1 in
    elim (Bool-cases ((decide oldest e state).0)) [
      | inl dropped ↦ rw (survivors-dropped oldest state e es dropped) rest
      | inr stays ↦ rw (survivors-kept oldest state e es stays) (
        survivors-All (λ x. entry_less e x ≡ true) oldest ((decide oldest e state).1) es sorted.0,
        rest,
      )
    ]

Precedes-empty : (es : List Entry) → Precedes [] es
Precedes-empty [] = tt
Precedes-empty (e ∷ es) = (refl, Precedes-empty es)

-- The records of the loop are those of the survivors of its input.
pub compaction_loop-survivors :
    (oldest : ℕ) (levels : List (List TableMeta)) (es : List Entry)
    → IsSorted es
    → All IsStored es
    → compaction_loop oldest [] (initial_state levels) (input_of es)
      ≡ ok (map record_of (survivors oldest (initial_state levels) es))
compaction_loop-survivors oldest levels es sorted stored =
    loop-survivors oldest [] (initial_state levels) es sorted stored (Precedes-empty es)

-- What a compaction may drop: the records are those of sorted entries, and at the oldest snapshot
-- or any later sequence each key reads through them and the entries below as through all.
abbrev pub Preserves : ℕ → List Entry → List Entry → List (Bytes × Bytes) → Type 0
Preserves oldest below es records =
    (kept_entries : List Entry) × (records ≡ map record_of kept_entries)
    × IsSorted kept_entries
    × ((later : ℕ) (k : Bytes)
        → let s : ℕ = oldest + later in
          read_through (lookup s k kept_entries) (lookup s k below)
          ≡ read_through (lookup s k es) (lookup s k below))

-- The loop of a compaction over sorted entries whose sequences fit the keys ends without an error.
-- Its records are those of entries in order, through which each key reads, at the oldest snapshot or
-- any later sequence and in front of the entries below, as through all the entries. The tables of
-- each lower level are in order, they cover each key that has a version among the entries below, and
-- the oldest snapshot is not the greatest sequence.
pub compaction_loop-Preserves :
    (oldest : ℕ) (levels : List (List TableMeta)) (es below : List Entry)
    → oldest < max_sequence_number
    → IsSorted es
    → All IsStored es
    → AllOrdered levels
    → ((s : ℕ) (k : Bytes) → covers k levels ≡ false → lookup s k below ≡ LookupResult.absent)
    → (records : List (Bytes × Bytes)) × (compaction_loop oldest []
          (initial_state levels)
          (input_of es)
        ≡ ok records)
      × Preserves oldest below es records
compaction_loop-Preserves oldest levels es below small sorted stored ordered promise =
    let left = survivors oldest (initial_state levels) es in
    (
      map record_of left,
      loop-survivors oldest [] (initial_state levels) es sorted stored (Precedes-empty es),
      (
        left,
        refl,
        survivors-IsSorted oldest (initial_state levels) es sorted,
        λ later k.
            let s = oldest + later in
            survivors-lookup oldest s levels es below small (omega arith) sorted stored ordered
              (promise s) k,
      ),
    )

-- Behind a version at the oldest snapshot or before it, no version of its key is left.
abbrev pub IsReclaimed : ℕ → List Entry → Type 0
IsReclaimed oldest [] = Unit {0}
IsReclaimed oldest (e ∷ es) =
    All (λ x. slice_eq x.user_key e.user_key && leb e.sequence oldest ≡ false) es
    × IsReclaimed oldest es

Free-reclaimed :
    (oldest : ℕ) (e : Entry) (es : List Entry)
    → (leb e.sequence oldest ≡ true → Free e.user_key es)
    → All (λ x. slice_eq x.user_key e.user_key && leb e.sequence oldest ≡ false) es
Free-reclaimed oldest e [] h = tt
Free-reclaimed oldest e (x ∷ es) h = elim (Bool-cases (leb e.sequence oldest)) [
  | inl old ↦ (ground (arith, (h old).0), Free-reclaimed oldest e es (λ o. (h o).1))
  | inr new ↦ (ground arith, Free-reclaimed oldest e es (λ o. (h o).1))
]

survivors-IsReclaimed :
    (oldest : ℕ) (state : LoopState) (es : List Entry)
    → IsSorted es
    → IsReclaimed oldest (survivors oldest state es)
survivors-IsReclaimed oldest state [] sorted = unfold survivors in tt
survivors-IsReclaimed oldest state (e ∷ es) sorted =
    let state' = (decide oldest e state).1 in
    let rest = survivors-IsReclaimed oldest state' es sorted.1 in
    elim (Bool-cases ((decide oldest e state).0)) [
      | inl dropped ↦ rw (survivors-dropped oldest state e es dropped) rest
      | inr stays ↦ rw (survivors-kept oldest state e es stays) (
        Free-reclaimed oldest e (survivors oldest state' es) (λ old.
            survivors-Free oldest e.user_key state' es sorted.1
              (Ahead-decide oldest e state es sorted.0)
              (shadowed-decide oldest e.user_key e state ∙ rw (slice_eq_refl e.user_key, old))),
        rest,
      )
    ]

-- Over any lower levels, the records of the loop over sorted entries are those of
-- entries that hold, of each user key, at most one version at the oldest snapshot or before it, the
-- last of them.
pub compaction_loop-IsReclaimed :
    (oldest : ℕ) (levels : List (List TableMeta)) (es : List Entry)
    → IsSorted es
    → All IsStored es
    → (left : List Entry) × (compaction_loop oldest [] (initial_state levels) (input_of es)
        ≡ ok (map record_of left))
      × IsReclaimed oldest left
compaction_loop-IsReclaimed oldest levels es sorted stored = (
  survivors oldest (initial_state levels) es,
  loop-survivors oldest [] (initial_state levels) es sorted stored (Precedes-empty es),
  survivors-IsReclaimed oldest (initial_state levels) es sorted,
)

decide-exhausted :
    (e : Entry) (state : LoopState)
    → state.last_sequence_for_key ≤ max_sequence_number
    → (decide max_sequence_number e state).0 ≡ true
unfolding drop_version enter_key
decide-exhausted e state h = ground arith

survivors-exhausted :
    (state : LoopState) (es : List Entry)
    → state.last_sequence_for_key ≤ max_sequence_number
    → All IsStored es
    → survivors max_sequence_number state es ≡ []
survivors-exhausted state [] h stored = unfold survivors in refl
survivors-exhausted state (e ∷ es) h stored =
    survivors-dropped max_sequence_number state e es (decide-exhausted e state h)
    ∙ survivors-exhausted ((decide max_sequence_number e state).1) es
        (rw (decide-last max_sequence_number e state) stored.0) stored.1

-- If the oldest snapshot is the greatest sequence, the loop over sorted entries whose sequences fit
-- the keys keeps nothing, be they values that a read at that sequence finds.
pub compaction_loop-exhausted :
    (levels : List (List TableMeta)) (es : List Entry)
    → IsSorted es
    → All IsStored es
    → compaction_loop max_sequence_number [] (initial_state levels) (input_of es) ≡ ok []
compaction_loop-exhausted levels es sorted stored =
    loop-survivors max_sequence_number [] (initial_state levels) es sorted stored
      (Precedes-empty es)
    ∙ ap (λ left. ok (map record_of left))
        (survivors-exhausted (initial_state levels) es (unfold initial_state in omega arith) stored)
