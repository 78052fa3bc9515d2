-- ===== src/Tests/Reads.antt =====
-- The iterator and the compaction on a few versions.
use mizu.Base.{
  if◌then◌else◌, none, map, Bool-cases, inl, inr, ap, ℕ, ◌≡◌, refl, true, false, List, [], ◌∷◌, All,
  arith,
}
use mizu.Base.Order.{Bytes, slice_compare, slice_eq, slice_eq-eq}
use mizu.Status.{success}
use mizu.InternalKey.{ValueType, user_then_tag_less, max_sequence_number}
use mizu.Entries.{Entry, LookupResult, lookup, value_of, entry_key, IsSorted, IsStored, assoc}
use mizu.DbIterator.{Input, DbIterator, seek_to_first, seek}
use mizu.DbIterator.View.{IsAscending}
use mizu.DbIterator.Collect.{input_of, collect, seek_to_first-lookup}
use mizu.DbIterator.Seek.{entries_from, seek-lookup}
use mizu.Entries.Order.{slice_le}
use mizu.Compaction.{TableMeta, table_user_key}
use mizu.Compaction.Loop.{compaction_loop, initial_state}
use mizu.Compaction.Covers.{covers}
use mizu.Compaction.Runs.{
  Preserves, IsReclaimed, record_of, compaction_loop-Preserves, compaction_loop-IsReclaimed,
  compaction_loop-exhausted,
}
use mizu.Status.{ok}

abbrev version : Bytes → ℕ → ValueType → Bytes → Entry
version k s t v = record { user_key = k; sequence = s; type = t; stored = v }

-- Three versions of key 1, a deleted key 2, and key 3.
abbrev versions : List Entry
versions =
    version (1 ∷ []) 9 ValueType.value (90 ∷ [])
    ∷ version (1 ∷ []) 6 ValueType.deletion []
    ∷ version (1 ∷ []) 3 ValueType.value (30 ∷ [])
    ∷ version (2 ∷ []) 5 ValueType.deletion []
    ∷ version (2 ∷ []) 4 ValueType.value (40 ∷ [])
    ∷ version (3 ∷ []) 2 ValueType.value (20 ∷ [])
    ∷ []

abbrev iterator_at : ℕ → DbIterator
iterator_at s = record {
  input = Input.end;
  visible_sequence = s;
  is_valid = false;
  status = success;
  skip_key = [];
}

versions-IsSorted : IsSorted versions
versions-IsSorted =
    unfold user_then_tag_less slice_compare in
    (
      (refl, (refl, (refl, (refl, (refl, tt))))),
      (
        (refl, (refl, (refl, (refl, tt)))),
        ((refl, (refl, (refl, tt))), ((refl, (refl, tt)), ((refl, tt), (tt, tt)))),
      ),
    )

versions-IsStored : All IsStored versions
versions-IsStored = ground arith

seek_to_first-lookup_example :
    IsAscending (collect 7 (seek_to_first (input_of versions) (iterator_at 7)))
    × ((k : Bytes)
        → assoc k (collect 7 (seek_to_first (input_of versions) (iterator_at 7)))
          ≡ value_of (lookup 7 k versions))
unfolding success
seek_to_first-lookup_example =
    seek_to_first-lookup versions (iterator_at 7) 7 versions-IsSorted versions-IsStored refl
      (omega arith)

-- A table below from key 2 to key 4.
abbrev lower_levels : List (List TableMeta)
lower_levels =
    (record {
      number = 8;
      file_size = 100;
      smallest_key = entry_key (version (2 ∷ []) 1 ValueType.value (11 ∷ []));
      largest_key = entry_key (version (4 ∷ []) 1 ValueType.value (12 ∷ []));
    }
      ∷ [])
    ∷ []

abbrev below : List Entry
below =
    version (2 ∷ []) 1 ValueType.value (11 ∷ []) ∷ version (4 ∷ []) 1 ValueType.value (12 ∷ []) ∷ []

covered : (covers (2 ∷ []) lower_levels ≡ true) × (covers (4 ∷ []) lower_levels ≡ true)
unfolding table_user_key mizu.InternalKey.parse_internal_key mizu.InternalKey.encode_internal_key
    mizu.Coding.put_fixed64 mizu.InternalKey.decode_tag mizu.Coding.get_fixed64
    mizu.Coding.decode_fixed64 slice_compare
covered = (refl, refl)

uncovered :
    (u k : Bytes)
    → covers u lower_levels ≡ true
    → slice_eq u k ≡ true
    → covers k lower_levels ≡ false
    → ⊥
uncovered u k in_table same bare =
    let on_key = ap (λ x. covers x lower_levels) (slice_eq-eq u k same) in cc

promise :
    (s : ℕ) (k : Bytes) → covers k lower_levels ≡ false → lookup s k below ≡ LookupResult.absent
promise s k h = elim (Bool-cases (slice_eq (2 ∷ []) k)) [
  | inl two ↦ absurd (uncovered (2 ∷ []) k covered.0 two h)
  | inr not_two ↦ elim (Bool-cases (slice_eq (4 ∷ []) k)) [
    | inl four ↦ absurd (uncovered (4 ∷ []) k covered.1 four h)
    | inr not_four ↦ unfold lookup in rw (not_two, not_four)
  ]
]

compaction_loop-Preserves_example :
    (records : List (Bytes × Bytes)) × (compaction_loop 6 []
        (initial_state lower_levels)
        (input_of versions)
      ≡ ok records)
    × Preserves 6 below versions records
compaction_loop-Preserves_example =
    compaction_loop-Preserves 6 lower_levels versions below (omega arith) versions-IsSorted
      versions-IsStored ((tt, tt), tt) promise

compaction_loop-IsReclaimed_example :
    (left : List Entry) × (compaction_loop 6 [] (initial_state lower_levels) (input_of versions)
      ≡ ok (map record_of left))
    × IsReclaimed 6 left
compaction_loop-IsReclaimed_example =
    compaction_loop-IsReclaimed 6 lower_levels versions versions-IsSorted versions-IsStored

-- The tombstone of key 2 stays for the table below; the one of key 1 goes with the version under it.
kept_versions :
    compaction_loop 6 [] (initial_state lower_levels) (input_of versions)
    ≡ ok (
        map record_of (
          version (1 ∷ []) 9 ValueType.value (90 ∷ [])
          ∷ version (2 ∷ []) 5 ValueType.deletion []
          ∷ version (3 ∷ []) 2 ValueType.value (20 ∷ [])
          ∷ []))
unfolding compaction_loop mizu.InternalKey.parse_internal_key mizu.InternalKey.encode_internal_key
    mizu.Coding.put_fixed64 mizu.InternalKey.decode_tag mizu.Coding.get_fixed64
    mizu.Coding.decode_fixed64 mizu.InternalKey.internal_key_less user_then_tag_less slice_compare
    mizu.Compaction.Loop.drop_version mizu.Compaction.Loop.enter_key initial_state
    mizu.Compaction.Loop.is_base_level_for_key mizu.Compaction.Loop.blocks
    mizu.Compaction.Loop.advance_index table_user_key
kept_versions = refl

delivered_versions :
    collect 7 (seek_to_first (input_of versions) (iterator_at 7)) ≡ (3 ∷ [], 20 ∷ []) ∷ []
unfolding collect mizu.DbIterator.valid seek_to_first success mizu.DbIterator.find_next_user_entry
    mizu.InternalKey.parse_internal_key mizu.InternalKey.encode_internal_key mizu.Coding.put_fixed64
    mizu.InternalKey.decode_tag mizu.Coding.get_fixed64 mizu.Coding.decode_fixed64 slice_compare
    mizu.DbIterator.key mizu.DbIterator.value mizu.DbIterator.next
delivered_versions = refl

compaction_loop-exhausted_example :
    compaction_loop max_sequence_number [] (initial_state lower_levels) (input_of versions) ≡ ok []
compaction_loop-exhausted_example =
    compaction_loop-exhausted lower_levels versions versions-IsSorted versions-IsStored

-- A seek to key 2 stops at the tombstone of key 2.
seek-lookup_example :
    let found : List (Bytes × Bytes) =
      collect 7
        (seek (λ key. input_of (entries_from (2 ∷ []) 7 versions)) (2 ∷ []) (iterator_at 7)) in
    IsAscending found
    × ((k : Bytes)
        → assoc k found ≡ (if slice_le (2 ∷ []) k then value_of (lookup 7 k versions) else none))
unfolding success
seek-lookup_example =
    seek-lookup versions (λ key. input_of (entries_from (2 ∷ []) 7 versions)) (2 ∷ [])
      (iterator_at 7) 7 versions-IsSorted versions-IsStored refl (omega arith) refl
