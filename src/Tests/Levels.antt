-- ===== src/Tests/Levels.antt =====
-- Versions with two tables, and a compaction of the upper one into the lower one.
use mizu.Base.{
  arith, ℕ, ◌+◌, ◌≡◌, refl, ap, ◌∙◌, sym, subst, Bool, true, false, ◌&&◌, Option, none, some, List,
  [], ◌∷◌, ◌++◌, map, All, ◌==◌, if◌then◌else◌, Bool-cases, inl, inr,
}
use mizu.Base.Order.{Bytes, slice_eq, slice_eq-eq, slice_compare}
use mizu.Status.{Result, ok, err, success, io_error}
use mizu.InternalKey.{
  ValueType, ParsedInternalKey, internal_key_less, encode_internal_key, parse_internal_key,
  decode_tag, user_then_tag_less,
}
use mizu.Coding.{put_fixed64, get_fixed64, decode_fixed64}
use mizu.InternalKey.Format.{parse_internal_key-encode}
use mizu.Entries.{Entry, entry_key, IsStored, lookup}
use mizu.DbIterator.Collect.{input_of}
use mizu.Compaction.Runs.{record_of}
use mizu.MergingIterator.Merge.{merge_all, merge, merge_into}
use mizu.Version.OutputWriter.{fresh_writer, write_outputs, add, add_record, finish, finish_output}
use mizu.Version.Outputs.{IsTableOf}
use mizu.Version.Built.{IsMergeable}
use mizu.Compaction.{TableMeta, table_user_key}
use mizu.Compaction.Loop.{
  compaction_loop, drop_version, enter_key, initial_state, is_base_level_for_key,
}
use mizu.Compaction.Survivors.{survivors}
use mizu.Compaction.Pick.{
  CompactionOptions, CompactionPlan, plan_for, pick_compaction, level_at_limit, overlapping_range,
  lower_bound, user_range, user_range_loop, find_behind,
}
use mizu.Version.{Table, Version, get}
use mizu.Version.Lookup.{metas, IsHeld, all_entries, get-lookup}
use mizu.Version.Levelled.{visible, levels_of, lower_of, IsLevelled}
use mizu.Version.Compacted.{
  compaction_inputs, compacted, with_compaction-IsLevelled, get-with_compaction,
}

abbrev entry : Bytes → ℕ → ValueType → Bytes → Entry
entry user_key sequence type stored = record {
  user_key = user_key;
  sequence = sequence;
  type = type;
  stored = stored;
}

-- Table 1 writes key 1 and deletes key 2, which table 2 holds beside key 3; table 3 is the output.
abbrev new_entries : List Entry
new_entries =
    entry (1 ∷ []) 5 ValueType.value (50 ∷ []) ∷ entry (2 ∷ []) 4 ValueType.deletion [] ∷ []

abbrev old_entries : List Entry
old_entries =
    entry (2 ∷ []) 2 ValueType.value (20 ∷ []) ∷ entry (3 ∷ []) 1 ValueType.value (30 ∷ []) ∷ []

abbrev kept_entries : List Entry
kept_entries =
    entry (1 ∷ []) 5 ValueType.value (50 ∷ []) ∷ entry (3 ∷ []) 1 ValueType.value (30 ∷ []) ∷ []

abbrev meta : ℕ → Bytes → Bytes → TableMeta
meta number smallest largest = record {
  number = number;
  file_size = 100;
  smallest_key = encode_internal_key smallest 5 ValueType.value;
  largest_key = encode_internal_key largest 1 ValueType.value;
}

abbrev table_of : TableMeta → List Entry → Table
table_of m es = record { meta = m; get = λ k s. ok (lookup s k es) }

abbrev new_table : Table
new_table = table_of (meta 1 (1 ∷ []) (2 ∷ [])) new_entries

abbrev old_table : Table
old_table = table_of (meta 2 (2 ∷ []) (3 ∷ [])) old_entries

abbrev output_table : Table
output_table = table_of (meta 3 (1 ∷ []) (3 ∷ [])) kept_entries

abbrev entries : Table → List Entry
entries t =
    if t.meta.number == 1
    then new_entries
    else if t.meta.number == 2
    then old_entries
    else kept_entries

abbrev version : Version
version = record { level0 = []; level1 = new_table ∷ []; level2 = old_table ∷ [] }

new-IsHeld : IsHeld entries new_table
unfolding slice_compare table_user_key parse_internal_key encode_internal_key put_fixed64 decode_tag
    get_fixed64 decode_fixed64
new-IsHeld = record { reads = λ k s. refl; ranged = (refl, (refl, tt)); ordered = refl }

old-IsHeld : IsHeld entries old_table
unfolding slice_compare table_user_key parse_internal_key encode_internal_key put_fixed64 decode_tag
    get_fixed64 decode_fixed64
old-IsHeld = record { reads = λ k s. refl; ranged = (refl, (refl, tt)); ordered = refl }

output-IsHeld : IsHeld entries output_table
unfolding slice_compare table_user_key parse_internal_key encode_internal_key put_fixed64 decode_tag
    get_fixed64 decode_fixed64
output-IsHeld = record { reads = λ k s. refl; ranged = (refl, (refl, tt)); ordered = refl }

levelled : IsLevelled entries version
levelled = record {
  held0 = tt;
  held1 = (new-IsHeld, tt);
  held2 = (old-IsHeld, tt);
  apart1 = (tt, tt);
  apart2 = (tt, tt);
}

get-lookup_example :
    get (2 ∷ []) 5 version
    ≡ ok (
        lookup 5 (2 ∷ []) (
          all_entries entries version.level0
          ++ (all_entries entries version.level1 ++ all_entries entries version.level2)))
get-lookup_example =
    get-lookup entries (2 ∷ []) 5 version tt (new-IsHeld, tt) (old-IsHeld, tt) (tt, tt) (tt, tt)

-- A limit of 0 bytes makes level 1 the input.
abbrev options : CompactionOptions
options = record { level1_bytes = 0; output_bytes = 100 }

abbrev plan : CompactionPlan
plan = plan_for 5 1 (record { begin = 0; end = 1 }) (metas version.level1) (metas version.level2)

picked : pick_compaction (some (levels_of version)) 5 options ≡ some plan
unfolding pick_compaction level_at_limit
picked = refl

abbrev outputs : List Table
outputs = output_table ∷ []

-- A builder that can build the one output of this compaction.
abbrev records_eq : List (Bytes × Bytes) → List (Bytes × Bytes) → Bool
records_eq [] [] = true
records_eq [] (r ∷ rs) = false
records_eq (r ∷ rs) [] = false
records_eq ((k, v) ∷ rs) ((k', v') ∷ rs') = slice_eq k k' && slice_eq v v' && records_eq rs rs'

abbrev entry_of : Option ParsedInternalKey → Bytes → Entry
entry_of none stored = entry [] 0 ValueType.value stored
entry_of (some p) stored = entry p.user_key p.sequence p.type stored

entry-eq :
    (a b : Entry)
    → IsStored a
    → IsStored b
    → slice_eq (entry_key a) (entry_key b) ≡ true
    → slice_eq a.stored b.stored ≡ true
    → a ≡ b
entry-eq a b sa sb h k =
    let same =
      sym (parse_internal_key-encode a.user_key a.sequence a.type sa)
      ∙ ap parse_internal_key (slice_eq-eq (entry_key a) (entry_key b) h)
      ∙ parse_internal_key-encode b.user_key b.sequence b.type sb in
    ap (λ o. entry_of o a.stored) same
    ∙ ap (λ v. entry b.user_key b.sequence b.type v) (slice_eq-eq a.stored b.stored k)

entries-eq :
    (xs ys : List Entry)
    → All IsStored xs
    → All IsStored ys
    → records_eq (map record_of xs) (map record_of ys) ≡ true
    → xs ≡ ys
entries-eq [] [] sx sy h = refl
entries-eq [] (y ∷ ys) sx sy h = absurd cc
entries-eq (x ∷ xs) [] sx sy h = absurd cc
entries-eq (x ∷ xs) (y ∷ ys) sx sy h =
    ap (λ e. e ∷ xs) (entry-eq x y sx.0 sy.0 (ground (arith, h)) (ground (arith, h)))
    ∙ ap (λ es. y ∷ es) (entries-eq xs ys sx.1 sy.1 (ground (arith, h)))

abbrev records : List (Bytes × Bytes)
records = map record_of kept_entries

abbrev finish_builder : ℕ → List (Bytes × Bytes) → Result Table
finish_builder n rs =
    if records_eq rs records then ok output_table else err (io_error "no such table")

abbrev IsOf : Table → List Entry → Type 0
IsOf t [] = Unit {0}
IsOf t (e ∷ es) = IsTableOf entries t e es

kept-IsOf : IsOf output_table kept_entries
kept-IsOf = record { holds = refl; reads = λ k s. refl; smallest = refl; largest = refl }

kept_tables :
    (n : ℕ) (e : Entry) (es : List Entry) (t : Table)
    → All IsStored (e ∷ es)
    → finish_builder n (map record_of (e ∷ es)) ≡ ok t
    → IsTableOf entries t e es
kept_tables n e es t stored h = elim (Bool-cases (records_eq (map record_of (e ∷ es)) records)) [
  | inr other ↦ let h' = rw other at h in absurd cc
  | inl same ↦
      let h' : output_table ≡ t = (let g = rw same at h in cc) in
      let whole = entries-eq (e ∷ es) kept_entries stored (omega arith, (omega arith, tt)) same in
      subst (λ u. IsOf u (e ∷ es)) h' (subst (IsOf output_table) (sym whole) kept-IsOf)
]

ready : IsMergeable (map entries (compaction_inputs plan version))
unfolding slice_compare plan_for overlapping_range lower_bound user_range user_range_loop
    find_behind user_then_tag_less table_user_key parse_internal_key encode_internal_key put_fixed64
    decode_tag get_fixed64 decode_fixed64
ready = (
  ((((refl, tt), (tt, tt))), (((refl, tt), (tt, tt)), tt)),
  ((((refl, (refl, tt)), ((refl, (refl, tt)), tt)), tt), (tt, tt)),
  ((omega arith, (omega arith, tt)), ((omega arith, (omega arith, tt)), tt)),
)

looped :
    compaction_loop 5 []
      (initial_state (lower_of plan.input_level version))
      (input_of (merge_all (map entries (compaction_inputs plan version))))
    ≡ ok records
unfolding compaction_loop survivors drop_version enter_key initial_state is_base_level_for_key
    merge_all merge merge_into slice_compare plan_for overlapping_range lower_bound user_range
    user_range_loop find_behind user_then_tag_less table_user_key parse_internal_key
    encode_internal_key put_fixed64 decode_tag get_fixed64 decode_fixed64 internal_key_less
looped = refl

-- Opening an output and adding a record succeed, and the target size is never reached.
wrote :
    write_outputs (λ n. success) (λ rs r. success) finish_builder (λ rs. 0) 100 fresh_writer records
    ≡ ok outputs
unfolding write_outputs add add_record finish finish_output success slice_compare table_user_key
    parse_internal_key encode_internal_key put_fixed64 decode_tag get_fixed64 decode_fixed64
wrote = refl

with_compaction-IsLevelled_example : IsLevelled entries (compacted plan outputs version)
with_compaction-IsLevelled_example =
    with_compaction-IsLevelled (λ n. success) (λ rs r. success) finish_builder (λ rs. 0) 100 entries
      kept_tables 5 options version plan records outputs levelled picked (omega arith) ready looped
      wrote

get-with_compaction_example :
    visible (get (2 ∷ []) (5 + 2) (compacted plan outputs version))
    ≡ visible (get (2 ∷ []) (5 + 2) version)
get-with_compaction_example =
    get-with_compaction (λ n. success) (λ rs r. success) finish_builder (λ rs. 0) 100 entries
      kept_tables 5 options version plan records outputs levelled picked (omega arith) ready looped
      wrote 2 (2 ∷ [])
