-- ===== src/Compaction/Pick/Overlap.antt =====
-- The range of a compaction on the output level is complete, and the size test of a level.
use mizu.Base.{
  ℕ, zero, suc, Bool-cases, inl, inr, ◌+◌, ◌-◌, ◌≡◌, ◌≢◌, refl, ap, ◌∙◌, Bool, true, false, not,
  ◌&&◌, ◌||◌, Option, none, some, List, [], ◌∷◌, leb, ◌==◌, if◌then◌else◌, length, take, drop,
  length-drop, All, ◌<◌, ◌≤◌, arith,
}
use mizu.Base.Order.{
  Bytes, slice_lt, is_lt, slice_compare_refl, slice_compare-eq, slice_compare_swap,
  slice_compare_trans,
}
use mizu.Compaction.Tables.{TableMeta, table_user_key}
use mizu.Compaction.Covers.{level_covers, IsOrdered, none_holds}
use mizu.Compaction.Pick.{
  IndexRange, Levels, CompactionOptions, CompactionPlan, at_limit_loop, level_at_limit, in_range,
  user_range_loop, user_range, lower_bound, find_behind, overlapping_range, plan_for,
  pick_compaction, needs_compaction, level0_compaction_trigger,
}

abbrev pub total_size : List TableMeta → ℕ
total_size [] = 0
total_size (t ∷ ts) = t.file_size + total_size ts

at_limit_loop-total_size :
    (remaining : ℕ) (ts : List TableMeta)
    → remaining ≢ 0
    → at_limit_loop remaining ts ≡ leb remaining (total_size ts)
unfolding at_limit_loop
at_limit_loop-total_size remaining [] h = ground arith
at_limit_loop-total_size remaining (t ∷ ts) h =
    ground (arith, at_limit_loop-total_size (remaining - t.file_size) ts)

-- The size test of a level, which subtracts and never adds up, is the test of the total size of its
-- tables; a level without tables never passes.
pub level_at_limit-total_size :
    (ts : List TableMeta) (limit : ℕ)
    → level_at_limit ts limit ≡ not (length ts == 0) && leb limit (total_size ts)
unfolding level_at_limit
level_at_limit-total_size [] limit = refl
level_at_limit-total_size (t ∷ ts) limit = ground (arith, at_limit_loop-total_size limit (t ∷ ts))

-- The key is neither before nor behind a range.
abbrev pub within : Bytes → Bytes × Bytes → Bool
within k range = not (slice_lt k range.0) && not (slice_lt range.1 k)

within-wider :
    (k s l s' l' : Bytes)
    → within k (s, l) || within k (s', l') ≡ true
    → within k (if slice_lt s' s then s' else s, if slice_lt l l' then l' else l) ≡ true
within-wider k s l s' l' h = ground (
  arith,
  slice_compare_trans k s' s,
  slice_compare_trans k s s',
  slice_compare_trans l' l k,
  slice_compare_trans l l' k,
  slice_compare_swap s s',
  slice_compare_swap l l',
  slice_compare-eq s s',
  slice_compare-eq l l',
)

user_range_loop-within :
    (k s l : Bytes) (ts : List TableMeta)
    → within k (s, l) || level_covers k ts ≡ true
    → within k (user_range_loop s l ts) ≡ true
unfolding user_range_loop
user_range_loop-within k s l [] h = ground arith
user_range_loop-within k s l (t ∷ ts) h =
    let ts' = table_user_key t.smallest_key in
    let tl' = table_user_key t.largest_key in
    user_range_loop-within k (if slice_lt ts' s then ts' else s) (if slice_lt l tl' then tl' else l)
      ts (ground (arith, within-wider k s l ts' tl'))

pub user_range-within :
    (k : Bytes) (ts : List TableMeta) → level_covers k ts ≡ true → within k (user_range ts) ≡ true
unfolding user_range
user_range-within k [] h = cc
user_range-within k (t ∷ ts) h =
    user_range_loop-within k (table_user_key t.smallest_key) (table_user_key t.largest_key) ts h

before-bare :
    (k s : Bytes) (ts : List TableMeta)
    → slice_lt k s ≡ false
    → level_covers k (take (lower_bound s ts) ts) ≡ false
unfolding lower_bound
before-bare k s [] h = refl
before-bare k s (t ∷ ts) h = elim (Bool-cases (slice_lt (table_user_key t.largest_key) s)) [
  | inr reached ↦ rw reached
  | inl before ↦ rw before (
      ground (
        arith,
        before-bare k s ts h,
        slice_compare_trans k (table_user_key t.largest_key) s,
        slice_compare_swap k (table_user_key t.largest_key),
        slice_compare-eq k (table_user_key t.largest_key),
      ))
]

behind-bare :
    (k l : Bytes) (ts : List TableMeta)
    → IsOrdered ts
    → slice_lt l k ≡ false
    → level_covers k (drop (find_behind l ts) ts) ≡ false
unfolding find_behind
behind-bare k l [] ordered h = refl
behind-bare k l (t ∷ ts) ordered h =
    elim (Bool-cases (slice_lt l (table_user_key t.smallest_key))) [
      | inr reached ↦ rw reached (behind-bare k l ts ordered.1 h)
      | inl behind ↦ rw behind (
          none_holds k (table_user_key t.smallest_key) (t ∷ ts)
            (ground (
              arith,
              slice_compare_trans l (table_user_key t.smallest_key) k,
              slice_compare_swap k (table_user_key t.smallest_key),
              slice_compare_swap l k,
              slice_compare-eq k (table_user_key t.smallest_key),
              slice_compare-eq k l,
            ))
            (ap is_lt (slice_compare_refl (table_user_key t.smallest_key)), ordered.0))
    ]

IsOrdered-drop : (n : ℕ) (ts : List TableMeta) → IsOrdered ts → IsOrdered (drop n ts)
IsOrdered-drop zero ts h = h
IsOrdered-drop (suc n) [] h = tt
IsOrdered-drop (suc n) (t ∷ ts) h = IsOrdered-drop n ts h.1

drop_add : (m n : ℕ) (ts : List TableMeta) → drop (m + n) ts ≡ drop n (drop m ts)
drop_add zero n ts = ap (λ i. drop i ts) (omega arith)
drop_add (suc m) zero [] = ap (λ i. drop i []) {x = suc m + 0} {y = suc m} (omega arith)
drop_add (suc m) (suc n) [] =
    ap (λ i. drop i []) {x = suc m + suc n} {y = suc (m + suc n)} (omega arith)
drop_add (suc m) n (t ∷ ts) =
    ap (λ i. drop i (t ∷ ts)) {x = suc m + n} {y = suc (m + n)} (omega arith) ∙ drop_add m n ts

-- What a plan leaves of the output level holds no key that an input of the plan holds.
abbrev pub Isolates : CompactionPlan → List TableMeta → List TableMeta → Type 0
Isolates plan source target =
    (k : Bytes)
    → level_covers k (in_range plan.inputs source)
        && (level_covers k (take plan.overlaps.begin target)
            || level_covers k (drop plan.overlaps.end target))
      ≡ false

plan_for-bare :
    (oldest level : ℕ) (inputs : IndexRange) (source target : List TableMeta)
    → IsOrdered target
    → (k : Bytes) → level_covers k (in_range inputs source) ≡ true
    → let plan : CompactionPlan = plan_for oldest level inputs source target in
      (level_covers k (take plan.overlaps.begin target) ≡ false)
      × (level_covers k (drop plan.overlaps.end target) ≡ false)
unfolding plan_for overlapping_range
plan_for-bare oldest level inputs source target ordered k h =
    let tables = in_range inputs source in
    let range = user_range tables in
    let inside = user_range-within k tables h in
    let first = lower_bound range.0 target in
    (
      before-bare k range.0 target (ground arith),
      ap (λ ts. level_covers k ts) (drop_add first (find_behind range.1 (drop first target)) target)
          ∙ behind-bare k range.1 (drop first target) (IsOrdered-drop first target ordered)
              (ground arith),
    )

plan_for-Isolates :
    (oldest level : ℕ) (inputs : IndexRange) (source target : List TableMeta)
    → IsOrdered target
    → Isolates (plan_for oldest level inputs source target) source target
plan_for-Isolates oldest level inputs source target ordered k =
    let plan = plan_for oldest level inputs source target in
    elim (Bool-cases (level_covers k (in_range inputs source))) [
      | inl inside ↦
          let (front, back) = plan_for-bare oldest level inputs source target ordered k inside in
          unfold plan_for in rw inside (ground (arith, front, back))
      | inr outside ↦ unfold plan_for in rw outside
    ]

abbrev pub source_of : CompactionPlan → Levels → List TableMeta
source_of plan version = if plan.input_level == 0 then version.level0 else version.level1

abbrev pub target_of : CompactionPlan → Levels → List TableMeta
target_of plan version = if plan.input_level == 0 then version.level1 else version.level2

-- A good plan: its inputs are there, and what it leaves of the output level is apart from them.
abbrev pub IsGoodPlan : Levels → CompactionPlan → Type 0
IsGoodPlan version plan =
    (plan.inputs.begin < plan.inputs.end)
    × (plan.inputs.end ≤ length (source_of plan version))
    × (plan.overlaps.begin ≤ plan.overlaps.end)
    × (plan.overlaps.end ≤ length (target_of plan version))
    × Isolates plan (source_of plan version) (target_of plan version)

abbrev pub Picks : Levels → Option CompactionPlan → Bool → Type 0
Picks version none needed = needed ≡ false
Picks version (some plan) needed = (needed ≡ true) × IsGoodPlan version plan

-- No table's largest user key is before that of an earlier table.
abbrev pub IsAscending : List TableMeta → Type 0
IsAscending [] = Unit {0}
IsAscending (t ∷ ts) =
    All (λ u. slice_lt (table_user_key u.largest_key) (table_user_key t.largest_key) ≡ false) ts
    × IsAscending ts

lower_bound-length : (s : Bytes) (ts : List TableMeta) → lower_bound s ts ≤ length ts
unfolding lower_bound
lower_bound-length s [] = omega arith
lower_bound-length s (t ∷ ts) = ground (arith, lower_bound-length s ts)

find_behind-length : (l : Bytes) (ts : List TableMeta) → find_behind l ts ≤ length ts
unfolding find_behind
find_behind-length l [] = omega arith
find_behind-length l (t ∷ ts) = ground (arith, find_behind-length l ts)

overlapping_range-bounds :
    (ts : List TableMeta) (s l : Bytes)
    → let range : IndexRange = overlapping_range ts s l in
      (range.begin ≤ range.end) × (range.end ≤ length ts)
unfolding overlapping_range
overlapping_range-bounds ts s l =
    let first = lower_bound s ts in
    let count = find_behind l (drop first ts) in
    let here = lower_bound-length s ts in
    let there = find_behind-length l (drop first ts) in
    let left = length-drop first ts in (omega arith, omega arith)

pub plan_for-bounds :
    (oldest level : ℕ) (inputs : IndexRange) (source target : List TableMeta)
    → let plan : CompactionPlan = plan_for oldest level inputs source target in
      (plan.overlaps.begin ≤ plan.overlaps.end) × (plan.overlaps.end ≤ length target)
unfolding plan_for
plan_for-bounds oldest level inputs source target =
    let range = user_range (in_range inputs source) in
    overlapping_range-bounds target range.0 range.1

level_at_limit-length :
    (ts : List TableMeta) (limit : ℕ) → level_at_limit ts limit ≡ true → 1 ≤ length ts
unfolding level_at_limit
level_at_limit-length [] limit h = cc
level_at_limit-length (t ∷ ts) limit h = omega arith

-- On a version whose levels 1 and 2 are in order by the smallest and by the largest user key of the
-- tables, as the binary searches of the code need it, `pickCompaction` returns a plan exactly when
-- `needsCompaction` holds. The plan's inputs are one or more tables of its level, its overlaps are a
-- range of the next level, and no table outside that range can hold a user key that an input can hold.
pub pick_compaction-Picks :
    (version : Levels) (oldest : ℕ) (options : CompactionOptions)
    → IsOrdered version.level1
    → IsOrdered version.level2
    → IsAscending version.level1
    → IsAscending version.level2
    → Picks version
        (pick_compaction (some version) oldest options)
        (needs_compaction version options)
unfolding pick_compaction needs_compaction
pick_compaction-Picks version oldest options one two up_one up_two =
    elim (Bool-cases (leb level0_compaction_trigger (length version.level0))) [
      | inl many ↦ rw many (
        refl,
        (let bounds =
              plan_for-bounds oldest 0 (record { begin = 0; end = length version.level0 })
                version.level0 version.level1 in
            unfold plan_for in
            (
              ground arith,
              ground (arith),
              bounds.0,
              bounds.1,
              plan_for-Isolates oldest 0 (record { begin = 0; end = length version.level0 })
                  version.level0 version.level1 one,
            )),
      )
      | inr few ↦ elim (Bool-cases (level_at_limit version.level1 options.level1_bytes)) [
        | inl large ↦
            rw (few, large)
              (
                refl,
                (let bounds =
                      plan_for-bounds oldest 1 (record { begin = 0; end = 1 }) version.level1
                        version.level2 in
                    unfold plan_for in
                    (
                      ground arith,
                      ground
                          (arith, level_at_limit-length version.level1 options.level1_bytes large),
                      bounds.0,
                      bounds.1,
                      plan_for-Isolates oldest 1 (record { begin = 0; end = 1 }) version.level1
                          version.level2 two,
                    )),
              )
        | inr small ↦ rw (few, small) refl
      ]
    ]
