-- ===== src/Version/Change.antt =====
-- What a compaction makes of the levels of a version.
use mizu.Base.{
  ℕ, ◌+◌, ◌-◌, ◌≤◌, ◌≡◌, refl, ap, ◌∙◌, sym, subst, Bool, true, false, ◌||◌, List, [], ◌∷◌, ◌++◌,
  take, drop, All, All-drop, arith, Bool-cases, inl, inr, take-append-drop, drop-add,
}
use mizu.Base.Order.{Bytes, slice_lt, slice_compare_swap, slice_compare_trans, slice_compare-eq}
use mizu.Compaction.{TableMeta}
use mizu.Compaction.Covers.{level_covers}
use mizu.Compaction.Pick.{
  IndexRange, CompactionPlan, in_range, user_range, lower_bound, find_behind, overlapping_range,
  plan_for,
}
use mizu.Compaction.Pick.Overlap.{user_range-within, plan_for-bounds}
use mizu.Manifest.Checked.{first_key, last_key, IsApart}
use mizu.Version.Apart.{
  IsRanged, Ends, IsApart-append, IsApart-split, Ends-split_right, Ends-append_right, EndBefore,
  BeginBehind, EndBefore-covered, BeginBehind-covered, lower_bound-EndBefore,
  find_behind-BeginBehind,
}

EndBefore-later :
    (ts : List TableMeta) (s k : Bytes) → EndBefore ts s → slice_lt k s ≡ false → EndBefore ts k
EndBefore-later [] s k h le = tt
EndBefore-later (t ∷ ts) s k h le = (
  ground (
    arith,
    h.0,
    slice_compare_trans (last_key t) s k,
    slice_compare-eq s k,
    slice_compare_swap s k,
  ),
  EndBefore-later ts s k h.1 le,
)

BeginBehind-earlier :
    (ts : List TableMeta) (l k : Bytes) → BeginBehind ts l → slice_lt l k ≡ false → BeginBehind ts k
BeginBehind-earlier [] l k h le = tt
BeginBehind-earlier (t ∷ ts) l k h le = (
  ground (
    arith,
    h.0,
    slice_compare_trans k l (first_key t),
    slice_compare-eq k l,
    slice_compare_swap k l,
  ),
  BeginBehind-earlier ts l k h.1 le,
)

-- A range splits a list of tables in three.
abbrev pub before : IndexRange → List TableMeta → List TableMeta
before range ts = take range.begin ts

abbrev pub behind : IndexRange → List TableMeta → List TableMeta
behind range ts = drop range.end ts

pub split-in_range :
    (range : IndexRange) (ts : List TableMeta)
    → range.begin ≤ range.end
    → before range ts ++ (in_range range ts ++ behind range ts) ≡ ts
split-in_range range ts h =
    ap (λ r. before range ts ++ (in_range range ts ++ r))
      (sym (drop-add range.begin (range.end - range.begin) range.end ts (omega arith)))
    ∙ ap (λ r. before range ts ++ r)
        (take-append-drop (range.end - range.begin) (drop range.begin ts))
    ∙ take-append-drop range.begin ts

module _ (oldest level : ℕ) (inputs : IndexRange) (source target : List TableMeta) where
  abbrev pub planned : CompactionPlan
  planned = plan_for oldest level inputs source target

  -- A key that an input or an overlapping table can hold.
  abbrev pub taken : Bytes → Bool
  taken k =
      level_covers k (in_range inputs source) || level_covers k (in_range planned.overlaps target)

  -- The first and the last key of an output are keys of the inputs.
  abbrev pub IsOutput : TableMeta → Type 0
  IsOutput t = (taken (first_key t) ≡ true) × (taken (last_key t) ≡ true)

module _ (oldest level : ℕ) (inputs : IndexRange) (source target : List TableMeta)
    (apart : IsApart target) (ranged : All IsRanged target) where
  abbrev overlaps : IndexRange
  overlaps = (planned oldest level inputs source target).overlaps

  inside-bounds :
      (k : Bytes)
      → level_covers k (in_range inputs source) ≡ true
      → EndBefore (before overlaps target) k × BeginBehind (behind overlaps target) k
  unfolding plan_for overlapping_range
  inside-bounds k h =
      let tables = in_range inputs source in
      let range = user_range tables in
      let inside = user_range-within k tables h in
      let first = lower_bound range.0 target in
      let count = find_behind range.1 (drop first target) in
      let (kept, left, ends) =
        IsApart-split (take first target) (drop first target)
          (subst IsApart (sym (take-append-drop first target)) apart) in
      (
        EndBefore-later (take first target) range.0 k (lower_bound-EndBefore range.0 target)
            (ground (arith, inside)),
        BeginBehind-earlier (drop (first + count) target) range.1 k
            (subst (λ ts. BeginBehind ts range.1) (drop-add first count (first + count) target refl)
              (find_behind-BeginBehind range.1 (drop first target) left
                (All-drop IsRanged first target ranged)))
            (ground (arith, inside)),
      )

  overlap-bounds :
      (k : Bytes)
      → level_covers k (in_range overlaps target) ≡ true
      → EndBefore (before overlaps target) k × BeginBehind (behind overlaps target) k
  overlap-bounds k h =
      let range = overlaps in
      let bounds = plan_for-bounds oldest level inputs source target in
      let (a, b, ends) =
        IsApart-split (before range target) (in_range range target ++ behind range target)
          (subst IsApart (sym (split-in_range range target bounds.0)) apart) in
      let (c, d, ends') = IsApart-split (in_range range target) (behind range target) b in
      let (left, right) =
        Ends-split_right (before range target) (in_range range target) (behind range target) ends in
      (
        EndBefore-covered (before range target) (in_range range target) k left h,
        BeginBehind-covered (in_range range target) (behind range target) k ends' h,
      )

  pub taken-bounds :
      (k : Bytes)
      → taken oldest level inputs source target k ≡ true
      → EndBefore (before overlaps target) k × BeginBehind (behind overlaps target) k
  taken-bounds k h = elim (Bool-cases (level_covers k (in_range inputs source))) [
    | inl input ↦ inside-bounds k input
    | inr other ↦ overlap-bounds k (rw other at h)
  ]

  pub outputs-Ends :
      (outputs : List TableMeta)
      → All (IsOutput oldest level inputs source target) outputs
      → Ends outputs (behind overlaps target)
  outputs-Ends [] h = tt
  outputs-Ends (t ∷ ts) h = ((taken-bounds (last_key t) h.0.1).1, outputs-Ends ts h.1)

  Ends-outputs :
      (xs outputs : List TableMeta)
      → ((k : Bytes) → taken oldest level inputs source target k ≡ true → EndBefore xs k)
      → All (IsOutput oldest level inputs source target) outputs
      → Ends xs outputs
  Ends-outputs [] outputs h all = tt
  Ends-outputs (x ∷ xs) outputs h all =
      (one outputs all, Ends-outputs xs outputs (λ k t. (h k t).1) all)
    where
      one :
          (os : List TableMeta)
          → All (IsOutput oldest level inputs source target) os
          → All (λ y. slice_lt (last_key x) (first_key y) ≡ true) os
      one [] a = tt
      one (o ∷ os) a = ((h (first_key o) a.0.0).0, one os a.1)

  -- The output level with the outputs in place of the overlapping tables is apart again.
  pub replaced-IsApart :
      (outputs : List TableMeta)
      → IsApart outputs
      → All (IsOutput oldest level inputs source target) outputs
      → IsApart (before overlaps target ++ (outputs ++ behind overlaps target))
  replaced-IsApart outputs good all =
      let range = overlaps in
      let bounds = plan_for-bounds oldest level inputs source target in
      let (a, b, ends) =
        IsApart-split (before range target) (in_range range target ++ behind range target)
          (subst IsApart (sym (split-in_range range target bounds.0)) apart) in
      let (c, d, ends') = IsApart-split (in_range range target) (behind range target) b in
      let (left, right) =
        Ends-split_right (before range target) (in_range range target) (behind range target) ends in
      IsApart-append (before range target) (outputs ++ behind range target) a
        (IsApart-append outputs (behind range target) good d (outputs-Ends outputs all))
        (Ends-append_right (before range target) outputs (behind range target)
          (Ends-outputs (before range target) outputs (λ k t. (taken-bounds k t).0) all) right)
