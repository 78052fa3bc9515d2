-- ===== src/Version/Exclusive.antt =====
-- Which parts of the two levels of a compaction can hold a key at the same time.
use mizu.Base.{
  ℕ, zero, suc, ◌≡◌, refl, ap, ◌∙◌, sym, true, false, ◌||◌, List, [], ◌∷◌, ◌++◌, take, drop, All,
  arith, Bool-cases, ◌⊎◌, inl, inr, append_assoc,
}
use mizu.Base.Order.{Bytes, slice_lt}
use mizu.Entries.{Entry, LookupResult, lookup, value_of}
use mizu.Compaction.{TableMeta}
use mizu.Compaction.Covers.{level_covers}
use mizu.Compaction.Survivors.{read_through}
use mizu.Manifest.Checked.{first_key, last_key}
use mizu.Version.{Table}
use mizu.Version.Apart.{Ends, EndBefore, BeginBehind, BeginBehind-covered}
use mizu.Version.Lookup.{metas, first_answer, lookup-append, IsHeld, all_entries, lookup-outside}

pub metas-take : (n : ℕ) (ts : List Table) → metas (take n ts) ≡ take n (metas ts)
metas-take zero ts = refl
metas-take (suc n) [] = refl
metas-take (suc n) (t ∷ ts) = ap (λ ms. t.meta ∷ ms) (metas-take n ts)

pub metas-drop : (n : ℕ) (ts : List Table) → metas (drop n ts) ≡ drop n (metas ts)
metas-drop zero ts = refl
metas-drop (suc n) [] = refl
metas-drop (suc n) (t ∷ ts) = metas-drop n ts

pub metas-append : (xs ys : List Table) → metas (xs ++ ys) ≡ metas xs ++ metas ys
metas-append [] ys = refl
metas-append (x ∷ xs) ys = ap (λ ms. x.meta ∷ ms) (metas-append xs ys)

pub EndBefore-uncovered :
    (ts : List TableMeta) (k : Bytes) → EndBefore ts k → level_covers k ts ≡ false
EndBefore-uncovered [] k h = refl
EndBefore-uncovered (t ∷ ts) k h = ground (arith, h.0, EndBefore-uncovered ts k h.1)

pub BeginBehind-uncovered :
    (ts : List TableMeta) (k : Bytes) → BeginBehind ts k → level_covers k ts ≡ false
BeginBehind-uncovered [] k h = refl
BeginBehind-uncovered (t ∷ ts) k h = ground (arith, h.0, BeginBehind-uncovered ts k h.1)

-- Tables that end before others begin share no key with them.
pub Ends-uncovered :
    (xs ys : List TableMeta) (k : Bytes)
    → Ends xs ys
    → level_covers k ys ≡ true
    → level_covers k xs ≡ false
Ends-uncovered xs ys k ends h = elim (Bool-cases (level_covers k xs)) [
  | inr uncovered ↦ uncovered
  | inl covered ↦
      let none = BeginBehind-uncovered ys k (BeginBehind-covered xs ys k ends covered) in
      absurd (ground (arith, h, none))
]

module _ (entries : Table → List Entry) where
  -- Tables whose ranges do not hold a key have no version of it.
  pub lookup-uncovered :
      (s : ℕ) (k : Bytes) (ts : List Table)
      → All (IsHeld entries) ts
      → level_covers k (metas ts) ≡ false
      → lookup s k (all_entries entries ts) ≡ LookupResult.absent
  lookup-uncovered s k [] held h = unfold lookup in refl
  lookup-uncovered s k (t ∷ ts) held h =
      let here : slice_lt k (first_key t.meta) || slice_lt (last_key t.meta) k ≡ true =
        ground (arith, h) in
      ground (
        arith,
        h,
        lookup-append s k (entries t) (all_entries entries ts),
        lookup-outside entries s k (first_key t.meta) (last_key t.meta) (entries t) here
            held.0.ranged,
        lookup-uncovered s k ts held.1,
      )

  pub all_entries-append :
      (xs ys : List Table)
      → all_entries entries (xs ++ ys) ≡ all_entries entries xs ++ all_entries entries ys
  all_entries-append [] ys = refl
  all_entries-append (x ∷ xs) ys =
      ap (λ es. entries x ++ es) (all_entries-append xs ys)
      ∙ sym (append_assoc (entries x) (all_entries entries xs) (all_entries entries ys))

-- The answers that a key has in the parts of the levels: `s` of the inputs, `a` of the tables before
-- the overlap, `o` of the overlap, `b` of those behind it, `u` of the outputs, `l` of the level below.
pub answers_level0 :
    (s a o b u l : LookupResult)
    → (a ≡ LookupResult.absent) ⊎ ((s ≡ LookupResult.absent) × (o ≡ LookupResult.absent))
    → (b ≡ LookupResult.absent)
      ⊎ ((s ≡ LookupResult.absent) × (o ≡ LookupResult.absent) × (u ≡ LookupResult.absent))
    → read_through u l ≡ read_through (first_answer s o) l
    → value_of (first_answer (first_answer a (first_answer u b)) l)
      ≡ value_of (first_answer s (first_answer (first_answer a (first_answer o b)) l))
answers_level0 s a o b u l first last same = ground arith
