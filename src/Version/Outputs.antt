-- ===== src/Version/Outputs.antt =====
-- Tables that hold sorted entries, one behind the other, and share no user key.
use mizu.Base.{ℕ, true, ◌&&◌, ◌≡◌, refl, ap, ◌∙◌, sym, subst, Bool, List, [], ◌∷◌, ◌++◌, All, arith}
use mizu.Base.Order.{Bytes, slice_lt, is_eq, slice_compare_refl}
use mizu.Status.{ok}
use mizu.InternalKey.Format.{parse_internal_key-encode}
use mizu.Entries.{Entry, entry_key, lookup, IsSorted, IsStored}
use mizu.Entries.Order.{slice_le, slice_le_trans, user_keys-le}
use mizu.Compaction.{TableMeta, table_user_key}
use mizu.Manifest.Checked.{first_key, last_key, IsApart}
use mizu.Version.State.{Table}
use mizu.Version.Lookup.{metas, IsHeld, all_entries}
use mizu.Version.Apart.{All-split}

pub entry-user_key : (e : Entry) → IsStored e → table_user_key (entry_key e) ≡ e.user_key
unfolding table_user_key
entry-user_key e h = rw (parse_internal_key-encode e.user_key e.sequence e.type h) refl

abbrev pub last_of : Entry → List Entry → Entry
last_of e [] = e
last_of e (x ∷ xs) = last_of x xs

-- User keys that do not descend.
abbrev pub Ascends : List Entry → Type 0
Ascends [] = Unit {0}
Ascends (e ∷ es) = All (λ x. slice_le e.user_key x.user_key ≡ true) es × Ascends es

pub IsSorted-Ascends : (es : List Entry) → IsSorted es → Ascends es
IsSorted-Ascends [] h = tt
IsSorted-Ascends (e ∷ es) h = (user_keys-le e es h.0, IsSorted-Ascends es h.1)

pub Ascends-left : (xs ys : List Entry) → Ascends (xs ++ ys) → Ascends xs
Ascends-left [] ys h = tt
Ascends-left (x ∷ xs) ys h =
    ((All-split (λ y. slice_le x.user_key y.user_key ≡ true) xs ys h.0).0, Ascends-left xs ys h.1)

pub Ascends-right : (xs ys : List Entry) → Ascends (xs ++ ys) → Ascends ys
Ascends-right [] ys h = h
Ascends-right (x ∷ xs) ys h = Ascends-right xs ys h.1

slice_le_refl : (k : Bytes) → slice_le k k ≡ true
slice_le_refl k = ground (arith, ap is_eq (slice_compare_refl k))

pub last_of-le :
    (e : Entry) (es ys : List Entry)
    → Ascends (e ∷ es ++ ys)
    → All (λ y. slice_le (last_of e es).user_key y.user_key ≡ true) ys
last_of-le e [] ys h = h.0
last_of-le e (x ∷ es) ys h = last_of-le x es ys h.1

-- The last of ascending entries is behind the first one.
first-le-last :
    (e : Entry) (es : List Entry)
    → Ascends (e ∷ es)
    → slice_le e.user_key (last_of e es).user_key ≡ true
first-le-last e [] h = slice_le_refl e.user_key
first-le-last e (x ∷ es) h =
    slice_le_trans e.user_key x.user_key (last_of x es).user_key h.0.0 (first-le-last x es h.1)

le-last_of :
    (e : Entry) (es : List Entry)
    → Ascends (e ∷ es)
    → All (λ y. slice_le y.user_key (last_of e es).user_key ≡ true) (e ∷ es)
le-last_of e [] h = (slice_le_refl e.user_key, tt)
le-last_of e (x ∷ es) h = (first-le-last e (x ∷ es) h, le-last_of x es h.1)

pub last_of-append : (e x : Entry) (es : List Entry) → last_of e (es ++ x ∷ []) ≡ x
last_of-append e x [] = refl
last_of-append e x (y ∷ es) = last_of-append y x es

All-both :
    (f l : Bytes) (es : List Entry)
    → All (λ y. slice_le f y.user_key ≡ true) es
    → All (λ y. slice_le y.user_key l ≡ true) es
    → All (λ y. slice_le f y.user_key && slice_le y.user_key l ≡ true) es
All-both f l [] h k = tt
All-both f l (e ∷ es) h k = (ground (arith, h.0, k.0), All-both f l es h.1 k.1)

last_of-All : (P : Entry → Type 0) (e : Entry) (es : List Entry) → All P (e ∷ es) → P (last_of e es)
last_of-All P e [] h = h.0
last_of-All P e (x ∷ es) h = last_of-All P x es h.1

All-first :
    (P Q : TableMeta → Bool) (ms : List TableMeta)
    → All (λ m. (P m ≡ true) × (Q m ≡ true)) ms
    → All (λ m. P m ≡ true) ms
All-first P Q [] h = tt
All-first P Q (m ∷ ms) h = (h.0.0, All-first P Q ms h.1)

module _ (entries : Table → List Entry) where
  -- What building a table of the records of entries and reading it back promise: the reader finds
  -- the entries, and the meta data has the keys of the first and of the last record.
  pub record IsTableOf (t : Table) (e : Entry) (es : List Entry) : Type 0 where
    pub holds : entries t ≡ e ∷ es
    pub reads : (k : Bytes) (s : ℕ) → t.get k s ≡ ok (lookup s k (e ∷ es))
    pub smallest : t.meta.smallest_key ≡ entry_key e
    pub largest : t.meta.largest_key ≡ entry_key (last_of e es)

  -- Tables that hold entries, apart, and whose bounds are user keys of these.
  pub record Holds (es : List Entry) (ts : List Table) : Type 0 where
    pub same : all_entries entries ts ≡ es
    pub held : All (IsHeld entries) ts
    pub apart : IsApart (metas ts)
    pub bounds :
        (P : Bytes → Bool)
        → All (λ e. P e.user_key ≡ true) es
        → All (λ m. (P (first_key m) ≡ true) × (P (last_key m) ≡ true)) (metas ts)

  module _ (e : Entry) (es : List Entry) (t : Table) (h : IsTableOf t e es)
      (stored : All IsStored (e ∷ es)) (ascends : Ascends (e ∷ es)) where
    first-eq : first_key t.meta ≡ e.user_key
    first-eq = ap table_user_key h.smallest ∙ entry-user_key e stored.0

    last-eq : last_key t.meta ≡ (last_of e es).user_key
    last-eq =
        ap table_user_key h.largest
        ∙ entry-user_key (last_of e es) (last_of-All IsStored e es stored)

    table-IsHeld : IsHeld entries t
    table-IsHeld = record {
      reads = λ k s. rw h.holds (h.reads k s);
      ranged =
          subst
            (λ xs.
              All
                (λ y.
                  slice_le (first_key t.meta) y.user_key && slice_le y.user_key (last_key t.meta)
                  ≡ true)
                xs)
            (sym h.holds)
            (All-both (first_key t.meta) (last_key t.meta) (e ∷ es)
              (subst (λ f. All (λ y. slice_le f y.user_key ≡ true) (e ∷ es)) (sym first-eq)
                (slice_le_refl e.user_key, ascends.0))
              (subst (λ l. All (λ y. slice_le y.user_key l ≡ true) (e ∷ es)) (sym last-eq)
                (le-last_of e es ascends)));
      ordered = rw (first-eq, last-eq) (first-le-last e es ascends);
    }

    pub Holds-cons :
        (rest : List Entry) (ts : List Table)
        → All (λ y. slice_lt (last_of e es).user_key y.user_key ≡ true) rest
        → Holds rest ts
        → Holds (e ∷ es ++ rest) (t ∷ ts)
    Holds-cons rest ts behind good = record {
      same = ap (λ xs. xs ++ all_entries entries ts) h.holds ∙ ap (λ r. (e ∷ es) ++ r) good.same;
      held = (table-IsHeld, good.held);
      apart = (
        All-first (λ m. slice_lt (last_key t.meta) (first_key m))
            (λ m. slice_lt (last_key t.meta) (last_key m)) (metas ts)
            (good.bounds (λ k. slice_lt (last_key t.meta) k)
              (subst (λ l. All (λ y. slice_lt l y.user_key ≡ true) rest) (sym last-eq) behind)),
        good.apart,
      );
      bounds = λ P all.
          let parts = All-split (λ y. P y.user_key ≡ true) (e ∷ es) rest all in
          (
            (
              ap P first-eq ∙ parts.0.0,
              ap P last-eq ∙ last_of-All (λ y. P y.user_key ≡ true) e es parts.0,
            ),
            good.bounds P parts.1,
          );
    }

  pub Holds-nothing : Holds [] []
  Holds-nothing = record { same = refl; held = tt; apart = tt; bounds = λ P all. tt }
