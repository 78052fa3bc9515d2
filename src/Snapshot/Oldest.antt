-- ===== src/Snapshot/Oldest.antt =====
-- Whatever snapshots were taken and released, the tracker knows the oldest of those that are alive.
use mizu.Base.{
  ℕ, ◌+◌, ◌-◌, ◌<◌, ◌≡◌, refl, List, [], ◌∷◌, ltb, ◌==◌, if◌then◌else◌, All, arith, Bool-cases, sym,
  ◌∙◌, ◌⊎◌, inl, inr,
}
use mizu.Snapshot.{Counts, add, remove, oldest}

-- A call of the tracker.
pub data Call : Type 0 where
  taken released : ℕ → Call

-- The snapshots that are alive at a sequence after some calls, the last of them first.
abbrev pub alive : ℕ → List Call → ℕ
alive s [] = 0
alive s (Call.taken t ∷ calls) = alive s calls + (if s == t then 1 else 0)
alive s (Call.released t ∷ calls) = alive s calls - (if s == t then 1 else 0)

-- Each release is of a snapshot that is alive, as the code's assertion asks.
abbrev pub IsLegal : List Call → Type 0
IsLegal [] = Unit {0}
IsLegal (Call.taken t ∷ calls) = IsLegal calls
IsLegal (Call.released t ∷ calls) = (0 < alive t calls) × IsLegal calls

abbrev pub tracked : List Call → Counts
tracked [] = []
tracked (Call.taken t ∷ calls) = add t (tracked calls)
tracked (Call.released t ∷ calls) = remove t (tracked calls)

abbrev count_at : ℕ → Counts → ℕ
count_at s [] = 0
count_at s ((k, c) ∷ m) = if s == k then c else count_at s m

-- Sequences ascend, and counts are positive.
abbrev IsCounts : Counts → Type 0
IsCounts [] = Unit {0}
IsCounts ((k, c) ∷ m) = (0 < c) × All (λ e. k < e.0) m × IsCounts m

add-All : (b t : ℕ) (m : Counts) → b < t → All (λ e. b < e.0) m → All (λ e. b < e.0) (add t m)
unfolding add
add-All b t [] h all = (h, tt)
add-All b t ((k, c) ∷ m) h all = ground (arith, add-All b t m h all.1)

below-All : (b k : ℕ) (m : Counts) → b < k → All (λ e. k < e.0) m → All (λ e. b < e.0) m
below-All b k [] h all = tt
below-All b k ((l, c) ∷ m) h all = (omega (arith, all.0), below-All b k m h all.1)

add-IsCounts : (t : ℕ) (m : Counts) → IsCounts m → IsCounts (add t m)
unfolding add
add-IsCounts t [] h = (omega arith, tt, tt)
add-IsCounts t ((k, c) ∷ m) h = elim (Bool-cases (ltb t k)) [
  | inl before ↦
      let first : t < k = ground arith in
      rw before (omega arith, (first, below-All t k m first h.1), h)
  | inr after ↦ elim (Bool-cases (t == k)) [
    | inl same ↦ rw (after, same) (omega arith, h.1, h.2)
    | inr behind ↦ rw (after, behind) (h.0, add-All k t m (ground arith) h.1, add-IsCounts t m h.2)
  ]
]

remove-All : (b t : ℕ) (m : Counts) → All (λ e. b < e.0) m → All (λ e. b < e.0) (remove t m)
unfolding remove
remove-All b t [] all = tt
remove-All b t ((k, c) ∷ m) all = ground (arith, remove-All b t m all.1)

remove-IsCounts : (t : ℕ) (m : Counts) → IsCounts m → IsCounts (remove t m)
unfolding remove
remove-IsCounts t [] h = tt
remove-IsCounts t ((k, c) ∷ m) h = elim (Bool-cases (t == k)) [
  | inr other ↦ rw other (h.0, remove-All k t m h.1, remove-IsCounts t m h.2)
  | inl same ↦ elim (Bool-cases (c - 1 == 0)) [
    | inl last ↦ rw (same, last) h.2
    | inr more ↦ rw (same, more) (ground arith, h.1, h.2)
  ]
]

count_at-above : (s : ℕ) (m : Counts) → All (λ e. s < e.0) m → count_at s m ≡ 0
count_at-above s [] h = refl
count_at-above s ((k, c) ∷ m) h = ground (arith, count_at-above s m h.1)

count_at-add :
    (s t : ℕ) (m : Counts)
    → IsCounts m
    → count_at s (add t m) ≡ count_at s m + (if s == t then 1 else 0)
unfolding add
count_at-add s t [] h = ground arith
count_at-add s t ((k, c) ∷ m) h =
    ground (arith, count_at-add s t m h.2, count_at-above s m, below-All s k m, h.1)

count_at-remove :
    (s t : ℕ) (m : Counts)
    → IsCounts m
    → count_at s (remove t m) ≡ count_at s m - (if s == t then 1 else 0)
unfolding remove
count_at-remove s t [] h = ground arith
count_at-remove s t ((k, c) ∷ m) h =
    ground (arith, count_at-remove s t m h.2, count_at-above s m, below-All s k m, h.1)

tracked-IsCounts : (calls : List Call) → IsCounts (tracked calls)
tracked-IsCounts [] = tt
tracked-IsCounts (Call.taken t ∷ calls) = add-IsCounts t (tracked calls) (tracked-IsCounts calls)
tracked-IsCounts (Call.released t ∷ calls) =
    remove-IsCounts t (tracked calls) (tracked-IsCounts calls)

-- The tracker counts the snapshots that are alive.
count_at-tracked : (s : ℕ) (calls : List Call) → count_at s (tracked calls) ≡ alive s calls
count_at-tracked s [] = refl
count_at-tracked s (Call.taken t ∷ calls) =
    ground
      (arith, count_at-add s t (tracked calls) (tracked-IsCounts calls), count_at-tracked s calls)
count_at-tracked s (Call.released t ∷ calls) =
    ground (
      arith,
      count_at-remove s t (tracked calls) (tracked-IsCounts calls),
      count_at-tracked s calls,
    )

-- The oldest sequence: no snapshot is alive before it, and one is alive at it, or none at all.
abbrev pub IsOldest : ℕ → List Call → ℕ → Type 0
IsOldest fallback calls s =
    ((0 < alive s calls) × ((t : ℕ) → t < s → alive t calls ≡ 0))
    ⊎ ((s ≡ fallback) × ((t : ℕ) → alive t calls ≡ 0))

counts-oldest :
    (fallback : ℕ) (m : Counts)
    → IsCounts m
    → ((0 < count_at (oldest fallback m) m) × ((t : ℕ) → t < oldest fallback m → count_at t m ≡ 0))
      ⊎ ((oldest fallback m ≡ fallback) × ((t : ℕ) → count_at t m ≡ 0))
unfolding oldest
counts-oldest fallback [] h = inr (refl, λ t. refl)
counts-oldest fallback ((k, c) ∷ m) h = inl (
  ground (arith, h.0),
  λ t before. count_at-above t ((k, c) ∷ m) (before, below-All t k m before h.1),
)

-- Behind any calls of `add` and `remove`, each `remove` of a snapshot that is alive, `oldest` gives the smallest sequence at which a snapshot is
-- alive, and the fallback if none is.
pub oldest-IsOldest :
    (fallback : ℕ) (calls : List Call)
    → IsLegal calls
    → IsOldest fallback calls (oldest fallback (tracked calls))
oldest-IsOldest fallback calls legal =
    let m = tracked calls in
    elim (counts-oldest fallback m (tracked-IsCounts calls)) [
      | inl (here, none_before) ↦ inl (
        omega (arith, count_at-tracked (oldest fallback m) calls, here),
        λ t before. sym (count_at-tracked t calls) ∙ none_before t before,
      )
      | inr (same, empty) ↦ inr (same, λ t. sym (count_at-tracked t calls) ∙ empty t)
    ]
