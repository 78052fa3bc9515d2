-- ===== src/Entries/Order.antt =====
-- What the order of the entries says of their user keys and of lookups.
use mizu.Base.{ℕ, ◌≡◌, refl, Bool, true, false, ◌||◌, List, [], ◌∷◌, All, arith}
use mizu.Base.Order.{
  Bytes, slice_eq, slice_lt, slice_compare_refl, slice_compare-eq, slice_compare_swap,
  slice_compare_trans,
}
use mizu.InternalKey.{user_then_tag_less}
use mizu.Entries.{Entry, LookupResult, lookup, entry_less}

-- `lhs <= rhs` on slices.
abbrev pub slice_le : Bytes → Bytes → Bool
slice_le a b = slice_lt a b || slice_eq a b

pub slice_lt_trans :
    (a b c : Bytes) → slice_lt a b ≡ true → slice_lt b c ≡ true → slice_lt a c ≡ true
slice_lt_trans a b c h k = ground (arith, slice_compare_trans a b c)

pub slice_lt-ne : (a b : Bytes) → slice_lt a b ≡ true → slice_eq a b ≡ false
slice_lt-ne a b h = ground arith

pub slice_lt_of_le :
    (a b c : Bytes) → slice_lt a b ≡ true → slice_le b c ≡ true → slice_lt a c ≡ true
slice_lt_of_le a b c h k = ground (arith, slice_compare_trans a b c, slice_compare-eq b c)

-- Entries in order have user keys in order.
pub entry_less-le : (a b : Entry) → entry_less a b ≡ true → slice_le a.user_key b.user_key ≡ true
unfolding user_then_tag_less
entry_less-le a b h = ground arith

pub user_keys-le :
    (e : Entry) (es : List Entry)
    → All (λ x. entry_less e x ≡ true) es
    → All (λ x. slice_le e.user_key x.user_key ≡ true) es
user_keys-le e [] h = tt
user_keys-le e (x ∷ es) h = (entry_less-le e x h.0, user_keys-le e es h.1)

pub user_keys-lt :
    (u : Bytes) (e : Entry) (es : List Entry)
    → slice_lt u e.user_key ≡ true
    → All (λ x. slice_le e.user_key x.user_key ≡ true) es
    → All (λ x. slice_lt u x.user_key ≡ true) es
user_keys-lt u e [] h k = tt
user_keys-lt u e (x ∷ es) h k =
    (slice_lt_of_le u e.user_key x.user_key h k.0, user_keys-lt u e es h k.1)

-- A key before all the entries has no version.
pub lookup-before :
    (s : ℕ) (u : Bytes) (es : List Entry)
    → All (λ x. slice_lt u x.user_key ≡ true) es
    → lookup s u es ≡ LookupResult.absent
unfolding lookup
lookup-before s u [] h = refl
lookup-before s u (x ∷ es) h =
    ground (arith, lookup-before s u es h.1, slice_compare_swap u x.user_key, h.0)

pub slice_eq_sym : (a b : Bytes) → slice_eq a b ≡ slice_eq b a
slice_eq_sym a b = ground (arith, slice_compare_swap a b)

pub slice_le_trans :
    (a b c : Bytes) → slice_le a b ≡ true → slice_le b c ≡ true → slice_le a c ≡ true
slice_le_trans a b c h k = ground (
  arith,
  slice_compare_trans a b c,
  slice_compare-eq a b,
  slice_compare-eq b c,
  slice_compare_refl b,
)
