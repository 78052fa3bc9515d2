-- ===== src/Entries.antt =====
-- The versions of a store as a list in the order of their internal keys, and what a read at a
-- sequence sees of it. This is the specification that the iterators and the compaction are held to.
pub mod Order
use mizu.Base.{
  ℕ, ◌≤◌, ◌≡◌, Bool, true, false, ◌&&◌, Option, none, some, List, [], ◌∷◌, leb, if◌then◌else◌, All,
}
use mizu.Base.Order.{Bytes, slice_eq}
use mizu.InternalKey.{ValueType, max_sequence_number, encode_internal_key, user_then_tag_less}
use mizu.InternalKey.Format.{tag_of}

pub record Entry : Type 0 where
  pub user_key : Bytes
  pub sequence : ℕ
  pub type : ValueType
  pub stored : Bytes

abbrev pub entry_key : Entry → Bytes
entry_key e = encode_internal_key e.user_key e.sequence e.type

-- engine/lsmtree/src/db/lookup_result.h, with the value beside `kValue`.
pub data LookupResult : Type 0 where
  absent deleted : LookupResult
  found : Bytes → LookupResult

abbrev pub answer : Entry → LookupResult
answer e = elim e.type [
  | ValueType.deletion ↦ LookupResult.deleted
  | ValueType.value ↦ LookupResult.found e.stored
]

-- The first version of the key that is not newer than the sequence.
unfoldable pub lookup : ℕ → Bytes → List Entry → LookupResult
lookup sequence key [] = LookupResult.absent
lookup sequence key (e ∷ es) =
    if slice_eq e.user_key key && leb e.sequence sequence then answer e else lookup sequence key es

abbrev pub value_of : LookupResult → Option Bytes
value_of r = elim r [
  | LookupResult.absent ↦ none
  | LookupResult.deleted ↦ none
  | LookupResult.found v ↦ some v
]

-- `InternalKeyLess` on the keys of two entries.
abbrev pub entry_less : Entry → Entry → Bool
entry_less a b =
    user_then_tag_less a.user_key (tag_of a.sequence a.type) b.user_key (tag_of b.sequence b.type)

-- Every entry comes before all that follow it.
abbrev pub IsSorted : List Entry → Type 0
IsSorted [] = Unit {0}
IsSorted (e ∷ es) = All (λ x. entry_less e x ≡ true) es × IsSorted es

-- The sequences are those that a key can hold.
abbrev pub IsStored : Entry → Type 0
IsStored e = e.sequence ≤ max_sequence_number

abbrev pub assoc : Bytes → List (Bytes × Bytes) → Option Bytes
assoc key [] = none
assoc key ((k, v) ∷ m) = if slice_eq k key then some v else assoc key m
