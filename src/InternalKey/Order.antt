-- ===== src/InternalKey/Order.antt =====
-- `InternalKeyLess` is a strict total order, and puts the newer version of a user key first.
use mizu.Base.{ℕ, ◌≤◌, ◌≡◌, ap, sym, ◌∙◌, ◌++◌, true, false, ltb, ◌||◌, ◌&&◌, length, All, arith}
use mizu.Base.Order.{
  Bytes, slice_compare_refl, slice_compare-eq, slice_compare_swap, slice_compare_trans, slice_eq,
  slice_lt,
}
use mizu.Coding.{IsByte}
use mizu.Coding.RoundTrip.{encode_fixed64}
use mizu.InternalKey.{
  ValueType, max_sequence_number, decode_tag, encode_internal_key, user_part, internal_key_less,
  user_then_tag_less,
}
use mizu.InternalKey.Format.{
  tag_of, user_part-encode_internal_key, decode_tag-encode_internal_key, tagged-split,
}

pub internal_key_less_irrefl : (k : Bytes) → internal_key_less k k ≡ false
unfolding internal_key_less user_then_tag_less
internal_key_less_irrefl k = ground (arith, slice_compare_refl (user_part k))

pub internal_key_less_asymm :
    (a b : Bytes) → internal_key_less a b ≡ true → internal_key_less b a ≡ false
unfolding internal_key_less user_then_tag_less
internal_key_less_asymm a b h = ground (arith, slice_compare_swap (user_part a) (user_part b))

-- The order of internal keys is transitive, on keys of eight bytes or more.
pub internal_key_less_trans :
    (a b c : Bytes)
    → 8 ≤ length a
    → 8 ≤ length b
    → 8 ≤ length c
    → internal_key_less a b ≡ true
    → internal_key_less b c ≡ true
    → internal_key_less a c ≡ true
unfolding internal_key_less user_then_tag_less
internal_key_less_trans a b c enough_a enough_b enough_c h k = ground (
  arith,
  slice_compare_trans (user_part a) (user_part b) (user_part c),
  slice_compare-eq (user_part a) (user_part b),
  slice_compare-eq (user_part b) (user_part c),
  slice_compare_refl (user_part b),
)

-- Two keys of bytes, of eight bytes or more, of which neither is less are the same bytes.
pub internal_key_less_total :
    (a b : Bytes)
    → All IsByte a
    → All IsByte b
    → 8 ≤ length a
    → 8 ≤ length b
    → internal_key_less a b ≡ false
    → internal_key_less b a ≡ false
    → a ≡ b
unfolding internal_key_less user_then_tag_less
internal_key_less_total a b ha hb la lb h k =
    let users : user_part a ≡ user_part b = ground (
      arith,
      slice_compare_swap (user_part a) (user_part b),
      slice_compare-eq (user_part a) (user_part b),
    ) in
    let tags : decode_tag a ≡ decode_tag b =
      ground (arith, users, slice_compare_refl (user_part b)) in
    (tagged-split a ha la).0
    ∙ ap (λ u. u ++ encode_fixed64 (decode_tag a)) users
    ∙ ap (λ t. user_part b ++ encode_fixed64 t) tags
    ∙ sym (tagged-split b hb lb).0

split :
    (u v : Bytes) (m n : ℕ) → user_then_tag_less u m v n ≡ slice_lt u v || slice_eq u v && ltb n m
unfolding user_then_tag_less
split u v m n = ground arith

-- The order of encoded keys: the user keys decide, and under one user key the greater tag is first.
pub internal_key_less-encode :
    (u v : Bytes) (s r : ℕ) (t w : ValueType)
    → s ≤ max_sequence_number
    → r ≤ max_sequence_number
    → internal_key_less (encode_internal_key u s t) (encode_internal_key v r w)
      ≡ slice_lt u v || slice_eq u v && ltb (tag_of r w) (tag_of s t)
unfolding internal_key_less
internal_key_less-encode u v s r t w hs hr =
    rw
      (
        user_part-encode_internal_key u s t hs,
        user_part-encode_internal_key v r w hr,
        decode_tag-encode_internal_key u s t hs,
        decode_tag-encode_internal_key v r w hr,
      )
      (split u v (tag_of s t) (tag_of r w))

-- For sequences in range, a version of a user key stands before the lookup key of that user key,
-- which holds the type `value`, exactly if its sequence is greater than the lookup's.
pub less_lookup_key :
    (u : Bytes) (s r : ℕ) (w : ValueType)
    → s ≤ max_sequence_number
    → r ≤ max_sequence_number
    → internal_key_less (encode_internal_key u r w) (encode_internal_key u s ValueType.value)
      ≡ ltb s r
less_lookup_key u s r ValueType.deletion hs hr = ground (
  arith,
  internal_key_less-encode u u r s ValueType.deletion ValueType.value hr hs,
  slice_compare_refl u,
)
less_lookup_key u s r ValueType.value hs hr = ground (
  arith,
  internal_key_less-encode u u r s ValueType.value ValueType.value hr hs,
  slice_compare_refl u,
)
