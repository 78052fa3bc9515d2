-- ===== src/TableFormat/RoundTrip.antt =====
-- The footer of a table is read back, and a footer that is read is one that was written.
use mizu.Base.{
  ◌≡◌, refl, ap, ◌∙◌, sym, Option-cases, inl, inr, some, [], ◌++◌, true, length, take, drop,
  length-eq_zero, take-append-drop, All-append_right, subst, append_assoc, append-nil, arith, All,
}
use mizu.Base.Order.{Bytes, slice_compare, slice_eq, slice_eq-eq}
use mizu.Status.{ok}
use mizu.Coding.{IsByte, IsU64, encode_fixed32, put_fixed32, put_fixed64, get_fixed32, get_fixed64}
use mizu.Coding.RoundTrip.{
  encode_fixed64, put_fixed64-encode, get_fixed32-encode, get_fixed64-encode, get_fixed64-eq_some,
  get_fixed32-eq_some,
}
use mizu.TableFormat.{
  BlockHandle, sstable_magic, put_block_handle, get_block_handle, put_sstable_footer,
  decode_sstable_footer,
}

-- Both numbers of a handle are 64-bit.
abbrev pub IsHandle : BlockHandle → Type 0
IsHandle handle = IsU64 handle.offset × IsU64 handle.size

abbrev handle_bytes : BlockHandle → Bytes
handle_bytes handle = encode_fixed64 handle.offset ++ encode_fixed64 handle.size

put_block_handle-eq :
    (dst : Bytes) (handle : BlockHandle) → put_block_handle dst handle ≡ dst ++ handle_bytes handle
unfolding put_block_handle
put_block_handle-eq dst handle = rw (
  put_fixed64-encode (put_fixed64 dst handle.offset) handle.size,
  put_fixed64-encode dst handle.offset,
  append_assoc,
)

get_block_handle-put :
    (handle : BlockHandle) (rest : Bytes)
    → IsHandle handle
    → get_block_handle (handle_bytes handle ++ rest) ≡ some (handle, rest)
unfolding get_block_handle
get_block_handle-put handle rest h = rw (
  append_assoc,
  get_block_handle,
  get_fixed64-encode handle.offset (encode_fixed64 handle.size ++ rest) h.0,
  get_fixed64-encode handle.size rest h.1,
)

footer_bytes : BlockHandle → BlockHandle → Bytes
footer_bytes filter index =
    sstable_magic
    ++ encode_fixed32 1
    ++ encode_fixed32 0
    ++ handle_bytes filter
    ++ handle_bytes index

put_sstable_footer-eq :
    (filter index : BlockHandle) → put_sstable_footer [] filter index ≡ footer_bytes filter index
unfolding put_sstable_footer footer_bytes put_fixed32
put_sstable_footer-eq filter index =
    rw (put_block_handle-eq, put_block_handle-eq) (simp append_assoc)

get_block_handle_self :
    (handle : BlockHandle)
    → IsHandle handle
    → get_block_handle (handle_bytes handle) ≡ some (handle, [])
get_block_handle_self handle h = rw append-nil at (get_block_handle-put handle [] h)

footer_bytes-length : (filter index : BlockHandle) → length (footer_bytes filter index) ≡ 48
unfolding footer_bytes encode_fixed32 encode_fixed64
footer_bytes-length filter index = refl

-- The footer that `putSSTableFooter` writes to an empty string for two handles of 64-bit numbers is
-- decoded to these handles.
pub decode-put_sstable_footer :
    (filter index : BlockHandle)
    → IsHandle filter
    → IsHandle index
    → decode_sstable_footer (put_sstable_footer [] filter index) ≡ ok (filter, index)
unfolding decode_sstable_footer encode_fixed32 encode_fixed64
decode-put_sstable_footer filter index hf hi =
    let first : get_fixed32 (drop 8 (footer_bytes filter index))
        ≡ some (1, encode_fixed32 0 ++ handle_bytes filter ++ handle_bytes index) =
      unfold footer_bytes in
      get_fixed32-encode 1 (encode_fixed32 0 ++ handle_bytes filter ++ handle_bytes index)
        (omega arith) in
    let second = get_fixed32-encode 0 (handle_bytes filter ++ handle_bytes index) (omega arith) in
    let magic : slice_eq (take 8 (footer_bytes filter index)) sstable_magic ≡ true =
      unfold footer_bytes slice_compare in refl in
    ap decode_sstable_footer (put_sstable_footer-eq filter index)
    ∙ rw (
      footer_bytes-length filter index,
      magic,
      first,
      second,
      get_block_handle-put filter (handle_bytes index) hf,
      get_block_handle_self index hi,
    )

get_block_handle-eq_some :
    (input : Bytes) (handle : BlockHandle) (rest : Bytes)
    → All IsByte input
    → get_block_handle input ≡ some (handle, rest)
    → (input ≡ handle_bytes handle ++ rest) × IsHandle handle
unfolding get_block_handle
get_block_handle-eq_some input handle rest bytes h = elim (Option-cases (get_fixed64 input)) [
  | inl e ↦ absurd (ground (arith, e))
  | inr ((offset, remaining), e) ↦ elim (Option-cases (get_fixed64 remaining)) [
    | inl k ↦ absurd (ground (arith, e, k))
    | inr ((size, more), k) ↦
        let (front, small) = get_fixed64-eq_some input offset remaining bytes e in
        let remaining_bytes =
          All-append_right IsByte (encode_fixed64 offset) remaining
            (subst (All IsByte) front bytes) in
        let (back, short) = get_fixed64-eq_some remaining size more remaining_bytes k in
        let got : BlockHandle × Bytes = (record { offset = offset; size = size }, more) in
        let found : some got ≡ some (handle, rest) = ground (arith, e, k, h) in
        let same : got.0 ≡ handle = ground (arith, found) in
        let left : more ≡ rest = ground (arith, found) in
        subst (λ x. (input ≡ handle_bytes x ++ rest) × IsHandle x) same
          (
            front
                ∙ ap (λ r. encode_fixed64 offset ++ r) back
                ∙ sym (append_assoc (encode_fixed64 offset) (encode_fixed64 size) more)
                ∙ ap (λ r. (encode_fixed64 offset ++ encode_fixed64 size) ++ r) left,
            (small, short),
          )
  ]
]

-- What the fields of a footer are, from its front to its end.
footer_fields :
    (encoded after_version after_reserved after_filter : Bytes) (filter index : BlockHandle)
    → All IsByte encoded
    → take 8 encoded ≡ sstable_magic
    → get_fixed32 (drop 8 encoded) ≡ some (1, after_version)
    → get_fixed32 after_version ≡ some (0, after_reserved)
    → get_block_handle after_reserved ≡ some (filter, after_filter)
    → get_block_handle after_filter ≡ some (index, [])
    → footer_bytes filter index ≡ encoded
unfolding footer_bytes encode_fixed32 encode_fixed64
footer_fields encoded after_version after_reserved after_filter filter index bytes magic v r f i =
    let split : sstable_magic ++ drop 8 encoded ≡ encoded =
      ap (λ m. m ++ drop 8 encoded) (sym magic) ∙ take-append-drop 8 encoded in
    let bytes1 =
      All-append_right IsByte sstable_magic (drop 8 encoded)
        (subst (All IsByte) (sym split) bytes) in
    let version = get_fixed32-eq_some (drop 8 encoded) 1 after_version bytes1 v in
    let bytes2 =
      All-append_right IsByte (encode_fixed32 1) after_version
        (subst (All IsByte) version.0 bytes1) in
    let reserved = get_fixed32-eq_some after_version 0 after_reserved bytes2 r in
    let bytes3 =
      All-append_right IsByte (encode_fixed32 0) after_reserved
        (subst (All IsByte) reserved.0 bytes2) in
    let first = get_block_handle-eq_some after_reserved filter after_filter bytes3 f in
    let bytes4 =
      All-append_right IsByte (handle_bytes filter) after_filter
        (subst (All IsByte) first.0 bytes3) in
    let second = get_block_handle-eq_some after_filter index [] bytes4 i in
    let last : after_filter ≡ handle_bytes index = second.0 ∙ append-nil (handle_bytes index) in
    sym (
      ap (λ t. sstable_magic ++ t)
        (version.0
          ∙ ap (λ t. encode_fixed32 1 ++ t)
              (reserved.0
                ∙ ap (λ t. encode_fixed32 0 ++ t)
                    (first.0 ∙ ap (λ t. handle_bytes filter ++ t) last))))
    ∙ split

-- A string of bytes that is decoded as a footer is the one that `putSSTableFooter` writes for its
-- handles.
pub put-decode_sstable_footer :
    (encoded : Bytes) (filter index : BlockHandle)
    → All IsByte encoded
    → decode_sstable_footer encoded ≡ ok (filter, index)
    → put_sstable_footer [] filter index ≡ encoded
unfolding decode_sstable_footer
put-decode_sstable_footer encoded filter index bytes h =
    elim (Option-cases (get_fixed32 (drop 8 encoded))) [
      | inl e ↦ absurd (ground (arith, e))
      | inr ((v, a), e) ↦ elim (Option-cases (get_fixed32 a)) [
        | inl k ↦ absurd (ground (arith, e, k))
        | inr ((r, b), k) ↦ elim (Option-cases (get_block_handle b)) [
          | inl l ↦ absurd (ground (arith, e, k, l))
          | inr ((f, c), l) ↦ elim (Option-cases (get_block_handle c)) [
            | inl m ↦ absurd (ground (arith, e, k, l, m))
            | inr ((i, d), m) ↦
                let magic : slice_eq (take 8 encoded) sstable_magic ≡ true =
                  ground (arith, e, k, l, m) in
                let one : v ≡ 1 = ground (arith, e, k, l, m) in
                let null : r ≡ 0 = ground (arith, e, k, l, m) in
                let ends : length d ≡ 0 = ground (arith, e, k, l, m) in
                let same : (f, i) ≡ (filter, index) = ground (arith, e, k, l, m) in
                put_sstable_footer-eq filter index
                ∙ footer_fields encoded a b c filter index bytes
                    (slice_eq-eq (take 8 encoded) sstable_magic magic)
                    (e ∙ ap (λ x. some (x, a)) one) (k ∙ ap (λ x. some (x, b)) null)
                    (l ∙ ap (λ (x : BlockHandle × BlockHandle). some (x.0, c)) same)
                    (m
                      ∙ ap (λ (x : BlockHandle × BlockHandle). some (x.1, d)) same
                      ∙ ap (λ x. some (index, x)) (length-eq_zero d ends))
          ]
        ]
      ]
    ]
