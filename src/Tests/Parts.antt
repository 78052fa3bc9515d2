-- ===== src/Tests/Parts.antt =====
-- The snapshot tracker, the table footer and the Bloom filter at concrete inputs.
use mizu.Base.{true, List, [], ◌∷◌, ◌≡◌, refl, All, arith}
use mizu.Base.Order.{Bytes, slice_compare}
use mizu.BloomFilter.{filter_of, bloom_filter_may_contain}
use mizu.BloomFilter.Probes.{may_contain-filter_of}
use mizu.Status.{ok}
use mizu.Coding.{IsByte}
use mizu.Snapshot.{add, remove, oldest}
use mizu.Snapshot.Oldest.{Call, IsOldest, tracked, oldest-IsOldest}
use mizu.TableFormat.{BlockHandle, put_sstable_footer, decode_sstable_footer}
use mizu.TableFormat.RoundTrip.{decode-put_sstable_footer, put-decode_sstable_footer}

-- Two snapshots at 7, one at 5, and the one at 5 released, the last call first.
abbrev calls : List Call
calls = Call.released 5 ∷ Call.taken 7 ∷ Call.taken 5 ∷ Call.taken 7 ∷ []

oldest-IsOldest_example : IsOldest 9 calls (oldest 9 (tracked calls))
oldest-IsOldest_example = oldest-IsOldest 9 calls (omega arith, tt)

oldest_alive : oldest 9 (tracked calls) ≡ 7
unfolding oldest add remove
oldest_alive = refl

abbrev filter_handle : BlockHandle
filter_handle = record { offset = 4096; size = 69 }

abbrev index_handle : BlockHandle
index_handle = record { offset = 4170; size = 300 }

decode-put_sstable_footer_example :
    decode_sstable_footer (put_sstable_footer [] filter_handle index_handle)
    ≡ ok (filter_handle, index_handle)
decode-put_sstable_footer_example =
    decode-put_sstable_footer filter_handle index_handle (omega arith, omega arith)
      (omega arith, omega arith)

abbrev footer : Bytes
footer =
    76 ∷ 83 ∷ 77 ∷ 84 ∷ 82 ∷ 69 ∷ 69 ∷ 49 ∷ 1 ∷ 0 ∷ 0 ∷ 0 ∷ 0 ∷ 0 ∷ 0 ∷ 0 ∷ 0 ∷ 16 ∷ 0 ∷ 0 ∷ 0 ∷ 0
    ∷ 0 ∷ 0 ∷ 69 ∷ 0 ∷ 0 ∷ 0 ∷ 0 ∷ 0 ∷ 0 ∷ 0 ∷ 74 ∷ 16 ∷ 0 ∷ 0 ∷ 0 ∷ 0 ∷ 0 ∷ 0 ∷ 44 ∷ 1 ∷ 0 ∷ 0 ∷ 0
    ∷ 0 ∷ 0 ∷ 0 ∷ []

footer-IsByte : All IsByte footer
footer-IsByte = ground arith

footer_decoded : decode_sstable_footer footer ≡ ok (filter_handle, index_handle)
unfolding decode_sstable_footer slice_compare mizu.Coding.get_fixed32 mizu.Coding.get_fixed64
    mizu.Coding.decode_fixed32 mizu.Coding.decode_fixed64 mizu.TableFormat.get_block_handle
footer_decoded = refl

put-decode_sstable_footer_example : put_sstable_footer [] filter_handle index_handle ≡ footer
put-decode_sstable_footer_example =
    put-decode_sstable_footer footer filter_handle index_handle footer-IsByte footer_decoded

may_contain-filter_of_example :
    bloom_filter_may_contain (7 ∷ 8 ∷ []) (filter_of ((1 ∷ []) ∷ (7 ∷ 8 ∷ []) ∷ (9 ∷ []) ∷ []))
    ≡ true
may_contain-filter_of_example = may_contain-filter_of ((1 ∷ []) ∷ []) ((9 ∷ []) ∷ []) (7 ∷ 8 ∷ [])
