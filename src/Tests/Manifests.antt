-- ===== src/Tests/Manifests.antt =====
-- A manifest with a table on level 0 and one on level 1, written and read back.
use mizu.Base.{
  ◌≡◌, ◌≤◌, ◌+◌, refl, arith, [], ◌∷◌, leb, length, if◌then◌else◌, ℕ, String, ◌⊎◌, some, none, List,
}
use mizu.Base.Order.{Bytes, slice_compare}
use mizu.Coding.{put_fixed64, get_fixed64, decode_fixed64, put_fixed32, encode_fixed32}
use mizu.Status.{Result, ok, err, corruption, success}
use mizu.InternalKey.{
  ValueType, encode_internal_key, parse_internal_key, decode_tag, internal_key_less,
  user_then_tag_less,
}
use mizu.Manifest.{
  ManifestState, encode_manifest, decode_manifest, maximum_manifest_size, validate_state,
  validate_level0, validate_level, validate_table, contains, has_key_range, append_tables,
  append_tables_loop, append_table,
}
use mizu.Manifest.Checked.{IsPublished}
use mizu.Manifest.RoundTrip.{IsWords, decode-encode_manifest}
use mizu.Wal.{IoOutcome, transferred, interrupted, killed}
use mizu.Manifest.File.{
  Files, Run, durable, write_manifest, open_temporary, fill_temporary, write_all, sync_file,
  close_file, rename_temporary,
}
use mizu.Manifest.Atomic.{IsKept, IsReplaced, write_manifest-IsReplaced}
use mizu.Manifest.Size.{encode_manifest-size}
use mizu.Manifest.Published.{decode_manifest-IsPublished}

abbrev state : ManifestState
state = record {
  flushed_sequence = 9;
  oldest_wal_number = 3;
  levels = record {
    level0 =
        (record {
          number = 2;
          file_size = 100;
          smallest_key = encode_internal_key (1 ∷ []) 5 ValueType.value;
          largest_key = encode_internal_key (2 ∷ []) 4 ValueType.deletion;
        })
        ∷ [];
    level1 = [];
    level2 = [];
  };
}

abbrev bytes_or_empty : Result Bytes → Bytes
bytes_or_empty (ok bytes) = bytes
bytes_or_empty (err status) = []

bytes : Bytes
bytes = bytes_or_empty (encode_manifest state)

encoded : encode_manifest state ≡ ok bytes
unfolding bytes encode_manifest validate_state validate_level0 validate_table contains
    encode_internal_key put_fixed64 has_key_range parse_internal_key decode_tag get_fixed64
    decode_fixed64 internal_key_less user_then_tag_less slice_compare validate_level append_tables
    append_tables_loop append_table put_fixed32 encode_fixed32
encoded = refl

words : IsWords state
words = record {
  wal = omega arith;
  level0 = ((omega arith, omega arith), tt);
  level1 = tt;
  level2 = tt;
}

decode-encode_manifest_example : decode_manifest bytes ≡ (
    if leb (length bytes) maximum_manifest_size
    then ok state
    else err (corruption "manifest exceeds 64 MiB"))
decode-encode_manifest_example = decode-encode_manifest state bytes words encoded

encode_manifest-size_example : length bytes ≤ maximum_manifest_size + 8
encode_manifest-size_example = encode_manifest-size state bytes encoded

decoded : decode_manifest bytes ≡ ok state
unfolding bytes encode_manifest validate_state validate_level0 validate_table contains
    encode_internal_key put_fixed64 has_key_range parse_internal_key decode_tag get_fixed64
    decode_fixed64 internal_key_less user_then_tag_less slice_compare validate_level append_tables
    append_tables_loop append_table put_fixed32 encode_fixed32
decoded = decode-encode_manifest_example

decode_manifest-IsPublished_example : IsPublished state
decode_manifest-IsPublished_example = decode_manifest-IsPublished bytes state decoded

-- The manifest is written in two parts, with a signal between them.
abbrev old_files : Files
old_files = record { published = none; temporary = none }

abbrev script : List IoOutcome
script =
    transferred 0
    ∷ transferred 40
    ∷ interrupted
    ∷ transferred 100
    ∷ transferred 0
    ∷ transferred 0
    ∷ transferred 0
    ∷ []

abbrev describe : String → ℕ → String
describe operation error_number = operation

write_manifest-IsReplaced_example :
    let run : Run = write_manifest describe script state old_files in
    IsKept old_files.published run
    ⊎ ((replaced : Bytes) × IsReplaced replaced run
        × (encode_manifest state ≡ ok replaced)
        × (decode_manifest replaced ≡ (
            if leb (length replaced) maximum_manifest_size
            then ok state
            else err (corruption "manifest exceeds 64 MiB"))))
write_manifest-IsReplaced_example = write_manifest-IsReplaced describe script state old_files words

-- That run ends in success.
write_manifest_run : (write_manifest describe script state old_files).status ≡ some success
unfolding bytes encode_manifest validate_state validate_level0 validate_table contains
    encode_internal_key put_fixed64 has_key_range parse_internal_key decode_tag get_fixed64
    decode_fixed64 internal_key_less user_then_tag_less slice_compare validate_level append_tables
    append_tables_loop append_table put_fixed32 encode_fixed32 write_manifest open_temporary
    fill_temporary write_all sync_file close_file rename_temporary success
write_manifest_run = refl

-- The process is killed inside the rename, behind its effect.
abbrev killed_script : List IoOutcome
killed_script = transferred 0 ∷ transferred 1000 ∷ transferred 0 ∷ transferred 0 ∷ killed 0 ∷ []

write_manifest_killed :
    (write_manifest describe killed_script state old_files).files.published ≡ some (durable bytes)
unfolding bytes encode_manifest validate_state validate_level0 validate_table contains
    encode_internal_key put_fixed64 has_key_range parse_internal_key decode_tag get_fixed64
    decode_fixed64 internal_key_less user_then_tag_less slice_compare validate_level append_tables
    append_tables_loop append_table put_fixed32 encode_fixed32 write_manifest open_temporary
    fill_temporary write_all sync_file close_file rename_temporary success
write_manifest_killed = refl
