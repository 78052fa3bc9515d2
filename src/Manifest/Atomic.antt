-- ===== src/Manifest/Atomic.antt =====
-- A manifest is published as a whole or not at all.
use mizu.Base.{
  ℕ, ◌≡◌, refl, false, none, Option, some, List, [], ◌∷◌, String, leb, if◌then◌else◌, length, arith,
  Bool-cases, Option-cases, inl, inr, ◌⊎◌,
}
use mizu.Base.Order.{Bytes}
use mizu.Status.{Status, ok, err, success, corruption, is_ok, Result-cases}
use mizu.Wal.{IoOutcome, transferred, interrupted, failed, killed}
use mizu.Manifest.{ManifestState, maximum_manifest_size, encode_manifest, decode_manifest}
use mizu.Manifest.RoundTrip.{IsWords, decode-encode_manifest}
use mizu.Manifest.Errors.{encode_manifest-Fails}
use mizu.Manifest.File.{
  Stored, Files, Run, unsynced, durable, unlink, manifest_io_error, open_temporary, write_all,
  sync_file, close_file, rename_temporary, then_run, if_ok, publish, fill_temporary, write_manifest,
}
use mizu.Manifest.Fills.{
  Holds, Fills, then_run-Fills, bad_status, write_all-Fills, if_ok-Fills, close_file-Fills,
}

-- No success, and the published file is the old one.
abbrev pub IsKept : Option Stored → Run → Type 0
IsKept old run =
    (run.files.published ≡ old)
    × ((status : Status) → run.status ≡ some status → is_ok status ≡ false)

-- The published file is a content, all of it synced, and the run ends in success, or the process
-- stopped before the call returned.
abbrev pub IsReplaced : Bytes → Run → Type 0
IsReplaced content run =
    (run.files.published ≡ some (durable content))
    × ((run.status ≡ some success) ⊎ (run.status ≡ none))

unlink-IsKept :
    (old : Option Stored) (status : Status) (script : List IoOutcome) (files : Files)
    → files.published ≡ old
    → is_ok status ≡ false
    → IsKept old (unlink status script files)
unfolding unlink
unlink-IsKept old status [] files h bad = (h, λ s e. absurd (ground (arith, e)))
unlink-IsKept old status (transferred n ∷ script) files h bad = (h, λ s e. ground (arith, e, bad))
unlink-IsKept old status (killed n ∷ script) files h bad = (h, λ s e. absurd (ground (arith, e)))
unlink-IsKept old status (interrupted ∷ script) files h bad = (h, λ s e. ground (arith, e, bad))
unlink-IsKept old status (failed n ∷ script) files h bad = (h, λ s e. ground (arith, e, bad))

module _ (describe : String → ℕ → String) where
  rename_temporary-outcome :
      (old : Option Stored) (content : Bytes) (script : List IoOutcome) (files : Files)
      → files.published ≡ old
      → files.temporary ≡ some (durable content)
      → IsKept old (rename_temporary describe script files)
        ⊎ IsReplaced content (rename_temporary describe script files)
  unfolding rename_temporary
  rename_temporary-outcome old content [] files h t = inl (h, λ s e. absurd (ground (arith, e)))
  rename_temporary-outcome old content (transferred n ∷ script) files h t = inr (t, inl refl)
  rename_temporary-outcome old content (killed n ∷ script) files h t = inr (t, inr refl)
  rename_temporary-outcome old content (interrupted ∷ script) files h t = inl (
      unlink-IsKept old (manifest_io_error describe "rename" 4) script files h
        (bad_status "rename" describe 4))
  rename_temporary-outcome old content (failed n ∷ script) files h t = inl (
      unlink-IsKept old (manifest_io_error describe "rename" n) script files h
        (bad_status "rename" describe n))

  publish-outcome :
      (old : Option Stored) (content : Bytes) (status : Status) (script : List IoOutcome)
      (files : Files)
      → Holds old (durable content) status files
      → IsKept old (publish describe status script files)
        ⊎ IsReplaced content (publish describe status script files)
  publish-outcome old content status script files h = elim (Bool-cases (is_ok status)) [
    | inr bad ↦ rw bad (inl (unlink-IsKept old status script files h.0 bad))
    | inl good ↦ rw good (rename_temporary-outcome old content script files h.0 (h.1 good))
  ]

  then_run-outcome :
      (old : Option Stored) (content : Bytes) (run : Run)
      → Fills old (durable content) run
      → IsKept old (then_run run (publish describe))
        ⊎ IsReplaced content (then_run run (publish describe))
  then_run-outcome old content run h = elim (Option-cases run.status) [
    | inl stop ↦ rw stop (inl (h.0, λ s e. absurd (ground (arith, e, stop))))
    | inr (status, here) ↦
        rw here
          (publish-outcome old content status run.script run.files (h.0, λ g. h.1 status here g))
  ]

  fill_temporary-outcome :
      (content : Bytes) (script : List IoOutcome) (files : Files)
      → files.temporary ≡ some (unsynced [])
      → IsKept files.published (fill_temporary describe content script files)
        ⊎ IsReplaced content (fill_temporary describe content script files)
  unfolding fill_temporary
  fill_temporary-outcome content script files empty =
      let old = files.published in
      let written = write_all describe script content files in
      let flushed = then_run written (if_ok (sync_file describe)) in
      then_run-outcome old content (then_run flushed (close_file describe)) (
        then_run-Fills old (durable content) (durable content) flushed (close_file describe)
          (then_run-Fills old (unsynced content) (durable content) written
            (if_ok (sync_file describe))
            (write_all-Fills describe old script content [] files refl empty)
            (if_ok-Fills describe old content))
          (close_file-Fills describe old (durable content)))

  open_temporary-outcome :
      (content : Bytes) (script : List IoOutcome) (files : Files)
      → let run : Run =
          then_run
            (open_temporary describe script files)
            (if_ok (fill_temporary describe content)) in
        IsKept files.published run ⊎ IsReplaced content run
  unfolding open_temporary success
  open_temporary-outcome content [] files = inl (refl, λ s e. absurd (ground (arith, e)))
  open_temporary-outcome content (transferred n ∷ script) files =
      fill_temporary-outcome content script (record files { temporary = some (unsynced []) }) refl
  open_temporary-outcome content (killed n ∷ script) files =
      inl (refl, λ s e. absurd (ground (arith, e)))
  open_temporary-outcome content (interrupted ∷ script) files =
      rw (bad_status "open" describe 4)
        (inl (refl, λ s e. ground (arith, e, bad_status "open" describe 4)))
  open_temporary-outcome content (failed n ∷ script) files =
      rw (bad_status "open" describe n)
        (inl (refl, λ s e. ground (arith, e, bad_status "open" describe n)))

  -- Whatever the system calls do, and wherever the process stops, `writeManifest` on a state whose
  -- numbers fit 64 bits either leaves the published file as it was, and has not returned success, or
  -- the published file is the encoding of the state, all of it synced before the rename, and the call
  -- has returned success or the process stopped before it returned. That encoding is decoded to the
  -- state, unless it is longer than 64 MiB.
  pub write_manifest-IsReplaced :
      (script : List IoOutcome) (state : ManifestState) (files : Files)
      → IsWords state
      → let run : Run = write_manifest describe script state files in
        IsKept files.published run
        ⊎ ((bytes : Bytes) × IsReplaced bytes run
            × (encode_manifest state ≡ ok bytes)
            × (decode_manifest bytes ≡ (
                if leb (length bytes) maximum_manifest_size
                then ok state
                else err (corruption "manifest exceeds 64 MiB"))))
  unfolding write_manifest
  write_manifest-IsReplaced script state files words = elim (Result-cases (encode_manifest state)) [
    | inr (status, bad) ↦
        rw (write_manifest, bad)
          (inl (refl, λ s e. ground (arith, e, encode_manifest-Fails state status bad)))
    | inl (bytes, good) ↦
        rw (write_manifest, good)
          (elim (open_temporary-outcome bytes script files) [
            | inl kept ↦ inl kept
            | inr replaced ↦
                inr (bytes, replaced, refl, decode-encode_manifest state bytes words good)
          ])
  ]
