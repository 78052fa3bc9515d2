-- ===== src/Manifest/Fills.antt =====
-- The temporary file of a manifest until it is renamed.
use mizu.Base.{
  ℕ, ◌≡◌, refl, ap, ◌∙◌, sym, true, false, Option, some, List, [], ◌∷◌, ◌++◌, String, min, ◌==◌,
  if◌then◌else◌, length, take, drop, arith, Bool-cases, Option-cases, subst, inl, inr, append-nil,
  append_assoc, take-append-drop,
}
use mizu.Base.Order.{Bytes}
use mizu.Status.{Status, success, io_error, is_ok}
use mizu.Wal.{IoOutcome, transferred, interrupted, failed, killed}
use mizu.Manifest.File.{
  Stored, Files, Run, stopped, ended, appended, unsynced, durable, synced, manifest_io_error,
  write_all, sync_file, close_file, then_run, if_ok,
}

-- Before the rename the published file is the old one, and without an error the temporary file has a
-- content.
abbrev pub Holds : Option Stored → Stored → Status → Files → Type 0
Holds old content status files =
    (files.published ≡ old) × (is_ok status ≡ true → files.temporary ≡ some content)

abbrev pub Fills : Option Stored → Stored → Run → Type 0
Fills old content run =
    (run.files.published ≡ old)
    × ((status : Status)
        → run.status ≡ some status
        → is_ok status ≡ true
        → run.files.temporary ≡ some content)

pub then_run-Fills :
    (old : Option Stored) (content after : Stored) (run : Run)
    (next : Status → List IoOutcome → Files → Run)
    → Fills old content run
    → ((status : Status) (script : List IoOutcome) (files : Files)
        → Holds old content status files
        → Fills old after (next status script files))
    → Fills old after (then_run run next)
then_run-Fills old content after run next h step = elim (Option-cases run.status) [
  | inl stop ↦ rw stop (h.0, λ s e g. absurd (ground (arith, e, stop)))
  | inr (status, here) ↦ rw here (step status run.script run.files (h.0, λ g. h.1 status here g))
]

pub bad_status :
    (operation : String) (describe : String → ℕ → String) (n : ℕ)
    → is_ok (manifest_io_error describe operation n) ≡ false
unfolding manifest_io_error io_error
bad_status operation describe n = refl

pub ended-Fills :
    (old : Option Stored) (content : Stored) (status : Status) (script : List IoOutcome)
    (files : Files)
    → Holds old content status files
    → Fills old content (ended status script files)
ended-Fills old content status script files h = (h.0, λ s e g. h.1 (ground (arith, e, g)))

pub failed-Fills :
    (old : Option Stored) (content : Stored) (status : Status) (script : List IoOutcome)
    (files : Files)
    → files.published ≡ old
    → is_ok status ≡ false
    → Fills old content (ended status script files)
failed-Fills old content status script files h bad =
    ended-Fills old content status script files (h, λ g. absurd (ground (g, bad, arith)))

pub stopped-Fills :
    (old : Option Stored) (content : Stored) (files : Files)
    → files.published ≡ old
    → Fills old content (stopped files)
stopped-Fills old content files h = (h, λ s e g. absurd (ground (arith, e)))

module _ (describe : String → ℕ → String) where
  pub write_all-Fills :
      (old : Option Stored) (script : List IoOutcome) (bytes done : Bytes) (files : Files)
      → files.published ≡ old
      → files.temporary ≡ some (unsynced done)
      → Fills old (unsynced (done ++ bytes)) (write_all describe script bytes files)
  unfolding write_all
  write_all-Fills old script [] done files h t =
      ended-Fills old (unsynced (done ++ [])) success script files
        (h, λ g. t ∙ ap (λ c. some (unsynced c)) (sym (append-nil done)))
  write_all-Fills old [] (b ∷ bytes) done files h t =
      stopped-Fills old (unsynced (done ++ (b ∷ bytes))) files h
  write_all-Fills old (killed n ∷ script) (b ∷ bytes) done files h t =
      stopped-Fills old (unsynced (done ++ (b ∷ bytes)))
        (record files { temporary = appended files.temporary (take n (b ∷ bytes)) }) h
  write_all-Fills old (interrupted ∷ script) (b ∷ bytes) done files h t =
      write_all-Fills old script (b ∷ bytes) done files h t
  write_all-Fills old (failed n ∷ script) (b ∷ bytes) done files h t =
      failed-Fills old (unsynced (done ++ (b ∷ bytes))) (manifest_io_error describe "write" n)
        script files h (bad_status "write" describe n)
  write_all-Fills old (transferred n ∷ script) (b ∷ bytes) done files h t =
      let whole = b ∷ bytes in
      let written = min n (length whole) in
      let after : Files = record files {
        temporary = appended files.temporary (take written whole);
      } in
      elim (Bool-cases (written == 0)) [
        | inl nothing ↦
            rw (write_all, nothing)
              (failed-Fills old (unsynced (done ++ whole)) (manifest_io_error describe "write" 5)
                script files h (bad_status "write" describe 5))
        | inr some_bytes ↦
            rw (write_all, some_bytes)
              (subst
                (λ c. Fills old (unsynced c) (write_all describe script (drop written whole) after))
                (append_assoc done (take written whole) (drop written whole)
                  ∙ ap (λ r. done ++ r) (take-append-drop written whole))
                (write_all-Fills old script (drop written whole) (done ++ take written whole) after
                  h (ap (λ o. appended o (take written whole)) t)))
      ]

  pub sync_file-Fills :
      (old : Option Stored) (content : Bytes) (script : List IoOutcome) (files : Files)
      → files.published ≡ old
      → files.temporary ≡ some (unsynced content)
      → Fills old (durable content) (sync_file describe script files)
  unfolding sync_file
  sync_file-Fills old content [] files h t = stopped-Fills old (durable content) files h
  sync_file-Fills old content (interrupted ∷ script) files h t =
      sync_file-Fills old content script files h t
  sync_file-Fills old content (failed n ∷ script) files h t =
      failed-Fills old (durable content) (manifest_io_error describe "sync" n) script files h
        (bad_status "sync" describe n)
  sync_file-Fills old content (transferred n ∷ script) files h t =
      ended-Fills old (durable content) success script
        (record files { temporary = synced files.temporary }) (h, λ g. ap synced t)
  sync_file-Fills old content (killed n ∷ script) files h t =
      stopped-Fills old (durable content) (record files { temporary = synced files.temporary }) h

  pub if_ok-Fills :
      (old : Option Stored) (content : Bytes) (status : Status) (script : List IoOutcome)
      (files : Files)
      → Holds old (unsynced content) status files
      → Fills old (durable content) (if_ok (sync_file describe) status script files)
  if_ok-Fills old content status script files h = elim (Bool-cases (is_ok status)) [
    | inl good ↦ rw good (sync_file-Fills old content script files h.0 (h.1 good))
    | inr bad ↦ rw bad (failed-Fills old (durable content) status script files h.0 bad)
  ]

  pub close_file-Fills :
      (old : Option Stored) (content : Stored) (status : Status) (script : List IoOutcome)
      (files : Files)
      → Holds old content status files
      → Fills old content (close_file describe status script files)
  unfolding close_file
  close_file-Fills old content status [] files h = stopped-Fills old content files h.0
  close_file-Fills old content status (transferred n ∷ script) files h =
      ended-Fills old content status script files h
  close_file-Fills old content status (killed n ∷ script) files h =
      stopped-Fills old content files h.0
  close_file-Fills old content status (interrupted ∷ script) files h =
      failed-Fills old content
        (if is_ok status then manifest_io_error describe "close" 4 else status) script files h.0
        (elim (Bool-cases (is_ok status)) [
          | inl good ↦ rw good (bad_status "close" describe 4)
          | inr bad ↦ rw bad bad
        ])
  close_file-Fills old content status (failed n ∷ script) files h =
      failed-Fills old content
        (if is_ok status then manifest_io_error describe "close" n else status) script files h.0
        (elim (Bool-cases (is_ok status)) [
          | inl good ↦ rw good (bad_status "close" describe n)
          | inr bad ↦ rw bad bad
        ])
