-- ===== src/Manifest/File.antt =====
-- engine/lsmtree/src/db/manifest.cc: writing the file of a manifest. The system calls take their outcomes
-- from a script, as those of the log do.
use mizu.Base.{
  ℕ, Bool, true, false, Option, none, some, List, [], ◌∷◌, ◌++◌, String, min, ◌==◌, if◌then◌else◌,
  length, take, drop,
}
use mizu.Base.Order.{Bytes}
use mizu.Status.{Status, ok, err, success, io_error, is_ok}
use mizu.Wal.{IoOutcome, transferred, interrupted, failed, killed}
use mizu.Wal.Writer.{eio}
use mizu.Manifest.{ManifestState, encode_manifest}

-- EINTR
abbrev pub eintr : ℕ
eintr = 4

-- A file: its content, and whether all of it was synced.
pub record Stored : Type 0 where
  pub content : Bytes
  pub is_synced : Bool

-- What the directory holds at the path and at the temporary path.
pub record Files : Type 0 where
  pub published : Option Stored
  pub temporary : Option Stored

-- What a call leaves: its status, or `none` if the process stopped inside it, the outcomes that no
-- call has used, and the files.
pub record Run : Type 0 where
  pub status : Option Status
  pub script : List IoOutcome
  pub files : Files

abbrev pub stopped : Files → Run
stopped files = record { status = none; script = []; files = files }

abbrev pub ended : Status → List IoOutcome → Files → Run
ended status script files = record { status = some status; script = script; files = files }

abbrev pub unsynced : Bytes → Stored
unsynced bytes = record { content = bytes; is_synced = false }

abbrev pub durable : Bytes → Stored
durable bytes = record { content = bytes; is_synced = true }

abbrev pub appended : Option Stored → Bytes → Option Stored
appended none bytes = some (unsynced bytes)
appended (some stored) bytes = some (unsynced (stored.content ++ bytes))

abbrev pub synced : Option Stored → Option Stored
synced none = none
synced (some stored) = some (record stored { is_synced = true })

-- `::unlink(temporary_path)`, whose result is not looked at.
unfoldable pub unlink : Status → List IoOutcome → Files → Run
unlink status [] files = stopped files
unlink status (transferred n ∷ script) files =
    ended status script (record files { temporary = none })
unlink status (killed n ∷ script) files = stopped (record files { temporary = none })
unlink status (interrupted ∷ script) files = ended status script files
unlink status (failed error_number ∷ script) files = ended status script files

-- What follows a call: nothing if the process has stopped inside it.
abbrev pub then_run : Run → (Status → List IoOutcome → Files → Run) → Run
then_run run next = elim run.status [ none ↦ run | some status ↦ next status run.script run.files ]

-- `if (status.ok()) status = syncFile(...)`
abbrev pub if_ok : (List IoOutcome → Files → Run) → Status → List IoOutcome → Files → Run
if_ok next status script files =
    if is_ok status then next script files else ended status script files

-- `describe` stands for the text of an errno, with the path.
module _ (describe : String → ℕ → String) where
  unfoldable pub manifest_io_error : String → ℕ → Status
  manifest_io_error operation error_number = io_error (describe operation error_number)

  -- `::open` with O_CREAT and O_TRUNC
  unfoldable pub open_temporary : List IoOutcome → Files → Run
  open_temporary [] files = stopped files
  open_temporary (transferred n ∷ script) files =
      ended success script (record files { temporary = some (unsynced []) })
  open_temporary (killed n ∷ script) files =
      stopped (record files { temporary = some (unsynced []) })
  open_temporary (interrupted ∷ script) files = ended (manifest_io_error "open" eintr) script files
  open_temporary (failed error_number ∷ script) files =
      ended (manifest_io_error "open" error_number) script files

  unfoldable pub write_all : List IoOutcome → Bytes → Files → Run
  write_all script [] files = ended success script files
  write_all [] (b ∷ bytes) files = stopped files
  write_all (killed n ∷ script) (b ∷ bytes) files =
      stopped (record files { temporary = appended files.temporary (take n (b ∷ bytes)) })
  write_all (interrupted ∷ script) (b ∷ bytes) files = write_all script (b ∷ bytes) files
  write_all (failed error_number ∷ script) (b ∷ bytes) files =
      ended (manifest_io_error "write" error_number) script files
  write_all (transferred n ∷ script) (b ∷ bytes) files =
      let written = min n (length (b ∷ bytes)) in
      elim (written == 0) [
        | true ↦ ended (manifest_io_error "write" eio) script files
        | false ↦
            write_all script (drop written (b ∷ bytes))
              (record files { temporary = appended files.temporary (take written (b ∷ bytes)) })
      ]

  unfoldable pub sync_file : List IoOutcome → Files → Run
  sync_file [] files = stopped files
  sync_file (interrupted ∷ script) files = sync_file script files
  sync_file (failed error_number ∷ script) files =
      ended (manifest_io_error "sync" error_number) script files
  sync_file (killed n ∷ script) files =
      stopped (record files { temporary = synced files.temporary })
  sync_file (transferred n ∷ script) files =
      ended success script (record files { temporary = synced files.temporary })

  -- `if (::close(fd) != 0 && status.ok())`
  unfoldable pub close_file : Status → List IoOutcome → Files → Run
  close_file status [] files = stopped files
  close_file status (transferred n ∷ script) files = ended status script files
  close_file status (killed n ∷ script) files = stopped files
  close_file status (interrupted ∷ script) files =
      ended (if is_ok status then manifest_io_error "close" eintr else status) script files
  close_file status (failed error_number ∷ script) files =
      ended (if is_ok status then manifest_io_error "close" error_number else status) script files

  unfoldable pub rename_temporary : List IoOutcome → Files → Run
  rename_temporary [] files = stopped files
  rename_temporary (transferred n ∷ script) files =
      ended success script (record { published = files.temporary; temporary = none })
  rename_temporary (killed n ∷ script) files =
      stopped (record { published = files.temporary; temporary = none })
  rename_temporary (interrupted ∷ script) files =
      unlink (manifest_io_error "rename" eintr) script files
  rename_temporary (failed error_number ∷ script) files =
      unlink (manifest_io_error "rename" error_number) script files

  abbrev pub publish : Status → List IoOutcome → Files → Run
  publish status script files =
      if is_ok status then rename_temporary script files else unlink status script files

  -- `writeManifest` from the open file on.
  unfoldable pub fill_temporary : Bytes → List IoOutcome → Files → Run
  fill_temporary encoded script files =
      then_run (then_run (then_run (write_all script encoded files) (if_ok sync_file)) close_file)
        publish

  unfoldable pub write_manifest : List IoOutcome → ManifestState → Files → Run
  write_manifest script state files = elim (encode_manifest state) [
    | err status ↦ ended status script files
    | ok encoded ↦ then_run (open_temporary script files) (if_ok (fill_temporary encoded))
  ]
