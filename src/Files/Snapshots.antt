-- ===== src/Files/Snapshots.antt =====
-- Read, Write, Remove and ScanWorkDir of internal/state/state.go. The JSON of a snapshot and the
-- matches of a glob are parameters.
use frridge.Base.{◌<>◌, String, Option, none, some, List, [], ◌∷◌, Result, ok, err}
use frridge.Base.Text.{base}
use frridge.Base.FilePath.{join}
use frridge.Base.Program.{◌>>=◌, ◌>>◌, pure, raise, lift, within, wrap_error}
use frridge.State.{Hashing, LabState, Snapshot, validate}
use frridge.Files.Disk.{
  Faults, F, FileError, Presence, present, absent, stat_fault, io, not_exist, unencodable,
  undecodable, invalid_state, at_step, dir_of, touch, write_file, read_file, stat, remove, rename,
  create_temp,
}

-- `json.MarshalIndent`, and the strict decoding of one object.
pub record Codec : Type 0 where
  pub encode : LabState → Option String
  pub decode : String → Option LabState

abbrev pub given : Option String → Result FileError String
given none = err unencodable
given (some text) = ok text

abbrev pub decoded : Option LabState → Result FileError LabState
decoded none = err undecodable
decoded (some snapshot) = ok snapshot

-- `err != nil && !os.IsNotExist(err)`
unfoldable pub unless_missing : Result FileError (Unit {0}) → Result FileError (Unit {0})
unless_missing (ok done) = ok tt
unless_missing (err not_exist) = ok tt
unless_missing (err (io e)) = err (io e)
unless_missing (err unencodable) = err unencodable
unless_missing (err undecodable) = err undecodable
unless_missing (err (invalid_state e)) = err (invalid_state e)
unless_missing (err (at_step what e)) = err (at_step what e)

-- The file's mode, when it can be found out.
unfoldable pub find_mode : Presence → F (Unit {0})
find_mode present = pure tt
find_mode absent = pure tt
find_mode (stat_fault e) = raise (io e)

module _ (f : Faults) where
  -- What Write does to the temporary file: its mode, its content, and its place.
  unfoldable pub fill_and_rename : String → String → String → F (Unit {0})
  fill_and_rename temp path text = do
    answer ← stat f path
    find_mode answer
    touch f
    write_file f temp (text <> "\n")
    touch f
    touch f
    within (at_step "replace state file") (rename f temp path)

  -- A body and then the removal that `defer` put off; its error is dropped.
  unfoldable pub then_remove : String → F (Unit {0}) → F (Unit {0})
  then_remove temp body d = let (result, filled) = body d in (result, (remove f temp filled).1)

  unfoldable pub remove_state : String → F (Unit {0})
  remove_state path d = let (result, left) = remove f path d in (unless_missing result, left)

module _ (f : Faults) (codec : Codec) where
  unfoldable pub write : String → LabState → F (Unit {0})
  write path snapshot = do
    within (at_step "create state dir") (touch f)
    text ← lift (given (codec.encode snapshot))
    temp ← create_temp f (dir_of path)
    then_remove f temp (fill_and_rename f temp path text)

  module _ (hash : Hashing) where
    unfoldable pub read : String → F LabState
    read path = do
      text ← within (at_step "read state file") (read_file f path)
      snapshot ← lift (decoded (codec.decode text))
      lift (wrap_error invalid_state (validate hash snapshot snapshot.lab))
      pure snapshot

    -- The round of ScanWorkDir's loop.
    unfoldable pub scan_each : List String → F (List Snapshot)
    scan_each [] = pure []
    scan_each (path ∷ paths) = do
      snapshot ← read path
      lift (wrap_error invalid_state (validate hash snapshot (base (dir_of path))))
      rest ← scan_each paths
      pure (record { path = path; state = snapshot } ∷ rest)

    unfoldable pub scan_work_dir : (String → F (List String)) → String → F (List Snapshot)
    scan_work_dir glob work_dir = do
      matches ← glob (join (work_dir ∷ "labs" ∷ "*" ∷ "state.json" ∷ []))
      scan_each matches
