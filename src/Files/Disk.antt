-- ===== src/Files/Disk.antt =====
-- What the program uses of package os: files by their paths, and operations that may fail. A failed
-- write may leave anything in the file; a failed rename leaves both files as they were.
use Prim.Native.String.{[], ◌∷◌}
use frridge.Base.{
  ℕ, suc, ◌≡◌, refl, String, false, Option, none, some, List, Result, ok, err, if◌then◌else◌, arith,
  ◌==◌, eq_iff,
}
use frridge.Base.Dict.{Dict, lookup, insert, erase}
use frridge.Base.Text.{has, is_slash}
use frridge.Base.FilePath.{clean}
use frridge.Base.Program.{Program}
use frridge.State.{StateError}

abbrev pub Fault : Type 0
Fault = String

pub record Disk : Type 0 where
  pub files : Dict String
  -- How many operations have been done.
  pub clock : ℕ

-- Which operations fail, what a failed write leaves, and the names of new temporary files.
pub record Faults : Type 0 where
  pub fails : ℕ → Option Fault
  pub torn : ℕ → Option String
  pub temporary : ℕ → String → String

pub data FileError : Type 0 where
  io : Fault → FileError
  not_exist : FileError
  -- The errors of package state, and the wrapping of an error with what was being done.
  unencodable undecodable : FileError
  invalid_state : StateError → FileError
  at_step : String → FileError → FileError

abbrev pub F : Type 0 → Type 0
F = Program Disk FileError

-- What `os.Stat` says.
pub data Presence : Type 0 where
  present absent : Presence
  stat_fault : Fault → Presence

-- The text to the last slash, with it.
unfoldable pub to_slash : String → String
unfolding has
to_slash [] = []
to_slash (c ∷ s) =
    let rest = to_slash s in if has is_slash s then c ∷ rest else if is_slash c then c ∷ [] else []

-- filepath.Dir
unfoldable pub dir_of : String → String
dir_of path = clean (to_slash path)

abbrev pub after : Disk → Dict String → Disk
after d files = record { files = files; clock = suc d.clock }

abbrev pub torn_write : String → Option String → Dict String → Dict String
torn_write path none files = files
torn_write path (some left) files = insert path left files

abbrev pub found : Option String → Presence
found none = absent
found (some content) = present

abbrev pub content_of : Option String → Result FileError String
content_of none = err not_exist
content_of (some content) = ok content

module _ (f : Faults) where
  -- An operation that changes no content, such as `MkdirAll`, `Chmod`, `Sync` and `Close`.
  unfoldable pub touch : F (Unit {0})
  touch d = elim (f.fails d.clock) [
    | some e ↦ (err (io e), after d d.files)
    | none ↦ (ok tt, after d d.files)
  ]

  unfoldable pub write_file : String → String → F (Unit {0})
  write_file path text d = elim (f.fails d.clock) [
    | some e ↦ (err (io e), after d (torn_write path (f.torn d.clock) d.files))
    | none ↦ (ok tt, after d (insert path text d.files))
  ]

  unfoldable pub read_file : String → F String
  read_file path d = elim (f.fails d.clock) [
    | some e ↦ (err (io e), after d d.files)
    | none ↦ (content_of (lookup path d.files), after d d.files)
  ]

  unfoldable pub stat : String → F Presence
  stat path d = elim (f.fails d.clock) [
    | some e ↦ (ok (stat_fault e), after d d.files)
    | none ↦ (ok (found (lookup path d.files)), after d d.files)
  ]

  unfoldable pub remove : String → F (Unit {0})
  remove path d = elim (f.fails d.clock) [
    | some e ↦ (err (io e), after d d.files)
    | none ↦ elim (lookup path d.files) [
      | none ↦ (err not_exist, after d d.files)
      | some _ ↦ (ok tt, after d (erase path d.files))
    ]
  ]

  unfoldable pub rename : String → String → F (Unit {0})
  rename old new d = elim (f.fails d.clock) [
    | some e ↦ (err (io e), after d d.files)
    | none ↦ elim (lookup old d.files) [
      | none ↦ (err not_exist, after d d.files)
      | some content ↦ (ok tt, after d (insert new content (erase old d.files)))
    ]
  ]

  -- An empty file with a new name.
  unfoldable pub create_temp : String → F String
  create_temp dir d = elim (f.fails d.clock) [
    | some e ↦ (err (io e), after d d.files)
    | none ↦ (ok (f.temporary d.clock dir), after d (insert (f.temporary d.clock dir) "" d.files))
  ]

pub lookup-erase :
    (removed read : String) (m : Dict String)
    → (removed == read) ≡ false
    → lookup read (erase removed m) ≡ lookup read m
unfolding lookup erase
lookup-erase removed read List.[] other = refl
lookup-erase removed read (List.◌∷◌ (key, value) m) other = ground (
  arith,
  lookup-erase removed read m other,
  eq_iff key removed,
  eq_iff key read,
  eq_iff removed read,
)
