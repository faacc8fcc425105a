-- ===== src/Tests/Files.antt =====
-- The theorems on the files of internal/state/state.go and internal/frr/files.go, on a small disk.
use frridge.Base.{
  ℕ, ◌≡◌, refl, ◌⊎◌, String, false, none, some, [], ◌∷◌, ok, ◌==◌, ◌<>◌, if◌then◌else◌,
}
use frridge.Base.Text.{has}
use frridge.Base.FilePath.{clean, walk, elements, slashed, join}
use frridge.Base.Program.{◌>>=◌, within, lift, pure}
use frridge.Base.Dict.{lookup, insert, erase}
use frridge.Runtime.Host.{PrepareResult}
use frridge.Files.Disk.{
  Disk, Faults, dir_of, to_slash, touch, write_file, stat, remove, rename, create_temp, read_file,
}
use frridge.Files.Snapshots.{Codec, write, read, find_mode, fill_and_rename, then_remove}
use frridge.Files.Atomic.Write.{write-whole, read-write}
use frridge.Files.Frr.{
  prepare_router_files, mark_seeded, write_if_missing, write_absent, place_config, write_default,
  needs_seed_of,
}
use frridge.Files.Seeding.{marker, prepare_router_files-mark_seeded}
use frridge.Tests.Data.{hashing, running}
use frridge.Tests.Config.{running-is_valid}

abbrev state_path : String
state_path = "/w/labs/lab/state.json"

abbrev before : Disk
before = record { files = (state_path, "{}\n") ∷ []; clock = 0 }

-- Nothing fails, and temporary files have one name.
abbrev calm : Faults
calm = record { fails = λ n. none; torn = λ n. none; temporary = λ n dir. dir <> "/.state-1" }

-- A codec that knows one snapshot.
abbrev codec : Codec
codec = record {
  encode = λ s. some "{ \"lab\": \"lab\" }";
  decode = λ text. if text == "{ \"lab\": \"lab\" }\n" then some running else none;
}

own_name : (n : ℕ) → (calm.temporary n (dir_of state_path) == state_path) ≡ false
unfolding dir_of clean to_slash walk elements slashed has
own_name n = refl

write-whole_example :
    ((lookup state_path (write calm codec state_path running before).1.files ≡ some "{}\n")
      ⊎ (lookup state_path (write calm codec state_path running before).1.files
          ≡ some "{ \"lab\": \"lab\" }\n"))
    × ((write calm codec state_path running before).0 ≡ ok tt
        → lookup state_path (write calm codec state_path running before).1.files
          ≡ some "{ \"lab\": \"lab\" }\n")
unfolding lookup
write-whole_example =
    write-whole calm codec state_path running "{ \"lab\": \"lab\" }" before refl own_name

write-succeeds : (write calm codec state_path running before).0 ≡ ok tt
unfolding write find_mode fill_and_rename then_remove ◌>>=◌ within lift pure touch write_file stat
    remove rename create_temp read_file lookup insert erase dir_of clean to_slash walk elements
    slashed has
write-succeeds = refl

read-write_example :
    (read calm codec hashing state_path (write calm codec state_path running before).1).0
    ≡ ok running
read-write_example =
    read-write calm codec state_path hashing running "{ \"lab\": \"lab\" }" before refl refl
      running-is_valid own_name write-succeeds refl

abbrev seeded : Disk
seeded = (mark_seeded calm (marker calm "/w/labs/lab/r1" "r1") before).1

abbrev prepared : PrepareResult
prepared = record {
  config_dir = "/w/labs/lab/r1/etc/frr";
  needs_seed = false;
  marker_path = "/w/labs/lab/r1/.seeded-vtysh";
}

mark-succeeds : (mark_seeded calm (marker calm "/w/labs/lab/r1" "r1") before).0 ≡ ok tt
unfolding mark_seeded join ◌>>=◌ within lift pure touch write_file stat remove rename create_temp
    read_file lookup insert erase dir_of clean to_slash walk elements slashed has
mark-succeeds = refl

prepare-succeeds : (prepare_router_files calm "/w/labs/lab/r1" "r1" false seeded).0 ≡ ok prepared
unfolding prepare_router_files mark_seeded write_if_missing write_absent place_config write_default
    needs_seed_of join ◌>>=◌ within lift pure touch write_file stat remove rename create_temp
    read_file lookup insert erase dir_of clean to_slash walk elements slashed has
prepare-succeeds = refl

prepare_router_files-mark_seeded_example : prepared.needs_seed ≡ false
prepare_router_files-mark_seeded_example =
    prepare_router_files-mark_seeded calm "/w/labs/lab/r1" "r1" before prepared mark-succeeds
      prepare-succeeds
