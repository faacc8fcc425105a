-- ===== src/State.antt =====
-- Package state (internal/state/state.go): the snapshot of a running lab, its validation and the
-- names of its bridges. SHA-1, as lower-case hexadecimal text, and the decoding of hexadecimal are
-- arguments: `hash` and the number of bytes that a text decodes to.
pub mod Laws
use frridge.Base.{
  ℕ, String, Bool, false, ◌||◌, ◌&&◌, not, Option, none, some, List, [], ◌∷◌, ◌==◌, ◌<>◌,
  if◌then◌else◌, Result, ok, err, ◌>>=◌, ◌>>◌, reject_if, for_each, nat_eq,
}
use frridge.Base.Int.{ℤ, is_negative}
use frridge.Base.Text.{is_blank, base, has, is_nul}
use frridge.Base.Dict.{Dict}
use frridge.Base.Slices.{take_chars, cut_prefix}

pub record ContainerState : Type 0 where
  pub id : String
  pub pid : ℤ
  pub config_dir : String

-- A nil map is `none`: a snapshot from before the bridge inventory has no `owned_bridges`.
pub record LabState : Type 0 where
  pub lab : String
  pub topology_digest : String
  pub containers : Option (Dict ContainerState)
  pub owned_bridges : Option (Dict String)

pub data StateError : Type 0 where
  lab_mismatch : String → StateError
  invalid_digest no_containers invalid_container foreign_bridge : StateError

pub record Snapshot : Type 0 where
  pub path : String
  pub state : LabState

-- What the code uses of crypto/sha1 and encoding/hex.
pub record Hashing : Type 0 where
  pub sha1_hex : String → String
  pub decoded_length : String → Option ℕ

module _ (h : Hashing) where
  unfoldable pub bridge_name : String → String → String
  bridge_name lab link = "frb" <> take_chars 11 (h.sha1_hex (lab <> ("/" <> link)))

  -- The test of what follows the prefix of the digest.
  abbrev pub is_sha256 : Option String → Bool
  is_sha256 none = false
  is_sha256 (some text) = elim (h.decoded_length text) [ none ↦ false | some n ↦ nat_eq n 32 ]

  unfoldable pub validate_container : String × ContainerState → Result StateError (Unit {0})
  validate_container (router, c) =
      reject_if (is_blank router || is_blank c.id || is_negative c.pid) invalid_container

  unfoldable pub validate_bridge : String → String × String → Result StateError (Unit {0})
  validate_bridge lab (link, name) =
      reject_if (is_blank link || not (name == bridge_name lab link)) foreign_bridge

  unfoldable pub validate_containers : Option (Dict ContainerState) → Result StateError (Unit {0})
  validate_containers none = err no_containers
  validate_containers (some containers) = for_each (λ _ c. validate_container c) tt containers

  -- A nil map has no entries to check.
  unfoldable pub validate_bridges : String → Option (Dict String) → Result StateError (Unit {0})
  validate_bridges lab none = ok tt
  validate_bridges lab (some bridges) = for_each (λ _ b. validate_bridge lab b) tt bridges

  unfoldable pub validate : LabState → String → Result StateError (Unit {0})
  validate s lab = do
    reject_if
        (is_blank s.lab
          || s.lab == "."
          || s.lab == ".."
          || not (base s.lab == s.lab)
          || has is_nul s.lab
          || not (s.lab == lab))
        (lab_mismatch lab)
    reject_if (not (is_sha256 (cut_prefix "sha256:" s.topology_digest))) invalid_digest
    validate_containers s.containers
    validate_bridges s.lab s.owned_bridges
