-- ===== src/Multipass/Request.antt =====
-- The resolution of a request, the guest's architecture and the first subcommand, of
-- internal/multipass/multipass.go. The host's directories and SHA-256 are parameters.
pub mod Laws
use frridge.Base.{
  ℕ, ◌<>◌, String, Bool, true, false, ◌||◌, not, Option, none, some, List, [], ◌∷◌, Result, ok, err,
  ◌>>=◌, ◌>>◌, ◌==◌, if◌then◌else◌, contains, reject_if,
}
use frridge.Base.Int.{ℤ, pos, is_zero, is_non_positive}
use frridge.Base.Text.{trim_space, is_blank}
use frridge.Base.Dict.{is_some}
use frridge.Base.FilePath.{join}
use frridge.Base.Slices.{take_chars, cut_prefix}
use frridge.Multipass.Client.{Instance}

pub record Request : Type 0 where
  pub instance : Instance
  pub repo_dir : String
  pub host_dir : String
  pub refresh_image : Bool

pub record ResolvedRequest : Type 0 where
  pub instance : Instance
  pub host_dir : String
  pub repo_dir : String
  pub guest_host_dir : String
  pub guest_repo_dir : String
  pub guest_work_dir : String
  pub refresh_image : Bool

pub data RequestError : Type 0 where
  non_positive_cpus : RequestError
  bad_host_dir bad_repo_dir : RequestError → RequestError
  unresolved not_a_directory : String → RequestError
  no_repository : RequestError
  unsupported_guest_arch : String → RequestError

-- What the code asks of the host: `os.Getwd`, `filepath.Abs`, whether `os.Stat` finds a directory,
-- SHA-256 in hexadecimal text, and what detectRepoDir finds from the working directory.
pub record HostFiles : Type 0 where
  pub getwd : Result RequestError String
  pub abs : String → Result RequestError String
  pub is_dir : String → Result RequestError Bool
  pub sha256 : String → String
  pub detect_repo_dir : Result RequestError String

abbrev pub or_default : String → String → String
or_default value default = if is_blank value then default else value

unfoldable pub with_defaults : Instance → Instance
with_defaults inst = record {
  name = or_default inst.name "frridge-dev";
  image = or_default inst.image "24.04";
  cpus = if is_zero inst.cpus then pos 2 else inst.cpus;
  memory = or_default inst.memory "4G";
  disk = or_default inst.disk "20G";
}

module _ (h : HostFiles) where
  unfoldable pub short_hash : String → String
  short_hash input = take_chars 12 (h.sha256 input)

  unfoldable pub resolve_directory : String → Result RequestError String
  resolve_directory input = do
    let trimmed = trim_space input
    dir ← if trimmed == "" then h.getwd else ok trimmed
    path ← h.abs dir
    is_dir ← h.is_dir path
    reject_if (not is_dir) (not_a_directory path)
    ok path

  abbrev pub as_host_dir : Result RequestError String → Result RequestError String
  as_host_dir (ok dir) = ok dir
  as_host_dir (err e) = err (bad_host_dir e)

  abbrev pub as_repo_dir : Result RequestError String → Result RequestError String
  as_repo_dir (ok dir) = ok dir
  as_repo_dir (err e) = err (bad_repo_dir e)

  abbrev pub mount_root : String
  mount_root = "/home/ubuntu/.local/share/frridge-mp/mounts"

  abbrev pub state_root : String
  state_root = "/home/ubuntu/.local/share/frridge-mp/workdirs"

  unfoldable pub resolve_request : Request → Result RequestError ResolvedRequest
  resolve_request req = do
    let inst = with_defaults req.instance
    reject_if (is_non_positive inst.cpus) non_positive_cpus
    host_dir ← as_host_dir (resolve_directory req.host_dir)
    let given_repo = trim_space req.repo_dir
    repo ← if given_repo == "" then h.detect_repo_dir else ok given_repo
    repo_dir ← as_repo_dir (resolve_directory repo)
    let guest_repo_dir = join (mount_root ∷ short_hash repo_dir ∷ [])
    let own_host_dir = join (mount_root ∷ short_hash host_dir ∷ [])
    ok (record {
      instance = inst;
      host_dir = host_dir;
      repo_dir = repo_dir;
      guest_host_dir = if host_dir == repo_dir then guest_repo_dir else own_host_dir;
      guest_repo_dir = guest_repo_dir;
      guest_work_dir = join (state_root ∷ short_hash host_dir ∷ []);
      refresh_image = req.refresh_image;
    })

unfoldable pub map_guest_arch : String → Result RequestError String
map_guest_arch raw =
    let trimmed = trim_space raw in
    if contains ("x86_64" ∷ "amd64" ∷ []) trimmed
    then ok "amd64"
    else if contains ("aarch64" ∷ "arm64" ∷ []) trimmed
    then ok "arm64"
    else err (unsupported_guest_arch trimmed)

-- The loop over the arguments: a flag of its own argument skips that too.
unfoldable pub first_frridge_command : List String → String
first_frridge_command [] = ""
first_frridge_command (arg ∷ []) =
    if contains ("--file" ∷ "-f" ∷ []) arg || is_some (cut_prefix "-" arg) then "" else arg
first_frridge_command (arg ∷ next ∷ rest) =
    let skipping_two = first_frridge_command rest in
    let skipping_one = first_frridge_command (next ∷ rest) in
    if contains ("--file" ∷ "-f" ∷ []) arg
    then skipping_two
    else if is_some (cut_prefix "-" arg)
    then skipping_one
    else arg
