-- ===== src/Multipass/Manager.antt =====
-- `Manager` of internal/multipass/multipass.go: how an instance, its directories, its binary and its
-- companion image are brought up. The calls are those of the interfaces multipassCLI, Builder and
-- ImageBuilder and of package os; what they answer is a function of the calls before.
pub mod Image
pub mod Commands
use frridge.Base.{
  ◌<>◌, String, Bool, true, false, ◌||◌, ◌&&◌, not, Option, none, some, List, [], ◌∷◌, ◌++◌, Result,
  ok, err, ◌==◌, if◌then◌else◌,
}
use frridge.Base.Dict.{Dict, lookup}
use frridge.Base.FilePath.{clean, join}
use frridge.Base.Program.{Program, ◌>>=◌, ◌>>◌, pure, raise, lift, within, each}
use frridge.Base.Program.Calls.{ask, invoke, perform}
use frridge.Multipass.Shell.{ExecSpec}
use frridge.Multipass.Client.{Instance, Info}
use frridge.Multipass.Request.{RequestError, ResolvedRequest, map_guest_arch}
use frridge.Multipass.Image.{ImageBuildResult, ImageError, Sources}

pub data Call : Type 0 where
  info start : String → Call
  launch : Instance → Call
  mount transfer : String → String → Call
  exec output : String → ExecSpec → Call
  build_binary : String → String → Call
  stat_file : String → Call
  cached_image build_image : String → String → Call
  random_text : Call

abbrev pub History : Type 0
History = List Call

-- `BuildResult`.
pub record BuildResult : Type 0 where
  pub id : String
  pub path : String

pub data ManagerError : Type 0 where
  outside : String → ManagerError
  instance_not_found host_docker_unavailable : ManagerError
  request : RequestError → ManagerError
  image : ImageError → ManagerError
  already_mounted : String → String → ManagerError
  no_dockerfile identity_mismatch inputs_mismatch : ManagerError
  stat_dockerfile transfer_archive : ManagerError → ManagerError
  no_command no_arguments : ManagerError

-- What `os.Stat` says of a file.
pub data Presence : Type 0 where
  present absent : Presence
  stat_fault : ManagerError → Presence

pub record Outside : Type 0 where
  pub performed : History → Call → Option ManagerError
  pub informed : History → String → Result ManagerError Info
  pub printed : History → String → ExecSpec → Result ManagerError String
  pub built : History → String → String → Result ManagerError BuildResult
  pub presence : History → String → Presence
  -- The image builder, which a Manager may lack: its cached archive, if it has one, and a new one.
  pub has_image_builder : Bool
  pub cached : History → String → String → Result ManagerError (Option ImageBuildResult)
  pub image_built : History → String → String → Result ManagerError ImageBuildResult
  pub random : History → String
  pub sources : Sources
  -- The script that guestBootstrapScript makes of its template, `os.Getpid` as text, the terminal's
  -- input, and the value of config.WorkDirOverrideEnv.
  pub bootstrap_script : String
  pub pid : String
  pub terminal : String
  pub work_dir_env : String

abbrev pub M : Type 0 → Type 0
M = Program History ManagerError

-- A command with nothing else in its ExecSpec but the directory.
abbrev pub command_in : String → List String → ExecSpec
command_in dir command = record {
  command = command;
  dir = dir;
  env = [];
  stdin = none;
  has_stdout = false;
  has_stderr = false;
}

-- `Environment`, the parts that are used.
pub record Environment : Type 0 where
  pub instance_name : String
  pub host_dir : String
  pub repo_dir : String
  pub guest_host_dir : String
  pub guest_repo_dir : String
  pub guest_work_dir : String
  pub guest_binary_dir : String
  pub guest_binary : String

abbrev pub binary_root : String
binary_root = "/home/ubuntu/.local/share/frridge-mp/bin"

module _ (o : Outside) where
  unfoldable pub perform_call : Call → M (Unit {0})
  perform_call call = perform o.performed call

  unfoldable pub run_in : String → String → List String → M (Unit {0})
  run_in instance dir command = perform_call (exec instance (command_in dir command))

  unfoldable pub output_in : String → String → List String → M String
  output_in instance dir command =
      let spec = command_in dir command in
      invoke (output instance spec) (λ past. o.printed past instance spec)

  unfoldable pub get_info : String → M Info
  get_info name = invoke (info name) (λ past. o.informed past name)

  -- An answer to `Info` that is not an error, or the instance launched and looked up again.
  unfoldable pub launched : Instance → Result ManagerError Info → M Info
  launched inst (ok found) = pure found
  launched inst (err instance_not_found) = do perform_call (launch inst); get_info inst.name
  launched inst (err e) = raise e

  module _ (equal_fold : String → String → Bool) where
    unfoldable pub start_unless_running : String → Info → M (Unit {0})
    start_unless_running name found =
        if equal_fold found.state "running" then pure tt else perform_call (start name)

    unfoldable pub ensure_instance : Instance → M (Unit {0})
    ensure_instance inst = do
      answer ← ask (info inst.name) (λ past. o.informed past inst.name)
      found ← launched inst answer
      start_unless_running inst.name found

  unfoldable pub guest_go_arch : String → M String
  guest_go_arch instance = do
    arch ← output_in instance "" ("uname" ∷ "-m" ∷ [])
    within request (lift (map_guest_arch arch))

  unfoldable pub guest_build : String → String → M (BuildResult × String)
  guest_build instance repo_dir = do
    goarch ← guest_go_arch instance
    result ← invoke (build_binary repo_dir goarch) (λ past. o.built past repo_dir goarch)
    pure (result, goarch)

  unfoldable pub ensure_mount : String → Info → String → String → M (Unit {0})
  ensure_mount instance found source target = elim (lookup target found.mounts) [
    | some mounted ↦
        if clean mounted == clean source then pure tt else raise (already_mounted target mounted)
    | none ↦ perform_call (mount source (instance <> (":" <> target)))
  ]

  unfoldable pub ensure_guest_dirs : Environment → M (Unit {0})
  ensure_guest_dirs env = run_in env.instance_name "" (
      "mkdir" ∷ "-p" ∷ env.guest_repo_dir ∷ env.guest_host_dir ∷ env.guest_work_dir
      ∷ env.guest_binary_dir ∷ [])

  unfoldable pub bootstrap_guest : Environment → M (Unit {0})
  bootstrap_guest env =
      run_in env.instance_name "" ("sudo" ∷ "bash" ∷ "-lc" ∷ o.bootstrap_script ∷ [])

unfoldable pub environment : ResolvedRequest → BuildResult → Environment
environment req build = record {
  instance_name = req.instance.name;
  host_dir = req.host_dir;
  repo_dir = req.repo_dir;
  guest_host_dir = req.guest_host_dir;
  guest_repo_dir = req.guest_repo_dir;
  guest_work_dir = req.guest_work_dir;
  guest_binary_dir = join (binary_root ∷ build.id ∷ []);
  guest_binary = join (binary_root ∷ build.id ∷ "frridge" ∷ []);
}
