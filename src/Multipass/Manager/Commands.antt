-- ===== src/Multipass/Manager/Commands.antt =====
-- `ensure`, `Shell`, `Exec` and `Frridge` of internal/multipass/multipass.go.
use frridge.Base.{
  ◌<>◌, String, Bool, true, false, ◌||◌, not, Option, none, some, List, [], ◌∷◌, ◌==◌,
  if◌then◌else◌,
}
use frridge.Base.FilePath.{join}
use frridge.Base.Program.{◌>>=◌, ◌>>◌, pure, raise, lift, within}
use frridge.Multipass.Shell.{ExecSpec}
use frridge.Multipass.Request.{
  Request, ResolvedRequest, HostFiles, resolve_request, first_frridge_command,
}
use frridge.Multipass.Manager.{
  Outside, M, Environment, BuildResult, environment, request, no_command, no_arguments,
  perform_call, run_in, get_info, ensure_instance, guest_build, ensure_mount, ensure_guest_dirs,
  bootstrap_guest, exec, transfer,
}
use frridge.Multipass.Manager.Image.{ensure_guest_image}

-- `if c { … }`
unfoldable pub when : Bool → M (Unit {0}) → M (Unit {0})
when true body = body
when false body = pure tt

module _ (o : Outside) (h : HostFiles) (equal_fold : String → String → Bool) where
  unfoldable pub ensure_mounts : ResolvedRequest → Environment → M (Unit {0})
  ensure_mounts req env = do
    found ← get_info o req.instance.name
    ensure_mount o req.instance.name found req.repo_dir env.guest_repo_dir
    when (not (env.guest_host_dir == env.guest_repo_dir) || not (req.host_dir == req.repo_dir))
        (ensure_mount o req.instance.name found req.host_dir env.guest_host_dir)

  -- The binary goes beside its place first, and takes it when it is complete.
  unfoldable pub install_binary : String → Environment → BuildResult → M (Unit {0})
  install_binary instance env build = do
    let staged = join (env.guest_binary_dir ∷ (".frridge-" <> (o.pid <> ".tmp")) ∷ [])
    perform_call o (transfer build.path (instance <> (":" <> staged)))
    run_in o instance "" ("chmod" ∷ "0755" ∷ staged ∷ [])
    run_in o instance "" ("mv" ∷ staged ∷ env.guest_binary ∷ [])

  unfoldable pub ensure : ResolvedRequest → Bool → M Environment
  ensure req needs_image = do
    ensure_instance o equal_fold req.instance
    (build, goarch) ← guest_build o req.instance.name req.repo_dir
    let env = environment req build
    ensure_guest_dirs o env
    ensure_mounts req env
    bootstrap_guest o env
    when needs_image (ensure_guest_image o env goarch req.refresh_image)
    install_binary req.instance.name env build
    pure env

  unfoldable pub prepare_with_image : Request → Bool → M Environment
  prepare_with_image req needs_image = do
    resolved ← within request (lift (resolve_request h req))
    ensure resolved needs_image

  -- A command at the terminal, in the mounted directory.
  unfoldable pub terminal_spec : Environment → List String → ExecSpec
  terminal_spec env command = record {
    command = command;
    dir = env.guest_host_dir;
    env = (o.work_dir_env, env.guest_work_dir) ∷ [];
    stdin = some o.terminal;
    has_stdout = true;
    has_stderr = true;
  }

  unfoldable pub shell : Request → M (Unit {0})
  shell req = do
    env ← prepare_with_image req true
    perform_call o (exec env.instance_name (terminal_spec env ("bash" ∷ "-l" ∷ [])))

  unfoldable pub exec_command : Request → List String → M (Unit {0})
  exec_command req [] = raise no_command
  exec_command req (program ∷ args) = do
    env ← prepare_with_image req true
    perform_call o (exec env.instance_name (terminal_spec env (program ∷ args)))

  unfoldable pub frridge_input : List String → Option String
  frridge_input args = if first_frridge_command args == "console" then some o.terminal else none

  unfoldable pub frridge_spec : Environment → List String → ExecSpec
  frridge_spec env args = record {
    command =
        "sudo" ∷ "env" ∷ (o.work_dir_env <> ("=" <> env.guest_work_dir)) ∷ env.guest_binary ∷ args;
    dir = env.guest_host_dir;
    env = [];
    stdin = frridge_input args;
    has_stdout = true;
    has_stderr = true;
  }

  unfoldable pub run_frridge : Request → List String → M (Unit {0})
  run_frridge req [] = raise no_arguments
  run_frridge req (arg ∷ args) = do
    env ← prepare_with_image req (not (first_frridge_command (arg ∷ args) == "migrate-state"))
    perform_call o (exec env.instance_name (frridge_spec env (arg ∷ args)))
