-- ===== src/Docker.antt =====
-- internal/docker/docker.go: the methods of sdkClient over the calls of the Docker SDK, whose answers are
-- functions of the calls before. The goroutines that copy the standard input and that follow the size of
-- the terminal are one call each, where they are started.
pub mod Interactive
pub mod Creation
pub mod Released
pub mod Resources
use frridge.Base.{
  ℕ, String, ◌<>◌, Bool, true, false, ◌&&◌, not, Option, none, some, List, [], ◌∷◌, map, Result, ok,
  err, if◌then◌else◌,
}
use frridge.Base.Int.{ℤ, pos, int_eq}
use frridge.Base.Dict.{Dict, lookup, keys}
use frridge.Base.Text.{comes_before, is_blank}
use frridge.Base.Program.{Program, ◌>>=◌, ◌>>◌, pure, raise, lift, within}
use frridge.Base.Program.Calls.{ask, invoke, perform}
use frridge.Config.Topology.{Mount}
use frridge.Runtime.Host.{ContainerSpec, ExecResult}

pub record Inspect : Type 0 where
  pub id : String
  pub pid : ℤ

-- The configuration and the host configuration of a container, the network mode "none" included.
pub record Configuration : Type 0 where
  pub name : String
  pub image : String
  pub hostname : String
  pub command : List String
  pub env : List String
  pub labels : Dict String
  pub network_mode : String
  pub privileged : Bool
  pub sysctls : Dict String
  pub bind_mounts : List Mount

-- An exec has its identifier. `copy_output` tells whether the output is that of a terminal.
pub data Call : Type 0 where
  image_inspect image_pull : String → Call
  drain_pull close_pull : Call
  container_create : Configuration → Call
  container_start container_inspect container_remove : String → Call
  container_list : List String → Call
  exec_create : String → List String → Bool → Call
  exec_attach : String → Bool → Call
  close_attach watch_context stop_watching cancel_context : Call
  copy_output : Bool → Call
  exec_inspect : String → Call
  copy_input make_raw restore_terminal get_size follow_size : Call
  exec_resize : String → ℕ → ℕ → Call

abbrev pub History : Type 0
History = List Call

pub data DockerError : Type 0 where
  outside : String → DockerError
  at_step : String → DockerError → DockerError
  empty_image : DockerError
  exit_status : ℤ → DockerError

-- What a copy of an exec's output leaves: both texts, the error of the copy, and that of the context.
pub record Copied : Type 0 where
  pub stdout : String
  pub stderr : String
  pub failure : Option DockerError
  pub canceled : Option DockerError

pub record Sdk : Type 0 where
  pub performed : History → Call → Option DockerError
  pub created : History → Call → Result DockerError String
  pub inspected : History → String → Result DockerError Inspect
  pub listed : History → List String → Result DockerError (List String)
  pub copied : History → Bool → Copied
  pub exit_code : History → String → Result DockerError ℤ
  -- The columns and rows of the terminal.
  pub size : History → Result DockerError (ℕ × ℕ)
  pub stdin_tty : Bool
  pub stdout_tty : Bool
  -- `cerrdefs.IsNotFound`, and whether an error is io.EOF or os.ErrClosed.
  pub is_not_found : DockerError → Bool
  pub is_end : DockerError → Bool

abbrev pub D : Type 0 → Type 0
D = Program History DockerError

-- `sort.Strings`
unfoldable pub place : String → List String → List String
place key [] = key ∷ []
place key (other ∷ rest) =
    let placed = place key rest in
    if comes_before key other then key ∷ other ∷ rest else other ∷ placed

unfoldable pub sort_strings : List String → List String
sort_strings [] = []
sort_strings (key ∷ rest) = place key (sort_strings rest)

unfoldable pub sorted_keys : Dict String → List String
sorted_keys values = sort_strings (keys values)

unfoldable pub value_at : Dict String → String → String
value_at values key = elim (lookup key values) [ none ↦ "" | some value ↦ value ]

-- `envPairs`, and the labels that `labelFilters` adds.
unfoldable pub env_pairs : Dict String → List String
env_pairs values = map (λ key. key <> ("=" <> value_at values key)) (sorted_keys values)

unfoldable pub configuration : ContainerSpec → Configuration
configuration spec = record {
  name = spec.name;
  image = spec.image;
  hostname = spec.hostname;
  command = spec.command;
  env = env_pairs spec.env;
  labels = spec.labels;
  network_mode = "none";
  privileged = spec.privileged;
  sysctls = spec.sysctls;
  bind_mounts = spec.mounts;
}

-- A body and then the call that `defer` put off, whatever the body's result.
unfoldable pub deferring : {A : Type 0} → Call → D A → D A
deferring call body past = let (result, after) = body past in (result, call ∷ after)

unfoldable pub exit_result : ℤ → Result DockerError (Unit {0})
exit_result code = if int_eq code (pos 0) then ok tt else err (exit_status code)

module _ (k : Sdk) where
  unfoldable pub perform_as : String → Call → D (Unit {0})
  perform_as what call = within (at_step what) (perform k.performed call)

  unfoldable pub pull_image : String → D (Unit {0})
  pull_image image = do
    perform_as "docker pull failed" (image_pull image)
    deferring close_pull (perform_as "read docker pull response" drain_pull)

  unfoldable pub by_inspection : String → Option DockerError → D (Unit {0})
  by_inspection image none = pure tt
  by_inspection image (some e) =
      if not (k.is_not_found e)
      then raise (at_step "docker inspect image failed" e)
      else pull_image image

  unfoldable pub ensure_image : String → D (Unit {0})
  ensure_image image = if is_blank image then raise empty_image else (do
    answer ← ask (image_inspect image) (λ past. k.performed past (image_inspect image))
    by_inspection image answer)

  unfoldable pub create_container : ContainerSpec → D String
  create_container spec = do
    ensure_image spec.image
    let call = container_create (configuration spec)
    within (at_step "docker create failed") (invoke call (λ past. k.created past call))

  unfoldable pub start_container : String → D (Unit {0})
  start_container id = perform_as "docker start failed" (container_start id)

  unfoldable pub inspect_container : String → D Inspect
  inspect_container id =
      within (at_step "docker inspect failed")
        (invoke (container_inspect id) (λ past. k.inspected past id))

  unfoldable pub list_containers : Dict String → D (List String)
  list_containers labels =
      within (at_step "docker list containers failed")
        (invoke (container_list (env_pairs labels)) (λ past. k.listed past (env_pairs labels)))

  unfoldable pub by_removal : Option DockerError → D (Unit {0})
  by_removal none = pure tt
  by_removal (some e) =
      if k.is_not_found e then pure tt else raise (at_step "docker remove failed" e)

  unfoldable pub remove_container : String → D (Unit {0})
  remove_container id = do
    answer ← ask (container_remove id) (λ past. k.performed past (container_remove id))
    by_removal answer
