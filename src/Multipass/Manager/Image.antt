-- ===== src/Multipass/Manager/Image.antt =====
-- The companion image of the guest: ensureGuestImage of internal/multipass/multipass.go and the
-- functions that it calls.
pub mod Tagging
pub mod Ready
use frridge.Base.{
  ◌<>◌, String, Bool, true, false, ◌||◌, ◌&&◌, not, Option, none, some, List, [], ◌∷◌, ◌++◌, Result,
  ok, err, ◌==◌, if◌then◌else◌,
}
use frridge.Base.Text.{is_blank}
use frridge.Base.FilePath.{join}
use frridge.Base.Program.{◌>>=◌, ◌>>◌, pure, raise, lift, within, each}
use frridge.Base.Program.Calls.{ask, invoke}
use frridge.Multipass.Image.{
  ImageBuildResult, ImageIdentity, no_image_ref_overrides, parse_image_identity, image_build_id,
  image_inputs_id, image_build_args,
}
use frridge.Multipass.Manager.{
  Outside, M, Environment, ManagerError, Presence, present, absent, stat_fault, perform_call,
  run_in, output_in, transfer, stat_file, cached_image, build_image, random_text, image,
  stat_dockerfile, transfer_archive, no_dockerfile, identity_mismatch, inputs_mismatch,
  host_docker_unavailable,
}

abbrev pub default_guest_image : String
default_guest_image = "frridge-frr:latest"

abbrev pub identity_script : String
identity_script =
    "set -euo pipefail\nimages=$(sudo docker image ls --format '{{.ID}}' \"$1\")\nif [ -n \"$images\" ]; then\n  sudo docker image inspect --format \"$2\" \"$1\"\nfi"

abbrev pub built_script : String
built_script =
    "set -euo pipefail\nid=$(cat \"$1\")\nsudo docker image inspect --format \"$2\" \"$id\"\nrm -f \"$1\""

abbrev pub image_identity_format : String
image_identity_format =
    "{\"ID\":{{json .Id}}{{with .Config.Labels}},\"Inputs\":{{json (index . \"io.frridge.build-inputs\")}},\"LegacyID\":{{json (index . \"io.frridge.build-id\")}}{{end}}}"

-- The zero value.
abbrev pub no_identity : ImageIdentity
no_identity = record { id = ""; inputs = ""; legacy_id = "" }

unfoldable pub dockerfile : Environment → String
dockerfile env = join (env.repo_dir ∷ "Dockerfile" ∷ [])

-- `errors.Is(err, ErrHostDockerUnavailable)`
unfoldable pub is_unavailable : ManagerError → Bool
is_unavailable host_docker_unavailable = true
is_unavailable _ = false

module _ (o : Outside) where
  unfoldable pub identity_of : String → M ImageIdentity
  identity_of out =
      if is_blank out
      then pure no_identity
      else within image (lift (parse_image_identity o.sources out))

  unfoldable pub guest_image_identity : Environment → String → M ImageIdentity
  guest_image_identity env name = do
    out ←
        output_in o env.instance_name env.guest_host_dir
          ("bash" ∷ "-lc" ∷ identity_script ∷ "bash" ∷ name ∷ image_identity_format ∷ [])
    identity_of out

  -- The test of an imported image against what its archive promises.
  unfoldable pub is_mismatch : ImageBuildResult → String → ImageIdentity → Bool
  is_mismatch build inputs found =
      (not build.legacy
        && (not (found.id == "sha256:" <> build.id) || not (found.inputs == inputs)))
      || (build.legacy && not (found.legacy_id == build.id))

  unfoldable pub tag_image : Environment → String → M (Unit {0})
  tag_image env id =
      run_in o env.instance_name env.guest_host_dir
        ("sudo" ∷ "docker" ∷ "image" ∷ "tag" ∷ id ∷ default_guest_image ∷ [])

  unfoldable pub import_guest_image_archive : Environment → ImageBuildResult → String → M (Unit {0})
  import_guest_image_archive env build inputs = do
    let guest_archive = join (env.guest_binary_dir ∷ ("." <> (build.id <> ".tar")) ∷ [])
    within transfer_archive
        (perform_call o (transfer build.path (env.instance_name <> (":" <> guest_archive))))
    run_in o env.instance_name env.guest_host_dir
        ("sudo" ∷ "docker" ∷ "load" ∷ "-i" ∷ guest_archive ∷ [])
    run_in o env.instance_name env.guest_host_dir ("rm" ∷ "-f" ∷ guest_archive ∷ [])
    found ← guest_image_identity env build.tag
    if is_mismatch build inputs found then raise identity_mismatch else tag_image env found.id

  -- The identity of the image that was built last, as the guest prints it.
  unfoldable pub built_output : Environment → String → M String
  built_output env iid_path =
      output_in o env.instance_name env.guest_repo_dir
        ("bash" ∷ "-lc" ∷ built_script ∷ "bash" ∷ iid_path ∷ image_identity_format ∷ [])

  unfoldable pub build_guest_image : Environment → String → M (Unit {0})
  build_guest_image env inputs = do
    text ← ask random_text o.random
    let iid_path = join (env.guest_binary_dir ∷ (".image-" <> (text <> ".id")) ∷ [])
    run_in o env.instance_name env.guest_repo_dir
        ("sudo" ∷ "docker" ∷ image_build_args o.sources inputs iid_path)
    out ← built_output env iid_path
    found ← within image (lift (parse_image_identity o.sources out))
    if not (found.inputs == inputs) then raise inputs_mismatch else tag_image env found.id

  -- The new archive, or the guest's own build when the host has no Docker.
  unfoldable pub use_built :
      Environment → String → Result ManagerError ImageBuildResult → M (Unit {0})
  use_built env inputs (ok build) = import_guest_image_archive env build inputs
  use_built env inputs (err e) = if is_unavailable e then build_guest_image env inputs else raise e

  unfoldable pub refresh_guest_image : Environment → String → String → M (Unit {0})
  refresh_guest_image env goarch inputs =
      if not o.has_image_builder then build_guest_image env inputs else (do
        answer ←
            ask (build_image env.repo_dir goarch) (λ past. o.image_built past env.repo_dir goarch)
        use_built env inputs answer)

  unfoldable pub use_cached : Environment → String → String → Option ImageBuildResult → M (Unit {0})
  use_cached env goarch inputs (some build) = import_guest_image_archive env build inputs
  use_cached env goarch inputs none = refresh_guest_image env goarch inputs

  -- An image from before inputs were recorded is left alone too, or an archive is imported.
  unfoldable pub by_legacy_id :
      Environment → String → String → ImageIdentity → String → M (Unit {0})
  by_legacy_id env goarch inputs current legacy_id =
      if no_image_ref_overrides o.sources && current.legacy_id == legacy_id
      then pure tt
      else (if not o.has_image_builder then refresh_guest_image env goarch inputs else (do
        cached ←
            invoke (cached_image env.repo_dir goarch) (λ past. o.cached past env.repo_dir goarch)
        use_cached env goarch inputs cached))

  -- What happens without an explicit refresh: a matching image is left alone.
  unfoldable pub keep_or_import : Environment → String → String → ImageIdentity → M (Unit {0})
  keep_or_import env goarch inputs current = if current.inputs == inputs then pure tt else (do
    legacy_id ← within image (lift (image_build_id o.sources env.repo_dir goarch))
    by_legacy_id env goarch inputs current legacy_id)

  unfoldable pub with_dockerfile : Environment → String → Bool → M (Unit {0})
  with_dockerfile env goarch refresh = do
    inputs ← within image (lift (image_inputs_id o.sources env.repo_dir goarch))
    current ← guest_image_identity env default_guest_image
    if refresh
        then refresh_guest_image env goarch inputs
        else keep_or_import env goarch inputs current

  unfoldable pub by_dockerfile : Environment → String → Bool → Presence → M (Unit {0})
  by_dockerfile env goarch refresh present = with_dockerfile env goarch refresh
  by_dockerfile env goarch refresh absent = if refresh then raise no_dockerfile else pure tt
  by_dockerfile env goarch refresh (stat_fault e) = raise (stat_dockerfile e)

  unfoldable pub ensure_guest_image : Environment → String → Bool → M (Unit {0})
  ensure_guest_image env goarch refresh = do
    answer ← ask (stat_file (dockerfile env)) (λ past. o.presence past (dockerfile env))
    by_dockerfile env goarch refresh answer
