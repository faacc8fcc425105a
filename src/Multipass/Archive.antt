-- ===== src/Multipass/Archive.antt =====
-- `DockerImageBuilder` of internal/multipass/image_builder.go: the archives of companion images that the
-- host keeps. What docker and the file system answer is a function of the calls before.
pub mod Publishing
use frridge.Base.{
  ℕ, ◌<>◌, String, Bool, true, false, ◌||◌, not, Option, none, some, List, [], ◌∷◌, ◌++◌, Result,
  ok, err, ◌==◌, if◌then◌else◌, nat_eq,
}
use frridge.Base.Text.{trim_space}
use frridge.Base.FilePath.{join}
use frridge.Base.Program.{Program, ◌>>=◌, ◌>>◌, pure, raise, lift, within}
use frridge.Base.Program.Calls.{ask, invoke, perform}
use frridge.Multipass.Image.{
  ImageBuildResult, ImageIdentity, ImageError, Sources, docker_platform, image_archive,
  no_image_ref_overrides, parse_docker_image_id, parse_image_identity, image_build_id,
  image_inputs_id, image_build_args,
}
use frridge.Multipass.Manager.Image.{image_identity_format}

pub data Call : Type 0 where
  -- A run of docker with its arguments, in a directory.
  docker : List String → String → Call
  look_path_docker check_context : Call
  read_text stat_archive : String → Call
  make_dir make_temp close_temp remove_file : String → Call
  rename_file : String → String → Call

abbrev pub History : Type 0
History = List Call

pub data ArchiveError : Type 0 where
  outside : String → ArchiveError
  image : ImageError → ArchiveError
  host_docker_unavailable identity_mismatch not_an_archive : ArchiveError
  at_step : String → ArchiveError → ArchiveError

-- What `os.ReadFile` and `os.Stat` say of a path.
pub data TextAnswer : Type 0 where
  content : String → TextAnswer
  no_text : TextAnswer
  text_fault : ArchiveError → TextAnswer

pub data ArchiveAnswer : Type 0 where
  a_file : Bool → ℕ → ArchiveAnswer
  no_archive : ArchiveAnswer
  archive_fault : ArchiveError → ArchiveAnswer

pub record HostTools : Type 0 where
  pub performed : History → Call → Option ArchiveError
  pub printed : History → List String → String → Result ArchiveError String
  pub temporary : History → Result ArchiveError String
  pub text : History → String → TextAnswer
  pub archive : History → String → ArchiveAnswer
  pub sources : Sources
  pub cache_dir : String

abbrev pub B : Type 0 → Type 0
B = Program History ArchiveError

unfoldable pub archive_answer : ArchiveAnswer → Result ArchiveError (Unit {0})
archive_answer (a_file regular bytes) =
    if not regular || nat_eq bytes 0 then err not_an_archive else ok tt
archive_answer no_archive = err (at_step "stat cached companion image archive" (outside ""))
archive_answer (archive_fault e) = err (at_step "stat cached companion image archive" e)

unfoldable pub succeeded : Option ArchiveError → Bool
succeeded none = true
succeeded (some e) = false

module _ (t : HostTools) where
  unfoldable pub check_image_archive : String → B (Unit {0})
  check_image_archive path =
      invoke (stat_archive path) (λ past. archive_answer (t.archive past path))

  unfoldable pub output_dir : String
  output_dir = join (t.cache_dir ∷ "images" ∷ [])

  unfoldable pub metadata_path : String → String
  metadata_path inputs = join (output_dir ∷ (inputs <> ".id") ∷ [])

  unfoldable pub recorded_archive : String → B (Option ImageBuildResult)
  recorded_archive text = do
    id ←
        within (λ e. at_step "read cached companion image identity" (image e))
          (lift (parse_docker_image_id t.sources (trim_space text)))
    let result = image_archive output_dir id
    check_image_archive result.path
    pure (some result)

  unfoldable pub legacy_archive_of : ImageBuildResult → ArchiveAnswer → B (Option ImageBuildResult)
  legacy_archive_of result no_archive = pure none
  legacy_archive_of result (a_file regular bytes) = do
    check_image_archive result.path
    pure (some (record result { legacy = true }))
  legacy_archive_of result (archive_fault e) = do
    check_image_archive result.path
    pure (some (record result { legacy = true }))

  unfoldable pub legacy_archive : String → String → B (Option ImageBuildResult)
  legacy_archive repo_dir goarch = if not (no_image_ref_overrides t.sources) then pure none else (do
    legacy_id ← within image (lift (image_build_id t.sources repo_dir goarch))
    let result = image_archive output_dir legacy_id
    answer ← ask (stat_archive result.path) (λ past. t.archive past result.path)
    legacy_archive_of result answer)

  unfoldable pub by_metadata : String → String → TextAnswer → B (Option ImageBuildResult)
  by_metadata repo_dir goarch (content text) = recorded_archive text
  by_metadata repo_dir goarch no_text = legacy_archive repo_dir goarch
  by_metadata repo_dir goarch (text_fault e) =
      raise (at_step "read cached companion image metadata" e)

  -- `Cached`; the zero result is none.
  unfoldable pub cached : String → String → B (Option ImageBuildResult)
  cached repo_dir goarch = do
    inputs ← within image (lift (image_inputs_id t.sources repo_dir goarch))
    answer ← ask (read_text (metadata_path inputs)) (λ past. t.text past (metadata_path inputs))
    by_metadata repo_dir goarch answer

  -- Whether a call goes well.
  unfoldable pub goes_well : Call → B Bool
  goes_well call = ask call (λ past. succeeded (t.performed past call))

  unfoldable pub host_docker_available : B Bool
  host_docker_available = do
    installed ← goes_well look_path_docker
    if not installed then pure false else (do
      answers ← goes_well (docker ("version" ∷ "--format" ∷ "{{.Server.Version}}" ∷ []) "")
      if not answers then pure false else goes_well (docker ("buildx" ∷ "version" ∷ []) ""))

  unfoldable pub run_host_docker : String → List String → String → B (Unit {0})
  run_host_docker action args dir = within (at_step action) (perform t.performed (docker args dir))

  -- `imageBuildArgs(inputs, iidPath)[2:]`, after the platform.
  unfoldable pub host_build_args : String → String → String → List String
  host_build_args platform inputs iid_path =
      "buildx"
      ∷ "build"
      ∷ "--platform"
      ∷ platform
      ∷ drop_two (image_build_args t.sources inputs iid_path)
    where
      drop_two : List String → List String
      drop_two [] = []
      drop_two (a ∷ []) = []
      drop_two (a ∷ b ∷ rest) = rest

  unfoldable pub inspect_host_image : String → B ImageIdentity
  inspect_host_image name = do
    let args = "image" ∷ "inspect" ∷ "--format" ∷ image_identity_format ∷ name ∷ []
    out ←
        within (at_step "inspect built companion image")
          (invoke (docker args "") (λ past. t.printed past args ""))
    within image (lift (parse_image_identity t.sources out))

  unfoldable pub require_docker : Bool → B (Unit {0})
  require_docker true = pure tt
  require_docker false = do perform t.performed check_context; raise host_docker_unavailable

  -- A body and then the removal of a file that `defer` put off.
  unfoldable pub then_remove : {A : Type 0} → String → B A → B A
  then_remove path body past = let (result, after) = body past in (result, remove_file path ∷ after)

  -- `os.CreateTemp` and its `Close`.
  unfoldable pub close_or_remove : String → B (Unit {0})
  close_or_remove path past = elim (t.performed past (close_temp path)) [
    | none ↦ (ok tt, close_temp path ∷ past)
    | some e ↦
        (err (at_step "close temp image archive" e), remove_file path ∷ close_temp path ∷ past)
  ]

  -- The saved archive takes its place, and the metadata is published last.
  unfoldable pub install : String → String → String → ImageBuildResult → B ImageBuildResult
  install inputs tmp_path iid_path result = do
    check_image_archive tmp_path
    within (at_step "install cached companion image archive")
        (perform t.performed (rename_file tmp_path result.path))
    within (at_step "install companion image metadata")
        (perform t.performed (rename_file iid_path (metadata_path inputs)))
    pure result

  -- What Build does once its image is built: the identity is read and tested, and the archive
  -- is saved and installed.
  unfoldable pub publish : String → String → String → String → B ImageBuildResult
  publish inputs tmp_path iid_path text = do
    id ← within image (lift (parse_docker_image_id t.sources (trim_space text)))
    info ← inspect_host_image ("sha256:" <> id)
    (if not (info.id == "sha256:" <> id) || not (info.inputs == inputs)
        then raise identity_mismatch
        else pure tt)
    let result = image_archive output_dir id
    run_host_docker "tag companion image" ("image" ∷ "tag" ∷ info.id ∷ result.tag ∷ []) ""
    run_host_docker "export companion image archive on host"
        ("save" ∷ "-o" ∷ tmp_path ∷ result.tag ∷ []) ""
    install inputs tmp_path iid_path result

  unfoldable pub text_result : TextAnswer → Result ArchiveError String
  text_result (content text) = ok text
  text_result no_text = err (at_step "read built companion image identity" (outside ""))
  text_result (text_fault e) = err (at_step "read built companion image identity" e)

  unfoldable pub build_and_publish : String → String → String → String → String → B ImageBuildResult
  build_and_publish repo_dir platform inputs tmp_path iid_path = do
    run_host_docker "build companion image on host" (host_build_args platform inputs iid_path)
        repo_dir
    text ← invoke (read_text iid_path) (λ past. text_result (t.text past iid_path))
    publish inputs tmp_path iid_path text

  unfoldable pub build : String → String → B ImageBuildResult
  build repo_dir goarch = do
    inputs ← within image (lift (image_inputs_id t.sources repo_dir goarch))
    available ← host_docker_available
    require_docker available
    platform ← within image (lift (docker_platform goarch))
    within (at_step "create image cache dir") (perform t.performed (make_dir output_dir))
    tmp_path ←
        within (at_step "create temp image archive") (invoke (make_temp output_dir) t.temporary)
    close_or_remove tmp_path
    then_remove tmp_path (
        then_remove (tmp_path <> ".id")
          (build_and_publish repo_dir platform inputs tmp_path (tmp_path <> ".id")))
