-- ===== src/Multipass/Image.antt =====
-- The identities of companion images in internal/multipass/image_builder.go, and the commands that
-- build one. SHA-256 in hexadecimal text, and the digest of the files of a checkout, are parameters.
use frridge.Base.{
  ◌<>◌, String, Bool, false, ◌||◌, ◌&&◌, not, Option, none, some, List, [], ◌∷◌, ◌++◌, Result, ok,
  err, ◌>>=◌, ◌==◌, if◌then◌else◌, nat_eq,
}
use frridge.Base.Text.{trim_space}
use frridge.Base.FilePath.{join}
use frridge.Base.Slices.{cut_prefix, size}

pub record ImageBuildResult : Type 0 where
  pub id : String
  pub path : String
  pub tag : String
  pub legacy : Bool

pub record ImageIdentity : Type 0 where
  pub id : String
  pub inputs : String
  pub legacy_id : String

pub data ImageError : Type 0 where
  unsupported_arch : String → ImageError
  invalid_image_id undecodable_identity no_files : ImageError
  digest_failed : String → ImageError

-- What the code reads of the host: the digest of a checkout's files, two environment variables,
-- SHA-256, the test that `hex.DecodeString` accepts a text, `strings.ToLower`, and `json.Unmarshal`
-- of an identity.
pub record Sources : Type 0 where
  pub context_digest : String → Result ImageError String
  pub frr_ref : String
  pub libyang_ref : String
  pub sha256 : String → String
  pub is_hex : String → Bool
  pub to_lower : String → String
  pub decode_identity : String → Option ImageIdentity

unfoldable pub docker_platform : String → Result ImageError String
docker_platform goarch =
    let trimmed = trim_space goarch in
    if trimmed == "amd64"
    then ok "linux/amd64"
    else if trimmed == "arm64"
    then ok "linux/arm64"
    else err (unsupported_arch trimmed)

unfoldable pub host_image_tag : String → String
host_image_tag id = "frridge-mp-cache:" <> id

unfoldable pub image_archive : String → String → ImageBuildResult
image_archive dir id = record {
  id = id;
  path = join (dir ∷ (id <> ".tar") ∷ []);
  tag = host_image_tag id;
  legacy = false;
}

module _ (s : Sources) where
  unfoldable pub no_image_ref_overrides : Bool
  no_image_ref_overrides = s.frr_ref == "" && s.libyang_ref == ""

  unfoldable pub parse_docker_image_id : String → Result ImageError String
  parse_docker_image_id value = elim (cut_prefix "sha256:" value) [
    | none ↦ err invalid_image_id
    | some id ↦
        if not (nat_eq (size id) 64) || not (s.is_hex id) || not (id == s.to_lower id)
        then err invalid_image_id
        else ok id
  ]

  unfoldable pub parse_image_identity : String → Result ImageError ImageIdentity
  parse_image_identity output = elim (s.decode_identity output) [
    | none ↦ err undecodable_identity
    | some info ↦ parse_docker_image_id info.id >>= λ _. ok info
  ]

  unfoldable pub image_build_id : String → String → Result ImageError String
  image_build_id repo_dir goarch =
      s.context_digest repo_dir >>= λ digest. ok (digest <> ("-" <> goarch))

  unfoldable pub image_inputs_id : String → String → Result ImageError String
  image_inputs_id repo_dir goarch = do
    _ ← docker_platform goarch
    local ← image_build_id repo_dir goarch
    ok ("v2-" <> s.sha256 (local <> ("\0" <> (s.frr_ref <> ("\0" <> s.libyang_ref)))))

  -- `--build-arg` for a reference that the environment gives.
  unfoldable pub build_arg : String → String → List String
  build_arg name ref = if ref == "" then [] else "--build-arg" ∷ (name <> ("=" <> ref)) ∷ []

  unfoldable pub image_build_args : String → String → List String
  image_build_args inputs iid_path =
      "buildx"
      ∷ "build"
      ∷ "--load"
      ∷ "--no-cache-filter"
      ∷ "source"
      ∷ "--iidfile"
      ∷ iid_path
      ∷ "--label"
      ∷ ("io.frridge.build-inputs=" <> inputs)
      ∷ (build_arg "FRR_GIT_REF" s.frr_ref
          ++ (build_arg "LIBYANG_GIT_REF" s.libyang_ref ++ ("." ∷ [])))
