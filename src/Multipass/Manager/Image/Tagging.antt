-- ===== src/Multipass/Manager/Image/Tagging.antt =====
-- How an image gets the default tag in internal/multipass/multipass.go, by an archive or a build.
use frridge.Base.{
  ◌<>◌, ◌≡◌, refl, ◌⊎◌, inl, inr, String, true, false, not, Option, none, some, [], ◌∷◌, Result, ok,
  err, ◌==◌, Bool-cases, arith,
}
use frridge.Base.Program.{
  if-after, within-ok, sequence-from, ◌>>=◌, raise, lift, within, sequence-after,
}
use frridge.Base.Program.Calls.{ask, perform, perform-ok}
use frridge.Multipass.Image.{parse_image_identity, ImageBuildResult, ImageIdentity}
use frridge.Multipass.Manager.{
  Outside, History, Call, Environment, ManagerError, perform_call, run_in, exec, command_in, image,
  build_image, cached_image,
}
use frridge.Multipass.Manager.Image.{
  default_guest_image, built_output, is_mismatch, tag_image, import_guest_image_archive,
  build_guest_image, use_built, is_unavailable, refresh_guest_image, use_cached,
  guest_image_identity,
}

-- What an archive promises of its image: its identity and the inputs, or the digest of the checkout
-- when it is from before inputs were recorded.
abbrev pub Matches : ImageBuildResult → String → ImageIdentity → Type 0
Matches build inputs found =
    ((build.legacy ≡ false)
      × ((found.id == "sha256:" <> build.id) ≡ true)
      × ((found.inputs == inputs) ≡ true))
    ⊎ ((build.legacy ≡ true) × ((found.legacy_id == build.id) ≡ true))

abbrev pub tag_call : Environment → ImageIdentity → Call
tag_call env found = exec env.instance_name (
    command_in env.guest_host_dir
      ("sudo" ∷ "docker" ∷ "image" ∷ "tag" ∷ found.id ∷ default_guest_image ∷ []))

module _ (o : Outside) (env : Environment) (goarch inputs : String) where
  -- The builder of images gave the archive as the answer to the last call, from its cache or newly
  -- built.
  abbrev pub IsArchive : ImageBuildResult → History → Type 0
  IsArchive build [] = ⊥
  IsArchive build (call ∷ past) =
      ((call ≡ build_image env.repo_dir goarch)
        × (o.image_built past env.repo_dir goarch ≡ ok build))
      ⊎ ((call ≡ cached_image env.repo_dir goarch)
          × (o.cached past env.repo_dir goarch ≡ ok (some build)))

  -- The builder gave an archive, it was transferred, loaded and removed in three calls, the guest was
  -- asked for the image under the archive's tag, its answer matches the archive, and by the last call the image of the answer was given the default tag.
  pub record IsImported (history : History) : Type 0 where
    pub build : ImageBuildResult
    pub past : History
    pub is_archive : IsArchive build past
    pub asked : History
    pub is_loaded : (a : Call) × (b : Call) × (c : Call) × (asked ≡ a ∷ b ∷ c ∷ past)
    pub found : ImageIdentity
    pub is_reported : (guest_image_identity o env build.tag asked).0 ≡ ok found
    pub is_match : Matches build inputs found
    pub is_tagged :
        o.performed (guest_image_identity o env build.tag asked).1 (tag_call env found) ≡ none
    pub is_last : history ≡ tag_call env found ∷ (guest_image_identity o env build.tag asked).1

  -- The last calls: the guest built an image, the report on it has the inputs, and the image of the
  -- report was given the default tag.
  pub record IsBuiltInGuest (history : History) : Type 0 where
    pub iid_path : String
    pub asked : History
    pub text : String
    pub is_answer : (built_output o env iid_path asked).0 ≡ ok text
    pub found : ImageIdentity
    pub is_reported : parse_image_identity o.sources text ≡ ok found
    pub is_match : (found.inputs == inputs) ≡ true
    pub is_tagged : o.performed (built_output o env iid_path asked).1 (tag_call env found) ≡ none
    pub is_last : history ≡ tag_call env found ∷ (built_output o env iid_path asked).1

  abbrev pub IsTagged : History → Type 0
  IsTagged history = IsImported history ⊎ IsBuiltInGuest history

  matching :
      (build : ImageBuildResult) (found : ImageIdentity)
      → is_mismatch o build inputs found ≡ false
      → Matches build inputs found
  unfolding is_mismatch
  matching build found h = elim (Bool-cases build.legacy) [
    | inl e ↦ inr (e, ground arith)
    | inr e ↦ inl (e, ground arith, ground arith)
  ]

  tag-none :
      (found : ImageIdentity) (past : History)
      → (tag_image o env found.id past).0 ≡ ok tt
      → o.performed past (tag_call env found) ≡ none
  unfolding tag_image run_in perform_call
  tag-none found past h = perform-ok o.performed (tag_call env found) past h

  import-IsTagged :
      (build : ImageBuildResult) (past : History)
      → IsArchive build past
      → (import_guest_image_archive o env build inputs past).0 ≡ ok tt
      → IsTagged (import_guest_image_archive o env build inputs past).1
  unfolding import_guest_image_archive raise tag_image run_in perform_call perform within
  import-IsTagged build past archive = sequence-from IsTagged _ _ past (λ _ _.
      sequence-from IsTagged _ _ _ (λ _ _. sequence-from IsTagged _ _ _ (λ _ _.
        sequence-from IsTagged (guest_image_identity o env build.tag) _ _ (λ found reported.
          if-after IsTagged (is_mismatch o build inputs found) _ _ _ (λ _ g. absurd (cc g))
            (λ good g. inl (record {
              build = build;
              past = past;
              is_archive = archive;
              asked = _;
              is_loaded = (_, _, _, refl);
              found = found;
              is_reported = reported;
              is_match = matching build found good;
              is_tagged = tag-none found _ g;
              is_last = refl;
            }))))))

  build-IsTagged :
      (past : History)
      → (build_guest_image o env inputs past).0 ≡ ok tt
      → IsTagged (build_guest_image o env inputs past).1
  unfolding build_guest_image raise tag_image run_in perform_call perform lift within
  build-IsTagged past =
      sequence-after IsTagged _ _
        (λ text. sequence-after IsTagged _ _ (λ _ asked.
          sequence-from IsTagged _ _ asked (λ out answered.
            sequence-from IsTagged _ _ _ (λ found reported.
              if-after IsTagged (not (found.inputs == inputs)) _ _ _ (λ _ g. absurd (cc g))
                (λ same g. inr (record {
                  iid_path = _;
                  asked = asked;
                  text = out;
                  is_answer = answered;
                  found = found;
                  is_reported =
                      within-ok image (lift (parse_image_identity o.sources out)) asked reported;
                  is_match = ground arith;
                  is_tagged = tag-none found _ g;
                  is_last = refl;
                }))))))
        past

  use_built-IsTagged :
      (answer : Result ManagerError ImageBuildResult) (past : History)
      → ((build : ImageBuildResult) → answer ≡ ok build → IsArchive build past)
      → (use_built o env inputs answer past).0 ≡ ok tt
      → IsTagged (use_built o env inputs answer past).1
  unfolding use_built raise
  use_built-IsTagged (ok build) past archive = import-IsTagged build past (archive build refl)
  use_built-IsTagged (err e) past archive =
      if-after IsTagged (is_unavailable e) _ _ past (λ _. build-IsTagged past)
        (λ _ h. absurd (cc h))

  pub refresh-IsTagged :
      (past : History)
      → (refresh_guest_image o env goarch inputs past).0 ≡ ok tt
      → IsTagged (refresh_guest_image o env goarch inputs past).1
  unfolding refresh_guest_image ask ◌>>=◌
  refresh-IsTagged past =
      if-after IsTagged (not o.has_image_builder) _ _ past (λ _. build-IsTagged past)
        (λ _.
          use_built-IsTagged (o.image_built past env.repo_dir goarch) _ (λ build e. inl (refl, e)))

  pub use_cached-IsTagged :
      (cached : Option ImageBuildResult) (past : History)
      → ((build : ImageBuildResult) → cached ≡ some build → IsArchive build past)
      → (use_cached o env goarch inputs cached past).0 ≡ ok tt
      → IsTagged (use_cached o env goarch inputs cached past).1
  unfolding use_cached
  use_cached-IsTagged (some build) past archive = import-IsTagged build past (archive build refl)
  use_cached-IsTagged none past archive = refresh-IsTagged past
