-- ===== src/Multipass/Archive/Publishing.antt =====
-- The order in which Build of internal/multipass/image_builder.go installs an archive and the
-- metadata that leads to it.
use frridge.Base.{◌≡◌, true, ◌==◌, ◌<>◌, String, none, ◌∷◌, ok}
use frridge.Multipass.Image.{ImageBuildResult, ImageIdentity, image_archive, image_inputs_id}
use frridge.Multipass.Archive.{
  HostTools, inspect_host_image, History, stat_archive, remove_file, rename_file, archive_answer,
  output_dir, metadata_path,
}

-- The image was inspected by its identity, and has it and the label of the inputs.
pub record IsIdentified (t : HostTools) (inputs id : String) : Type 0 where
  pub asked : History
  pub info : ImageIdentity
  pub is_inspected : (inspect_host_image t ("sha256:" <> id) asked).0 ≡ ok info
  pub has_identity : (info.id == "sha256:" <> id) ≡ true
  pub has_inputs : (info.inputs == inputs) ≡ true

-- The calls of a success, the newest first: the archive is seen to be a file with contents, takes
-- its place, and the metadata follows.
pub record IsPublished (t : HostTools) (inputs tmp : String) (b : ImageBuildResult)
    (history : History) : Type 0 where
  pub id : String
  pub is_archive : b ≡ image_archive (output_dir t) id
  pub is_identified : IsIdentified t inputs id
  pub before : History
  pub is_complete : archive_answer (t.archive before tmp) ≡ ok tt
  pub is_installed : t.performed (stat_archive tmp ∷ before) (rename_file tmp b.path) ≡ none
  pub is_named :
      t.performed
        (rename_file tmp b.path ∷ stat_archive tmp ∷ before)
        (rename_file (tmp <> ".id") (metadata_path t inputs))
      ≡ none
  pub is_history :
      history
      ≡ rename_file (tmp <> ".id") (metadata_path t inputs)
        ∷ rename_file tmp b.path
        ∷ stat_archive tmp
        ∷ before

module _ (t : HostTools) (inputs tmp : String) (b : ImageBuildResult) where
  abbrev R : History → Type 0
  R = IsPublished t inputs tmp b

module _ (t : HostTools) (repo_dir goarch : String) where
  -- The calls of a Build that succeeds: those that publish, for the digest of the checkout's inputs,
  -- and then the removal of the temporary files.
  pub record IsBuilt (b : ImageBuildResult) (history : History) : Type 0 where
    pub inputs : String
    pub is_inputs : image_inputs_id t.sources repo_dir goarch ≡ ok inputs
    pub tmp : String
    pub published : History
    pub is_published : IsPublished t inputs tmp b published
    pub is_cleaned : history ≡ remove_file tmp ∷ remove_file (tmp <> ".id") ∷ published
