-- ===== src/Multipass/Manager/Image/Ready.antt =====
-- What the success of ensureGuestImage of internal/multipass/multipass.go means.
use frridge.Base.{◌≡◌, ◌⊎◌, String, Bool, true, false, ok, ◌==◌}
use frridge.Multipass.Image.{ImageIdentity, no_image_ref_overrides, image_build_id, image_inputs_id}
use frridge.Multipass.Manager.{Outside, History, Environment}
use frridge.Multipass.Manager.Image.{default_guest_image, guest_image_identity}
use frridge.Multipass.Manager.Image.Tagging.{IsTagged}

module _ (o : Outside) (env : Environment) (goarch inputs : String) where
  -- An image that was found and left alone: its inputs are those asked for, or it is the image of
  -- the checkout's digest, with no reference overridden.
  abbrev pub IsKept : ImageIdentity → Type 0
  IsKept current =
      ((current.inputs == inputs) ≡ true)
      ⊎ ((no_image_ref_overrides o.sources ≡ true)
          × (id : String) × (image_build_id o.sources env.repo_dir goarch ≡ ok id)
          × ((current.legacy_id == id) ≡ true))

  abbrev pub IsCurrent : ImageIdentity → History → Type 0
  IsCurrent current t = IsKept current ⊎ IsTagged o env goarch inputs t

module _ (o : Outside) (env : Environment) (goarch : String) where
  -- What the success of ensureGuestImage means: the checkout has no Dockerfile, the image that the
  -- guest reported was kept, or the default tag was just given to an image that matches.
  pub record IsReady (refresh : Bool) (past history : History) : Type 0 where
    pub inputs : String
    pub is_inputs : image_inputs_id o.sources env.repo_dir goarch ≡ ok inputs
    pub current : ImageIdentity
    pub is_reported : (guest_image_identity o env default_guest_image past).0 ≡ ok current
    pub is_ready :
        ((refresh ≡ false) × IsKept o env goarch inputs current)
        ⊎ IsTagged o env goarch inputs history
