-- ===== src/Multipass/Request/Laws.antt =====
-- What a resolved request of internal/multipass/multipass.go promises.
use frridge.Base.{
  ◌≡◌, refl, subst, ap, ◌∙◌, inl, inr, String, true, false, not, ok, err, Result, >>=-eq-ok,
  reject_if-eq-ok, ◌==◌, if◌then◌else◌, Bool-cases, arith, eq_refl,
}
use frridge.Base.Program.{ok_inj}
use frridge.Base.Int.{is_non_positive}
use frridge.Base.Text.{is_blank, trim_space}
use frridge.Multipass.Request.{
  Request, ResolvedRequest, HostFiles, RequestError, or_default, with_defaults, resolve_directory,
  as_host_dir, as_repo_dir, non_positive_cpus, not_a_directory, resolve_request,
}

module _ (h : HostFiles) where
  resolve_directory-ok :
      (input path : String) → resolve_directory h input ≡ ok path → h.is_dir path ≡ ok true
  unfolding resolve_directory
  resolve_directory-ok input path e =
      let (dir, _, e1) =
        >>=-eq-ok (if trim_space input == "" then h.getwd else ok (trim_space input)) _ e in
      let (abs, _, e2) = >>=-eq-ok (h.abs dir) _ e1 in
      let (found, is, e3) = >>=-eq-ok (h.is_dir abs) _ e2 in
      let (fine, e4) = reject_if-eq-ok (not found) (not_a_directory abs) (ok abs) e3 in
      let yes : found ≡ true = ground arith in
      subst (λ p. h.is_dir p ≡ ok true) (ok_inj e4) (is ∙ ap ok yes)

  host_dir-ok :
      (r : Result RequestError String) {dir : String} → as_host_dir h r ≡ ok dir → r ≡ ok dir
  host_dir-ok (ok x) e = e
  host_dir-ok (err x) e = absurd (cc e)

  repo_dir-ok :
      (r : Result RequestError String) {dir : String} → as_repo_dir h r ≡ ok dir → r ≡ ok dir
  repo_dir-ok (ok x) e = e
  repo_dir-ok (err x) e = absurd (cc e)

  -- The instance has a name, an image, sizes and at least one CPU; both directories are directories
  -- of the host; and one directory has one place in the guest.
  pub record IsResolved (r : ResolvedRequest) : Type 0 where
    pub has_cpus : is_non_positive r.instance.cpus ≡ false
    pub has_name : is_blank r.instance.name ≡ false
    pub has_image : is_blank r.instance.image ≡ false
    pub has_memory : is_blank r.instance.memory ≡ false
    pub has_disk : is_blank r.instance.disk ≡ false
    pub host_is_dir : h.is_dir r.host_dir ≡ ok true
    pub repo_is_dir : h.is_dir r.repo_dir ≡ ok true
    pub shares_place : r.host_dir ≡ r.repo_dir → r.guest_host_dir ≡ r.guest_repo_dir

  default_is_set :
      (value default : String)
      → is_blank default ≡ false
      → is_blank (or_default value default) ≡ false
  default_is_set value default set = elim (Bool-cases (is_blank value)) [
    | inl e ↦ rw e set
    | inr e ↦ rw e e
  ]

  -- A request that resolveRequest accepts is complete: its instance has a name, an image, a memory
  -- and a disk size and at least one CPU, and the host's and the repository's directories are
  -- directories, with one place in the guest when they are the same.
  pub resolve_request-IsResolved :
      (req : Request) (r : ResolvedRequest) → resolve_request h req ≡ ok r → IsResolved r
  unfolding resolve_request with_defaults is_blank trim_space
  resolve_request-IsResolved req r e =
      let inst = with_defaults req.instance in
      let (fine, e1) = reject_if-eq-ok (is_non_positive inst.cpus) non_positive_cpus _ e in
      let (host, host_ok, e2) = >>=-eq-ok (as_host_dir h (resolve_directory h req.host_dir)) _ e1 in
      let (given, _, e3) =
        >>=-eq-ok
          (if trim_space req.repo_dir == ""
            then h.detect_repo_dir
            else ok (trim_space req.repo_dir))
          _ e2 in
      let (repo, repo_ok, e4) = >>=-eq-ok (as_repo_dir h (resolve_directory h given)) _ e3 in
      subst IsResolved (ok_inj e4) (record {
        has_cpus = fine;
        has_name = default_is_set req.instance.name "frridge-dev" refl;
        has_image = default_is_set req.instance.image "24.04" refl;
        has_memory = default_is_set req.instance.memory "4G" refl;
        has_disk = default_is_set req.instance.disk "20G" refl;
        host_is_dir = resolve_directory-ok req.host_dir host (host_dir-ok _ host_ok);
        repo_is_dir = resolve_directory-ok given repo (repo_dir-ok _ repo_ok);
        shares_place = λ same. rw same (rw (eq_refl repo) refl);
      })
