-- ===== src/Docker/Creation.antt =====
-- What the success of CreateContainer of internal/docker/docker.go means.
use frridge.Base.{◌≡◌, refl, subst, arith, String, true, false, Option, none, some, ◌∷◌, ok, not}
use frridge.Base.Text.{is_blank}
use frridge.Base.Program.{◌>>=◌, within, raise, pure, within-ok, sequence-ok, if-after}
use frridge.Base.Program.Calls.{ask, invoke, perform, perform-ok}
use frridge.Runtime.Host.{ContainerSpec}
use frridge.Docker.{
  Sdk, History, DockerError, image_inspect, image_pull, drain_pull, close_pull, container_create,
  configuration, deferring, perform_as, pull_image, by_inspection, ensure_image, create_container,
  at_step,
}

module _ (k : Sdk) (image : String) where
  -- A pull that was answered, read to its end and closed.
  pub record IsPulled (past history : History) : Type 0 where
    pub is_accepted : k.performed past (image_pull image) ≡ none
    pub is_drained : k.performed (image_pull image ∷ past) drain_pull ≡ none
    pub is_history : history ≡ close_pull ∷ drain_pull ∷ image_pull image ∷ past

  -- Only an image that is missing is pulled.
  abbrev pub IsAvailable : Option DockerError → History → History → Type 0
  IsAvailable none past history = history ≡ past
  IsAvailable (some e) past history = (k.is_not_found e ≡ true) × IsPulled past history

  pull-IsPulled :
      (past : History)
      → (pull_image k image past).0 ≡ ok tt
      → IsPulled past (pull_image k image past).1
  unfolding pull_image perform_as deferring within perform
  pull-IsPulled past h =
      let pull = perform k.performed (image_pull image) in
      let drain = perform k.performed drain_pull in
      let (_, first, same) =
        sequence-ok (perform_as k "docker pull failed" (image_pull image)) _ past h in
      let read = subst (λ z. z.0 ≡ ok tt) same h in
      rw same (record {
        is_accepted = perform-ok k.performed _ past (within-ok _ pull past first);
        is_drained = perform-ok k.performed _ _ (within-ok _ drain _ read);
        is_history = refl;
      })

  by_inspection-IsAvailable :
      (answer : Option DockerError) (past : History)
      → (by_inspection k image answer past).0 ≡ ok tt
      → IsAvailable answer past (by_inspection k image answer past).1
  unfolding by_inspection pure raise
  by_inspection-IsAvailable none past h = refl
  by_inspection-IsAvailable (some e) past h =
      if-after (IsAvailable (some e) past) (not (k.is_not_found e)) _ _ past (λ _ g. absurd (cc g))
        (λ found g. (ground arith, pull-IsPulled past g)) h

  -- The image has a name, and it was found or pulled.
  pub record IsEnsured (past history : History) : Type 0 where
    pub has_name : is_blank image ≡ false
    pub is_available :
        IsAvailable (k.performed past (image_inspect image)) (image_inspect image ∷ past) history

  ensure_image-IsEnsured :
      (past : History)
      → (ensure_image k image past).0 ≡ ok tt
      → IsEnsured past (ensure_image k image past).1
  unfolding ensure_image raise ask ◌>>=◌
  ensure_image-IsEnsured past =
      if-after (IsEnsured past) (is_blank image) _ _ past (λ _ h. absurd (cc h))
        (λ named h. record {
          has_name = named;
          is_available = by_inspection-IsAvailable (k.performed past (image_inspect image)) _ h;
        })

-- The last call creates the container from the specification, when the image is there.
pub record IsCreated (k : Sdk) (spec : ContainerSpec) (id : String) (past history : History)
    : Type 0 where
  pub before : History
  pub is_ensured : IsEnsured k spec.image past before
  pub is_answer : k.created before (container_create (configuration spec)) ≡ ok id
  pub is_history : history ≡ container_create (configuration spec) ∷ before

-- When CreateContainer succeeds, the image has a name that is not blank, and docker found it or did
-- not know it and a pull of it was accepted, read to its end and closed; an image is not pulled for any
-- other error. The last call creates a container with the configuration of the specification, and its
-- answer is returned.
pub create_container-IsCreated :
    (k : Sdk) (spec : ContainerSpec) (id : String) (past : History)
    → (create_container k spec past).0 ≡ ok id
    → IsCreated k spec id past (create_container k spec past).1
unfolding create_container within invoke
create_container-IsCreated k spec id past h =
    let call = container_create (configuration spec) in
    let (_, first, same) = sequence-ok (ensure_image k spec.image) _ past h in
    let created = invoke call (λ past. k.created past call) in
    rw same (record {
      before = (ensure_image k spec.image past).1;
      is_ensured = ensure_image-IsEnsured k spec.image past first;
      is_answer =
          within-ok (at_step "docker create failed") created _ (subst (λ z. z.0 ≡ ok id) same h);
      is_history = refl;
    })
