-- ===== src/State/Laws.antt =====
-- Valid snapshots and bridge names (internal/state/state.go).
use text.Mathlib.TextLemmas as Lemmas
use frridge.Base.{
  ◌+◌, String, false, ◌≡◌, refl, ap, ◌<>◌, Option, none, some, List, ok, arith, eq_iff, All,
  for_each-All,
}
use frridge.Base.Int.{is_negative}
use frridge.Base.Text.{is_blank, is_slash, has}
use frridge.Base.Dict.{Dict}
use frridge.State.{
  LabState, ContainerState, Hashing, bridge_name, validate_container, validate_bridge,
  validate_containers, validate_bridges, validate,
}
use frridge.Base.Slices.{take_chars, size, size-take_chars, size-append, slash-injective}

-- The hash texts have 40 characters.
pub record HasLength (h : Hashing) : Type 0 where
  pub sha1_length : (s : String) → size (h.sha1_hex s) ≡ 40

-- Two keys that the shortened hash takes to one text are one key.
abbrev pub NoCollision : Hashing → String → String → Type 0
NoCollision h a b = take_chars 11 (h.sha1_hex a) ≡ take_chars 11 (h.sha1_hex b) → a ≡ b

-- The name of a bridge has 14 characters, within the 15 of a Linux interface name.
pub size-bridge_name :
    (h : Hashing) (lab link : String) → HasLength h → size (bridge_name h lab link) ≡ 14
unfolding bridge_name size
size-bridge_name h lab link l =
    rw size-append (ap (λ n. 3 + n) (size-take_chars 11 _ (rw l.sha1_length (omega arith))))

-- Two labs whose names have no slash have bridges of one name only if the labs and the links are the
-- same, if the shortened hash keeps the two keys apart.
pub bridge_name-injective :
    (h : Hashing) (lab lab' link link' : String)
    → has is_slash lab ≡ false
    → has is_slash lab' ≡ false
    → NoCollision h (lab <> ("/" <> link)) (lab' <> ("/" <> link'))
    → bridge_name h lab link ≡ bridge_name h lab' link'
    → (lab ≡ lab') × (link ≡ link')
unfolding bridge_name
bridge_name-injective h lab lab' link link' flat flat' apart e =
    slash-injective lab lab' link link' flat flat' (apart (Lemmas.append_cancel_left "frb" _ _ e))

-- What a container's entry and a bridge's entry of a valid snapshot hold.
abbrev pub ContainerFits : String × ContainerState → Type 0
ContainerFits (router, c) =
    (is_blank router ≡ false) × (is_blank c.id ≡ false) × (is_negative c.pid ≡ false)

abbrev pub BridgeFits : Hashing → String → String × String → Type 0
BridgeFits h lab (link, name) = (is_blank link ≡ false) × (name ≡ bridge_name h lab link)

-- The entries of a map that may be nil.
abbrev pub AllOf {ℓ κ} : {A : Type ℓ} → (A → Type κ) → Option (List A) → Type κ
AllOf P none = Unit
AllOf P (some xs) = All P xs

container-ContainerFits :
    (h : Hashing) (c : String × ContainerState) → validate_container h c ≡ ok tt → ContainerFits c
unfolding validate_container
container-ContainerFits h (router, c) e = ground arith

bridge-BridgeFits :
    (h : Hashing) (lab : String) (b : String × String)
    → validate_bridge h lab b ≡ ok tt
    → BridgeFits h lab b
unfolding validate_bridge
bridge-BridgeFits h lab (link, name) e = ground (arith, eq_iff name (bridge_name h lab link))

pub containers-fit :
    (h : Hashing) (cs : Option (Dict ContainerState))
    → validate_containers h cs ≡ ok tt
    → (found : Dict ContainerState) × (cs ≡ some found) × All ContainerFits found
unfolding validate_containers
containers-fit h none e = absurd (ground arith)
containers-fit h (some cs) e =
    (cs, refl, for_each-All ContainerFits _ (λ _ c _ p. container-ContainerFits h c p) cs _ _ e)

pub bridges-fit :
    (h : Hashing) (lab : String) (bs : Option (Dict String))
    → validate_bridges h lab bs ≡ ok tt
    → AllOf (BridgeFits h lab) bs
unfolding validate_bridges
bridges-fit h lab none e = tt
bridges-fit h lab (some bs) e =
    for_each-All (BridgeFits h lab) _ (λ _ b _ p. bridge-BridgeFits h lab b p) bs _ _ e

validate-eq-ok :
    (h : Hashing) (s : LabState) (lab : String)
    → validate h s lab ≡ ok tt
    → (s.lab ≡ lab)
      × (is_blank s.lab ≡ false)
      × (validate_containers h s.containers ≡ ok tt)
      × (validate_bridges h s.lab s.owned_bridges ≡ ok tt)
unfolding validate
validate-eq-ok h s lab e = ground (arith, eq_iff s.lab lab)

-- A snapshot that is valid for a lab is that lab's, and its lab name is not blank; it has containers
-- with a router, an identifier and a process number that is not negative; and every bridge that it
-- lists has a link and the name that belongs to the lab and that link.
pub validate_fits :
    (h : Hashing) (s : LabState) (lab : String)
    → validate h s lab ≡ ok tt
    → (s.lab ≡ lab)
      × (is_blank lab ≡ false)
      × ((found : Dict ContainerState) × (s.containers ≡ some found) × All ContainerFits found)
      × AllOf (BridgeFits h lab) s.owned_bridges
validate_fits h s lab e =
    let (same, given, cs, bs) = validate-eq-ok h s lab e in
    (
      same,
      rw (← same) given,
      containers-fit h s.containers cs,
      rw (← same) (bridges-fit h s.lab s.owned_bridges bs),
    )
