-- ===== src/Config/Claims/Laws.antt =====
-- What a successful claim adds to the maps of `validateLinux`.
use frridge.Base.{
  String, ◌≡◌, subst, Bool-cases, true, false, ◌||◌, none, List, [], ◌∷◌, ◌++◌, ◌==◌, if◌then◌else◌,
  ok, arith, inl, inr, append-nil,
}
use frridge.Base.Text.{trim_space, is_blank}
use frridge.Base.Dict.{Dict, lookup, insert, IsKeyed, insert-IsKeyed}
use frridge.Config.Topology.{Namespace}
use frridge.Config.Errors.{DeviceKind, Owner}
use frridge.Config.Claims.{
  Net, MasterAssignment, claim_device, claim_master, claim_namespace, validate_namespace,
}

pub claim_device-eq-ok :
    (d d' : Dict DeviceKind) (name : String) (kind : DeviceKind)
    → claim_device d name kind ≡ ok d'
    → (lookup (trim_space name) d ≡ none) × (d' ≡ insert (trim_space name) kind d)
unfolding claim_device
claim_device-eq-ok d d' name kind h = ground arith

pub claim_device-IsKeyed :
    {names : List String} {d d' : Dict DeviceKind} (name : String) (kind : DeviceKind)
    → IsKeyed names d
    → claim_device d name kind ≡ ok d'
    → IsKeyed (names ++ trim_space name ∷ []) d'
claim_device-IsKeyed {d} {d'} name kind k h =
    let (absent, e) = claim_device-eq-ok d d' name kind h in
    rw e (insert-IsKeyed (trim_space name) kind k absent)

-- The link that a request for a master claims, if neither name is blank.
abbrev pub master_request : String → String → List String
master_request link master =
    if (trim_space link == "") || (trim_space master == "") then [] else trim_space link ∷ []

module _ (d d' : Dict MasterAssignment) (link master : String) (owner : Owner) where
  claim_master_blank :
      ((trim_space link == "") || (trim_space master == "")) ≡ true
      → claim_master d link master owner ≡ ok d'
      → d ≡ d'
  unfolding claim_master
  claim_master_blank e h = ground arith

  claim_master-eq-ok :
      ((trim_space link == "") || (trim_space master == "")) ≡ false
      → claim_master d link master owner ≡ ok d'
      → (lookup (trim_space link) d ≡ none)
        × (d' ≡ insert (trim_space link) (record { master = trim_space master; owner = owner }) d)
  unfolding claim_master
  claim_master-eq-ok e h = ground arith

pub claim_master-IsKeyed :
    {names : List String} {d d' : Dict MasterAssignment} (link master : String) (owner : Owner)
    → IsKeyed names d
    → claim_master d link master owner ≡ ok d'
    → IsKeyed (names ++ master_request link master) d'
claim_master-IsKeyed {names} {d} {d'} link master owner k h =
    elim (Bool-cases ((trim_space link == "") || (trim_space master == ""))) [
      | inl skipped ↦ rw skipped (
          rw append-nil
            (subst (IsKeyed names) (claim_master_blank d d' link master owner skipped h) k))
      | inr claimed ↦
          let (absent, e) = claim_master-eq-ok d d' link master owner claimed h in
          rw claimed (rw e (insert-IsKeyed (trim_space link) _ k absent))
    ]

claim_namespace-eq-ok :
    (d d' : Dict Owner) (name : String) (owner : Owner)
    → claim_namespace d name owner ≡ ok d'
    → (lookup name d ≡ none) × (d' ≡ insert name owner d)
unfolding claim_namespace
claim_namespace-eq-ok d d' name owner h = ground arith

pub validate_namespace-eq-ok :
    (net : Net) (d d' : Dict Owner) (owner : Owner) (n : Namespace)
    → validate_namespace net d owner n ≡ ok d'
    → (claim_namespace d n.name owner ≡ ok d')
      × (is_blank n.name ≡ false)
      × (is_blank n.if_name ≡ false)
      × ((n.if_name == "lo") ≡ false)
unfolding validate_namespace
validate_namespace-eq-ok net d d' owner n h = ground arith

pub validate_namespace-IsKeyed :
    (net : Net) {names : List String} {d d' : Dict Owner} (owner : Owner) (n : Namespace)
    → IsKeyed names d
    → validate_namespace net d owner n ≡ ok d'
    → IsKeyed (names ++ n.name ∷ []) d'
validate_namespace-IsKeyed net {names} {d} {d'} owner n k h =
    let (claimed, _, _, _) = validate_namespace-eq-ok net d d' owner n h in
    let (absent, e) = claim_namespace-eq-ok d d' n.name owner claimed in
    rw e (insert-IsKeyed n.name owner k absent)
