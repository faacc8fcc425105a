-- ===== src/Config/Validate/Interfaces.antt =====
-- The interface names of a router (internal/config/config.go): those that links give to it, and those
-- of its own `linux:` section.
use frridge.Base.{
  String, false, ◌≡◌, refl, sym, ap, ◌∙◌, List, [], ◌∷◌, ◌++◌, ◌==◌, if◌then◌else◌, ok, arith,
  Distinct, contains, All, for_each, for_each_gather, for_each-All, gather, Bool-cases, inl, inr,
  eq_iff, none, append-nil, subst,
}
use frridge.Base.Text.{trim_space}
use frridge.Base.Dict.{
  lookup, insert, keys, IsKeyed, insert-IsKeyed, contains-append, lookup-insert,
}
use frridge.Config.Topology.{Topology, Router, Link, LinkMember}
use frridge.Config.Claims.{Net}
use frridge.Config.Linux.Footprint.{linux_footprint}
use frridge.Config.Linux.Ownership.{validate_linux-Owns, keys-link_devices}
use frridge.Config.Validate.{
  IfNames, names_of, validate_router, validate_member, validate_link, validate_router_linux,
  validate,
}
use frridge.Config.Validate.Inversion.{
  validate-eq-ok, validate_member-eq-ok, validate_link-eq-ok, validate_router_linux-eq-ok,
  names_of-validate_router,
}

-- The name of an interface that a link gives to the router `r`.
unfoldable pub member_interface : String → LinkMember → List String
member_interface r m = if m.router == r then trim_space m.if_name ∷ [] else []

unfoldable pub link_interfaces : String → Link → List String
link_interfaces r link = gather (member_interface r) link.members

-- All interfaces that links give to the router, in the order of the topology.
unfoldable pub router_interfaces : String → List Link → List String
router_interfaces r links = gather (link_interfaces r) links

-- The names taken in the router `r` are those, each once, and none is "lo".
record Takes (r : String) (taken : List String) (names : IfNames) : Type 0 where
  keyed : IsKeyed taken (names_of r names)
  no_loopback : contains taken "lo" ≡ false

Takes-empty : (r : String) (names : IfNames) → names_of r names ≡ [] → Takes r [] names
unfolding keys
Takes-empty r names e = record {
  keyed = rw e (record { are_keys = refl; distinct = tt });
  no_loopback = refl;
}

Takes-same :
    (r : String) (done : List String) (names names' : IfNames)
    → names_of r names' ≡ names_of r names
    → Takes r done names
    → Takes r done names'
Takes-same r done names names' e k = record {
  keyed = subst (IsKeyed done) (sym e) k.keyed;
  no_loopback = k.no_loopback;
}

Takes-add :
    (r : String) (done : List String) (names names' : IfNames) (name link : String)
    → names_of r names' ≡ insert name link (names_of r names)
    → lookup name (names_of r names) ≡ none
    → (name == "lo") ≡ false
    → Takes r done names
    → Takes r (done ++ name ∷ []) names'
Takes-add r done names names' name link e absent other k = record {
  keyed = subst (IsKeyed (done ++ name ∷ [])) (sym e) (insert-IsKeyed name link k.keyed absent);
  no_loopback = rw contains-append (rw k.no_loopback other);
}

module _ (net : Net) (t : Topology) (r : String) where
  member-Takes :
      (link : String) (done : List String) (names : IfNames) (m : LinkMember) (names' : IfNames)
      → Takes r done names
      → validate_member net t link names m ≡ ok names'
      → Takes r (done ++ member_interface r m) names'
  unfolding member_interface
  member-Takes link done names m names' k h =
      let (_, given, not_lo, absent, e) = validate_member-eq-ok net t link names names' m h in
      let name : String = trim_space m.if_name in
      let found = lookup-insert m.router r (insert name link (names_of m.router names)) names in
      elim (Bool-cases (m.router == r)) [
        | inl same ↦
            let here = (eq_iff m.router r).0 same in
            rw same (
              Takes-add r done names names' name link (ground (arith, found, here))
                (subst (λ q. lookup name (names_of q names) ≡ none) here absent) not_lo k)
        | inr other ↦
            rw other (rw append-nil (Takes-same r done names names' (ground (arith, found)) k))
      ]

  link-Takes :
      (done : List String) (s : List String × IfNames) (link : Link) (s' : List String × IfNames)
      → Takes r done s.1
      → validate_link net t s link ≡ ok s'
      → Takes r (done ++ link_interfaces r link) s'.1
  unfolding link_interfaces
  link-Takes done (seen, names) link (seen', names') k h =
      let (_, _, _, _, _, members) = validate_link-eq-ok net t seen seen' names names' link h in
      for_each_gather (Takes r) (member_interface r) _ (member-Takes link.name) link.members done
        names names' k members

  links-Takes :
      (names : IfNames) (linked : List String × IfNames)
      → for_each (validate_router net t) [] t.routers ≡ ok names
      → for_each (validate_link net t) ([], names) t.links ≡ ok linked
      → Takes r (router_interfaces r t.links) linked.1
  unfolding router_interfaces
  links-Takes names linked routers links =
      let fresh : names_of r names ≡ [] =
        for_each_gather {B = String} (λ _ s. names_of r s ≡ []) (λ _. []) _
          (λ _ s nr s' e h. names_of-validate_router net t r s s' nr e h) t.routers [] [] names
          (unfold lookup in refl) routers in
      for_each_gather (λ taken (s : List String × IfNames). Takes r taken s.1) (link_interfaces r) _
        link-Takes t.links [] _ linked (Takes-empty r names fresh) links

-- What the router's own section must not repeat: the loopback and the interfaces of its links.
abbrev pub taken_devices : Topology → String → List String
taken_devices t name = "lo" ∷ router_interfaces name t.links

-- Every router has each device name, each master and each namespace once.
abbrev pub HasUniqueNames : Topology → String × Router → Type 0
HasUniqueNames t (name, router) =
    let f = linux_footprint router.linux (taken_devices t name) in
    Distinct f.devices × Distinct f.masters × Distinct f.namespaces

router-HasUniqueNames :
    (net : Net) (t : Topology) (names : IfNames) (name : String) (router : Router)
    → Takes name (router_interfaces name t.links) names
    → validate_router_linux net t names (name, router) ≡ ok tt
    → HasUniqueNames t (name, router)
router-HasUniqueNames net t names name router k h =
    let (c, checked) = validate_router_linux-eq-ok net t names name router h in
    let o = validate_linux-Owns net router.linux (names_of name names) c checked in
    let e : keys (names_of name names) ≡ router_interfaces name t.links = k.keyed.are_keys in
    let start =
      keys-link_devices (names_of name names) (rw e (k.no_loopback, k.keyed.distinct))
      ∙ ap (λ ns. "lo" ∷ ns) e in
    let same = ap (linux_footprint router.linux) start in
    (
      subst (λ f. Distinct f.devices) same o.devices.distinct,
      subst (λ f. Distinct f.masters) same o.masters.distinct,
      subst (λ f. Distinct f.namespaces) same o.namespaces.distinct,
    )

-- If a topology passes the validation, then in every router no device name is used twice among the
-- loopback, the interfaces that links give to it and the devices of its `linux:` section that stay
-- in the router's namespace; no link is given a master twice; and no namespace name is used twice.
pub validate_unique :
    (net : Net) (t : Topology) → validate net t ≡ ok tt → All (HasUniqueNames t) t.routers
validate_unique net t h =
    let (names, linked, _, _, routers, links, linux, _) = validate-eq-ok net t h in
    for_each-All (HasUniqueNames t) _
      (λ _ nr _ checked.
        let (name, router) = nr in
        router-HasUniqueNames net t linked.1 name router
          (links-Takes net t name names linked routers links) checked)
      t.routers _ _ linux
