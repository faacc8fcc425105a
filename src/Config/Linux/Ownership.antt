-- ===== src/Config/Linux/Ownership.antt =====
-- What a validated `linux:` section claims (internal/config/config.go).
use frridge.Base.{
  Distinct, String, ◌≡◌, refl, subst, List, [], ◌∷◌, ◌++◌, ok, for_each, Option, none, some,
  append-nil, ap, ◌∙◌, sym, append_assoc,
}
use frridge.Base.Text.{trim_space}
use frridge.Base.Dict.{
  keys-insert_new, lookup_fresh, Distinct-fresh, insert, Dict, erase, keys, IsKeyed,
  erase-insert_new, insert-Distinct,
}
use frridge.Config.Topology.{Linux, Veth, Bridge, Namespace}
use frridge.Config.Errors.{DeviceKind, Owner}
use frridge.Config.Claims.{Net, claim_device, validate_namespace}
use frridge.Config.Claims.Laws.{
  master_request, claim_device-IsKeyed, claim_device-eq-ok, claim_master-IsKeyed,
  validate_namespace-IsKeyed,
}
use frridge.Config.Linux.{
  Claims, validate_bridge, claim_veth, initial_claims, validate_linux, link_devices,
  add_link_devices,
}
use frridge.Config.Linux.Inversion.{claim_veth-eq-ok, validate_bridge-eq-ok, validate_linux-eq-ok}
use frridge.Config.Linux.Footprint.{
  Footprint, ◌⊕◌, total, ⊕_assoc, vrf_footprint, bond_footprint, interface_footprint,
  veth_footprint, vxlan_footprint, bridge_footprint, veth_ends, linux_footprint, member_footprint,
  namespace_footprint, staying_peer,
}
use frridge.Config.Linux.Claiming.{
  Owns, for_each-total, keep-IsKeyed, vrf-Owns, enslave-HasMasters, members_devices,
  members_namespaces, bond-Owns, interface-Owns, veth-Owns, vxlan-Owns,
}

namespaces_devices : (ns : List Namespace) → (total namespace_footprint ns).devices ≡ []
unfolding total namespace_footprint
namespaces_devices [] = refl
namespaces_devices (n ∷ ns) = namespaces_devices ns

namespaces_masters : (ns : List Namespace) → (total namespace_footprint ns).masters ≡ []
unfolding total namespace_footprint
namespaces_masters [] = refl
namespaces_masters (n ∷ ns) = namespaces_masters ns

abbrev HasNamespaces : Footprint → Dict Owner → Type 0
HasNamespaces a d = IsKeyed a.namespaces d

module _ (net : Net) where
  namespaces-HasNamespaces :
      (owner : Owner) (ns : List Namespace) (a : Footprint) (d d' : Dict Owner)
      → HasNamespaces a d
      → for_each (λ names n. validate_namespace net names owner n) d ns ≡ ok d'
      → HasNamespaces (a ⊕ total namespace_footprint ns) d'
  unfolding namespace_footprint
  namespaces-HasNamespaces owner =
      for_each-total HasNamespaces namespace_footprint _
        λ a d n d' k h. validate_namespace-IsKeyed net owner n k h

  bridge-Owns :
      (a : Footprint) (c : Claims) (b : Bridge) (c' : Claims)
      → Owns a c
      → validate_bridge net c b ≡ ok c'
      → Owns (a ⊕ bridge_footprint b) c'
  unfolding bridge_footprint
  bridge-Owns a c b c' o h =
      let (d, m, m', c'', device, master, members, vxlans, named, ed, em) =
        validate_bridge-eq-ok net c c' b h in
      let own : Footprint = record {
        devices = trim_space b.name ∷ [];
        masters = master_request b.name b.master;
        namespaces = [];
      } in
      let ports : Footprint = total (member_footprint b.name) b.interfaces in
      let tunnels : Footprint = total (vxlan_footprint b.name) b.vxlans in
      let spaces : Footprint = total namespace_footprint b.namespaces in
      let start : Owns (a ⊕ own ⊕ ports) (record c { devices = d; masters = m' }) = record {
        devices =
            rw members_devices
              (rw append-nil (claim_device-IsKeyed b.name DeviceKind.bridge o.devices device));
        masters =
            enslave-HasMasters _ b.name b.interfaces (a ⊕ own) m m'
              (claim_master-IsKeyed b.name b.master _ o.masters master) members;
        namespaces = rw members_namespaces (rw append-nil (rw append-nil o.namespaces));
      } in
      let after : Owns (a ⊕ own ⊕ ports ⊕ tunnels) c'' =
        for_each-total Owns (vxlan_footprint b.name) _ (vxlan-Owns net b.name) b.vxlans _ _ _ start
          vxlans in
      let all : Owns (a ⊕ own ⊕ ports ⊕ tunnels ⊕ spaces) c' = record {
        devices = rw namespaces_devices (keep-IsKeyed after.devices ed);
        masters = rw namespaces_masters (keep-IsKeyed after.masters em);
        namespaces =
            namespaces-HasNamespaces _ b.namespaces (a ⊕ own ⊕ ports ⊕ tunnels) _ _ after.namespaces
              named;
      } in
      subst (λ f. Owns f c')
        (⊕_assoc (a ⊕ own ⊕ ports) tunnels spaces
          ∙ ⊕_assoc (a ⊕ own) ports (tunnels ⊕ spaces)
          ∙ ⊕_assoc a own (ports ⊕ (tunnels ⊕ spaces))
          ∙ ap (λ f. a ⊕ f)
              (sym (⊕_assoc (own ⊕ ports) tunnels spaces ∙ ⊕_assoc own ports (tunnels ⊕ spaces))))
        all

-- A peer that was just claimed and moves away leaves the keys as they were.
erase-IsKeyed :
    (names : List String) (d d' : Dict DeviceKind) (name : String)
    → IsKeyed names d
    → claim_device d name DeviceKind.veth_peer ≡ ok d'
    → IsKeyed names (erase (trim_space name) d')
erase-IsKeyed names d d' name k h =
    let (absent, e) = claim_device-eq-ok d d' name DeviceKind.veth_peer h in
    rw e (rw (erase-insert_new (trim_space name) DeviceKind.veth_peer d absent) k)

ends-IsKeyed :
    (names : List String) (d d' d'' : Dict DeviceKind) (peer : String) (n : Option Namespace)
    → IsKeyed names d
    → claim_device d peer DeviceKind.veth_peer ≡ ok d'
    → d'' ≡ (elim n [ none ↦ d' | some _ ↦ erase (trim_space peer) d' ])
    → IsKeyed (names ++ staying_peer peer n) d''
ends-IsKeyed names d d' d'' peer none k h e =
    rw e (claim_device-IsKeyed peer DeviceKind.veth_peer k h)
ends-IsKeyed names d d' d'' peer (some n) k h e = keep-IsKeyed (erase-IsKeyed names d d' peer k h) e

claim_veth-Owns :
    (a : Footprint) (c : Claims) (v : Veth) (c' : Claims)
    → Owns a c
    → claim_veth c v ≡ ok c'
    → Owns (a ⊕ veth_ends v) c'
unfolding veth_ends
claim_veth-Owns a c v c' o h =
    let (d, d', first, second, e, m, n) = claim_veth-eq-ok c c' v h in
    record {
      devices =
          rw (← append_assoc a.devices (trim_space v.name ∷ []) (staying_peer v.peer v.namespace)) (
            ends-IsKeyed (a.devices ++ trim_space v.name ∷ []) d d' c'.devices v.peer v.namespace
              (claim_device-IsKeyed v.name DeviceKind.veth o.devices first) second e);
      masters = keep-IsKeyed o.masters m;
      namespaces = keep-IsKeyed o.namespaces n;
    }

add_link_devices-Distinct :
    (d : Dict DeviceKind) (links : Dict String)
    → Distinct (keys d)
    → Distinct (keys (add_link_devices d links))
unfolding add_link_devices
add_link_devices-Distinct d [] h = h
add_link_devices-Distinct d ((name, link) ∷ rest) h =
    add_link_devices-Distinct (insert name (DeviceKind.link link) d) rest
      (insert-Distinct name (DeviceKind.link link) d h)

initial-Owns :
    (links : Dict String)
    → Owns
        (record { devices = keys (link_devices links); masters = []; namespaces = [] })
        (initial_claims links)
unfolding initial_claims link_devices keys
initial-Owns links = record {
  devices = record { are_keys = refl; distinct = add_link_devices-Distinct _ links (refl, tt) };
  masters = record { are_keys = refl; distinct = tt };
  namespaces = record { are_keys = refl; distinct = tt };
}

-- If a `linux:` section passes the validation beside the given link interfaces, then its claims are
-- exactly what its footprint lists, in order: the device names that stay in the router's namespace,
-- the links that are given a master, and the namespace names, none of them twice.
pub validate_linux-Owns :
    (net : Net) (l : Linux) (links : Dict String) (c : Claims)
    → validate_linux net l links ≡ ok c
    → Owns (linux_footprint l (keys (link_devices links))) c
unfolding linux_footprint
validate_linux-Owns net l links c h =
    let (c1, c2, c3, c4, c5, vrfs, bonds, ifaces, veths, routes, bridges, ends) =
      validate_linux-eq-ok net c l links h in
    let o1 = for_each-total Owns vrf_footprint _ vrf-Owns l.vrfs _ _ _ (initial-Owns links) vrfs in
    let o2 = for_each-total Owns bond_footprint _ (bond-Owns net) l.bonds _ _ _ o1 bonds in
    let o3 =
      for_each-total Owns interface_footprint _ (interface-Owns net) l.interfaces _ _ _ o2 ifaces in
    let o4 = for_each-total Owns veth_footprint _ (veth-Owns net) l.veths _ _ _ o3 veths in
    let o5 = for_each-total Owns bridge_footprint _ (bridge-Owns net) l.bridges _ _ _ o4 bridges in
    for_each-total Owns veth_ends _ claim_veth-Owns l.veths _ _ _ o5 ends

keys-add_link_devices :
    (d : Dict DeviceKind) (links : Dict String)
    → Distinct (keys d ++ keys links)
    → keys (add_link_devices d links) ≡ keys d ++ keys links
unfolding add_link_devices keys
keys-add_link_devices d [] h = rw append-nil
keys-add_link_devices d ((name, link) ∷ rest) h =
    let added =
      keys-insert_new name (DeviceKind.link link) d
        (lookup_fresh name d (Distinct-fresh (keys d) name (keys rest) h)) in
    let whole = ap (λ ns. ns ++ keys rest) added ∙ append_assoc (keys d) (name ∷ []) (keys rest) in
    keys-add_link_devices (insert name (DeviceKind.link link) d) rest (subst Distinct (sym whole) h)
    ∙ whole

-- The devices at the start of the section, if the links' names are distinct and none is "lo".
pub keys-link_devices :
    (links : Dict String)
    → Distinct ("lo" ∷ keys links)
    → keys (link_devices links) ≡ "lo" ∷ keys links
unfolding link_devices
keys-link_devices links h =
    unfold keys in keys-add_link_devices (("lo", DeviceKind.loopback) ∷ []) links h
