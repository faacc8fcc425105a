-- ===== src/Config/Linux.antt =====
-- `validateLinux` of internal/config/config.go: one function for the body of each of its loops.
pub mod Footprint
pub mod Inversion
pub mod Claiming
pub mod Ownership
pub mod Ranges
use frridge.Base.{
  String, Bool, true, false, ◌||◌, ◌&&◌, Option, none, some, List, [], ◌∷◌, ◌++◌, ◌==◌,
  if◌then◌else◌, Result, ok, err, ◌>>=◌, ◌>>◌, reject_if, for_each, not, contains, ltb,
}
use frridge.Base.Int.{is_negative, is_non_positive, exceeds, to_uint64}
use frridge.Base.Text.{trim_space, is_blank}
use frridge.Base.Dict.{Dict, lookup, insert, erase}
use frridge.Config.Topology.{Linux, Vrf, Bond, Interface, Veth, Route, Bridge, Vxlan, Namespace}
use frridge.Config.Errors
use frridge.Config.Errors.{LinuxError, DeviceKind, Owner}
use frridge.Config.Claims.{
  Net, MasterAssignment, bond_modes, claim_device, claim_master, validate_addr_gen_mode,
  validate_link_attrs, validate_namespace,
}

-- The maps that the loops fill.
pub record Claims : Type 0 where
  pub devices : Dict DeviceKind
  pub namespaces : Dict Owner
  pub masters : Dict MasterAssignment
  pub interface_names : List String
  pub veth_peers : List String

abbrev pub max_uint32 : Prim.Native.Nat.ℕ
max_uint32 = 4294967295

unfoldable pub validate_vrf : Claims → Vrf → Result LinuxError Claims
validate_vrf c vrf = do
  reject_if (is_blank vrf.name) Errors.empty_vrf_name
  reject_if (is_non_positive vrf.table || ltb max_uint32 (to_uint64 vrf.table))
      (Errors.invalid_table vrf.name vrf.table)
  devices ← claim_device c.devices vrf.name DeviceKind.vrf
  ok (record c { devices = devices })

-- The loop over the interfaces of a bond or a bridge.
unfoldable pub enslave_interfaces :
    Owner → String → Dict MasterAssignment → List String → Result LinuxError (Dict MasterAssignment)
enslave_interfaces owner master = for_each (λ masters iface. do
  reject_if (is_blank iface) (Errors.empty_member owner)
  claim_master masters iface master owner)

module _ (net : Net) where
  unfoldable pub validate_bond : Claims → Bond → Result LinuxError Claims
  validate_bond c bond = do
    reject_if (is_blank bond.name) Errors.empty_bond_name
    reject_if (is_blank bond.mode) (Errors.empty_mode bond.name)
    reject_if (not (contains bond_modes bond.mode)) (Errors.unsupported_mode bond.name bond.mode)
    devices ← claim_device c.devices bond.name DeviceKind.bond
    validate_link_attrs net (Owner.bond bond.name) bond.mac bond.addr_gen_mode bond.addresses
    masters ← claim_master c.masters bond.name bond.master (Owner.bond bond.name)
    masters' ← enslave_interfaces (Owner.bond bond.name) bond.name masters bond.interfaces
    ok (record c { devices = devices; masters = masters' })

  unfoldable pub validate_interface : Claims → Interface → Result LinuxError Claims
  validate_interface c iface = do
    reject_if (is_blank iface.name) Errors.empty_interface_name
    reject_if (contains c.interface_names iface.name) (Errors.reused_interface iface.name)
    validate_link_attrs net (Owner.interface iface.name) iface.mac iface.addr_gen_mode
        iface.addresses
    masters ← claim_master c.masters iface.name iface.master (Owner.interface iface.name)
    ok (record c { masters = masters; interface_names = iface.name ∷ c.interface_names })

  -- A veth's namespace, if it has one.
  unfoldable pub validate_veth_namespace :
      Dict Owner → Owner → Option Namespace → Result LinuxError (Dict Owner)
  validate_veth_namespace names owner none = ok names
  validate_veth_namespace names owner (some n) = validate_namespace net names owner n

  unfoldable pub validate_veth : Claims → Veth → Result LinuxError Claims
  validate_veth c veth = do
    reject_if (is_blank veth.name) Errors.empty_veth_name
    reject_if (is_blank veth.peer) (Errors.empty_peer veth.name)
    reject_if (veth.name == veth.peer) (Errors.same_ends veth.name)
    reject_if (contains c.veth_peers veth.peer) (Errors.reused_peer veth.peer)
    validate_link_attrs net (Owner.veth veth.name) veth.mac veth.addr_gen_mode veth.addresses
    masters ← claim_master c.masters veth.name veth.master (Owner.veth veth.name)
    namespaces ← validate_veth_namespace c.namespaces (Owner.veth veth.name) veth.namespace
    ok (record c {
      masters = masters;
      namespaces = namespaces;
      veth_peers = veth.peer ∷ c.veth_peers;
    })

  unfoldable pub validate_route : Route → Result LinuxError (Unit {0})
  validate_route route = do
    reject_if (is_blank route.to) Errors.empty_route_to
    reject_if (not (net.parses_cidr route.to)) (Errors.invalid_route_to route.to)
    reject_if (is_blank route.via && is_blank route.dev) (Errors.no_next_hop route.to)
    if route.via == ""
        then ok tt
        else reject_if (not (net.parses_ip route.via)) (Errors.invalid_via route.to route.via)

  unfoldable pub validate_vxlan : String → Claims → Vxlan → Result LinuxError Claims
  validate_vxlan bridge c vxlan = do
    reject_if (is_blank vxlan.name) (Errors.empty_vxlan_name bridge)
    devices ← claim_device c.devices vxlan.name DeviceKind.vxlan
    reject_if (is_non_positive vxlan.vni || exceeds vxlan.vni 16777215)
        (Errors.invalid_vni bridge vxlan.name vxlan.vni)
    if vxlan.local == ""
        then ok tt
        else reject_if (not (net.parses_ip vxlan.local))
            (Errors.invalid_local bridge vxlan.name vxlan.local)
    reject_if (is_negative vxlan.dst_port || exceeds vxlan.dst_port 65535)
        (Errors.invalid_dst_port bridge vxlan.name vxlan.dst_port)
    validate_addr_gen_mode (Owner.vxlan bridge vxlan.name) vxlan.addr_gen_mode
    masters ← claim_master c.masters vxlan.name bridge (Owner.vxlan bridge vxlan.name)
    ok (record c { devices = devices; masters = masters })

  unfoldable pub validate_bridge : Claims → Bridge → Result LinuxError Claims
  validate_bridge c bridge = do
    reject_if (is_blank bridge.name) Errors.empty_bridge_name
    devices ← claim_device c.devices bridge.name DeviceKind.bridge
    validate_link_attrs net (Owner.bridge bridge.name) bridge.mac bridge.addr_gen_mode
        bridge.addresses
    masters ← claim_master c.masters bridge.name bridge.master (Owner.bridge bridge.name)
    masters' ← enslave_interfaces (Owner.bridge bridge.name) bridge.name masters bridge.interfaces
    c' ←
        for_each (validate_vxlan bridge.name) (record c { devices = devices; masters = masters' })
          bridge.vxlans
    namespaces ←
        for_each (λ names n. validate_namespace net names (Owner.bridge bridge.name) n)
          c'.namespaces bridge.namespaces
    ok (record c' { namespaces = namespaces })

-- The last loop: a peer that moves into a namespace frees its name.
unfoldable pub claim_veth : Claims → Veth → Result LinuxError Claims
claim_veth c veth = do
  devices ← claim_device c.devices veth.name DeviceKind.veth
  devices' ← claim_device devices veth.peer DeviceKind.veth_peer
  ok (record c {
    devices = elim veth.namespace [
      | none ↦ devices'
      | some _ ↦ erase (trim_space veth.peer) devices'
    ];
  })

-- `createdDevices` before the loops: the loopback and the router's links.
unfoldable pub add_link_devices : Dict DeviceKind → Dict String → Dict DeviceKind
add_link_devices devices [] = devices
add_link_devices devices ((name, link) ∷ rest) =
    add_link_devices (insert name (DeviceKind.link link) devices) rest

unfoldable pub link_devices : Dict String → Dict DeviceKind
link_devices links = add_link_devices (("lo", DeviceKind.loopback) ∷ []) links

unfoldable pub initial_claims : Dict String → Claims
initial_claims links = record {
  devices = link_devices links;
  namespaces = [];
  masters = [];
  interface_names = [];
  veth_peers = [];
}

unfoldable pub validate_linux : Net → Linux → Dict String → Result LinuxError Claims
validate_linux net linux links = do
  c1 ← for_each validate_vrf (initial_claims links) linux.vrfs
  c2 ← for_each (validate_bond net) c1 linux.bonds
  c3 ← for_each (validate_interface net) c2 linux.interfaces
  c4 ← for_each (validate_veth net) c3 linux.veths
  for_each (λ _ route. validate_route net route) tt linux.routes
  c5 ← for_each (validate_bridge net) c4 linux.bridges
  for_each claim_veth c5 linux.veths
