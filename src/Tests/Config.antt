-- ===== src/Tests/Config.antt =====
-- The theorems on internal/config/config.go and internal/state/state.go at concrete topologies.
use frridge.Base.{
  String, true, false, ◌≡◌, refl, ◌⊎◌, ◌↔◌, ok, All, Distinct, [], ◌∷◌, some, ◌==◌, ◌<>◌, for_each,
  gather,
}
use frridge.Config.Linux.{Claims}
use frridge.State.Laws.{HasLength}
use frridge.Base.Dict.{Dict, lookup, insert, erase, keys, values, is_some, copy}
use frridge.Base.Text.{
  is_slash, is_nul, is_space, trim_left, trim_right, trim, has, trim_space, is_blank, last_element,
  base, is_abs,
}
use frridge.Base.FilePath.{clean, join, walk, elements, slashed}
use frridge.Base.Slices.{take_chars, cut_prefix, size}
use frridge.Config.Topology.{Topology, Link, Ping, Bridge}
use frridge.Config.Claims.{
  claim_device, claim_master, validate_addr_gen_mode, claim_namespace, validate_link_attrs,
  validate_namespace,
}
use frridge.Config.Linux.{
  validate_linux, validate_vrf, enslave_interfaces, validate_bond, validate_interface,
  validate_veth_namespace, validate_veth, validate_route, validate_vxlan, validate_bridge,
  claim_veth, add_link_devices, link_devices, initial_claims,
}
use frridge.Config.Validate.{
  validate, validate_router, validate_member, validate_link, in_router, validate_router_linux,
  validate_ping, validate_mount, validate_command, is_sysctl_key,
}
use frridge.Config.Paths.{lab_dir, is_path_component, work_dir_path, resolve_work_dir, resolve_path}
use frridge.Config.Resolve.{
  router_or_zero, resolve_router, resolved_image, resolved_hostname, resolved_privileged,
  resolved_mount, merged_sysctls, default_router_sysctls, copy_namespace, copy_bond, copy_interface,
  copy_veth, copy_bridge, copy_linux,
}
use frridge.Config.Linux.Footprint.{linux_footprint}
use frridge.Config.Linux.Ownership.{validate_linux-Owns}
use frridge.Config.Linux.Claiming.{Owns}
use frridge.Base.FilePath.Laws.{IsElement}
use frridge.Config.Linux.Ranges.{TableFits, VxlanFits, validate_linux_ranges}
use frridge.Config.Validate.Interfaces.{HasUniqueNames, validate_unique}
use frridge.Config.Validate.Links.{LinkFits, PingFits, validate_links, validate_pings}
use frridge.Config.Paths.Laws.{is_path_component_iff, lab_dir-child, lab_dir-slash, labs_dir}
use frridge.Config.Resolve.Laws.{resolve_router_sysctls, or_else}
use frridge.State.Laws.{bridge_name-injective, validate_fits, ContainerFits, BridgeFits, AllOf}
use frridge.State.{
  bridge_name, validate_container, validate_containers, validate_bridges, LabState, ContainerState,
}
use frridge.State
use frridge.Tests.Data.{net, hashing, evpn, no_linux, router, lab_topology, topology, running}

pub topology-is_valid : validate net topology ≡ ok tt
unfolding validate validate_router validate_member validate_link in_router validate_router_linux
    validate_ping validate_mount validate_command is_sysctl_key validate_linux validate_vrf
    enslave_interfaces validate_bond validate_interface validate_veth_namespace validate_veth
    validate_route validate_vxlan validate_bridge claim_veth add_link_devices link_devices
    initial_claims claim_device claim_master validate_addr_gen_mode claim_namespace
    validate_link_attrs validate_namespace is_space trim_left trim_right trim has trim_space
    is_blank last_element base is_abs lookup insert erase keys values is_some copy for_each gather
    is_path_component work_dir_path resolve_work_dir resolve_path clean join walk elements slashed
    resolve_router resolved_image resolved_hostname resolved_privileged resolved_mount
    merged_sysctls default_router_sysctls copy_namespace copy_bond copy_interface copy_veth
    copy_bridge copy_linux
topology-is_valid = refl

-- Two routers whose containers would have one name.
abbrev colliding : Topology
colliding = record topology {
  routers = ("R_1", router no_linux) ∷ ("r-1", router no_linux) ∷ [];
  links = [];
  pings = [];
}

colliding-is_valid : validate net colliding ≡ ok tt
unfolding validate validate_router validate_member validate_link in_router validate_router_linux
    validate_ping validate_mount validate_command is_sysctl_key validate_linux validate_vrf
    enslave_interfaces validate_bond validate_interface validate_veth_namespace validate_veth
    validate_route validate_vxlan validate_bridge claim_veth add_link_devices link_devices
    initial_claims claim_device claim_master validate_addr_gen_mode claim_namespace
    validate_link_attrs validate_namespace is_space trim_left trim_right trim has trim_space
    is_blank last_element base is_abs lookup insert erase keys values is_some copy for_each gather
    is_path_component work_dir_path resolve_work_dir resolve_path clean join walk elements slashed
    resolve_router resolved_image resolved_hostname resolved_privileged resolved_mount
    merged_sysctls default_router_sysctls copy_namespace copy_bond copy_interface copy_veth
    copy_bridge copy_linux
colliding-is_valid = refl

validate_unique_example : All (HasUniqueNames topology) topology.routers
validate_unique_example = validate_unique net topology topology-is_valid

validate_links_example :
    Distinct (gather (λ (link : Link). link.name ∷ []) topology.links)
    × All (LinkFits topology) topology.links
validate_links_example = validate_links net topology topology-is_valid

validate_pings_example :
    Distinct (gather (λ (ping : Ping). ping.name ∷ []) topology.pings)
    × All (PingFits topology) topology.pings
validate_pings_example = validate_pings net topology topology-is_valid

abbrev lab_name : String
lab_name = "lab"

abbrev core : String
core = "core"

abbrev pub eth1 : Dict String
eth1 = ("eth1", "core") ∷ []

pub evpn-is_valid : (c : Claims) × (validate_linux net evpn eth1 ≡ ok c)
unfolding validate_linux validate_vrf enslave_interfaces validate_bond validate_interface
    validate_veth_namespace validate_veth validate_route validate_vxlan validate_bridge claim_veth
    add_link_devices link_devices initial_claims claim_device claim_master validate_addr_gen_mode
    claim_namespace validate_link_attrs validate_namespace is_space trim_left trim_right trim has
    trim_space is_blank last_element base is_abs lookup insert erase keys values is_some copy
    for_each gather
evpn-is_valid = (_, refl)

validate_linux-Owns_example : Owns (linux_footprint evpn (keys (link_devices eth1))) evpn-is_valid.0
validate_linux-Owns_example = validate_linux-Owns net evpn eth1 evpn-is_valid.0 evpn-is_valid.1

validate_linux_ranges_example :
    All TableFits evpn.vrfs × All (λ (b : Bridge). All VxlanFits b.vxlans) evpn.bridges
validate_linux_ranges_example = validate_linux_ranges net evpn eth1 evpn-is_valid.0 evpn-is_valid.1

is_path_component_iff_example :
    (is_path_component lab_name ≡ true)
    ↔ ((lab_name ≡ "/") ⊎ (IsElement lab_name × (has is_nul lab_name ≡ false)))
is_path_component_iff_example = is_path_component_iff "lab"

has_work_dir : (work_dir_path "" topology == "") ≡ false
unfolding is_path_component work_dir_path resolve_work_dir resolve_path clean join walk elements
    slashed is_space trim_left trim_right trim has trim_space is_blank last_element base is_abs
has_work_dir = refl

has_work_dir_slash : (work_dir_path "" (lab_topology "/") == "") ≡ false
unfolding is_path_component work_dir_path resolve_work_dir resolve_path clean join walk elements
    slashed is_space trim_left trim_right trim has trim_space is_blank last_element base is_abs
has_work_dir_slash = refl

is_component : is_path_component "lab" ≡ true
unfolding is_path_component work_dir_path resolve_work_dir resolve_path clean join walk elements
    slashed is_space trim_left trim_right trim has trim_space is_blank last_element base is_abs
is_component = refl

lab_dir-child_example : lab_dir "" topology ≡ labs_dir "" topology <> "/lab"
lab_dir-child_example = lab_dir-child "" topology has_work_dir is_component refl

lab_dir-slash_example :
    (is_path_component "/" ≡ true)
    × (lab_dir "" (lab_topology "/") ≡ labs_dir "" (lab_topology "/"))
lab_dir-slash_example = lab_dir-slash "" (lab_topology "/") has_work_dir_slash refl

defaults_once : Distinct (keys topology.lab.defaults.sysctls)
unfolding keys
defaults_once = tt

router_once : Distinct (keys (router_or_zero (lookup "r1" topology.routers)).sysctls)
unfolding keys lookup
router_once = (refl, tt)

resolve_router_sysctls_example :
    lookup "net.ipv4.ip_forward" (resolve_router topology "r1").sysctls
    ≡ or_else
        (lookup "net.ipv4.ip_forward" (router_or_zero (lookup "r1" topology.routers)).sysctls)
        (or_else
          (lookup "net.ipv4.ip_forward" topology.lab.defaults.sysctls)
          (lookup "net.ipv4.ip_forward" default_router_sysctls))
resolve_router_sysctls_example =
    resolve_router_sysctls topology "r1" "net.ipv4.ip_forward" defaults_once router_once

pub hashing-HasLength : HasLength hashing
unfolding size
hashing-HasLength = record { sha1_length = λ s. refl }

no_slash : has is_slash "lab" ≡ false
unfolding has
no_slash = refl

bridge_name-injective_example : (lab_name ≡ "lab") × (core ≡ "core")
bridge_name-injective_example =
    bridge_name-injective hashing "lab" "lab" "core" "core" no_slash no_slash (λ e. refl) refl

pub running-is_valid : State.validate hashing running "lab" ≡ ok tt
unfolding State.validate validate_container validate_containers validate_bridges
    State.validate_bridge bridge_name take_chars cut_prefix is_space trim_left trim_right trim has
    trim_space is_blank last_element base is_abs for_each gather
running-is_valid = refl

validate_fits_example :
    (running.lab ≡ "lab")
    × (is_blank "lab" ≡ false)
    × ((found : Dict ContainerState) × (running.containers ≡ some found) × All ContainerFits found)
    × AllOf (BridgeFits hashing "lab") running.owned_bridges
validate_fits_example = validate_fits hashing running "lab" running-is_valid
