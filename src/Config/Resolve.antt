-- ===== src/Config/Resolve.antt =====
-- `ResolveRouter` of internal/config/config.go and its helpers.
pub mod Laws
use frridge.Base.{String, Bool, true, Option, none, some, List, [], ◌∷◌, ◌==◌, if◌then◌else◌, map}
use frridge.Base.Text.{trim_space}
use frridge.Base.Dict.{Dict, lookup, insert, copy, keys}
use frridge.Config.Topology.{
  Topology, Router, ResolvedRouter, Mount, Linux, Bond, Interface, Veth, Bridge, Namespace, Lab,
  default_router_image,
}
use frridge.Config.Paths.{resolve_path}

abbrev pub default_router_privileged : Bool
default_router_privileged = true

unfoldable pub default_router_sysctls : Dict String
default_router_sysctls = ("net.ipv4.ip_forward", "1") ∷ ("net.ipv4.conf.all.rp_filter", "0") ∷ []

-- A nil map and an empty one are the same list.
unfoldable pub merged_sysctls : Dict String → Dict String → Dict String
merged_sysctls defaults overrides = copy (copy [] defaults) overrides

unfoldable pub copy_namespace : Namespace → Namespace
copy_namespace n = record {
  name = n.name;
  if_name = n.if_name;
  mac = n.mac;
  addresses = n.addresses;
  default_via = n.default_via;
}

unfoldable pub copy_bond : Bond → Bond
copy_bond bond = record {
  name = bond.name;
  mode = bond.mode;
  master = bond.master;
  mac = bond.mac;
  addr_gen_mode = bond.addr_gen_mode;
  addresses = bond.addresses;
  interfaces = bond.interfaces;
}

unfoldable pub copy_interface : Interface → Interface
copy_interface iface = record {
  name = iface.name;
  master = iface.master;
  mac = iface.mac;
  addr_gen_mode = iface.addr_gen_mode;
  addresses = iface.addresses;
}

unfoldable pub copy_veth : Veth → Veth
copy_veth veth = record {
  name = veth.name;
  peer = veth.peer;
  master = veth.master;
  mac = veth.mac;
  addr_gen_mode = veth.addr_gen_mode;
  addresses = veth.addresses;
  namespace = elim veth.namespace [ none ↦ none | some n ↦ some (copy_namespace n) ];
}

unfoldable pub copy_bridge : Bridge → Bridge
copy_bridge bridge = record {
  name = bridge.name;
  master = bridge.master;
  mac = bridge.mac;
  addr_gen_mode = bridge.addr_gen_mode;
  addresses = bridge.addresses;
  interfaces = bridge.interfaces;
  vxlans = bridge.vxlans;
  namespaces = map copy_namespace bridge.namespaces;
}

unfoldable pub copy_linux : Linux → Linux
copy_linux linux = record {
  vrfs = linux.vrfs;
  bonds = map copy_bond linux.bonds;
  interfaces = map copy_interface linux.interfaces;
  veths = map copy_veth linux.veths;
  routes = linux.routes;
  bridges = map copy_bridge linux.bridges;
}

-- The router that Go reads under a name that is not there.
abbrev pub zero_router : Router
zero_router = record {
  hostname = "";
  image = "";
  command = [];
  privileged = none;
  env = [];
  loopbacks = [];
  mounts = [];
  sysctls = [];
  linux = record { vrfs = []; bonds = []; interfaces = []; veths = []; routes = []; bridges = [] };
  commands = [];
}

abbrev pub router_or_zero : Option Router → Router
router_or_zero none = zero_router
router_or_zero (some r) = r

unfoldable pub resolved_hostname : String → Router → String
resolved_hostname name router =
    let hostname = trim_space router.hostname in if hostname == "" then name else hostname

unfoldable pub resolved_image : Lab → Router → String
resolved_image lab router =
    let own = trim_space router.image in
    let image = if own == "" then trim_space lab.defaults.image else own in
    if image == "" then default_router_image else image

abbrev override_flag : Option Bool → Bool → Bool
override_flag none b = b
override_flag (some flag) b = flag

unfoldable pub resolved_privileged : Lab → Router → Bool
resolved_privileged lab router =
    override_flag router.privileged
      (override_flag lab.defaults.privileged default_router_privileged)

unfoldable pub resolved_mount : Topology → Mount → Mount
resolved_mount t mount = record {
  source = resolve_path t mount.source;
  target = mount.target;
  read_only = mount.read_only;
}

unfoldable pub resolve_router : Topology → String → ResolvedRouter
resolve_router t name =
    let router = router_or_zero (lookup name t.routers) in
    record {
      name = name;
      hostname = resolved_hostname name router;
      image = resolved_image t.lab router;
      command = router.command;
      privileged = resolved_privileged t.lab router;
      env = router.env;
      loopbacks = router.loopbacks;
      mounts = map (resolved_mount t) router.mounts;
      sysctls =
          merged_sysctls default_router_sysctls
            (merged_sysctls t.lab.defaults.sysctls router.sysctls);
      linux = copy_linux router.linux;
      commands = router.commands;
    }

unfoldable pub resolve_names : Topology → Dict ResolvedRouter → Dict Router → Dict ResolvedRouter
resolve_names t resolved [] = resolved
resolve_names t resolved ((name, _) ∷ rest) =
    resolve_names t (insert name (resolve_router t name) resolved) rest

unfoldable pub resolve_routers : Topology → Dict ResolvedRouter
unfolding resolve_names
resolve_routers t = resolve_names t [] t.routers
