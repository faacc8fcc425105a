-- ===== src/Tests/Data.antt =====
-- Concrete topologies, snapshots and answers of the outside for the tests.
use frridge.Base.{String, true, false, Option, none, some, List, [], ◌∷◌, ok}
use frridge.Base.Int.{pos}
use frridge.Base.Dict.{Dict}
use frridge.Config.Topology.{Topology, Router, Linux, LinkMember}
use frridge.Config.Claims.{Net}
use frridge.State.{LabState, Hashing}
use frridge.Runtime.Host.{Host, World, Call, ReadOutcome, absent, tick, Fault, ExecResult}
use frridge.Runtime.Env.{Env}

abbrev pub net : Net
net = record { parses_cidr = λ s. true; parses_mac = λ s. true; parses_ip = λ s. true }

abbrev pub hashing : Hashing
hashing = record {
  sha1_hex = λ s. "da39a3ee5e6b4b0d3255bfef95601890afd80709";
  decoded_length = λ s. some 32;
}

abbrev pub no_linux : Linux
no_linux = record { vrfs = []; bonds = []; interfaces = []; veths = []; routes = []; bridges = [] }

-- A VRF, and a bridge under it that has a VXLAN.
abbrev pub evpn : Linux
evpn = record {
  vrfs = (record { name = "red"; table = pos 100 }) ∷ [];
  bonds = [];
  interfaces = [];
  veths = [];
  routes = [];
  bridges =
      (record {
        name = "br0";
        master = "red";
        mac = "";
        addr_gen_mode = "";
        addresses = [];
        interfaces = [];
        vxlans =
            (record {
              name = "vx0";
              vni = pos 1000;
              local = "10.0.0.1";
              dst_port = pos 4789;
              no_learning = true;
              addr_gen_mode = "none";
              bridge_slave = record { learning = none; neigh_suppress = none };
            })
            ∷ [];
        namespaces = [];
      })
      ∷ [];
}

abbrev pub router : Linux → Router
router l = record {
  hostname = "";
  image = "";
  command = [];
  privileged = none;
  env = [];
  loopbacks = [];
  mounts = [];
  sysctls = ("net.ipv4.ip_forward", "0") ∷ [];
  linux = l;
  commands = [];
}

abbrev pub member : String → LinkMember
member name = record { router = name; if_name = "eth1"; ipv4 = ""; mac = "" }

abbrev pub lab_topology : String → Topology
lab_topology name = record {
  api_version = "frridge/v1alpha1";
  lab = record {
    name = name;
    work_dir = "/w";
    defaults = record { image = ""; privileged = none; sysctls = [] };
  };
  routers = ("r1", router no_linux) ∷ ("r2", router evpn) ∷ [];
  links =
      (record {
        name = "core";
        type = "bridge";
        mtu = pos 1500;
        members = member "r1" ∷ member "r2" ∷ [];
      })
      ∷ [];
  pings =
      (record {
        name = "p1";
        from = record { router = "r1"; namespace = ""; address = "" };
        to = "10.0.0.2";
        count = pos 0;
      })
      ∷ [];
  source_path = "/l/lab.yaml";
  base_dir = "/l";
}

abbrev pub topology : Topology
topology = lab_topology "lab"

abbrev pub digest : String
digest = "sha256:da39a3ee5e6b4b0d3255bfef95601890afd80709da39a3ee5e6b4b0d3255bfef"

-- The snapshot of a lab that runs; without an inventory it is one of an older version.
abbrev pub snapshot : Option (Dict String) → LabState
snapshot bridges = record {
  lab = "lab";
  topology_digest = digest;
  containers = some (("r1", record { id = "c1"; pid = pos 7; config_dir = "/w/r1" }) ∷ []);
  owned_bridges = bridges;
}

abbrev pub running : LabState
running = snapshot (some (("core", "frbda39a3ee5e6") ∷ []))

abbrev pub daemons_shown : ExecResult
daemons_shown = record {
  stdout = "zebra bgpd ospfd ospf6d isisd staticd pathd";
  stderr = "";
  exit_code = pos 0;
}

-- Starting a container fails in the broken environment.
abbrev pub broken_call : Call → Option Fault
broken_call (Call.start_container id) = some "cannot start"
broken_call _ = none

abbrev pub host : (Call → Option Fault) → ReadOutcome → List String → Host
host answer file ids = record {
  perform = λ past call. answer call;
  created = λ past spec. ok "c1";
  inspected = λ past id. ok (pos 7);
  listed = λ past labels. ok ids;
  executed = λ past id command. ok daemons_shown;
  presence = λ past path. absent;
  read = λ past path. file;
  prepared = λ past dir hostname reseed.
      ok (record { config_dir = "/w/r1"; needs_seed = false; marker_path = "/w/r1/.seeded" });
  cancelled = λ past. none;
  waited = λ past. tick;
}

abbrev pub environment : (Call → Option Fault) → ReadOutcome → List String → Env
environment answer file ids = record {
  host = host answer file ids;
  hashing = hashing;
  override = "";
  digest = λ t. ok digest;
}

abbrev pub no_fault : Call → Option Fault
no_fault call = none

abbrev pub fresh_world : World
fresh_world = record {
  trace = [];
  snapshot = record {
    lab = "lab";
    topology_digest = digest;
    containers = some [];
    owned_bridges = some [];
  };
}
