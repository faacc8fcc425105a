-- ===== src/Tests/Netlink.antt =====
-- The theorems on internal/netlink/netlink.go with a kernel that finds every link and refuses nothing.
use frridge.Base.{◌≡◌, refl, String, true, false, none, [], ◌∷◌, ok, All, ◌==◌}
use frridge.Base.Int.{pos}
use frridge.Base.Text.{trim_space, trim, trim_left, trim_right, is_space}
use frridge.Config.Topology.{Vrf, Bond, Interface, Veth}
use frridge.Base.Program.{◌>>=◌, pure, lift, within, each}
use frridge.Base.Program.Calls.{ask, invoke, perform}
use frridge.Netlink.Kernel.{Kernel, Device, found, query_link, device_of, lookup_link, perform_on}
use frridge.Netlink.Links.{
  LinkConfig, parse_addr_gen_mode, when, require, set_link_up, set_master, attach_link_master,
  configure_address, rename_link, set_addr_gen_mode, set_mac, configure_link,
}
use frridge.Netlink.Host.{bridge_of, ensure_bridge}
use frridge.Netlink.Guest.{
  defer, open_and_run, with_pid_handle, configure_vrf, join_bond, configure_bond,
}
use frridge.Netlink.Manager.{manager_method}
use frridge.Netlink.Handles.{held, manager_method-held}
use frridge.Netlink.Configured.{WentUp, configure_link-WentUp}
use frridge.Netlink.Bond.{AllEnslaved, configure_bond-WasEnslaved}
use frridge.Netlink.Bridges.{IsEnsured, ensure_bridge-IsEnsured}
use frridge.Netlink.Accepted.{ModeParses, BridgeModesParse, validate_linux-ModeParses}
use frridge.Runtime.Host as Runtime
use frridge.Tests.Config.{evpn-is_valid, eth1}
use frridge.Tests.Data.{net, evpn}

abbrev device : String → Device
device name = record { name = name; index = pos 4; mtu = pos 1500; is_bridge = true }

abbrev quiet : Kernel
quiet = record {
  looked_up = λ past name. found (device name);
  answered = λ past call. none;
  is_mac = λ text. true;
  is_ip = λ text. true;
  is_address = λ text. true;
  is_cidr = λ text. true;
}

abbrev red : Vrf
red = record { name = "red"; table = pos 100 }

manager_method-held_example : held quiet (configure_vrf quiet (pos 7) red []).1 ≡ held quiet []
unfolding manager_method
manager_method-held_example =
    manager_method-held quiet (Runtime.configure_vrf (pos 7) red) (configure_vrf quiet (pos 7) red)
      refl []

abbrev bond0 : Bond
bond0 = record {
  name = "bond0";
  mode = "802.3ad";
  master = "";
  mac = "";
  addr_gen_mode = "none";
  addresses = "192.0.2.1/24" ∷ [];
  interfaces = "eth1" ∷ "eth2" ∷ [];
}

bond0-has_name : (trim_space bond0.name == "") ≡ false
unfolding trim_space trim trim_left trim_right is_space
bond0-has_name = refl

bond0-succeeds : (configure_bond quiet (pos 7) bond0 []).0 ≡ ok tt
unfolding configure_bond with_pid_handle open_and_run defer join_bond set_link_up configure_link
    ◌>>=◌ lookup_link within invoke device_of rename_link perform_on perform pure when
    attach_link_master set_addr_gen_mode set_mac require each configure_address lift
    parse_addr_gen_mode set_master trim_space trim trim_left trim_right is_space
bond0-succeeds = refl

configure_bond-WasEnslaved_example :
    AllEnslaved quiet bond0.name bond0.interfaces (configure_bond quiet (pos 7) bond0 []).1
configure_bond-WasEnslaved_example =
    configure_bond-WasEnslaved quiet (pos 7) bond0 [] bond0-has_name bond0-succeeds

bridge-succeeds : (ensure_bridge quiet "frb0" (pos 9000) []).0 ≡ ok tt
unfolding ensure_bridge ◌>>=◌ query_link ask bridge_of pure when perform_on within perform
bridge-succeeds = refl

ensure_bridge-IsEnsured_example :
    IsEnsured quiet "frb0" (pos 9000) [] (ensure_bridge quiet "frb0" (pos 9000) []).1
ensure_bridge-IsEnsured_example = ensure_bridge-IsEnsured quiet "frb0" (pos 9000) [] bridge-succeeds

abbrev to_eth1 : LinkConfig
to_eth1 = record {
  rename_to = "eth1";
  master = "";
  mac = "02:00:00:00:00:01";
  addr_gen_mode = "";
  addresses = "192.0.2.1/24" ∷ "192.0.2.2/24" ∷ [];
  mtu = pos 9000;
  up = true;
}

link-succeeds : (configure_link quiet "tmp0" to_eth1 []).0 ≡ ok tt
unfolding configure_link ◌>>=◌ lookup_link within invoke device_of rename_link perform_on perform
    pure when attach_link_master set_addr_gen_mode set_mac require each configure_address lift
    parse_addr_gen_mode set_master trim_space trim trim_left trim_right is_space
link-succeeds = refl

configure_link-WentUp_example :
    WentUp quiet "tmp0" to_eth1 [] (configure_link quiet "tmp0" to_eth1 []).1
configure_link-WentUp_example = configure_link-WentUp quiet "tmp0" to_eth1 [] refl link-succeeds

validate_linux-ModeParses_example :
    All (λ (x : Bond). ModeParses x.addr_gen_mode) evpn.bonds
    × All (λ (x : Interface). ModeParses x.addr_gen_mode) evpn.interfaces
    × All (λ (x : Veth). ModeParses x.addr_gen_mode) evpn.veths
    × All BridgeModesParse evpn.bridges
validate_linux-ModeParses_example =
    validate_linux-ModeParses net evpn eth1 evpn-is_valid.0 evpn-is_valid.1
