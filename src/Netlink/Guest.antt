-- ===== src/Netlink/Guest.antt =====
-- The methods of internal/netlink/netlink.go that work in the network namespace of a process.
use frridge.Base.{String, true, false, none, List, [], ◌∷◌, if◌then◌else◌}
use frridge.Base.Int.{ℤ, pos, is_non_positive}
use frridge.Base.Program.{◌>>=◌, ◌>>◌, raise, within, each}
use frridge.Config.Topology.{LinkMember, Vrf, Bond, Bridge, Interface, Veth, Route}
use frridge.Netlink.Kernel.{
  Kernel, N, Call, during, invalid_pid, lookup_link, perform_on, to_uint32, link_add, link_set_up,
  route_replace, get_namespace, new_handle, close_namespace, close_handle, new_bridge, new_vrf,
  new_bond,
}
use frridge.Netlink.Links.{
  no_config, set_link_up, attach_link_master, configure_address, configure_link, add_veth,
  configure_vxlan, build_route, non_empty_strings,
}

-- A body and then the call that `defer` put off, whatever the body's result.
unfoldable pub defer : Call → N (Unit {0}) → N (Unit {0})
defer call body past = let (result, after) = body past in (result, call ∷ after)

module _ (k : Kernel) where
  -- What withPIDHandle does after its test.
  unfoldable pub open_and_run : ℤ → N (Unit {0}) → N (Unit {0})
  open_and_run pid body = do
    perform_on k "open netns" "" (get_namespace pid)
    defer (close_namespace pid)
        (do perform_on k "create netlink handle" "" (new_handle pid); defer (close_handle pid) body)

  unfoldable pub with_pid_handle : ℤ → N (Unit {0}) → N (Unit {0})
  with_pid_handle pid body =
      if is_non_positive pid then raise (invalid_pid pid) else open_and_run pid body

  unfoldable pub configure_attached_link : ℤ → String → LinkMember → ℤ → N (Unit {0})
  configure_attached_link pid temp_if_name member mtu = with_pid_handle pid (
      configure_link k temp_if_name (record {
        rename_to = member.if_name;
        master = "";
        mac = member.mac;
        addr_gen_mode = "";
        addresses = non_empty_strings (member.ipv4 ∷ []);
        mtu = mtu;
        up = true;
      }))

  unfoldable pub configure_loopback : ℤ → List String → N (Unit {0})
  configure_loopback pid addresses = with_pid_handle pid (do
    link ← lookup_link k "lo"
    perform_on k "bring loopback up" "lo" (link_set_up link)
    each (configure_address k "configure loopback address" link "lo") addresses)

  unfoldable pub configure_vrf : ℤ → Vrf → N (Unit {0})
  configure_vrf pid vrf = with_pid_handle pid (do
    perform_on k "create vrf" vrf.name (link_add (new_vrf vrf.name (to_uint32 vrf.table)))
    configure_link k vrf.name (record no_config { up = true }))

  -- The round of ConfigureBond's loop: a member joins while it is down.
  unfoldable pub join_bond : String → String → N (Unit {0})
  join_bond bond_name iface = do
    set_link_up k iface false
    attach_link_master k iface bond_name
    set_link_up k iface true

  unfoldable pub configure_bond : ℤ → Bond → N (Unit {0})
  configure_bond pid bond = with_pid_handle pid (do
    perform_on k "create bond" bond.name (link_add (new_bond bond.name bond.mode))
    configure_link k bond.name (record no_config {
      mac = bond.mac;
      addr_gen_mode = bond.addr_gen_mode;
      addresses = bond.addresses;
    })
    each (join_bond bond.name) bond.interfaces
    set_link_up k bond.name true)

  -- The round of ConfigureBridge's loop over its interfaces.
  unfoldable pub join_bridge : String → String → N (Unit {0})
  join_bridge bridge_name iface = do
    attach_link_master k iface bridge_name
    set_link_up k iface true

  unfoldable pub configure_bridge : ℤ → Bridge → N (Unit {0})
  configure_bridge pid bridge = with_pid_handle pid (do
    perform_on k "create bridge" bridge.name (link_add (new_bridge bridge.name none))
    configure_link k bridge.name (record {
      rename_to = "";
      master = bridge.master;
      mac = bridge.mac;
      addr_gen_mode = bridge.addr_gen_mode;
      addresses = bridge.addresses;
      mtu = pos 0;
      up = true;
    })
    each (join_bridge bridge.name) bridge.interfaces
    each (configure_vxlan k bridge.name) bridge.vxlans)

  unfoldable pub attach_link_master_in : ℤ → String → String → N (Unit {0})
  attach_link_master_in pid if_name master =
      with_pid_handle pid (attach_link_master k if_name master)

  unfoldable pub configure_interface : ℤ → Interface → N (Unit {0})
  configure_interface pid iface = with_pid_handle pid (
      configure_link k iface.name (record {
        rename_to = "";
        master = iface.master;
        mac = iface.mac;
        addr_gen_mode = iface.addr_gen_mode;
        addresses = iface.addresses;
        mtu = pos 0;
        up = true;
      }))

  unfoldable pub configure_veth : ℤ → Veth → N (Unit {0})
  configure_veth pid veth = with_pid_handle pid (do
    within (during "create veth pair" veth.name) (add_veth k veth.name veth.peer (pos 0))
    configure_link k veth.name (record {
      rename_to = "";
      master = veth.master;
      mac = veth.mac;
      addr_gen_mode = veth.addr_gen_mode;
      addresses = veth.addresses;
      mtu = pos 0;
      up = true;
    }))

  unfoldable pub configure_bridge_namespace_veth : ℤ → String → String → String → N (Unit {0})
  configure_bridge_namespace_veth pid bridge_name host_veth peer_veth = with_pid_handle pid (do
    within (during "create namespace veth pair" host_veth) (add_veth k host_veth peer_veth (pos 0))
    configure_link k host_veth (record no_config { master = bridge_name; up = true }))

  unfoldable pub configure_route : ℤ → Route → N (Unit {0})
  configure_route pid route = with_pid_handle pid (do
    netlink_route ← build_route k route
    perform_on k "configure route" route.to (route_replace netlink_route))
