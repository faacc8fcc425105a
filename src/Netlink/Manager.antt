-- ===== src/Netlink/Manager.antt =====
-- `manager` of internal/netlink/netlink.go as what internal/runtime/runtime.go calls: each call of the
-- runtime that is a method of netlink.Manager, and the method that answers it.
use frridge.Base.{Option, none, some}
use frridge.Netlink.Kernel.{Kernel, N}
use frridge.Netlink.Host.{
  ensure_bridge, create_bridge_attachment, create_p2p_attachment, delete_link,
}
use frridge.Netlink.Guest.{
  configure_attached_link, configure_loopback, configure_vrf, configure_bond, configure_bridge,
  attach_link_master_in, configure_interface, configure_veth, configure_bridge_namespace_veth,
  configure_route,
}
use frridge.Runtime.Host as Runtime
use frridge.Runtime.Host.{Call}

-- None for the calls of the other packages.
unfoldable pub manager_method : Kernel → Call → Option (N (Unit {0}))
manager_method k (Runtime.ensure_bridge name mtu) = some (ensure_bridge k name mtu)
manager_method k (Runtime.create_bridge_attachment bridge host peer pid mtu) =
    some (create_bridge_attachment k bridge host peer pid mtu)
manager_method k (Runtime.create_p2p_attachment a a_pid b b_pid mtu) =
    some (create_p2p_attachment k a a_pid b b_pid mtu)
manager_method k (Runtime.configure_attached_link pid temp member mtu) =
    some (configure_attached_link k pid temp member mtu)
manager_method k (Runtime.configure_loopback pid addresses) =
    some (configure_loopback k pid addresses)
manager_method k (Runtime.configure_vrf pid vrf) = some (configure_vrf k pid vrf)
manager_method k (Runtime.configure_bond pid bond) = some (configure_bond k pid bond)
manager_method k (Runtime.configure_bridge pid bridge) = some (configure_bridge k pid bridge)
manager_method k (Runtime.attach_link_master pid if_name master) =
    some (attach_link_master_in k pid if_name master)
manager_method k (Runtime.configure_interface pid iface) = some (configure_interface k pid iface)
manager_method k (Runtime.configure_veth pid veth) = some (configure_veth k pid veth)
manager_method k (Runtime.configure_bridge_namespace_veth pid bridge host peer) =
    some (configure_bridge_namespace_veth k pid bridge host peer)
manager_method k (Runtime.configure_route pid route) = some (configure_route k pid route)
manager_method k (Runtime.delete_link name) = some (delete_link k name)
manager_method k _ = none
