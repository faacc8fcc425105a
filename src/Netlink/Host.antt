-- ===== src/Netlink/Host.antt =====
-- The methods of internal/netlink/netlink.go that work on the host's own links.
use frridge.Base.{String, true, not, ◌&&◌, none, some, if◌then◌else◌}
use frridge.Base.Int.{ℤ, pos, exceeds, int_eq}
use frridge.Base.Program.{◌>>=◌, ◌>>◌, pure, raise}
use frridge.Netlink.Kernel.{
  Kernel, N, Device, Lookup, found, link_not_found, lookup_fault, during, outside, not_a_bridge,
  query_link, lookup_link, perform_on, link_add, link_del, link_set_up, link_set_mtu,
  link_set_master, link_set_ns_pid, new_bridge,
}
use frridge.Netlink.Links.{when, require, add_veth}

-- The bridge that EnsureBridge fills in before it adds it; the kernel chooses the index.
unfoldable pub bridge_to_add : String → ℤ → Device
bridge_to_add name mtu = record {
  name = name;
  index = pos 0;
  mtu = if exceeds mtu 0 then mtu else pos 0;
  is_bridge = true;
}

module _ (k : Kernel) where
  -- The link that the look-up found, or the bridge that is created when there is none.
  unfoldable pub bridge_of : String → ℤ → Lookup → N Device
  bridge_of name mtu (found link) = pure link
  bridge_of name mtu (lookup_fault e) = raise (during "lookup bridge" name (outside e))
  bridge_of name mtu link_not_found = do
    perform_on k "create bridge" name
        (link_add (new_bridge name (if exceeds mtu 0 then some mtu else none)))
    pure (bridge_to_add name mtu)

  unfoldable pub ensure_bridge : String → ℤ → N (Unit {0})
  ensure_bridge name mtu = do
    answer ← query_link k name
    link ← bridge_of name mtu answer
    when (exceeds mtu 0 && not (int_eq link.mtu mtu))
        (perform_on k "set bridge mtu" name (link_set_mtu link mtu))
    perform_on k "bring bridge up" name (link_set_up link)

  unfoldable pub create_bridge_attachment : String → String → String → ℤ → ℤ → N (Unit {0})
  create_bridge_attachment bridge_name host_if_name peer_if_name peer_pid mtu = do
    add_veth k host_if_name peer_if_name mtu
    host_link ← lookup_link k host_if_name
    peer_link ← lookup_link k peer_if_name
    bridge ← lookup_link k bridge_name
    require bridge.is_bridge (not_a_bridge bridge_name)
    perform_on k "attach to bridge" host_if_name (link_set_master host_link bridge)
    perform_on k "bring host veth up" host_if_name (link_set_up host_link)
    perform_on k "move to pid" peer_if_name (link_set_ns_pid peer_link peer_pid)

  unfoldable pub create_p2p_attachment : String → ℤ → String → ℤ → ℤ → N (Unit {0})
  create_p2p_attachment a_if_name a_pid b_if_name b_pid mtu = do
    add_veth k a_if_name b_if_name mtu
    a_link ← lookup_link k a_if_name
    b_link ← lookup_link k b_if_name
    perform_on k "move to pid" a_if_name (link_set_ns_pid a_link a_pid)
    perform_on k "move to pid" b_if_name (link_set_ns_pid b_link b_pid)

  unfoldable pub delete_found : String → Lookup → N (Unit {0})
  delete_found name (found link) = perform_on k "delete link" name (link_del link)
  delete_found name link_not_found = pure tt
  delete_found name (lookup_fault e) = raise (during "lookup link" name (outside e))

  unfoldable pub delete_link : String → N (Unit {0})
  delete_link name = do answer ← query_link k name; delete_found name answer
