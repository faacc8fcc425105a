-- ===== src/Netlink/Links.antt =====
-- What internal/netlink/netlink.go does to one link of a namespace, through a handle.
use frridge.Base.{
  ℕ, String, Bool, true, false, not, ◌&&◌, Option, none, some, List, [], ◌∷◌, Result, ok, err, ◌==◌,
  if◌then◌else◌,
}
use frridge.Base.Int.{ℤ, pos, exceeds, is_zero}
use frridge.Base.Text.{trim_space, is_blank}
use frridge.Base.Program.{◌>>=◌, ◌>>◌, pure, raise, lift, within, each}
use frridge.Base.Program.Calls.{perform}
use frridge.Config.Topology.{Vxlan, Route}
use frridge.Netlink.Kernel.{
  Kernel, N, Device, NewRoute, NetlinkError, during, lookup_link, perform_on, to_uint32, link_add,
  link_set_up, link_set_down, link_set_mtu, link_set_name, link_set_hardware_addr, link_set_master,
  link_set_addr_gen_mode, link_set_neigh_suppress, link_set_learning, addr_replace, new_veth,
  new_vxlan, unsupported_addr_gen_mode, invalid_mac, invalid_ip, invalid_address,
  invalid_destination,
}

pub record LinkConfig : Type 0 where
  pub rename_to : String
  pub master : String
  pub mac : String
  pub addr_gen_mode : String
  pub addresses : List String
  pub mtu : ℤ
  pub up : Bool

-- The zero value.
abbrev pub no_config : LinkConfig
no_config = record {
  rename_to = "";
  master = "";
  mac = "";
  addr_gen_mode = "";
  addresses = [];
  mtu = pos 0;
  up = false;
}

unfoldable pub parse_addr_gen_mode : String → Result NetlinkError ℕ
parse_addr_gen_mode mode =
    let trimmed = trim_space mode in
    if trimmed == "eui64"
    then ok 0
    else if trimmed == "none"
    then ok 1
    else if trimmed == "stable_secret"
    then ok 2
    else if trimmed == "random"
    then ok 3
    else err (unsupported_addr_gen_mode mode)

unfoldable pub default_vxlan_dst_port : ℤ → ℤ
default_vxlan_dst_port port = if is_zero port then pos 4789 else port

unfoldable pub non_empty_strings : List String → List String
non_empty_strings [] = []
non_empty_strings (value ∷ values) =
    let filtered = non_empty_strings values in if is_blank value then filtered else value ∷ filtered

-- `if c { … }`
unfoldable pub when : Bool → N (Unit {0}) → N (Unit {0})
when true body = body
when false body = pure tt

-- `if !valid { return nil, err }`
unfoldable pub require : Bool → NetlinkError → N (Unit {0})
require true e = pure tt
require false e = raise e

unfoldable pub set_option : (Bool → N (Unit {0})) → Option Bool → N (Unit {0})
set_option set none = pure tt
set_option set (some value) = set value

unfoldable pub is_unset : Option Bool → Bool
is_unset none = true
is_unset (some _) = false

module _ (k : Kernel) where
  unfoldable pub set_link_up : String → Bool → N (Unit {0})
  set_link_up if_name up = do
    link ← lookup_link k if_name
    if up
        then perform_on k "bring link up" if_name (link_set_up link)
        else perform_on k "bring link down" if_name (link_set_down link)

  -- AttachLinkMaster's look-ups and its call, with a master whose name is trimmed.
  unfoldable pub set_master : String → String → N (Unit {0})
  set_master if_name master = do
    link ← lookup_link k if_name
    master_link ← lookup_link k master
    perform_on k "attach link to master" if_name (link_set_master link master_link)

  unfoldable pub attach_link_master : String → String → N (Unit {0})
  attach_link_master if_name master =
      let trimmed = trim_space master in when (not (trimmed == "")) (set_master if_name trimmed)

  unfoldable pub configure_address : String → Device → String → String → N (Unit {0})
  configure_address what link name address = do
    require (k.is_address address) (during "parse address" address (invalid_address address))
    perform_on k what name (addr_replace link address)

  -- The rename, and the link and its name after it.
  unfoldable pub rename_link : Device → String → String → N (Device × String)
  rename_link link current_name rename_to =
      let trimmed = trim_space rename_to in
      if not (trimmed == "") && not (trimmed == current_name)
      then (do
        perform_on k "rename link" current_name (link_set_name link trimmed)
        renamed ← lookup_link k trimmed
        pure (renamed, trimmed))
      else pure (link, current_name)

  unfoldable pub set_addr_gen_mode : Device → String → String → N (Unit {0})
  set_addr_gen_mode link name mode =
      let trimmed = trim_space mode in
      when (not (trimmed == "")) (do
        number ← within (during "set link addrgenmode" name) (lift (parse_addr_gen_mode trimmed))
        perform_on k "set link addrgenmode" name (link_set_addr_gen_mode link number))

  unfoldable pub set_mac : Device → String → String → N (Unit {0})
  set_mac link name mac =
      let trimmed = trim_space mac in
      when (not (trimmed == "")) (do
        require (k.is_mac trimmed) (invalid_mac trimmed)
        perform_on k "set link mac" name (link_set_hardware_addr link trimmed))

  unfoldable pub configure_link : String → LinkConfig → N (Unit {0})
  configure_link current_name cfg = do
    original ← lookup_link k current_name
    (link, name) ← rename_link original current_name cfg.rename_to
    when (exceeds cfg.mtu 0) (perform_on k "set link mtu" name (link_set_mtu link cfg.mtu))
    attach_link_master name cfg.master
    set_addr_gen_mode link name cfg.addr_gen_mode
    set_mac link name cfg.mac
    each (configure_address "configure address" link name) cfg.addresses
    when cfg.up (perform_on k "bring link up" name (link_set_up link))

  -- `addVeth` on the host and on a handle: the kernel answers both.
  unfoldable pub add_veth : String → String → ℤ → N (Unit {0})
  add_veth name peer mtu = perform k.answered (
      link_add (
        if exceeds mtu 0
        then new_veth name peer (some mtu) (some (to_uint32 mtu))
        else new_veth name peer none none))

  unfoldable pub configure_bridge_slave : Vxlan → N (Unit {0})
  configure_bridge_slave vxlan =
      let slave = vxlan.bridge_slave in
      if is_unset slave.neigh_suppress && is_unset slave.learning then pure tt else (do
        link ← lookup_link k vxlan.name
        set_option
            (λ b.
              perform_on k "set vxlan neigh_suppress" vxlan.name (link_set_neigh_suppress link b))
            slave.neigh_suppress
        set_option
            (λ b. perform_on k "set vxlan bridge learning" vxlan.name (link_set_learning link b))
            slave.learning)

  -- The address of the local end, when it is set.
  unfoldable pub source_address : Vxlan → N (Option String)
  source_address vxlan = if is_blank vxlan.local then pure none else (do
    require (k.is_ip vxlan.local)
        (during "configure vxlan local" vxlan.name (invalid_ip vxlan.local))
    pure (some vxlan.local))

  unfoldable pub configure_vxlan : String → Vxlan → N (Unit {0})
  configure_vxlan bridge_name vxlan = do
    local ← source_address vxlan
    perform_on k "create vxlan" vxlan.name (
        link_add (
          new_vxlan vxlan.name vxlan.vni (not vxlan.no_learning)
            (default_vxlan_dst_port vxlan.dst_port) local))
    configure_link vxlan.name
        (record no_config { master = bridge_name; addr_gen_mode = vxlan.addr_gen_mode })
    configure_bridge_slave vxlan
    set_link_up vxlan.name true

  unfoldable pub route_gateway : Route → N (Option String)
  route_gateway route =
      let via = trim_space route.via in
      if via == "" then pure none else (do
        require (k.is_ip via) (during "parse route via" via (invalid_ip via))
        pure (some via))

  unfoldable pub route_index : Route → N (Option ℤ)
  route_index route =
      let dev = trim_space route.dev in
      if dev == "" then pure none else (do link ← lookup_link k dev; pure (some link.index))

  unfoldable pub build_route : Route → N NewRoute
  build_route route = do
    require (k.is_cidr route.to)
        (during "parse route destination" route.to (invalid_destination route.to))
    gateway ← route_gateway route
    link_index ← route_index route
    pure (record { destination = route.to; gateway = gateway; link_index = link_index })
