-- ===== src/Netlink/Stable.antt =====
-- What the methods of internal/netlink/netlink.go do to a predicate on the record of calls, when
-- calls on links, addresses and routes leave the predicate alone.
use frridge.Base.{
  ◌≡◌, refl, String, Bool, true, false, Option, none, some, List, ◌∷◌, Result, if◌then◌else◌,
}
use frridge.Base.Int.{ℤ}
use frridge.Base.Program.{
  Keeps, Program, within, ◌>>=◌, pure, raise, lift, sequence-Keeps, pure-Keeps, raise-Keeps,
  within-Keeps, each-Keeps,
}
use frridge.Base.Program.Calls.{perform, invoke, ask}
use frridge.Config.Topology.{Vxlan, Route}
use frridge.Netlink.Kernel.{
  Kernel, Call, History, NetlinkError, N, Device, get_namespace, new_handle, close_namespace,
  close_handle, lookup_link, query_link, perform_on,
}
use frridge.Netlink.Links.{
  LinkConfig, when, require, set_link_up, attach_link_master, set_master, configure_address,
  rename_link, set_addr_gen_mode, set_mac, configure_link, add_veth, set_option,
  configure_bridge_slave, source_address, configure_vxlan, route_gateway, route_index, build_route,
}
use frridge.Netlink.Guest.{join_bond, join_bridge}

-- The calls that open and close a namespace or a handle in it.
unfoldable pub is_handle_call : Call → Bool
is_handle_call (get_namespace _) = true
is_handle_call (new_handle _) = true
is_handle_call (close_namespace _) = true
is_handle_call (close_handle _) = true
is_handle_call _ = false

pub record IsStable (P : History → Type 0) : Type 0 where
  pub keeps_call :
      (call : Call) → is_handle_call call ≡ false → (past : History) → P past → P (call ∷ past)

pub when-Keeps :
    (P : History → Type 0) (c : Bool) (m : N (Unit {0})) → Keeps P m → Keeps P (when c m)
unfolding when
when-Keeps P true m keeps = keeps
when-Keeps P false m keeps = pure-Keeps P NetlinkError tt

pub require-Keeps : (P : History → Type 0) (c : Bool) (e : NetlinkError) → Keeps P (require c e)
unfolding require
require-Keeps P true e = pure-Keeps P NetlinkError tt
require-Keeps P false e = raise-Keeps P Unit e

pub if-Keeps :
    (P : History → Type 0) {A : Type 0} (c : Bool) (m n : N A)
    → Keeps P m
    → Keeps P n
    → Keeps P (if c then m else n)
if-Keeps P true m n first second = first
if-Keeps P false m n first second = second

pub set_option-Keeps :
    (P : History → Type 0) (set : Bool → N (Unit {0})) (value : Option Bool)
    → ((b : Bool) → Keeps P (set b))
    → Keeps P (set_option set value)
unfolding set_option
set_option-Keeps P set none keeps = pure-Keeps P NetlinkError tt
set_option-Keeps P set (some b) keeps = keeps b

pub lift-Keeps : (P : History → Type 0) {A : Type 0} (r : Result NetlinkError A) → Keeps P (lift r)
unfolding lift
lift-Keeps P r s p = p

module _ (k : Kernel) (P : History → Type 0) (stable : IsStable P) where
  pub lookup_link-Keeps : (name : String) → Keeps P (lookup_link k name)
  unfolding lookup_link within invoke is_handle_call
  lookup_link-Keeps name past p = stable.keeps_call (Call.link_by_name name) refl past p

  pub query_link-Keeps : (name : String) → Keeps P (query_link k name)
  unfolding query_link ask is_handle_call
  query_link-Keeps name past p = stable.keeps_call (Call.link_by_name name) refl past p

  pub perform-Keeps :
      (call : Call) → is_handle_call call ≡ false → Keeps P (perform k.answered call)
  unfolding perform
  perform-Keeps call h past p = stable.keeps_call call h past p

  pub perform_on-Keeps :
      (what name : String) (call : Call)
      → is_handle_call call ≡ false
      → Keeps P (perform_on k what name call)
  unfolding perform_on
  perform_on-Keeps what name call h =
      within-Keeps P _ (perform k.answered call) (perform-Keeps call h)

  pub ruleset link_rules = (
    sequence-Keeps, pure-Keeps, raise-Keeps, within-Keeps, each-Keeps, lookup_link-Keeps,
    query_link-Keeps, perform-Keeps, perform_on-Keeps, when-Keeps, require-Keeps, if-Keeps,
    set_option-Keeps, lift-Keeps, refl,
  )

  pub set_link_up-Keeps : (name : String) (up : Bool) → Keeps P (set_link_up k name up)
  unfolding set_link_up is_handle_call
  set_link_up-Keeps name up = search link_rules depth 20

  pub attach_link_master-Keeps : (name master : String) → Keeps P (attach_link_master k name master)
  unfolding attach_link_master set_master is_handle_call
  attach_link_master-Keeps name master = search link_rules depth 20

  pub configure_address-Keeps :
      (what : String) (link : Device) (name address : String)
      → Keeps P (configure_address k what link name address)
  unfolding configure_address is_handle_call
  configure_address-Keeps what link name address = search link_rules depth 20

  rename_link-Keeps : (link : Device) (name new : String) → Keeps P (rename_link k link name new)
  unfolding rename_link is_handle_call
  rename_link-Keeps link name new = search link_rules depth 20

  set_addr_gen_mode-Keeps :
      (link : Device) (name mode : String) → Keeps P (set_addr_gen_mode k link name mode)
  unfolding set_addr_gen_mode is_handle_call
  set_addr_gen_mode-Keeps link name mode = search link_rules depth 20

  set_mac-Keeps : (link : Device) (name mac : String) → Keeps P (set_mac k link name mac)
  unfolding set_mac is_handle_call
  set_mac-Keeps link name mac = search link_rules depth 20

  pub configure_link-Keeps :
      (name : String) (cfg : LinkConfig) → Keeps P (configure_link k name cfg)
  unfolding configure_link is_handle_call
  configure_link-Keeps name cfg =
      search
        (
          link_rules, rename_link-Keeps, attach_link_master-Keeps, set_addr_gen_mode-Keeps,
          set_mac-Keeps, configure_address-Keeps,
        )
        depth 20

  pub add_veth-Keeps : (name peer : String) (mtu : ℤ) → Keeps P (add_veth k name peer mtu)
  unfolding add_veth is_handle_call
  add_veth-Keeps name peer mtu = search link_rules depth 20

  configure_bridge_slave-Keeps : (x : Vxlan) → Keeps P (configure_bridge_slave k x)
  unfolding configure_bridge_slave is_handle_call
  configure_bridge_slave-Keeps x = search link_rules depth 20

  source_address-Keeps : (x : Vxlan) → Keeps P (source_address k x)
  unfolding source_address
  source_address-Keeps x = search link_rules depth 20

  pub configure_vxlan-Keeps : (bridge : String) (x : Vxlan) → Keeps P (configure_vxlan k bridge x)
  unfolding configure_vxlan is_handle_call
  configure_vxlan-Keeps bridge x =
      search
        (
          link_rules, source_address-Keeps, configure_link-Keeps, configure_bridge_slave-Keeps,
          set_link_up-Keeps,
        )
        depth 20

  route_gateway-Keeps : (route : Route) → Keeps P (route_gateway k route)
  unfolding route_gateway
  route_gateway-Keeps route = search link_rules depth 20

  route_index-Keeps : (route : Route) → Keeps P (route_index k route)
  unfolding route_index
  route_index-Keeps route = search link_rules depth 20

  pub build_route-Keeps : (route : Route) → Keeps P (build_route k route)
  unfolding build_route
  build_route-Keeps route = search (link_rules, route_gateway-Keeps, route_index-Keeps) depth 20

  pub join_bond-Keeps : (bond iface : String) → Keeps P (join_bond k bond iface)
  unfolding join_bond
  join_bond-Keeps bond iface =
      search (link_rules, set_link_up-Keeps, attach_link_master-Keeps) depth 20

  pub join_bridge-Keeps : (bridge iface : String) → Keeps P (join_bridge k bridge iface)
  unfolding join_bridge
  join_bridge-Keeps bridge iface =
      search (link_rules, set_link_up-Keeps, attach_link_master-Keeps) depth 20
