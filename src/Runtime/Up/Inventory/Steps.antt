-- ===== src/Runtime/Up/Inventory/Steps.antt =====
-- The steps of internal/runtime/runtime.go after the routers are created, and the snapshot.
use frridge.Base.{
  String, Bool, true, false, List, [], ◌∷◌, ◌≡◌, refl, inl, inr, Option, none, some, ◌==◌,
  if◌then◌else◌, Bool-cases, arith, eq_refl,
}
use frridge.Base.Int.{ℤ}
use frridge.Base.Dict.{lookup, lookup-insert}
use frridge.Config.Topology.{
  Topology, Link, LinkMember, ResolvedRouter, Namespace, Vrf, Bond, Bridge, Interface, Veth, Route,
}
use frridge.State.{ContainerState}
use frridge.Runtime.Names.{bridge_link_name}
use frridge.Runtime.Host.{
  World, M, Call, perform, ◌>>=◌, get_snapshot, put_snapshot, as_result, index_out_of_range,
}
use frridge.Runtime.Host.Trace.{
  Keeps, bind-Keeps, within-Keeps, pure-Keeps, raise-Keeps, each-Keeps, continue-Keeps,
}
use frridge.Runtime.Env.{Env}
use frridge.Runtime.Links.{
  own_bridge, attach_member, configure_bridge_link, configure_p2p_link, configure_link, entries,
  configure_links, configure_loopback, configure_loopbacks,
}
use frridge.Runtime.Dataplane.{
  run_exec, run_if_given, configure_namespace_peer, configure_linux_namespace, configure_vrf,
  configure_bond, configure_bridge, attach_bond, configure_interface, move_peer, configure_veth,
  configure_route, configure_router_linux, configure_linux,
}
use frridge.Runtime.Up.Inventory.{
  IsInventoried, perform-IsInventoried, invoke-IsInventoried, get_snapshot-IsInventoried, owned,
  owned-Extends, CoversAll-Extends,
}

pub ruleset keeps_rules = (
  bind-Keeps, within-Keeps, pure-Keeps, raise-Keeps, each-Keeps, perform-IsInventoried,
  invoke-IsInventoried, get_snapshot-IsInventoried,
)

module _ (env : Env) (t : Topology) where
  abbrev pub Inv : World → Type 0
  Inv = IsInventoried env t.lab.name

  attach_member-Keeps :
      (bridge : String) (link : Link) (m : LinkMember)
      → Keeps Inv (attach_member env t bridge link m)
  unfolding attach_member
  attach_member-Keeps bridge link m = search keeps_rules

  configure_p2p_link-Keeps :
      (link : Link) (members : List LinkMember) → Keeps Inv (configure_p2p_link env t link members)
  unfolding configure_p2p_link
  configure_p2p_link-Keeps link [] = raise-Keeps Inv (Unit {0}) index_out_of_range
  configure_p2p_link-Keeps link (_ ∷ []) = raise-Keeps Inv (Unit {0}) index_out_of_range
  configure_p2p_link-Keeps link (left ∷ right ∷ _) = search keeps_rules

  -- The bridge is in the inventory before it is called for.
  configure_bridge_link-Keeps : (link : Link) → Keeps Inv (configure_bridge_link env t link)
  unfolding configure_bridge_link own_bridge get_snapshot put_snapshot ◌>>=◌ perform owned
  configure_bridge_link-Keeps link w p =
      let bridge = bridge_link_name env.hashing t.lab.name link.name in
      let s = owned env t.lab.name w.snapshot link.name in
      let q : Inv (record w { snapshot = s }) =
        CoversAll-Extends env t.lab.name w.snapshot s w.trace
          (owned-Extends env t.lab.name w.snapshot link.name) p in
      let w2 : World = record {
        trace = Call.ensure_bridge bridge link.mtu ∷ w.trace;
        snapshot = s;
      } in
      let has : lookup link.name (entries s.owned_bridges) ≡ some bridge = ground (
        arith,
        lookup-insert link.name link.name bridge (entries w.snapshot.owned_bridges),
        eq_refl link.name,
      ) in
      continue-Keeps Inv (as_result (env.host.perform w.trace (Call.ensure_bridge bridge link.mtu)))
        _
        (λ _.
          each-Keeps Inv (attach_member env t bridge link) (attach_member-Keeps bridge link)
            link.members)
        w2 ((link.name, refl, has), q)

  configure_link-Keeps : (link : Link) → Keeps Inv (configure_link env t link)
  unfolding configure_link
  configure_link-Keeps link = elim (Bool-cases (link.type == "bridge")) [
    | inl e ↦ rw e (configure_bridge_link-Keeps link)
    | inr n ↦ elim (Bool-cases (link.type == "p2p")) [
      | inl e ↦ rw n (rw e (configure_p2p_link-Keeps link link.members))
      | inr m ↦ rw n (rw m (pure-Keeps Inv tt))
    ]
  ]

  pub configure_links-Keeps : Keeps Inv (configure_links env t)
  unfolding configure_links
  configure_links-Keeps = search (each-Keeps, configure_link-Keeps)

  configure_loopback-Keeps :
      (router : String × ResolvedRouter) → Keeps Inv (configure_loopback env router)
  unfolding configure_loopback
  configure_loopback-Keeps (name, router) = search keeps_rules

  pub configure_loopbacks-Keeps :
      (routers : List (String × ResolvedRouter)) → Keeps Inv (configure_loopbacks env routers)
  unfolding configure_loopbacks
  configure_loopbacks-Keeps routers = search (each-Keeps, configure_loopback-Keeps)

  pub if-Keeps :
      (b : Bool) {A : Type 0} (m n : M A)
      → Keeps Inv m
      → Keeps Inv n
      → Keeps Inv (if b then m else n)
  if-Keeps true m n k l = k
  if-Keeps false m n k l = l

  pub ruleset inv_rules = (keeps_rules, if-Keeps)

  run_exec-Keeps :
      (id : String) (command : List String) (operation : String)
      → Keeps Inv (run_exec env id command operation)
  unfolding run_exec
  run_exec-Keeps id command operation = search inv_rules

  run_if_given-Keeps :
      (value id : String) (command : List String) (operation : String)
      → Keeps Inv (run_if_given env value id command operation)
  unfolding run_if_given
  run_if_given-Keeps value id command operation = search (inv_rules, run_exec-Keeps)

  ruleset exec_rules = (inv_rules, run_exec-Keeps, run_if_given-Keeps)

  namespace_peer-Keeps :
      (id peer : String) (n : Namespace) → Keeps Inv (configure_namespace_peer env id peer n)
  unfolding configure_namespace_peer
  namespace_peer-Keeps id peer n = search exec_rules depth 20

  linux_namespace-Keeps :
      (id : String) (pid : ℤ) (bridge : String) (n : Namespace)
      → Keeps Inv (configure_linux_namespace env id pid bridge n)
  unfolding configure_linux_namespace
  linux_namespace-Keeps id pid bridge n = search (inv_rules, namespace_peer-Keeps)

  module _ (c : ContainerState) where
    configure_vrf-Keeps : (vrf : Vrf) → Keeps Inv (configure_vrf env c vrf)
    unfolding configure_vrf
    configure_vrf-Keeps vrf = search inv_rules

    configure_bond-Keeps : (bond : Bond) → Keeps Inv (configure_bond env c bond)
    unfolding configure_bond
    configure_bond-Keeps bond = search inv_rules

    configure_bridge-Keeps : (bridge : Bridge) → Keeps Inv (configure_bridge env c bridge)
    unfolding configure_bridge
    configure_bridge-Keeps bridge = search (inv_rules, linux_namespace-Keeps)

    attach_bond-Keeps : (bond : Bond) → Keeps Inv (attach_bond env c bond)
    unfolding attach_bond
    attach_bond-Keeps bond = search inv_rules

    configure_interface-Keeps : (i : Interface) → Keeps Inv (configure_interface env c i)
    unfolding configure_interface
    configure_interface-Keeps i = search inv_rules

    move_peer-Keeps : (veth : Veth) (n : Option Namespace) → Keeps Inv (move_peer env c veth n)
    unfolding move_peer
    move_peer-Keeps veth none = search inv_rules
    move_peer-Keeps veth (some n) = search (inv_rules, namespace_peer-Keeps)

    configure_veth-Keeps : (veth : Veth) → Keeps Inv (configure_veth env c veth)
    unfolding configure_veth
    configure_veth-Keeps veth = search (inv_rules, move_peer-Keeps)

    configure_route-Keeps : (route : Route) → Keeps Inv (configure_route env c route)
    unfolding configure_route
    configure_route-Keeps route = search inv_rules

  ruleset device_rules = (
    inv_rules, configure_vrf-Keeps, configure_bond-Keeps, configure_bridge-Keeps, attach_bond-Keeps,
    configure_interface-Keeps, configure_veth-Keeps, configure_route-Keeps,
  )

  router_linux-Keeps :
      (router : String × ResolvedRouter) → Keeps Inv (configure_router_linux env router)
  unfolding configure_router_linux
  router_linux-Keeps (name, router) = search device_rules depth 20

  pub configure_linux-Keeps :
      (routers : List (String × ResolvedRouter)) → Keeps Inv (configure_linux env routers)
  unfolding configure_linux
  configure_linux-Keeps routers = search (each-Keeps, router_linux-Keeps)
