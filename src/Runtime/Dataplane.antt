-- ===== src/Runtime/Dataplane.antt =====
-- `configureLinux` and the namespace helpers of internal/runtime/runtime.go.
use frridge.Base.{String, ◌==◌, Option, none, some, List, [], ◌∷◌, if◌then◌else◌}
use frridge.Base.Int.{ℤ, is_zero}
use frridge.Base.Text.{trim_space, is_blank}
use frridge.Config.Topology.{ResolvedRouter, Vrf, Bond, Bridge, Interface, Veth, Route, Namespace}
use frridge.State.{ContainerState}
use frridge.Runtime.Names.{namespace_host_veth_name, namespace_peer_veth_name}
use frridge.Runtime.Host.{
  M, Call, ◌>>=◌, ◌>>◌, pure, raise, perform, within, invoke, each, get_snapshot, in_router,
  in_step, command_failed, ExecResult,
}
use frridge.Runtime.Env.{Env}
use frridge.Runtime.Links.{container_of}

abbrev pub exec_message : ExecResult → String
exec_message result =
    let message = trim_space result.stderr in
    if message == "" then trim_space result.stdout else message

abbrev pub check_exit : String → ExecResult → M (Unit {0})
check_exit operation result =
    if is_zero result.exit_code
    then pure tt
    else raise (command_failed operation result.exit_code (exec_message result))

abbrev pub in_namespace : String → List String → List String
in_namespace name command = "ip" ∷ "netns" ∷ "exec" ∷ name ∷ command

module _ (env : Env) where
  unfoldable pub run_exec : String → List String → String → M (Unit {0})
  run_exec id command operation = do
    result ←
        within (in_step operation)
          (invoke (Call.exec id command) (λ past. env.host.executed past id command))
    check_exit operation result

  -- The steps that are taken only if a text is given.
  unfoldable pub run_if_given : String → String → List String → String → M (Unit {0})
  run_if_given value id command operation =
      if value == "" then pure tt else run_exec id command operation

  unfoldable pub configure_namespace_peer : String → String → Namespace → M (Unit {0})
  configure_namespace_peer id peer n = do
    run_exec id ("ip" ∷ "netns" ∷ "add" ∷ n.name ∷ []) "create namespace"
    run_exec id ("ip" ∷ "link" ∷ "set" ∷ "dev" ∷ peer ∷ "netns" ∷ n.name ∷ []) "move namespace veth"
    run_exec id (in_namespace n.name ("ip" ∷ "link" ∷ "set" ∷ "dev" ∷ "lo" ∷ "up" ∷ []))
        "bring namespace loopback up"
    run_exec id
        (in_namespace n.name ("ip" ∷ "link" ∷ "set" ∷ "dev" ∷ peer ∷ "name" ∷ n.if_name ∷ []))
        "rename namespace interface"
    run_if_given n.mac id
        (in_namespace n.name ("ip" ∷ "link" ∷ "set" ∷ "dev" ∷ n.if_name ∷ "address" ∷ n.mac ∷ []))
        "set namespace interface mac"
    each
        (λ address.
          run_exec id
            (in_namespace n.name ("ip" ∷ "addr" ∷ "replace" ∷ address ∷ "dev" ∷ n.if_name ∷ []))
            "configure namespace address")
        n.addresses
    run_exec id (in_namespace n.name ("ip" ∷ "link" ∷ "set" ∷ "dev" ∷ n.if_name ∷ "up" ∷ []))
        "bring namespace interface up"
    run_if_given n.default_via id
        (in_namespace n.name ("ip" ∷ "route" ∷ "replace" ∷ "default" ∷ "via" ∷ n.default_via ∷ []))
        "configure namespace default route"

  unfoldable pub configure_linux_namespace : String → ℤ → String → Namespace → M (Unit {0})
  configure_linux_namespace id pid bridge n = do
    let host_veth = namespace_host_veth_name env.hashing bridge n.name
    let peer_veth = namespace_peer_veth_name env.hashing bridge n.name
    perform env.host (Call.configure_bridge_namespace_veth pid bridge host_veth peer_veth)
    configure_namespace_peer id peer_veth n

  module _ (c : ContainerState) where
    unfoldable pub configure_vrf : Vrf → M (Unit {0})
    configure_vrf vrf = within (in_step vrf.name) (perform env.host (Call.configure_vrf c.pid vrf))

    unfoldable pub configure_bond : Bond → M (Unit {0})
    configure_bond bond =
        within (in_step bond.name) (perform env.host (Call.configure_bond c.pid bond))

    unfoldable pub configure_bridge : Bridge → M (Unit {0})
    configure_bridge bridge = do
      within (in_step bridge.name) (perform env.host (Call.configure_bridge c.pid bridge))
      each
          (λ n.
            within (in_step bridge.name)
              (within (in_step n.name) (configure_linux_namespace c.id c.pid bridge.name n)))
          bridge.namespaces

    unfoldable pub attach_bond : Bond → M (Unit {0})
    attach_bond bond =
        if is_blank bond.master
        then pure tt
        else within (in_step bond.name)
            (perform env.host (Call.attach_link_master c.pid bond.name bond.master))

    unfoldable pub configure_interface : Interface → M (Unit {0})
    configure_interface iface =
        within (in_step iface.name) (perform env.host (Call.configure_interface c.pid iface))

    unfoldable pub move_peer : Veth → Option Namespace → M (Unit {0})
    move_peer veth none = pure tt
    move_peer veth (some n) =
        within (in_step veth.name)
          (within (in_step n.name) (configure_namespace_peer c.id veth.peer n))

    unfoldable pub configure_veth : Veth → M (Unit {0})
    configure_veth veth = do
      within (in_step veth.name) (perform env.host (Call.configure_veth c.pid veth))
      move_peer veth veth.namespace

    unfoldable pub configure_route : Route → M (Unit {0})
    configure_route route =
        within (in_step route.to) (perform env.host (Call.configure_route c.pid route))

  unfoldable pub configure_router_linux : String × ResolvedRouter → M (Unit {0})
  configure_router_linux (name, router) = do
    s ← get_snapshot
    let c = container_of s name
    within (in_router name) (do
      each (configure_vrf c) router.linux.vrfs
      each (configure_bond c) router.linux.bonds
      each (configure_bridge c) router.linux.bridges
      each (attach_bond c) router.linux.bonds
      each (configure_interface c) router.linux.interfaces
      each (configure_veth c) router.linux.veths
      each (configure_route c) router.linux.routes)

  unfoldable pub configure_linux : List (String × ResolvedRouter) → M (Unit {0})
  configure_linux routers = each configure_router_linux routers
