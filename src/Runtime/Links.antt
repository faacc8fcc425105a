-- ===== src/Runtime/Links.antt =====
-- `configureLinks` and `configureLoopbacks` of internal/runtime/runtime.go.
pub mod Laws
use frridge.Base.{String, ◌==◌, Option, none, some, List, [], ◌∷◌, if◌then◌else◌}
use frridge.Base.Int.{ℤ, pos}
use frridge.Base.Dict.{Dict, lookup, insert}
use frridge.Config.Topology.{Topology, Link, LinkMember, ResolvedRouter}
use frridge.State.{LabState, ContainerState}
use frridge.Runtime.Names.{bridge_link_name, bridge_port_name, bridge_peer_name, p2p_temp_name}
use frridge.Runtime.Host.{
  M, World, RuntimeError, Call, ◌>>=◌, ◌>>◌, pure, raise, perform, within, each, get_snapshot,
  put_snapshot, index_out_of_range, in_router,
}
use frridge.Runtime.Env.{Env}

-- What Go reads under a name that is not there.
abbrev pub zero_container : ContainerState
zero_container = record { id = ""; pid = pos 0; config_dir = "" }

abbrev pub or_zero : Option ContainerState → ContainerState
or_zero none = zero_container
or_zero (some c) = c

abbrev pub entries {ℓ} : {V : Type ℓ} → Option (Dict V) → Dict V
entries none = []
entries (some m) = m

unfoldable pub container_of : LabState → String → ContainerState
container_of s router = or_zero (lookup router (entries s.containers))

-- `snapshot.OwnedBridges[link.Name] = bridgeName`
unfoldable pub own_bridge : String → String → M (Unit {0})
own_bridge link bridge = do
  s ← get_snapshot
  put_snapshot (record s { owned_bridges = some (insert link bridge (entries s.owned_bridges)) })

module _ (env : Env) (t : Topology) where
  unfoldable pub attach_member : String → Link → LinkMember → M (Unit {0})
  attach_member bridge link member = do
    let host_if = bridge_port_name env.hashing t.lab.name link.name member.router member.if_name
    let peer_if = bridge_peer_name env.hashing t.lab.name link.name member.router member.if_name
    s ← get_snapshot
    let pid = (container_of s member.router).pid
    perform env.host (Call.create_bridge_attachment bridge host_if peer_if pid link.mtu)
    perform env.host (Call.configure_attached_link pid peer_if member link.mtu)

  unfoldable pub configure_bridge_link : Link → M (Unit {0})
  configure_bridge_link link = do
    let bridge = bridge_link_name env.hashing t.lab.name link.name
    own_bridge link.name bridge
    perform env.host (Call.ensure_bridge bridge link.mtu)
    each (attach_member bridge link) link.members

  unfoldable pub configure_p2p_link : Link → List LinkMember → M (Unit {0})
  configure_p2p_link link (left ∷ right ∷ _) = do
    s ← get_snapshot
    let left_temp = p2p_temp_name env.hashing t.lab.name link.name "a"
    let right_temp = p2p_temp_name env.hashing t.lab.name link.name "b"
    let left_pid = (container_of s left.router).pid
    let right_pid = (container_of s right.router).pid
    perform env.host (Call.create_p2p_attachment left_temp left_pid right_temp right_pid link.mtu)
    perform env.host (Call.configure_attached_link left_pid left_temp left link.mtu)
    perform env.host (Call.configure_attached_link right_pid right_temp right link.mtu)
  configure_p2p_link link _ = raise index_out_of_range

  unfoldable pub configure_link : Link → M (Unit {0})
  configure_link link =
      if link.type == "bridge"
      then configure_bridge_link link
      else if link.type == "p2p"
      then configure_p2p_link link link.members
      else pure tt

  unfoldable pub configure_links : M (Unit {0})
  configure_links = each configure_link t.links

-- The routers come as `(name, router)`, sorted by name.
module _ (env : Env) where
  unfoldable pub configure_loopback : String × ResolvedRouter → M (Unit {0})
  configure_loopback (name, router) = do
    s ← get_snapshot
    within (in_router name)
        (perform env.host (Call.configure_loopback (container_of s name).pid router.loopbacks))

  unfoldable pub configure_loopbacks : List (String × ResolvedRouter) → M (Unit {0})
  configure_loopbacks routers = each configure_loopback routers
