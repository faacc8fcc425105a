-- ===== src/Runtime/Cleanup.antt =====
-- `cleanupRuntime` of internal/runtime/runtime.go.
pub mod Laws
pub mod Grounds
use frridge.Base.{
  String, Bool, true, false, not, Option, none, some, List, [], ◌∷◌, ◌++◌, ◌==◌, if◌then◌else◌,
  contains, Result, ok, err, gather,
}
use frridge.Base.Dict.{Dict, values}
use frridge.Config.Topology.{Topology, Link, LinkMember}
use frridge.Config.Paths.{state_path, lab_dir}
use frridge.State.{LabState, ContainerState, Hashing, validate}
use frridge.Runtime.Host.{
  purge_failed, invalid_state, legacy_state, no_inventory, Host, World, M, Fault, RuntimeError,
  Call, ◌>>=◌, ◌>>◌, pure, raise, lift, invoke, perform, within, attempt_each, note_error, as_fault,
  continue,
}
use frridge.Runtime.Names.{bridge_port_name, bridge_peer_name, p2p_temp_name}
use frridge.Runtime.Env.{Env, StateRead, found, missing, failed, read_lab_state, lab_labels}

-- The identifiers as a set, in the order in which they come.
abbrev pub add_id : List String → String → List String
add_id ids id = if contains ids id then ids else ids ++ id ∷ []

unfoldable pub add_ids : List String → List String → List String
add_ids ids [] = ids
add_ids ids (id ∷ rest) = add_ids (add_id ids id) rest

abbrev pub ids_of : List ContainerState → List String
ids_of [] = []
ids_of (c ∷ cs) = c.id ∷ ids_of cs

unfoldable pub container_ids : Option (Dict ContainerState) → List String
container_ids none = []
container_ids (some containers) = add_ids [] (ids_of (values containers))

abbrev pub listed_ids : Result RuntimeError (List String) → List String
listed_ids (ok ids) = ids
listed_ids (err e) = []

module _ (h : Hashing) (lab : String) where
  unfoldable pub member_names : String → LinkMember → List String
  member_names link member =
      bridge_port_name h lab link member.router member.if_name
      ∷ bridge_peer_name h lab link member.router member.if_name
      ∷ []

  -- The host interfaces that a link may have left.
  unfoldable pub link_names : Link → List String
  link_names link =
      if link.type == "bridge"
      then gather (member_names link.name) link.members
      else if link.type == "p2p"
      then p2p_temp_name h lab link.name "a" ∷ p2p_temp_name h lab link.name "b" ∷ []
      else []

module _ (env : Env) (t : Topology) where
  unfoldable pub remove_container : String → M (Unit {0})
  remove_container id = perform env.host (Call.remove_container id)

  unfoldable pub delete_link : String → M (Unit {0})
  delete_link name = perform env.host (Call.delete_link name)

  unfoldable pub list_lab : M (List String)
  list_lab =
      invoke (Call.list_containers (lab_labels t)) (λ past. env.host.listed past (lab_labels t))

  -- What follows the loops: a failed cleanup keeps the state file.
  unfoldable pub finish : Bool → Option RuntimeError → M (Unit {0})
  finish purge (some e) = raise e
  finish purge none = do
    perform env.host (Call.remove_state (state_path env.override t))
    if purge
        then within purge_failed (perform env.host (Call.remove_all (lab_dir env.override t)))
        else pure tt

  -- The three loops, over containers, link interfaces and bridges, after the containers were listed.
  unfoldable pub remove_all_of :
      Bool → List String → List String → Result RuntimeError (List String) → M (Unit {0})
  remove_all_of purge ids bridges listed w =
      let (e1, w1) =
        attempt_each remove_container (note_error none listed) (add_ids ids (listed_ids listed))
          w in
      let (e2, w2) =
        attempt_each delete_link e1 (gather (link_names env.hashing t.lab.name) t.links) w1 in
      let (e3, w3) = attempt_each delete_link e2 bridges w2 in finish purge e3 w3

  unfoldable pub cleanup_recorded : Bool → List String → List String → M (Unit {0})
  cleanup_recorded purge ids bridges w =
      let (listed, w') = list_lab w in remove_all_of purge ids bridges listed w'

  -- A snapshot is at hand: the caller's, or the one read from the state file.
  unfoldable pub cleanup_known : Bool → LabState → M (Unit {0})
  cleanup_known purge s = elim (validate env.hashing s t.lab.name) [
    | err e ↦ raise (invalid_state e)
    | ok _ ↦ elim s.owned_bridges [
      | none ↦ raise legacy_state
      | some bridges ↦ cleanup_recorded purge (container_ids s.containers) (values bridges)
    ]
  ]

  -- There is no snapshot: containers of the lab must not be there either.
  unfoldable pub refuse_containers : Bool → List String → M (Unit {0})
  refuse_containers purge [] = finish purge none
  refuse_containers purge (id ∷ ids) = raise no_inventory

  unfoldable pub cleanup_unknown : Bool → M (Unit {0})
  cleanup_unknown purge = do ids ← list_lab; refuse_containers purge ids

  unfoldable pub cleanup_read : Bool → StateRead → M (Unit {0})
  cleanup_read purge (found s) = cleanup_known purge s
  cleanup_read purge missing = cleanup_unknown purge
  cleanup_read purge (failed e) = raise e

  unfoldable pub cleanup_runtime : Option LabState → Bool → M (Unit {0})
  cleanup_runtime (some s) purge w = cleanup_known purge s w
  cleanup_runtime none purge w = let (r, w') = read_lab_state env t w in cleanup_read purge r w'

  -- `Down`, after the topology was loaded.
  unfoldable pub down : Bool → M (Unit {0})
  down purge = cleanup_runtime none purge
