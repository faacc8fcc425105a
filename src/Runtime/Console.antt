-- ===== src/Runtime/Console.antt =====
-- `MigrateState`, `Console`, `Ping` and the container lookups of internal/runtime/runtime.go, after
-- the topology was loaded.
pub mod Laws
use frridge.Base.{
  String, Bool, true, false, ◌==◌, Option, none, some, List, [], ◌∷◌, ◌++◌, if◌then◌else◌, Result,
  ok, err, gather,
}
use frridge.Base.Int.{ℤ}
use frridge.Base.Dict.{Dict, lookup, insert}
use frridge.Config.Topology.{Topology, Link, Ping}
use frridge.Config.Paths.{state_path}
use frridge.State.{LabState, ContainerState, Hashing, Snapshot}
use frridge.Runtime.Names.{bridge_link_name}
use frridge.Runtime.Host.{
  World, M, RuntimeError, fault, digest_mismatch, already_migrated, not_running, ambiguous,
  not_found, in_ping, Call, ◌>>=◌, ◌>>◌, pure, raise, lift, invoke, perform, within, as_fault,
  check_context, ExecResult, continue,
}
use frridge.Runtime.Env.{
  Env, StateRead, found, missing, failed, read_lab_state, lab_labels, label_managed, label_lab,
  label_router,
}
use frridge.Runtime.Ping.{select_ping_checks, ping_command, combine_exec_output}

-- The bridge inventory that the links of a topology call for.
unfoldable pub add_bridge : Hashing → String → Dict String → Link → Dict String
add_bridge h lab bridges link =
    if link.type == "bridge"
    then insert link.name (bridge_link_name h lab link.name) bridges
    else bridges

unfoldable pub inventory : Hashing → String → Dict String → List Link → Dict String
inventory h lab bridges [] = bridges
inventory h lab bridges (link ∷ links) = inventory h lab (add_bridge h lab bridges link) links

-- Where the identifier is looked for when no snapshot has it.
unfoldable pub only_container : String → List String → M String
only_container router [] = raise (not_running router)
only_container router (id ∷ []) = pure id
only_container router (id ∷ _ ∷ _) = raise (ambiguous router)

abbrev pub container_entry : LabState → String → Option ContainerState
container_entry s router = elim s.containers [
  | none ↦ none
  | some containers ↦ lookup router containers
]

module _ (env : Env) (t : Topology) where
  unfoldable pub migrate_snapshot : LabState → String → M (Unit {0})
  migrate_snapshot s digest =
      if s.topology_digest == digest
      then (elim s.owned_bridges [
        | some _ ↦ raise already_migrated
        | none ↦ do
          check_context env.host
          let migrated = record s {
            owned_bridges = some (inventory env.hashing t.lab.name [] t.links);
          }
          perform env.host (Call.write_state (state_path env.override t) migrated)
      ])
      else raise digest_mismatch

  unfoldable pub migrate_read : StateRead → M (Unit {0})
  migrate_read (found s) = do digest ← lift (as_fault (env.digest t)); migrate_snapshot s digest
  migrate_read missing = raise (fault "read state file")
  migrate_read (failed e) = raise e

  unfoldable pub migrate_state : M (Unit {0})
  migrate_state w = let (r, w') = read_lab_state env t w in migrate_read r w'

  unfoldable pub find_container : String → M String
  find_container router = do
    let labels = (label_managed, "true") ∷ (label_lab, t.lab.name) ∷ (label_router, router) ∷ []
    ids ← invoke (Call.list_containers labels) (λ past. env.host.listed past labels)
    only_container router ids

  unfoldable pub container_of_read : String → StateRead → M String
  container_of_read router (found s) = elim (container_entry s router) [
    | some c ↦ pure c.id
    | none ↦ find_container router
  ]
  container_of_read router missing = find_container router
  container_of_read router (failed e) = raise e

  unfoldable pub lookup_router_container : String → M String
  lookup_router_container router w =
      let (r, w') = read_lab_state env t w in container_of_read router r w'

  unfoldable pub console : Bool → String → M (Unit {0})
  console shell router = do
    id ← lookup_router_container router
    perform env.host (Call.exec_interactive id (if shell then "/bin/sh" ∷ [] else "vtysh" ∷ []))

-- `lookupConsoleContainer` without a topology: the snapshots of the work directory.
unfoldable pub matching : String → List Snapshot → List String
matching router [] = []
matching router (s ∷ snapshots) =
    let rest = matching router snapshots in
    elim (container_entry s.state router) [ none ↦ rest | some c ↦ c.id ∷ rest ]

unfoldable pub only_match : String → List String → Result RuntimeError String
only_match router [] = err (not_found router)
only_match router (id ∷ []) = ok id
only_match router (id ∷ _ ∷ _) = err (ambiguous router)

pub record PingResult : Type 0 where
  pub name : String
  pub router : String
  pub namespace : String
  pub target : String
  pub output : String
  pub exit_code : ℤ

-- The results of the checks that ran, and the error that ended the run.
abbrev pub PingRun : Type 0
PingRun = List PingResult × Option RuntimeError

module _ (env : Env) (t : Topology) (itoa : ℤ → String) where
  unfoldable pub run_check : Ping → M PingResult
  run_check check = do
    id ← lookup_router_container env t check.from.router
    let command = ping_command itoa check
    result ←
        within (in_ping check.name)
          (invoke (Call.exec id command) (λ past. env.host.executed past id command))
    pure (record {
      name = check.name;
      router = check.from.router;
      namespace = check.from.namespace;
      target = check.to;
      output = combine_exec_output result;
      exit_code = result.exit_code;
    })

  unfoldable pub run_checks : List PingResult → List Ping → World → PingRun × World
  run_checks results [] w = ((results, none), w)
  run_checks results (check ∷ checks) w =
      let (r, w') = run_check check w in
      elim r [
        | err e ↦ ((results, some e), w')
        | ok result ↦ run_checks (results ++ result ∷ []) checks w'
      ]

  unfoldable pub ping : String → World → PingRun × World
  ping name w = elim (select_ping_checks t.pings name) [
    | err e ↦ (([], some e), w)
    | ok checks ↦ run_checks [] checks w
  ]
