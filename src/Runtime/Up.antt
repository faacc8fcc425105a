-- ===== src/Runtime/Up.antt =====
-- `Up`, `up` and `runtimeExists` of internal/runtime/runtime.go, after the topology was loaded.
pub mod Inventory
pub mod Rollback
pub mod Whole
pub mod Clearing
use frridge.Base.{
  String, Char, Bool, true, false, Option, none, some, List, [], ◌∷◌, if◌then◌else◌, Result, ok,
  err, leb, ltb, nat_eq, ◌||◌, ◌&&◌,
}
use frridge.Base.Text.{comes_before}
use frridge.Base.Int.{ℤ, pos}
use frridge.Base.Dict.{Dict, lookup, insert}
use frridge.Config.Topology.{Topology, Mount, ResolvedRouter}
use frridge.Config.Resolve.{resolve_routers}
use frridge.Config.Paths.{state_path, routers_dir, router_dir}
use frridge.State.{LabState, ContainerState}
use frridge.Runtime.Names.{container_name}
use frridge.Runtime.Host.{
  M, World, RuntimeError, fault, already_running, joined, rollback_failed, save_failed, Call, ◌>>=◌,
  ◌>>◌, pure, raise, lift, ask, perform, invoke, as_fault, get_snapshot, put_snapshot,
  check_context, PrepareResult, ContainerSpec, Presence, present, absent, stat_fault, continue,
}
use frridge.Runtime.Env.{Env, router_labels, lab_labels}
use frridge.Runtime.Cleanup.{cleanup_runtime, list_lab}
use frridge.Runtime.Links.{configure_links, configure_loopbacks, entries, container_of}
use frridge.Runtime.Dataplane.{configure_linux}
use frridge.Runtime.Commands.{run_router_commands}

unfoldable pub place_router : String → ResolvedRouter → Dict ResolvedRouter → Dict ResolvedRouter
place_router name router [] = (name, router) ∷ []
place_router name router ((other, next) ∷ rest) =
    let placed = place_router name router rest in
    if comes_before name other
    then (name, router) ∷ (other, next) ∷ rest
    else (other, next) ∷ placed

-- The routers in the order of sortedRouterNames and sortedResolvedRouterNames.
unfoldable pub sort_routers : Dict ResolvedRouter → Dict ResolvedRouter
sort_routers [] = []
sort_routers ((name, router) ∷ rest) = place_router name router (sort_routers rest)

abbrev pub is_nonempty : List String → Bool
is_nonempty [] = false
is_nonempty (_ ∷ _) = true

-- `snapshot.Containers[routerName] = containerState`
unfoldable pub record_container : String → ContainerState → M (Unit {0})
record_container name c = do
  s ← get_snapshot
  put_snapshot (record s { containers = some (insert name c (entries s.containers)) })

module _ (env : Env) (t : Topology) where
  unfoldable pub runtime_exists_after : Presence → M Bool
  runtime_exists_after present = pure true
  runtime_exists_after absent = do ids ← list_lab env t; pure (is_nonempty ids)
  runtime_exists_after (stat_fault e) = raise (fault e)

  unfoldable pub runtime_exists : M Bool
  runtime_exists = do
    let path = state_path env.override t
    presence ← ask (Call.stat_state path) (λ past. env.host.presence past path)
    runtime_exists_after presence

  unfoldable pub container_spec : String → String → ResolvedRouter → PrepareResult → ContainerSpec
  container_spec digest name router prep = record {
    name = container_name t.lab.name name;
    image = router.image;
    hostname = router.hostname;
    command = router.command;
    env = router.env;
    labels = router_labels t.lab.name name digest;
    sysctls = router.sysctls;
    mounts =
        (record { source = prep.config_dir; target = "/etc/frr"; read_only = false })
        ∷ router.mounts;
    privileged = router.privileged;
  }

  -- What follows the creation of a container.
  unfoldable pub start_router : String → String → M (Unit {0})
  start_router name id = do
    perform env.host (Call.start_container id)
    pid ← invoke (Call.inspect_container id) (λ past. env.host.inspected past id)
    s ← get_snapshot
    record_container name (record (container_of s name) { pid = pid })

  -- A round of the loop over the routers; its result is what was prepared.
  unfoldable pub create_router : String → Bool → String × ResolvedRouter → M PrepareResult
  create_router digest reseed (name, router) = do
    let dir = router_dir env.override t name
    prep ←
        invoke (Call.prepare_router_files dir router.hostname reseed)
          (λ past. env.host.prepared past dir router.hostname reseed)
    let spec = container_spec digest name router prep
    id ← invoke (Call.create_container spec) (λ past. env.host.created past spec)
    record_container name (record { id = id; pid = pos 0; config_dir = prep.config_dir })
    start_router name id
    pure prep

  unfoldable pub create_routers :
      String → Bool → Dict PrepareResult → List (String × ResolvedRouter) → M (Dict PrepareResult)
  create_routers digest reseed prepared [] = pure prepared
  create_routers digest reseed prepared (router ∷ routers) =
      create_router digest reseed router >>= λ prep.
      create_routers digest reseed (insert router.0 prep prepared) routers

  -- The body of `up` that the deferred rollback guards.
  unfoldable pub start_lab : String → Bool → M (Unit {0})
  start_lab digest reseed = do
    let routers = sort_routers (resolve_routers t)
    prepared ← create_routers digest reseed [] routers
    configure_links env t
    configure_loopbacks env routers
    configure_linux env routers
    run_router_commands env prepared routers
    check_context env.host
    s ← get_snapshot
    perform env.host (Call.write_state (state_path env.override t) s)

  abbrev pub join_save : RuntimeError → Result RuntimeError (Unit {0}) → RuntimeError
  join_save e (ok _) = e
  join_save e (err save) = joined e (save_failed save)

  -- The state file is written only when the cleanup fails.
  unfoldable pub after_rollback :
      RuntimeError → LabState → Result RuntimeError (Unit {0}) → M (Unit {0})
  after_rollback e s (ok _) w = (err e, w)
  after_rollback e s (err cleanup) w =
      let (saved, w') = perform env.host (Call.write_state (state_path env.override t) s) w in
      (err (join_save (joined e (rollback_failed cleanup)) saved), w')

  unfoldable pub roll_back : RuntimeError → M (Unit {0})
  roll_back e w =
      let (r, w') = cleanup_runtime env t (some w.snapshot) false w in
      after_rollback e w.snapshot r w'

  unfoldable pub recover : Result RuntimeError (Unit {0}) → M (Unit {0})
  recover (ok a) w = (ok a, w)
  recover (err e) w = roll_back e w

  -- The body under the deferred rollback.
  unfoldable pub guarded : M (Unit {0}) → M (Unit {0})
  guarded body w = let (r, w') = body w in recover r w'

  abbrev pub new_snapshot : String → LabState
  new_snapshot digest = record {
    lab = t.lab.name;
    topology_digest = digest;
    containers = some [];
    owned_bridges = some [];
  }

  unfoldable pub clear_runtime : Bool → M (Unit {0})
  clear_runtime recreate = if recreate then cleanup_runtime env t none false else (do
    exists ← runtime_exists
    if exists then raise (already_running t.lab.name) else pure tt)

  unfoldable pub up : Bool → Bool → M (Unit {0})
  up recreate reseed = do
    clear_runtime recreate
    perform env.host (Call.mkdir_all (routers_dir env.override t))
    digest ← lift (as_fault (env.digest t))
    put_snapshot (new_snapshot digest)
    guarded (start_lab digest reseed)
