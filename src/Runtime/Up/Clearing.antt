-- ===== src/Runtime/Up/Clearing.antt =====
-- The parts of `up` (internal/runtime/runtime.go) that make no container and no bridge: what comes
-- before the guarded body, and the rollback.
use frridge.Base.{
  String, Bool, true, false, List, [], ◌∷◌, Option, none, some, Result, ok, err, if◌then◌else◌,
}
use frridge.Config.Topology.{Topology}
use frridge.State.{LabState, StateError, validate}
use frridge.Base.Dict.{Dict, values}
use frridge.Config.Paths.{state_path}
use frridge.Runtime.Up.{recover}
use frridge.Runtime.Cleanup.{container_ids}
use frridge.Runtime.Host.{
  World, M, Call, RuntimeError, History, Fault, perform, raise, ask, invoke, fault, Presence,
  present, absent, stat_fault, legacy_state, no_inventory, invalid_state,
}
use frridge.Runtime.Host.Trace.{
  Keeps, bind-Keeps, within-Keeps, pure-Keeps, raise-Keeps, attempt_each-Keeps,
}
use frridge.Runtime.Env.{Env, StateRead, found, missing, failed, read_lab_state}
use frridge.Runtime.Cleanup.{
  remove_container, delete_link, list_lab, finish, remove_all_of, cleanup_recorded, cleanup_known,
  refuse_containers, cleanup_unknown, cleanup_read, cleanup_runtime,
}
use frridge.Runtime.Up.{
  after_rollback, roll_back, runtime_exists_after, runtime_exists, clear_runtime,
}
use frridge.Runtime.Up.Inventory.{IsNeutral}

module _ (env : Env) (t : Topology) (Q : History → Type 0)
    (adds : (call : Call) (past : History)
      → IsNeutral env t.lab.name call
      → Q past
      → Q (call ∷ past)) where
  -- The calls made so far are as said.
  pub record Holds (w : World) : Type 0 where
    pub so_far : Q w.trace

  perform-Holds :
      (call : Call) → IsNeutral env t.lab.name call → Keeps Holds (perform env.host call)
  unfolding perform
  perform-Holds call free w q = record { so_far = adds call w.trace free q.so_far }

  invoke-Holds :
      {A : Type 0} (call : Call) (answer : History → Result Fault A)
      → IsNeutral env t.lab.name call
      → Keeps Holds (invoke call answer)
  unfolding invoke
  invoke-Holds call answer free w q = record { so_far = adds call w.trace free q.so_far }

  ask-Holds :
      {A : Type 0} (call : Call) (answer : History → A)
      → IsNeutral env t.lab.name call
      → Keeps Holds (ask call answer)
  unfolding ask
  ask-Holds call answer free w q = record { so_far = adds call w.trace free q.so_far }

  if-Holds :
      (b : Bool) {A : Type 0} (m n : M A)
      → Keeps Holds m
      → Keeps Holds n
      → Keeps Holds (if b then m else n)
  if-Holds true m n k l = k
  if-Holds false m n k l = l

  ruleset quiet_rules = (
    bind-Keeps, within-Keeps, pure-Keeps, raise-Keeps, perform-Holds, invoke-Holds, ask-Holds,
    if-Holds,
  )

  remove_container-Holds : (id : String) → Keeps Holds (remove_container env t id)
  unfolding remove_container
  remove_container-Holds id = search quiet_rules

  delete_link-Holds : (name : String) → Keeps Holds (delete_link env t name)
  unfolding delete_link
  delete_link-Holds name = search quiet_rules

  list_lab-Holds : Keeps Holds (list_lab env t)
  unfolding list_lab
  list_lab-Holds = search quiet_rules

  finish-Holds : (purge : Bool) (e : Option RuntimeError) → Keeps Holds (finish env t purge e)
  unfolding finish
  finish-Holds purge (some e) = search quiet_rules
  finish-Holds purge none = search quiet_rules

  remove_all_of-Holds :
      (purge : Bool) (ids bridges : List String) (listed : Result RuntimeError (List String))
      → Keeps Holds (remove_all_of env t purge ids bridges listed)
  unfolding remove_all_of
  remove_all_of-Holds purge ids bridges listed w q = finish-Holds purge _ _ (
      attempt_each-Keeps Holds (delete_link env t) delete_link-Holds bridges _ _ (
        attempt_each-Keeps Holds (delete_link env t) delete_link-Holds _ _ _
          (attempt_each-Keeps Holds (remove_container env t) remove_container-Holds _ _ _ q)))

  cleanup_recorded-Holds :
      (purge : Bool) (ids bridges : List String)
      → Keeps Holds (cleanup_recorded env t purge ids bridges)
  unfolding cleanup_recorded
  cleanup_recorded-Holds purge ids bridges w q =
      remove_all_of-Holds purge ids bridges _ _ (list_lab-Holds w q)

  known_cases :
      (purge : Bool) (s : LabState) (v : Result StateError (Unit {0})) (o : Option (Dict String))
      → Keeps {A = Unit {0}} Holds (elim v [
        | err e ↦ raise (invalid_state e)
        | ok _ ↦ elim o [
          | none ↦ raise legacy_state
          | some bridges ↦
              cleanup_recorded env t purge (container_ids s.containers) (values bridges)
        ]
      ])
  known_cases purge s (err e) o = raise-Keeps Holds (Unit {0}) (invalid_state e)
  known_cases purge s (ok _) none = raise-Keeps Holds (Unit {0}) legacy_state
  known_cases purge s (ok _) (some bridges) = cleanup_recorded-Holds purge _ (values bridges)

  cleanup_known-Holds : (purge : Bool) (s : LabState) → Keeps Holds (cleanup_known env t purge s)
  unfolding cleanup_known
  cleanup_known-Holds purge s =
      known_cases purge s (validate env.hashing s t.lab.name) s.owned_bridges

  refuse_containers-Holds :
      (purge : Bool) (ids : List String) → Keeps Holds (refuse_containers env t purge ids)
  unfolding refuse_containers
  refuse_containers-Holds purge [] = finish-Holds purge none
  refuse_containers-Holds purge (id ∷ ids) = raise-Keeps Holds (Unit {0}) no_inventory

  cleanup_read-Holds : (purge : Bool) (r : StateRead) → Keeps Holds (cleanup_read env t purge r)
  unfolding cleanup_read cleanup_unknown
  cleanup_read-Holds purge (found s) = cleanup_known-Holds purge s
  cleanup_read-Holds purge missing = search (bind-Keeps, list_lab-Holds, refuse_containers-Holds)
  cleanup_read-Holds purge (failed e) = raise-Keeps Holds (Unit {0}) e

  pub cleanup_runtime-Holds :
      (given : Option LabState) (purge : Bool) → Keeps Holds (cleanup_runtime env t given purge)
  unfolding cleanup_runtime read_lab_state
  cleanup_runtime-Holds (some s) purge w q = cleanup_known-Holds purge s w q
  cleanup_runtime-Holds none purge w q = cleanup_read-Holds purge _ _ (record {
    so_far = adds (Call.read_state (state_path env.override t)) w.trace (λ s past. tt) q.so_far;
  })

  runtime_exists_after-Holds : (p : Presence) → Keeps Holds (runtime_exists_after env t p)
  unfolding runtime_exists_after
  runtime_exists_after-Holds present = pure-Keeps Holds true
  runtime_exists_after-Holds absent = search (quiet_rules, list_lab-Holds)
  runtime_exists_after-Holds (stat_fault e) = raise-Keeps Holds Bool (fault e)

  runtime_exists-Holds : Keeps Holds (runtime_exists env t)
  unfolding runtime_exists
  runtime_exists-Holds = search (quiet_rules, runtime_exists_after-Holds)

  pub clear_runtime-Holds : (recreate : Bool) → Keeps Holds (clear_runtime env t recreate)
  unfolding clear_runtime
  clear_runtime-Holds recreate = search (quiet_rules, cleanup_runtime-Holds, runtime_exists-Holds)

  after_rollback-Holds :
      (e : RuntimeError) (s : LabState) (r : Result RuntimeError (Unit {0}))
      → Keeps Holds (after_rollback env t e s r)
  unfolding after_rollback perform
  after_rollback-Holds e s (ok _) w q = q
  after_rollback-Holds e s (err cleanup) w q = record {
    so_far = adds (Call.write_state (state_path env.override t) s) w.trace (λ s' past. tt) q.so_far;
  }

  -- The rollback makes no container and no bridge.
  pub recover-Holds : (r : Result RuntimeError (Unit {0})) → Keeps Holds (recover env t r)
  unfolding recover roll_back
  recover-Holds (ok a) w q = q
  recover-Holds (err e) w q =
      after_rollback-Holds e w.snapshot _ _ (cleanup_runtime-Holds (some w.snapshot) false w q)
