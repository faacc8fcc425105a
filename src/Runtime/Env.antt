-- ===== src/Runtime/Env.antt =====
-- What every method of the runtime manager reads: the outside, the hashes, the value of
-- FRRIDGE_WORKDIR_OVERRIDE and the digest of a topology; and `readLabState` of
-- internal/runtime/runtime.go with `Read` of internal/state/state.go below it.
use frridge.Base.{String, Result, ok, err, [], ◌∷◌}
use frridge.Base.Dict.{Dict}
use frridge.Config.Topology.{Topology}
use frridge.Config.Paths.{state_path}
use frridge.State.{LabState, Hashing, validate}
use frridge.Runtime.Host.{
  Host, World, Fault, RuntimeError, invalid_state, fault, ReadOutcome, loaded, not_exist,
  read_fault, read_state,
}

pub record Env : Type 0 where
  pub host : Host
  pub hashing : Hashing
  pub override : String
  pub digest : Topology → Result Fault String

pub data StateRead : Type 0 where
  found : LabState → StateRead
  missing : StateRead
  failed : RuntimeError → StateRead

module _ (env : Env) where
  -- `state.Validate` of what was read.
  unfoldable pub checked : LabState → String → StateRead
  checked s lab = elim (validate env.hashing s lab) [
    | ok _ ↦ found s
    | err e ↦ failed (invalid_state e)
  ]

  -- state.Read: the file is decoded, and must be valid for the lab that it names.
  unfoldable pub read_outcome : ReadOutcome → StateRead
  read_outcome (loaded s) = checked s s.lab
  read_outcome not_exist = missing
  read_outcome (read_fault e) = failed (fault e)

  unfoldable pub recheck : String → StateRead → StateRead
  recheck lab (found s) = checked s lab
  recheck lab missing = missing
  recheck lab (failed e) = failed e

  unfoldable pub read_lab_state : Topology → World → StateRead × World
  read_lab_state t w =
      let path = state_path env.override t in
      (
        recheck t.lab.name (read_outcome (env.host.read w.trace path)),
        record w { trace = read_state path ∷ w.trace },
      )

abbrev pub label_managed : String
label_managed = "io.frridge.managed"

abbrev pub label_lab : String
label_lab = "io.frridge.lab"

abbrev pub label_router : String
label_router = "io.frridge.router"

abbrev pub label_topology : String
label_topology = "io.frridge.topology"

abbrev pub lab_labels : Topology → Dict String
lab_labels t = (label_managed, "true") ∷ (label_lab, t.lab.name) ∷ []

unfoldable pub router_labels : String → String → String → Dict String
router_labels lab router digest =
    (label_managed, "true")
    ∷ (label_lab, lab)
    ∷ (label_router, router)
    ∷ (label_topology, digest)
    ∷ []
