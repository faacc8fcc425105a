-- ===== src/Runtime/Console/Laws.antt =====
-- What `MigrateState` of internal/runtime/runtime.go writes, and which container a lookup gives.
use frridge.Base.{
  String, Bool, true, false, List, [], ◌∷◌, ◌≡◌, refl, none, some, ok, ◌==◌, arith, eq_iff,
  if◌then◌else◌, ◌||◌, ◌&&◌,
}
use frridge.Base.Dict.{Dict, lookup, lookup-insert}
use frridge.Config.Topology.{Topology, Link}
use frridge.Config.Paths.{state_path}
use frridge.State.{LabState, Hashing}
use frridge.Runtime.Names.{bridge_link_name}
use frridge.Runtime.Host.{World, Call, perform, raise, lift, ◌>>=◌, check_context}
use frridge.Runtime.Host.Trace.{Succeeded}
use frridge.Runtime.Env.{Env, found, read_lab_state}
use frridge.Runtime.Console.{add_bridge, inventory, migrate_snapshot, migrate_read, migrate_state}

-- A bridge link of the topology has the name.
unfoldable pub has_bridge_link : List Link → String → Bool
has_bridge_link [] name = false
has_bridge_link (link ∷ links) name =
    (link.type == "bridge" && link.name == name) || has_bridge_link links name

-- The inventory that a migration builds names, for each bridge link of the topology and for nothing
-- else, the bridge that `up` calls for.
pub lookup-inventory :
    (h : Hashing) (lab : String) (bridges : Dict String) (links : List Link) (name : String)
    → lookup name (inventory h lab bridges links) ≡ (
        if has_bridge_link links name
        then some (bridge_link_name h lab name)
        else lookup name bridges)
unfolding inventory has_bridge_link add_bridge
lookup-inventory h lab bridges [] name = refl
lookup-inventory h lab bridges (link ∷ links) name = ground (
  arith,
  lookup-inventory h lab (add_bridge h lab bridges link) links name,
  lookup-insert link.name name (bridge_link_name h lab link.name) bridges,
  eq_iff link.name name,
)

module _ (env : Env) (t : Topology) where
  abbrev pub migrated : LabState → LabState
  migrated s = record s { owned_bridges = some (inventory env.hashing t.lab.name [] t.links) }

  migrate_state-steps :
      (w : World)
      → (migrate_state env t w).0 ≡ ok tt
      → (s : LabState) × (digest : String) × ((read_lab_state env t w).0 ≡ found s)
        × (s.owned_bridges ≡ none)
        × (env.digest t ≡ ok digest)
        × ((s.topology_digest == digest) ≡ true)
        × Succeeded env.host
            (Call.write_state (state_path env.override t) (migrated s))
            (migrate_state env t w).1.trace
  unfolding migrate_state migrate_read migrate_snapshot perform raise lift ◌>>=◌ check_context
  migrate_state-steps w h = ground arith

  -- A migration that succeeds has read a state without an inventory whose digest is that of the
  -- topology, and has written it back with the inventory of the topology's bridge links and with
  -- nothing else changed.
  pub migrate_state-ok :
      (w : World)
      → (migrate_state env t w).0 ≡ ok tt
      → (s : LabState) × ((read_lab_state env t w).0 ≡ found s)
        × (s.owned_bridges ≡ none)
        × (env.digest t ≡ ok s.topology_digest)
        × Succeeded env.host
            (Call.write_state (state_path env.override t) (migrated s))
            (migrate_state env t w).1.trace
  migrate_state-ok w h =
      let (s, digest, read, bare, computed, same, written) = migrate_state-steps w h in
      (s, read, bare, ground (arith, eq_iff s.topology_digest digest), written)
