-- ===== src/Tests/Runtime.antt =====
-- The theorems on internal/runtime/runtime.go at concrete topologies and outsides.
use frridge.Base.{true, false, ◌≡◌, refl, ◌⊎◌, inr, ok, err, [], ◌∷◌, Option, none, some, not}
use frridge.State.{LabState}
use frridge.Runtime.Host.{Call, Fault, RuntimeError, fault, loaded, not_exist}
use frridge.Runtime.Host.Trace.{Succeeded}
use frridge.Runtime.Env.{Env, found}
use frridge.Base.{for_each, gather}
use frridge.Base.Text.{trim, has, is_blank, base, comes_before}
use frridge.Base.Dict.{lookup, insert, values}
use frridge.Base.Slices.{take_chars, size, cut_prefix}
use frridge.Config.Paths.{state_path}
use frridge.Config.Resolve.{resolve_routers}
use frridge.Runtime.Cleanup.{
  add_ids, container_ids, member_names, link_names, remove_container, delete_link, list_lab, finish,
  remove_all_of, cleanup_recorded, cleanup_known, cleanup_read, cleanup_runtime, down,
}
use frridge.Runtime.Console.{inventory, migrate_snapshot, migrate_read, migrate_state}
use frridge.Runtime.Env.{checked, read_outcome, recheck, read_lab_state}
use frridge.Runtime.Host.{
  pure, lift, ◌>>=◌, ask, invoke, perform, within, each, attempt_each, get_snapshot, put_snapshot,
  check_context,
}
use frridge.Runtime.Links.{
  own_bridge, attach_member, configure_bridge_link, configure_link, configure_links,
}
use frridge.Runtime.Names.{sanitize_name, container_name, bridge_link_name}
use frridge.Runtime.Ping.{select_ping_checks}
use frridge.Runtime.Up.{
  place_router, sort_routers, record_container, runtime_exists_after, runtime_exists, start_router,
  create_router, create_routers, start_lab, after_rollback, roll_back, recover, guarded,
  clear_runtime, up,
}
use frridge.State.{
  bridge_name, validate_container, validate_bridge, validate_containers, validate_bridges, validate,
}
use frridge.Runtime.Cleanup.Laws.{IsCleared, cleanup_runtime-IsCleared}
use frridge.Runtime.Cleanup.Grounds.{AllJustified, down-AllJustified}
use frridge.Runtime.Console.Laws.{has_bridge_link, migrated, migrate_state-ok, lookup-inventory}
use frridge.Runtime.Links.Laws.{configure_links-FailsByCall}
use frridge.Runtime.Ping.Laws.{Selects, select_ping_checks-Selects}
use frridge.Runtime.Names.{is_dash}
use frridge.Runtime.Names.Laws.{
  is_plain, container_name_shape, container_name_collides, alike, all_alike,
}
use frridge.Runtime.Up.Inventory.{IsInventoried}
use frridge.Runtime.Up.Inventory.Startup.{start_lab-IsInventoried}
use frridge.Runtime.Host.{History, WaitEnd, tick, deadline}
use frridge.Runtime.Up.Whole.{IsQuiet, Leaves, up-Leaves}
use frridge.Runtime.Up.Rollback.{AllUndone, IsSaved, guarded-undone}
use frridge.Config.Validate.Links.{validate_links}
use frridge.Tests.Data.{
  net, hashing, topology, running, snapshot, digest, environment, broken_call, no_fault,
  fresh_world,
}
use frridge.Tests.Config.{topology-is_valid}

abbrev broken : Env
broken = environment broken_call not_exist []

start_fails : (start_lab broken topology digest false fresh_world).0 ≡ err (fault "cannot start")
unfolding comes_before insert resolve_routers ◌>>=◌ invoke perform get_snapshot put_snapshot
    place_router sort_routers record_container start_router create_router create_routers start_lab
start_fails = refl

start_lab-IsInventoried_example :
    IsInventoried broken "lab" (start_lab broken topology digest false fresh_world).1
start_lab-IsInventoried_example =
    start_lab-IsInventoried broken topology digest false fresh_world refl tt

guarded-undone_example :
    ((e : RuntimeError) × ((guarded broken topology
          (start_lab broken topology digest false)
          fresh_world).0
        ≡ err e))
    × (AllUndone broken topology
          (guarded broken topology (start_lab broken topology digest false) fresh_world).1
          (start_lab broken topology digest false fresh_world).1.trace
        ⊎ (IsInventoried broken "lab" (start_lab broken topology digest false fresh_world).1
            × IsSaved broken topology
                (start_lab broken topology digest false fresh_world).1.snapshot
                (guarded broken topology (start_lab broken topology digest false) fresh_world).1))
guarded-undone_example =
    guarded-undone broken topology digest false fresh_world (fault "cannot start") refl tt
      start_fails

abbrev steady : Env
steady = environment no_fault (loaded running) ("c1" ∷ "c9" ∷ [])

cleanup_ends : (cleanup_runtime steady topology none true fresh_world).0 ≡ ok tt
unfolding for_each gather is_blank base values take_chars cut_prefix add_ids container_ids
    member_names link_names remove_container delete_link list_lab finish remove_all_of
    cleanup_recorded cleanup_known cleanup_read cleanup_runtime checked read_outcome recheck
    read_lab_state ◌>>=◌ invoke perform within attempt_each bridge_name validate_container
    validate_bridge validate_containers validate_bridges validate
cleanup_ends = refl

reads_running : (read_lab_state steady topology fresh_world).0 ≡ found running
unfolding for_each is_blank base take_chars cut_prefix checked read_outcome recheck read_lab_state
    bridge_name validate_container validate_bridge validate_containers validate_bridges validate
reads_running = refl

cleanup_runtime-IsCleared_example :
    IsCleared steady topology running (cleanup_runtime steady topology none true fresh_world).1
cleanup_runtime-IsCleared_example =
    cleanup_runtime-IsCleared steady topology none true fresh_world running
      (inr (refl, reads_running)) cleanup_ends

down-AllJustified_example :
    AllJustified steady topology true fresh_world (down steady topology true fresh_world).1.trace
down-AllJustified_example = down-AllJustified steady topology true fresh_world refl

abbrev old : Env
old = environment no_fault (loaded (snapshot none)) []

reads_old : (read_lab_state old topology fresh_world).0 ≡ found (snapshot none)
unfolding for_each is_blank base cut_prefix checked read_outcome recheck read_lab_state
    validate_container validate_containers validate_bridges validate
reads_old = refl

old-is_valid : validate hashing (snapshot none) "lab" ≡ ok tt
unfolding for_each is_blank base cut_prefix validate_container validate_containers validate_bridges
    validate
old-is_valid = refl

migrates : (migrate_state old topology fresh_world).0 ≡ ok tt
unfolding for_each is_blank base cut_prefix migrate_snapshot migrate_read migrate_state checked
    read_outcome recheck read_lab_state lift ◌>>=◌ perform check_context validate_container
    validate_containers validate_bridges validate
migrates = refl

migrate_state-ok_example :
    (s : LabState) × ((read_lab_state old topology fresh_world).0 ≡ found s)
    × (s.owned_bridges ≡ none)
    × (old.digest topology ≡ ok s.topology_digest)
    × Succeeded old.host
        (Call.write_state (state_path old.override topology) (migrated old topology s))
        (migrate_state old topology fresh_world).1.trace
migrate_state-ok_example = migrate_state-ok old topology fresh_world migrates

lookup-inventory_example :
    lookup "core" (inventory hashing "lab" [] topology.links)
    ≡ some (bridge_link_name hashing "lab" "core")
unfolding has_bridge_link
lookup-inventory_example = lookup-inventory hashing "lab" [] topology.links "core"

-- Attaching a container to a bridge fails.
abbrev detached_call : Call → Option Fault
detached_call (Call.create_bridge_attachment bridge host_if peer_if pid mtu) =
    some "no such process"
detached_call _ = none

abbrev detached : Env
detached = environment detached_call not_exist []

links_fail : (configure_links detached topology fresh_world).0 ≡ err (fault "no such process")
unfolding ◌>>=◌ perform each get_snapshot put_snapshot own_bridge attach_member
    configure_bridge_link configure_link configure_links
links_fail = refl

configure_links-FailsByCall_example : (f : Fault) × (fault "no such process" ≡ fault f)
configure_links-FailsByCall_example =
    configure_links-FailsByCall detached topology (validate_links net topology topology-is_valid).1
      fresh_world (fault "no such process") links_fail

-- A vtysh that never answers, and a deadline after one tick.
abbrev one_tick : History → WaitEnd
one_tick [] = tick
one_tick (call ∷ []) = tick
one_tick (call ∷ _ ∷ past) = deadline

abbrev silent : Env
silent = record steady {
  host = record steady.host { executed = λ past id command. err "no vtysh"; waited = one_tick };
}

select_ping_checks-Selects_example :
    Selects "p1" topology.pings (select_ping_checks topology.pings "p1")
select_ping_checks-Selects_example = select_ping_checks-Selects topology.pings "p1"

container_name_shape_example :
    (has (λ c. not (is_plain c)) (container_name "Lab" "_R1") ≡ false)
    × (trim is_dash (container_name "Lab" "_R1") ≡ container_name "Lab" "_R1")
    × (sanitize_name (container_name "Lab" "_R1") ≡ container_name "Lab" "_R1")
container_name_shape_example = container_name_shape "Lab" "_R1"

names-all_alike : all_alike "R_1" "r-1" ≡ true
unfolding all_alike alike
names-all_alike = refl

container_name_collides_example : container_name "lab" "R_1" ≡ container_name "lab" "r-1"
container_name_collides_example = container_name_collides "lab" "R_1" "r-1" names-all_alike

size_of_prefix : size "frp" ≡ 3
unfolding size
size_of_prefix = refl

nothing_made : IsQuiet broken topology fresh_world
nothing_made = λ s. tt

up_fails : (up broken topology false false fresh_world).0 ≡ err (fault "cannot start")
unfolding comes_before insert resolve_routers ◌>>=◌ invoke perform get_snapshot put_snapshot
    place_router sort_routers record_container start_router create_router create_routers start_lab
    up clear_runtime runtime_exists runtime_exists_after list_lab ask pure lift guarded recover
    roll_back after_rollback for_each gather is_blank base values take_chars cut_prefix add_ids
    container_ids member_names link_names remove_container delete_link finish remove_all_of
    cleanup_recorded cleanup_known cleanup_read cleanup_runtime checked read_outcome recheck
    read_lab_state within attempt_each bridge_name validate_container validate_bridge
    validate_containers validate_bridges validate
up_fails = refl

up-Leaves_example : Leaves broken topology (up broken topology false false fresh_world).1
up-Leaves_example =
    up-Leaves broken topology false false fresh_world (fault "cannot start") nothing_made up_fails
