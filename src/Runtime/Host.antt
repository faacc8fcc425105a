-- ===== src/Runtime/Host.antt =====
-- What internal/runtime/runtime.go calls outside itself, and the effect of a method: a result, a
-- record of all calls made so far (the newest first), and the snapshot of the lab that is being
-- started. What a call answers is a function of the calls before it: an arbitrary environment.
pub mod Trace
use frridge.Base.{ℕ, String, Bool, Option, none, some, List, [], ◌∷◌, ◌++◌, Result, ok, err}
use frridge.Base.Int.{ℤ}
use frridge.Base.Dict.{Dict}
use frridge.Config.Topology.{Topology, LinkMember, Vrf, Bond, Bridge, Interface, Veth, Route, Mount}
use frridge.State.{LabState, StateError}

-- docker.ContainerSpec and docker.ExecResult (internal/docker/docker.go).
pub record ContainerSpec : Type 0 where
  pub name : String
  pub image : String
  pub hostname : String
  pub command : List String
  pub env : Dict String
  pub labels : Dict String
  pub sysctls : Dict String
  pub mounts : List Mount
  pub privileged : Bool

pub record ExecResult : Type 0 where
  pub stdout : String
  pub stderr : String
  pub exit_code : ℤ

-- frr.PrepareResult (internal/frr/files.go).
pub record PrepareResult : Type 0 where
  pub config_dir : String
  pub needs_seed : Bool
  pub marker_path : String

-- docker.Client, netlink.Manager, and the file operations of packages state, frr and os.
pub data Call : Type 0 where
  create_container : ContainerSpec → Call
  start_container inspect_container remove_container : String → Call
  list_containers : Dict String → Call
  exec exec_interactive : String → List String → Call
  ensure_bridge : String → ℤ → Call
  create_bridge_attachment : String → String → String → ℤ → ℤ → Call
  create_p2p_attachment : String → ℤ → String → ℤ → ℤ → Call
  configure_attached_link : ℤ → String → LinkMember → ℤ → Call
  configure_loopback : ℤ → List String → Call
  configure_vrf : ℤ → Vrf → Call
  configure_bond : ℤ → Bond → Call
  configure_bridge : ℤ → Bridge → Call
  attach_link_master : ℤ → String → String → Call
  configure_interface : ℤ → Interface → Call
  configure_veth : ℤ → Veth → Call
  configure_bridge_namespace_veth : ℤ → String → String → String → Call
  configure_route : ℤ → Route → Call
  delete_link : String → Call
  stat_state read_state remove_state : String → Call
  write_state : String → LabState → Call
  mkdir_all remove_all mark_seeded : String → Call
  prepare_router_files : String → String → Bool → Call

-- An error of the outside, by its text.
abbrev pub Fault : Type 0
Fault = String

pub data RuntimeError : Type 0 where
  fault : Fault → RuntimeError
  in_router in_step in_ping : String → RuntimeError → RuntimeError
  already_running : String → RuntimeError
  invalid_state : StateError → RuntimeError
  digest_mismatch already_migrated legacy_state no_inventory : RuntimeError
  joined : RuntimeError → RuntimeError → RuntimeError
  rollback_failed purge_failed save_failed : RuntimeError → RuntimeError
  not_running ambiguous not_found : String → RuntimeError
  command_failed : String → ℤ → String → RuntimeError
  write_failed timed_out : String → RuntimeError
  no_pings index_out_of_range : RuntimeError
  unknown_ping : String → RuntimeError

abbrev pub History : Type 0
History = List Call

-- What `os.Stat` says of a path.
pub data Presence : Type 0 where
  present absent : Presence
  stat_fault : Fault → Presence

-- What `state.Read` returns.
pub data ReadOutcome : Type 0 where
  loaded : LabState → ReadOutcome
  not_exist : ReadOutcome
  read_fault : Fault → ReadOutcome

-- How the wait between two attempts ends: by the ticker, by the deadline, or by a cancelled context.
pub data WaitEnd : Type 0 where
  tick deadline : WaitEnd
  stopped : Fault → WaitEnd

-- The answers. `perform` is for the calls that return an error alone.
pub record Host : Type 0 where
  pub perform : History → Call → Option Fault
  pub created : History → ContainerSpec → Result Fault String
  pub inspected : History → String → Result Fault ℤ
  pub listed : History → Dict String → Result Fault (List String)
  pub executed : History → String → List String → Result Fault ExecResult
  pub presence : History → String → Presence
  pub read : History → String → ReadOutcome
  pub prepared : History → String → String → Bool → Result Fault PrepareResult
  pub cancelled : History → Option Fault
  pub waited : History → WaitEnd

pub record World : Type 0 where
  pub trace : History
  pub snapshot : LabState

abbrev pub M : Type 0 → Type 0
M A = World → Result RuntimeError A × World

unfoldable pub pure : {A : Type 0} → A → M A
pure a w = (ok a, w)

unfoldable pub raise : {A : Type 0} → RuntimeError → M A
raise e w = (err e, w)

unfoldable pub lift : {A : Type 0} → Result RuntimeError A → M A
lift r w = (r, w)

abbrev pub continue : {A B : Type 0} → Result RuntimeError A → (A → M B) → M B
continue (ok a) f w = f a w
continue (err e) f w = (err e, w)

infixl 10 ◌>>=◌ ◌>>◌
unfoldable pub ◌>>=◌ : {A B : Type 0} → M A → (A → M B) → M B
◌>>=◌ m f w = let (r, w') = m w in continue r f w'

abbrev pub ◌>>◌ : {A B : Type 0} → M A → M B → M B
m >> n = m >>= λ _. n

-- A call and its answer.
unfoldable pub ask : {A : Type 0} → Call → (History → A) → M A
ask call answer w = (ok (answer w.trace), record w { trace = call ∷ w.trace })

abbrev pub as_fault : {A : Type 0} → Result Fault A → Result RuntimeError A
as_fault (ok a) = ok a
as_fault (err e) = err (fault e)

abbrev pub as_result : Option Fault → Result RuntimeError (Unit {0})
as_result none = ok tt
as_result (some e) = err (fault e)

-- A call that fails with an error.
unfoldable pub invoke : {A : Type 0} → Call → (History → Result Fault A) → M A
invoke call answer w = (as_fault (answer w.trace), record w { trace = call ∷ w.trace })

unfoldable pub perform : Host → Call → M (Unit {0})
perform h call w = (as_result (h.perform w.trace call), record w { trace = call ∷ w.trace })

-- The same computation with its errors wrapped.
abbrev pub wrap_error :
    {A : Type 0} → (RuntimeError → RuntimeError) → Result RuntimeError A → Result RuntimeError A
wrap_error g (ok a) = ok a
wrap_error g (err e) = err (g e)

unfoldable pub within : {A : Type 0} → (RuntimeError → RuntimeError) → M A → M A
within g m w = let (r, w') = m w in (wrap_error g r, w')

-- `for _, x := range xs { if err := f(x); err != nil { return err } }`
unfoldable pub each : {A : Type 0} → (A → M (Unit {0})) → List A → M (Unit {0})
each f [] = pure tt
each f (x ∷ xs) = f x >>= λ _. each f xs

-- `cleanupErr = errors.Join(cleanupErr, err)`
abbrev pub join_error : Option RuntimeError → RuntimeError → RuntimeError
join_error none e = e
join_error (some before) e = joined before e

abbrev pub note_error :
    {A : Type 0} → Option RuntimeError → Result RuntimeError A → Option RuntimeError
note_error acc (ok a) = acc
note_error acc (err e) = some (join_error acc e)

-- A loop whose rounds may fail without stopping it; the errors are joined.
unfoldable pub attempt_each :
    {A : Type 0}
    → (A → M (Unit {0}))
    → Option RuntimeError
    → List A
    → World
    → Option RuntimeError × World
attempt_each f acc [] w = (acc, w)
attempt_each f acc (x ∷ xs) w = let (r, w') = f x w in attempt_each f (note_error acc r) xs w'

unfoldable pub get_snapshot : M LabState
get_snapshot w = (ok w.snapshot, w)

unfoldable pub put_snapshot : LabState → M (Unit {0})
put_snapshot s w = (ok tt, record w { snapshot = s })

-- `ctx.Err()`
unfoldable pub check_context : Host → M (Unit {0})
check_context h w = (as_result (h.cancelled w.trace), w)
