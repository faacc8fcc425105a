-- ===== src/Runtime/Commands.antt =====
-- `runRouterCommands` and `waitForVTYSH` of internal/runtime/runtime.go.
pub mod Laws
use frridge.Base.{
  ℕ, zero, suc, String, Char, Bool, true, false, ◌==◌, Option, none, some, List, [], ◌∷◌,
  if◌then◌else◌, Result, ok, err, ◌&&◌,
}
use frridge.Base.Int.{is_zero}
use frridge.Base.Text.{trim_space, is_space, fields}
use frridge.Base.Dict.{Dict, lookup}
use frridge.Config.Topology.{ResolvedRouter, Command}
use frridge.State.{ContainerState}
use frridge.Runtime.Host.{
  M, World, Fault, RuntimeError, fault, timed_out, write_failed, command_failed, Call, ◌>>=◌, ◌>>◌,
  pure, raise, perform, within, invoke, each, get_snapshot, in_router, ExecResult, PrepareResult,
  WaitEnd, tick, deadline, stopped, History, continue,
}
use frridge.Runtime.Env.{Env}
use frridge.Runtime.Links.{container_of}
use frridge.Runtime.Ping.{has_daemons, render_vtysh, vtysh_write_failure}
use frridge.Runtime.Dataplane.{exec_message}

abbrev pub enabled_daemons : List String
enabled_daemons = "zebra" ∷ "bgpd" ∷ "ospfd" ∷ "ospf6d" ∷ "isisd" ∷ "staticd" ∷ "pathd" ∷ []

-- `formatVTYSHWaitError` for the last attempt.
abbrev pub wait_error : Result Fault ExecResult → RuntimeError
wait_error (err e) = fault e
wait_error (ok result) = timed_out (exec_message result)

-- The attempt shows all the daemons.
abbrev pub all_running : Result Fault ExecResult → List String → Bool
all_running (err e) daemons = false
all_running (ok result) daemons =
    is_zero result.exit_code && has_daemons (fields result.stdout) daemons

-- The ticks of 500 ms that come before the deadline of 20 s, or with it.
abbrev pub max_ticks : ℕ
max_ticks = 40

module _ (env : Env) where
  abbrev pub show_daemons : List String
  show_daemons = "vtysh" ∷ "-c" ∷ "show daemons" ∷ []

  -- The `select`: the next attempt, or the end of the loop after the last one.
  abbrev pub after_wait : Result Fault ExecResult → M (Unit {0}) → WaitEnd → M (Unit {0})
  after_wait last again tick = again
  after_wait last again deadline = raise (wait_error last)
  after_wait last again (stopped e) = raise (fault e)

  -- `return nil` when the daemons are there.
  abbrev pub unless_running : Bool → M (Unit {0}) → M (Unit {0})
  unless_running true again w = (ok tt, w)
  unless_running false again w = again w

  abbrev pub ask_daemons : String → World → World
  ask_daemons id w = record w { trace = Call.exec id show_daemons ∷ w.trace }

  -- The loop, with the number of ticks that come before the deadline: a tick after those is the
  -- deadline.
  unfoldable pub wait_for_vtysh : ℕ → String → List String → M (Unit {0})
  wait_for_vtysh zero id daemons w =
      let result = env.host.executed w.trace id show_daemons in
      let w' = ask_daemons id w in
      unless_running (all_running result daemons)
        (after_wait result (raise (wait_error result)) (env.host.waited w'.trace)) w'
  wait_for_vtysh (suc ticks) id daemons w =
      let result = env.host.executed w.trace id show_daemons in
      let w' = ask_daemons id w in
      unless_running (all_running result daemons)
        (after_wait result (wait_for_vtysh ticks id daemons) (env.host.waited w'.trace)) w'

  -- What a router's commands have done: waited for vtysh, and run a vtysh command.
  pub record Progress : Type 0 where
    pub waited : Bool
    pub ran : Bool

  abbrev pub shell_command : String → List String
  shell_command text = "sh" ∷ "-lc" ∷ text ∷ []

  unfoldable pub run_shell : String → String → M (Unit {0})
  run_shell id run = do
    result ←
        invoke (Call.exec id (shell_command run))
          (λ past. env.host.executed past id (shell_command run))
    if is_zero result.exit_code
        then pure tt
        else raise (command_failed "shell command" result.exit_code (trim_space result.stderr))

  -- What vtysh printed, although it exited with 0.
  abbrev pub check_written : Option String → M (Unit {0})
  check_written none = pure tt
  check_written (some message) = raise (write_failed message)

  unfoldable pub check_seed : ExecResult → M (Unit {0})
  check_seed result =
      if is_zero result.exit_code
      then check_written (vtysh_write_failure result)
      else raise (command_failed "vtysh seed" result.exit_code (trim_space result.stderr))

  unfoldable pub run_vtysh : String → String → M (Unit {0})
  run_vtysh id run = do
    let command = shell_command (render_vtysh run)
    result ← invoke (Call.exec id command) (λ past. env.host.executed past id command)
    check_seed result

  unfoldable pub run_command : String → Bool → Progress → Command → M Progress
  run_command id needs_seed p command =
      if command.kind == "shell"
      then run_shell id command.run >> pure p
      else if command.kind == "vtysh"
      then (if needs_seed
          then (do
            if p.waited then pure tt else wait_for_vtysh max_ticks id enabled_daemons
            run_vtysh id command.run
            pure (record { waited = true; ran = true }))
          else pure p)
      else pure p

  unfoldable pub run_commands : String → Bool → Progress → List Command → M Progress
  run_commands id needs_seed p [] = pure p
  run_commands id needs_seed p (command ∷ commands) =
      run_command id needs_seed p command >>= λ p'. run_commands id needs_seed p' commands

  abbrev pub zero_prepared : Option PrepareResult → PrepareResult
  zero_prepared none = record { config_dir = ""; needs_seed = false; marker_path = "" }
  zero_prepared (some p) = p

  unfoldable pub run_commands_of : Dict PrepareResult → String × ResolvedRouter → M (Unit {0})
  run_commands_of prepared (name, router) = do
    s ← get_snapshot
    let c = container_of s name
    let prep = zero_prepared (lookup name prepared)
    within (in_router name) (do
      p ← run_commands c.id prep.needs_seed (record { waited = false; ran = false }) router.commands
      if p.ran then perform env.host (Call.mark_seeded prep.marker_path) else pure tt)

  unfoldable pub run_router_commands :
      Dict PrepareResult → List (String × ResolvedRouter) → M (Unit {0})
  run_router_commands prepared routers = each (run_commands_of prepared) routers
