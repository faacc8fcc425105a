-- ===== src/Runtime/Up/Inventory/Commands.antt =====
-- `runRouterCommands` of internal/runtime/runtime.go and the snapshot.
use frridge.Base.{
  ℕ, zero, suc, String, Bool, true, false, List, [], ◌∷◌, Option, none, some, Result,
}
use frridge.Base.Dict.{Dict}
use frridge.Config.Topology.{Topology, ResolvedRouter, Command}
use frridge.Runtime.Host.{
  write_failed, World, M, ExecResult, WaitEnd, tick, deadline, stopped, fault, PrepareResult, Fault,
}
use frridge.Runtime.Host.Trace.{Keeps, bind-Keeps, pure-Keeps, raise-Keeps, each-Keeps}
use frridge.Runtime.Env.{Env}
use frridge.Runtime.Commands.{
  check_written, unless_running, after_wait, wait_for_vtysh, run_shell, check_seed, run_vtysh,
  run_command, run_commands, run_commands_of, run_router_commands, Progress, all_running,
  show_daemons, wait_error,
}
use frridge.Runtime.Up.Inventory.Steps.{Inv, inv_rules}

module _ (env : Env) (t : Topology) where
  abbrev I : World → Type 0
  I = Inv env t

  after_wait-Keeps :
      (last : Result Fault ExecResult) (again : M (Unit {0})) (end : WaitEnd)
      → Keeps I again
      → Keeps I (after_wait env last again end)
  after_wait-Keeps last again tick k = k
  after_wait-Keeps last again deadline k = raise-Keeps I (Unit {0}) (wait_error last)
  after_wait-Keeps last again (stopped e) k = raise-Keeps I (Unit {0}) (fault e)

  unless_running-Keeps :
      (b : Bool) (again : M (Unit {0})) → Keeps I again → Keeps I (unless_running env b again)
  unless_running-Keeps true again k w p = p
  unless_running-Keeps false again k w p = k w p

  wait_for_vtysh-Keeps :
      (ticks : ℕ) (id : String) (daemons : List String)
      → Keeps I (wait_for_vtysh env ticks id daemons)
  unfolding wait_for_vtysh
  wait_for_vtysh-Keeps zero id daemons w p =
      let result = env.host.executed w.trace id (show_daemons env) in
      unless_running-Keeps (all_running result daemons) _
        (after_wait-Keeps result _ _ (raise-Keeps I (Unit {0}) (wait_error result))) _ (tt, p)
  wait_for_vtysh-Keeps (suc ticks) id daemons w p =
      let result = env.host.executed w.trace id (show_daemons env) in
      unless_running-Keeps (all_running result daemons) _
        (after_wait-Keeps result (wait_for_vtysh env ticks id daemons) _
          (wait_for_vtysh-Keeps ticks id daemons))
        _ (tt, p)

  check_written-Keeps : (o : Option String) → Keeps I (check_written env o)
  check_written-Keeps none = pure-Keeps I tt
  check_written-Keeps (some m) = raise-Keeps I (Unit {0}) (write_failed m)

  check_seed-Keeps : (result : ExecResult) → Keeps I (check_seed env result)
  unfolding check_seed
  check_seed-Keeps result = search (inv_rules, check_written-Keeps)

  run_shell-Keeps : (id run : String) → Keeps I (run_shell env id run)
  unfolding run_shell
  run_shell-Keeps id run = search inv_rules

  run_vtysh-Keeps : (id run : String) → Keeps I (run_vtysh env id run)
  unfolding run_vtysh
  run_vtysh-Keeps id run = search (inv_rules, check_seed-Keeps)

  run_command-Keeps :
      (id : String) (seed : Bool) (p : Progress env) (c : Command)
      → Keeps I (run_command env id seed p c)
  unfolding run_command
  run_command-Keeps id seed p c =
      search (inv_rules, run_vtysh-Keeps, run_shell-Keeps, wait_for_vtysh-Keeps) depth 12

  run_commands-Keeps :
      (id : String) (seed : Bool) (p : Progress env) (cs : List Command)
      → Keeps I (run_commands env id seed p cs)
  unfolding run_commands
  run_commands-Keeps id seed p [] = pure-Keeps I p
  run_commands-Keeps id seed p (c ∷ cs) =
      bind-Keeps I (run_command env id seed p c) _ (run_command-Keeps id seed p c)
        (λ q. run_commands-Keeps id seed q cs)

  run_commands_of-Keeps :
      (prepared : Dict PrepareResult) (router : String × ResolvedRouter)
      → Keeps I (run_commands_of env prepared router)
  unfolding run_commands_of
  run_commands_of-Keeps prepared (name, router) = search (inv_rules, run_commands-Keeps) depth 12

  pub run_router_commands-Keeps :
      (prepared : Dict PrepareResult) (routers : List (String × ResolvedRouter))
      → Keeps I (run_router_commands env prepared routers)
  unfolding run_router_commands
  run_router_commands-Keeps prepared routers = search (each-Keeps, run_commands_of-Keeps)
