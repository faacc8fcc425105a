-- ===== src/Runtime/Commands/Laws.antt =====
-- The loop of waitForVTYSH (internal/runtime/runtime.go), which has no counter, as a relation, and the
-- function that bounds it by the ticks before its deadline.
use frridge.Base.{ℕ, zero, suc, String, true, false, List, ◌≡◌, ◌≢◌, Result, ok, err}
use frridge.Runtime.Host.{
  World, RuntimeError, ExecResult, Fault, WaitEnd, tick, deadline, stopped, fault,
}
use frridge.Runtime.Env.{Env}
use frridge.Runtime.Commands.{all_running, show_daemons, ask_daemons, wait_error}

module _ (env : Env) (id : String) (daemons : List String) where
  abbrev pub answer_at : World → Result Fault ExecResult
  answer_at w = env.host.executed w.trace id (show_daemons env)

  -- What the `select` after the attempt meets.
  abbrev pub wait_at : World → WaitEnd
  wait_at w = env.host.waited (ask_daemons env id w).trace

  -- The runs of the loop: an attempt that shows all the daemons ends it, else the deadline ends it with
  -- the error of the last attempt, a cancelled context with its own error, and a tick starts it again.
  pub data Waits : World → Result RuntimeError (Unit {0}) × World → Type 0 where
    shown :
        (w : World)
        → all_running (answer_at w) daemons ≡ true
        → Waits w (ok tt, ask_daemons env id w)
    timed :
        (w : World)
        → all_running (answer_at w) daemons ≡ false
        → wait_at w ≡ deadline
        → Waits w (err (wait_error (answer_at w)), ask_daemons env id w)
    ended :
        (w : World) (e : Fault)
        → all_running (answer_at w) daemons ≡ false
        → wait_at w ≡ stopped e
        → Waits w (err (fault e), ask_daemons env id w)
    ticked :
        (w : World) {end : Result RuntimeError (Unit {0}) × World}
        → all_running (answer_at w) daemons ≡ false
        → wait_at w ≡ tick
        → Waits (ask_daemons env id w) end
        → Waits w end

  -- After at most so many ticks an attempt is followed by something else: what a timeout and a ticker
  -- bring about.
  unfoldable pub EndsWithin : ℕ → World → Type 0
  EndsWithin zero w = wait_at w ≢ tick
  EndsWithin (suc ticks) w = wait_at w ≡ tick → EndsWithin ticks (ask_daemons env id w)
