-- ===== src/Runtime/Up/Whole.antt =====
-- The whole of `up` (internal/runtime/runtime.go), with what comes before the guarded body.
use frridge.Base.{String, Bool, [], ◌∷◌, ◌≡◌, refl, subst, ◌⊎◌, inl, inr, Result, ok, err}
use frridge.Config.Topology.{Topology}
use frridge.State.{LabState}
use frridge.Base.Dict.{lookup}
use frridge.Config.Paths.{routers_dir}
use frridge.Runtime.Up.{recover}
use frridge.Runtime.Host.{
  World, M, Call, RuntimeError, History, Fault, perform, lift, ◌>>=◌, put_snapshot, as_fault,
}
use frridge.Runtime.Env.{Env}
use frridge.Runtime.Links.{entries}
use frridge.Runtime.Up.{clear_runtime, new_snapshot, start_lab, guarded, up}
use frridge.Runtime.Up.Clearing.{Holds, clear_runtime-Holds, recover-Holds}
use frridge.Runtime.Up.Rollback.{IsUndone, IsRemoved, AllUndone, IsSaved, guarded-undone}
use frridge.Runtime.Host.{continue, as_result}
use frridge.Runtime.Up.Inventory.{Covers, HasCreated, CoversAll, IsInventoried, IsNeutral}

module _ (env : Env) (t : Topology) where
  -- No call of the past has created a container or called for a bridge.
  abbrev pub IsQuiet : World → Type 0
  IsQuiet w = (s : LabState) → CoversAll env t.lab.name s w.trace

  quiet-adds :
      (call : Call) (past : History)
      → IsNeutral env t.lab.name call
      → ((s : LabState) → CoversAll env t.lab.name s past)
      → (s : LabState) → CoversAll env t.lab.name s (call ∷ past)
  quiet-adds call past free q s = (free s past, q s)

  abbrev Quiet : World → Type 0
  Quiet = Holds env t (λ past. (s : LabState) → CoversAll env t.lab.name s past) quiet-adds

  -- The snapshot that has nothing.
  abbrev nothing : LabState
  nothing = new_snapshot env t ""

  nothing-IsUndone :
      (w : World) (past : History) (call : Call)
      → Covers env t.lab.name nothing past call
      → IsUndone env t w past call
  unfolding lookup
  nothing-IsUndone w past (Call.ensure_bridge bridge mtu) (link, named, there) = absurd (cc)
  nothing-IsUndone w past (Call.create_container spec) p =
      not_created (env.host.created past spec) p
    where
      not_created :
          (r : Result Fault String) → HasCreated env t.lab.name nothing r → IsRemoved env t w r
      not_created (err e) p = tt
      not_created (ok id) (name, c, there, named) = absurd (cc)
  nothing-IsUndone w past _ p = tt

  nothing-AllUndone :
      (w : World) (past : History) → CoversAll env t.lab.name nothing past → AllUndone env t w past
  nothing-AllUndone w [] p = tt
  nothing-AllUndone w (call ∷ past) (p, ps) =
      (nothing-IsUndone w past call p, nothing-AllUndone w past ps)

  undone-adds :
      (w : World) (call : Call) (past : History)
      → IsNeutral env t.lab.name call
      → AllUndone env t w past
      → AllUndone env t w (call ∷ past)
  undone-adds w call past free p = (nothing-IsUndone w past call (free nothing past), p)

  covered-adds :
      (s : LabState) (call : Call) (past : History)
      → IsNeutral env t.lab.name call
      → CoversAll env t.lab.name s past
      → CoversAll env t.lab.name s (call ∷ past)
  covered-adds s call past free p = (free s past, p)

  -- How a startup that failed ends, by all the calls there are at its end: each bridge that was called
  -- for was deleted, and each container that was created was removed, all with success; or writing the
  -- state file was called for, with a snapshot that names each of them.
  abbrev pub Leaves : World → Type 0
  Leaves after =
      AllUndone env t after after.trace
      ⊎ ((s : LabState) × CoversAll env t.lab.name s after.trace × IsSaved env t s after)

  nothing_left : (w : World) → Quiet w → Leaves w
  nothing_left w q = inl (nothing-AllUndone w w.trace (q.so_far nothing))

  abbrev EndsWell : Result RuntimeError (Unit {0}) × World → Type 0
  EndsWell (r, after) = (e : RuntimeError) → r ≡ err e → Leaves after

  continue_ends :
      {A : Type 0} (r : Result RuntimeError A) (f : A → M (Unit {0})) (w : World)
      → Quiet w
      → ((a : A) → EndsWell (f a w))
      → EndsWell (continue r f w)
  continue_ends (err x) f w q go = λ e h. nothing_left w q
  continue_ends (ok a) f w q go = go a

  not_failed :
      (r : Result RuntimeError (Unit {0})) (w : World) (a : Unit {0}) (e : RuntimeError)
      → r ≡ ok a
      → (recover env t r w).0 ≡ err e
      → ⊥
  unfolding recover
  not_failed (ok b) w a e same h = cc
  not_failed (err x) w a e same h = cc

  rolled_back :
      (r : Result RuntimeError (Unit {0})) (ended after : World)
      → (recover env t r ended).1 ≡ after
      → (AllUndone env t after ended.trace
          ⊎ (IsInventoried env t.lab.name ended × IsSaved env t ended.snapshot after))
      → Leaves after
  rolled_back r ended after same (inl undone) = inl (
      subst (λ z. AllUndone env t after z.trace) same
        (recover-Holds env t (AllUndone env t after) (undone-adds after) r ended
          (record { so_far = undone })).so_far)
  rolled_back r ended after same (inr (covered, saved)) = inr (
    ended.snapshot,
    subst (λ z. CoversAll env t.lab.name ended.snapshot z.trace) same
        (recover-Holds env t (CoversAll env t.lab.name ended.snapshot) (covered-adds ended.snapshot)
          r ended (record { so_far = covered })).so_far,
    saved,
  )

  guarded-ends :
      (digest : String) (reseed : Bool) (w : World)
      → entries w.snapshot.containers ≡ []
      → Quiet w
      → (r : Result RuntimeError (Unit {0})) → ((start_lab env t digest reseed w).0 ≡ r)
      → EndsWell (guarded env t (start_lab env t digest reseed) w)
  unfolding guarded
  guarded-ends digest reseed w empty q (err x) same = λ e h.
      rolled_back (start_lab env t digest reseed w).0 (start_lab env t digest reseed w).1
        (guarded env t (start_lab env t digest reseed) w).1 refl
        (guarded-undone env t digest reseed w x empty (q.so_far w.snapshot) same).1
  guarded-ends digest reseed w empty q (ok a) same = λ e h. absurd (
      not_failed (start_lab env t digest reseed w).0 (start_lab env t digest reseed w).1 a e same h)

  -- A call of `up` that fails, from a manager that has made nothing yet, has deleted each bridge it
  -- called for and removed each container it created, all with success, or it has called for the state
  -- file to be written with a snapshot that names each of them. Both are said of all the calls that
  -- were made by its end.
  pub up-Leaves :
      (recreate reseed : Bool) (w : World) (e : RuntimeError)
      → IsQuiet w
      → (up env t recreate reseed w).0 ≡ err e
      → Leaves (up env t recreate reseed w).1
  unfolding up perform lift put_snapshot ◌>>=◌
  up-Leaves recreate reseed w e quiet =
      let (r, w1) = clear_runtime env t recreate w in
      let q1 : Quiet w1 =
        clear_runtime-Holds env t _ quiet-adds recreate w (record { so_far = quiet }) in
      let call = Call.mkdir_all (routers_dir env.override t) in
      let w2 : World = record w1 { trace = call ∷ w1.trace } in
      let q2 : Quiet w2 = record { so_far = λ s. (tt, q1.so_far s) } in
      continue_ends r _ w1 q1
        (λ _. continue_ends (as_result (env.host.perform w1.trace call)) _ w2 q2 (λ _.
          continue_ends (as_fault (env.digest t)) _ w2 q2 (λ digest.
            guarded-ends digest reseed (record w2 { snapshot = new_snapshot env t digest }) refl
              (record { so_far = q2.so_far }) _ refl)))
        e
