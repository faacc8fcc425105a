-- ===== src/Runtime/Up/Inventory/Routers.antt =====
-- The loop of `up` (internal/runtime/runtime.go) that creates the routers, and the snapshot.
use frridge.Base.{
  String, Bool, true, false, ◌∷◌, ◌≡◌, refl, sym, ap, subst, inl, inr, none, some, Result, ok, err,
  ◌==◌, arith, eq_iff, eq_refl, Bool-cases,
}
use frridge.Base.Int.{ℤ, pos}
use frridge.Base.Dict.{lookup, insert, lookup-insert}
use frridge.Config.Topology.{Topology, ResolvedRouter}
use frridge.Config.Paths.{router_dir}
use frridge.State.{LabState, ContainerState}
use frridge.Runtime.Host.{
  World, M, Call, History, Fault, perform, pure, invoke, ◌>>=◌, get_snapshot, put_snapshot,
  PrepareResult, ContainerSpec, continue, as_fault,
}
use frridge.Runtime.Host.Trace.{Keeps, bind-Keeps, pure-Keeps}
use frridge.Runtime.Env.{Env}
use frridge.Runtime.Links.{entries, container_of, or_zero}
use frridge.Runtime.Up.{record_container, start_router, create_router, container_spec}
use frridge.Runtime.Up.Inventory.{
  perform-IsInventoried, invoke-IsInventoried, Extends, HasCreated, CoversAll-Extends,
}
use frridge.Runtime.Up.Inventory.Steps.{Inv}

-- No container is recorded for the router.
abbrev pub IsAbsent : String → World → Type 0
IsAbsent name w = lookup name (entries w.snapshot.containers) ≡ none

unfoldable contained : LabState → String → ContainerState → LabState
contained s name c = record s { containers = some (insert name c (entries s.containers)) }

module _ (env : Env) (t : Topology) where
  equal_names : (a b : String) → (a == b) ≡ true → a ≡ b
  equal_names a b e = ground (arith, eq_iff a b)

  -- An entry may be written again with the same identifier.
  contained-Extends :
      (s : LabState) (name : String) (c : ContainerState)
      → ((old : ContainerState) → lookup name (entries s.containers) ≡ some old → c.id ≡ old.id)
      → Extends env t.lab.name s (contained s name c)
  unfolding contained
  contained-Extends s name c same = (
    λ b owns. owns,
    λ id (n, old, found, named).
        let there = lookup-insert name n c (entries s.containers) in
        elim (Bool-cases (name == n)) [
          | inl e ↦ (
            n,
            c,
            ground (arith, there),
            ground (
              arith,
              eq_iff name n,
              same old (
                  subst (λ x. lookup x (entries s.containers) ≡ some old)
                    (sym (equal_names name n e)) found),
            ),
          )
          | inr d ↦ (n, old, ground (arith, there), named)
        ],
  )

  set_pid-Keeps :
      (name : String) (pid : ℤ)
      → Keeps
          (Inv env t)
          (get_snapshot >>= λ s. record_container name (record (container_of s name) { pid = pid }))
  unfolding get_snapshot put_snapshot record_container ◌>>=◌ contained container_of
  set_pid-Keeps name pid w p =
      let s = w.snapshot in
      let c : ContainerState = record (container_of s name) { pid = pid } in
      CoversAll-Extends env t.lab.name s (contained s name c) w.trace
        (contained-Extends s name c (λ old found. ap (λ o. (or_zero o).id) found)) p

  start_router-Keeps : (name id : String) → Keeps (Inv env t) (start_router env t name id)
  unfolding start_router
  start_router-Keeps name id =
      bind-Keeps (Inv env t) (perform env.host _) _
        (perform-IsInventoried env t.lab.name (Call.start_container id) (λ s past. tt))
        (λ _.
          bind-Keeps (Inv env t) (invoke _ _) _
            (invoke-IsInventoried env t.lab.name (Call.inspect_container id) _ (λ s past. tt))
            (λ pid. set_pid-Keeps name pid))

  -- What follows the creation of a container under a name that has no entry.
  created_step :
      (name : String) (spec : ContainerSpec) (prep : PrepareResult) (k : String → M PrepareResult)
      (w : World)
      → ((id : String) → Keeps (Inv env t) (k id))
      → IsAbsent name w
      → Inv env t w
      → (r : Result Fault String) → (env.host.created w.trace spec ≡ r)
      → Inv env t
          (continue
            (as_fault r)
            (λ id.
              record_container name (record { id = id; pid = pos 0; config_dir = prep.config_dir })
              >>= λ _. k id)
            (record w { trace = Call.create_container spec ∷ w.trace })).1
  unfolding get_snapshot put_snapshot record_container ◌>>=◌ contained
  created_step name spec prep k w keeps fresh p (err f) e =
      (subst (HasCreated env t.lab.name w.snapshot) (sym e) tt, p)
  created_step name spec prep k w keeps fresh p (ok id) e =
      let s = w.snapshot in
      let c : ContainerState = record { id = id; pid = pos 0; config_dir = prep.config_dir } in
      let there = lookup-insert name name c (entries s.containers) in
      let recorded : HasCreated env t.lab.name (contained s name c) (ok id) =
        (name, c, ground (arith, there, eq_refl name), refl) in
      keeps id
        (record { trace = Call.create_container spec ∷ w.trace; snapshot = contained s name c })
        (
          subst (HasCreated env t.lab.name (contained s name c)) (sym e) recorded,
          CoversAll-Extends env t.lab.name s (contained s name c) w.trace
              (contained-Extends s name c (λ old found. absurd (ground arith))) p,
        )

  prepared_step :
      (digest name : String) (r : ResolvedRouter) (w : World)
      → IsAbsent name w
      → Inv env t w
      → (prepared : Result Fault PrepareResult)
      → Inv env t
          (continue
            (as_fault prepared)
            (λ prep.
              invoke
                (Call.create_container (container_spec env t digest name r prep))
                (λ past. env.host.created past (container_spec env t digest name r prep))
              >>= λ id.
                  record_container name
                    (record { id = id; pid = pos 0; config_dir = prep.config_dir })
                  >>= λ _. start_router env t name id >>= λ _. pure prep)
            w).1
  unfolding ◌>>=◌ invoke
  prepared_step digest name r w fresh p (err f) = p
  prepared_step digest name r w fresh p (ok prep) =
      let spec = container_spec env t digest name r prep in
      created_step name spec prep (λ id. start_router env t name id >>= λ _. pure prep) w
        (λ id.
          bind-Keeps (Inv env t) (start_router env t name id) _ (start_router-Keeps name id)
            (λ _. pure-Keeps (Inv env t) prep))
        fresh p (env.host.created w.trace spec) refl

  pub create_router-Inv :
      (digest : String) (reseed : Bool) (name : String) (r : ResolvedRouter) (w : World)
      → IsAbsent name w
      → Inv env t w
      → Inv env t (create_router env t digest reseed (name, r) w).1
  unfolding create_router ◌>>=◌ invoke
  create_router-Inv digest reseed name r w fresh p =
      let dir = router_dir env.override t name in
      prepared_step digest name r
        (record w { trace = Call.prepare_router_files dir r.hostname reseed ∷ w.trace }) fresh
        (tt, p) (env.host.prepared w.trace dir r.hostname reseed)

  -- A router's round writes no other router's entry.
  module _ (name other : String) (apart : (name == other) ≡ false) where
    record_container-Keeps : (c : ContainerState) → Keeps (IsAbsent other) (record_container name c)
    unfolding record_container get_snapshot put_snapshot ◌>>=◌
    record_container-Keeps c w p =
        ground (arith, lookup-insert name other c (entries w.snapshot.containers))

    perform-IsAbsent : (call : Call) → Keeps (IsAbsent other) (perform env.host call)
    unfolding perform
    perform-IsAbsent call w p = p

    invoke-IsAbsent :
        {A : Type 0} (call : Call) (answer : History → Result Fault A)
        → Keeps (IsAbsent other) (invoke call answer)
    unfolding invoke
    invoke-IsAbsent call answer w p = p

    get_snapshot-IsAbsent : Keeps (IsAbsent other) get_snapshot
    unfolding get_snapshot
    get_snapshot-IsAbsent w p = p

    start_router-IsAbsent : (id : String) → Keeps (IsAbsent other) (start_router env t name id)
    unfolding start_router
    start_router-IsAbsent id =
        search
          (
            bind-Keeps, record_container-Keeps, perform-IsAbsent, invoke-IsAbsent,
            get_snapshot-IsAbsent,
          )
          depth 10

    pub create_router-IsAbsent :
        (digest : String) (reseed : Bool) (r : ResolvedRouter)
        → Keeps (IsAbsent other) (create_router env t digest reseed (name, r))
    unfolding create_router
    create_router-IsAbsent digest reseed r =
        search
          (bind-Keeps, pure-Keeps, record_container-Keeps, invoke-IsAbsent, start_router-IsAbsent)
          depth 12
