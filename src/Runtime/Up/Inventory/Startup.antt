-- ===== src/Runtime/Up/Inventory/Startup.antt =====
-- The body of `up` (internal/runtime/runtime.go) and the snapshot.
use frridge.Base.{
  String, Bool, false, List, [], ◌∷◌, ◌≡◌, refl, ap, Result, ok, err, ◌==◌, ◌||◌, arith, eq_iff,
  All, Distinct, contains,
}
use frridge.Base.Dict.{Dict, lookup, insert, keys, insert-Distinct}
use frridge.Config.Topology.{Topology, ResolvedRouter, Router}
use frridge.Config.Resolve.{resolve_routers, resolve_names, resolve_router}
use frridge.Config.Paths.{state_path}
use frridge.Runtime.Host.{
  World, M, Call, RuntimeError, perform, ◌>>=◌, get_snapshot, PrepareResult, continue,
  check_context,
}
use frridge.Runtime.Host.Trace.{Keeps, pure-Keeps, continue-Keeps}
use frridge.Runtime.Env.{Env}
use frridge.Runtime.Links.{entries, configure_links, configure_loopbacks}
use frridge.Runtime.Dataplane.{configure_linux}
use frridge.Runtime.Commands.{run_router_commands}
use frridge.Runtime.Up.{create_router, create_routers, place_router, sort_routers, start_lab}
use frridge.Runtime.Up.Inventory.{IsInventoried, check_context-IsInventoried}
use frridge.Runtime.Up.Inventory.Steps.{
  Inv, inv_rules, configure_links-Keeps, configure_loopbacks-Keeps, configure_linux-Keeps,
}
use frridge.Runtime.Up.Inventory.Commands.{run_router_commands-Keeps}
use frridge.Runtime.Up.Inventory.Routers.{IsAbsent, create_router-Inv, create_router-IsAbsent}

-- Sorting keeps the names apart.
contains-place :
    (name : String) (r : ResolvedRouter) (rs : Dict ResolvedRouter) (k : String)
    → contains (keys (place_router name r rs)) k ≡ (name == k || contains (keys rs) k)
unfolding place_router keys
contains-place name r [] k = refl
contains-place name r ((other, next) ∷ rs) k = ground (arith, contains-place name r rs k)

contains-sort :
    (rs : Dict ResolvedRouter) (k : String)
    → contains (keys (sort_routers rs)) k ≡ contains (keys rs) k
unfolding sort_routers keys
contains-sort [] k = refl
contains-sort ((name, r) ∷ rs) k =
    ground (arith, contains-sort rs k, contains-place name r (sort_routers rs) k)

Distinct-place :
    (name : String) (r : ResolvedRouter) (rs : Dict ResolvedRouter)
    → contains (keys rs) name ≡ false
    → Distinct (keys rs)
    → Distinct (keys (place_router name r rs))
unfolding place_router keys
Distinct-place name r [] fresh d = (refl, tt)
Distinct-place name r ((other, next) ∷ rs) fresh d = ground (
  arith,
  eq_iff name other,
  eq_iff other name,
  contains-place name r rs other,
  Distinct-place name r rs,
)

Distinct-sort : (rs : Dict ResolvedRouter) → Distinct (keys rs) → Distinct (keys (sort_routers rs))
unfolding sort_routers keys
Distinct-sort [] d = tt
Distinct-sort ((name, r) ∷ rs) (fresh, d) =
    Distinct-place name r (sort_routers rs) (ground (arith, contains-sort rs name))
      (Distinct-sort rs d)

Distinct-resolve :
    (t : Topology) (resolved : Dict ResolvedRouter) (rs : Dict Router)
    → Distinct (keys resolved)
    → Distinct (keys (resolve_names t resolved rs))
unfolding resolve_names
Distinct-resolve t resolved [] d = d
Distinct-resolve t resolved ((name, _) ∷ rs) d =
    Distinct-resolve t (insert name (resolve_router t name) resolved) rs
      (insert-Distinct name (resolve_router t name) resolved d)

after_continue {ℓ} :
    (P Q : World → Type ℓ) {A B : Type 0} (r : Result RuntimeError A) (f : A → M B) (w : World)
    → P w
    → (P w → Q w)
    → ((a : A) → P w → Q (f a w).1)
    → Q (continue r f w).1
after_continue P Q (ok a) f w p weaken go = go a p
after_continue P Q (err e) f w p weaken go = weaken p

module _ (env : Env) (t : Topology) where
  stay-IsAbsent :
      (digest : String) (reseed : Bool) (name : String) (r : ResolvedRouter) (w : World)
      (rest : List String)
      → contains rest name ≡ false
      → All (λ n. IsAbsent n w) rest
      → All (λ n. IsAbsent n (create_router env t digest reseed (name, r) w).1) rest
  stay-IsAbsent digest reseed name r w [] fresh a = tt
  stay-IsAbsent digest reseed name r w (n ∷ rest) fresh (a, later) = (
    create_router-IsAbsent env t name n (ground (arith, eq_iff name n, eq_iff n name)) digest reseed
        r w a,
    stay-IsAbsent digest reseed name r w rest (ground arith) later,
  )

  create_routers-Inv :
      (digest : String) (reseed : Bool) (prepared : Dict PrepareResult) (rs : Dict ResolvedRouter)
      (w : World)
      → Distinct (keys rs)
      → All (λ n. IsAbsent n w) (keys rs)
      → Inv env t w
      → Inv env t (create_routers env t digest reseed prepared rs w).1
  unfolding create_routers keys ◌>>=◌
  create_routers-Inv digest reseed prepared [] w d a p = pure-Keeps (Inv env t) prepared w p
  create_routers-Inv digest reseed prepared ((name, r) ∷ rs) w (fresh, d) (a, later) p =
      let (result, w') = create_router env t digest reseed (name, r) w in
      let p' = create_router-Inv env t digest reseed name r w a p in
      let later' = stay-IsAbsent digest reseed name r w (keys rs) fresh later in
      after_continue (Inv env t) (Inv env t) result _ w' p' (λ q. q)
        (λ prep q. create_routers-Inv digest reseed (insert name prep prepared) rs w' d later' q)

  none_recorded :
      (w : World) (names : List String)
      → (entries w.snapshot.containers ≡ [])
      → All (λ n. IsAbsent n w) names
  unfolding lookup
  none_recorded w [] e = tt
  none_recorded w (n ∷ names) e = (ap (lookup n) e, none_recorded w names e)

  rest_of_startup-Keeps :
      (prepared : Dict PrepareResult) (routers : Dict ResolvedRouter)
      → Keeps (Inv env t) (
          configure_links env t >>= λ _. configure_loopbacks env routers >>= λ _.
          configure_linux env routers >>= λ _. run_router_commands env prepared routers >>= λ _.
          check_context env.host >>= λ _.
          get_snapshot >>= λ s. perform env.host (Call.write_state (state_path env.override t) s))
  rest_of_startup-Keeps prepared routers =
      search
        (
          inv_rules, configure_links-Keeps, configure_loopbacks-Keeps, configure_linux-Keeps,
          run_router_commands-Keeps, check_context-IsInventoried,
        )
        depth 20

  -- From a snapshot with no container, the startup records each container it created and each bridge
  -- it called for, whether it ends in a running lab or in an error.
  pub start_lab-IsInventoried :
      (digest : String) (reseed : Bool) (w : World)
      → entries w.snapshot.containers ≡ []
      → IsInventoried env t.lab.name w
      → IsInventoried env t.lab.name (start_lab env t digest reseed w).1
  unfolding start_lab resolve_routers ◌>>=◌ keys
  start_lab-IsInventoried digest reseed w empty p =
      let routers = sort_routers (resolve_routers t) in
      let (prepared, w') = create_routers env t digest reseed [] routers w in
      continue-Keeps (Inv env t) prepared _ (λ prep. rest_of_startup-Keeps prep routers) w'
        (create_routers-Inv digest reseed [] routers w
          (Distinct-sort (resolve_routers t) (Distinct-resolve t [] t.routers tt))
          (none_recorded w (keys routers) empty) p)
