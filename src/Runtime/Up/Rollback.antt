-- ===== src/Runtime/Up/Rollback.antt =====
-- The deferred rollback of `up` (internal/runtime/runtime.go).
use frridge.Base.{
  String, Bool, false, [], ◌∷◌, ◌≡◌, refl, subst, ◌⊎◌, inl, inr, Option, none, some, Result, ok,
  err, ◌==◌, arith, All, Bool-cases,
}
use frridge.Base.Dict.{Dict, lookup, values}
use frridge.Config.Topology.{Topology}
use frridge.Config.Paths.{state_path}
use frridge.State.{LabState, ContainerState}
use frridge.Runtime.Host.{World, Call, RuntimeError, History, Fault, perform}
use frridge.Runtime.Host.Trace.{Called, Succeeded}
use frridge.Runtime.Env.{Env}
use frridge.Runtime.Links.{entries}
use frridge.Runtime.Cleanup.{ids_of, container_ids, cleanup_runtime}
use frridge.Runtime.Cleanup.Laws.{All-add_ids, IsCleared, cleanup_runtime-IsCleared}
use frridge.Runtime.Up.{start_lab, roll_back, guarded, recover, after_rollback}
use frridge.Runtime.Up.Inventory.{IsInventoried, HasCreated, Covers, CoversAll}
use frridge.Runtime.Up.Inventory.Startup.{start_lab-IsInventoried}

module _ {ℓ} (P : String → Type ℓ) where
  All-lookup : (k v : String) (m : Dict String) → lookup k m ≡ some v → All P (values m) → P v
  unfolding lookup values
  All-lookup k v [] e a = absurd (ground arith)
  All-lookup k v ((j, x) ∷ m) e (p, a) = elim (Bool-cases (j == k)) [
    | inl f ↦ subst P (ground arith) p
    | inr f ↦ All-lookup k v m (ground arith) a
  ]

  All-lookup_id :
      (k : String) (c : ContainerState) (m : Dict ContainerState)
      → lookup k m ≡ some c
      → All P (ids_of (values m))
      → P c.id
  unfolding lookup values
  All-lookup_id k c [] e a = absurd (ground arith)
  All-lookup_id k c ((j, x) ∷ m) e (p, a) = elim (Bool-cases (j == k)) [
    | inl f ↦ let same : x ≡ c = ground arith in subst (λ (y : ContainerState). P y.id) same p
    | inr f ↦ All-lookup_id k c m (ground arith) a
  ]

  All-recorded :
      (k : String) (c : ContainerState) (containers : Option (Dict ContainerState))
      → lookup k (entries containers) ≡ some c
      → All P (container_ids containers)
      → P c.id
  unfolding container_ids lookup
  All-recorded k c none e a = absurd (ground arith)
  All-recorded k c (some m) e a = All-lookup_id k c m e (All-add_ids P [] (ids_of (values m)) a).1

module _ (env : Env) (t : Topology) where
  abbrev pub IsRemoved : World → Result Fault String → Type 0
  IsRemoved w (ok id) = Succeeded env.host (Call.remove_container id) w.trace
  IsRemoved w (err e) = Unit

  -- What the call brought about is gone.
  abbrev pub IsUndone : World → History → Call → Type 0
  IsUndone w past (Call.ensure_bridge bridge mtu) =
      Succeeded env.host (Call.delete_link bridge) w.trace
  IsUndone w past (Call.create_container spec) = IsRemoved w (env.host.created past spec)
  IsUndone w past _ = Unit

  abbrev pub AllUndone : World → History → Type 0
  AllUndone w [] = Unit
  AllUndone w (call ∷ past) = IsUndone w past call × AllUndone w past

  module _ (s : LabState) (w : World) (c : IsCleared env t s w) where
    removed : (r : Result Fault String) → HasCreated env t.lab.name s r → IsRemoved w r
    removed (err e) p = tt
    removed (ok id) (name, k, found, named) =
        let P : String → Type 0 = λ x. Succeeded env.host (Call.remove_container x) w.trace in
        subst P named (All-recorded P name k s.containers found c.recorded_gone)

    undone :
        (past : History) (call : Call) → Covers env t.lab.name s past call → IsUndone w past call
    undone past (Call.ensure_bridge bridge mtu) (link, named, found) =
        All-lookup (λ x. Succeeded env.host (Call.delete_link x) w.trace) link bridge c.bridges
          (subst (λ o. lookup link (entries o) ≡ some bridge) c.has_inventory found) c.bridges_gone
    undone past (Call.create_container spec) p = removed (env.host.created past spec) p
    undone past _ p = tt

    all_undone : (past : History) → CoversAll env t.lab.name s past → AllUndone w past
    all_undone [] p = tt
    all_undone (call ∷ past) (p, ps) = (undone past call p, all_undone past ps)

  -- The file is written with the snapshot.
  abbrev pub IsSaved : LabState → World → Type 0
  IsSaved s w = Called (Call.write_state (state_path env.override t) s) w.trace

  after_cleanup :
      (e : RuntimeError) (s : LabState) (past : History) (r : Result RuntimeError (Unit {0}))
      (w : World)
      → ((r ≡ ok tt) → AllUndone w past)
      → AllUndone (after_rollback env t e s r w).1 past ⊎ IsSaved s (after_rollback env t e s r w).1
  unfolding after_rollback perform
  after_cleanup e s past (ok done) w undo = inl (undo refl)
  after_cleanup e s past (err cleanup) w undo = inr (inl refl)

  after_rollback-err :
      (e : RuntimeError) (s : LabState) (r : Result RuntimeError (Unit {0})) (w : World)
      → (e' : RuntimeError) × ((after_rollback env t e s r w).0 ≡ err e')
  unfolding after_rollback
  after_rollback-err e s (ok _) w = (e, refl)
  after_rollback-err e s (err cleanup) w = (_, refl)

  roll_back-undone :
      (e : RuntimeError) (w : World)
      → IsInventoried env t.lab.name w
      → AllUndone (roll_back env t e w).1 w.trace ⊎ IsSaved w.snapshot (roll_back env t e w).1
  unfolding roll_back
  roll_back-undone e w p =
      let (r, w') = cleanup_runtime env t (some w.snapshot) false w in
      after_cleanup e w.snapshot w.trace r w' (λ fine.
        all_undone w.snapshot w'
          (cleanup_runtime-IsCleared env t (some w.snapshot) false w w.snapshot (inl refl) fine)
          w.trace p)

  recovered :
      (r : Result RuntimeError (Unit {0})) (w : World) (e : RuntimeError)
      → IsInventoried env t.lab.name w
      → r ≡ err e
      → ((e' : RuntimeError) × ((recover env t r w).0 ≡ err e'))
        × (AllUndone (recover env t r w).1 w.trace
            ⊎ (IsInventoried env t.lab.name w × IsSaved w.snapshot (recover env t r w).1))
  unfolding recover roll_back
  recovered (ok a) w e p failed = cc
  recovered (err x) w e p failed =
      let (r, w') = cleanup_runtime env t (some w.snapshot) false w in
      (
        after_rollback-err x w.snapshot r w',
        elim (roll_back-undone x w p) [ inl undone ↦ inl undone | inr saved ↦ inr (p, saved) ],
      )

  -- A startup that fails, from a snapshot with no container, returns an error and leaves nothing
  -- behind unrecorded: either each bridge that it called for was deleted and each container that it
  -- created was removed, all with success, or writing the state file is called for, with a snapshot
  -- that names each of them.
  pub guarded-undone :
      (digest : String) (reseed : Bool) (w : World) (e : RuntimeError)
      → entries w.snapshot.containers ≡ []
      → IsInventoried env t.lab.name w
      → (start_lab env t digest reseed w).0 ≡ err e
      → let w1 = (start_lab env t digest reseed w).1 in
        let end = guarded env t (start_lab env t digest reseed) w in
        ((e' : RuntimeError) × (end.0 ≡ err e'))
        × (AllUndone end.1 w1.trace ⊎ (IsInventoried env t.lab.name w1 × IsSaved w1.snapshot end.1))
  unfolding guarded
  guarded-undone digest reseed w e empty p failed =
      let (r, w1) = start_lab env t digest reseed w in
      recovered r w1 e (start_lab-IsInventoried env t digest reseed w empty p) failed
