-- ===== src/Runtime/Cleanup/Laws.antt =====
-- The calls of `cleanupRuntime` (internal/runtime/runtime.go).
use frridge.Base.{
  String, Bool, true, false, List, [], ◌∷◌, ◌++◌, ◌≡◌, refl, sym, ◌⊎◌, inl, inr, Option, none, some,
  Result, ok, err, All, arith, contains, ◌==◌, eq_iff, subst, gather, Bool-cases, if◌then◌else◌,
}
use frridge.Base.Dict.{Dict, values}
use frridge.Config.Topology.{Topology}
use frridge.Config.Paths.{state_path, lab_dir}
use frridge.State.{LabState}
use frridge.Runtime.Host.{
  Fault, Fault, World, History, Call, RuntimeError, perform, attempt_each, invoke, pure, raise,
  within, purge_failed, as_fault,
}
use frridge.Runtime.Host.Trace.{
  Succeeded, Keeps, attempt_each-Keeps, attempt_each-none, perform-Keeps-Succeeded,
}
use frridge.Runtime.Host.Trace.{within-Keeps, raise-Keeps, perform_then-ok, bind-Keeps, pure-Keeps}
use frridge.Runtime.Env.{Env, found, read_lab_state, lab_labels}
use frridge.Runtime.Cleanup.{
  add_id, add_ids, container_ids, link_names, remove_container, delete_link, list_lab, finish,
  remove_all_of, cleanup_recorded, cleanup_known, cleanup_read, cleanup_runtime,
}

module _ {ℓ} (P : String → Type ℓ) where
  All-map {κ} :
      (Q : String → Type κ) → ((x : String) → P x → Q x) → (xs : List String) → All P xs → All Q xs
  All-map Q f [] a = tt
  All-map Q f (x ∷ xs) a = (f x a.0, All-map Q f xs a.1)

  All-append : (xs : List String) (y : String) → All P (xs ++ y ∷ []) → All P xs × P y
  All-append [] y a = (tt, a.0)
  All-append (x ∷ xs) y a = let (k, l) = All-append xs y a.1 in ((a.0, k), l)

  All-contains : (xs : List String) (y : String) → contains xs y ≡ true → All P xs → P y
  All-contains [] y c a = absurd (ground arith)
  All-contains (x ∷ xs) y c a = elim (Bool-cases (x == y)) [
    | inl e ↦ subst P (ground (arith, eq_iff x y)) a.0
    | inr n ↦ All-contains xs y (ground arith) a.1
  ]

  All-add_id : (ids : List String) (id : String) → All P (add_id ids id) → All P ids × P id
  All-add_id ids id a =
      let split : Bool → Type ℓ = λ b. All P (if b then ids else ids ++ id ∷ []) in
      elim (Bool-cases (contains ids id)) [
        | inl e ↦ let old : All P ids = subst split e a in (old, All-contains ids id e old)
        | inr n ↦ All-append ids id (subst split n a)
      ]

  -- The set of identifiers has all of both lists.
  pub All-add_ids : (ids rest : List String) → All P (add_ids ids rest) → All P ids × All P rest
  unfolding add_ids
  All-add_ids ids [] a = (a, tt)
  All-add_ids ids (id ∷ rest) a =
      let (both, later) = All-add_ids (add_id ids id) rest a in
      let (old, new) = All-add_id ids id both in (old, (new, later))

module _ (env : Env) (t : Topology) where
  -- The snapshot that a cleanup works with: the caller's, or the one of the state file.
  abbrev pub IsAtHand : Option LabState → World → LabState → Type 0
  IsAtHand given w s = (given ≡ some s) ⊎ ((given ≡ none) × ((read_lab_state env t w).0 ≡ found s))

  -- All that the inventory, the labels and the links of the topology name was removed, without an
  -- error, and the state file after it.
  pub record IsCleared (s : LabState) (w : World) : Type 0 where
    pub bridges : Dict String
    pub has_inventory : s.owned_bridges ≡ some bridges
    pub past : History
    pub listed : List String
    pub was_listed : env.host.listed past (lab_labels t) ≡ ok listed
    pub recorded_gone :
        All
          (λ id. Succeeded env.host (Call.remove_container id) w.trace)
          (container_ids s.containers)
    pub listed_gone : All (λ id. Succeeded env.host (Call.remove_container id) w.trace) listed
    pub links_gone :
        All
          (λ name. Succeeded env.host (Call.delete_link name) w.trace)
          (gather (link_names env.hashing t.lab.name) t.links)
    pub bridges_gone :
        All (λ name. Succeeded env.host (Call.delete_link name) w.trace) (values bridges)
    pub state_gone : Succeeded env.host (Call.remove_state (state_path env.override t)) w.trace

  abbrev Has : Call → World → Type 0
  Has done w = Succeeded env.host done w.trace

  purge-Keeps :
      (purge : Bool) (done : Call)
      → Keeps (Has done) (
          if purge
          then within purge_failed (perform env.host (Call.remove_all (lab_dir env.override t)))
          else pure tt)
  purge-Keeps true done =
      within-Keeps (Has done) purge_failed (perform env.host _)
        (perform-Keeps-Succeeded env.host done _)
  purge-Keeps false done = pure-Keeps (Has done) tt

  finish-Keeps :
      (done : Call) (purge : Bool) (e : Option RuntimeError)
      → Keeps (Has done) (finish env t purge e)
  unfolding finish
  finish-Keeps done purge (some e) = raise-Keeps (Has done) (Unit {0}) e
  finish-Keeps done purge none =
      bind-Keeps (Has done) (perform env.host _) _ (perform-Keeps-Succeeded env.host done _)
        (λ _. purge-Keeps purge done)

  -- A result without an error is what every step gave.
  finish-ok :
      (purge : Bool) (e : Option RuntimeError) (w : World)
      → (finish env t purge e w).0 ≡ ok tt
      → (e ≡ none) × Has (Call.remove_state (state_path env.override t)) (finish env t purge e w).1
  unfolding finish raise
  finish-ok purge (some e) w h = cc
  finish-ok purge none w h = (
    refl,
    perform_then-ok env.host (Call.remove_state (state_path env.override t)) _ w
        (purge-Keeps purge (Call.remove_state (state_path env.override t))) h,
  )

  deletes_keep :
      (done : Call) (names : List String) (acc : Option RuntimeError) (w : World)
      → Has done w
      → Has done (attempt_each (delete_link env t) acc names w).1
  unfolding delete_link
  deletes_keep done names acc w p =
      attempt_each-Keeps (Has done) (delete_link env t)
        (λ n. perform-Keeps-Succeeded env.host done (Call.delete_link n)) names acc w p

  remove_all_of-ok :
      (purge : Bool) (s : LabState) (bridges : Dict String) (listed : List String) (past : History)
      (w : World)
      → s.owned_bridges ≡ some bridges
      → env.host.listed past (lab_labels t) ≡ ok listed
      → (remove_all_of env t purge (container_ids s.containers) (values bridges) (ok listed) w).0
        ≡ ok tt
      → IsCleared s
          (remove_all_of env t purge (container_ids s.containers) (values bridges) (ok listed) w).1
  unfolding remove_all_of remove_container delete_link
  remove_all_of-ok purge s bridges listed past w own l h =
      let ids = add_ids (container_ids s.containers) listed in
      let names = gather (link_names env.hashing t.lab.name) t.links in
      let (e1, w1) = attempt_each (remove_container env t) none ids w in
      let (e2, w2) = attempt_each (delete_link env t) e1 names w1 in
      let (e3, w3) = attempt_each (delete_link env t) e2 (values bridges) w2 in
      let w9 = (finish env t purge e3 w3).1 in
      let to_end : (done : Call) → Has done w3 → Has done w9 =
        λ done p. finish-Keeps done purge e3 w3 p in
      let from_links : (done : Call) → Has done w2 → Has done w9 =
        λ done p. to_end done (deletes_keep done (values bridges) e2 w2 p) in
      let from_ids : (done : Call) → Has done w1 → Has done w9 =
        λ done p. from_links done (deletes_keep done names e1 w1 p) in
      let (none3, removed) = finish-ok purge e3 w3 h in
      let (none2, bridges_gone) =
        attempt_each-none env.host Call.delete_link (values bridges) e2 w2 none3 in
      let (none1, links_gone) = attempt_each-none env.host Call.delete_link names e1 w1 none2 in
      let (_, ids_gone) = attempt_each-none env.host Call.remove_container ids none w none1 in
      let gone_ids : All (λ id. Has (Call.remove_container id) w9) ids =
        All-map _ _ (λ id. from_ids (Call.remove_container id)) ids ids_gone in
      let (recorded, labelled) =
        All-add_ids (λ id. Has (Call.remove_container id) w9) (container_ids s.containers) listed
          gone_ids in
      record {
        bridges = bridges;
        has_inventory = own;
        past = past;
        listed = listed;
        was_listed = l;
        recorded_gone = recorded;
        listed_gone = labelled;
        links_gone = All-map _ _ (λ name. from_links (Call.delete_link name)) names links_gone;
        bridges_gone =
            All-map _ _ (λ name. to_end (Call.delete_link name)) (values bridges) bridges_gone;
        state_gone = removed;
      }

  remove_all_of-listed :
      (purge : Bool) (ids bridges : List String) (r : Result RuntimeError (List String)) (w : World)
      → (remove_all_of env t purge ids bridges r w).0 ≡ ok tt
      → (listed : List String) × (r ≡ ok listed)
  unfolding remove_all_of remove_container delete_link
  remove_all_of-listed purge ids bridges (ok listed) w h = (listed, refl)
  remove_all_of-listed purge ids bridges (err e) w h =
      let acc : Option RuntimeError = some e in
      let (e1, w1) = attempt_each (remove_container env t) acc (add_ids ids []) w in
      let names = gather (link_names env.hashing t.lab.name) t.links in
      let (e2, w2) = attempt_each (delete_link env t) e1 names w1 in
      let (e3, w3) = attempt_each (delete_link env t) e2 bridges w2 in
      let (none3, _) = finish-ok purge e3 w3 h in
      let (none2, _) = attempt_each-none env.host Call.delete_link bridges e2 w2 none3 in
      let (none1, _) = attempt_each-none env.host Call.delete_link names e1 w1 none2 in
      let (none0, _) =
        attempt_each-none env.host Call.remove_container (add_ids ids []) acc w none1 in
      absurd (cc)

  as_fault-ok : {A : Type 0} (r : Result Fault A) {a : A} → as_fault r ≡ ok a → r ≡ ok a
  as_fault-ok (ok a) h = cc
  as_fault-ok (err e) h = cc

  cleanup_recorded-ok :
      (purge : Bool) (s : LabState) (bridges : Dict String) (w : World)
      → s.owned_bridges ≡ some bridges
      → (cleanup_recorded env t purge (container_ids s.containers) (values bridges) w).0 ≡ ok tt
      → IsCleared s (cleanup_recorded env t purge (container_ids s.containers) (values bridges) w).1
  unfolding cleanup_recorded list_lab invoke
  cleanup_recorded-ok purge s bridges w own h =
      let (r, w') = list_lab env t w in
      let ids = container_ids s.containers in
      let (listed, e) = remove_all_of-listed purge ids (values bridges) r w' h in
      subst (λ x. IsCleared s (remove_all_of env t purge ids (values bridges) x w').1) (sym e)
        (remove_all_of-ok purge s bridges listed w.trace w' own (as_fault-ok _ e)
          (subst (λ x. (remove_all_of env t purge ids (values bridges) x w').0 ≡ ok tt) e h))

  some_injective : {A : Type 0} {a b : A} → some a ≡ some b → a ≡ b
  some_injective e = cc

  cleanup_known-eq :
      (purge : Bool) (s : LabState) (w : World)
      → (cleanup_known env t purge s w).0 ≡ ok tt
      → (bridges : Dict String) × (s.owned_bridges ≡ some bridges)
        × (cleanup_known env t purge s w
            ≡ cleanup_recorded env t purge (container_ids s.containers) (values bridges) w)
  unfolding cleanup_known raise
  cleanup_known-eq purge s w h = ground arith

  cleanup_known-ok :
      (purge : Bool) (s : LabState) (w : World)
      → (cleanup_known env t purge s w).0 ≡ ok tt
      → IsCleared s (cleanup_known env t purge s w).1
  cleanup_known-ok purge s w h =
      let (bridges, own, same) = cleanup_known-eq purge s w h in
      rw same (cleanup_recorded-ok purge s bridges w own (rw (← same) h))

  -- A cleanup that returns without an error, from the caller's snapshot or from the one of the state
  -- file, has removed every container of the snapshot and every container listed under the lab's
  -- labels, every host interface of the topology's links, every bridge of the inventory and the
  -- state file, and each of these calls succeeded.
  pub cleanup_runtime-IsCleared :
      (given : Option LabState) (purge : Bool) (w : World) (s : LabState)
      → IsAtHand given w s
      → (cleanup_runtime env t given purge w).0 ≡ ok tt
      → IsCleared s (cleanup_runtime env t given purge w).1
  unfolding cleanup_runtime cleanup_read
  cleanup_runtime-IsCleared (some g) purge w s (inl e) h =
      subst (λ x. IsCleared x (cleanup_known env t purge g w).1) (some_injective e)
        (cleanup_known-ok purge g w h)
  cleanup_runtime-IsCleared none purge w s (inl e) h = absurd (cc)
  cleanup_runtime-IsCleared (some g) purge w s (inr (e, r)) h = absurd (cc)
  cleanup_runtime-IsCleared none purge w s (inr (e, r)) h =
      let (read, w') = read_lab_state env t w in
      subst (λ x. IsCleared s (cleanup_read env t purge x w').1) (sym r)
        (cleanup_known-ok purge s w' (subst (λ x. (cleanup_read env t purge x w').0 ≡ ok tt) r h))
