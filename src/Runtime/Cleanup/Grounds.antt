-- ===== src/Runtime/Cleanup/Grounds.antt =====
-- On what grounds `Down` of internal/runtime/runtime.go removes something.
use frridge.Base.{
  String, Bool, true, false, List, [], ◌∷◌, ◌++◌, ◌≡◌, refl, ◌⊎◌, inl, inr, Option, none, some,
  Result, ok, err, All, contains, gather, arith, eq_refl, if◌then◌else◌,
}
use frridge.Base.Dict.{Dict, values}
use frridge.Config.Topology.{Topology}
use frridge.Config.Paths.{state_path, lab_dir}
use frridge.State.{LabState, StateError, validate}
use frridge.Runtime.Host.{
  World, Call, History, Fault, RuntimeError, perform, attempt_each, raise, pure, within, invoke,
  ◌>>=◌, as_fault, legacy_state, invalid_state, purge_failed, continue, M,
}
use frridge.Runtime.Host.Trace.{Keeps, bind-Keeps, within-Keeps, pure-Keeps, raise-Keeps}
use frridge.Runtime.Env.{Env, StateRead, found, missing, failed, read_lab_state, lab_labels}
use frridge.Runtime.Cleanup.{
  add_id, add_ids, container_ids, listed_ids, link_names, remove_container, delete_link, list_lab,
  finish, remove_all_of, cleanup_recorded, cleanup_known, refuse_containers, cleanup_unknown,
  cleanup_read, cleanup_runtime, down,
}

module _ (P : String → Type 0) where
  All-of : (xs : List String) → ((x : String) → contains xs x ≡ true → P x) → All P xs
  All-of [] f = tt
  All-of (x ∷ xs) f = (f x (ground (arith, eq_refl x)), All-of xs (λ y c. f y (ground arith)))

  append-All : (xs : List String) (y : String) → All P xs → P y → All P (xs ++ y ∷ [])
  append-All [] y a p = (p, tt)
  append-All (x ∷ xs) y (q, a) p = (q, append-All xs y a p)

  add_ids-All : (ids rest : List String) → All P ids → All P rest → All P (add_ids ids rest)
  unfolding add_ids
  add_ids-All ids [] a b = a
  add_ids-All ids (id ∷ rest) a (p, b) =
      add_ids-All (add_id ids id) rest (choose (contains ids id)) b
    where
      choose : (c : Bool) → All P (if c then ids else ids ++ id ∷ [])
      choose true = a
      choose false = append-All ids id a p

module _ (env : Env) (t : Topology) (purge : Bool) (w : World) where
  -- The world after the state file was read, and the answer to listing the containers there.
  abbrev pub after_read : World
  after_read = (read_lab_state env t w).1

  abbrev pub listing : Result Fault (List String)
  listing = env.host.listed after_read.trace (lab_labels t)

  -- The state file holds a valid snapshot with an inventory of bridges.
  pub record Inventory : Type 0 where
    pub snapshot : LabState
    pub bridges : Dict String
    pub is_read : (read_lab_state env t w).0 ≡ found snapshot
    pub is_valid : validate env.hashing snapshot t.lab.name ≡ ok tt
    pub has_bridges : snapshot.owned_bridges ≡ some bridges

  abbrev pub IsListed : String → Type 0
  IsListed id = (ids : List String) × (listing ≡ ok ids) × (contains ids id ≡ true)

  -- There is an inventory, or neither a state file nor a container of the lab.
  abbrev pub MayForget : Type 0
  MayForget = Inventory ⊎ (((read_lab_state env t w).0 ≡ missing) × (listing ≡ ok []))

  -- The ground of each call; there is none for a call that is not here.
  abbrev pub Justified : Call → Type 0
  Justified (Call.read_state path) = path ≡ state_path env.override t
  Justified (Call.list_containers labels) = labels ≡ lab_labels t
  Justified (Call.remove_container id) =
      (i : Inventory) × ((contains (container_ids i.snapshot.containers) id ≡ true) ⊎ IsListed id)
  Justified (Call.delete_link name) =
      (i : Inventory) × ((contains (gather (link_names env.hashing t.lab.name) t.links) name ≡ true)
        ⊎ (contains (values i.bridges) name ≡ true))
  Justified (Call.remove_state path) = (path ≡ state_path env.override t) × MayForget
  Justified (Call.remove_all dir) = (dir ≡ lab_dir env.override t) × (purge ≡ true) × MayForget
  Justified _ = ⊥

  abbrev pub AllJustified : History → Type 0
  AllJustified [] = Unit
  AllJustified (call ∷ past) = Justified call × AllJustified past

  record Holds (u : World) : Type 0 where
    so_far : AllJustified u.trace

  perform-Holds : (call : Call) → Justified call → Keeps Holds (perform env.host call)
  unfolding perform
  perform-Holds call ground u h = record { so_far = (ground, h.so_far) }

  loop-Holds :
      (make : String → Call) (xs : List String) (acc : Option RuntimeError)
      → All (λ x. Justified (make x)) xs
      → (u : World) → Holds u
      → Holds (attempt_each (λ x. perform env.host (make x)) acc xs u).1
  unfolding attempt_each
  loop-Holds make [] acc all u h = h
  loop-Holds make (x ∷ xs) acc (first, all) u h =
      loop-Holds make xs _ all _ (perform-Holds (make x) first u h)

  purge-Holds :
      (b : Bool)
      → (b ≡ true → purge ≡ true)
      → MayForget
      → Keeps Holds (
          if b
          then within purge_failed (perform env.host (Call.remove_all (lab_dir env.override t)))
          else pure tt)
  purge-Holds true same may =
      within-Keeps Holds purge_failed _ (perform-Holds _ (refl, same refl, may))
  purge-Holds false same may = pure-Keeps Holds tt

  finish-Holds : (e : Option RuntimeError) → MayForget → Keeps Holds (finish env t purge e)
  unfolding finish
  finish-Holds (some e) may = raise-Keeps Holds (Unit {0}) e
  finish-Holds none may =
      bind-Keeps Holds (perform env.host _) _ (perform-Holds _ (refl, may))
        (λ _. purge-Holds purge (λ e. e) may)

  listed_members :
      (i : Inventory) (r : Result Fault (List String))
      → listing ≡ r
      → All (λ id. Justified (Call.remove_container id)) (listed_ids (as_fault r))
  listed_members i (ok ids) same = All-of _ ids (λ id c. (i, inr (ids, same, c)))
  listed_members i (err e) same = tt

  recorded-Holds :
      (i : Inventory)
      → Holds after_read
      → Holds
          (cleanup_recorded env t purge
            (container_ids i.snapshot.containers)
            (values i.bridges)
            after_read).1
  unfolding cleanup_recorded remove_all_of list_lab invoke remove_container delete_link
  recorded-Holds i h = finish-Holds _ (inl i) _ (
      loop-Holds Call.delete_link (values i.bridges) _
        (All-of _ (values i.bridges) (λ name c. (i, inr c))) _
        (loop-Holds Call.delete_link _ _ (All-of _ _ (λ name c. (i, inl c))) _ (
          loop-Holds Call.remove_container _ _
            (add_ids-All _ (container_ids i.snapshot.containers) _ (All-of _ _ (λ id c. (i, inl c)))
              (listed_members i listing refl))
            _ (record { so_far = (refl, h.so_far) }))))

  known_cases :
      (s : LabState)
      → (read_lab_state env t w).0 ≡ found s
      → Holds after_read
      → (v : Result StateError (Unit {0})) → validate env.hashing s t.lab.name ≡ v
      → (o : Option (Dict String)) → s.owned_bridges ≡ o
      → Holds
          ((elim v as (λ _. M (Unit {0})) [
            | err e ↦ raise (invalid_state e)
            | ok _ ↦ elim o [
              | none ↦ raise legacy_state
              | some bridges ↦
                  cleanup_recorded env t purge (container_ids s.containers) (values bridges)
            ]
          ])
            after_read).1
  known_cases s r h (err e) v o same = raise-Keeps Holds (Unit {0}) (invalid_state e) after_read h
  known_cases s r h (ok _) v none same = raise-Keeps Holds (Unit {0}) legacy_state after_read h
  known_cases s r h (ok _) v (some bridges) same =
      recorded-Holds
        (record { snapshot = s; bridges = bridges; is_read = r; is_valid = v; has_bridges = same })
        h

  refuse-Holds :
      (read_lab_state env t w).0 ≡ missing
      → (r : Result Fault (List String)) → listing ≡ r
      → (u : World) → Holds u
      → Holds (continue (as_fault r) (refuse_containers env t purge) u).1
  unfolding refuse_containers raise
  refuse-Holds gone (err e) same u h = h
  refuse-Holds gone (ok []) same u h = finish-Holds none (inr (gone, same)) u h
  refuse-Holds gone (ok (id ∷ ids)) same u h = h

  read-Holds :
      (r : StateRead)
      → (read_lab_state env t w).0 ≡ r
      → Holds after_read
      → Holds (cleanup_read env t purge r after_read).1
  unfolding cleanup_read cleanup_known cleanup_unknown list_lab invoke ◌>>=◌
  read-Holds (found s) same h =
      known_cases s same h (validate env.hashing s t.lab.name) refl s.owned_bridges refl
  read-Holds missing same h =
      refuse-Holds same listing refl _ (record { so_far = (refl, h.so_far) })
  read-Holds (failed e) same h = raise-Keeps Holds (Unit {0}) e after_read h

  -- Whatever the outside answers, each call of `down` has its ground. A container is removed only when
  -- the state file holds a valid snapshot with an inventory of bridges, and the snapshot or the listing
  -- names the container; a link is deleted only on such a snapshot, when it is a host interface of the
  -- topology or a bridge of the inventory; the state file, and with --purge the lab's directory, are
  -- removed only on such a snapshot, or when there is no state file and no container of the lab. There
  -- is no other call but reading the state file and listing the containers.
  pub down-AllJustified : w.trace ≡ [] → AllJustified (down env t purge w).1.trace
  unfolding down cleanup_runtime read_lab_state
  down-AllJustified fresh = (read-Holds _ refl (record { so_far = (refl, rw fresh tt) })).so_far
