-- ===== src/Runtime/Up/Inventory.antt =====
-- The snapshot that `up` (internal/runtime/runtime.go) fills, beside the calls that it makes.
pub mod Steps
pub mod Routers
pub mod Startup
pub mod Commands
use frridge.Base.{
  String, Bool, true, false, List, [], ◌∷◌, ◌≡◌, refl, sym, ap, ◌⊎◌, inl, inr, Option, none, some,
  Result, ok, err, arith, ◌==◌, eq_iff, eq_refl, subst, Bool-cases, if◌then◌else◌,
}
use frridge.Base.Int.{ℤ}
use frridge.Base.Dict.{Dict, lookup, insert, lookup-insert}
use frridge.Config.Topology.{Topology, Link, LinkMember, ResolvedRouter}
use frridge.State.{LabState, ContainerState}
use frridge.Runtime.Names.{bridge_link_name}
use frridge.Runtime.Host.{
  Host, World, History, M, Call, RuntimeError, Fault, perform, invoke, pure, raise, within, ◌>>=◌,
  each, get_snapshot, put_snapshot, continue, as_fault, as_result, check_context,
}
use frridge.Runtime.Host.Trace.{
  Keeps, bind-Keeps, within-Keeps, pure-Keeps, raise-Keeps, each-Keeps, continue-Keeps,
}
use frridge.Runtime.Env.{Env}
use frridge.Runtime.Links.{entries}

module _ (env : Env) (lab : String) where
  -- The inventory names the bridge, under the link that it is named for.
  abbrev pub OwnsBridge : LabState → String → Type 0
  OwnsBridge s bridge =
      (link : String) × (bridge ≡ bridge_link_name env.hashing lab link)
      × (lookup link (entries s.owned_bridges) ≡ some bridge)

  abbrev pub HasContainer : LabState → String → Type 0
  HasContainer s id =
      (name : String) × (c : ContainerState) × (lookup name (entries s.containers) ≡ some c)
      × (c.id ≡ id)

  abbrev pub HasCreated : LabState → Result Fault String → Type 0
  HasCreated s (ok id) = HasContainer s id
  HasCreated s (err e) = Unit

  -- What a call asks of the snapshot.
  abbrev pub Covers : LabState → History → Call → Type 0
  Covers s past (Call.ensure_bridge bridge mtu) = OwnsBridge s bridge
  Covers s past (Call.create_container spec) = HasCreated s (env.host.created past spec)
  Covers s past _ = Unit

  abbrev pub CoversAll : LabState → History → Type 0
  CoversAll s [] = Unit
  CoversAll s (call ∷ past) = Covers s past call × CoversAll s past

  -- The snapshot has all that the calls made so far have brought about.
  abbrev pub IsInventoried : World → Type 0
  IsInventoried w = CoversAll w.snapshot w.trace

  -- A snapshot that has no less.
  abbrev pub Extends : LabState → LabState → Type 0
  Extends s s' =
      ((b : String) → OwnsBridge s b → OwnsBridge s' b)
      × ((id : String) → HasContainer s id → HasContainer s' id)

  HasCreated-Extends :
      (s s' : LabState) (r : Result Fault String) → Extends s s' → HasCreated s r → HasCreated s' r
  HasCreated-Extends s s' (ok id) (_, more) p = more id p
  HasCreated-Extends s s' (err e) more p = tt

  Covers-Extends :
      (s s' : LabState) (past : History) (call : Call)
      → Extends s s'
      → Covers s past call
      → Covers s' past call
  Covers-Extends s s' past (Call.ensure_bridge bridge mtu) (more, _) p = more bridge p
  Covers-Extends s s' past (Call.create_container spec) more p =
      HasCreated-Extends s s' (env.host.created past spec) more p
  Covers-Extends s s' past _ more p = tt

  pub CoversAll-Extends :
      (s s' : LabState) (past : History) → Extends s s' → CoversAll s past → CoversAll s' past
  CoversAll-Extends s s' [] more p = tt
  CoversAll-Extends s s' (call ∷ past) more (p, ps) =
      (Covers-Extends s s' past call more p, CoversAll-Extends s s' past more ps)

  -- A call that asks nothing of the snapshot.
  abbrev pub IsNeutral : Call → Type 0
  IsNeutral call = (s : LabState) (past : History) → Covers s past call

  pub perform-IsInventoried :
      (call : Call) → IsNeutral call → Keeps IsInventoried (perform env.host call)
  unfolding perform
  perform-IsInventoried call free w p = (free w.snapshot w.trace, p)

  pub invoke-IsInventoried :
      {A : Type 0} (call : Call) (answer : History → Result Fault A)
      → IsNeutral call
      → Keeps IsInventoried (invoke call answer)
  unfolding invoke
  invoke-IsInventoried call answer free w p = (free w.snapshot w.trace, p)

  pub get_snapshot-IsInventoried : Keeps IsInventoried get_snapshot
  unfolding get_snapshot
  get_snapshot-IsInventoried w p = p

  pub check_context-IsInventoried : Keeps IsInventoried (check_context env.host)
  unfolding check_context
  check_context-IsInventoried w p = p

  unfoldable pub owned : LabState → String → LabState
  owned s link = record s {
    owned_bridges =
        some (insert link (bridge_link_name env.hashing lab link) (entries s.owned_bridges));
  }

  pub owned-Extends : (s : LabState) (link : String) → Extends s (owned s link)
  unfolding owned
  owned-Extends s link = (
    λ b (k, named, found). (
      k,
      named,
      ground (
        arith,
        lookup-insert link k (bridge_link_name env.hashing lab link) (entries s.owned_bridges),
        eq_iff link k,
      ),
    ),
    λ id has. has,
  )
