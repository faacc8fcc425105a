-- ===== src/Runtime/Links/Laws.antt =====
-- The errors of `configureLinks` (internal/runtime/runtime.go).
use frridge.Base.{
  String, true, false, List, [], ◌∷◌, ◌≡◌, refl, ◌⊎◌, inl, inr, Result, ok, err, ◌==◌, arith,
  eq_iff, All, length,
}
use frridge.Config.Topology.{Topology, Link, LinkMember}
use frridge.Config.Validate.Links.{LinkFits}
use frridge.Runtime.Host.{
  World, M, Call, RuntimeError, Fault, fault, perform, pure, ◌>>=◌, each, get_snapshot,
  put_snapshot, continue,
}
use frridge.Runtime.Env.{Env}
use frridge.Runtime.Links.{
  own_bridge, attach_member, configure_bridge_link, configure_p2p_link, configure_link,
  configure_links,
}

-- Its only errors are those of calls.
abbrev pub FailsByCall : {A : Type 0} → M A → Type 0
FailsByCall m = (w : World) (e : RuntimeError) → (m w).0 ≡ err e → (f : Fault) × (e ≡ fault f)

continue_fails :
    {A B : Type 0} (r : Result RuntimeError A) (g : A → M B) (w : World) (e : RuntimeError)
    → (continue r g w).0 ≡ err e
    → (r ≡ err e) ⊎ ((a : A) × ((g a w).0 ≡ err e))
continue_fails (ok a) g w e h = inr (a, h)
continue_fails (err x) g w e h = inl (cc)

bind-FailsByCall :
    {A B : Type 0} (m : M A) (g : A → M B)
    → FailsByCall m
    → ((a : A) → FailsByCall (g a))
    → FailsByCall (m >>= g)
unfolding ◌>>=◌
bind-FailsByCall m g first rest w e h = elim (continue_fails (m w).0 g (m w).1 e h) [
  | inl failed ↦ first w e failed
  | inr (a, failed) ↦ rest a (m w).1 e failed
]

is_equal : (a b : String) → a ≡ b → (a == b) ≡ true
is_equal a b e = ground (arith, eq_iff a b)

is_other : (a : String) → a ≡ "p2p" → (a == "bridge") ≡ false
is_other a e = rw e refl

module _ (env : Env) (t : Topology) where
  perform-FailsByCall : (call : Call) → FailsByCall (perform env.host call)
  unfolding perform
  perform-FailsByCall call w e h = ground arith

  pure-FailsByCall : FailsByCall (pure tt)
  unfolding pure
  pure-FailsByCall w e h = cc

  get_snapshot-FailsByCall : FailsByCall get_snapshot
  unfolding get_snapshot
  get_snapshot-FailsByCall w e h = cc

  own_bridge-FailsByCall : (link bridge : String) → FailsByCall (own_bridge link bridge)
  unfolding own_bridge get_snapshot put_snapshot ◌>>=◌
  own_bridge-FailsByCall link bridge w e h = cc

  each-FailsByCall :
      {A : Type 0} (g : A → M (Unit {0}))
      → ((a : A) → FailsByCall (g a))
      → (xs : List A) → FailsByCall (each g xs)
  unfolding each
  each-FailsByCall g fails [] = pure-FailsByCall
  each-FailsByCall g fails (x ∷ xs) =
      bind-FailsByCall (g x) (λ _. each g xs) (fails x) (λ _. each-FailsByCall g fails xs)

  ruleset fail_rules = (
    bind-FailsByCall, perform-FailsByCall, pure-FailsByCall, get_snapshot-FailsByCall,
    own_bridge-FailsByCall, each-FailsByCall,
  )

  attach_member-FailsByCall :
      (bridge : String) (link : Link) (m : LinkMember)
      → FailsByCall (attach_member env t bridge link m)
  unfolding attach_member
  attach_member-FailsByCall bridge link m = search fail_rules

  bridge-FailsByCall : (link : Link) → FailsByCall (configure_bridge_link env t link)
  unfolding configure_bridge_link
  bridge-FailsByCall link = search (fail_rules, attach_member-FailsByCall)

  p2p-FailsByCall :
      (link : Link) (left right : LinkMember) (more : List LinkMember)
      → FailsByCall (configure_p2p_link env t link (left ∷ right ∷ more))
  unfolding configure_p2p_link
  p2p-FailsByCall link left right more = search fail_rules

  members-FailsByCall :
      (link : Link) (members : List LinkMember)
      → length members ≡ 2
      → FailsByCall (configure_p2p_link env t link members)
  members-FailsByCall link [] two = absurd (omega arith)
  members-FailsByCall link (_ ∷ []) two = absurd (omega arith)
  members-FailsByCall link (left ∷ right ∷ more) two = p2p-FailsByCall link left right more

  link-FailsByCall : (link : Link) → LinkFits t link → FailsByCall (configure_link env t link)
  unfolding configure_link
  link-FailsByCall link (_, inl (bridge, _), _) =
      rw (is_equal link.type "bridge" bridge) (bridge-FailsByCall link)
  link-FailsByCall link (_, inr (p2p, two), _) =
      rw (is_other link.type p2p)
        (rw (is_equal link.type "p2p" p2p) (members-FailsByCall link link.members two))

  links-FailsByCall :
      (links : List Link) → All (LinkFits t) links → FailsByCall (each (configure_link env t) links)
  unfolding each
  links-FailsByCall [] fits = pure-FailsByCall
  links-FailsByCall (link ∷ links) (fits, more) =
      bind-FailsByCall (configure_link env t link) _ (link-FailsByCall link fits)
        (λ _. links-FailsByCall links more)

  -- When each link fits what the validation promises, configuring the links fails only with the error
  -- of a call to the network layer, never with an index out of range.
  pub configure_links-FailsByCall :
      All (LinkFits t) t.links
      → (w : World) (e : RuntimeError) → (configure_links env t w).0 ≡ err e
      → (f : Fault) × (e ≡ fault f)
  unfolding configure_links
  configure_links-FailsByCall fits w e h = links-FailsByCall t.links fits w e h
