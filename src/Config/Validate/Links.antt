-- ===== src/Config/Validate/Links.antt =====
-- What a validated topology promises of its links and its pings.
use frridge.Base.{
  String, true, false, ◌≡◌, refl, ◌⊎◌, ◌||◌, List, [], ◌∷◌, ◌++◌, ok, arith, Distinct, contains,
  All, ◌==◌, for_each_gather, for_each-All, gather, length, ◌≤◌, ltb,
}
use frridge.Base.Int.{ℤ, pos, negsuc, InRange, is_negative, to_uint64}
use frridge.Base.Text.{trim_space, is_blank}
use frridge.Base.Dict.{lookup, is_some, contains-append, Distinct-append}
use frridge.Config.Topology.{Topology, Link, LinkMember, Ping}
use frridge.Config.Claims.{Net}
use frridge.Config.Linux.{max_uint32}
use frridge.Config.Validate.{IfNames, validate_link, validate_ping, validate}
use frridge.Config.Validate.Inversion.{
  validate-eq-ok, validate_member-eq-ok, validate_link-eq-ok, validate_ping-eq-ok,
}

-- The router is defined.
abbrev pub IsDefined : Topology → String → Type 0
IsDefined t router = is_some (lookup router t.routers) ≡ true

abbrev pub MemberFits : Topology → LinkMember → Type 0
MemberFits t m =
    IsDefined t m.router
    × ((trim_space m.if_name == "") ≡ false)
    × ((trim_space m.if_name == "lo") ≡ false)

abbrev pub LinkFits : Topology → Link → Type 0
LinkFits t link =
    InRange 0 max_uint32 link.mtu
    × (((link.type ≡ "bridge") × (2 ≤ length link.members))
        ⊎ ((link.type ≡ "p2p") × (length link.members ≡ 2)))
    × All (MemberFits t) link.members

abbrev pub PingFits : Topology → Ping → Type 0
PingFits t ping =
    IsDefined t ping.from.router × (is_blank ping.to ≡ false) × (is_negative ping.count ≡ false)

mtu_test :
    (x : ℤ) → (is_negative x || ltb max_uint32 (to_uint64 x)) ≡ false → InRange 0 max_uint32 x
mtu_test (pos n) h = record {
  number = n;
  is_number = refl;
  at_least = omega arith;
  at_most = ground arith;
}
mtu_test (negsuc n) h = absurd (ground arith)

-- The names seen are those of the items done, each once.
record Sees (done seen : List String) : Type 0 where
  same : (x : String) → contains done x ≡ contains seen x
  distinct : Distinct done

Sees-add :
    (done seen : List String) (name : String)
    → contains seen name ≡ false
    → Sees done seen
    → Sees (done ++ name ∷ []) (name ∷ seen)
Sees-add done seen name fresh k = record {
  same = λ x. ground (arith, contains-append done name x, k.same x);
  distinct = Distinct-append done name k.distinct (ground (arith, k.same name));
}

module _ (net : Net) (t : Topology) where
  link-LinkFits :
      (s : List String × IfNames) (link : Link) (s' : List String × IfNames)
      → validate_link net t s link ≡ ok s'
      → LinkFits t link
  link-LinkFits (seen, names) link (seen', names') h =
      let (_, _, _, mtu, shape, members) =
        validate_link-eq-ok net t seen seen' names names' link h in
      (
        mtu_test link.mtu mtu,
        shape,
        for_each-All (MemberFits t) _
            (λ s m s' e.
              let (defined, given, other, _, _) = validate_member-eq-ok net t link.name s s' m e in
              (defined, given, other))
            link.members names names' members,
      )

  link-Sees :
      (done : List String) (s : List String × IfNames) (link : Link) (s' : List String × IfNames)
      → Sees done s.0
      → validate_link net t s link ≡ ok s'
      → Sees (done ++ link.name ∷ []) s'.0
  link-Sees done (seen, names) link (seen', names') k h =
      let (_, fresh, e, _, _, _) = validate_link-eq-ok net t seen seen' names names' link h in
      rw e (Sees-add done seen link.name fresh k)

  ping-Sees :
      (done : List String) (seen : List String) (ping : Ping) (seen' : List String)
      → Sees done seen
      → validate_ping net t seen ping ≡ ok seen'
      → Sees (done ++ ping.name ∷ []) seen'
  ping-Sees done seen ping seen' k h =
      let (fresh, e, _, _, _) = validate_ping-eq-ok net t seen seen' ping h in
      rw e (Sees-add done seen ping.name fresh k)

  nothing_seen : Sees [] []
  nothing_seen = record { same = λ x. refl; distinct = tt }

  -- If a topology passes the validation, then link names are distinct; every link has an MTU that
  -- fits 32 bits and is a bridge of at least two members or a point-to-point link of exactly two;
  -- and every member names a defined router and an interface that is neither blank nor "lo".
  pub validate_links :
      validate net t ≡ ok tt
      → Distinct (gather (λ (link : Link). link.name ∷ []) t.links) × All (LinkFits t) t.links
  validate_links h =
      let (names, linked, _, _, _, links, _, _) = validate-eq-ok net t h in
      let seen : Sees (gather (λ (link : Link). link.name ∷ []) t.links) linked.0 =
        for_each_gather (λ done (s : List String × IfNames). Sees done s.0) _ _ link-Sees t.links []
          ([], names) linked nothing_seen links in
      (seen.distinct, for_each-All (LinkFits t) _ link-LinkFits t.links _ _ links)

  -- If a topology passes the validation, then ping names are distinct, and every ping starts from a
  -- defined router, has a target and a count that is not negative.
  pub validate_pings :
      validate net t ≡ ok tt
      → Distinct (gather (λ (ping : Ping). ping.name ∷ []) t.pings) × All (PingFits t) t.pings
  validate_pings h =
      let (_, _, ping_names, _, _, _, _, pings) = validate-eq-ok net t h in
      let seen : Sees (gather (λ (ping : Ping). ping.name ∷ []) t.pings) ping_names =
        for_each_gather Sees _ _ ping-Sees t.pings [] [] ping_names nothing_seen pings in
      (
        seen.distinct,
        for_each-All (PingFits t) _
            (λ s p s' e.
              let (_, _, defined, target, count) = validate_ping-eq-ok net t s s' p e in
              (defined, target, count))
            t.pings _ _ pings,
      )
