-- ===== src/Config/Validate/Inversion.antt =====
-- What a validation that raises no error has found.
use frridge.Base.{
  String, true, false, ◌≡◌, ◌||◌, ◌⊎◌, none, List, [], ◌∷◌, ◌==◌, ok, for_each, contains, length,
  ltb, arith, ◌≤◌, eq_iff,
}
use frridge.Base.Text.{trim_space, is_blank}
use frridge.Base.Int.{is_negative, to_uint64}
use frridge.Base.Dict.{lookup, insert, is_some, lookup-insert}
use frridge.Config.Topology.{Topology, Router, Link, LinkMember, Ping}
use frridge.Config.Paths.{is_path_component}
use frridge.Config.Claims.{Net}
use frridge.Config.Linux.{Claims, validate_linux, max_uint32}
use frridge.Config.Validate.{
  IfNames, names_of, each, validate_router, validate_member, validate_link, in_router,
  validate_router_linux, validate_ping, validate,
}

module _ (net : Net) (t : Topology) where
  pub validate-eq-ok :
      validate net t ≡ ok tt
      → (names : IfNames) × (linked : List String × IfNames) × (ping_names : List String)
        × (is_path_component t.lab.name ≡ true)
        × (for_each (validate_router net t) [] t.routers ≡ ok names)
        × (for_each (validate_link net t) ([], names) t.links ≡ ok linked)
        × (each (validate_router_linux net t linked.1) t.routers ≡ ok tt)
        × (for_each (validate_ping net t) [] t.pings ≡ ok ping_names)
  unfolding validate
  validate-eq-ok h = ground arith

  pub validate_member-eq-ok :
      (link : String) (names names' : IfNames) (m : LinkMember)
      → validate_member net t link names m ≡ ok names'
      → (is_some (lookup m.router t.routers) ≡ true)
        × ((trim_space m.if_name == "") ≡ false)
        × ((trim_space m.if_name == "lo") ≡ false)
        × (lookup (trim_space m.if_name) (names_of m.router names) ≡ none)
        × (names'
            ≡ insert m.router (insert (trim_space m.if_name) link (names_of m.router names)) names)
  unfolding validate_member
  validate_member-eq-ok link names names' m h = ground arith

  pub validate_link-eq-ok :
      (seen seen' : List String) (names names' : IfNames) (link : Link)
      → validate_link net t (seen, names) link ≡ ok (seen', names')
      → (is_blank link.name ≡ false)
        × (contains seen link.name ≡ false)
        × (seen' ≡ link.name ∷ seen)
        × ((is_negative link.mtu || ltb max_uint32 (to_uint64 link.mtu)) ≡ false)
        × (((link.type ≡ "bridge") × (2 ≤ length link.members))
            ⊎ ((link.type ≡ "p2p") × (length link.members ≡ 2)))
        × (for_each (validate_member net t link.name) names link.members ≡ ok names')
  unfolding validate_link
  validate_link-eq-ok seen seen' names names' link h =
      ground (arith, eq_iff link.type "bridge", eq_iff link.type "p2p")

  pub validate_router_linux-eq-ok :
      (names : IfNames) (name : String) (router : Router)
      → validate_router_linux net t names (name, router) ≡ ok tt
      → (c : Claims) × (validate_linux net router.linux (names_of name names) ≡ ok c)
  unfolding validate_router_linux in_router
  validate_router_linux-eq-ok names name router h = ground arith

  pub validate_ping-eq-ok :
      (seen seen' : List String) (ping : Ping)
      → validate_ping net t seen ping ≡ ok seen'
      → (contains seen ping.name ≡ false)
        × (seen' ≡ ping.name ∷ seen)
        × (is_some (lookup ping.from.router t.routers) ≡ true)
        × (is_blank ping.to ≡ false)
        × (is_negative ping.count ≡ false)
  unfolding validate_ping
  validate_ping-eq-ok seen seen' ping h = ground arith

  pub names_of-validate_router :
      (r : String) (names names' : IfNames) (nr : String × Router)
      → names_of r names ≡ []
      → validate_router net t names nr ≡ ok names'
      → names_of r names' ≡ []
  unfolding validate_router
  names_of-validate_router r names names' (name, router) e h =
      ground (arith, lookup-insert name r [] names, eq_iff name r)
