-- ===== src/Netlink/Handles.antt =====
-- The namespaces and the handles that internal/netlink/netlink.go opens and closes.
use frridge.Base.{
  ◌≡◌, refl, ap, subst, ℕ, suc, ◌-◌, String, false, none, some, [], ◌∷◌, arith, Option-cases, ◌∙◌,
  inl, inr,
}
use mathlib.Core.Option.{some-injective}
use frridge.Base.Int.{ℤ, is_non_positive}
use frridge.Base.Program.{
  Keeps, ◌>>=◌, within, sequence-Keeps, pure-Keeps, raise-Keeps, within-Keeps, each-Keeps,
}
use frridge.Base.Program.Calls.{perform}
use frridge.Netlink.Kernel.{
  Kernel, Call, History, NetlinkError, N, get_namespace, new_handle, close_namespace, close_handle,
  perform_on, Lookup, found, lookup_fault, link_not_found,
}
use frridge.Netlink.Host.{
  bridge_of, ensure_bridge, create_bridge_attachment, create_p2p_attachment, delete_found,
  delete_link,
}
use frridge.Netlink.Guest.{
  defer, open_and_run, with_pid_handle, configure_attached_link, configure_loopback, configure_vrf,
  configure_bond, configure_bridge, attach_link_master_in, configure_interface, configure_veth,
  configure_bridge_namespace_veth, configure_route,
}
use frridge.Netlink.Manager.{manager_method}
use frridge.Netlink.Stable.{
  is_handle_call, IsStable, when-Keeps, require-Keeps, if-Keeps, lookup_link-Keeps,
  query_link-Keeps, perform-Keeps, perform_on-Keeps, set_link_up-Keeps, attach_link_master-Keeps,
  configure_address-Keeps, configure_link-Keeps, add_veth-Keeps, configure_vxlan-Keeps,
  build_route-Keeps, join_bond-Keeps, join_bridge-Keeps,
}
use frridge.Runtime.Host as Runtime

-- How many namespaces and handles are open after the calls.
unfoldable pub held : Kernel → History → ℕ
held k [] = 0
held k (get_namespace pid ∷ past) =
    let before = held k past in
    elim (k.answered past (get_namespace pid)) [ none ↦ suc before | some _ ↦ before ]
held k (new_handle pid ∷ past) =
    let before = held k past in
    elim (k.answered past (new_handle pid)) [ none ↦ suc before | some _ ↦ before ]
held k (close_namespace _ ∷ past) = held k past - 1
held k (close_handle _ ∷ past) = held k past - 1
held k (_ ∷ past) = held k past

module _ (k : Kernel) where
  pub record Holds (n : ℕ) (past : History) : Type 0 where
    pub count : held k past ≡ n

  held_neutral :
      (call : Call) (past : History)
      → is_handle_call call ≡ false
      → held k (call ∷ past) ≡ held k past
  unfolding held is_handle_call
  held_neutral (Call.link_by_name _) past h = refl
  held_neutral (Call.link_add _) past h = refl
  held_neutral (Call.link_del _) past h = refl
  held_neutral (Call.link_set_up _) past h = refl
  held_neutral (Call.link_set_down _) past h = refl
  held_neutral (Call.link_set_mtu _ _) past h = refl
  held_neutral (Call.link_set_name _ _) past h = refl
  held_neutral (Call.link_set_hardware_addr _ _) past h = refl
  held_neutral (Call.link_set_master _ _) past h = refl
  held_neutral (Call.link_set_ns_pid _ _) past h = refl
  held_neutral (Call.link_set_addr_gen_mode _ _) past h = refl
  held_neutral (Call.link_set_neigh_suppress _ _) past h = refl
  held_neutral (Call.link_set_learning _ _) past h = refl
  held_neutral (Call.addr_replace _ _) past h = refl
  held_neutral (Call.route_replace _) past h = refl
  held_neutral (get_namespace _) past h = cc
  held_neutral (new_handle _) past h = cc
  held_neutral (close_namespace _) past h = cc
  held_neutral (close_handle _) past h = cc

  Holds-IsStable : (n : ℕ) → IsStable (Holds n)
  Holds-IsStable n = record {
    keeps_call = λ call h past p. record { count = rw (held_neutral call past h) p.count };
  }

  -- A call that opens, and a body with the call that closes at its end.
  module _ (n : ℕ) (acquire release : Call) (body : N (Unit {0})) where
    bracket-Keeps :
        ((past : History)
          → k.answered past acquire ≡ none
          → held k (acquire ∷ past) ≡ suc (held k past))
        → ((past : History) (e : NetlinkError)
            → k.answered past acquire ≡ some e
            → held k (acquire ∷ past) ≡ held k past)
        → ((past : History) → held k (release ∷ past) ≡ held k past - 1)
        → Keeps (Holds (suc n)) body
        → (what : String)
        → Keeps (Holds n) (perform_on k what "" acquire >>= λ _. defer release body)
    unfolding ◌>>=◌ perform_on within perform defer
    bracket-Keeps opens fails closes keeps what past p =
        elim (Option-cases (k.answered past acquire)) [
          | inl e ↦ rw e (
              let more =
                keeps (acquire ∷ past) (record { count = opens past e ∙ ap suc p.count }) in
              record { count = rw (closes (body (acquire ∷ past)).1) (omega (arith, more.count)) })
          | inr (x, e) ↦ rw e (record { count = fails past x e ∙ p.count })
        ]

  with_pid_handle-Keeps :
      (n : ℕ) (pid : ℤ) (body : N (Unit {0}))
      → ((m : ℕ) → Keeps (Holds m) body)
      → Keeps (Holds n) (with_pid_handle k pid body)
  unfolding with_pid_handle open_and_run held
  with_pid_handle-Keeps n pid body keeps =
      if-Keeps (Holds n) (is_non_positive pid) _ _ (raise-Keeps (Holds n) Unit _) (
        bracket-Keeps n (get_namespace pid) (close_namespace pid) _ (λ past e. rw (e, held) refl)
          (λ past x e. rw (e, held) refl) (λ past. refl)
          (bracket-Keeps (suc n) (new_handle pid) (close_handle pid) body
            (λ past e. rw (e, held) refl) (λ past x e. rw (e, held) refl) (λ past. refl)
            (keeps (suc (suc n))) "create netlink handle")
          "open netns")

  ruleset handle_rules = (
    sequence-Keeps, pure-Keeps, raise-Keeps, within-Keeps, each-Keeps, lookup_link-Keeps,
    query_link-Keeps, perform-Keeps, perform_on-Keeps, when-Keeps, require-Keeps, if-Keeps,
    set_link_up-Keeps, attach_link_master-Keeps, configure_address-Keeps, configure_link-Keeps,
    add_veth-Keeps, configure_vxlan-Keeps, build_route-Keeps, Holds-IsStable, refl,
  )

  module _ (n : ℕ) where
    bridge_of-Keeps :
        (name : String) (mtu : ℤ) (answer : Lookup) → Keeps (Holds n) (bridge_of k name mtu answer)
    unfolding bridge_of is_handle_call
    bridge_of-Keeps name mtu (found link) = search handle_rules depth 20
    bridge_of-Keeps name mtu (lookup_fault e) = search handle_rules depth 20
    bridge_of-Keeps name mtu link_not_found = search handle_rules depth 20

    delete_found-Keeps :
        (name : String) (answer : Lookup) → Keeps (Holds n) (delete_found k name answer)
    unfolding delete_found is_handle_call
    delete_found-Keeps name (found link) = search handle_rules depth 20
    delete_found-Keeps name (lookup_fault e) = search handle_rules depth 20
    delete_found-Keeps name link_not_found = search handle_rules depth 20

    ensure_bridge-Keeps : (name : String) (mtu : ℤ) → Keeps (Holds n) (ensure_bridge k name mtu)
    unfolding ensure_bridge is_handle_call
    ensure_bridge-Keeps name mtu = search (handle_rules, bridge_of-Keeps) depth 20

    delete_link-Keeps : (name : String) → Keeps (Holds n) (delete_link k name)
    unfolding delete_link
    delete_link-Keeps name = search (handle_rules, delete_found-Keeps) depth 20

    bridge_attachment-Keeps :
        (bridge host peer : String) (pid mtu : ℤ)
        → Keeps (Holds n) (create_bridge_attachment k bridge host peer pid mtu)
    unfolding create_bridge_attachment is_handle_call
    bridge_attachment-Keeps bridge host peer pid mtu = search handle_rules depth 20

    p2p_attachment-Keeps :
        (a : String) (a_pid : ℤ) (b : String) (b_pid mtu : ℤ)
        → Keeps (Holds n) (create_p2p_attachment k a a_pid b b_pid mtu)
    unfolding create_p2p_attachment is_handle_call
    p2p_attachment-Keeps a a_pid b b_pid mtu = search handle_rules depth 20

  ruleset method_rules = (
    handle_rules, with_pid_handle-Keeps, ensure_bridge-Keeps, delete_link-Keeps,
    bridge_attachment-Keeps, p2p_attachment-Keeps, join_bond-Keeps, join_bridge-Keeps,
  )

  same_method :
      (n : ℕ) (m method : N (Unit {0}))
      → some m ≡ some method
      → Keeps (Holds n) m
      → Keeps (Holds n) method
  same_method n m method h keeps = subst (λ x. Keeps (Holds n) x) (some-injective m method h) keeps

  manager_method-Keeps :
      (n : ℕ) (call : Runtime.Call) (method : N (Unit {0}))
      → manager_method k call ≡ some method
      → Keeps (Holds n) method
  unfolding manager_method configure_attached_link configure_loopback configure_vrf configure_bond
      configure_bridge attach_link_master_in configure_interface configure_veth
      configure_bridge_namespace_veth configure_route is_handle_call
  manager_method-Keeps n (Runtime.ensure_bridge name mtu) method h =
      same_method n _ method h (search method_rules depth 20)
  manager_method-Keeps n (Runtime.create_bridge_attachment bridge host peer pid mtu) method h =
      same_method n _ method h (search method_rules depth 20)
  manager_method-Keeps n (Runtime.create_p2p_attachment a a_pid b b_pid mtu) method h =
      same_method n _ method h (search method_rules depth 20)
  manager_method-Keeps n (Runtime.delete_link name) method h =
      same_method n _ method h (search method_rules depth 20)
  manager_method-Keeps n (Runtime.configure_attached_link pid temp member mtu) method h =
      same_method n _ method h (search method_rules depth 20)
  manager_method-Keeps n (Runtime.configure_loopback pid addresses) method h =
      same_method n _ method h (search method_rules depth 20)
  manager_method-Keeps n (Runtime.configure_vrf pid vrf) method h =
      same_method n _ method h (search method_rules depth 20)
  manager_method-Keeps n (Runtime.configure_bond pid bond) method h =
      same_method n _ method h (search method_rules depth 20)
  manager_method-Keeps n (Runtime.configure_bridge pid bridge) method h =
      same_method n _ method h (search method_rules depth 20)
  manager_method-Keeps n (Runtime.attach_link_master pid if_name master) method h =
      same_method n _ method h (search method_rules depth 20)
  manager_method-Keeps n (Runtime.configure_interface pid iface) method h =
      same_method n _ method h (search method_rules depth 20)
  manager_method-Keeps n (Runtime.configure_veth pid veth) method h =
      same_method n _ method h (search method_rules depth 20)
  manager_method-Keeps n (Runtime.configure_bridge_namespace_veth pid bridge host peer) method h =
      same_method n _ method h (search method_rules depth 20)
  manager_method-Keeps n (Runtime.configure_route pid route) method h =
      same_method n _ method h (search method_rules depth 20)
  manager_method-Keeps n (Runtime.create_container _) method h = cc
  manager_method-Keeps n (Runtime.start_container _) method h = cc
  manager_method-Keeps n (Runtime.inspect_container _) method h = cc
  manager_method-Keeps n (Runtime.remove_container _) method h = cc
  manager_method-Keeps n (Runtime.list_containers _) method h = cc
  manager_method-Keeps n (Runtime.exec _ _) method h = cc
  manager_method-Keeps n (Runtime.exec_interactive _ _) method h = cc
  manager_method-Keeps n (Runtime.stat_state _) method h = cc
  manager_method-Keeps n (Runtime.read_state _) method h = cc
  manager_method-Keeps n (Runtime.remove_state _) method h = cc
  manager_method-Keeps n (Runtime.write_state _ _) method h = cc
  manager_method-Keeps n (Runtime.mkdir_all _) method h = cc
  manager_method-Keeps n (Runtime.remove_all _) method h = cc
  manager_method-Keeps n (Runtime.mark_seeded _) method h = cc
  manager_method-Keeps n (Runtime.prepare_router_files _ _ _) method h = cc

  -- Every method of the manager closes the namespaces and the handles that it opens, also when it
  -- fails part way: after it as many are open as before.
  pub manager_method-held :
      (call : Runtime.Call) (method : N (Unit {0}))
      → manager_method k call ≡ some method
      → (past : History) → held k (method past).1 ≡ held k past
  manager_method-held call method h past =
      (manager_method-Keeps (held k past) call method h past (record { count = refl })).count
