-- ===== src/Netlink/Order.antt =====
-- The order in which internal/netlink/netlink.go enslaves a link.
use frridge.Base.{
  none, ◌≡◌, refl, subst, String, Bool, true, false, ◌∷◌, if◌then◌else◌, ok, ◌==◌, inr,
}
use frridge.Base.Text.{trim_space}
use frridge.Base.Program.{within, sequence-ok, within-ok}
use frridge.Base.Program.Calls.{perform, Succeeded, perform-Succeeded, perform-ok, invoke}
use frridge.Netlink.Kernel.{
  Kernel, Call, History, Device, link_by_name, link_set_up, link_set_down, link_set_master,
  addr_replace, lookup_link, perform_on, Lookup, found, link_not_found, lookup_fault, device_of,
}
use frridge.Netlink.Links.{when, set_link_up, set_master, attach_link_master, configure_address}
use frridge.Netlink.Guest.{join_bond}
use frridge.Netlink.Stable.{IsStable}

module _ (k : Kernel) where
  pub Succeeded-IsStable : (call : Call) → IsStable (Succeeded k.answered call)
  Succeeded-IsStable call = record { keeps_call = λ c h past p. inr p }

  -- A call on a link that went well is the last of the record.
  pub perform_on-ok :
      (what name : String) (call : Call) (past : History)
      → (perform_on k what name call past).0 ≡ ok tt
      → Succeeded k.answered call (perform_on k what name call past).1
  unfolding perform_on within
  perform_on-ok what name call past h =
      perform-Succeeded k.answered call past (within-ok _ (perform k.answered call) past h)

  pub perform_on-none :
      (what name : String) (call : Call) (past : History)
      → (perform_on k what name call past).0 ≡ ok tt
      → k.answered past call ≡ none
  unfolding perform_on within
  perform_on-none what name call past h =
      perform-ok k.answered call past (within-ok _ (perform k.answered call) past h)

  pub configure_address-Succeeded :
      (what : String) (link : Device) (name address : String) (past : History)
      → (configure_address k what link name address past).0 ≡ ok tt
      → Succeeded k.answered
          (addr_replace link address)
          (configure_address k what link name address past).1
  unfolding configure_address
  configure_address-Succeeded what link name address past h =
      let (_, first, same) = sequence-ok _ _ past h in
      rw same
        (perform_on-ok what name (addr_replace link address) _ (subst (λ z. z.0 ≡ ok tt) same h))

  device_of-ok : (answer : Lookup) (d : Device) → device_of answer ≡ ok d → answer ≡ found d
  unfolding device_of
  device_of-ok (found x) d h = cc
  device_of-ok link_not_found d h = cc
  device_of-ok (lookup_fault e) d h = cc

  -- The link under the name when the look-up was made, and the record after it.
  pub lookup_link-ok :
      (name : String) (past : History) (d : Device)
      → (lookup_link k name past).0 ≡ ok d
      → k.looked_up past name ≡ found d
  unfolding lookup_link invoke
  lookup_link-ok name past d h = device_of-ok (k.looked_up past name) d (within-ok _ _ past h)

  -- The one step that setting a link up or down takes, on the link under the name.
  pub record Switched (name : String) (up : Bool) (past history : History) : Type 0 where
    pub link : Device
    pub is_link : k.looked_up past name ≡ found link
    pub calls :
        history ≡ (if up then link_set_up link else link_set_down link) ∷ link_by_name name ∷ past
    pub is_done :
        k.answered (link_by_name name ∷ past) (if up then link_set_up link else link_set_down link)
        ≡ none

  set_link_up-Switched :
      (name : String) (up : Bool) (past : History)
      → (set_link_up k name up past).0 ≡ ok tt
      → Switched name up past (set_link_up k name up past).1
  unfolding set_link_up lookup_link within invoke perform_on perform
  set_link_up-Switched name true past h =
      let (d, first, same) = sequence-ok (lookup_link k name) _ past h in
      record {
        link = d;
        is_link = lookup_link-ok name past d first;
        calls = rw same refl;
        is_done =
            perform_on-none "bring link up" name (link_set_up d) (link_by_name name ∷ past)
              (subst (λ z. z.0 ≡ ok tt) same h);
      }
  set_link_up-Switched name false past h =
      let (d, first, same) = sequence-ok (lookup_link k name) _ past h in
      record {
        link = d;
        is_link = lookup_link-ok name past d first;
        calls = rw same refl;
        is_done =
            perform_on-none "bring link down" name (link_set_down d) (link_by_name name ∷ past)
              (subst (λ z. z.0 ≡ ok tt) same h);
      }

  pub record Attached (name master : String) (past history : History) : Type 0 where
    pub link : Device
    pub master_link : Device
    pub is_link : k.looked_up past name ≡ found link
    pub is_master : k.looked_up (link_by_name name ∷ past) master ≡ found master_link
    pub calls :
        history ≡ link_set_master link master_link ∷ link_by_name master ∷ link_by_name name ∷ past
    pub is_done :
        k.answered
          (link_by_name master ∷ link_by_name name ∷ past)
          (link_set_master link master_link)
        ≡ none

  set_master-Attached :
      (name master : String) (past : History)
      → (set_master k name master past).0 ≡ ok tt
      → Attached name master past (set_master k name master past).1
  unfolding set_master lookup_link within invoke perform_on perform
  set_master-Attached name master past h =
      let (d, first, same) = sequence-ok (lookup_link k name) _ past h in
      let h1 = subst (λ z. z.0 ≡ ok tt) same h in
      let (m, second, same1) = sequence-ok (lookup_link k master) _ _ h1 in
      record {
        link = d;
        master_link = m;
        is_link = lookup_link-ok name past d first;
        is_master = lookup_link-ok master _ m second;
        calls = rw same (rw same1 refl);
        is_done =
            perform_on-none "attach link to master" name (link_set_master d m)
              (link_by_name master ∷ link_by_name name ∷ past) (subst (λ z. z.0 ≡ ok tt) same1 h1);
      }

  attach_link_master-Attached :
      (name master : String) (past : History)
      → (trim_space master == "") ≡ false
      → (attach_link_master k name master past).0 ≡ ok tt
      → Attached name (trim_space master) past (attach_link_master k name master past).1
  unfolding attach_link_master when
  attach_link_master-Attached name master past given h =
      rw given (set_master-Attached name (trim_space master) past (rw given at h))

  -- A member of a bond goes down, joins the bond's link, and then goes up: the record's new calls,
  -- in their order.
  pub record Enslaved (bond iface : String) (past history : History) : Type 0 where
    pub lowered : History
    pub joined : History
    pub goes_down : Switched iface false past lowered
    pub joins : Attached iface (trim_space bond) lowered joined
    pub goes_up : Switched iface true joined history

  pub join_bond-Enslaved :
      (bond iface : String) (past : History)
      → (trim_space bond == "") ≡ false
      → (join_bond k bond iface past).0 ≡ ok tt
      → Enslaved bond iface past (join_bond k bond iface past).1
  unfolding join_bond
  join_bond-Enslaved bond iface past given h =
      let (_, first, same) = sequence-ok (set_link_up k iface false) _ past h in
      let h1 = subst (λ z. z.0 ≡ ok tt) same h in
      let (_, second, same1) = sequence-ok (attach_link_master k iface bond) _ _ h1 in
      let h2 = subst (λ z. z.0 ≡ ok tt) same1 h1 in
      rw same (
        rw same1 (record {
          lowered = _;
          joined = _;
          goes_down = set_link_up-Switched iface false past first;
          joins = attach_link_master-Attached iface bond _ given second;
          goes_up = set_link_up-Switched iface true _ h2;
        }))
