-- ===== src/Netlink/Configured.antt =====
-- What the success of configureLink in internal/netlink/netlink.go means.
use frridge.Base.{
  ◌&&◌, not, none, Result, ◌≡◌, refl, subst, String, Bool, true, false, ◌∷◌, All, if◌then◌else◌, ok,
  ◌==◌,
}
use frridge.Base.Text.{trim_space}
use frridge.Base.Program.{◌>>=◌, pure, each, within, sequence-ok, sequence-after, each-All}
use frridge.Base.Program.Calls.{perform, Succeeded, invoke}
use frridge.Netlink.Kernel.{
  Kernel, History, Device, link_by_name, link_set_up, link_set_name, NetlinkError, addr_replace,
  lookup_link, perform_on, found,
}
use frridge.Netlink.Links.{LinkConfig, when, rename_link, configure_address, configure_link}
use frridge.Netlink.Stable.{configure_address-Keeps}
use frridge.Netlink.Order.{
  Succeeded-IsStable, perform_on-none, configure_address-Succeeded, lookup_link-ok,
}

module _ (k : Kernel) where
  -- The link that a rename leaves: the given one when the name stays, or the one that is found under
  -- the new name after a rename without an error.
  abbrev pub IsRenamed : Device → String → String → History → Device → Type 0
  IsRenamed original name rename_to past link =
      if not (trim_space rename_to == "") && not (trim_space rename_to == name)
      then (k.answered past (link_set_name original (trim_space rename_to)) ≡ none)
        × (k.looked_up (link_set_name original (trim_space rename_to) ∷ past) (trim_space rename_to)
            ≡ found link)
      else link ≡ original

  rename-IsRenamed :
      (original : Device) (name rename_to : String) (past : History) (r : Device × String)
      → (rename_link k original name rename_to past).0 ≡ ok r
      → IsRenamed original name rename_to past r.0
  unfolding rename_link pure perform_on within perform lookup_link invoke
  rename-IsRenamed original name rename_to past r h =
      renamed (not (trim_space rename_to == "") && not (trim_space rename_to == name)) h
    where
      move : History → Result NetlinkError (Device × String) × History
      move =
          (perform_on k "rename link" name (link_set_name original (trim_space rename_to)) >>= λ _.
          lookup_link k (trim_space rename_to) >>= λ d. pure (d, trim_space rename_to))

      renamed :
          (b : Bool)
          → ((if b then move else pure (original, name)) past).0 ≡ ok r
          → if b
            then (k.answered past (link_set_name original (trim_space rename_to)) ≡ none)
              × (k.looked_up
                    (link_set_name original (trim_space rename_to) ∷ past)
                    (trim_space rename_to)
                  ≡ found r.0)
            else r.0 ≡ original
      renamed true g =
          let call = link_set_name original (trim_space rename_to) in
          let (_, first, same) = sequence-ok (perform_on k "rename link" name call) _ past g in
          let g1 = subst (λ z. z.0 ≡ ok r) same g in
          let (d, second, same1) = sequence-ok (lookup_link k (trim_space rename_to)) _ _ g1 in
          let g2 = subst (λ z. z.0 ≡ ok r) same1 g1 in
          (
            perform_on-none k "rename link" name call past first,
            lookup_link-ok k (trim_space rename_to) (call ∷ past) r.0 (cc),
          )
      renamed false g = cc

  -- The link of the name, or of its new name, is up by the last call, which succeeded, and by then it
  -- has all the addresses.
  pub record WentUp (name : String) (cfg : LinkConfig) (past history : History) : Type 0 where
    pub original : Device
    pub is_found : k.looked_up past name ≡ found original
    pub link : Device
    pub is_link : IsRenamed original name cfg.rename_to (link_by_name name ∷ past) link
    pub before : History
    pub is_last : history ≡ link_set_up link ∷ before
    pub is_up : k.answered before (link_set_up link) ≡ none
    pub addresses_set : All (λ a. Succeeded k.answered (addr_replace link a) before) cfg.addresses

  when-none :
      (up : Bool) (link : Device) (name : String) (past : History)
      → up ≡ true
      → (when up (perform_on k "bring link up" name (link_set_up link)) past).0 ≡ ok tt
      → k.answered past (link_set_up link) ≡ none
  unfolding when
  when-none true link name past e h =
      perform_on-none k "bring link up" name (link_set_up link) past h
  when-none false link name past e h = absurd (cc)

  finish-WentUp :
      (start : String) (begin : History) (original : Device)
      → k.looked_up begin start ≡ found original
      → (cfg : LinkConfig) (link : Device) (name : String) (past : History)
      → IsRenamed original start cfg.rename_to (link_by_name start ∷ begin) link
      → cfg.up ≡ true
      → ((each (configure_address k "configure address" link name) cfg.addresses >>= λ _.
            when cfg.up (perform_on k "bring link up" name (link_set_up link)))
          past).0
        ≡ ok tt
      → WentUp start cfg begin
          ((each (configure_address k "configure address" link name) cfg.addresses >>= λ _.
              when cfg.up (perform_on k "bring link up" name (link_set_up link)))
            past).1
  unfolding when perform_on within perform
  finish-WentUp start begin original there cfg link name past target up h =
      let (_, first, same) =
        sequence-ok (each (configure_address k "configure address" link name) cfg.addresses)
          (λ _. when cfg.up (perform_on k "bring link up" name (link_set_up link))) past h in
      let before =
        (each (configure_address k "configure address" link name) cfg.addresses past).1 in
      record {
        original = original;
        is_found = there;
        link = link;
        is_link = target;
        is_up = when-none cfg.up link name before up (subst (λ z. z.0 ≡ ok tt) same h);
        before = (each (configure_address k "configure address" link name) cfg.addresses past).1;
        is_last = rw same (rw up refl);
        addresses_set =
            each-All (λ a. Succeeded k.answered (addr_replace link a))
              (configure_address k "configure address" link name)
              (configure_address-Succeeded k "configure address" link name)
              (λ a b.
                configure_address-Keeps k _ (Succeeded-IsStable k (addr_replace link a))
                  "configure address" link name b)
              cfg.addresses past first;
      }

  -- A link that is configured with success and is to be up: its last call brings it up without an
  -- error, and each of its addresses was set on it before. It is the link found under the name, or,
  -- when it is to have another name, the one found under that name after a rename without an error.
  pub configure_link-WentUp :
      (name : String) (cfg : LinkConfig) (past : History)
      → cfg.up ≡ true
      → (configure_link k name cfg past).0 ≡ ok tt
      → WentUp name cfg past (configure_link k name cfg past).1
  unfolding configure_link lookup_link within invoke
  configure_link-WentUp name cfg past up h =
      let R = WentUp name cfg past in
      let (original, first, same) = sequence-ok (lookup_link k name) _ past h in
      let h1 = subst (λ z. z.0 ≡ ok tt) same h in
      let there = lookup_link-ok k name past original first in
      let (r, second, same1) = sequence-ok (rename_link k original name cfg.rename_to) _ _ h1 in
      let h2 = subst (λ z. z.0 ≡ ok tt) same1 h1 in
      let target = rename-IsRenamed original name cfg.rename_to _ r second in
      rw same (
        rw same1 (
          sequence-after R _ _
            (λ _. sequence-after R _ _ (λ _. sequence-after R _ _ (λ _.
              sequence-after R _ _
                (λ _ t. finish-WentUp name past original there cfg r.0 r.1 t target up))))
            _ h2))
