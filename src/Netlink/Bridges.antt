-- ===== src/Netlink/Bridges.antt =====
-- EnsureBridge and DeleteLink of internal/netlink/netlink.go: what their success means.
use frridge.Base.{
  ◌≡◌, refl, sym, ap, ◌∙◌, ◌⊎◌, inl, inr, ◌↔◌, subst, String, Bool, true, false, not, ◌&&◌, none,
  some, ◌∷◌, Result, ok, if◌then◌else◌,
}
use frridge.Base.Int.{ℤ, exceeds, int_eq}
use frridge.Base.Program.{
  ok_inj, Keeps, ◌>>=◌, ◌>>◌, pure, raise, within, sequence-ok, sequence-Keeps, within-ok,
}
use frridge.Base.Program.Calls.{perform, ask, Succeeded, perform-ok}
use frridge.Netlink.Kernel.{
  Kernel, Call, History, N, Device, Lookup, found, link_not_found, lookup_fault, NetlinkError,
  link_by_name, link_add, link_del, link_set_up, link_set_mtu, new_bridge, query_link, perform_on,
}
use frridge.Netlink.Links.{when}
use frridge.Netlink.Host.{bridge_of, bridge_to_add, ensure_bridge, delete_found, delete_link}
use frridge.Netlink.Stable.{is_handle_call, when-Keeps, perform_on-Keeps}
use frridge.Netlink.Order.{Succeeded-IsStable, perform_on-ok}

module _ (k : Kernel) (name : String) where
  -- The link is the one that the look-up found, or it was missing and has been created.
  abbrev pub IsFrom : ℤ → Lookup → Device → History → Type 0
  IsFrom mtu answer link history =
      (answer ≡ found link)
      ⊎ ((answer ≡ link_not_found)
          × (link ≡ bridge_to_add name mtu)
          × Succeeded k.answered
              (link_add (new_bridge name (if exceeds mtu 0 then some mtu else none))) history)

  -- The link has the MTU that was asked for, or it was set.
  abbrev pub HasMtu : ℤ → Device → History → Type 0
  HasMtu mtu link history =
      (exceeds mtu 0 ≡ false)
      ⊎ ((int_eq link.mtu mtu ≡ true) ⊎ Succeeded k.answered (link_set_mtu link mtu) history)

  pub record IsEnsured (mtu : ℤ) (past history : History) : Type 0 where
    pub link : Device
    pub origin : IsFrom mtu (k.looked_up past name) link history
    pub has_mtu : HasMtu mtu link history
    pub is_up : Succeeded k.answered (link_set_up link) history

  IsDeletable : Lookup → History → Type 0
  IsDeletable answer t =
      (answer ≡ link_not_found)
      ⊎ ((d : Device) × (answer ≡ found d) × (k.answered t (link_del d) ≡ none))

  deletes :
      (answer : Lookup) (t : History)
      → (delete_found k name answer t).0 ≡ ok tt
      → IsDeletable answer t
  unfolding delete_found raise perform_on IsDeletable
  deletes (found link) t h =
      inr (link, refl, perform-ok k.answered (link_del link) t (within-ok _ _ t h))
  deletes link_not_found t h = inl refl
  deletes (lookup_fault e) t h = absurd (cc h)

  deletable :
      (answer : Lookup) (t : History)
      → IsDeletable answer t
      → (delete_found k name answer t).0 ≡ ok tt
  unfolding delete_found pure perform_on within perform IsDeletable
  deletable answer t (inl e) = rw e refl
  deletable answer t (inr (d, e, fine)) = rw e (rw fine refl)

  -- DeleteLink succeeds when there is no such link, or when the link found is deleted, and only then.
  pub delete_link-ok :
      (past : History)
      → ((delete_link k name past).0 ≡ ok tt) ↔ (
          (k.looked_up past name ≡ link_not_found)
          ⊎ ((d : Device) × (k.looked_up past name ≡ found d)
              × (k.answered (link_by_name name ∷ past) (link_del d) ≡ none)))
  unfolding delete_link query_link ask ◌>>=◌ IsDeletable
  delete_link-ok past = (deletes (k.looked_up past name) _, deletable (k.looked_up past name) _)

  abbrev finish_bridge : ℤ → Device → N (Unit {0})
  finish_bridge mtu link = do
    when (exceeds mtu 0 && not (int_eq link.mtu mtu))
        (perform_on k "set bridge mtu" name (link_set_mtu link mtu))
    perform_on k "bring bridge up" name (link_set_up link)

  -- What `finish_bridge` does not undo.
  finish_bridge-Keeps :
      (mtu : ℤ) (link : Device) (call : Call)
      → Keeps (Succeeded k.answered call) (finish_bridge mtu link)
  unfolding is_handle_call
  finish_bridge-Keeps mtu link call =
      search (sequence-Keeps, when-Keeps, perform_on-Keeps, Succeeded-IsStable) depth 20

  mtu_set :
      (positive same : Bool) (set : N (Unit {0})) (call : Call) (t : History)
      → ((set t).0 ≡ ok tt → Succeeded k.answered call (set t).1)
      → (when (positive && not same) set t).0 ≡ ok tt
      → (positive ≡ false)
        ⊎ ((same ≡ true) ⊎ Succeeded k.answered call (when (positive && not same) set t).1)
  unfolding when
  mtu_set false same set call t done h = inl refl
  mtu_set true true set call t done h = inr (inl refl)
  mtu_set true false set call t done h = inr (inr (done h))

  later_mtu :
      (m : ℤ) (l : Device) (u : History)
      → HasMtu m l u
      → HasMtu m l (perform_on k "bring bridge up" name (link_set_up l) u).1
  unfolding perform_on within perform
  later_mtu m l u (inl e) = inl e
  later_mtu m l u (inr (inl e)) = inr (inl e)
  later_mtu m l u (inr (inr p)) = inr (inr (inr p))

  finish_bridge-ok :
      (mtu : ℤ) (link : Device) (t : History)
      → (finish_bridge mtu link t).0 ≡ ok tt
      → HasMtu mtu link (finish_bridge mtu link t).1
        × Succeeded k.answered (link_set_up link) (finish_bridge mtu link t).1
  finish_bridge-ok mtu link t h =
      let set = perform_on k "set bridge mtu" name (link_set_mtu link mtu) in
      let (_, first, same) =
        sequence-ok (when (exceeds mtu 0 && not (int_eq link.mtu mtu)) set) _ t h in
      let fits =
        mtu_set (exceeds mtu 0) (int_eq link.mtu mtu) set _ t
          (perform_on-ok k "set bridge mtu" name (link_set_mtu link mtu) t) first in
      rw same (
        later_mtu mtu link _ fits,
        perform_on-ok k "bring bridge up" name (link_set_up link) _
            (subst (λ z. z.0 ≡ ok tt) same h),
      )

  bridge_of-ok :
      (mtu : ℤ) (answer : Lookup) (link : Device) (t : History)
      → (bridge_of k name mtu answer t).0 ≡ ok link
      → IsFrom mtu answer link (bridge_of k name mtu answer t).1
  unfolding bridge_of pure raise
  bridge_of-ok mtu (found x) link t h = inl (cc)
  bridge_of-ok mtu (lookup_fault e) link t h = absurd (cc h)
  bridge_of-ok mtu link_not_found link t h =
      let (_, first, same) =
        sequence-ok (perform_on k "create bridge" name _) (λ _. pure (bridge_to_add name mtu)) t
          h in
      let made : Path (Result NetlinkError Device) (ok link) (ok (bridge_to_add name mtu)) =
        sym h ∙ ap (λ z. z.0) same in
      inr (refl, ok_inj made, rw same (perform_on-ok k "create bridge" name _ t first))

  queried_bridge :
      (mtu : ℤ) (answer : Lookup) (link : Device) (past t : History)
      → (query_link k name past).0 ≡ ok answer
      → IsFrom mtu answer link t
      → IsFrom mtu (k.looked_up past name) link (finish_bridge mtu link t).1
  unfolding query_link ask
  queried_bridge mtu answer link past t asked (inl e) = inl (ok_inj asked ∙ e)
  queried_bridge mtu answer link past t asked (inr (e, made, added)) =
      inr (ok_inj asked ∙ e, made, finish_bridge-Keeps mtu link _ t added)

  -- When EnsureBridge succeeds, the link that it found under the name, or the one that it created
  -- because there was none, has the MTU asked for or was given it, and was brought up.
  pub ensure_bridge-IsEnsured :
      (mtu : ℤ) (past : History)
      → (ensure_bridge k name mtu past).0 ≡ ok tt
      → IsEnsured mtu past (ensure_bridge k name mtu past).1
  unfolding ensure_bridge
  ensure_bridge-IsEnsured mtu past h =
      let (answer, first, same) = sequence-ok (query_link k name) _ past h in
      let h1 = subst (λ z. z.0 ≡ ok tt) same h in
      let (link, second, same1) =
        sequence-ok (bridge_of k name mtu answer) (finish_bridge mtu) _ h1 in
      let h2 = subst (λ z. z.0 ≡ ok tt) same1 h1 in
      let (fits, is_up) = finish_bridge-ok mtu link _ h2 in
      rw same (
        rw same1 (record {
          link = link;
          origin =
              queried_bridge mtu answer link past _ first (bridge_of-ok mtu answer link _ second);
          has_mtu = fits;
          is_up = is_up;
        }))
