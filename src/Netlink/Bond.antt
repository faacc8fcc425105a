-- ===== src/Netlink/Bond.antt =====
-- The whole of ConfigureBond in internal/netlink/netlink.go.
use frridge.Base.{
  ◌≡◌, refl, ◌⊎◌, inl, inr, String, true, false, List, [], ◌∷◌, All, ok, ◌==◌, Bool-cases,
}
use frridge.Base.Int.{ℤ, is_non_positive}
use frridge.Base.Text.{trim_space}
use frridge.Base.Program.{Keeps, ◌>>=◌, each, raise, sequence-ok, sequence-after, each-All}
use frridge.Config.Topology.{Bond}
use frridge.Netlink.Kernel.{Kernel, Call, History, N}
use frridge.Netlink.Links.{set_link_up}
use frridge.Netlink.Guest.{defer, open_and_run, with_pid_handle, join_bond, configure_bond}
use frridge.Netlink.Stable.{IsStable, join_bond-Keeps, set_link_up-Keeps}
use frridge.Netlink.Order.{Enslaved, join_bond-Enslaved}

-- The later record has the calls of the earlier one, and perhaps more after them.
abbrev pub Extends : History → History → Type 0
Extends earlier [] = earlier ≡ []
Extends earlier (call ∷ past) = (earlier ≡ call ∷ past) ⊎ Extends earlier past

Extends-refl : (past : History) → Extends past past
Extends-refl [] = refl
Extends-refl (call ∷ past) = inl refl

module _ (k : Kernel) where
  -- At some time before the end of the record the link went down, joined the bond and went up.
  pub record WasEnslaved (bond iface : String) (history : History) : Type 0 where
    pub past : History
    pub after : History
    pub steps : Enslaved k bond iface past after
    pub earlier : Extends after history

  abbrev pub AllEnslaved : String → List String → History → Type 0
  AllEnslaved bond ifaces history = All (λ iface. WasEnslaved bond iface history) ifaces

  enslaved_before :
      (bond iface : String) (call : Call) (history : History)
      → WasEnslaved bond iface history
      → WasEnslaved bond iface (call ∷ history)
  enslaved_before bond iface call history was = record {
    past = was.past;
    after = was.after;
    steps = was.steps;
    earlier = inr was.earlier;
  }

  WasEnslaved-IsStable : (bond iface : String) → IsStable (WasEnslaved bond iface)
  WasEnslaved-IsStable bond iface = record {
    keeps_call = λ call h past was. enslaved_before bond iface call past was;
  }

  -- The handle's part of `withPIDHandle`, without its test.
  opened-after :
      (R : History → Type 0) (pid : ℤ) (body : N (Unit {0}))
      → ((call : Call) (past : History) → R past → R (call ∷ past))
      → ((past : History) → (body past).0 ≡ ok tt → R (body past).1)
      → (past : History) → (open_and_run k pid body past).0 ≡ ok tt
      → R (open_and_run k pid body past).1
  unfolding open_and_run defer
  opened-after R pid body grows brings past =
      sequence-after R _ _
        (λ _ t h. grows _ _ (sequence-after R _ _ (λ _ u g. grows _ _ (brings u g)) t h)) past

  -- What the body's success brings about holds after the handle and the namespace are closed.
  with_pid_handle-after :
      (R : History → Type 0) (pid : ℤ) (body : N (Unit {0}))
      → ((call : Call) (past : History) → R past → R (call ∷ past))
      → ((past : History) → (body past).0 ≡ ok tt → R (body past).1)
      → (past : History) → (with_pid_handle k pid body past).0 ≡ ok tt
      → R (with_pid_handle k pid body past).1
  unfolding with_pid_handle defer raise
  with_pid_handle-after R pid body grows brings past h = elim (Bool-cases (is_non_positive pid)) [
    | inl e ↦ absurd (cc (rw e at h))
    | inr e ↦ rw e (opened-after R pid body grows brings past (rw e at h))
  ]

  bond_members :
      (bond : String) (ifaces : List String) (past : History)
      → (trim_space bond == "") ≡ false
      → (each (join_bond k bond) ifaces past).0 ≡ ok tt
      → All (λ iface. WasEnslaved bond iface (each (join_bond k bond) ifaces past).1) ifaces
  bond_members bond ifaces past given =
      each-All (λ iface. WasEnslaved bond iface) (join_bond k bond)
        (λ iface t h. record {
          past = t;
          after = (join_bond k bond iface t).1;
          steps = join_bond-Enslaved k bond iface t given h;
          earlier = Extends-refl _;
        })
        (λ iface other.
          join_bond-Keeps k (WasEnslaved bond iface) (WasEnslaved-IsStable bond iface) bond other)
        ifaces past

  later_members :
      (bond : String) (ifaces : List String) (m : N (Unit {0})) (t : History)
      → ((iface : String) → Keeps (WasEnslaved bond iface) m)
      → All (λ iface. WasEnslaved bond iface t) ifaces
      → All (λ iface. WasEnslaved bond iface (m t).1) ifaces
  later_members bond [] m t keeps all = tt
  later_members bond (x ∷ xs) m t keeps (first, rest) =
      (keeps x t first, later_members bond xs m t keeps rest)

  grown_members :
      (bond : String) (ifaces : List String) (call : Call) (t : History)
      → All (λ iface. WasEnslaved bond iface t) ifaces
      → All (λ iface. WasEnslaved bond iface (call ∷ t)) ifaces
  grown_members bond [] call t all = tt
  grown_members bond (x ∷ xs) call t (first, rest) =
      (enslaved_before bond x call t first, grown_members bond xs call t rest)

  members_and_up :
      (bond : String) (ifaces : List String) (t : History)
      → (trim_space bond == "") ≡ false
      → ((each (join_bond k bond) ifaces >>= λ _. set_link_up k bond true) t).0 ≡ ok tt
      → AllEnslaved bond ifaces
          ((each (join_bond k bond) ifaces >>= λ _. set_link_up k bond true) t).1
  members_and_up bond ifaces t given h =
      let (_, first, same) = sequence-ok (each (join_bond k bond) ifaces) _ t h in
      rw same (
        later_members bond ifaces (set_link_up k bond true) _
          (λ iface.
            set_link_up-Keeps k (WasEnslaved bond iface) (WasEnslaved-IsStable bond iface) bond
              true)
          (bond_members bond ifaces t given first))

  -- When ConfigureBond succeeds for a bond with a name, each of its interfaces was taken down, made
  -- a member of the bond and brought up again, in this order, each time on the links that were found
  -- under the names, and all three calls succeeded.
  pub configure_bond-WasEnslaved :
      (pid : ℤ) (bond : Bond) (past : History)
      → (trim_space bond.name == "") ≡ false
      → (configure_bond k pid bond past).0 ≡ ok tt
      → AllEnslaved bond.name bond.interfaces (configure_bond k pid bond past).1
  unfolding configure_bond
  configure_bond-WasEnslaved pid bond past given =
      let R = AllEnslaved bond.name bond.interfaces in
      with_pid_handle-after R pid _ (grown_members bond.name bond.interfaces)
        (sequence-after R _ _
          (λ _. sequence-after R _ _ (λ _ t. members_and_up bond.name bond.interfaces t given)))
        past
