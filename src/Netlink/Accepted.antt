-- ===== src/Netlink/Accepted.antt =====
-- What internal/config/config.go accepts, and what internal/netlink/netlink.go does with it.
use frridge.Base.{
  ◌≡◌, refl, ◌⊎◌, inl, inr, ℕ, String, true, List, ok, All, for_each-All, arith, eq_iff, Bool-cases,
  contains,
}
use frridge.Base.Text.{trim_space, is_blank}
use frridge.Base.Dict.{Dict}
use frridge.Config.Topology.{Linux, Bond, Interface, Veth, Bridge, Vxlan}
use frridge.Config.Errors.{Owner}
use frridge.Config.Claims.{Net, addr_gen_modes, validate_addr_gen_mode, validate_link_attrs}
use frridge.Config.Linux.{
  Claims, validate_bond, validate_interface, validate_veth, validate_vxlan, validate_bridge,
  validate_linux,
}
use frridge.Config.Linux.Inversion.{validate_bridge-eq-ok, validate_linux-eq-ok}
use frridge.Netlink.Links.{parse_addr_gen_mode}

-- The mode is not set, or its text is one of the kernel's modes.
abbrev pub ModeParses : String → Type 0
ModeParses mode =
    (is_blank mode ≡ true) ⊎ ((n : ℕ) × (parse_addr_gen_mode (trim_space mode) ≡ ok n))

one_of :
    (mode : String)
    → contains addr_gen_modes mode ≡ true
    → (mode ≡ "eui64") ⊎ ((mode ≡ "none") ⊎ ((mode ≡ "stable_secret") ⊎ (mode ≡ "random")))
one_of mode h = ground (
  arith,
  eq_iff "eui64" mode,
  eq_iff "none" mode,
  eq_iff "stable_secret" mode,
  eq_iff "random" mode,
)

known_mode :
    (mode : String)
    → contains addr_gen_modes mode ≡ true
    → (n : ℕ) × (parse_addr_gen_mode (trim_space mode) ≡ ok n)
unfolding parse_addr_gen_mode trim_space
known_mode mode h = elim (one_of mode h) [
  | inl e ↦ (0, rw e refl)
  | inr (inl e) ↦ (1, rw e refl)
  | inr (inr (inl e)) ↦ (2, rw e refl)
  | inr (inr (inr e)) ↦ (3, rw e refl)
]

validate_addr_gen_mode-ModeParses :
    (owner : Owner) (mode : String) → validate_addr_gen_mode owner mode ≡ ok tt → ModeParses mode
unfolding validate_addr_gen_mode
validate_addr_gen_mode-ModeParses owner mode h = elim (Bool-cases (is_blank mode)) [
  | inl e ↦ inl e
  | inr e ↦ inr (known_mode mode (ground arith))
]

abbrev pub BridgeModesParse : Bridge → Type 0
BridgeModesParse b =
    ModeParses b.addr_gen_mode × All (λ (x : Vxlan). ModeParses x.addr_gen_mode) b.vxlans

module _ (net : Net) where
  attrs-ModeParses :
      (owner : Owner) (mac mode : String) (addresses : List String)
      → validate_link_attrs net owner mac mode addresses ≡ ok tt
      → ModeParses mode
  unfolding validate_link_attrs
  attrs-ModeParses owner mac mode addresses h =
      validate_addr_gen_mode-ModeParses owner mode (ground arith)

  bond-ModeParses :
      (c : Claims) (x : Bond) (c' : Claims)
      → validate_bond net c x ≡ ok c'
      → ModeParses x.addr_gen_mode
  unfolding validate_bond
  bond-ModeParses c x c' h =
      attrs-ModeParses (Owner.bond x.name) x.mac x.addr_gen_mode x.addresses (ground arith)

  interface-ModeParses :
      (c : Claims) (x : Interface) (c' : Claims)
      → validate_interface net c x ≡ ok c'
      → ModeParses x.addr_gen_mode
  unfolding validate_interface
  interface-ModeParses c x c' h =
      attrs-ModeParses (Owner.interface x.name) x.mac x.addr_gen_mode x.addresses (ground arith)

  veth-ModeParses :
      (c : Claims) (x : Veth) (c' : Claims)
      → validate_veth net c x ≡ ok c'
      → ModeParses x.addr_gen_mode
  unfolding validate_veth
  veth-ModeParses c x c' h =
      attrs-ModeParses (Owner.veth x.name) x.mac x.addr_gen_mode x.addresses (ground arith)

  vxlan-ModeParses :
      (bridge : String) (c : Claims) (x : Vxlan) (c' : Claims)
      → validate_vxlan net bridge c x ≡ ok c'
      → ModeParses x.addr_gen_mode
  unfolding validate_vxlan
  vxlan-ModeParses bridge c x c' h =
      validate_addr_gen_mode-ModeParses (Owner.vxlan bridge x.name) x.addr_gen_mode (ground arith)

  bridge-ModeParses :
      (c : Claims) (b : Bridge) (c' : Claims) → validate_bridge net c b ≡ ok c' → BridgeModesParse b
  unfolding validate_bridge
  bridge-ModeParses c b c' h =
      let (_, _, _, _, _, _, _, vxlans, _, _, _) = validate_bridge-eq-ok net c c' b h in
      (
        attrs-ModeParses (Owner.bridge b.name) b.mac b.addr_gen_mode b.addresses (ground arith),
        for_each-All (λ (x : Vxlan). ModeParses x.addr_gen_mode) _ (vxlan-ModeParses b.name)
            b.vxlans _ _ vxlans,
      )

  -- In a validated `linux:` section each addrgenmode that is set is one that netlink's own parser
  -- knows, so that no bond, interface, veth, bridge or VXLAN is refused for it later.
  pub validate_linux-ModeParses :
      (l : Linux) (links : Dict String) (c : Claims)
      → validate_linux net l links ≡ ok c
      → All (λ (x : Bond). ModeParses x.addr_gen_mode) l.bonds
        × All (λ (x : Interface). ModeParses x.addr_gen_mode) l.interfaces
        × All (λ (x : Veth). ModeParses x.addr_gen_mode) l.veths
        × All BridgeModesParse l.bridges
  validate_linux-ModeParses l links c h =
      let (_, _, _, _, _, _, bonds, interfaces, veths, _, bridges, _) =
        validate_linux-eq-ok net c l links h in
      (
        for_each-All (λ (x : Bond). ModeParses x.addr_gen_mode) _ bond-ModeParses l.bonds _ _ bonds,
        for_each-All (λ (x : Interface). ModeParses x.addr_gen_mode) _ interface-ModeParses
            l.interfaces _ _ interfaces,
        for_each-All (λ (x : Veth). ModeParses x.addr_gen_mode) _ veth-ModeParses l.veths _ _ veths,
        for_each-All BridgeModesParse _ bridge-ModeParses l.bridges _ _ bridges,
      )
