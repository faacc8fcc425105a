-- ===== src/Config/Linux/Ranges.antt =====
-- The numbers of a `linux:` section (internal/config/config.go).
use frridge.Base.{◌≡◌, refl, ℕ, String, false, ◌||◌, ok, arith, All, for_each-All, ltb}
use frridge.Base.Int.{ℤ, pos, negsuc, is_negative, is_non_positive, exceeds, to_uint64, InRange}
use frridge.Base.Dict.{Dict}
use frridge.Config.Topology.{Linux, Vrf, Bridge, Vxlan}
use frridge.Config.Claims.{Net}
use frridge.Config.Linux.{
  Claims, max_uint32, validate_vrf, validate_vxlan, validate_bridge, validate_linux,
}
use frridge.Config.Linux.Inversion.{validate_bridge-eq-ok, validate_linux-eq-ok}

pub uint32_test :
    (x : ℤ) → (is_non_positive x || ltb max_uint32 (to_uint64 x)) ≡ false → InRange 1 max_uint32 x
uint32_test (pos n) h = record {
  number = n;
  is_number = refl;
  at_least = ground arith;
  at_most = ground arith;
}
uint32_test (negsuc n) h = absurd (ground arith)

positive_test : (hi : ℕ) (x : ℤ) → (is_non_positive x || exceeds x hi) ≡ false → InRange 1 hi x
positive_test hi (pos n) h = record {
  number = n;
  is_number = refl;
  at_least = ground arith;
  at_most = ground arith;
}
positive_test hi (negsuc n) h = absurd (ground arith)

natural_test : (hi : ℕ) (x : ℤ) → (is_negative x || exceeds x hi) ≡ false → InRange 0 hi x
natural_test hi (pos n) h = record {
  number = n;
  is_number = refl;
  at_least = omega arith;
  at_most = ground arith;
}
natural_test hi (negsuc n) h = absurd (ground arith)

abbrev pub TableFits : Vrf → Type 0
TableFits vrf = InRange 1 max_uint32 vrf.table

abbrev pub VxlanFits : Vxlan → Type 0
VxlanFits x = InRange 1 16777215 x.vni × InRange 0 65535 x.dst_port

vrf-TableFits : (c : Claims) (vrf : Vrf) (c' : Claims) → validate_vrf c vrf ≡ ok c' → TableFits vrf
unfolding validate_vrf
vrf-TableFits c vrf c' h = uint32_test vrf.table (ground arith)

module _ (net : Net) where
  vxlan-VxlanFits :
      (bridge : String) (c : Claims) (x : Vxlan) (c' : Claims)
      → validate_vxlan net bridge c x ≡ ok c'
      → VxlanFits x
  unfolding validate_vxlan
  vxlan-VxlanFits bridge c x c' h =
      (positive_test 16777215 x.vni (ground arith), natural_test 65535 x.dst_port (ground arith))

  bridge-VxlanFits :
      (c : Claims) (b : Bridge) (c' : Claims)
      → validate_bridge net c b ≡ ok c'
      → All VxlanFits b.vxlans
  bridge-VxlanFits c b c' h =
      let (d, m, m', c'', _, _, _, vxlans, _, _, _) = validate_bridge-eq-ok net c c' b h in
      for_each-All VxlanFits _ (vxlan-VxlanFits b.name) b.vxlans _ _ vxlans

  -- In a validated `linux:` section every VRF table lies in 1 .. 2^32 - 1, so that its conversion
  -- to uint32 keeps it, and every VXLAN of every bridge has a VNI in 1 .. 2^24 - 1 and a
  -- destination port in 0 .. 65535.
  pub validate_linux_ranges :
      (l : Linux) (links : Dict String) (c : Claims)
      → validate_linux net l links ≡ ok c
      → All TableFits l.vrfs × All (λ (b : Bridge). All VxlanFits b.vxlans) l.bridges
  validate_linux_ranges l links c h =
      let (c1, c2, c3, c4, c5, vrfs, _, _, _, _, bridges, _) =
        validate_linux-eq-ok net c l links h in
      (
        for_each-All TableFits _ vrf-TableFits l.vrfs _ _ vrfs,
        for_each-All (λ (b : Bridge). All VxlanFits b.vxlans) _ bridge-VxlanFits l.bridges _ _
            bridges,
      )
