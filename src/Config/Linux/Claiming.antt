-- ===== src/Config/Linux/Claiming.antt =====
-- What each round of the loops of `validateLinux` claims.
use frridge.Base.{
  String, ◌≡◌, refl, subst, List, [], ◌∷◌, ◌++◌, Result, ok, >>=-eq-ok, for_each, Option, none,
  some, reject_if-eq-ok, append-nil, append_assoc,
}
use frridge.Base.Text.{is_blank}
use frridge.Base.Dict.{Dict, IsKeyed}
use frridge.Config.Topology.{Vrf, Bond, Interface, Veth, Vxlan, Namespace}
use frridge.Config.Errors.{DeviceKind, Owner}
use frridge.Config.Claims.{Net, MasterAssignment}
use frridge.Config.Claims.Laws.{
  master_request, claim_device-IsKeyed, claim_master-IsKeyed, validate_namespace-IsKeyed,
}
use frridge.Config.Linux.{
  Claims, validate_vrf, enslave_interfaces, validate_bond, validate_interface,
  validate_veth_namespace, validate_veth, validate_vxlan,
}
use frridge.Config.Linux.Inversion.{
  validate_vrf-eq-ok, validate_bond-eq-ok, validate_interface-eq-ok, validate_veth-eq-ok,
  validate_vxlan-eq-ok,
}
use frridge.Config.Linux.Footprint.{
  Footprint, ◌⊕◌, total, ⊕_assoc, ⊕-empty, vrf_footprint, bond_footprint, interface_footprint,
  veth_footprint, vxlan_footprint, member_footprint, optional_namespace,
}

-- The claims made so far are those of the footprint, each made once.
pub record Owns (f : Footprint) (c : Claims) : Type 0 where
  pub devices : IsKeyed f.devices c.devices
  pub masters : IsKeyed f.masters c.masters
  pub namespaces : IsKeyed f.namespaces c.namespaces

-- A loop over a list claims what its rounds claim.
pub for_each-total {ℓ κ μ ν} :
    {E : Type ℓ} {A : Type κ} {S : Type μ} (P : Footprint → S → Type ν) (g : A → Footprint)
    (f : S → A → Result E S)
    → ((a : Footprint) (s : S) (x : A) (s' : S) → P a s → f s x ≡ ok s' → P (a ⊕ g x) s')
    → (xs : List A) (a : Footprint) (s s' : S) → P a s
    → for_each f s xs ≡ ok s'
    → P (a ⊕ total g xs) s'
unfolding for_each total
for_each-total P g f step [] a s s' p h = rw (⊕-empty a) (subst (P a) (cc) p)
for_each-total P g f step (x ∷ xs) a s s' p h =
    let (t, first, rest) = >>=-eq-ok (f s x) (λ u. for_each f u xs) h in
    subst (λ b. P b s') (⊕_assoc a (g x) (total g xs))
      (for_each-total P g f step xs (a ⊕ g x) t s' (step a s x t p first) rest)

pub keep-IsKeyed {ℓ} :
    {V : Type ℓ} {names : List String} {m m' : Dict V}
    → IsKeyed names m
    → m' ≡ m
    → IsKeyed (names ++ []) m'
keep-IsKeyed {names} {m'} k e = rw append-nil (rw e k)

pub vrf-Owns :
    (a : Footprint) (c : Claims) (vrf : Vrf) (c' : Claims)
    → Owns a c
    → validate_vrf c vrf ≡ ok c'
    → Owns (a ⊕ vrf_footprint vrf) c'
unfolding vrf_footprint
vrf-Owns a c vrf c' o h =
    let (claimed, m, n) = validate_vrf-eq-ok c c' vrf h in
    record {
      devices = claim_device-IsKeyed vrf.name DeviceKind.vrf o.devices claimed;
      masters = keep-IsKeyed o.masters m;
      namespaces = keep-IsKeyed o.namespaces n;
    }

-- What the loop over the members of a bond or a bridge claims.
abbrev pub HasMasters : Footprint → Dict MasterAssignment → Type 0
HasMasters a m = IsKeyed a.masters m

pub enslave-HasMasters :
    (owner : Owner) (master : String) (ifaces : List String) (a : Footprint)
    (m m' : Dict MasterAssignment)
    → HasMasters a m
    → enslave_interfaces owner master m ifaces ≡ ok m'
    → HasMasters (a ⊕ total (member_footprint master) ifaces) m'
unfolding enslave_interfaces member_footprint
enslave-HasMasters owner master =
    for_each-total HasMasters (member_footprint master) _ λ a m iface m' k h.
      claim_master-IsKeyed iface master owner k (reject_if-eq-ok (is_blank iface) _ _ h).1

-- A loop that claims no device and no namespace.
pub members_devices :
    (master : String) (ifaces : List String) → (total (member_footprint master) ifaces).devices ≡ []
unfolding total member_footprint
members_devices master [] = refl
members_devices master (i ∷ is) = members_devices master is

pub members_namespaces :
    (master : String) (ifaces : List String)
    → (total (member_footprint master) ifaces).namespaces ≡ []
unfolding total member_footprint
members_namespaces master [] = refl
members_namespaces master (i ∷ is) = members_namespaces master is

module _ (net : Net) where
  pub bond-Owns :
      (a : Footprint) (c : Claims) (b : Bond) (c' : Claims)
      → Owns a c
      → validate_bond net c b ≡ ok c'
      → Owns (a ⊕ bond_footprint b) c'
  unfolding bond_footprint
  bond-Owns a c b c' o h =
      let (m, device, master, members, n) = validate_bond-eq-ok net c c' b h in
      record {
        devices = rw members_devices (claim_device-IsKeyed b.name DeviceKind.bond o.devices device);
        masters = rw (← append_assoc) (
            enslave-HasMasters _ b.name b.interfaces
              (record {
                devices = [];
                masters = a.masters ++ master_request b.name b.master;
                namespaces = [];
              })
              m c'.masters (claim_master-IsKeyed b.name b.master _ o.masters master) members);
        namespaces = rw members_namespaces (keep-IsKeyed o.namespaces n);
      }

  pub interface-Owns :
      (a : Footprint) (c : Claims) (i : Interface) (c' : Claims)
      → Owns a c
      → validate_interface net c i ≡ ok c'
      → Owns (a ⊕ interface_footprint i) c'
  unfolding interface_footprint
  interface-Owns a c i c' o h =
      let (master, d, n) = validate_interface-eq-ok net c c' i h in
      record {
        devices = keep-IsKeyed o.devices d;
        masters = claim_master-IsKeyed i.name i.master _ o.masters master;
        namespaces = keep-IsKeyed o.namespaces n;
      }

  pub optional-IsKeyed :
      (names : List String) (d d' : Dict Owner) (owner : Owner) (n : Option Namespace)
      → IsKeyed names d
      → validate_veth_namespace net d owner n ≡ ok d'
      → IsKeyed (names ++ optional_namespace n) d'
  unfolding validate_veth_namespace
  optional-IsKeyed names d d' owner none k h = keep-IsKeyed k (cc)
  optional-IsKeyed names d d' owner (some n) k h = validate_namespace-IsKeyed net owner n k h

  pub veth-Owns :
      (a : Footprint) (c : Claims) (v : Veth) (c' : Claims)
      → Owns a c
      → validate_veth net c v ≡ ok c'
      → Owns (a ⊕ veth_footprint v) c'
  unfolding veth_footprint
  veth-Owns a c v c' o h =
      let (master, named, d) = validate_veth-eq-ok net c c' v h in
      record {
        devices = keep-IsKeyed o.devices d;
        masters = claim_master-IsKeyed v.name v.master _ o.masters master;
        namespaces = optional-IsKeyed a.namespaces _ _ _ v.namespace o.namespaces named;
      }

  pub vxlan-Owns :
      (bridge : String) (a : Footprint) (c : Claims) (x : Vxlan) (c' : Claims)
      → Owns a c
      → validate_vxlan net bridge c x ≡ ok c'
      → Owns (a ⊕ vxlan_footprint bridge x) c'
  unfolding vxlan_footprint
  vxlan-Owns bridge a c x c' o h =
      let (device, master, n) = validate_vxlan-eq-ok net c c' bridge x h in
      record {
        devices = claim_device-IsKeyed x.name DeviceKind.vxlan o.devices device;
        masters = claim_master-IsKeyed x.name bridge _ o.masters master;
        namespaces = keep-IsKeyed o.namespaces n;
      }
