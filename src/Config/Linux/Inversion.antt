-- ===== src/Config/Linux/Inversion.antt =====
-- What a body that raises no error has done.
use frridge.Base.{String, ◌≡◌, ok, for_each, arith, none, some}
use frridge.Base.Text.{trim_space}
use frridge.Base.Dict.{Dict, erase}
use frridge.Config.Topology.{Linux, Vrf, Bond, Interface, Veth, Bridge, Vxlan}
use frridge.Config.Errors.{DeviceKind, Owner}
use frridge.Config.Claims.{Net, MasterAssignment, claim_device, claim_master, validate_namespace}
use frridge.Config.Linux.{
  Claims, validate_vrf, enslave_interfaces, validate_bond, validate_interface,
  validate_veth_namespace, validate_veth, validate_vxlan, validate_bridge, claim_veth,
  initial_claims, validate_linux, validate_route,
}

module _ (c c' : Claims) where
  pub validate_vrf-eq-ok :
      (vrf : Vrf)
      → validate_vrf c vrf ≡ ok c'
      → (claim_device c.devices vrf.name DeviceKind.vrf ≡ ok c'.devices)
        × (c'.masters ≡ c.masters)
        × (c'.namespaces ≡ c.namespaces)
  unfolding validate_vrf
  validate_vrf-eq-ok vrf h = ground arith

  pub claim_veth-eq-ok :
      (v : Veth)
      → claim_veth c v ≡ ok c'
      → (d d' : Dict DeviceKind) × (claim_device c.devices v.name DeviceKind.veth ≡ ok d)
        × (claim_device d v.peer DeviceKind.veth_peer ≡ ok d')
        × (c'.devices ≡ (elim v.namespace [ none ↦ d' | some _ ↦ erase (trim_space v.peer) d' ]))
        × (c'.masters ≡ c.masters)
        × (c'.namespaces ≡ c.namespaces)
  unfolding claim_veth
  claim_veth-eq-ok v h = ground arith

module _ (net : Net) (c c' : Claims) where
  pub validate_bond-eq-ok :
      (b : Bond)
      → validate_bond net c b ≡ ok c'
      → (m : Dict MasterAssignment) × (claim_device c.devices b.name DeviceKind.bond
          ≡ ok c'.devices)
        × (claim_master c.masters b.name b.master (Owner.bond b.name) ≡ ok m)
        × (enslave_interfaces (Owner.bond b.name) b.name m b.interfaces ≡ ok c'.masters)
        × (c'.namespaces ≡ c.namespaces)
  unfolding validate_bond
  validate_bond-eq-ok b h = ground arith

  pub validate_interface-eq-ok :
      (i : Interface)
      → validate_interface net c i ≡ ok c'
      → (claim_master c.masters i.name i.master (Owner.interface i.name) ≡ ok c'.masters)
        × (c'.devices ≡ c.devices)
        × (c'.namespaces ≡ c.namespaces)
  unfolding validate_interface
  validate_interface-eq-ok i h = ground arith

  pub validate_veth-eq-ok :
      (v : Veth)
      → validate_veth net c v ≡ ok c'
      → (claim_master c.masters v.name v.master (Owner.veth v.name) ≡ ok c'.masters)
        × (validate_veth_namespace net c.namespaces (Owner.veth v.name) v.namespace
            ≡ ok c'.namespaces)
        × (c'.devices ≡ c.devices)
  unfolding validate_veth
  validate_veth-eq-ok v h = ground arith

  pub validate_vxlan-eq-ok :
      (bridge : String) (x : Vxlan)
      → validate_vxlan net bridge c x ≡ ok c'
      → (claim_device c.devices x.name DeviceKind.vxlan ≡ ok c'.devices)
        × (claim_master c.masters x.name bridge (Owner.vxlan bridge x.name) ≡ ok c'.masters)
        × (c'.namespaces ≡ c.namespaces)
  unfolding validate_vxlan
  validate_vxlan-eq-ok bridge x h = ground arith

  pub validate_bridge-eq-ok :
      (b : Bridge)
      → validate_bridge net c b ≡ ok c'
      → (d : Dict DeviceKind) × (m m' : Dict MasterAssignment) × (c'' : Claims) × (claim_device
            c.devices b.name DeviceKind.bridge
          ≡ ok d)
        × (claim_master c.masters b.name b.master (Owner.bridge b.name) ≡ ok m)
        × (enslave_interfaces (Owner.bridge b.name) b.name m b.interfaces ≡ ok m')
        × (for_each (validate_vxlan net b.name) (record c { devices = d; masters = m' }) b.vxlans
            ≡ ok c'')
        × (for_each
              (λ names n. validate_namespace net names (Owner.bridge b.name) n)
              c''.namespaces
              b.namespaces
            ≡ ok c'.namespaces)
        × (c'.devices ≡ c''.devices)
        × (c'.masters ≡ c''.masters)
  unfolding validate_bridge
  validate_bridge-eq-ok b h = ground arith

module _ (net : Net) (c' : Claims) where
  pub validate_linux-eq-ok :
      (l : Linux) (links : Dict String)
      → validate_linux net l links ≡ ok c'
      → (c1 c2 c3 c4 c5 : Claims) × (for_each validate_vrf (initial_claims links) l.vrfs ≡ ok c1)
        × (for_each (validate_bond net) c1 l.bonds ≡ ok c2)
        × (for_each (validate_interface net) c2 l.interfaces ≡ ok c3)
        × (for_each (validate_veth net) c3 l.veths ≡ ok c4)
        × (for_each (λ _ route. validate_route net route) tt l.routes ≡ ok tt)
        × (for_each (validate_bridge net) c4 l.bridges ≡ ok c5)
        × (for_each claim_veth c5 l.veths ≡ ok c')
  unfolding validate_linux
  validate_linux-eq-ok l links h = ground arith
