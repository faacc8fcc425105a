-- ===== src/Config/Linux/Footprint.antt =====
-- What a router's `linux:` section asks for, read off the section alone: the device names that stay
-- in the router's namespace, the links that get a master, and the namespaces.
use frridge.Base.{String, ◌≡◌, List, [], ◌∷◌, ◌++◌, Option, none, some, append_assoc, append-nil}
use frridge.Base.Text.{trim_space}
use frridge.Config.Topology.{Linux, Vrf, Bond, Interface, Veth, Bridge, Vxlan, Namespace}
use frridge.Config.Claims.Laws.{master_request}

pub record Footprint : Type 0 where
  pub devices : List String
  pub masters : List String
  pub namespaces : List String

abbrev pub empty : Footprint
empty = record { devices = []; masters = []; namespaces = [] }

infixl 60 ◌⊕◌
abbrev pub ◌⊕◌ : Footprint → Footprint → Footprint
a ⊕ b = record {
  devices = a.devices ++ b.devices;
  masters = a.masters ++ b.masters;
  namespaces = a.namespaces ++ b.namespaces;
}

unfoldable pub total {ℓ} : {A : Type ℓ} → (A → Footprint) → List A → Footprint
total f [] = empty
total f (x ∷ xs) = f x ⊕ total f xs

pub ⊕_assoc : (a b c : Footprint) → (a ⊕ b) ⊕ c ≡ a ⊕ (b ⊕ c)
⊕_assoc a b c = λ i. record {
  devices = append_assoc a.devices b.devices c.devices i;
  masters = append_assoc a.masters b.masters c.masters i;
  namespaces = append_assoc a.namespaces b.namespaces c.namespaces i;
}

pub ⊕-empty : (a : Footprint) → a ⊕ empty ≡ a
⊕-empty a = λ i. record {
  devices = append-nil a.devices i;
  masters = append-nil a.masters i;
  namespaces = append-nil a.namespaces i;
}

unfoldable pub vrf_footprint : Vrf → Footprint
vrf_footprint vrf = record { devices = trim_space vrf.name ∷ []; masters = []; namespaces = [] }

-- A link that is enslaved to `master`.
unfoldable pub member_footprint : String → String → Footprint
member_footprint master iface = record {
  devices = [];
  masters = master_request iface master;
  namespaces = [];
}

unfoldable pub bond_footprint : Bond → Footprint
bond_footprint bond =
    record {
      devices = trim_space bond.name ∷ [];
      masters = master_request bond.name bond.master;
      namespaces = [];
    }
    ⊕ total (member_footprint bond.name) bond.interfaces

unfoldable pub interface_footprint : Interface → Footprint
interface_footprint iface = record {
  devices = [];
  masters = master_request iface.name iface.master;
  namespaces = [];
}

unfoldable pub namespace_footprint : Namespace → Footprint
namespace_footprint n = record { devices = []; masters = []; namespaces = n.name ∷ [] }

abbrev pub optional_namespace : Option Namespace → List String
optional_namespace none = []
optional_namespace (some n) = n.name ∷ []

-- What a veth asks for before the bridges: its master and its namespace.
unfoldable pub veth_footprint : Veth → Footprint
veth_footprint veth = record {
  devices = [];
  masters = master_request veth.name veth.master;
  namespaces = optional_namespace veth.namespace;
}

unfoldable pub vxlan_footprint : String → Vxlan → Footprint
vxlan_footprint bridge vxlan = record {
  devices = trim_space vxlan.name ∷ [];
  masters = master_request vxlan.name bridge;
  namespaces = [];
}

unfoldable pub bridge_footprint : Bridge → Footprint
bridge_footprint bridge =
    record {
      devices = trim_space bridge.name ∷ [];
      masters = master_request bridge.name bridge.master;
      namespaces = [];
    }
    ⊕ total (member_footprint bridge.name) bridge.interfaces
    ⊕ total (vxlan_footprint bridge.name) bridge.vxlans
    ⊕ total namespace_footprint bridge.namespaces

-- A peer that moves into a namespace leaves the router's.
abbrev pub staying_peer : String → Option Namespace → List String
staying_peer peer none = trim_space peer ∷ []
staying_peer peer (some n) = []

-- The ends of a veth that stay in the router's namespace.
unfoldable pub veth_ends : Veth → Footprint
veth_ends veth = record {
  devices = trim_space veth.name ∷ staying_peer veth.peer veth.namespace;
  masters = [];
  namespaces = [];
}

-- The whole section, in the order in which the validation reads it, after the devices that are there
-- already: the loopback and the router's links.
unfoldable pub linux_footprint : Linux → List String → Footprint
linux_footprint linux names =
    record { devices = names; masters = []; namespaces = [] }
    ⊕ total vrf_footprint linux.vrfs
    ⊕ total bond_footprint linux.bonds
    ⊕ total interface_footprint linux.interfaces
    ⊕ total veth_footprint linux.veths
    ⊕ total bridge_footprint linux.bridges
    ⊕ total veth_ends linux.veths
