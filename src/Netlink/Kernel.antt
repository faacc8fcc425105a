-- ===== src/Netlink/Kernel.antt =====
-- What internal/netlink/netlink.go calls: vishvananda/netlink on the host and on a handle in a
-- network namespace, netns, and the parsers of package net. What the kernel answers is a function of
-- the calls before.
use frridge.Base.{ℕ, String, Bool, Option, List, Result, ok, err, ◌%◌, ◌^◌}
use frridge.Base.Int.{ℤ, to_uint64}
use frridge.Base.Program.{Program, within}
use frridge.Base.Program.Calls.{ask, invoke, perform}

-- An error of the outside, by its text.
abbrev pub Fault : Type 0
Fault = String

-- The device that a link is: `index` is `link.Attrs().Index`, `is_bridge` the assertion to
-- `*vnetlink.Bridge`.
pub record Device : Type 0 where
  pub name : String
  pub index : ℤ
  pub mtu : ℤ
  pub is_bridge : Bool

-- The device to add. An MTU that the code does not set is none.
pub data NewLink : Type 0 where
  new_bridge : String → Option ℤ → NewLink
  new_vrf : String → ℕ → NewLink
  new_bond : String → String → NewLink
  new_veth : String → String → Option ℤ → Option ℕ → NewLink
  new_vxlan : String → ℤ → Bool → ℤ → Option String → NewLink

pub record NewRoute : Type 0 where
  pub destination : String
  pub gateway : Option String
  pub link_index : Option ℤ

pub data Call : Type 0 where
  link_by_name : String → Call
  link_add : NewLink → Call
  link_del link_set_up link_set_down : Device → Call
  link_set_mtu : Device → ℤ → Call
  link_set_name link_set_hardware_addr : Device → String → Call
  link_set_master : Device → Device → Call
  link_set_ns_pid : Device → ℤ → Call
  link_set_addr_gen_mode : Device → ℕ → Call
  link_set_neigh_suppress link_set_learning : Device → Bool → Call
  addr_replace : Device → String → Call
  route_replace : NewRoute → Call
  get_namespace new_handle close_namespace close_handle : ℤ → Call

abbrev pub History : Type 0
History = List Call

-- `LinkByName`: the link, a `LinkNotFoundError`, or another error.
pub data Lookup : Type 0 where
  found : Device → Lookup
  link_not_found : Lookup
  lookup_fault : Fault → Lookup

pub data NetlinkError : Type 0 where
  outside : Fault → NetlinkError
  not_found : NetlinkError
  invalid_pid : ℤ → NetlinkError
  not_a_bridge : String → NetlinkError
  unsupported_addr_gen_mode : String → NetlinkError
  invalid_mac invalid_ip invalid_address invalid_destination : String → NetlinkError
  -- An error with the operation and the name that the code puts before it.
  during : String → String → NetlinkError → NetlinkError

pub record Kernel : Type 0 where
  pub looked_up : History → String → Lookup
  pub answered : History → Call → Option NetlinkError
  -- `net.ParseMAC`, `net.ParseIP`, `vnetlink.ParseAddr` and `net.ParseCIDR` accept the text.
  pub is_mac : String → Bool
  pub is_ip : String → Bool
  pub is_address : String → Bool
  pub is_cidr : String → Bool

abbrev pub N : Type 0 → Type 0
N = Program History NetlinkError

-- `uint32(x)`
abbrev pub to_uint32 : ℤ → ℕ
to_uint32 x = to_uint64 x % 2 ^ 32

-- `LinkByName`, on the host or on a handle, with its kinds of answer.
unfoldable pub query_link : Kernel → String → N Lookup
query_link k name = ask (link_by_name name) (λ past. k.looked_up past name)

unfoldable pub device_of : Lookup → Result NetlinkError Device
device_of (found d) = ok d
device_of link_not_found = err not_found
device_of (lookup_fault e) = err (outside e)

-- A look-up that fails on any error, as lookupLink does.
unfoldable pub lookup_link : Kernel → String → N Device
lookup_link k name =
    within (during "lookup link" name)
      (invoke (link_by_name name) (λ past. device_of (k.looked_up past name)))

unfoldable pub perform_on : Kernel → String → String → Call → N (Unit {0})
perform_on k what name call = within (during what name) (perform k.answered call)
