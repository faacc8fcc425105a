-- ===== src/Config/Claims.antt =====
-- The bookkeeping of `validateLinux` in internal/config/config.go: device names, masters and
-- namespace names, each claimed once. The router's name, which every message of `validateLinux`
-- starts with, is added by the caller (`linux_error`).
pub mod Laws
use frridge.Base.{
  String, Bool, ◌||◌, none, some, List, [], ◌∷◌, ◌==◌, if◌then◌else◌, Result, ok, err, ◌>>=◌, ◌>>◌,
  reject_if, for_each, not, contains,
}
use frridge.Base.Text.{trim_space, is_blank}
use frridge.Base.Dict.{Dict, lookup, insert, is_some}
use frridge.Config.Topology.{Namespace}
use frridge.Config.Errors.{
  DeviceKind, Owner, LinuxError, reused_device, repeated_master, conflicting_master, invalid_mac,
  invalid_addr_gen_mode, invalid_address, empty_namespace_name, reused_namespace, empty_if_name,
  replaces_loopback, invalid_default_via,
}

-- Package net: which texts `ParseCIDR`, `ParseMAC` and `ParseIP` accept.
pub record Net : Type 0 where
  pub parses_cidr : String → Bool
  pub parses_mac : String → Bool
  pub parses_ip : String → Bool

pub record MasterAssignment : Type 0 where
  pub master : String
  pub owner : Owner

abbrev pub addr_gen_modes : List String
addr_gen_modes = "eui64" ∷ "none" ∷ "stable_secret" ∷ "random" ∷ []

abbrev pub bond_modes : List String
bond_modes =
    "balance-rr" ∷ "active-backup" ∷ "balance-xor" ∷ "broadcast" ∷ "802.3ad" ∷ "balance-tlb"
    ∷ "balance-alb" ∷ []

unfoldable pub claim_device :
    Dict DeviceKind → String → DeviceKind → Result LinuxError (Dict DeviceKind)
claim_device devices name kind =
    let trimmed = trim_space name in
    elim (lookup trimmed devices) [
      | some owner ↦ err (reused_device trimmed owner kind)
      | none ↦ ok (insert trimmed kind devices)
    ]

unfoldable pub claim_master :
    Dict MasterAssignment → String → String → Owner → Result LinuxError (Dict MasterAssignment)
claim_master assignments link_name master_name owner =
    let link = trim_space link_name in
    let master = trim_space master_name in
    if (link == "") || (master == "") then ok assignments else elim (lookup link assignments) [
      | some previous ↦ err (
          if previous.master == master
          then repeated_master master link previous.owner owner
          else conflicting_master link previous.owner previous.master owner master)
      | none ↦ ok (insert link (record { master = master; owner = owner }) assignments)
    ]

unfoldable pub validate_addr_gen_mode : Owner → String → Result LinuxError (Unit {0})
validate_addr_gen_mode owner mode =
    if is_blank mode
    then ok tt
    else reject_if (not (contains addr_gen_modes mode)) (invalid_addr_gen_mode owner mode)

unfoldable pub claim_namespace : Dict Owner → String → Owner → Result LinuxError (Dict Owner)
claim_namespace names name owner = elim (lookup name names) [
  | some previous ↦ err (reused_namespace name previous owner)
  | none ↦ ok (insert name owner names)
]

module _ (net : Net) where
  unfoldable pub validate_link_attrs :
      Owner → String → String → List String → Result LinuxError (Unit {0})
  validate_link_attrs owner mac mode addresses = do
    if mac == "" then ok tt else reject_if (not (net.parses_mac mac)) (invalid_mac owner mac)
    validate_addr_gen_mode owner mode
    for_each
        (λ _ address. reject_if (not (net.parses_cidr address)) (invalid_address owner address)) tt
        addresses

  unfoldable pub validate_namespace :
      Dict Owner → Owner → Namespace → Result LinuxError (Dict Owner)
  validate_namespace names owner n = do
    reject_if (is_blank n.name) (empty_namespace_name owner)
    names' ← claim_namespace names n.name owner
    reject_if (is_blank n.if_name) (empty_if_name owner n.name)
    reject_if (n.if_name == "lo") (replaces_loopback owner n.name)
    validate_link_attrs (Owner.namespace owner n.name) n.mac "" n.addresses
    if n.default_via == ""
        then ok tt
        else reject_if (not (net.parses_ip n.default_via))
            (invalid_default_via owner n.name n.default_via)
    ok names'
