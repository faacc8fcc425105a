-- ===== src/Config/Validate.antt =====
-- `(*Topology).Validate` of internal/config/config.go, one function for the body of each loop.
pub mod Inversion
pub mod Interfaces
pub mod Links
use frridge.Base.{
  ℕ, String, Bool, ◌||◌, ◌&&◌, not, Option, none, some, List, [], ◌∷◌, ◌==◌, if◌then◌else◌, Result,
  ok, err, ◌>>=◌, ◌>>◌, reject_if, for_each, contains, length, ltb, leb, nat_eq, code, Char,
}
use frridge.Base.Int.{is_negative, to_uint64}
use frridge.Base.Text.{trim_space, is_blank, is_abs, has}
use frridge.Base.Dict.{Dict, lookup, insert, keys, is_some}
use frridge.Config.Topology.{
  Topology, Router, Mount, Command, Link, LinkMember, Ping, supported_version,
}
use frridge.Config.Errors
use frridge.Config.Errors.{ConfigError, LinuxError}
use frridge.Config.Paths.{is_path_component}
use frridge.Config.Resolve.{resolve_router, merged_sysctls}
use frridge.Config.Claims.{Net}
use frridge.Config.Linux.{Claims, validate_linux, max_uint32}

-- sysctlKeyPattern: ^[A-Za-z0-9_.-]+$
abbrev pub is_sysctl_char : Char → Bool
is_sysctl_char c =
    let n = code c in
    (leb b'A' n && leb n b'Z')
    || (leb b'a' n && leb n b'z')
    || (leb b'0' n && leb n b'9')
    || nat_eq n b'_'
    || nat_eq n b'.'
    || nat_eq n b'-'

unfoldable pub is_sysctl_key : String → Bool
is_sysctl_key key = not (key == "") && not (has (λ c. not (is_sysctl_char c)) key)

unfoldable pub validate_mount : String → Mount → Result ConfigError (Unit {0})
validate_mount name mount = do
  reject_if (is_blank mount.source) (Errors.empty_mount_source name)
  reject_if (is_blank mount.target) (Errors.empty_mount_target name)
  reject_if (not (is_abs mount.target)) (Errors.relative_mount_target name mount.target)

unfoldable pub validate_command : String → Command → Result ConfigError (Unit {0})
validate_command name command = do
  reject_if (not ((command.kind == "shell") || (command.kind == "vtysh")))
      (Errors.unsupported_command name command.kind)
  reject_if (is_blank command.run) (Errors.empty_command name command.kind)

-- A loop whose body only checks.
abbrev pub each {ℓ} :
    {A : Type ℓ} → (A → Result ConfigError (Unit {0})) → List A → Result ConfigError (Unit {0})
each check = for_each (λ _ x. check x) tt

-- The interface names taken in each router, with the link that took them.
abbrev pub IfNames : Type 0
IfNames = Dict (Dict String)

abbrev pub names_of : String → IfNames → Dict String
names_of router names = elim (lookup router names) [ none ↦ [] | some taken ↦ taken ]

module _ (net : Net) (t : Topology) where
  unfoldable pub validate_router : IfNames → String × Router → Result ConfigError IfNames
  validate_router names (name, router) = do
    reject_if (is_blank name) Errors.empty_router_name
    reject_if (not (is_path_component name)) (Errors.router_name_not_component name)
    reject_if ((resolve_router t name).image == "") (Errors.empty_image name)
    each
        (λ loopback.
          reject_if (not (net.parses_cidr loopback)) (Errors.invalid_loopback name loopback))
        router.loopbacks
    each (validate_mount name) router.mounts
    each (λ key. reject_if (not (is_sysctl_key key)) (Errors.invalid_sysctl name key))
        (keys (merged_sysctls t.lab.defaults.sysctls router.sysctls))
    each (λ token. reject_if (is_blank token) (Errors.empty_command_token name)) router.command
    each (validate_command name) router.commands
    ok (if is_some (lookup name names) then names else insert name [] names)

  unfoldable pub validate_member : String → IfNames → LinkMember → Result ConfigError IfNames
  validate_member link names member =
      let if_name = trim_space member.if_name in
      let taken = names_of member.router names in
      do
        reject_if (not (is_some (lookup member.router t.routers)))
            (Errors.undefined_router link member.router)
        reject_if (if_name == "") (Errors.empty_member_if_name link)
        reject_if (if_name == "lo") (Errors.member_replaces_loopback link member.router)
        claimed ← elim (lookup if_name taken) [
          | some owner ↦ err (Errors.reused_member_interface member.router if_name owner link)
          | none ↦ ok (insert member.router (insert if_name link taken) names)
        ]
        if member.ipv4 == ""
            then ok tt
            else reject_if (not (net.parses_cidr member.ipv4))
                (Errors.invalid_ipv4 link member.router member.if_name member.ipv4)
        if member.mac == ""
            then ok tt
            else reject_if (not (net.parses_mac member.mac))
                (Errors.invalid_member_mac link member.router member.if_name member.mac)
        ok claimed

  -- The link names seen so far, and the interface names.
  unfoldable pub validate_link :
      List String × IfNames → Link → Result ConfigError (List String × IfNames)
  validate_link (link_names, names) link = do
    reject_if (is_blank link.name) Errors.empty_link_name
    reject_if (contains link_names link.name) (Errors.duplicate_link link.name)
    reject_if (not ((link.type == "bridge") || (link.type == "p2p")))
        (Errors.unsupported_link_type link.name link.type)
    reject_if (is_negative link.mtu || ltb max_uint32 (to_uint64 link.mtu))
        (Errors.invalid_mtu link.name link.mtu)
    reject_if ((link.type == "bridge") && ltb (length link.members) 2)
        (Errors.too_few_members link.name)
    reject_if ((link.type == "p2p") && not (nat_eq (length link.members) 2))
        (Errors.wrong_member_count link.name)
    names' ← for_each (validate_member link.name) names link.members
    ok (link.name ∷ link_names, names')

  unfoldable pub in_router :
      {A : Type 0} → String → Result LinuxError A → Result ConfigError (Unit {0})
  in_router name (ok _) = ok tt
  in_router name (err e) = err (Errors.linux_error name e)

  unfoldable pub validate_router_linux : IfNames → String × Router → Result ConfigError (Unit {0})
  validate_router_linux names (name, router) =
      in_router name (validate_linux net router.linux (names_of name names))

  unfoldable pub validate_ping : List String → Ping → Result ConfigError (List String)
  validate_ping ping_names ping = do
    reject_if (is_blank ping.name) Errors.empty_ping_name
    reject_if (contains ping_names ping.name) (Errors.duplicate_ping ping.name)
    reject_if (not (is_some (lookup ping.from.router t.routers)))
        (Errors.undefined_source ping.name ping.from.router)
    reject_if
        (not (is_blank ping.from.address) && not (net.parses_ip (trim_space ping.from.address)))
        (Errors.invalid_source_address ping.name ping.from.address)
    reject_if (is_blank ping.to) (Errors.empty_ping_target ping.name)
    reject_if (is_negative ping.count) (Errors.invalid_ping_count ping.name ping.count)
    ok (ping.name ∷ ping_names)

  unfoldable pub validate : Result ConfigError (Unit {0})
  validate = do
    reject_if (not (t.api_version == supported_version)) (Errors.unsupported_version t.api_version)
    reject_if (is_blank t.lab.name) Errors.empty_lab_name
    reject_if (not (is_path_component t.lab.name)) (Errors.lab_name_not_component t.lab.name)
    reject_if (nat_eq (length t.routers) 0) Errors.no_routers
    names ← for_each validate_router [] t.routers
    linked ← for_each validate_link ([], names) t.links
    each (validate_router_linux linked.1) t.routers
    ping_names ← for_each validate_ping [] t.pings
    ok tt
