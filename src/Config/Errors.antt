-- ===== src/Config/Errors.antt =====
-- The errors of internal/config/config.go, one constructor for each message, with the values that
-- the message is formatted from.
use frridge.Base.{String}
use frridge.Base.Int.{ℤ}

-- The kinds of device in the map of `validateLinux`.
pub data DeviceKind : Type 0 where
  loopback : DeviceKind
  link : String → DeviceKind
  vrf bond bridge vxlan veth veth_peer : DeviceKind

-- The phrases that name the object of a Linux check, such as `bond "b0"`.
pub data Owner : Type 0 where
  bond interface veth bridge : String → Owner
  vxlan : String → String → Owner
  namespace : Owner → String → Owner

pub data LinuxError : Type 0 where
  empty_vrf_name empty_bond_name empty_interface_name empty_veth_name empty_route_to : LinuxError
  empty_bridge_name : LinuxError
  invalid_table : String → ℤ → LinuxError
  empty_mode : String → LinuxError
  unsupported_mode : String → String → LinuxError
  reused_device : String → DeviceKind → DeviceKind → LinuxError
  repeated_master : String → String → Owner → Owner → LinuxError
  conflicting_master : String → Owner → String → Owner → String → LinuxError
  empty_member : Owner → LinuxError
  reused_interface : String → LinuxError
  empty_peer : String → LinuxError
  same_ends : String → LinuxError
  reused_peer : String → LinuxError
  invalid_route_to : String → LinuxError
  no_next_hop : String → LinuxError
  invalid_via : String → String → LinuxError
  empty_vxlan_name : String → LinuxError
  invalid_vni : String → String → ℤ → LinuxError
  invalid_local : String → String → String → LinuxError
  invalid_dst_port : String → String → ℤ → LinuxError
  invalid_mac : Owner → String → LinuxError
  invalid_addr_gen_mode : Owner → String → LinuxError
  invalid_address : Owner → String → LinuxError
  empty_namespace_name : Owner → LinuxError
  reused_namespace : String → Owner → Owner → LinuxError
  empty_if_name : Owner → String → LinuxError
  replaces_loopback : Owner → String → LinuxError
  invalid_default_via : Owner → String → String → LinuxError

pub data ConfigError : Type 0 where
  unsupported_version : String → ConfigError
  empty_lab_name : ConfigError
  lab_name_not_component : String → ConfigError
  no_routers : ConfigError
  empty_router_name : ConfigError
  router_name_not_component : String → ConfigError
  empty_image : String → ConfigError
  invalid_loopback : String → String → ConfigError
  empty_mount_source empty_mount_target : String → ConfigError
  relative_mount_target : String → String → ConfigError
  invalid_sysctl : String → String → ConfigError
  empty_command_token : String → ConfigError
  unsupported_command : String → String → ConfigError
  empty_command : String → String → ConfigError
  empty_link_name : ConfigError
  duplicate_link : String → ConfigError
  unsupported_link_type : String → String → ConfigError
  invalid_mtu : String → ℤ → ConfigError
  too_few_members wrong_member_count : String → ConfigError
  undefined_router : String → String → ConfigError
  empty_member_if_name : String → ConfigError
  member_replaces_loopback : String → String → ConfigError
  reused_member_interface : String → String → String → String → ConfigError
  invalid_ipv4 : String → String → String → String → ConfigError
  invalid_member_mac : String → String → String → String → ConfigError
  linux_error : String → LinuxError → ConfigError
  empty_ping_name : ConfigError
  duplicate_ping : String → ConfigError
  undefined_source : String → String → ConfigError
  invalid_source_address : String → String → ConfigError
  empty_ping_target : String → ConfigError
  invalid_ping_count : String → ℤ → ConfigError
