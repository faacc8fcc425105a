-- ===== src/Config/Topology.antt =====
-- The decoded topology of internal/config/config.go. A Go map is an association list, in the order
-- in which one `range` meets its keys; a pointer that may be nil is an option.
use frridge.Base.{String, Bool, Option, List}
use frridge.Base.Int.{ℤ}
use frridge.Base.Dict.{Dict}

pub record Defaults : Type 0 where
  pub image : String
  pub privileged : Option Bool
  pub sysctls : Dict String

pub record Lab : Type 0 where
  pub name : String
  pub work_dir : String
  pub defaults : Defaults

pub record Mount : Type 0 where
  pub source : String
  pub target : String
  pub read_only : Bool

pub record Command : Type 0 where
  pub kind : String
  pub run : String

pub record Vrf : Type 0 where
  pub name : String
  pub table : ℤ

pub record Route : Type 0 where
  pub to : String
  pub via : String
  pub dev : String

pub record Bond : Type 0 where
  pub name : String
  pub mode : String
  pub master : String
  pub mac : String
  pub addr_gen_mode : String
  pub addresses : List String
  pub interfaces : List String

pub record Interface : Type 0 where
  pub name : String
  pub master : String
  pub mac : String
  pub addr_gen_mode : String
  pub addresses : List String

pub record Namespace : Type 0 where
  pub name : String
  pub if_name : String
  pub mac : String
  pub addresses : List String
  pub default_via : String

pub record Veth : Type 0 where
  pub name : String
  pub peer : String
  pub master : String
  pub mac : String
  pub addr_gen_mode : String
  pub addresses : List String
  pub namespace : Option Namespace

pub record BridgeSlaveOptions : Type 0 where
  pub learning : Option Bool
  pub neigh_suppress : Option Bool

pub record Vxlan : Type 0 where
  pub name : String
  pub vni : ℤ
  pub local : String
  pub dst_port : ℤ
  pub no_learning : Bool
  pub addr_gen_mode : String
  pub bridge_slave : BridgeSlaveOptions

pub record Bridge : Type 0 where
  pub name : String
  pub master : String
  pub mac : String
  pub addr_gen_mode : String
  pub addresses : List String
  pub interfaces : List String
  pub vxlans : List Vxlan
  pub namespaces : List Namespace

pub record Linux : Type 0 where
  pub vrfs : List Vrf
  pub bonds : List Bond
  pub interfaces : List Interface
  pub veths : List Veth
  pub routes : List Route
  pub bridges : List Bridge

pub record Router : Type 0 where
  pub hostname : String
  pub image : String
  pub command : List String
  pub privileged : Option Bool
  pub env : Dict String
  pub loopbacks : List String
  pub mounts : List Mount
  pub sysctls : Dict String
  pub linux : Linux
  pub commands : List Command

pub record LinkMember : Type 0 where
  pub router : String
  pub if_name : String
  pub ipv4 : String
  pub mac : String

pub record Link : Type 0 where
  pub name : String
  pub type : String
  pub mtu : ℤ
  pub members : List LinkMember

pub record PingSource : Type 0 where
  pub router : String
  pub namespace : String
  pub address : String

pub record Ping : Type 0 where
  pub name : String
  pub from : PingSource
  pub to : String
  pub count : ℤ

pub record Topology : Type 0 where
  pub api_version : String
  pub lab : Lab
  pub routers : Dict Router
  pub links : List Link
  pub pings : List Ping
  pub source_path : String
  pub base_dir : String

pub record ResolvedRouter : Type 0 where
  pub name : String
  pub hostname : String
  pub image : String
  pub command : List String
  pub privileged : Bool
  pub env : Dict String
  pub loopbacks : List String
  pub mounts : List Mount
  pub sysctls : Dict String
  pub linux : Linux
  pub commands : List Command

abbrev pub supported_version : String
supported_version = "frridge/v1alpha1"

abbrev pub default_work_dir : String
default_work_dir = ".frridge"

abbrev pub default_router_image : String
default_router_image = "frridge-frr:latest"
