-- ===== src/Config/Paths.antt =====
-- The names and the paths of internal/config/config.go. The value of the environment variable
-- FRRIDGE_WORKDIR_OVERRIDE, empty where it is not set, is an argument.
pub mod Laws
use frridge.Base.{String, Bool, ◌&&◌, not, List, [], ◌∷◌, ◌==◌, if◌then◌else◌}
use frridge.Base.Text.{trim_space, base, has, is_nul, is_abs}
use frridge.Base.FilePath.{join}
use frridge.Config.Topology.{Topology, default_work_dir}

unfoldable pub is_path_component : String → Bool
is_path_component name =
    not (name == ".") && (not (name == "..") && ((base name == name) && not (has is_nul name)))

-- The first of the override and the configured directory that is not blank, or the default.
abbrev pub chosen_work_dir : String → String → String
chosen_work_dir override configured =
    let overriding = trim_space override in
    let work_dir = if overriding == "" then trim_space configured else overriding in
    if work_dir == "" then default_work_dir else work_dir

unfoldable pub resolve_work_dir : String → String → String → String
resolve_work_dir override base_dir configured =
    let work_dir = chosen_work_dir override configured in
    if is_abs work_dir then work_dir else join (base_dir ∷ work_dir ∷ [])

module _ (override : String) (t : Topology) where
  unfoldable pub work_dir_path : String
  work_dir_path = resolve_work_dir override t.base_dir t.lab.work_dir

  unfoldable pub lab_dir : String
  lab_dir = join (work_dir_path ∷ "labs" ∷ t.lab.name ∷ [])

  unfoldable pub routers_dir : String
  routers_dir = join (lab_dir ∷ "routers" ∷ [])

  unfoldable pub router_dir : String → String
  router_dir name = join (routers_dir ∷ name ∷ [])

  unfoldable pub router_config_dir : String → String
  router_config_dir name = join (router_dir name ∷ "etc" ∷ "frr" ∷ [])

  unfoldable pub router_seed_marker_path : String → String
  router_seed_marker_path name = join (router_dir name ∷ ".seeded-vtysh" ∷ [])

  unfoldable pub state_path : String
  state_path = join (lab_dir ∷ "state.json" ∷ [])

unfoldable pub resolve_path : Topology → String → String
resolve_path t path = if is_abs path then path else join (t.base_dir ∷ path ∷ [])
