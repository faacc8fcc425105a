-- ===== src/Files/Frr.antt =====
-- Package internal/frr (internal/frr/files.go): the files that a router's container mounts, and the
-- marker of a router that has had its first commands.
use frridge.Base.{
  ◌<>◌, String, Bool, true, false, List, [], ◌∷◌, Result, ok, err, if◌then◌else◌, contains,
}
use frridge.Base.Text.{is_blank}
use frridge.Base.FilePath.{join}
use frridge.Base.Program.{◌>>=◌, ◌>>◌, pure, raise, lift, within}
use frridge.Runtime.Host.{PrepareResult}
use frridge.Files.Disk.{
  Faults, F, FileError, Presence, present, absent, stat_fault, io, at_step, touch, write_file, stat,
  remove,
}
use frridge.Files.Snapshots.{unless_missing}

abbrev pub seed_marker_name : String
seed_marker_name = ".seeded-vtysh"

unfoldable pub enabled_daemons : List String
enabled_daemons = "zebra" ∷ "bgpd" ∷ "ospfd" ∷ "ospf6d" ∷ "isisd" ∷ "staticd" ∷ "pathd" ∷ []

unfoldable pub yes_or_no : String → String
yes_or_no name = if contains enabled_daemons name then "yes" else "no"

unfoldable pub default_daemons : String
default_daemons =
    "zebra="
    <> (yes_or_no "zebra"
        <> ("\nbgpd="
            <> (yes_or_no "bgpd"
                <> ("\nospfd="
                    <> (yes_or_no "ospfd"
                        <> ("\nospf6d="
                            <> (yes_or_no "ospf6d"
                                <> ("\nripd=no\nripngd=no\nisisd="
                                    <> (yes_or_no "isisd"
                                        <> ("\npimd=no\npim6d=no\nldpd=no\nnhrpd=no\neigrpd=no\nbabeld=no\nsharpd=no\npbrd=no\nstaticd="
                                            <> (yes_or_no "staticd"
                                                <> ("\nbfdd=no\nfabricd=no\npathd="
                                                    <> (yes_or_no "pathd"
                                                        <> ("\n"
                                                            <> ("vrrpd=no\n"
                                                            <> ("mgmtd=no\n"
                                                            <> ("\n"
                                                            <> ("vtysh_enable=yes\n"
                                                            <> ("zebra_options=\"  -A 127.0.0.1 -s 90000000\"\n"
                                                            <> ("bgpd_options=\"   -A 127.0.0.1\"\n"
                                                            <> ("ospfd_options=\"  -A 127.0.0.1\"\n"
                                                            <> ("ospf6d_options=\" -A ::1\"\n"
                                                            <> ("ripd_options=\"   -A 127.0.0.1\"\n"
                                                            <> ("ripngd_options=\" -A ::1\"\n"
                                                            <> ("isisd_options=\"  -A 127.0.0.1\"\n"
                                                            <> ("pimd_options=\"   -A 127.0.0.1\"\n"
                                                            <> ("pim6d_options=\"  -A ::1\"\n"
                                                            <> ("ldpd_options=\"   -A 127.0.0.1\"\n"
                                                            <> ("nhrpd_options=\"  -A 127.0.0.1\"\n"
                                                            <> ("eigrpd_options=\" -A 127.0.0.1\"\n"
                                                            <> ("babeld_options=\" -A 127.0.0.1\"\n"
                                                            <> ("sharpd_options=\" -A 127.0.0.1\"\n"
                                                            <> ("pbrd_options=\"   -A 127.0.0.1\"\n"
                                                            <> ("staticd_options=\"-A 127.0.0.1\"\n"
                                                            <> ("bfdd_options=\"   -A 127.0.0.1\"\n"
                                                            <> ("fabricd_options=\"-A 127.0.0.1\"\n"
                                                            <> ("vrrpd_options=\"  -A 127.0.0.1\"\n"
                                                            <> ("pathd_options=\"  -A 127.0.0.1\"\n"
                                                            <> ("\n"
                                                            <> ("frr_profile=\"datacenter\"\n"
                                                            <> "\t"))))))))))))))))))))))))))))))))))))))))

unfoldable pub default_vtysh_conf : String
default_vtysh_conf = "service integrated-vtysh-config\n\t"

unfoldable pub base_config : String → String
base_config hostname =
    "frr defaults datacenter\nhostname "
    <> ((if is_blank hostname then "frridge" else hostname)
        <> "\nservice integrated-vtysh-config\n!\n")

unfoldable pub needs_seed_of : Bool → Presence → Result FileError Bool
needs_seed_of reseed present = ok reseed
needs_seed_of reseed absent = ok true
needs_seed_of reseed (stat_fault e) = err (at_step "stat seed marker" (io e))

module _ (f : Faults) where
  -- What follows a look for a file: nothing when it is there, its content when it is not.
  unfoldable pub write_absent : String → String → Presence → F (Unit {0})
  write_absent path text present = pure tt
  write_absent path text absent = within (at_step "write") (write_file f path text)
  write_absent path text (stat_fault e) = raise (at_step "stat" (io e))

  unfoldable pub write_if_missing : String → String → F (Unit {0})
  write_if_missing path text = do answer ← stat f path; write_absent path text answer

  -- A configuration that cannot be looked for is left alone.
  unfoldable pub write_default : String → String → Presence → F (Unit {0})
  write_default path text present = pure tt
  write_default path text absent =
      within (at_step "write default frr.conf") (write_file f path text)
  write_default path text (stat_fault e) = pure tt

  unfoldable pub remove_marker : String → F (Unit {0})
  remove_marker path d = let (result, left) = remove f path d in (unless_missing result, left)

  unfoldable pub place_config : Bool → String → String → String → F (Unit {0})
  place_config true marker path text = do
    within (at_step "remove seed marker") (remove_marker marker)
    within (at_step "rewrite frr.conf") (write_file f path text)
  place_config false marker path text = do answer ← stat f path; write_default path text answer

  unfoldable pub prepare_router_files : String → String → Bool → F PrepareResult
  prepare_router_files router_dir hostname reseed = do
    let config_dir = join (router_dir ∷ "etc" ∷ "frr" ∷ [])
    let marker_path = join (router_dir ∷ seed_marker_name ∷ [])
    within (at_step "create router config dir") (touch f)
    within (at_step "write daemons")
        (write_file f (join (config_dir ∷ "daemons" ∷ [])) default_daemons)
    write_if_missing (join (config_dir ∷ "vtysh.conf" ∷ [])) default_vtysh_conf
    place_config reseed marker_path (join (config_dir ∷ "frr.conf" ∷ [])) (base_config hostname)
    answer ← stat f marker_path
    needs_seed ← lift (needs_seed_of reseed answer)
    pure (record { config_dir = config_dir; needs_seed = needs_seed; marker_path = marker_path })

  unfoldable pub mark_seeded : String → F (Unit {0})
  mark_seeded marker_path = do
    within (at_step "create seed marker dir") (touch f)
    within (at_step "write seed marker") (write_file f marker_path "seeded\n")
