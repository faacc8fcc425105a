-- ===== src/Tests/Multipass.antt =====
-- The theorems on internal/multipass at concrete commands, outputs, requests and images.
use frridge.Base.{arith, ◌≡◌, refl, ◌<>◌, String, true, false, none, some, List, [], ◌∷◌, ok, err}
use frridge.Base.Int.{pos, InRange}
use frridge.Base.Text.{has, trim_space, trim, trim_left, trim_right, is_space, is_blank}
use frridge.Base.Slices.{cut_prefix, take_chars}
use frridge.Base.FilePath.{clean, walk, elements, slashed, join}
use frridge.Multipass.Shell.{
  Decimal, new_shell_markers, shell_join, cut, cut_last, cut_newline, parse_shell_output,
}
use frridge.Multipass.Shell.Quoting.{shell_words, shell_words-shell_join}
use frridge.Multipass.Shell.Output.{
  is_newline, is_equals, transcript, parse_shell_output-transcript, parse_shell_output-eq-ok,
}
use frridge.Multipass.Request.{
  Request, ResolvedRequest, HostFiles, with_defaults, resolve_directory, short_hash,
  resolve_request,
}
use frridge.Multipass.Request.Laws.{IsResolved, resolve_request-IsResolved}
use frridge.Multipass.Image.{ImageBuildResult, image_archive, Sources}
use frridge.Multipass.Manager.{Outside, Environment, present, outside}
use frridge.Multipass.Archive.{HostTools, TextAnswer, a_file}
use frridge.Multipass.Archive

abbrev command : List String
command = "printf" ∷ "it's %s" ∷ "" ∷ "$HOME \"x\"" ∷ []

shell_words-shell_join_example : shell_words (shell_join command) ≡ some command
shell_words-shell_join_example = shell_words-shell_join command

-- strconv at the one status that the runs have.
abbrev status_one : Decimal
status_one = record { atoi = λ text. some (pos 1); itoa = λ x. "1" }

abbrev token : String
token = "00ff"

abbrev banner : String
banner = "Welcome\n"

abbrev content : String
content = "a__FRRIDGE_EXIT_STATUS__=00ff=\n"

no_newline : has is_newline token ≡ false
unfolding has
no_newline = refl

not_in_banner : cut ((new_shell_markers token).output <> "\n") banner ≡ none
unfolding cut cut_prefix new_shell_markers
not_in_banner = refl

no_equals : has is_equals (status_one.itoa (pos 1)) ≡ false
unfolding has
no_equals = refl

parse_shell_output-transcript_example :
    parse_shell_output status_one
      (transcript status_one (new_shell_markers token) banner content (pos 1))
      (new_shell_markers token)
    ≡ ok (content, pos 1)
parse_shell_output-transcript_example =
    parse_shell_output-transcript status_one token banner content 1 no_newline not_in_banner
      (omega arith) refl no_equals

abbrev printed : String
printed = "Welcome\n__FRRIDGE_OUTPUT_BEGIN__00ff\nx86_64\n__FRRIDGE_EXIT_STATUS__=00ff=1\n"

printed-parses :
    parse_shell_output status_one printed (new_shell_markers token) ≡ ok ("x86_64\n", pos 1)
unfolding parse_shell_output cut cut_last cut_newline cut_prefix new_shell_markers
printed-parses = refl

parse_shell_output-eq-ok_example :
    (before : String) × (printed
      ≡ transcript status_one (new_shell_markers token) before "x86_64\n" (pos 1))
    × InRange 0 255 (pos 1)
parse_shell_output-eq-ok_example =
    parse_shell_output-eq-ok status_one printed "x86_64\n" (new_shell_markers token) (pos 1)
      printed-parses

abbrev host : HostFiles
host = record {
  getwd = ok "/repo";
  abs = λ path. ok path;
  is_dir = λ path. ok true;
  sha256 = λ text. "0123456789abcdef";
  detect_repo_dir = ok "/repo";
}

abbrev empty_request : Request
empty_request = record {
  instance = record { name = ""; image = ""; cpus = pos 0; memory = ""; disk = "" };
  repo_dir = "";
  host_dir = "";
  refresh_image = false;
}

abbrev resolved : ResolvedRequest
resolved = record {
  instance = record {
    name = "frridge-dev";
    image = "24.04";
    cpus = pos 2;
    memory = "4G";
    disk = "20G";
  };
  host_dir = "/repo";
  repo_dir = "/repo";
  guest_host_dir = "/home/ubuntu/.local/share/frridge-mp/mounts/0123456789ab";
  guest_repo_dir = "/home/ubuntu/.local/share/frridge-mp/mounts/0123456789ab";
  guest_work_dir = "/home/ubuntu/.local/share/frridge-mp/workdirs/0123456789ab";
  refresh_image = false;
}

request-resolves : resolve_request host empty_request ≡ ok resolved
unfolding resolve_request with_defaults resolve_directory short_hash take_chars join clean walk
    elements slashed has is_blank trim_space trim trim_left trim_right is_space
request-resolves = refl

resolve_request-IsResolved_example : IsResolved host resolved
resolve_request-IsResolved_example =
    resolve_request-IsResolved host empty_request resolved request-resolves

abbrev image_id : String
image_id = "sha256:0123456789abcdef0123456789abcdef0123456789abcdef0123456789abcdef"

abbrev sources : Sources
sources = record {
  context_digest = λ dir. ok "c0ffee";
  frr_ref = "";
  libyang_ref = "";
  sha256 = λ text. "beef";
  is_hex = λ text. true;
  to_lower = λ text. text;
  decode_identity = λ text. some (record { id = image_id; inputs = "v2-beef"; legacy_id = "" });
}

-- A host without an image builder, and a guest whose image has the inputs.
abbrev guest : Outside
guest = record {
  performed = λ past call. none;
  informed = λ past name. err (outside "");
  printed = λ past name spec. ok "{}";
  built = λ past repo arch. err (outside "");
  presence = λ past path. present;
  has_image_builder = false;
  cached = λ past repo arch. ok none;
  image_built = λ past repo arch. err (outside "");
  random = λ past. "r";
  sources = sources;
  bootstrap_script = "true\n";
  pid = "7";
  terminal = "";
  work_dir_env = "FRRIDGE_WORK_DIR";
}

abbrev guest_env : Environment
guest_env = record {
  instance_name = "frridge-dev";
  host_dir = "/repo";
  repo_dir = "/repo";
  guest_host_dir = "/m";
  guest_repo_dir = "/m";
  guest_work_dir = "/s";
  guest_binary_dir = "/b";
  guest_binary = "/b/frridge";
}

-- A host whose docker answers every command.
abbrev tools : HostTools
tools = record {
  performed = λ past call. none;
  printed = λ past args dir. ok "{}";
  temporary = λ past. ok "/c/images/.refresh-1.tar";
  text = λ past path. frridge.Multipass.Archive.content (image_id <> "\n");
  archive = λ past path. a_file true 7;
  sources = sources;
  cache_dir = "/c";
}

abbrev built : ImageBuildResult
built = image_archive "/c/images" "0123456789abcdef0123456789abcdef0123456789abcdef0123456789abcdef"
