-- ===== src/Tests/Docker.antt =====
-- The theorems on internal/docker at a daemon that has to pull the image.
use frridge.Base.{◌≡◌, refl, Bool, true, false, Option, none, some, [], ◌∷◌, ok}
use frridge.Base.Int.{pos}
use frridge.Base.Text.{is_blank, trim_space, trim, trim_left, trim_right, is_space}
use frridge.Base.Program.{◌>>=◌, within, lift, pure, raise}
use frridge.Base.Program.Calls.{ask, invoke, perform}
use frridge.Runtime.Host.{ContainerSpec}
use frridge.Docker.{
  Sdk, History, Call, DockerError, outside, image_inspect, create_container, ensure_image,
  by_inspection, pull_image, perform_as, deferring,
}
use frridge.Docker.Interactive.{exec, exec_interactive}
use frridge.Docker.Creation.{IsCreated, create_container-IsCreated}
use frridge.Docker.Resources.{held, raw_mode}
use frridge.Docker.Released.{methods-held}

abbrev is_unknown : DockerError → Bool
is_unknown (outside text) = true
is_unknown _ = false

abbrev missing_image : History → Call → Option DockerError
missing_image past (image_inspect image) = some (outside "No such image")
missing_image past _ = none

abbrev daemon : Sdk
daemon = record {
  performed = missing_image;
  created = λ past call. ok "c0ffee";
  inspected = λ past id. ok (record { id = id; pid = pos 42 });
  listed = λ past labels. ok [];
  copied = λ past tty. record { stdout = "ok\n"; stderr = ""; failure = none; canceled = none };
  exit_code = λ past id. ok (pos 0);
  size = λ past. ok (80, 24);
  stdin_tty = true;
  stdout_tty = true;
  is_not_found = is_unknown;
  is_end = λ e. false;
}

abbrev router : ContainerSpec
router = record {
  name = "frridge-lab-r1";
  image = "frr:10";
  hostname = "r1";
  command = [];
  env = ("TERM", "xterm") ∷ ("A", "1") ∷ [];
  labels = [];
  sysctls = [];
  mounts = [];
  privileged = true;
}

router-is_created : (create_container daemon router []).0 ≡ ok "c0ffee"
unfolding create_container ensure_image by_inspection pull_image perform_as deferring ◌>>=◌ within
    lift pure raise ask invoke perform is_blank trim_space trim trim_left trim_right is_space
router-is_created = refl

create_container-IsCreated_example :
    IsCreated daemon router "c0ffee" [] (create_container daemon router []).1
create_container-IsCreated_example =
    create_container-IsCreated daemon router "c0ffee" [] router-is_created

methods-held_example :
    (held daemon raw_mode (create_container daemon router []).1 ≡ held daemon raw_mode [])
    × (held daemon raw_mode (exec daemon "c0ffee" ("vtysh" ∷ []) []).1 ≡ held daemon raw_mode [])
    × (held daemon raw_mode (exec_interactive daemon "c0ffee" ("vtysh" ∷ []) []).1
        ≡ held daemon raw_mode [])
methods-held_example = methods-held daemon raw_mode [] router "c0ffee" ("vtysh" ∷ [])
