-- ===== src/Docker/Released.antt =====
-- The resources that the methods of internal/docker/docker.go hold after they return.
use frridge.Base.{
  ◌≡◌, refl, ℕ, String, Bool, true, false, Option, none, some, List, Result, if◌then◌else◌,
}
use frridge.Base.Program.{Keeps, lift, sequence-Keeps, pure-Keeps, raise-Keeps, within-Keeps}
use frridge.Runtime.Host.{ContainerSpec}
use frridge.Docker.{
  Sdk, D, History, DockerError, pull_image, by_inspection, ensure_image, create_container, make_raw,
  restore_terminal, exec_attach, close_attach, image_pull, close_pull,
}
use frridge.Docker.Interactive.{
  create_exec, copy_exec_output, inspect_exec, attached, exec, attach_resize, run_attached,
  in_raw_mode, exec_interactive,
}
use frridge.Docker.Resources.{
  Resource, raw_mode, attachment, response, effect_of, held, Holds, ask-Keeps, invoke-Keeps,
  perform-Keeps, perform_as-Keeps, deferring-Keeps, plain-IsNeutral, bracket-Keeps,
}

module _ (k : Sdk) (r : Resource) where
  lift-Keeps : {A : Type 0} (n : ℕ) (x : Result DockerError A) → Keeps (Holds k r n) (lift x)
  unfolding lift
  lift-Keeps n x past p = p

  if-Keeps :
      {A : Type 0} (n : ℕ) (c : Bool) (m o : D A)
      → Keeps (Holds k r n) m
      → Keeps (Holds k r n) o
      → Keeps (Holds k r n) (if c then m else o)
  if-Keeps n true m o first second = first
  if-Keeps n false m o first second = second

  ruleset call_rules = (
    sequence-Keeps, pure-Keeps, raise-Keeps, within-Keeps, ask-Keeps, invoke-Keeps, perform-Keeps,
    perform_as-Keeps, deferring-Keeps, plain-IsNeutral, lift-Keeps, if-Keeps, refl,
  )

  pull_image-Keeps : (image : String) (n : ℕ) → Keeps (Holds k r n) (pull_image k image)
  unfolding pull_image effect_of
  pull_image-Keeps image n =
      bracket-Keeps k r response _ (image_pull image) close_pull _ refl refl
        (λ m. search call_rules depth 20) n

  by_inspection-Keeps :
      (image : String) (answer : Option DockerError) (n : ℕ)
      → Keeps (Holds k r n) (by_inspection k image answer)
  unfolding by_inspection
  by_inspection-Keeps image none n = search call_rules depth 20
  by_inspection-Keeps image (some e) n = search (call_rules, pull_image-Keeps) depth 20

  create_container-Keeps :
      (spec : ContainerSpec) (n : ℕ) → Keeps (Holds k r n) (create_container k spec)
  unfolding create_container ensure_image effect_of
  create_container-Keeps spec n = search (call_rules, by_inspection-Keeps) depth 20

  attached-Keeps :
      {A : Type 0} (id : String) (tty : Bool) (body : D A)
      → ((m : ℕ) → Keeps (Holds k r m) body)
      → (n : ℕ) → Keeps (Holds k r n) (attached k id tty body)
  unfolding attached effect_of
  attached-Keeps id tty body keeps n =
      bracket-Keeps k r attachment _ (exec_attach id tty) close_attach _ refl refl
        (λ m. search (call_rules, keeps) depth 20) n

  copy-Keeps : (tty : Bool) (n : ℕ) → Keeps (Holds k r n) (copy_exec_output k tty)
  unfolding copy_exec_output effect_of
  copy-Keeps tty n = search call_rules depth 20

  inspect-Keeps : (id : String) (n : ℕ) → Keeps (Holds k r n) (inspect_exec k id)
  unfolding inspect_exec effect_of
  inspect-Keeps id n = search call_rules depth 20

  exec-Keeps : (id : String) (cmd : List String) (n : ℕ) → Keeps (Holds k r n) (exec k id cmd)
  unfolding exec create_exec effect_of
  exec-Keeps id cmd n = search (call_rules, attached-Keeps, copy-Keeps, inspect-Keeps) depth 20

  run_attached-Keeps :
      (id : String) (tty : Bool) (n : ℕ) → Keeps (Holds k r n) (run_attached k id tty)
  unfolding run_attached effect_of
  run_attached-Keeps id tty n = search (call_rules, copy-Keeps, inspect-Keeps) depth 20

  attach_resize-Keeps : (id : String) (n : ℕ) → Keeps (Holds k r n) (attach_resize k id)
  unfolding attach_resize effect_of
  attach_resize-Keeps id n = search call_rules depth 20

  in_raw_mode-Keeps :
      (id : String) (body : D (Unit {0}))
      → ((m : ℕ) → Keeps (Holds k r m) body)
      → (n : ℕ) → Keeps (Holds k r n) (in_raw_mode k id body)
  unfolding in_raw_mode effect_of
  in_raw_mode-Keeps id body keeps n =
      bracket-Keeps k r raw_mode _ make_raw restore_terminal _ refl refl
        (λ m. search (call_rules, attach_resize-Keeps, keeps) depth 20) n

  exec_interactive-Keeps :
      (id : String) (cmd : List String) (n : ℕ) → Keeps (Holds k r n) (exec_interactive k id cmd)
  unfolding exec_interactive create_exec effect_of
  exec_interactive-Keeps id cmd n =
      search (call_rules, attached-Keeps, in_raw_mode-Keeps, run_attached-Keeps) depth 20

-- CreateContainer, Exec and ExecInteractive leave as many terminals in raw mode, as many open
-- attachments and as many unread responses of pulls as they found, whatever each call answers.
pub methods-held :
    (k : Sdk) (r : Resource) (past : History) (spec : ContainerSpec) (id : String)
    (cmd : List String)
    → (held k r (create_container k spec past).1 ≡ held k r past)
      × (held k r (exec k id cmd past).1 ≡ held k r past)
      × (held k r (exec_interactive k id cmd past).1 ≡ held k r past)
methods-held k r past spec id cmd = (
  create_container-Keeps k r spec _ past refl,
  exec-Keeps k r id cmd _ past refl,
  exec_interactive-Keeps k r id cmd _ past refl,
)
