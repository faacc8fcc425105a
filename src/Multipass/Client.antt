-- ===== src/Multipass/Client.antt =====
-- `systemCLI` of internal/multipass/system.go: the commands of the multipass program. What a command
-- answers is a function of the calls before; the decoding of its JSON is a parameter.
use frridge.Base.{
  String, Bool, true, false, ◌||◌, ◌&&◌, not, Option, none, some, List, [], ◌∷◌, Result, ◌==◌,
  if◌then◌else◌,
}
use frridge.Base.Int.{ℤ, is_zero}
use frridge.Base.Dict.{Dict, lookup}
use frridge.Base.Text.{trim_space}
use frridge.Base.Program.{Program, ◌>>=◌, ◌>>◌, pure, raise, lift, within}
use frridge.Base.Program.Calls.{ask, invoke, perform}
use frridge.Multipass.Shell.{
  ExecSpec, new_shell_markers, shell_input, Decimal, OutputError, parse_shell_output,
}

-- An error of the outside, by its text.
abbrev pub Fault : Type 0
Fault = String

-- `Instance` and `Info` of internal/multipass/multipass.go.
pub record Instance : Type 0 where
  pub name : String
  pub image : String
  pub cpus : ℤ
  pub memory : String
  pub disk : String

pub record Info : Type 0 where
  pub state : String
  pub mounts : Dict String

pub data Call : Type 0 where
  run : List String → Option String → Call
  draw_token write_cloud_init : Call
  remove_file : String → Call
  print_stdout print_stderr : String → Call

-- A finished process: what it printed, and the error of `cmd.Run`.
pub record Process : Type 0 where
  pub stdout : String
  pub stderr : String
  pub failure : Option Fault

pub data ClientError : Type 0 where
  instance_not_found : ClientError
  outside : String → Fault → ClientError
  bad_output : OutputError → ClientError
  -- `commandError`, without and with what the command printed to stderr.
  command_failed : String → ClientError → ClientError
  command_failed_with : String → ClientError → String → ClientError
  process_failed : Fault → ClientError
  guest_status : ℤ → ClientError

pub record System : Type 0 where
  pub ran : List Call → List String → Option String → Process
  pub token : List Call → Result ClientError String
  pub cloud_init : List Call → Result ClientError String
  pub printed : List Call → Call → Option ClientError
  -- `json.Unmarshal` of the answer of `multipass info`.
  pub decode_info : String → Result ClientError (Dict Info)
  pub decimal : Decimal
  -- strings.ToLower, and whether a text has another in it.
  pub to_lower : String → String
  pub contains_text : String → String → Bool

abbrev pub C : Type 0 → Type 0
C = Program (List Call) ClientError

unfoldable pub command_error : String → ClientError → String → ClientError
command_error prefix e stderr =
    let trimmed = trim_space stderr in
    if trimmed == "" then command_failed prefix e else command_failed_with prefix e trimmed

module _ (s : System) where
  unfoldable pub looks_like_instance_not_found : String → Bool
  looks_like_instance_not_found stderr =
      let lower = s.to_lower stderr in
      s.contains_text lower "does not exist" || s.contains_text lower "not found"

  unfoldable pub run_multipass : List String → Option String → C Process
  run_multipass args stdin = ask (run args stdin) (λ past. s.ran past args stdin)

  -- The error of a command that failed, and its output otherwise.
  unfoldable pub checked : String → Process → C String
  checked prefix p = elim p.failure [
    | none ↦ pure p.stdout
    | some e ↦ raise (command_error prefix (process_failed e) p.stderr)
  ]

  unfoldable pub info_of : String → Process → C String
  info_of prefix p = elim p.failure [
    | none ↦ pure p.stdout
    | some e ↦
        if looks_like_instance_not_found p.stderr
        then raise instance_not_found
        else raise (command_error prefix (process_failed e) p.stderr)
  ]

  unfoldable pub find_instance : Option Info → C Info
  find_instance none = raise instance_not_found
  find_instance (some entry) = pure entry

  unfoldable pub info : String → C Info
  info name = do
    p ← run_multipass ("info" ∷ "--format" ∷ "json" ∷ name ∷ []) none
    stdout ← info_of "multipass info" p
    payload ← lift (s.decode_info stdout)
    find_instance (lookup name payload)

  -- A subcommand whose output does not matter.
  unfoldable pub run_checked : String → List String → C (Unit {0})
  run_checked prefix args = do p ← run_multipass args none; checked prefix p; pure tt

  -- A body and then the removal that `defer cleanup()` put off.
  unfoldable pub then_remove : String → C (Unit {0}) → C (Unit {0})
  then_remove path body past = let (result, after) = body past in (result, remove_file path ∷ after)

  unfoldable pub launch : Instance → C (Unit {0})
  launch spec = do
    path ← invoke write_cloud_init s.cloud_init
    then_remove path (
        run_checked "multipass launch" (
          "launch"
          ∷ spec.image
          ∷ "--name"
          ∷ spec.name
          ∷ "--cpus"
          ∷ s.decimal.itoa spec.cpus
          ∷ "--memory"
          ∷ spec.memory
          ∷ "--disk"
          ∷ spec.disk
          ∷ "--cloud-init"
          ∷ path
          ∷ []))

  unfoldable pub start : String → C (Unit {0})
  start name = run_checked "multipass start" ("start" ∷ name ∷ [])

  unfoldable pub mount : String → String → C (Unit {0})
  mount source target = run_checked "multipass mount" ("mount" ∷ source ∷ target ∷ [])

  unfoldable pub transfer : String → String → C (Unit {0})
  transfer source target = run_checked "multipass transfer" ("transfer" ∷ source ∷ target ∷ [])

  -- The shell with the script and its markers, and what its output is taken apart into.
  unfoldable pub run_script : String → ExecSpec → C (String × ℤ × String)
  run_script name spec = do
    suffix ← invoke draw_token s.token
    let markers = new_shell_markers suffix
    p ← run_multipass ("shell" ∷ name ∷ []) (some (shell_input spec (some markers)))
    stdout ← checked "multipass shell" p
    (content, status) ← within bad_output (lift (parse_shell_output s.decimal stdout markers))
    pure (content, status, p.stderr)

  unfoldable pub check_status : ℤ → String → C (Unit {0})
  check_status status stderr =
      if is_zero status
      then pure tt
      else raise (command_error "multipass shell" (guest_status status) stderr)

  unfoldable pub output : String → ExecSpec → C String
  output name spec = do
    (content, status, stderr) ← run_script name spec
    check_status status stderr
    pure content

  unfoldable pub print_if : Bool → Call → C (Unit {0})
  print_if true call = perform s.printed call
  print_if false call = pure tt

  unfoldable pub exec_buffered : String → ExecSpec → C (Unit {0})
  exec_buffered name spec = do
    (content, status, stderr) ← run_script name spec
    print_if (spec.has_stdout && not (content == "")) (print_stdout content)
    print_if (spec.has_stderr && not (stderr == "")) (print_stderr stderr)
    check_status status stderr

  unfoldable pub exec : String → ExecSpec → C (Unit {0})
  exec name spec = elim spec.stdin [
    | none ↦ exec_buffered name spec
    | some _ ↦ (do
      p ← run_multipass ("shell" ∷ name ∷ []) (some (shell_input spec none))
      checked "multipass shell" p
      pure tt)
  ]
