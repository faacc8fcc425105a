-- ===== src/Runtime/Ping.antt =====
-- The ping checks, the console lookup and the parts of internal/runtime/runtime.go that read the
-- output of commands.
pub mod Laws
use frridge.Base.{
  ℕ, zero, String, Bool, true, false, ◌||◌, ◌&&◌, Option, none, some, List, [], ◌∷◌, ◌++◌, ◌==◌,
  ◌<>◌, if◌then◌else◌, Result, ok, err, contains, nat_eq,
}
use frridge.Base.Int.{ℤ, is_zero, pos}
use frridge.Base.Text.{trim_space, is_blank}
use frridge.Config.Topology.{Ping}
use frridge.Runtime.Host.{ExecResult, RuntimeError, no_pings, unknown_ping}

unfoldable pub find_ping : String → List Ping → Result RuntimeError (List Ping)
find_ping name [] = err (unknown_ping name)
find_ping name (check ∷ checks) =
    let rest = find_ping name checks in if check.name == name then ok (check ∷ []) else rest

unfoldable pub select_ping_checks : List Ping → String → Result RuntimeError (List Ping)
unfolding find_ping
select_ping_checks [] name = err no_pings
select_ping_checks (check ∷ checks) name =
    if is_blank name then ok (check ∷ checks) else find_ping name (check ∷ checks)

-- `command` is strconv.Itoa, the decimal text of an int.
module _ (itoa : ℤ → String) where
  abbrev pub effective_count : ℤ → ℤ
  effective_count count = if is_zero count then pos 3 else count

  abbrev pub source_option : String → List String
  source_option source = if source == "" then [] else "-I" ∷ source ∷ []

  unfoldable pub ping_command : Ping → List String
  ping_command check =
      let command =
        "ping"
        ∷ "-c"
        ∷ itoa (effective_count check.count)
        ∷ "-W"
        ∷ "1"
        ∷ (source_option (trim_space check.from.address) ++ check.to ∷ []) in
      if is_blank check.from.namespace
      then command
      else "ip" ∷ "netns" ∷ "exec" ∷ check.from.namespace ∷ command

unfoldable pub combine_exec_output : ExecResult → String
combine_exec_output result =
    if result.stderr == ""
    then result.stdout
    else if result.stdout == ""
    then result.stderr
    else result.stdout <> result.stderr

unfoldable pub has_daemons : List String → List String → Bool
has_daemons running [] = true
has_daemons running (daemon ∷ want) = contains running daemon && has_daemons running want

unfoldable pub render_vtysh : String → String
render_vtysh config = "cat <<'EOF' | vtysh\n" <> (trim_space config <> "\nend\nwrite memory\nEOF\n")

-- strings.Contains, from package strings.
unfoldable pub contains_text : String → String → Bool
contains_text s t = elim (text.Mathlib.Text.find? s t) [ none ↦ false | some _ ↦ true ]

-- The message of a failed `write memory`, if the output tells of one.
unfoldable pub vtysh_write_failure : ExecResult → Option String
vtysh_write_failure result =
    let output = trim_space (result.stdout <> ("\n" <> result.stderr)) in
    if contains_text output "% Configuration write failed."
    then some (trim_space output)
    else if contains_text output "% Not all daemons are up, cannot write config."
    then some (trim_space output)
    else none
