-- ===== src/Multipass/Shell.antt =====
-- The guest shell of internal/multipass/system.go: the script that a command becomes, and what its
-- output is taken apart into.
pub mod Quoting
pub mod Search
pub mod Overlap
pub mod Output
use Prim.Native.String.{String, [], ◌∷◌}
use frridge.Base.{
  ℕ, ◌<>◌, Char, code, Bool, true, false, ◌||◌, not, Option, none, some, List, map, Result, ok, err,
  ◌>>=◌, ◌>>◌, reject_if, if◌then◌else◌, nat_eq, ◌==◌,
}
use frridge.Base.Int.{ℤ, is_negative, exceeds}
use frridge.Base.Dict.{Dict, lookup}
use frridge.Base.Text.{is_blank, comes_before, trim_space}
use frridge.Base.Slices.{cut_prefix}

-- `ExecSpec`, with the text that its reader gives, and whether it has writers.
pub record ExecSpec : Type 0 where
  pub command : List String
  pub dir : String
  pub env : Dict String
  pub stdin : Option String
  pub has_stdout : Bool
  pub has_stderr : Bool

pub record ShellMarkers : Type 0 where
  pub output : String
  pub status : String

-- `newShellMarkers`, after the random token is drawn.
unfoldable pub new_shell_markers : String → ShellMarkers
new_shell_markers suffix = record {
  output = "__FRRIDGE_OUTPUT_BEGIN__" <> suffix;
  status = "__FRRIDGE_EXIT_STATUS__=" <> (suffix <> "=");
}

abbrev pub is_quote : Char → Bool
is_quote c = nat_eq (code c) 39

-- strings.ReplaceAll for what is one character long.
unfoldable pub replace_all : (Char → Bool) → String → String → String
replace_all p new [] = []
replace_all p new (c ∷ s) = let rest = replace_all p new s in if p c then new <> rest else c ∷ rest

unfoldable pub shell_quote : String → String
shell_quote value = "'" <> (replace_all is_quote "'\"'\"'" value <> "'")

-- `strings.Join(quoted, " ")`
unfoldable pub join_words : List String → String
join_words List.[] = ""
join_words (List.◌∷◌ word List.[]) = word
join_words (List.◌∷◌ word (List.◌∷◌ other rest)) = word <> (" " <> join_words (List.◌∷◌ other rest))

unfoldable pub shell_join : List String → String
shell_join args = join_words (map shell_quote args)

-- `slices.Sort` on the keys, each with its value.
unfoldable pub place_key : String → String → Dict String → Dict String
place_key key value List.[] = List.◌∷◌ (key, value) List.[]
place_key key value (List.◌∷◌ (other, old) rest) =
    let placed = place_key key value rest in
    if comes_before key other
    then List.◌∷◌ (key, value) (List.◌∷◌ (other, old) rest)
    else List.◌∷◌ (other, old) placed

unfoldable pub sorted_env : Dict String → Dict String
sorted_env List.[] = List.[]
sorted_env (List.◌∷◌ (key, value) rest) = place_key key value (sorted_env rest)

-- The lines that export the environment.
unfoldable pub export_lines : Dict String → String
export_lines List.[] = ""
export_lines (List.◌∷◌ (key, value) rest) =
    "export " <> (key <> ("=" <> (shell_quote value <> ("\n" <> export_lines rest))))

unfoldable pub cd_line : String → String
cd_line dir = if is_blank dir then "" else "cd " <> (shell_quote dir <> "\n")

-- The line that prints the output marker, and the lines that report the status.
unfoldable pub begin_line : Option ShellMarkers → String
begin_line none = ""
begin_line (some markers) = "printf " <> (shell_quote (markers.output <> "\\n") <> "\n")

unfoldable pub status_lines : Option ShellMarkers → String
status_lines none = "exit \"$status\"\n"
status_lines (some markers) =
    "printf " <> (shell_quote (markers.status <> "%s\\n") <> " \"$status\"\nexit 0\n")

unfoldable pub build_shell_script : ExecSpec → Option ShellMarkers → String
build_shell_script spec markers =
    "set -euo pipefail\n"
    <> (cd_line spec.dir
        <> (export_lines (sorted_env spec.env)
            <> (begin_line markers
                <> ("set +e\n"
                    <> (shell_join spec.command <> ("\nstatus=$?\n" <> status_lines markers))))))

unfoldable pub shell_input : ExecSpec → Option ShellMarkers → String
shell_input spec markers =
    let script = build_shell_script spec markers in
    elim spec.stdin [ none ↦ script | some input ↦ script <> input ]

-- strings.Cut: the text before the first place where the separator stands, and that after it.
abbrev pub put_before : Char → Option (String × String) → Option (String × String)
put_before c none = none
put_before c (some (before, after)) = some (c ∷ before, after)

abbrev pub here_or : Option String → Option (String × String) → Option (String × String)
here_or (some after) later = some ([], after)
here_or none later = later

unfoldable pub cut : String → String → Option (String × String)
cut sep [] = here_or (cut_prefix sep []) none
cut sep (c ∷ s) = let later = cut sep s in here_or (cut_prefix sep (c ∷ s)) (put_before c later)

-- strings.LastIndex, and the text before and after what stands there.
abbrev pub or_here : Option (String × String) → Option String → Option (String × String)
or_here (some found) here = some found
or_here none (some after) = some ([], after)
or_here none none = none

unfoldable pub cut_last : String → String → Option (String × String)
cut_last sep [] = or_here none (cut_prefix sep [])
cut_last sep (c ∷ s) =
    let later = cut_last sep s in or_here (put_before c later) (cut_prefix sep (c ∷ s))

-- The text without a newline at its end, if it has one there.
unfoldable pub cut_newline : String → Option String
cut_newline [] = none
cut_newline (c ∷ []) = if nat_eq (code c) 10 then some [] else none
cut_newline (c ∷ d ∷ s) = elim (cut_newline (d ∷ s)) [ some rest ↦ some (c ∷ rest) | none ↦ none ]

pub data OutputError : Type 0 where
  missing_output_marker missing_status_marker truncated_exit_status : OutputError
  unreadable_status invalid_status : String → OutputError

-- strconv: `Atoi`, and `Itoa`.
pub record Decimal : Type 0 where
  pub atoi : String → Option ℤ
  pub itoa : ℤ → String

abbrev pub given {ℓ κ} : {E : Type ℓ} {A : Type κ} → Option A → E → Result E A
given none e = err e
given (some a) e = ok a

unfoldable pub parse_shell_output :
    Decimal → String → ShellMarkers → Result OutputError (String × ℤ)
parse_shell_output decimal output markers = do
  (_, printed) ← given (cut (markers.output <> "\n") output) missing_output_marker
  (content, tail) ← given (cut_last markers.status printed) missing_status_marker
  status_text ← given (cut_newline tail) truncated_exit_status
  exit_code ← given (decimal.atoi status_text) (unreadable_status status_text)
  reject_if
      (is_negative exit_code
        || exceeds exit_code 255
        || not (status_text == decimal.itoa exit_code))
      (invalid_status status_text)
  ok (content, exit_code)
