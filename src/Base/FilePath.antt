-- ===== src/Base/FilePath.antt =====
-- Package filepath on Unix: `Clean` and `Join`, which work on the text alone.
pub mod Laws
use Prim.Native.Char.{Char}
use Prim.Native.String.{String, ◌++◌ as ◌<>◌}
use mathlib.Core.Path.{◌≡◌, refl, ap, ◌∙◌}
use mathlib.Core.Bool.{Bool, true, false}
use mathlib.Core.List.{List, [], ◌∷◌, ◌++◌, reverse}
use native.Mathlib.Omega.{arith}
use text.Mathlib.Text.{◌==◌}
use frridge.Base.Tests.{if◌then◌else◌, Bool-cases}
use frridge.Base.Text.{is_slash, is_abs}

-- A character before the first element.
abbrev pub onto_first : Char → List String → List String
onto_first c [] = String.◌∷◌ c "" ∷ []
onto_first c (e ∷ rest) = String.◌∷◌ c e ∷ rest

-- The texts between the slashes.
unfoldable pub elements : String → List String
elements String.[] = "" ∷ []
elements (String.◌∷◌ c s) =
    let rest = elements s in if is_slash c then "" ∷ rest else onto_first c rest

-- The elements kept so far, the last one first.
abbrev pub back_up : Bool → List String → List String
back_up true [] = []
back_up false [] = ".." ∷ []
back_up rooted (e ∷ stack) = if e == ".." then ".." ∷ e ∷ stack else stack

abbrev pub enter : Bool → List String → String → List String
enter rooted stack e =
    if e == ""
    then stack
    else if e == "."
    then stack
    else if e == ".."
    then back_up rooted stack
    else e ∷ stack

unfoldable pub walk : Bool → List String → List String → List String
walk rooted stack [] = stack
walk rooted stack (e ∷ rest) = walk rooted (enter rooted stack e) rest

-- strings.Join(elements, "/")
unfoldable pub slashed : List String → String
slashed [] = ""
slashed (e ∷ []) = e
slashed (e ∷ f ∷ rest) = e <> ("/" <> slashed (f ∷ rest))

abbrev pub rebuild : Bool → List String → String
rebuild true stack = "/" <> slashed (reverse stack)
rebuild false [] = "."
rebuild false (e ∷ stack) = slashed (reverse (e ∷ stack))

-- filepath.Clean
unfoldable pub clean : String → String
unfolding is_abs elements walk slashed
clean path = rebuild (is_abs path) (walk (is_abs path) [] (elements path))

-- filepath.Join
unfoldable pub join : List String → String
unfolding clean
join [] = ""
join (e ∷ rest) = let later = join rest in if e == "" then later else clean (slashed (e ∷ rest))
