-- ===== src/Base/Text.antt =====
-- What the program uses of Go's packages strings, unicode and filepath, over code points.
pub mod Laws
use Prim.Native.Nat.{ℕ}
use Prim.Native.Char.{Char, code}
use Prim.Native.String.{String, [], ◌∷◌}
use mathlib.Core.Bool.{Bool, true, false, not, ◌&&◌, ◌||◌}
use mathlib.Core.List.{List}
use text.Mathlib.Text.{◌==◌}
use frridge.Base.Tests.{leb, ltb, nat_eq, if◌then◌else◌}

-- unicode.IsSpace
unfoldable pub is_space : Char → Bool
is_space c =
    let n = code c in
    (leb 9 n && leb n 13)
    || nat_eq n 32
    || nat_eq n 0x85
    || nat_eq n 0xa0
    || nat_eq n 0x1680
    || (leb 0x2000 n && leb n 0x200a)
    || nat_eq n 0x2028
    || nat_eq n 0x2029
    || nat_eq n 0x202f
    || nat_eq n 0x205f
    || nat_eq n 0x3000

module _ (p : Char → Bool) where
  unfoldable pub trim_left : String → String
  trim_left [] = []
  trim_left (c ∷ s) = let rest = trim_left s in if p c then rest else c ∷ s

  -- The character before what is left of the rest.
  abbrev pub before_rest : Char → String → String
  before_rest c [] = if p c then [] else c ∷ []
  before_rest c (d ∷ s) = c ∷ d ∷ s

  unfoldable pub trim_right : String → String
  trim_right [] = []
  trim_right (c ∷ s) = before_rest c (trim_right s)

  -- strings.TrimFunc
  unfoldable pub trim : String → String
  unfolding trim_left trim_right
  trim s = trim_right (trim_left s)

  -- strings.ContainsFunc
  unfoldable pub has : String → Bool
  has [] = false
  has (c ∷ s) = p c || has s

-- strings.TrimSpace
unfoldable pub trim_space : String → String
unfolding trim is_space
trim_space = trim is_space

-- `strings.TrimSpace(s) == ""`
unfoldable pub is_blank : String → Bool
unfolding trim_space
is_blank s = trim_space s == ""

abbrev pub is_slash : Char → Bool
is_slash c = nat_eq (code c) b'/'

abbrev pub is_nul : Char → Bool
is_nul c = nat_eq (code c) 0

-- What follows the last slash.
unfoldable pub last_element : String → String
unfolding has
last_element [] = []
last_element (c ∷ s) =
    let rest = last_element s in if has is_slash s then rest else if is_slash c then s else c ∷ s

-- filepath.Base
unfoldable pub base : String → String
unfolding trim_right last_element
base s =
    let element = last_element (trim_right is_slash s) in
    if s == "" then "." else if element == "" then "/" else element

-- filepath.IsAbs
unfoldable pub is_abs : String → Bool
is_abs [] = false
is_abs (c ∷ s) = is_slash c

-- A word before the words that follow it, if it has a character.
abbrev pub onto_words : String → List String → List String
onto_words [] words = words
onto_words (c ∷ s) words = List.◌∷◌ (String.◌∷◌ c s) words

-- The word that the text begins with, and those after it.
unfoldable pub words : String → String × List String
words [] = ([], List.[])
words (c ∷ s) =
    let (word, rest) = words s in
    if is_space c then ([], onto_words word rest) else (c ∷ word, rest)

-- strings.Fields
unfoldable pub fields : String → List String
fields s = let (word, rest) = words s in onto_words word rest

-- The order of `sort.Strings`: that of UTF-8 bytes is that of code points.
unfoldable pub comes_before : String → String → Bool
comes_before [] t = true
comes_before (c ∷ s) [] = false
comes_before (c ∷ s) (d ∷ t) =
    ltb (code c) (code d) || (nat_eq (code c) (code d) && comes_before s t)
