-- ===== src/Multipass/Shell/Quoting.antt =====
-- How a POSIX shell splits a line into words, for the quoting of internal/multipass/system.go.
use Prim.Native.String.{String, [], ◌∷◌}
use frridge.Base.{
  ◌≡◌, refl, sym, ◌∙◌, ap, ◌<>◌, Char, code, Bool, true, false, ◌||◌, Option, none, some, List, map,
  nat_eq, if◌then◌else◌, arith,
}
use Prim.Native.Nat.{ℕ, compare, Ordering}
use text.Mathlib.TextLemmas as Lemmas
use text.Mathlib.TextEquality.{codes_equal}
use frridge.Base.{Bool-cases, inl, inr}
use frridge.Multipass.Shell.{replace_all, is_quote, shell_quote, join_words, shell_join}

-- Between two words, in a word, within single quotes, and within double quotes.
pub data Mode : Type 0 where
  gap plain single double : Mode

abbrev pub is_blank_char : Char → Bool
is_blank_char c = nat_eq (code c) 32 || nat_eq (code c) 9

abbrev pub is_double_quote : Char → Bool
is_double_quote c = nat_eq (code c) 34

-- What keeps a meaning within double quotes: a backslash, a dollar sign and a backquote.
abbrev pub expands : Char → Bool
expands c = nat_eq (code c) 92 || nat_eq (code c) 36 || nat_eq (code c) 96

-- The letters and digits, and the marks that a shell takes as they stand.
abbrev pub is_literal : Char → Bool
is_literal c =
    let n = code c in
    nat_eq n 95 || nat_eq n 45 || nat_eq n 46 || nat_eq n 47 || nat_eq n 58 || nat_eq n 44

-- The word that a character ends, if it ends one, with the mode and the word after it; none where
-- the character has a meaning that this reading leaves out.
abbrev pub Step : Type 0
Step = Option (Option String × Mode × String)

abbrev pub add : String → Char → String
add word c = word <> (c ∷ [])

unfoldable pub step : Mode → String → Char → Step
step single word c =
    if is_quote c then some (none, plain, word) else some (none, single, add word c)
step double word c =
    if is_double_quote c
    then some (none, plain, word)
    else if expands c
    then none
    else some (none, double, add word c)
step plain word c =
    if is_quote c
    then some (none, single, word)
    else if is_double_quote c
    then some (none, double, word)
    else if is_blank_char c
    then some (some word, gap, "")
    else if is_literal c
    then some (none, plain, add word c)
    else none
step gap word c =
    if is_quote c
    then some (none, single, "")
    else if is_double_quote c
    then some (none, double, "")
    else if is_blank_char c
    then some (none, gap, "")
    else if is_literal c
    then some (none, plain, add "" c)
    else none

abbrev pub emit : Option String → Option (List String) → Option (List String)
emit none words = words
emit (some word) none = none
emit (some word) (some words) = some (List.◌∷◌ word words)

unfoldable pub read_words : Mode → String → String → Option (List String)
read_words gap word [] = some List.[]
read_words plain word [] = some (List.◌∷◌ word List.[])
read_words single word [] = none
read_words double word [] = none
read_words mode word (c ∷ s) = elim (step mode word c) [
  | none ↦ none
  | some (ended, mode', word') ↦ emit ended (read_words mode' word' s)
]

-- The words of a line, or none when a quote is left open or the line has what this reading leaves out.
unfoldable pub shell_words : String → Option (List String)
shell_words line = read_words gap "" line

-- A quoted quote: it ends the single quotes, stands in double quotes, and begins them again.
abbrev quoted_quote : String → String
quoted_quote t = "'" ∷ "\"" ∷ "'" ∷ "\"" ∷ "'" ∷ t

quoted_quote_lem : (t : String) → "'\"'\"'" <> t ≡ quoted_quote t
quoted_quote_lem t =
    Lemmas.cons-append "'" "\"'\"'" t
    ∙ ap (λ u. "'" ∷ u)
        (Lemmas.cons-append "\"" "'\"'" t
          ∙ ap (λ u. "\"" ∷ u)
              (Lemmas.cons-append "'" "\"'" t
                ∙ ap (λ u. "'" ∷ u)
                    (Lemmas.cons-append "\"" "'" t
                      ∙ ap (λ u. "\"" ∷ u)
                          (Lemmas.cons-append "'" "" t ∙ ap (λ u. "'" ∷ u) (Lemmas.nil-append t)))))

quoted_quote-read :
    (word t : String) → read_words single word (quoted_quote t) ≡ read_words single (word <> "'") t
unfolding read_words step
quoted_quote-read word t = refl

add-append : (word : String) (c : Char) (s : String) → add word c <> s ≡ word <> (c ∷ s)
add-append word c s =
    Lemmas.append_assoc word (c ∷ []) s
    ∙ ap (λ u. word <> u) (Lemmas.cons-append c [] s ∙ ap (λ u. c ∷ u) (Lemmas.nil-append s))

compared : (m n : ℕ) → nat_eq m n ≡ true → compare m n ≡ Ordering.eq
compared m n h = ground arith

quote_char : (c : Char) → is_quote c ≡ true → c ≡ "'"
quote_char c h = codes_equal c "'" (compared (code c) 39 h)

unquoted-read :
    (c : Char) (word t : String)
    → is_quote c ≡ false
    → read_words single word (c ∷ t) ≡ read_words single (add word c) t
unfolding read_words step
unquoted-read c word t e = rw (e, read_words, step) refl

-- Within single quotes, a text with its quotes replaced is read as the text.
replaced :
    (s word t : String)
    → read_words single word (replace_all is_quote "'\"'\"'" s <> ("'" ∷ t))
      ≡ read_words plain (word <> s) t
unfolding read_words step replace_all
replaced [] word t = rw (Lemmas.nil-append ("'" ∷ t)) (rw (Lemmas.append-nil word) refl)
replaced (c ∷ s) word t =
    let rest = replace_all is_quote "'\"'\"'" s in
    elim (Bool-cases (is_quote c)) [
      | inl e ↦ rw e (
          ap (read_words single word)
            (Lemmas.append_assoc "'\"'\"'" rest ("'" ∷ t) ∙ quoted_quote_lem (rest <> ("'" ∷ t)))
          ∙ quoted_quote-read word (rest <> ("'" ∷ t))
          ∙ replaced s (word <> "'") t
          ∙ ap (λ u. read_words plain u t)
              (add-append word "'" s ∙ ap (λ d. word <> (d ∷ s)) (sym (quote_char c e))))
      | inr e ↦ rw e (
          ap (read_words single word) (Lemmas.cons-append c rest ("'" ∷ t))
          ∙ unquoted-read c word (rest <> ("'" ∷ t)) e
          ∙ replaced s (add word c) t
          ∙ ap (λ u. read_words plain u t) (add-append word c s))
    ]

-- A quoted word, at its beginning.
quoted : (word t : String) → read_words gap "" (shell_quote word <> t) ≡ read_words plain word t
unfolding read_words step shell_quote
quoted word t =
    let rest = replace_all is_quote "'\"'\"'" word in
    ap (read_words gap "") (
      Lemmas.append_assoc "'" (rest <> "'") t
      ∙ Lemmas.cons-append "'" "" ((rest <> "'") <> t)
      ∙ ap (λ u. "'" ∷ u)
          (Lemmas.nil-append ((rest <> "'") <> t)
            ∙ Lemmas.append_assoc rest "'" t
            ∙ ap (λ u. rest <> u)
                (Lemmas.cons-append "'" "" t ∙ ap (λ u. "'" ∷ u) (Lemmas.nil-append t))))
    ∙ replaced word "" t
    ∙ ap (λ u. read_words plain u t) (Lemmas.nil-append word)

joined : (args : List String) → read_words gap "" (join_words (map shell_quote args)) ≡ some args
unfolding read_words join_words step
joined List.[] = refl
joined (List.◌∷◌ word List.[]) =
    ap (read_words gap "") (sym (Lemmas.append-nil (shell_quote word))) ∙ quoted word []
joined (List.◌∷◌ word (List.◌∷◌ other rest)) =
    let more = join_words (map shell_quote (List.◌∷◌ other rest)) in
    quoted word (" " <> more)
    ∙ ap (read_words plain word)
        (Lemmas.cons-append " " "" more ∙ ap (λ u. " " ∷ u) (Lemmas.nil-append more))
    ∙ ap (emit (some word)) (joined (List.◌∷◌ other rest))

-- The line that shellJoin makes of a command is read by a shell as the words of the command,
-- whatever characters they have, quotes, blanks and newlines included, and also empty words.
pub shell_words-shell_join : (args : List String) → shell_words (shell_join args) ≡ some args
unfolding shell_words shell_join
shell_words-shell_join args = joined args
