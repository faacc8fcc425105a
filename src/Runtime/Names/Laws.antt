-- ===== src/Runtime/Names/Laws.antt =====
-- Which characters the names hold, how long they are, and which of them meet.
use Prim.Native.Nat.{compare, Ordering}
use Prim.Native.String as Str
use text.Mathlib.TextEquality.{Char-path}
use text.Mathlib.TextLemmas as Lemmas
use frridge.Base.{
  ℕ, ◌+◌, ◌<◌, String, Char, code, Bool, true, false, not, ◌||◌, ◌&&◌, nat_eq, if◌then◌else◌, ◌≡◌,
  refl, sym, ap, ap₂, ◌∙◌, ◌<>◌, arith, Bool-cases, inl, inr,
}
use frridge.Base.Text.{trim, trim_left, trim_right, before_rest, has}
use frridge.Base.Text.Laws.{trim_idem}
use frridge.Base.Slices.{size, size-take_chars, size-append}
use frridge.State.{Hashing}
use frridge.State.Laws.{HasLength}
use frridge.Runtime.Names.{
  rune_below, rune, is_lower, is_upper, is_digit, is_dash, sanitize_rune, sanitize_runes,
  sanitize_name, container_name, short_name,
}

code-rune : (n : ℕ) → n < 55296 → code (rune n) ≡ n
unfolding rune
code-rune n h = below (compare n 55296) refl
  where
    below : (o : Ordering) (e : compare n 55296 ≡ o) → code (rune_below n o e) ≡ n
    below Ordering.lt e = refl
    below Ordering.eq e = absurd (ground arith)
    below Ordering.gt e = absurd (ground arith)

-- A character that a container's name may hold.
abbrev pub is_plain : Char → Bool
is_plain c = is_lower c || is_digit c || is_dash c

upper_rune-is_lower : (c : Char) → is_upper c ≡ true → is_lower (rune (code c + 32)) ≡ true
upper_rune-is_lower c h = let e = code-rune (code c + 32) (ground arith) in rw e (ground arith)

pub sanitize_rune-is_plain : (c : Char) → is_plain (sanitize_rune c) ≡ true
unfolding sanitize_rune
sanitize_rune-is_plain c = elim (Bool-cases (is_lower c)) [
  | inl lower ↦ rw lower (rw lower refl)
  | inr other ↦ rw other (elim (Bool-cases (is_upper c)) [
    | inl upper ↦ rw upper (rw (upper_rune-is_lower c upper) refl)
    | inr other' ↦ rw other' (elim (Bool-cases (is_digit c)) [
      | inl digit ↦ rw digit (ground arith)
      | inr other'' ↦ rw other'' refl
    ])
  ])
]

sanitize_rune_plain : (c : Char) → is_plain c ≡ true → sanitize_rune c ≡ c
unfolding sanitize_rune
sanitize_rune_plain c h = elim (Bool-cases (is_lower c)) [
  | inl lower ↦ rw lower
  | inr other ↦ rw other (elim (Bool-cases (is_upper c)) [
    | inl upper ↦ absurd (ground arith)
    | inr other' ↦ rw other' (elim (Bool-cases (is_digit c)) [
      | inl digit ↦ rw digit
      | inr other'' ↦ rw other'' (Char-path "-" c (ground arith))
    ])
  ])
]

has-trim_left : (p q : Char → Bool) (s : String) → has q s ≡ false → has q (trim_left p s) ≡ false
unfolding has trim_left
has-trim_left p q Str.[] h = refl
has-trim_left p q (Str.◌∷◌ c s) h = ground (arith, has-trim_left p q s)

has-before_rest :
    (p q : Char → Bool) (c : Char) (s : String)
    → q c ≡ false
    → has q s ≡ false
    → has q (before_rest p c s) ≡ false
unfolding has
has-before_rest p q c Str.[] hc hs = elim (Bool-cases (p c)) [
  | inl e ↦ rw e refl
  | inr e ↦ rw e (ground arith)
]
has-before_rest p q c (Str.◌∷◌ d s) hc hs = ground arith

has-trim_right : (p q : Char → Bool) (s : String) → has q s ≡ false → has q (trim_right p s) ≡ false
unfolding has trim_right
has-trim_right p q Str.[] h = refl
has-trim_right p q (Str.◌∷◌ c s) h =
    has-before_rest p q c (trim_right p s) (ground arith) (has-trim_right p q s (ground arith))

sanitize_runes-is_plain : (s : String) → has (λ c. not (is_plain c)) (sanitize_runes s) ≡ false
unfolding has sanitize_runes
sanitize_runes-is_plain Str.[] = refl
sanitize_runes-is_plain (Str.◌∷◌ c s) = rw (sanitize_rune-is_plain c) (sanitize_runes-is_plain s)

-- A name that is sanitized already stays as it is.
sanitize_runes_plain : (s : String) → has (λ c. not (is_plain c)) s ≡ false → sanitize_runes s ≡ s
unfolding has sanitize_runes
sanitize_runes_plain Str.[] h = refl
sanitize_runes_plain (Str.◌∷◌ c s) h = elim (Bool-cases (is_plain c)) [
  | inl plain ↦
      let rest = rw plain at h in
      ap₂ Str.◌∷◌ (sanitize_rune_plain c plain) (sanitize_runes_plain s rest)
  | inr other ↦ let bad = rw other at h in absurd (ground arith)
]

-- Every container name holds lower-case letters, digits and dashes only, neither begins nor ends
-- with a dash, and is left alone when it is sanitized again.
pub container_name_shape :
    (lab router : String)
    → (has (λ c. not (is_plain c)) (container_name lab router) ≡ false)
      × (trim is_dash (container_name lab router) ≡ container_name lab router)
      × (sanitize_name (container_name lab router) ≡ container_name lab router)
unfolding container_name sanitize_name
container_name_shape lab router =
    let key = "frridge-" <> (lab <> ("-" <> router)) in
    let plain : has (λ c. not (is_plain c)) (trim is_dash (sanitize_runes key)) ≡ false =
      unfold trim in
      has-trim_right is_dash _ _ (has-trim_left is_dash _ _ (sanitize_runes-is_plain key)) in
    let idem = trim_idem is_dash (sanitize_runes key) in
    (plain, idem, ap (trim is_dash) (sanitize_runes_plain _ plain) ∙ idem)

sanitize_runes-append :
    (s t : String) → sanitize_runes (s <> t) ≡ sanitize_runes s <> sanitize_runes t
unfolding sanitize_runes
sanitize_runes-append Str.[] t = rw Lemmas.nil-append (sym (Lemmas.nil-append (sanitize_runes t)))
sanitize_runes-append (Str.◌∷◌ c s) t = rw Lemmas.cons-append (
    ap (Str.◌∷◌ (sanitize_rune c)) (sanitize_runes-append s t)
    ∙ sym (Lemmas.cons-append (sanitize_rune c) (sanitize_runes s) (sanitize_runes t)))

abbrev pub is_alphanumeric : Char → Bool
is_alphanumeric c = is_lower c || is_upper c || is_digit c

-- The code of a character, of a capital letter that of the small one.
abbrev pub folded : Char → ℕ
folded c = if is_upper c then code c + 32 else code c

-- One letter in any case, one digit, or two characters that are neither letter nor digit.
unfoldable pub alike : Char → Char → Bool
alike c d =
    (is_alphanumeric c && is_alphanumeric d && nat_eq (folded c) (folded d))
    || (not (is_alphanumeric c) && not (is_alphanumeric d))

unfoldable pub all_alike : String → String → Bool
all_alike Str.[] Str.[] = true
all_alike Str.[] (Str.◌∷◌ d t) = false
all_alike (Str.◌∷◌ c s) Str.[] = false
all_alike (Str.◌∷◌ c s) (Str.◌∷◌ d t) = alike c d && all_alike s t

code-sanitize_rune :
    (c : Char) → code (sanitize_rune c) ≡ (if is_alphanumeric c then folded c else b'-')
unfolding sanitize_rune
code-sanitize_rune c = elim (Bool-cases (is_lower c)) [
  | inl lower ↦ let small : is_upper c ≡ false = ground arith in rw (lower, small) refl
  | inr other ↦ elim (Bool-cases (is_upper c)) [
    | inl upper ↦ rw (other, upper) (code-rune (code c + 32) (ground arith))
    | inr other' ↦ elim (Bool-cases (is_digit c)) [
      | inl digit ↦ rw (other, other', digit) refl
      | inr other'' ↦ rw (other, other', other'') refl
    ]
  ]
]

sanitize_rune-alike : (c d : Char) → alike c d ≡ true → sanitize_rune c ≡ sanitize_rune d
unfolding alike
sanitize_rune-alike c d h =
    Char-path (sanitize_rune c) (sanitize_rune d)
      (rw (code-sanitize_rune c, code-sanitize_rune d) (ground arith))

sanitize_runes-all_alike :
    (s t : String) → all_alike s t ≡ true → sanitize_runes s ≡ sanitize_runes t
unfolding all_alike sanitize_runes
sanitize_runes-all_alike Str.[] Str.[] h = refl
sanitize_runes-all_alike Str.[] (Str.◌∷◌ d t) h = absurd (cc)
sanitize_runes-all_alike (Str.◌∷◌ c s) Str.[] h = absurd (cc)
sanitize_runes-all_alike (Str.◌∷◌ c s) (Str.◌∷◌ d t) h =
    ap₂ Str.◌∷◌ (sanitize_rune-alike c d (ground arith))
      (sanitize_runes-all_alike s t (ground arith))

-- Two routers of a lab are given one container name when their names have the same length and agree
-- in each place up to the case of a letter, or up to which character it is that is neither an ASCII
-- letter nor a digit.
pub container_name_collides :
    (lab router router' : String)
    → all_alike router router' ≡ true
    → container_name lab router ≡ container_name lab router'
unfolding container_name sanitize_name
container_name_collides lab router router' h =
    let e = sanitize_runes-all_alike router router' h in
    ap (trim is_dash) (
      sanitize_runes-append "frridge-" (lab <> ("-" <> router))
      ∙ ap (λ s. sanitize_runes "frridge-" <> s)
          (sanitize_runes-append lab ("-" <> router)
            ∙ ap (λ s. sanitize_runes lab <> s)
                (sanitize_runes-append "-" router
                  ∙ ap (λ s. sanitize_runes "-" <> s) e
                  ∙ sym (sanitize_runes-append "-" router'))
            ∙ sym (sanitize_runes-append lab ("-" <> router')))
      ∙ sym (sanitize_runes-append "frridge-" (lab <> ("-" <> router'))))

-- Every host interface name of three letters and eleven digits fits the 15 characters of Linux.
pub size-short_name :
    (h : Hashing) (prefix key : String)
    → HasLength h
    → size prefix ≡ 3
    → size (short_name h prefix key) ≡ 14
unfolding short_name
size-short_name h prefix key l p =
    rw size-append
      (rw p (ap (λ n. 3 + n) (size-take_chars 11 _ (rw (l.sha1_length key) (omega arith)))))
