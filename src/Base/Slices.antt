-- ===== src/Base/Slices.antt =====
-- Parts of texts and their lengths, and how a text splits at its first slash.
use Prim.Native.Nat.{ℕ, zero, suc}
use Prim.Native.Char.{code}
use Prim.Native.Nat.{◌+◌, ◌≤◌}
use Prim.Native.String.{String, [], ◌∷◌, ◌++◌ as ◌<>◌}
use mathlib.Core.Path.{◌≡◌, refl, sym, ap, ap₂, subst, ◌∙◌}
use native.Mathlib.Omega.{arith}
use text.Mathlib.TextLemmas as Lemmas
use mathlib.Core.Bool.{true, false}
use mathlib.Core.Option.{Option, none, some}
use frridge.Base.Tests.{nat_eq, if◌then◌else◌}
use frridge.Base.Text.{has, is_slash}

-- `s[:n]`, of a text of one-byte characters that is long enough.
unfoldable pub take_chars : ℕ → String → String
take_chars zero s = []
take_chars (suc n) [] = []
take_chars (suc n) (c ∷ s) = c ∷ take_chars n s

-- The number of characters.
unfoldable pub size : String → ℕ
size [] = 0
size (c ∷ s) = suc (size s)

-- strings.CutPrefix: the text without the prefix, if it has it.
unfoldable pub cut_prefix : String → String → Option String
cut_prefix [] s = some s
cut_prefix (p ∷ ps) [] = none
cut_prefix (p ∷ ps) (c ∷ s) =
    let rest = cut_prefix ps s in if nat_eq (code p) (code c) then rest else none

pub size-take_chars : (n : ℕ) (s : String) → n ≤ size s → size (take_chars n s) ≡ n
unfolding size take_chars
size-take_chars zero s h = refl
size-take_chars (suc n) [] h = absurd (omega arith)
size-take_chars (suc n) (c ∷ s) h = ap suc (size-take_chars n s (omega arith))

pub size-append : (s t : String) → size (s <> t) ≡ size s + size t
unfolding size
size-append [] t = rw Lemmas.nil-append (omega arith)
size-append (c ∷ s) t = rw Lemmas.cons-append (omega (arith, size-append s t))

slash-append : (t : String) → "/" <> t ≡ "/" ∷ t
slash-append t = Lemmas.cons-append "/" "" t ∙ ap (λ s. "/" ∷ s) (Lemmas.nil-append t)

-- Texts that begin with a part without a slash, and then a slash, have one way to be taken apart.
pub slash-injective :
    (a a' b b' : String)
    → has is_slash a ≡ false
    → has is_slash a' ≡ false
    → a <> ("/" <> b) ≡ a' <> ("/" <> b')
    → (a ≡ a') × (b ≡ b')
unfolding has
slash-injective [] [] b b' h h' e = (
  refl,
  Lemmas.append_cancel_left "/" b b'
      (sym (Lemmas.nil-append ("/" <> b)) ∙ e ∙ Lemmas.nil-append ("/" <> b')),
)
slash-injective [] (c ∷ a') b b' h h' e =
    let f =
      sym (slash-append b)
      ∙ sym (Lemmas.nil-append ("/" <> b))
      ∙ e
      ∙ Lemmas.cons-append c a' ("/" <> b') in
    let same = Lemmas.head-eq_of_cons-eq f in
    let slash : is_slash c ≡ true = subst (λ d. is_slash d ≡ true) same refl in
    absurd (ground arith)
slash-injective (c ∷ a) [] b b' h h' e =
    let f =
      sym (slash-append b')
      ∙ sym (Lemmas.nil-append ("/" <> b'))
      ∙ sym e
      ∙ Lemmas.cons-append c a ("/" <> b) in
    let slash : is_slash c ≡ true =
      subst (λ d. is_slash d ≡ true) (Lemmas.head-eq_of_cons-eq f) refl in
    absurd (ground arith)
slash-injective (c ∷ a) (c' ∷ a') b b' h h' e =
    let f = sym (Lemmas.cons-append c a ("/" <> b)) ∙ e ∙ Lemmas.cons-append c' a' ("/" <> b') in
    let (p, q) =
      slash-injective a a' b b' (ground arith) (ground arith) (Lemmas.tail-eq_of_cons-eq f) in
    (ap₂ (λ x y. x ∷ y) (Lemmas.head-eq_of_cons-eq f) p, q)
