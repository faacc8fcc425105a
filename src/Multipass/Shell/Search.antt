-- ===== src/Multipass/Shell/Search.antt =====
-- Where a text stands in another: the laws of `Cut`, `LastIndex` and `CutPrefix`.
use Prim.Native.String.{String, [], ◌∷◌}
use Prim.Native.Nat.{ℕ, compare, Ordering}
use text.Mathlib.TextLemmas as Lemmas
use text.Mathlib.TextEquality.{codes_equal}
use frridge.Base.{
  ◌≡◌, refl, sym, ◌∙◌, ap, ap₂, subst, ◌<>◌, Char, code, true, Option, none, some, nat_eq, arith,
  Bool-cases, inl, inr,
}
use frridge.Base.Slices.{cut_prefix}
use frridge.Multipass.Shell.{cut, cut_last, put_before, here_or, or_here}

compared : (m n : ℕ) → nat_eq m n ≡ true → compare m n ≡ Ordering.eq
compared m n h = ground arith

pub same_char : (c d : Char) → nat_eq (code c) (code d) ≡ true → c ≡ d
same_char c d h = codes_equal c d (compared (code c) (code d) h)

pub itself : (n : ℕ) → nat_eq n n ≡ true
itself n = ground arith

pub cut_prefix-append : (p s : String) → cut_prefix p (p <> s) ≡ some s
unfolding cut_prefix
cut_prefix-append [] s = rw (Lemmas.nil-append s) refl
cut_prefix-append (c ∷ p) s =
    rw (Lemmas.cons-append c p s) (rw (itself (code c)) (cut_prefix-append p s))

pub cut_prefix-eq-some : (p s after : String) → cut_prefix p s ≡ some after → s ≡ p <> after
unfolding cut_prefix
cut_prefix-eq-some [] s after h = cc (Lemmas.nil-append after)
cut_prefix-eq-some (c ∷ p) [] after h = absurd (cc h)
cut_prefix-eq-some (c ∷ p) (d ∷ s) after h = elim (Bool-cases (nat_eq (code c) (code d))) [
  | inl e ↦
      ap₂ (λ x y. x ∷ y) (sym (same_char c d e)) (cut_prefix-eq-some p s after (rw e at h))
      ∙ sym (Lemmas.cons-append c p after)
  | inr e ↦ absurd (cc (rw e at h))
]

pub cut_here : (sep s after : String) → cut_prefix sep s ≡ some after → cut sep s ≡ some ([], after)
unfolding cut
cut_here sep [] after h = rw (h, cut) refl
cut_here sep (c ∷ s) after h = rw (h, cut) refl

pub cut_later :
    (sep : String) (c : Char) (s before after : String)
    → cut_prefix sep (c ∷ s) ≡ none
    → cut sep s ≡ some (before, after)
    → cut sep (c ∷ s) ≡ some (c ∷ before, after)
unfolding cut
cut_later sep c s before after here later = rw (here, cut) (rw later refl)

here_or-none :
    (here : Option String) (later : Option (String × String))
    → here_or here later ≡ none
    → (here ≡ none) × (later ≡ none)
here_or-none none later h = (refl, h)
here_or-none (some after) later h = absurd (cc h)

put_before-none :
    (c : Char) (later : Option (String × String)) → put_before c later ≡ none → later ≡ none
put_before-none c none h = refl
put_before-none c (some (x, y)) h = absurd (cc h)

pub cut-none :
    (sep : String) (c : Char) (s : String)
    → cut sep (c ∷ s) ≡ none
    → (cut_prefix sep (c ∷ s) ≡ none) × (cut sep s ≡ none)
unfolding cut
cut-none sep c s h =
    let (here, later) = here_or-none (cut_prefix sep (c ∷ s)) (put_before c (cut sep s)) h in
    (here, put_before-none c (cut sep s) later)

-- Where the separator was found.
IsSplit : String → String → Option (String × String) → Type 0
IsSplit sep s none = Unit
IsSplit sep s (some (before, after)) = s ≡ before <> (sep <> after)

none-IsSplit : (sep s : String) → IsSplit sep s none
unfolding IsSplit
none-IsSplit sep s = tt

put_before-IsSplit :
    (sep : String) (c : Char) (s : String) (later : Option (String × String))
    → IsSplit sep s later
    → IsSplit sep (c ∷ s) (put_before c later)
unfolding IsSplit
put_before-IsSplit sep c s none h = tt
put_before-IsSplit sep c s (some (before, after)) h =
    ap (λ u. c ∷ u) h ∙ sym (Lemmas.cons-append c before (sep <> after))

prefix-IsSplit :
    (sep s : String) (here : Option String) (later : Option (String × String))
    → cut_prefix sep s ≡ here
    → IsSplit sep s later
    → IsSplit sep s (here_or here later)
unfolding IsSplit
prefix-IsSplit sep s none later h split = split
prefix-IsSplit sep s (some after) later h split =
    cut_prefix-eq-some sep s after h ∙ sym (Lemmas.nil-append (sep <> after))

or_here-IsSplit :
    (sep s : String) (later : Option (String × String)) (here : Option String)
    → cut_prefix sep s ≡ here
    → IsSplit sep s later
    → IsSplit sep s (or_here later here)
unfolding IsSplit
or_here-IsSplit sep s none none h split = tt
or_here-IsSplit sep s none (some after) h split =
    cut_prefix-eq-some sep s after h ∙ sym (Lemmas.nil-append (sep <> after))
or_here-IsSplit sep s (some (x, y)) here h split = split

cut-IsSplit : (sep s : String) → IsSplit sep s (cut sep s)
unfolding cut
cut-IsSplit sep [] = prefix-IsSplit sep [] (cut_prefix sep []) none refl (none-IsSplit sep [])
cut-IsSplit sep (c ∷ s) =
    prefix-IsSplit sep (c ∷ s) (cut_prefix sep (c ∷ s)) (put_before c (cut sep s)) refl
      (put_before-IsSplit sep c s (cut sep s) (cut-IsSplit sep s))

cut_last-IsSplit : (sep s : String) → IsSplit sep s (cut_last sep s)
unfolding cut_last
cut_last-IsSplit sep [] = or_here-IsSplit sep [] none (cut_prefix sep []) refl (none-IsSplit sep [])
cut_last-IsSplit sep (c ∷ s) =
    or_here-IsSplit sep (c ∷ s) (put_before c (cut_last sep s)) (cut_prefix sep (c ∷ s)) refl
      (put_before-IsSplit sep c s (cut_last sep s) (cut_last-IsSplit sep s))

pub cut-eq-some :
    (sep s before after : String) → cut sep s ≡ some (before, after) → s ≡ before <> (sep <> after)
unfolding IsSplit
cut-eq-some sep s before after h = subst (IsSplit sep s) h (cut-IsSplit sep s)

pub cut_last-eq-some :
    (sep s before after : String)
    → cut_last sep s ≡ some (before, after)
    → s ≡ before <> (sep <> after)
unfolding IsSplit
cut_last-eq-some sep s before after h = subst (IsSplit sep s) h (cut_last-IsSplit sep s)

module _ (sep : String) (c : Char) (s : String) where
  pub cut_last-none :
      cut_prefix sep (c ∷ s) ≡ none → cut_last sep s ≡ none → cut_last sep (c ∷ s) ≡ none
  unfolding cut_last
  cut_last-none here later = rw (here, cut_last) (rw later refl)

  pub cut_last_here :
      (after : String)
      → cut_prefix sep (c ∷ s) ≡ some after
      → cut_last sep s ≡ none
      → cut_last sep (c ∷ s) ≡ some ([], after)
  unfolding cut_last
  cut_last_here after here later = rw (here, cut_last) (rw later refl)

  pub cut_last_later :
      (before after : String)
      → cut_last sep s ≡ some (before, after)
      → cut_last sep (c ∷ s) ≡ some (c ∷ before, after)
  unfolding cut_last
  cut_last_later before after later = rw (later, cut_last) refl
