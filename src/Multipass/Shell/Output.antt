-- ===== src/Multipass/Shell/Output.antt =====
-- `parseShellOutput` of internal/multipass/system.go, on what the script of buildShellScript prints.
use Prim.Native.String.{String, [], ◌∷◌}
use mathlib.Core.Option.{some-injective}
use text.Mathlib.TextLemmas as Lemmas
use frridge.Base.{
  ℕ, ◌≤◌, ◌≡◌, refl, sym, ◌∙◌, ap, subst, ◌<>◌, Char, code, Bool, false, ◌||◌, not, ◌==◌, Option,
  none, some, nat_eq, arith, Bool-cases, Option-cases, inl, inr, ok, >>=-eq-ok, reject_if-eq-ok,
  eq_refl, eq_iff,
}
use frridge.Base.Int.{ℤ, pos, negsuc, is_negative, exceeds, InRange}
use frridge.Base.Text.{has}
use frridge.Multipass.Shell.{
  ShellMarkers, new_shell_markers, Decimal, given, missing_output_marker, missing_status_marker,
  truncated_exit_status, unreadable_status, invalid_status, cut, cut_last, cut_newline,
  parse_shell_output,
}
use frridge.Base.Program.{ok_inj}
use frridge.Multipass.Shell.Search.{same_char, cut-eq-some, cut_last-eq-some}
use frridge.Multipass.Shell.Overlap.{cut-separator, cut_last-separator}

abbrev pub is_newline : Char → Bool
is_newline c = nat_eq (code c) 10

abbrev pub is_equals : Char → Bool
is_equals c = nat_eq (code c) 61

pub has-append : (p : Char → Bool) (s t : String) → has p (s <> t) ≡ (has p s || has p t)
unfolding has
has-append p [] t = rw (Lemmas.nil-append t) refl
has-append p (c ∷ s) t = rw (Lemmas.cons-append c s t) (ground (arith, has-append p s t))

cut_newline-append : (s : String) → cut_newline (s <> "\n") ≡ some s
unfolding cut_newline
cut_newline-append [] = refl
cut_newline-append (c ∷ []) = rw (Lemmas.cons-append c [] "\n") refl
cut_newline-append (c ∷ d ∷ s) =
    let same = Lemmas.cons-append d s "\n" in
    rw (Lemmas.cons-append c (d ∷ s) "\n")
      (rw same (rw (rw same at (cut_newline-append (d ∷ s)), cut_newline) refl))

cut_newline-eq-some : (s rest : String) → cut_newline s ≡ some rest → s ≡ rest <> "\n"
unfolding cut_newline
cut_newline-eq-some [] rest h = absurd (cc h)
cut_newline-eq-some (c ∷ []) rest h = elim (Bool-cases (is_newline c)) [
  | inl e ↦
      ap (λ d. d ∷ []) (same_char c "\n" e)
      ∙ ap (λ u. u <> "\n") (some-injective [] rest (rw e at h))
  | inr e ↦ absurd (cc (rw e at h))
]
cut_newline-eq-some (c ∷ d ∷ s) rest h = elim (Option-cases (cut_newline (d ∷ s))) [
  | inl e ↦ absurd (cc (rw e at h))
  | inr (more, e) ↦
      ap (λ u. c ∷ u) (cut_newline-eq-some (d ∷ s) more e)
      ∙ sym (Lemmas.cons-append c more "\n")
      ∙ ap (λ u. u <> "\n") (some-injective (c ∷ more) rest (rw e at h))
]

given-eq-ok {ℓ κ} :
    {E : Type ℓ} {A : Type κ} (o : Option A) (e : E) {a : A} → given o e ≡ ok a → o ≡ some a
given-eq-ok none e h = absurd (cc h)
given-eq-ok (some x) e h = ap some (ok_inj h)

module _ (decimal : Decimal) where
  -- What a reader of the guest's terminal sees: whatever was printed before, the marker's line, the
  -- command's output, and the line of its status.
  abbrev pub transcript : ShellMarkers → String → String → ℤ → String
  transcript markers banner content status =
      banner
      <> ((markers.output <> "\n")
          <> (content <> (markers.status <> (decimal.itoa status <> "\n"))))

  -- A transcript is taken apart into the command's output, whatever characters it has, and the
  -- status, when the token has no newline, the marker's line stands nowhere before, the status is
  -- at most 255, and strconv reads back its own text for it, which has no `=`.
  pub parse_shell_output-transcript :
      (token banner content : String) (n : ℕ)
      → has is_newline token ≡ false
      → cut ((new_shell_markers token).output <> "\n") banner ≡ none
      → n ≤ 255
      → decimal.atoi (decimal.itoa (pos n)) ≡ some (pos n)
      → has is_equals (decimal.itoa (pos n)) ≡ false
      → parse_shell_output decimal
          (transcript (new_shell_markers token) banner content (pos n))
          (new_shell_markers token)
        ≡ ok (content, pos n)
  unfolding parse_shell_output new_shell_markers has
  parse_shell_output-transcript token banner content n no_newline clean small reads no_equals =
      let begin = "__FRRIDGE_OUTPUT_BEGIN__" <> token in
      let report = "__FRRIDGE_EXIT_STATUS__=" <> token in
      let text = decimal.itoa (pos n) in
      let marker : report <> "=" ≡ "__FRRIDGE_EXIT_STATUS__=" <> (token <> "=") =
        Lemmas.append_assoc "__FRRIDGE_EXIT_STATUS__=" token "=" in
      let first =
        cut-separator is_newline "\n" refl begin banner
          (content <> (("__FRRIDGE_EXIT_STATUS__=" <> (token <> "=")) <> (text <> "\n")))
          (has-append is_newline "__FRRIDGE_OUTPUT_BEGIN__" token ∙ no_newline) clean in
      let last = rw marker at (
        cut_last-separator is_equals "=" refl report content (text <> "\n")
          (has-append is_equals text "\n" ∙ ap (λ b. b || false) no_equals)) in
      rw first (rw last (rw (cut_newline-append text) (rw reads (ground (arith, eq_refl text)))))

  parse_steps :
      (output content : String) (markers : ShellMarkers) (status : ℤ)
      → parse_shell_output decimal output markers ≡ ok (content, status)
      → (banner printed tail text : String) × (cut (markers.output <> "\n") output
          ≡ some (banner, printed))
        × (cut_last markers.status printed ≡ some (content, tail))
        × (cut_newline tail ≡ some text)
        × (decimal.atoi text ≡ some status)
        × ((is_negative status || exceeds status 255 || not (text == decimal.itoa status)) ≡ false)
  unfolding parse_shell_output
  parse_steps output content markers status h =
      let ((banner, printed), e1, h1) = >>=-eq-ok (given _ missing_output_marker) _ h in
      let ((before, tail), e2, h2) = >>=-eq-ok (given _ missing_status_marker) _ h1 in
      let (text, e3, h3) = >>=-eq-ok (given _ truncated_exit_status) _ h2 in
      let (code_read, e4, h4) =
        >>=-eq-ok (given (decimal.atoi text) (unreadable_status text)) _ h3 in
      let (valid, h5) = reject_if-eq-ok _ (invalid_status text) _ h4 in
      let same : (before ≡ content) × (code_read ≡ status) =
        (ap (λ z. z.0) (ok_inj h5), ap (λ z. z.1) (ok_inj h5)) in
      (
        banner,
        printed,
        tail,
        text,
        given-eq-ok _ _ e1,
        given-eq-ok _ _ e2 ∙ ap (λ u. some (u, tail)) same.0,
        given-eq-ok _ _ e3,
        given-eq-ok _ _ e4 ∙ ap some same.1,
        subst (λ x. (is_negative x || exceeds x 255 || not (text == decimal.itoa x)) ≡ false) same.1
            valid,
      )

  in_range : (x : ℤ) (b : Bool) → (is_negative x || exceeds x 255 || b) ≡ false → InRange 0 255 x
  in_range (pos n) b h = record {
    number = n;
    is_number = refl;
    at_least = omega arith;
    at_most = ground arith;
  }
  in_range (negsuc n) b h = absurd (cc h)

  -- What is taken apart stood in the output: the markers in their order, with the command's output
  -- between them and a status after them that lies in 0 .. 255, is written as strconv writes it, and
  -- ends with the output's last newline.
  pub parse_shell_output-eq-ok :
      (output content : String) (markers : ShellMarkers) (status : ℤ)
      → parse_shell_output decimal output markers ≡ ok (content, status)
      → (banner : String) × (output ≡ transcript markers banner content status)
        × InRange 0 255 status
  unfolding parse_shell_output
  parse_shell_output-eq-ok output content markers status h =
      let (banner, printed, tail, text, first, last, line, read, valid) =
        parse_steps output content markers status h in
      let written : text ≡ decimal.itoa status =
        ground (arith, eq_iff text (decimal.itoa status)) in
      (
        banner,
        cut-eq-some (markers.output <> "\n") output banner printed first
            ∙ ap (λ u. banner <> ((markers.output <> "\n") <> u))
                (cut_last-eq-some markers.status printed content tail last
                  ∙ ap (λ u. content <> (markers.status <> u))
                      (cut_newline-eq-some tail text line ∙ ap (λ u. u <> "\n") written)),
        in_range status _ valid,
      )
