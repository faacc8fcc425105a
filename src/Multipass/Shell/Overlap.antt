-- ===== src/Multipass/Shell/Overlap.antt =====
-- A separator that ends with a character of its own does not overlap with what stands around it.
use Prim.Native.String.{String, [], ◌∷◌}
use Prim.Native.Nat.{◌+◌, ◌≤◌, ◌<◌}
use text.Mathlib.TextLemmas as Lemmas
use frridge.Base.{
  ◌≡◌, refl, sym, ◌∙◌, ap, subst, ◌<>◌, Char, code, Bool, true, false, none, some, nat_eq, arith,
  Bool-cases, inl, inr,
}
use frridge.Base.Text.{has}
use frridge.Base.Slices.{cut_prefix, size, size-append}
use frridge.Multipass.Shell.{cut, cut_last}
use frridge.Multipass.Shell.Search.{
  same_char, cut_prefix-append, cut_here, cut_later, cut-none, cut_last-none, cut_last_here,
  cut_last_later,
}

-- `p` is a test that the last character `z` of the separator passes.
module _ (p : Char → Bool) (z : Char) (ends : p z ≡ true) where
  -- The separator is what begins it, and then `z`.
  abbrev pub ending : String → String
  ending q = q <> (z ∷ [])

  differs : (c : Char) → p c ≡ false → nat_eq (code z) (code c) ≡ false
  differs c h = elim (Bool-cases (nat_eq (code z) (code c))) [
    | inl e ↦ absurd (cc (sym ends ∙ ap p (same_char z c e) ∙ h))
    | inr e ↦ e
  ]

  -- A mismatch, or one further on.
  step_none :
      (c d : Char) (q s : String) → cut_prefix q s ≡ none → cut_prefix (c ∷ q) (d ∷ s) ≡ none
  unfolding cut_prefix
  step_none c d q s h = ground (arith, h)

  absent : (q s : String) → has p s ≡ false → cut_prefix (ending q) s ≡ none
  unfolding cut_prefix has
  absent [] [] h = rw (Lemmas.nil-append (z ∷ [])) refl
  absent [] (d ∷ s) h = rw (Lemmas.nil-append (z ∷ [])) (rw (differs d (ground arith)) refl)
  absent (c ∷ q) [] h = rw (Lemmas.cons-append c q (z ∷ [])) refl
  absent (c ∷ q) (d ∷ s) h =
      rw (Lemmas.cons-append c q (z ∷ [])) (step_none c d (ending q) s (absent q s (ground arith)))

  -- It does not end in a text without `z`.
  late :
      (q x tail : String)
      → size x ≤ size q
      → has p tail ≡ false
      → cut_prefix (ending q) (x <> tail) ≡ none
  unfolding size
  late q [] tail fits h = rw (Lemmas.nil-append tail) (absent q tail h)
  late [] (d ∷ x) tail fits h = absurd (omega arith)
  late (c ∷ q) (d ∷ x) tail fits h = rw (Lemmas.cons-append c q (z ∷ [])) (
      rw (Lemmas.cons-append d x tail)
        (step_none c d (ending q) (x <> tail) (late q x tail (omega arith) h)))

  -- It does not end before the `z` of the separator that follows.
  within_body :
      (r q rest : String)
      → size r < size q
      → has p q ≡ false
      → cut_prefix (ending r) (q <> rest) ≡ none
  unfolding size has cut_prefix
  within_body r [] rest fits h = absurd (omega arith)
  within_body [] (d ∷ q) rest fits h =
      rw (Lemmas.nil-append (z ∷ []))
        (rw (Lemmas.cons-append d q rest) (rw (differs d (ground arith)) refl))
  within_body (c ∷ r) (d ∷ q) rest fits h = rw (Lemmas.cons-append c r (z ∷ [])) (
      rw (Lemmas.cons-append d q rest)
        (step_none c d (ending r) (q <> rest) (within_body r q rest (omega arith) (ground arith))))

  early :
      (r b q rest : String)
      → size r < size b + size q
      → has p q ≡ false
      → cut_prefix (ending r) b ≡ none
      → cut_prefix (ending r) (b <> (q <> rest)) ≡ none
  unfolding size cut_prefix
  early r [] q rest fits h before =
      rw (Lemmas.nil-append (q <> rest)) (within_body r q rest (omega arith) h)
  early [] (d ∷ b) q rest fits h before = rw (Lemmas.nil-append (z ∷ [])) (
      rw (Lemmas.cons-append d b (q <> rest))
        (ground (arith, rw (Lemmas.nil-append (z ∷ [])) at before)))
  early (c ∷ r) (d ∷ b) q rest fits h before = rw (Lemmas.cons-append c r (z ∷ [])) (
      rw (Lemmas.cons-append d b (q <> rest)) (elim (Bool-cases (nat_eq (code c) (code d))) [
        | inl e ↦ rw e (
            early r b q rest (omega arith) h
              (rw e at (rw (Lemmas.cons-append c r (z ∷ [])) at before)))
        | inr e ↦ rw e refl
      ]))

  -- The first separator is the one after a text that it does not stand in.
  pub cut-separator :
      (q b rest : String)
      → has p q ≡ false
      → cut (ending q) b ≡ none
      → cut (ending q) (b <> (ending q <> rest)) ≡ some (b, rest)
  unfolding size
  cut-separator q [] rest h clean =
      rw (Lemmas.nil-append (ending q <> rest))
        (cut_here (ending q) (ending q <> rest) rest (cut_prefix-append (ending q) rest))
  cut-separator q (c ∷ b) rest h clean =
      let (here, later) = cut-none (ending q) c b clean in
      let split = Lemmas.append_assoc q (z ∷ []) rest in
      let never : cut_prefix (ending q) ((c ∷ b) <> (q <> ((z ∷ []) <> rest))) ≡ none =
        early q (c ∷ b) q ((z ∷ []) <> rest) (omega arith) h here in
      rw (Lemmas.cons-append c b (ending q <> rest)) (
        cut_later (ending q) c (b <> (ending q <> rest)) b rest
          (subst (λ u. cut_prefix (ending q) u ≡ none)
            (ap (λ u. (c ∷ b) <> u) (sym split) ∙ Lemmas.cons-append c b (ending q <> rest)) never)
          (cut-separator q b rest h later))

  absent_after : (q tail : String) → has p tail ≡ false → cut_last (ending q) tail ≡ none
  unfolding cut_last has
  absent_after q [] h = rw (absent q [] refl, cut_last) refl
  absent_after q (d ∷ tail) h =
      cut_last-none (ending q) d tail (absent q (d ∷ tail) h) (absent_after q tail (ground arith))

  not_again :
      (q x tail : String)
      → size x ≤ size q
      → has p tail ≡ false
      → cut_last (ending q) (x <> tail) ≡ none
  unfolding size
  not_again q [] tail fits h = rw (Lemmas.nil-append tail) (absent_after q tail h)
  not_again q (d ∷ x) tail fits h =
      let same = Lemmas.cons-append d x tail in
      rw same (
        cut_last-none (ending q) d (x <> tail) (rw same at (late q (d ∷ x) tail fits h))
          (not_again q x tail (omega arith) h))

  last_separator :
      (q tail : String)
      → has p tail ≡ false
      → cut_last (ending q) (ending q <> tail) ≡ some ([], tail)
  unfolding size
  last_separator [] tail h =
      let nil = Lemmas.nil-append (z ∷ []) in
      let same = Lemmas.cons-append z [] tail ∙ ap (λ u. z ∷ u) (Lemmas.nil-append tail) in
      rw nil (
        rw same (
          cut_last_here (z ∷ []) z tail tail (rw same at (cut_prefix-append (z ∷ []) tail))
            (rw nil at (absent_after [] tail h))))
  last_separator (c ∷ q) tail h =
      let sep = Lemmas.cons-append c q (z ∷ []) in
      let same = Lemmas.cons-append c (ending q) tail in
      rw sep (
        rw same (
          cut_last_here (c ∷ ending q) c (ending q <> tail) tail
            (rw same at (cut_prefix-append (c ∷ ending q) tail))
            (rw sep at
              (not_again (c ∷ q) (ending q) tail (omega (arith, size-append q (z ∷ []))) h))))

  -- The last separator is the one before a text without `z`, whatever stands before it.
  pub cut_last-separator :
      (q content tail : String)
      → has p tail ≡ false
      → cut_last (ending q) (content <> (ending q <> tail)) ≡ some (content, tail)
  cut_last-separator q [] tail h =
      rw (Lemmas.nil-append (ending q <> tail)) (last_separator q tail h)
  cut_last-separator q (c ∷ content) tail h =
      rw (Lemmas.cons-append c content (ending q <> tail))
        (cut_last_later (ending q) c _ content tail (cut_last-separator q content tail h))
