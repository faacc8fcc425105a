-- ===== src/Base/FilePath/Laws.antt =====
-- Laws of `Join`: what one more element adds to a path.
use Prim.Native.String.{String, ◌++◌ as ◌<>◌}
use mathlib.Core.Path.{◌≡◌, refl, ap, ◌∙◌, sym}
use mathlib.Core.Logic.{inl, inr}
use mathlib.Core.Bool.{Bool, true, false}
use mathlib.Core.List.{List, [], ◌∷◌, ◌++◌, reverse, reverse-append}
use native.Mathlib.Omega.{arith}
use text.Mathlib.Text.{◌==◌}
use text.Mathlib.TextLemmas as Lemmas
use frridge.Base.Tests.{Bool-cases}
use frridge.Base.Text.{is_slash, is_abs, has}
use frridge.Base.FilePath.{elements, enter, walk, slashed, rebuild, join}

slash-append : (t : String) → "/" <> t ≡ String.◌∷◌ "/" t
slash-append t = Lemmas.cons-append "/" "" t ∙ ap (String.◌∷◌ "/") (Lemmas.nil-append t)

elements-cons : (s : String) → (e : String) × (rest : List String) × (elements s ≡ e ∷ rest)
unfolding elements
elements-cons String.[] = ("", [], refl)
elements-cons (String.◌∷◌ c s) =
    let (e, rest, h) = elements-cons s in
    elim (Bool-cases (is_slash c)) [
      | inl t ↦ ("", elements s, rw t)
      | inr f ↦ (String.◌∷◌ c e, rest, rw f (rw h))
    ]

pub elements-slash : (s t : String) → elements (s <> ("/" <> t)) ≡ elements s ++ elements t
unfolding elements
elements-slash String.[] t = rw (Lemmas.nil-append ("/" <> t)) (rw (slash-append t))
elements-slash (String.◌∷◌ c s) t =
    let (e, rest, h) = elements-cons s in
    rw (Lemmas.cons-append c s ("/" <> t)) (ground (arith, elements-slash s t, h))

pub elements_of_no_slash : (s : String) → has is_slash s ≡ false → elements s ≡ s ∷ []
unfolding elements has
elements_of_no_slash String.[] h = refl
elements_of_no_slash (String.◌∷◌ c s) h = ground (arith, elements_of_no_slash s)

pub walk-append :
    (rooted : Bool) (stack xs ys : List String)
    → walk rooted stack (xs ++ ys) ≡ walk rooted (walk rooted stack xs) ys
unfolding walk
walk-append rooted stack [] ys = refl
walk-append rooted stack (x ∷ xs) ys = walk-append rooted (enter rooted stack x) xs ys

pub is_abs-append : (s t : String) → (s == "") ≡ false → is_abs (s <> t) ≡ is_abs s
unfolding is_abs
is_abs-append String.[] t h = cc
is_abs-append (String.◌∷◌ c s) t h = rw (Lemmas.cons-append c s t)

pub slashed-append :
    (x : String) (xs : List String) (e : String)
    → slashed ((x ∷ xs) ++ e ∷ []) ≡ slashed (x ∷ xs) <> ("/" <> e)
unfolding slashed
slashed-append x [] e = refl
slashed-append x (y ∷ xs) e = rw (slashed-append y xs e) (
    ap (λ t. x <> t) (sym (Lemmas.append_assoc "/" (slashed (y ∷ xs)) ("/" <> e)))
    ∙ sym (Lemmas.append_assoc x ("/" <> slashed (y ∷ xs)) ("/" <> e)))

slashed-reverse :
    (n d : String) (stack : List String)
    → slashed (reverse (n ∷ d ∷ stack)) ≡ slashed (reverse (d ∷ stack)) <> ("/" <> n)
slashed-reverse n d stack =
    rw (reverse-append (n ∷ []) (d ∷ stack))
      (rw (reverse-append (d ∷ []) stack) (last (reverse stack)))
  where
    last :
        (xs : List String)
        → slashed ((xs ++ d ∷ []) ++ n ∷ []) ≡ slashed (xs ++ d ∷ []) <> ("/" <> n)
    last [] = slashed-append d [] n
    last (x ∷ xs) = slashed-append x (xs ++ d ∷ []) n

rebuild-push :
    (rooted : Bool) (n d : String) (stack : List String)
    → rebuild rooted (n ∷ d ∷ stack) ≡ rebuild rooted (d ∷ stack) <> ("/" <> n)
rebuild-push true n d stack =
    rw (slashed-reverse n d stack)
      (sym (Lemmas.append_assoc "/" (slashed (reverse (d ∷ stack))) ("/" <> n)))
rebuild-push false n d stack = slashed-reverse n d stack

-- A name that stands for itself in a path.
pub record IsElement (n : String) : Type 0 where
  pub not_empty : (n == "") ≡ false
  pub not_dot : (n == ".") ≡ false
  pub not_dots : (n == "..") ≡ false
  pub no_slash : has is_slash n ≡ false

walk-IsElement :
    {n : String} (rooted : Bool) (stack : List String)
    → IsElement n
    → walk rooted stack (elements n) ≡ n ∷ stack
unfolding walk
walk-IsElement {n} rooted stack v =
    rw (elements_of_no_slash n v.no_slash) (rw v.not_empty (rw v.not_dot (rw v.not_dots)))

module _ (w d : String) (given : (w == "") ≡ false) (dir : IsElement d) where
  -- The elements above.
  above : List String
  above = walk (is_abs w) [] (elements w)

  join-two : join (w ∷ d ∷ []) ≡ rebuild (is_abs w) (d ∷ above)
  unfolding join slashed above
  join-two = rw given (
      rw (is_abs-append w ("/" <> d) given) (
        rw (elements-slash w d) (
          rw (walk-append (is_abs w) [] (elements w) (elements d))
            (rw (walk-IsElement (is_abs w) (walk (is_abs w) [] (elements w)) dir)))))

  join-three :
      (n : String)
      → join (w ∷ d ∷ n ∷ []) ≡ rebuild (is_abs w) (walk (is_abs w) (d ∷ above) (elements n))
  unfolding join slashed above
  join-three n = rw given (
      rw (is_abs-append w ("/" <> (d <> ("/" <> n))) given) (
        rw (elements-slash w (d <> ("/" <> n))) (
          rw (elements-slash d n) (
            rw (walk-append (is_abs w) [] (elements w) (elements d ++ elements n)) (
              rw
                (walk-append (is_abs w) (walk (is_abs w) [] (elements w)) (elements d) (elements n))
                (rw (walk-IsElement (is_abs w) (walk (is_abs w) [] (elements w)) dir)))))))

  -- A proper name makes a child of the directory.
  pub join-child :
      {n : String} → IsElement n → join (w ∷ d ∷ n ∷ []) ≡ join (w ∷ d ∷ []) <> ("/" <> n)
  join-child {n} name =
      join-three n
      ∙ rw (walk-IsElement (is_abs w) (d ∷ above) name)
          (rw join-two (rebuild-push (is_abs w) n d above))

  -- A lone slash names the directory itself.
  pub join-slash : join (w ∷ d ∷ "/" ∷ []) ≡ join (w ∷ d ∷ [])
  unfolding elements walk
  join-slash = join-three "/" ∙ sym join-two
