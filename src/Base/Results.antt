-- ===== src/Base/Results.antt =====
-- Go's `(value, error)` pairs as values, and loops that stop at the first error.
use mathlib.Core.Path.{◌≡◌, refl, subst}
use mathlib.Core.Bool.{Bool, true, false}
use mathlib.Core.List.{List, [], ◌∷◌, ◌++◌, append_assoc, append-nil}
use frridge.Base.Lists.{All}

pub data Result {ℓ κ} (E : Type ℓ) (A : Type κ) : Type (ℓ ⊔ κ) where
  ok : A → Result E A
  err : E → Result E A

infixl 5 ◌>>=◌ ◌>>◌
abbrev pub ◌>>=◌ {ℓ κ μ} :
    {E : Type ℓ} {A : Type κ} {B : Type μ} → Result E A → (A → Result E B) → Result E B
ok a >>= f = f a
err e >>= f = err e

abbrev pub ◌>>◌ {ℓ κ} : {E : Type ℓ} {B : Type κ} → Result E (Unit {0}) → Result E B → Result E B
m >> k = m >>= λ _. k

-- `if bad { return e }`
abbrev pub reject_if {ℓ} : {E : Type ℓ} → Bool → E → Result E (Unit {0})
reject_if true e = err e
reject_if false e = ok tt

-- A sequence ends well only if its first part does.
pub >>=-eq-ok {ℓ κ μ} :
    {E : Type ℓ} {A : Type κ} {B : Type μ} (first : Result E A) (next : A → Result E B) {last : B}
    → (first >>= next) ≡ ok last
    → (middle : A) × (first ≡ ok middle) × (next middle ≡ ok last)
>>=-eq-ok (err e) next ends = cc
>>=-eq-ok (ok middle) next ends = (middle, refl, ends)

pub reject_if-eq-ok {ℓ κ} :
    {E : Type ℓ} {B : Type κ} (bad : Bool) (e : E) (k : Result E B) {b : B}
    → (reject_if bad e >> k) ≡ ok b
    → (bad ≡ false) × (k ≡ ok b)
reject_if-eq-ok true e k h = cc
reject_if-eq-ok false e k h = (refl, h)

-- `for _, x := range xs { … }` over what the body changes, up to the first error.
module _ {ℓ κ μ} {E : Type ℓ} {A : Type κ} {S : Type μ} where
  unfoldable pub for_each : (S → A → Result E S) → S → List A → Result E S
  for_each f s [] = ok s
  for_each f s (x ∷ xs) = f s x >>= λ s'. for_each f s' xs

  -- What each round checks of its item holds of all.
  pub for_each-All {ν} :
      (Q : A → Type ν) (f : S → A → Result E S)
      → ((s : S) (x : A) (s' : S) → f s x ≡ ok s' → Q x)
      → (xs : List A) (s s' : S) → for_each f s xs ≡ ok s'
      → All Q xs
  unfolding for_each
  for_each-All Q f check [] s s' h = tt
  for_each-All Q f check (x ∷ xs) s s' h =
      let (t, first, rest) = >>=-eq-ok (f s x) (λ u. for_each f u xs) h in
      (check s x t first, for_each-All Q f check xs t s' rest)

-- The lists that the items of a list give, one after the other.
unfoldable pub gather {ℓ κ} : {A : Type ℓ} {B : Type κ} → (A → List B) → List A → List B
gather g [] = []
gather g (x ∷ xs) = g x ++ gather g xs

-- A loop whose rounds each add a list to what holds adds all of them.
pub for_each_gather {ℓ κ μ ν ξ} :
    {E : Type ℓ} {A : Type κ} {S : Type μ} {B : Type ν} (P : List B → S → Type ξ) (g : A → List B)
    (f : S → A → Result E S)
    → ((done : List B) (s : S) (x : A) (s' : S) → P done s → f s x ≡ ok s' → P (done ++ g x) s')
    → (xs : List A) (done : List B) (s s' : S) → P done s
    → for_each f s xs ≡ ok s'
    → P (done ++ gather g xs) s'
unfolding for_each gather
for_each_gather P g f step [] done s s' p h = rw append-nil (subst (P done) (cc) p)
for_each_gather P g f step (x ∷ xs) done s s' p h =
    let (t, first, rest) = >>=-eq-ok (f s x) (λ u. for_each f u xs) h in
    rw (← append_assoc done (g x) (gather g xs))
      (for_each_gather P g f step xs (done ++ g x) t s' (step done s x t p first) rest)
