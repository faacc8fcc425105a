-- ===== src/Base/Program.antt =====
-- A computation with a state that ends with a value or an error, for the packages that call what is
-- not the program's own, and the rules for what such a computation keeps.
pub mod Calls
use mathlib.Core.Path.{◌≡◌, refl, sym, subst}
use mathlib.Core.Bool.{Bool, true, false}
use mathlib.Core.List.{List, [], ◌∷◌}
use frridge.Base.Results.{Result, ok, err}
use frridge.Base.Lists.{All}
use frridge.Base.Tests.{if◌then◌else◌}

abbrev pub Program : Type 0 → Type 0 → Type 0 → Type 0
Program S E A = S → Result E A × S

module _ {S E : Type 0} where
  unfoldable pub pure : {A : Type 0} → A → Program S E A
  pure a s = (ok a, s)

  unfoldable pub raise : {A : Type 0} → E → Program S E A
  raise e s = (err e, s)

  unfoldable pub lift : {A : Type 0} → Result E A → Program S E A
  lift r s = (r, s)

  abbrev pub continue : {A B : Type 0} → Result E A → (A → Program S E B) → Program S E B
  continue (ok a) f s = f a s
  continue (err e) f s = (err e, s)

infixl 10 ◌>>=◌ ◌>>◌
unfoldable pub ◌>>=◌ : {S E A B : Type 0} → Program S E A → (A → Program S E B) → Program S E B
◌>>=◌ m f s = let (r, s') = m s in continue r f s'

abbrev pub ◌>>◌ : {S E A B : Type 0} → Program S E A → Program S E B → Program S E B
m >> n = m >>= λ _. n

abbrev pub wrap_error : {D E A : Type 0} → (D → E) → Result D A → Result E A
wrap_error g (ok a) = ok a
wrap_error g (err e) = err (g e)

-- `fmt.Errorf("…: %w", err)` on the error path.
unfoldable pub within : {S D E A : Type 0} → (D → E) → Program S D A → Program S E A
within g m s = let (r, s') = m s in (wrap_error g r, s')

-- `for _, x := range xs { if err := f(x); err != nil { return err } }`
unfoldable pub each :
    {S E A : Type 0} → (A → Program S E (Unit {0})) → List A → Program S E (Unit {0})
each f [] = pure tt
each f (x ∷ xs) = f x >>= λ _. each f xs

-- A computation that leaves alone what the predicate says.
abbrev pub Keeps {ℓ} : {S E A : Type 0} → (S → Type ℓ) → Program S E A → Type ℓ
Keeps P m = (s : _) → P s → P (m s).1

pub pure-Keeps {ℓ} :
    {S : Type 0} (P : S → Type ℓ) (E : Type 0) {A : Type 0} (a : A)
    → Keeps P (pure {S = S} {E = E} a)
unfolding pure
pure-Keeps P E a s p = p

pub raise-Keeps {ℓ} :
    {S : Type 0} (P : S → Type ℓ) {E : Type 0} (A : Type 0) (e : E)
    → Keeps P (raise {S = S} {E = E} {A = A} e)
unfolding raise
raise-Keeps P A e s p = p

module _ {ℓ} {S E : Type 0} (P : S → Type ℓ) where
  pub continue-Keeps :
      {A B : Type 0} (r : Result E A) (f : A → Program S E B)
      → ((a : A) → Keeps P (f a))
      → Keeps P (continue r f)
  continue-Keeps (ok a) f rest s p = rest a s p
  continue-Keeps (err e) f rest s p = p

  pub sequence-Keeps :
      {A B : Type 0} (m : Program S E A) (f : A → Program S E B)
      → Keeps P m
      → ((a : A) → Keeps P (f a))
      → Keeps P (m >>= f)
  unfolding ◌>>=◌
  sequence-Keeps m f first rest s p = continue-Keeps (m s).0 f rest (m s).1 (first s p)

  pub within-Keeps :
      {D A : Type 0} (g : D → E) (m : Program S D A) → Keeps P m → Keeps P (within g m)
  unfolding within
  within-Keeps g m keeps s p = keeps s p

  pub each-Keeps :
      {A : Type 0} (f : A → Program S E (Unit {0}))
      → ((a : A) → Keeps P (f a))
      → (xs : List A) → Keeps P (each f xs)
  unfolding each
  each-Keeps f keeps [] = pure-Keeps P E tt
  each-Keeps f keeps (x ∷ xs) =
      sequence-Keeps (f x) (λ _. each f xs) (keeps x) (λ _. each-Keeps f keeps xs)

continue-ok :
    {S E A B : Type 0} (r : Result E A) (f : A → Program S E B) (s : S) {b : B}
    → (continue r f s).0 ≡ ok b
    → (a : A) × (r ≡ ok a) × (continue r f s ≡ f a s)
continue-ok (ok a) f s h = (a, refl, refl)
continue-ok (err e) f s h = cc

-- What comes second runs only after the success of what comes first.
pub sequence-ok :
    {S E A B : Type 0} (m : Program S E A) (f : A → Program S E B) (s : S) {b : B}
    → ((m >>= f) s).0 ≡ ok b
    → (a : A) × ((m s).0 ≡ ok a) × ((m >>= f) s ≡ f a (m s).1)
unfolding ◌>>=◌
sequence-ok m f s h = continue-ok (m s).0 f (m s).1 h

-- After a loop without an error, what each round brings about and the others keep holds of all.
pub each-All :
    {S E A : Type 0} (Q : A → S → Type 0) (f : A → Program S E (Unit {0}))
    → ((x : A) (s : S) → (f x s).0 ≡ ok tt → Q x (f x s).1)
    → ((x y : A) → Keeps (Q x) (f y))
    → (xs : List A) (s : S) → (each f xs s).0 ≡ ok tt
    → All (λ x. Q x (each f xs s).1) xs
unfolding each
each-All Q f brings keeps [] s h = tt
each-All Q f brings keeps (x ∷ xs) s h =
    let (_, first, same) = sequence-ok (f x) (λ _. each f xs) s h in
    subst (λ z. All (λ y. Q y z.1) (x ∷ xs)) (sym same)
      (
        each-Keeps (Q x) f (keeps x) xs (f x s).1 (brings x s first),
        each-All Q f brings keeps xs (f x s).1 (subst (λ z. z.0 ≡ ok tt) same h),
      )

-- What holds whenever the second part ends well holds whenever both do.
pub sequence-after {ℓ} :
    {S E A B : Type 0} (R : S → Type ℓ) (m : Program S E A) (f : A → Program S E B) {b : B}
    → ((a : A) (t : S) → (f a t).0 ≡ ok b → R (f a t).1)
    → (s : S) → ((m >>= f) s).0 ≡ ok b
    → R ((m >>= f) s).1
sequence-after R m f {b} later s h =
    let (a, _, same) = sequence-ok m f s h in
    rw same (later a (m s).1 (subst (λ z. z.0 ≡ ok b) same h))

-- The same, with what the first part gave at hand.
pub sequence-from {ℓ} :
    {S E A B : Type 0} (R : S → Type ℓ) (m : Program S E A) (f : A → Program S E B) {b : B} (s : S)
    → ((a : A) → (m s).0 ≡ ok a → (f a (m s).1).0 ≡ ok b → R (f a (m s).1).1)
    → ((m >>= f) s).0 ≡ ok b
    → R ((m >>= f) s).1
sequence-from R m f {b} s later h =
    let (a, first, same) = sequence-ok m f s h in
    rw same (later a first (subst (λ z. z.0 ≡ ok b) same h))

wrap_error-ok :
    {D E A : Type 0} (g : D → E) (r : Result D A) {a : A} → wrap_error g r ≡ ok a → r ≡ ok a
wrap_error-ok g (ok x) h = cc
wrap_error-ok g (err e) h = cc

pub within-ok :
    {S D E A : Type 0} (g : D → E) (m : Program S D A) (s : S) {a : A}
    → (within g m s).0 ≡ ok a
    → (m s).0 ≡ ok a
unfolding within
within-ok g m s h = wrap_error-ok g (m s).0 h

pub ok_inj {ℓ κ} : {E : Type ℓ} {A : Type κ} {a b : A} → Path (Result E A) (ok a) (ok b) → a ≡ b
ok_inj h = cc

-- What each branch brings about when it is taken and ends well.
pub if-after {ℓ} :
    {S E A : Type 0} (R : S → Type ℓ) (c : Bool) (m n : Program S E A) (s : S) {a : A}
    → (c ≡ true → (m s).0 ≡ ok a → R (m s).1)
    → (c ≡ false → (n s).0 ≡ ok a → R (n s).1)
    → ((if c then m else n) s).0 ≡ ok a
    → R ((if c then m else n) s).1
if-after R true m n s first second h = first refl h
if-after R false m n s first second h = second refl h

-- What is true of the value of the second part is true of that of both.
pub sequence-value {ℓ} :
    {S E A B : Type 0} (P : S → Type ℓ) (V : B → Type 0) (m : Program S E A) (f : A → Program S E B)
    (b : B)
    → Keeps P m
    → ((a : A) (t : S) → P t → (f a t).0 ≡ ok b → V b)
    → (s : S) → P s
    → ((m >>= f) s).0 ≡ ok b
    → V b
sequence-value P V m f b keeps later s p h =
    let (a, _, same) = sequence-ok m f s h in
    later a (m s).1 (keeps s p) (subst (λ z. z.0 ≡ ok b) same h)
