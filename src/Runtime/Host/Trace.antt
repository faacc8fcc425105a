-- ===== src/Runtime/Host/Trace.antt =====
-- What a record of calls says: a call was made, and it was made with success; and the effect of the
-- loops of internal/runtime/runtime.go on it.
use frridge.Base.{
  String, List, [], ◌∷◌, ◌≡◌, refl, ◌⊎◌, inl, inr, Option, none, some, Result, ok, err, All,
}
use frridge.Runtime.Host.{
  Fault, Host, World, History, M, Call, RuntimeError, perform, attempt_each, note_error, as_result,
  ◌>>=◌, continue, within, pure, raise, each,
}

abbrev pub Called : Call → History → Type 0
Called call [] = ⊥
Called call (c ∷ past) = (call ≡ c) ⊎ Called call past

-- The call was made, and no error came back.
abbrev pub Succeeded : Host → Call → History → Type 0
Succeeded h call [] = ⊥
Succeeded h call (c ∷ past) = ((call ≡ c) × (h.perform past call ≡ none)) ⊎ Succeeded h call past

-- A computation that leaves alone what the predicate says.
abbrev pub Keeps {ℓ} : {A : Type 0} → (World → Type ℓ) → M A → Type ℓ
Keeps P m = (w : World) → P w → P (m w).1

continue-ok :
    {A B : Type 0} (r : Result RuntimeError A) (f : A → M B) (w : World) {b : B}
    → (continue r f w).0 ≡ ok b
    → (a : A) × (r ≡ ok a) × (continue r f w ≡ f a w)
continue-ok (ok a) f w h = (a, refl, refl)
continue-ok (err e) f w h = cc

-- What follows a computation runs only after its success.
pub bind-ok :
    {A B : Type 0} (m : M A) (f : A → M B) (w : World) {b : B}
    → ((m >>= f) w).0 ≡ ok b
    → (a : A) × ((m w).0 ≡ ok a) × ((m >>= f) w ≡ f a (m w).1)
unfolding ◌>>=◌
bind-ok m f w h = continue-ok (m w).0 f (m w).1 h

-- What follows a computation runs in the world that it leaves.
pub continue-Keeps {ℓ} :
    (P : World → Type ℓ) {X Y : Type 0} (outcome : Result RuntimeError X) (next : X → M Y)
    → ((x : X) → Keeps P (next x))
    → Keeps P (continue outcome next)
continue-Keeps P (err e) next later u holds = holds
continue-Keeps P (ok x) next later u holds = later x u holds

pub bind-Keeps {ℓ} :
    (P : World → Type ℓ) {X Y : Type 0} (start : M X) (next : X → M Y)
    → Keeps P start
    → ((x : X) → Keeps P (next x))
    → Keeps P (start >>= next)
unfolding ◌>>=◌
bind-Keeps P start next early later u holds =
    let (outcome, v) = start u in continue-Keeps P outcome next later v (early u holds)

pub within-Keeps {ℓ} :
    (P : World → Type ℓ) {A : Type 0} (g : RuntimeError → RuntimeError) (m : M A)
    → Keeps P m
    → Keeps P (within g m)
unfolding within
within-Keeps P g m keeps w p = keeps w p

pub pure-Keeps {ℓ} : (P : World → Type ℓ) {A : Type 0} (a : A) → Keeps P (pure a)
unfolding pure
pure-Keeps P a w p = p

pub raise-Keeps {ℓ} :
    (P : World → Type ℓ) (A : Type 0) (e : RuntimeError) → Keeps P (raise {A = A} e)
unfolding raise
raise-Keeps P A e w p = p

pub each-Keeps {ℓ} :
    (P : World → Type ℓ) {A : Type 0} (f : A → M (Unit {0}))
    → ((x : A) → Keeps P (f x))
    → (xs : List A) → Keeps P (each f xs)
unfolding each
each-Keeps P f keeps [] = pure-Keeps P tt
each-Keeps P f keeps (x ∷ xs) =
    bind-Keeps P (f x) (λ _. each f xs) (keeps x) (λ _. each-Keeps P f keeps xs)

-- A loop that goes on after errors keeps what its rounds keep.
pub attempt_each-Keeps {ℓ} :
    (P : World → Type ℓ) {A : Type 0} (f : A → M (Unit {0}))
    → ((x : A) → Keeps P (f x))
    → (xs : List A) (acc : Option RuntimeError) (w : World) → P w
    → P (attempt_each f acc xs w).1
unfolding attempt_each
attempt_each-Keeps P f keeps [] acc w p = p
attempt_each-Keeps P f keeps (x ∷ xs) acc w p =
    attempt_each-Keeps P f keeps xs (note_error acc (f x w).0) (f x w).1 (keeps x w p)

note_error-none :
    (acc : Option RuntimeError) (r : Result RuntimeError (Unit {0}))
    → note_error acc r ≡ none
    → (acc ≡ none) × (r ≡ ok tt)
note_error-none acc (ok done) e = (e, refl)
note_error-none acc (err x) e = cc

as_result-ok : (o : Option Fault) → as_result o ≡ ok tt → o ≡ none
as_result-ok none e = refl
as_result-ok (some f) e = cc

module _ (h : Host) where
  pub perform-ok :
      (call : Call) (w : World)
      → (perform h call w).0 ≡ ok tt
      → Succeeded h call (perform h call w).1.trace
  unfolding perform
  perform-ok call w e = inl (refl, as_result-ok (h.perform w.trace call) e)

  pub perform-Keeps-Succeeded :
      (done call : Call) → Keeps (λ w. Succeeded h done w.trace) (perform h call)
  unfolding perform
  perform-Keeps-Succeeded done call w p = inr p

  pub perform_then-ok :
      {B : Type 0} (call : Call) (f : Unit {0} → M B) (w : World) {b : B}
      → Keeps (λ u. Succeeded h call u.trace) (f tt)
      → ((perform h call >>= f) w).0 ≡ ok b
      → Succeeded h call ((perform h call >>= f) w).1.trace
  perform_then-ok call f w keeps e =
      let (a, fine, same) = bind-ok (perform h call) f w e in
      rw same (keeps (perform h call w).1 (perform-ok call w fine))

  module _ (make : String → Call) where
    -- A loop of calls with no error has made all of them with success.
    pub attempt_each-none :
        (names : List String) (acc : Option RuntimeError) (w : World)
        → (attempt_each (λ name. perform h (make name)) acc names w).0 ≡ none
        → (acc ≡ none)
          × All
              (λ name.
                Succeeded h
                  (make name)
                  (attempt_each (λ n. perform h (make n)) acc names w).1.trace)
              names
    unfolding attempt_each
    attempt_each-none [] acc w e = (e, tt)
    attempt_each-none (name ∷ names) acc w e =
        let (r, w') = perform h (make name) w in
        let (noted, rest) = attempt_each-none names (note_error acc r) w' e in
        let (before, fine) = note_error-none acc r noted in
        (
          before,
          (
            attempt_each-Keeps (λ u. Succeeded h (make name) u.trace) (λ n. perform h (make n))
                (λ n. perform-Keeps-Succeeded (make name) (make n)) names (note_error acc r) w'
                (perform-ok (make name) w fine),
            rest,
          ),
        )
