-- ===== src/Base/Program/Calls.antt =====
-- Computations whose state is the record of the calls made so far, the newest first. What a call
-- answers is a function of the calls before it.
use mathlib.Core.Path.{◌≡◌, refl}
use mathlib.Core.Logic.{◌⊎◌, inl}
use mathlib.Core.Option.{Option, none, some}
use mathlib.Core.List.{List, [], ◌∷◌}
use frridge.Base.Results.{Result, ok, err}
use frridge.Base.Program.{Program}

abbrev pub as_result : {E : Type 0} → Option E → Result E (Unit {0})
as_result none = ok tt
as_result (some e) = err e

-- A call and its answer.
unfoldable pub ask : {C E A : Type 0} → C → (List C → A) → Program (List C) E A
ask call answer past = (ok (answer past), call ∷ past)

-- A call that fails or gives a value.
unfoldable pub invoke : {C E A : Type 0} → C → (List C → Result E A) → Program (List C) E A
invoke call answer past = (answer past, call ∷ past)

-- A call that returns an error alone.
unfoldable pub perform :
    {C E : Type 0} → (List C → C → Option E) → C → Program (List C) E (Unit {0})
perform answer call past = (as_result (answer past call), call ∷ past)

-- A call was made, and no error came back.
abbrev pub Succeeded : {C E : Type 0} → (List C → C → Option E) → C → List C → Type 0
Succeeded answer call [] = ⊥
Succeeded answer call (c ∷ past) =
    ((call ≡ c) × (answer past call ≡ none)) ⊎ Succeeded answer call past

as_result-ok : {E : Type 0} (o : Option E) → as_result o ≡ ok tt → o ≡ none
as_result-ok none h = refl
as_result-ok (some e) h = cc

pub perform-ok :
    {C E : Type 0} (answer : List C → C → Option E) (call : C) (past : List C)
    → (perform answer call past).0 ≡ ok tt
    → answer past call ≡ none
unfolding perform
perform-ok answer call past h = as_result-ok (answer past call) h

pub perform-Succeeded :
    {C E : Type 0} (answer : List C → C → Option E) (call : C) (past : List C)
    → (perform answer call past).0 ≡ ok tt
    → Succeeded answer call (perform answer call past).1
unfolding perform
perform-Succeeded answer call past h = inl (refl, perform-ok answer call past h)
