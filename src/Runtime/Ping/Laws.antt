-- ===== src/Runtime/Ping/Laws.antt =====
-- Which checks a ping run takes (internal/runtime/runtime.go).
use frridge.Base.{
  String, Bool, true, false, List, [], ◌∷◌, ◌≡◌, ◌≢◌, refl, ◌⊎◌, inl, inr, Result, ok, err, ◌==◌,
  arith, eq_iff, contains, ◌++◌, ap, if◌then◌else◌,
}
use frridge.Base.Text.{is_blank}
use frridge.Config.Topology.{Ping}
use frridge.Runtime.Host.{RuntimeError, no_pings, unknown_ping}
use frridge.Runtime.Ping.{find_ping, select_ping_checks}

abbrev pub names_of : List Ping → List String
names_of [] = []
names_of (p ∷ ps) = p.name ∷ names_of ps

-- The first check of the list with the name.
pub record IsFirst (name : String) (checks : List Ping) (check : Ping) : Type 0 where
  pub before : List Ping
  pub after : List Ping
  pub splits : checks ≡ before ++ check ∷ after
  pub is_named : check.name ≡ name
  pub is_new : contains (names_of before) name ≡ false

-- How a selection relates to the checks of the topology.
abbrev pub Selects : String → List Ping → Result RuntimeError (List Ping) → Type 0
Selects name checks (ok selected) =
    (checks ≢ [])
    × (((is_blank name ≡ true) × (selected ≡ checks))
        ⊎ ((is_blank name ≡ false)
            × (check : Ping) × (selected ≡ check ∷ [])
            × IsFirst name checks check))
Selects name checks (err e) =
    ((checks ≡ []) × (e ≡ no_pings))
    ⊎ ((checks ≢ [])
        × (is_blank name ≡ false)
        × (contains (names_of checks) name ≡ false)
        × (e ≡ unknown_ping name))

unfoldable Finds : String → List Ping → Result RuntimeError (List Ping) → Type 0
Finds name checks (ok selected) =
    (check : Ping) × (selected ≡ check ∷ []) × IsFirst name checks check
Finds name checks (err e) = (contains (names_of checks) name ≡ false) × (e ≡ unknown_ping name)

find_ping-cons :
    (name : String) (check : Ping) (checks : List Ping) (b : Bool)
    → ((check.name == name) ≡ b)
    → (r : Result RuntimeError (List Ping)) → Finds name checks r
    → Finds name (check ∷ checks) (if b then ok (check ∷ []) else r)
unfolding Finds
find_ping-cons name check checks true e r f = (
  check,
  refl,
  record {
    before = [];
    after = checks;
    splits = refl;
    is_named = ground (arith, eq_iff check.name name);
    is_new = refl;
  },
)
find_ping-cons name check checks false e (ok selected) (c, only, first) = (
  c,
  only,
  record {
    before = check ∷ first.before;
    after = first.after;
    splits = ap (λ l. check ∷ l) first.splits;
    is_named = first.is_named;
    is_new = ground (arith, first.is_new);
  },
)
find_ping-cons name check checks false e (err x) (none_named, unknown) = (ground arith, unknown)

find_ping-Finds : (name : String) (checks : List Ping) → Finds name checks (find_ping name checks)
unfolding Finds find_ping
find_ping-Finds name [] = (refl, refl)
find_ping-Finds name (check ∷ checks) =
    find_ping-cons name check checks (check.name == name) refl (find_ping name checks)
      (find_ping-Finds name checks)

found-Selects :
    (name : String) (checks : List Ping) (r : Result RuntimeError (List Ping))
    → checks ≢ []
    → is_blank name ≡ false
    → Finds name checks r
    → Selects name checks r
unfolding Finds
found-Selects name checks (ok selected) some_check given (check, only, first) =
    (some_check, inr (given, check, only, first))
found-Selects name checks (err e) some_check given (unnamed, unknown) =
    inr (some_check, given, unnamed, unknown)

blank_or_found :
    (name : String) (checks : List Ping) (b : Bool)
    → checks ≢ []
    → (is_blank name ≡ b)
    → Selects name checks (if b then ok checks else find_ping name checks)
blank_or_found name checks true some_check e = (some_check, inl (e, refl))
blank_or_found name checks false some_check e =
    found-Selects name checks (find_ping name checks) some_check e (find_ping-Finds name checks)

-- A ping run takes all the checks when the name is blank, and exactly the first check with the name
-- when it is not. It is an error exactly when there is no check at all, or when the name is not blank
-- and no check has it.
pub select_ping_checks-Selects :
    (checks : List Ping) (name : String) → Selects name checks (select_ping_checks checks name)
unfolding select_ping_checks
select_ping_checks-Selects [] name = inl (refl, refl)
select_ping_checks-Selects (check ∷ checks) name =
    blank_or_found name (check ∷ checks) (is_blank name) (λ e. cc) refl
