-- ===== src/Base/Dict.antt =====
-- Go's maps with string keys, as association lists in the order in which `range` meets the keys.
use Prim.Native.String.{String}
use mathlib.Core.Path.{◌≡◌, refl, ap, ◌∙◌}
use mathlib.Core.Bool.{Bool, true, false, ◌||◌}
use mathlib.Core.Option.{Option, none, some}
use mathlib.Core.List.{List, [], ◌∷◌, ◌++◌}
use native.Mathlib.Omega.{arith}
use text.Mathlib.Text.{◌==◌}
use text.Mathlib.TextEquality.{eq_iff}
use text.Mathlib.TextPositions.{eq_refl}
use frridge.Base.Tests.{if◌then◌else◌}
use frridge.Base.Lists.{contains, Distinct}

abbrev pub Dict {ℓ} : Type ℓ → Type ℓ
Dict V = List (String × V)

module _ {ℓ} {V : Type ℓ} where
  -- `v, ok := m[k]`
  unfoldable pub lookup : String → Dict V → Option V
  lookup k [] = none
  lookup k ((j, v) ∷ m) = if j == k then some v else lookup k m

  -- `m[k] = v`
  unfoldable pub insert : String → V → Dict V → Dict V
  insert key value [] = (key, value) ∷ []
  insert key value ((other, old) ∷ rest) =
      if other == key then (key, value) ∷ rest else (other, old) ∷ insert key value rest

  -- `delete(m, k)`
  unfoldable pub erase : String → Dict V → Dict V
  erase k [] = []
  erase k ((j, w) ∷ m) = let rest = erase k m in if j == k then rest else (j, w) ∷ rest

  unfoldable pub keys : Dict V → List String
  keys [] = []
  keys ((k, _) ∷ m) = k ∷ keys m

  unfoldable pub values : Dict V → List V
  values [] = []
  values ((_, v) ∷ m) = v ∷ values m

  -- `_, ok := m[k]`
  unfoldable pub is_some : Option V → Bool
  is_some none = false
  is_some (some _) = true

  -- maps.Copy(m, overrides)
  unfoldable pub copy : Dict V → Dict V → Dict V
  unfolding insert
  copy m [] = m
  copy m ((k, v) ∷ overrides) = copy (insert k v m) overrides

  -- Reading a key after a write gives what was written, if it was under that key.
  pub lookup-insert :
      (written read : String) (value : V) (m : Dict V)
      → lookup read (insert written value m)
        ≡ (if written == read then some value else lookup read m)
  unfolding insert lookup
  lookup-insert written read value [] = refl
  lookup-insert written read value ((key, old) ∷ rest) =
      let after = lookup-insert written read value rest in
      ground (arith, after, eq_iff key read, eq_iff key written, eq_iff written read)

  pub contains-keys : (k : String) (m : Dict V) → contains (keys m) k ≡ is_some (lookup k m)
  unfolding lookup keys is_some
  contains-keys k [] = refl
  contains-keys k ((j, v) ∷ m) = ground (arith, contains-keys k m)

  -- A new key comes last.
  pub keys-insert_new :
      (k : String) (v : V) (m : Dict V) → lookup k m ≡ none → keys (insert k v m) ≡ keys m ++ k ∷ []
  unfolding lookup insert keys
  keys-insert_new k v [] h = refl
  keys-insert_new k v ((j, w) ∷ m) h = ground (arith, keys-insert_new k v m)

  -- Deleting the key that was just added gives the map before it.
  pub erase-insert_new :
      (k : String) (v : V) (m : Dict V) → lookup k m ≡ none → erase k (insert k v m) ≡ m
  unfolding lookup insert erase
  erase-insert_new k v [] h = ground (arith, eq_refl k)
  erase-insert_new k v ((j, w) ∷ m) h = ground (arith, erase-insert_new k v m)

pub contains-append :
    (xs : List String) (y x : String) → contains (xs ++ y ∷ []) x ≡ (contains xs x || y == x)
contains-append [] y x = ground arith
contains-append (z ∷ xs) y x = ground (arith, contains-append xs y x)

pub Distinct-append :
    (xs : List String) (y : String) → Distinct xs → contains xs y ≡ false → Distinct (xs ++ y ∷ [])
Distinct-append [] y d h = (refl, tt)
Distinct-append (x ∷ xs) y d h = (
  ground (arith, contains-append xs y x, eq_iff x y, eq_iff y x),
  Distinct-append xs y d.1 (ground arith),
)

-- The map's keys, in order, are the names, and no name stands twice.
pub record IsKeyed {ℓ} {V : Type ℓ} (names : List String) (m : Dict V) : Type 0 where
  pub are_keys : keys m ≡ names
  pub distinct : Distinct names

module _ {ℓ} {V : Type ℓ} where
  pub insert-IsKeyed :
      {names : List String} {m : Dict V} (k : String) (v : V)
      → IsKeyed names m
      → lookup k m ≡ none
      → IsKeyed (names ++ k ∷ []) (insert k v m)
  unfolding is_some
  insert-IsKeyed {names} {m} k v h absent = record {
    are_keys = keys-insert_new k v m absent ∙ ap (λ ns. ns ++ k ∷ []) h.are_keys;
    distinct =
        Distinct-append names k h.distinct (rw (← h.are_keys) (rw (contains-keys k m) (rw absent)));
  }

  -- Writing a key that may be there keeps the keys distinct.
  pub insert-Distinct :
      (k : String) (v : V) (m : Dict V) → Distinct (keys m) → Distinct (keys (insert k v m))
  unfolding insert keys
  insert-Distinct k v [] d = (refl, tt)
  insert-Distinct k v ((j, w) ∷ m) (fresh, d) = ground (
    arith,
    eq_iff j k,
    insert-Distinct k v m d,
    contains-keys j (insert k v m),
    contains-keys j m,
    lookup-insert k j v m,
    eq_iff k j,
  )

pub contains-append_list :
    (xs ys : List String) (a : String) → contains (xs ++ ys) a ≡ (contains xs a || contains ys a)
contains-append_list [] ys a = refl
contains-append_list (x ∷ xs) ys a = ground (arith, contains-append_list xs ys a)

pub Distinct-fresh :
    (xs : List String) (y : String) (ys : List String)
    → Distinct (xs ++ y ∷ ys)
    → contains xs y ≡ false
Distinct-fresh [] y ys d = refl
Distinct-fresh (x ∷ xs) y ys d =
    ground (
      arith,
      contains-append_list xs (y ∷ ys) x,
      eq_iff x y,
      eq_iff y x,
      Distinct-fresh xs y ys d.1,
    )

pub lookup_fresh {ℓ} :
    {V : Type ℓ} (k : String) (m : Dict V) → contains (keys m) k ≡ false → lookup k m ≡ none
unfolding is_some
lookup_fresh k m h = ground (arith, contains-keys k m)
