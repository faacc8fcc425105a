-- ===== src/Config/Resolve/Laws.antt =====
-- What a resolved router holds.
use frridge.Base.{
  String, ◌≡◌, refl, ◌∙◌, false, Option, none, some, List, [], ◌∷◌, ◌==◌, if◌then◌else◌, arith,
  Bool-cases, inl, inr, eq_iff, map, Distinct,
}
use frridge.Base.Text.{trim_space}
use frridge.Base.Dict.{
  insert-Distinct, Dict, lookup, insert, copy, keys, lookup-insert, lookup_fresh,
}
use frridge.Config.Topology.{Topology, Linux, Veth, Bridge, default_router_image}
use frridge.Config.Resolve.{
  resolve_router, resolved_image, merged_sysctls, default_router_sysctls, copy_linux, copy_bond,
  copy_interface, copy_veth, copy_bridge, copy_namespace, router_or_zero,
}

-- The first value that is there.
abbrev pub or_else {ℓ} : {A : Type ℓ} → Option A → Option A → Option A
or_else (some a) o = some a
or_else none o = o

pub lookup-copy :
    (k : String) (m overrides : Dict String)
    → Distinct (keys overrides)
    → lookup k (copy m overrides) ≡ or_else (lookup k overrides) (lookup k m)
unfolding copy lookup keys
lookup-copy k m [] d = refl
lookup-copy k m ((j, v) ∷ overrides) (fresh, d) = ground (
  arith,
  lookup-copy k (insert j v m) overrides d,
  lookup-insert j k v m,
  lookup_fresh j overrides fresh,
  eq_iff j k,
)

lookup-merged_sysctls :
    (k : String) (defaults overrides : Dict String)
    → Distinct (keys defaults)
    → Distinct (keys overrides)
    → lookup k (merged_sysctls defaults overrides)
      ≡ or_else (lookup k overrides) (lookup k defaults)
unfolding merged_sysctls lookup
lookup-merged_sysctls k defaults overrides d o =
    ground (arith, lookup-copy k (copy [] defaults) overrides o, lookup-copy k [] defaults d)

copy-Distinct : (m overrides : Dict String) → Distinct (keys m) → Distinct (keys (copy m overrides))
unfolding copy
copy-Distinct m [] d = d
copy-Distinct m ((j, v) ∷ overrides) d =
    copy-Distinct (insert j v m) overrides (insert-Distinct j v m d)

merged_sysctls-Distinct :
    (defaults overrides : Dict String) → Distinct (keys (merged_sysctls defaults overrides))
unfolding merged_sysctls keys
merged_sysctls-Distinct defaults overrides =
    copy-Distinct _ overrides (copy-Distinct [] defaults tt)

defaults-Distinct : Distinct (keys default_router_sysctls)
unfolding default_router_sysctls keys
defaults-Distinct = (refl, (refl, tt))

or_else_assoc {ℓ} :
    {A : Type ℓ} (a b c : Option A) → or_else (or_else a b) c ≡ or_else a (or_else b c)
or_else_assoc none b c = refl
or_else_assoc (some a) b c = refl

-- A sysctl of a resolved router has the router's value if it sets the key, else the lab default's,
-- else the built-in one, if the two given maps have each key once.
pub resolve_router_sysctls :
    (t : Topology) (name k : String)
    → Distinct (keys t.lab.defaults.sysctls)
    → Distinct (keys (router_or_zero (lookup name t.routers)).sysctls)
    → lookup k (resolve_router t name).sysctls
      ≡ or_else
          (lookup k (router_or_zero (lookup name t.routers)).sysctls)
          (or_else (lookup k t.lab.defaults.sysctls) (lookup k default_router_sysctls))
unfolding resolve_router
resolve_router_sysctls t name k d o =
    let own = (router_or_zero (lookup name t.routers)).sysctls in
    lookup-merged_sysctls k default_router_sysctls (merged_sysctls t.lab.defaults.sysctls own)
      defaults-Distinct (merged_sysctls-Distinct t.lab.defaults.sysctls own)
    ∙ rw (lookup-merged_sysctls k t.lab.defaults.sysctls own d o) (
        or_else_assoc (lookup k own) (lookup k t.lab.defaults.sysctls)
          (lookup k default_router_sysctls))

default_image_given : (s : String) → ((if s == "" then default_router_image else s) == "") ≡ false
default_image_given s = elim (Bool-cases (s == "")) [ inl e ↦ rw e | inr e ↦ rw e e ]

-- The image of a resolved router is never empty, so the validation's test for it never fails.
pub resolved_image_given :
    (t : Topology) (name : String) → ((resolve_router t name).image == "") ≡ false
unfolding resolve_router resolved_image
resolved_image_given t name =
    let own = trim_space (router_or_zero (lookup name t.routers)).image in
    default_image_given (if own == "" then trim_space t.lab.defaults.image else own)

map_self {ℓ} : {A : Type ℓ} (f : A → A) → ((a : A) → f a ≡ a) → (xs : List A) → map f xs ≡ xs
map_self f h [] = refl
map_self f h (x ∷ xs) = cc (h x, map_self f h xs)

copy_veth_self : (v : Veth) → copy_veth v ≡ v
unfolding copy_veth copy_namespace
copy_veth_self v = ground arith

copy_bridge_self : (b : Bridge) → copy_bridge b ≡ b
unfolding copy_bridge copy_namespace
copy_bridge_self b = cc (map_self copy_namespace (λ n. refl) b.namespaces)

-- The copy of a `linux:` section holds every field of the original.
pub copy_linux_self : (l : Linux) → copy_linux l ≡ l
unfolding copy_linux copy_bond copy_interface
copy_linux_self l = cc (
  map_self copy_bond (λ n. refl) l.bonds,
  map_self copy_interface (λ n. refl) l.interfaces,
  map_self copy_veth copy_veth_self l.veths,
  map_self copy_bridge copy_bridge_self l.bridges,
)
