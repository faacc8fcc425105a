-- ===== src/Config/Paths/Laws.antt =====
-- Which names pass for a path component, and where the lab's directory lies.
use frridge.Base.{
  String, ◌≡◌, refl, ◌⊎◌, ◌↔◌, inl, inr, true, false, ◌∷◌, [], ◌==◌, eq_iff, arith, ◌<>◌,
}
use frridge.Base.Text.{has, is_slash, is_nul, base, last_element, trim_right}
use frridge.Base.Text.Laws.{has-last_element, last_element_of_no_slash, trim_right_of_none}
use frridge.Base.FilePath.{join}
use frridge.Base.FilePath.Laws.{IsElement, join-child, join-slash}
use frridge.Config.Topology.{Topology}
use frridge.Config.Paths.{is_path_component, work_dir_path, lab_dir}

base_of_no_slash : (s : String) → (s == "") ≡ false → has is_slash s ≡ false → base s ≡ s
unfolding base
base_of_no_slash s given h =
    rw given (rw (trim_right_of_none is_slash s h) (rw (last_element_of_no_slash s h) (rw given)))

base-eq_self :
    (s : String) → base s ≡ s → (s ≡ "/") ⊎ ((s == "") ≡ false) × (has is_slash s ≡ false)
unfolding base
base-eq_self s h =
    ground (arith, eq_iff s "", eq_iff "." "", has-last_element (trim_right is_slash s))

base_of_slash : base "/" ≡ "/"
unfolding base trim_right last_element has
base_of_slash = refl

slash_is_component : is_path_component "/" ≡ true
unfolding is_path_component has
slash_is_component = rw base_of_slash refl

element_is_component :
    (s : String) → IsElement s → has is_nul s ≡ false → is_path_component s ≡ true
unfolding is_path_component
element_is_component s v n =
    ground
      (arith, base_of_no_slash s v.not_empty v.no_slash, eq_iff (base s) s, v.not_dot, v.not_dots)

component_cases :
    (s : String) → is_path_component s ≡ true → (s ≡ "/") ⊎ (IsElement s × (has is_nul s ≡ false))
unfolding is_path_component
component_cases s h =
    let same : base s ≡ s = ground (arith, eq_iff (base s) s) in
    elim (base-eq_self s same) [
      | inl e ↦ inl e
      | inr (given, flat) ↦ inr (
        record {
          not_empty = given;
          not_dot = ground arith;
          not_dots = ground arith;
          no_slash = flat;
        },
        ground arith,
      )
    ]

-- A name passes as a path component exactly if it is the text "/", or if it holds no slash and no
-- NUL and is none of "", "." and "..".
pub is_path_component_iff :
    (s : String)
    → (is_path_component s ≡ true) ↔ ((s ≡ "/") ⊎ (IsElement s × (has is_nul s ≡ false)))
is_path_component_iff s = (
  component_cases s,
  λ h. elim h [ inl e ↦ rw e slash_is_component | inr (v, n) ↦ element_is_component s v n ],
)

labs-IsElement : IsElement "labs"
unfolding has
labs-IsElement = record { not_empty = refl; not_dot = refl; not_dots = refl; no_slash = refl }

-- The directory above the labs' own: `<workdir>/labs`.
abbrev pub labs_dir : String → Topology → String
labs_dir override t = join (work_dir_path override t ∷ "labs" ∷ [])

-- For a lab whose name passed the validation and is not "/", the lab's directory is the child of
-- the labs' directory with the lab's name, if the work directory has a path.
pub lab_dir-child :
    (override : String) (t : Topology)
    → (work_dir_path override t == "") ≡ false
    → is_path_component t.lab.name ≡ true
    → (t.lab.name == "/") ≡ false
    → lab_dir override t ≡ labs_dir override t <> ("/" <> t.lab.name)
unfolding lab_dir
lab_dir-child override t given h other = elim (component_cases t.lab.name h) [
  | inl e ↦ absurd (ground (arith, eq_iff t.lab.name "/"))
  | inr (v, _) ↦ join-child (work_dir_path override t) "labs" given labs-IsElement v
]

-- For the lab name "/", which passes the validation, the lab's directory is the directory of all
-- labs, if the work directory has a path.
pub lab_dir-slash :
    (override : String) (t : Topology)
    → (work_dir_path override t == "") ≡ false
    → t.lab.name ≡ "/"
    → (is_path_component t.lab.name ≡ true) × (lab_dir override t ≡ labs_dir override t)
unfolding lab_dir work_dir_path
lab_dir-slash override t given e = (
  rw e slash_is_component,
  rw e (join-slash (work_dir_path override t) "labs" given labs-IsElement),
)
