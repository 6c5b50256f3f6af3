-- ===== src/Identity/Directory.antt =====
-- `default_config_dir` and its helpers. `vars` is `std::env::var_os`, and `unix` is `cfg!(unix)`.
use furcate_mesh.Prelude.{Bool, true, false, Option, none, some, [], ◌∷◌, ◌++◌, ◌==◌, if◌then◌else◌}
use furcate_mesh.Prelude.Text.{Text, codes, text_eq}

abbrev pub Vars : Type 0
Vars = Text → Option Text

-- whether a separator stands at the end
ends_in_slash : Text → Bool
ends_in_slash [] = false
ends_in_slash (c ∷ []) = c == b'/'
ends_in_slash (c ∷ d ∷ s) = ends_in_slash (d ∷ s)

-- `Path::join` with a relative path
unfoldable pub join : Text → Text → Text
unfolding ends_in_slash
join [] path = path
join (c ∷ base) path =
    if ends_in_slash (c ∷ base) then (c ∷ base) ++ path else (c ∷ base) ++ (codes "/" ++ path)

unfoldable pub unix_uid_zero : Bool → Vars → Bool
unix_uid_zero false vars = false
unix_uid_zero true vars = elim (vars (codes "SUDO_UID")) [
  | some _ ↦ true
  | none ↦ elim (vars (codes "USER")) [ some user ↦ text_eq user (codes "root") | none ↦ false ]
]

unfoldable pub home_dir : Vars → Option Text
home_dir vars = vars (codes "HOME")

unfoldable pub default_config_dir : Bool → Vars → Text
unfolding unix_uid_zero home_dir join
default_config_dir unix vars =
    if unix_uid_zero unix vars then codes "/var/lib/furcate-mesh" else elim (home_dir vars) [
      | some home ↦ join (join home (codes ".config")) (codes "furcate-mesh")
      | none ↦ codes ".furcate-mesh"
    ]
