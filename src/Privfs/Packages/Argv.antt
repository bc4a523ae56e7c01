-- ===== src/Privfs/Packages/Argv.antt =====
-- What the commands of packages.go look like, on every branch.
use maid_cafe.Base.{
  true, false, ◌||◌, List, [], ◌∷◌, ◌++◌, if◌then◌else◌, ◌≡◌, refl, arith, ok, err,
}
use maid_cafe.Base.Text.{Bytes, codes, str_eq, str_eq_iff, mem}
use maid_cafe.Privfs.Packages.{
  valid_package_manager, takes_name, package_args, package_managers, valid_package_verb,
  package_command, check_name, valid_package_name, manager_binary, bad_package_name,
}

-- what stands before the operand of install and remove
pub fixed_args : Bytes → Bytes → List Bytes
unfolding package_managers
fixed_args manager verb =
    if str_eq manager (codes "apt")
      || (str_eq manager (codes "dnf") || str_eq manager (codes "yum"))
    then codes "-y" ∷ verb ∷ []
    else if str_eq manager (codes "pacman")
    then codes "--noconfirm"
      ∷ (if str_eq verb (codes "install") then codes "-S" else codes "-R")
      ∷ []
    else if str_eq manager (codes "zypper")
    then codes "--non-interactive" ∷ verb ∷ []
    else if str_eq manager (codes "apk")
    then (if str_eq verb (codes "install") then codes "add" else codes "del") ∷ []
    else codes "-y" ∷ []

refresh_install : str_eq (codes "install") (codes "refresh") ≡ false
unfolding str_eq
refresh_install = refl

upgrade_install : str_eq (codes "install") (codes "upgrade") ≡ false
unfolding str_eq
upgrade_install = refl

refresh_remove : str_eq (codes "remove") (codes "refresh") ≡ false
unfolding str_eq
refresh_remove = refl

upgrade_remove : str_eq (codes "remove") (codes "upgrade") ≡ false
unfolding str_eq
upgrade_remove = refl

package_args-takes_name :
    (manager verb name : Bytes)
    → valid_package_manager manager ≡ true
    → takes_name verb ≡ true
    → package_args manager verb name ≡ fixed_args manager verb ++ (codes "--" ∷ name ∷ [])
unfolding package_args fixed_args takes_name valid_package_manager package_managers
package_args-takes_name manager verb name hm hv = ground (
  arith,
  str_eq_iff verb (codes "install"),
  str_eq_iff verb (codes "remove"),
  refresh_install,
  upgrade_install,
  refresh_remove,
  upgrade_remove,
)

takes_name-valid : (verb : Bytes) → takes_name verb ≡ true → valid_package_verb verb ≡ true
unfolding takes_name valid_package_verb mem
takes_name-valid verb h = ground arith

-- For a known manager and a verb that takes a name, the command is the manager's binary, arguments
-- that do not depend on the name, `--` and the name, if the name matches the pattern for package
-- names; otherwise it is refused.
pub package_command-takes_name :
    (manager verb : Bytes)
    → valid_package_manager manager ≡ true
    → takes_name verb ≡ true
    → (prefix : List Bytes) × ((name : Bytes)
        → package_command manager verb name ≡ (
            if valid_package_name name
            then ok (manager_binary manager verb ∷ (prefix ++ (codes "--" ∷ name ∷ [])))
            else err bad_package_name))
unfolding package_command check_name
package_command-takes_name manager verb hm hv = (
  fixed_args manager verb,
  λ name. ground (arith, takes_name-valid verb, package_args-takes_name manager verb name),
)
