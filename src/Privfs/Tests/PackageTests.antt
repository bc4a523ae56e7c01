-- ===== src/Privfs/Tests/PackageTests.antt =====
-- Package grants and commands of internal/privfs/packages.go.
use maid_cafe.Base.{◌≡◌, refl, ok, err, true, List, [], ◌∷◌, ◌++◌, map, ◌↔◌, if◌then◌else◌}
use maid_cafe.Base.Text.{Bytes, codes, mem, str_eq, to_lower, trim_space}
use maid_cafe.Privfs.Packages.{
  PackageGrant, build_package_grant, check_verb, package_command, manager_binary,
  valid_package_name, valid_package_manager, valid_package_verb, takes_name, bad_package_name,
  package_managers, add_verb,
}
use maid_cafe.Privfs.Packages.Argv.{package_command-takes_name}
use maid_cafe.Privfs.Packages.Grants.{normalise, build_package_grant_sound}

package_command-takes_name_example :
    (prefix : List Bytes) × ((name : Bytes)
      → package_command (codes "pacman") (codes "remove") name ≡ (
          if valid_package_name name
          then ok (
              manager_binary (codes "pacman") (codes "remove")
              ∷ (prefix ++ (codes "--" ∷ name ∷ [])))
          else err bad_package_name))
unfolding valid_package_manager takes_name package_managers str_eq
package_command-takes_name_example =
    package_command-takes_name (codes "pacman") (codes "remove") refl refl

abbrev declared : List Bytes
declared = codes " Install" ∷ codes "REFRESH" ∷ codes "install" ∷ []

abbrev apt : PackageGrant
apt = record { manager = codes "apt"; verbs = codes "refresh" ∷ codes "install" ∷ [] }

build_package_grant_sound_example :
    (codes "apt" ≡ normalise (codes "APT "))
    × (valid_package_manager (codes "apt") ≡ true)
    × ((v : Bytes) → (check_verb apt v ≡ ok tt) ↔ (mem v (map normalise declared) ≡ true))
unfolding build_package_grant str_eq to_lower trim_space valid_package_manager package_managers
    valid_package_verb mem add_verb
build_package_grant_sound_example = build_package_grant_sound (codes "APT ") declared apt refl

abbrev install_vim : List Bytes
install_vim = codes "apt-get" ∷ codes "-y" ∷ codes "install" ∷ codes "--" ∷ codes "vim" ∷ []
