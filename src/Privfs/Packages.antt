-- ===== src/Privfs/Packages.antt =====
-- internal/privfs/packages.go: the grant over a package manager and the commands of its verbs.
pub mod Argv
pub mod Grants
use maid_cafe.Base.{
  Bool, true, false, ◌&&◌, ◌||◌, not, Option, none, some, List, [], ◌∷◌, ◌==◌, if◌then◌else◌,
  Result, ok, err, ◌>>=◌, ◌>>◌, guard, ℕ,
}
use maid_cafe.Base.Text.{Bytes, codes, str_eq, mem, trim_space, to_lower}
use maid_cafe.Privfs.Names.{is_alnum, matches}

pub data PackageError : Type 0 where
  manager_required manager_unknown no_verbs verb_unknown verb_not_granted : PackageError
  bad_package_name takes_no_name : PackageError

-- `packageManagers`: the managers and the binaries of their verbs
unfoldable pub package_managers : Bytes → Option Bytes
package_managers manager =
    if str_eq manager (codes "apt")
    then some (codes "apt-get")
    else if str_eq manager (codes "dnf")
    then some (codes "dnf")
    else if str_eq manager (codes "yum")
    then some (codes "yum")
    else if str_eq manager (codes "pacman")
    then some (codes "pacman")
    else if str_eq manager (codes "zypper")
    then some (codes "zypper")
    else if str_eq manager (codes "apk")
    then some (codes "apk")
    else if str_eq manager (codes "xbps")
    then some (codes "xbps-install")
    else none

-- `allowedPackageVerbs`
abbrev pub allowed_package_verbs : List Bytes
allowed_package_verbs = codes "refresh" ∷ codes "upgrade" ∷ codes "install" ∷ codes "remove" ∷ []

unfoldable pub valid_package_verb : Bytes → Bool
valid_package_verb verb = mem verb allowed_package_verbs

unfoldable pub valid_package_manager : Bytes → Bool
valid_package_manager manager = elim (package_managers manager) [ some b ↦ true | none ↦ false ]

-- `packageNamePattern`
abbrev pub is_package_rest : ℕ → Bool
is_package_rest c = is_alnum c || (c == b'.' || (c == b'_' || (c == b'+' || c == b'-')))

unfoldable pub valid_package_name : Bytes → Bool
valid_package_name = matches is_alnum is_package_rest 127

pub record PackageGrant : Type 0 where
  pub manager : Bytes
  pub verbs : List Bytes

-- `allowed[verb] = true`
unfoldable pub add_verb : Bytes → List Bytes → List Bytes
add_verb verb verbs = if mem verb verbs then verbs else verb ∷ verbs

-- the loop over the declared verbs
unfoldable pub collect_verbs : List Bytes → List Bytes → Result PackageError (List Bytes)
collect_verbs [] allowed = ok allowed
collect_verbs (raw ∷ rest) allowed =
    let verb = to_lower (trim_space raw) in
    let next = collect_verbs rest (add_verb verb allowed) in
    if not (valid_package_verb verb) then err verb_unknown else next

unfoldable pub build_package_grant : Bytes → List Bytes → Result PackageError PackageGrant
unfolding collect_verbs
build_package_grant raw verbs = do
  let manager = to_lower (trim_space raw)
  guard (str_eq manager []) manager_required
  guard (not (valid_package_manager manager)) manager_unknown
  guard (elim verbs [ [] ↦ true | v ∷ vs ↦ false ]) no_verbs
  allowed ← collect_verbs verbs []
  ok (record { manager = manager; verbs = allowed })

-- `CheckVerb`
unfoldable pub check_verb : PackageGrant → Bytes → Result PackageError (Unit {0})
check_verb g verb = do
  guard (not (valid_package_verb verb)) verb_unknown
  guard (not (mem verb g.verbs)) verb_not_granted
  ok tt

or_empty : Option Bytes → Bytes
or_empty none = []
or_empty (some b) = b

-- `managerBinary`
unfoldable pub manager_binary : Bytes → Bytes → Bytes
unfolding package_managers or_empty
manager_binary manager verb =
    if str_eq manager (codes "xbps") && str_eq verb (codes "remove")
    then codes "xbps-remove"
    else or_empty (package_managers manager)

-- `packageArgs`, one function for each manager
abbrev by_verb : Bytes → List Bytes → List Bytes → List Bytes → List Bytes → List Bytes
by_verb verb refresh upgrade install other =
    if str_eq verb (codes "refresh")
    then refresh
    else if str_eq verb (codes "upgrade")
    then upgrade
    else if str_eq verb (codes "install")
    then install
    else other

unfoldable pub package_args : Bytes → Bytes → Bytes → List Bytes
package_args manager verb name =
    let operand = codes "--" ∷ name ∷ [] in
    if str_eq manager (codes "apt")
    then by_verb verb (codes "update" ∷ []) (codes "-y" ∷ codes "upgrade" ∷ [])
        (codes "-y" ∷ verb ∷ operand) (codes "-y" ∷ verb ∷ operand)
    else if str_eq manager (codes "dnf") || str_eq manager (codes "yum")
    then by_verb verb (codes "makecache" ∷ []) (codes "-y" ∷ codes "upgrade" ∷ [])
        (codes "-y" ∷ verb ∷ operand) (codes "-y" ∷ verb ∷ operand)
    else if str_eq manager (codes "pacman")
    then by_verb verb (codes "-Sy" ∷ []) (codes "--noconfirm" ∷ codes "-Syu" ∷ [])
        (codes "--noconfirm" ∷ codes "-S" ∷ operand) (codes "--noconfirm" ∷ codes "-R" ∷ operand)
    else if str_eq manager (codes "zypper")
    then by_verb verb (codes "--non-interactive" ∷ codes "refresh" ∷ [])
        (codes "--non-interactive" ∷ codes "update" ∷ [])
        (codes "--non-interactive" ∷ verb ∷ operand) (codes "--non-interactive" ∷ verb ∷ operand)
    else if str_eq manager (codes "apk")
    then by_verb verb (codes "update" ∷ []) (codes "upgrade" ∷ []) (codes "add" ∷ operand)
        (codes "del" ∷ operand)
    else if str_eq manager (codes "xbps")
    then by_verb verb (codes "-S" ∷ []) (codes "-yu" ∷ []) (codes "-y" ∷ operand)
        (codes "-y" ∷ operand)
    else []

-- whether a verb takes a package name
unfoldable pub takes_name : Bytes → Bool
takes_name verb = str_eq verb (codes "install") || str_eq verb (codes "remove")

-- the `switch verb` of `PackageCommand`
unfoldable pub check_name : Bytes → Bytes → Result PackageError (Unit {0})
unfolding takes_name
check_name verb name =
    if takes_name verb
    then guard (not (valid_package_name name)) bad_package_name
    else if str_eq verb (codes "refresh") || str_eq verb (codes "upgrade")
    then guard (not (str_eq name [])) takes_no_name
    else ok tt

-- `PackageCommand`
unfoldable pub package_command : Bytes → Bytes → Bytes → Result PackageError (List Bytes)
unfolding check_name
package_command manager verb name = do
  guard (not (valid_package_manager manager)) manager_unknown
  guard (not (valid_package_verb verb)) verb_unknown
  check_name verb name
  ok (manager_binary manager verb ∷ package_args manager verb name)

-- `PackageArgv`
unfoldable pub package_argv : PackageGrant → Bytes → Bytes → Result PackageError (List Bytes)
unfolding check_verb package_command
package_argv g verb name = do check_verb g verb; package_command g.manager verb name

-- `PackageEnv`
unfoldable pub package_env : Bytes → List Bytes
package_env manager =
    if str_eq manager (codes "apt") then codes "DEBIAN_FRONTEND=noninteractive" ∷ [] else []
