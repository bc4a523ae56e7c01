-- ===== src/Privfs/Grants.antt =====
-- The grant file of internal/privfs/privfs.go: `LoadSet`, `buildProfile` and the lookups. What the
-- file system answers about a path, and what the configuration library reads from the file, are the
-- fields of a `Host`.
pub mod Trust
use maid_cafe.Base.{
  ltb, leb, ◌==◌, if◌then◌else◌, ltb→lt, leb→le, ==_iff, Bool-cases, &&_split, length, get_elem?,
  take, drop, All, filter, length-append, length-drop, drop-append, drop-drop, take-append-drop,
  All-append, Result, ok, err, ◌>>=◌, ◌>>◌, guard, Option-cases, Result-cases, ℕ, zero, suc, ◌+◌,
  ◌-◌, ◌*◌, ◌/◌, ◌%◌, ◌^◌, ◌≤◌, ◌<◌, ◌≡◌, refl, sym, ap, ◌∙◌, ◌≢◌, ◌↔◌, ◌⊎◌, inl, inr, Bool, true,
  false, not, ◌&&◌, ◌||◌, Option, none, some, List, [], ◌∷◌, ◌++◌, map, append-nil, append_assoc,
  arith,
}
use maid_cafe.Base.Text.{Bytes, codes, str_eq}
use maid_cafe.Base.Filepath.{is_abs, clean}
use maid_cafe.Privfs.Names.{is_lower, is_digit, matches}
use maid_cafe.Privfs.Mode.{ModeError, parse_mode, mode_mem}
use maid_cafe.Privfs.Units.{UnitError, UnitGrant, build_unit_grant}
use maid_cafe.Privfs.Packages.{PackageError, PackageGrant, build_package_grant}
use maid_cafe.Privfs.Firewall.{FirewallError, FirewallGrant, build_firewall_grant}
use maid_cafe.Privfs.Files.{Profile}

-- what `os.Lstat` says of the grant file; a file has no owner where the system knows none
pub record FileInfo : Type 0 where
  pub is_symlink : Bool
  pub is_regular : Bool
  pub perm : ℕ
  pub owner : Option ℕ

pub record ProfileEntry : Type 0 where
  pub name : Bytes
  pub path : Bytes
  pub modes : List Bytes

-- `fileConfig`; an absent table is not an empty one
pub record FileConfig : Type 0 where
  pub profiles : List ProfileEntry
  pub systemd : List (Bytes × List Bytes)
  pub packages : Option (Bytes × List Bytes)
  pub firewall : Option (Bytes × List Bytes)

pub record Host : Type 0 where
  pub lstat : Bytes → Option FileInfo
  pub read_config : Bytes → Option FileConfig
  pub eval_symlinks : Bytes → Option Bytes
  -- whether the path is a directory, if there is something
  pub stat_is_dir : Bytes → Option Bool

-- `Set`
pub record GrantSet : Type 0 where
  pub by_name : List (Bytes × Profile)
  pub units : List (Bytes × UnitGrant)
  pub packages : Option PackageGrant
  pub firewall : Option FirewallGrant

pub data LoadError : Type 0 where
  unreadable is_symbolic_link not_regular writable_by_others not_root_owned unparsable : LoadError
  bad_name bad_profile_path not_usable not_a_directory no_modes duplicate nothing_declared :
      LoadError
  bad_mode : ModeError → LoadError
  bad_unit : UnitError → LoadError
  bad_packages : PackageError → LoadError
  bad_firewall : FirewallError → LoadError
  unknown_profile unit_not_granted : LoadError

abbrev pub is_name_first : ℕ → Bool
is_name_first c = is_lower c || is_digit c

abbrev pub is_name_rest : ℕ → Bool
is_name_rest c = is_name_first c || (c == b'_' || c == b'-')

-- `profileNamePattern`
unfoldable pub valid_profile_name : Bytes → Bool
valid_profile_name = matches is_name_first is_name_rest 63

-- a value, or an error kind where there is none
abbrev pub or_fail {ℓ} : {A : Type ℓ} → Option A → LoadError → Result LoadError A
or_fail none e = err e
or_fail (some a) e = ok a

abbrev pub as_error {ℓ} :
    {E : Type 0} {A : Type ℓ} → (E → LoadError) → Result E A → Result LoadError A
as_error f (ok a) = ok a
as_error f (err e) = err (f e)

-- the loop over the modes of an entry
unfoldable pub collect_modes : List Bytes → List ℕ → Result LoadError (List ℕ)
collect_modes [] allowed = ok allowed
collect_modes (raw ∷ rest) allowed = do
  mode ← as_error bad_mode (parse_mode raw)
  collect_modes rest (if mode_mem mode allowed then allowed else mode ∷ allowed)

-- `buildProfile`
unfoldable pub build_profile : Host → ProfileEntry → Result LoadError Profile
unfolding collect_modes
build_profile host entry = do
  guard (not (valid_profile_name entry.name)) bad_name
  guard (not (is_abs entry.path) || not (str_eq (clean entry.path) entry.path)) bad_profile_path
  resolved ← or_fail (host.eval_symlinks entry.path) not_usable
  dir ← or_fail (host.stat_is_dir resolved) not_usable
  guard (not dir) not_a_directory
  guard (elim entry.modes [ [] ↦ true | m ∷ ms ↦ false ]) no_modes
  modes ← collect_modes entry.modes []
  ok (record { name = entry.name; path = resolved; modes = modes })

-- `m[key]`
unfoldable pub find {ℓ} : {A : Type ℓ} → Bytes → List (Bytes × A) → Option A
find key [] = none
find key ((k, a) ∷ m) = let rest = find key m in if str_eq k key then some a else rest

unfoldable pub holds {ℓ} : {A : Type ℓ} → Bytes → List (Bytes × A) → Bool
unfolding find
holds key m = elim (find key m) [ none ↦ false | some a ↦ true ]

-- the loop over the profiles
unfoldable pub load_profiles :
    Host → List ProfileEntry → List (Bytes × Profile) → Result LoadError (List (Bytes × Profile))
unfolding build_profile holds
load_profiles host [] set = ok set
load_profiles host (entry ∷ entries) set = do
  profile ← build_profile host entry
  guard (holds profile.name set) duplicate
  load_profiles host entries ((profile.name, profile) ∷ set)

-- the loop over the units
unfoldable pub load_units :
    List (Bytes × List Bytes)
    → List (Bytes × UnitGrant)
    → Result LoadError (List (Bytes × UnitGrant))
unfolding holds
load_units [] set = ok set
load_units ((unit, verbs) ∷ entries) set = do
  grant ← as_error bad_unit (build_unit_grant unit verbs)
  guard (holds grant.unit set) duplicate
  load_units entries ((grant.unit, grant) ∷ set)

-- whether a mode has one of the bits 0o022
abbrev pub others_write : ℕ → Bool
others_write perm = (perm / 0o20 % 2 == 1) || (perm / 0o2 % 2 == 1)

-- `ownedByRoot`
abbrev pub owned_by_root : FileInfo → Bool
owned_by_root info = elim info.owner [ none ↦ false | some uid ↦ uid == 0 ]

-- the checks of the grant file itself
unfoldable pub check_file : Host → Bytes → Bool → Result LoadError (Unit {0})
check_file host path require_root = do
  info ← or_fail (host.lstat path) unreadable
  guard info.is_symlink is_symbolic_link
  guard (not info.is_regular) not_regular
  guard (others_write info.perm) writable_by_others
  guard (require_root && not (owned_by_root info)) not_root_owned
  ok tt

unfoldable pub load_packages : Option (Bytes × List Bytes) → Result LoadError (Option PackageGrant)
load_packages none = ok none
load_packages (some (manager, verbs)) =
    as_error bad_packages (build_package_grant manager verbs) >>= λ g. ok (some g)

unfoldable pub load_firewall : Option (Bytes × List Bytes) → Result LoadError (Option FirewallGrant)
load_firewall none = ok none
load_firewall (some (backend, verbs)) =
    as_error bad_firewall (build_firewall_grant backend verbs) >>= λ g. ok (some g)

-- whether nothing is granted
unfoldable pub grants_nothing : GrantSet → Bool
grants_nothing set =
    elim set.by_name [ [] ↦ true | e ∷ es ↦ false ]
    && (elim set.units [ [] ↦ true | e ∷ es ↦ false ]
        && (elim set.packages [ none ↦ true | some g ↦ false ]
            && elim set.firewall [ none ↦ true | some g ↦ false ]))

-- `LoadSet`
unfoldable pub load_set : Host → Bytes → Bool → Result LoadError GrantSet
unfolding check_file load_profiles load_units load_packages load_firewall grants_nothing
load_set host path require_root = do
  check_file host path require_root
  parsed ← or_fail (host.read_config path) unparsable
  by_name ← load_profiles host parsed.profiles []
  units ← load_units parsed.systemd []
  packages ← load_packages parsed.packages
  firewall ← load_firewall parsed.firewall
  let set : GrantSet = record {
    by_name = by_name;
    units = units;
    packages = packages;
    firewall = firewall;
  }
  guard (grants_nothing set) nothing_declared
  ok set

-- `Lookup`
unfoldable pub lookup_profile : GrantSet → Bytes → Result LoadError Profile
unfolding find
lookup_profile set name = or_fail (find name set.by_name) unknown_profile

-- `LookupUnit`
unfoldable pub lookup_unit : GrantSet → Bytes → Result LoadError UnitGrant
unfolding find
lookup_unit set unit = or_fail (find unit set.units) unit_not_granted
