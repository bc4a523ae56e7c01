-- ===== src/Privfs/Units.antt =====
-- Systemd grants of internal/privfs/privfs.go, and the lookup of the programs that the helper runs.
pub mod Laws
use maid_cafe.Base.{
  ℕ, Bool, true, false, ◌&&◌, ◌||◌, not, Option, none, some, List, [], ◌∷◌, ◌==◌, if◌then◌else◌,
  Result, ok, err, ◌>>=◌, ◌>>◌, guard, ◌%◌, ◌%◌, ◌/◌, ◌/◌,
}
use maid_cafe.Base.Text.{Bytes, codes, mem, strip_suffix, all_bytes}
use maid_cafe.Privfs.Names.{is_alnum}

pub data UnitError : Type 0 where
  bad_unit_name no_verbs verb_unknown verb_not_granted not_found : UnitError

-- `allowedSystemdVerbs`
abbrev pub allowed_systemd_verbs : List Bytes
allowed_systemd_verbs =
    codes "start"
    ∷ codes "stop"
    ∷ codes "restart"
    ∷ codes "reload"
    ∷ codes "enable"
    ∷ codes "disable"
    ∷ []

-- `validSystemdVerb`
unfoldable pub valid_systemd_verb : Bytes → Bool
valid_systemd_verb verb = mem verb allowed_systemd_verbs

-- `[A-Za-z0-9:._@]`
abbrev pub is_unit_first : ℕ → Bool
is_unit_first c = is_alnum c || (c == b':' || (c == b'.' || (c == b'_' || c == b'@')))

-- `[A-Za-z0-9:._@-]`
abbrev pub is_unit_rest : ℕ → Bool
is_unit_rest c = is_unit_first c || c == b'-'

unit_stem : Bytes → Bool
unit_stem [] = false
unit_stem (c ∷ s) = is_unit_first c && all_bytes is_unit_rest s

-- `systemdUnitPattern`: the stem in front of `.service` is one byte of the first class and any of
-- the second
unfoldable pub valid_unit : Bytes → Bool
unfolding unit_stem
valid_unit unit = elim (strip_suffix unit (codes ".service")) [
  | none ↦ false
  | some stem ↦ unit_stem stem
]

pub record UnitGrant : Type 0 where
  pub unit : Bytes
  pub verbs : List Bytes

-- the loop over the declared verbs
collect_unit_verbs : List Bytes → List Bytes → Result UnitError (List Bytes)
collect_unit_verbs [] allowed = ok allowed
collect_unit_verbs (verb ∷ rest) allowed =
    let next = collect_unit_verbs rest (if mem verb allowed then allowed else verb ∷ allowed) in
    if not (valid_systemd_verb verb) then err verb_unknown else next

-- `buildUnitGrant`
unfoldable pub build_unit_grant : Bytes → List Bytes → Result UnitError UnitGrant
unfolding collect_unit_verbs
build_unit_grant unit verbs = do
  guard (not (valid_unit unit)) bad_unit_name
  guard (elim verbs [ [] ↦ true | v ∷ vs ↦ false ]) no_verbs
  allowed ← collect_unit_verbs verbs []
  ok (record { unit = unit; verbs = allowed })

-- `CheckVerb`
unfoldable pub check_unit_verb : UnitGrant → Bytes → Result UnitError (Unit {0})
check_unit_verb g verb = do
  guard (not (valid_systemd_verb verb)) verb_unknown
  guard (not (mem verb g.verbs)) verb_not_granted
  ok tt

-- what `os.Stat` answers of a path, where there is something
pub record FileStat : Type 0 where
  pub is_directory : Bool
  pub perm : ℕ

-- `perm&0o111 != 0`
abbrev pub runs_by_someone : ℕ → Bool
runs_by_someone perm = (perm % 2 == 1) || ((perm / 8 % 2 == 1) || (perm / 64 % 2 == 1))

-- the test of a candidate in `findExecutable`
unfoldable pub is_executable : Option FileStat → Bool
is_executable none = false
is_executable (some info) = not info.is_directory && runs_by_someone info.perm

-- `findExecutable`, given what `os.Stat` answers
unfoldable pub find_executable : (Bytes → Option FileStat) → List Bytes → Result UnitError Bytes
unfolding is_executable
find_executable stat [] = err not_found
find_executable stat (candidate ∷ rest) =
    let later = find_executable stat rest in
    if is_executable (stat candidate) then ok candidate else later

-- `systemctlPaths`
abbrev pub systemctl_paths : List Bytes
systemctl_paths = codes "/usr/bin/systemctl" ∷ codes "/bin/systemctl" ∷ []

-- `systemdArgv`
unfoldable pub systemd_argv_with : UnitGrant → Bytes → Bytes → Result UnitError (List Bytes)
unfolding check_unit_verb
systemd_argv_with g systemctl verb = do
  check_unit_verb g verb
  ok (systemctl ∷ codes "--no-ask-password" ∷ codes "--no-pager" ∷ verb ∷ codes "--" ∷ g.unit ∷ [])

-- `SystemdArgv` and `FindSystemctl`
unfoldable pub systemd_argv :
    (Bytes → Option FileStat) → UnitGrant → Bytes → Result UnitError (List Bytes)
unfolding find_executable systemd_argv_with
systemd_argv stat g verb = do
  systemctl ← find_executable stat systemctl_paths
  systemd_argv_with g systemctl verb
