-- ===== src/Privfs/Units/Laws.antt =====
-- What a [[systemd]] entry authorizes, and the command that results.
use maid_cafe.Base.{
  ok, ◌≡◌, arith, true, false, ◌||◌, List, [], ◌∷◌, ◌++◌, Option-cases, Result-cases, inl, inr,
  Option, Option,
}
use maid_cafe.Base.Text.{Bytes, codes, mem, has_prefix, str_eq_iff, strip_suffix, strip_suffix_lem}
use maid_cafe.Privfs.Units.{
  UnitGrant, valid_unit, valid_systemd_verb, build_unit_grant, collect_unit_verbs, systemd_argv,
  unit_stem, systemctl_paths, find_executable, FileStat, is_executable,
}

mem-collect_unit_verbs :
    (v : Bytes) (raws allowed verbs : List Bytes)
    → collect_unit_verbs raws allowed ≡ ok verbs
    → mem v verbs ≡ (mem v raws || mem v allowed)
unfolding collect_unit_verbs mem
mem-collect_unit_verbs v [] allowed verbs h = ground arith
mem-collect_unit_verbs v (raw ∷ raws) allowed verbs h = ground (
  arith,
  mem-collect_unit_verbs v raws allowed verbs,
  mem-collect_unit_verbs v raws (raw ∷ allowed) verbs,
  str_eq_iff v raw,
)

collect_unit_verbs-valid :
    (v : Bytes) (raws allowed verbs : List Bytes)
    → collect_unit_verbs raws allowed ≡ ok verbs
    → mem v raws ≡ true
    → valid_systemd_verb v ≡ true
unfolding collect_unit_verbs mem
collect_unit_verbs-valid v [] allowed verbs h m = cc
collect_unit_verbs-valid v (raw ∷ raws) allowed verbs h m = ground (
  arith,
  collect_unit_verbs-valid v raws allowed verbs,
  collect_unit_verbs-valid v raws (raw ∷ allowed) verbs,
  str_eq_iff v raw,
)

has_prefix-stem :
    (stem rest : Bytes) → unit_stem stem ≡ true → has_prefix (stem ++ rest) (codes "-") ≡ false
unfolding unit_stem has_prefix
has_prefix-stem [] rest h = cc
has_prefix-stem (c ∷ s) rest h = ground arith

-- A unit name that the pattern accepts does not begin with a dash.
has_prefix-unit : (unit : Bytes) → valid_unit unit ≡ true → has_prefix unit (codes "-") ≡ false
unfolding valid_unit
has_prefix-unit unit h = elim (Option-cases (strip_suffix unit (codes ".service"))) [
  | inl absent ↦ cc (rw (absent, valid_unit) at h)
  | inr (stem, e) ↦
      rw (strip_suffix_lem unit (codes ".service") e)
        (has_prefix-stem stem (codes ".service") (rw (e, valid_unit) at h))
]

find_executable-mem :
    (stat : Bytes → Option FileStat) (paths : List Bytes) (path : Bytes)
    → find_executable stat paths ≡ ok path
    → (mem path paths ≡ true) × (is_executable (stat path) ≡ true)
unfolding find_executable mem
find_executable-mem stat [] path h = cc
find_executable-mem stat (p ∷ ps) path h =
    ground (arith, find_executable-mem stat ps path, str_eq_iff path p)

-- For a grant that is built, `SystemdArgv` makes a command only of a declared verb, with systemctl
-- under one of its fixed paths, and with the declared unit as the operand, which does not begin
-- with a dash.
pub systemd_argv_sound :
    (stat : Bytes → Option FileStat) (unit : Bytes) (verbs : List Bytes) (g : UnitGrant)
    (verb : Bytes) (argv : List Bytes)
    → build_unit_grant unit verbs ≡ ok g
    → systemd_argv stat g verb ≡ ok argv
    → (mem verb verbs ≡ true)
      × (has_prefix unit (codes "-") ≡ false)
      × (path : Bytes) × (mem path systemctl_paths ≡ true)
      × (is_executable (stat path) ≡ true)
      × (argv
          ≡ path ∷ codes "--no-ask-password" ∷ codes "--no-pager" ∷ verb ∷ codes "--" ∷ unit ∷ [])
unfolding build_unit_grant systemd_argv mem
systemd_argv_sound stat unit verbs g verb argv hb ha =
    elim (Result-cases (find_executable stat systemctl_paths)) [
      | inr (e, none_found) ↦ cc (rw none_found at ha)
      | inl (path, found) ↦
          let ha' = rw found at ha in
          (
            ground (arith, mem-collect_unit_verbs verb verbs [] g.verbs),
            ground (arith, has_prefix-unit unit),
            path,
            (find_executable-mem stat systemctl_paths path found).0,
            (find_executable-mem stat systemctl_paths path found).1,
            ground arith,
          )
    ]
