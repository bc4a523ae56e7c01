-- ===== src/Privfs/Grants/Trust.antt =====
-- What the helper may rely on once `LoadSet` has read a grant file.
use maid_cafe.Base.{
  if◌then◌else◌, Bool-cases, All, ok, Option-cases, Result-cases, ℕ, ◌≡◌, refl, inl, inr, Bool,
  true, false, some, List, [], ◌∷◌, arith,
}
use maid_cafe.Base.Text.{Bytes}
use maid_cafe.Privfs.Mode.{parse_mode, mode_mem, allowed_mode}
use maid_cafe.Privfs.Mode.Laws.{parse_mode_safe}
use maid_cafe.Privfs.Units.{UnitGrant, valid_unit, build_unit_grant}
use maid_cafe.Privfs.Files.{Profile}
use maid_cafe.Privfs.Grants.{
  Host, FileInfo, ProfileEntry, GrantSet, collect_modes, build_profile, load_profiles, load_units,
  load_set, check_file, holds, valid_profile_name, others_write, grants_nothing,
}

-- A profile that the helper may write into: its name matches the pattern, its path is a directory
-- that the resolution of a path gave, and all its modes are permitted.
pub record IsProfile (host : Host) (name : Bytes) (p : Profile) : Type 0 where
  pub named : p.name ≡ name
  pub valid : valid_profile_name name ≡ true
  pub directory : host.stat_is_dir p.path ≡ some true
  pub modes : All (λ m. allowed_mode m ≡ true) p.modes

collect_modes-allowed :
    (raws : List Bytes) (allowed modes : List ℕ)
    → collect_modes raws allowed ≡ ok modes
    → All (λ m. allowed_mode m ≡ true) allowed
    → All (λ m. allowed_mode m ≡ true) modes
unfolding collect_modes
collect_modes-allowed [] allowed modes h all = let e : modes ≡ allowed = cc in rw e all
collect_modes-allowed (raw ∷ raws) allowed modes h all = elim (Result-cases (parse_mode raw)) [
  | inr (e, r) ↦ cc (rw (r, collect_modes) at h)
  | inl (m, r) ↦
      let more = if mode_mem m allowed then allowed else m ∷ allowed in
      let permitted = (parse_mode_safe raw m r).0 in
      let all' : All (λ k. allowed_mode k ≡ true) more = elim (Bool-cases (mode_mem m allowed)) [
        | inl there ↦ rw there all
        | inr new ↦ rw new (permitted, all)
      ] in
      collect_modes-allowed raws more modes (rw (r, collect_modes) at h) all'
]

build_profile-IsProfile :
    (host : Host) (entry : ProfileEntry) (p : Profile)
    → build_profile host entry ≡ ok p
    → IsProfile host p.name p
unfolding build_profile
build_profile-IsProfile host entry p h = record {
  named = refl;
  valid = ground arith;
  directory = ground arith;
  modes = collect_modes-allowed entry.modes [] p.modes (ground arith) tt;
}

-- no key of a table comes twice
pub OneEach : {A : Type 0} → List (Bytes × A) → Type 0
OneEach [] = Unit
OneEach ((k, a) ∷ m) = (holds k m ≡ false) × OneEach m

load_profiles_sound :
    (host : Host) (entries : List ProfileEntry) (set out : List (Bytes × Profile))
    → load_profiles host entries set ≡ ok out
    → All (λ e. IsProfile host e.0 e.1) set
    → OneEach set
    → All (λ e. IsProfile host e.0 e.1) out × OneEach out
unfolding load_profiles OneEach
load_profiles_sound host [] set out h all one = let e : out ≡ set = cc in rw e (all, one)
load_profiles_sound host (entry ∷ entries) set out h all one =
    elim (Result-cases (build_profile host entry)) [
      | inr (e, r) ↦ cc (rw (r, load_profiles) at h)
      | inl (p, r) ↦ elim (Bool-cases (holds p.name set)) [
        | inl twice ↦ cc (rw (r, twice, load_profiles) at h)
        | inr new ↦
            load_profiles_sound host entries ((p.name, p) ∷ set) out
              (rw (r, new, load_profiles) at h) (build_profile-IsProfile host entry p r, all)
              (new, one)
      ]
    ]

-- A unit that the helper may act on: its name matches the pattern, and it is the key of its grant.
pub record IsUnit (key : Bytes) (g : UnitGrant) : Type 0 where
  pub named : g.unit ≡ key
  pub valid : valid_unit key ≡ true

build_unit_grant_named :
    (unit : Bytes) (verbs : List Bytes) (g : UnitGrant)
    → build_unit_grant unit verbs ≡ ok g
    → IsUnit g.unit g
unfolding build_unit_grant
build_unit_grant_named unit verbs g h = record { named = refl; valid = ground arith }

load_units_sound :
    (entries : List (Bytes × List Bytes)) (set out : List (Bytes × UnitGrant))
    → load_units entries set ≡ ok out
    → All (λ e. IsUnit e.0 e.1) set
    → OneEach set
    → All (λ e. IsUnit e.0 e.1) out × OneEach out
unfolding load_units OneEach
load_units_sound [] set out h all one = let e : out ≡ set = cc in rw e (all, one)
load_units_sound ((unit, verbs) ∷ entries) set out h all one =
    elim (Result-cases (build_unit_grant unit verbs)) [
      | inr (e, r) ↦ cc (rw (r, load_units) at h)
      | inl (g, r) ↦ elim (Bool-cases (holds g.unit set)) [
        | inl twice ↦ cc (rw (r, twice, load_units) at h)
        | inr new ↦
            load_units_sound entries ((g.unit, g) ∷ set) out (rw (r, new, load_units) at h)
              (build_unit_grant_named unit verbs g r, all) (new, one)
      ]
    ]

-- The grant file is a regular file, no link, that only its owner may write, and root's where that
-- is asked for.
pub record IsGuarded (require_root : Bool) (info : FileInfo) : Type 0 where
  pub no_link : info.is_symlink ≡ false
  pub regular : info.is_regular ≡ true
  pub guarded : others_write info.perm ≡ false
  pub root : require_root ≡ true → info.owner ≡ some 0

check_file-IsGuarded :
    (host : Host) (path : Bytes) (require_root : Bool)
    → check_file host path require_root ≡ ok tt
    → (info : FileInfo) × (host.lstat path ≡ some info) × IsGuarded require_root info
unfolding check_file
check_file-IsGuarded host path require_root h = elim (Option-cases (host.lstat path)) [
  | inl absent ↦ cc (rw (absent, check_file) at h)
  | inr (info, there) ↦
      let h' = rw (there, check_file) at h in
      (
        info,
        there,
        record {
          no_link = ground arith;
          regular = ground arith;
          guarded = ground arith;
          root = λ asked. ground arith;
        },
      )
]

-- A set that `LoadSet` returns comes from a guarded file; each profile and unit in it is as the
-- helper relies on, no name of either comes twice, and something is granted.
pub load_set_sound :
    (host : Host) (path : Bytes) (require_root : Bool) (set : GrantSet)
    → load_set host path require_root ≡ ok set
    → ((info : FileInfo) × (host.lstat path ≡ some info) × IsGuarded require_root info)
      × (All (λ e. IsProfile host e.0 e.1) set.by_name × OneEach set.by_name)
      × (All (λ e. IsUnit e.0 e.1) set.units × OneEach set.units)
      × (grants_nothing set ≡ false)
unfolding load_set OneEach
load_set_sound host path require_root set h = elim (Option-cases (host.read_config path)) [
  | inl absent ↦ absurd (ground arith)
  | inr (parsed, there) ↦ (
    check_file-IsGuarded host path require_root (ground arith),
    load_profiles_sound host parsed.profiles [] set.by_name (ground arith) tt tt,
    load_units_sound parsed.systemd [] set.units (ground arith) tt tt,
    ground arith,
  )
]
