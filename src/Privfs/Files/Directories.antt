-- ===== src/Privfs/Files/Directories.antt =====
-- What `Mkdir` leaves behind.
use maid_cafe.Base.{
  if◌then◌else◌, All, Among, ok, Result-cases, ℕ, ◌≡◌, refl, ap, ◌≢◌, inl, inr, true, false, some,
  List, [], ◌∷◌, ◌++◌, append_assoc, arith,
}
use maid_cafe.Privfs.Mode.{allowed_mode, mode_mem}
use mathlib.Core.Path.{subst}
use maid_cafe.Base.Text.{Bytes, codes, str_eq_iff, str_eq, str_eq_refl, split, join}
use maid_cafe.Base.Filepath.Elements.{Proper}
use maid_cafe.Base.Filepath.Rooted.{split-join}
use maid_cafe.Privfs.Path.{safe_rel}
use maid_cafe.Privfs.Path.Confined.{safe_rel-Proper}
use maid_cafe.Privfs.Files.Writes.{check_request_ok}
use maid_cafe.Privfs.Files.{
  file, directory, Fs, Os, put, is_dir, is_there, mkdir_all, chmod, mkdir, Profile, alter, set_mode,
  check_request, prefixes,
}

mkdir_all-file :
    (os : Os) (mode : ℕ) (dirs : List Bytes) (fs : Fs) (p : Bytes) (m : ℕ) (content : Bytes)
    → fs p ≡ some (file m content)
    → (mkdir_all os mode dirs fs).0 p ≡ some (file m content)
unfolding mkdir_all is_there is_dir
mkdir_all-file os mode [] fs p m content h = h
mkdir_all-file os mode (dir ∷ dirs) fs p m content h =
    let made = put dir (some (directory (os.masked mode))) fs in
    ground (
      arith,
      mkdir_all-file os mode dirs fs p m content,
      mkdir_all-file os mode dirs made p m content,
      str_eq_iff dir p,
    )

-- a directory that is there stays one
mkdir_all-directory :
    (os : Os) (mode : ℕ) (dirs : List Bytes) (fs : Fs) (p : Bytes)
    → is_dir (fs p) ≡ true
    → is_dir ((mkdir_all os mode dirs fs).0 p) ≡ true
unfolding mkdir_all is_there is_dir
mkdir_all-directory os mode [] fs p h = h
mkdir_all-directory os mode (dir ∷ dirs) fs p h =
    let made = put dir (some (directory (os.masked mode))) fs in
    ground (
      arith,
      mkdir_all-directory os mode dirs fs p,
      mkdir_all-directory os mode dirs made p,
      str_eq_iff dir p,
    )

-- where `MkdirAll` succeeds, each of its paths is a directory
mkdir_all_ok :
    (os : Os) (mode : ℕ) (dirs : List Bytes) (fs : Fs) (p : Bytes)
    → (mkdir_all os mode dirs fs).1 ≡ ok tt
    → Among p dirs
    → is_dir ((mkdir_all os mode dirs fs).0 p) ≡ true
unfolding mkdir_all is_there is_dir
mkdir_all_ok os mode [] fs p h among = absurd among
mkdir_all_ok os mode (dir ∷ dirs) fs p h (inl here) =
    let made = put dir (some (directory (os.masked mode))) fs in
    rw here (
      ground (
        arith,
        mkdir_all-directory os mode dirs fs dir,
        mkdir_all-directory os mode dirs made dir,
        str_eq_refl dir,
      ))
mkdir_all_ok os mode (dir ∷ dirs) fs p h (inr later) =
    let made = put dir (some (directory (os.masked mode))) fs in
    ground (arith, mkdir_all_ok os mode dirs fs p, mkdir_all_ok os mode dirs made p, later)

chmod-file :
    (os : Os) (path : Bytes) (mode : ℕ) (fs : Fs) (p : Bytes) (m : ℕ) (content : Bytes)
    → is_dir (fs path) ≡ true
    → fs p ≡ some (file m content)
    → (chmod os path mode fs).0 p ≡ some (file m content)
unfolding chmod is_dir is_there alter set_mode
chmod-file os path mode fs p m content dir h = ground (arith, str_eq_iff path p)

chmod-directory :
    (os : Os) (path : Bytes) (mode : ℕ) (fs : Fs)
    → is_dir (fs path) ≡ true
    → (chmod os path mode fs).1 ≡ ok tt
    → (chmod os path mode fs).0 path ≡ some (directory mode)
unfolding chmod is_dir is_there alter set_mode
chmod-directory os path mode fs dir h = ground (arith, str_eq_refl path)

-- a path below another, which may be the start
abbrev below : Bytes → Bytes → Bytes
below above s = if str_eq above [] then s else above ++ (b'/' ∷ s)

below-filled : (above name : Bytes) → str_eq name [] ≡ false → str_eq (below above name) [] ≡ false
unfolding str_eq
below-filled [] name h = h
below-filled (c ∷ above) name h = refl

below-below :
    (above name rest : Bytes)
    → str_eq name [] ≡ false
    → below (below above name) rest ≡ below above (name ++ (b'/' ∷ rest))
unfolding str_eq
below-below [] name rest h = rw h refl
below-below (c ∷ above) name rest h =
    ap (λ (s : Bytes). c ∷ s) (append_assoc above (b'/' ∷ name) (b'/' ∷ rest))

-- the last of the paths that `MkdirAll` goes through is the whole
prefixes-whole :
    (above name : Bytes) (names : List Bytes)
    → All Proper (name ∷ names)
    → Among (below above (join (codes "/") (name ∷ names))) (prefixes above (name ∷ names))
unfolding prefixes join
prefixes-whole above name [] h = inl refl
prefixes-whole above name (n ∷ names) (p, h) =
    let whole = below-below above name (join (codes "/") (n ∷ names)) p.nonempty in
    let deeper = prefixes-whole (below above name) n names h in
    inr (subst (λ x. Among x (prefixes (below above name) (n ∷ names))) whole deeper)

-- the path that `safeRel` returns is the last of them
safe_rel-prefixes :
    (rel clean : Bytes) → safe_rel rel ≡ ok clean → Among clean (prefixes [] (split b'/' clean))
unfolding str_eq
safe_rel-prefixes rel clean safe =
    let (names, some_name, proper, text) = safe_rel-Proper rel clean safe in
    go names some_name proper text
  where
    go :
        (names : List Bytes)
        → names ≢ []
        → All Proper names
        → clean ≡ join (codes "/") names
        → Among clean (prefixes [] (split b'/' clean))
    go [] some_name proper text = absurd (some_name refl)
    go (name ∷ names) some_name proper text =
        rw (text, split-join name names proper) (prefixes-whole [] name names proper)

module _ (os : Os) (profile : Profile) (rel : Bytes) (mode : ℕ) (fs : Fs) where
  -- where `MkdirAll` succeeds, the path that was asked for is a directory
  made_directory :
      (clean : Bytes)
      → safe_rel rel ≡ ok clean
      → (mkdir_all os mode (prefixes [] (split b'/' clean)) fs).1 ≡ ok tt
      → is_dir ((mkdir_all os mode (prefixes [] (split b'/' clean)) fs).0 clean) ≡ true
  made_directory clean safe made =
      mkdir_all_ok os mode (prefixes [] (split b'/' clean)) fs clean made
        (safe_rel-prefixes rel clean safe)

  -- `Mkdir` leaves every file as it is, whether it succeeds or not.
  pub mkdir-file :
      (p : Bytes) (m : ℕ) (content : Bytes)
      → fs p ≡ some (file m content)
      → (mkdir os profile rel mode fs).0 p ≡ some (file m content)
  unfolding mkdir
  mkdir-file p m content h = elim (Result-cases (check_request profile rel mode)) [
    | inr (e, r) ↦ rw (r, mkdir) h
    | inl (clean, r) ↦
        let safe = (check_request_ok profile rel mode clean r).0 in
        let kept = mkdir_all-file os mode (prefixes [] (split b'/' clean)) fs p m content h in
        rw (r, mkdir)
          (ground (
            arith,
            made_directory clean safe,
            chmod-file os clean mode (mkdir_all os mode (prefixes [] (split b'/' clean)) fs).0 p m
                content,
          ))
  ]

-- Where `Mkdir` succeeds, the path that `safeRel` returns is a directory with the mode asked for, and
-- the mode is permitted and granted by the profile.
pub mkdir_ok :
    (os : Os) (profile : Profile) (rel : Bytes) (mode : ℕ) (fs : Fs)
    → (mkdir os profile rel mode fs).1 ≡ ok tt
    → (clean : Bytes) × (safe_rel rel ≡ ok clean)
      × (allowed_mode mode ≡ true)
      × (mode_mem mode profile.modes ≡ true)
      × ((mkdir os profile rel mode fs).0 clean ≡ some (directory mode))
unfolding mkdir
mkdir_ok os profile rel mode fs h = elim (Result-cases (check_request profile rel mode)) [
  | inr (e, r) ↦ cc (rw (r, mkdir) at h)
  | inl (clean, r) ↦
      let (safe, allowed, granted) = check_request_ok profile rel mode clean r in
      let h' = rw (r, mkdir) at h in
      (
        clean,
        safe,
        allowed,
        granted,
        rw (r, mkdir)
            (ground (
              arith,
              made_directory os profile rel mode fs clean safe,
              chmod-directory os clean mode
                  (mkdir_all os mode (prefixes [] (split b'/' clean)) fs).0,
            )),
      )
]
