-- ===== src/Privfs/Files/Writes.antt =====
-- What `Write` and `Remove` leave behind, whichever system call fails.
use maid_cafe.Base.{
  map_err, refl, if◌then◌else◌, ok, err, ℕ, ◌≡◌, ◌⊎◌, false, none, some, arith, true, Result-cases,
  inr, inl, Bool-cases, ◌||◌, not,
}
use maid_cafe.Base.Text.{str_eq_refl, Bytes, str_eq, str_eq_iff}
use maid_cafe.Privfs.Mode.{check_mode, allowed_mode, mode_mem}
use maid_cafe.Privfs.Files.{
  FileError, file, Fs, Os, place, discard, create_file, fill_and_rename, or_discard, write_all,
  chmod, may_fail, rename, alter, append_content, set_mode, is_there, check_request, write_file,
  remove_file, Profile, safe_rel, temp_path, is_dir, put, bad_path, io_failure, missing,
  is_directory,
}

place_err :
    (os : Os) (temp rel : Bytes) (mode : ℕ) (content : Bytes) (fs : Fs) (e : FileError) (p : Bytes)
    → (place os temp rel mode content fs).1 ≡ err e
    → (os.remove_fails ≡ false) ⊎ (str_eq temp p ≡ false)
    → (place os temp rel mode content fs).0 p ≡ fs p
unfolding place create_file fill_and_rename or_discard write_all chmod may_fail rename discard
    is_there alter
place_err os temp rel mode content fs e p h aside =
    ground (arith, str_eq_iff temp p, str_eq_refl temp)

place_ok :
    (os : Os) (temp rel : Bytes) (mode : ℕ) (content : Bytes) (fs : Fs) (p : Bytes)
    → (place os temp rel mode content fs).1 ≡ ok tt
    → (place os temp rel mode content fs).0 p
      ≡ (if str_eq rel p then some (file mode content) else if str_eq temp p then none else fs p)
unfolding place create_file fill_and_rename or_discard write_all chmod may_fail rename discard
    is_there alter append_content set_mode
place_ok os temp rel mode content fs p h = ground (arith, str_eq_refl temp)

pub check_request_ok :
    (profile : Profile) (rel : Bytes) (mode : ℕ) (clean : Bytes)
    → check_request profile rel mode ≡ ok clean
    → (safe_rel rel ≡ ok clean) × (allowed_mode mode ≡ true) × (mode_mem mode profile.modes ≡ true)
unfolding check_request map_err check_mode
check_request_ok profile rel mode clean h = (ground arith, ground arith, ground arith)

-- A write that fails, whichever check or system call refuses it, leaves every file as it was; only
-- if the temporary file cannot be removed either, that file may stay.
pub write_file_err :
    (os : Os) (profile : Profile) (temp_name rel : Bytes) (mode : ℕ) (content : Bytes) (fs : Fs)
    (e : FileError) (p : Bytes)
    → (write_file os profile temp_name rel mode content fs).1 ≡ err e
    → (os.remove_fails ≡ false)
      ⊎ ((clean : Bytes) → safe_rel rel ≡ ok clean → str_eq (temp_path clean temp_name) p ≡ false)
    → (write_file os profile temp_name rel mode content fs).0 p ≡ fs p
unfolding write_file
write_file_err os profile temp_name rel mode content fs e p h aside =
    elim (Result-cases (check_request profile rel mode)) [
      | inr (refusal, r) ↦ rw (r, write_file) refl
      | inl (clean, r) ↦
          let safe = (check_request_ok profile rel mode clean r).0 in
          let temp = temp_path clean temp_name in
          let side : (os.remove_fails ≡ false) ⊎ (str_eq temp p ≡ false) = elim aside [
            | inl removes ↦ inl removes
            | inr other ↦ inr (other clean safe)
          ] in
          let h' = rw (r, write_file) at h in
          rw (r, write_file) (ground (arith, place_err os temp clean mode content fs e p))
    ]

-- A write that succeeds has put exactly the content, with a mode that is permitted and granted by
-- the profile, at the path that `safeRel` returns; the temporary file is gone and every other path
-- is as it was.
pub write_file_ok :
    (os : Os) (profile : Profile) (temp_name rel : Bytes) (mode : ℕ) (content : Bytes) (fs : Fs)
    → (write_file os profile temp_name rel mode content fs).1 ≡ ok tt
    → (clean : Bytes) × (safe_rel rel ≡ ok clean)
      × (allowed_mode mode ≡ true)
      × (mode_mem mode profile.modes ≡ true)
      × ((p : Bytes)
          → (write_file os profile temp_name rel mode content fs).0 p ≡ (
              if str_eq clean p
              then some (file mode content)
              else if str_eq (temp_path clean temp_name) p
              then none
              else fs p))
unfolding write_file
write_file_ok os profile temp_name rel mode content fs h =
    elim (Result-cases (check_request profile rel mode)) [
      | inr (refusal, r) ↦ cc (rw (r, write_file) at h)
      | inl (clean, r) ↦
          let (safe, allowed, granted) = check_request_ok profile rel mode clean r in
          let h' = rw (r, write_file) at h in
          (
            clean,
            safe,
            allowed,
            granted,
            λ p.
                rw (r, write_file)
                  (ground (arith, place_ok os (temp_path clean temp_name) clean mode content fs p)),
          )
    ]

removed_or_not :
    (os : Os) (rel clean : Bytes) (fs : Fs)
    → safe_rel rel ≡ ok clean
    → ((e : FileError) × (remove_file os rel fs ≡ (fs, err e)))
      ⊎ ((clean : Bytes) × (safe_rel rel ≡ ok clean)
          × (is_there (fs clean) ≡ true)
          × (is_dir (fs clean) ≡ false)
          × (remove_file os rel fs ≡ (put clean none fs, ok tt)))
unfolding remove_file
removed_or_not os rel clean fs r = elim (Bool-cases os.open_root_fails) [
  | inl shut ↦ inl (io_failure, rw (r, shut, remove_file) refl)
  | inr opened ↦ elim (Bool-cases (os.lstat_fails || not (is_there (fs clean)))) [
    | inl absent ↦ inl (missing, rw (r, opened, absent, remove_file) refl)
    | inr present ↦ elim (Bool-cases (is_dir (fs clean))) [
      | inl dir ↦ inl (is_directory, rw (r, opened, present, dir, remove_file) refl)
      | inr plain ↦ elim (Bool-cases os.remove_fails) [
        | inl stuck ↦ inl (io_failure, rw (r, opened, present, plain, stuck, remove_file) refl)
        | inr gone ↦
            inr (
              clean,
              r,
              ground arith,
              plain,
              rw (r, opened, present, plain, gone, remove_file) refl,
            )
      ]
    ]
  ]
]

-- `Remove` fails and changes nothing, or it takes away the one file at the path that `safeRel`
-- returns, which is no directory.
pub remove_file_cases :
    (os : Os) (rel : Bytes) (fs : Fs)
    → ((e : FileError) × (remove_file os rel fs ≡ (fs, err e)))
      ⊎ ((clean : Bytes) × (safe_rel rel ≡ ok clean)
          × (is_there (fs clean) ≡ true)
          × (is_dir (fs clean) ≡ false)
          × (remove_file os rel fs ≡ (put clean none fs, ok tt)))
unfolding remove_file
remove_file_cases os rel fs = elim (Result-cases (safe_rel rel)) [
  | inr (e, r) ↦ inl (bad_path e, rw (r, remove_file) refl)
  | inl (clean, r) ↦ removed_or_not os rel clean fs r
]
