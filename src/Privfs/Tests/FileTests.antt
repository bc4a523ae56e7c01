-- ===== src/Privfs/Tests/FileTests.antt =====
-- The file operations of internal/privfs/privfs.go on a small tree.
use maid_cafe.Base.{if◌then◌else◌, ok, err, ◌≡◌, refl, ◌⊎◌, inl, true, false, none, some, [], ◌∷◌}
use maid_cafe.Base.Text.{Bytes, codes, str_eq, contains_byte, cut_last}
use maid_cafe.Privfs.Mode.{allowed_mode, mode_mem, check_mode}
use maid_cafe.Base.Filepath.{is_abs, clean}
use maid_cafe.Privfs.Path.{safe_rel}
use maid_cafe.Privfs.Files.{
  Profile, Fs, Os, file, directory, put, write_file, mkdir, remove_file, io_failure, temp_path,
  FileError, is_there, is_dir, alter,
}
use maid_cafe.Privfs.Files.Writes.{write_file_err, write_file_ok, remove_file_cases}
use maid_cafe.Privfs.Files.Directories.{mkdir-file, mkdir_ok}

abbrev fine : Os
fine = record {
  open_root_fails = false;
  lstat_fails = false;
  open_fails = false;
  write_fails = false;
  chmod_fails = false;
  sync_fails = false;
  close_fails = false;
  rename_fails = false;
  remove_fails = false;
  mkdir_fails = λ dir. false;
  written = 0;
  masked = λ mode. mode;
}

-- the disk is full after three bytes
abbrev full : Os
full = record fine { write_fails = true; written = 3 }

abbrev site : Profile
site = record { name = codes "site"; path = codes "/srv/site"; modes = 0o644 ∷ 0o755 ∷ [] }

abbrev tree : Fs
tree =
    put (codes "conf") (some (directory 0o755))
      (put (codes "conf/a") (some (file 0o644 (codes "old"))) (λ p. none))

write_file_err_example :
    (write_file full site (codes ".t") (codes "conf//a") 0o644 (codes "new text") tree).0
      (codes "conf/a")
    ≡ some (file 0o644 (codes "old"))
unfolding write_file safe_rel str_eq contains_byte is_abs clean check_mode allowed_mode cut_last
write_file_err_example =
    write_file_err full site (codes ".t") (codes "conf//a") 0o644 (codes "new text") tree io_failure
      (codes "conf/a") refl (inl refl)

write_file_ok_example :
    (clean : Bytes) × (safe_rel (codes "conf//a") ≡ ok clean)
    × (allowed_mode 0o644 ≡ true)
    × (mode_mem 0o644 site.modes ≡ true)
    × ((p : Bytes)
        → (write_file fine site (codes ".t") (codes "conf//a") 0o644 (codes "new") tree).0 p ≡ (
            if str_eq clean p
            then some (file 0o644 (codes "new"))
            else if str_eq (temp_path clean (codes ".t")) p
            then none
            else tree p))
unfolding write_file safe_rel str_eq contains_byte is_abs clean check_mode allowed_mode cut_last
    alter
write_file_ok_example =
    write_file_ok fine site (codes ".t") (codes "conf//a") 0o644 (codes "new") tree refl

remove_file_cases_example :
    ((e : FileError) × (remove_file fine (codes "conf") tree ≡ (tree, err e)))
    ⊎ ((clean : Bytes) × (safe_rel (codes "conf") ≡ ok clean)
        × (is_there (tree clean) ≡ true)
        × (is_dir (tree clean) ≡ false)
        × (remove_file fine (codes "conf") tree ≡ (put clean none tree, ok tt)))
remove_file_cases_example = remove_file_cases fine (codes "conf") tree

mkdir-file_example :
    (mkdir fine site (codes "conf/a") 0o755 tree).0 (codes "conf/a")
    ≡ some (file 0o644 (codes "old"))
unfolding str_eq
mkdir-file_example =
    mkdir-file fine site (codes "conf/a") 0o755 tree (codes "conf/a") 0o644 (codes "old") refl

mkdir_ok_example :
    (clean : Bytes) × (safe_rel (codes "x/y") ≡ ok clean)
    × (allowed_mode 0o755 ≡ true)
    × (mode_mem 0o755 site.modes ≡ true)
    × ((mkdir fine site (codes "x/y") 0o755 tree).0 clean ≡ some (directory 0o755))
unfolding mkdir safe_rel str_eq contains_byte is_abs clean check_mode allowed_mode
mkdir_ok_example = mkdir_ok fine site (codes "x/y") 0o755 tree refl
