-- ===== src/Privfs/Files.antt =====
-- The file operations of internal/privfs/privfs.go: `Write`, `Mkdir` and `Remove` inside a profile's
-- directory. The tree below that directory is a function from clean relative paths, without
-- symbolic links; `Os` says which of the system calls fail.
pub mod Writes
pub mod Directories
use maid_cafe.Base.{
  map_err, ltb, leb, ◌==◌, if◌then◌else◌, ltb→lt, leb→le, ==_iff, Bool-cases, &&_split, length,
  get_elem?, take, drop, All, filter, length-append, length-drop, drop-append, drop-drop,
  take-append-drop, All-append, Result, ok, err, ◌>>=◌, ◌>>◌, guard, Option-cases, Result-cases, ℕ,
  zero, suc, ◌+◌, ◌-◌, ◌*◌, ◌/◌, ◌%◌, ◌^◌, ◌≤◌, ◌<◌, ◌≡◌, refl, sym, ap, ◌∙◌, ◌≢◌, ◌↔◌, ◌⊎◌, inl,
  inr, Bool, true, false, not, ◌&&◌, ◌||◌, Option, none, some, List, [], ◌∷◌, ◌++◌, map, append-nil,
  append_assoc, arith,
}
use maid_cafe.Base.Text.{Bytes, codes, str_eq, cut_last, split, join}
use maid_cafe.Privfs.Mode.{ModeError, check_mode}
use maid_cafe.Privfs.Path.{PathError, safe_rel}

-- `Profile`
pub record Profile : Type 0 where
  pub name : Bytes
  pub path : Bytes
  pub modes : List ℕ

pub data FileError : Type 0 where
  bad_path : PathError → FileError
  bad_mode : ModeError → FileError
  too_large is_directory missing io_failure : FileError

pub data Node : Type 0 where
  file : ℕ → Bytes → Node
  directory : ℕ → Node

abbrev pub Fs : Type 0
Fs = Bytes → Option Node

-- What the system does in one call of the helper: which of its calls fail, how much of the content
-- a failing write leaves, and what the umask makes of a mode.
pub record Os : Type 0 where
  pub open_root_fails : Bool
  pub lstat_fails : Bool
  pub open_fails : Bool
  pub write_fails : Bool
  pub chmod_fails : Bool
  pub sync_fails : Bool
  pub close_fails : Bool
  pub rename_fails : Bool
  pub remove_fails : Bool
  pub mkdir_fails : Bytes → Bool
  pub written : ℕ
  pub masked : ℕ → ℕ

-- `MaxContentBytes`
abbrev pub max_content_bytes : ℕ
max_content_bytes = 4 * 2 ^ 20

abbrev pub put : Bytes → Option Node → Fs → Fs
put path node fs = λ p. if str_eq path p then node else fs p

unfoldable pub is_dir : Option Node → Bool
is_dir none = false
is_dir (some (file mode content)) = false
is_dir (some (directory mode)) = true

unfoldable pub is_there : Option Node → Bool
is_there none = false
is_there (some node) = true

-- the checks that come before the tree is opened
unfoldable pub check_request : Profile → Bytes → ℕ → Result FileError Bytes
unfolding map_err
check_request profile rel mode = do
  clean ← map_err bad_path (safe_rel rel)
  map_err bad_mode (check_mode profile.modes mode)
  ok clean

-- `filepath.Join(filepath.Dir(rel), name)`, for a clean relative path
unfoldable pub temp_path : Bytes → Bytes → Bytes
temp_path rel name = elim (cut_last b'/' rel) [
  | none ↦ name
  | some (dir, base) ↦ dir ++ (b'/' ∷ name)
]

-- `root.Remove(temp)`, whose error is dropped
unfoldable pub discard : Os → Bytes → Fs → Fs
discard os temp fs p = if os.remove_fails then fs p else put temp none fs p

-- what a call of the system leaves, and whether it failed
abbrev pub Outcome : Type 0
Outcome = Fs × Result FileError (Unit {0})

-- `root.OpenFile` with O_CREATE and O_EXCL: a new and empty file
unfoldable pub create_file : Os → Bytes → ℕ → Fs → Outcome
unfolding is_there
create_file os temp mode fs =
    if os.open_fails || is_there (fs temp)
    then (fs, err io_failure)
    else (put temp (some (file (os.masked mode) [])) fs, ok tt)

-- a change of what is at a path
unfoldable pub alter : (Node → Node) → Option Node → Option Node
alter f none = none
alter f (some node) = some (f node)

-- a file's content is appended to; a directory has none
unfoldable pub append_content : Bytes → Node → Node
append_content bytes (file mode content) = file mode (content ++ bytes)
append_content bytes (directory mode) = directory mode

-- `file.Write`: one that fails leaves some of the content
unfoldable pub write_all : Os → Bytes → Bytes → Fs → Outcome
unfolding append_content
write_all os path content fs =
    if os.write_fails
    then (put path (alter (append_content (take os.written content)) (fs path)) fs, err io_failure)
    else (put path (alter (append_content content) (fs path)) fs, ok tt)

unfoldable pub set_mode : ℕ → Node → Node
set_mode mode (file old content) = file mode content
set_mode mode (directory old) = directory mode

-- `Chmod` of whatever is at a path
unfoldable pub chmod : Os → Bytes → ℕ → Fs → Outcome
unfolding set_mode is_there
chmod os path mode fs =
    if os.chmod_fails || not (is_there (fs path))
    then (fs, err io_failure)
    else (put path (alter (set_mode mode) (fs path)) fs, ok tt)

-- `root.Rename`, which does not put a file in a directory's place
unfoldable pub rename : Os → Bytes → Bytes → Fs → Outcome
unfolding is_dir is_there
rename os temp rel fs =
    if os.rename_fails || (is_dir (fs rel) || not (is_there (fs temp)))
    then (fs, err io_failure)
    else (put rel (fs temp) (put temp none fs), ok tt)

-- a call that may fail without a change
unfoldable pub may_fail : Bool → Fs → Outcome
may_fail fails fs = (fs, (if fails then err io_failure else ok tt))

-- the rest of `Write` if a call succeeds; if it fails, the temporary file is removed
unfoldable pub or_discard : Os → Bytes → Outcome → (Fs → Outcome) → Outcome
unfolding discard
or_discard os temp (fs, err e) rest = (discard os temp fs, err e)
or_discard os temp (fs, ok u) rest = rest fs

-- `Write` from the writing of the content to the renaming
unfoldable pub fill_and_rename : Os → Bytes → Bytes → ℕ → Bytes → Fs → Outcome
unfolding or_discard write_all chmod may_fail rename
fill_and_rename os temp rel mode content fs =
    or_discard os temp (write_all os temp content fs) λ written.
      or_discard os temp (chmod os temp mode written) λ moded.
        or_discard os temp (may_fail os.sync_fails moded) λ synced.
          or_discard os temp (may_fail os.close_fails synced)
            λ closed. or_discard os temp (rename os temp rel closed) λ renamed. (renamed, ok tt)

-- from the creation of the temporary file to its renaming
unfoldable pub place : Os → Bytes → Bytes → ℕ → Bytes → Fs → Outcome
unfolding create_file fill_and_rename
place os temp rel mode content fs =
    let (fs', created) = create_file os temp mode fs in
    elim created [ err e ↦ (fs', err e) | ok u ↦ fill_and_rename os temp rel mode content fs' ]

-- `Write`, with the temporary name that `tempName` makes
unfoldable pub write_file :
    Os → Profile → Bytes → Bytes → ℕ → Bytes → Fs → Fs × Result FileError (Unit {0})
unfolding check_request temp_path place is_dir
write_file os profile temp_name rel mode content fs = elim (check_request profile rel mode) [
  | err e ↦ (fs, err e)
  | ok clean ↦
      if ltb max_content_bytes (length content)
      then (fs, err too_large)
      else if os.open_root_fails
      then (fs, err io_failure)
      else if not os.lstat_fails && is_dir (fs clean)
      then (fs, err is_directory)
      else place os (temp_path clean temp_name) clean mode content fs
]

-- `root.MkdirAll`, on the directories from the top down
unfoldable pub mkdir_all : Os → ℕ → List Bytes → Fs → Fs × Result FileError (Unit {0})
unfolding is_dir is_there
mkdir_all os mode [] fs = (fs, ok tt)
mkdir_all os mode (dir ∷ dirs) fs =
    let made = mkdir_all os mode dirs (put dir (some (directory (os.masked mode))) fs) in
    let found = mkdir_all os mode dirs fs in
    if is_there (fs dir)
    then (if is_dir (fs dir) then found else (fs, err io_failure))
    else if os.mkdir_fails dir
    then (fs, err io_failure)
    else made

-- the directories that a clean relative path goes through, itself at the end
unfoldable pub prefixes : Bytes → List Bytes → List Bytes
prefixes above [] = []
prefixes above (name ∷ names) =
    let dir = if str_eq above [] then name else above ++ (b'/' ∷ name) in dir ∷ prefixes dir names

-- `Mkdir`
unfoldable pub mkdir : Os → Profile → Bytes → ℕ → Fs → Fs × Result FileError (Unit {0})
unfolding check_request mkdir_all prefixes chmod
mkdir os profile rel mode fs = elim (check_request profile rel mode) [
  | err e ↦ (fs, err e)
  | ok clean ↦
      if os.open_root_fails
      then (fs, err io_failure)
      else let (fs', made) = mkdir_all os mode (prefixes [] (split b'/' clean)) fs in
        elim made [ err e ↦ (fs', err e) | ok u ↦ chmod os clean mode fs' ]
]

-- `Remove`
unfoldable pub remove_file : Os → Bytes → Fs → Fs × Result FileError (Unit {0})
unfolding is_dir is_there
remove_file os rel fs = elim (safe_rel rel) [
  | err e ↦ (fs, err (bad_path e))
  | ok clean ↦
      if os.open_root_fails
      then (fs, err io_failure)
      else if os.lstat_fails || not (is_there (fs clean))
      then (fs, err missing)
      else if is_dir (fs clean)
      then (fs, err is_directory)
      else if os.remove_fails
      then (fs, err io_failure)
      else (put clean none fs, ok tt)
]
