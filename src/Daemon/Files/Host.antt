-- ===== src/Daemon/Files/Host.antt =====
-- What the file API asks of the system, in the order in which it asks: each answer may depend on all
-- the calls before it. The errors of the system as `fileStatus` of internal/daemon/files.go tells
-- them apart.
use maid_cafe.Base.{
  if◌then◌else◌, Result, ok, err, ℕ, Bool, true, false, ◌||◌, Option, List, ◌∷◌, map_err,
}
use maid_cafe.Base.Text.{Bytes}
use maid_cafe.Daemon.Files.{
  FileActionError, no_such_file, permission_denied, already_exists, not_empty, invalid_operation,
  cross_device, escapes_roots, operation_failed,
}

-- what `errors.Is` compares an error with
pub data Sentinel : Type 0 where
  err_not_exist err_permission err_exist enotempty eexist eisdir enotdir einval exdev : Sentinel

-- an error of the system: what it is, and whether its text says that a path escapes from its parent
pub record OsError : Type 0 where
  pub is : Sentinel → Bool
  pub escapes : Bool

-- `fileStatus`
unfoldable pub file_status : OsError → FileActionError
file_status e =
    if e.is err_not_exist
    then no_such_file
    else if e.is err_permission
    then permission_denied
    else if e.is err_exist
    then already_exists
    else if e.is enotempty || e.is eexist
    then not_empty
    else if e.is eisdir || (e.is enotdir || e.is einval)
    then invalid_operation
    else if e.is exdev
    then cross_device
    else if e.escapes
    then escapes_roots
    else operation_failed

-- the bits of a mode that tell the kind of an entry
pub data FileKind : Type 0 where
  symlink directory regular other : FileKind

-- `fs.FileInfo`
pub record FileInfo : Type 0 where
  pub kind : FileKind
  pub size : ℕ
  pub perm : ℕ
  pub modified : ℕ

-- an entry of a directory as it is read: its name, and what `Info` answers
pub record DirEntry : Type 0 where
  pub name : Bytes
  pub info : Result OsError FileInfo

-- A directory as a copy finds it: it cannot be read, or its entries with what lies below them.
mutual
  pub data Tree : Type 0 where
    unreadable : OsError → Tree
    listed : Children → Tree

  pub data Children : Type 0 where
    no_more : Children
    child : DirEntry → Tree → Children → Children

-- a change of the tree below a root, on a path below it
pub data Change : Type 0 where
  writes : ℕ → Bytes → Change
  makes_directory : ℕ → Change
  makes_directories : ℕ → Change
  renames_to : Bytes → Change
  links_to : Bytes → Change
  copies_from : Bytes → ℕ → Change
  removes : Change
  removes_all : Change

-- how the helper ends: whether it failed, whether it ran out of time, its standard error, and the
-- text of the failure
pub record HelperExit : Type 0 where
  pub failed : Bool
  pub timed_out : Bool
  pub stderr : Bytes
  pub failure : Bytes

-- a call: one that only looks, below a root or at an absolute path, a change below a root, and the
-- start of a command with its standard input
pub data Call : Type 0 where
  opens_root : Bytes → Call
  looks : Bytes → Bytes → Call
  looks_at : Bytes → Call
  changes : Change → Bytes → Bytes → Call
  starts : List Bytes → Bytes → Call

-- The system. The first argument of each answer is the calls before it, the newest first. Reading a
-- file answers the bytes that were there, at most as many as asked for.
pub record Host : Type 0 where
  pub opens : List Call → Bytes → Bool
  pub stat : List Call → Bytes → Bytes → Result OsError FileInfo
  pub lstat : List Call → Bytes → Bytes → Result OsError FileInfo
  pub stat_at : List Call → Bytes → Result OsError FileInfo
  pub read_link : List Call → Bytes → Bytes → Result OsError Bytes
  pub open_file : List Call → Bytes → Bytes → Result OsError FileInfo
  pub seek : List Call → Bytes → Bytes → ℕ → Result OsError (Unit {0})
  pub read_at : List Call → Bytes → Bytes → ℕ → ℕ → Result OsError Bytes
  pub open_dir : List Call → Bytes → Bytes → Result OsError (Unit {0})
  pub read_dir : List Call → Bytes → Bytes → ℕ → ℕ → Result OsError (List DirEntry)
  pub change : List Call → Change → Bytes → Bytes → Result OsError (Unit {0})
  -- what `newPrivRunner` found: the prefix that reaches root, if there is a way to
  pub sudo : Option (List Bytes)
  pub start : List Call → List Bytes → Bytes → HelperExit
  -- what the tree below a path held when it was read, for a copy of it
  pub read_tree : List Call → Bytes → Bytes → Tree

-- a computation that asks the system and may fail
abbrev pub Io : Type 0 → Type 0 → Type 0
Io E A = List Call → Result E A × List Call

unfoldable pub pure : {E A : Type 0} → A → Io E A
pure a calls = (ok a, calls)

unfoldable pub fail : {E A : Type 0} → E → Io E A
fail e calls = (err e, calls)

unfoldable pub lift : {E A : Type 0} → Result E A → Io E A
lift r calls = (r, calls)

unfoldable pub after :
    {E A B : Type 0} → (A → Io E B) → Result E A × List Call → Result E B × List Call
after f (ok a, calls) = f a calls
after f (err e, calls) = (err e, calls)

infixl 5 ◌>>=◌ ◌>>◌
unfoldable pub ◌>>=◌ : {E A B : Type 0} → Io E A → (A → Io E B) → Io E B
unfolding after
◌>>=◌ m f calls = after f (m calls)

unfoldable pub ◌>>◌ : {E B : Type 0} → Io E (Unit {0}) → Io E B → Io E B
m >> k = m >>= λ _. k

-- `if test { return err }`
unfoldable pub refuse : {E : Type 0} → Bool → E → Io E (Unit {0})
unfolding pure fail
refuse true e = fail e
refuse false e = pure tt

-- a call with its answer
unfoldable pub ask : {E A : Type 0} → Call → (List Call → Result E A) → Io E A
ask call answer calls = (answer calls, call ∷ calls)

-- the error of a computation as another one
unfoldable pub map_error : {E F A : Type 0} → (E → F) → Io E A → Io F A
map_error f m calls = (map_err f (m calls).0, (m calls).1)

-- what a computation answers, as a value
unfoldable pub attempt : {E F A : Type 0} → Io E A → Io F (Result E A)
attempt m calls = (ok (m calls).0, (m calls).1)

-- what the answers of calls still to come will be
unfoldable pub foresee : {E A : Type 0} → (List Call → A) → Io E A
foresee answer calls = (ok (answer calls), calls)
