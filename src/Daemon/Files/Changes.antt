-- ===== src/Daemon/Files/Changes.antt =====
-- The operations of internal/daemon/files.go that change the tree below a root as the daemon's own
-- account: `write`, `mkdir`, `move`, `copy` and `delete`.
use maid_cafe.Base.{
  ltb, if◌then◌else◌, length, Result, ok, err, ℕ, ◌+◌, ◌*◌, ◌/◌, ◌%◌, Bool, false, not, ◌||◌, ◌++◌,
  true,
}
use maid_cafe.Base.Text.{Bytes, codes, str_eq, has_prefix}
use maid_cafe.Daemon.Files.{
  FileActionError, read_only, not_routed, root_refused, body_too_large, is_directory, root_exists,
  crosses_roots, same_path, inside_source, destination_exists, FileTarget, FilePolicy,
}
use maid_cafe.Daemon.Files.Host.{
  foresee, FileKind, Host, Io, OsError, FileInfo, symlink, directory, regular, other, Tree,
  Children, unreadable, listed, no_more, child, Change, writes, makes_directory, makes_directories,
  renames_to, links_to, copies_from, removes, removes_all, file_status, err_not_exist, looks,
  changes, pure, lift, ◌>>=◌, ◌>>◌, refuse, ask, attempt,
}
use maid_cafe.Daemon.Files.Reads.{
  FileIo, open_root, stat_below, lstat_below, in_status, is_directory_kind, join_path,
}

-- `fileWriteResult`
pub record FileWriteResult : Type 0 where
  pub path : Bytes
  pub size : ℕ

-- `fileMoveResult`
pub record FileMoveResult : Type 0 where
  pub source : Bytes
  pub destination : Bytes

-- a change below a root
unfoldable pub change_below : Host → Change → Bytes → Bytes → Io OsError (Unit {0})
change_below host change root rel =
    ask (changes change root rel) λ calls. host.change calls change root rel

-- whether a `Stat` found a directory
unfoldable pub found_directory : Result OsError FileInfo → Bool
unfolding is_directory_kind
found_directory (err e) = false
found_directory (ok info) = is_directory_kind info.kind

-- `write`
unfoldable pub write : Host → FilePolicy → FileTarget → Bytes → FileIo FileWriteResult
unfolding open_root stat_below in_status found_directory change_below
write host p t content = do
  refuse (not p.allow_write) read_only
  refuse t.privileged not_routed
  refuse (str_eq t.rel (codes ".")) root_refused
  refuse (ltb p.max_write (length content)) body_too_large
  open_root host t
  found ← attempt (stat_below host t.root_path t.rel)
  refuse (found_directory found) is_directory
  in_status (change_below host (writes 0o644 content) t.root_path t.rel)
  pure (record { path = t.path; size = length content })

-- `MkdirAll` or `Mkdir`
unfoldable pub making : Bool → Change
making true = makes_directories 0o755
making false = makes_directory 0o755

-- `mkdir`: the path of the directory
unfoldable pub mkdir : Host → FilePolicy → FileTarget → Bool → FileIo Bytes
unfolding open_root in_status change_below making
mkdir host p t parents = do
  refuse (not p.allow_write) read_only
  refuse t.privileged not_routed
  refuse (str_eq t.rel (codes ".")) root_exists
  open_root host t
  in_status (change_below host (making parents) t.root_path t.rel)
  pure t.path

-- `move`
unfoldable pub move : Host → FilePolicy → FileTarget → FileTarget → FileIo FileMoveResult
unfolding open_root lstat_below in_status change_below
move host p source destination = do
  refuse (not p.allow_write) read_only
  refuse (not (str_eq source.root_path destination.root_path)) crosses_roots
  refuse (str_eq source.rel (codes ".") || str_eq destination.rel (codes ".")) root_refused
  open_root host source
  info ← in_status (lstat_below host source.root_path source.rel)
  in_status (change_below host (renames_to destination.rel) source.root_path source.rel)
  pure (record { source = source.path; destination = destination.path })

-- `perm|0o700`
unfoldable pub with_owner : ℕ → ℕ
with_owner perm = (perm / 512) * 512 + 448 + perm % 64

-- `copyFileContents`: the file is opened, then the other one is written
unfoldable pub copy_file_contents : Host → Bytes → Bytes → Bytes → ℕ → Io OsError (Unit {0})
unfolding change_below
copy_file_contents host root from_rel to_rel perm = do
  opened ← ask (looks root from_rel) λ calls. host.open_file calls root from_rel
  change_below host (copies_from from_rel perm) root to_rel

-- what is in the way of a copied link, if anything is
unfoldable pub clear_link :
    Host → Bytes → Bytes → Bool → Result OsError FileInfo → Io OsError (Unit {0})
unfolding change_below
clear_link host root to_rel overwrite (err e) = pure tt
clear_link host root to_rel overwrite (ok info) =
    if overwrite then change_below host removes root to_rel else pure tt

-- the symbolic link of a copied tree
unfoldable pub copy_link : Host → Bytes → Bytes → Bytes → Bool → Io OsError (Unit {0})
unfolding lstat_below change_below clear_link
copy_link host root from_rel to_rel overwrite = do
  target ← ask (looks root from_rel) λ calls. host.read_link calls root from_rel
  there ← attempt (lstat_below host root to_rel)
  clear_link host root to_rel overwrite there
  change_below host (links_to target) root to_rel

-- the choice of `copyFileTree` for one entry of the directory
unfoldable pub copy_kind :
    FileKind
    → Io OsError (Unit {0})
    → Io OsError (Unit {0})
    → Io OsError (Unit {0})
    → Io OsError (Unit {0})
copy_kind directory tree link content = tree
copy_kind symlink tree link content = link
copy_kind regular tree link content = content
copy_kind other tree link content = pure tt

-- `copyFileTree`, and its loop over the entries of the directory
unfoldable mutual
  unfolding change_below with_owner copy_file_contents copy_link join_path copy_kind

  pub copy_file_tree : Host → Bytes → Bool → Bytes → Bytes → ℕ → Tree → Io OsError (Unit {0})
  copy_file_tree host root overwrite from_rel to_rel perm (unreadable e) = do
    change_below host (makes_directories (with_owner perm)) root to_rel
    ask (looks root from_rel) λ calls. err e
  copy_file_tree host root overwrite from_rel to_rel perm (listed children) = do
    change_below host (makes_directories (with_owner perm)) root to_rel
    ask (looks root from_rel) λ calls. ok tt
    copy_children host root overwrite from_rel to_rel children

  pub copy_children : Host → Bytes → Bool → Bytes → Bytes → Children → Io OsError (Unit {0})
  copy_children host root overwrite from_rel to_rel no_more = pure tt
  copy_children host root overwrite from_rel to_rel (child entry below rest) = do
    info ← ask (looks root (join_path from_rel entry.name)) λ calls. entry.info
    copy_kind info.kind
        (copy_file_tree host root overwrite (join_path from_rel entry.name)
          (join_path to_rel entry.name) info.perm below)
        (copy_link host root (join_path from_rel entry.name) (join_path to_rel entry.name)
          overwrite)
        (copy_file_contents host root (join_path from_rel entry.name) (join_path to_rel entry.name)
          info.perm)
    copy_children host root overwrite from_rel to_rel rest

-- whether an existing destination is in the way of `copy`
unfoldable pub blocked : Bool → Result OsError FileInfo → Result FileActionError (Unit {0})
blocked overwrite (ok info) = if overwrite then ok tt else err destination_exists
blocked overwrite (err e) = if e.is err_not_exist then ok tt else err (file_status e)

-- `copyFileTree` or `copyFileContents`
unfoldable pub copy_whole : Host → Bytes → Bool → Bytes → Bytes → FileInfo → Io OsError (Unit {0})
unfolding copy_file_tree copy_file_contents is_directory_kind
copy_whole host root overwrite from_rel to_rel info =
    if is_directory_kind info.kind
    then foresee (λ calls. host.read_tree calls root from_rel)
      >>= copy_file_tree host root overwrite from_rel to_rel info.perm
    else copy_file_contents host root from_rel to_rel info.perm

-- `copy`
unfoldable pub copy : Host → FilePolicy → FileTarget → FileTarget → Bool → FileIo FileMoveResult
unfolding open_root lstat_below in_status blocked copy_whole
copy host p source destination overwrite = do
  refuse (not p.allow_write) read_only
  refuse (not (str_eq source.root_path destination.root_path)) crosses_roots
  refuse (str_eq source.rel (codes ".") || str_eq destination.rel (codes ".")) root_refused
  refuse (str_eq source.rel destination.rel) same_path
  refuse (has_prefix destination.rel (source.rel ++ codes "/")) inside_source
  open_root host source
  info ← in_status (lstat_below host source.root_path source.rel)
  there ← attempt (lstat_below host source.root_path destination.rel)
  lift (blocked overwrite there)
  in_status (copy_whole host source.root_path overwrite source.rel destination.rel info)
  pure (record { source = source.path; destination = destination.path })

-- `RemoveAll` or `Remove`
unfoldable pub removal : Bool → Change
removal true = removes_all
removal false = removes

-- `delete`: the path that is gone
unfoldable pub delete : Host → FilePolicy → FileTarget → Bool → FileIo Bytes
unfolding open_root lstat_below in_status change_below removal
delete host p t recursive = do
  refuse (not p.allow_write) read_only
  refuse t.privileged not_routed
  refuse (str_eq t.rel (codes ".")) root_refused
  open_root host t
  info ← in_status (lstat_below host t.root_path t.rel)
  in_status (change_below host (removal recursive) t.root_path t.rel)
  pure t.path
