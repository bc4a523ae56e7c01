-- ===== src/Daemon/Files/Reads.antt =====
-- The operations of internal/daemon/files.go that only look: `list`, `stat`, `read` and what they
-- share. Content is kept as bytes, before it is encoded for JSON.
pub mod Window
pub mod Listing
use maid_cafe.Base.{
  none, some, ltb, leb, ◌==◌, if◌then◌else◌, length, take, Result, ok, err, ℕ, zero, suc, ◌+◌, ◌-◌,
  Bool, true, false, not, ◌&&◌, ◌||◌, List, [], ◌∷◌, ◌++◌, map, ◌≡◌,
}
use maid_cafe.Base.Int.{ℤ, pos, negsuc}
use maid_cafe.Base.Text.{Bytes, codes, str_eq, cut_last}
use maid_cafe.Base.Filepath.{clean}
use maid_cafe.Daemon.Files.{
  FileActionError, open_root_failed, not_directory, not_regular, bad_offset, negative_limit,
  limit_too_large, file_too_large, operation_failed, FileTarget, FilePolicy, FileRoot,
}
use maid_cafe.Daemon.Files.Host.{
  Host, Io, OsError, FileInfo, FileKind, symlink, directory, regular, other, DirEntry, file_status,
  err_not_exist, opens_root, looks, pure, fail, lift, ◌>>=◌, ◌>>◌, refuse, ask, map_error, attempt,
}

abbrev pub FileIo : Type 0 → Type 0
FileIo A = Io FileActionError A

-- `fileEntry`
pub record FileEntry : Type 0 where
  pub name : Bytes
  pub path : Bytes
  pub entry_type : Bytes
  pub size : ℕ
  pub mode : ℕ
  pub modified_at : ℕ
  pub link_target : Bytes
  pub target_type : Bytes

-- `fileListResult`
pub record FileListResult : Type 0 where
  pub path : Bytes
  pub entries : List FileEntry
  pub truncated : Bool

-- `fileReadResult`
pub record FileReadResult : Type 0 where
  pub path : Bytes
  pub offset : ℕ
  pub size : ℕ
  pub content : Bytes

-- `fileRootsResult`, whose roots are those of the policy
pub record FileRootsResult : Type 0 where
  pub roots : List FileRoot
  pub writable : Bool

-- `rootInfos`
unfoldable pub root_infos : FilePolicy → FileRootsResult
root_infos p = record { roots = p.roots; writable = p.allow_write }

-- `open`
unfoldable pub open_root : Host → FileTarget → FileIo (Unit {0})
open_root host t =
    ask (opens_root t.root_path)
      λ calls. if host.opens calls t.root_path then ok tt else err open_root_failed

unfoldable pub stat_below : Host → Bytes → Bytes → Io OsError FileInfo
stat_below host root rel = ask (looks root rel) λ calls. host.stat calls root rel

unfoldable pub lstat_below : Host → Bytes → Bytes → Io OsError FileInfo
lstat_below host root rel = ask (looks root rel) λ calls. host.lstat calls root rel

-- an error of the system becomes the answer that a client sees
unfoldable pub in_status : {A : Type 0} → Io OsError A → FileIo A
in_status m = map_error file_status m

unfoldable pub is_directory_kind : FileKind → Bool
is_directory_kind directory = true
is_directory_kind symlink = false
is_directory_kind regular = false
is_directory_kind other = false

unfoldable pub is_symlink_kind : FileKind → Bool
is_symlink_kind symlink = true
is_symlink_kind directory = false
is_symlink_kind regular = false
is_symlink_kind other = false

unfoldable pub is_regular_kind : FileKind → Bool
is_regular_kind regular = true
is_regular_kind symlink = false
is_regular_kind directory = false
is_regular_kind other = false

-- `fileType`
unfoldable pub file_type : FileKind → Bytes
file_type symlink = codes "symlink"
file_type directory = codes "directory"
file_type regular = codes "file"
file_type other = codes "other"

-- `filepath.Join` of two parts that are not empty
unfoldable pub join_path : Bytes → Bytes → Bytes
join_path above name = clean (above ++ (b'/' ∷ name))

-- `filepath.Base` of a clean absolute path
unfoldable pub base_name : Bytes → Bytes
base_name path =
    if str_eq path (codes "/")
    then path
    else elim (cut_last b'/' path) [ none ↦ path | some (above, name) ↦ name ]

-- the target of a link, with its kind if it can be read
unfoldable pub with_target : FileEntry → Bytes → Result OsError FileInfo → FileEntry
unfolding file_type
with_target item target (err e) = record item { link_target = target }
with_target item target (ok info) = record item {
  link_target = target;
  target_type = file_type info.kind;
}

unfoldable pub fill_target :
    Host → Bytes → Bytes → FileEntry → Result OsError Bytes → FileIo FileEntry
unfolding with_target stat_below
fill_target host root rel item (err e) = pure item
fill_target host root rel item (ok target) = do
  resolved ← attempt (stat_below host root rel)
  pure (with_target item target resolved)

-- `fillLinkTarget`
unfoldable pub fill_link_target : Host → Bytes → Bytes → FileEntry → FileIo FileEntry
unfolding fill_target
fill_link_target host root rel item = do
  link ← attempt (ask (looks root rel) λ calls. host.read_link calls root rel)
  fill_target host root rel item link

-- an entry as a client sees it, with the target of a symbolic link
unfoldable pub describe : Host → Bytes → Bytes → Bytes → Bytes → FileInfo → FileIo FileEntry
unfolding fill_link_target file_type is_symlink_kind
describe host root rel name path info =
    let item : FileEntry = record {
      name = name;
      path = path;
      entry_type = file_type info.kind;
      size = info.size;
      mode = info.perm;
      modified_at = info.modified;
      link_target = [];
      target_type = [];
    } in
    if is_symlink_kind info.kind then fill_link_target host root rel item else pure item

-- how many entries the next round asks for
abbrev pub batch_size : ℕ → ℕ → ℕ
batch_size limit n = let wanted = (limit + 1) - n in if ltb 256 wanted then 256 else wanted

-- How the loop of `readDirLimited` fails: as the system says, or by not having stopped within its
-- fuel, which does not happen.
pub data LoopError : Type 0 where
  system : OsError → LoopError
  unfinished : LoopError

-- a round with its batch, where an empty one is the last
unfoldable pub gather_more :
    (List DirEntry → Io LoopError (List DirEntry))
    → List DirEntry
    → List DirEntry
    → Io LoopError (List DirEntry)
gather_more again entries [] = pure entries
gather_more again entries (e ∷ es) = again (entries ++ (e ∷ es))

-- The loop of `readDirLimited` from the entries that it has. Each round but the last adds an entry
-- or more, so the fuel is enough if it reaches the entries that are still wanted.
unfoldable pub gather : Host → Bytes → Bytes → ℕ → ℕ → List DirEntry → Io LoopError (List DirEntry)
unfolding gather_more
gather host root rel limit zero entries =
    if ltb limit (length entries) then pure entries else fail unfinished
gather host root rel limit (suc fuel) entries =
    if ltb limit (length entries) then pure entries else do
      batch ← map_error system (
          ask (looks root rel) λ calls.
            host.read_dir calls root rel (length entries) (batch_size limit (length entries)))
      gather_more (gather host root rel limit fuel) entries batch

-- `readDirLimited`
unfoldable pub read_dir_limited : Host → Bytes → Bytes → ℕ → Io LoopError (List DirEntry × Bool)
unfolding gather
read_dir_limited host root rel limit = do
  entries ← gather host root rel limit (limit + 2) []
  pure (if ltb limit (length entries) then (take limit entries, true) else (entries, false))

-- the answer to a client for a directory that could not be read
unfoldable pub loop_status : LoopError → FileActionError
loop_status (system e) = file_status e
loop_status unfinished = operation_failed

-- an entry that `list` has read, before the others
unfoldable pub list_entry :
    Host
    → FileTarget
    → Bytes
    → Result OsError FileInfo
    → FileIo (List FileEntry)
    → FileIo (List FileEntry)
unfolding describe join_path
list_entry host t name (err e) others = if e.is err_not_exist then others else fail (file_status e)
list_entry host t name (ok info) others = do
  item ← describe host t.root_path (join_path t.rel name) name (join_path t.path name) info
  rest ← others
  pure (item ∷ rest)

-- the loop of `list` over the entries that were read
unfoldable pub list_entries : Host → FileTarget → List DirEntry → FileIo (List FileEntry)
unfolding list_entry
list_entries host t [] = pure []
list_entries host t (e ∷ es) = do
  info ← attempt (ask (looks t.root_path (join_path t.rel e.name)) λ calls. e.info)
  list_entry host t e.name info (list_entries host t es)

-- `<` on strings
unfoldable pub str_ltb : Bytes → Bytes → Bool
str_ltb s [] = false
str_ltb [] (d ∷ t) = true
str_ltb (c ∷ s) (d ∷ t) = ltb c d || ((c == d) && str_ltb s t)

-- `sort.Slice` by name
unfoldable pub insert_entry : FileEntry → List FileEntry → List FileEntry
unfolding str_ltb
insert_entry e [] = e ∷ []
insert_entry e (f ∷ fs) =
    let rest = insert_entry e fs in if str_ltb f.name e.name then f ∷ rest else e ∷ f ∷ fs

unfoldable pub sort_entries : List FileEntry → List FileEntry
unfolding insert_entry
sort_entries [] = []
sort_entries (e ∷ es) = insert_entry e (sort_entries es)

-- `list`
unfoldable pub list : Host → FilePolicy → FileTarget → FileIo FileListResult
unfolding open_root stat_below in_status list_entries read_dir_limited sort_entries
    is_directory_kind
list host p t = do
  open_root host t
  info ← in_status (stat_below host t.root_path t.rel)
  refuse (not (is_directory_kind info.kind)) not_directory
  in_status (ask (looks t.root_path t.rel) λ calls. host.open_dir calls t.root_path t.rel)
  found ← map_error loop_status (read_dir_limited host t.root_path t.rel p.max_list)
  entries ← list_entries host t found.0
  pure (record { path = t.path; entries = sort_entries entries; truncated = found.1 })

-- `stat`
unfoldable pub stat : Host → FileTarget → Bool → FileIo FileEntry
unfolding open_root lstat_below stat_below in_status describe base_name is_symlink_kind
stat host t follow = do
  open_root host t
  info ← in_status (lstat_below host t.root_path t.rel)
  info' ←
      (if follow && is_symlink_kind info.kind
        then in_status (stat_below host t.root_path t.rel)
        else pure info)
  describe host t.root_path t.rel (base_name t.path) t.path info'

-- the bytes from an offset to the end of a file, and a limit at which to stop
unfoldable pub window_of : ℕ → ℕ → ℕ → Result FileActionError ℕ
window_of max_read remaining limit =
    if (limit == 0) && ltb max_read remaining
    then err file_too_large
    else if (limit == 0) || ltb remaining limit
    then ok remaining
    else ok limit

-- the checks of `openReadWindow` on a file of a size: the offset and the length of the window
unfoldable pub read_window : ℕ → ℕ → ℤ → ℤ → Result FileActionError (ℕ × ℕ)
unfolding window_of
read_window max_read size (negsuc o) limit = err bad_offset
read_window max_read size (pos o) (negsuc n) =
    if ltb size o then err bad_offset else err negative_limit
read_window max_read size (pos o) (pos limit) =
    if ltb size o
    then err bad_offset
    else if ltb max_read limit
    then err limit_too_large
    else elim (window_of max_read (size - o) limit) [ err e ↦ err e | ok window ↦ ok (o, window) ]

-- what `openReadWindow` returns besides the file
pub record FileWindow : Type 0 where
  pub size : ℕ
  pub offset : ℕ
  pub window : ℕ

-- `openReadWindow`: the size of the file, the offset and the length of the window
unfoldable pub open_read_window : Host → FilePolicy → FileTarget → ℤ → ℤ → FileIo FileWindow
unfolding open_root in_status read_window is_regular_kind
open_read_window host p t offset limit = do
  open_root host t
  info ← in_status (ask (looks t.root_path t.rel) λ calls. host.open_file calls t.root_path t.rel)
  refuse (not (is_regular_kind info.kind)) not_regular
  window ← lift (read_window p.max_read info.size offset limit)
  in_status (ask (looks t.root_path t.rel) λ calls. host.seek calls t.root_path t.rel window.0)
  pure (record { size = info.size; offset = window.0; window = window.1 })

unfoldable pub zeros : ℕ → Bytes
zeros zero = []
zeros (suc n) = 0 ∷ zeros n

-- the buffer after `io.ReadFull` of a part of a file, which fails if there is nothing to read
unfoldable pub filled : ℕ → Bytes → Result FileActionError Bytes
unfolding zeros
filled window [] = err operation_failed
filled window (b ∷ bs) = ok ((b ∷ bs) ++ zeros (window - length (b ∷ bs)))

-- `io.ReadFull` into the buffer of `read`
unfoldable pub read_full : Host → FileTarget → ℕ → ℕ → FileIo Bytes
unfolding in_status filled
read_full host t o window =
    if window == 0
    then pure []
    else in_status
        (ask (looks t.root_path t.rel) λ calls. host.read_at calls t.root_path t.rel o window)
      >>= λ got. lift (filled window got)

-- `read`
unfoldable pub read : Host → FilePolicy → FileTarget → ℤ → ℤ → FileIo FileReadResult
unfolding open_read_window read_full
read host p t offset limit = do
  opened ← open_read_window host p t offset limit
  content ← read_full host t opened.offset opened.window
  pure (record { path = t.path; offset = opened.offset; size = opened.size; content = content })
