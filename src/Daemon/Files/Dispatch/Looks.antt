-- ===== src/Daemon/Files/Dispatch/Looks.antt =====
-- The operations that only look open the root of their target and look below it.
use maid_cafe.Base.{Result, ok, err, ◌++◌, List, [], ◌∷◌, ℕ, suc, zero, Bool}
use maid_cafe.Base.Int.{ℤ}
use maid_cafe.Base.Text.{Bytes}
use maid_cafe.Daemon.Files.{FilePolicy, FileTarget}
use maid_cafe.Daemon.Files.Host.{
  Host, Io, OsError, FileInfo, DirEntry, Call, opens_root, looks, ask,
}
use maid_cafe.Daemon.Files.Calls.{Only-bind, Only-attempt, Only, Only-ask, only_rules}
use maid_cafe.Daemon.Files.Reads.{
  FileIo, open_root, stat_below, lstat_below, in_status, fill_target, fill_link_target, describe,
  LoopError, gather_more, gather, read_dir_limited, list_entry, list_entries, list, stat,
  open_read_window, read, FileEntry, read_full,
}

module _ (P : Call → Type 0) (host : Host) (t : FileTarget) (opens_ok : P (opens_root t.root_path))
    (looks_ok : (rel : Bytes) → P (looks t.root_path rel)) where
  pub Only-open_root : Only P (open_root host t)
  unfolding open_root
  Only-open_root = Only-ask (opens_root t.root_path) _ opens_ok

  pub Only-looks :
      {E A : Type 0} (rel : Bytes) (answer : List Call → Result E A)
      → Only P (ask (looks t.root_path rel) answer)
  Only-looks rel answer = Only-ask (looks t.root_path rel) answer (looks_ok rel)

  pub Only-stat_below : (rel : Bytes) → Only P (stat_below host t.root_path rel)
  unfolding stat_below
  Only-stat_below rel = Only-looks rel _

  pub Only-lstat_below : (rel : Bytes) → Only P (lstat_below host t.root_path rel)
  unfolding lstat_below
  Only-lstat_below rel = Only-looks rel _

  pub Only-in_status : {A : Type 0} (m : Io OsError A) → Only P m → Only P (in_status m)
  unfolding in_status
  Only-in_status m h = search only_rules

  Only-fill_target :
      (rel : Bytes) (item : FileEntry) (link : Result OsError Bytes)
      → Only P (fill_target host t.root_path rel item link)
  unfolding fill_target
  Only-fill_target rel item (ok target) = search (only_rules, Only-stat_below)
  Only-fill_target rel item (err e) = search only_rules

  Only-describe :
      (rel name path : Bytes) (info : FileInfo)
      → Only P (describe host t.root_path rel name path info)
  unfolding describe fill_link_target
  Only-describe rel name path info = search (only_rules, Only-looks, Only-fill_target)

  Only-gather_more :
      (again : List DirEntry → Io LoopError (List DirEntry)) (entries batch : List DirEntry)
      → ((es : List DirEntry) → Only P (again es))
      → Only P (gather_more again entries batch)
  unfolding gather_more
  Only-gather_more again entries [] h = search only_rules
  Only-gather_more again entries (e ∷ es) h = h (entries ++ (e ∷ es))

  Only-gather :
      (rel : Bytes) (limit fuel : ℕ) (entries : List DirEntry)
      → Only P (gather host t.root_path rel limit fuel entries)
  unfolding gather
  Only-gather rel limit zero entries = search only_rules
  Only-gather rel limit (suc fuel) entries =
      search (only_rules, Only-looks, Only-gather_more, Only-gather rel limit fuel)

  Only-list_entry :
      (name : Bytes) (info : Result OsError FileInfo) (others : FileIo (List FileEntry))
      → Only P others
      → Only P (list_entry host t name info others)
  unfolding list_entry
  Only-list_entry name (ok info) others h = search (only_rules, Only-describe)
  Only-list_entry name (err e) others h = search only_rules

  Only-list_entries : (es : List DirEntry) → Only P (list_entries host t es)
  unfolding list_entries
  Only-list_entries [] = search only_rules
  Only-list_entries (e ∷ es) =
      Only-bind _ _ (Only-attempt _ (Only-looks _ _))
        λ info. Only-list_entry e.name info _ (Only-list_entries es)

  Only-read_dir_limited :
      (rel : Bytes) (limit : ℕ) → Only P (read_dir_limited host t.root_path rel limit)
  unfolding read_dir_limited
  Only-read_dir_limited rel limit = search (only_rules, Only-gather)

  pub Only-list : (p : FilePolicy) → Only P (list host p t)
  unfolding list
  Only-list p =
      search
        (
          only_rules, Only-open_root, Only-in_status, Only-stat_below, Only-looks,
          Only-read_dir_limited, Only-list_entries,
        )
        depth 12

  pub Only-stat : (follow : Bool) → Only P (stat host t follow)
  unfolding stat
  Only-stat follow =
      search
        (
          only_rules, Only-open_root, Only-in_status, Only-stat_below, Only-lstat_below,
          Only-describe,
        )
        depth 12

  Only-open_read_window :
      (p : FilePolicy) (offset limit : ℤ) → Only P (open_read_window host p t offset limit)
  unfolding open_read_window
  Only-open_read_window p offset limit =
      search (only_rules, Only-open_root, Only-in_status, Only-looks) depth 12

  Only-read_full : (o window : ℕ) → Only P (read_full host t o window)
  unfolding read_full
  Only-read_full o window = search (only_rules, Only-in_status, Only-looks)

  pub Only-read : (p : FilePolicy) (offset limit : ℤ) → Only P (read host p t offset limit)
  unfolding read
  Only-read p offset limit = search (only_rules, Only-open_read_window, Only-read_full)
