-- ===== src/Daemon/Files/Dispatch/Alters.antt =====
-- The operations that change the tree below a root: they look, and they change below the root of
-- their target, which is itself spared.
use maid_cafe.Base.{Result, ok, err, ◌≡◌, ℕ, Bool, true, false, not, ◌||◌, arith}
use maid_cafe.Base.Text.{codes, Bytes, str_eq}
use maid_cafe.Daemon.Files.{FilePolicy, FileTarget}
use maid_cafe.Daemon.Files.Host.{
  Host, Io, OsError, FileInfo, FileKind, symlink, directory, regular, other, Tree, Children,
  unreadable, listed, no_more, child, Call, opens_root, looks, changes, Change, renames_to,
}
use maid_cafe.Daemon.Files.Calls.{Only, Only-ask, only_rules}
use maid_cafe.Daemon.Files.Changes.{
  change_below, write, mkdir, move, copy, delete, copy_file_contents, clear_link, copy_link,
  copy_kind, copy_file_tree, copy_children, copy_whole, removal, making,
}
use maid_cafe.Daemon.Files.Dispatch.Permitted.{Spares, Apart}
use maid_cafe.Daemon.Files.Dispatch.Looks.{
  Only-open_root, Only-looks, Only-stat_below, Only-lstat_below,
}

Spares-removal : (recursive : Bool) (rel : Bytes) → Apart rel → Spares (removal recursive) rel
unfolding Spares removal
Spares-removal true rel h = h
Spares-removal false rel h = tt

Spares-making : (parents : Bool) (rel : Bytes) → Apart rel → Spares (making parents) rel
unfolding Spares making
Spares-making true rel h = tt
Spares-making false rel h = h

-- the test of `move` on both paths
both_Apart : (a b : Bool) → (a || b) ≡ false → (a ≡ false) × (b ≡ false)
both_Apart a b h = ground arith

module _ (P : Call → Type 0) (host : Host) (p : FilePolicy) (t : FileTarget)
    (opens_ok : P (opens_root t.root_path)) (looks_ok : (rel : Bytes) → P (looks t.root_path rel))
    (changes_ok : p.allow_write ≡ true
      → t.privileged ≡ false
      → (c : Change) (rel : Bytes) → Spares c rel
      → P (changes c t.root_path rel)) where
  writable : not p.allow_write ≡ false → p.allow_write ≡ true
  writable h = ground arith

  module _ (may : p.allow_write ≡ true) (plain : t.privileged ≡ false) where
    Only-change_below :
        (c : Change) (rel : Bytes) → Spares c rel → Only P (change_below host c t.root_path rel)
    unfolding change_below
    Only-change_below c rel h =
        Only-ask (changes c t.root_path rel) _ (changes_ok may plain c rel h)

    Only-copy_file_contents :
        (from_rel to_rel : Bytes) (perm : ℕ)
        → Only P (copy_file_contents host t.root_path from_rel to_rel perm)
    unfolding copy_file_contents Spares
    Only-copy_file_contents from_rel to_rel perm =
        search (only_rules, Only-looks, Only-change_below, opens_ok, looks_ok)

    Only-clear_link :
        (to_rel : Bytes) (overwrite : Bool) (there : Result OsError FileInfo)
        → Only P (clear_link host t.root_path to_rel overwrite there)
    unfolding clear_link Spares
    Only-clear_link to_rel overwrite (ok info) = search (only_rules, Only-change_below)
    Only-clear_link to_rel overwrite (err e) = search only_rules

    Only-copy_link :
        (from_rel to_rel : Bytes) (overwrite : Bool)
        → Only P (copy_link host t.root_path from_rel to_rel overwrite)
    unfolding copy_link Spares
    Only-copy_link from_rel to_rel overwrite =
        search
          (
            only_rules, Only-looks, Only-lstat_below, Only-clear_link, Only-change_below, opens_ok,
            looks_ok,
          )
          depth 12

    Only-copy_kind :
        (kind : FileKind) (tree link content : Io OsError (Unit {0}))
        → Only P tree
        → Only P link
        → Only P content
        → Only P (copy_kind kind tree link content)
    unfolding copy_kind
    Only-copy_kind directory tree link content h h' h'' = h
    Only-copy_kind symlink tree link content h h' h'' = h'
    Only-copy_kind regular tree link content h h' h'' = h''
    Only-copy_kind other tree link content h h' h'' = search only_rules

    mutual
      unfolding Spares copy_file_tree

      Only-copy_file_tree :
          (tree : Tree) (overwrite : Bool) (from_rel to_rel : Bytes) (perm : ℕ)
          → Only P (copy_file_tree host t.root_path overwrite from_rel to_rel perm tree)
      Only-copy_file_tree (unreadable e) overwrite from_rel to_rel perm =
          search (only_rules, Only-looks, Only-change_below, opens_ok, looks_ok) depth 8
      Only-copy_file_tree (listed children) overwrite from_rel to_rel perm =
          search
            (
              only_rules,
              Only-looks,
              Only-change_below,
              opens_ok,
              looks_ok,
              Only-copy_children children,
            )
            depth 8

      Only-copy_children :
          (children : Children) (overwrite : Bool) (from_rel to_rel : Bytes)
          → Only P (copy_children host t.root_path overwrite from_rel to_rel children)
      Only-copy_children no_more overwrite from_rel to_rel = search only_rules
      Only-copy_children (child entry below rest) overwrite from_rel to_rel =
          search
            (
              only_rules,
              Only-looks,
              Only-copy_kind,
              Only-copy_link,
              Only-copy_file_contents,
              Only-copy_file_tree below,
              Only-copy_children rest,
            )
            depth 8

    Only-copy_whole :
        (overwrite : Bool) (from_rel to_rel : Bytes) (info : FileInfo)
        → Only P (copy_whole host t.root_path overwrite from_rel to_rel info)
    unfolding copy_whole
    Only-copy_whole overwrite from_rel to_rel info =
        search (only_rules, Only-copy_file_tree, Only-copy_file_contents) depth 8

  pub Only-write : (content : Bytes) → Only P (write host p t content)
  unfolding write Spares
  Only-write content =
      search
        (
          only_rules, writable, Only-open_root, Only-stat_below, Only-change_below, opens_ok,
          looks_ok,
        )
        depth 14

  pub Only-mkdir : (parents : Bool) → Only P (mkdir host p t parents)
  unfolding mkdir
  Only-mkdir parents =
      search
        (only_rules, writable, Only-open_root, Only-change_below, Spares-making, opens_ok, looks_ok)
        depth 14

  pub Only-delete : (recursive : Bool) → Only P (delete host p t recursive)
  unfolding delete
  Only-delete recursive =
      search
        (
          only_rules, writable, Only-open_root, Only-lstat_below, Only-change_below, Spares-removal,
          opens_ok, looks_ok,
        )
        depth 14

  Spares-renames :
      (a b : Bytes)
      → (str_eq a (codes ".") || str_eq b (codes ".")) ≡ false
      → Spares (renames_to b) a
  unfolding Spares
  Spares-renames a b h = both_Apart (str_eq a (codes ".")) (str_eq b (codes ".")) h

  pub Only-move :
      (destination : FileTarget) → t.privileged ≡ false → Only P (move host p t destination)
  unfolding move
  Only-move destination plain =
      search
        (
          only_rules, writable, Only-open_root, Only-lstat_below, Only-change_below, Spares-renames,
          opens_ok, looks_ok,
        )
        depth 14

  pub Only-copy :
      (destination : FileTarget) (overwrite : Bool)
      → t.privileged ≡ false
      → Only P (copy host p t destination overwrite)
  unfolding copy
  Only-copy destination overwrite plain =
      search
        (
          only_rules, writable, Only-open_root, Only-lstat_below, Only-copy_whole, opens_ok,
          looks_ok,
        )
        depth 16
