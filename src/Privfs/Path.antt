-- ===== src/Privfs/Path.antt =====
-- `safeRel` of internal/privfs/privfs.go: the check of a path that a caller names inside a profile.
pub mod Confined
use maid_cafe.Base.{Bool, true, false, ◌||◌, List, [], ◌∷◌, Result, ok, err, ◌>>=◌, ◌>>◌, guard}
use maid_cafe.Base.Text.{Bytes, codes, str_eq, has_prefix, contains_byte}
use maid_cafe.Base.Filepath.{is_abs, clean}

pub data PathError : Type 0 where
  empty has_nul absolute outside : PathError

-- `clean == "."`, `clean == ".."` or the prefix `../`
unfoldable pub escapes : Bytes → Bool
escapes path =
    str_eq path (codes ".") || (str_eq path (codes "..") || has_prefix path (codes "../"))

-- `safeRel`
unfoldable pub safe_rel : Bytes → Result PathError Bytes
unfolding escapes
safe_rel rel = do
  guard (str_eq rel []) empty
  guard (contains_byte rel 0) has_nul
  guard (is_abs rel) absolute
  guard (escapes (clean rel)) outside
  ok (clean rel)
