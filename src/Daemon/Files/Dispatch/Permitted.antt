-- ===== src/Daemon/Files/Dispatch/Permitted.antt =====
-- The calls that an action may make: looks below a root of a path that `resolve` accepts, changes
-- below one that is not privileged, and the helper's verbs on one that is.
use maid_cafe.Base.{ok, true, false, ◌≡◌, List, some}
use maid_cafe.Base.Text.{Bytes, codes, str_eq}
use maid_cafe.Daemon.Files.{FilePolicy, FileTarget, resolve}
use maid_cafe.Daemon.Files.Host.{
  Host, Call, opens_root, looks, looks_at, changes, starts, Change, writes, makes_directory,
  makes_directories, renames_to, links_to, copies_from, removes, removes_all,
}
use maid_cafe.Daemon.Files.Helper.{argv, operation_args, helper_path}

-- a target that `resolve` returns for some path
abbrev pub Resolved : FilePolicy → FileTarget → Type 0
Resolved p t = (raw : Bytes) × (resolve p raw ≡ ok t)

-- a path below a root, where it is not the root itself
abbrev pub Apart : Bytes → Type 0
Apart rel = str_eq rel (codes ".") ≡ false

-- the changes that a root itself must be spared
unfoldable pub Spares : Change → Bytes → Type 0
Spares (writes mode content) rel = Apart rel
Spares (renames_to destination) rel = Apart rel × Apart destination
Spares removes_all rel = Apart rel
Spares (makes_directory mode) rel = Apart rel
Spares (makes_directories mode) rel = Unit
Spares (links_to target) rel = Unit
Spares (copies_from source mode) rel = Unit
Spares removes rel = Unit

-- a call of the helper for a target: a verb on the path below the root, in the target's profile
pub record Privileged (host : Host) (configured : Bytes) (p : FilePolicy) (args : List Bytes)
    : Type 0 where
  pub target : FileTarget
  pub resolved : Resolved p target
  pub privileged : target.privileged ≡ true
  pub apart : Apart target.rel
  pub sudo : List Bytes
  pub reached : host.sudo ≡ some sudo
  pub verb : Bytes
  pub mode : Bytes
  pub rendered :
      args ≡ argv sudo (helper_path configured) (operation_args verb target.profile target.rel mode)

unfoldable pub Permitted : Host → Bytes → FilePolicy → Call → Type 0
Permitted host configured p (opens_root root) =
    (t : FileTarget) × Resolved p t × (root ≡ t.root_path)
Permitted host configured p (looks root rel) =
    (t : FileTarget) × Resolved p t × (root ≡ t.root_path)
Permitted host configured p (looks_at path) = (t : FileTarget) × Resolved p t × (path ≡ t.path)
Permitted host configured p (changes change root rel) =
    (p.allow_write ≡ true)
    × ((t : FileTarget) × Resolved p t × (t.privileged ≡ false) × (root ≡ t.root_path))
    × Spares change rel
Permitted host configured p (starts args payload) =
    (p.allow_write ≡ true) × Privileged host configured p args
