-- ===== src/Daemon/Files.antt =====
-- internal/daemon/files.go: the policy of the file API, its errors, and `resolve`, which finds the
-- root that a path of a request lies in.
pub mod Resolve
pub mod Host
pub mod Calls
pub mod Gives
pub mod Reads
pub mod Changes
pub mod Helper
pub mod Dispatch
use maid_cafe.Base.{
  ltb, leb, ◌==◌, if◌then◌else◌, ltb→lt, leb→le, ==_iff, Bool-cases, &&_split, length, get_elem?,
  take, drop, All, filter, length-append, length-drop, drop-append, drop-drop, take-append-drop,
  All-append, Result, ok, err, ◌>>=◌, ◌>>◌, guard, Option-cases, Result-cases, ℕ, zero, suc, ◌+◌,
  ◌-◌, ◌*◌, ◌/◌, ◌%◌, ◌^◌, ◌≤◌, ◌<◌, ◌≡◌, refl, sym, ap, ◌∙◌, ◌≢◌, ◌↔◌, ◌⊎◌, inl, inr, Bool, true,
  false, not, ◌&&◌, ◌||◌, Option, none, some, List, [], ◌∷◌, ◌++◌, map, append-nil, append_assoc,
  arith,
}
use maid_cafe.Base.Int.{ℤ, pos, negsuc}
use maid_cafe.Base.Text.{Bytes, codes, str_eq, has_prefix, strip_prefix, contains_byte}
use maid_cafe.Base.Filepath.{is_abs, clean}

-- `fileActionError`: the messages of the file API that are not passed on from elsewhere
pub data FileActionError : Type 0 where
  api_disabled has_nul not_absolute outside_roots : FileActionError
  open_root_failed not_directory not_regular : FileActionError
  bad_offset negative_limit limit_too_large file_too_large : FileActionError
  read_only not_routed root_refused body_too_large is_directory root_exists : FileActionError
  crosses_roots same_path inside_source destination_exists : FileActionError
  bad_content privileged_move no_privileged_tree unsupported_action : FileActionError
  no_such_file permission_denied already_exists not_empty : FileActionError
  invalid_operation cross_device escapes_roots operation_failed : FileActionError
  helper_unavailable helper_too_large helper_timeout : FileActionError
  helper_needs_rule helper_not_root helper_missing : FileActionError
  helper_failed : Bytes → FileActionError

-- the status that a request is answered with
unfoldable pub status_of : FileActionError → ℕ
status_of api_disabled = 403
status_of has_nul = 400
status_of not_absolute = 400
status_of outside_roots = 403
status_of open_root_failed = 500
status_of not_directory = 400
status_of not_regular = 400
status_of bad_offset = 416
status_of negative_limit = 400
status_of limit_too_large = 413
status_of file_too_large = 413
status_of read_only = 403
status_of not_routed = 500
status_of root_refused = 400
status_of body_too_large = 413
status_of is_directory = 409
status_of root_exists = 409
status_of crosses_roots = 400
status_of same_path = 400
status_of inside_source = 400
status_of destination_exists = 409
status_of bad_content = 400
status_of privileged_move = 501
status_of no_privileged_tree = 501
status_of unsupported_action = 400
status_of no_such_file = 404
status_of permission_denied = 403
status_of already_exists = 409
status_of not_empty = 409
status_of invalid_operation = 400
status_of cross_device = 400
status_of escapes_roots = 403
status_of operation_failed = 500
status_of helper_unavailable = 503
status_of helper_too_large = 413
status_of helper_timeout = 504
status_of helper_needs_rule = 403
status_of helper_not_root = 424
status_of helper_missing = 424
status_of (helper_failed message) = 502

-- `FilesRootConfig`, and `fileRoot`, whose path is clean
pub record FileRoot : Type 0 where
  pub path : Bytes
  pub privileged : Bool
  pub profile : Bytes

-- `FilesConfig`
pub record FilesConfig : Type 0 where
  pub enabled : Bool
  pub secret : Bytes
  pub roots : List FileRoot
  pub allow_write : Bool
  pub max_read_bytes : ℤ
  pub max_write_bytes : ℤ
  pub max_list_entries : ℤ

-- `filePolicy`
pub record FilePolicy : Type 0 where
  pub secret : Bytes
  pub allow_write : Bool
  pub max_read : ℕ
  pub max_write : ℕ
  pub max_list : ℕ
  pub roots : List FileRoot

abbrev default_max_bytes : ℕ
default_max_bytes = 8 * 2 ^ 20

abbrev default_max_list_entries : ℕ
default_max_list_entries = 5000

-- a limit of the configuration, or the default where it is not positive
unfoldable pub limit_or : ℕ → ℤ → ℕ
limit_or default (pos zero) = default
limit_or default (pos (suc n)) = suc n
limit_or default (negsuc n) = default

unfoldable pub clean_roots : List FileRoot → List FileRoot
clean_roots [] = []
clean_roots (root ∷ roots) = record root { path = clean root.path } ∷ clean_roots roots

-- `newFilePolicy`
unfoldable pub new_file_policy : FilesConfig → Option FilePolicy
unfolding limit_or clean_roots
new_file_policy cfg =
    if not cfg.enabled
    then none
    else some (record {
      secret = cfg.secret;
      allow_write = cfg.allow_write;
      max_read = limit_or default_max_bytes cfg.max_read_bytes;
      max_write = limit_or default_max_bytes cfg.max_write_bytes;
      max_list = limit_or default_max_list_entries cfg.max_list_entries;
      roots = clean_roots cfg.roots;
    })

-- `fileTarget`
pub record FileTarget : Type 0 where
  pub root_path : Bytes
  pub rel : Bytes
  pub path : Bytes
  pub privileged : Bool
  pub profile : Bytes

-- `pathInside`
unfoldable pub path_inside : Bytes → Bytes → Bool
path_inside root target =
    if str_eq target root
    then true
    else if str_eq root (codes "/")
    then true
    else has_prefix target (root ++ codes "/")

-- whether a root takes the place of the best one so far
unfoldable pub better : Bytes → FileRoot → Option FileRoot → Bool
unfolding path_inside
better target root none = path_inside root.path target
better target root (some best) =
    path_inside root.path target && ltb (length best.path) (length root.path)

-- the loop of `resolve` over the roots
unfoldable pub best_root : Bytes → List FileRoot → Option FileRoot → Option FileRoot
unfolding better
best_root target [] best = best
best_root target (root ∷ roots) best =
    if better target root best
    then best_root target roots (some root)
    else best_root target roots best

-- `strings.TrimPrefix`
unfoldable pub trim_prefix : Bytes → Bytes → Bytes
trim_prefix s p = elim (strip_prefix s p) [ none ↦ s | some r ↦ r ]

-- the path below a root, for `os.Root`
unfoldable pub relative_to : Bytes → Bytes → Bytes
unfolding trim_prefix
relative_to root target =
    let rel = trim_prefix (trim_prefix target root) (codes "/") in
    if str_eq rel [] then codes "." else rel

-- `resolve`
unfoldable pub resolve : FilePolicy → Bytes → Result FileActionError FileTarget
unfolding best_root relative_to
resolve p raw = do
  guard (contains_byte raw 0) has_nul
  guard (not (is_abs raw)) not_absolute
  elim (best_root (clean raw) p.roots none) [
    | none ↦ err outside_roots
    | some best ↦ ok (record {
      root_path = best.path;
      rel = relative_to best.path (clean raw);
      path = clean raw;
      privileged = best.privileged;
      profile = best.profile;
    })
  ]

-- `checkPolicyWrite`
unfoldable pub check_policy_write : FilePolicy → FileTarget → ℕ → Result FileActionError (Unit {0})
check_policy_write policy target size = do
  guard (not policy.allow_write) read_only
  guard (str_eq target.rel (codes ".")) root_refused
  guard (ltb 0 policy.max_write && ltb policy.max_write size) body_too_large
  ok tt
