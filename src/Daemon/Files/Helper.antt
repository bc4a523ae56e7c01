-- ===== src/Daemon/Files/Helper.antt =====
-- internal/daemon/files_priv.go: the calls of the privileged helper for a root that the daemon's own
-- account does not write.
use maid_cafe.Base.{
  ltb, if◌then◌else◌, length, Result, ok, err, ℕ, ◌+◌, ◌/◌, ◌%◌, not, ◌&&◌, ◌||◌, List, [], ◌∷◌,
  ◌++◌, Option, none, some, Bool, true, false,
}
use mathlib.Core.List.{reverse}
use maid_cafe.Base.Text.{Bytes, codes, str_eq, has_prefix, contains_text, split, trim_space}
use maid_cafe.Daemon.Files.{
  FileActionError, helper_unavailable, helper_too_large, helper_timeout, helper_needs_rule,
  helper_not_root, helper_missing, helper_failed, FileTarget,
}
use maid_cafe.Privfs.Files.{max_content_bytes}
use maid_cafe.Daemon.Files.Host.{
  ◌>>◌, FileInfo, HelperExit, Host, OsError, ask, attempt, fail, looks_at, pure, refuse, starts,
  ◌>>=◌,
}
use maid_cafe.Daemon.Files.Reads.{FileIo, is_regular_kind}

-- `FilesDefaultPrivilegedHelper`
abbrev default_helper : Bytes
default_helper = codes "/usr/local/libexec/maidkit-priv"

-- `helperPath`, from the path of the configuration
unfoldable pub helper_path : Bytes → Bytes
helper_path configured =
    let path = trim_space configured in if str_eq path [] then default_helper else path

-- the first line with the helper's name
unfoldable pub named_line : List Bytes → Option Bytes
named_line [] = none
named_line (line ∷ lines) =
    if has_prefix line (codes "maidkit-priv: ") then some (trim_space line) else named_line lines

-- the first line, of lines from the last to the first, that is not empty and no record
unfoldable pub plain_line : List Bytes → Bytes
plain_line [] = []
plain_line (line ∷ lines) =
    let text = trim_space line in
    if not (str_eq text []) && not (has_prefix text (codes "{")) then text else plain_line lines

-- `helperMessage`
unfoldable pub helper_message : Bytes → Bytes
unfolding named_line plain_line
helper_message stderr =
    let lines = split b'\n' stderr in
    if str_eq stderr []
    then []
    else elim (named_line lines) [ some line ↦ line | none ↦ plain_line (reverse lines) ]

-- `privFailure`
unfoldable pub priv_failure : Bytes → Bytes → FileActionError
unfolding helper_message
priv_failure failure stderr =
    if contains_text stderr (codes "a password is required")
      || (contains_text stderr (codes "no tty present")
          || contains_text stderr (codes "no askpass program"))
    then helper_needs_rule
    else if contains_text stderr (codes "must run as root")
    then helper_not_root
    else if contains_text stderr (codes "command not found")
        || contains_text stderr (codes "No such file or directory")
    then helper_missing
    else if str_eq (helper_message stderr) []
    then helper_failed failure
    else helper_failed (helper_message stderr)

abbrev digit : ℕ → ℕ
digit n = b'0' + n % 8

-- `fmt.Sprintf("%04o", mode)` for a mode below 0o10000
unfoldable pub octal4 : ℕ → Bytes
octal4 mode = digit (mode / 512) ∷ digit (mode / 64) ∷ digit (mode / 8) ∷ digit mode ∷ []

-- `argv`
unfoldable pub argv : List Bytes → Bytes → List Bytes → List Bytes
argv sudo path args = sudo ++ (path ∷ args)

-- the arguments for one operation on files; a mode is left out if it is empty
unfoldable pub operation_args : Bytes → Bytes → Bytes → Bytes → List Bytes
operation_args verb profile rel mode =
    codes "fs" ∷ verb ∷ profile ∷ rel ∷ (if str_eq mode [] then [] else mode ∷ [])

-- what the end of the helper means for the request
unfoldable pub helper_result : HelperExit → Result FileActionError (Unit {0})
unfolding priv_failure
helper_result exit =
    if not exit.failed
    then ok tt
    else if exit.timed_out
    then err helper_timeout
    else err (priv_failure exit.failure (trim_space exit.stderr))

-- `run`
unfoldable pub run_helper : Host → List Bytes → Bytes → List Bytes → Bytes → FileIo (Unit {0})
unfolding argv helper_result
run_helper host sudo path args payload =
    ask (starts (argv sudo path args) payload)
      λ calls. helper_result (host.start calls (argv sudo path args) payload)

-- the helper, where there is a way to reach it
unfoldable pub with_helper :
    Host → Option (List Bytes) → Bytes → List Bytes → Bytes → FileIo (Unit {0})
unfolding run_helper helper_path
with_helper host none configured args payload = fail helper_unavailable
with_helper host (some sudo) configured args payload =
    run_helper host sudo (helper_path configured) args payload

unfoldable pub is_none : {A : Type 0} → Option A → Bool
is_none none = true
is_none (some a) = false

-- `privWrite`
unfoldable pub priv_write : Host → Bytes → FileTarget → Bytes → ℕ → FileIo (Unit {0})
unfolding with_helper operation_args octal4 is_none
priv_write host configured t content mode = do
  refuse (is_none host.sudo) helper_unavailable
  refuse (ltb max_content_bytes (length content)) helper_too_large
  with_helper host host.sudo configured
      (operation_args (codes "write") t.profile t.rel (octal4 mode)) content

-- `privMkdir`
unfoldable pub priv_mkdir : Host → Bytes → FileTarget → ℕ → FileIo (Unit {0})
unfolding with_helper operation_args octal4
priv_mkdir host configured t mode =
    with_helper host host.sudo configured
      (operation_args (codes "mkdir") t.profile t.rel (octal4 mode)) []

-- `privRemove`
unfoldable pub priv_remove : Host → Bytes → FileTarget → FileIo (Unit {0})
unfolding with_helper operation_args
priv_remove host configured t =
    with_helper host host.sudo configured (operation_args (codes "remove") t.profile t.rel []) []

-- the permissions of a regular file, and those of a new one
unfoldable pub mode_of : Result OsError FileInfo → ℕ
unfolding is_regular_kind
mode_of (err e) = 0o644
mode_of (ok info) = if is_regular_kind info.kind then info.perm else 0o644

-- `privWriteModeFor`
unfoldable pub priv_write_mode_for : Host → Bytes → FileIo ℕ
unfolding mode_of
priv_write_mode_for host path = do
  found ← attempt (ask (looks_at path) λ calls. host.stat_at calls path)
  pure (mode_of found)
