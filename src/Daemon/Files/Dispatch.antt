-- ===== src/Daemon/Files/Dispatch.antt =====
-- `dispatchFileAction` and what is around it in internal/daemon/files.go: the actions by name, the
-- one path of writes, and the entry of the audit log.
pub mod Permitted
pub mod Looks
pub mod Alters
pub mod Routing
use maid_cafe.Base.{
  ltb, leb, ◌==◌, if◌then◌else◌, length, Result, ok, err, ℕ, zero, suc, Bool, true, false, not,
  ◌&&◌, ◌||◌, List, [], ◌∷◌, ◌++◌, Option, none, some, map_err,
}
use maid_cafe.Base.Int.{ℤ, pos, negsuc}
use maid_cafe.Base.Text.{Bytes, codes, str_eq}
use maid_cafe.Daemon.Files.{
  FileActionError, FilePolicy, FilesConfig, FileTarget, api_disabled, bad_content, privileged_move,
  no_privileged_tree, unsupported_action, new_file_policy, resolve, check_policy_write,
}
use maid_cafe.Daemon.Files.Host.{Host, Io, Call, pure, fail, lift, ◌>>=◌, ◌>>◌, refuse, attempt}
use maid_cafe.Daemon.Files.Reads.{
  FileIo, FileEntry, FileListResult, FileReadResult, FileRootsResult, root_infos, list, stat, read,
}
use maid_cafe.Daemon.Files.Changes.{
  FileWriteResult, FileMoveResult, write, mkdir, move, copy, delete,
}
use maid_cafe.Daemon.Files.Helper.{priv_write, priv_mkdir, priv_remove, priv_write_mode_for}

-- the names of the actions
pub data FileAction : Type 0 where
  files_roots files_list files_stat files_read files_write : FileAction
  files_mkdir files_move files_copy files_delete : FileAction

unfoldable pub action_named : Bytes → Option FileAction
action_named name =
    if str_eq name (codes "files.roots")
    then some files_roots
    else if str_eq name (codes "files.list")
    then some files_list
    else if str_eq name (codes "files.stat")
    then some files_stat
    else if str_eq name (codes "files.read")
    then some files_read
    else if str_eq name (codes "files.write")
    then some files_write
    else if str_eq name (codes "files.mkdir")
    then some files_mkdir
    else if str_eq name (codes "files.move")
    then some files_move
    else if str_eq name (codes "files.copy")
    then some files_copy
    else if str_eq name (codes "files.delete")
    then some files_delete
    else none

-- `isFileActionSlug`
unfoldable pub is_file_action_slug : Bytes → Bool
unfolding action_named
is_file_action_slug name = elim (action_named name) [ none ↦ false | some action ↦ true ]

-- `fileActionRequest`; the content is what its base64 text stands for, if it is one
pub record FileActionRequest : Type 0 where
  pub path : Bytes
  pub source : Bytes
  pub destination : Bytes
  pub parents : Bool
  pub recursive : Bool
  pub overwrite : Bool
  pub follow : Option Bool
  pub offset : ℤ
  pub limit : ℤ
  pub content : Option Bytes

-- the result of an action
pub data FileResult : Type 0 where
  roots_result : FileRootsResult → FileResult
  list_result : FileListResult → FileResult
  stat_result : FileEntry → FileResult
  read_result : FileReadResult → FileResult
  write_result : FileWriteResult → FileResult
  path_result : Bytes → FileResult
  move_result : FileMoveResult → FileResult

-- a result, and whether the action went through the helper
abbrev pub Answer : Type 0
Answer = Result FileActionError FileResult × Bool

unfoldable pub answer_of :
    {A : Type 0} → (A → FileResult) → Bool → Result FileActionError A → Answer
answer_of f privileged (ok a) = (ok (f a), privileged)
answer_of f privileged (err e) = (err e, privileged)

-- an answer of the daemon's own account
unfoldable pub unprivileged : {A : Type 0} → (A → FileResult) → FileIo A → FileIo Answer
unfolding answer_of
unprivileged f m = do result ← attempt m; pure (answer_of f false result)

-- an answer of the helper
unfoldable pub through_helper : FileResult → FileIo (Unit {0}) → FileIo Answer
unfolding answer_of
through_helper answer m = do result ← attempt m; pure (answer_of (λ _. answer) true result)

-- the first error of a check, or what follows
unfoldable pub checked :
    {A : Type 0} → Result FileActionError A → (A → FileIo Answer) → FileIo Answer
checked (err e) continue = pure (err e, false)
checked (ok a) continue = continue a

-- `writeFileData`
unfoldable pub write_file_data : Host → Bytes → FilePolicy → FileTarget → Bytes → FileIo Answer
unfolding unprivileged through_helper checked priv_write priv_write_mode_for write
write_file_data host configured p t content =
    if t.privileged
    then checked (check_policy_write p t (length content)) (λ _.
      through_helper (write_result (record { path = t.path; size = length content }))
        (do mode ← priv_write_mode_for host t.path; priv_write host configured t content mode))
    else unprivileged write_result (write host p t content)

-- the decoding of the content, then `writeFileData`
unfoldable pub write_content : Host → Bytes → FilePolicy → FileTarget → Option Bytes → FileIo Answer
unfolding write_file_data
write_content host configured p t none = pure (err bad_content, false)
write_content host configured p t (some content) = write_file_data host configured p t content

-- whether a link is followed, where the request may leave it out
unfoldable pub follows : Option Bool → Bool
follows none = true
follows (some follow) = follow

-- `dispatchFileAction`
unfoldable pub dispatch_file_action :
    Host → Bytes → FilePolicy → FileAction → FileActionRequest → FileIo Answer
unfolding unprivileged through_helper checked root_infos list stat read mkdir move copy delete
    priv_mkdir priv_remove write_content follows
dispatch_file_action host configured p files_roots req =
    pure (ok (roots_result (root_infos p)), false)
dispatch_file_action host configured p files_list req =
    checked (resolve p req.path) λ t. unprivileged list_result (list host p t)
dispatch_file_action host configured p files_stat req =
    checked (resolve p req.path) λ t. unprivileged stat_result (stat host t (follows req.follow))
dispatch_file_action host configured p files_read req =
    checked (resolve p req.path) λ t. unprivileged read_result (read host p t req.offset req.limit)
dispatch_file_action host configured p files_write req =
    checked (resolve p req.path) λ t. write_content host configured p t req.content
dispatch_file_action host configured p files_mkdir req = checked (resolve p req.path) λ t.
    if t.privileged
    then checked (check_policy_write p t 0)
        (λ _. through_helper (path_result t.path) (priv_mkdir host configured t 0o755))
    else unprivileged path_result (mkdir host p t req.parents)
dispatch_file_action host configured p files_move req = checked (resolve p req.source) λ source.
    checked (resolve p req.destination) λ destination.
      if source.privileged || destination.privileged
      then pure (err privileged_move, false)
      else unprivileged move_result (move host p source destination)
dispatch_file_action host configured p files_copy req = checked (resolve p req.source) λ source.
    checked (resolve p req.destination) λ destination.
      if source.privileged || destination.privileged
      then pure (err privileged_move, false)
      else unprivileged move_result (copy host p source destination req.overwrite)
dispatch_file_action host configured p files_delete req = checked (resolve p req.path) λ t.
    if t.privileged
    then checked (check_policy_write p t 0) (λ _.
      if req.recursive
      then pure (err no_privileged_tree, false)
      else through_helper (path_result t.path) (priv_remove host configured t))
    else unprivileged path_result (delete host p t req.recursive)

-- an entry of the audit log for an action
pub record FileAudit : Type 0 where
  pub name : Bytes
  pub source : Bytes
  pub invoked_by : Bytes
  pub target : Bytes
  pub privileged : Bool
  pub fine : Bool
  pub error : Option FileActionError

-- `recordFileOp`, without the times
unfoldable pub record_file_op :
    Bytes → Bytes → Bytes → Bytes → Bool → Result FileActionError FileResult → FileAudit
record_file_op source action invoked_by target privileged (ok result) = record {
  name = action;
  source = source;
  invoked_by = invoked_by;
  target = target;
  privileged = privileged;
  fine = true;
  error = none;
}
record_file_op source action invoked_by target privileged (err e) = record {
  name = action;
  source = source;
  invoked_by = invoked_by;
  target = target;
  privileged = privileged;
  fine = false;
  error = some e;
}

-- what the audit log says was touched
unfoldable pub audit_target : Bytes → FileActionRequest → Bytes
audit_target action req =
    if str_eq action (codes "files.move") || str_eq action (codes "files.copy")
    then req.source ++ (codes " -> " ++ req.destination)
    else req.path

-- an action, or the answer to an unknown name
unfoldable pub dispatch_option :
    Host → Bytes → FilePolicy → Option FileAction → FileActionRequest → FileIo Answer
unfolding dispatch_file_action
dispatch_option host configured p none req = pure (err unsupported_action, false)
dispatch_option host configured p (some action) req =
    dispatch_file_action host configured p action req

-- the dispatch by name
unfoldable pub dispatch_named :
    Host → Bytes → FilePolicy → Bytes → FileActionRequest → FileIo Answer
unfolding action_named dispatch_option
dispatch_named host configured p name req =
    dispatch_option host configured p (action_named name) req

-- `runFileAction`: the result, and the entry of the audit log
unfoldable pub run_file_action :
    Host
    → Bytes
    → FilePolicy
    → Bytes
    → Bytes
    → Bytes
    → FileActionRequest
    → FileIo (Result FileActionError FileResult × FileAudit)
unfolding dispatch_named record_file_op audit_target
run_file_action host configured p source action invoked_by req = do
  answer ← dispatch_named host configured p action req
  pure (
    answer.0,
    record_file_op source action invoked_by (audit_target action req) answer.1 answer.0,
  )
