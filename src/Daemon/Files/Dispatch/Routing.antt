-- ===== src/Daemon/Files/Dispatch/Routing.antt =====
-- Every call that an action makes is permitted: what may be changed, where, and as whom.
use maid_cafe.Base.{
  All, ◌++◌, Result, ok, err, ◌≡◌, refl, List, ℕ, Bool, true, false, ◌||◌, Option, none, some,
  arith, length,
}
use maid_cafe.Base.Text.{Bytes}
use maid_cafe.Daemon.Files.{FileActionError, FilePolicy, FileTarget, resolve, check_policy_write}
use maid_cafe.Daemon.Files.Host.{Host, Call, opens_root, looks, looks_at, changes, starts, Change}
use maid_cafe.Daemon.Files.Calls.{Only-if, Only-bind, Only-pure, Only, Only-ask, only_rules}
use maid_cafe.Daemon.Files.Reads.{FileIo, list, stat, read}
use maid_cafe.Daemon.Files.Helper.{
  argv, operation_args, helper_path, run_helper, with_helper, priv_write, priv_mkdir, priv_remove,
  priv_write_mode_for,
}
use maid_cafe.Daemon.Files.Dispatch.{
  FileActionRequest, FileAction, files_roots, files_list, files_stat, files_read, files_write,
  files_mkdir, files_move, files_copy, files_delete, FileResult, Answer, unprivileged,
  through_helper, checked, write_file_data, write_content, dispatch_file_action, dispatch_option,
  dispatch_named, run_file_action,
}
use maid_cafe.Base.Int.{ℤ}
use maid_cafe.Daemon.Files.Changes.{mkdir, move, copy, delete}
use maid_cafe.Daemon.Files.Dispatch.Permitted.{Resolved, Apart, Spares, Permitted}
use maid_cafe.Daemon.Files.Dispatch.Looks.{Only-list, Only-stat, Only-read}
use maid_cafe.Daemon.Files.Dispatch.Alters.{
  Only-write, Only-mkdir, Only-move, Only-copy, Only-delete,
}

check_policy_write_ok :
    (p : FilePolicy) (t : FileTarget) (size : ℕ)
    → check_policy_write p t size ≡ ok tt
    → (p.allow_write ≡ true) × Apart t.rel
unfolding check_policy_write
check_policy_write_ok p t size h = (ground arith, ground arith)

plain_sides : (a b : Bool) → (a || b) ≡ false → a ≡ false
plain_sides a b h = ground arith

module _ (host : Host) (configured : Bytes) (p : FilePolicy) where
  P : Call → Type 0
  P = Permitted host configured p

  module _ (t : FileTarget) (found : Resolved p t) where
    opens_ok : P (opens_root t.root_path)
    unfolding P Permitted
    opens_ok = (t, found, refl)

    looks_ok : (rel : Bytes) → P (looks t.root_path rel)
    unfolding P Permitted
    looks_ok rel = (t, found, refl)

    looks_at_ok : P (looks_at t.path)
    unfolding P Permitted
    looks_at_ok = (t, found, refl)

    changes_ok :
        p.allow_write ≡ true
        → t.privileged ≡ false
        → (c : Change) (rel : Bytes) → Spares c rel
        → P (changes c t.root_path rel)
    unfolding P Permitted
    changes_ok may plain c rel h = (may, (t, found, plain, refl), h)

    starts_ok :
        p.allow_write ≡ true
        → t.privileged ≡ true
        → Apart t.rel
        → (sudo : List Bytes) → host.sudo ≡ some sudo
        → (verb mode payload : Bytes)
        → P (
            starts
              (argv sudo (helper_path configured) (operation_args verb t.profile t.rel mode))
              payload)
    unfolding P Permitted
    starts_ok may owned apart sudo reached verb mode payload = (
      may,
      record {
        target = t;
        resolved = found;
        privileged = owned;
        apart = apart;
        sudo = sudo;
        reached = reached;
        verb = verb;
        mode = mode;
        rendered = refl;
      },
    )

    module _ (may : p.allow_write ≡ true) (owned : t.privileged ≡ true) (apart : Apart t.rel) where
      Only-with_helper :
          (sudo : Option (List Bytes))
          → host.sudo ≡ sudo
          → (verb mode payload : Bytes)
          → Only P
              (with_helper host sudo configured (operation_args verb t.profile t.rel mode) payload)
      unfolding with_helper run_helper
      Only-with_helper none reached verb mode payload = search only_rules
      Only-with_helper (some sudo) reached verb mode payload =
          Only-ask _ _ (starts_ok may owned apart sudo reached verb mode payload)

      Only-priv_write :
          (content : Bytes) (mode : ℕ) → Only P (priv_write host configured t content mode)
      unfolding priv_write
      Only-priv_write content mode = search (only_rules, Only-with_helper)

      Only-priv_mkdir : (mode : ℕ) → Only P (priv_mkdir host configured t mode)
      unfolding priv_mkdir
      Only-priv_mkdir mode = search (Only-with_helper)

      Only-priv_remove : Only P (priv_remove host configured t)
      unfolding priv_remove
      Only-priv_remove = search (Only-with_helper)

    Only-priv_write_mode_for : Only P (priv_write_mode_for host t.path)
    unfolding priv_write_mode_for
    Only-priv_write_mode_for = search (only_rules, Only-ask, looks_at_ok)

  Only-unprivileged :
      {A : Type 0} (f : A → FileResult) (m : FileIo A) → Only P m → Only P (unprivileged f m)
  unfolding unprivileged
  Only-unprivileged f m h = search only_rules

  Only-through_helper :
      (answer : FileResult) (m : FileIo (Unit {0})) → Only P m → Only P (through_helper answer m)
  unfolding through_helper
  Only-through_helper answer m h = search only_rules

  Only-checked :
      {A : Type 0} (r : Result FileActionError A) (f : A → FileIo Answer)
      → ((a : A) → r ≡ ok a → Only P (f a))
      → Only P (checked r f)
  unfolding checked
  Only-checked (ok a) f h = h a refl
  Only-checked (err e) f h = search only_rules

  -- what follows the check of a privileged target
  Only-checked_write :
      (t : FileTarget) (size : ℕ) (m : FileIo Answer)
      → (p.allow_write ≡ true → Apart t.rel → Only P m)
      → Only P (checked (check_policy_write p t size) λ _. m)
  Only-checked_write t size m h =
      Only-checked (check_policy_write p t size) (λ _. m)
        λ u e. let (may, apart) = check_policy_write_ok p t size e in h may apart

  Only-write_file_data :
      (t : FileTarget) (content : Bytes)
      → Resolved p t
      → Only P (write_file_data host configured p t content)
  unfolding write_file_data
  Only-write_file_data t content found =
      Only-if t.privileged _ _
        (λ owned. Only-checked_write t (length content) _ λ may apart. Only-through_helper _ _ (
          Only-bind _ _ (Only-priv_write_mode_for t found)
            (Only-priv_write t found may owned apart content)))
        (λ plain. Only-unprivileged _ _ (
          Only-write P host p t (opens_ok t found) (looks_ok t found) (changes_ok t found) content))

  Only-write_content :
      (t : FileTarget) (content : Option Bytes)
      → Resolved p t
      → Only P (write_content host configured p t content)
  unfolding write_content
  Only-write_content t none found = search only_rules
  Only-write_content t (some content) found = Only-write_file_data t content found

  -- the other operations on a target of the request

  Only-list_at : (t : FileTarget) → Resolved p t → Only P (list host p t)
  Only-list_at t found = Only-list P host t (opens_ok t found) (looks_ok t found) p

  Only-stat_at : (t : FileTarget) (follow : Bool) → Resolved p t → Only P (stat host t follow)
  Only-stat_at t follow found = Only-stat P host t (opens_ok t found) (looks_ok t found) follow

  Only-read_at :
      (t : FileTarget) (offset limit : ℤ) → Resolved p t → Only P (read host p t offset limit)
  Only-read_at t offset limit found =
      Only-read P host t (opens_ok t found) (looks_ok t found) p offset limit

  Only-mkdir_at : (t : FileTarget) (parents : Bool) → Resolved p t → Only P (mkdir host p t parents)
  Only-mkdir_at t parents found =
      Only-mkdir P host p t (opens_ok t found) (looks_ok t found) (changes_ok t found) parents

  Only-delete_at :
      (t : FileTarget) (recursive : Bool) → Resolved p t → Only P (delete host p t recursive)
  Only-delete_at t recursive found =
      Only-delete P host p t (opens_ok t found) (looks_ok t found) (changes_ok t found) recursive

  Only-move_at :
      (t destination : FileTarget)
      → Resolved p t
      → t.privileged ≡ false
      → Only P (move host p t destination)
  Only-move_at t destination found plain =
      Only-move P host p t (opens_ok t found) (looks_ok t found) (changes_ok t found) destination
        plain

  Only-copy_at :
      (t destination : FileTarget) (overwrite : Bool)
      → Resolved p t
      → t.privileged ≡ false
      → Only P (copy host p t destination overwrite)
  Only-copy_at t destination overwrite found plain =
      Only-copy P host p t (opens_ok t found) (looks_ok t found) (changes_ok t found) destination
        overwrite plain

  resolved : (raw : Bytes) (t : FileTarget) → resolve p raw ≡ ok t → Resolved p t
  resolved raw t e = (raw, e)

  ruleset routing_rules = (
    only_rules, Only-checked, Only-checked_write, Only-unprivileged, Only-through_helper, resolved,
    plain_sides,
  )

  Only-dispatch_file_action :
      (action : FileAction) (req : FileActionRequest)
      → Only P (dispatch_file_action host configured p action req)
  unfolding dispatch_file_action
  Only-dispatch_file_action files_roots req = search only_rules
  Only-dispatch_file_action files_list req = search (routing_rules, Only-list_at)
  Only-dispatch_file_action files_stat req = search (routing_rules, Only-stat_at)
  Only-dispatch_file_action files_read req = search (routing_rules, Only-read_at)
  Only-dispatch_file_action files_write req = search (routing_rules, Only-write_content)
  Only-dispatch_file_action files_mkdir req = Only-checked (resolve p req.path) _ λ t e.
      let found = resolved req.path t e in
      Only-if t.privileged _ _
        (λ owned.
          Only-checked_write t 0 _
            λ may apart. Only-through_helper _ _ (Only-priv_mkdir t found may owned apart 0o755))
        (λ plain. Only-unprivileged _ _ (Only-mkdir_at t req.parents found))
  Only-dispatch_file_action files_move req = search (routing_rules, Only-move_at) depth 9
  Only-dispatch_file_action files_copy req = search (routing_rules, Only-copy_at) depth 9
  Only-dispatch_file_action files_delete req = Only-checked (resolve p req.path) _ λ t e.
      let found = resolved req.path t e in
      Only-if t.privileged _ _
        (λ owned. Only-checked_write t 0 _ λ may apart.
          Only-if req.recursive _ _ (λ h. Only-pure _)
            λ h. Only-through_helper _ _ (Only-priv_remove t found may owned apart))
        (λ plain. Only-unprivileged _ _ (Only-delete_at t req.recursive found))

  Only-dispatch_option :
      (action : Option FileAction) (req : FileActionRequest)
      → Only P (dispatch_option host configured p action req)
  unfolding dispatch_option
  Only-dispatch_option none req = search only_rules
  Only-dispatch_option (some action) req = Only-dispatch_file_action action req

  Only-run_file_action :
      (source action invoked_by : Bytes) (req : FileActionRequest)
      → Only P (run_file_action host configured p source action invoked_by req)
  unfolding run_file_action dispatch_named
  Only-run_file_action source action invoked_by req = search (only_rules, Only-dispatch_option)

-- Whatever the action, its request and the answers of the system, every call that `runFileAction`
-- makes is permitted. It opens and looks below the root of a target that `resolve` returns. It
-- changes only where the API may write, below the root of a target that is not privileged, and it
-- neither writes, renames, nor removes with all below it, that root itself. It starts a command only
-- where the API may write, and the command is a verb of the helper for a privileged target, by the
-- profile of its root and the path below that root.
pub run_file_action-Permitted :
    (host : Host) (configured : Bytes) (p : FilePolicy) (source action invoked_by : Bytes)
    (req : FileActionRequest) (calls : List Call)
    → (made : List Call) × ((run_file_action host configured p source action invoked_by req calls).1
        ≡ made ++ calls)
      × All (Permitted host configured p) made
unfolding P
run_file_action-Permitted host configured p source action invoked_by req calls =
    (Only-run_file_action host configured p source action invoked_by req).at calls
