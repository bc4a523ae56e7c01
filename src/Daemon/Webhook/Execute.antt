-- ===== src/Daemon/Webhook/Execute.antt =====
-- The runs of internal/daemon/webhook.go: `execute` and the three ways to it.
pub mod Authorized
use maid_cafe.Base.{
  ltb, leb, ◌==◌, if◌then◌else◌, length, take, ℕ, suc, zero, ◌+◌, Bool, true, false, not, ◌&&◌,
  ◌||◌, Option, none, some, List, [], ◌∷◌, ◌++◌, Result, ok, err,
}
use maid_cafe.Base.Int.{ℤ, pos, negsuc}
use maid_cafe.Base.Text.{Bytes, codes, str_eq, trim_space}
use maid_cafe.Daemon.Tasks.{Response, audit_error_tail}
use maid_cafe.Daemon.Webhook.{
  Hook, HookTables, find_hook, find_action, signature_valid, LimitedBuffer, collect,
}
use maid_cafe.Daemon.Webhook.Slots.{Slots, acquire_slot, release_slot}
use maid_cafe.Daemon.Webhook.Script.{
  ScriptError, unread_script, requires, not_rendered, CommandLine, substitute_script_template,
  prepend_working_directory, build_run_command,
}

-- an entry of the audit log
pub record AuditEntry : Type 0 where
  pub name : Bytes
  pub display_name : Bytes
  pub source : Bytes
  pub invoked_by : Bytes
  pub fine : Bool
  pub exit_code : ℤ
  pub stdout : Bytes
  pub stderr : Bytes
  pub error : Bytes

-- a command that was started: the hook, the command line, what it reads, and its time limit
pub record Started : Type 0 where
  pub hook : Hook
  pub command : CommandLine
  pub input : Bytes
  pub deadline : Option ℕ

-- how a command ends: whether it failed, its exit code if it ended by itself, whether its time was
-- over, and what it wrote
pub record CommandEnd : Type 0 where
  pub failed : Bool
  pub code : Option ℤ
  pub timed_out : Bool
  pub stdout : List Bytes
  pub stderr : List Bytes

-- The machine: the code of a body under a secret, a script's content, the value that a body gives a
-- name, the file that a rendered script is written to, the text of an error, and the end of a command.
pub record Machine : Type 0 where
  pub mac : Bytes → Bytes → Bytes
  pub read_script : Bytes → Option Bytes
  pub value_of : Bytes → Bytes → Option Bytes
  pub render : Hook → Bytes → Option Bytes
  pub error_text : ScriptError → Bytes
  pub run : Started → CommandEnd

-- `WebhookExecutor`, with what it has recorded, the newest first; durations are left out
pub record Executor : Type 0 where
  pub tables : HookTables
  pub script_timeout : ℤ
  pub max_body_bytes : ℕ
  pub slots : Slots
  pub successes : ℕ
  pub failures : ℕ
  pub audit : List AuditEntry
  pub completed : List (Hook × Bool × ℤ × Bytes)
  pub started : List Started

-- the time limit of a run, if it has one
unfoldable pub effective_timeout : ℤ → ℤ → Option ℕ
effective_timeout (pos (suc n)) default = some (suc n)
effective_timeout (pos zero) (pos (suc m)) = some (suc m)
effective_timeout (negsuc n) (pos (suc m)) = some (suc m)
effective_timeout (pos zero) (pos zero) = none
effective_timeout (pos zero) (negsuc m) = none
effective_timeout (negsuc n) (pos zero) = none
effective_timeout (negsuc n) (negsuc m) = none

-- a script with its working directory, where the run-as user needs it in the script
unfoldable pub with_directory : Hook → Bytes → Bytes
with_directory hook script =
    if not (str_eq hook.cwd []) && not (str_eq hook.user [])
    then prepend_working_directory hook.cwd script
    else script

-- the status of a script that cannot be run
unfoldable pub script_status : ScriptError → ℕ
script_status unread_script = 400
script_status (requires names) = 400
script_status not_rendered = 500

unfoldable pub rendered : Option Bytes → Result ScriptError Bytes
rendered none = err not_rendered
rendered (some path) = ok path

unfoldable pub render_script : Machine → Hook → Result ScriptError Bytes → Result ScriptError Bytes
unfolding rendered with_directory
render_script m hook (err e) = err e
render_script m hook (ok script) = rendered (m.render hook (with_directory hook script))

-- the command of a hook: its own, or the file of its rendered script
unfoldable pub command_of : Machine → Hook → Bytes → Result ScriptError Bytes
unfolding render_script substitute_script_template
command_of m hook body =
    if hook.script
    then render_script m hook
        (substitute_script_template (m.read_script hook.command) (m.value_of body))
    else ok hook.command

abbrev new_buffer : LimitedBuffer
new_buffer = record { buf = []; limit = 8192 }

-- whether a command failed, or the copying of what it wrote did
unfoldable pub run_failed : CommandEnd → Bool
unfolding collect
run_failed e = e.failed || ((collect e.stdout new_buffer).1 || (collect e.stderr new_buffer).1)

unfoldable pub run_code : CommandEnd → ℤ
run_code e = if e.failed then (elim e.code [ none ↦ pos 0 | some code ↦ code ]) else pos 0

unfoldable pub run_status : CommandEnd → ℕ
unfolding run_failed
run_status e = if run_failed e then (if e.timed_out then 504 else 502) else 200

-- the response of a command that ran
unfoldable pub run_response : Hook → CommandEnd → Response
unfolding run_failed run_code collect
run_response hook e = record {
  ok = not (run_failed e);
  name = hook.name;
  exit_code = run_code e;
  stdout = (collect e.stdout new_buffer).0.buf;
  stderr = (collect e.stderr new_buffer).0.buf;
  error = [];
}

-- the audit entry of a run
unfoldable pub entry_of : Hook → Bytes → Bytes → Response → AuditEntry
entry_of hook source invoked_by r = record {
  name = hook.name;
  display_name = trim_space hook.display_name;
  source = source;
  invoked_by = invoked_by;
  fine = r.ok;
  exit_code = r.exit_code;
  stdout = r.stdout;
  stderr = r.stderr;
  error = audit_error_tail r;
}

-- what a run leaves: the executor, the response and its status
pub record RunEnd : Type 0 where
  pub executor : Executor
  pub response : Response
  pub status : ℕ

-- the response to a run that was not tried
abbrev empty_response : Response
empty_response = record {
  ok = false;
  name = [];
  exit_code = pos 0;
  stdout = [];
  stderr = [];
  error = [];
}

unfoldable pub run_script_failed : Machine → Hook → ScriptError → Executor → RunEnd
unfolding script_status
run_script_failed m hook e x = record {
  executor = x;
  response = record {
    ok = false;
    name = hook.name;
    exit_code = pos 0;
    stdout = [];
    stderr = [];
    error = m.error_text e;
  };
  status = script_status e;
}

unfoldable pub run_command : Machine → Hook → Bytes → Bytes → Executor → RunEnd
unfolding run_failed run_response run_status run_code build_run_command effective_timeout
run_command m hook body command x =
    let s : Started = record {
      hook = hook;
      command = build_run_command hook command hook.args;
      input = body;
      deadline = effective_timeout hook.timeout x.script_timeout;
    } in
    let e = m.run s in
    record {
      executor = record x {
        successes = if run_failed e then x.successes else suc x.successes;
        failures = if run_failed e then suc x.failures else x.failures;
        completed =
            (hook, not (run_failed e), run_code e, (run_response hook e).stderr) ∷ x.completed;
        started = s ∷ x.started;
      };
      response = run_response hook e;
      status = run_status e;
    }

-- `execute` with a slot, up to the deferred calls
unfoldable pub run_hook : Machine → Hook → Bytes → Executor → RunEnd
unfolding command_of run_script_failed run_command
run_hook m hook body x = elim (command_of m hook body) [
  | err e ↦ run_script_failed m hook e x
  | ok command ↦ run_command m hook body command x
]

-- the release of the slot by `defer`; if there is no token it never returns
unfoldable pub with_slots : Option Slots → Executor → Executor
with_slots none x = x
with_slots (some slots) x = record x { slots = slots }

-- `execute`
unfoldable pub execute : Machine → Hook → Bytes → Bytes → Bytes → Executor → RunEnd
unfolding run_hook entry_of with_slots acquire_slot release_slot
execute m hook body source invoked_by x =
    if not (acquire_slot x.slots).1
    then record { executor = x; response = empty_response; status = 429 }
    else let done = run_hook m hook body (record x { slots = (acquire_slot x.slots).0 }) in
      record done {
        executor = with_slots (release_slot done.executor.slots) (record done.executor {
          audit = entry_of hook source invoked_by done.response ∷ done.executor.audit;
        });
      }

-- a request that is refused, with its status
unfoldable pub refused : ℕ → Executor → RunEnd
refused status x = record { executor = x; response = empty_response; status = status }

-- a request: its body, if it can be read, and the headers that are used
pub record Request : Type 0 where
  pub body : Option Bytes
  pub signature : Bytes
  pub invoked_by : Bytes

-- `run` with its hook and the body
unfoldable pub run_signed : Machine → Hook → Bytes → Request → Executor → RunEnd
unfolding execute refused signature_valid
run_signed m hook body r x =
    if ltb x.max_body_bytes (length body)
    then refused 413 x
    else if not (signature_valid m.mac hook.secret body r.signature)
    then refused 401 x
    else execute m hook body (codes "http") r.invoked_by x

unfoldable pub run_body : Machine → Hook → Option Bytes → Request → Executor → RunEnd
unfolding run_signed refused
run_body m hook none r x = refused 400 x
run_body m hook (some body) r x = run_signed m hook (take (x.max_body_bytes + 1) body) r x

-- a hook that may be run
unfoldable pub with_hook : Option Hook → Executor → (Hook → RunEnd) → RunEnd
unfolding refused
with_hook none x continue = refused 404 x
with_hook (some hook) x continue = if not hook.enabled then refused 404 x else continue hook

-- `run`
unfoldable pub run : Machine → Bytes → Request → Executor → RunEnd
unfolding with_hook run_body find_hook
run m name r x = with_hook (find_hook x.tables name) x λ hook. run_body m hook r.body r x

-- `ExecuteWebhook`
unfoldable pub execute_webhook : Machine → Bytes → Bytes → Bytes → Bytes → Bytes → Executor → RunEnd
unfolding with_hook execute refused signature_valid find_hook
execute_webhook m name body signature source invoked_by x =
    with_hook (find_hook x.tables name) x λ hook.
      if not (str_eq hook.secret []) && not (signature_valid m.mac hook.secret body signature)
      then refused 401 x
      else execute m hook body source invoked_by x

-- `RunAction`
unfoldable pub run_action : Machine → Bytes → Bytes → Bytes → Bytes → Executor → RunEnd
unfolding with_hook execute refused find_action
run_action m name body source invoked_by x =
    if ltb x.max_body_bytes (length body)
    then refused 413 x
    else with_hook (find_action x.tables name) x λ hook. execute m hook body source invoked_by x
