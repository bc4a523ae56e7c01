-- ===== src/Daemon/Tasks.antt =====
-- internal/daemon/tasks.go: one long operation (`opTask`) and its stages, and its retained output.
-- A moment of time is a number, as `time.Now` returns it to the call; a method of the task holds its
-- mutex throughout, so a call is one step. The context's cancel function and the `done` channel are
-- two flags: whether the run was asked to stop, and how often the channel was closed.
pub mod Output
pub mod Stages
pub mod Lifecycle
use maid_cafe.Base.{
  ℕ, suc, ◌+◌, ◌-◌, Bool, true, false, ◌&&◌, ◌||◌, not, Option, none, some, List, [], ◌∷◌, ◌++◌,
  ltb, if◌then◌else◌, length, drop, take, map, ◌*◌,
}
use maid_cafe.Base.Text.{Bytes, codes, str_eq}
use maid_cafe.Base.Int.{ℤ, pos, negsuc}

-- the status of a task or of a stage: the constants `taskStatus…` and `stageStatusPending`
pub data Status : Type 0 where
  running succeeded failed canceled pending : Status

pub record Stage : Type 0 where
  pub label : Bytes
  pub status : Status
  pub started_at : Option ℕ
  pub finished_at : Option ℕ

-- why a run has the outcome that it has: the `failure` text of a task
pub data Failure : Type 0 where
  no_failure was_cancelled : Failure
  timed_out : ℕ → Failure
  output_tail : Bytes → Failure

-- `executionResponse`
pub record Response : Type 0 where
  pub ok : Bool
  pub name : Bytes
  pub exit_code : ℤ
  pub stdout : Bytes
  pub stderr : Bytes
  pub error : Bytes

-- `auditErrorTail`
unfoldable pub audit_error_tail : Response → Bytes
audit_error_tail r =
    let body = if str_eq r.error [] then r.stderr else r.error in
    if str_eq body [] then [] else if ltb 512 (length body) then take 512 body else body

-- the error of the run's context
pub data ContextError : Type 0 where
  no_error canceled_error deadline_exceeded other_error : ContextError

pub record Task : Type 0 where
  pub id : Bytes
  pub name : Bytes
  pub display_name : Bytes
  pub target : Bytes
  pub source : Bytes
  pub invoked_by : Bytes
  pub status : Status
  pub started_at : ℕ
  pub finished_at : Option ℕ
  pub stages : List Stage
  pub succeeded_ok : Bool
  pub exit_code : ℤ
  pub stdout : Bytes
  pub stderr : Bytes
  pub failure : Failure
  pub output : Bytes
  pub written : ℕ
  pub has_cancel : Bool
  pub cancelled : Bool
  pub done_closed : ℕ

-- `taskOutputLimit`
abbrev pub task_output_limit : ℕ
task_output_limit = 32 * 1024

-- the plan: a pending stage for each label
unfoldable pub planned_stages : List Bytes → List Stage
planned_stages [] = []
planned_stages (label ∷ labels) =
    record { label = label; status = pending; started_at = none; finished_at = none }
    ∷ planned_stages labels

-- `newOpTask`
unfoldable pub new_op_task :
    Bytes → Bytes → Bytes → Bytes → Bytes → Bytes → List Bytes → Bool → ℕ → Task
new_op_task id name display_name target source invoked_by labels has_cancel now = record {
  id = id;
  name = name;
  display_name = display_name;
  target = target;
  source = source;
  invoked_by = invoked_by;
  status = running;
  started_at = now;
  finished_at = none;
  stages = planned_stages labels;
  succeeded_ok = false;
  exit_code = pos 0;
  stdout = [];
  stderr = [];
  failure = no_failure;
  output = [];
  written = 0;
  has_cancel = has_cancel;
  cancelled = false;
  done_closed = 0;
}

unfoldable pub is_running : Status → Bool
is_running running = true
is_running _ = false

unfoldable pub is_pending : Status → Bool
is_pending pending = true
is_pending _ = false

-- the loop of `stageStarted`: the first pending stage of that label
unfoldable pub start_stage : Bytes → ℕ → List Stage → List Stage
unfolding is_pending
start_stage label now [] = []
start_stage label now (s ∷ rest) =
    let later = start_stage label now rest in
    if str_eq s.label label && is_pending s.status
    then record s { status = running; started_at = some now } ∷ rest
    else s ∷ later

-- `stageStarted`
unfoldable pub stage_started : Bytes → ℕ → Task → Task
unfolding start_stage
stage_started label now t = record t { stages = start_stage label now t.stages }

-- the loop of `stageFinished`: the first running stage of that label
unfoldable pub finish_stage : Bytes → Bool → ℕ → List Stage → List Stage
unfolding is_running
finish_stage label fine now [] = []
finish_stage label fine now (s ∷ rest) =
    let later = finish_stage label fine now rest in
    if not (str_eq s.label label) || not (is_running s.status)
    then s ∷ later
    else record s { status = if fine then succeeded else failed; finished_at = some now } ∷ rest

-- `stageFinished`
unfoldable pub stage_finished : Bytes → Bool → ℕ → Task → Task
unfolding finish_stage
stage_finished label fine now t = record t { stages = finish_stage label fine now t.stages }

-- `Write`: the new output, cut to its last `taskOutputLimit` bytes, and the count of all bytes
unfoldable pub write : Bytes → Task → Task × ℕ
write p t =
    let output = t.output ++ p in
    let kept =
      if ltb task_output_limit (length output)
      then drop (length output - task_output_limit) output
      else output in
    (record t { output = kept; written = t.written + length p }, length p)

-- the `switch` of `finish`
unfoldable pub outcome : Response → ContextError → ℕ → Status × Failure
unfolding audit_error_tail
outcome r no_error timeout =
    if r.ok then (succeeded, no_failure) else (failed, output_tail (audit_error_tail r))
outcome r canceled_error timeout = (canceled, was_cancelled)
outcome r deadline_exceeded timeout = (failed, timed_out timeout)
outcome r other_error timeout = (failed, output_tail (audit_error_tail r))

-- `finish`
unfoldable pub finish : Response → ContextError → ℕ → ℕ → Task → Task
unfolding outcome
finish r e timeout now t =
    let (status, failure) = outcome r e timeout in
    record t {
      finished_at = some now;
      succeeded_ok = r.ok;
      exit_code = r.exit_code;
      stdout = r.stdout;
      stderr = r.stderr;
      status = status;
      failure = failure;
      done_closed = suc t.done_closed;
    }

-- `cancelRun`: whether there was a run to stop
unfoldable pub cancel_run : Task → Task × Bool
unfolding is_running
cancel_run t =
    if not (is_running t.status) || not t.has_cancel
    then (t, false)
    else (record t { cancelled = true }, true)

-- `finished`
unfoldable pub finished : Task → Bool
unfolding is_running
finished t = not (is_running t.status)

-- `outputSince`: the chunk, the offset that it begins at and whether the caller must replace what it
-- has. The offsets are int64.
unfoldable pub output_since : ℤ → Task → Bytes × ℕ × Bool
output_since (negsuc n) t = (t.output, t.written - length t.output, false)
output_since (pos since) t =
    let from = t.written - length t.output in
    if ltb since from
    then (t.output, from, true)
    else let upto = if ltb t.written since then t.written else since in
      let offset = if ltb (length t.output) (upto - from) then length t.output else upto - from in
      (drop offset t.output, upto, false)
