-- ===== src/Daemon/Tasks/Lifecycle.antt =====
-- A task through any sequence of the calls that its run, its commands and its clients make.
use maid_cafe.Base.{
  ℕ, ◌≡◌, refl, ◌↔◌, Bool, true, false, none, List, [], ◌∷◌, ◌++◌, arith, ◌+◌, append-nil, ◌∙◌,
  append_assoc, not, ◌||◌, Bool-cases, inl, inr,
}
use native.Mathlib.Nat.{add-zero, add_assoc}
use maid_cafe.Base.Text.{Bytes}
use maid_cafe.Daemon.Tasks.{
  Task, new_op_task, stage_started, stage_finished, write, finish, outcome, cancel_run, Response,
  ContextError, is_running,
}
use maid_cafe.Daemon.Tasks.Output.{Retains, write-Retains}
use maid_cafe.Daemon.Tasks.Stages.{
  IsPlan, IsPlan-planned, IsPlan-stage_started, IsPlan-stage_finished,
}

pub data Call : Type 0 where
  begin_stage : Bytes → ℕ → Call
  end_stage : Bytes → Bool → ℕ → Call
  output : Bytes → Call
  cancel : Call
  done : Response → ContextError → ℕ → ℕ → Call

pub step : Call → Task → Task
step (begin_stage label now) t = stage_started label now t
step (end_stage label fine now) t = stage_finished label fine now t
step (output p) t = (write p t).0
step cancel t = (cancel_run t).0
step (done r e timeout now) t = finish r e timeout now t

unfoldable pub run : List Call → Task → Task
unfolding step
run [] t = t
run (c ∷ cs) t = run cs (step c t)

-- the output of one call, and of all
call_output : Call → Bytes
call_output (output p) = p
call_output c = []

pub outputs : List Call → Bytes
unfolding call_output
outputs [] = []
outputs (c ∷ cs) = call_output c ++ outputs cs

-- how often the calls end the run
call_endings : Call → ℕ
call_endings (done r e timeout now) = 1
call_endings c = 0

pub endings : List Call → ℕ
unfolding call_endings
endings [] = 0
endings (c ∷ cs) = call_endings c + endings cs

-- A task as its clients may rely on it: the plan, the account of the output, and that it is running,
-- without an end time, exactly as long as `done` is open.
pub record IsTask (labels : List Bytes) (history : Bytes) (closed : ℕ) (t : Task) : Type 0 where
  pub plan : IsPlan labels t.stages
  pub retains : Retains t history
  pub closings : t.done_closed ≡ closed
  pub ended : (is_running t.status ≡ true) ↔ (closed ≡ 0)
  pub end_time : (t.finished_at ≡ none) ↔ (closed ≡ 0)

pub IsTask-new :
    (id name display_name target source invoked_by : Bytes) (labels : List Bytes) (cancels : Bool)
    (now : ℕ)
    → IsTask labels [] 0
        (new_op_task id name display_name target source invoked_by labels cancels now)
unfolding new_op_task is_running
IsTask-new id name display_name target source invoked_by labels cancels now = record {
  plan = IsPlan-planned labels;
  retains = record { counted = refl; kept = refl };
  closings = refl;
  ended = (λ _. refl, λ _. refl);
  end_time = (λ _. refl, λ _. refl);
}

outcome-ended :
    (r : Response) (e : ContextError) (timeout : ℕ) → is_running (outcome r e timeout).0 ≡ false
unfolding outcome is_running
outcome-ended r e timeout = ground arith

stays :
    {labels : List Bytes} {history : Bytes} {closed : ℕ} (t t' : Task)
    → IsTask labels history closed t
    → IsPlan labels t'.stages
    → t'.written ≡ t.written
    → t'.output ≡ t.output
    → t'.done_closed ≡ t.done_closed
    → t'.status ≡ t.status
    → t'.finished_at ≡ t.finished_at
    → IsTask labels (history ++ []) (closed + 0) t'
stays {history} {closed} t t' h plan ew eo ed es ef =
    rw (append-nil, add-zero)
      (record {
        plan = plan;
        retains = record { counted = ew ∙ h.retains.counted; kept = eo ∙ h.retains.kept };
        closings = ed ∙ h.closings;
        ended = rw es h.ended;
        end_time = rw ef h.end_time;
      })

cancel_run-IsTask :
    (labels : List Bytes) (history : Bytes) (closed : ℕ) (t : Task)
    → IsTask labels history closed t
    → IsTask labels (history ++ []) (closed + 0) (cancel_run t).0
unfolding cancel_run
cancel_run-IsTask labels history closed t h =
    elim (Bool-cases (not (is_running t.status) || not t.has_cancel)) [
      | inl idle ↦ rw idle (stays t t h h.plan refl refl refl refl refl)
      | inr live ↦
          rw live (stays t (record t { cancelled = true }) h h.plan refl refl refl refl refl)
    ]

finish-IsTask :
    (r : Response) (e : ContextError) (timeout now : ℕ) (labels : List Bytes) (history : Bytes)
    (closed : ℕ) (t : Task)
    → IsTask labels history closed t
    → IsTask labels history (closed + 1) (finish r e timeout now t)
unfolding finish
finish-IsTask r e timeout now labels history closed t h =
    let over = outcome-ended r e timeout in
    record {
      plan = h.plan;
      retains = record { counted = h.retains.counted; kept = h.retains.kept };
      closings = omega (arith, h.closings);
      ended = (λ p. ground arith, λ p. absurd (omega arith));
      end_time = (λ p. cc p, λ p. absurd (omega arith));
    }

step-IsTask :
    (c : Call) (labels : List Bytes) (history : Bytes) (closed : ℕ) (t : Task)
    → IsTask labels history closed t
    → IsTask labels (history ++ call_output c) (closed + call_endings c) (step c t)
unfolding step call_output call_endings
step-IsTask (begin_stage label now) labels history closed t h =
    stays t (stage_started label now t) h (IsPlan-stage_started label now t h.plan)
      (unfold stage_started in refl) (unfold stage_started in refl) (unfold stage_started in refl)
      (unfold stage_started in refl) (unfold stage_started in refl)
step-IsTask (end_stage label fine now) labels history closed t h =
    stays t (stage_finished label fine now t) h (IsPlan-stage_finished label fine now t h.plan)
      (unfold stage_finished in refl) (unfold stage_finished in refl)
      (unfold stage_finished in refl) (unfold stage_finished in refl)
      (unfold stage_finished in refl)
step-IsTask (output p) labels history closed t h = rw add-zero (record {
  plan = unfold write in h.plan;
  retains = write-Retains p history t h.retains;
  closings = unfold write in h.closings;
  ended = unfold write in h.ended;
  end_time = unfold write in h.end_time;
})
step-IsTask cancel labels history closed t h = cancel_run-IsTask labels history closed t h
step-IsTask (done r e timeout now) labels history closed t h =
    rw append-nil (finish-IsTask r e timeout now labels history closed t h)

-- Whatever the calls on a task and their order, the task keeps its plan with the times that fit the
-- statuses, counts all output and retains the last `taskOutputLimit` bytes of it, has its `done`
-- closed once for each end of the run, and is running, without an end time, exactly until the
-- first.
pub run-IsTask :
    (cs : List Call) (labels : List Bytes) (history : Bytes) (closed : ℕ) (t : Task)
    → IsTask labels history closed t
    → IsTask labels (history ++ outputs cs) (closed + endings cs) (run cs t)
unfolding run outputs endings
run-IsTask [] labels history closed t h = rw (append-nil, add-zero) h
run-IsTask (c ∷ cs) labels history closed t h =
    rw (← append_assoc, ← add_assoc)
      (run-IsTask cs labels (history ++ call_output c) (closed + call_endings c) (step c t)
        (step-IsTask c labels history closed t h))
