-- ===== src/Daemon/Tasks/Stages.antt =====
-- The plan of a task, and how a task ends.
use maid_cafe.Base.{
  Option, ℕ, if◌then◌else◌, All, ◌≡◌, ◌≢◌, Bool, true, false, none, some, List, [], ◌∷◌, arith, map,
  ◌∙◌, ap, refl,
}
use maid_cafe.Base.Text.{Bytes}
use maid_cafe.Daemon.Tasks.{
  planned_stages, is_pending, is_running, Stage, Status, running, succeeded, failed, canceled,
  pending, start_stage, finish_stage, stage_started, stage_finished, Task,
}

-- The times of a stage by its status: a pending one has none, a running one has its start, and one
-- that is over has its start and its end. No stage is `canceled`.
abbrev pub TimesFit : Status → Option ℕ → Option ℕ → Type 0
TimesFit pending start end = (start ≡ none) × (end ≡ none)
TimesFit running start end = (start ≢ none) × (end ≡ none)
TimesFit succeeded start end = (start ≢ none) × (end ≢ none)
TimesFit failed start end = (start ≢ none) × (end ≢ none)
TimesFit canceled start end = ⊥

abbrev pub Timed : Stage → Type 0
Timed s = TimesFit s.status s.started_at s.finished_at

Timed-start :
    (s : Stage) (now : ℕ)
    → Timed s
    → is_pending s.status ≡ true
    → Timed (record s { status = running; started_at = some now })
unfolding is_pending
Timed-start s now h p = go s.status h p
  where
    go :
        (status : Status)
        → TimesFit status s.started_at s.finished_at
        → is_pending status ≡ true
        → TimesFit running (some now) s.finished_at
    go pending h p = (λ e. cc e, h.1)
    go running h p = cc
    go succeeded h p = cc
    go failed h p = cc
    go canceled h p = cc

Timed-finish :
    (s : Stage) (fine : Bool) (now : ℕ)
    → Timed s
    → is_running s.status ≡ true
    → Timed (record s { status = if fine then succeeded else failed; finished_at = some now })
unfolding is_running
Timed-finish s fine now h p = go s.status fine h p
  where
    go :
        (status : Status) (fine : Bool)
        → TimesFit status s.started_at s.finished_at
        → is_running status ≡ true
        → TimesFit (if fine then succeeded else failed) s.started_at (some now)
    go running true h p = (h.0, λ e. cc e)
    go running false h p = (h.0, λ e. cc e)
    go pending fine h p = cc
    go succeeded fine h p = cc
    go failed fine h p = cc
    go canceled fine h p = cc

All-start_stage :
    (label : Bytes) (now : ℕ) (stages : List Stage)
    → All Timed stages
    → All Timed (start_stage label now stages)
unfolding start_stage
All-start_stage label now [] h = h
All-start_stage label now (s ∷ rest) (p, h) =
    ground (arith, All-start_stage label now rest h, Timed-start s now)

All-finish_stage :
    (label : Bytes) (fine : Bool) (now : ℕ) (stages : List Stage)
    → All Timed stages
    → All Timed (finish_stage label fine now stages)
unfolding finish_stage
All-finish_stage label fine now [] h = h
All-finish_stage label fine now (s ∷ rest) (p, h) =
    ground (arith, All-finish_stage label fine now rest h, Timed-finish s fine now)

labels-start_stage :
    (label : Bytes) (now : ℕ) (stages : List Stage)
    → map (λ s. s.label) (start_stage label now stages) ≡ map (λ s. s.label) stages
unfolding start_stage
labels-start_stage label now [] = refl
labels-start_stage label now (s ∷ rest) = ground (arith, labels-start_stage label now rest)

labels-finish_stage :
    (label : Bytes) (fine : Bool) (now : ℕ) (stages : List Stage)
    → map (λ s. s.label) (finish_stage label fine now stages) ≡ map (λ s. s.label) stages
unfolding finish_stage
labels-finish_stage label fine now [] = refl
labels-finish_stage label fine now (s ∷ rest) =
    ground (arith, labels-finish_stage label fine now rest)

-- A plan: the stages of the planned labels in the planned order, with the times that their statuses
-- call for.
pub record IsPlan (labels : List Bytes) (stages : List Stage) : Type 0 where
  pub planned : map (λ s. s.label) stages ≡ labels
  pub times : All Timed stages

pub IsPlan-stage_started :
    (label : Bytes) (now : ℕ) {labels : List Bytes} (t : Task)
    → IsPlan labels t.stages
    → IsPlan labels (stage_started label now t).stages
unfolding stage_started
IsPlan-stage_started label now t h = record {
  planned = labels-start_stage label now t.stages ∙ h.planned;
  times = All-start_stage label now t.stages h.times;
}

pub IsPlan-stage_finished :
    (label : Bytes) (fine : Bool) (now : ℕ) {labels : List Bytes} (t : Task)
    → IsPlan labels t.stages
    → IsPlan labels (stage_finished label fine now t).stages
unfolding stage_finished
IsPlan-stage_finished label fine now t h = record {
  planned = labels-finish_stage label fine now t.stages ∙ h.planned;
  times = All-finish_stage label fine now t.stages h.times;
}

pub IsPlan-planned : (labels : List Bytes) → IsPlan labels (planned_stages labels)
unfolding planned_stages
IsPlan-planned [] = record { planned = refl; times = tt }
IsPlan-planned (label ∷ labels) =
    let rest = IsPlan-planned labels in
    record { planned = ap (λ ls. label ∷ ls) rest.planned; times = ((refl, refl), rest.times) }
