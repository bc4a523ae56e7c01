-- ===== src/Daemon/TaskStore.antt =====
-- `taskStore` of internal/daemon/tasks.go: the recent tasks by id, and the order of their ids. The map
-- is an association list, whose order no operation reads. A task is shared with the goroutine that
-- runs it, so its status may change between two calls; within a call it is read once.
pub mod Map
pub mod Evict
pub mod History
use maid_cafe.Base.{
  ltb, leb, ◌==◌, if◌then◌else◌, ltb→lt, leb→le, ==_iff, Bool-cases, &&_split, length, get_elem?,
  take, drop, All, filter, length-append, length-drop, drop-append, drop-drop, take-append-drop,
  All-append, Result, ok, err, ◌>>=◌, ◌>>◌, guard, Option-cases, Result-cases, ℕ, zero, suc, ◌+◌,
  ◌-◌, ◌*◌, ◌/◌, ◌%◌, ◌^◌, ◌≤◌, ◌<◌, ◌≡◌, refl, sym, ap, ◌∙◌, ◌≢◌, ◌↔◌, ◌⊎◌, inl, inr, Bool, true,
  false, not, ◌&&◌, ◌||◌, Option, none, some, List, [], ◌∷◌, ◌++◌, map, append-nil, append_assoc,
  arith,
}
use maid_cafe.Base.Text.{Bytes, str_eq}
use maid_cafe.Base.Int.{ℤ, pos, negsuc}
use maid_cafe.Daemon.Tasks.{Task, finished, cancel_run}

pub record TaskStore : Type 0 where
  pub by_id : List (Bytes × Task)
  -- newest first
  pub order : List Bytes

-- `taskHistoryLimit`
abbrev pub task_history_limit : ℕ
task_history_limit = 32

abbrev pub new_task_store : TaskStore
new_task_store = record { by_id = []; order = [] }

-- `byID[id]`
unfoldable pub lookup : Bytes → List (Bytes × Task) → Option Task
lookup id [] = none
lookup id ((k, t) ∷ m) = let rest = lookup id m in if str_eq k id then some t else rest

-- `delete(byID, id)`
unfoldable pub delete : Bytes → List (Bytes × Task) → List (Bytes × Task)
delete id [] = []
delete id ((k, t) ∷ m) = let rest = delete id m in if str_eq k id then rest else (k, t) ∷ rest

-- `byID[id] = t`
unfoldable pub insert : Bytes → Task → List (Bytes × Task) → List (Bytes × Task)
unfolding delete
insert id t m = (id, t) ∷ delete id m

-- whether an id stands for a task that is over
unfoldable pub is_over : List (Bytes × Task) → Bytes → Bool
unfolding lookup
is_over m id = elim (lookup id m) [ none ↦ false | some t ↦ finished t ]

-- the test of the loop of `add`
abbrev pub evicts : Bytes → List (Bytes × Task) → ℕ → Bool
evicts id m over = ltb task_history_limit over && is_over m id

-- the loop of `add` from the end of the order: the ids and tasks that are left, and how many of the
-- tasks are over
unfoldable pub evict : List Bytes → List (Bytes × Task) → ℕ → List Bytes × List (Bytes × Task) × ℕ
unfolding is_over
evict [] m over = ([], m, over)
evict (id ∷ rest) m over =
    let (kept, m', over') = evict rest m over in
    if evicts id m' over' then (kept, delete id m', over' - 1) else (id ∷ kept, m', over')

-- `add`
unfoldable pub add : Task → TaskStore → TaskStore
unfolding evict insert
add t s =
    let m = insert t.id t s.by_id in
    let order = t.id ∷ s.order in
    let (kept, m', over) = evict order m (length (filter (is_over m) order)) in
    record { by_id = m'; order = kept }

-- `get`
unfoldable pub get : Bytes → TaskStore → Option Task
unfolding lookup
get id s = lookup id s.by_id

-- the tasks of the order that are still there
unfoldable pub ordered : List Bytes → List (Bytes × Task) → List Task
unfolding lookup
ordered [] m = []
ordered (id ∷ ids) m =
    let rest = ordered ids m in elim (lookup id m) [ none ↦ rest | some t ↦ t ∷ rest ]

-- `list`, whose views are the tasks themselves
unfoldable pub list : ℤ → TaskStore → List Task
unfolding ordered
list (negsuc n) s = ordered s.order s.by_id
list (pos limit) s =
    let tasks = ordered s.order s.by_id in
    if (limit == 0) || ltb (length tasks) limit then tasks else take limit tasks

-- `cancelAll`
unfoldable pub cancel_all : TaskStore → TaskStore
cancel_all s = record s { by_id = map (λ (e : Bytes × Task). (e.0, (cancel_run e.1).0)) s.by_id }
