-- ===== src/Daemon/Tests/TaskTests.antt =====
-- Tasks of internal/daemon/tasks.go and a store of two.
use maid_cafe.Base.{◌≡◌, refl, true, List, [], ◌∷◌, ◌++◌, take, filter, All, arith, ◌+◌}
use maid_cafe.Base.Text.{Bytes, codes, str_eq}
use maid_cafe.Base.Int.{pos}
use maid_cafe.Daemon.Tasks.{
  Task, Response, new_op_task, write, finish, output_since, no_error, finished,
}
use maid_cafe.Daemon.Tasks.Output.{
  Retains, write-Retains, catch_up, output_since-catch_up, output_since_extends,
}
use maid_cafe.Daemon.Tasks.Lifecycle.{
  Call, begin_stage, end_stage, output, cancel, done, run, outputs, endings, IsTask, IsTask-new,
  run-IsTask,
}
use maid_cafe.Daemon.TaskStore.{
  TaskStore, new_task_store, add, get, insert, lookup, is_over, task_history_limit,
}
use maid_cafe.Daemon.TaskStore.Evict.{Lacks, is_live}
use maid_cafe.Daemon.TaskStore.History.{IsStore, add-kept, add-IsStore}

abbrev plan : List Bytes
plan = codes "pull" ∷ codes "restart" ∷ []

abbrev fresh : Task
fresh = new_op_task (codes "1") (codes "update") (codes "Update") [] (codes "relay") [] plan true 10

abbrev answer : Response
answer = record {
  ok = true;
  name = codes "update";
  exit_code = pos 0;
  stdout = codes "ok";
  stderr = [];
  error = [];
}

fresh-Retains : Retains fresh []
unfolding new_op_task
fresh-Retains = record { counted = refl; kept = refl }

fresh-IsTask : IsTask plan [] 0 fresh
fresh-IsTask =
    IsTask-new (codes "1") (codes "update") (codes "Update") [] (codes "relay") [] plan true 10

write-Retains_example : Retains (write (codes "pulled") fresh).0 ([] ++ codes "pulled")
write-Retains_example = write-Retains (codes "pulled") [] fresh fresh-Retains

abbrev pulled : Task
pulled = (write (codes "pulled") fresh).0

output_since-catch_up_example : output_since (pos 4) pulled ≡ catch_up (pos 4) (codes "pulled")
output_since-catch_up_example =
    output_since-catch_up (pos 4) (codes "pulled") pulled
      (write-Retains (codes "pulled") [] fresh fresh-Retains)

output_since_extends_example :
    take 4 (codes "pulled") ++ (output_since (pos 4) pulled).0 ≡ codes "pulled"
unfolding output_since write new_op_task
output_since_extends_example =
    output_since_extends 4 (codes "pulled") pulled
      (write-Retains (codes "pulled") [] fresh fresh-Retains) (omega arith) refl

abbrev calls : List Call
calls =
    begin_stage (codes "pull") 11
    ∷ output (codes "pulled")
    ∷ end_stage (codes "pull") true 12
    ∷ cancel
    ∷ done answer no_error 60 13
    ∷ []

run-IsTask_example : IsTask plan ([] ++ outputs calls) (0 + endings calls) (run calls fresh)
run-IsTask_example = run-IsTask calls plan [] 0 fresh fresh-IsTask

abbrev over : Task
over = finish answer no_error 60 13 fresh

abbrev second : Task
second =
    new_op_task (codes "2") (codes "update") (codes "Update") [] (codes "relay") [] plan true 20

abbrev one_over : TaskStore
one_over = add over new_task_store

new_task_store-IsStore : IsStore new_task_store
new_task_store-IsStore = record { distinct = tt; present = tt }

first-Lacks : Lacks over.id new_task_store.order
first-Lacks = tt

one_over-IsStore : IsStore one_over
one_over-IsStore = add-IsStore over new_task_store new_task_store-IsStore first-Lacks

second-Lacks : Lacks second.id one_over.order
unfolding add finish new_op_task str_eq filter finished
second-Lacks = (refl, tt)

add-kept_example :
    (filter (is_live (insert second.id second one_over.by_id)) (add second one_over).order
      ≡ filter (is_live (insert second.id second one_over.by_id)) (second.id ∷ one_over.order))
    × (filter (is_over (insert second.id second one_over.by_id)) (add second one_over).order
        ≡ take task_history_limit (
            filter (is_over (insert second.id second one_over.by_id)) (second.id ∷ one_over.order)))
    × All
        (λ id. get id (add second one_over) ≡ lookup id (insert second.id second one_over.by_id))
        (add second one_over).order
add-kept_example = add-kept second one_over one_over-IsStore second-Lacks

add-IsStore_example : IsStore (add second one_over)
add-IsStore_example = add-IsStore second one_over one_over-IsStore second-Lacks
