-- ===== src/Daemon/TaskStore/History.antt =====
-- Which tasks `add` keeps.
use maid_cafe.Base.{
  if◌then◌else◌, length, take, All, filter, ◌≡◌, sym, ◌∙◌, ◌≢◌, Bool, true, false, none, some, List,
  [], ◌∷◌,
}
use maid_cafe.Base.Text.{Bytes, str_eq, str_eq_refl}
use maid_cafe.Daemon.Tasks.{Task}
use maid_cafe.Daemon.TaskStore.{
  TaskStore, task_history_limit, lookup, insert, is_over, evict, add, get,
}
use maid_cafe.Daemon.TaskStore.Map.{lookup-insert}
use maid_cafe.Daemon.TaskStore.Evict.{
  Lacks, Distinct, evict-Evicted, Distinct-evict, All-evict, take_newest, is_live,
}

-- The ids of a store are distinct, and each has its task.
pub record IsStore (s : TaskStore) : Type 0 where
  pub distinct : Distinct s.order
  pub present : All (λ id. lookup id s.by_id ≢ none) s.order

-- Adding a task with a new id keeps, in their order, the ids of all tasks that are not over and of
-- the newest `taskHistoryLimit` tasks that are over, and no other; each keeps its task.
pub add-kept :
    (t : Task) (s : TaskStore)
    → IsStore s
    → Lacks t.id s.order
    → (filter (is_live (insert t.id t s.by_id)) (add t s).order
        ≡ filter (is_live (insert t.id t s.by_id)) (t.id ∷ s.order))
      × (filter (is_over (insert t.id t s.by_id)) (add t s).order
          ≡ take task_history_limit (filter (is_over (insert t.id t s.by_id)) (t.id ∷ s.order)))
      × All (λ id. get id (add t s) ≡ lookup id (insert t.id t s.by_id)) (add t s).order
unfolding add get
add-kept t s valid new =
    let m = insert t.id t s.by_id in
    let ids = t.id ∷ s.order in
    let count = length (filter (is_over m) ids) in
    let r = evict-Evicted ids m count (new, valid.distinct) in
    (r.live, r.newest ∙ take_newest task_history_limit (filter (is_over m) ids), r.same)

All-present :
    (ids : List Bytes) (m m' : List (Bytes × Task))
    → All (λ k. lookup k m' ≡ lookup k m) ids
    → All (λ k. lookup k m ≢ none) ids
    → All (λ k. lookup k m' ≢ none) ids
All-present [] m m' same h = tt
All-present (id ∷ ids) m m' (e, same) (h, hs) =
    (λ absent. h (sym e ∙ absent), All-present ids m m' same hs)

present-insert :
    (id : Bytes) (t : Task) (m : List (Bytes × Task)) (ids : List Bytes)
    → All (λ k. lookup k m ≢ none) ids
    → All (λ k. lookup k (insert id t m) ≢ none) ids
present-insert id t m [] h = tt
present-insert id t m (k ∷ ids) (h, hs) =
    (rw lookup-insert (go (str_eq id k)), present-insert id t m ids hs)
  where
    go : (b : Bool) → (if b then some t else lookup k m) ≢ none
    go true = λ e. cc e
    go false = h

-- A store stays one when a task with a new id is added.
pub add-IsStore : (t : Task) (s : TaskStore) → IsStore s → Lacks t.id s.order → IsStore (add t s)
unfolding add
add-IsStore t s valid new =
    let m = insert t.id t s.by_id in
    let ids = t.id ∷ s.order in
    let count = length (filter (is_over m) ids) in
    let here : lookup t.id m ≢ none =
      rw (lookup-insert t.id t.id t s.by_id, str_eq_refl t.id) (λ e. cc e) in
    record {
      distinct = Distinct-evict ids m count (new, valid.distinct);
      present =
          All-present (evict ids m count).0 m (evict ids m count).1
            (evict-Evicted ids m count (new, valid.distinct)).same
            (All-evict (λ k. lookup k m ≢ none) ids m count
              (here, present-insert t.id t s.by_id s.order valid.present));
    }
