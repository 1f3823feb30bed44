-- ===== src/BuildNode/Restart.antt =====
-- Restarting the failed tasks of a build: get_failed_build_tasks_matrix, update_failed_build_items,
-- update_failed_build_items_in_parallel and mark_build_tasks_as_cancelled of
-- alws/crud/build_node.py.
use albs_web_server.Prelude.{
  is_set, ℕ, String, Bool, List, [], ◌∷◌, ◌++◌, Option, none, some, filter, any, if◌then◌else◌,
  ◌==◌, nat_eq, string_eq, pair_eq, nat_beq, ltb, leb, not, ◌&&◌, ◌||◌, length, values, lookup,
  insert, contains,
}
use albs_web_server.Constants.Statuses.{BuildTaskStatus, status_eq, value}
use albs_web_server.BuildNode.Db.{
  BuildTask, Db, update_where, add_build_task_dependencies, find_task,
}

-- A row of the matrix: the tasks of one project, by platform and architecture.
abbrev pub Row : Type 0
Row = List ((ℕ × String) × BuildTask)

-- `order_by(models.BuildTask.index, models.BuildTask.id)`.
unfoldable pub is_before : BuildTask → BuildTask → Bool
is_before s t = ltb s.index t.index || (s.index == t.index && leb s.id t.id)

unfoldable pub insert_ordered : BuildTask → List BuildTask → List BuildTask
insert_ordered t [] = t ∷ []
insert_ordered t (s ∷ tasks) = if is_before t s then t ∷ s ∷ tasks else s ∷ insert_ordered t tasks

unfoldable pub order_by_index : List BuildTask → List BuildTask
order_by_index [] = []
order_by_index (t ∷ tasks) = insert_ordered t (order_by_index tasks)

-- `tasks_matrix[idx][matrix_key] = task`, with an empty row for a new index.
unfoldable pub add_to_matrix : List (ℕ × Row) → BuildTask → List (ℕ × Row)
add_to_matrix matrix task =
    let row : Row = elim (lookup task.index matrix) [ none ↦ [] | some found ↦ found ] in
    insert task.index (insert (task.platform_id, task.arch) task row) matrix

unfoldable pub tasks_matrix : List (ℕ × Row) → List BuildTask → List (ℕ × Row)
tasks_matrix matrix [] = matrix
tasks_matrix matrix (task ∷ tasks) = tasks_matrix (add_to_matrix matrix task) tasks

unfoldable pub is_failed : BuildTask → Bool
is_failed task = task.status == BuildTaskStatus.failed

-- The rows that have a failed task. The code numbers them from 0, in the order of the list.
unfoldable pub get_failed_build_tasks_matrix : Db → ℕ → List Row
get_failed_build_tasks_matrix db build_id =
    let build_tasks = order_by_index (
      filter (λ t. t.build_id == build_id && leb (value t.status) (value BuildTaskStatus.failed))
        db.tasks) in
    filter (λ row. any is_failed (values row)) (values (tasks_matrix [] build_tasks))

-- The task becomes idle again, and forgets its source RPM if that is to be dropped.
unfoldable pub restarted : Bool → BuildTask → BuildTask
restarted drop_srpm task = record task {
  built_srpm_url = if is_set task.built_srpm_url && drop_srpm then none else task.built_srpm_url;
  status = BuildTaskStatus.idle;
  ts = none;
}

unfoldable pub restart_task : Bool → BuildTask → Db → Db
restart_task drop_srpm task db = update_where (λ t. t.id == task.id) (restarted drop_srpm) db

-- `if dep is not None: task.dependencies.append(dep)`.
unfoldable pub depend_on : ℕ → Option ℕ → Db → Db
depend_on task none db = db
depend_on task (some dep) db = add_build_task_dependencies task dep db

-- The loop over the failed tasks of a row, with the task that was restarted last.
unfoldable pub restart_failed : Bool → Option ℕ → List BuildTask → Db → Option ℕ × Db
restart_failed drop_srpm last_task [] db = (last_task, db)
restart_failed drop_srpm last_task (task ∷ failed_tasks) db =
    restart_failed drop_srpm (some task.id) failed_tasks
      (depend_on task.id last_task (restart_task drop_srpm task db))

unfoldable pub failed_tasks_of : Row → List BuildTask
failed_tasks_of row = filter is_failed (values row)

-- The source RPM is dropped if every task of the row has failed.
unfoldable pub drops_srpm : Row → Bool
drops_srpm row = nat_beq (length (failed_tasks_of row)) (length row)

unfoldable pub restart_rows : Option ℕ → List Row → Db → Db
restart_rows last_task [] db = db
restart_rows last_task (row ∷ rows) db =
    let (last, db') = restart_failed (drops_srpm row) last_task (failed_tasks_of row) db in
    restart_rows last rows db'

unfoldable pub update_failed_build_items : Db → ℕ → Db
update_failed_build_items db build_id =
    restart_rows none (get_failed_build_tasks_matrix db build_id) db

-- In parallel: the task waits for the idle task with the same key in each row before its own, the
-- nearest first.
unfoldable pub depend_on_previous : ℕ × String → ℕ → List Row → Db → Db
depend_on_previous key task [] db = db
depend_on_previous key task (row ∷ rows) db =
    depend_on_previous key task rows (elim (lookup key row) [
      | none ↦ db
      | some dep ↦ elim (find_task dep.id db) [
        | none ↦ db
        | some now ↦
            if now.status == BuildTaskStatus.idle
            then add_build_task_dependencies task dep.id db
            else db
      ]
    ])

-- The loop over the keys of a row; `completed` says that a task of the row is completed, and
-- `first_index_dep` is the first task of the row that was restarted, if it is to be waited for.
unfoldable pub restart_in_row : Bool → Bool → List Row → Option ℕ → Row → Db → Db
restart_in_row drop_srpm completed previous first_index_dep [] db = db
restart_in_row drop_srpm completed previous first_index_dep ((key, task) ∷ entries) db =
    let after =
      depend_on_previous key task.id previous
        (depend_on task.id first_index_dep (restart_task drop_srpm task db)) in
    let first : Option ℕ = elim first_index_dep [
      | none ↦ if completed then none else some task.id
      | some dep ↦ some dep
    ] in
    let skipped = restart_in_row drop_srpm completed previous first_index_dep entries db in
    let restarted_one = restart_in_row drop_srpm completed previous first entries after in
    if is_failed task then restarted_one else skipped

-- `sorted(keys, key=lambda x: x[1] == "src", reverse=True)`, which is stable.
unfoldable pub src_first : Row → Row
src_first row =
    filter (λ entry. entry.0.1 == "src") row ++ filter (λ entry. not (entry.0.1 == "src")) row

unfoldable pub restart_rows_in_parallel : List Row → List Row → Db → Db
restart_rows_in_parallel previous [] db = db
restart_rows_in_parallel previous (row ∷ rows) db =
    let completed = any (λ t. t.status == BuildTaskStatus.completed) (values row) in
    restart_rows_in_parallel (row ∷ previous) rows
      (restart_in_row (drops_srpm row) completed previous none (src_first row) db)

unfoldable pub update_failed_build_items_in_parallel : Db → ℕ → Db
update_failed_build_items_in_parallel db build_id =
    restart_rows_in_parallel [] (get_failed_build_tasks_matrix db build_id) db

unfoldable pub mark_build_tasks_as_cancelled : Db → ℕ → Db
mark_build_tasks_as_cancelled db build_id =
    update_where (λ t. t.build_id == build_id && t.status == BuildTaskStatus.idle)
      (λ t. record t {
        status = BuildTaskStatus.cancelled;
        error = some "Build task cancelled by user";
      })
      db

unfoldable pub ping_tasks : Db → List ℕ → ℕ → Db
ping_tasks db task_list now =
    update_where (λ t. contains task_list t.id) (λ t. record t { ts = some now }) db
