-- ===== src/TestTasks/Db.antt =====
-- The tables that alws/crud/test.py works on, and get_available_test_tasks, cancel_build_tests and
-- get_test_tasks_by_build_task. The payload for the test system is left out.
use albs_web_server.Prelude.{
  ℕ, String, Bool, true, List, [], ◌∷◌, map, Option, none, some, filter, contains, take,
  if◌then◌else◌, ◌==◌, nat_eq, nat_beq, Eq, ◌&&◌, leb, ltb, ◌≡◌, ◌↔◌, arith,
}
use albs_web_server.BuildNode.Db.{Db}

pub data TestTaskStatus : Type 0 where
  created started completed failed cancelled : TestTaskStatus

unfoldable pub test_value : TestTaskStatus → ℕ
test_value TestTaskStatus.created = 1
test_value TestTaskStatus.started = 2
test_value TestTaskStatus.completed = 3
test_value TestTaskStatus.failed = 4
test_value TestTaskStatus.cancelled = 5

pub test_status_beq_iff :
    (s t : TestTaskStatus) → (nat_beq (test_value s) (test_value t) ≡ true) ↔ (s ≡ t)
unfolding test_value
test_status_beq_iff s t = ground arith

instance abbrev pub test_status_eq : Eq TestTaskStatus
test_status_eq = record {
  beq = λ s t. nat_beq (test_value s) (test_value t);
  beq_iff = test_status_beq_iff;
}

-- A row of `test_tasks` (models.TestTask). The repository is named by its address.
pub record TestTask : Type 0 where
  pub id : ℕ
  pub build_task_id : ℕ
  pub package_name : String
  pub package_version : String
  pub package_release : Option String
  pub env_arch : String
  pub status : TestTaskStatus
  pub revision : ℕ
  pub repository : Option String
  pub scheduled_at : Option ℕ
  pub started_at : Option String
  pub finished_at : Option ℕ

-- A row of `test_task_artifacts`.
pub record TestTaskArtifact : Type 0 where
  pub name : String
  pub href : String
  pub test_task_id : ℕ

-- A row of `builds`, with what the tests read of it.
pub record TestedBuild : Type 0 where
  pub id : ℕ
  pub cancel_testing : Bool

-- The tables of the queue, those of the tests, and the sequence that numbers the test tasks.
pub record TestDb : Type 0 where
  pub queue : Db
  pub builds : List TestedBuild
  pub test_tasks : List TestTask
  pub test_artifacts : List TestTaskArtifact
  pub next_id : ℕ

-- `order_by(models.TestTask.id.asc())`.
unfoldable pub insert_by_id : TestTask → List TestTask → List TestTask
insert_by_id task [] = task ∷ []
insert_by_id task (t ∷ tasks) =
    let rest = insert_by_id task tasks in if leb task.id t.id then task ∷ t ∷ tasks else t ∷ rest

unfoldable pub order_by_id : List TestTask → List TestTask
order_by_id [] = []
order_by_id (task ∷ tasks) = insert_by_id task (order_by_id tasks)

unfoldable pub is_created : TestTask → Bool
is_created task = task.status == TestTaskStatus.created

unfoldable pub update_test_tasks : (TestTask → Bool) → (TestTask → TestTask) → TestDb → TestDb
update_test_tasks test values db = record db {
  test_tasks = map (λ t. if test t then values t else t) db.test_tasks;
}

-- The tasks that are sent to the test system: the first ten that nobody has sent yet.
unfoldable pub get_available_test_tasks : ℕ → TestDb → List TestTask × TestDb
get_available_test_tasks now db =
    let tasks = take 10 (order_by_id (filter is_created db.test_tasks)) in
    let start =
      λ (t : TestTask). record t { status = TestTaskStatus.started; scheduled_at = some now } in
    (map start tasks, update_test_tasks (λ t. contains (map (λ s. s.id) tasks) t.id) start db)

unfoldable pub set_cancel_testing : ℕ → Bool → TestDb → TestDb
set_cancel_testing build_id flag db = record db {
  builds = map (λ b. if b.id == build_id then record b { cancel_testing = flag } else b) db.builds;
}

unfoldable pub build_task_ids : ℕ → TestDb → List ℕ
build_task_ids build_id db = map (λ t. t.id) (filter (λ t. t.build_id == build_id) db.queue.tasks)

-- The tables, and the started tasks that the test system is told to cancel.
unfoldable pub cancel_build_tests : TestDb → ℕ → TestDb × List ℕ
cancel_build_tests db build_id =
    let ids = build_task_ids build_id db in
    let cancelled =
      update_test_tasks (λ t. is_created t && contains ids t.build_task_id)
        (λ t. record t { status = TestTaskStatus.cancelled })
        (set_cancel_testing build_id true db) in
    (
      cancelled,
      map (λ t. t.id)
          (filter (λ t. t.status == TestTaskStatus.started && contains ids t.build_task_id)
            cancelled.test_tasks),
    )

-- `max(revision)`, of no rows None.
unfoldable pub max_revision : List TestTask → Option ℕ
max_revision [] = none
max_revision (task ∷ tasks) = elim (max_revision tasks) [
  | none ↦ some task.revision
  | some revision ↦ some (if ltb revision task.revision then task.revision else revision)
]

unfoldable pub tests_of : ℕ → TestDb → List TestTask
tests_of build_task_id db = filter (λ t. t.build_task_id == build_task_id) db.test_tasks

-- `revision` of None or 0 is the latest one.
unfoldable pub get_test_tasks_by_build_task : TestDb → ℕ → Bool → Option ℕ → List TestTask
get_test_tasks_by_build_task db build_task_id latest revision =
    let tasks = tests_of build_task_id db in
    let newest : List TestTask = elim (max_revision tasks) [
      | none ↦ []
      | some last ↦ filter (λ t. t.revision == last) tasks
    ] in
    if latest then newest else elim revision [
      | none ↦ newest
      | some wanted ↦ if wanted == 0 then newest else filter (λ t. t.revision == wanted) tasks
    ]
