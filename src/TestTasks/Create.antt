-- ===== src/TestTasks/Create.antt =====
-- Making test tasks: create_test_tasks of alws/crud/test.py and what calls it. What Pulp knows of a
-- package is a parameter.
use albs_web_server.Prelude.{
  ℕ, suc, ◌+◌, String, Bool, false, not, List, [], ◌∷◌, ◌++◌, map, Option, none, some, filter, any,
  head?, length, if◌then◌else◌, ◌==◌, nat_eq, string_eq, ◌&&◌, Result, ok, err, Error, ◌>>=◌,
}
use albs_web_server.Constants.Statuses.{BuildTaskStatus, status_eq}
use albs_web_server.BuildNode.Db.{BuildTask, BuildTaskArtifact, BuildRepo, find_task}
use albs_web_server.TestTasks.Db.{
  TestTaskStatus, test_status_eq, TestTask, TestDb, set_cancel_testing, max_revision, tests_of,
}

-- What Pulp knows of a package.
pub record RpmPackage : Type 0 where
  pub name : String
  pub version : String
  pub release : String
  pub arch : String

-- `__get_log_repository`, of a build's identifier.
unfoldable pub find_test_log_repository : TestDb → ℕ → Result BuildRepo
find_test_log_repository db build_id =
    elim (head? (filter (λ r. r.build_id == build_id && r.type == "test_log") db.queue.repos)) [
      | none ↦ err Error.value_error
      | some repository ↦ ok repository
    ]

unfoldable pub get_log_repository : TestDb → ℕ → Result BuildRepo
get_log_repository db build_id =
    if any (λ b. b.id == build_id) db.builds
    then find_test_log_repository db build_id
    else err Error.attribute_error

-- A latest revision of None or 0 is followed by 1.
unfoldable pub new_revision : ℕ → TestDb → ℕ
new_revision build_task_id db = elim (max_revision (tests_of build_task_id db)) [
  | none ↦ 1
  | some latest ↦ suc latest
]

module _ (pulp_package : String → Option RpmPackage) where
  -- The loop over the artifacts, of which the rows are numbered from `id` on.
  unfoldable pub test_tasks_for :
      BuildTask → ℕ → String → ℕ → List BuildTaskArtifact → List TestTask
  test_tasks_for build_task revision repository id [] = []
  test_tasks_for build_task revision repository id (artifact ∷ artifacts) =
      let rest = test_tasks_for build_task revision repository (suc id) artifacts in
      let skipped = test_tasks_for build_task revision repository id artifacts in
      elim (pulp_package artifact.href) [
        | none ↦ skipped
        | some info ↦
            if artifact.type == "rpm" && not (info.arch == "src")
            then (record {
              id = id;
              build_task_id = build_task.id;
              package_name = info.name;
              package_version = info.version;
              package_release = if info.release == "" then none else some info.release;
              env_arch = build_task.arch;
              status = TestTaskStatus.created;
              revision = revision;
              repository = some repository;
              scheduled_at = none;
              started_at = none;
              finished_at = none;
            })
              ∷ rest
            else skipped
      ]

  unfoldable pub create_test_tasks : TestDb → ℕ → String → Result TestDb
  create_test_tasks db build_task_id repository = elim (find_task build_task_id db.queue) [
    | none ↦ err Error.attribute_error
    | some build_task ↦
        let tasks =
          test_tasks_for build_task (new_revision build_task_id db) repository db.next_id
            (filter (λ a. a.build_task_id == build_task.id) db.queue.artifacts) in
        ok (record db { test_tasks = db.test_tasks ++ tasks; next_id = db.next_id + length tasks })
  ]

  unfoldable pub create_for_all : TestDb → List ℕ → String → Result TestDb
  create_for_all db [] repository = ok db
  create_for_all db (build_task_id ∷ ids) repository = do
    db' ← create_test_tasks db build_task_id repository
    create_for_all db' ids repository

  unfoldable pub create_test_tasks_for_build_id : TestDb → ℕ → Result TestDb
  create_test_tasks_for_build_id db build_id = do
    repository ← get_log_repository db build_id
    create_for_all db
        (map (λ t. t.id)
          (filter
            (λ t.
              t.build_id == build_id
              && (t.status == BuildTaskStatus.completed && not (t.arch == "src")))
            db.queue.tasks))
        repository.pulp_href

  -- Whether a test of the latest revision has failed.
  unfoldable pub has_failed_tests : TestDb → ℕ → Bool
  has_failed_tests db build_task_id =
      let test_tasks = tests_of build_task_id db in
      elim (max_revision test_tasks) [
        | none ↦ false
        | some last_revision ↦
            any (λ t. t.revision == last_revision && t.status == TestTaskStatus.failed) test_tasks
      ]

  -- The tasks and their tests are read before the loop.
  unfoldable pub restart_build_tests : TestDb → ℕ → Result TestDb
  restart_build_tests db build_id = do
    let uncancelled = set_cancel_testing build_id false db
    repository ← get_log_repository uncancelled build_id
    create_for_all uncancelled
        (filter (has_failed_tests uncancelled)
          (map (λ t. t.id) (filter (λ t. t.build_id == build_id) db.queue.tasks)))
        repository.pulp_href

  unfoldable pub restart_build_task_tests : TestDb → ℕ → Result TestDb
  restart_build_task_tests db build_task_id = elim (find_task build_task_id db.queue) [
    | none ↦ err Error.attribute_error
    | some build_task ↦ do
      repository ← find_test_log_repository db build_task.build_id
      create_test_tasks db build_task_id repository.pulp_href
  ]
