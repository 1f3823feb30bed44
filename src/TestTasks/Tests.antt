-- ===== src/TestTasks/Tests.antt =====
-- A build of one package with a test that is sent, fails and is made again.
use albs_web_server.Prelude.{
  ◌<◌, length, drop, String, Bool, true, false, List, [], ◌∷◌, Option, none, some, Result, ok, err,
  ◌≡◌, refl, Memᴰ, arith,
}
use albs_web_server.Constants.Statuses.{BuildTaskStatus}
use albs_web_server.BuildNode.Db.{BuildTask, find_task}
use albs_web_server.TestTasks.Db.{
  TestTaskStatus, test_value, TestTask, TestDb, is_created, insert_by_id, order_by_id,
  update_test_tasks, get_available_test_tasks, set_cancel_testing, build_task_ids,
  cancel_build_tests, max_revision, tests_of, get_test_tasks_by_build_task,
}
use albs_web_server.TestTasks.Batch.{IsBatch, get_available_test_tasks-IsBatch}
use albs_web_server.TestTasks.Create.{
  RpmPackage, find_test_log_repository, get_log_repository, new_revision, test_tasks_for,
  create_test_tasks, create_for_all, has_failed_tests, restart_build_tests,
}
use albs_web_server.TestTasks.Latest.{create_test_tasks-latest}
use albs_web_server.TestTasks.Complete.{
  TestTaskResult, status_of_tests, require_dictionary, status_of_items, status_of_result,
  find_test_task, update_test_task, convert_logs, add_logs, log_records, complete_test_task,
}
use albs_web_server.TestTasks.Verdict.{verdict, complete_test_task-verdict}

abbrev build_task : BuildTask
build_task = record {
  id = 10;
  ts = none;
  build_id = 1;
  platform_id = 5;
  platform_name = "AlmaLinux-9";
  ref_id = 1;
  ref_url = "https://git/rpms/bash";
  status = BuildTaskStatus.completed;
  index = 0;
  arch = "x86_64";
  built_srpm_url = none;
  error = none;
  alma_commit_cas_hash = none;
  is_cas_authenticated = false;
  started_at = none;
  finished_at = none;
}

abbrev test : TestTask
test = record {
  id = 3;
  build_task_id = 10;
  package_name = "bash";
  package_version = "5.1";
  package_release = some "1.el9";
  env_arch = "x86_64";
  status = TestTaskStatus.created;
  revision = 1;
  repository = some "/repositories/7/";
  scheduled_at = none;
  started_at = none;
  finished_at = none;
}

abbrev tested : TestDb
tested = record {
  queue = record {
    tasks = build_task ∷ [];
    dependencies = [];
    artifacts =
        (record {
          build_task_id = 10;
          name = "bash-5.1-1.el9.x86_64.rpm";
          type = "rpm";
          href = "/packages/1/";
          cas_hash = none;
        })
        ∷ [];
    repos =
        (record {
          build_id = 1;
          arch = "x86_64";
          platform_id = 5;
          type = "test_log";
          debug = false;
          pulp_href = "/repositories/7/";
        })
        ∷ [];
    source_rpms = [];
    binary_rpms = [];
  };
  builds = (record { id = 1; cancel_testing = true }) ∷ [];
  test_tasks = test ∷ [];
  test_artifacts = [];
  next_id = 4;
}

abbrev pulp_package : String → Option RpmPackage
pulp_package href =
    some (record { name = "bash"; version = "5.1"; release = "1.el9"; arch = "x86_64" })

abbrev create_file : String → String → Option String
create_file name href = some href

abbrev modify_repository : String → List String → Bool
modify_repository repository files = true

tests : Unit {0}
unfolding get_available_test_tasks order_by_id insert_by_id is_created update_test_tasks test_value
    create_test_tasks test_tasks_for new_revision max_revision tests_of find_task complete_test_task
    convert_logs add_logs find_test_task status_of_result status_of_items status_of_tests
    require_dictionary update_test_task log_records restart_build_tests get_log_repository
    find_test_log_repository set_cancel_testing create_for_all has_failed_tests cancel_build_tests
    build_task_ids
tests = tt

get_available_test_tasks-IsBatch_example :
    IsBatch 5000 tested
      (get_available_test_tasks 5000 tested).1
      (get_available_test_tasks 5000 tested).0
get_available_test_tasks-IsBatch_example = get_available_test_tasks-IsBatch 5000 tested

one_is_sent : length (get_available_test_tasks 5000 tested).0 ≡ 1
unfolding tests
one_is_sent = refl

started_is_told : (cancel_build_tests (get_available_test_tasks 5000 tested).1 1).1 ≡ 3 ∷ []
unfolding tests
started_is_told = refl

abbrev failing : TestTaskResult
failing = record {
  logs = ("tests_bash.log", some "/logs/1/") ∷ ("lost.log", none) ∷ [];
  revoked = false;
  items =
      (record { key = "install_package"; is_dictionary = true; success = true; tests = [] })
      ∷ (record {
        key = "tests";
        is_dictionary = true;
        success = false;
        tests = some true ∷ some false ∷ [];
      })
      ∷ [];
  stats = some (some "2026-01-01");
}

abbrev tables : Result TestDb → TestDb
tables (ok db) = db
tables (err e) = tested

abbrev after_test : TestDb
after_test = tables (complete_test_task create_file modify_repository 6000 tested 3 failing)

test_completed :
    complete_test_task create_file modify_repository 6000 tested 3 failing ≡ ok after_test
unfolding tests
test_completed = refl

abbrev failed_test : TestTask
failed_test = record test {
  status = TestTaskStatus.failed;
  started_at = some "2026-01-01";
  finished_at = some 6000;
}

failed_row : Memᴰ failed_test after_test.test_tasks
unfolding tests
failed_row = Memᴰ.head refl

complete_test_task-verdict_example :
    failed_test.status ≡ verdict create_file modify_repository tested 3 failing
complete_test_task-verdict_example =
    complete_test_task-verdict create_file modify_repository 6000 tested 3 failing failed_test
      test_completed failed_row refl

abbrev made_again : TestDb
made_again = tables (create_test_tasks pulp_package after_test 10 "/repositories/7/")

create_returns : create_test_tasks pulp_package after_test 10 "/repositories/7/" ≡ ok made_again
unfolding tests
create_returns = refl

one_more : length after_test.test_tasks < length made_again.test_tasks
unfolding tests
one_more = omega arith

create_test_tasks-latest_example :
    get_test_tasks_by_build_task made_again 10 true none
    ≡ drop (length after_test.test_tasks) made_again.test_tasks
create_test_tasks-latest_example =
    create_test_tasks-latest pulp_package after_test 10 "/repositories/7/" none create_returns
      one_more

restart_makes_again :
    (tables (restart_build_tests pulp_package after_test 1)).test_tasks ≡ made_again.test_tasks
unfolding tests
restart_makes_again = refl
