-- ===== src/BuildNode/Tests.antt =====
-- A build of two projects on two architectures, and what the queue does with it.
use albs_web_server.Prelude.{
  is_set, ℕ, String, Bool, true, false, [], ◌∷◌, ◌++◌, none, some, lookup, insert, ◌==◌, nat_eq, ok,
  ◌≡◌, ◌≢◌, refl, ◌↔◌, ◌⊎◌, Memᴰ, arith,
}
use albs_web_server.Constants.Statuses.{BuildTaskStatus, value, is_finished}
use albs_web_server.Planner.Dependencies.{chain_from, chain}
use albs_web_server.BuildNode.Db.{
  BuildTask, Db, update_where, remove_dependencies_on, add_build_task_dependencies, find_task,
}
use albs_web_server.BuildNode.Available.{
  RequestTask, first_by_id, is_eligible, get_available_build_task,
}
use albs_web_server.BuildNode.Handout.{HandedOut, get_available_build_task-HandedOut}
use albs_web_server.BuildNode.Done.{
  Host, BuildDone, ids_of, fail_tasks, processing_failed, srpm_failed, tasks_of_ref,
  fast_fail_other_tasks_by_ref, get_srpm_artifact_by_build_task_id, uncompleted_tasks_ids,
  update_built_srpm_url, Outcome, raised, finish_report, report_failure, safe_build_done,
}
use albs_web_server.BuildNode.Unblocked.{safe_build_done-unblocks, update_built_srpm_url-no_idle}
use albs_web_server.BuildNode.Refused.{Refused, get_available_build_task-Refused}
use albs_web_server.BuildNode.FastFail.{IsOther, AllFailed, fast_fail_cases}
use albs_web_server.BuildNode.Restart.{
  is_before, insert_ordered, order_by_index, add_to_matrix, tasks_matrix, is_failed,
  get_failed_build_tasks_matrix, restarted, restart_task, depend_on, restart_failed,
  failed_tasks_of, drops_srpm, restart_rows, update_failed_build_items, depend_on_previous,
  restart_in_row, src_first, restart_rows_in_parallel, update_failed_build_items_in_parallel,
}
use albs_web_server.BuildNode.Restarted.{all_failed, update_failed_build_items-chain}
use albs_web_server.BuildNode.RestartedRows.{RowAfter, update_failed_build_items-RowAfter}

abbrev task : ℕ → ℕ → ℕ → String → BuildTaskStatus → BuildTask
task id ref index arch status = record {
  id = id;
  ts = none;
  build_id = 1;
  platform_id = 5;
  platform_name = "AlmaLinux-9";
  ref_id = ref;
  ref_url = "https://git/rpms/bash";
  status = status;
  index = index;
  arch = arch;
  built_srpm_url = none;
  error = none;
  alma_commit_cas_hash = none;
  is_cas_authenticated = false;
  started_at = none;
  finished_at = none;
}

-- Two projects, of which the tasks for x86_64 wait for those for src.
abbrev fresh : Db
fresh = record {
  tasks =
      task 10 1 0 "src" BuildTaskStatus.idle
      ∷ task 11 1 0 "x86_64" BuildTaskStatus.idle
      ∷ task 12 2 1 "src" BuildTaskStatus.idle
      ∷ [];
  dependencies = (11, 10) ∷ (12, 10) ∷ [];
  artifacts = [];
  repos = [];
  source_rpms = [];
  binary_rpms = [];
}

abbrev never : String → String → Bool
never url project = false

abbrev any_arch : RequestTask
any_arch = record { supported_arches = "src" ∷ "x86_64" ∷ []; excluded_packages = [] }

abbrev taken : BuildTask
taken = record (task 10 1 0 "src" BuildTaskStatus.idle) {
  ts = some 5000;
  status = BuildTaskStatus.started;
}

queue : Unit {0}
unfolding get_available_build_task is_eligible first_by_id update_where
queue = tt

first_is_taken : (get_available_build_task never fresh any_arch 5000).0 ≡ some taken
unfolding queue
first_is_taken = refl

get_available_build_task-HandedOut_example :
    HandedOut never fresh any_arch 5000 taken (get_available_build_task never fresh any_arch 5000).1
get_available_build_task-HandedOut_example =
    get_available_build_task-HandedOut never fresh any_arch 5000 taken first_is_taken

get_available_build_task-Refused_example :
    ((get_available_build_task never fresh any_arch 5000).0 ≡ none)
    ↔ ((s : BuildTask) → Memᴰ s fresh.tasks → Refused never fresh any_arch 5000 s)
get_available_build_task-Refused_example =
    get_available_build_task-Refused never fresh any_arch 5000

abbrev host : Host
host = record { first_lower = λ s. s; str = λ n. "1"; like_src_rpm = λ name. true }

abbrev report : BuildDone
report = record {
  task_id = 10;
  status = "done";
  artifacts = [];
  alma_commit_cas_hash = none;
  is_cas_authenticated = false;
  start_ts = some 5000;
}

-- A `build_done` that raises before it changes anything.
abbrev raises : Db → BuildDone → Outcome
raises db request = raised db

reports : Unit {0}
unfolding safe_build_done report_failure fast_fail_other_tasks_by_ref tasks_of_ref fail_tasks
    finish_report update_where remove_dependencies_on find_task ids_of value
reports = tt

abbrev after_raise : Db
after_raise = finish_report 6000 report (
    fail_tasks (processing_failed "src") (11 ∷ []) (
      update_where (λ t. t.id == 10)
        (λ t. record t { ts = some 6000; status = BuildTaskStatus.failed; error = some "trace" })
        fresh))

raise_fails_the_project :
    safe_build_done host raises 6000 "trace" fresh report ≡ ok (false, after_raise)
unfolding reports
raise_fails_the_project = refl

safe_build_done-unblocks_example : ¬ Memᴰ (12, report.task_id) after_raise.dependencies
safe_build_done-unblocks_example =
    safe_build_done-unblocks host raises 6000 "trace" fresh report 12 raise_fails_the_project

abbrev source_task : BuildTask
source_task = task 10 1 0 "src" BuildTaskStatus.failed

fast_fail_cases_example :
    AllFailed fresh source_task (fast_fail_other_tasks_by_ref fresh source_task)
    ⊎ ((t : BuildTask) × IsOther fresh source_task t × (t.status ≢ BuildTaskStatus.idle))
      × (fast_fail_other_tasks_by_ref fresh source_task ≡ fresh)
fast_fail_cases_example = fast_fail_cases fresh source_task

-- The failed task has left no source RPM, so that the idle task of its project fails too.
abbrev without_source : Db
without_source = record fresh {
  tasks = task 10 1 0 "src" BuildTaskStatus.failed ∷ task 11 1 0 "x86_64" BuildTaskStatus.idle ∷ [];
}

abbrev failed_sibling : BuildTask
failed_sibling = record (task 11 1 0 "x86_64" BuildTaskStatus.failed) {
  error = some (srpm_failed "src");
}

stopped : Unit {0}
unfolding update_built_srpm_url uncompleted_tasks_ids get_srpm_artifact_by_build_task_id is_set
    is_finished fail_tasks update_where remove_dependencies_on ids_of value
stopped = tt

update_built_srpm_url-no_idle_example : failed_sibling.status ≢ BuildTaskStatus.idle
update_built_srpm_url-no_idle_example =
    update_built_srpm_url-no_idle host without_source source_task report failed_sibling refl refl
      (unfold stopped in refl) (unfold stopped in Memᴰ.tail (Memᴰ.head refl)) refl refl
      (omega arith)

-- Both tasks of the first project have failed, and so has the second project.
abbrev all_have_failed : Db
all_have_failed = record {
  tasks =
      task 12 2 1 "src" BuildTaskStatus.failed
      ∷ task 10 1 0 "src" BuildTaskStatus.failed
      ∷ task 11 1 0 "x86_64" BuildTaskStatus.failed
      ∷ [];
  dependencies = [];
  artifacts = [];
  repos = [];
  source_rpms = [];
  binary_rpms = [];
}

restart : Unit {0}
unfolding update_failed_build_items get_failed_build_tasks_matrix order_by_index insert_ordered
    is_before tasks_matrix add_to_matrix lookup insert is_failed restart_rows restart_failed
    restart_task restarted depend_on add_build_task_dependencies failed_tasks_of drops_srpm
    update_where is_set value all_failed ids_of chain chain_from
restart = tt

restarted_order :
    ids_of (all_failed (get_failed_build_tasks_matrix all_have_failed 1)) ≡ 10 ∷ 11 ∷ 12 ∷ []
unfolding restart
restarted_order = refl

restarted_chain :
    (update_failed_build_items all_have_failed 1).dependencies ≡ (11, 10) ∷ (12, 11) ∷ []
unfolding restart
restarted_chain = refl

update_failed_build_items-chain_example :
    (update_failed_build_items all_have_failed 1).dependencies
    ≡ [] ++ chain (ids_of (all_failed (get_failed_build_tasks_matrix all_have_failed 1)))
update_failed_build_items-chain_example = update_failed_build_items-chain all_have_failed 1

update_failed_build_items-RowAfter_example :
    RowAfter
      (ids_of (all_failed (get_failed_build_tasks_matrix all_have_failed 1)))
      all_have_failed
      (task 10 1 0 "src" BuildTaskStatus.idle)
update_failed_build_items-RowAfter_example =
    update_failed_build_items-RowAfter all_have_failed 1 (task 10 1 0 "src" BuildTaskStatus.idle)
      (unfold restart in Memᴰ.tail (Memᴰ.head refl))

parallel : Unit {0}
unfolding update_failed_build_items_in_parallel restart restart_rows_in_parallel restart_in_row
    depend_on_previous src_first find_task
parallel = tt

-- In parallel, x86_64 waits for src, and the second project's src for the first one's.
restarted_in_parallel :
    (update_failed_build_items_in_parallel all_have_failed 1).dependencies
    ≡ (11, 10) ∷ (12, 10) ∷ []
unfolding parallel
restarted_in_parallel = refl
