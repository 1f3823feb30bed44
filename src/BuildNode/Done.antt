-- ===== src/BuildNode/Done.antt =====
-- Taking the report of a build node: safe_build_done of alws/crud/build_node.py and the functions
-- that stop the other tasks of a project.
use albs_web_server.Prelude.{
  is_set, ℕ, String, Bool, true, false, List, [], ◌∷◌, ◌++◌, map, Option, none, some, filter,
  contains, head?, if◌then◌else◌, ◌==◌, nat_eq, string_eq, nat_beq, not, ◌&&◌, is_empty, length,
  concat, Result, ok, err, Error, ◌>>=◌,
}
use albs_web_server.Constants.Statuses.{BuildTaskStatus, status_eq, is_finished}
use albs_web_server.BuildNode.Db.{
  BuildTask, BuildTaskArtifact, Db, update_where, remove_dependencies_on, find_task,
}

-- What the code takes from Python's texts and the database: `name[0].lower()`, `str(n)`, and
-- `LIKE '%.src.rpm'`.
pub record Host : Type 0 where
  pub first_lower : String → String
  pub str : ℕ → String
  pub like_src_rpm : String → Bool

-- `arch` and `is_debuginfo` are computed from the name, by a split at the dots and a regular
-- expression.
pub record BuildDoneArtifact : Type 0 where
  pub name : String
  pub type : String
  pub href : String
  pub sha256 : String
  pub cas_hash : Option String
  pub arch : String
  pub is_debuginfo : Bool

pub record BuildDone : Type 0 where
  pub task_id : ℕ
  pub status : String
  pub artifacts : List BuildDoneArtifact
  pub alma_commit_cas_hash : Option String
  pub is_cas_authenticated : Bool
  pub start_ts : Option ℕ  -- request.stats["build_node_task"]["start_ts"]

unfoldable pub ids_of : List BuildTask → List ℕ
ids_of tasks = map (λ t. t.id) tasks

-- The fast failure of the tasks with the given identifiers, and the removal of what waits for them.
unfoldable pub fail_tasks : String → List ℕ → Db → Db
fail_tasks message ids db = remove_dependencies_on ids (
    update_where (λ t. contains ids t.id)
      (λ t. record t { status = BuildTaskStatus.failed; error = some message }) db)

unfoldable pub processing_failed : String → String
processing_failed arch = concat (
    "Fast failed: build processing failed in the initial architecture (" ∷ arch
    ∷ "). Please refer to the initial architecture build logs for more information about the failure."
    ∷ [])

unfoldable pub srpm_failed : String → String
srpm_failed arch = concat (
    "Fast failed: SRPM build failed in the initial architecture (" ∷ arch
    ∷ "). Please refer to the initial architecture build logs for more information about the failure."
    ∷ [])

unfoldable pub tasks_of_ref : Db → BuildTask → List BuildTask
tasks_of_ref db current_task =
    filter (λ t. not (t.id == current_task.id) && t.ref_id == current_task.ref_id) db.tasks

unfoldable pub fast_fail_other_tasks_by_ref : Db → BuildTask → Db
fast_fail_other_tasks_by_ref db current_task =
    let build_tasks = tasks_of_ref db current_task in
    let uncompleted_tasks = filter (λ t. t.status == BuildTaskStatus.idle) build_tasks in
    if not (nat_beq (length build_tasks) (length uncompleted_tasks))
    then db
    else fail_tasks (processing_failed current_task.arch) (ids_of uncompleted_tasks) db

unfoldable pub get_srpm_artifact_by_build_task_id : Host → Db → ℕ → Option BuildTaskArtifact
get_srpm_artifact_by_build_task_id host db build_task_id = head? (
    filter (λ a. a.build_task_id == build_task_id && (host.like_src_rpm a.name && a.type == "rpm"))
      db.artifacts)

-- The tasks of the same project and platform that nobody has taken yet.
unfoldable pub uncompleted_tasks_ids : Db → BuildTask → List ℕ
uncompleted_tasks_ids db build_task =
    if is_finished build_task.status
    then ids_of (
        filter
          (λ t.
            not (t.id == build_task.id)
            && (t.ref_id == build_task.ref_id
                && (t.status == BuildTaskStatus.idle && t.platform_id == build_task.platform_id)))
          db.tasks)
    else []

unfoldable pub srpm_url_of : Host → BuildTask → BuildTaskArtifact → String
srpm_url_of host build_task srpm = concat (
    build_task.platform_name
    ∷ "-src-"
    ∷ host.str build_task.build_id
    ∷ "-br/Packages/"
    ∷ host.first_lower srpm.name
    ∷ "/"
    ∷ srpm.name
    ∷ [])

-- The tasks of the project get the source RPM, and those that wait get it as an artifact.
unfoldable pub share_srpm : Host → Db → BuildTask → BuildDone → BuildTaskArtifact → List ℕ → Db
share_srpm host db build_task request srpm ids =
    let updated =
      update_where (λ t. t.ref_id == build_task.ref_id && t.platform_id == build_task.platform_id)
        (λ t. record t {
          built_srpm_url = some (srpm_url_of host build_task srpm);
          alma_commit_cas_hash = request.alma_commit_cas_hash;
          is_cas_authenticated = request.is_cas_authenticated;
        })
        db in
    record updated {
      artifacts =
          updated.artifacts
          ++ map
              (λ task_id. record {
                build_task_id = task_id;
                name = srpm.name;
                type = "rpm";
                href = srpm.href;
                cas_hash = srpm.cas_hash;
              })
              ids;
    }

unfoldable pub is_none : Option String → Bool
is_none none = true
is_none (some url) = false

unfoldable pub update_built_srpm_url : Host → Db → BuildTask → BuildDone → Db
update_built_srpm_url host db build_task request =
    let ids = uncompleted_tasks_ids db build_task in
    if is_set build_task.built_srpm_url
    then db
    else elim (get_srpm_artifact_by_build_task_id host db build_task.id) [
      | none ↦
          if build_task.status == BuildTaskStatus.failed && not (is_empty ids)
          then fail_tasks (srpm_failed build_task.arch) ids db
          else db
      | some srpm ↦
          if is_none build_task.built_srpm_url
          then share_srpm host db build_task request srpm ids
          else db
    ]

-- What `build_done` comes to: the tables as it leaves them, and whether it raised an exception.
pub data Outcome : Type 0 where
  finished raised : Db → Outcome

-- The `finally` block.
unfoldable pub finish_report : ℕ → BuildDone → Db → Db
finish_report now request db = remove_dependencies_on (request.task_id ∷ []) (
    update_where (λ t. t.id == request.task_id)
      (λ t. record t { started_at = request.start_ts; finished_at = some now }) db)

-- The `except` block, with the formatted traceback. Without the task's row it raises AttributeError.
unfoldable pub report_failure : ℕ → String → BuildDone → Db → Result Db
report_failure now traceback request db =
    let failed = λ (t : BuildTask). record t {
      ts = some now;
      status = BuildTaskStatus.failed;
      error = some traceback;
    } in
    elim (find_task request.task_id db) [
      | none ↦ err Error.attribute_error
      | some build_task ↦ ok (
          fast_fail_other_tasks_by_ref (update_where (λ t. t.id == request.task_id) failed db)
            (failed build_task))
    ]

module _ (host : Host) (build_done : Db → BuildDone → Outcome) where
  -- The success flag and the tables; an exception rolls the transaction back.
  unfoldable pub safe_build_done : ℕ → String → Db → BuildDone → Result (Bool × Db)
  safe_build_done now traceback db request = elim (build_done db request) [
    | raised db' ↦ do
      failed ← report_failure now traceback request db'
      ok (false, finish_report now request failed)
    | finished db' ↦ elim (find_task request.task_id db') [
      | none ↦ err Error.attribute_error
      | some build_task ↦
          ok (true, finish_report now request (update_built_srpm_url host db' build_task request))
    ]
  ]
