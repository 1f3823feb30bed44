-- ===== src/BuildNode/Unblocked.antt =====
-- What a report leaves behind (alws/crud/build_node.py): for the tasks that wait for the reported
-- one, and for the other tasks of its project.
use mathlib.Core.Bool.{false≢true}
use albs_web_server.Prelude.{
  is_set, ℕ, String, Bool, true, false, List, [], ◌∷◌, none, contains, contains_iff, if◌then◌else◌,
  nat_eq, string_eq, not, is_empty, Result, ok, >>=-eq-ok, ok-injective, ◌≡◌, ◌≢◌, refl, sym, ap,
  ◌∙◌, ◌⊎◌, inl, inr, Memᴰ, Bool-cases, Option-cases, mem-filter_of_mem, mem-map_of_mem, mem_of_eq,
  not_eq, is_empty-of_mem, and_true, not-false, nat_beq_iff,
}
use albs_web_server.Constants.Statuses.{BuildTaskStatus, status_eq, is_finished}
use albs_web_server.BuildNode.Db.{
  BuildTask, Db, mem-update_where, remove_dependencies_on, remove_dependencies_on-none, find_task,
}
use albs_web_server.BuildNode.Done.{
  Host, BuildDone, ids_of, fail_tasks, get_srpm_artifact_by_build_task_id, uncompleted_tasks_ids,
  srpm_failed, update_built_srpm_url, Outcome, finished, raised, finish_report, report_failure,
  safe_build_done,
}

pub finish_report-unblocks :
    (now : ℕ) (request : BuildDone) (db : Db) (waiting : ℕ)
    → ¬ Memᴰ (waiting, request.task_id) (finish_report now request db).dependencies
unfolding finish_report
finish_report-unblocks now request db waiting m = absurd (
    false≢true (
      sym (remove_dependencies_on-none (request.task_id ∷ []) _ waiting request.task_id m)
      ∙ (contains_iff (request.task_id ∷ []) request.task_id).1 (Memᴰ.head refl)))

pub outcome_cases : (o : Outcome) → ((d : Db) × (o ≡ finished d)) ⊎ ((d : Db) × (o ≡ raised d))
outcome_cases (finished d) = inl (d, refl)
outcome_cases (raised d) = inr (d, refl)

unblocked :
    (now : ℕ) (request : BuildDone) (db : Db) {db' : Db} {flag success : Bool} (waiting : ℕ)
    → Memᴰ (waiting, request.task_id) db'.dependencies
    → ◌≡◌ {A = Result (Bool × Db)} (ok (flag, finish_report now request db)) (ok (success, db'))
    → ⊥
unblocked now request db waiting m e =
    finish_report-unblocks now request db waiting
      (mem_of_eq (ap (λ (p : Bool × Db). p.1.dependencies) (ok-injective e)) m)

module _ (host : Host) (build_done : Db → BuildDone → Outcome) where
  -- Whatever `build_done` does to the tables, and whether it raises or not: after the report no task
  -- waits for the reported task any more.
  pub safe_build_done-unblocks :
      (now : ℕ) (traceback : String) (db : Db) (request : BuildDone) {success : Bool} {db' : Db}
      (waiting : ℕ)
      → safe_build_done host build_done now traceback db request ≡ ok (success, db')
      → ¬ Memᴰ (waiting, request.task_id) db'.dependencies
  unfolding safe_build_done
  safe_build_done-unblocks now traceback db request waiting e m =
      elim (outcome_cases (build_done db request)) [
        | inl (d, done) ↦ elim (Option-cases (find_task request.task_id d)) [
          | inl missing ↦ cc (rw missing at (rw (done, safe_build_done) at e))
          | inr (task, found) ↦
              unblocked now request _ waiting m (rw found at (rw (done, safe_build_done) at e))
        ]
        | inr (d, failed) ↦
            let (db'', _, whole) =
              >>=-eq-ok (report_failure now traceback request d) _
                (rw (failed, safe_build_done) at e) in
            unblocked now request _ waiting m whole
      ]

-- Where a row of the tables after fail_tasks comes from.
failed_row :
    (message : String) (ids : List ℕ) (db : Db) (t : BuildTask)
    → Memᴰ t (fail_tasks message ids db).tasks
    → (contains ids t.id ≡ true) × (t.status ≡ BuildTaskStatus.failed)
      ⊎ (contains ids t.id ≡ false) × Memᴰ t db.tasks
unfolding fail_tasks remove_dependencies_on
failed_row message ids db t m =
    let (s, row, c) = mem-update_where (λ t. contains ids t.id) _ db m in
    elim c [
      | inl (in_ids, e) ↦
          inl (rw (ap (λ (b : BuildTask). b.id) e) in_ids, ap (λ (b : BuildTask). b.status) e)
      | inr (out, e) ↦ inr (rw (ap (λ (b : BuildTask). b.id) e) out, rw e row)
    ]

-- After fail_tasks, no row with one of the identifiers is idle, and nothing waits for it.
pub fail_tasks-done :
    (message : String) (ids : List ℕ) (db : Db) (t : BuildTask)
    → Memᴰ t (fail_tasks message ids db).tasks
    → contains ids t.id ≡ true
    → (t.status ≡ BuildTaskStatus.failed)
      × ((a : ℕ) → ¬ Memᴰ (a, t.id) (fail_tasks message ids db).dependencies)
unfolding fail_tasks
fail_tasks-done message ids db t m c = (
  elim (failed_row message ids db t m) [
    | inl (_, e) ↦ e
    | inr (out, _) ↦ absurd (false≢true (sym out ∙ c))
  ],
  λ a d. absurd (false≢true (sym (remove_dependencies_on-none ids _ a t.id d) ∙ c)),
)

without_srpm :
    (host : Host) (db : Db) (task : BuildTask) (request : BuildDone)
    → task.status ≡ BuildTaskStatus.failed
    → task.built_srpm_url ≡ none
    → get_srpm_artifact_by_build_task_id host db task.id ≡ none
    → update_built_srpm_url host db task request ≡ (
        if not (is_empty (uncompleted_tasks_ids db task))
        then fail_tasks (srpm_failed task.arch) (uncompleted_tasks_ids db task) db
        else db)
unfolding update_built_srpm_url is_set
without_srpm host db task request failed no_url no_srpm =
    simp (no_url, no_srpm, (status_eq.beq_iff task.status BuildTaskStatus.failed).1 failed)

-- The identifiers hold every idle task of the project and platform, but for the reported one.
in_uncompleted :
    (db : Db) (task t : BuildTask)
    → task.status ≡ BuildTaskStatus.failed
    → Memᴰ t db.tasks
    → t.ref_id ≡ task.ref_id
    → t.platform_id ≡ task.platform_id
    → t.id ≢ task.id
    → t.status ≡ BuildTaskStatus.idle
    → Memᴰ t.id (uncompleted_tasks_ids db task)
unfolding uncompleted_tasks_ids ids_of
in_uncompleted db task t failed m r p i idle =
    let over : is_finished task.status ≡ true = rw failed (unfold is_finished in refl) in
    rw over (
      mem-map_of_mem (λ (b : BuildTask). b.id)
        (mem-filter_of_mem _ m (
          and_true (not-false (not_eq t.id task.id i)) (
            and_true ((nat_beq_iff _ _).1 r)
              (and_true ((status_eq.beq_iff _ _).1 idle) ((nat_beq_iff _ _).1 p))))))

-- If the task has failed without a source RPM, then after `__update_built_srpm_url` no other task of
-- its project and platform is idle.
pub update_built_srpm_url-no_idle :
    (host : Host) (db : Db) (task : BuildTask) (request : BuildDone) (t : BuildTask)
    → task.status ≡ BuildTaskStatus.failed
    → task.built_srpm_url ≡ none
    → get_srpm_artifact_by_build_task_id host db task.id ≡ none
    → Memᴰ t (update_built_srpm_url host db task request).tasks
    → t.ref_id ≡ task.ref_id
    → t.platform_id ≡ task.platform_id
    → t.id ≢ task.id
    → t.status ≢ BuildTaskStatus.idle
update_built_srpm_url-no_idle host db task request t failed no_url no_srpm m r p i =
    let eq = without_srpm host db task request failed no_url no_srpm in
    elim (Bool-cases (is_empty (uncompleted_tasks_ids db task))) [
      | inl none_waits ↦ λ idle.
          let same : update_built_srpm_url host db task request ≡ db = eq ∙ rw none_waits in
          absurd (
            false≢true (
              sym (
                is_empty-of_mem (
                  in_uncompleted db task t failed (rw (ap (λ (d : Db). d.tasks) same) at m) r p i
                    idle))
              ∙ none_waits))
      | inr some_wait ↦ λ idle.
          let ids = uncompleted_tasks_ids db task in
          let same : update_built_srpm_url host db task request
              ≡ fail_tasks (srpm_failed task.arch) ids db =
            eq ∙ rw some_wait in
          elim (failed_row (srpm_failed task.arch) ids db t
            (rw (ap (λ (d : Db). d.tasks) same) at m)) [
              | inl (_, e) ↦ cc
              | inr (out, row) ↦ absurd (
                  false≢true (
                    sym out
                    ∙ (contains_iff ids t.id).1 (in_uncompleted db task t failed row r p i idle)))
            ]
    ]
