-- ===== src/BuildNode/Life/Reports.antt =====
-- What a report does to the tables of the queue (safe_build_done and build_done of
-- alws/crud/build_node.py).
use albs_web_server.Prelude.{
  ℕ, String, Bool, not, List, [], ◌∷◌, some, is_empty, is_set, ◌&&◌, filter, ◌==◌, nat_eq,
  string_eq, nat_beq, length, eq_of_==, ok, >>=-eq-ok, ok-injective, ◌≡◌, refl, ap, inl, inr,
  Bool-cases, Option-cases,
}
use albs_web_server.Constants.Statuses.{BuildTaskStatus, status_eq, is_finished}
use albs_web_server.BuildNode.Db.{BuildTask, BuildTaskArtifact, Db, update_where, find_task}
use albs_web_server.BuildNode.Done.{
  Host, BuildDone, Outcome, safe_build_done, report_failure, finish_report,
  fast_fail_other_tasks_by_ref, update_built_srpm_url, share_srpm,
  get_srpm_artifact_by_build_task_id, is_none, srpm_failed, processing_failed, ids_of, tasks_of_ref,
  uncompleted_tasks_ids,
}
use albs_web_server.BuildNode.Built.{build_done}
use albs_web_server.BuildNode.Unblocked.{outcome_cases, finish_report-unblocks}
use albs_web_server.BuildNode.Life.{World, report_done}
use albs_web_server.BuildNode.Life.Evolves.{
  Unawaited, Evolves, Evolves-trans, Evolves-same_tasks, Evolves-weaken, Evolves-update_where,
  Evolves-refl, Evolves-remove_dependencies_on, fail_tasks-Evolves, IsClosed, Evolves-IsClosed,
  update_where-IsClosed,
}
use albs_web_server.BuildNode.Life.Kept.{build_done-Evolves, build_done-IsClosed}

fast_fail-Evolves :
    (db : Db) (task : BuildTask)
    → Evolves
        (Unawaited (fast_fail_other_tasks_by_ref db task))
        db
        (fast_fail_other_tasks_by_ref db task)
unfolding fast_fail_other_tasks_by_ref
fast_fail-Evolves db task =
    let waiting = filter (λ t. t.status == BuildTaskStatus.idle) (tasks_of_ref db task) in
    elim (Bool-cases (nat_beq (length (tasks_of_ref db task)) (length waiting))) [
      | inl all_idle ↦
          rw (all_idle, fast_fail_other_tasks_by_ref)
            (fail_tasks-Evolves (processing_failed task.arch) (ids_of waiting) db)
      | inr others ↦ rw (others, fast_fail_other_tasks_by_ref) (Evolves-refl db)
    ]

share_srpm-Evolves :
    {P : ℕ → Type 0} (host : Host) (db : Db) (task : BuildTask) (request : BuildDone)
    (srpm : BuildTaskArtifact) (ids : List ℕ)
    → Evolves P db (share_srpm host db task request srpm ids)
unfolding share_srpm
share_srpm-Evolves host db task request srpm ids =
    Evolves-trans
      (Evolves-update_where (λ t. t.ref_id == task.ref_id && t.platform_id == task.platform_id) _ db
        (λ t. (refl, refl)) (inl (λ t. (refl, inl refl))))
      (Evolves-same_tasks _ _ refl (λ e m. m))

update_built_srpm_url-Evolves :
    (host : Host) (db : Db) (task : BuildTask) (request : BuildDone)
    → Evolves
        (Unawaited (update_built_srpm_url host db task request))
        db
        (update_built_srpm_url host db task request)
unfolding update_built_srpm_url
update_built_srpm_url-Evolves host db task request =
    let ids = uncompleted_tasks_ids db task in
    elim (Bool-cases (is_set task.built_srpm_url)) [
      | inl has ↦ rw (has, update_built_srpm_url) (Evolves-refl db)
      | inr hasnt ↦ elim (Option-cases (get_srpm_artifact_by_build_task_id host db task.id)) [
        | inr (srpm, found) ↦ elim (Bool-cases (is_none task.built_srpm_url)) [
          | inl no_url ↦
              rw (hasnt, found, no_url, update_built_srpm_url)
                (share_srpm-Evolves host db task request srpm ids)
          | inr url ↦ rw (hasnt, found, url, update_built_srpm_url) (Evolves-refl db)
        ]
        | inl missing ↦
            elim (Bool-cases (task.status == BuildTaskStatus.failed && not (is_empty ids))) [
              | inl fails ↦
                  rw (hasnt, missing, fails, update_built_srpm_url)
                    (fail_tasks-Evolves (srpm_failed task.arch) ids db)
              | inr stays ↦ rw (hasnt, missing, stays, update_built_srpm_url) (Evolves-refl db)
            ]
      ]
    ]

finish_report-Evolves :
    {P : ℕ → Type 0} (now : ℕ) (request : BuildDone) (db : Db)
    → Evolves P db (finish_report now request db)
unfolding finish_report
finish_report-Evolves now request db =
    Evolves-trans
      (Evolves-update_where (λ t. t.id == request.task_id) _ db (λ t. (refl, refl))
        (inl (λ t. (refl, inl refl))))
      (Evolves-remove_dependencies_on (request.task_id ∷ []) _)

-- What nothing waits for before a change, nothing waits for afterwards.
Unawaited-Evolves :
    {P : ℕ → Type 0} {db db' : Db} → Evolves P db db' → (n : ℕ) → Unawaited db n → Unawaited db' n
Unawaited-Evolves e n free a m = free a (e.dependencies (a, n) m)

-- A change that finishes only tasks that nothing waits for afterwards, and the given one.
abbrev Finishes : ℕ → Db → Db → Type 0
Finishes task_id db db' = Evolves (Unawaited db') db db' × IsClosed task_id db'

-- The rest of the report after the reported task is finished.
finish_report-Finishes :
    {a b c : Db} (request : BuildDone) (now : ℕ)
    → Evolves (λ n. n ≡ request.task_id) a b
    → IsClosed request.task_id b
    → Evolves (Unawaited c) b c
    → Finishes request.task_id a (finish_report now request c)
finish_report-Finishes {a} {b} {c} request now first closed rest =
    let last : Evolves (Unawaited (finish_report now request c)) c (finish_report now request c) =
      finish_report-Evolves now request c in
    let later = Evolves-trans (Evolves-weaken (Unawaited-Evolves last) rest) last in
    (
      Evolves-trans
          (Evolves-weaken (λ n e a' m. finish_report-unblocks now request c a' (rw e at m)) first)
          later,
      Evolves-IsClosed later closed,
    )

report_failure-Evolves :
    (now : ℕ) (traceback : String) (request : BuildDone) (db : Db) {db' : Db}
    → report_failure now traceback request db ≡ ok db'
    → (c : Db) × Evolves (λ n. n ≡ request.task_id) db c
      × IsClosed request.task_id c
      × Evolves (Unawaited db') c db'
unfolding report_failure is_finished
report_failure-Evolves now traceback request db e =
    elim (Option-cases (find_task request.task_id db)) [
      | inl missing ↦ cc (rw (missing, report_failure) at e)
      | inr (task, found) ↦
          let failed = λ (t : BuildTask). record t {
            ts = some now;
            status = BuildTaskStatus.failed;
            error = some traceback;
          } in
          let whole = ok-injective (rw (found, report_failure) at e) in
          (
            update_where (λ t. t.id == request.task_id) failed db,
            Evolves-update_where (λ t. t.id == request.task_id) failed db (λ t. (refl, refl))
                (inr (λ t. refl, λ t same'. eq_of_== t.id request.task_id same')),
            update_where-IsClosed request.task_id failed db (λ t. refl),
            rw (← whole) (fast_fail-Evolves _ (failed task)),
          )
    ]

module _ (w : World) where
  abbrev build : Db → BuildDone → Outcome
  build = build_done w.services w.is_src_rpm w.load_modules w.update_modules

  report_done-Finishes :
      (now : ℕ) (traceback : String) (db : Db) (request : BuildDone) {success : Bool} {db' : Db}
      → report_done w now traceback db request ≡ ok (success, db')
      → Finishes request.task_id db db'
  unfolding report_done safe_build_done
  report_done-Finishes now traceback db request e =
      let built =
        build_done-Evolves w.services w.is_src_rpm w.load_modules w.update_modules db request in
      elim (outcome_cases (build db request)) [
        | inl (d, done) ↦ elim (Option-cases (find_task request.task_id d)) [
          | inl missing ↦ cc (rw missing at (rw (done, safe_build_done) at e))
          | inr (task, found) ↦
              let whole = ok-injective (rw found at (rw (done, safe_build_done) at e)) in
              rw (← (ap (λ (p : Bool × Db). p.1) whole)) (
                finish_report-Finishes request now (rw done at built)
                  (build_done-IsClosed w.services w.is_src_rpm w.load_modules w.update_modules db
                    request done)
                  (update_built_srpm_url-Evolves w.host d task request))
        ]
        | inr (d, failed) ↦
            let (db'', reported, whole) =
              >>=-eq-ok (report_failure now traceback request d) _
                (rw (failed, safe_build_done) at e) in
            let (c, first, closed, rest) =
              report_failure-Evolves now traceback request d reported in
            rw (← (ap (λ (p : Bool × Db). p.1) (ok-injective whole))) (
              finish_report-Finishes request now (Evolves-trans (rw failed at built) first) closed
                rest)
      ]

  -- A report closes tasks that nothing waits for afterwards, and opens none.
  pub report_done-Evolves :
      (now : ℕ) (traceback : String) (db : Db) (request : BuildDone) {success : Bool} {db' : Db}
      → report_done w now traceback db request ≡ ok (success, db')
      → Evolves (Unawaited db') db db'
  report_done-Evolves now traceback db request e =
      (report_done-Finishes now traceback db request e).0

  -- After a report the reported task is not open.
  pub report_done-IsClosed :
      (now : ℕ) (traceback : String) (db : Db) (request : BuildDone) {success : Bool} {db' : Db}
      → report_done w now traceback db request ≡ ok (success, db')
      → IsClosed request.task_id db'
  report_done-IsClosed now traceback db request e =
      (report_done-Finishes now traceback db request e).1
