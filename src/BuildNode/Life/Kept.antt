-- ===== src/BuildNode/Life/Kept.antt =====
-- What build_done of alws/crud/build_node.py does to the tasks and the dependencies.
use albs_web_server.Prelude.{
  ℕ, String, Bool, true, List, ◌==◌, nat_eq, string_eq, eq_of_==, Result, ok, err, ◌≡◌, refl, sym,
  ap, ◌∙◌, ◌⊎◌, inl, inr, Bool-cases, Option-cases, mem_of_eq, arith,
}
use albs_web_server.Constants.Statuses.{
  BuildTaskStatus, status_eq, is_finished, get_status_by_text, get_status_by_text-is_finished,
}
use albs_web_server.BuildNode.Db.{BuildTask, SourceRpm, Db, find_task}
use albs_web_server.BuildNode.Done.{BuildDone, Outcome, finished, raised}
use albs_web_server.BuildNode.Process.{Services, run_step, process_build_task_artifacts}
use albs_web_server.Noarch.{save_noarch_packages}
use albs_web_server.BuildNode.Built.{
  Rows, write_rows, set_status, after_artifacts, build_done, updates_pass, get_srpm_instance,
}
use albs_web_server.BuildNode.Unblocked.{outcome_cases}
use albs_web_server.BuildNode.Life.Evolves.{
  Evolves, Evolves-trans, Evolves-same_tasks, Evolves-update_where, Evolves-refl, IsClosed,
  Evolves-IsClosed, update_where-IsClosed,
}

abbrev pub left_by : Outcome → Db
left_by (finished db) = db
left_by (raised db) = db

-- The tasks and the dependencies are the same.
record IsKept (db db' : Db) : Type 0 where
  tasks : db'.tasks ≡ db.tasks
  dependencies : db'.dependencies ≡ db.dependencies

record IsLeft (start : Db) (outcome : Outcome) : Type 0 where
  kept : IsKept start (left_by outcome)

same : {db : Db} → IsKept db db
same = record { tasks = refl; dependencies = refl }

run_step-IsLeft :
    {A : Type 0} {db start : Db} (r : Result A) (next : A → Outcome)
    → IsKept start db
    → ((a : A) → IsLeft start (next a))
    → IsLeft start (run_step db r next)
unfolding run_step
run_step-IsLeft (err e) next now later = record { kept = now }
run_step-IsLeft (ok a) next now later = later a

save_noarch-IsKept :
    (is_in : String → String → Bool) (db : Db) (task : BuildTask)
    → IsKept db (save_noarch_packages is_in db task).0
unfolding save_noarch_packages
save_noarch-IsKept is_in db task = record { tasks = ground arith; dependencies = ground arith }

write_rows-IsKept :
    (is_in : String → String → Bool) (is_src_rpm : String → Bool) (db_srpms : List SourceRpm)
    (task : BuildTask) (rows : Rows) (db : Db)
    → IsKept db (write_rows is_in is_src_rpm db_srpms task rows db)
unfolding write_rows
write_rows-IsKept is_in is_src_rpm db_srpms task rows db = elim (Option-cases rows.srpm) [
  | inr (srpm, found) ↦ rw (found, write_rows) (record { tasks = refl; dependencies = refl })
  | inl missing ↦ elim (Option-cases (get_srpm_instance is_in is_src_rpm db_srpms task "")) [
    | inl none' ↦ rw (missing, none', write_rows) (record { tasks = refl; dependencies = refl })
    | inr (srpm, found) ↦
        rw (missing, found, write_rows) (record { tasks = refl; dependencies = refl })
  ]
]

set_status-IsClosed :
    (task_id : ℕ) (status : BuildTaskStatus) (db : Db)
    → is_finished status ≡ true
    → IsClosed task_id (set_status task_id status db)
unfolding set_status
set_status-IsClosed task_id status db over =
    update_where-IsClosed task_id (λ t. record t { status = status }) db (λ t. over)

set_status-Evolves :
    (task_id : ℕ) (status : BuildTaskStatus) (db : Db)
    → is_finished status ≡ true
    → Evolves (λ n. n ≡ task_id) db (set_status task_id status db)
unfolding set_status
set_status-Evolves task_id status db over =
    Evolves-update_where (λ t. t.id == task_id) (λ t. record t { status = status }) db
      (λ t. (refl, refl)) (inr (λ t. over, λ t e. eq_of_== t.id task_id e))

IsKept-Evolves : {P : ℕ → Type 0} {db db' : Db} → IsKept db db' → Evolves P db db'
IsKept-Evolves {db} {db'} kept =
    Evolves-same_tasks db db' kept.tasks (λ e m. mem_of_eq (sym kept.dependencies) m)

module _ (services : Services) (is_src_rpm : String → Bool)
    (load_modules update_modules : Db → BuildTask → Result (Unit {0})) where
  process-IsLeft :
      (db : Db) (request : BuildDone) (status : BuildTaskStatus)
      → IsLeft db
          (process_build_task_artifacts services load_modules update_modules db request status)
  unfolding process_build_task_artifacts
  process-IsLeft db request status = elim (Option-cases (find_task request.task_id db)) [
    | inl missing ↦ rw (missing, process_build_task_artifacts) (record { kept = same })
    | inr (task, found) ↦
        rw (found, process_build_task_artifacts)
          (run_step-IsLeft _ _ same (λ _. run_step-IsLeft _ _ same (λ _.
            run_step-IsLeft _ _ same (λ logs.
              run_step-IsLeft _ _ (record { tasks = refl; dependencies = refl })
                (λ rpms.
                  run_step-IsLeft _ _ (record { tasks = refl; dependencies = refl })
                    (λ multilib.
                      run_step-IsLeft _ _ (record { tasks = refl; dependencies = refl })
                        (λ _.
                          run_step-IsLeft _ _ (record { tasks = refl; dependencies = refl })
                            (λ _. record {
                              kept = record { tasks = refl; dependencies = refl };
                            }))))))))
  ]

  after_artifacts-Evolves :
      {P : ℕ → Type 0} (status : BuildTaskStatus) (request : BuildDone) (db : Db)
      → Evolves P (set_status request.task_id status db) (
          left_by
            (after_artifacts services is_src_rpm load_modules update_modules status request db))
  unfolding after_artifacts
  after_artifacts-Evolves status request db =
      let done = set_status request.task_id status db in
      elim (Option-cases (find_task request.task_id done)) [
        | inl missing ↦ rw (missing, after_artifacts) (Evolves-refl done)
        | inr (task, found) ↦
            let noarch = save_noarch_packages services.is_in done task in
            let kept = IsKept-Evolves (save_noarch-IsKept services.is_in done task) in
            elim (Bool-cases (updates_pass services.modify_repository noarch.1.1)) [
              | inl pass' ↦
                  rw (found, pass', after_artifacts)
                    (Evolves-trans kept (IsKept-Evolves (write_rows-IsKept _ _ _ task _ noarch.0)))
              | inr refused ↦ rw (found, refused, after_artifacts) kept
            ]
      ]

  -- The status is set, or nothing that matters here is changed before an exception.
  build_done-cases :
      (db : Db) (request : BuildDone)
      → (d : Db) × IsKept db d
        × ((build_done services is_src_rpm load_modules update_modules db request ≡ raised d)
            ⊎ (build_done services is_src_rpm load_modules update_modules db request
                ≡ after_artifacts services is_src_rpm load_modules update_modules
                    (get_status_by_text request.status)
                    request
                    d))
  unfolding build_done
  build_done-cases db request =
      let status = get_status_by_text request.status in
      let outcome =
        process_build_task_artifacts services load_modules update_modules db request status in
      let kept = (process-IsLeft db request status).kept in
      elim (outcome_cases outcome) [
        | inl (d, e) ↦ (d, rw e at kept, inr (rw (e, build_done)))
        | inr (d, e) ↦ (d, rw e at kept, inl (rw (e, build_done)))
      ]

  pub build_done-Evolves :
      (db : Db) (request : BuildDone)
      → Evolves
          (λ n. n ≡ request.task_id)
          db
          (left_by (build_done services is_src_rpm load_modules update_modules db request))
  build_done-Evolves db request =
      let status = get_status_by_text request.status in
      let over = get_status_by_text-is_finished request.status in
      let (d, kept, after) = build_done-cases db request in
      Evolves-trans (IsKept-Evolves kept) (elim after [
        | inl e ↦ rw e (Evolves-refl d)
        | inr e ↦ rw e (
            Evolves-trans (set_status-Evolves request.task_id status d over)
              (after_artifacts-Evolves status request d))
      ])

  -- If `build_done` does not raise, the reported task is finished.
  pub build_done-IsClosed :
      (db : Db) (request : BuildDone) {d : Db}
      → build_done services is_src_rpm load_modules update_modules db request ≡ finished d
      → IsClosed request.task_id d
  build_done-IsClosed db request {d} done =
      let status = get_status_by_text request.status in
      let over = get_status_by_text-is_finished request.status in
      let (d', kept, after) = build_done-cases db request in
      elim after [
        | inl e ↦ cc (e, done)
        | inr e ↦
            let rest : Evolves (λ n. ⊥) _ _ = after_artifacts-Evolves status request d' in
            let whole : left_by (
                  after_artifacts services is_src_rpm load_modules update_modules status request d')
                ≡ d =
              ap left_by (sym e ∙ done) in
            Evolves-IsClosed (rw whole at rest) (set_status-IsClosed request.task_id status d' over)
      ]
