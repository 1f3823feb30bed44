-- ===== src/BuildNode/Life/Closed.antt =====
-- What becomes of the tasks that are finished in the queue of alws/crud/build_node.py, along the
-- steps of its life.
use albs_web_server.Prelude.{
  ℕ, ◌<◌, String, Bool, true, false, Option, some, ok, contains, ◌&&◌, ◌==◌, eq_of_==, nat_eq, ◌≡◌,
  ◌≢◌, refl, sym, ap, ◌∙◌, inl, inr, Memᴰ, arith,
}
use albs_web_server.Constants.Statuses.{BuildTaskStatus, status_eq, value, is_finished}
use albs_web_server.BuildNode.Db.{BuildTask, Db, update_where, mem-update_where}
use albs_web_server.BuildNode.Available.{RequestTask, get_available_build_task}
use albs_web_server.BuildNode.Handout.{get_available_build_task-HandedOut, is_eligible-IsEligible}
use albs_web_server.BuildNode.Done.{BuildDone}
use albs_web_server.BuildNode.Restart.{mark_build_tasks_as_cancelled, ping_tasks}
use albs_web_server.BuildNode.Life.{World, report_done, Step, Reach}
use albs_web_server.BuildNode.Life.Evolves.{IsClosed, Evolves-IsClosed}
use albs_web_server.BuildNode.Life.Reports.{report_done-Evolves, report_done-IsClosed}

pub is_open_of_value : (s : BuildTaskStatus) → value s < 2 → is_finished s ≡ false
unfolding is_finished value
is_open_of_value s below = ground arith

-- An update that finishes the rows, keeps their status, or is of rows that are open before, with
-- the identifiers kept.
updated-IsClosed :
    (test : BuildTask → Bool) (values : BuildTask → BuildTask) (db : Db) (n : ℕ)
    → ((t : BuildTask) → (values t).id ≡ t.id)
    → ((t : BuildTask)
        → Memᴰ t db.tasks
        → test t ≡ true
        → t.id ≡ n
        → is_finished (values t).status ≡ true)
    → IsClosed n db
    → IsClosed n (update_where test values db)
updated-IsClosed test values db n same effect closed t m t_id =
    let (s, sm, origin) = mem-update_where test values db m in
    elim origin [
      | inl (touched, e) ↦
          let s_id : s.id ≡ n = sym (same s) ∙ (sym (ap (λ (r : BuildTask). r.id) e) ∙ t_id) in
          ap (λ (r : BuildTask). is_finished r.status) e ∙ effect s sm touched s_id
      | inr (_, e) ↦
          ap (λ (r : BuildTask). is_finished r.status) e
          ∙ closed s sm (sym (ap (λ (r : BuildTask). r.id) e) ∙ t_id)
    ]

module _ (w : World) where
  handed_out_open :
      (db : Db) (request : RequestTask) (now : ℕ) (task : BuildTask) (n : ℕ)
      → IsClosed n db
      → (get_available_build_task w.ilike db request now).0 ≡ some task
      → task.id ≢ n
  handed_out_open db request now task n closed e same =
      let handed = get_available_build_task-HandedOut w.ilike db request now task e in
      let eligible = is_eligible-IsEligible w.ilike db request now handed.row handed.eligible in
      let row_id : handed.row.id ≡ n = sym (ap (λ (t : BuildTask). t.id) handed.started) ∙ same in
      cc (
        closed handed.row handed.stored row_id,
        is_open_of_value handed.row.status eligible.unfinished,
      )

  Step-IsClosed : {db db' : Db} {n : ℕ} → Step w db db' → IsClosed n db → IsClosed n db'
  unfolding mark_build_tasks_as_cancelled ping_tasks is_finished
  Step-IsClosed {db} {db'} {n} (Step.hand_out request now task e) closed =
      let got = ap (λ (p : Option BuildTask × Db). p.0) e in
      let handed = get_available_build_task-HandedOut w.ilike db request now task got in
      let other = handed_out_open db request now task n closed got in
      let after = sym handed.updated ∙ ap (λ (p : Option BuildTask × Db). p.1) e in
      rw (← after) (
        updated-IsClosed (λ t. t.id == handed.row.id) _ db n (λ t. refl)
          (λ t m touched t_id. absurd (
            other (
              ap (λ (r : BuildTask). r.id) handed.started
              ∙ (sym (eq_of_== t.id handed.row.id touched) ∙ t_id))))
          closed)
  Step-IsClosed {db} {db'} (Step.report now traceback request success e) closed =
      Evolves-IsClosed (report_done-Evolves w now traceback db request e) closed
  Step-IsClosed {db} {db'} {n} (Step.cancel build_id e) closed = rw e (
      updated-IsClosed (λ t. t.build_id == build_id && t.status == BuildTaskStatus.idle) _ db n
        (λ t. refl) (λ t m touched t_id. refl) closed)
  Step-IsClosed {db} {db'} {n} (Step.ping task_list now e) closed = rw e (
      updated-IsClosed (λ t. contains task_list t.id) _ db n (λ t. refl)
        (λ t m touched t_id. closed t m t_id) closed)

  Reach-IsClosed : {start db : Db} {n : ℕ} → IsClosed n start → Reach w start db → IsClosed n db
  Reach-IsClosed closed Reach.here = closed
  Reach-IsClosed closed (Reach.next before step) = Step-IsClosed step (Reach-IsClosed closed before)

  -- A task whose report has been taken is not handed out again, whatever is handed out, reported,
  -- cancelled and refreshed after the report, to whatever node and at whatever time.
  pub report_done-never_again :
      (now : ℕ) (traceback : String) (db : Db) (request : BuildDone) {success : Bool}
      {db' later : Db} (next : RequestTask) (moment : ℕ) (task : BuildTask)
      → report_done w now traceback db request ≡ ok (success, db')
      → Reach w db' later
      → (get_available_build_task w.ilike later next moment).0 ≡ some task
      → task.id ≢ request.task_id
  report_done-never_again now traceback db request {later = later} next moment task e reach got =
      handed_out_open later next moment task request.task_id
        (Reach-IsClosed (report_done-IsClosed w now traceback db request e) reach) got
