-- ===== src/BuildNode/Life/Recent.antt =====
-- That a task which has been handed out is not handed out again for twenty minutes, along the steps
-- of the queue's life (alws/crud/build_node.py).
use albs_web_server.Prelude.{
  ℕ, ◌+◌, ◌*◌, ◌≤◌, Bool, true, false, Option, some, contains, ◌&&◌, ◌==◌, nat_eq, ◌≡◌, ◌≢◌, refl,
  sym, ap, ◌∙◌, ◌⊎◌, inl, inr, Memᴰ, arith, nat_beq_iff, mem_of_eq,
}
use albs_web_server.Constants.Statuses.{BuildTaskStatus, status_eq, is_finished}
use albs_web_server.BuildNode.Db.{BuildTask, Db, update_where, mem-update_where}
use albs_web_server.BuildNode.Available.{RequestTask, is_expired, get_available_build_task}
use albs_web_server.BuildNode.Handout.{get_available_build_task-HandedOut, is_eligible-IsEligible}
use albs_web_server.BuildNode.Restart.{mark_build_tasks_as_cancelled, ping_tasks}
use albs_web_server.BuildNode.Life.{World, Step, Reach, IsOpen}
use albs_web_server.BuildNode.Life.Reports.{report_done-Evolves}
use albs_web_server.BuildNode.Life.Closed.{is_open_of_value}

-- The timestamp is not before the moment.
abbrev IsSince : ℕ → BuildTask → Type 0
IsSince now t = (moment : ℕ) × (t.ts ≡ some moment) × (now ≤ moment)

-- A task that is open has been handed out or pinged since the moment.
abbrev IsRecent : ℕ → ℕ → Db → Type 0
IsRecent now n db = (t : BuildTask) → Memᴰ t db.tasks → t.id ≡ n → IsOpen t → IsSince now t

updated-IsRecent :
    (test : BuildTask → Bool) (values : BuildTask → BuildTask) (db : Db) (now n : ℕ)
    → ((t : BuildTask) → (values t).id ≡ t.id)
    → ((t : BuildTask) → (is_finished (values t).status ≡ true) ⊎ IsSince now (values t))
    → IsRecent now n db
    → IsRecent now n (update_where test values db)
updated-IsRecent test values db now n same effect recent t m t_id is_open =
    let (s, sm, origin) = mem-update_where test values db m in
    elim origin [
      | inr (_, e) ↦ rw e (recent s sm (rw e at t_id) (rw e at is_open))
      | inl (_, e) ↦ elim (effect s) [
        | inl over ↦ cc (ap (λ (r : BuildTask). is_finished r.status) e, over, is_open)
        | inr since ↦ rw e since
      ]
    ]

not_expired :
    (now moment later : ℕ)
    → now ≤ moment
    → later ≤ now + 20 * 60
    → is_expired later (some moment) ≡ false
unfolding is_expired
not_expired now moment later since soon = ground arith

module _ (w : World) where
  -- The time of a step that sets timestamps is not before the moment.
  abbrev pub IsFrom : {db db' : Db} → ℕ → Step w db db' → Type 0
  IsFrom now (Step.hand_out request moment task e) = now ≤ moment
  IsFrom now (Step.report moment traceback request success e) = Unit
  IsFrom now (Step.cancel build_id e) = Unit
  IsFrom now (Step.ping task_list moment e) = now ≤ moment

  abbrev pub AllFrom : {start db : Db} → ℕ → Reach w start db → Type 0
  AllFrom now Reach.here = Unit
  AllFrom now (Reach.next before step) = AllFrom now before × IsFrom now step

  handed_out-IsRecent :
      (db : Db) (request : RequestTask) (now : ℕ) (task : BuildTask)
      → (get_available_build_task w.ilike db request now).0 ≡ some task
      → IsRecent now task.id (get_available_build_task w.ilike db request now).1
  handed_out-IsRecent db request now task e t m t_id is_open =
      let h = get_available_build_task-HandedOut w.ilike db request now task e in
      let (s, sm, origin) =
        mem-update_where (λ t. t.id == h.row.id) _ db
          (mem_of_eq (sym (ap (λ (d : Db). d.tasks) h.updated)) m) in
      elim origin [
        | inl (_, new) ↦ (now, ap (λ (r : BuildTask). r.ts) new, omega arith)
        | inr (other, kept) ↦
            let same : s.id ≡ h.row.id =
              sym (ap (λ (r : BuildTask). r.id) kept)
              ∙ (t_id ∙ ap (λ (r : BuildTask). r.id) h.started) in
            cc (other, (nat_beq_iff s.id h.row.id).1 same)
      ]

  Step-IsRecent :
      {db db' : Db} {n : ℕ} (now : ℕ) (step : Step w db db')
      → IsFrom now step
      → IsRecent now n db
      → IsRecent now n db'
  unfolding mark_build_tasks_as_cancelled ping_tasks is_finished
  Step-IsRecent {db} {n = n} now (Step.hand_out request moment task e) from recent =
      let handed =
        get_available_build_task-HandedOut w.ilike db request moment task
          (ap (λ (p : Option BuildTask × Db). p.0) e) in
      let after = sym handed.updated ∙ ap (λ (p : Option BuildTask × Db). p.1) e in
      rw (← after) (
        updated-IsRecent (λ t. t.id == handed.row.id) _ db now n (λ t. refl)
          (λ t. inr (moment, refl, from)) recent)
  Step-IsRecent {db} {n = n} now (Step.report moment traceback request success e) from recent =
      λ t m t_id is_open.
        let (s, sm, (s_id, _), status, dated) =
          (report_done-Evolves w moment traceback db request e).back t m is_open in
        let (set, ts, since) = recent s sm (s_id ∙ t_id) (ap is_finished (sym status) ∙ is_open) in
        elim dated [ inl kept ↦ (set, kept ∙ ts, since) | inr never ↦ elim never [ ] ]
  Step-IsRecent {db} {n = n} now (Step.cancel build_id e) from recent = rw e (
      updated-IsRecent (λ t. t.build_id == build_id && t.status == BuildTaskStatus.idle) _ db now n
        (λ t. refl) (λ t. inl refl) recent)
  Step-IsRecent {db} {n = n} now (Step.ping task_list moment e) from recent = rw e (
      updated-IsRecent (λ t. contains task_list t.id) _ db now n (λ t. refl)
        (λ t. inr (moment, refl, from)) recent)

  Reach-IsRecent :
      {start db : Db} {n : ℕ} (now : ℕ) (reach : Reach w start db)
      → AllFrom now reach
      → IsRecent now n start
      → IsRecent now n db
  Reach-IsRecent now Reach.here from recent = recent
  Reach-IsRecent now (Reach.next before step) from recent =
      Step-IsRecent now step from.1 (Reach-IsRecent now before from.0 recent)

  -- A task that has been handed out is not handed out again within twenty minutes, whatever is handed
  -- out, reported, cancelled and pinged between the two requests, if what is handed out and pinged
  -- there is so at no earlier time; nothing is restarted.
  pub get_available_build_task-once :
      (db : Db) (first second : RequestTask) (now later : ℕ) (task again : BuildTask) {between : Db}
      (reach : Reach w (get_available_build_task w.ilike db first now).1 between)
      → AllFrom now reach
      → later ≤ now + 20 * 60
      → (get_available_build_task w.ilike db first now).0 ≡ some task
      → (get_available_build_task w.ilike between second later).0 ≡ some again
      → task.id ≢ again.id
  get_available_build_task-once db first second now later task again {between} reach from soon e e'
        same =
      let h = get_available_build_task-HandedOut w.ilike between second later again e' in
      let eligible = is_eligible-IsEligible w.ilike between second later h.row h.eligible in
      let row_id : h.row.id ≡ task.id = sym (ap (λ (t : BuildTask). t.id) h.started) ∙ sym same in
      let (moment, ts, since) =
        Reach-IsRecent now reach from (handed_out-IsRecent db first now task e) h.row h.stored
          row_id (is_open_of_value h.row.status eligible.unfinished) in
      cc (not_expired now moment later since soon, ap (is_expired later) ts, eligible.expired)
