-- ===== src/BuildNode/Life/Sound.antt =====
-- The soundness of the queue's waiting (alws/crud/build_node.py) along the steps of its life.
use mathlib.Core.Path.{subst}
use mathlib.Core.Bool.{false≢true}
use albs_web_server.Prelude.{
  ℕ, true, false, List, Option, some, any-of_mem, contains, ◌&&◌, ◌==◌, ==-refl, eq_of_==, nat_eq,
  ◌≡◌, refl, sym, ap, ◌∙◌, inl, inr, Memᴰ, Bool-cases, and_true, and_parts,
}
use albs_web_server.Constants.Statuses.{BuildTaskStatus, status_eq, is_finished}
use albs_web_server.BuildNode.Db.{
  BuildTask, Db, update_where, update_where-mem, mem-update_where, has_dependencies,
}
use albs_web_server.BuildNode.Handout.{get_available_build_task-HandedOut, is_eligible-IsEligible}
use albs_web_server.BuildNode.Restart.{mark_build_tasks_as_cancelled, ping_tasks}
use albs_web_server.BuildNode.Life.{World, Step, Reach, IsOpen, IsSound}
use albs_web_server.BuildNode.Life.Evolves.{Unawaited, EvolvesWith, Evolves-update_where}
use albs_web_server.BuildNode.Life.Reports.{report_done-Evolves}

no_dependency :
    (db : Db) (row : BuildTask) (d : ℕ)
    → has_dependencies db row ≡ false
    → ¬ Memᴰ (row.id, d) db.dependencies
unfolding has_dependencies
no_dependency db row d free m =
    absurd (false≢true (sym free ∙ any-of_mem (λ (e : ℕ × ℕ). e.0 == row.id) m (==-refl row.id)))

module _ {rank : ℕ → ℕ} where
  Evolves-IsSound :
      {D : Type 0} {db db' : Db}
      → EvolvesWith D (Unawaited db') db db'
      → IsSound rank db
      → IsSound rank db'
  Evolves-IsSound {db} {db'} e sound = record {
    descends = λ a d m. sound.descends a d (e.dependencies (a, d) m);
    waits_idle = λ d t' m tm' is_open.
        let (t, tm, (id, _), same, _) = e.back t' tm' is_open in
        same
        ∙ sound.waits_idle d t (rw id (e.dependencies (t'.id, d) m)) tm
            (ap is_finished (sym same) ∙ is_open);
    waits_for_open = λ d t' m tm' is_open.
        let (t, tm, (id, build), same, _) = e.back t' tm' is_open in
        let (s, sm, s_id, s_build, s_open) =
          sound.waits_for_open d t (rw id (e.dependencies (t'.id, d) m)) tm
            (ap is_finished (sym same) ∙ is_open) in
        let (s', sm', (s'_id, s'_build), s'_open) =
          e.forth s sm s_open (λ free. free t'.id (rw s_id m)) in
        (s', sm', s'_id ∙ s_id, s'_build ∙ (s_build ∙ build), s'_open);
  }

  start_row-IsSound :
      (now : ℕ) (row : BuildTask) (db : Db)
      → has_dependencies db row ≡ false
      → IsSound rank db
      → IsSound rank (
          update_where
            (λ t. t.id == row.id)
            (λ t. record t { ts = some now; status = BuildTaskStatus.started })
            db)
  unfolding is_finished
  start_row-IsSound now row db free sound =
      let start = λ (t : BuildTask). record t { ts = some now; status = BuildTaskStatus.started } in
      let test = λ (t : BuildTask). t.id == row.id in
      let untouched : (d : ℕ) (t : BuildTask)
          → Memᴰ (t.id, d) db.dependencies
          → Memᴰ t (update_where test start db).tasks
          → Memᴰ t db.tasks =
        (λ d t m tm.
          let (s, sm, origin) = mem-update_where test start db tm in
          elim origin [
            | inl (at_row, e) ↦
                let same : t.id ≡ row.id =
                  ap (λ (b : BuildTask). b.id) e ∙ eq_of_== s.id row.id at_row in
                absurd (no_dependency db row d free (rw same at m))
            | inr (_, e) ↦ rw e sm
          ]) in
      record {
        descends = λ a d m. sound.descends a d (unfold update_where in m);
        waits_idle = λ d t m tm is_open.
            sound.waits_idle d t (unfold update_where in m)
              (untouched d t (unfold update_where in m) tm) is_open;
        waits_for_open = λ d t m tm is_open.
            let (s, sm, s_id, s_build, s_open) =
              sound.waits_for_open d t (unfold update_where in m)
                (untouched d t (unfold update_where in m) tm) is_open in
            let kept = update_where-mem test start db sm in
            elim (Bool-cases (test s)) [
              | inl touched ↦ (start s, rw touched at kept, s_id, s_build, refl)
              | inr other ↦ (s, rw other at kept, s_id, s_build, s_open)
            ];
      }

  cancelled-IsSound :
      (build_id : ℕ) (db : Db)
      → IsSound rank db
      → IsSound rank (mark_build_tasks_as_cancelled db build_id)
  unfolding mark_build_tasks_as_cancelled is_finished
  cancelled-IsSound build_id db sound =
      let cancel = λ (t : BuildTask). record t {
        status = BuildTaskStatus.cancelled;
        error = some "Build task cancelled by user";
      } in
      let test = λ (t : BuildTask). t.build_id == build_id && t.status == BuildTaskStatus.idle in
      let before : (t : BuildTask)
          → Memᴰ t (update_where test cancel db).tasks
          → IsOpen t
          → Memᴰ t db.tasks × (test t ≡ false) =
        (λ t tm is_open.
          let (s, sm, origin) = mem-update_where test cancel db tm in
          elim origin [
            | inl (_, e) ↦ let shut : is_finished t.status ≡ true = rw e refl in cc (shut, is_open)
            | inr (out, e) ↦ (rw e sm, rw e out)
          ]) in
      record {
        descends = λ a d m. sound.descends a d (unfold update_where in m);
        waits_idle = λ d t m tm is_open.
            sound.waits_idle d t (unfold update_where in m) (before t tm is_open).0 is_open;
        waits_for_open = λ d t m tm is_open.
            let (old, out) = before t tm is_open in
            let (s, sm, s_id, s_build, s_open) =
              sound.waits_for_open d t (unfold update_where in m) old is_open in
            let idle = sound.waits_idle d t (unfold update_where in m) old is_open in
            let kept = update_where-mem test cancel db sm in
            elim (Bool-cases (test s)) [
              | inl touched ↦
                  let of_build : (t.build_id == build_id) ≡ true =
                    rw (← s_build)
                      (and_parts (s.build_id == build_id) (s.status == BuildTaskStatus.idle)
                        touched).0 in
                  absurd (
                    false≢true (
                      sym out
                      ∙ and_true of_build
                          ((status_eq.beq_iff t.status BuildTaskStatus.idle).1 idle)))
              | inr other ↦ (s, rw other at kept, s_id, s_build, s_open)
            ];
      }

  pinged-IsSound :
      (task_list : List ℕ) (now : ℕ) (db : Db)
      → IsSound rank db
      → IsSound rank (ping_tasks db task_list now)
  unfolding ping_tasks
  pinged-IsSound task_list now db sound =
      Evolves-IsSound
        (Evolves-update_where {D = Unit {0}} (λ t. contains task_list t.id)
          (λ t. record t { ts = some now }) db (λ t. (refl, refl)) (inl (λ t. (refl, inr tt))))
        sound

module _ (w : World) {rank : ℕ → ℕ} where
  pub Step-IsSound : {db db' : Db} → Step w db db' → IsSound rank db → IsSound rank db'
  Step-IsSound {db} {db'} (Step.hand_out request now task e) sound =
      let handed =
        get_available_build_task-HandedOut w.ilike db request now task
          (ap (λ (p : Option BuildTask × Db). p.0) e) in
      let ready =
        (is_eligible-IsEligible w.ilike db request now handed.row handed.eligible).ready in
      let after = sym handed.updated ∙ ap (λ (p : Option BuildTask × Db). p.1) e in
      subst (IsSound rank) after (start_row-IsSound now handed.row db ready sound)
  Step-IsSound {db} {db'} (Step.report now traceback request success e) sound =
      Evolves-IsSound (report_done-Evolves w now traceback db request e) sound
  Step-IsSound {db} {db'} (Step.cancel build_id e) sound =
      subst (IsSound rank) (sym e) (cancelled-IsSound build_id db sound)
  Step-IsSound {db} {db'} (Step.ping task_list now e) sound =
      subst (IsSound rank) (sym e) (pinged-IsSound task_list now db sound)

  -- Whatever is handed out, reported, cancelled and refreshed, in whatever order: the dependencies
  -- stay well-founded, and a task that is not finished waits only while it is idle, and only for
  -- tasks of its build that are not finished either, if this is so at first.
  pub Reach-IsSound : {start db : Db} → IsSound rank start → Reach w start db → IsSound rank db
  Reach-IsSound sound Reach.here = sound
  Reach-IsSound sound (Reach.next before step) = Step-IsSound step (Reach-IsSound sound before)
