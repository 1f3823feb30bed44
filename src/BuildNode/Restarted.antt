-- ===== src/BuildNode/Restarted.antt =====
-- What update_failed_build_items (alws/crud/build_node.py) does to the tables.
use albs_web_server.Prelude.{
  ℕ, Bool, List, [], ◌∷◌, ◌++◌, Option, none, some, nat_eq, ◌≡◌, refl, sym, ap, ◌∙◌, append_assoc,
  append-nil,
}
use albs_web_server.Constants.Statuses.{status_eq}
use albs_web_server.Planner.Dependencies.{chain_from, chain}
use albs_web_server.BuildNode.Db.{BuildTask, Db, update_where, add_build_task_dependencies}
use albs_web_server.BuildNode.Done.{ids_of}
use albs_web_server.BuildNode.Restart.{
  Row, get_failed_build_tasks_matrix, restart_task, depend_on, restart_failed, failed_tasks_of,
  drops_srpm, restart_rows, update_failed_build_items,
}

-- The failed tasks of all rows, row by row.
unfoldable pub all_failed : List Row → List BuildTask
all_failed [] = []
all_failed (row ∷ rows) = failed_tasks_of row ++ all_failed rows

-- The chain behind a task, if there is one.
abbrev chain_after : Option ℕ → List ℕ → List (ℕ × ℕ)
chain_after none tasks = chain tasks
chain_after (some last) tasks = chain_from last tasks

abbrev last_of : Option ℕ → List ℕ → Option ℕ
last_of last [] = last
last_of last (t ∷ ts) = last_of (some t) ts

chain_after-append :
    (last : Option ℕ) (xs ys : List ℕ)
    → chain_after last (xs ++ ys) ≡ chain_after last xs ++ chain_after (last_of last xs) ys
unfolding chain chain_from
chain_after-append none [] ys = refl
chain_after-append (some l) [] ys = refl
chain_after-append none (x ∷ xs) ys = chain_after-append (some x) xs ys
chain_after-append (some l) (x ∷ xs) ys = ap (λ r. (x, l) ∷ r) (chain_after-append (some x) xs ys)

depend_on-dependencies :
    (t : ℕ) (last : Option ℕ) (ts : List ℕ) (db : Db)
    → (depend_on t last db).dependencies ++ chain_from t ts
      ≡ db.dependencies ++ chain_after last (t ∷ ts)
unfolding depend_on add_build_task_dependencies chain chain_from
depend_on-dependencies t none ts db = refl
depend_on-dependencies t (some l) ts db = append_assoc db.dependencies ((t, l) ∷ []) _

restart_failed-dependencies :
    (drop : Bool) (last : Option ℕ) (tasks : List BuildTask) (db : Db)
    → ((restart_failed drop last tasks db).0 ≡ last_of last (ids_of tasks))
      × ((restart_failed drop last tasks db).1.dependencies
          ≡ db.dependencies ++ chain_after last (ids_of tasks))
unfolding restart_failed ids_of
restart_failed-dependencies drop none [] db =
    (refl, unfold chain in sym (append-nil db.dependencies))
restart_failed-dependencies drop (some l) [] db =
    (refl, unfold chain_from in sym (append-nil db.dependencies))
restart_failed-dependencies drop last (t ∷ ts) db =
    let (l, d) =
      restart_failed-dependencies drop (some t.id) ts
        (depend_on t.id last (restart_task drop t db)) in
    (
      l,
      d
          ∙ depend_on-dependencies t.id last (ids_of ts) (restart_task drop t db)
          ∙ unfold restart_task update_where in refl,
    )

pub ids_of-append : (xs ys : List BuildTask) → ids_of (xs ++ ys) ≡ ids_of xs ++ ids_of ys
unfolding ids_of
ids_of-append [] ys = refl
ids_of-append (x ∷ xs) ys = ap (λ r. x.id ∷ r) (ids_of-append xs ys)

restart_rows-dependencies :
    (last : Option ℕ) (rows : List Row) (db : Db)
    → (restart_rows last rows db).dependencies
      ≡ db.dependencies ++ chain_after last (ids_of (all_failed rows))
unfolding restart_rows all_failed
restart_rows-dependencies none [] db = unfold chain ids_of in sym (append-nil db.dependencies)
restart_rows-dependencies (some l) [] db =
    unfold chain_from ids_of in sym (append-nil db.dependencies)
restart_rows-dependencies last (row ∷ rows) db =
    let failed = failed_tasks_of row in
    let after = restart_failed (drops_srpm row) last failed db in
    let (l, d) = restart_failed-dependencies (drops_srpm row) last failed db in
    restart_rows-dependencies after.0 rows after.1
    ∙ ap (λ deps. deps ++ chain_after after.0 (ids_of (all_failed rows))) d
    ∙ ap
        (λ o.
          (db.dependencies ++ chain_after last (ids_of failed))
          ++ chain_after o (ids_of (all_failed rows)))
        l
    ∙ append_assoc db.dependencies _ _
    ∙ ap (λ r. db.dependencies ++ r)
        (sym (chain_after-append last (ids_of failed) (ids_of (all_failed rows)))
          ∙ ap (chain_after last) (sym (ids_of-append failed (all_failed rows))))

-- The restarted tasks wait for each other in one chain, in the order of the matrix: the first for
-- nothing new, and each of the others for the one before it. No other dependency is added or
-- removed.
pub update_failed_build_items-chain :
    (db : Db) (build_id : ℕ)
    → (update_failed_build_items db build_id).dependencies
      ≡ db.dependencies ++ chain (ids_of (all_failed (get_failed_build_tasks_matrix db build_id)))
unfolding update_failed_build_items
update_failed_build_items-chain db build_id =
    restart_rows-dependencies none (get_failed_build_tasks_matrix db build_id) db
