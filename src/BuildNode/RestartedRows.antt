-- ===== src/BuildNode/RestartedRows.antt =====
-- What update_failed_build_items (alws/crud/build_node.py) does to the rows of `build_tasks`.
use albs_web_server.Prelude.{
  ℕ, Bool, true, false, List, [], ◌∷◌, ◌++◌, Option, none, some, any-append, contains, ◌==◌,
  eq_of_==, nat_eq, ◌||◌, ◌≡◌, refl, sym, ap, ◌∙◌, ◌⊎◌, inl, inr, Memᴰ, mem_of_eq, arith, nat_beq,
}
use albs_web_server.Constants.Statuses.{BuildTaskStatus}
use albs_web_server.BuildNode.Db.{BuildTask, Db, mem-update_where, add_build_task_dependencies}
use albs_web_server.BuildNode.Done.{ids_of}
use albs_web_server.BuildNode.Restart.{
  Row, get_failed_build_tasks_matrix, restarted, restart_task, depend_on, restart_failed,
  failed_tasks_of, drops_srpm, restart_rows, update_failed_build_items,
}
use albs_web_server.BuildNode.Restarted.{all_failed, ids_of-append}

-- What becomes of a row when the tasks with the given identifiers are restarted.
abbrev pub RowAfter : List ℕ → Db → BuildTask → Type 0
RowAfter restarted_ids db t =
    (contains restarted_ids t.id ≡ true) × (t.status ≡ BuildTaskStatus.idle) × (t.ts ≡ none)
    ⊎ (contains restarted_ids t.id ≡ false) × Memᴰ t db.tasks

or_true : (b : Bool) → (b || true) ≡ true
or_true true = refl
or_true false = refl

one_id : (x y : ℕ) → y ≡ x → contains (x ∷ []) y ≡ true
one_id x y e = ground arith

not_one : (x y : ℕ) → nat_beq y x ≡ false → contains (x ∷ []) y ≡ false
not_one x y h = ground arith

depend_on-tasks : (t : ℕ) (last : Option ℕ) (db : Db) → (depend_on t last db).tasks ≡ db.tasks
unfolding depend_on add_build_task_dependencies
depend_on-tasks t none db = refl
depend_on-tasks t (some l) db = refl

restart_task-RowAfter :
    (drop : Bool) (task : BuildTask) (last : Option ℕ) (db : Db) (t : BuildTask)
    → Memᴰ t (depend_on task.id last (restart_task drop task db)).tasks
    → RowAfter (task.id ∷ []) db t
unfolding restart_task restarted
restart_task-RowAfter drop task last db t m =
    let (s, row, c) =
      mem-update_where (λ t. t.id == task.id) (restarted drop) db
        (mem_of_eq (sym (depend_on-tasks task.id last (restart_task drop task db))) m) in
    elim c [
      | inl (same, e) ↦ inl (
        one_id task.id t.id (ap (λ (b : BuildTask). b.id) e ∙ eq_of_== s.id task.id same),
        ap (λ (b : BuildTask). b.status) e,
        ap (λ (b : BuildTask). b.ts) e,
      )
      | inr (other, e) ↦
          inr (not_one task.id t.id (rw (ap (λ (b : BuildTask). b.id) e) other), rw e row)
    ]

RowAfter-append :
    (xs ys : List ℕ) (db db' : Db) (t : BuildTask)
    → RowAfter ys db' t
    → (Memᴰ t db'.tasks → RowAfter xs db t)
    → RowAfter (xs ++ ys) db t
RowAfter-append xs ys db db' t (inl (c, r, s)) f =
    inl (any-append (λ x. x == t.id) xs ys ∙ rw c (or_true _), r, s)
RowAfter-append xs ys db db' t (inr (c, m)) f = elim (f m) [
  | inl (c', r, s) ↦ inl (any-append (λ x. x == t.id) xs ys ∙ rw c', r, s)
  | inr (c', row) ↦ inr (any-append (λ x. x == t.id) xs ys ∙ rw (c', c), row)
]

restart_failed-RowAfter :
    (drop : Bool) (last : Option ℕ) (tasks : List BuildTask) (db : Db) (t : BuildTask)
    → Memᴰ t (restart_failed drop last tasks db).1.tasks
    → RowAfter (ids_of tasks) db t
unfolding restart_failed ids_of
restart_failed-RowAfter drop last [] db t m = inr (refl, m)
restart_failed-RowAfter drop last (task ∷ tasks) db t m =
    let db' = depend_on task.id last (restart_task drop task db) in
    RowAfter-append (task.id ∷ []) (ids_of tasks) db db' t
      (restart_failed-RowAfter drop (some task.id) tasks db' t m)
      (restart_task-RowAfter drop task last db t)

restart_rows-RowAfter :
    (last : Option ℕ) (rows : List Row) (db : Db) (t : BuildTask)
    → Memᴰ t (restart_rows last rows db).tasks
    → RowAfter (ids_of (all_failed rows)) db t
unfolding restart_rows all_failed
restart_rows-RowAfter last [] db t m = inr (unfold ids_of in refl, m)
restart_rows-RowAfter last (row ∷ rows) db t m =
    let failed = failed_tasks_of row in
    let after = restart_failed (drops_srpm row) last failed db in
    rw (ids_of-append failed (all_failed rows)) (
      RowAfter-append (ids_of failed) (ids_of (all_failed rows)) db after.1 t
        (restart_rows-RowAfter after.0 rows after.1 t m)
        (restart_failed-RowAfter (drops_srpm row) last failed db t))

-- Afterwards, a row whose task is one of the failed tasks of the matrix is idle and has no
-- timestamp, so that a build node can take it; every other row is as it was.
pub update_failed_build_items-RowAfter :
    (db : Db) (build_id : ℕ) (t : BuildTask)
    → Memᴰ t (update_failed_build_items db build_id).tasks
    → RowAfter (ids_of (all_failed (get_failed_build_tasks_matrix db build_id))) db t
unfolding update_failed_build_items
update_failed_build_items-RowAfter db build_id t m =
    restart_rows-RowAfter none (get_failed_build_tasks_matrix db build_id) db t m
