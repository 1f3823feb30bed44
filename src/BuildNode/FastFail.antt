-- ===== src/BuildNode/FastFail.antt =====
-- What becomes of the other tasks of a project when a task fails before it is built
-- (fast_fail_other_tasks_by_ref of alws/crud/build_node.py).
use mathlib.Core.Bool.{false≢true}
use albs_web_server.Prelude.{
  Bool, true, false, List, [], ◌∷◌, some, contains, contains_iff, if◌then◌else◌, ◌==◌, ==-refl,
  eq_of_==, nat_eq, not, length, ◌≡◌, ◌≢◌, refl, sym, ◌∙◌, ◌⊎◌, inl, inr, Memᴰ, Bool-cases,
  mem-filter_of_mem, mem-of_mem_filter, mem-of_mem_map, mem-map_of_mem, filter-all,
  length-filter-lt, mem_cons-cases, neq_test, lt_ne, not_eq, ◌&&◌, ◌↔◌, and_parts, and_true,
  not-true, not-false, nat_beq_iff, ℕ,
}
use albs_web_server.Constants.Statuses.{BuildTaskStatus, status_eq}
use albs_web_server.BuildNode.Db.{
  BuildTask, Db, update_where, update_where-mem, remove_dependencies_on,
  remove_dependencies_on-none,
}
use albs_web_server.BuildNode.Done.{
  ids_of, fail_tasks, processing_failed, tasks_of_ref, fast_fail_other_tasks_by_ref,
}

-- If all other tasks of the project are idle, each of them fails, and the dependencies on them are
-- removed.
fast_fail-all :
    (db : Db) (current : BuildTask)
    → ((t : BuildTask) → Memᴰ t (tasks_of_ref db current) → t.status ≡ BuildTaskStatus.idle)
    → fast_fail_other_tasks_by_ref db current
      ≡ fail_tasks (processing_failed current.arch) (ids_of (tasks_of_ref db current)) db
unfolding fast_fail_other_tasks_by_ref
fast_fail-all db current idle =
    let is_idle = λ (t : BuildTask). t.status == BuildTaskStatus.idle in
    let all_idle =
      filter-all is_idle (tasks_of_ref db current)
        (λ t m. (status_eq.beq_iff t.status BuildTaskStatus.idle).1 (idle t m)) in
    rw all_idle (rw (==-refl (length (tasks_of_ref db current))))

-- If one of the other tasks of the project is not idle, the tables stay as they were.
fast_fail-none :
    (db : Db) (current : BuildTask) (t : BuildTask)
    → Memᴰ t (tasks_of_ref db current)
    → t.status ≢ BuildTaskStatus.idle
    → fast_fail_other_tasks_by_ref db current ≡ db
unfolding fast_fail_other_tasks_by_ref
fast_fail-none db current t m busy =
    let is_idle = λ (t : BuildTask). t.status == BuildTaskStatus.idle in
    let fewer =
      length-filter-lt is_idle (tasks_of_ref db current) m
        (not_eq t.status BuildTaskStatus.idle busy) in
    rw (neq_test (length (tasks_of_ref db current)) _ (lt_ne fewer))

all_or_one {ℓ} :
    {A : Type ℓ} (p : A → Bool) (xs : List A)
    → ((a : A) → Memᴰ a xs → p a ≡ true) ⊎ (a : A) × Memᴰ a xs × (p a ≡ false)
all_or_one p [] = inl (λ a m. elim m [ ])
all_or_one p (x ∷ xs) = elim (Bool-cases (p x)) [
  | inr out ↦ inr (x, Memᴰ.head refl, out)
  | inl here ↦ elim (all_or_one p xs) [
    | inr (a, m, out) ↦ inr (a, Memᴰ.tail m, out)
    | inl rest ↦ inl (λ a m. elim (mem_cons-cases m) [ inl e ↦ rw e here | inr r ↦ rest a r ])
  ]
]

-- Another task of the project of the current one.
abbrev pub IsOther : Db → BuildTask → BuildTask → Type 0
IsOther db current t = Memᴰ t db.tasks × (t.ref_id ≡ current.ref_id) × (t.id ≢ current.id)

is_other :
    (db : Db) (current t : BuildTask) → Memᴰ t (tasks_of_ref db current) ↔ IsOther db current t
unfolding tasks_of_ref
is_other db current t = (
  λ m.
      let (stored, fits) =
        mem-of_mem_filter
          (λ (s : BuildTask). not (s.id == current.id) && s.ref_id == current.ref_id) db.tasks m in
      let (other, ref) = and_parts (not (t.id == current.id)) _ fits in
      (
        stored,
        eq_of_== t.ref_id current.ref_id ref,
        λ same. cc (not-true _ other, (nat_beq_iff t.id current.id).1 same),
      ),
  λ o.
      let (stored, ref, other) = o in
      mem-filter_of_mem (λ (s : BuildTask). not (s.id == current.id) && s.ref_id == current.ref_id)
        stored
        (and_true (not-false (not_eq t.id current.id other))
          ((nat_beq_iff t.ref_id current.ref_id).1 ref)),
)

other_id :
    (db : Db) (current t : BuildTask)
    → IsOther db current t
    → contains (ids_of (tasks_of_ref db current)) t.id ≡ true
unfolding ids_of
other_id db current t o =
    (contains_iff (ids_of (tasks_of_ref db current)) t.id).1
      (mem-map_of_mem (λ (s : BuildTask). s.id) ((is_other db current t).1 o))

not_other_id :
    (db : Db) (current : BuildTask) (n : ℕ)
    → ((s : BuildTask) → IsOther db current s → s.id ≢ n)
    → contains (ids_of (tasks_of_ref db current)) n ≡ false
unfolding ids_of
not_other_id db current n none_is =
    elim (Bool-cases (contains (ids_of (tasks_of_ref db current)) n)) [
      | inr out ↦ out
      | inl among ↦
          let (s, m, same) =
            mem-of_mem_map (λ (s : BuildTask). s.id) (tasks_of_ref db current)
              ((contains_iff (ids_of (tasks_of_ref db current)) n).0 among) in
          absurd (none_is s ((is_other db current s).0 m) (sym same))
    ]

abbrev failed_by : BuildTask → BuildTask → BuildTask
failed_by current t = record t {
  status = BuildTaskStatus.failed;
  error = some (processing_failed current.arch);
}

-- All other tasks of the project were idle and have failed, nothing waits for them any more, and
-- the rest of the tasks and of the dependencies is as before.
pub record AllFailed (db : Db) (current : BuildTask) (db' : Db) : Type 0 where
  pub was_idle : (t : BuildTask) → IsOther db current t → t.status ≡ BuildTaskStatus.idle
  pub has_failed :
      (t : BuildTask)
      → IsOther db current t
      → Memᴰ
          (record t {
            status = BuildTaskStatus.failed;
            error = some (processing_failed current.arch);
          })
          db'.tasks
  pub freed : (t : BuildTask) → IsOther db current t → (a : ℕ) → ¬ Memᴰ (a, t.id) db'.dependencies
  pub tasks_kept :
      (t : BuildTask)
      → Memᴰ t db.tasks
      → ((s : BuildTask) → IsOther db current s → s.id ≢ t.id)
      → Memᴰ t db'.tasks
  pub dependencies_kept :
      (a d : ℕ)
      → Memᴰ (a, d) db.dependencies
      → ((s : BuildTask) → IsOther db current s → s.id ≢ d)
      → Memᴰ (a, d) db'.dependencies

failed_row :
    (db : Db) (current t : BuildTask)
    → Memᴰ t db.tasks
    → Memᴰ
        (if contains (ids_of (tasks_of_ref db current)) t.id then failed_by current t else t)
        (fail_tasks (processing_failed current.arch) (ids_of (tasks_of_ref db current)) db).tasks
unfolding fail_tasks remove_dependencies_on
failed_row db current t m =
    update_where-mem (λ (s : BuildTask). contains (ids_of (tasks_of_ref db current)) s.id)
      (failed_by current) db m

fail_tasks-AllFailed :
    (db : Db) (current : BuildTask)
    → ((t : BuildTask) → IsOther db current t → t.status ≡ BuildTaskStatus.idle)
    → AllFailed db current
        (fail_tasks (processing_failed current.arch) (ids_of (tasks_of_ref db current)) db)
unfolding fail_tasks
fail_tasks-AllFailed db current idle =
    let ids = ids_of (tasks_of_ref db current) in
    record {
      was_idle = idle;
      has_failed = λ t o. rw (other_id db current t o) at (failed_row db current t o.0);
      freed = λ t o a d. cc (remove_dependencies_on-none ids _ a t.id d, other_id db current t o);
      tasks_kept =
          λ t m none_is. rw (not_other_id db current t.id none_is) at (failed_row db current t m);
      dependencies_kept = λ a d m none_is.
          unfold remove_dependencies_on update_where in
          mem-filter_of_mem (λ (x : ℕ × ℕ). not (contains ids x.1)) m
            (not-false (not_other_id db current d none_is));
    }

-- Either all other tasks of the project are idle, each of them fails, and the dependencies on them
-- are removed and no others; or one of them is not idle, and the tables stay as they were.
pub fast_fail_cases :
    (db : Db) (current : BuildTask)
    → AllFailed db current (fast_fail_other_tasks_by_ref db current)
      ⊎ ((t : BuildTask) × IsOther db current t × (t.status ≢ BuildTaskStatus.idle))
        × (fast_fail_other_tasks_by_ref db current ≡ db)
fast_fail_cases db current =
    elim (all_or_one (λ (t : BuildTask). t.status == BuildTaskStatus.idle)
      (tasks_of_ref db current)) [
        | inl idle ↦
            let all_idle = λ (t : BuildTask) (m : Memᴰ t (tasks_of_ref db current)).
              (status_eq.beq_iff t.status BuildTaskStatus.idle).0 (idle t m) in
            inl (
              rw (fast_fail-all db current all_idle)
                (fail_tasks-AllFailed db current (λ t o. all_idle t ((is_other db current t).1 o))))
        | inr (t, m, busy) ↦
            let is_busy : t.status ≢ BuildTaskStatus.idle = (λ e.
              absurd
                (false≢true (sym busy ∙ (status_eq.beq_iff t.status BuildTaskStatus.idle).1 e))) in
            inr ((t, (is_other db current t).0 m, is_busy), fast_fail-none db current t m is_busy)
      ]
