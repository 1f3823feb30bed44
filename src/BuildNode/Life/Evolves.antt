-- ===== src/BuildNode/Life/Evolves.antt =====
-- Changes of the tables of the queue (alws/crud/build_node.py) that finish tasks and open none.
use mathlib.Core.Path.{subst}
use albs_web_server.Prelude.{
  ℕ, String, Bool, true, not, List, Option, some, contains, ◌==◌, nat_eq, ◌≡◌, refl, sym, ap, ◌∙◌,
  ◌⊎◌, inl, inr, Memᴰ, Bool-cases, mem-of_mem_filter, mem_of_eq, nat_beq_iff,
}
use albs_web_server.Constants.Statuses.{BuildTaskStatus, is_finished}
use albs_web_server.BuildNode.Db.{
  BuildTask, Db, update_where, update_where-mem, mem-update_where, remove_dependencies_on,
  remove_dependencies_on-none,
}
use albs_web_server.BuildNode.Done.{fail_tasks}
use albs_web_server.BuildNode.Life.{IsOpen}

-- Nothing waits for the task.
abbrev pub Unawaited : Db → ℕ → Type 0
Unawaited db task_id = (a : ℕ) → ¬ Memᴰ (a, task_id) db.dependencies

abbrev IsSame : BuildTask → BuildTask → Type 0
IsSame s t = (s.id ≡ t.id) × (s.build_id ≡ t.build_id)

-- No dependency is new, a task that is open afterwards was so with the same status and timestamp,
-- and an open task that is none of those that may be closed stays open. With a value of `Dated`,
-- timestamps may change.
pub record EvolvesWith (Dated : Type 0) (MayClose : ℕ → Type 0) (db db' : Db) : Type 0 where
  pub dependencies : (e : ℕ × ℕ) → Memᴰ e db'.dependencies → Memᴰ e db.dependencies
  pub back :
      (t' : BuildTask)
      → Memᴰ t' db'.tasks
      → IsOpen t'
      → (t : BuildTask) × Memᴰ t db.tasks
        × IsSame t t'
        × (t'.status ≡ t.status)
        × ((t'.ts ≡ t.ts) ⊎ Dated)
  pub forth :
      (t : BuildTask)
      → Memᴰ t db.tasks
      → IsOpen t
      → ¬ MayClose t.id
      → (t' : BuildTask) × Memᴰ t' db'.tasks × IsSame t' t × IsOpen t'

abbrev pub Evolves : (ℕ → Type 0) → Db → Db → Type 0
Evolves MayClose db db' = EvolvesWith ⊥ MayClose db db'

ts_trans : {D : Type 0} {a b c : Option ℕ} → (a ≡ b) ⊎ D → (b ≡ c) ⊎ D → (a ≡ c) ⊎ D
ts_trans (inl e) (inl e') = inl (e ∙ e')
ts_trans (inl e) (inr d) = inr d
ts_trans (inr d) h = inr d

module _ {D : Type 0} {P : ℕ → Type 0} where
  pub Evolves-trans : {a b c : Db} → EvolvesWith D P a b → EvolvesWith D P b c → EvolvesWith D P a c
  Evolves-trans p q = record {
    dependencies = λ e m. p.dependencies e (q.dependencies e m);
    back = λ t' m is_open.
        let (s, sm, (s_id, s_build), s_status, s_ts) = q.back t' m is_open in
        let (t, tm, (t_id, t_build), t_status, t_ts) =
          p.back s sm (ap is_finished (sym s_status) ∙ is_open) in
        (t, tm, (t_id ∙ s_id, t_build ∙ s_build), s_status ∙ t_status, ts_trans s_ts t_ts);
    forth = λ t m is_open stays.
        let (s, sm, (s_id, s_build), s_open) = p.forth t m is_open stays in
        let (u, um, (u_id, u_build), u_open) =
          q.forth s sm s_open (λ closed. stays (subst P s_id closed)) in
        (u, um, (u_id ∙ s_id, u_build ∙ s_build), u_open);
  }

  -- The tasks are the same, and no dependency is new.
  pub Evolves-same_tasks :
      (db db' : Db)
      → db'.tasks ≡ db.tasks
      → ((e : ℕ × ℕ) → Memᴰ e db'.dependencies → Memᴰ e db.dependencies)
      → EvolvesWith D P db db'
  Evolves-same_tasks db db' same sub = record {
    dependencies = sub;
    back = λ t' m is_open. (t', mem_of_eq (sym same) m, (refl, refl), refl, inl refl);
    forth = λ t m is_open stays. (t, mem_of_eq same m, (refl, refl), is_open);
  }

  pub Evolves-weaken :
      {Q : ℕ → Type 0} {a b : Db}
      → ((n : ℕ) → P n → Q n)
      → EvolvesWith D P a b
      → EvolvesWith D Q a b
  Evolves-weaken weaker p = record {
    dependencies = p.dependencies;
    back = p.back;
    forth = λ t m is_open stays. p.forth t m is_open (λ closed. stays (weaker t.id closed));
  }

  -- An update of rows that keeps the identifiers and the builds, and either keeps the status or
  -- finishes a task that may be closed.
  pub Evolves-update_where :
      (test : BuildTask → Bool) (values : BuildTask → BuildTask) (db : Db)
      → ((t : BuildTask) → IsSame (values t) t)
      → (((t : BuildTask) → ((values t).status ≡ t.status) × (((values t).ts ≡ t.ts) ⊎ D))
          ⊎ ((t : BuildTask) → is_finished (values t).status ≡ true)
            × ((t : BuildTask) → test t ≡ true → P t.id))
      → EvolvesWith D P db (update_where test values db)
  Evolves-update_where test values db same effect = record {
    dependencies = λ e m. unfold update_where in m;
    back = λ t' m is_open.
        let (s, sm, origin) = mem-update_where test values db m in
        elim origin [
          | inr (_, e) ↦ (
            s,
            sm,
            (ap (λ (r : BuildTask). r.id) (sym e), ap (λ (r : BuildTask). r.build_id) (sym e)),
            ap (λ (r : BuildTask). r.status) e,
            inl (ap (λ (r : BuildTask). r.ts) e),
          )
          | inl (_, e) ↦ elim effect [
            | inl keeps ↦ (
              s,
              sm,
              (
                sym (ap (λ (r : BuildTask). r.id) e ∙ (same s).0),
                sym (ap (λ (r : BuildTask). r.build_id) e ∙ (same s).1),
              ),
              ap (λ (r : BuildTask). r.status) e ∙ (keeps s).0,
              ts_trans (inl (ap (λ (r : BuildTask). r.ts) e)) (keeps s).1,
            )
            | inr (closes, _) ↦
                let closed = ap (λ (r : BuildTask). is_finished r.status) e ∙ closes s in
                cc (closed, is_open)
          ]
        ];
    forth = λ t m is_open stays.
        let row = update_where-mem test values db m in
        elim (Bool-cases (test t)) [
          | inr untouched ↦ (t, rw untouched at row, (refl, refl), is_open)
          | inl touched ↦ elim effect [
            | inl keeps ↦
                (values t, rw touched at row, same t, ap is_finished (keeps t).0 ∙ is_open)
            | inr (_, only) ↦ absurd (stays (only t touched))
          ]
        ];
  }

  pub Evolves-refl : (db : Db) → EvolvesWith D P db db
  Evolves-refl db = Evolves-same_tasks db db refl (λ e m. m)

remove_dependencies_on-subset :
    (ids : List ℕ) (db : Db) (e : ℕ × ℕ)
    → Memᴰ e (remove_dependencies_on ids db).dependencies
    → Memᴰ e db.dependencies
unfolding remove_dependencies_on
remove_dependencies_on-subset ids db e m =
    (mem-of_mem_filter (λ d. not (contains ids d.1)) db.dependencies m).0

pub Evolves-remove_dependencies_on :
    {P : ℕ → Type 0} (ids : List ℕ) (db : Db) → Evolves P db (remove_dependencies_on ids db)
Evolves-remove_dependencies_on ids db =
    Evolves-same_tasks db (remove_dependencies_on ids db) (unfold remove_dependencies_on in refl)
      (remove_dependencies_on-subset ids db)

pub Unawaited-remove :
    (ids : List ℕ) (db : Db) (n : ℕ)
    → contains ids n ≡ true
    → Unawaited (remove_dependencies_on ids db) n
Unawaited-remove ids db n among a m = cc (remove_dependencies_on-none ids db a n m, among)

-- Failing tasks removes what waits for them.
pub fail_tasks-Evolves :
    (message : String) (ids : List ℕ) (db : Db)
    → Evolves (Unawaited (fail_tasks message ids db)) db (fail_tasks message ids db)
unfolding fail_tasks is_finished
fail_tasks-Evolves message ids db =
    Evolves-trans
      (Evolves-update_where (λ t. contains ids t.id)
        (λ t. record t { status = BuildTaskStatus.failed; error = some message }) db
        (λ t. (refl, refl)) (inr (λ t. refl, λ t among. Unawaited-remove ids _ t.id among)))
      (Evolves-remove_dependencies_on ids _)

-- No row of the task is open.
abbrev pub IsClosed : ℕ → Db → Type 0
IsClosed n db = (t : BuildTask) → Memᴰ t db.tasks → t.id ≡ n → is_finished t.status ≡ true

pub Evolves-IsClosed :
    {P : ℕ → Type 0} {db db' : Db} {n : ℕ} → Evolves P db db' → IsClosed n db → IsClosed n db'
Evolves-IsClosed e closed t' m same = elim (Bool-cases (is_finished t'.status)) [
  | inl over ↦ over
  | inr is_open ↦
      let (t, tm, (id, _), status, _) = e.back t' m is_open in
      ap is_finished status ∙ closed t tm (id ∙ same)
]

pub update_where-IsClosed :
    (task_id : ℕ) (values : BuildTask → BuildTask) (db : Db)
    → ((t : BuildTask) → is_finished (values t).status ≡ true)
    → IsClosed task_id (update_where (λ t. t.id == task_id) values db)
update_where-IsClosed task_id values db over t m same =
    let (s, sm, origin) = mem-update_where (λ t. t.id == task_id) values db m in
    elim origin [
      | inl (_, e) ↦ ap (λ (r : BuildTask). is_finished r.status) e ∙ over s
      | inr (other, e) ↦
          let s_same : s.id ≡ task_id = rw e at same in
          cc (other, (nat_beq_iff s.id task_id).1 s_same)
    ]
