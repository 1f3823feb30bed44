-- ===== src/BuildNode/Refused.antt =====
-- Why get_available_build_task (alws/crud/build_node.py) hands out no task.
use mathlib.Core.Bool.{false≢true}
use mathlib.Core.Path.{subst}
use albs_web_server.Prelude.{
  ℕ, ◌+◌, ◌*◌, ◌<◌, ◌≤◌, String, Bool, true, false, Option, none, some, any-of_mem, mem-of_any,
  contains, contains_iff, ◌==◌, ==-refl, eq_of_==, nat_eq, string_eq, ltb, ◌≡◌, ◌↔◌, refl, sym, ap,
  ◌∙◌, inl, inr, Memᴰ, Bool-cases, arith, and_true, not-false,
}
use albs_web_server.Constants.Statuses.{BuildTaskStatus, value, is_finished}
use albs_web_server.BuildNode.Db.{BuildTask, Db, has_dependencies}
use albs_web_server.BuildNode.Available.{
  RequestTask, is_expired, is_excluded, is_eligible, get_available_build_task,
}
use albs_web_server.BuildNode.Handout.{
  IsEligible, is_eligible-IsEligible, get_available_build_task-none,
}

module _ (ilike : String → String → Bool) where
  -- The reasons why a task is not for a request.
  pub data Refused (db : Db) (request : RequestTask) (now : ℕ) (task : BuildTask) : Type 0 where
    waits : (d : ℕ) → Memᴰ (task.id, d) db.dependencies → Refused db request now task
    finished : is_finished task.status ≡ true → Refused db request now task
    unsupported : ¬ Memᴰ task.arch request.supported_arches → Refused db request now task
    recent : (ts : ℕ) → task.ts ≡ some ts → now ≤ ts + 20 * 60 → Refused db request now task
    excluded :
        (project : String)
        → Memᴰ project request.excluded_packages
        → ilike task.ref_url project ≡ true
        → Refused db request now task

  has_dependencies-true :
      (db : Db) (task : BuildTask)
      → has_dependencies db task ≡ true
      → (d : ℕ) × Memᴰ (task.id, d) db.dependencies
  unfolding has_dependencies
  has_dependencies-true db task h =
      let (e, m, same) = mem-of_any (λ (d : ℕ × ℕ). d.0 == task.id) db.dependencies h in
      let edge : e ≡ (task.id, e.1) = ap (λ (id : ℕ). (id, e.1)) (eq_of_== e.0 task.id same) in
      (e.1, subst (λ (x : ℕ × ℕ). Memᴰ x db.dependencies) edge m)

  finished_value : (s : BuildTaskStatus) → is_finished s ≡ true → ¬ (value s < 2)
  unfolding is_finished value
  finished_value s over below = ground arith

  unfinished_value : (s : BuildTaskStatus) → is_finished s ≡ false → ltb (value s) 2 ≡ true
  unfolding is_finished value
  unfinished_value s opened = ground arith

  not_expired : (now ts : ℕ) → now ≤ ts + 20 * 60 → ¬ (is_expired now (some ts) ≡ true)
  unfolding is_expired
  not_expired now ts soon expired = absurd (ground arith)

  Refused→false :
      (db : Db) (request : RequestTask) (now : ℕ) (task : BuildTask)
      → Refused db request now task
      → ¬ IsEligible ilike db request now task
  unfolding has_dependencies is_expired is_excluded
  Refused→false db request now task (Refused.waits d m) e =
      absurd
        (false≢true (sym e.ready ∙ any-of_mem (λ (d : ℕ × ℕ). d.0 == task.id) m (==-refl task.id)))
  Refused→false db request now task (Refused.finished over) e =
      finished_value task.status over e.unfinished
  Refused→false db request now task (Refused.unsupported out) e =
      out ((contains_iff request.supported_arches task.arch).0 e.supported)
  Refused→false db request now task (Refused.recent ts set soon) e =
      absurd (not_expired now ts soon (rw set at e.expired))
  Refused→false db request now task (Refused.excluded project m fits) e =
      absurd
        (false≢true (sym e.included ∙ any-of_mem (λ project. ilike task.ref_url project) m fits))

  expired-false :
      (now : ℕ) (ts : Option ℕ)
      → is_expired now ts ≡ false
      → (t : ℕ) × (ts ≡ some t) × (now ≤ t + 20 * 60)
  unfolding is_expired
  expired-false now none e = cc
  expired-false now (some t) e = (t, refl, ground arith)

  Refused-of_false :
      (db : Db) (request : RequestTask) (now : ℕ) (task : BuildTask)
      → is_eligible ilike db request now task ≡ false
      → Refused db request now task
  unfolding is_eligible
  Refused-of_false db request now task e = elim (Bool-cases (has_dependencies db task)) [
    | inl waiting ↦ let (d, m) = has_dependencies-true db task waiting in Refused.waits d m
    | inr ready ↦ elim (Bool-cases (is_finished task.status)) [
      | inl over ↦ Refused.finished over
      | inr unfinished ↦ elim (Bool-cases (contains request.supported_arches task.arch)) [
        | inr out ↦ Refused.unsupported (λ m.
            absurd (false≢true (sym out ∙ (contains_iff request.supported_arches task.arch).1 m)))
        | inl supported ↦ elim (Bool-cases (is_expired now task.ts)) [
          | inr fresh ↦
              let (ts, set, soon) = expired-false now task.ts fresh in Refused.recent ts set soon
          | inl expired ↦ elim (Bool-cases (is_excluded ilike request.excluded_packages task)) [
            | inl out ↦
                let (project, m, fits) =
                  mem-of_any (λ project. ilike task.ref_url project) request.excluded_packages
                    (unfold is_excluded in out) in
                Refused.excluded project m fits
            | inr included ↦ absurd (
                false≢true (
                  sym e
                  ∙ and_true (not-false ready) (
                      and_true (unfinished_value task.status unfinished)
                        (and_true supported (and_true expired (not-false included))))))
          ]
        ]
      ]
    ]
  ]

  -- A request gets no task exactly if every task waits for another one, is finished, is for an
  -- architecture that the node does not support, was handed out or pinged in the last twenty
  -- minutes, or is of a project that the node excludes.
  pub get_available_build_task-Refused :
      (db : Db) (request : RequestTask) (now : ℕ)
      → ((get_available_build_task ilike db request now).0 ≡ none)
        ↔ ((s : BuildTask) → Memᴰ s db.tasks → Refused db request now s)
  get_available_build_task-Refused db request now = (
    λ e s m.
        Refused-of_false db request now s
          ((get_available_build_task-none ilike db request now).0 e s m),
    λ refused. (get_available_build_task-none ilike db request now).1 (λ s m.
        elim (Bool-cases (is_eligible ilike db request now s)) [
          | inr out ↦ out
          | inl taken ↦ absurd (
              Refused→false db request now s (refused s m)
                (is_eligible-IsEligible ilike db request now s taken))
        ]),
  )
