-- ===== src/Multilib/Origin.antt =====
-- Where the artifacts come from that add_multilib_packages (alws/utils/multilib.py) adds.
use albs_web_server.Prelude.{
  and_true, filter, false, true, nat_beq_iff, some_eq, sym, mem-of_mem_filter, mem-filter_of_mem,
  mem-of_any, not-true, >>=-eq-ok, ℕ, String, Bool, not, ◌&&◌, List, [], ◌∷◌, Option, some, keys,
  ◌==◌, nat_eq, string_eq, ok, ◌≡◌, refl, ap, ◌∙◌, inl, inr, Memᴰ, mem_cons-cases, mem_of_eq,
  Bool-cases, Option-cases, ok-injective, and_parts, eq_of_==,
}
use albs_web_server.Constants.Statuses.{BuildTaskStatus, status_eq}
use albs_web_server.BuildNode.Db.{BuildTask, BuildTaskArtifact, Db}
use albs_web_server.Multilib.{
  Added, is_same_project, is_i686_task, scalar_subquery, is_id_of, is_multilib_needed,
  get_build_task_artifacts, add_multilib_packages,
}
use albs_web_server.Multilib.Chosen.{choose_packages-AllChosen}

module _ (is_in : String → String → Bool) (is_debuginfo_rpm : String → Bool)
    (pulp_name : String → Option String) where
  -- An artifact that is copied is a binary package of the one task for i686 of the build and index,
  -- which is completed; Pulp's name of it is one of those that Beholder gave.
  pub record FromI686 (db : Db) (build_task : BuildTask) (names : List String)
      (a : BuildTaskArtifact) : Type 0 where
    pub origin : BuildTaskArtifact
    pub stored : Memᴰ origin db.artifacts
    pub is_copy : a ≡ record origin { build_task_id = build_task.id }
    pub is_rpm : origin.type ≡ "rpm"
    pub is_binary : is_in "src.rpm" origin.name ≡ false
    pub task : BuildTask
    pub of_task : origin.build_task_id ≡ task.id
    pub task_stored : Memᴰ task db.tasks
    pub completed : task.status ≡ BuildTaskStatus.completed
    pub same_build : task.build_id ≡ build_task.build_id
    pub same_index : task.index ≡ build_task.index
    pub for_i686 : task.arch ≡ "i686"
    pub only :
        (t : BuildTask)
        → Memᴰ t db.tasks
        → t.build_id ≡ build_task.build_id
        → t.index ≡ build_task.index
        → t.arch ≡ "i686"
        → t ≡ task
    pub name : String
    pub in_pulp : pulp_name origin.href ≡ some name
    pub given : Memᴰ name names

  i686_task-true :
      (build_task t : BuildTask)
      → t.build_id ≡ build_task.build_id
      → t.index ≡ build_task.index
      → t.arch ≡ "i686"
      → is_i686_task build_task t ≡ true
  unfolding is_i686_task is_same_project
  i686_task-true build_task t same_build same_index for_i686 =
      and_true
        (and_true ((nat_beq_iff t.build_id build_task.build_id).1 same_build)
          ((nat_beq_iff t.index build_task.index).1 same_index))
        (rw for_i686 refl)

  i686_task-parts :
      (build_task t : BuildTask)
      → is_i686_task build_task t ≡ true
      → (t.build_id ≡ build_task.build_id) × (t.index ≡ build_task.index) × (t.arch ≡ "i686")
  unfolding is_i686_task is_same_project
  i686_task-parts build_task t fits =
      let (same, arch) =
        and_parts (t.build_id == build_task.build_id && t.index == build_task.index)
          (t.arch == "i686") fits in
      let (build, index) =
        and_parts (t.build_id == build_task.build_id) (t.index == build_task.index) same in
      (
        eq_of_== t.build_id build_task.build_id build,
        eq_of_== t.index build_task.index index,
        eq_of_== t.arch "i686" arch,
      )

  scalar_subquery-some :
      (ts : List BuildTask) {id : ℕ}
      → scalar_subquery ts ≡ ok (some id)
      → (t : BuildTask) × (ts ≡ t ∷ []) × (t.id ≡ id)
  unfolding scalar_subquery
  scalar_subquery-some [] e = cc (ok-injective e)
  scalar_subquery-some (t ∷ []) e = (t, refl, some_eq (ok-injective e))
  scalar_subquery-some (t ∷ s ∷ ts) e = cc

  -- Where an artifact is found, the task for i686 is the only one.
  get_build_task_artifacts-only :
      (db : Db) (build_task : BuildTask) {artifacts : List BuildTaskArtifact}
      {origin : BuildTaskArtifact}
      → get_build_task_artifacts is_in is_debuginfo_rpm pulp_name db build_task ≡ ok artifacts
      → Memᴰ origin artifacts
      → (task : BuildTask) × (filter (is_i686_task build_task) db.tasks ≡ task ∷ [])
        × (origin.build_task_id ≡ task.id)
        × Memᴰ origin db.artifacts
        × (origin.type ≡ "rpm")
        × (is_in "src.rpm" origin.name ≡ false)
  unfolding get_build_task_artifacts is_id_of
  get_build_task_artifacts-only db build_task {origin = origin} e m =
      let (subquery, found, rest) =
        >>=-eq-ok (scalar_subquery (filter (is_i686_task build_task) db.tasks)) _ e in
      let (stored, fits) =
        mem-of_mem_filter
          (λ (a : BuildTaskArtifact).
            is_id_of subquery a.build_task_id && (a.type == "rpm" && not (is_in "src.rpm" a.name)))
          db.artifacts (mem_of_eq (ok-injective rest) m) in
      let (of_task, others) = and_parts (is_id_of subquery origin.build_task_id) _ fits in
      let (rpm, binary) = and_parts (origin.type == "rpm") _ others in
      elim (Option-cases subquery) [
        | inl null ↦ cc (rw (null, is_id_of) at of_task)
        | inr (id, is_some) ↦
            let (task, alone, same) =
              scalar_subquery-some (filter (is_i686_task build_task) db.tasks)
                (found ∙ ap ok is_some) in
            let is_id : (origin.build_task_id == id) ≡ true = rw (is_some, is_id_of) at of_task in
            (
              task,
              alone,
              eq_of_== origin.build_task_id id is_id ∙ sym same,
              stored,
              eq_of_== origin.type "rpm" rpm,
              not-true _ binary,
            )
      ]

  alone_is :
      (db : Db) (build_task task t : BuildTask)
      → filter (is_i686_task build_task) db.tasks ≡ task ∷ []
      → Memᴰ t db.tasks
      → is_i686_task build_task t ≡ true
      → t ≡ task
  alone_is db build_task task t alone m fits =
      elim (mem_cons-cases
        (mem_of_eq (sym alone) (mem-filter_of_mem (is_i686_task build_task) m fits))) [
          | inl same ↦ same
          | inr more ↦ elim more [ ]
        ]

  needed_completed :
      (db : Db) (build_task task : BuildTask)
      → filter (is_i686_task build_task) db.tasks ≡ task ∷ []
      → is_multilib_needed db build_task ≡ true
      → task.status ≡ BuildTaskStatus.completed
  unfolding is_multilib_needed is_i686_task
  needed_completed db build_task task alone needed =
      let (t, m, fits) = mem-of_any _ db.tasks needed in
      let (same, done) = and_parts (is_same_project build_task t) _ fits in
      let (completed, arch) = and_parts (t.status == BuildTaskStatus.completed) _ done in
      ap (λ (s : BuildTask). s.status)
        (sym (alone_is db build_task task t alone m (and_true same arch)))
      ∙ eq_of_== t.status BuildTaskStatus.completed completed

  -- Every artifact that add_multilib_packages adds to a task is a copy of a binary package of the
  -- task for i686 of the same build and index, which is completed and the only such task, and Pulp's
  -- name of the package is one of the names that Beholder gave.
  pub add_multilib_packages-FromI686 :
      (db : Db) (build_task : BuildTask) (packages : List (String × String)) {added : Added}
      (a : BuildTaskArtifact)
      → add_multilib_packages is_in is_debuginfo_rpm pulp_name db build_task packages ≡ ok added
      → Memᴰ a added.artifacts
      → FromI686 db build_task (keys packages) a
  unfolding add_multilib_packages
  add_multilib_packages-FromI686 db build_task packages a e m =
      elim (Bool-cases (is_multilib_needed db build_task)) [
        | inl needed ↦
            let (artifacts, got, rest) =
              >>=-eq-ok (get_build_task_artifacts is_in is_debuginfo_rpm pulp_name db build_task) _
                (rw (needed, add_multilib_packages) at e) in
            let c =
              choose_packages-AllChosen is_in is_debuginfo_rpm pulp_name build_task.id
                (keys packages) artifacts artifacts _ rest (λ b k. k) (λ b k. elim k [ ]) a m in
            let (task, alone, of_task, stored, is_rpm, is_binary) =
              get_build_task_artifacts-only db build_task got c.among in
            let (task_stored, fits) =
              mem-of_mem_filter (is_i686_task build_task) db.tasks
                (mem_of_eq alone (Memᴰ.head refl)) in
            let (same_build, same_index, for_i686) = i686_task-parts build_task task fits in
            record {
              origin = c.origin;
              stored = stored;
              is_copy = c.is_copy;
              is_rpm = is_rpm;
              is_binary = is_binary;
              task = task;
              of_task = of_task;
              task_stored = task_stored;
              completed = needed_completed db build_task task alone needed;
              same_build = same_build;
              same_index = same_index;
              for_i686 = for_i686;
              only = λ t tm b i arch.
                  alone_is db build_task task t alone tm (i686_task-true build_task t b i arch);
              name = c.name;
              in_pulp = c.in_pulp;
              given = c.given;
            }
        | inr not_needed ↦
            elim (mem_of_eq
              (ap (λ (o : Added). o.artifacts)
                (ok-injective (rw (not_needed, add_multilib_packages) at e)))
              m) [ ]
      ]
