-- ===== src/Noarch/Same.antt =====
-- The packages that the tasks of a project share after save_noarch_packages (alws/utils/noarch.py).
use albs_web_server.Prelude.{
  ℕ, String, Bool, true, false, List, [], ◌∷◌, ◌++◌, map, Option, none, some, lookup, insert,
  is_empty, all, filter, lookup-insert_ne, mem-of_lookup, ◌==◌, nat_eq, string_eq, ◌≡◌, refl, ◌∙◌,
  inl, inr, Memᴰ, mem_cons-cases, mem-append_left, mem-append_right, mem_append-cases,
  mem-map_of_mem, Bool-cases,
}
use albs_web_server.Constants.Statuses.{is_finished}
use albs_web_server.BuildNode.Db.{BuildTask, BuildTaskArtifact, BuildRepo, Db}
use albs_web_server.Noarch.{
  Packages, Saving, merge, created_artifact, is_skipped, save_for_task, save_for_tasks,
  tasks_of_project, get_noarch_packages, save_noarch_packages,
}
use albs_web_server.Noarch.Replaced.{HasPackage, replace_artifacts-keeps, replace_artifacts-cases}

HasPackage-append_left :
    {task_id : ℕ} {name href : String} {rows : List BuildTaskArtifact}
    (more : List BuildTaskArtifact)
    → HasPackage task_id name href rows
    → HasPackage task_id name href (rows ++ more)
HasPackage-append_left more (a, m, t, n, h) = (a, mem-append_left more m, t, n, h)

HasPackage-append_right :
    {task_id : ℕ} {name href : String} (rows : List BuildTaskArtifact)
    {more : List BuildTaskArtifact}
    → HasPackage task_id name href more
    → HasPackage task_id name href (rows ++ more)
HasPackage-append_right rows (a, m, t, n, h) = (a, mem-append_right rows m, t, n, h)

none_other :
    (name other : String) (found : String × Option String) (packages : Packages)
    → lookup name ((other, found) ∷ packages) ≡ none
    → ((name == other) ≡ false) × (lookup name packages ≡ none)
unfolding lookup
none_other name other found packages h = elim (Bool-cases (name == other)) [
  | inl same ↦ cc (rw (same, lookup) at h)
  | inr differs ↦ (differs, rw (differs, lookup) at h)
]

module _ (name : String) (found : String × Option String) where
  lookup-merge :
      (noarch debug : Packages)
      → lookup name noarch ≡ some found
      → lookup name debug ≡ none
      → lookup name (merge noarch debug) ≡ some found
  unfolding merge
  lookup-merge noarch [] has hasnt = has
  lookup-merge noarch ((other, value) ∷ debug) has hasnt =
      let (differs, rest) = none_other name other value debug hasnt in
      lookup-merge (insert other value noarch) debug
        (lookup-insert_ne other name value noarch differs ∙ has) rest

  created-HasPackage :
      (task_id : ℕ) (packages : Packages)
      → lookup name packages ≡ some found
      → HasPackage task_id name found.0 (map (created_artifact task_id) packages)
  unfolding created_artifact
  created-HasPackage task_id packages has = (
    created_artifact task_id (name, found),
    mem-map_of_mem (created_artifact task_id) (mem-of_lookup name packages has),
    refl,
    refl,
    refl,
  )

  -- The package is among the rows that are there, or among those that are created.
  abbrev Has : ℕ → Saving → Type 0
  Has task_id s = HasPackage task_id name found.0 (s.artifacts ++ s.created)

  module _ (build_task : BuildTask) (noarch debug : Packages) (repos : List BuildRepo) where
    save_for_task-keeps :
        (task : BuildTask) (other : ℕ) (s : Saving)
        → lookup name noarch ≡ some found
        → lookup name debug ≡ none
        → Has other s
        → Has other (save_for_task build_task noarch debug repos task s)
    unfolding save_for_task
    save_for_task-keeps task other s has hasnt (a, m, t, n, h) =
        elim (Bool-cases (is_skipped task)) [
          | inl skipped ↦ rw (skipped, save_for_task) (a, m, t, n, h)
          | inr done ↦
              rw (done, save_for_task)
                (elim (mem_append-cases s.artifacts m) [
                  | inl there ↦ HasPackage-append_left _ (
                      replace_artifacts-keeps name found task.id other _ s.artifacts
                        (inl has, hasnt) (a, there, t, n, h))
                  | inr created ↦
                      HasPackage-append_right _ (HasPackage-append_left _ (a, created, t, n, h))
                ])
        ]

    save_for_task-gives :
        (task : BuildTask) (s : Saving)
        → lookup name noarch ≡ some found
        → lookup name debug ≡ none
        → is_skipped task ≡ false
        → Has task.id (save_for_task build_task noarch debug repos task s)
    unfolding save_for_task
    save_for_task-gives task s has hasnt done =
        rw (done, save_for_task)
          (elim (replace_artifacts-cases name found task.id _ s.artifacts (inl has, hasnt) has) [
            | inl there ↦ HasPackage-append_left _ there
            | inr (left, no_debug) ↦ HasPackage-append_right _ (
                HasPackage-append_right s.created
                  (created-HasPackage task.id _ (lookup-merge _ _ left no_debug)))
          ])

    save_for_tasks-keeps :
        (tasks : List BuildTask) (other : ℕ) (s : Saving)
        → lookup name noarch ≡ some found
        → lookup name debug ≡ none
        → Has other s
        → Has other (save_for_tasks build_task noarch debug repos tasks s)
    unfolding save_for_tasks
    save_for_tasks-keeps [] other s has hasnt h = h
    save_for_tasks-keeps (task ∷ tasks) other s has hasnt h =
        save_for_tasks-keeps tasks other _ has hasnt (save_for_task-keeps task other s has hasnt h)

    save_for_tasks-gives :
        (tasks : List BuildTask) (s : Saving) {task : BuildTask}
        → lookup name noarch ≡ some found
        → lookup name debug ≡ none
        → Memᴰ task tasks
        → is_skipped task ≡ false
        → Has task.id (save_for_tasks build_task noarch debug repos tasks s)
    unfolding save_for_tasks
    save_for_tasks-gives [] s has hasnt m done = elim m [ ]
    save_for_tasks-gives (first ∷ tasks) s {task} has hasnt m done = elim (mem_cons-cases m) [
      | inl here ↦
          save_for_tasks-keeps tasks task.id _ has hasnt
            (rw here (save_for_task-gives first s has hasnt (rw here at done)))
      | inr later ↦ save_for_tasks-gives tasks _ has hasnt later done
    ]

not_empty :
    (name : String) (packages : Packages) {found : String × Option String}
    → lookup name packages ≡ some found
    → is_empty packages ≡ false
unfolding lookup
not_empty name [] h = cc
not_empty name (p ∷ packages) h = refl

module _ (is_in : String → String → Bool) where
  -- When all tasks of a project and platform are finished, every task of them that has neither
  -- failed nor been excluded, and is not for sources, has an artifact for every noarch package of
  -- the project that has no name of a debug package, with the address of that package.
  pub save_noarch_packages-HasPackage :
      (db : Db) (build_task task : BuildTask) (name : String) (found : String × Option String)
      → (build_task.arch == "src") ≡ false
      → all (λ t. is_finished t.status) (tasks_of_project db build_task) ≡ true
      → Memᴰ task (tasks_of_project db build_task)
      → is_skipped task ≡ false
      → lookup name
          (get_noarch_packages is_in db (map (λ t. t.id) (tasks_of_project db build_task))).0
        ≡ some found
      → lookup name
          (get_noarch_packages is_in db (map (λ t. t.id) (tasks_of_project db build_task))).1
        ≡ none
      → HasPackage task.id name found.0 (save_noarch_packages is_in db build_task).0.artifacts
  unfolding save_noarch_packages
  save_noarch_packages-HasPackage db build_task task name found binary finished m done has hasnt =
      let packages =
        get_noarch_packages is_in db (map (λ t. t.id) (tasks_of_project db build_task)) in
      let gives =
        save_for_tasks-gives name found build_task packages.0 packages.1
          (filter (λ repo. repo.build_id == build_task.build_id) db.repos)
          (tasks_of_project db build_task)
          (record {
            artifacts = db.artifacts;
            created = [];
            binary_rpms = [];
            repos_to_update = [];
          })
          has hasnt m done in
      simp (binary, finished, not_empty name packages.0 has, save_noarch_packages) gives
