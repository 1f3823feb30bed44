-- ===== src/TestTasks/Latest.antt =====
-- Which tests are the latest ones of a build task after create_test_tasks (alws/crud/test.py).
use albs_web_server.Prelude.{
  ℕ, suc, ◌<◌, ◌≤◌, String, Bool, true, false, not, List, [], ◌∷◌, ◌++◌, Option, none, some, filter,
  length, drop, length-append, if◌then◌else◌, ◌==◌, nat_eq, string_eq, eq_of_==, neq_test, ◌&&◌,
  ltb, ok, ok-injective, ◌≡◌, refl, sym, ap, ◌∙◌, inl, inr, Memᴰ, mem_cons-cases, filter-all,
  Bool-cases, Option-cases, some_eq, nat_beq_iff, arith, head?,
}
use albs_web_server.BuildNode.Db.{BuildTask, BuildTaskArtifact, Db, find_task}
use albs_web_server.TestTasks.Db.{
  TestTask, TestDb, max_revision, tests_of, get_test_tasks_by_build_task,
}
use albs_web_server.TestTasks.Create.{RpmPackage, new_revision, test_tasks_for, create_test_tasks}

abbrev IsMadeFor : ℕ → ℕ → TestTask → Type 0
IsMadeFor build_task_id revision t = (t.build_task_id ≡ build_task_id) × (t.revision ≡ revision)

drop-append {ℓ} : {A : Type ℓ} (xs ys : List A) → drop (length xs) (xs ++ ys) ≡ ys
drop-append [] ys = refl
drop-append (x ∷ xs) ys = drop-append xs ys

filter-append {ℓ} :
    {A : Type ℓ} (p : A → Bool) (xs ys : List A) → filter p (xs ++ ys) ≡ filter p xs ++ filter p ys
filter-append p [] ys = refl
filter-append p (x ∷ xs) ys = elim (Bool-cases (p x)) [
  | inl px ↦ rw (px, filter-append p xs ys) refl
  | inr nx ↦ rw (nx, filter-append p xs ys) refl
]

filter-none {ℓ} :
    {A : Type ℓ} (p : A → Bool) (xs : List A)
    → ((a : A) → Memᴰ a xs → p a ≡ false)
    → filter p xs ≡ []
filter-none p [] never = refl
filter-none p (x ∷ xs) never =
    rw (never x (Memᴰ.head refl)) (filter-none p xs (λ a m. never a (Memᴰ.tail m)))

-- No revision is above the greatest one.
max_revision-none : (tasks : List TestTask) → max_revision tasks ≡ none → tasks ≡ []
unfolding max_revision
max_revision-none [] e = refl
max_revision-none (t ∷ ts) e = elim (Option-cases (max_revision ts)) [
  | inl nothing ↦ cc (rw nothing at e)
  | inr (last, found) ↦ cc (rw found at e)
]

max_revision-greatest :
    (tasks : List TestTask) (t : TestTask) {r : ℕ}
    → max_revision tasks ≡ some r
    → Memᴰ t tasks
    → t.revision ≤ r
unfolding max_revision
max_revision-greatest [] t e m = elim m [ ]
max_revision-greatest (x ∷ xs) t {r} e m = elim (Option-cases (max_revision xs)) [
  | inl nothing ↦
      let same : x.revision ≡ r = some_eq (rw nothing at e) in
      elim (mem_cons-cases m) [
        | inl here ↦ omega (arith, ap (λ (b : TestTask). b.revision) here, same)
        | inr there ↦ elim (rw (max_revision-none xs nothing) at there) [ ]
      ]
  | inr (last, found) ↦
      let same : (if ltb last x.revision then x.revision else last) ≡ r = some_eq (rw found at e) in
      elim (mem_cons-cases m) [
        | inl here ↦ let h = ap (λ (b : TestTask). b.revision) here in ground (arith, h, same)
        | inr there ↦ let h = max_revision-greatest xs t found there in ground (arith, h, same)
      ]
]

new_revision-greater :
    (build_task_id : ℕ) (db : TestDb) (t : TestTask)
    → Memᴰ t (tests_of build_task_id db)
    → t.revision < new_revision build_task_id db
unfolding new_revision
new_revision-greater build_task_id db t m =
    let tasks = tests_of build_task_id db in
    elim (Option-cases (max_revision tasks)) [
      | inl nothing ↦ elim (rw (max_revision-none tasks nothing) at m) [ ]
      | inr (last, found) ↦
          let below : t.revision ≤ last = max_revision-greatest tasks t found m in
          rw (found, new_revision) (omega arith)
    ]

-- Rows of one revision behind rows of smaller ones.
max_revision-append :
    (n : ℕ) (xs : List TestTask) (y : TestTask) (ys : List TestTask)
    → ((t : TestTask) → Memᴰ t xs → t.revision < n)
    → ((t : TestTask) → Memᴰ t (y ∷ ys) → t.revision ≡ n)
    → max_revision (xs ++ y ∷ ys) ≡ some n
unfolding max_revision
max_revision-append n [] y [] below here = ap some (here y (Memᴰ.head refl))
max_revision-append n [] y (z ∷ zs) below here =
    let rest = max_revision-append n [] z zs below (λ t m. here t (Memᴰ.tail m)) in
    let same = here y (Memᴰ.head refl) in rw rest (ground (arith, same))
max_revision-append n (x ∷ xs) y ys below here =
    let rest = max_revision-append n xs y ys (λ t m. below t (Memᴰ.tail m)) here in
    let less = below x (Memᴰ.head refl) in rw rest (ground (arith, less))

-- The newest tests of a build task, when rows of a greater revision are added.
newest-append :
    (n build_task_id : ℕ) (db db' : TestDb) (y : TestTask) (ys : List TestTask)
    (revision : Option ℕ)
    → db'.test_tasks ≡ db.test_tasks ++ y ∷ ys
    → ((t : TestTask) → Memᴰ t (tests_of build_task_id db) → t.revision < n)
    → ((t : TestTask) → Memᴰ t (y ∷ ys) → IsMadeFor build_task_id n t)
    → get_test_tasks_by_build_task db' build_task_id true revision ≡ y ∷ ys
unfolding get_test_tasks_by_build_task tests_of
newest-append n build_task_id db db' y ys revision added below made =
    let of_task = λ (t : TestTask). t.build_task_id == build_task_id in
    let is_newest = λ (t : TestTask). t.revision == n in
    let old = tests_of build_task_id db in
    let all_made : filter of_task (y ∷ ys) ≡ y ∷ ys =
      filter-all of_task (y ∷ ys) (λ t m. (nat_beq_iff _ _).1 (made t m).0) in
    let parts : filter of_task db'.test_tasks ≡ old ++ y ∷ ys =
      ap (filter of_task) added
      ∙ (filter-append of_task db.test_tasks (y ∷ ys) ∙ ap (λ l. old ++ l) all_made) in
    let last : max_revision (filter of_task db'.test_tasks) ≡ some n =
      ap max_revision parts ∙ max_revision-append n old y ys below (λ t m. (made t m).1) in
    let none_old : filter is_newest old ≡ [] =
      filter-none is_newest old
        (λ t m. let less = below t m in neq_test t.revision n (λ e. omega (arith, less, e))) in
    let all_new : filter is_newest (y ∷ ys) ≡ y ∷ ys =
      filter-all is_newest (y ∷ ys) (λ t m. (nat_beq_iff _ _).1 (made t m).1) in
    rw (last, get_test_tasks_by_build_task)
      (ap (filter is_newest) parts
        ∙ (filter-append is_newest old (y ∷ ys)
            ∙ (ap (λ l. l ++ filter is_newest (y ∷ ys)) none_old ∙ all_new)))

found_id : (n : ℕ) (db : Db) {t : BuildTask} → find_task n db ≡ some t → t.id ≡ n
unfolding find_task
found_id n db {t} e = first db.tasks e
  where
    first : (ts : List BuildTask) → head? (filter (λ t. t.id == n) ts) ≡ some t → t.id ≡ n
    first [] h = cc
    first (x ∷ xs) h = elim (Bool-cases (x.id == n)) [
      | inl same ↦
          ap (λ (b : BuildTask). b.id) (sym (some_eq (rw same at h))) ∙ eq_of_== x.id n same
      | inr other ↦ first xs (rw other at h)
    ]

module _ (pulp_package : String → Option RpmPackage) where
  test_tasks_for-IsMadeFor :
      (build_task : BuildTask) (revision : ℕ) (repository : String) (id : ℕ)
      (artifacts : List BuildTaskArtifact) (t : TestTask)
      → Memᴰ t (test_tasks_for pulp_package build_task revision repository id artifacts)
      → IsMadeFor build_task.id revision t
  unfolding test_tasks_for
  test_tasks_for-IsMadeFor build_task revision repository id [] t m = elim m [ ]
  test_tasks_for-IsMadeFor build_task revision repository id (artifact ∷ artifacts) t m =
      elim (Option-cases (pulp_package artifact.href)) [
        | inl unknown ↦
            test_tasks_for-IsMadeFor build_task revision repository id artifacts t
              (rw (unknown, test_tasks_for) at m)
        | inr (info, found) ↦
            elim (Bool-cases (artifact.type == "rpm" && not (info.arch == "src"))) [
              | inr skipped ↦
                  test_tasks_for-IsMadeFor build_task revision repository id artifacts t
                    (rw (found, skipped, test_tasks_for) at m)
              | inl made ↦ elim (mem_cons-cases (rw (found, made, test_tasks_for) at m)) [
                | inl e ↦
                    (ap (λ (b : TestTask). b.build_task_id) e, ap (λ (b : TestTask). b.revision) e)
                | inr r ↦
                    test_tasks_for-IsMadeFor build_task revision repository (suc id) artifacts t r
              ]
            ]
      ]

  -- If create_test_tasks adds tests, the latest tests of the build task are those that it has added.
  pub create_test_tasks-latest :
      (db : TestDb) (build_task_id : ℕ) (repository : String) {db' : TestDb} (revision : Option ℕ)
      → create_test_tasks pulp_package db build_task_id repository ≡ ok db'
      → length db.test_tasks < length db'.test_tasks
      → get_test_tasks_by_build_task db' build_task_id true revision
        ≡ drop (length db.test_tasks) db'.test_tasks
  unfolding create_test_tasks
  create_test_tasks-latest db build_task_id repository {db'} revision e more =
      elim (Option-cases (find_task build_task_id db.queue)) [
        | inl missing ↦ cc (rw (missing, create_test_tasks) at e)
        | inr (task, found) ↦
            let n = new_revision build_task_id db in
            let whole = ok-injective (rw (found, create_test_tasks) at e) in
            let rows = ap (λ (d : TestDb). d.test_tasks) whole in
            let id = found_id build_task_id db.queue found in
            go n task id (test_tasks_for pulp_package task n repository db.next_id _)
              (test_tasks_for-IsMadeFor task n repository db.next_id _) (sym rows)
              (new_revision-greater build_task_id db)
      ]
    where
      go :
          (n : ℕ) (task : BuildTask)
          → task.id ≡ build_task_id
          → (made : List TestTask) → ((t : TestTask) → Memᴰ t made → IsMadeFor task.id n t)
          → db'.test_tasks ≡ db.test_tasks ++ made
          → ((t : TestTask) → Memᴰ t (tests_of build_task_id db) → t.revision < n)
          → get_test_tasks_by_build_task db' build_task_id true revision
            ≡ drop (length db.test_tasks) db'.test_tasks
      go n task id [] made_for rows below =
          let same = length-append db.test_tasks [] in
          let longer : length db'.test_tasks ≡ length (db.test_tasks ++ []) = ap length rows in
          absurd (omega (arith, same, longer, more))
      go n task id (y ∷ ys) made_for rows below =
          newest-append n build_task_id db db' y ys revision rows below
            (λ t m. (((made_for t m).0 ∙ id), (made_for t m).1))
          ∙ sym (ap (drop (length db.test_tasks)) rows ∙ drop-append db.test_tasks (y ∷ ys))
