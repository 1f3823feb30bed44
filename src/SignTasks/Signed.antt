-- ===== src/SignTasks/Signed.antt =====
-- What the report of a sign node leaves behind (complete_sign_task of alws/crud/sign_task.py).
use albs_web_server.Prelude.{
  ℕ, String, true, false, not, List, [], ◌∷◌, Option, none, some, is_empty, ◌==◌, nat_eq, string_eq,
  ok, >>=-eq-ok, ok-injective, ◌≡◌, refl, sym, ap, ◌∙◌, ◌⊎◌, inl, inr, Memᴰ, mem_cons-cases,
  Bool-cases, Option-cases, any-of_mem, eq_of_==, mem_of_eq,
}
use albs_web_server.SignTasks.Db.{
  Db, Build, Artifact, SignKey, SignTask, find_build, find_sign_key, get_sign_task, find_artifact,
  update_sign_tasks, get_attr,
}
use albs_web_server.SignTasks.Packages.{
  SignedRpmInfo, Pulp, PackageInfo, sign_artifacts, sign_similar, is_rejected, converted_packages,
  packages_to_convert,
}
use albs_web_server.SignTasks.Complete.{
  complete_found, SignTaskComplete, Signing, rejected, signed, Context, has_wrong_fingerprint,
  fail_sign_task, failed_post_processing, sign_packages, complete_with_packages, build_context,
  add_named, sign_named, finish_signing, complete_sign_task,
}

sign_similar-builds :
    (srpms : List Artifact) (href : String) (key_id : ℕ) (hash : Option String)
    (rpms : List Artifact) (db : Db)
    → (sign_similar srpms href key_id hash rpms db).builds ≡ db.builds
unfolding sign_similar sign_artifacts
sign_similar-builds srpms href key_id hash [] db = refl
sign_similar-builds srpms href key_id hash (rpm ∷ rpms) db =
    elim (Option-cases (find_artifact db rpm.id)) [
      | inl gone ↦ rw (gone, sign_similar) (sign_similar-builds srpms href key_id hash rpms db)
      | inr (now, found) ↦
          rw (found, sign_similar) (sign_similar-builds srpms href key_id hash rpms _)
    ]

abbrev tables : Signing → Db
tables (rejected db) = db
tables (signed db packages_to_add) = db

sign_named-builds :
    (ctx : Context) (name : String) (info : PackageInfo) (db : Db)
    → (sign_named ctx name info db).builds ≡ db.builds
unfolding sign_named
sign_named-builds ctx name info db = sign_similar-builds ctx.source_rpms _ _ _ _ db

empty_list : {A : Type 0} (xs : List A) → is_empty xs ≡ true → xs ≡ []
empty_list [] h = refl
empty_list (x ∷ xs) h = cc

Signing-cases :
    (s : Signing)
    → ((db : Db) × (s ≡ rejected db))
      ⊎ ((db : Db) × (added : List (String × List String)) × (s ≡ signed db added))
Signing-cases (rejected db) = inl (db, refl)
Signing-cases (signed db added) = inr (db, added, refl)

pub get_attr-eq-ok : {A : Type 0} (o : Option A) {a : A} → get_attr o ≡ ok a → o ≡ some a
unfolding get_attr
get_attr-eq-ok none h = cc
get_attr-eq-ok (some a) h = cc

right_fingerprints :
    (key : SignKey) (packages : List SignedRpmInfo) {p : SignedRpmInfo}
    → has_wrong_fingerprint key packages ≡ false
    → Memᴰ p packages
    → p.fingerprint ≡ key.fingerprint
unfolding has_wrong_fingerprint
right_fingerprints key packages {p} right m = elim (Bool-cases (p.fingerprint == key.fingerprint)) [
  | inl same ↦ eq_of_== p.fingerprint key.fingerprint same
  | inr other ↦
      let wrong =
        any-of_mem (λ (q : SignedRpmInfo). not (q.fingerprint == key.fingerprint)) m (rw other) in
      cc (wrong, right)
]

module _ (pulp : Pulp) where
  sign_packages-builds :
      (ctx : Context) (infos : List (String × PackageInfo)) (db : Db)
      (packages_to_add : List (String × List String)) {signing : Signing}
      → sign_packages pulp ctx infos db packages_to_add ≡ ok signing
      → (tables signing).builds ≡ db.builds
  unfolding sign_packages
  sign_packages-builds ctx [] db packages_to_add h = rw (sym (ok-injective h))
  sign_packages-builds ctx ((name, info) ∷ infos) db packages_to_add h =
      elim (Bool-cases (is_rejected info)) [
        | inl bad ↦ rw (sym (ok-injective (rw (bad, sign_packages) at h)))
        | inr good ↦
            let (more, _, rest) =
              >>=-eq-ok (add_named pulp ctx name info packages_to_add) _
                (rw (good, sign_packages) at h) in
            sign_packages-builds ctx infos (sign_named ctx name info db) more rest
            ∙ sign_named-builds ctx name info db
      ]

  sign_packages-accepted :
      (ctx : Context) (infos : List (String × PackageInfo)) (db : Db)
      (packages_to_add : List (String × List String)) {db' : Db}
      {added : List (String × List String)}
      → sign_packages pulp ctx infos db packages_to_add ≡ ok (signed db' added)
      → (name : String) (info : PackageInfo) → Memᴰ (name, info) infos
      → is_rejected info ≡ false
  unfolding sign_packages
  sign_packages-accepted ctx [] db packages_to_add h name info m = elim m [ ]
  sign_packages-accepted ctx ((first, of_first) ∷ infos) db packages_to_add h name info m =
      elim (Bool-cases (is_rejected of_first)) [
        | inl bad ↦ cc (ok-injective (rw (bad, sign_packages) at h))
        | inr good ↦
            let (more, _, rest) =
              >>=-eq-ok (add_named pulp ctx first of_first packages_to_add) _
                (rw (good, sign_packages) at h) in
            elim (mem_cons-cases m) [
              | inl here ↦ rw (ap (λ (q : String × PackageInfo). q.1) here) good
              | inr there ↦
                  sign_packages-accepted ctx infos (sign_named ctx first of_first db) more rest name
                    info there
            ]
      ]

  -- A report with which a build may be signed: of a success, with the fingerprint of the task's key
  -- on every package, and none of them is rejected after it has been processed.
  pub record Approved (sign_task_id : ℕ) (payload : SignTaskComplete) (db : Db) : Type 0 where
    pub success : payload.success ≡ true
    pub fingerprints :
        (p : SignedRpmInfo)
        → Memᴰ p payload.packages
        → (task : SignTask) × (key : SignKey) × (get_sign_task db sign_task_id ≡ some task)
          × (find_sign_key db task.sign_key_id ≡ some key)
          × (p.fingerprint ≡ key.fingerprint)
    pub accepted :
        (name : String) (info : PackageInfo)
        → Memᴰ (name, info) (converted_packages pulp payload.packages)
        → is_rejected info ≡ false

  abbrev AllAccepted : List SignedRpmInfo → Type 0
  AllAccepted packages =
      (name : String) (info : PackageInfo)
      → Memᴰ (name, info) (converted_packages pulp packages)
      → is_rejected info ≡ false

  with_packages :
      (now sign_task_id : ℕ) (payload : SignTaskComplete) (key : SignKey) (build : Build) (db : Db)
      {db' : Db} {packages_to_add : List (String × List String)}
      → complete_with_packages pulp now sign_task_id payload key build db
        ≡ ok (db', packages_to_add)
      → (db'.builds ≡ db.builds)
        ⊎ (has_wrong_fingerprint key payload.packages ≡ false) × AllAccepted payload.packages
  unfolding complete_with_packages failed_post_processing update_sign_tasks finish_signing
  with_packages now sign_task_id payload key build db h =
      elim (Bool-cases (has_wrong_fingerprint key payload.packages)) [
        | inl wrong ↦ inl (sym (ap (λ p. p.0.builds) (ok-injective (rw wrong at h))))
        | inr right ↦
            let (signing, signs, h1) =
              >>=-eq-ok
                (sign_packages pulp (build_context payload key build db)
                  (converted_packages pulp payload.packages) db [])
                _ (rw right at h) in
            elim (Signing-cases signing) [
              | inl (left, e) ↦
                  let whole = rw (e, finish_signing) at h1 in
                  inl (
                    sym (ap (λ p. p.0.builds) (ok-injective whole))
                    ∙ sign_packages-builds _ _ db _ (signs ∙ ap ok e))
              | inr (left, added, e) ↦
                  inr (right, sign_packages-accepted _ _ db _ (signs ∙ ap ok e))
            ]
      ]

  Approved-empty :
      {sign_task_id : ℕ} {payload : SignTaskComplete} {db : Db}
      → payload.success ≡ true
      → is_empty payload.packages ≡ true
      → Approved sign_task_id payload db
  unfolding converted_packages packages_to_convert
  Approved-empty {payload} success empty =
      let nothing = empty_list payload.packages empty in
      record {
        success = success;
        fingerprints = λ p m. elim (mem_of_eq (sym nothing) m) [ ];
        accepted =
            λ name info m. elim (mem_of_eq (sym (ap (converted_packages pulp) nothing)) m) [ ];
      }

  found_task :
      (now sign_task_id : ℕ) (task : SignTask) (payload : SignTaskComplete) (build : Build)
      (db : Db) {db' : Db} {packages_to_add : List (String × List String)}
      → get_sign_task db sign_task_id ≡ some task
      → complete_found pulp now task payload build db ≡ ok (db', packages_to_add)
      → (db'.builds ≡ db.builds) ⊎ Approved sign_task_id payload db
  unfolding complete_found fail_sign_task update_sign_tasks
  found_task now sign_task_id task payload build db has_task h = elim (Bool-cases payload.success) [
    | inr failure ↦ inl (sym (ap (λ p. p.0.builds) (ok-injective (rw failure at h))))
    | inl success ↦ elim (Bool-cases (is_empty payload.packages)) [
      | inl empty ↦ inr (Approved-empty success empty)
      | inr some_packages ↦
          let (key, has_key, h3) =
            >>=-eq-ok (get_attr (find_sign_key db task.sign_key_id))
              (λ key. complete_with_packages pulp now task.id payload key build db)
              (simp (success, some_packages) at h) in
          elim (with_packages now task.id payload key build db h3) [
            | inl same ↦ inl same
            | inr (right, accepted) ↦ inr (record {
              success = success;
              fingerprints = λ p m. (
                task,
                key,
                has_task,
                get_attr-eq-ok _ has_key,
                right_fingerprints key payload.packages right m,
              );
              accepted = accepted;
            })
          ]
    ]
  ]

  -- If complete_sign_task returns, either no build has changed, or the report is approved: it is of
  -- a success, every reported package has the fingerprint of the key of the sign task, and none is
  -- rejected after it has been processed.
  pub complete_sign_task-Approved :
      (now sign_task_id : ℕ) (payload : SignTaskComplete) (db : Db) {db' : Db}
      {packages_to_add : List (String × List String)}
      → complete_sign_task pulp now sign_task_id payload db ≡ ok (db', packages_to_add)
      → (db'.builds ≡ db.builds) ⊎ Approved sign_task_id payload db
  unfolding complete_sign_task
  complete_sign_task-Approved now sign_task_id payload db h =
      let (build, _, h1) = >>=-eq-ok (get_attr (find_build db payload.build_id)) _ h in
      let (task, has_task, h2) = >>=-eq-ok (get_attr (get_sign_task db sign_task_id)) _ h1 in
      found_task now sign_task_id task payload build db (get_attr-eq-ok _ has_task) h2
