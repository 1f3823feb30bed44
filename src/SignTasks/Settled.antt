-- ===== src/SignTasks/Settled.antt =====
-- The status of a sign task after a report (complete_sign_task of alws/crud/sign_task.py).
use mathlib.Core.Path.{subst}
use albs_web_server.Prelude.{
  ℕ, String, true, List, [], ◌==◌, nat_eq, Option, some, Result, ok, >>=-eq-ok, ok-injective, ◌≡◌,
  refl, sym, ap, ◌∙◌, ◌⊎◌, inl, inr, Memᴰ, Bool-cases, mem-of_mem_map, ==-refl, is_empty,
  if◌then◌else◌, mem-of_mem_filter, eq_of_==,
}
use albs_web_server.Constants.SignStatuses.{SignStatus}
use albs_web_server.SignTasks.Db.{
  Db, Build, SignKey, SignTask, find_build, find_sign_key, get_sign_task, update_sign_tasks,
  get_attr,
}
use albs_web_server.SignTasks.Packages.{Pulp, converted_packages}
use albs_web_server.SignTasks.Complete.{
  SignTaskComplete, Signing, rejected, signed, has_wrong_fingerprint, fail_sign_task,
  failed_post_processing, complete_task, sign_packages, build_context, finish_signing,
  complete_with_packages, complete_found, complete_sign_task,
}
use albs_web_server.SignTasks.Signed.{get_attr-eq-ok}
use albs_web_server.SignTasks.Once.{mem-head?}

abbrev pub IsSettled : SignTask → Type 0
IsSettled t = (t.status ≡ SignStatus.completed) ⊎ (t.status ≡ SignStatus.failed)

-- The rows of a task are settled.
pub AreSettled : ℕ → Db → Type 0
AreSettled task_id db = (t : SignTask) → Memᴰ t db.sign_tasks → t.id ≡ task_id → IsSettled t

updated-AreSettled :
    (task_id : ℕ) (values : SignTask → SignTask) (db : Db)
    → ((s : SignTask) → IsSettled (values s))
    → AreSettled task_id (update_sign_tasks (λ t. t.id == task_id) values db)
unfolding update_sign_tasks AreSettled
updated-AreSettled task_id values db settles t m same =
    let (s, _, e) =
      mem-of_mem_map (λ (s : SignTask). if s.id == task_id then values s else s) db.sign_tasks m in
    elim (Bool-cases (s.id == task_id)) [
      | inl yes' ↦ let changed : t ≡ values s = rw yes' at e in rw changed (settles s)
      | inr no' ↦
          let t_is_s : t ≡ s = rw no' at e in
          let yes' : (s.id == task_id) ≡ true =
            rw (ap (λ (r : SignTask). r.id) (sym t_is_s) ∙ same) (==-refl task_id) in
          cc (yes', no')
    ]

fail_sign_task-AreSettled :
    (task_id : ℕ) (message : Option String) (db : Db)
    → AreSettled task_id (fail_sign_task task_id message db)
unfolding fail_sign_task
fail_sign_task-AreSettled task_id message db = updated-AreSettled task_id _ db (λ s. inr refl)

failed_post_processing-AreSettled :
    (task_id : ℕ) (db : Db) → AreSettled task_id (failed_post_processing task_id db)
unfolding failed_post_processing
failed_post_processing-AreSettled task_id db = updated-AreSettled task_id _ db (λ s. inr refl)

complete_task-AreSettled :
    (now task_id : ℕ) (payload : SignTaskComplete) (db : Db)
    → AreSettled task_id (complete_task now task_id payload db)
unfolding complete_task
complete_task-AreSettled now task_id payload db = updated-AreSettled task_id _ _ (λ s. inl refl)

finish_signing-AreSettled :
    (now task_id : ℕ) (payload : SignTaskComplete) (signing : Signing)
    → AreSettled task_id (finish_signing now task_id payload signing).0
unfolding finish_signing
finish_signing-AreSettled now task_id payload (rejected db) =
    failed_post_processing-AreSettled task_id db
finish_signing-AreSettled now task_id payload (signed db added) =
    complete_task-AreSettled now task_id payload db

settled_by :
    (task_id : ℕ) {out : Db × List (String × List String)} {db' : Db}
    {added : List (String × List String)}
    → AreSettled task_id out.0
    → ◌≡◌ {A = Result (Db × List (String × List String))} (ok out) (ok (db', added))
    → AreSettled task_id db'
settled_by task_id settled e =
    subst (λ (p : Db × List (String × List String)). AreSettled task_id p.0) (ok-injective e)
      settled

get_sign_task-id :
    (db : Db) (task_id : ℕ) {t : SignTask} → get_sign_task db task_id ≡ some t → t.id ≡ task_id
unfolding get_sign_task
get_sign_task-id db task_id h =
    eq_of_== _ task_id
      (mem-of_mem_filter (λ (t : SignTask). t.id == task_id) db.sign_tasks (mem-head? _ h)).1

module _ (pulp : Pulp) where
  with_packages-AreSettled :
      (now task_id : ℕ) (payload : SignTaskComplete) (key : SignKey) (build : Build) (db : Db)
      {db' : Db} {added : List (String × List String)}
      → complete_with_packages pulp now task_id payload key build db ≡ ok (db', added)
      → AreSettled task_id db'
  unfolding complete_with_packages
  with_packages-AreSettled now task_id payload key build db h =
      elim (Bool-cases (has_wrong_fingerprint key payload.packages)) [
        | inl wrong ↦
            settled_by task_id (failed_post_processing-AreSettled task_id db) (rw wrong at h)
        | inr right ↦
            let (signing, _, h1) =
              >>=-eq-ok
                (sign_packages pulp (build_context payload key build db)
                  (converted_packages pulp payload.packages) db [])
                _ (rw right at h) in
            settled_by task_id (finish_signing-AreSettled now task_id payload signing) h1
      ]

  found-AreSettled :
      (now : ℕ) (task : SignTask) (payload : SignTaskComplete) (build : Build) (db : Db) {db' : Db}
      {added : List (String × List String)}
      → complete_found pulp now task payload build db ≡ ok (db', added)
      → AreSettled task.id db'
  unfolding complete_found
  found-AreSettled now task payload build db h = elim (Bool-cases payload.success) [
    | inr failure ↦ settled_by task.id (fail_sign_task-AreSettled task.id _ db) (rw failure at h)
    | inl success ↦ elim (Bool-cases (is_empty payload.packages)) [
      | inl empty ↦
          settled_by task.id (complete_task-AreSettled now task.id payload db)
            (simp (success, empty) at h)
      | inr some_packages ↦
          let (key, _, h1) =
            >>=-eq-ok (get_attr (find_sign_key db task.sign_key_id))
              (λ key. complete_with_packages pulp now task.id payload key build db)
              (simp (success, some_packages) at h) in
          with_packages-AreSettled now task.id payload key build db h1
    ]
  ]

  -- If complete_sign_task returns, every row of the sign task is completed or failed.
  pub complete_sign_task-AreSettled :
      (now sign_task_id : ℕ) (payload : SignTaskComplete) (db : Db) {db' : Db}
      {packages_to_add : List (String × List String)}
      → complete_sign_task pulp now sign_task_id payload db ≡ ok (db', packages_to_add)
      → AreSettled sign_task_id db'
  unfolding complete_sign_task
  complete_sign_task-AreSettled now sign_task_id payload db {db'} h =
      let (build, _, h1) = >>=-eq-ok (get_attr (find_build db payload.build_id)) _ h in
      let (task, has_task, h2) = >>=-eq-ok (get_attr (get_sign_task db sign_task_id)) _ h1 in
      subst (λ n. AreSettled n db') (get_sign_task-id db sign_task_id (get_attr-eq-ok _ has_task))
        (found-AreSettled now task payload build db h2)
