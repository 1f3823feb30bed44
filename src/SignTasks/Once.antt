-- ===== src/SignTasks/Once.antt =====
-- Two requests for a sign task, one after the other (get_available_sign_task of
-- alws/crud/sign_task.py).
use albs_web_server.Prelude.{
  ℕ, String, true, List, [], ◌∷◌, some, is_empty, filter, head?, ◌==◌, nat_eq, ok, >>=-eq-ok,
  ok-injective, ◌≡◌, ◌≢◌, sym, ap, ◌∙◌, Memᴰ, Option-cases, Bool-cases, mem-of_mem_filter,
  mem-of_mem_map, and_parts, inl, inr, ==-refl, some_eq, mem_of_eq, if◌then◌else◌,
}
use albs_web_server.Constants.SignStatuses.{SignStatus, sign_status_eq}
use albs_web_server.SignTasks.Db.{
  Db, SignTask, find_build, find_sign_key, artifacts_of, update_sign_tasks, get_attr,
}
use albs_web_server.SignTasks.Handout.{
  Host, AvailableSignTask, src_packages, binary_packages, get_build_repos, sign_task_payload,
  is_waiting, start_signing, get_available_sign_task,
}

pub mem-head? : {A : Type 0} {a : A} (xs : List A) → head? xs ≡ some a → Memᴰ a xs
mem-head? [] h = cc
mem-head? (x ∷ xs) h = Memᴰ.head (sym (some_eq h))

started-status :
    (task_id : ℕ) (db : Db) {t : SignTask}
    → Memᴰ t (start_signing task_id db).sign_tasks
    → t.id ≡ task_id
    → t.status ≡ SignStatus.in_progress
unfolding start_signing update_sign_tasks
started-status task_id db {t} m same =
    let start = λ (s : SignTask). record s { status = SignStatus.in_progress } in
    let (s, _, e) =
      mem-of_mem_map (λ (s : SignTask). if s.id == task_id then start s else s) db.sign_tasks m in
    elim (Bool-cases (s.id == task_id)) [
      | inl yes' ↦ ap (λ (r : SignTask). r.status) (rw yes' at e)
      | inr no' ↦
          let t_is_s : t ≡ s = rw no' at e in
          let yes' : (s.id == task_id) ≡ true =
            rw (ap (λ (r : SignTask). r.id) (sym t_is_s) ∙ same) (==-refl task_id) in
          cc (yes', no')
    ]

module _ (host : Host) where
  payload-id :
      (db : Db) (task : SignTask) {p : AvailableSignTask}
      → sign_task_payload host db task ≡ ok (some p)
      → p.id ≡ task.id
  unfolding sign_task_payload
  payload-id db task h =
      elim (Bool-cases (is_empty (artifacts_of db task.build_id db.source_rpms))) [
        | inl no_source ↦ cc (ok-injective (rw no_source at h))
        | inr source ↦ elim (Bool-cases (is_empty (artifacts_of db task.build_id db.binary_rpms))) [
          | inl no_binary ↦ cc (ok-injective (simp (source, no_binary) at h))
          | inr binary ↦
              let (key, _, h1) =
                >>=-eq-ok (get_attr (find_sign_key db task.sign_key_id)) _
                  (simp (source, binary) at h) in
              let (build, _, h2) = >>=-eq-ok (get_attr (find_build db task.build_id)) _ h1 in
              let (src, _, h3) =
                >>=-eq-ok
                  (src_packages host (get_build_repos build)
                    (artifacts_of db task.build_id db.source_rpms))
                  _ h2 in
              let (bin, _, h4) =
                >>=-eq-ok
                  (binary_packages host (get_build_repos build)
                    (artifacts_of db task.build_id db.binary_rpms))
                  _ h3 in
              sym (ap (λ (q : AvailableSignTask). q.id) (some_eq (ok-injective h4)))
        ]
      ]

  handed_out :
      (db : Db) (key_ids : List String) (now : ℕ) {p : AvailableSignTask} {db' : Db}
      → get_available_sign_task host db key_ids now ≡ ok (some p, db')
      → (t : SignTask) × Memᴰ t db.sign_tasks
        × (t.status ≡ SignStatus.idle)
        × (p.id ≡ t.id)
        × (db' ≡ start_signing t.id db)
  unfolding get_available_sign_task is_waiting
  handed_out db key_ids now {p} {db'} h =
      let waiting = filter (is_waiting db key_ids now) db.sign_tasks in
      elim (Option-cases (head? waiting)) [
        | inl nothing ↦ cc (ok-injective (rw (nothing, get_available_sign_task) at h))
        | inr (t, found) ↦
            let (payload, made, h1) =
              >>=-eq-ok (sign_task_payload host db t) _
                (rw (found, get_available_sign_task) at h) in
            let whole = ok-injective h1 in
            let (row, fits) =
              mem-of_mem_filter (is_waiting db key_ids now) db.sign_tasks
                (mem-head? waiting found) in
            let idle = (and_parts (t.status == SignStatus.idle) _ fits).0 in
            (
              t,
              row,
              (sign_status_eq.beq_iff t.status SignStatus.idle).0 idle,
              payload-id db t (made ∙ ap ok (ap (λ q. q.0) whole)),
              sym (ap (λ q. q.1) whole),
            )
      ]

  -- A sign task that has been handed out is not handed out by the next request.
  pub get_available_sign_task-once :
      (db : Db) (key_ids next_key_ids : List String) (now next : ℕ) {p q : AvailableSignTask}
      {db' db'' : Db}
      → get_available_sign_task host db key_ids now ≡ ok (some p, db')
      → get_available_sign_task host db' next_key_ids next ≡ ok (some q, db'')
      → q.id ≢ p.id
  get_available_sign_task-once db key_ids next_key_ids now next {p} {q} {db'} first second same =
      let (t, _, _, t_id, after) = handed_out db key_ids now first in
      let (s, row, idle, s_id, _) = handed_out db' next_key_ids next second in
      let started =
        started-status t.id db (mem_of_eq (ap (λ (d : Db). d.sign_tasks) (sym after)) row)
          (sym s_id ∙ same ∙ t_id) in
      cc (sym idle ∙ started)
