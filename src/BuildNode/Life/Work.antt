-- ===== src/BuildNode/Life/Work.antt =====
-- That the queue of alws/crud/build_node.py does not get stuck: there is work for a build node as
-- long as a task is not finished.
use mathlib.Core.Path.{subst}
use mathlib.Core.Bool.{false≢true}
use albs_web_server.Prelude.{
  ℕ, zero, suc, string_eq, ◌<◌, true, false, some, contains, ltb, ◌≡◌, sym, ◌∙◌, ◌==◌, nat_eq,
  eq_of_==, inl, inr, Memᴰ, Bool-cases, Option-cases, mem-of_any, and_true, not-false, arith,
}
use albs_web_server.Constants.Statuses.{status_eq, value, is_finished}
use albs_web_server.BuildNode.Db.{BuildTask, Db, has_dependencies}
use albs_web_server.BuildNode.Available.{
  RequestTask, is_expired, is_excluded, is_eligible, get_available_build_task,
}
use albs_web_server.BuildNode.Handout.{get_available_build_task-none}
use albs_web_server.BuildNode.Life.{World, Reach, IsOpen, IsSound}
use albs_web_server.BuildNode.Life.Sound.{Reach-IsSound}

awaited :
    (db : Db) (t : BuildTask)
    → has_dependencies db t ≡ true
    → (d : ℕ) × Memᴰ (t.id, d) db.dependencies
unfolding has_dependencies
awaited db t e =
    let (p, m, same) = mem-of_any (λ (e : ℕ × ℕ). e.0 == t.id) db.dependencies e in
    let edge : p ≡ (t.id, p.1) = λ i. (eq_of_== p.0 t.id same i, p.1) in
    (p.1, subst (λ e. Memᴰ e db.dependencies) edge m)

-- Follow what is waited for until a task waits for nothing.
ready_task :
    {rank : ℕ → ℕ} {db : Db} (n : ℕ) (t : BuildTask)
    → IsSound rank db
    → rank t.id < n
    → Memᴰ t db.tasks
    → IsOpen t
    → (s : BuildTask) × Memᴰ s db.tasks × IsOpen s × (has_dependencies db s ≡ false)
ready_task {rank} {db} zero t sound below m is_open = elim below [ ]
ready_task {rank} {db} (suc n) t sound below m is_open = elim (Bool-cases (has_dependencies db t)) [
  | inr free ↦ (t, m, is_open, free)
  | inl waits ↦
      let (d, dep) = awaited db t waits in
      let (s, sm, s_id, _, s_open) = sound.waits_for_open d t dep m is_open in
      let lower : rank s.id < rank t.id = rw s_id (sound.descends t.id d dep) in
      ready_task n s sound (omega arith) sm s_open
]

open_value : (t : BuildTask) → IsOpen t → ltb (value t.status) 2 ≡ true
unfolding is_finished value
open_value t is_open = ground arith

module _ (w : World) where
  -- The node of the request builds for the architectures of the open tasks, has excluded none of
  -- their packages, and the timestamps of these are more than twenty minutes old.
  pub record Serves (request : RequestTask) (now : ℕ) (db : Db) : Type 0 where
    pub supported :
        (t : BuildTask)
        → Memᴰ t db.tasks
        → IsOpen t
        → contains request.supported_arches t.arch ≡ true
    pub expired : (t : BuildTask) → Memᴰ t db.tasks → IsOpen t → is_expired now t.ts ≡ true
    pub included :
        (t : BuildTask)
        → Memᴰ t db.tasks
        → IsOpen t
        → is_excluded w.ilike request.excluded_packages t ≡ false

  ready-is_eligible :
      (request : RequestTask) (now : ℕ) (db : Db) (t : BuildTask)
      → Serves request now db
      → Memᴰ t db.tasks
      → IsOpen t
      → has_dependencies db t ≡ false
      → is_eligible w.ilike db request now t ≡ true
  unfolding is_eligible
  ready-is_eligible request now db t serves m is_open free = and_true (not-false free) (
      and_true (open_value t is_open) (
        and_true (serves.supported t m is_open)
          (and_true (serves.expired t m is_open) (not-false (serves.included t m is_open)))))

  -- Whatever has happened since a sound start, if a task is not finished then a build node that
  -- serves the tasks that are not finished gets one.
  pub get_available_build_task-progress :
      {rank : ℕ → ℕ} {start db : Db} (request : RequestTask) (now : ℕ) (t : BuildTask)
      → IsSound rank start
      → Reach w start db
      → Memᴰ t db.tasks
      → IsOpen t
      → Serves request now db
      → (task : BuildTask) × ((get_available_build_task w.ilike db request now).0 ≡ some task)
  get_available_build_task-progress {rank} {start} {db} request now t sound reach m is_open serves =
      elim (Option-cases (get_available_build_task w.ilike db request now).0) [
        | inr found ↦ found
        | inl nothing ↦
            let (s, sm, s_open, free) =
              ready_task (suc (rank t.id)) t (Reach-IsSound w sound reach) (omega arith) m
                is_open in
            absurd (
              false≢true (
                sym ((get_available_build_task-none w.ilike db request now).0 nothing s sm)
                ∙ ready-is_eligible request now db s serves sm s_open free))
      ]
