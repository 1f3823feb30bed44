-- ===== src/BuildNode/Life/Planned.antt =====
-- The life of a build that BuildPlanner (alws/build_planner.py) has made, in the queue of
-- alws/crud/build_node.py.
use albs_web_server.Prelude.{
  ℕ, String, Bool, List, some, All, ok, ◌≡◌, sym, ap, ◌∙◌, Memᴰ, mem_of_eq,
}
use albs_web_server.Constants.Statuses.{BuildTaskStatus, is_finished}
use albs_web_server.Planner.Dependencies.{build_dependency_map}
use albs_web_server.Planner.Order.{IsRanked, build_dependency_map-rank}
use albs_web_server.BuildNode.Db.{BuildTask, Db}
use albs_web_server.BuildNode.Available.{RequestTask, get_available_build_task}
use albs_web_server.BuildNode.Life.{World, Reach, IsOpen, IsSound}
use albs_web_server.BuildNode.Life.Work.{Serves, get_available_build_task-progress}

-- The tables that hold a new build: its tasks, all idle, and its dependencies, which are of rows
-- that exist, as the foreign key has it.
pub record IsPlanned (build_id : ℕ) (edges : List (ℕ × ℕ)) (db : Db) : Type 0 where
  pub dependencies : db.dependencies ≡ edges
  pub fresh :
      (t : BuildTask)
      → Memᴰ t db.tasks
      → (t.status ≡ BuildTaskStatus.idle) × (t.build_id ≡ build_id)
  pub foreign_key :
      (a d : ℕ) → Memᴰ (a, d) db.dependencies → (s : BuildTask) × Memᴰ s db.tasks × (s.id ≡ d)

IsPlanned-IsSound :
    (rank : ℕ → ℕ) (independent_tasks : List (String × Bool))
    (caches : List (String × List (String × List ℕ))) {edges : List (ℕ × ℕ)} {db : Db}
    (build_id : ℕ)
    → All (λ entry. IsRanked rank entry.1) caches
    → build_dependency_map independent_tasks caches ≡ ok edges
    → IsPlanned build_id edges db
    → IsSound rank db
unfolding is_finished
IsPlanned-IsSound rank independent_tasks caches build_id ranked planned p = record {
  descends = λ a d m.
      build_dependency_map-rank rank independent_tasks caches a d ranked planned
        (mem_of_eq (sym p.dependencies) m);
  waits_idle = λ d t m tm is_open. (p.fresh t tm).0;
  waits_for_open = λ d t m tm is_open.
      let (s, sm, same) = p.foreign_key t.id d m in
      let (idle, own) = p.fresh s sm in
      (s, sm, same, own ∙ sym (p.fresh t tm).1, ap is_finished idle);
}

-- Of a new build with the dependencies of build_dependency_map, whatever has been handed out,
-- reported, cancelled and refreshed: if a task is not finished, a build node that serves the tasks
-- that are not finished gets one.
pub build_dependency_map-progress :
    (w : World) (rank : ℕ → ℕ) (independent_tasks : List (String × Bool))
    (caches : List (String × List (String × List ℕ))) {edges : List (ℕ × ℕ)} {start db : Db}
    (build_id : ℕ) (request : RequestTask) (now : ℕ) (t : BuildTask)
    → All (λ entry. IsRanked rank entry.1) caches
    → build_dependency_map independent_tasks caches ≡ ok edges
    → IsPlanned build_id edges start
    → Reach w start db
    → Memᴰ t db.tasks
    → IsOpen t
    → Serves w request now db
    → (task : BuildTask) × ((get_available_build_task w.ilike db request now).0 ≡ some task)
build_dependency_map-progress w rank independent_tasks caches build_id request now t ranked planned
      is_planned reach m is_open serves =
    get_available_build_task-progress w request now t
      (IsPlanned-IsSound rank independent_tasks caches build_id ranked planned is_planned) reach m
      is_open serves
