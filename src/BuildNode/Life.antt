-- ===== src/BuildNode/Life.antt =====
-- The life of the build queue (alws/crud/build_node.py) as a step relation: a task is handed out,
-- reported or cancelled, or its timestamp is refreshed, in any order. Restarts are left out.
pub mod Evolves
pub mod Kept
pub mod Reports
pub mod Sound
pub mod Closed
pub mod Recent
pub mod Work
pub mod Planned
mod Tests
use albs_web_server.Prelude.{
  ℕ, ◌<◌, String, Bool, true, false, List, Option, some, Result, ok, ◌≡◌, Memᴰ,
}
use albs_web_server.Constants.Statuses.{BuildTaskStatus, is_finished}
use albs_web_server.BuildNode.Db.{BuildTask, Db}
use albs_web_server.BuildNode.Available.{RequestTask, get_available_build_task}
use albs_web_server.BuildNode.Done.{Host, BuildDone, safe_build_done}
use albs_web_server.BuildNode.Process.{Services}
use albs_web_server.BuildNode.Built.{build_done}
use albs_web_server.BuildNode.Restart.{mark_build_tasks_as_cancelled, ping_tasks}

-- The services and the parts of Python that the queue uses.
pub record World : Type 0 where
  pub ilike : String → String → Bool
  pub host : Host
  pub services : Services
  pub is_src_rpm : String → Bool
  pub load_modules : Db → BuildTask → Result (Unit {0})
  pub update_modules : Db → BuildTask → Result (Unit {0})

module _ (w : World) where
  unfoldable pub report_done : ℕ → String → Db → BuildDone → Result (Bool × Db)
  report_done =
      safe_build_done w.host (build_done w.services w.is_src_rpm w.load_modules w.update_modules)

  pub data Step (db db' : Db) : Type 0 where
    hand_out :
        (request : RequestTask) (now : ℕ) (task : BuildTask)
        → get_available_build_task w.ilike db request now ≡ (some task, db')
        → Step db db'
    report :
        (now : ℕ) (traceback : String) (request : BuildDone) (success : Bool)
        → report_done now traceback db request ≡ ok (success, db')
        → Step db db'
    cancel : (build_id : ℕ) → db' ≡ mark_build_tasks_as_cancelled db build_id → Step db db'
    ping : (task_list : List ℕ) (now : ℕ) → db' ≡ ping_tasks db task_list now → Step db db'

  pub data Reach (start : Db) : Db → Type 0 where
    here : Reach start start
    next : {db db' : Db} → Reach start db → Step db db' → Reach start db'

-- A task that is idle or started.
abbrev pub IsOpen : BuildTask → Type 0
IsOpen t = is_finished t.status ≡ false

-- The dependencies go down in rank, and a task that is not finished waits only while it is idle,
-- and only for tasks of its build that are not finished either.
pub record IsSound (rank : ℕ → ℕ) (db : Db) : Type 0 where
  pub descends : (a d : ℕ) → Memᴰ (a, d) db.dependencies → rank d < rank a
  pub waits_idle :
      (d : ℕ) (t : BuildTask)
      → Memᴰ (t.id, d) db.dependencies
      → Memᴰ t db.tasks
      → IsOpen t
      → t.status ≡ BuildTaskStatus.idle
  pub waits_for_open :
      (d : ℕ) (t : BuildTask)
      → Memᴰ (t.id, d) db.dependencies
      → Memᴰ t db.tasks
      → IsOpen t
      → (s : BuildTask) × Memᴰ s db.tasks × (s.id ≡ d) × (s.build_id ≡ t.build_id) × IsOpen s
