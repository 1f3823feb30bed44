-- ===== src/BuildNode/Db.antt =====
-- The tables that alws/crud/build_node.py works on, as lists of rows: `build_tasks` with what the
-- queue reads of it (models.BuildTask in alws/models.py), and `build_task_dependency`, whose rows
-- are (build_task_id, build_task_dependency).
use albs_web_server.Prelude.{
  ℕ, String, Bool, true, false, List, [], ◌∷◌, ◌++◌, map, Option, filter, any, contains,
  if◌then◌else◌, ◌==◌, nat_eq, not, ◌≡◌, Memᴰ, ◌⊎◌, inl, inr, Bool-cases, mem-of_mem_map,
  mem-map_of_mem, head?, not-true, mem-of_mem_filter,
}
use albs_web_server.Constants.Statuses.{BuildTaskStatus}

pub record BuildTask : Type 0 where
  pub id : ℕ
  pub ts : Option ℕ  -- in seconds
  pub build_id : ℕ
  pub platform_id : ℕ
  pub platform_name : String  -- of the row of `platforms`
  pub ref_id : ℕ
  pub ref_url : String  -- of the row of `build_task_refs`
  pub status : BuildTaskStatus
  pub index : ℕ
  pub arch : String
  pub built_srpm_url : Option String
  pub error : Option String
  pub alma_commit_cas_hash : Option String
  pub is_cas_authenticated : Bool
  pub started_at : Option ℕ
  pub finished_at : Option ℕ

-- A row of `build_artifacts` (models.BuildTaskArtifact).
pub record BuildTaskArtifact : Type 0 where
  pub build_task_id : ℕ
  pub name : String
  pub type : String
  pub href : String
  pub cas_hash : Option String

-- A repository of a build (models.Repository, by the association models.BuildRepo).
pub record BuildRepo : Type 0 where
  pub build_id : ℕ
  pub arch : String
  pub platform_id : ℕ
  pub type : String
  pub debug : Bool
  pub pulp_href : String

-- A row of `source_rpms`, and one of `binary_rpms`. A row refers to its artifact by the task and the
-- name of the file, which are unique in `build_artifacts`.
pub record SourceRpm : Type 0 where
  pub build_id : ℕ
  pub build_task_id : ℕ
  pub name : String

pub record BinaryRpm : Type 0 where
  pub build_id : ℕ
  pub build_task_id : ℕ
  pub name : String
  pub source_rpm : Option SourceRpm

pub record Db : Type 0 where
  pub tasks : List BuildTask
  pub dependencies : List (ℕ × ℕ)
  pub artifacts : List BuildTaskArtifact
  pub repos : List BuildRepo
  pub source_rpms : List SourceRpm
  pub binary_rpms : List BinaryRpm

-- `update(models.BuildTask).where(...).values(...)`.
unfoldable pub update_where : (BuildTask → Bool) → (BuildTask → BuildTask) → Db → Db
update_where test values db = record db {
  tasks = map (λ t. if test t then values t else t) db.tasks;
}

-- `delete(models.BuildTaskDependency).where(build_task_dependency.in_(ids))`.
unfoldable pub remove_dependencies_on : List ℕ → Db → Db
remove_dependencies_on ids db = record db {
  dependencies = filter (λ d. not (contains ids d.1)) db.dependencies;
}

-- `task.dependencies.append(last_task)`, of `add_build_task_dependencies`.
unfoldable pub add_build_task_dependencies : ℕ → ℕ → Db → Db
add_build_task_dependencies task last_task db = record db {
  dependencies = db.dependencies ++ (task, last_task) ∷ [];
}

-- `models.BuildTask.dependencies.any()`.
unfoldable pub has_dependencies : Db → BuildTask → Bool
has_dependencies db task = any (λ d. d.0 == task.id) db.dependencies

-- Where a row of an updated table comes from.
pub mem-update_where :
    (test : BuildTask → Bool) (values : BuildTask → BuildTask) (db : Db) {t : BuildTask}
    → Memᴰ t (update_where test values db).tasks
    → (s : BuildTask) × Memᴰ s db.tasks
      × ((test s ≡ true) × (t ≡ values s) ⊎ (test s ≡ false) × (t ≡ s))
unfolding update_where
mem-update_where test values db m =
    let (s, row, e) = mem-of_mem_map (λ s. if test s then values s else s) db.tasks m in
    (
      s,
      row,
      elim (Bool-cases (test s)) [
        | inl yes' ↦ inl (yes', rw yes' at e)
        | inr no' ↦ inr (no', rw no' at e)
      ],
    )

-- What becomes of a row.
pub update_where-mem :
    (test : BuildTask → Bool) (values : BuildTask → BuildTask) (db : Db) {s : BuildTask}
    → Memᴰ s db.tasks
    → Memᴰ (if test s then values s else s) (update_where test values db).tasks
unfolding update_where
update_where-mem test values db m = mem-map_of_mem (λ s. if test s then values s else s) m

-- `select(models.BuildTask).where(models.BuildTask.id == task_id)` and `first()`.
unfoldable pub find_task : ℕ → Db → Option BuildTask
find_task task_id db = head? (filter (λ t. t.id == task_id) db.tasks)

-- No row depends on the given tasks when the dependencies on them are removed.
pub remove_dependencies_on-none :
    (ids : List ℕ) (db : Db) (a d : ℕ)
    → Memᴰ (a, d) (remove_dependencies_on ids db).dependencies
    → contains ids d ≡ false
unfolding remove_dependencies_on
remove_dependencies_on-none ids db a d m =
    not-true _ (mem-of_mem_filter (λ x. not (contains ids x.1)) db.dependencies m).1
