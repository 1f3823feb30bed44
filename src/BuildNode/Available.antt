-- ===== src/BuildNode/Available.antt =====
-- Handing out a task: get_available_build_task of alws/crud/build_node.py. `ILIKE` is the
-- database's, and a parameter here; `now` is `datetime.utcnow()`, in seconds.
use albs_web_server.Prelude.{
  ℕ, ◌+◌, ◌*◌, String, Bool, true, List, [], ◌∷◌, Option, none, some, filter, any, contains,
  if◌then◌else◌, ◌==◌, nat_eq, string_eq, not, ◌&&◌, ltb, leb,
}
use albs_web_server.Constants.Statuses.{BuildTaskStatus, value}
use albs_web_server.BuildNode.Db.{BuildTask, Db, update_where, has_dependencies}

pub record RequestTask : Type 0 where
  pub supported_arches : List String
  pub excluded_packages : List String

-- `models.BuildTask.ts < ts_expired`, twenty minutes ago, or no timestamp.
unfoldable pub is_expired : ℕ → Option ℕ → Bool
is_expired now none = true
is_expired now (some ts) = ltb (ts + 20 * 60) now

-- `order_by(models.BuildTask.id.asc())` and `first()`: the row with the least identifier.
unfoldable pub first_by_id : List BuildTask → Option BuildTask
first_by_id [] = none
first_by_id (t ∷ ts) = elim (first_by_id ts) [
  | none ↦ some t
  | some s ↦ if leb t.id s.id then some t else some s
]

module _ (ilike : String → String → Bool) where
  -- `or_(*[url.ilike(f"%{project}%") for project in excluded_packages])`, false of no packages.
  unfoldable pub is_excluded : List String → BuildTask → Bool
  is_excluded excluded_packages task = any (λ project. ilike task.ref_url project) excluded_packages

  unfoldable pub is_eligible : Db → RequestTask → ℕ → BuildTask → Bool
  unfolding is_excluded is_expired value has_dependencies
  is_eligible db request now task =
      not (has_dependencies db task)
      && (ltb (value task.status) (value BuildTaskStatus.completed)
          && (contains request.supported_arches task.arch
              && (is_expired now task.ts && not (is_excluded request.excluded_packages task))))

  unfoldable pub get_available_build_task : Db → RequestTask → ℕ → Option BuildTask × Db
  get_available_build_task db request now =
      elim (first_by_id (filter (is_eligible db request now) db.tasks)) [
        | none ↦ (none, db)
        | some task ↦
            let started =
              λ (t : BuildTask). record t { ts = some now; status = BuildTaskStatus.started } in
            (some (started task), update_where (λ t. t.id == task.id) started db)
      ]
