-- ===== src/Noarch.antt =====
-- alws/utils/noarch.py: the packages that do not depend on the architecture are built for each
-- architecture, and those of one task are put in the place of the others'.
pub mod Replaced
pub mod Same
mod Tests
use albs_web_server.Prelude.{
  ℕ, String, Bool, true, false, not, ◌&&◌, ◌||◌, List, [], ◌∷◌, ◌++◌, map, Option, none, some,
  is_empty, filter, all, contains, lookup, insert, remove_key, values, if◌then◌else◌, ◌==◌, nat_eq,
  string_eq,
}
use albs_web_server.Constants.Statuses.{BuildTaskStatus, status_eq, is_finished}
use albs_web_server.BuildNode.Db.{BuildTask, BuildTaskArtifact, BuildRepo, BinaryRpm, Db}

-- Packages by name, with the address and the hash of each.
abbrev pub Packages : Type 0
Packages = List (String × (String × Option String))

-- What is changed for a task: the packages that have not been found among its artifacts yet, and
-- the addresses that have been replaced.
pub record Replacing : Type 0 where
  pub noarch : Packages
  pub debug : Packages
  pub deleted : List String
  pub debug_deleted : List String

-- The addresses to add and to remove, by repository.
abbrev pub RepoUpdates : Type 0
RepoUpdates = List (String × (List String × List String))

-- What the loop over the tasks has come to.
pub record Saving : Type 0 where
  pub artifacts : List BuildTaskArtifact
  pub created : List BuildTaskArtifact
  pub binary_rpms : List BinaryRpm
  pub repos_to_update : RepoUpdates

unfoldable pub replace_from : Packages → BuildTaskArtifact → BuildTaskArtifact
replace_from packages artifact = elim (lookup artifact.name packages) [
  | none ↦ artifact
  | some found ↦ record artifact { href = found.0; cas_hash = found.1 }
]

unfoldable pub deleted_from : Packages → BuildTaskArtifact → List String → List String
deleted_from packages artifact deleted = elim (lookup artifact.name packages) [
  | none ↦ deleted
  | some found ↦ deleted ++ artifact.href ∷ []
]

-- Both tests of the inner loop, one after the other.
unfoldable pub replace_artifact : Replacing → BuildTaskArtifact → BuildTaskArtifact × Replacing
replace_artifact r artifact =
    let replaced = replace_from r.noarch artifact in
    (
      replace_from r.debug replaced,
      record {
        noarch = remove_key artifact.name r.noarch;
        debug = remove_key artifact.name r.debug;
        deleted = deleted_from r.noarch artifact r.deleted;
        debug_deleted = deleted_from r.debug replaced r.debug_deleted;
      },
    )

-- The loop over `task.artifacts`, which are the rows with the task's identifier.
unfoldable pub replace_artifacts :
    ℕ → Replacing → List BuildTaskArtifact → List BuildTaskArtifact × Replacing
replace_artifacts task_id r [] = ([], r)
replace_artifacts task_id r (artifact ∷ artifacts) = elim (artifact.build_task_id == task_id) [
  | true ↦
      let one = replace_artifact r artifact in
      let rest = replace_artifacts task_id one.1 artifacts in (one.0 ∷ rest.0, rest.1)
  | false ↦ let rest = replace_artifacts task_id r artifacts in (artifact ∷ rest.0, rest.1)
]

-- `{**noarch, **debug_noarch}`.
unfoldable pub merge : Packages → Packages → Packages
merge packages [] = packages
merge packages ((name, found) ∷ more) = merge (insert name found packages) more

unfoldable pub created_artifact : ℕ → String × (String × Option String) → BuildTaskArtifact
created_artifact task_id (name, found) = record {
  build_task_id = task_id;
  name = name;
  type = "rpm";
  href = found.0;
  cas_hash = found.1;
}

unfoldable pub created_rpm : ℕ → ℕ → String × (String × Option String) → BinaryRpm
created_rpm build_id task_id (name, found) = record {
  build_id = build_id;
  build_task_id = task_id;
  name = name;
  source_rpm = none;
}

abbrev pub hrefs : Packages → List String
hrefs packages = map (λ (found : String × Option String). found.0) (values packages)

-- The repositories of the task, without those for sources.
unfoldable pub is_repo_of : BuildTask → BuildRepo → Bool
is_repo_of task repo =
    not (repo.arch == "src")
    && (repo.type == "rpm" && (repo.arch == task.arch && repo.platform_id == task.platform_id))

unfoldable pub update_repos :
    BuildTask → Packages → Packages → Replacing → List BuildRepo → RepoUpdates → RepoUpdates
update_repos task noarch debug r [] updates = updates
update_repos task noarch debug r (repo ∷ repos) updates = update_repos task noarch debug r repos (
    if is_repo_of task repo
    then insert repo.pulp_href
        (if repo.debug then (hrefs debug, r.debug_deleted) else (hrefs noarch, r.deleted)) updates
    else updates)

unfoldable pub is_skipped : BuildTask → Bool
is_skipped task =
    task.status == BuildTaskStatus.failed
    || (task.status == BuildTaskStatus.excluded || task.arch == "src")

-- One round of the loop over the tasks.
unfoldable pub save_for_task :
    BuildTask → Packages → Packages → List BuildRepo → BuildTask → Saving → Saving
save_for_task build_task noarch debug repos task saving =
    let start : Replacing = record {
      noarch = noarch;
      debug = debug;
      deleted = [];
      debug_deleted = [];
    } in
    let replaced = replace_artifacts task.id start saving.artifacts in
    let to_create = merge replaced.1.noarch replaced.1.debug in
    if is_skipped task then saving else record {
      artifacts = replaced.0;
      created = saving.created ++ map (created_artifact task.id) to_create;
      binary_rpms =
          saving.binary_rpms
          ++ (if task.id == build_task.id
              then []
              else map (created_rpm build_task.build_id task.id) to_create);
      repos_to_update = update_repos task noarch debug replaced.1 repos saving.repos_to_update;
    }

unfoldable pub save_for_tasks :
    BuildTask → Packages → Packages → List BuildRepo → List BuildTask → Saving → Saving
save_for_tasks build_task noarch debug repos [] saving = saving
save_for_tasks build_task noarch debug repos (task ∷ tasks) saving =
    save_for_tasks build_task noarch debug repos tasks
      (save_for_task build_task noarch debug repos task saving)

-- The tasks for the same project and platform in the build.
unfoldable pub tasks_of_project : Db → BuildTask → List BuildTask
tasks_of_project db build_task =
    filter
      (λ t.
        t.build_id == build_task.build_id
        && (t.index == build_task.index && t.platform_id == build_task.platform_id))
      db.tasks

-- `is_in` is Python's `in` between texts; `LIKE '%.noarch.%'` is such a test too.
module _ (is_in : String → String → Bool) where
  unfoldable pub is_debug : BuildTaskArtifact → Bool
  is_debug artifact = is_in "-debuginfo-" artifact.name || is_in "-debugsource-" artifact.name

  unfoldable pub is_noarch : List ℕ → BuildTaskArtifact → Bool
  is_noarch build_task_ids artifact =
      contains build_task_ids artifact.build_task_id
      && (artifact.type == "rpm" && is_in ".noarch." artifact.name)

  -- The dictionary of the artifacts that pass the test; the last one of a name counts.
  unfoldable pub collect : (BuildTaskArtifact → Bool) → Packages → List BuildTaskArtifact → Packages
  collect test packages [] = packages
  collect test packages (artifact ∷ artifacts) =
      collect test
        (if test artifact
          then insert artifact.name (artifact.href, artifact.cas_hash) packages
          else packages)
        artifacts

  unfoldable pub get_noarch_packages : Db → List ℕ → Packages × Packages
  get_noarch_packages db build_task_ids =
      let db_artifacts = filter (is_noarch build_task_ids) db.artifacts in
      (
        collect (λ artifact. not (is_debug artifact)) [] db_artifacts,
        collect is_debug [] db_artifacts,
      )

  -- The tables, the new rows of `binary_rpms`, which the caller adds, and what Pulp is told.
  unfoldable pub save_noarch_packages : Db → BuildTask → Db × (List BinaryRpm × RepoUpdates)
  save_noarch_packages db build_task =
      let build_tasks = tasks_of_project db build_task in
      let found = get_noarch_packages db (map (λ t. t.id) build_tasks) in
      let saved =
        save_for_tasks build_task found.0 found.1
          (filter (λ repo. repo.build_id == build_task.build_id) db.repos) build_tasks
          (record {
            artifacts = db.artifacts;
            created = [];
            binary_rpms = [];
            repos_to_update = [];
          }) in
      if build_task.arch == "src"
      then (db, ([], []))
      else if not (all (λ t. is_finished t.status) build_tasks)
      then (db, ([], []))
      else if is_empty found.0 && is_empty found.1
      then (db, ([], []))
      else (
        record db { artifacts = saved.artifacts ++ saved.created },
        (saved.binary_rpms, saved.repos_to_update),
      )
