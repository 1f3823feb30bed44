-- ===== src/Multilib.antt =====
-- alws/utils/multilib.py: the packages for i686 that are put into the repositories for x86_64 as
-- well (MultilibProcessor). The module index is left out.
pub mod Chosen
pub mod Origin
mod Tests
use albs_web_server.Prelude.{
  ℕ, String, Bool, true, false, not, ◌&&◌, ◌||◌, List, [], ◌∷◌, ◌++◌, map, Option, none, some,
  is_empty, filter, any, head?, contains, insert, keys, if◌then◌else◌, ◌==◌, nat_eq, string_eq,
  Result, ok, err, Error, ◌>>=◌,
}
use albs_web_server.Constants.Statuses.{BuildTaskStatus, status_eq}
use albs_web_server.BuildNode.Db.{BuildTask, BuildTaskArtifact, BuildRepo, Db}

-- A package of Beholder's answer.
pub record MultilibPackage : Type 0 where
  pub name : String
  pub version : String
  pub is_multilib : Bool

-- The artifacts that are added, and the addresses for the two repositories.
pub record Added : Type 0 where
  pub artifacts : List BuildTaskArtifact
  pub pkg_hrefs : List String
  pub debug_pkg_hrefs : List String

unfoldable pub is_same_project : BuildTask → BuildTask → Bool
is_same_project build_task t = t.build_id == build_task.build_id && t.index == build_task.index

unfoldable pub is_multilib_needed : Db → BuildTask → Bool
is_multilib_needed db build_task =
    any
      (λ t.
        is_same_project build_task t && (t.status == BuildTaskStatus.completed && t.arch == "i686"))
      db.tasks

-- The first answer that is not empty, of the reference platforms and then the platform itself.
unfoldable pub first_answer : List (List MultilibPackage) → List MultilibPackage
first_answer [] = []
first_answer (answer ∷ answers) = if is_empty answer then first_answer answers else answer

unfoldable pub multilib_names :
    List (String × String) → List MultilibPackage → List (String × String)
multilib_names found [] = found
multilib_names found (pkg ∷ packages) =
    multilib_names (if pkg.is_multilib then insert pkg.name pkg.version found else found) packages

-- `get_packages`: versions by name. The answers are Beholder's, one for each platform.
unfoldable pub get_packages : List (List MultilibPackage) → List (String × String)
get_packages answers = multilib_names [] (first_answer answers)

unfoldable pub find_repo : List BuildRepo → Bool → Result BuildRepo
find_repo repos debug =
    elim (head? (
      filter
        (λ r. r.type == "rpm" && (r.arch == "x86_64" && (if debug then r.debug else not r.debug)))
        repos)) [ none ↦ err Error.stop_iteration | some repo ↦ ok repo ]

-- A task of the same build and index, on whatever platform.
unfoldable pub is_i686_task : BuildTask → BuildTask → Bool
is_i686_task build_task t = is_same_project build_task t && t.arch == "i686"

-- `scalar_subquery()` of the identifiers: NULL without rows, and an error of the database if there
-- are several.
unfoldable pub scalar_subquery : List BuildTask → Result (Option ℕ)
scalar_subquery [] = ok none
scalar_subquery (t ∷ []) = ok (some t.id)
scalar_subquery (t ∷ s ∷ ts) = err Error.database_error

-- `build_task_id == subquery`, which is not true of NULL.
unfoldable pub is_id_of : Option ℕ → ℕ → Bool
is_id_of none id = false
is_id_of (some task_id) id = id == task_id

-- `is_in` is Python's `in` between texts, `is_debuginfo_rpm` a regular expression, and `pulp_name`
-- the name of the package that Pulp has at an address.
module _ (is_in : String → String → Bool) (is_debuginfo_rpm : String → Bool)
    (pulp_name : String → Option String) where
  -- The artifacts of the task for i686.
  unfoldable pub get_build_task_artifacts : Db → BuildTask → Result (List BuildTaskArtifact)
  get_build_task_artifacts db build_task = do
    subquery ← scalar_subquery (filter (is_i686_task build_task) db.tasks)
    ok (
        filter
          (λ a.
            is_id_of subquery a.build_task_id && (a.type == "rpm" && not (is_in "src.rpm" a.name)))
          db.artifacts)

  -- One round of the inner loop, for an artifact with the given name in Pulp.
  unfoldable pub add_for_name : ℕ → BuildTaskArtifact → String → String → Added → Added
  add_for_name task_id artifact artifact_name pkg_name added =
      if artifact_name == pkg_name
        && (not (contains added.pkg_hrefs artifact.href)
            || not (contains added.debug_pkg_hrefs artifact.href))
      then record {
        artifacts = added.artifacts ++ (record artifact { build_task_id = task_id }) ∷ [];
        pkg_hrefs =
            if is_debuginfo_rpm artifact_name
            then added.pkg_hrefs
            else added.pkg_hrefs ++ artifact.href ∷ [];
        debug_pkg_hrefs =
            if is_debuginfo_rpm artifact_name
            then added.debug_pkg_hrefs ++ artifact.href ∷ []
            else added.debug_pkg_hrefs;
      }
      else added

  -- The inner loop, over the names that Beholder gave.
  unfoldable pub add_for_names : ℕ → BuildTaskArtifact → String → List String → Added → Added
  add_for_names task_id artifact artifact_name [] added = added
  add_for_names task_id artifact artifact_name (pkg_name ∷ names) added =
      add_for_names task_id artifact artifact_name names
        (add_for_name task_id artifact artifact_name pkg_name added)

  unfoldable pub choose_packages : ℕ → List String → List BuildTaskArtifact → Added → Result Added
  choose_packages task_id names [] added = ok added
  choose_packages task_id names (artifact ∷ artifacts) added = elim (pulp_name artifact.href) [
    | none ↦ err Error.key_error
    | some artifact_name ↦
        choose_packages task_id names artifacts
          (add_for_names task_id artifact artifact_name names added)
  ]

  unfoldable pub add_multilib_packages : Db → BuildTask → List (String × String) → Result Added
  add_multilib_packages db build_task multilib_packages =
      let nothing : Added = record { artifacts = []; pkg_hrefs = []; debug_pkg_hrefs = [] } in
      if is_multilib_needed db build_task
      then (get_build_task_artifacts db build_task >>= λ artifacts.
          choose_packages build_task.id (keys multilib_packages) artifacts nothing)
      else ok nothing
