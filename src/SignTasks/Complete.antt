-- ===== src/SignTasks/Complete.antt =====
-- Taking the result of a sign task: complete_sign_task of alws/crud/sign_task.py. The statistics
-- are left out. The session is rolled back where an exception is raised, so that an error has no
-- tables.
use albs_web_server.Prelude.{
  ℕ, String, Bool, true, false, not, List, [], ◌∷◌, ◌++◌, map, Option, some, is_empty, filter, any,
  if◌then◌else◌, ◌==◌, nat_eq, string_eq, option_eq, bool_eq, pair_eq, Result, ok, ◌>>=◌,
}
use albs_web_server.Constants.SignStatuses.{SignStatus}
use albs_web_server.SignTasks.Db.{
  Db, Build, Repository, Artifact, SignKey, SignTask, find_build, find_sign_key, get_sign_task,
  artifacts_of, update_sign_tasks, get_attr,
}
use albs_web_server.SignTasks.Handout.{RepoUniqueKey, get_build_repos}
use albs_web_server.SignTasks.Packages.{
  SignedRpmInfo, Pulp, PackageInfo, package_arches, get_mapping_rpm_per_platform, sign_similar,
  is_rejected, href_of, converted_packages, add_to_repos,
}

-- `started_at` is the time that the statistics give for the start.
pub record SignTaskComplete : Type 0 where
  pub build_id : ℕ
  pub success : Bool
  pub error_message : Option String
  pub log_href : Option String
  pub packages : List SignedRpmInfo
  pub started_at : Option ℕ

unfoldable pub fail_sign_task : ℕ → Option String → Db → Db
fail_sign_task sign_task_id error_message db =
    update_sign_tasks (λ t. t.id == sign_task_id)
      (λ t. record t { status = SignStatus.failed; error_message = error_message }) db

-- `__failed_post_processing`, which keeps the task's message.
unfoldable pub failed_post_processing : ℕ → Db → Db
failed_post_processing sign_task_id db =
    update_sign_tasks (λ t. t.id == sign_task_id) (λ t. record t { status = SignStatus.failed }) db

unfoldable pub complete_task : ℕ → ℕ → SignTaskComplete → Db → Db
complete_task now sign_task_id payload db =
    let signed = record db {
      builds =
          map (λ b. if b.id == payload.build_id then record b { signed = true } else b) db.builds;
    } in
    update_sign_tasks (λ t. t.id == sign_task_id)
      (λ t. record t {
        status = SignStatus.completed;
        log_href = payload.log_href;
        error_message = payload.error_message;
        started_at = payload.started_at;
        finished_at = some now;
      })
      signed

-- A package has a key that is not the task's.
unfoldable pub has_wrong_fingerprint : SignKey → List SignedRpmInfo → Bool
has_wrong_fingerprint key packages = any (λ p. not (p.fingerprint == key.fingerprint)) packages

-- What the loop over the packages comes to: a package is rejected, with the tables as they are by
-- then, or all are signed, with the packages to add to each repository.
pub data Signing : Type 0 where
  rejected : Db → Signing
  signed : Db → List (String × List String) → Signing

-- What the loop over the packages reads: the task's key, the packages of the report, the source
-- packages and all packages of the build, and its repositories.
pub record Context : Type 0 where
  pub key : SignKey
  pub packages : List SignedRpmInfo
  pub source_rpms : List Artifact
  pub all_rpms : List Artifact
  pub repos : List (RepoUniqueKey × Repository)

unfoldable pub build_context : SignTaskComplete → SignKey → Build → Db → Context
build_context payload key build db =
    let source_rpms = artifacts_of db payload.build_id db.source_rpms in
    record {
      key = key;
      packages = payload.packages;
      source_rpms = source_rpms;
      all_rpms = source_rpms ++ artifacts_of db payload.build_id db.binary_rpms;
      repos = get_build_repos build;
    }

unfoldable pub finish_signing :
    ℕ → ℕ → SignTaskComplete → Signing → Db × List (String × List String)
finish_signing now sign_task_id payload (rejected db) = (failed_post_processing sign_task_id db, [])
finish_signing now sign_task_id payload (signed db packages_to_add) =
    (complete_task now sign_task_id payload db, packages_to_add)

-- The packages of the build with the given name are signed.
unfoldable pub sign_named : Context → String → PackageInfo → Db → Db
sign_named ctx name info db =
    sign_similar ctx.source_rpms (href_of info) ctx.key.id info.cas_hash
      (filter (λ rpm. rpm.name == name) ctx.all_rpms) db

module _ (pulp : Pulp) where
  -- The repositories of the architectures of a package get it.
  unfoldable pub add_named :
      Context
      → String
      → PackageInfo
      → List (String × List String)
      → Result (List (String × List String))
  add_named ctx name info packages_to_add =
      add_to_repos pulp ctx.repos (get_mapping_rpm_per_platform [] ctx.all_rpms) name (href_of info)
        (package_arches name [] ctx.packages) packages_to_add

  unfoldable pub sign_packages :
      Context → List (String × PackageInfo) → Db → List (String × List String) → Result Signing
  sign_packages ctx [] db packages_to_add = ok (signed db packages_to_add)
  sign_packages ctx ((name, info) ∷ infos) db packages_to_add = elim (is_rejected info) [
    | true ↦ ok (rejected db)
    | false ↦ do
      more ← add_named ctx name info packages_to_add
      sign_packages ctx infos (sign_named ctx name info db) more
  ]

  -- The report of a success with packages, for a task with the given key.
  unfoldable pub complete_with_packages :
      ℕ → ℕ → SignTaskComplete → SignKey → Build → Db → Result (Db × List (String × List String))
  complete_with_packages now sign_task_id payload key build db =
      if has_wrong_fingerprint key payload.packages
      then ok (failed_post_processing sign_task_id db, [])
      else sign_packages (build_context payload key build db)
          (converted_packages pulp payload.packages) db []
        >>= λ signing. ok (finish_signing now sign_task_id payload signing)

  -- The report for a build and a task that exist. The `else` at the end of the code, which fails
  -- the task, cannot be reached: it is only run where nothing has failed.
  unfoldable pub complete_found :
      ℕ → SignTask → SignTaskComplete → Build → Db → Result (Db × List (String × List String))
  complete_found now sign_task payload build db =
      if not payload.success
      then ok (fail_sign_task sign_task.id payload.error_message db, [])
      else if is_empty payload.packages
      then ok (complete_task now sign_task.id payload db, [])
      else get_attr (find_sign_key db sign_task.sign_key_id) >>= λ key.
          complete_with_packages now sign_task.id payload key build db

  -- The tables and what is added to the repositories in Pulp.
  unfoldable pub complete_sign_task :
      ℕ → ℕ → SignTaskComplete → Db → Result (Db × List (String × List String))
  complete_sign_task now sign_task_id payload db = do
    build ← get_attr (find_build db payload.build_id)
    sign_task ← get_attr (get_sign_task db sign_task_id)
    complete_found now sign_task payload build db
