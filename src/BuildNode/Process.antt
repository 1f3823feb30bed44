-- ===== src/BuildNode/Process.antt =====
-- What build_done of alws/crud/build_node.py does with the reported files: __verify_checksums,
-- __process_rpms, __process_logs and __process_build_task_artifacts. The errata records, the
-- statistics, the metadata of the packages and the commit of the reference are left out.
use albs_web_server.Prelude.{
  ℕ, String, Bool, true, false, not, ◌&&◌, List, [], ◌∷◌, ◌++◌, map, Option, none, some, is_empty,
  is_set, filter, any, head?, if◌then◌else◌, ◌==◌, nat_eq, string_eq, Result, ok, err, Error, ◌>>=◌,
  ◌>>◌, raise_if,
}
use albs_web_server.Constants.Statuses.{BuildTaskStatus, status_eq}
use albs_web_server.BuildNode.Db.{BuildTask, BuildTaskArtifact, BuildRepo, Db, find_task}
use albs_web_server.BuildNode.Done.{
  BuildDone, BuildDoneArtifact, is_none, Outcome, finished, raised,
}
use albs_web_server.Multilib.{
  Added, MultilibPackage, get_packages, is_multilib_needed, add_multilib_packages, find_repo,
}

-- A file that Pulp has taken: its address there, the checksum that Pulp has, and the report of it.
abbrev pub Processed : Type 0
Processed = String × (String × BuildDoneArtifact)

-- Pulp, and what the code takes from Python and from other services. `create_entity` is `none` and
-- `modify_repository` is `false` where the call raises.
pub record Services : Type 0 where
  pub create_entity : BuildDoneArtifact → Option (String × String)
  pub modify_repository : String → List String → Bool
  pub last_component : String → String  -- of an address
  pub is_in : String → String → Bool
  pub is_debuginfo_rpm : String → Bool
  pub pulp_name : String → Option String
  pub use_beholder : Bool
  pub beholder : BuildTask → String → List (List MultilibPackage)

-- `__verify_checksums`.
unfoldable pub verify_checksums : List Processed → Result (Unit {0})
verify_checksums processed =
    raise_if (any (λ p. not (p.1.0 == p.1.1.sha256)) processed) Error.artifact_checksum_error

-- `get_repo`: the first repository for the architecture, or StopIteration.
unfoldable pub get_rpm_repo : List BuildRepo → String → Bool → Result BuildRepo
get_rpm_repo repositories arch is_debug =
    elim (head? (
      filter
        (λ r. r.arch == arch && (r.type == "rpm" && (if is_debug then r.debug else not r.debug)))
        repositories)) [ none ↦ err Error.stop_iteration | some repo ↦ ok repo ]

-- The packages by the repository that they go to.
pub record Routed : Type 0 where
  pub src : List BuildDoneArtifact
  pub arch : List BuildDoneArtifact
  pub debug : List BuildDoneArtifact

abbrev nothing_routed : Routed
nothing_routed = record { src = []; arch = []; debug = [] }

-- Of a source task, the first source package only.
unfoldable pub route_src : List BuildDoneArtifact → Routed
route_src [] = nothing_routed
route_src (artifact ∷ artifacts) =
    let rest = route_src artifacts in
    if artifact.arch == "src" then record nothing_routed { src = artifact ∷ [] } else rest

-- Of another task, the source packages if there is no address of a source package yet.
unfoldable pub route_binary : Option String → List BuildDoneArtifact → Routed
route_binary built_srpm_url [] = nothing_routed
route_binary built_srpm_url (artifact ∷ artifacts) =
    let rest = route_binary built_srpm_url artifacts in
    if artifact.arch == "src"
    then (if is_none built_srpm_url then record rest { src = artifact ∷ rest.src } else rest)
    else if artifact.is_debuginfo
    then record rest { debug = artifact ∷ rest.debug }
    else record rest { arch = artifact ∷ rest.arch }

unfoldable pub route : String → Option String → List BuildDoneArtifact → Routed
route task_arch built_srpm_url artifacts =
    if task_arch == "src" then route_src artifacts else route_binary built_srpm_url artifacts

unfoldable pub new_artifact : ℕ → Processed → BuildTaskArtifact
new_artifact task_id (href, (_, artifact)) = record {
  build_task_id = task_id;
  name = artifact.name;
  type = artifact.type;
  href = href;
  cas_hash = artifact.cas_hash;
}

-- A step that raises leaves the tables as they are by then.
unfoldable pub run_step : {A : Type 0} → Db → Result A → (A → Outcome) → Outcome
run_step db (err e) next = raised db
run_step db (ok a) next = next a

module _ (services : Services) where
  -- `asyncio.gather` over `create_entity`.
  unfoldable pub create_entities : List BuildDoneArtifact → Result (List Processed)
  create_entities [] = ok []
  create_entities (artifact ∷ artifacts) = elim (services.create_entity artifact) [
    | none ↦ err Error.artifact_conversion_error
    | some (href, sha256) ↦ do
      rest ← create_entities artifacts
      ok ((href, (sha256, artifact)) ∷ rest)
  ]

  -- One round of the loop over the three lists. The checksums of all packages so far are verified.
  unfoldable pub process_group :
      List Processed → List BuildDoneArtifact → Result BuildRepo → Result (List Processed)
  process_group processed tasks repo =
      if is_empty tasks
      then ok processed
      else create_entities tasks >>= λ results. do
        verify_checksums (processed ++ results)
        to ← repo
        raise_if (not (services.modify_repository to.pulp_href (map (λ p. p.0) results)))
            Error.repository_add_error
        ok (processed ++ results)

  unfoldable pub process_rpms :
      BuildTask → List BuildDoneArtifact → List BuildRepo → Result (List Processed)
  process_rpms build_task rpm_artifacts repositories =
      let is_src = build_task.arch == "src" in
      let arch_repo = get_rpm_repo repositories build_task.arch false in
      let debug_repo = get_rpm_repo repositories build_task.arch true in
      let routed = route build_task.arch build_task.built_srpm_url rpm_artifacts in
      let binary : Result (Unit {0}) =
        if is_src then ok tt else arch_repo >>= λ a. debug_repo >>= λ d. ok tt in
      binary >>= λ both. get_rpm_repo repositories "src" false >>= λ src_repo.
      process_group [] routed.src (ok src_repo) >>= λ src.
      process_group src routed.arch arch_repo >>= λ arch. process_group arch routed.debug debug_repo

  -- `__process_logs`. Without a repository for logs nothing is done.
  unfoldable pub process_logs : List BuildDoneArtifact → Option BuildRepo → Result (List Processed)
  process_logs log_artifacts none = ok []
  process_logs log_artifacts (some repository) = do
    results ← create_entities log_artifacts
    verify_checksums results
    raise_if (not (services.modify_repository repository.pulp_href (map (λ p. p.0) results)))
        Error.repository_add_error
    ok results

  -- `_get_srpm_name`.
  unfoldable pub get_srpm_name : List BuildDoneArtifact → BuildTask → Option String
  get_srpm_name artifacts task =
      elim (head? (filter (λ a. a.arch == "src" && a.type == "rpm") artifacts)) [
        | some artifact ↦ some artifact.name
        | none ↦ elim task.built_srpm_url [
          | none ↦ none
          | some url ↦ if url == "" then none else some (services.last_component url)
        ]
      ]

  unfoldable pub rpm_repositories : Db → BuildTask → List BuildRepo
  rpm_repositories db task =
      filter
        (λ r. r.build_id == task.build_id && (r.platform_id == task.platform_id && r.type == "rpm"))
        db.repos

  unfoldable pub log_repository : Db → BuildTask → Option BuildRepo
  log_repository db task =
      head? (filter (λ r. r.build_id == task.build_id && r.type == "build_log") db.repos)

  abbrev pub add_artifacts : List BuildTaskArtifact → Db → Db
  add_artifacts artifacts db = record db { artifacts = db.artifacts ++ artifacts }

  -- The artifacts for i686 that the task for x86_64 gets too, if that is asked for and needed.
  unfoldable pub multilib_step :
      Db → BuildTask → BuildTaskStatus → Option String → Result (Option Added)
  multilib_step db build_task status none = ok none
  multilib_step db build_task status (some src_rpm) =
      let packages = get_packages (services.beholder build_task src_rpm) in
      if (build_task.arch == "x86_64"
        && (status == BuildTaskStatus.completed
            && (services.use_beholder && is_multilib_needed db build_task)))
      then (add_multilib_packages services.is_in services.is_debuginfo_rpm services.pulp_name db
            build_task packages
          >>= λ added. ok (some added))
      else ok none

  -- What Pulp is told about them.
  unfoldable pub update_multilib_repos : Db → BuildTask → Option Added → Result (Unit {0})
  update_multilib_repos db build_task none = ok tt
  update_multilib_repos db build_task (some added) = do
    let repos = filter (λ r. r.build_id == build_task.build_id) db.repos
    debug_repo ← find_repo repos true
    arch_repo ← find_repo repos false
    raise_if
        (not (
          services.modify_repository debug_repo.pulp_href added.debug_pkg_hrefs
          && services.modify_repository arch_repo.pulp_href added.pkg_hrefs))
        Error.repository_add_error

  abbrev added_artifacts : Option Added → List BuildTaskArtifact
  added_artifacts none = []
  added_artifacts (some added) = added.artifacts

  -- Logs are written before the packages are looked at, and stay if these raise. `update_modules`
  -- says whether the update of the modules in Pulp goes through.
  unfoldable pub process_build_task_artifacts :
      (Db → BuildTask → Result (Unit {0}))
      → (Db → BuildTask → Result (Unit {0}))
      → Db
      → BuildDone
      → BuildTaskStatus
      → Outcome
  process_build_task_artifacts load_modules update_modules db request status =
      let rpm_artifacts = filter (λ a. a.type == "rpm") request.artifacts in
      let log_artifacts = filter (λ a. a.type == "build_log") request.artifacts in
      elim (find_task request.task_id db) [
        | none ↦ raised db
        | some task ↦
            let src_rpm = get_srpm_name request.artifacts task in
            let no_srpm =
              not (is_set src_rpm)
              && (not (is_set task.built_srpm_url) && not (is_empty rpm_artifacts)) in
            run_step db (load_modules db task) (λ _.
              run_step db (raise_if no_srpm Error.srpm_provision_error) (λ _.
                run_step db (process_logs log_artifacts (log_repository db task)) (λ logs.
                  let logged = add_artifacts (map (new_artifact task.id) logs) db in
                  run_step logged (process_rpms task rpm_artifacts (rpm_repositories db task))
                    (λ rpms. run_step logged (multilib_step logged task status src_rpm) (λ multilib.
                      let shared = add_artifacts (added_artifacts multilib) logged in
                      run_step shared (update_multilib_repos shared task multilib) (λ _.
                        run_step shared (update_modules shared task) (λ _.
                          finished (add_artifacts (map (new_artifact task.id) rpms) shared))))))))
      ]
