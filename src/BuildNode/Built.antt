-- ===== src/BuildNode/Built.antt =====
-- build_done of alws/crud/build_node.py: the artifacts, the status, the noarch packages, and the
-- rows of source_rpms and binary_rpms.
use albs_web_server.Prelude.{
  ℕ, String, Bool, true, false, not, ◌&&◌, ◌||◌, List, [], ◌∷◌, ◌++◌, map, Option, none, some,
  is_empty, filter, all, if◌then◌else◌, ◌==◌, nat_eq, string_eq, Result,
}
use albs_web_server.Constants.Statuses.{BuildTaskStatus, status_eq, get_status_by_text}
use albs_web_server.BuildNode.Db.{
  BuildTask, BuildTaskArtifact, SourceRpm, BinaryRpm, Db, update_where, find_task,
}
use albs_web_server.BuildNode.Done.{BuildDone, Outcome, finished, raised}
use albs_web_server.BuildNode.Process.{Services, process_build_task_artifacts}
use albs_web_server.Noarch.{RepoUpdates, save_noarch_packages}

-- What the loop over the packages has come to: the source package, with whether it is a new row,
-- and the new rows of binary packages.
pub record Rows : Type 0 where
  pub srpm : Option (SourceRpm × Bool)
  pub binary_rpms : List BinaryRpm

abbrev is_unreleased : BuildTaskStatus → Bool
is_unreleased status = status == BuildTaskStatus.excluded || status == BuildTaskStatus.failed

-- `if name in url`, where there is a text.
unfoldable pub is_in_url : (String → String → Bool) → String → Option String → Bool
is_in_url is_in name none = false
is_in_url is_in name (some url) = not (url == "") && is_in name url

module _ (is_in : String → String → Bool) (is_src_rpm : String → Bool) where
  -- The first source package of the build that has the name, or whose name is in the address.
  unfoldable pub get_srpm_instance : List SourceRpm → BuildTask → String → Option (SourceRpm × Bool)
  get_srpm_instance [] build_task srpm_name = none
  get_srpm_instance (db_srpm ∷ db_srpms) build_task srpm_name =
      if db_srpm.name == srpm_name || is_in_url is_in db_srpm.name build_task.built_srpm_url
      then some (db_srpm, false)
      else get_srpm_instance db_srpms build_task srpm_name

  unfoldable pub add_source :
      BuildTask → BuildTaskArtifact → Option (SourceRpm × Bool) → Option (SourceRpm × Bool)
  add_source build_task rpm (some srpm) = some srpm
  add_source build_task rpm none = some (
    record { build_id = build_task.build_id; build_task_id = rpm.build_task_id; name = rpm.name },
    true,
  )

  abbrev is_some : {A : Type 0} → Option A → Bool
  is_some none = false
  is_some (some a) = true

  -- One round of the loop over the packages of the task.
  unfoldable pub add_row :
      BuildTaskStatus → List SourceRpm → BuildTask → BuildTaskArtifact → Rows → Rows
  add_row status db_srpms build_task rpm rows =
      let found = get_srpm_instance db_srpms build_task rpm.name in
      if is_src_rpm rpm.name
      then (if (is_some build_task.built_srpm_url && is_some found) || is_unreleased status
          then record rows { srpm = found }
          else record rows { srpm = add_source build_task rpm found })
      else if is_unreleased status
      then rows
      else record rows {
        binary_rpms =
            rows.binary_rpms
            ++ (record {
              build_id = build_task.build_id;
              build_task_id = rpm.build_task_id;
              name = rpm.name;
              source_rpm = none;
            })
              ∷ [];
      }

  unfoldable pub add_rows :
      BuildTaskStatus → List SourceRpm → BuildTask → List BuildTaskArtifact → Rows → Rows
  add_rows status db_srpms build_task [] rows = rows
  add_rows status db_srpms build_task (rpm ∷ rpms) rows =
      add_rows status db_srpms build_task rpms (add_row status db_srpms build_task rpm rows)

  -- The end of build_done. A new source package is written if the task has no address of one, and
  -- along with a binary package that refers to it. That the database refuses a binary package without
  -- a source package is left out.
  unfoldable pub write_rows : List SourceRpm → BuildTask → Rows → Db → Db
  write_rows db_srpms build_task rows db =
      let source : Option (SourceRpm × Bool) = elim rows.srpm [
        | some srpm ↦ some srpm
        | none ↦ get_srpm_instance db_srpms build_task ""
      ] in
      elim source [
        | none ↦ record db { binary_rpms = db.binary_rpms ++ rows.binary_rpms }
        | some (srpm, is_new) ↦ record db {
          source_rpms =
              if is_new
                && (not (is_some build_task.built_srpm_url) || not (is_empty rows.binary_rpms))
              then db.source_rpms ++ srpm ∷ []
              else db.source_rpms;
          binary_rpms =
              db.binary_rpms
              ++ map (λ (b : BinaryRpm). record b { source_rpm = some srpm }) rows.binary_rpms;
        }
      ]

unfoldable pub set_status : ℕ → BuildTaskStatus → Db → Db
set_status task_id status db =
    update_where (λ t. t.id == task_id) (λ t. record t { status = status }) db

-- Whether Pulp takes all the updates of its repositories.
unfoldable pub updates_pass : (String → List String → Bool) → RepoUpdates → Bool
updates_pass modify updates = all (λ u. modify u.0 u.1.0) updates

module _ (services : Services) (is_src_rpm : String → Bool)
    (load_modules update_modules : Db → BuildTask → Result (Unit {0})) where
  -- What follows the artifacts: the tables have the rows of the artifacts.
  unfoldable pub after_artifacts : BuildTaskStatus → BuildDone → Db → Outcome
  after_artifacts status request db =
      let done = set_status request.task_id status db in
      elim (find_task request.task_id done) [
        | none ↦ raised done
        | some build_task ↦
            let noarch = save_noarch_packages services.is_in done build_task in
            let rpms =
              filter (λ a. a.build_task_id == build_task.id && a.type == "rpm")
                noarch.0.artifacts in
            let db_srpms = filter (λ s. s.build_id == build_task.build_id) noarch.0.source_rpms in
            let rows =
              add_rows services.is_in is_src_rpm status db_srpms build_task rpms
                (record { srpm = none; binary_rpms = noarch.1.0 }) in
            if updates_pass services.modify_repository noarch.1.1
            then finished (write_rows services.is_in is_src_rpm db_srpms build_task rows noarch.0)
            else raised noarch.0
      ]

  unfoldable pub build_done : Db → BuildDone → Outcome
  build_done db request =
      let status = get_status_by_text request.status in
      elim (process_build_task_artifacts services load_modules update_modules db request status) [
        | raised left ↦ raised left
        | finished processed ↦ after_artifacts status request processed
      ]
