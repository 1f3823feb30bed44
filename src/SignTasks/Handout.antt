-- ===== src/SignTasks/Handout.antt =====
-- Handing out a sign task: get_available_sign_task of alws/crud/sign_task.py with its helpers.
-- `now` is `datetime.utcnow()`, in seconds.
use albs_web_server.Prelude.{
  ℕ, String, Bool, true, false, not, ◌&&◌, List, [], ◌∷◌, ◌++◌, Option, none, some, is_empty,
  filter, head?, contains, leb, concat, lookup, insert, if◌then◌else◌, ◌==◌, nat_eq, string_eq,
  bool_eq, pair_eq, Result, ok, err, Error, ◌>>=◌,
}
use albs_web_server.Constants.SignStatuses.{SignStatus, sign_status_eq}
use albs_web_server.SignTasks.Db.{
  Db, Build, Repository, Artifact, SignTask, find_build, find_sign_key, artifacts_of,
  update_sign_tasks, get_attr,
}

-- What the code takes from Python's texts and regular expressions: `name[0].lower()`,
-- `urllib.parse.urljoin`, and is_debuginfo_rpm of alws/utils/debuginfo.py.
pub record Host : Type 0 where
  pub first_lower : String → String
  pub urljoin : String → String → String
  pub is_debuginfo_rpm : String → Bool

-- RepoUniqueKey: the architecture, debug, and the platform.
abbrev pub RepoUniqueKey : Type 0
RepoUniqueKey = String × (Bool × ℕ)

unfoldable pub add_repos :
    List (RepoUniqueKey × Repository) → List Repository → List (RepoUniqueKey × Repository)
add_repos mapping [] = mapping
add_repos mapping (repo ∷ repos) =
    add_repos (insert (repo.arch, (repo.debug, repo.platform_id)) repo mapping) repos

-- `__get_build_repos`: a later repository takes the place of one with the same key.
unfoldable pub get_build_repos : Build → List (RepoUniqueKey × Repository)
get_build_repos build =
    add_repos [] (filter (λ repo. repo.type == "rpm" && not repo.production) build.repos)

unfoldable pub get_repo : List (RepoUniqueKey × Repository) → RepoUniqueKey → Result Repository
get_repo mapping key = elim (lookup key mapping) [
  | none ↦ err Error.key_error
  | some repo ↦ ok repo
]

unfoldable pub get_package_url : Host → String → String → String
get_package_url host base_url package_name =
    host.urljoin base_url
      (concat ("Packages/" ∷ host.first_lower package_name ∷ "/" ∷ package_name ∷ []))

pub record SignRpmInfo : Type 0 where
  pub id : ℕ
  pub name : String
  pub cas_hash : Option String
  pub arch : String
  pub type : String
  pub download_url : String

pub record AvailableSignTask : Type 0 where
  pub id : ℕ
  pub build_id : ℕ
  pub keyid : String
  pub sign_files : Bool
  pub packages : List SignRpmInfo

module _ (host : Host) where
  unfoldable pub package_info :
      List (RepoUniqueKey × Repository) → String → Bool → Artifact → Result SignRpmInfo
  package_info mapping arch debug artifact = do
    repo ← get_repo mapping (arch, (debug, artifact.platform_id))
    ok (record {
      id = artifact.id;
      name = artifact.name;
      cas_hash = artifact.cas_hash;
      arch = arch;
      type = "rpm";
      download_url = get_package_url host repo.url artifact.name;
    })

  unfoldable pub src_packages :
      List (RepoUniqueKey × Repository) → List Artifact → Result (List SignRpmInfo)
  src_packages mapping [] = ok []
  src_packages mapping (artifact ∷ artifacts) = do
    info ← package_info mapping "src" false artifact
    rest ← src_packages mapping artifacts
    ok (info ∷ rest)

  unfoldable pub binary_packages :
      List (RepoUniqueKey × Repository) → List Artifact → Result (List SignRpmInfo)
  binary_packages mapping [] = ok []
  binary_packages mapping (artifact ∷ artifacts) = do
    info ← package_info mapping artifact.arch (host.is_debuginfo_rpm artifact.name) artifact
    rest ← binary_packages mapping artifacts
    ok (info ∷ rest)

  -- What is sent to the sign node. Without packages of either kind it is empty.
  unfoldable pub sign_task_payload : Db → SignTask → Result (Option AvailableSignTask)
  sign_task_payload db sign_task =
      let build_src_rpms = artifacts_of db sign_task.build_id db.source_rpms in
      let build_binary_rpms = artifacts_of db sign_task.build_id db.binary_rpms in
      if is_empty build_src_rpms
      then ok none
      else if is_empty build_binary_rpms
      then ok none
      else do
        sign_key ← get_attr (find_sign_key db sign_task.sign_key_id)
        build ← get_attr (find_build db sign_task.build_id)
        src ← src_packages (get_build_repos build) build_src_rpms
        binary ← binary_packages (get_build_repos build) build_binary_rpms
        ok (
            some (record {
              id = sign_task.id;
              build_id = sign_task.build_id;
              keyid = sign_key.keyid;
              sign_files = sign_key.add_files_signature;
              packages = src ++ binary;
            }))

unfoldable pub is_due : ℕ → Option ℕ → Bool
is_due now none = true
is_due now (some ts) = leb ts now

-- The join with the key, and the conditions of the query.
unfoldable pub is_waiting : Db → List String → ℕ → SignTask → Bool
is_waiting db key_ids now task =
    task.status == SignStatus.idle
    && (elim (find_sign_key db task.sign_key_id) [
      | none ↦ false
      | some key ↦ contains key_ids key.keyid
    ]
        && is_due now task.ts)

unfoldable pub start_signing : ℕ → Db → Db
start_signing task_id db =
    update_sign_tasks (λ t. t.id == task_id) (λ t. record t { status = SignStatus.in_progress }) db

module _ (host : Host) where
  -- The query has no order: `first()` takes the first row of the table that fits.
  unfoldable pub get_available_sign_task :
      Db → List String → ℕ → Result (Option AvailableSignTask × Db)
  get_available_sign_task db key_ids now =
      elim (head? (filter (is_waiting db key_ids now) db.sign_tasks)) [
        | none ↦ ok (none, db)
        | some sign_task ↦ do
          payload ← sign_task_payload host db sign_task
          ok (payload, start_signing sign_task.id db)
      ]
