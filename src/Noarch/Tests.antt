-- ===== src/Noarch/Tests.antt =====
-- A project built for two architectures, with a package that depends on neither.
use albs_web_server.Prelude.{
  ℕ, ◌&&◌, String, Bool, false, [], ◌∷◌, none, lookup, insert, remove_key, nat_eq, string_eq, ◌==◌,
  ◌≡◌, refl, Memᴰ,
}
use albs_web_server.Constants.Statuses.{BuildTaskStatus, value, is_finished}
use albs_web_server.BuildNode.Db.{BuildTask, BuildTaskArtifact, BuildRepo, Db}
use albs_web_server.Noarch.{
  replace_from, deleted_from, replace_artifact, replace_artifacts, merge, created_artifact,
  created_rpm, is_repo_of, update_repos, is_skipped, save_for_task, save_for_tasks,
  tasks_of_project, is_debug, is_noarch, collect, get_noarch_packages, save_noarch_packages,
}
use albs_web_server.Noarch.Replaced.{HasPackage}
use albs_web_server.Noarch.Same.{save_noarch_packages-HasPackage}

abbrev task : ℕ → String → BuildTask
task id arch = record {
  id = id;
  ts = none;
  build_id = 1;
  platform_id = 5;
  platform_name = "AlmaLinux-9";
  ref_id = 1;
  ref_url = "https://git/rpms/bash";
  status = BuildTaskStatus.completed;
  index = 0;
  arch = arch;
  built_srpm_url = none;
  error = none;
  alma_commit_cas_hash = none;
  is_cas_authenticated = false;
  started_at = none;
  finished_at = none;
}

abbrev artifact : ℕ → String → String → BuildTaskArtifact
artifact task_id name href = record {
  build_task_id = task_id;
  name = name;
  type = "rpm";
  href = href;
  cas_hash = none;
}

abbrev repo : String → String → BuildRepo
repo arch href = record {
  build_id = 1;
  arch = arch;
  platform_id = 5;
  type = "rpm";
  debug = false;
  pulp_href = href;
}

abbrev db : Db
db = record {
  tasks = task 10 "x86_64" ∷ task 11 "i686" ∷ task 12 "aarch64" ∷ [];
  dependencies = [];
  artifacts =
      artifact 10 "doc" "doc_x86"
      ∷ artifact 10 "tool" "tool_x86"
      ∷ artifact 11 "doc" "doc_i686"
      ∷ [];
  repos = repo "x86_64" "repo_x86" ∷ repo "i686" "repo_i686" ∷ [];
  source_rpms = [];
  binary_rpms = [];
}

-- Of the names here `doc` alone is one of a noarch package.
abbrev is_in : String → String → Bool
is_in text name = (text == ".noarch.") && (name == "doc")

saving : Unit {0}
unfolding save_noarch_packages get_noarch_packages collect is_noarch is_debug tasks_of_project
    save_for_tasks save_for_task is_skipped update_repos is_repo_of created_rpm created_artifact
    merge replace_artifacts replace_artifact deleted_from replace_from is_finished value lookup
    insert remove_key
saving = tt

abbrev saved : Db
saved = (save_noarch_packages is_in db (task 11 "i686")).0

-- The other two tasks get the package of the task for i686; the one for aarch64 had none.
shared : save_noarch_packages is_in db (task 11 "i686") ≡ (
  record db {
    artifacts =
        artifact 10 "doc" "doc_i686"
        ∷ artifact 10 "tool" "tool_x86"
        ∷ artifact 11 "doc" "doc_i686"
        ∷ artifact 12 "doc" "doc_i686"
        ∷ [];
  },
  (
    (record { build_id = 1; build_task_id = 12; name = "doc"; source_rpm = none }) ∷ [],
    ("repo_x86", ("doc_i686" ∷ [], "doc_x86" ∷ []))
        ∷ ("repo_i686", ("doc_i686" ∷ [], "doc_i686" ∷ []))
        ∷ [],
  ),
)
unfolding saving
shared = refl

save_noarch_packages-HasPackage_example : HasPackage 12 "doc" "doc_i686" saved.artifacts
save_noarch_packages-HasPackage_example =
    save_noarch_packages-HasPackage is_in db (task 11 "i686") (task 12 "aarch64") "doc"
      ("doc_i686", none) refl (unfold saving in refl)
      (unfold saving in Memᴰ.tail (Memᴰ.tail (Memᴰ.head refl))) (unfold saving in refl)
      (unfold saving in refl) (unfold saving in refl)
