-- ===== src/Multilib/Tests.antt =====
-- The artifacts of the task for i686, for the one for x86_64.
use albs_web_server.Prelude.{
  ℕ, String, Bool, true, false, [], ◌∷◌, none, some, Option, insert, nat_eq, string_eq, ok, err,
  Error, ◌≡◌, refl, Memᴰ,
}
use albs_web_server.Constants.Statuses.{BuildTaskStatus, value}
use albs_web_server.BuildNode.Db.{BuildTask, BuildTaskArtifact, Db}
use albs_web_server.Multilib.{
  Added, is_same_project, is_i686_task, scalar_subquery, is_id_of, is_multilib_needed, first_answer,
  multilib_names, get_packages, get_build_task_artifacts, add_for_name, add_for_names,
  choose_packages, add_multilib_packages,
}
use albs_web_server.Multilib.Origin.{FromI686, add_multilib_packages-FromI686}

abbrev task : ℕ → String → BuildTask
task id arch = record {
  id = id;
  ts = none;
  build_id = 1;
  platform_id = 5;
  platform_name = "AlmaLinux-9";
  ref_id = 1;
  ref_url = "https://git/rpms/bash";
  status = BuildTaskStatus.completed;
  index = 0;
  arch = arch;
  built_srpm_url = none;
  error = none;
  alma_commit_cas_hash = none;
  is_cas_authenticated = false;
  started_at = none;
  finished_at = none;
}

abbrev artifact : ℕ → String → BuildTaskArtifact
artifact task_id name = record {
  build_task_id = task_id;
  name = name;
  type = "rpm";
  href = name;
  cas_hash = none;
}

abbrev db : Db
db = record {
  tasks = task 10 "i686" ∷ task 11 "x86_64" ∷ [];
  dependencies = [];
  artifacts = artifact 10 "bash" ∷ artifact 10 "bash-doc" ∷ [];
  repos = [];
  source_rpms = [];
  binary_rpms = [];
}

abbrev never : String → Bool
never name = false

abbrev is_in : String → String → Bool
is_in text name = false

abbrev pulp_name : String → Option String
pulp_name href = some href

adding : Unit {0}
unfolding add_multilib_packages choose_packages add_for_names add_for_name get_build_task_artifacts
    is_multilib_needed is_i686_task scalar_subquery is_id_of is_same_project value get_packages
    multilib_names first_answer insert
adding = tt

-- The reference platform knows nothing of the project, and the platform two packages.
names_found :
    get_packages (
      []
      ∷ ((record { name = "bash"; version = "5"; is_multilib = true })
          ∷ (record { name = "bash-doc"; version = "5"; is_multilib = false })
          ∷ [])
      ∷ [])
    ≡ ("bash", "5") ∷ []
unfolding adding
names_found = refl

abbrev chosen : Added
chosen = record {
  artifacts = artifact 11 "bash" ∷ [];
  pkg_hrefs = "bash" ∷ [];
  debug_pkg_hrefs = [];
}

added :
    add_multilib_packages is_in never pulp_name db (task 11 "x86_64") (("bash", "5") ∷ [])
    ≡ ok chosen
unfolding adding
added = refl

-- With tasks for i686 on two platforms the query fails.
abbrev two_platforms : Db
two_platforms = record db {
  tasks = task 10 "i686" ∷ (record (task 12 "i686") { platform_id = 6 }) ∷ task 11 "x86_64" ∷ [];
}

two_tasks_refused :
    add_multilib_packages is_in never pulp_name two_platforms
      (task 11 "x86_64")
      (("bash", "5") ∷ [])
    ≡ err Error.database_error
unfolding adding
two_tasks_refused = refl

add_multilib_packages-FromI686_example :
    FromI686 is_in never pulp_name db (task 11 "x86_64") ("bash" ∷ []) (artifact 11 "bash")
add_multilib_packages-FromI686_example =
    add_multilib_packages-FromI686 is_in never pulp_name db (task 11 "x86_64") (("bash", "5") ∷ [])
      (artifact 11 "bash") added (Memᴰ.head refl)
