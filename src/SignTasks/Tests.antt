-- ===== src/SignTasks/Tests.antt =====
-- A build with a source and a binary package, which is signed with the key of the platform.
use albs_web_server.Prelude.{
  is_empty, some_eq, ap, sym, ◌∙◌, ℕ, String, true, false, [], ◌∷◌, ◌++◌, none, some, lookup,
  insert, concat, is_set, nat_eq, ok, err, Error, ◌≡◌, ◌↔◌, ◌≢◌, refl, ◌⊎◌,
}
use albs_web_server.Constants.SignStatuses.{SignStatus, sign_value}
use albs_web_server.Perms.Triad.{ℤ, permissions_triad}
use albs_web_server.Perms.Roles.{signer}
use albs_web_server.Perms.Authorization.{
  UserRole, Attr, Entity, object_roles, has_role, groups_intersection, is_allowed, is_performable,
  owner_id_of, can_perform_checked, can_perform,
}
use albs_web_server.SignTasks.Db.{
  Platform, SignKey, SignTask, Repository, Artifact, Db, get_user, find_build, find_sign_key,
  get_sign_task, find_artifact, artifacts_of, update_sign_tasks, get_attr, can_user_perform,
}
use albs_web_server.SignTasks.Create.{
  SignTaskCreate, found_or, has_no_packages, new_sign_task, create_sign_task, Signable,
  create_sign_task_iff,
}
use albs_web_server.SignTasks.Handout.{
  Host, AvailableSignTask, SignRpmInfo, add_repos, get_build_repos, get_repo, get_package_url,
  package_info, src_packages, binary_packages, sign_task_payload, is_due, is_waiting, start_signing,
  get_available_sign_task,
}
use albs_web_server.SignTasks.Once.{get_available_sign_task-once}
use albs_web_server.SignTasks.Packages.{
  SignedRpmInfo, Pulp, packages_to_convert, package_arches, get_mapping_rpm_per_platform,
  get_platform, add_package, sign_artifacts, sign_similar, is_rejected, process_single_package,
  converted_packages, add_to_repos,
}
use albs_web_server.SignTasks.Complete.{
  SignTaskComplete, has_wrong_fingerprint, fail_sign_task, failed_post_processing, complete_task,
  build_context, finish_signing, sign_named, add_named, sign_packages, complete_with_packages,
  complete_found, complete_sign_task,
}
use albs_web_server.SignTasks.Signed.{Approved, complete_sign_task-Approved}
use albs_web_server.SignTasks.Settled.{AreSettled, complete_sign_task-AreSettled}
use albs_web_server.SignTasks.Released.{Verified-verify_signed_build}
use albs_web_server.SignTasks.Verify.{
  find_platform, get_compatible_release_platforms, all_sign_keys, is_key_of, check_sign_keys,
  all_rpms, verify_signed_build, Verified, verify_signed_build-Verified,
}

abbrev signers : UserRole
signers = record { id = 3; name = "team_signer"; actions = signer.actions }

abbrev entity : Entity
entity = record {
  roles = Attr.present (signers ∷ []);
  team_roles = Attr.missing;
  permissions = ℤ.pos 764;
  owner_id = some 7;
}

abbrev key : SignKey
key = record {
  id = 1;
  keyid = "488FCF7C3ABB34F8";
  fingerprint = "BC5E";
  active = true;
  add_files_signature = false;
  entity = entity;
}

abbrev repo : String → String → Repository
repo arch href = record {
  arch = arch;
  debug = false;
  platform_id = 5;
  type = "rpm";
  production = false;
  url = "https://repo/";
  pulp_href = href;
}

abbrev artifact : ℕ → String → String → Artifact
artifact id name arch = record {
  id = id;
  name = name;
  href = name;
  cas_hash = none;
  sign_key_id = none;
  platform_id = 5;
  arch = arch;
}

abbrev waiting_task : ℕ → SignTask
waiting_task id = new_sign_task id (record { build_id = 4; sign_key_id = 1 })

abbrev db : Db
db = record {
  users = (record { id = 7; is_superuser = false; roles = signers ∷ [] }) ∷ [];
  builds =
      (record {
        id = 4;
        signed = false;
        repos = repo "src" "src_repo" ∷ repo "x86_64" "x86_repo" ∷ [];
        entity = entity;
      })
      ∷ [];
  sign_keys = key ∷ [];
  sign_tasks = waiting_task 20 ∷ waiting_task 21 ∷ [];
  gen_key_tasks = [];
  artifacts = artifact 30 "bash.src.rpm" "x86_64" ∷ artifact 31 "bash.rpm" "x86_64" ∷ [];
  source_rpms = (4, 30) ∷ [];
  binary_rpms = (4, 31) ∷ [];
  platforms =
      (record {
        id = 5;
        name = "AlmaLinux-9";
        sign_keys = 1 ∷ [];
        compatible_release_platforms = [];
      })
      ∷ [];
}

abbrev host : Host
host = record { first_lower = λ s. "b"; urljoin = λ base path. path; is_debuginfo_rpm = λ s. false }

abbrev pulp : Pulp
pulp = record {
  rpm_package_by_checksum = λ sha256. none;
  create_rpm_package = λ name href. some href;
  sha256_of = λ href. "f00d";
  is_debuginfo_rpm = λ s. false;
}

abbrev signed_rpm : ℕ → String → String → SignedRpmInfo
signed_rpm id name arch = record {
  id = id;
  name = name;
  arch = some arch;
  href = "signed";
  fingerprint = "BC5E";
  sha256 = "f00d";
  cas_hash = none;
}

abbrev report : SignTaskComplete
report = record {
  build_id = 4;
  success = true;
  error_message = none;
  log_href = none;
  packages = signed_rpm 30 "bash.src.rpm" "src" ∷ signed_rpm 31 "bash.rpm" "x86_64" ∷ [];
  started_at = none;
}

abbrev payload : SignTaskCreate
payload = record { build_id = 4; sign_key_id = 1 }

creating : Unit {0}
unfolding create_sign_task found_or get_user find_build find_sign_key has_no_packages artifacts_of
    find_artifact can_user_perform can_perform can_perform_checked lookup object_roles has_role
    groups_intersection is_allowed is_performable owner_id_of permissions_triad
creating = tt

abbrev with_new : Db
with_new = record db { sign_tasks = db.sign_tasks ++ new_sign_task 22 payload ∷ [] }

created : create_sign_task 22 db payload 7 ≡ ok (new_sign_task 22 payload, with_new)
unfolding creating
created = refl

create_sign_task_iff_example :
    (create_sign_task 22 db payload 7
      ≡ ok (
        new_sign_task 22 payload,
        record db { sign_tasks = db.sign_tasks ++ new_sign_task 22 payload ∷ [] },
      ))
    ↔ Signable db payload 7
create_sign_task_iff_example = create_sign_task_iff 22 db payload 7

handing_out : Unit {0}
unfolding get_available_sign_task sign_task_payload is_waiting is_due sign_value start_signing
    find_sign_key find_build artifacts_of find_artifact get_attr update_sign_tasks get_build_repos
    add_repos get_repo lookup insert package_info src_packages binary_packages
handing_out = tt

abbrev info : ℕ → String → String → String → SignRpmInfo
info id name arch url = record {
  id = id;
  name = name;
  cas_hash = none;
  arch = arch;
  type = "rpm";
  download_url = url;
}

abbrev offered : ℕ → AvailableSignTask
offered id = record {
  id = id;
  build_id = 4;
  keyid = "488FCF7C3ABB34F8";
  sign_files = false;
  packages =
      info 30 "bash.src.rpm" "src" "Packages/b/bash.src.rpm"
      ∷ info 31 "bash.rpm" "x86_64" "Packages/b/bash.rpm"
      ∷ [];
}

abbrev after_first : Db
after_first = record db {
  sign_tasks = record (waiting_task 20) { status = SignStatus.in_progress } ∷ waiting_task 21 ∷ [];
}

abbrev after_second : Db
after_second = record db {
  sign_tasks =
      record (waiting_task 20) { status = SignStatus.in_progress }
      ∷ record (waiting_task 21) { status = SignStatus.in_progress }
      ∷ [];
}

first_request :
    get_available_sign_task host db (key.keyid ∷ []) 100 ≡ ok (some (offered 20), after_first)
unfolding handing_out get_package_url concat
first_request = refl

second_request :
    get_available_sign_task host after_first (key.keyid ∷ []) 100
    ≡ ok (some (offered 21), after_second)
unfolding handing_out get_package_url concat
second_request = refl

get_available_sign_task-once_example : (offered 21).id ≢ (offered 20).id
get_available_sign_task-once_example =
    get_available_sign_task-once host db (key.keyid ∷ []) (key.keyid ∷ []) 100 100 first_request
      second_request

completing : Unit {0}
unfolding complete_sign_task complete_found complete_with_packages sign_packages add_named
    sign_named finish_signing build_context complete_task has_wrong_fingerprint fail_sign_task
    failed_post_processing converted_packages process_single_package packages_to_convert
    package_arches get_mapping_rpm_per_platform get_platform add_package sign_artifacts sign_similar
    is_rejected add_to_repos find_sign_key find_build get_sign_task artifacts_of find_artifact
    get_attr update_sign_tasks get_build_repos add_repos get_repo lookup insert is_set
    verify_signed_build found_or has_no_packages find_platform check_sign_keys is_key_of all_rpms
    all_sign_keys get_compatible_release_platforms
completing = tt

abbrev signed_artifact : ℕ → String → Artifact
signed_artifact id name = record (artifact id name "x86_64") {
  href = "signed";
  sign_key_id = some 1;
}

abbrev signed_db : Db
signed_db = record db {
  builds =
      (record {
        id = 4;
        signed = true;
        repos = repo "src" "src_repo" ∷ repo "x86_64" "x86_repo" ∷ [];
        entity = entity;
      })
      ∷ [];
  sign_tasks =
      record (waiting_task 20) { status = SignStatus.completed; finished_at = some 9000 }
      ∷ waiting_task 21
      ∷ [];
  artifacts = signed_artifact 30 "bash.src.rpm" ∷ signed_artifact 31 "bash.rpm" ∷ [];
}

completed_report :
    complete_sign_task pulp 9000 20 report db
    ≡ ok (signed_db, ("src_repo", "signed" ∷ []) ∷ ("x86_repo", "signed" ∷ []) ∷ [])
unfolding completing
completed_report = refl

complete_sign_task-Approved_example : (signed_db.builds ≡ db.builds) ⊎ Approved pulp 20 report db
complete_sign_task-Approved_example =
    complete_sign_task-Approved pulp 9000 20 report db completed_report

complete_sign_task-AreSettled_example : AreSettled 20 signed_db
complete_sign_task-AreSettled_example =
    complete_sign_task-AreSettled pulp 9000 20 report db completed_report

packages_built : has_no_packages signed_db 4 ≡ false
unfolding completing
packages_built = refl

verified : verify_signed_build signed_db 4 5 ≡ ok true
unfolding completing
verified = refl

verify_signed_build-Verified_example : Verified signed_db 4 5
verify_signed_build-Verified_example = verify_signed_build-Verified signed_db 4 5 verified

signed_verified : Verified signed_db 4 5
signed_verified = verify_signed_build-Verified signed_db 4 5 verified

abbrev platform : Platform
platform = record {
  id = 5;
  name = "AlmaLinux-9";
  sign_keys = 1 ∷ [];
  compatible_release_platforms = [];
}

platform_found : find_platform signed_db 5 ≡ some platform
unfolding completing
platform_found = refl

keys_there : is_empty signed_verified.platform.sign_keys ≡ false
keys_there =
    ap (λ (p : Platform). is_empty p.sign_keys)
      (some_eq (sym signed_verified.has_platform ∙ platform_found))

Verified-verify_signed_build_example : verify_signed_build signed_db 4 5 ≡ ok true
Verified-verify_signed_build_example =
    Verified-verify_signed_build signed_db 4 5 signed_verified packages_built keys_there

unsigned_build : verify_signed_build db 4 5 ≡ err Error.sign_error
unfolding completing
unsigned_build = refl
