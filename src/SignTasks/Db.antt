-- ===== src/SignTasks/Db.antt =====
-- The tables that alws/crud/sign_task.py works on, as lists of rows, with what it reads of them.
-- An artifact carries the platform and the architecture of its build task, and `source_rpms` and
-- `binary_rpms` hold (build_id, artifact_id).
use albs_web_server.Prelude.{
  ℕ, String, Bool, List, [], ◌∷◌, map, Option, none, some, filter, head?, if◌then◌else◌, ◌==◌,
  nat_eq, Result, ok, err, Error,
}
use albs_web_server.Constants.SignStatuses.{SignStatus}
use albs_web_server.Perms.Authorization.{User, Entity, can_perform}

pub record SignKey : Type 0 where
  pub id : ℕ
  pub keyid : String
  pub fingerprint : String
  pub active : Bool
  pub add_files_signature : Bool
  pub entity : Entity

pub record SignTask : Type 0 where
  pub id : ℕ
  pub build_id : ℕ
  pub sign_key_id : ℕ
  pub status : SignStatus
  pub ts : Option ℕ
  pub error_message : Option String
  pub log_href : Option String
  pub started_at : Option ℕ
  pub finished_at : Option ℕ

pub record GenKeyTask : Type 0 where
  pub id : ℕ
  pub product_id : ℕ
  pub status : SignStatus

pub record Product : Type 0 where
  pub id : ℕ
  pub entity : Entity

pub record Repository : Type 0 where
  pub arch : String
  pub debug : Bool
  pub platform_id : ℕ
  pub type : String
  pub production : Bool
  pub url : String
  pub pulp_href : String

pub record Build : Type 0 where
  pub id : ℕ
  pub signed : Bool
  pub repos : List Repository
  pub entity : Entity

pub record Artifact : Type 0 where
  pub id : ℕ
  pub name : String
  pub href : String
  pub cas_hash : Option String
  pub sign_key_id : Option ℕ
  pub platform_id : ℕ
  pub arch : String

pub record Platform : Type 0 where
  pub id : ℕ
  pub name : String
  pub sign_keys : List ℕ
  pub compatible_release_platforms : List String

pub record Db : Type 0 where
  pub users : List User
  pub builds : List Build
  pub sign_keys : List SignKey
  pub sign_tasks : List SignTask
  pub gen_key_tasks : List GenKeyTask
  pub artifacts : List Artifact
  pub source_rpms : List (ℕ × ℕ)
  pub binary_rpms : List (ℕ × ℕ)
  pub platforms : List Platform

unfoldable pub get_user : Db → ℕ → Option User
get_user db user_id = head? (filter (λ u. u.id == user_id) db.users)

unfoldable pub find_build : Db → ℕ → Option Build
find_build db build_id = head? (filter (λ b. b.id == build_id) db.builds)

unfoldable pub find_sign_key : Db → ℕ → Option SignKey
find_sign_key db key_id = head? (filter (λ k. k.id == key_id) db.sign_keys)

unfoldable pub get_sign_task : Db → ℕ → Option SignTask
get_sign_task db sign_task_id = head? (filter (λ t. t.id == sign_task_id) db.sign_tasks)

unfoldable pub find_artifact : Db → ℕ → Option Artifact
find_artifact db artifact_id = head? (filter (λ a. a.id == artifact_id) db.artifacts)

-- The artifacts of the RPM rows of a build. A row without an artifact cannot be: it is a foreign
-- key.
unfoldable pub artifacts_of : Db → ℕ → List (ℕ × ℕ) → List Artifact
artifacts_of db build_id [] = []
artifacts_of db build_id ((owner, artifact_id) ∷ rows) =
    let rest = artifacts_of db build_id rows in
    if owner == build_id
    then elim (find_artifact db artifact_id) [ none ↦ rest | some artifact ↦ artifact ∷ rest ]
    else rest

unfoldable pub update_sign_tasks : (SignTask → Bool) → (SignTask → SignTask) → Db → Db
update_sign_tasks test values db = record db {
  sign_tasks = map (λ t. if test t then values t else t) db.sign_tasks;
}

-- What is read of `None` raises AttributeError.
unfoldable pub get_attr : {A : Type 0} → Option A → Result A
get_attr none = err Error.attribute_error
get_attr (some a) = ok a

-- `can_perform(obj, user, action)` for an action of the program, with a user that may be `None`.
unfoldable pub can_user_perform : Entity → Option User → String → Result Bool
can_user_perform obj none action = err Error.attribute_error
can_user_perform obj (some user) action = can_perform obj user action
