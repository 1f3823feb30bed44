-- ===== src/SignTasks/Create.antt =====
-- create_sign_task and create_gen_key_task of alws/crud/sign_task.py. `new_id` is the identifier
-- that the database gives to the new row.
use albs_web_server.Prelude.{
  ℕ, Bool, true, false, not, ◌||◌, [], ◌∷◌, ◌++◌, Option, none, some, is_empty, Result, ok, err,
  Error, ◌>>=◌, ◌>>◌, raise_if, not_eq_false, >>-eq-ok, >>=-eq-ok, ◌≡◌, ◌↔◌, ap, ◌∙◌,
}
use albs_web_server.Constants.SignStatuses.{SignStatus}
use albs_web_server.SignTasks.Db.{
  Db, Build, SignKey, SignTask, GenKeyTask, Product, get_user, find_build, find_sign_key,
  artifacts_of, can_user_perform,
}

pub record SignTaskCreate : Type 0 where
  pub build_id : ℕ
  pub sign_key_id : ℕ

-- `if not row: raise error`.
unfoldable pub found_or : {A : Type 0} → Option A → Error → Result A
found_or none error = err error
found_or (some row) error = ok row

unfoldable pub has_no_packages : Db → ℕ → Bool
has_no_packages db build_id =
    is_empty (artifacts_of db build_id db.source_rpms)
    || is_empty (artifacts_of db build_id db.binary_rpms)

abbrev pub new_sign_task : ℕ → SignTaskCreate → SignTask
new_sign_task new_id payload = record {
  id = new_id;
  build_id = payload.build_id;
  sign_key_id = payload.sign_key_id;
  status = SignStatus.idle;
  ts = none;
  error_message = none;
  log_href = none;
  started_at = none;
  finished_at = none;
}

unfoldable pub create_sign_task : ℕ → Db → SignTaskCreate → ℕ → Result (SignTask × Db)
create_sign_task new_id db payload user_id = do
  let user = get_user db user_id
  build ← found_or (find_build db payload.build_id) Error.data_not_found_error
  raise_if build.signed Error.build_already_signed_error
  raise_if (has_no_packages db payload.build_id) Error.value_error
  sign_key ← found_or (find_sign_key db payload.sign_key_id) Error.data_not_found_error
  may_sign ← can_user_perform build.entity user "sign_build"
  raise_if (not may_sign) Error.permission_denied
  may_use ← can_user_perform sign_key.entity user "use_sign_key"
  raise_if (not may_use) Error.permission_denied
  raise_if (not sign_key.active) Error.permission_denied
  ok (
    new_sign_task new_id payload,
    record db { sign_tasks = db.sign_tasks ++ new_sign_task new_id payload ∷ [] },
  )

unfoldable pub create_gen_key_task : ℕ → Db → Product → ℕ → Result (GenKeyTask × Db)
create_gen_key_task new_id db product user_id = do
  may_generate ← can_user_perform product.entity (get_user db user_id) "gen_key"
  raise_if (not may_generate) Error.permission_denied
  let task : GenKeyTask = record { id = new_id; product_id = product.id; status = SignStatus.idle }
  ok (task, record db { gen_key_tasks = db.gen_key_tasks ++ task ∷ [] })

-- What has to hold for a sign task.
pub record Signable (db : Db) (payload : SignTaskCreate) (user_id : ℕ) : Type 0 where
  pub build : Build
  pub has_build : find_build db payload.build_id ≡ some build
  pub unsigned : build.signed ≡ false
  pub packages : has_no_packages db payload.build_id ≡ false
  pub sign_key : SignKey
  pub has_key : find_sign_key db payload.sign_key_id ≡ some sign_key
  pub may_sign : can_user_perform build.entity (get_user db user_id) "sign_build" ≡ ok true
  pub may_use : can_user_perform sign_key.entity (get_user db user_id) "use_sign_key" ≡ ok true
  pub active : sign_key.active ≡ true

pub found_or-eq-ok :
    {A : Type 0} (row : Option A) (error : Error) {a : A} → found_or row error ≡ ok a → row ≡ some a
unfolding found_or
found_or-eq-ok none error h = cc
found_or-eq-ok (some row) error h = cc

-- A sign task is created only if the build exists, is not signed and has packages of both kinds,
-- the key exists and is active, and the user may sign the build and use the key.
pub create_sign_task-Signable :
    (new_id : ℕ) (db : Db) (payload : SignTaskCreate) (user_id : ℕ) {task : SignTask} {db' : Db}
    → create_sign_task new_id db payload user_id ≡ ok (task, db')
    → Signable db payload user_id
unfolding create_sign_task
create_sign_task-Signable new_id db payload user_id h =
    let (build, has_build, h1) = >>=-eq-ok (found_or (find_build db payload.build_id) _) _ h in
    let (unsigned, h2) = >>-eq-ok build.signed _ _ h1 in
    let (packages, h3) = >>-eq-ok (has_no_packages db payload.build_id) _ _ h2 in
    let (key, has_key, h4) = >>=-eq-ok (found_or (find_sign_key db payload.sign_key_id) _) _ h3 in
    let (sign, may_sign, h5) = >>=-eq-ok (can_user_perform build.entity _ _) _ h4 in
    let (signs, h6) = >>-eq-ok (not sign) _ _ h5 in
    let (use_key, may_use, h7) = >>=-eq-ok (can_user_perform key.entity _ _) _ h6 in
    let (uses, h8) = >>-eq-ok (not use_key) _ _ h7 in
    record {
      build = build;
      has_build = found_or-eq-ok _ _ has_build;
      unsigned = unsigned;
      packages = packages;
      sign_key = key;
      has_key = found_or-eq-ok _ _ has_key;
      may_sign = may_sign ∙ ap ok (not_eq_false signs);
      may_use = may_use ∙ ap ok (not_eq_false uses);
      active = not_eq_false (>>-eq-ok (not key.active) _ _ h8).0;
    }

-- If the conditions for a sign task hold, create_sign_task returns the new idle task for the build
-- and the key, and its row is the only change.
pub Signable-create_sign_task :
    (new_id : ℕ) (db : Db) (payload : SignTaskCreate) (user_id : ℕ)
    → Signable db payload user_id
    → create_sign_task new_id db payload user_id
      ≡ ok (
        new_sign_task new_id payload,
        record db { sign_tasks = db.sign_tasks ++ new_sign_task new_id payload ∷ [] },
      )
unfolding create_sign_task found_or
Signable-create_sign_task new_id db payload user_id s =
    rw (s.has_build, s.unsigned, s.packages, s.has_key, s.may_sign, s.may_use, s.active)

-- create_sign_task returns the new idle task for the build and the key, with its row as the only
-- change, exactly if the build exists, is not signed and has packages of both kinds, the key exists
-- and is active, and the user may sign the build and use the key.
pub create_sign_task_iff :
    (new_id : ℕ) (db : Db) (payload : SignTaskCreate) (user_id : ℕ)
    → (create_sign_task new_id db payload user_id
        ≡ ok (
          new_sign_task new_id payload,
          record db { sign_tasks = db.sign_tasks ++ new_sign_task new_id payload ∷ [] },
        ))
      ↔ Signable db payload user_id
create_sign_task_iff new_id db payload user_id = (
  create_sign_task-Signable new_id db payload user_id,
  Signable-create_sign_task new_id db payload user_id,
)
