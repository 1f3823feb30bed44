-- ===== src/SignTasks/Verify.antt =====
-- verify_signed_build of alws/crud/sign_task.py, which is asked before a build is released, with
-- Platform.get_compatible_release_platforms of alws/models.py.
use albs_web_server.Prelude.{
  not_eq_false, ℕ, Bool, true, false, not, List, [], ◌∷◌, ◌++◌, Option, none, some, is_empty,
  filter, head?, contains, contains_iff, if◌then◌else◌, ◌==◌, nat_eq, string_eq, Result, ok, Error,
  ◌>>=◌, ◌>>◌, raise_if, >>=-eq-ok, >>-eq-ok, ◌≡◌, refl, ap, Memᴰ, mem_cons-cases, mem_append-cases,
  inl, inr,
}
use albs_web_server.SignTasks.Db.{Db, Build, Artifact, Platform, find_build, artifacts_of}
use albs_web_server.SignTasks.Create.{found_or, found_or-eq-ok, has_no_packages}

unfoldable pub find_platform : Db → ℕ → Option Platform
find_platform db platform_id = head? (filter (λ p. p.id == platform_id) db.platforms)

-- The platform itself, and those that its data name.
unfoldable pub get_compatible_release_platforms : Db → Platform → List Platform
get_compatible_release_platforms db platform =
    platform
    ∷ (if is_empty platform.compatible_release_platforms
        then []
        else filter (λ p. contains platform.compatible_release_platforms p.name) db.platforms)

-- A platform without keys adds nothing to the set.
unfoldable pub all_sign_keys : List Platform → List ℕ
all_sign_keys [] = []
all_sign_keys (platform ∷ platforms) = platform.sign_keys ++ all_sign_keys platforms

-- A package without a key has `None`, which is in no set of keys.
unfoldable pub is_key_of : List ℕ → Option ℕ → Bool
is_key_of keys none = false
is_key_of keys (some key) = contains keys key

unfoldable pub check_sign_keys : List ℕ → List Artifact → Result Bool
check_sign_keys keys [] = ok true
check_sign_keys keys (rpm ∷ rpms) = do
  raise_if (not (is_key_of keys rpm.sign_key_id)) Error.sign_error
  check_sign_keys keys rpms

unfoldable pub all_rpms : Db → ℕ → List Artifact
all_rpms db build_id =
    artifacts_of db build_id db.source_rpms ++ artifacts_of db build_id db.binary_rpms

unfoldable pub verify_signed_build : Db → ℕ → ℕ → Result Bool
verify_signed_build db build_id platform_id = do
  build ← found_or (find_build db build_id) Error.data_not_found_error
  raise_if (not build.signed) Error.sign_error
  raise_if (has_no_packages db build_id) Error.value_error
  platform ← found_or (find_platform db platform_id) Error.data_not_found_error
  raise_if (is_empty platform.sign_keys) Error.data_not_found_error
  check_sign_keys (all_sign_keys (get_compatible_release_platforms db platform))
      (all_rpms db build_id)

checked :
    (keys : List ℕ) (rpms : List Artifact) {flag : Bool}
    → check_sign_keys keys rpms ≡ ok flag
    → {rpm : Artifact} → Memᴰ rpm rpms
    → is_key_of keys rpm.sign_key_id ≡ true
unfolding check_sign_keys
checked keys [] h m = elim m [ ]
checked keys (rpm ∷ rpms) h m =
    let (known, rest) = >>-eq-ok (not (is_key_of keys rpm.sign_key_id)) _ _ h in
    elim (mem_cons-cases m) [
      | inl here ↦ rw (ap (λ (a : Artifact). a.sign_key_id) here) (not_eq_false known)
      | inr there ↦ checked keys rpms rest there
    ]

key_of_platform :
    (platforms : List Platform) {key : ℕ}
    → Memᴰ key (all_sign_keys platforms)
    → (p : Platform) × Memᴰ p platforms × Memᴰ key p.sign_keys
unfolding all_sign_keys
key_of_platform [] m = elim m [ ]
key_of_platform (platform ∷ platforms) m = elim (mem_append-cases platform.sign_keys m) [
  | inl own ↦ (platform, Memᴰ.head refl, own)
  | inr rest ↦ let (p, there, k) = key_of_platform platforms rest in (p, Memᴰ.tail there, k)
]

is_key_of-mem :
    (keys : List ℕ) (key : Option ℕ)
    → is_key_of keys key ≡ true
    → (k : ℕ) × (key ≡ some k) × Memᴰ k keys
unfolding is_key_of
is_key_of-mem keys none h = cc
is_key_of-mem keys (some k) h = (k, refl, (contains_iff keys k).0 h)

-- The build is signed, and every package of it has a key of a compatible platform.
pub record Verified (db : Db) (build_id platform_id : ℕ) : Type 0 where
  pub build : Build
  pub has_build : find_build db build_id ≡ some build
  pub is_signed : build.signed ≡ true
  pub platform : Platform
  pub has_platform : find_platform db platform_id ≡ some platform
  pub keys :
      (rpm : Artifact)
      → Memᴰ rpm (all_rpms db build_id)
      → (key : ℕ) × (p : Platform) × (rpm.sign_key_id ≡ some key)
        × Memᴰ p (get_compatible_release_platforms db platform)
        × Memᴰ key p.sign_keys

-- If the verification returns, the build is signed and every source and binary package of it has a
-- key, which is a key of the platform or of one that is compatible with it.
pub verify_signed_build-Verified :
    (db : Db) (build_id platform_id : ℕ) {flag : Bool}
    → verify_signed_build db build_id platform_id ≡ ok flag
    → Verified db build_id platform_id
unfolding verify_signed_build
verify_signed_build-Verified db build_id platform_id h =
    let (build, has_build, h1) = >>=-eq-ok (found_or (find_build db build_id) _) _ h in
    let (is_signed, h2) = >>-eq-ok (not build.signed) _ _ h1 in
    let (_, h3) = >>-eq-ok (has_no_packages db build_id) _ _ h2 in
    let (platform, has_platform, h4) = >>=-eq-ok (found_or (find_platform db platform_id) _) _ h3 in
    let (_, h5) = >>-eq-ok (is_empty platform.sign_keys) _ _ h4 in
    record {
      build = build;
      has_build = found_or-eq-ok _ _ has_build;
      is_signed = not_eq_false is_signed;
      platform = platform;
      has_platform = found_or-eq-ok _ _ has_platform;
      keys = λ rpm m.
          let (key, has_key, known) = is_key_of-mem _ rpm.sign_key_id (checked _ _ h5 m) in
          let (p, compatible, its) = key_of_platform _ known in (key, p, has_key, compatible, its);
    }
