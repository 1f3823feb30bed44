-- ===== src/SignTasks/Released.antt =====
-- When verify_signed_build of alws/crud/sign_task.py returns True.
use albs_web_server.Prelude.{
  ℕ, true, false, List, [], ◌∷◌, Option, some, is_empty, contains_iff, nat_eq, ok, ◌≡◌, refl, sym,
  ap, Memᴰ, mem_cons-cases, mem-append_left, mem-append_right, inl, inr,
}
use albs_web_server.SignTasks.Db.{Db, Artifact, Platform}
use albs_web_server.SignTasks.Create.{found_or, has_no_packages}
use albs_web_server.SignTasks.Verify.{
  all_sign_keys, is_key_of, check_sign_keys, all_rpms, get_compatible_release_platforms,
  verify_signed_build, Verified,
}

check_sign_keys-known :
    (keys : List ℕ) (rpms : List Artifact)
    → ((rpm : Artifact) → Memᴰ rpm rpms → is_key_of keys rpm.sign_key_id ≡ true)
    → check_sign_keys keys rpms ≡ ok true
unfolding check_sign_keys
check_sign_keys-known keys [] known = refl
check_sign_keys-known keys (rpm ∷ rpms) known =
    rw (known rpm (Memᴰ.head refl)) (check_sign_keys-known keys rpms (λ r m. known r (Memᴰ.tail m)))

mem-all_sign_keys :
    {p : Platform} {key : ℕ} (platforms : List Platform)
    → Memᴰ p platforms
    → Memᴰ key p.sign_keys
    → Memᴰ key (all_sign_keys platforms)
unfolding all_sign_keys
mem-all_sign_keys [] m k = elim m [ ]
mem-all_sign_keys {p} {key} (platform ∷ platforms) m k = elim (mem_cons-cases m) [
  | inl here ↦
      mem-append_left (all_sign_keys platforms)
        (rw (ap (λ (q : Platform). q.sign_keys) (sym here)) k)
  | inr there ↦ mem-append_right platform.sign_keys (mem-all_sign_keys platforms there k)
]

is_key_of-known :
    (keys : List ℕ) (sign_key_id : Option ℕ) {key : ℕ}
    → sign_key_id ≡ some key
    → Memᴰ key keys
    → is_key_of keys sign_key_id ≡ true
unfolding is_key_of
is_key_of-known keys sign_key_id {key} has_key m = rw has_key ((contains_iff keys key).1 m)

-- If the build is signed, its packages are of both kinds and each has a key of a compatible
-- platform, and the platform has keys, then the verification returns True.
pub Verified-verify_signed_build :
    (db : Db) (build_id platform_id : ℕ) (v : Verified db build_id platform_id)
    → has_no_packages db build_id ≡ false
    → is_empty v.platform.sign_keys ≡ false
    → verify_signed_build db build_id platform_id ≡ ok true
unfolding verify_signed_build found_or
Verified-verify_signed_build db build_id platform_id v packages has_keys =
    let platforms = get_compatible_release_platforms db v.platform in
    let known = check_sign_keys-known (all_sign_keys platforms) (all_rpms db build_id) (λ rpm m.
      let (key, p, has_key, compatible, its) = v.keys rpm m in
      is_key_of-known (all_sign_keys platforms) rpm.sign_key_id has_key
        (mem-all_sign_keys platforms compatible its)) in
    rw (v.has_build, v.is_signed, packages, v.has_platform, has_keys) known
