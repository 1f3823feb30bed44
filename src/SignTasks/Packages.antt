-- ===== src/SignTasks/Packages.antt =====
-- What complete_sign_task of alws/crud/sign_task.py finds out of the reported packages and writes
-- to the artifacts of the build.
use albs_web_server.Prelude.{
  ℕ, String, Bool, not, ◌&&◌, ◌||◌, List, [], ◌∷◌, ◌++◌, map, Option, none, some, filter, contains,
  lookup, insert, is_set, if◌then◌else◌, ◌==◌, nat_eq, string_eq, option_eq, bool_eq, pair_eq,
  Result, ok, err, Error, ◌>>=◌,
}
use albs_web_server.SignTasks.Db.{Db, Repository, Artifact, find_artifact}
use albs_web_server.SignTasks.Handout.{RepoUniqueKey, get_repo}

pub record SignedRpmInfo : Type 0 where
  pub id : ℕ
  pub name : String
  pub arch : Option String
  pub href : String
  pub fingerprint : String
  pub sha256 : String
  pub cas_hash : Option String

-- The Pulp service: the package that has a checksum already, the creation of a package from an
-- artifact, the checksum of a package; and is_debuginfo_rpm of alws/utils/debuginfo.py.
pub record Pulp : Type 0 where
  pub rpm_package_by_checksum : String → Option String
  pub create_rpm_package : String → String → Option String
  pub sha256_of : String → String
  pub is_debuginfo_rpm : String → Bool

-- What is known of a package after it has been processed.
pub record PackageInfo : Type 0 where
  pub href : Option String
  pub sha256 : Option String
  pub original_sha256 : String
  pub cas_hash : Option String

-- `packages_to_convert`: the first package of each name.
unfoldable pub packages_to_convert :
    List (String × SignedRpmInfo) → List SignedRpmInfo → List (String × SignedRpmInfo)
packages_to_convert found [] = found
packages_to_convert found (pkg ∷ packages) = elim (lookup pkg.name found) [
  | none ↦ packages_to_convert (found ++ (pkg.name, pkg) ∷ []) packages
  | some first ↦ packages_to_convert found packages
]

-- `package_arches_mapping[name]`: a set of architectures, in the order of the packages.
unfoldable pub package_arches :
    String → List (Option String) → List SignedRpmInfo → List (Option String)
package_arches name arches [] = arches
package_arches name arches (pkg ∷ packages) =
    package_arches name
      (if pkg.name == name && not (contains arches pkg.arch)
        then arches ++ pkg.arch ∷ []
        else arches)
      packages

-- `_get_mapping_rpm_per_platform`: the last package of a name counts.
unfoldable pub get_mapping_rpm_per_platform : List (String × ℕ) → List Artifact → List (String × ℕ)
get_mapping_rpm_per_platform mapping [] = mapping
get_mapping_rpm_per_platform mapping (rpm ∷ rpms) =
    get_mapping_rpm_per_platform (insert rpm.name rpm.platform_id mapping) rpms

unfoldable pub get_platform : List (String × ℕ) → String → Result ℕ
get_platform mapping name = elim (lookup name mapping) [
  | none ↦ err Error.key_error
  | some platform_id ↦ ok platform_id
]

-- `packages_to_add[href].append(package)`.
unfoldable pub add_package :
    String → String → List (String × List String) → List (String × List String)
add_package repo_href pkg packages_to_add = elim (lookup repo_href packages_to_add) [
  | none ↦ insert repo_href (pkg ∷ []) packages_to_add
  | some packages ↦ insert repo_href (packages ++ pkg ∷ []) packages_to_add
]

-- The new address, the key and the hash of the artifacts with the given identifiers.
unfoldable pub sign_artifacts : String → ℕ → Option String → List ℕ → Db → Db
sign_artifacts new_href key_id cas_hash ids db = record db {
  artifacts =
      map
        (λ a.
          if contains ids a.id
          then record a { href = new_href; cas_hash = cas_hash; sign_key_id = some key_id }
          else a)
        db.artifacts;
}

-- The loop over the packages of the build with one name. `srpms` are the source packages with the
-- addresses that they had at first, and the address of the package is read as it is by now.
unfoldable pub sign_similar : List Artifact → String → ℕ → Option String → List Artifact → Db → Db
sign_similar srpms new_href key_id cas_hash [] db = db
sign_similar srpms new_href key_id cas_hash (rpm ∷ rpms) db =
    sign_similar srpms new_href key_id cas_hash rpms (elim (find_artifact db rpm.id) [
      | none ↦ db
      | some now ↦
          let same_href = filter (λ s. s.href == now.href) srpms in
          sign_artifacts new_href key_id cas_hash (now.id ∷ map (λ s. s.id) same_href) db
    ])

-- `not href`, `not sha256`, or the checksum differs.
unfoldable pub is_rejected : PackageInfo → Bool
is_rejected info =
    not (is_set info.href)
    || (not (is_set info.sha256) || not (info.sha256 == some info.original_sha256))

abbrev pub href_of : PackageInfo → String
href_of info = elim info.href [ none ↦ "" | some href ↦ href ]

module _ (pulp : Pulp) where
  unfoldable pub process_single_package : SignedRpmInfo → PackageInfo
  process_single_package pkg = elim (pulp.rpm_package_by_checksum pkg.sha256) [
    | some rpm_href ↦ record {
      href = some rpm_href;
      sha256 = some pkg.sha256;
      original_sha256 = pkg.sha256;
      cas_hash = pkg.cas_hash;
    }
    | none ↦
        let new_href = pulp.create_rpm_package pkg.name pkg.href in
        record {
          href = new_href;
          sha256 =
              if is_set new_href
              then elim new_href [ none ↦ none | some href ↦ some (pulp.sha256_of href) ]
              else none;
          original_sha256 = pkg.sha256;
          cas_hash = pkg.cas_hash;
        }
  ]

  unfoldable pub converted_packages : List SignedRpmInfo → List (String × PackageInfo)
  converted_packages packages =
      map (λ p. (p.0, process_single_package p.1)) (packages_to_convert [] packages)

  -- The repositories of the architectures of a package get it. A package without an architecture
  -- has no repository.
  unfoldable pub add_to_repos :
      List (RepoUniqueKey × Repository)
      → List (String × ℕ)
      → String
      → String
      → List (Option String)
      → List (String × List String)
      → Result (List (String × List String))
  add_to_repos repos platforms name new_href [] packages_to_add = ok packages_to_add
  add_to_repos repos platforms name new_href (none ∷ arches) packages_to_add = err Error.key_error
  add_to_repos repos platforms name new_href (some arch ∷ arches) packages_to_add = do
    platform_id ← get_platform platforms name
    repo ← get_repo repos (arch, (pulp.is_debuginfo_rpm name, platform_id))
    add_to_repos repos platforms name new_href arches
        (add_package repo.pulp_href new_href packages_to_add)
