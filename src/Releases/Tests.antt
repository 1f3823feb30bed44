-- ===== src/Releases/Tests.antt =====
-- Beholder's answer for a package, and where it is released.
use albs_web_server.Prelude.{
  ℕ, String, Bool, true, false, List, [], ◌∷◌, some, lookup, insert, concat, Result, ok, err, ◌≡◌,
  refl, Memᴰ,
}
use albs_web_server.Releases.Cache.{
  BeholderRepo, BeholderPackage, BeholderCache, cached_repositories, merged_repositories,
  keeps_entry, for_arch, update_weak_arches, weak_arches_of, generate_key, update_with_package,
  update_beholder_cache,
}
use albs_web_server.Releases.Find.{
  RepoType, Wanted, wanted_key, is_wanted, any_version, predicted_package, release_repo_name,
  release_repo, find_release_repos,
}
use albs_web_server.Releases.Consistent.{IsConsistent}
use albs_web_server.Releases.Predicted.{IsEntry, find_release_repos-IsEntry}

abbrev bash : BeholderPackage
bash = record {
  name = "bash";
  version = "5.1";
  arch = "x86_64";
  repositories = some ((record { name = "baseos"; arch = "x86_64"; priority = 0 }) ∷ []);
  priority = 0;
  matched = "";
}

abbrev strong_arches : List (String × List String)
strong_arches = ("x86_64", "i686" ∷ []) ∷ []

abbrev same_name : String → String
same_name name = name

abbrev never : String → String → Bool
never text suffix = false

abbrev cache_of : Result BeholderCache → BeholderCache
cache_of (ok cache) = cache
cache_of (err e) = []

prediction : Unit {0}
unfolding update_beholder_cache update_with_package generate_key merged_repositories insert lookup
    update_weak_arches weak_arches_of keeps_entry for_arch find_release_repos predicted_package
    wanted_key any_version is_wanted release_repo release_repo_name concat
prediction = tt

abbrev cache : BeholderCache
cache =
    cache_of (update_beholder_cache same_name strong_arches false false 1 "exact" [] (bash ∷ []))

updated :
    update_beholder_cache same_name strong_arches false false 1 "exact" [] (bash ∷ []) ≡ ok cache
unfolding prediction
updated = refl

-- An architecture without weak ones.
noarch_updated :
    update_beholder_cache same_name strong_arches false false 1 "exact" []
      ((record bash { arch = "noarch" }) ∷ [])
    ≡ ok (
        (
          record {
            name = "bash";
            version = "5.1";
            arch = "noarch";
            is_beta = false;
            is_devel = false;
          },
          record bash {
            arch = "noarch";
            repositories = some ((record { name = "baseos"; arch = "x86_64"; priority = 1 }) ∷ []);
            priority = 1;
            matched = "exact";
          },
        )
        ∷ [])
unfolding prediction
noarch_updated = refl

-- Asked for as a beta package of the weak architecture.
abbrev wanted : Wanted
wanted = record { name = "bash"; version = "5.1"; arch = "i686"; is_devel = false }

abbrev repository : RepoType × (ℕ × String)
repository =
    (record { name = "almalinux-9-baseos-debuginfo"; arch = "i686"; debug = true }, (1, "exact"))

repository_found : find_release_repos never "almalinux" "9" wanted true true cache ≡ repository ∷ []
unfolding prediction
repository_found = refl

no_entries : IsConsistent []
no_entries p m = elim m [ ]

find_release_repos-IsEntry_example :
    (pkg : BeholderPackage) × IsEntry wanted true cache pkg
    × (pkg.name ≡ wanted.name)
    × ((repo : BeholderRepo) × Memᴰ repo (cached_repositories (some pkg))
        × (repository ≡ release_repo never "almalinux" "9" true pkg repo))
find_release_repos-IsEntry_example =
    find_release_repos-IsEntry never "almalinux" "9" same_name strong_arches false false 1 "exact"
      (bash ∷ []) [] wanted true true repository no_entries updated
      (unfold prediction in Memᴰ.head refl)
