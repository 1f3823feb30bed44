-- ===== src/Releases/Find.antt =====
-- find_release_repos of alws/release_planner.py. `ends_with` is Python's test of texts.
use albs_web_server.Prelude.{
  ℕ, String, Bool, not, List, [], ◌∷◌, map, Option, none, some, filter, head?, lookup, concat,
  if◌then◌else◌, ◌==◌, string_eq, bool_eq, ◌&&◌,
}
use albs_web_server.Releases.Cache.{
  BeholderKey, key_eq, BeholderRepo, BeholderPackage, BeholderCache, cached_repositories,
}

pub record RepoType : Type 0 where
  pub name : String
  pub arch : String
  pub debug : Bool

-- What a package is looked up by, without the flag for beta.
pub record Wanted : Type 0 where
  pub name : String
  pub version : String
  pub arch : String
  pub is_devel : Bool

unfoldable pub wanted_key : Wanted → Bool → BeholderKey
wanted_key wanted beta = record {
  name = wanted.name;
  version = wanted.version;
  arch = wanted.arch;
  is_beta = beta;
  is_devel = wanted.is_devel;
}

-- Another version of the package.
unfoldable pub is_wanted : Wanted → BeholderKey → Bool
is_wanted wanted key =
    wanted.name == key.name && (wanted.arch == key.arch && wanted.is_devel == key.is_devel)

-- `a or b`, of entries of the cache.
abbrev pub or_else : Option BeholderPackage → Option BeholderPackage → Option BeholderPackage
or_else none other = other
or_else (some pkg) other = some pkg

unfoldable pub any_version : Wanted → BeholderCache → Option BeholderPackage
any_version wanted cache =
    elim (head?
      (filter (λ (entry : BeholderKey × BeholderPackage). is_wanted wanted entry.0) cache)) [
        | none ↦ none
        | some entry ↦ some entry.1
      ]

unfoldable pub predicted_package : Wanted → Bool → BeholderCache → Option BeholderPackage
predicted_package wanted is_beta cache =
    or_else (lookup (wanted_key wanted is_beta) cache)
      (or_else (lookup (wanted_key wanted (not is_beta)) cache) (any_version wanted cache))

module _ (ends_with : String → String → Bool)
    (clean_base_dist_name_lower distr_version : String) where
  unfoldable pub release_repo_name : Bool → String → String
  release_repo_name is_debug repo_name =
      let name =
        if is_debug && not (ends_with repo_name "debuginfo")
        then concat (repo_name ∷ "-debuginfo" ∷ [])
        else repo_name in
      concat (clean_base_dist_name_lower ∷ "-" ∷ distr_version ∷ "-" ∷ name ∷ [])

  unfoldable pub release_repo : Bool → BeholderPackage → BeholderRepo → RepoType × (ℕ × String)
  release_repo is_debug pkg repo = (
    record { name = release_repo_name is_debug repo.name; arch = repo.arch; debug = is_debug },
    (repo.priority, pkg.matched),
  )

  -- The elements of the set, in the order in which they are added.
  unfoldable pub find_release_repos :
      Wanted → Bool → Bool → BeholderCache → List (RepoType × (ℕ × String))
  find_release_repos wanted is_beta is_debug cache = elim (predicted_package wanted is_beta cache) [
    | none ↦ []
    | some pkg ↦ map (release_repo is_debug pkg) (cached_repositories (some pkg))
  ]
