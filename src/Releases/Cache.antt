-- ===== src/Releases/Cache.antt =====
-- update_beholder_cache of alws/release_planner.py. A package and a repository have the keys that
-- the planner reads; the regular expression that shortens a repository's name is a parameter.
use albs_web_server.Prelude.{
  ℕ, String, Bool, true, false, not, List, [], ◌∷◌, ◌++◌, map, Option, none, some, is_empty, filter,
  contains, lookup, insert, if◌then◌else◌, ◌==◌, Eq, string_eq, nat_eq, bool_eq, pair_eq, eq_of_==,
  ==-refl, ◌&&◌, leb, Result, ok, err, Error, ◌>>=◌, ◌≡◌, ◌↔◌, ap,
}

pub record BeholderKey : Type 0 where
  pub name : String
  pub version : String
  pub arch : String
  pub is_beta : Bool
  pub is_devel : Bool

pub record BeholderRepo : Type 0 where
  pub name : String
  pub arch : String
  pub priority : ℕ

-- `repositories` may be missing; `priority` and `matched` are set when the package is stored.
pub record BeholderPackage : Type 0 where
  pub name : String
  pub version : String
  pub arch : String
  pub repositories : Option (List BeholderRepo)
  pub priority : ℕ
  pub matched : String

abbrev key_tuple : BeholderKey → String × (String × (String × (Bool × Bool)))
key_tuple k = (k.name, (k.version, (k.arch, (k.is_beta, k.is_devel))))

abbrev key_of_tuple : String × (String × (String × (Bool × Bool))) → BeholderKey
key_of_tuple t = record {
  name = t.0;
  version = t.1.0;
  arch = t.1.1.0;
  is_beta = t.1.1.1.0;
  is_devel = t.1.1.1.1;
}

pub key_beq_iff : (a b : BeholderKey) → ((key_tuple a == key_tuple b) ≡ true) ↔ (a ≡ b)
key_beq_iff a b = (
  λ h. ap key_of_tuple (eq_of_== (key_tuple a) (key_tuple b) h),
  λ e. rw e (==-refl (key_tuple b)),
)

instance abbrev pub key_eq : Eq BeholderKey
key_eq = record { beq = λ a b. key_tuple a == key_tuple b; beq_iff = key_beq_iff }

abbrev repo_tuple : BeholderRepo → String × (String × ℕ)
repo_tuple r = (r.name, (r.arch, r.priority))

pub repo_beq_iff : (a b : BeholderRepo) → ((repo_tuple a == repo_tuple b) ≡ true) ↔ (a ≡ b)
repo_beq_iff a b = (
  λ h.
      ap (λ (t : String × (String × ℕ)). record { name = t.0; arch = t.1.0; priority = t.1.1 })
        (eq_of_== (repo_tuple a) (repo_tuple b) h),
  λ e. rw e (==-refl (repo_tuple b)),
)

instance abbrev pub repo_eq : Eq BeholderRepo
repo_eq = record { beq = λ a b. repo_tuple a == repo_tuple b; beq_iff = repo_beq_iff }

abbrev pub BeholderCache : Type 0
BeholderCache = List (BeholderKey × BeholderPackage)

-- `pkg.get('repositories', [])`, of a package that may be missing too.
abbrev pub repositories_of : Option (List BeholderRepo) → List BeholderRepo
repositories_of none = []
repositories_of (some repositories) = repositories

abbrev pub cached_repositories : Option BeholderPackage → List BeholderRepo
cached_repositories none = []
cached_repositories (some pkg) = repositories_of pkg.repositories

-- The package's own repositories, and then those of the earlier entry that are not among them. A
-- package without repositories stays as it is.
unfoldable pub merged_repositories :
    (String → String) → ℕ → BeholderPackage → Option BeholderPackage → Option (List BeholderRepo)
merged_repositories clean_name priority pkg prev_pkg =
    let own =
      map (λ (r : BeholderRepo). record r { name = clean_name r.name; priority = priority })
        (repositories_of pkg.repositories) in
    if is_empty own
    then pkg.repositories
    else some (own ++ filter (λ r. not (contains own r)) (cached_repositories prev_pkg))

-- Whether the entry for a weak architecture is left as it is.
unfoldable pub keeps_entry : String → ℕ → Option BeholderPackage → Bool
keeps_entry weak_arch priority none = false
keeps_entry weak_arch priority (some item) =
    not (is_empty (repositories_of item.repositories))
    && (weak_arch == "i686" && leb item.priority priority)

unfoldable pub for_arch : String → String → BeholderRepo → BeholderRepo
for_arch arch weak_arch repo = if repo.arch == arch then record repo { arch = weak_arch } else repo

unfoldable pub update_weak_arches :
    (String → BeholderKey)
    → BeholderPackage
    → ℕ
    → List String
    → BeholderCache
    → Result BeholderCache
update_weak_arches key_of pkg priority [] cache = ok cache
update_weak_arches key_of pkg priority (weak_arch ∷ arches) cache =
    let second_key = key_of weak_arch in
    elim (keeps_entry weak_arch priority (lookup second_key cache)) [
      | true ↦ update_weak_arches key_of pkg priority arches cache
      | false ↦ elim pkg.repositories [
        | none ↦ err Error.key_error
        | some repositories ↦ update_weak_arches key_of pkg priority arches (
            insert second_key
              (record pkg { repositories = some (map (for_arch pkg.arch weak_arch) repositories) })
              cache)
      ]
    ]

unfoldable pub generate_key : BeholderPackage → Bool → Bool → String → BeholderKey
generate_key pkg is_beta is_devel arch = record {
  name = pkg.name;
  version = pkg.version;
  arch = arch;
  is_beta = is_beta;
  is_devel = is_devel;
}

-- `strong_arches[arch]`, of the `defaultdict(list)` that the planner passes.
unfoldable pub weak_arches_of : List (String × List String) → String → List String
weak_arches_of strong_arches arch = elim (lookup arch strong_arches) [
  | none ↦ []
  | some arches ↦ arches
]

module _ (clean_name : String → String) (strong_arches : List (String × List String))
    (is_beta is_devel : Bool) (priority : ℕ) (matched : String) where
  -- One round of the loop over the packages.
  unfoldable pub update_with_package : BeholderPackage → BeholderCache → Result BeholderCache
  update_with_package pkg cache =
      let key = generate_key pkg is_beta is_devel pkg.arch in
      let stored : BeholderPackage = record pkg {
        repositories = merged_repositories clean_name priority pkg (lookup key cache);
        priority = priority;
        matched = matched;
      } in
      update_weak_arches (generate_key pkg is_beta is_devel) stored priority
        (weak_arches_of strong_arches pkg.arch) (insert key stored cache)

  unfoldable pub update_beholder_cache : BeholderCache → List BeholderPackage → Result BeholderCache
  update_beholder_cache cache [] = ok cache
  update_beholder_cache cache (pkg ∷ packages) = do
    updated ← update_with_package pkg cache
    update_beholder_cache updated packages
