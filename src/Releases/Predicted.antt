-- ===== src/Releases/Predicted.antt =====
-- Which packages the prediction of alws/release_planner.py rests on.
use albs_web_server.Prelude.{
  ℕ, String, Bool, true, not, List, [], ◌∷◌, some, filter, head?, lookup, ◌==◌, eq_of_==, string_eq,
  bool_eq, and_parts, ok, ◌≡◌, refl, sym, ◌∙◌, inl, inr, Memᴰ, mem-of_lookup, mem-of_mem_map,
  Bool-cases, Option-cases, some_eq,
}
use albs_web_server.Releases.Cache.{
  BeholderKey, key_eq, BeholderRepo, BeholderPackage, BeholderCache, cached_repositories,
  update_beholder_cache,
}
use albs_web_server.Releases.Find.{
  RepoType, Wanted, wanted_key, is_wanted, any_version, predicted_package, release_repo,
  find_release_repos,
}
use albs_web_server.Releases.Consistent.{update_beholder_cache-IsConsistent, IsConsistent}

-- An entry that a prediction may rest on: one of the package, the architecture and the kind that
-- are looked for, and the entry of the very key if there is one.
pub record IsEntry (wanted : Wanted) (is_beta : Bool) (cache : BeholderCache)
    (pkg : BeholderPackage) : Type 0 where
  pub key : BeholderKey
  pub stored : Memᴰ (key, pkg) cache
  pub same_name : key.name ≡ wanted.name
  pub same_arch : key.arch ≡ wanted.arch
  pub same_devel : key.is_devel ≡ wanted.is_devel
  pub exact : (p : BeholderPackage) → lookup (wanted_key wanted is_beta) cache ≡ some p → pkg ≡ p

head-of_filter {ℓ} :
    {A : Type ℓ} (p : A → Bool) (xs : List A) {a : A}
    → head? (filter p xs) ≡ some a
    → Memᴰ a xs × (p a ≡ true)
head-of_filter p [] e = cc
head-of_filter p (x ∷ xs) {a} e = elim (Bool-cases (p x)) [
  | inl px ↦ let same : x ≡ a = some_eq (rw px at e) in (Memᴰ.head (sym same), rw (← same) px)
  | inr nx ↦ let (m, pa) = head-of_filter p xs (rw nx at e) in (Memᴰ.tail m, pa)
]

predicted_package-IsEntry :
    (wanted : Wanted) (is_beta : Bool) (cache : BeholderCache) {pkg : BeholderPackage}
    → predicted_package wanted is_beta cache ≡ some pkg
    → IsEntry wanted is_beta cache pkg
unfolding predicted_package any_version is_wanted wanted_key
predicted_package-IsEntry wanted is_beta cache {pkg} e =
    let exact_key = wanted_key wanted is_beta in
    let other_key = wanted_key wanted (not is_beta) in
    elim (Option-cases (lookup exact_key cache)) [
      | inr (p, found) ↦
          let same : p ≡ pkg = some_eq (rw (found, predicted_package) at e) in
          rw (← same) (record {
            key = exact_key;
            stored = mem-of_lookup exact_key cache found;
            same_name = refl;
            same_arch = refl;
            same_devel = refl;
            exact = λ q h. some_eq (sym found ∙ h);
          })
      | inl missing ↦ elim (Option-cases (lookup other_key cache)) [
        | inr (p, found) ↦
            let same : p ≡ pkg = some_eq (rw (missing, found, predicted_package) at e) in
            rw (← same) (record {
              key = other_key;
              stored = mem-of_lookup other_key cache found;
              same_name = refl;
              same_arch = refl;
              same_devel = refl;
              exact = λ q h. cc (missing, h);
            })
        | inl missing' ↦
            let entries =
              filter (λ (entry : BeholderKey × BeholderPackage). is_wanted wanted entry.0) cache in
            elim (Option-cases (head? entries)) [
              | inl nothing ↦
                  cc (rw (missing, missing', nothing, predicted_package, any_version) at e)
              | inr (entry, found) ↦
                  let same : entry.1 ≡ pkg =
                    some_eq (rw (missing, missing', found, predicted_package, any_version) at e) in
                  let (stored, fits) =
                    head-of_filter (λ (x : BeholderKey × BeholderPackage). is_wanted wanted x.0)
                      cache found in
                  let (name, others) = and_parts (wanted.name == entry.0.name) _ fits in
                  let (arch, devel) = and_parts (wanted.arch == entry.0.arch) _ others in
                  rw (← same) (record {
                    key = entry.0;
                    stored = stored;
                    same_name = sym (eq_of_== wanted.name entry.0.name name);
                    same_arch = sym (eq_of_== wanted.arch entry.0.arch arch);
                    same_devel = sym (eq_of_== wanted.is_devel entry.0.is_devel devel);
                    exact = λ q h. cc (missing, h);
                  })
            ]
      ]
    ]

module _ (ends_with : String → String → Bool)
    (clean_base_dist_name_lower distr_version : String) where
  -- A repository that is found comes from a repository of a package of the wanted name in the cache,
  -- and from that of the wanted version and beta flag if there is one, after any update of a
  -- consistent cache.
  pub find_release_repos-IsEntry :
      (clean_name : String → String) (strong_arches : List (String × List String))
      (beta_answer devel_answer : Bool) (priority : ℕ) (matched : String)
      (packages : List BeholderPackage) (start : BeholderCache) {cache : BeholderCache}
      (wanted : Wanted) (is_beta is_debug : Bool) (found : RepoType × (ℕ × String))
      → IsConsistent start
      → update_beholder_cache clean_name strong_arches beta_answer devel_answer priority matched
          start packages
        ≡ ok cache
      → Memᴰ found (
          find_release_repos ends_with clean_base_dist_name_lower distr_version wanted is_beta
            is_debug cache)
      → (pkg : BeholderPackage) × IsEntry wanted is_beta cache pkg
        × (pkg.name ≡ wanted.name)
        × ((repo : BeholderRepo) × Memᴰ repo (cached_repositories (some pkg))
            × (found
                ≡ release_repo ends_with clean_base_dist_name_lower distr_version is_debug pkg
                    repo))
  unfolding find_release_repos
  find_release_repos-IsEntry clean_name strong_arches beta_answer devel_answer priority matched
        packages start {cache} wanted is_beta is_debug found consistent updated m =
      let later =
        update_beholder_cache-IsConsistent clean_name strong_arches beta_answer devel_answer
          priority matched packages start updated consistent in
      elim (Option-cases (predicted_package wanted is_beta cache)) [
        | inl nothing ↦ elim (rw (nothing, find_release_repos) at m) [ ]
        | inr (pkg, predicted) ↦
            let entry = predicted_package-IsEntry wanted is_beta cache predicted in
            let about = later (entry.key, pkg) entry.stored in
            let (repo, among, same) =
              mem-of_mem_map
                (release_repo ends_with clean_base_dist_name_lower distr_version is_debug pkg)
                (cached_repositories (some pkg)) (rw (predicted, find_release_repos) at m) in
            (pkg, entry, about.0 ∙ entry.same_name, (repo, among, same))
      ]
