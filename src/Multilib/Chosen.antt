-- ===== src/Multilib/Chosen.antt =====
-- Which artifacts the loop of add_multilib_packages (alws/utils/multilib.py) adds.
use albs_web_server.Prelude.{
  ℕ, String, Bool, not, ◌&&◌, ◌||◌, List, [], ◌∷◌, Option, some, contains, ◌==◌, nat_eq, string_eq,
  ok, ◌≡◌, refl, ap, ◌∙◌, inl, inr, Memᴰ, mem_append-cases, mem_cons-cases, mem_of_eq, Bool-cases,
  Option-cases, ok-injective, and_parts, eq_of_==,
}
use albs_web_server.Constants.Statuses.{status_eq}
use albs_web_server.BuildNode.Db.{BuildTaskArtifact}
use albs_web_server.Multilib.{Added, add_for_name, add_for_names, choose_packages}

module _ (is_in : String → String → Bool) (is_debuginfo_rpm : String → Bool)
    (pulp_name : String → Option String) where
  -- A copy, for the task, of one of the artifacts, of which Pulp's name is one of the names.
  pub record Chosen (task_id : ℕ) (names : List String) (artifacts : List BuildTaskArtifact)
      (a : BuildTaskArtifact) : Type 0 where
    pub origin : BuildTaskArtifact
    pub among : Memᴰ origin artifacts
    pub is_copy : a ≡ record origin { build_task_id = task_id }
    pub name : String
    pub in_pulp : pulp_name origin.href ≡ some name
    pub given : Memᴰ name names

  abbrev pub AllChosen : ℕ → List String → List BuildTaskArtifact → Added → Type 0
  AllChosen task_id names artifacts added =
      (a : BuildTaskArtifact) → Memᴰ a added.artifacts → Chosen task_id names artifacts a

  module _ (task_id : ℕ) (all_names : List String) (artifacts : List BuildTaskArtifact) where
    add_for_name-AllChosen :
        (pkg_name : String) (artifact : BuildTaskArtifact) (name : String) (added : Added)
        → Memᴰ artifact artifacts
        → pulp_name artifact.href ≡ some name
        → Memᴰ pkg_name all_names
        → AllChosen task_id all_names artifacts added
        → AllChosen task_id all_names artifacts
            (add_for_name is_in is_debuginfo_rpm pulp_name task_id artifact name pkg_name added)
    unfolding add_for_name
    add_for_name-AllChosen pkg_name artifact name added m p given h =
        let fresh =
          not (contains added.pkg_hrefs artifact.href)
          || not (contains added.debug_pkg_hrefs artifact.href) in
        elim (Bool-cases ((name == pkg_name) && fresh)) [
          | inr other ↦ rw (other, add_for_name) h
          | inl same ↦
              rw (same, add_for_name)
                (λ a row. elim (mem_append-cases added.artifacts row) [
                  | inl before ↦ h a before
                  | inr new ↦ elim (mem_cons-cases new) [
                    | inr none_left ↦ elim none_left [ ]
                    | inl here ↦ record {
                      origin = artifact;
                      among = m;
                      is_copy = here;
                      name = pkg_name;
                      in_pulp =
                          p
                          ∙ ap some
                              (eq_of_== name pkg_name (and_parts (name == pkg_name) fresh same).0);
                      given = given;
                    }
                  ]
                ])
        ]

    add_for_names-AllChosen :
        (names : List String) (artifact : BuildTaskArtifact) (name : String) (added : Added)
        → Memᴰ artifact artifacts
        → pulp_name artifact.href ≡ some name
        → ((n : String) → Memᴰ n names → Memᴰ n all_names)
        → AllChosen task_id all_names artifacts added
        → AllChosen task_id all_names artifacts
            (add_for_names is_in is_debuginfo_rpm pulp_name task_id artifact name names added)
    unfolding add_for_names
    add_for_names-AllChosen [] artifact name added m p sub h = h
    add_for_names-AllChosen (pkg_name ∷ names) artifact name added m p sub h =
        add_for_names-AllChosen names artifact name _ m p (λ n k. sub n (Memᴰ.tail k))
          (add_for_name-AllChosen pkg_name artifact name added m p (sub pkg_name (Memᴰ.head refl))
            h)

    pub choose_packages-AllChosen :
        (rest : List BuildTaskArtifact) (added : Added) {out : Added}
        → choose_packages is_in is_debuginfo_rpm pulp_name task_id all_names rest added ≡ ok out
        → ((a : BuildTaskArtifact) → Memᴰ a rest → Memᴰ a artifacts)
        → AllChosen task_id all_names artifacts added
        → AllChosen task_id all_names artifacts out
    unfolding choose_packages
    choose_packages-AllChosen [] added e sub h =
        λ a m. h a (mem_of_eq (ap (λ (o : Added). o.artifacts) (ok-injective e)) m)
    choose_packages-AllChosen (artifact ∷ rest) added e sub h =
        elim (Option-cases (pulp_name artifact.href)) [
          | inl missing ↦ cc (rw (missing, choose_packages) at e)
          | inr (name, found) ↦
              choose_packages-AllChosen rest _ (rw (found, choose_packages) at e)
                (λ a m. sub a (Memᴰ.tail m))
                (add_for_names-AllChosen all_names artifact name added
                  (sub artifact (Memᴰ.head refl)) found (λ n m. m) h)
        ]
