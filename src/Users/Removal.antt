-- ===== src/Users/Removal.antt =====
-- check_valuable_artifacts and remove_user of alws/crud/user.py. A table that is only counted by its
-- owner is the list of the owners of its rows.
use albs_web_server.Prelude.{
  ℕ, String, Bool, not, List, [], ◌∷◌, map, filter, contains, is_empty, length, nat_beq, ◌==◌,
  nat_eq, ◌&&◌, ◌||◌, Result, ok, Error, ◌>>◌, raise_if,
}

pub record OwnedBuild : Type 0 where
  pub id : ℕ
  pub owner_id : ℕ
  pub released : Bool
  pub signed : Bool

-- A row of `build_dependency`: the build, and the build that it is linked to.
pub record BuildDependency : Type 0 where
  pub build_id : ℕ
  pub build_dependency : ℕ

pub record OwnedRepository : Type 0 where
  pub owner_id : ℕ
  pub production : Bool

-- A team has the identifiers of its members.
pub record OwnedTeam : Type 0 where
  pub owner_id : ℕ
  pub members : List ℕ

pub record Owned : Type 0 where
  pub users : List ℕ
  pub releases : List ℕ
  pub builds : List OwnedBuild
  pub build_dependencies : List BuildDependency
  pub platforms : List ℕ
  pub products : List ℕ
  pub repositories : List OwnedRepository
  pub sign_keys : List ℕ
  pub teams : List OwnedTeam

unfoldable pub build_ids_of : ℕ → Owned → List ℕ
build_ids_of user_id db = map (λ b. b.id) (filter (λ b. b.owner_id == user_id) db.builds)

-- The builds that are linked to a build of the user.
unfoldable pub dependent_build_ids : ℕ → Owned → List ℕ
dependent_build_ids user_id db =
    map (λ d. d.build_id)
      (filter (λ d. contains (build_ids_of user_id db) d.build_dependency) db.build_dependencies)

-- The counts by name, in the order in which they are made.
unfoldable pub user_artifacts : ℕ → Owned → List (String × ℕ)
user_artifacts user_id db =
    let own = λ (owner : ℕ). owner == user_id in
    ("build_releases", length (filter own db.releases))
    ∷ (
      "released_builds",
      length (filter (λ b. b.owner_id == user_id && (b.released || b.signed)) db.builds),
    )
    ∷ (
      "linked_builds",
      length (
          filter (λ b. not (contains (build_ids_of user_id db) b))
            (dependent_build_ids user_id db)),
    )
    ∷ ("platforms", length (filter own db.platforms))
    ∷ ("products", length (filter own db.products))
    ∷ ("repositories", length (filter (λ r. r.owner_id == user_id && r.production) db.repositories))
    ∷ ("sign_keys", length (filter own db.sign_keys))
    ∷ ("teams", length (filter (λ t. t.owner_id == user_id) db.teams))
    ∷ ("team_membership", length (filter (λ t. contains t.members user_id) db.teams))
    ∷ []

-- Those of which there is one at least.
unfoldable pub check_valuable_artifacts : ℕ → Owned → List String
check_valuable_artifacts user_id db =
    map (λ artifact. artifact.0)
      (filter (λ artifact. not (nat_beq artifact.1 0)) (user_artifacts user_id db))

-- Whether the removal of the user is queued.
unfoldable pub remove_user : ℕ → Owned → Result (Unit {0})
remove_user user_id db = do
  raise_if (not (contains db.users user_id)) Error.user_error
  raise_if (not (is_empty (check_valuable_artifacts user_id db))) Error.user_error
  ok tt
