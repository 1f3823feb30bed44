-- ===== src/Users/Tests.antt =====
-- A user who gets a role of a team, and one who is removed.
use albs_web_server.Prelude.{
  some, true, false, [], ◌∷◌, lookup, ok, err, Error, ◌||◌, ◌≡◌, ◌≢◌, refl, inl, Memᴰ,
}
use albs_web_server.Perms.Triad.{pos}
use albs_web_server.Perms.Authorization.{UserRole, User, can_perform}
use albs_web_server.Teams.Members.{Team, TeamDb, find_user, owner_of}
use albs_web_server.Users.Roles.{
  teams_of_roles, can_assign, can_edit_teams, can_edit_teams_roles, edit_roles, add_roles,
}
use albs_web_server.Users.Editable.{edit_roles-permitted}
use albs_web_server.Users.Removal.{
  OwnedBuild, BuildDependency, Owned, build_ids_of, dependent_build_ids, user_artifacts,
  check_valuable_artifacts, remove_user,
}
use albs_web_server.Users.Unlinked.{remove_user-unlinked}

abbrev role : UserRole
role = record { id = 5; name = "almalinux_contributor"; actions = [] }

abbrev team : Team
team = record {
  id = 2;
  owner_id = some 1;
  permissions = pos 770;
  members = [];
  roles = role ∷ [];
  products = [];
}

abbrev admin : User
admin = record { id = 1; is_superuser = true; roles = [] }

abbrev newcomer : User
newcomer = record { id = 3; is_superuser = false; roles = [] }

abbrev db : TeamDb
db = record { users = admin ∷ newcomer ∷ []; teams = team ∷ [] }

abbrev after : TeamDb
after = record db { users = admin ∷ record newcomer { roles = role ∷ [] } ∷ [] }

program : Unit {0}
unfolding add_roles edit_roles can_edit_teams_roles can_edit_teams can_assign teams_of_roles
    find_user owner_of can_perform lookup remove_user check_valuable_artifacts user_artifacts
    dependent_build_ids build_ids_of
program = tt

given : add_roles (role ∷ []) db 3 (5 ∷ []) 1 ≡ ok after
unfolding program
given = refl

owner_is_refused : add_roles (role ∷ []) db 1 (5 ∷ []) 1 ≡ err Error.permission_denied
unfolding program
owner_is_refused = refl

edit_roles-permitted_example :
    (can_assign (find_user db 1) team ≡ ok true) × (team.owner_id ≢ some 3)
edit_roles-permitted_example =
    edit_roles-permitted (role ∷ []) db 3 (5 ∷ []) 1 team role (inl given) (Memᴰ.head refl)
      (Memᴰ.head refl) (Memᴰ.head refl)

abbrev owned : Owned
owned = record {
  users = 3 ∷ 4 ∷ [];
  releases = 4 ∷ [];
  builds =
      (record { id = 7; owner_id = 3; released = false; signed = false })
      ∷ (record { id = 8; owner_id = 3; released = false; signed = false })
      ∷ (record { id = 9; owner_id = 4; released = true; signed = true })
      ∷ [];
  build_dependencies = (record { build_id = 8; build_dependency = 7 }) ∷ [];
  platforms = [];
  products = 4 ∷ [];
  repositories = (record { owner_id = 3; production = false }) ∷ [];
  sign_keys = [];
  teams = (record { owner_id = 4; members = 4 ∷ [] }) ∷ [];
}

queued : remove_user 3 owned ≡ ok tt
unfolding program
queued = refl

releaser_stays :
    check_valuable_artifacts 4 owned
    ≡ "build_releases" ∷ "released_builds" ∷ "products" ∷ "teams" ∷ "team_membership" ∷ []
unfolding program
releaser_stays = refl

remove_user-unlinked_example :
    ((b : OwnedBuild) → Memᴰ b owned.builds → b.owner_id ≡ 3 → (b.released || b.signed) ≡ false)
    × ((d : BuildDependency)
        → Memᴰ d owned.build_dependencies
        → Memᴰ d.build_dependency (build_ids_of 3 owned)
        → Memᴰ d.build_id (build_ids_of 3 owned))
remove_user-unlinked_example = remove_user-unlinked 3 owned queued
