-- ===== src/Users/Roles.antt =====
-- can_edit_teams_roles, add_roles and remove_roles of alws/crud/user.py, and the flags of a user.
use albs_web_server.Prelude.{
  ℕ, Bool, true, false, not, List, [], ◌∷◌, ◌++◌, map, Option, none, some, filter, any, contains,
  if◌then◌else◌, ◌==◌, nat_eq, Result, ok, err, Error, ◌>>=◌, ◌>>◌, raise_if,
}
use albs_web_server.Perms.Authorization.{UserRole, User, can_perform}
use albs_web_server.Teams.Members.{Team, TeamDb, team_entity, find_user, owner_of}

-- The teams that have one of the roles.
unfoldable pub teams_of_roles : List ℕ → List Team → List Team
teams_of_roles roles_ids teams = filter (λ t. any (λ r. contains roles_ids r.id) t.roles) teams

-- `can_perform` with a user that may be `None`, which raises AttributeError.
unfoldable pub can_assign : Option User → Team → Result Bool
can_assign none team = err Error.attribute_error
can_assign (some user) team = can_perform (team_entity team) user "assign_team_role"

-- The loop over the teams.
unfoldable pub can_edit_teams : Option User → ℕ → List Team → Result Bool
can_edit_teams user target_user_id [] = ok true
can_edit_teams user target_user_id (team ∷ teams) =
    let rest = can_edit_teams user target_user_id teams in
    can_assign user team >>= λ allowed.
    if not allowed
    then ok false
    else owner_of team >>= λ owner.
        raise_if (owner == target_user_id) Error.permission_denied >> rest

unfoldable pub can_edit_teams_roles : TeamDb → List ℕ → ℕ → ℕ → Result Bool
can_edit_teams_roles db roles_ids user_id target_user_id =
    can_edit_teams (find_user db user_id) target_user_id (teams_of_roles roles_ids db.teams)

-- The permission, and then the change of the user's roles.
unfoldable pub edit_roles :
    (List UserRole → List UserRole) → TeamDb → ℕ → List ℕ → ℕ → Result TeamDb
edit_roles change db user_id roles_ids current_user_id = do
  allowed ← can_edit_teams_roles db roles_ids current_user_id user_id
  raise_if (not allowed) Error.permission_denied
  ok (record db {
    users = map (λ u. if u.id == user_id then record u { roles = change u.roles } else u) db.users;
  })

-- `user.roles.extend(...)`, of the rows of `user_roles` with the identifiers. Without the user it
-- raises AttributeError.
unfoldable pub add_roles : List UserRole → TeamDb → ℕ → List ℕ → ℕ → Result TeamDb
add_roles user_roles db user_id roles_ids current_user_id = do
  added ←
      edit_roles (λ roles. roles ++ filter (λ r. contains roles_ids r.id) user_roles) db user_id
        roles_ids current_user_id
  elim (find_user db user_id) [ none ↦ err Error.attribute_error | some user ↦ ok added ]

unfoldable pub remove_roles : TeamDb → ℕ → List ℕ → ℕ → Result TeamDb
remove_roles db user_id roles_ids current_user_id =
    edit_roles (λ roles. filter (λ r. not (contains roles_ids r.id)) roles) db user_id roles_ids
      current_user_id
