-- ===== src/Teams/Members.antt =====
-- update_members and remove_team of alws/crud/teams.py. The roles of users and teams are objects of
-- the session, which are compared by their identifiers.
use albs_web_server.Prelude.{
  ℕ, zero, suc, String, Bool, true, false, not, List, [], ◌∷◌, ◌++◌, map, Option, none, some,
  is_empty, length, get_elem?, filter, head?, contains, if◌then◌else◌, ◌==◌, nat_eq, string_eq,
  Result, ok, err, Error, ◌>>=◌, ◌>>◌, raise_if,
}
use albs_web_server.Perms.Triad.{ℤ}
use albs_web_server.Perms.Roles.{contributor as default_contributor}
use albs_web_server.Perms.Authorization.{UserRole, User, Attr, Entity, has_role, can_perform}

pub record Team : Type 0 where
  pub id : ℕ
  pub owner_id : Option ℕ
  pub permissions : ℤ
  pub members : List ℕ
  pub roles : List UserRole
  pub products : List ℕ

pub record TeamDb : Type 0 where
  pub users : List User
  pub teams : List Team

-- What can_perform reads of a team.
unfoldable pub team_entity : Team → Entity
team_entity team = record {
  roles = Attr.present team.roles;
  team_roles = Attr.missing;
  permissions = team.permissions;
  owner_id = team.owner_id;
}

unfoldable pub find_team : TeamDb → ℕ → Result Team
find_team db team_id = elim (head? (filter (λ t. t.id == team_id) db.teams)) [
  | none ↦ err Error.team_error
  | some team ↦ ok team
]

unfoldable pub find_user : TeamDb → ℕ → Option User
find_user db user_id = head? (filter (λ u. u.id == user_id) db.users)

-- Permission for an action; `None` for the user raises AttributeError.
unfoldable pub require_permission : Team → Option User → String → Result (Unit {0})
require_permission team none action = err Error.attribute_error
require_permission team (some user) action = do
  allowed ← can_perform (team_entity team) user action
  raise_if (not allowed) Error.permission_denied

-- `team.owner.id`, which raises AttributeError where the team has no owner.
unfoldable pub owner_of : Team → Result ℕ
owner_of team = elim team.owner_id [ none ↦ err Error.attribute_error | some owner ↦ ok owner ]

-- `db_user.roles.remove(role)`: the first occurrence, or ValueError.
unfoldable pub remove_role : UserRole → List UserRole → Result (List UserRole)
remove_role role [] = err Error.value_error
remove_role role (r ∷ roles) =
    let rest = remove_role role roles in
    if r.id == role.id then ok roles else rest >>= λ kept. ok (r ∷ kept)

-- `for user_role in db_user.roles`, which removes from the list that it goes over: the loop reads
-- the list at an index, which grows by one whether or not a role has been removed before it. The
-- fuel is the length of the list.
unfoldable pub remove_team_roles : ℕ → ℕ → List UserRole → List UserRole → Result (List UserRole)
remove_team_roles zero index team_roles roles = ok roles
remove_team_roles (suc fuel) index team_roles roles = elim (get_elem? roles index) [
  | none ↦ ok roles
  | some role ↦ elim (has_role team_roles role) [
    | true ↦ remove_role role roles >>= remove_team_roles fuel (suc index) team_roles
    | false ↦ remove_team_roles fuel (suc index) team_roles roles
  ]
]

-- `db_team.members.remove(user)`, of a member.
unfoldable pub remove_member : ℕ → List ℕ → List ℕ
remove_member user_id [] = []
remove_member user_id (member ∷ members) =
    let rest = remove_member user_id members in if member == user_id then members else member ∷ rest

unfoldable pub add_member : UserRole → Team → User → Result (Team × User)
add_member contributor team user = ok (
  record team { members = team.members ++ user.id ∷ [] },
  record user { roles = user.roles ++ contributor ∷ [] },
)

unfoldable pub drop_member : UserRole → Team → User → Result (Team × User)
drop_member contributor team user = do
  raise_if (not (contains team.members user.id)) Error.team_error
  owner ← owner_of team
  raise_if (owner == user.id) Error.team_error
  roles ← remove_role contributor user.roles
  left ← remove_team_roles (length roles) 0 team.roles roles
  ok (record team { members = remove_member user.id team.members }, record user { roles = left })

-- The loop over the users, with the users as they are afterwards.
unfoldable pub update_users : Bool → UserRole → Team → List User → Result (Team × List User)
update_users add contributor team [] = ok (team, [])
update_users add contributor team (user ∷ users) = do
  one ← (if add then add_member contributor team user else drop_member contributor team user)
  rest ← update_users add contributor one.0 users
  ok (rest.0, one.1 ∷ rest.1)

unfoldable pub replace_user : List User → User → User
replace_user [] user = user
replace_user (changed ∷ users) user =
    let rest = replace_user users user in if changed.id == user.id then changed else rest

-- `next(...)` without a role ends the coroutine by an exception.
unfoldable pub contributor_role : (String → String → Bool) → Team → Result UserRole
contributor_role is_in team =
    elim (head? (filter (λ r. is_in default_contributor.name r.name) team.roles)) [
      | none ↦ err Error.stop_iteration
      | some role ↦ ok role
    ]

-- `is_in` is Python's `in` between texts.
module _ (is_in : String → String → Bool) where
  unfoldable pub update_members : TeamDb → List ℕ → ℕ → String → ℕ → Result TeamDb
  update_members db members_to_update team_id modification user_id = do
    team ← find_team db team_id
    require_permission team (find_user db user_id) "update_team"
    contributor ← contributor_role is_in team
    let members = filter (λ u. contains members_to_update u.id) db.users
    updated ← update_users (modification == "add") contributor team members
    ok (record {
      users = map (replace_user updated.1) db.users;
      teams = map (λ t. if t.id == team_id then updated.0 else t) db.teams;
    })

-- `get_teams(db, team_id=team_id)`, which sorts the members of what it has found, so that a team that
-- does not exist raises AttributeError there.
unfoldable pub get_team : TeamDb → ℕ → Result Team
get_team db team_id = elim (head? (filter (λ t. t.id == team_id) db.teams)) [
  | none ↦ err Error.attribute_error
  | some team ↦ ok team
]

unfoldable pub remove_team : TeamDb → ℕ → ℕ → Result TeamDb
remove_team db team_id user_id = do
  team ← get_team db team_id
  require_permission team (find_user db user_id) "delete_team"
  raise_if (not (is_empty team.products)) Error.team_error
  ok (record db { teams = filter (λ t. not (t.id == team_id)) db.teams })
