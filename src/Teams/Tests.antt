-- ===== src/Teams/Tests.antt =====
-- A team of three, one of whom is removed, and what becomes of the roles.
use albs_web_server.Prelude.{
  none, some, ℕ, true, false, [], ◌∷◌, lookup, is_empty, nat_eq, string_eq, String, ◌==◌, ok, err,
  Error, ◌≡◌, ◌≢◌, refl, Memᴰ,
}
use albs_web_server.Perms.Triad.{ℤ, permissions_triad}
use albs_web_server.Perms.Roles.{manager}
use albs_web_server.Perms.Authorization.{
  UserRole, User, object_roles, has_role, groups_intersection, is_allowed, is_performable,
  owner_id_of, can_perform_checked, can_perform,
}
use albs_web_server.Teams.Members.{
  Team, TeamDb, team_entity, find_team, find_user, require_permission, owner_of, remove_role,
  remove_team_roles, remove_member, add_member, drop_member, update_users, replace_user,
  contributor_role, update_members, get_team, remove_team,
}
use albs_web_server.Teams.Kept.{drop_member-keeps, remove_team-gone}
use albs_web_server.Teams.Skipped.{left_roles, without, drop_member-left_roles}

abbrev role : ℕ → String → UserRole
role id name = record { id = id; name = name; actions = manager.actions }

abbrev team : Team
team = record {
  id = 1;
  owner_id = some 7;
  permissions = ℤ.pos 774;
  members = 7 ∷ 8 ∷ 9 ∷ [];
  roles = role 1 "contributor" ∷ role 2 "manager" ∷ role 3 "observer" ∷ [];
  products = [];
}

abbrev owner : User
owner = record { id = 7; is_superuser = false; roles = role 2 "manager" ∷ [] }

-- A member with all roles of the team and one of another team.
abbrev member : User
member = record {
  id = 8;
  is_superuser = false;
  roles = role 1 "contributor" ∷ role 2 "manager" ∷ role 3 "observer" ∷ role 4 "other" ∷ [];
}

abbrev db : TeamDb
db = record { users = owner ∷ member ∷ []; teams = team ∷ [] }

abbrev smaller : Team
smaller = record team { members = 7 ∷ 9 ∷ [] }

abbrev dropped : User
dropped = record member { roles = role 3 "observer" ∷ role 4 "other" ∷ [] }

updating : Unit {0}
unfolding update_members remove_team get_team find_team find_user require_permission owner_of
    team_entity contributor_role update_users drop_member add_member remove_role remove_team_roles
    remove_member replace_user can_perform can_perform_checked lookup object_roles has_role
    groups_intersection is_allowed is_performable owner_id_of permissions_triad
updating = tt

-- The removed member keeps the observer's role, which is a role of the team.
drop_result : drop_member (role 1 "contributor") team member ≡ ok (smaller, dropped)
unfolding updating
drop_result = refl

members_updated :
    update_members (λ text name. text == name) db (8 ∷ []) 1 "remove" 7
    ≡ ok (record { users = owner ∷ dropped ∷ []; teams = smaller ∷ [] })
unfolding updating
members_updated = refl

owner_stays :
    update_members (λ text name. text == name) db (7 ∷ []) 1 "remove" 7 ≡ err Error.team_error
unfolding updating
owner_stays = refl

drop_member-keeps_example : Memᴰ (role 4 "other") dropped.roles
drop_member-keeps_example =
    drop_member-keeps (role 1 "contributor") team member {r = role 4 "other"} drop_result
      (unfold has_role in refl) (unfold has_role in refl)
      (Memᴰ.tail (Memᴰ.tail (Memᴰ.tail (Memᴰ.head refl))))

drop_member-left_roles_example :
    dropped.roles ≡ left_roles team.roles false (without (role 1 "contributor") member.roles)
drop_member-left_roles_example =
    drop_member-left_roles (role 1 "contributor") team member drop_result
      (unfold has_role in (refl, (refl, (refl, (refl, tt)))))

abbrev ownerless : Team
ownerless = record team { owner_id = none }

no_owner : drop_member (role 1 "contributor") ownerless member ≡ err Error.attribute_error
unfolding updating
no_owner = refl

abbrev no_teams : TeamDb
no_teams = record db { teams = [] }

team_removed : remove_team db 1 7 ≡ ok no_teams
unfolding updating
team_removed = refl

remove_team-gone_example :
    ((found : Team) × (get_team db 1 ≡ ok found) × (is_empty found.products ≡ true))
    × (Memᴰ team no_teams.teams → team.id ≢ 1)
remove_team-gone_example = remove_team-gone db 1 7 team team_removed
