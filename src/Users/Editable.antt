-- ===== src/Users/Editable.antt =====
-- Whose permission it takes to change roles (alws/crud/user.py).
use albs_web_server.Prelude.{
  ℕ, Bool, true, false, not, List, [], ◌∷◌, ◌++◌, Option, some, nat_beq_iff, filter, any, contains,
  ◌==◌, nat_eq, ok, Error, >>=-eq-ok, >>-eq-ok, ok-injective, ◌≡◌, ◌≢◌, refl, sym, ap, ◌∙◌, ◌⊎◌,
  inl, inr, Memᴰ, mem_cons-cases, mem-filter_of_mem, any-of_mem, contains_iff, Bool-cases,
}
use albs_web_server.Perms.Authorization.{UserRole, User}
use albs_web_server.Teams.Members.{Team, TeamDb, find_user, owner_of}
use albs_web_server.Users.Roles.{
  teams_of_roles, can_assign, can_edit_teams, can_edit_teams_roles, edit_roles, add_roles,
  remove_roles,
}

not_owner :
    (team : Team) (owner user_id : ℕ)
    → owner_of team ≡ ok owner
    → (owner == user_id) ≡ false
    → team.owner_id ≢ some user_id
unfolding owner_of
not_owner team owner user_id owned other same =
    let is_user : user_id ≡ owner = ok-injective (rw same at owned) in
    cc (other, (nat_beq_iff owner user_id).1 (sym is_user))

can_edit_teams-all :
    (user : Option User) (target_user_id : ℕ) (teams : List Team) (team : Team)
    → can_edit_teams user target_user_id teams ≡ ok true
    → Memᴰ team teams
    → (can_assign user team ≡ ok true) × (team.owner_id ≢ some target_user_id)
unfolding can_edit_teams
can_edit_teams-all user target_user_id [] team e m = elim m [ ]
can_edit_teams-all user target_user_id (t ∷ ts) team e m =
    let (allowed, assigned, rest) = >>=-eq-ok (can_assign user t) _ e in
    elim (Bool-cases allowed) [
      | inr refused ↦ cc (ok-injective (rw refused at rest))
      | inl granted ↦
          let (owner, owned, rest') = >>=-eq-ok (owner_of t) _ (rw granted at rest) in
          let (other, later) =
            >>-eq-ok (owner == target_user_id) Error.permission_denied
              (can_edit_teams user target_user_id ts) rest' in
          elim (mem_cons-cases m) [
            | inl here ↦ rw here (
              assigned ∙ ap ok granted,
              λ same. not_owner t owner target_user_id owned other same,
            )
            | inr there ↦ can_edit_teams-all user target_user_id ts team later there
          ]
    ]

edit_roles-all :
    (change : List UserRole → List UserRole) (db : TeamDb) (user_id : ℕ) (roles_ids : List ℕ)
    (current_user_id : ℕ) {db' : TeamDb} (team : Team) (role : UserRole)
    → edit_roles change db user_id roles_ids current_user_id ≡ ok db'
    → Memᴰ team db.teams
    → Memᴰ role team.roles
    → Memᴰ role.id roles_ids
    → (can_assign (find_user db current_user_id) team ≡ ok true) × (team.owner_id ≢ some user_id)
unfolding edit_roles can_edit_teams_roles teams_of_roles
edit_roles-all change db user_id roles_ids current_user_id team role e m among asked =
    let (allowed, edited, rest) =
      >>=-eq-ok (can_edit_teams_roles db roles_ids current_user_id user_id) _ e in
    let (granted, _) = >>-eq-ok (not allowed) Error.permission_denied _ rest in
    let has_one =
      any-of_mem (λ (r : UserRole). contains roles_ids r.id) among
        ((contains_iff roles_ids role.id).1 asked) in
    can_edit_teams-all (find_user db current_user_id) user_id (teams_of_roles roles_ids db.teams)
      team (edited ∙ ap ok (not-false' allowed granted))
      (mem-filter_of_mem (λ t. any (λ r. contains roles_ids r.id) t.roles) m has_one)
  where
    not-false' : (b : Bool) → not b ≡ false → b ≡ true
    not-false' true h = refl
    not-false' false h = cc

-- If roles are given to a user or taken away, then the user who does it has the permission to assign
-- roles in every team that has one of these roles, and the user whose roles are changed owns none of
-- these teams.
pub edit_roles-permitted :
    (user_roles : List UserRole) (db : TeamDb) (user_id : ℕ) (roles_ids : List ℕ)
    (current_user_id : ℕ) {db' : TeamDb} (team : Team) (role : UserRole)
    → (add_roles user_roles db user_id roles_ids current_user_id ≡ ok db')
      ⊎ (remove_roles db user_id roles_ids current_user_id ≡ ok db')
    → Memᴰ team db.teams
    → Memᴰ role team.roles
    → Memᴰ role.id roles_ids
    → (can_assign (find_user db current_user_id) team ≡ ok true) × (team.owner_id ≢ some user_id)
unfolding add_roles remove_roles
edit_roles-permitted user_roles db user_id roles_ids current_user_id team role e m among asked =
    elim e [
      | inl added ↦
          let (changed, edited, _) =
            >>=-eq-ok
              (edit_roles (λ roles. roles ++ filter (λ r. contains roles_ids r.id) user_roles) db
                user_id roles_ids current_user_id)
              _ added in
          edit_roles-all _ db user_id roles_ids current_user_id team role edited m among asked
      | inr removed ↦
          edit_roles-all _ db user_id roles_ids current_user_id team role removed m among asked
    ]
