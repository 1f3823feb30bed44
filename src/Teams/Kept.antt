-- ===== src/Teams/Kept.antt =====
-- What becomes of the roles of a member who is removed from a team (update_members of
-- alws/crud/teams.py), and when a team is removed.
use mathlib.Core.Bool.{false≢true}
use albs_web_server.Prelude.{
  not_eq_false, ℕ, zero, suc, true, false, not, List, [], ◌∷◌, length, get_elem?, any, is_empty,
  contains, ◌==◌, ==-refl, eq_of_==, nat_eq, ok, >>=-eq-ok, >>-eq-ok, >>-returns, ok-injective, ◌≡◌,
  ◌≢◌, sym, ap, ◌∙◌, Memᴰ, mem_cons-cases, mem_of_eq, mem-of_mem_filter, Bool-cases, Option-cases,
  inl, inr, not-true,
}
use albs_web_server.Perms.Authorization.{UserRole, User, has_role}
use albs_web_server.Teams.Members.{
  Team, TeamDb, get_team, find_user, require_permission, owner_of, remove_role, remove_team_roles,
  drop_member, remove_team,
}

-- A role with another identifier stays when a role is removed.
remove_role-keeps :
    (role : UserRole) (roles : List UserRole) {left : List UserRole} {r : UserRole}
    → remove_role role roles ≡ ok left
    → Memᴰ r roles
    → (r.id == role.id) ≡ false
    → Memᴰ r left
unfolding remove_role
remove_role-keeps role [] h m other = cc
remove_role-keeps role (first ∷ roles) {left} {r} h m other =
    elim (Bool-cases (first.id == role.id)) [
      | inl same ↦
          let rest : roles ≡ left = ok-injective (rw (same, remove_role) at h) in
          elim (mem_cons-cases m) [
            | inl here ↦
                let yes' : (r.id == role.id) ≡ true = rw (ap (λ (s : UserRole). s.id) here) same in
                cc (yes', other)
            | inr there ↦ mem_of_eq (sym rest) there
          ]
      | inr differs ↦
          let (kept, removed, e) =
            >>=-eq-ok (remove_role role roles) _ (rw (differs, remove_role) at h) in
          mem_of_eq (sym (ok-injective e)) (elim (mem_cons-cases m) [
            | inl here ↦ Memᴰ.head here
            | inr there ↦ Memᴰ.tail (remove_role-keeps role roles removed there other)
          ])
    ]

other_role :
    (team_roles : List UserRole) (r role : UserRole)
    → has_role team_roles r ≡ false
    → has_role team_roles role ≡ true
    → (r.id == role.id) ≡ false
unfolding has_role
other_role team_roles r role outside inside = elim (Bool-cases (r.id == role.id)) [
  | inr differs ↦ differs
  | inl same ↦
      let moved =
        ap (λ id. any (λ (t : UserRole). t.id == id) team_roles) (eq_of_== r.id role.id same) in
      cc (moved, outside, inside)
]

remove_team_roles-keeps :
    (fuel index : ℕ) (team_roles roles : List UserRole) {left : List UserRole} {r : UserRole}
    → remove_team_roles fuel index team_roles roles ≡ ok left
    → has_role team_roles r ≡ false
    → Memᴰ r roles
    → Memᴰ r left
unfolding remove_team_roles
remove_team_roles-keeps zero index team_roles roles h outside m = mem_of_eq (sym (ok-injective h)) m
remove_team_roles-keeps (suc fuel) index team_roles roles {left} {r} h outside m =
    elim (Option-cases (get_elem? roles index)) [
      | inl past ↦ mem_of_eq (sym (ok-injective (rw (past, remove_team_roles) at h))) m
      | inr (role, at_index) ↦ elim (Bool-cases (has_role team_roles role)) [
        | inl inside ↦
            let (rest, removed, h1) =
              >>=-eq-ok (remove_role role roles) (remove_team_roles fuel (suc index) team_roles)
                (simp (at_index, inside, remove_team_roles) at h) in
            remove_team_roles-keeps fuel (suc index) team_roles rest h1 outside
              (remove_role-keeps role roles removed m (other_role team_roles r role outside inside))
        | inr not_inside ↦
            remove_team_roles-keeps fuel (suc index) team_roles roles
              (simp (at_index, not_inside, remove_team_roles) at h) outside m
      ]
    ]

-- A member who is removed from a team keeps every role that is not a role of the team, given that
-- the contributor role that is taken away is one.
pub drop_member-keeps :
    (contributor : UserRole) (team : Team) (user : User) {team' : Team} {user' : User}
    {r : UserRole}
    → drop_member contributor team user ≡ ok (team', user')
    → has_role team.roles contributor ≡ true
    → has_role team.roles r ≡ false
    → Memᴰ r user.roles
    → Memᴰ r user'.roles
unfolding drop_member
drop_member-keeps contributor team user {r} h of_team outside m =
    let (_, h1) = >>-eq-ok (not (contains team.members user.id)) _ _ h in
    let (owner, _, h2') = >>=-eq-ok (owner_of team) _ h1 in
    let (_, h2) = >>-eq-ok (owner == user.id) _ _ h2' in
    let (roles, removed, h3) = >>=-eq-ok (remove_role contributor user.roles) _ h2 in
    let (left, pruned, h4) = >>=-eq-ok (remove_team_roles (length roles) 0 team.roles roles) _ h3 in
    mem_of_eq (ap (λ (p : Team × User). p.1.roles) (sym (ok-injective h4))) (
      remove_team_roles-keeps (length roles) 0 team.roles roles pruned outside (
        remove_role-keeps contributor user.roles removed m
          (other_role team.roles r contributor outside of_team)))

-- A team is removed only where it has no products, and then no team with its identifier is left.
pub remove_team-gone :
    (db : TeamDb) (team_id user_id : ℕ) (t : Team) {db' : TeamDb}
    → remove_team db team_id user_id ≡ ok db'
    → ((team : Team) × (get_team db team_id ≡ ok team) × (is_empty team.products ≡ true))
      × (Memᴰ t db'.teams → t.id ≢ team_id)
unfolding remove_team
remove_team-gone db team_id user_id t {db'} h =
    let (team, found, h1) = >>=-eq-ok (get_team db team_id) _ h in
    let h2 = >>-returns (require_permission team (find_user db user_id) "delete_team") _ h1 in
    let (empty, h3) = >>-eq-ok (not (is_empty team.products)) _ _ h2 in
    let gone = λ (m : Memᴰ t db'.teams) (same : t.id ≡ team_id).
      let kept = mem_of_eq (ap (λ (d : TeamDb). d.teams) (ok-injective h3)) m in
      let (_, differs) = mem-of_mem_filter (λ (s : Team). not (s.id == team_id)) db.teams kept in
      let yes' : (t.id == team_id) ≡ true = rw same (==-refl team_id) in
      absurd (false≢true (sym (not-true _ differs) ∙ yes')) in
    ((team, found, not_eq_false empty), gone)
