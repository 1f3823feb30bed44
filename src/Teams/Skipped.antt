-- ===== src/Teams/Skipped.antt =====
-- Which roles of a team a removed member keeps, since the loop of update_members
-- (alws/crud/teams.py) removes from the list that it goes over.
use albs_web_server.Prelude.{
  ℕ, zero, suc, ◌≤◌, Bool, true, false, not, List, [], ◌∷◌, ◌++◌, append_assoc, length,
  length-append, head?, get_elem?, any, filter, contains, none, ◌==◌, ==-refl, eq_of_==, nat_eq, ok,
  ◌||◌, >>=-eq-ok, >>-eq-ok, ok-injective, ◌≡◌, refl, sym, ap, ◌∙◌, Bool-cases, inl, inr, arith,
}
use albs_web_server.Perms.Authorization.{UserRole, User, has_role}
use albs_web_server.Teams.Members.{Team, owner_of, remove_role, remove_team_roles, drop_member}

-- The roles that stay, from left to right: behind a role that goes, the next one stays unseen.
unfoldable pub left_roles : List UserRole → Bool → List UserRole → List UserRole
left_roles team_roles unseen [] = []
left_roles team_roles true (role ∷ roles) = role ∷ left_roles team_roles false roles
left_roles team_roles false (role ∷ roles) = elim (has_role team_roles role) [
  | true ↦ left_roles team_roles true roles
  | false ↦ role ∷ left_roles team_roles false roles
]

-- The roles but the given one.
abbrev pub without : UserRole → List UserRole → List UserRole
without role roles = filter (λ r. not (r.id == role.id)) roles

-- Every role is there once.
abbrev pub HasDistinctRoles : List UserRole → Type 0
HasDistinctRoles [] = Unit
HasDistinctRoles (role ∷ roles) = (has_role roles role ≡ false) × HasDistinctRoles roles

get_elem?-append :
    (before roles : List UserRole) → get_elem? (before ++ roles) (length before) ≡ head? roles
get_elem?-append [] [] = refl
get_elem?-append [] (role ∷ roles) = refl
get_elem?-append (b ∷ before) roles = get_elem?-append before roles

get_elem?-past : (before : List UserRole) → get_elem? (before ++ []) (suc (length before)) ≡ none
get_elem?-past [] = refl
get_elem?-past (b ∷ before) = get_elem?-past before

length-snoc :
    (before : List UserRole) (role : UserRole) → length (before ++ role ∷ []) ≡ suc (length before)
length-snoc before role = omega (arith, length-append before (role ∷ []))

or_parts : (p q : Bool) → (p || q) ≡ false → (p ≡ false) × (q ≡ false)
or_parts p q h = ground arith

has_role-middle :
    (before roles : List UserRole) (role r : UserRole)
    → has_role (before ++ role ∷ roles) r ≡ false
    → ((role.id == r.id) ≡ false) × (has_role (before ++ roles) r ≡ false)
unfolding has_role
has_role-middle [] roles role r h = or_parts _ _ h
has_role-middle (b ∷ before) roles role r h =
    let (first, rest) = or_parts (b.id == r.id) _ h in
    let (here, others) = has_role-middle before roles role r rest in
    (here, rw (first, has_role) others)

-- Of distinct roles, the first one with the identifier is the role itself.
remove_role-middle :
    (before roles : List UserRole) (role : UserRole)
    → HasDistinctRoles (before ++ role ∷ roles)
    → remove_role role (before ++ role ∷ roles) ≡ ok (before ++ roles)
unfolding remove_role
remove_role-middle [] roles role distinct = rw (==-refl role.id)
remove_role-middle (b ∷ before) roles role distinct =
    let (differs, _) = has_role-middle before roles role b distinct.0 in
    let other : (b.id == role.id) ≡ false = ground (arith, differs) in
    let rest = remove_role-middle before roles role distinct.1 in rw other (rw rest)

HasDistinctRoles-middle :
    (before roles : List UserRole) (role : UserRole)
    → HasDistinctRoles (before ++ role ∷ roles)
    → HasDistinctRoles (before ++ roles)
HasDistinctRoles-middle [] roles role distinct = distinct.1
HasDistinctRoles-middle (b ∷ before) roles role distinct = (
  (has_role-middle before roles role b distinct.0).1,
  HasDistinctRoles-middle before roles role distinct.1,
)

module _ (team_roles : List UserRole) where
  -- The loop at the end of the list.
  remove_team_roles-end :
      (fuel : ℕ) (before : List UserRole)
      → remove_team_roles fuel (length before) team_roles (before ++ []) ≡ ok (before ++ [])
  unfolding remove_team_roles
  remove_team_roles-end zero before = refl
  remove_team_roles-end (suc fuel) before = rw (get_elem?-append before [], remove_team_roles)

  step-outside :
      (fuel : ℕ) (before roles : List UserRole) (role : UserRole)
      → has_role team_roles role ≡ false
      → remove_team_roles (suc fuel) (length before) team_roles (before ++ role ∷ roles)
        ≡ remove_team_roles fuel (suc (length before)) team_roles (before ++ role ∷ roles)
  unfolding remove_team_roles
  step-outside fuel before roles role outside =
      rw (get_elem?-append before (role ∷ roles), remove_team_roles) (rw outside)

  step-inside :
      (fuel : ℕ) (before roles : List UserRole) (role : UserRole)
      → HasDistinctRoles (before ++ role ∷ roles)
      → has_role team_roles role ≡ true
      → remove_team_roles (suc fuel) (length before) team_roles (before ++ role ∷ roles)
        ≡ remove_team_roles fuel (suc (length before)) team_roles (before ++ roles)
  unfolding remove_team_roles
  step-inside fuel before roles role distinct inside =
      rw (get_elem?-append before (role ∷ roles), remove_team_roles)
        (rw inside (rw (remove_role-middle before roles role distinct)))

  remove_team_roles-past :
      (fuel : ℕ) (before : List UserRole)
      → remove_team_roles fuel (suc (length before)) team_roles (before ++ []) ≡ ok (before ++ [])
  unfolding remove_team_roles
  remove_team_roles-past zero before = refl
  remove_team_roles-past (suc fuel) before = rw (get_elem?-past before, remove_team_roles)

  -- What the loop does from an index, said of the next one.
  abbrev Leaves : ℕ → List UserRole → List UserRole → Type 0
  Leaves fuel before roles =
      remove_team_roles fuel (length before) team_roles (before ++ roles)
      ≡ ok (before ++ left_roles team_roles false roles)

  at_next :
      (fuel : ℕ) (before roles : List UserRole) (role : UserRole)
      → Leaves fuel (before ++ role ∷ []) roles
      → remove_team_roles fuel (suc (length before)) team_roles (before ++ role ∷ roles)
        ≡ ok (before ++ role ∷ left_roles team_roles false roles)
  at_next fuel before roles role h =
      rw
        (
          length-snoc before role,
          append_assoc before (role ∷ []) roles,
          append_assoc before (role ∷ []) (left_roles team_roles false roles),
        )
        at h

  distinct_next :
      (before roles : List UserRole) (role : UserRole)
      → HasDistinctRoles (before ++ role ∷ roles)
      → HasDistinctRoles ((before ++ role ∷ []) ++ roles)
  distinct_next before roles role distinct = rw (append_assoc before (role ∷ []) roles) distinct

  left_roles-outside :
      (role : UserRole) (roles : List UserRole)
      → has_role team_roles role ≡ false
      → left_roles team_roles false (role ∷ roles) ≡ role ∷ left_roles team_roles false roles
  unfolding left_roles
  left_roles-outside role roles outside = rw (outside, left_roles)

  left_roles-inside :
      (role : UserRole) (roles : List UserRole)
      → has_role team_roles role ≡ true
      → left_roles team_roles false (role ∷ roles) ≡ left_roles team_roles true roles
  unfolding left_roles
  left_roles-inside role roles inside = rw (inside, left_roles)

  -- The loop behind the roles that it has passed.
  remove_team_roles-from :
      (fuel : ℕ) (before roles : List UserRole)
      → HasDistinctRoles (before ++ roles)
      → length roles ≤ fuel
      → Leaves fuel before roles
  unfolding left_roles
  remove_team_roles-from fuel before [] distinct enough = remove_team_roles-end fuel before
  remove_team_roles-from zero before (role ∷ roles) distinct enough = absurd (omega (arith, enough))
  remove_team_roles-from (suc fuel) before (role ∷ []) distinct enough =
      elim (Bool-cases (has_role team_roles role)) [
        | inl inside ↦
            step-inside fuel before [] role distinct inside
            ∙ (remove_team_roles-past fuel before
                ∙ ap (λ l. ok (before ++ l)) (sym (left_roles-inside role [] inside)))
        | inr outside ↦
            step-outside fuel before [] role outside
            ∙ (at_next fuel before [] role (
                  remove_team_roles-from fuel (before ++ role ∷ []) []
                    (distinct_next before [] role distinct) (omega arith))
                ∙ ap (λ l. ok (before ++ l)) (sym (left_roles-outside role [] outside)))
      ]
  remove_team_roles-from (suc fuel) before (role ∷ next ∷ roles) distinct enough =
      elim (Bool-cases (has_role team_roles role)) [
        | inl inside ↦
            step-inside fuel before (next ∷ roles) role distinct inside
            ∙ (at_next fuel before roles next (
                  remove_team_roles-from fuel (before ++ next ∷ []) roles
                    (distinct_next before roles next
                      (HasDistinctRoles-middle before (next ∷ roles) role distinct))
                    (omega (arith, enough)))
                ∙ ap (λ l. ok (before ++ l)) (sym (left_roles-inside role (next ∷ roles) inside)))
        | inr outside ↦
            step-outside fuel before (next ∷ roles) role outside
            ∙ (at_next fuel before (next ∷ roles) role (
                  remove_team_roles-from fuel (before ++ role ∷ []) (next ∷ roles)
                    (distinct_next before (next ∷ roles) role distinct) (omega (arith, enough)))
                ∙ ap (λ l. ok (before ++ l)) (sym (left_roles-outside role (next ∷ roles) outside)))
      ]

without-absent :
    (role : UserRole) (roles : List UserRole)
    → has_role roles role ≡ false
    → without role roles ≡ roles
unfolding has_role
without-absent role [] absent = refl
without-absent role (first ∷ roles) absent =
    let (differs, rest) = or_parts (first.id == role.id) _ absent in
    rw differs (ap (λ l. first ∷ l) (without-absent role roles rest))

has_role-without :
    (role r : UserRole) (roles : List UserRole)
    → has_role roles r ≡ false
    → has_role (without role roles) r ≡ false
unfolding has_role
has_role-without role r [] absent = refl
has_role-without role r (first ∷ roles) absent =
    let (differs, rest) = or_parts (first.id == r.id) _ absent in
    let later = has_role-without role r roles rest in
    elim (Bool-cases (first.id == role.id)) [
      | inl same ↦ rw same later
      | inr other ↦ rw other (rw differs later)
    ]

same_id :
    (role first : UserRole) (roles : List UserRole)
    → (first.id == role.id) ≡ true
    → has_role roles first ≡ false
    → has_role roles role ≡ false
unfolding has_role
same_id role first roles same absent =
    ap (λ id. any (λ (r : UserRole). r.id == id) roles) (sym (eq_of_== first.id role.id same))
    ∙ absent

-- What `remove` leaves of distinct roles.
remove_role-filter :
    (role : UserRole) (roles : List UserRole) {left : List UserRole}
    → HasDistinctRoles roles
    → remove_role role roles ≡ ok left
    → left ≡ without role roles
unfolding remove_role
remove_role-filter role [] distinct e = cc
remove_role-filter role (first ∷ roles) distinct e = elim (Bool-cases (first.id == role.id)) [
  | inl same ↦
      sym (ok-injective (rw (same, remove_role) at e))
      ∙ rw same (sym (without-absent role roles (same_id role first roles same distinct.0)))
  | inr differs ↦
      let (kept, removed, whole) =
        >>=-eq-ok (remove_role role roles) _ (rw (differs, remove_role) at e) in
      sym (ok-injective whole)
      ∙ rw differs (ap (λ l. first ∷ l) (remove_role-filter role roles distinct.1 removed))
]

without-HasDistinctRoles :
    (role : UserRole) (roles : List UserRole)
    → HasDistinctRoles roles
    → HasDistinctRoles (without role roles)
without-HasDistinctRoles role [] distinct = tt
without-HasDistinctRoles role (first ∷ roles) distinct = elim (Bool-cases (first.id == role.id)) [
  | inl same ↦ rw same (without-HasDistinctRoles role roles distinct.1)
  | inr differs ↦
      rw differs (
        has_role-without role first roles distinct.0,
        without-HasDistinctRoles role roles distinct.1,
      )
]

-- A member who is removed from a team is left with these of the roles but the contributor's: going
-- from left to right, a role of the team goes, and then the next role stays, whatever it is.
pub drop_member-left_roles :
    (contributor : UserRole) (team : Team) (user : User) {team' : Team} {user' : User}
    → drop_member contributor team user ≡ ok (team', user')
    → HasDistinctRoles user.roles
    → user'.roles ≡ left_roles team.roles false (without contributor user.roles)
unfolding drop_member
drop_member-left_roles contributor team user e distinct =
    let (_, e1) = >>-eq-ok (not (contains team.members user.id)) _ _ e in
    let (owner, _, e2) = >>=-eq-ok (owner_of team) _ e1 in
    let (_, e3) = >>-eq-ok (owner == user.id) _ _ e2 in
    let (roles, removed, e4) = >>=-eq-ok (remove_role contributor user.roles) _ e3 in
    let (left, pruned, e5) = >>=-eq-ok (remove_team_roles (length roles) 0 team.roles roles) _ e4 in
    let rest = remove_role-filter contributor user.roles distinct removed in
    let distinct_rest : HasDistinctRoles roles =
      rw rest (without-HasDistinctRoles contributor user.roles distinct) in
    ap (λ (p : Team × User). p.1.roles) (sym (ok-injective e5))
    ∙ (ok-injective (
          sym pruned
          ∙ remove_team_roles-from team.roles (length roles) [] roles distinct_rest (omega arith))
        ∙ ap (left_roles team.roles false) rest)
