-- ===== src/Perms/Authorization/Grants.antt =====
-- What `can_perform` (alws/perms/authorization.py) grants, stated without its loops.
use albs_web_server.Prelude.{
  ℕ, String, Bool, true, false, not, List, [], ◌∷◌, some, lookup, string_eq, ◌==◌, nat_eq,
  if◌then◌else◌, is_empty, filter, contains, contains_iff, ok, ◌≡◌, ◌≢◌, refl, sym, ◌∙◌, ◌↔◌, inl,
  inr, Memᴰ, Bool-cases, arith, mem-filter_of_mem, mem-of_mem_filter, is_empty-of_mem, mem-of_any,
  any-of_mem, any,
}
use Prim.Native.Nat.{bit_and}
use mathlib.Core.Bool.{false≢true}
use albs_web_server.Perms.Actions.{actions_mask_mapping}
use albs_web_server.Perms.Triad.{PermissionTriad, permissions_triad}
use albs_web_server.Perms.Authorization.{
  UserRole, User, Entity, object_roles, has_role, groups_intersection, is_performable, is_allowed,
  owner_id_of, can_perform_checked, can_perform,
}

-- A role of the user's that is also a role of the object's, and that has the action.
pub record Granting (user : User) (obj_roles : List UserRole) (action : String) : Type 0 where
  pub role : UserRole
  pub of_user : Memᴰ role user.roles
  pub of_object : has_role obj_roles role ≡ true
  pub with_action : Memᴰ action role.actions

-- The digit of the triad that counts for a user who shares a role with the object.
abbrev pub member_digit : PermissionTriad → Bool → ℕ
member_digit triad is_owner = if is_owner then triad.owner else triad.group

is_allowed-eq-any :
    (action : String) (groups : List UserRole)
    → is_allowed action groups ≡ any (λ g. contains g.actions action) groups
unfolding is_allowed
is_allowed-eq-any action [] = refl
is_allowed-eq-any action (group ∷ groups) = ground (arith, is_allowed-eq-any action groups)

module _ (user : User) (obj_roles : List UserRole) (action : String) where
  allowed-of_Granting :
      Granting user obj_roles action → is_allowed action (groups_intersection user obj_roles) ≡ true
  unfolding groups_intersection
  allowed-of_Granting g = rw (is_allowed-eq-any action (filter (has_role obj_roles) user.roles)) (
      any-of_mem (λ r. contains r.actions action)
        (mem-filter_of_mem (has_role obj_roles) g.of_user g.of_object)
        ((contains_iff g.role.actions action).1 g.with_action))

  Granting-of_allowed :
      is_allowed action (groups_intersection user obj_roles) ≡ true → Granting user obj_roles action
  unfolding groups_intersection
  Granting-of_allowed h =
      let (r, m, found) =
        mem-of_any (λ r. contains r.actions action) (filter (has_role obj_roles) user.roles)
          (sym (is_allowed-eq-any action (filter (has_role obj_roles) user.roles)) ∙ h) in
      let (mine, theirs) = mem-of_mem_filter (has_role obj_roles) user.roles m in
      record {
        role = r;
        of_user = mine;
        of_object = theirs;
        with_action = (contains_iff r.actions action).0 found;
      }

  pub is_allowed-iff_Granting :
      (is_allowed action (groups_intersection user obj_roles) ≡ true)
      ↔ Granting user obj_roles action
  is_allowed-iff_Granting = (Granting-of_allowed, allowed-of_Granting)

  groups-of_Granting :
      Granting user obj_roles action → is_empty (groups_intersection user obj_roles) ≡ false
  unfolding groups_intersection
  groups-of_Granting g =
      is_empty-of_mem (mem-filter_of_mem (has_role obj_roles) g.of_user g.of_object)

nonzero_test : (n : ℕ) → (not (n == 0) ≡ true) ↔ (n ≢ 0)
nonzero_test n = ground arith

both_tests : (p q : Bool) → ok (if not p then false else q) ≡ ok true → (p ≡ true) × (q ≡ true)
both_tests true true h = (refl, refl)
both_tests true false h = cc
both_tests false q h = cc

if_same : (p : Bool) → ok (if p then false else false) ≡ ok false
if_same true = refl
if_same false = refl

-- The check has come to the permissions: the action is known, the user is no superuser, and the
-- roles, the triad and the owner of the object can be read.
pub record Checks (obj : Entity) (user : User) (action : String) : Type 0 where
  pub mask : ℕ
  pub known : lookup action actions_mask_mapping ≡ some mask
  pub ordinary : user.is_superuser ≡ false
  pub obj_roles : List UserRole
  pub has_roles : object_roles obj ≡ ok obj_roles
  pub triad : PermissionTriad
  pub has_triad : permissions_triad obj.permissions ≡ ok triad
  pub owner : ℕ
  pub has_owner : obj.owner_id ≡ some owner

module _ (obj : Entity) (user : User) (action : String) (c : Checks obj user action) where
  open c use {mask, known, ordinary, obj_roles, has_roles, triad, has_triad, owner, has_owner}

  abbrev groups : List UserRole
  groups = groups_intersection user obj_roles

  can_perform-eq :
      can_perform obj user action
      ≡ ok (
          if not (is_performable triad (owner == user.id) (not (is_empty groups)) mask)
          then false
          else is_allowed action groups)
  unfolding can_perform can_perform_checked owner_id_of
  can_perform-eq =
      rw (known, can_perform)
        (rw ordinary (rw (has_roles, has_triad) (rw (has_owner, owner_id_of))))

  digit_counts :
      Granting user obj_roles action
      → (is_performable triad (owner == user.id) (not (is_empty groups)) mask ≡ true)
        ↔ (bit_and (member_digit triad (owner == user.id)) mask ≢ 0)
  unfolding is_performable
  digit_counts g =
      rw (groups-of_Granting user obj_roles action g) (elim (Bool-cases (owner == user.id)) [
        | inl mine ↦ rw mine (nonzero_test (bit_and triad.owner mask))
        | inr other ↦ rw other (nonzero_test (bit_and triad.group mask))
      ])

  allowed_of_true :
      can_perform obj user action ≡ ok true
      → (is_performable triad (owner == user.id) (not (is_empty groups)) mask ≡ true)
        × (is_allowed action groups ≡ true)
  allowed_of_true h = both_tests _ _ (sym can_perform-eq ∙ h)

  -- A user who is no superuser may perform an action exactly if a role is shared with the object
  -- that has the action, and the digit of the owner (for the owner) or of the group has its bit.
  pub can_perform_iff : (can_perform obj user action ≡ ok true) ↔ (
      Granting user obj_roles action × (bit_and (member_digit triad (owner == user.id)) mask ≢ 0))
  can_perform_iff = (
    λ h.
        let (performable, allowed) = allowed_of_true h in
        let g = Granting-of_allowed user obj_roles action allowed in
        (g, (digit_counts g).0 performable),
    λ (g, bits).
        can_perform-eq ∙ rw ((digit_counts g).1 bits, allowed-of_Granting user obj_roles action g),
  )

  -- Where no role of the user's is shared, the action is refused, whatever the permissions are:
  -- also to the owner, and also where the digit of the others allows it.
  pub can_perform-outsider :
      ((r : UserRole) → Memᴰ r user.roles → has_role obj_roles r ≡ false)
      → can_perform obj user action ≡ ok false
  can_perform-outsider apart = elim (Bool-cases (is_allowed action groups)) [
    | inl yes' ↦
        let g = Granting-of_allowed user obj_roles action yes' in
        absurd (false≢true (sym (apart g.role g.of_user) ∙ g.of_object))
    | inr refused ↦ can_perform-eq ∙ rw refused (if_same _)
  ]
