-- ===== src/Perms/Authorization/Membership.antt =====
-- `can_perform` (alws/perms/authorization.py) works on sets of roles, which the model keeps as lists.
use albs_web_server.Prelude.{
  ℕ, String, not, List, lookup, string_eq, nat_eq, is_empty, any-same_members, is_empty-filter,
  >>=-congr, ◌≡◌, ap, sym, ◌∙◌, ◌↔◌, inl, inr, Option-cases, Memᴰ, bool_ext,
}
use albs_web_server.Perms.Actions.{actions_mask_mapping}
use albs_web_server.Perms.Authorization.{
  UserRole, User, Entity, object_roles, has_role, groups_intersection, is_allowed,
  can_perform_checked, can_perform,
}
use albs_web_server.Perms.Authorization.Grants.{Granting, is_allowed-iff_Granting}

-- Two users with the same identifier and flag, and the same roles as sets.
pub record SameUser (u v : User) : Type 0 where
  pub id : u.id ≡ v.id
  pub flag : u.is_superuser ≡ v.is_superuser
  pub roles : (r : UserRole) → Memᴰ r u.roles ↔ Memᴰ r v.roles

module _ (u v : User) (same : SameUser u v) where
  groups-same :
      (obj_roles : List UserRole)
      → is_empty (groups_intersection u obj_roles) ≡ is_empty (groups_intersection v obj_roles)
  unfolding groups_intersection
  groups-same obj_roles =
      is_empty-filter (has_role obj_roles) u.roles
      ∙ ap not (any-same_members (has_role obj_roles) u.roles v.roles same.roles)
      ∙ sym (is_empty-filter (has_role obj_roles) v.roles)

  moved :
      (a b : User) (obj_roles : List UserRole) (action : String)
      → ((r : UserRole) → Memᴰ r a.roles → Memᴰ r b.roles)
      → Granting a obj_roles action
      → Granting b obj_roles action
  moved a b obj_roles action f g = record {
    role = g.role;
    of_user = f g.role g.of_user;
    of_object = g.of_object;
    with_action = g.with_action;
  }

  allowed-same :
      (obj_roles : List UserRole) (action : String)
      → is_allowed action (groups_intersection u obj_roles)
        ≡ is_allowed action (groups_intersection v obj_roles)
  allowed-same obj_roles action = bool_ext _ _ (
    λ h. (is_allowed-iff_Granting v obj_roles action).1 (
        moved u v obj_roles action (λ r. (same.roles r).0)
          ((is_allowed-iff_Granting u obj_roles action).0 h)),
    λ h. (is_allowed-iff_Granting u obj_roles action).1 (
        moved v u obj_roles action (λ r. (same.roles r).1)
          ((is_allowed-iff_Granting v obj_roles action).0 h)),
  )

  checked-same :
      (obj : Entity) (action : String) (mask : ℕ)
      → can_perform_checked obj u action mask ≡ can_perform_checked obj v action mask
  unfolding can_perform_checked
  checked-same obj action mask =
      >>=-congr (object_roles obj)
        (λ roles. rw (groups-same roles, allowed-same roles action, same.id))

  -- The order of a user's roles and repetitions among them do not change the result, errors
  -- included.
  pub can_perform-SameUser :
      (obj : Entity) (action : String) → can_perform obj u action ≡ can_perform obj v action
  unfolding can_perform
  can_perform-SameUser obj action = elim (Option-cases (lookup action actions_mask_mapping)) [
    | inl unknown ↦ rw (unknown, can_perform)
    | inr (mask, known) ↦ rw (known, can_perform) (rw (checked-same obj action mask, same.flag))
  ]
