-- ===== src/Perms/Authorization.antt =====
-- alws/perms/authorization.py: whether a user may perform an action on an object.
pub mod Grants
pub mod Known
pub mod Membership
use albs_web_server.Prelude.{
  ℕ, String, Bool, true, false, not, ◌&&◌, List, [], ◌∷◌, ◌++◌, map, Option, none, some, lookup,
  nat_eq, string_eq, ◌==◌, nat_beq, if◌then◌else◌, is_empty, filter, any, Result, ok, err, Error,
  ◌>>=◌, ◌>>◌, raise_if,
}
use Prim.Native.Nat.{bit_and}
use albs_web_server.Perms.Actions.{actions_mask_mapping}
use albs_web_server.Perms.Triad.{ℤ, PermissionTriad, permissions_triad}

-- A row of `user_roles` with the names of its actions. The session holds one object for each row,
-- so that Python's comparison of two of them compares the identifiers.
pub record UserRole : Type 0 where
  pub id : ℕ
  pub name : String
  pub actions : List String

pub record User : Type 0 where
  pub id : ℕ
  pub is_superuser : Bool
  pub roles : List UserRole

-- An attribute of the checked object: its class has none, it is `None`, or it has a value.
pub data Attr {ℓ} (A : Type ℓ) : Type ℓ where
  missing null : Attr A
  present : A → Attr A

-- What the check reads of an object: `obj.roles`, `obj.team.roles`, `obj.permissions` and
-- `obj.owner.id`.
pub record Entity : Type 0 where
  pub roles : Attr (List UserRole)
  pub team_roles : Attr (List UserRole)
  pub permissions : ℤ
  pub owner_id : Option ℕ

-- `obj_roles.extend(obj.roles)` and `obj_roles.extend(obj.team.roles)`, where there is such an
-- attribute.
roles_of : Attr (List UserRole) → Result (List UserRole)
roles_of missing = ok []
roles_of null = err Error.type_error
roles_of (present roles) = ok roles

team_roles_of : Attr (List UserRole) → Result (List UserRole)
team_roles_of missing = ok []
team_roles_of null = err Error.attribute_error
team_roles_of (present roles) = ok roles

abbrev is_missing : {A : Type 0} → Attr A → Bool
is_missing missing = true
is_missing null = false
is_missing (present a) = false

unfoldable pub object_roles : Entity → Result (List UserRole)
unfolding roles_of team_roles_of
object_roles obj = do
  raise_if (is_missing obj.roles && is_missing obj.team_roles) Error.value_error
  own ← roles_of obj.roles
  team ← team_roles_of obj.team_roles
  ok (own ++ team)

unfoldable pub has_role : List UserRole → UserRole → Bool
has_role roles role = any (λ r. r.id == role.id) roles

-- `set(user.roles) & set(obj_roles)`, here in the order of the user's roles.
unfoldable pub groups_intersection : User → List UserRole → List UserRole
groups_intersection user obj_roles = filter (has_role obj_roles) user.roles

unfoldable pub is_performable : PermissionTriad → Bool → Bool → ℕ → Bool
is_performable triad is_owner in_group mask =
    if is_owner
    then not (bit_and triad.owner mask == 0)
    else if in_group
    then not (bit_and triad.group mask == 0)
    else not (bit_and triad.other mask == 0)

-- The loop over the groups, which ends at the first that has the action.
unfoldable pub is_allowed : String → List UserRole → Bool
is_allowed action [] = false
is_allowed action (group ∷ groups) =
    let rest = is_allowed action groups in
    if any (λ name. name == action) group.actions then true else rest

-- `obj.owner.id`.
unfoldable pub owner_id_of : Entity → Result ℕ
owner_id_of obj = elim obj.owner_id [ none ↦ err Error.attribute_error | some id ↦ ok id ]

unfoldable pub can_perform_checked : Entity → User → String → ℕ → Result Bool
can_perform_checked obj user action mask = do
  obj_roles ← object_roles obj
  let groups = groups_intersection user obj_roles
  triad ← permissions_triad obj.permissions
  owner_id ← owner_id_of obj
  let performable = is_performable triad (owner_id == user.id) (not (is_empty groups)) mask
  ok (if not performable then false else is_allowed action groups)

unfoldable pub can_perform : Entity → User → String → Result Bool
can_perform obj user action = elim (lookup action actions_mask_mapping) [
  | none ↦ err Error.value_error
  | some mask ↦ if user.is_superuser then ok true else can_perform_checked obj user action mask
]
