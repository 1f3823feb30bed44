-- ===== src/Perms/Authorization/Known.antt =====
-- The names of actions in alws/perms/actions.py, alws/perms/roles.py and the first test of
-- `can_perform`.
use albs_web_server.Prelude.{
  String, true, List, map, lookup, lookup_iff_mem-keys, string_eq, ok, err, Error, ◌≡◌, inl, inr,
  Option-cases, Memᴰ, all, contains, contains_iff, mem-of_all, refl,
}
use albs_web_server.Perms.Actions.{actions_list, actions_mask_mapping}
use albs_web_server.Perms.Roles.{Role, roles_list}
use albs_web_server.Perms.Authorization.{User, Entity, can_perform}

abbrev pub action_names : List String
action_names = map (λ a. a.name) actions_list

-- A superuser may perform every action of `ActionsList` on any object, whatever its roles and
-- permissions; with any other name the check raises `ValueError`, for every user.
pub can_perform-names :
    (obj : Entity) (user : User) (action : String)
    → ((user.is_superuser ≡ true)
        → Memᴰ action action_names
        → can_perform obj user action ≡ ok true)
      × (¬ Memᴰ action action_names → can_perform obj user action ≡ err Error.value_error)
unfolding can_perform
can_perform-names obj user action = (
  λ super listed.
      let (mask, known) = (lookup_iff_mem-keys action actions_mask_mapping).1 listed in
      rw (known, can_perform) (rw super),
  λ unlisted. elim (Option-cases (lookup action actions_mask_mapping)) [
    | inl unknown ↦ rw (unknown, can_perform)
    | inr (mask, known) ↦
        absurd (unlisted ((lookup_iff_mem-keys action actions_mask_mapping).0 (mask, known)))
  ],
)

-- Every action of every default role is an action of `ActionsList`, so that a role never holds a
-- name which the check refuses.
pub roles-known :
    (role : Role) (action : String)
    → Memᴰ role roles_list
    → Memᴰ action role.actions
    → Memᴰ action action_names
roles-known role action r a = (contains_iff action_names action).0 (
    mem-of_all (contains action_names)
      (mem-of_all (λ (ρ : Role). all (contains action_names) ρ.actions) {xs = roles_list} refl r) a)
