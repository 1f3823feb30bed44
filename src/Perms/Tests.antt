-- ===== src/Perms/Tests.antt =====
-- A build of a team, its members and an outsider, and what the check says of them.
use Prim.Native.Nat.{bit_and}
use albs_web_server.Prelude.{
  ◌+◌, ◌*◌, true, false, [], ◌∷◌, some, lookup, nat_eq, ok, err, Error, ◌≡◌, ◌≢◌, refl, ◌↔◌, Memᴰ,
  arith,
}
use albs_web_server.Perms.Roles.{contributor, manager}
use albs_web_server.Perms.Triad.{
  ℤ, PermissionTriad, permissions_triad, permissions_triad-digits, permissions_triad-Reads, Reads,
}
use albs_web_server.Perms.Authorization.{
  UserRole, User, Attr, Entity, object_roles, has_role, groups_intersection, is_allowed,
  is_performable, owner_id_of, can_perform_checked, can_perform,
}
use albs_web_server.Perms.Authorization.Grants.{
  Granting, Checks, can_perform_iff, can_perform-outsider,
}
use albs_web_server.Perms.Authorization.Membership.{can_perform-SameUser}

abbrev team_manager : UserRole
team_manager = record { id = 1; name = "team_manager"; actions = manager.actions }

abbrev team_contributor : UserRole
team_contributor = record { id = 2; name = "team_contributor"; actions = contributor.actions }

abbrev build : Entity
build = record {
  roles = Attr.missing;
  team_roles = Attr.present (team_manager ∷ team_contributor ∷ []);
  permissions = ℤ.pos 764;
  owner_id = some 7;
}

abbrev triad : PermissionTriad
triad = record { owner = 7; group = 6; other = 4 }

abbrev owner : User
owner = record { id = 7; is_superuser = false; roles = team_contributor ∷ team_manager ∷ [] }

abbrev outsider : User
outsider = record { id = 9; is_superuser = false; roles = [] }

program : Unit {0}
unfolding can_perform can_perform_checked lookup object_roles has_role groups_intersection
    is_allowed is_performable owner_id_of permissions_triad
program = tt

manager_may_delete : can_perform build owner "delete_build" ≡ ok true
unfolding program
manager_may_delete = refl

unknown_action : can_perform build owner "fly" ≡ err Error.value_error
unfolding program
unknown_action = refl

abbrev checks : (user : User) → user.is_superuser ≡ false → Checks build user "delete_build"
checks user ordinary = record {
  mask = 1;
  known = unfold lookup in refl;
  ordinary = ordinary;
  obj_roles = team_manager ∷ team_contributor ∷ [];
  has_roles = unfold object_roles in refl;
  triad = triad;
  has_triad = unfold permissions_triad in refl;
  owner = 7;
  has_owner = refl;
}

can_perform_iff_example :
    (can_perform build owner "delete_build" ≡ ok true)
    ↔ (Granting owner (team_manager ∷ team_contributor ∷ []) "delete_build" × (bit_and 7 1 ≢ 0))
can_perform_iff_example = can_perform_iff build owner "delete_build" (checks owner refl)

can_perform-outsider_example : can_perform build outsider "delete_build" ≡ ok false
can_perform-outsider_example =
    can_perform-outsider build outsider "delete_build" (checks outsider refl) (λ r m. elim m [ ])

abbrev owner_again : User
owner_again = record { id = 7; is_superuser = false; roles = team_manager ∷ team_contributor ∷ [] }

swap : {r a b : UserRole} → Memᴰ r (a ∷ b ∷ []) → Memᴰ r (b ∷ a ∷ [])
swap (Memᴰ.head e) = Memᴰ.tail (Memᴰ.head e)
swap (Memᴰ.tail (Memᴰ.head e)) = Memᴰ.head e
swap (Memᴰ.tail (Memᴰ.tail m)) = elim m [ ]

can_perform-SameUser_example :
    can_perform build owner "read_build" ≡ can_perform build owner_again "read_build"
can_perform-SameUser_example =
    can_perform-SameUser owner owner_again
      (record { id = refl; flag = refl; roles = λ r. (swap, swap) }) build "read_build"

permissions_triad-digits_example : permissions_triad (ℤ.pos (100 * 7 + 10 * 6 + 4)) ≡ ok triad
permissions_triad-digits_example =
    permissions_triad-digits 7 6 4 (omega arith) (omega arith) (omega arith) (omega arith)

permissions_triad-Reads_example : Reads (ℤ.pos 764) triad
permissions_triad-Reads_example =
    permissions_triad-Reads (ℤ.pos 764) triad (unfold permissions_triad in refl)
