-- ===== src/Perms/Actions.antt =====
-- alws/perms/actions.py: the actions, and the permission bit that each of them needs.
use albs_web_server.Prelude.{ℕ, String, List, [], ◌∷◌}

pub record Action : Type 0 where
  pub name : String
  pub description : String

-- The members of the flag enumeration `Permissions` (alws/constants.py).
abbrev pub delete : ℕ
delete = 1

abbrev pub write : ℕ
write = 2

abbrev pub read : ℕ
read = 4

abbrev pub create_build : Action
create_build = record { name = "create_build"; description = "Ability to create a build" }

abbrev pub read_build : Action
read_build = record { name = "read_build"; description = "Ability to read a build information" }

abbrev pub sign_build : Action
sign_build = record { name = "sign_build"; description = "Ability to sign a build" }

abbrev pub gen_key : Action
gen_key = record { name = "gen_key"; description = "Ability to generate a community sign key" }

abbrev pub release_build : Action
release_build = record { name = "release_build"; description = "Ability to release a build" }

abbrev pub delete_build : Action
delete_build = record { name = "delete_build"; description = "Ability to delete a build" }

abbrev pub create_team : Action
create_team = record { name = "create_team"; description = "Ability to create a team" }

abbrev pub read_team : Action
read_team = record { name = "read_team"; description = "Ability to create a team" }

abbrev pub update_team : Action
update_team = record { name = "update_team"; description = "Ability to update a team information" }

abbrev pub assign_team_role : Action
assign_team_role = record {
  name = "assign_team_role";
  description = "Ability to assign a team role for a user";
}

abbrev pub invite_to_team : Action
invite_to_team = record {
  name = "invite_into_team";
  description = "Ability to invite a user into a team";
}

abbrev pub remove_from_team : Action
remove_from_team = record {
  name = "remove_from_team";
  description = "Ability to remove a user from a team";
}

abbrev pub leave_team : Action
leave_team = record { name = "leave_team"; description = "Ability for user to leave a team" }

abbrev pub delete_team : Action
delete_team = record { name = "delete_team"; description = "Ability to delete a team" }

abbrev pub create_product : Action
create_product = record { name = "create_product"; description = "Ability to create a product" }

abbrev pub read_product : Action
read_product = record {
  name = "read_product";
  description = "Ability to read a product information";
}

abbrev pub update_product : Action
update_product = record { name = "update_product"; description = "Ability to update product" }

abbrev pub delete_product : Action
delete_product = record { name = "delete_product"; description = "Ability to delete a product" }

abbrev pub release_to_product : Action
release_to_product = record {
  name = "release_to_product";
  description = "Ability to release to a product";
}

abbrev pub create_platform : Action
create_platform = record { name = "create_platform"; description = "Ability to create a platform" }

abbrev pub read_platform : Action
read_platform = record {
  name = "read_platform";
  description = "Ability to read a platform information";
}

abbrev pub update_platform : Action
update_platform = record { name = "update_platform"; description = "Ability to update platform" }

abbrev pub delete_platform : Action
delete_platform = record { name = "delete_platform"; description = "Ability to delete a platform" }

abbrev pub read_sign_key_info : Action
read_sign_key_info = record {
  name = "read_sign_key_info";
  description = "Ability to read sign key information";
}

abbrev pub use_sign_key : Action
use_sign_key = record { name = "use_sign_key"; description = "Ability to use sign key" }

abbrev pub delete_release : Action
delete_release = record { name = "delete_release"; description = "Ability to delete a release" }

abbrev pub update_test : Action
update_test = record { name = "update_test"; description = "Ability to update a test" }

abbrev pub delete_test : Action
delete_test = record { name = "delete_test"; description = "Ability to delete a test" }

abbrev pub actions_list : List Action
actions_list =
    read_build ∷ create_build ∷ sign_build ∷ gen_key ∷ release_build ∷ delete_build ∷ read_team
    ∷ create_team ∷ update_team ∷ delete_team ∷ assign_team_role ∷ invite_to_team ∷ remove_from_team
    ∷ leave_team ∷ create_product ∷ read_product ∷ update_product ∷ delete_product
    ∷ release_to_product ∷ create_platform ∷ read_platform ∷ update_platform ∷ delete_platform
    ∷ read_sign_key_info ∷ use_sign_key ∷ delete_release ∷ update_test ∷ delete_test ∷ []

abbrev pub actions_mask_mapping : List (String × ℕ)
actions_mask_mapping =
    (read_build.name, read)
    ∷ (create_build.name, write)
    ∷ (sign_build.name, write)
    ∷ (gen_key.name, write)
    ∷ (release_build.name, write)
    ∷ (delete_build.name, delete)
    ∷ (read_team.name, read)
    ∷ (create_team.name, write)
    ∷ (update_team.name, write)
    ∷ (delete_team.name, delete)
    ∷ (assign_team_role.name, write)
    ∷ (invite_to_team.name, write)
    ∷ (remove_from_team.name, write)
    ∷ (leave_team.name, write)
    ∷ (create_product.name, write)
    ∷ (read_product.name, read)
    ∷ (update_product.name, write)
    ∷ (delete_product.name, delete)
    ∷ (release_to_product.name, write)
    ∷ (create_platform.name, write)
    ∷ (read_platform.name, read)
    ∷ (update_platform.name, write)
    ∷ (delete_platform.name, delete)
    ∷ (read_sign_key_info.name, read)
    ∷ (use_sign_key.name, write)
    ∷ (delete_release.name, delete)
    ∷ (update_test.name, write)
    ∷ (delete_test.name, delete)
    ∷ []
