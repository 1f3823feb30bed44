-- ===== src/Perms/Roles.antt =====
-- alws/perms/roles.py: the roles that every team has, with the names of their actions.
use albs_web_server.Prelude.{String, List, [], ◌∷◌}
use albs_web_server.Perms.Actions.{
  assign_team_role, create_build, create_platform, create_product, create_team, delete_build,
  delete_platform, delete_product, delete_release, delete_team, delete_test, gen_key,
  invite_to_team, leave_team, read_build, read_platform, read_product, read_sign_key_info,
  read_team, release_build, release_to_product, remove_from_team, sign_build, update_platform,
  update_product, update_team, update_test, use_sign_key,
}

pub record Role : Type 0 where
  pub name : String
  pub actions : List String

abbrev pub manager : Role
manager = record {
  name = "manager";
  actions =
      read_team.name ∷ read_build.name ∷ gen_key.name ∷ assign_team_role.name
      ∷ remove_from_team.name ∷ invite_to_team.name ∷ leave_team.name ∷ update_team.name
      ∷ create_team.name ∷ delete_team.name ∷ create_build.name ∷ delete_build.name
      ∷ create_platform.name ∷ read_platform.name ∷ update_platform.name ∷ delete_platform.name
      ∷ create_product.name ∷ read_product.name ∷ update_product.name ∷ delete_product.name
      ∷ read_sign_key_info.name ∷ update_test.name ∷ delete_test.name ∷ [];
}

abbrev pub contributor : Role
contributor = record {
  name = "contributor";
  actions =
      read_team.name ∷ read_build.name ∷ leave_team.name ∷ create_team.name ∷ create_build.name
      ∷ create_product.name ∷ read_product.name ∷ read_platform.name ∷ update_test.name ∷ [];
}

abbrev pub observer : Role
observer = record {
  name = "observer";
  actions =
      read_team.name ∷ read_build.name ∷ leave_team.name ∷ read_platform.name ∷ read_product.name
      ∷ [];
}

abbrev pub product_maintainer : Role
product_maintainer = record {
  name = "product_maintainer";
  actions =
      read_team.name ∷ gen_key.name ∷ read_build.name ∷ leave_team.name ∷ create_team.name
      ∷ create_build.name ∷ create_product.name ∷ read_product.name ∷ read_platform.name
      ∷ release_build.name ∷ release_to_product.name ∷ read_sign_key_info.name ∷ delete_release.name
      ∷ [];
}

abbrev pub signer : Role
signer = record {
  name = "signer";
  actions =
      read_team.name ∷ read_build.name ∷ leave_team.name ∷ create_team.name ∷ create_build.name
      ∷ create_product.name ∷ read_product.name ∷ read_platform.name ∷ sign_build.name
      ∷ read_sign_key_info.name ∷ use_sign_key.name ∷ [];
}

abbrev pub roles_list : List Role
roles_list = contributor ∷ observer ∷ manager ∷ product_maintainer ∷ signer ∷ []
