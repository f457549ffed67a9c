-- ===== src/Permissions.antt =====
-- na_sso/permissions.py: the fixed roles, their permissions, and the pages that these open.
pub mod Roles
mod Examples
use na_sso.Prelude.{String, Bool, List, [], ◌∷◌, any, str_eq, if◌then◌else◌}

pub data Permission : Type 0 where
  manage_users manage_targets view_audit manage_security : Permission

abbrev pub is : Permission → Permission → Bool
is manage_users manage_users = Bool.true
is manage_targets manage_targets = Bool.true
is view_audit view_audit = Bool.true
is manage_security manage_security = Bool.true
is _ _ = Bool.false

-- A role's value and permissions; its label and description are texts for the pages.
pub record RoleDefinition : Type 0 where
  pub value : String
  pub permissions : List Permission

abbrev pub user_role : RoleDefinition
user_role = record { value = "user"; permissions = [] }

abbrev user_operator_role : RoleDefinition
user_operator_role = record { value = "user_operator"; permissions = manage_users ∷ [] }

abbrev target_operator_role : RoleDefinition
target_operator_role = record { value = "target_operator"; permissions = manage_targets ∷ [] }

abbrev auditor_role : RoleDefinition
auditor_role = record { value = "auditor"; permissions = view_audit ∷ [] }

abbrev root_role : RoleDefinition
root_role = record {
  value = "root";
  permissions = manage_users ∷ manage_targets ∷ view_audit ∷ manage_security ∷ [];
}

abbrev pub assignable_roles : List RoleDefinition
assignable_roles = user_role ∷ user_operator_role ∷ target_operator_role ∷ auditor_role ∷ []

unfoldable pub normalise_role : String → String
normalise_role role = if str_eq role "admin" then "user_operator" else role

-- `ROLE_DEFINITIONS.get(key, ROLE_DEFINITIONS["user"])`.
definition_at : String → RoleDefinition
definition_at key =
    if str_eq key "user"
    then user_role
    else if str_eq key "user_operator"
    then user_operator_role
    else if str_eq key "target_operator"
    then target_operator_role
    else if str_eq key "auditor"
    then auditor_role
    else if str_eq key "root"
    then root_role
    else user_role

unfoldable pub role_definition : String → RoleDefinition
unfolding definition_at normalise_role
role_definition role = definition_at (normalise_role role)

unfoldable pub has_permission : String → Permission → Bool
unfolding role_definition
has_permission role permission = any (is permission) (role_definition role).permissions

pub record PermissionContext : Type 0 where
  pub users : Bool
  pub targets : Bool
  pub audit : Bool
  pub roles : Bool

unfoldable pub permission_context : String → PermissionContext
permission_context role = record {
  users = has_permission role manage_users;
  targets = has_permission role manage_targets;
  audit = has_permission role view_audit;
  roles = has_permission role manage_security;
}

unfoldable pub default_home : String → String
default_home role =
    if any (has_permission role) (manage_users ∷ manage_targets ∷ view_audit ∷ [])
    then "/dashboard"
    else "/account"
