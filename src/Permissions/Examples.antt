-- ===== src/Permissions/Examples.antt =====
-- Runs of the role table.
use na_sso.Prelude.{◌≡◌, refl, true, String, ◌↔◌}
use na_sso.Permissions.{manage_users, manage_security, has_permission}
use na_sso.Permissions.Roles.{has_permission-manage_security}

legacy_admin : has_permission "admin" manage_users ≡ true
unfolding has_permission
legacy_admin = refl

has_permission-manage_security_example :
    (has_permission "admin" manage_security ≡ true) ↔ ◌≡◌ {A = String} "admin" "root"
has_permission-manage_security_example = has_permission-manage_security "admin"
