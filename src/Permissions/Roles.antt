-- ===== src/Permissions/Roles.antt =====
-- What each role may do, over every text that a database row can hold.
use na_sso.Prelude.{String, true, ◌≡◌, ◌↔◌, Bool, ◌||◌, any, arith, eq_iff}
use na_sso.Permissions.{
  manage_users, manage_security, is, definition_at, normalise_role, has_permission,
  permission_context,
}

-- `any(permission_context(role).values())`: the account is an operator of the console.
abbrev pub operator : String → Bool
operator role = let c = permission_context role in c.users || c.targets || c.audit || c.roles

security-definition_at :
    (key : String)
    → (any (is manage_security) (definition_at key).permissions ≡ true) ↔ (key ≡ "root")
unfolding definition_at
security-definition_at key = (
  λ h. ground (
    arith,
    eq_iff key "user",
    eq_iff key "user_operator",
    eq_iff key "target_operator",
    eq_iff key "auditor",
    eq_iff key "root",
  ),
  λ e. rw e,
)

normalise_role-root : (role : String) → (normalise_role role ≡ "root") ↔ (role ≡ "root")
unfolding normalise_role
normalise_role-root role =
    (λ h. ground (arith, eq_iff role "admin", eq_iff "user_operator" "root"), λ e. rw e)

-- Role assignment and the other security settings are open to the text "root" and to no other.
pub has_permission-manage_security :
    (role : String) → (has_permission role manage_security ≡ true) ↔ (role ≡ "root")
unfolding has_permission
has_permission-manage_security role = (
  λ h. (normalise_role-root role).0 ((security-definition_at (normalise_role role)).0 h),
  λ e. (security-definition_at (normalise_role role)).1 ((normalise_role-root role).1 e),
)

root_manages_users : (role : String) → role ≡ "root" → has_permission role manage_users ≡ true
unfolding has_permission
root_manages_users role e = rw e
