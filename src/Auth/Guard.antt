-- ===== src/Auth/Guard.antt =====
-- What the guard in front of the handlers lets through.
use na_sso.Prelude.{ℕ, ◌≡◌, refl, Bool, true, Option, none, some, arith, Option-cases, inl, inr}
use na_sso.Models.{ManagedUser}
use na_sso.Permissions.{Permission, has_permission}
use na_sso.Mfa.Rows.{MfaStore, Session, Account}
use na_sso.Mfa.{account_requires_mfa}
use na_sso.Auth.{is_valid, account_of, checked, current_user, admitted, guarded, permission_guard}

-- A session and the stored account that it stands for.
pub record IsSignedIn (accounts : ℕ → Option ManagedUser) (cookie : Option Session) (a : Account)
    : Type 0 where
  pub token : Session
  pub stored : ManagedUser
  pub sent : cookie ≡ some token
  pub found : accounts token.id ≡ some stored
  pub valid : is_valid stored token ≡ true
  pub told : a ≡ account_of stored token

checked-valid :
    (u : ManagedUser) (t : Session) (a : Account)
    → checked (some u) t ≡ some a
    → (is_valid u t ≡ true) × (a ≡ account_of u t)
checked-valid u t a h = ground arith

current_user-IsSignedIn :
    (accounts : ℕ → Option ManagedUser) (cookie : Option Session) (a : Account)
    → current_user accounts cookie ≡ some a
    → IsSignedIn accounts cookie a
unfolding current_user
current_user-IsSignedIn accounts none a h = ground arith
current_user-IsSignedIn accounts (some t) a h = elim (Option-cases (accounts t.id)) [
  | inl gone ↦ ground arith
  | inr (u, e) ↦
      let (v, told) = checked-valid u t a (rw e at h) in
      record { token = t; stored = u; sent = refl; found = e; valid = v; told = told }
]

module _ (required : Bool) (mfa_of : ℕ → MfaStore) where
  guarded-admits :
      (o : Option Account) (p : Permission) (a : Account)
      → guarded required mfa_of o p ≡ admitted a
      → (o ≡ some a)
        × (has_permission a.role p ≡ true)
        × (account_requires_mfa required a.role (mfa_of a.id) ≡ true → a.mfa_verified ≡ true)
  guarded-admits none p a h = ground arith
  guarded-admits (some b) p a h = ground arith

  -- Whoever the guard lets through has sent a session of a stored account that is active, not being
  -- deleted and of the same session version, and has the permission by the account's role; and where a
  -- second factor is required of the account, that session carries the mark that one was verified.
  pub permission_guard-IsSignedIn :
      (accounts : ℕ → Option ManagedUser) (cookie : Option Session) (p : Permission) (a : Account)
      → permission_guard required mfa_of accounts cookie p ≡ admitted a
      → IsSignedIn accounts cookie a
        × (has_permission a.role p ≡ true)
        × (account_requires_mfa required a.role (mfa_of a.id) ≡ true → a.mfa_verified ≡ true)
  unfolding permission_guard
  permission_guard-IsSignedIn accounts cookie p a h =
      let (signed, holds, verified) = guarded-admits (current_user accounts cookie) p a h in
      (current_user-IsSignedIn accounts cookie a signed, holds, verified)
