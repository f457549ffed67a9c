-- ===== src/Mfa/Logins.antt =====
-- Who gets a session by a one-time or recovery code.
use na_sso.Prelude.{
  ℕ, ◌≡◌, ◌⊎◌, refl, ap, sym, ◌∙◌, true, false, Option, none, some, arith, Option-cases, inl, inr,
}
use na_sso.Outcome.{Outcome, returned, raised}
use na_sso.Models.{ManagedUser}
use na_sso.Lifecycle.Values.{is_delete}
use na_sso.Mfa.Rows.{Text, MfaStore, Session, Reply}
use na_sso.Mfa.{MfaWorld, Method, operator, accept_code}
use na_sso.Mfa.Handlers.{
  Pending, is_active_account, still_pending, pending_account, finish_login, conclude_code,
  code_login, mfa_login_code,
}

-- The cookie is a verified session of a stored operator who is active, not being deleted and of the
-- session version that the pending sign-in carries.
pub record IsLogin (accounts : ℕ → Option ManagedUser) (cookie : Option Pending) (given : Session)
    : Type 0 where
  pub token : Pending
  pub stored : ManagedUser
  pub sent : cookie ≡ some token
  pub found : accounts token.id ≡ some stored
  pub works : operator stored.role ≡ true
  pub lives : is_active_account stored.status ≡ true
  pub stays : is_delete stored.desired_action ≡ false
  pub current : stored.session_version ≡ token.session_version
  pub own : given.id ≡ stored.id
  pub same_version : given.session_version ≡ token.session_version
  pub verified : given.mfa_verified ≡ true

module _ (x : MfaWorld) (accounts : ℕ → Option ManagedUser) where
  -- What the check of the pending sign-in lets through.
  abbrev Passes : ManagedUser → Pending → Type 0
  Passes u t =
      (operator u.role ≡ true)
      × (is_active_account u.status ≡ true)
      × (is_delete u.desired_action ≡ false)
      × (u.session_version ≡ t.session_version)

  still_pending-Passes :
      (t : Pending) (u : ManagedUser)
      → (still_pending t (some u) ≡ none) ⊎ ((still_pending t (some u) ≡ some (u, t)) × Passes u t)
  still_pending-Passes t u = ground arith

  conclude_code-cookie :
      (u : ManagedUser) (t : Pending) (r : Outcome (Option Method) × MfaStore) (reply : Reply)
      (s' : MfaStore) (given : Session)
      → conclude_code x u t r ≡ (returned reply, s')
      → reply.cookie ≡ some given
      → (given.id ≡ u.id)
        × (given.session_version ≡ u.session_version)
        × (given.mfa_verified ≡ true)
  unfolding finish_login
  conclude_code-cookie u t (returned (some m), s) reply s' given e c = ground arith
  conclude_code-cookie u t (returned none, s) reply s' given e c = ground arith
  conclude_code-cookie u t (raised f, s) reply s' given e c = ground arith

  -- A sign-in with a code sets a session only where the pending sign-in names a stored operator who is
  -- active, not being deleted and of the same session version; the session is that account's, of that
  -- version, and counts as verified.
  pub mfa_login_code-IsLogin :
      (cookie : Option Pending) (code : Text) (s s' : MfaStore) (reply : Reply) (given : Session)
      → mfa_login_code x accounts cookie code s ≡ (returned reply, s')
      → reply.cookie ≡ some given
      → IsLogin accounts cookie given
  unfolding mfa_login_code pending_account
  mfa_login_code-IsLogin none code s s' reply given e c = ground arith
  mfa_login_code-IsLogin (some t) code s s' reply given e c = elim (Option-cases (accounts t.id)) [
    | inl gone ↦
        let e' = sym (ap (λ u. code_login x (still_pending t u) code s) gone) ∙ e in ground arith
    | inr (u, found) ↦
        let e' = sym (ap (λ u. code_login x (still_pending t u) code s) found) ∙ e in
        elim (still_pending-Passes t u) [
          | inl out ↦ let e'' = sym (ap (λ p. code_login x p code s) out) ∙ e' in ground arith
          | inr (pass, (works, lives, stays, current)) ↦
              let e'' : conclude_code x u t (accept_code x u.role code s) ≡ (returned reply, s') =
                sym (ap (λ p. code_login x p code s) pass) ∙ e' in
              let (own, version, verified) =
                conclude_code-cookie u t (accept_code x u.role code s) reply s' given e'' c in
              record {
                token = t;
                stored = u;
                sent = refl;
                found = found;
                works = works;
                lives = lives;
                stays = stays;
                current = current;
                own = own;
                same_version = version ∙ current;
                verified = verified;
              }
        ]
  ]
