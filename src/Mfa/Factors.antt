-- ===== src/Mfa/Factors.antt =====
-- na_sso/mfa.py: the handlers that enrol and revoke factors and renew the recovery codes.
use na_sso.Prelude.{
  ℕ, pos, ◌+◌, ◌*◌, String, Bool, true, not, ◌&&◌, ◌||◌, Option, none, some, is_some, List, [], ◌∷◌,
  ◌++◌, map, length, leb, ◌==◌, if◌then◌else◌, str_append,
}
use na_sso.Outcome.{Outcome, returned, raised, type_error}
use na_sso.Mfa.Totp.{matching_totp_counter}
use na_sso.Mfa.Rows.{
  Text, WebAuthnCredential, MfaStore, Account, Reply, redirect, page, refused, plain, row_or_new,
  totp_secret_of, hashes_of, method_count, account_has_mfa, can_revoke, audited, session,
}
use na_sso.Mfa.{MfaWorld, operator, recovery_hash, with_hashes}

-- The signed contents of the cookie of a set-up, after the check of its signature.
pub record TotpSetup : Type 0 where
  pub id : ℕ
  pub secret : String

-- The passkey of the account with that primary key.
unfoldable pub find_credential : ℕ → List WebAuthnCredential → Option WebAuthnCredential
find_credential id [] = none
find_credential id (c ∷ rest) =
    let later = find_credential id rest in if c.id == id then some c else later

-- The rows without the one of that primary key.
unfoldable pub drop_credential : ℕ → List WebAuthnCredential → List WebAuthnCredential
drop_credential id [] = []
drop_credential id (c ∷ rest) =
    let later = drop_credential id rest in if c.id == id then rest else c ∷ later

-- The account of a caller, or the reply to one that is turned away.
pub data Fresh : Type 0 where
  fresh : Account → Fresh
  stale : Reply → Fresh

module _ (x : MfaWorld) where
  -- `int(time()) - authenticated_at <= minutes * 60`
  unfoldable pub is_fresh : Account → Bool
  is_fresh account = leb x.clock (account.authenticated_at + x.reauthentication_minutes * 60)

  abbrev pub current_operator : Option Account → Fresh
  current_operator none = stale (plain (redirect "/login"))
  current_operator (some account) =
      if not (operator account.role) then stale (plain (refused 403 "Forbidden")) else fresh account

  abbrev pub still_fresh : Fresh → Fresh
  still_fresh (stale reply) = stale reply
  still_fresh (fresh account) =
      if not (is_fresh account) then stale (plain (redirect "/account/mfa")) else fresh account

  unfoldable pub require_fresh : Option Account → Fresh
  require_fresh account = still_fresh (current_operator account)

  -- A handler after `_require_fresh`, with what it answers in place of the reply to a caller that is
  -- turned away.
  abbrev pub after_fresh :
      (Reply → Reply)
      → (Account → MfaStore → Outcome Reply × MfaStore)
      → Fresh
      → MfaStore
      → Outcome Reply × MfaStore
  after_fresh answer handler (stale reply) s = (returned (answer reply), s)
  after_fresh answer handler (fresh account) s = handler account s

  -- A new set of codes where the account had no factor or has no code left.
  abbrev pub with_codes : Bool → MfaStore → List Text × MfaStore
  with_codes first_method s =
      if first_method || (length (hashes_of s.row) == 0)
      then (x.new_codes, with_hashes x (map (recovery_hash x) x.new_codes) s)
      else ([], s)

  abbrev pub enrolled_totp : String → ℕ → MfaStore → MfaStore
  enrolled_totp secret counter s = record s {
    row = some (record (row_or_new s.row) {
      totp_secret = some (x.encrypt_secret secret);
      totp_last_counter = pos counter;
    });
  }

  abbrev pub confirm_with :
      Account → String → Outcome (Option ℕ) → MfaStore → Outcome Reply × MfaStore
  confirm_with account secret (returned (some counter)) s =
      let (codes, s') = with_codes (not (account_has_mfa s)) (enrolled_totp secret counter s) in
      (
        returned record {
          body = page "TOTP enrolled";
          cookie =
              some
                (session x.clock account.id account.session_version true account.authenticated_at);
          codes = codes;
        },
        audited account.username "mfa.totp.enrolled" "" s',
      )
  confirm_with account secret (returned none) s = (returned (plain (redirect "/account/mfa")), s)
  confirm_with account secret (raised type_error) s =
      (returned (plain (redirect "/account/mfa")), s)
  confirm_with account secret (raised fault) s = (raised fault, s)

  abbrev pub confirm_setup : Option TotpSetup → Text → Account → MfaStore → Outcome Reply × MfaStore
  confirm_setup none code account s = (returned (plain (redirect "/account/mfa")), s)
  confirm_setup (some setup) code account s =
      let counter = matching_totp_counter x.hmac_sha1 x.is_digit x.clock setup.secret code in
      if setup.id == account.id
      then confirm_with account setup.secret counter s
      else confirm_with account setup.secret
          (elim counter [ returned c ↦ returned none | raised f ↦ raised f ]) s

  unfoldable pub mfa_totp_confirm :
      Option TotpSetup → Text → Option Account → MfaStore → Outcome Reply × MfaStore
  mfa_totp_confirm setup code account =
      after_fresh (λ reply. reply) (confirm_setup setup code) (require_fresh account)

  abbrev pub add_credential : WebAuthnCredential → MfaStore → MfaStore
  add_credential c s = record s { credentials = s.credentials ++ c ∷ [] }

  -- What the WebAuthn library verified is the row of a new passkey; a registration that fails leaves the rows as they were.
  abbrev pub register : Option WebAuthnCredential → Account → MfaStore → Outcome Reply × MfaStore
  register none account s = (returned (plain (refused 400 "Passkey enrolment failed")), s)
  register (some c) account s =
      let (codes, s') = with_codes (not (account_has_mfa s)) (add_credential c s) in
      (
        returned record {
          body = page "Passkey enrolled";
          cookie =
              some
                (session x.clock account.id account.session_version true account.authenticated_at);
          codes = codes;
        },
        audited account.username "mfa.webauthn.enrolled" (str_append "name=" c.name)
            (with_hashes x (hashes_of s'.row) s'),
      )

  unfoldable pub mfa_registration_verify :
      Option WebAuthnCredential → Option Account → MfaStore → Outcome Reply × MfaStore
  mfa_registration_verify verified account =
      after_fresh (λ reply. plain (refused 401 "Reauthentication required")) (register verified)
        (require_fresh account)

  -- The recovery codes go with the last factor.
  abbrev pub drop_codes : MfaStore → MfaStore
  drop_codes s = if method_count s == 0 && is_some s.row then with_hashes x [] s else s

  abbrev pub without_totp : MfaStore → MfaStore
  without_totp s = record s { row = some (record (row_or_new s.row) { totp_secret = none }) }

  abbrev pub revoke_totp : Account → MfaStore → Outcome Reply × MfaStore
  revoke_totp account s =
      if not (is_some (totp_secret_of s.row)) || not (can_revoke x.required s)
      then (returned (plain (redirect "/account/mfa")), s)
      else (
        returned (plain (redirect "/account/mfa")),
        audited account.username "mfa.totp.revoked" "" (drop_codes (without_totp s)),
      )

  unfoldable pub mfa_totp_revoke : Option Account → MfaStore → Outcome Reply × MfaStore
  mfa_totp_revoke account = after_fresh (λ reply. reply) revoke_totp (require_fresh account)

  abbrev pub without_credential : ℕ → MfaStore → MfaStore
  without_credential id s = record s { credentials = drop_credential id s.credentials }

  abbrev pub revoke_found :
      Option WebAuthnCredential → ℕ → Account → MfaStore → Outcome Reply × MfaStore
  revoke_found none id account s = (returned (plain (redirect "/account/mfa")), s)
  revoke_found (some c) id account s =
      if not (can_revoke x.required s) then (returned (plain (redirect "/account/mfa")), s) else (
        returned (plain (redirect "/account/mfa")),
        audited account.username "mfa.webauthn.revoked" (str_append "name=" c.name)
            (drop_codes (without_credential id s)),
      )

  abbrev pub revoke_credential : ℕ → Account → MfaStore → Outcome Reply × MfaStore
  revoke_credential id account s = revoke_found (find_credential id s.credentials) id account s

  unfoldable pub mfa_passkey_revoke : ℕ → Option Account → MfaStore → Outcome Reply × MfaStore
  mfa_passkey_revoke id account =
      after_fresh (λ reply. reply) (revoke_credential id) (require_fresh account)

  abbrev pub regenerate : Account → MfaStore → Outcome Reply × MfaStore
  regenerate account s =
      if not account.mfa_verified || not (account_has_mfa s)
      then (returned (plain (refused 403 "Complete MFA before regenerating recovery codes")), s)
      else (
        returned
            record { body = page "Recovery codes replaced"; cookie = none; codes = x.new_codes },
        audited account.username "mfa.recovery.regenerated" ""
            (with_hashes x (map (recovery_hash x) x.new_codes) s),
      )

  unfoldable pub mfa_recovery_regenerate : Option Account → MfaStore → Outcome Reply × MfaStore
  mfa_recovery_regenerate account = after_fresh (λ reply. reply) regenerate (require_fresh account)
