-- ===== src/Mfa/Backing.antt =====
-- The factors of an account: recovery codes stand beside a factor, and a required one is not revoked.
use na_sso.Prelude.{
  ℕ, ◌+◌, ◌<◌, String, ◌≡◌, refl, ◌⊎◌, Bool, true, false, Option, none, some, List, [], ◌∷◌, length,
  length-append, ◌==◌, if◌then◌else◌, arith,
}
use na_sso.Outcome.{Outcome, returned, raised}
use na_sso.Mfa.Rows.{
  Text, MfaStore, WebAuthnCredential, Account, Reply, hashes_of, method_count, account_has_mfa,
  can_revoke,
}
use na_sso.Mfa.Totp.{matching_totp_counter}
use na_sso.Mfa.{MfaWorld}
use na_sso.Mfa.Factors.{
  TotpSetup, mfa_totp_confirm, mfa_registration_verify, mfa_totp_revoke, mfa_passkey_revoke,
  mfa_recovery_regenerate, confirm_with, confirm_setup, revoke_totp, register, regenerate,
  revoke_credential, revoke_found, Fresh, fresh, stale, require_fresh, after_fresh, find_credential,
  drop_credential,
}

-- A request to one of the handlers that change the factors.
pub data Change : Type 0 where
  confirming : Option TotpSetup → Text → Change
  registering : Option WebAuthnCredential → Change
  revoking_totp regenerating : Change
  revoking_passkey : ℕ → Change

unfoldable pub change : MfaWorld → Change → Option Account → MfaStore → MfaStore
change x (confirming setup code) account s = (mfa_totp_confirm x setup code account s).1
change x (registering verified) account s = (mfa_registration_verify x verified account s).1
change x revoking_totp account s = (mfa_totp_revoke x account s).1
change x regenerating account s = (mfa_recovery_regenerate x account s).1
change x (revoking_passkey id) account s = (mfa_passkey_revoke x id account s).1

-- Recovery codes are stored only beside a factor.
abbrev pub IsBacked : MfaStore → Type 0
IsBacked s = (length (hashes_of s.row) ≡ 0) ⊎ (0 < method_count s)

-- Where the policy requires a factor, an account that has one keeps one.
abbrev pub KeepsFactor : MfaWorld → MfaStore → MfaStore → Type 0
KeepsFactor x s s' = x.required ≡ true → 0 < method_count s → 0 < method_count s'

length-drop_credential :
    (id : ℕ) (l : List WebAuthnCredential) (c : WebAuthnCredential)
    → find_credential id l ≡ some c
    → length l ≡ length (drop_credential id l) + 1
unfolding find_credential drop_credential
length-drop_credential id [] c h = ground arith
length-drop_credential id (d ∷ rest) c h = ground (arith, length-drop_credential id rest c)

module _ (x : MfaWorld) (s : MfaStore) where
  abbrev Kept : Outcome (Reply) × MfaStore → Type 0
  Kept (reply, s') = IsBacked s' × KeepsFactor x s s'

  branch-Kept :
      (test : Bool) (r r' : Outcome Reply × MfaStore)
      → Kept r
      → Kept r'
      → Kept (if test then r else r')
  branch-Kept true r r' h h' = h
  branch-Kept false r r' h h' = h'

  after_fresh-Kept :
      (answer : Reply → Reply) (handler : Account → MfaStore → Outcome Reply × MfaStore)
      (caller : Fresh)
      → IsBacked s
      → ((a : Account) → Kept (handler a s))
      → Kept (after_fresh x answer handler caller s)
  after_fresh-Kept answer handler (stale reply) b h = (b, λ r p. p)
  after_fresh-Kept answer handler (fresh a) b h = h a

  confirm_with-Kept :
      (a : Account) (secret : String) (counter : Outcome (Option ℕ))
      → IsBacked s
      → Kept (confirm_with x a secret counter s)
  unfolding method_count account_has_mfa
  confirm_with-Kept a secret (returned (some c)) b = ground arith
  confirm_with-Kept a secret (returned none) b = (b, λ r p. p)
  confirm_with-Kept a secret (raised f) b = ground arith

  confirm_setup-Kept :
      (setup : Option TotpSetup) (code : Text) (a : Account)
      → IsBacked s
      → Kept (confirm_setup x setup code a s)
  confirm_setup-Kept none code a b = (b, λ r p. p)
  confirm_setup-Kept (some setup) code a b =
      let counter = matching_totp_counter x.hmac_sha1 x.is_digit x.clock setup.secret code in
      branch-Kept (setup.id == a.id) _ _ (confirm_with-Kept a setup.secret counter b) (
        confirm_with-Kept a setup.secret
          (elim counter [ returned c ↦ returned none | raised f ↦ raised f ]) b)

  register-Kept :
      (verified : Option WebAuthnCredential) (a : Account)
      → IsBacked s
      → Kept (register x verified a s)
  unfolding method_count account_has_mfa
  register-Kept none a b = (b, λ r p. p)
  register-Kept (some c) a b = ground (arith, length-append s.credentials (c ∷ []))

  revoke_totp-Kept : (a : Account) → IsBacked s → Kept (revoke_totp x a s)
  unfolding method_count can_revoke
  revoke_totp-Kept a b = ground arith

  revoke_found-Kept :
      (found : Option WebAuthnCredential) (id : ℕ) (a : Account)
      → find_credential id s.credentials ≡ found
      → IsBacked s
      → Kept (revoke_found x found id a s)
  unfolding method_count can_revoke
  revoke_found-Kept none id a e b = (b, λ r p. p)
  revoke_found-Kept (some c) id a e b =
      let shorter = length-drop_credential id s.credentials c e in ground arith

  revoke_credential-Kept : (id : ℕ) (a : Account) → IsBacked s → Kept (revoke_credential x id a s)
  revoke_credential-Kept id a b = revoke_found-Kept (find_credential id s.credentials) id a refl b

  regenerate-Kept : (a : Account) → IsBacked s → Kept (regenerate x a s)
  unfolding method_count account_has_mfa
  regenerate-Kept a b = ground arith

  -- Where recovery codes are stored only beside a factor, each change of the factors, by whomever it is
  -- requested and whatever it answers, leaves them so; and then, under a policy that requires a factor,
  -- an account that has one keeps one.
  pub change-IsBacked :
      (request : Change) (account : Option Account)
      → IsBacked s
      → IsBacked (change x request account s) × KeepsFactor x s (change x request account s)
  unfolding change mfa_totp_confirm mfa_registration_verify mfa_totp_revoke mfa_passkey_revoke
      mfa_recovery_regenerate
  change-IsBacked (confirming setup code) account b =
      after_fresh-Kept _ (confirm_setup x setup code) (require_fresh x account) b
        (λ a. confirm_setup-Kept setup code a b)
  change-IsBacked (registering verified) account b =
      after_fresh-Kept _ (register x verified) (require_fresh x account) b
        (λ a. register-Kept verified a b)
  change-IsBacked revoking_totp account b =
      after_fresh-Kept _ (revoke_totp x) (require_fresh x account) b (λ a. revoke_totp-Kept a b)
  change-IsBacked regenerating account b =
      after_fresh-Kept _ (regenerate x) (require_fresh x account) b (λ a. regenerate-Kept a b)
  change-IsBacked (revoking_passkey id) account b =
      after_fresh-Kept _ (revoke_credential x id) (require_fresh x account) b
        (λ a. revoke_credential-Kept id a b)
