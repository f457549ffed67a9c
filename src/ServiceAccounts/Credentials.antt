-- ===== src/ServiceAccounts/Credentials.antt =====
-- na_sso/service_accounts.py: a credential is issued, authenticates a request, and is revoked.
use na_sso.Prelude.{
  ℕ, ◌+◌, ◌*◌, String, Bool, true, false, not, ◌&&◌, ◌||◌, Option, none, some, is_some, List, [],
  ◌∷◌, ◌++◌, filter, length, ltb, leb, ◌==◌, min, str_eq, str_append, if◌then◌else◌,
}
use na_sso.Outcome.{value_error, Outcome, returned, raised}
use na_sso.Permissions.{Permission, manage_users, manage_targets, view_audit}
use na_sso.Mfa.Rows.{Text}
use na_sso.ServiceAccounts.{
  ServiceAccount, ServiceAccountCredential, ServiceStore, ServicePrincipal, ServiceWorld,
  find_account, modify_account, find_credential, by_prefix, modify_credential, is_past,
}

-- `service_account_permissions`
abbrev is_service_permission : Permission → Bool
is_service_permission manage_users = true
is_service_permission manage_targets = true
is_service_permission view_audit = true
is_service_permission _ = false

unfoldable pub service_account_permissions : ServiceAccount → List Permission
service_account_permissions account = filter is_service_permission account.permissions

-- `label.strip()`
drop_spaces : (ℕ → Bool) → Text → Text
drop_spaces is_space [] = []
drop_spaces is_space (c ∷ rest) =
    let later = drop_spaces is_space rest in if is_space c then later else c ∷ rest

backwards : Text → Text → Text
backwards [] done = done
backwards (c ∷ rest) done = backwards rest (c ∷ done)

unfoldable pub strip : (ℕ → Bool) → Text → Text
unfolding drop_spaces backwards
strip is_space text = backwards (drop_spaces is_space (backwards (drop_spaces is_space text) [])) []

abbrev pub earlier : ℕ → Option ℕ → ℕ
earlier t none = t
earlier t (some limit) = min t limit

module _ (x : ServiceWorld) where
  abbrev logged : String → String → String → String → ServiceStore → ServiceStore
  logged actor action subject detail s = record s {
    audit =
        s.audit
        ++ record {
          actor = actor;
          action = action;
          subject = subject;
          detail = detail;
          operation_id = none;
        }
          ∷ [];
  }

  abbrev pub new_credential : String → Text → ℕ → ServiceAccount → ServiceAccountCredential
  new_credential actor label days account = record {
    id = x.new_id;
    service_account_id = account.id;
    label = label;
    token_prefix = x.new_prefix;
    token_hash = x.token_hash x.new_token;
    created_by = actor;
    expires_at = earlier (x.now + days * 86400) account.expires_at;
    last_used_at = none;
    revoked_at = none;
    revoked_by = none;
  }

  abbrev pub issue_for :
      String → Text → ℕ → Option ServiceAccount → ServiceStore → Outcome String × ServiceStore
  issue_for actor label days none s = (raised (value_error "service account is unavailable"), s)
  issue_for actor label days (some account) s =
      if is_some account.revoked_at
      then (raised (value_error "service account is unavailable"), s)
      else if is_past x.now account.expires_at
      then (raised (value_error "service account has expired"), s)
      else (
        returned x.new_token,
        logged actor "service_account.credential_issued" account.name
            (x.issued_detail (new_credential actor label days account))
            (record s {
              credentials = s.credentials ++ new_credential actor label days account ∷ [];
            }),
      )

  -- The token of the new credential.
  unfoldable pub issue_service_account_credential :
      String → String → Text → ℕ → ServiceStore → Outcome String × ServiceStore
  unfolding strip
  issue_service_account_credential account_id actor label days s =
      let clean = strip x.is_space label in
      if length clean == 0 || ltb 80 (length clean)
      then (
        raised (value_error "credential label is required and must be at most 80 characters"),
        s,
      )
      else if ltb days 1 || ltb x.max_token_days days
      then (raised (value_error "credential lifetime is out of bounds"), s)
      else issue_for actor clean days (find_account account_id s.accounts) s

  -- `last_used_at` is written every five minutes at most.
  abbrev is_stale : Option ℕ → Bool
  is_stale none = true
  is_stale (some t) = ltb (t + 300) x.now

  abbrev pub used : ServiceAccountCredential → ServiceStore → ServiceStore
  used c s =
      if is_stale c.last_used_at
      then record s {
        credentials =
            modify_credential c.id (λ old. record old { last_used_at = some x.now }) s.credentials;
      }
      else s

  abbrev pub principal_of : ServiceAccount → ServiceAccountCredential → ServicePrincipal
  principal_of account c = record {
    id = account.id;
    username = str_append "service:" account.name;
    permissions = service_account_permissions account;
    credential_id = c.id;
  }

  abbrev pub authenticate_as :
      ServiceAccountCredential
      → Option ServiceAccount
      → ServiceStore
      → Option ServicePrincipal × ServiceStore
  authenticate_as c none s = (none, s)
  authenticate_as c (some account) s =
      if is_some account.revoked_at
        || is_some c.revoked_at
        || leb c.expires_at x.now
        || is_past x.now account.expires_at
      then (none, s)
      else (some (principal_of account c), used c s)

  abbrev pub authenticate_with :
      String
      → Option ServiceAccountCredential
      → ServiceStore
      → Option ServicePrincipal × ServiceStore
  authenticate_with raw_token none s = (none, s)
  authenticate_with raw_token (some c) s =
      if str_eq c.token_hash (x.token_hash raw_token)
      then authenticate_as c (find_account c.service_account_id s.accounts) s
      else (none, s)

  abbrev pub authenticate_prefix :
      String → Option String → ServiceStore → Option ServicePrincipal × ServiceStore
  authenticate_prefix raw_token none s = (none, s)
  authenticate_prefix raw_token (some prefix) s =
      authenticate_with raw_token (by_prefix prefix s.credentials) s

  unfoldable pub authenticate_service_account :
      String → ServiceStore → Option ServicePrincipal × ServiceStore
  unfolding service_account_permissions
  authenticate_service_account raw_token s = authenticate_prefix raw_token (x.prefix_of raw_token) s

  abbrev pub revoked_credential : String → ServiceAccountCredential → ServiceAccountCredential
  revoked_credential actor c =
      if is_some c.revoked_at
      then c
      else record c { revoked_at = some x.now; revoked_by = some actor }

  abbrev pub revoke_found :
      String → Option ServiceAccount → Option ServiceAccountCredential → ServiceStore → ServiceStore
  revoke_found actor (some account) (some c) s =
      if str_eq c.service_account_id account.id && not (is_some c.revoked_at)
      then logged actor "service_account.credential_revoked" account.name (x.revoked_detail c)
          (record s {
            credentials = modify_credential c.id (revoked_credential actor) s.credentials;
          })
      else s
  revoke_found actor _ _ s = s

  unfoldable pub service_account_credential_revoke :
      String → String → String → ServiceStore → ServiceStore
  service_account_credential_revoke account_id credential_id actor s =
      revoke_found actor (find_account account_id s.accounts)
        (find_credential credential_id s.credentials) s

  unfoldable pub revoke_all :
      String → String → List ServiceAccountCredential → List ServiceAccountCredential
  revoke_all account_id actor [] = []
  revoke_all account_id actor (c ∷ rest) =
      (if str_eq c.service_account_id account_id then revoked_credential actor c else c)
      ∷ revoke_all account_id actor rest

  abbrev pub revoke_account : String → Option ServiceAccount → ServiceStore → ServiceStore
  revoke_account actor none s = s
  revoke_account actor (some account) s =
      if is_some account.revoked_at
      then s
      else logged actor "service_account.revoked" account.name
          (x.count_detail
            (length (filter (λ c. str_eq c.service_account_id account.id) s.credentials)))
          (record s {
            accounts =
                modify_account account.id
                  (λ a. record a { revoked_at = some x.now; revoked_by = some actor }) s.accounts;
            credentials = revoke_all account.id actor s.credentials;
          })

  unfoldable pub service_account_revoke : String → String → ServiceStore → ServiceStore
  unfolding revoke_all
  service_account_revoke account_id actor s =
      revoke_account actor (find_account account_id s.accounts) s
