-- ===== src/ServiceAccounts/Revocation.antt =====
-- A service account that was revoked stays so, and no token authenticates it.
use na_sso.Prelude.{
  ℕ, String, ◌≡◌, ◌≢◌, refl, sym, ap, subst, ◌∙◌, inl, inr, Bool, true, false, Option, none, some,
  is_some, List, [], ◌∷◌, eq_iff, arith, Bool-cases,
}
use na_sso.Mfa.Rows.{Text}
use na_sso.ServiceAccounts.{
  ServiceAccount, ServiceAccountCredential, ServiceStore, ServicePrincipal, ServiceWorld,
  find_account, modify_account, find_credential, by_prefix,
}
use na_sso.ServiceAccounts.Credentials.{
  issue_for, issue_service_account_credential, authenticate_as, authenticate_with,
  authenticate_prefix, authenticate_service_account, revoke_found,
  service_account_credential_revoke, revoke_account, service_account_revoke, strip,
}

-- A request that changes the rows of the service accounts, at its time.
pub data ServiceRequest : Type 0 where
  issue : String → String → Text → ℕ → ServiceRequest
  authenticate : String → ServiceRequest
  revoke_one : String → String → String → ServiceRequest
  revoke : String → String → ServiceRequest

unfoldable pub perform : ServiceWorld → ServiceRequest → ServiceStore → ServiceStore
perform x (issue id actor label days) s =
    (issue_service_account_credential x id actor label days s).1
perform x (authenticate raw_token) s = (authenticate_service_account x raw_token s).1
perform x (revoke_one id credential_id actor) s =
    service_account_credential_revoke x id credential_id actor s
perform x (revoke id actor) s = service_account_revoke x id actor s

unfoldable pub perform_all : List (ServiceWorld × ServiceRequest) → ServiceStore → ServiceStore
perform_all [] s = s
perform_all ((x, r) ∷ rest) s = perform_all rest (perform x r s)

abbrev is_revoked : Option ServiceAccount → Bool
is_revoked none = false
is_revoked (some a) = is_some a.revoked_at

pub record IsRevoked (id : String) (s : ServiceStore) : Type 0 where
  pub revoked : is_revoked (find_account id s.accounts) ≡ true

find_account-id :
    (id : String) (l : List ServiceAccount) (a : ServiceAccount)
    → find_account id l ≡ some a
    → a.id ≡ id
unfolding find_account
find_account-id id [] a h = cc
find_account-id id (b ∷ l) a h = ground (arith, eq_iff b.id id, find_account-id id l a)

modify_account-revoked :
    (x : ServiceWorld) (actor id other : String) (l : List ServiceAccount)
    → is_revoked (find_account id l) ≡ true
    → is_revoked (
        find_account id (
          modify_account other
            (λ a. record a { revoked_at = some x.now; revoked_by = some actor })
            l))
      ≡ true
unfolding find_account modify_account
modify_account-revoked x actor id other [] h = cc
modify_account-revoked x actor id other (b ∷ l) h =
    ground (arith, eq_iff b.id id, eq_iff b.id other, modify_account-revoked x actor id other l)

module _ (x : ServiceWorld) where
  issue_for-accounts :
      (actor : String) (label : Text) (days : ℕ) (found : Option ServiceAccount) (s : ServiceStore)
      → (issue_for x actor label days found s).1.accounts ≡ s.accounts
  issue_for-accounts actor label days none s = refl
  issue_for-accounts actor label days (some a) s = ground arith

  issue-accounts :
      (id actor : String) (label : Text) (days : ℕ) (s : ServiceStore)
      → (issue_service_account_credential x id actor label days s).1.accounts ≡ s.accounts
  unfolding issue_service_account_credential
  issue-accounts id actor label days s =
      ground (
        arith,
        issue_for-accounts actor (strip x.is_space label) days (find_account id s.accounts) s,
      )

  authenticate_as-accounts :
      (c : ServiceAccountCredential) (found : Option ServiceAccount) (s : ServiceStore)
      → (authenticate_as x c found s).1.accounts ≡ s.accounts
  authenticate_as-accounts c none s = refl
  authenticate_as-accounts c (some a) s = ground arith

  authenticate_with-accounts :
      (raw_token : String) (c : Option ServiceAccountCredential) (s : ServiceStore)
      → (authenticate_with x raw_token c s).1.accounts ≡ s.accounts
  authenticate_with-accounts raw_token none s = refl
  authenticate_with-accounts raw_token (some c) s =
      ground (arith, authenticate_as-accounts c (find_account c.service_account_id s.accounts) s)

  authenticate-accounts :
      (raw_token : String) (prefix : Option String) (s : ServiceStore)
      → (authenticate_prefix x raw_token prefix s).1.accounts ≡ s.accounts
  authenticate-accounts raw_token none s = refl
  authenticate-accounts raw_token (some prefix) s =
      authenticate_with-accounts raw_token (by_prefix prefix s.credentials) s

  revoke_found-accounts :
      (actor : String) (a : Option ServiceAccount) (c : Option ServiceAccountCredential)
      (s : ServiceStore)
      → (revoke_found x actor a c s).accounts ≡ s.accounts
  revoke_found-accounts actor (some a) (some c) s = ground arith
  revoke_found-accounts actor (some a) none s = refl
  revoke_found-accounts actor none c s = refl

  revoke_account-IsRevoked :
      (id actor : String) (found : Option ServiceAccount) (s : ServiceStore)
      → IsRevoked id s
      → IsRevoked id (revoke_account x actor found s)
  revoke_account-IsRevoked id actor none s h = h
  revoke_account-IsRevoked id actor (some a) s h = elim (Bool-cases (is_some a.revoked_at)) [
    | inl old ↦ rw old h
    | inr new ↦
        rw new (record { revoked = modify_account-revoked x actor id a.id s.accounts h.revoked })
  ]

  same-IsRevoked :
      (id : String) (s s' : ServiceStore)
      → s'.accounts ≡ s.accounts
      → IsRevoked id s
      → IsRevoked id s'
  same-IsRevoked id s s' e h = record {
    revoked = ap (λ l. is_revoked (find_account id l)) e ∙ h.revoked;
  }

  perform-IsRevoked :
      (r : ServiceRequest) (id : String) (s : ServiceStore)
      → IsRevoked id s
      → IsRevoked id (perform x r s)
  unfolding perform authenticate_service_account service_account_credential_revoke
      service_account_revoke
  perform-IsRevoked (issue i actor label days) id s h =
      same-IsRevoked id s _ (issue-accounts i actor label days s) h
  perform-IsRevoked (authenticate raw_token) id s h =
      same-IsRevoked id s _ (authenticate-accounts raw_token (x.prefix_of raw_token) s) h
  perform-IsRevoked (revoke_one i c actor) id s h =
      same-IsRevoked id s _
        (revoke_found-accounts actor (find_account i s.accounts) (find_credential c s.credentials)
          s)
        h
  perform-IsRevoked (revoke i actor) id s h =
      revoke_account-IsRevoked id actor (find_account i s.accounts) s h

perform_all-IsRevoked :
    (l : List (ServiceWorld × ServiceRequest)) (id : String) (s : ServiceStore)
    → IsRevoked id s
    → IsRevoked id (perform_all l s)
unfolding perform_all
perform_all-IsRevoked [] id s h = h
perform_all-IsRevoked ((x, r) ∷ rest) id s h =
    perform_all-IsRevoked rest id (perform x r s) (perform-IsRevoked x r id s h)

modified-revoked :
    (x : ServiceWorld) (actor id : String) (l : List ServiceAccount) (a : ServiceAccount)
    → find_account id l ≡ some a
    → is_revoked (
        find_account id (
          modify_account id (λ a. record a { revoked_at = some x.now; revoked_by = some actor }) l))
      ≡ true
unfolding find_account modify_account
modified-revoked x actor id [] a h = cc
modified-revoked x actor id (b ∷ l) a h =
    ground (arith, eq_iff b.id id, modified-revoked x actor id l a)

revoke_account-revokes :
    (x : ServiceWorld) (id actor : String) (s : ServiceStore) (a : ServiceAccount)
    → find_account id s.accounts ≡ some a
    → IsRevoked id (revoke_account x actor (some a) s)
revoke_account-revokes x id actor s a found = elim (Bool-cases (is_some a.revoked_at)) [
  | inl old ↦ rw old (record { revoked = ap is_revoked found ∙ old })
  | inr new ↦
      let same = find_account-id id s.accounts a found in
      rw new (record {
        revoked =
            subst
              (λ other.
                is_revoked (
                  find_account id (
                    modify_account other
                      (λ a. record a { revoked_at = some x.now; revoked_by = some actor })
                      s.accounts))
                ≡ true)
              (sym same) (modified-revoked x actor id s.accounts a found);
      })
]

module _ (x : ServiceWorld) (id : String) (s s' : ServiceStore) (p : ServicePrincipal)
    (h : IsRevoked id s) where
  as-other :
      (c : ServiceAccountCredential) (found : Option ServiceAccount)
      → find_account c.service_account_id s.accounts ≡ found
      → authenticate_as x c found s ≡ (some p, s')
      → p.id ≢ id
  as-other c none e r same = ground arith
  as-other c (some a) e r same =
      let at_account : a.id ≡ id = ground arith in
      let there : find_account id s.accounts ≡ some a =
        subst (λ i. find_account i s.accounts ≡ some a)
          (sym (find_account-id c.service_account_id s.accounts a e) ∙ at_account) e in
      let revoked : is_some a.revoked_at ≡ true = sym (ap is_revoked there) ∙ h.revoked in
      ground arith

  with-other :
      (raw_token : String) (c : Option ServiceAccountCredential)
      → authenticate_with x raw_token c s ≡ (some p, s')
      → p.id ≢ id
  with-other raw_token none r = absurd (ground arith)
  with-other raw_token (some c) r =
      as-other c (find_account c.service_account_id s.accounts) refl (ground arith)

  prefix-other :
      (raw_token : String) (prefix : Option String)
      → authenticate_prefix x raw_token prefix s ≡ (some p, s')
      → p.id ≢ id
  prefix-other raw_token none r = absurd (ground arith)
  prefix-other raw_token (some prefix) r = with-other raw_token (by_prefix prefix s.credentials) r

-- Once an existing service account was revoked, no token authenticates as that account, at any time and after any
-- further requests: credentials that are issued or revoked, other tokens, and revocations.
pub service_account_revoke-final :
    (x : ServiceWorld) (id actor : String) (s : ServiceStore) (a : ServiceAccount)
    (later : List (ServiceWorld × ServiceRequest)) (y : ServiceWorld) (raw_token : String)
    (p : ServicePrincipal) (s' : ServiceStore)
    → find_account id s.accounts ≡ some a
    → authenticate_service_account y raw_token
        (perform_all later (service_account_revoke x id actor s))
      ≡ (some p, s')
    → p.id ≢ id
unfolding service_account_revoke authenticate_service_account
service_account_revoke-final x id actor s a later y raw_token p s' found authenticated =
    let before : IsRevoked id (service_account_revoke x id actor s) =
      subst (λ o. IsRevoked id (revoke_account x actor o s)) (sym found)
        (revoke_account-revokes x id actor s a found) in
    let after = perform_all-IsRevoked later id (service_account_revoke x id actor s) before in
    prefix-other y id (perform_all later (service_account_revoke x id actor s)) s' p after raw_token
      (y.prefix_of raw_token) authenticated
