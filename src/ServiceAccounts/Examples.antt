-- ===== src/ServiceAccounts/Examples.antt =====
-- Runs of two service accounts, one of which is revoked.
use na_sso.Prelude.{◌≡◌, ◌≢◌, refl, String, none, some, List, [], ◌∷◌, ◌==◌}
use na_sso.Permissions.{view_audit}
use na_sso.ServiceAccounts.{
  ServiceAccount, ServiceAccountCredential, ServiceStore, ServiceWorld, find_account,
  modify_account, by_prefix,
}
use na_sso.ServiceAccounts.Credentials.{
  principal_of, service_account_revoke, authenticate_service_account,
  issue_service_account_credential, revoke_all,
}
use na_sso.ServiceAccounts.Revocation.{
  ServiceRequest, issue, perform, perform_all, service_account_revoke-final,
}

abbrev account : String → ServiceAccount
account id = record {
  id = id;
  name = id;
  permissions = view_audit ∷ [];
  expires_at = none;
  revoked_at = none;
  revoked_by = none;
}

abbrev credential : ServiceAccountCredential
credential = record {
  id = "c";
  service_account_id = "build";
  label = [];
  token_prefix = "0a";
  token_hash = "0a";
  created_by = "root";
  expires_at = 9000;
  last_used_at = some 999;
  revoked_at = none;
  revoked_by = none;
}

abbrev store : ServiceStore
store = record {
  accounts = account "backup" ∷ account "build" ∷ [];
  credentials = credential ∷ [];
  audit = [];
}

abbrev noon : ServiceWorld
noon = record {
  now = 1000;
  max_token_days = 30;
  prefix_of = λ t. some t;
  token_hash = λ t. t;
  is_space = λ c. c == 32;
  issued_detail = λ c. "";
  revoked_detail = λ c. "";
  count_detail = λ n. "";
  new_id = "d";
  new_prefix = "0b";
  new_token = "0b";
}

abbrev later : List (ServiceWorld × ServiceRequest)
later = (noon, issue "backup" "root" (98 ∷ []) 7) ∷ []

service_account_revoke-final_example :
    (principal_of noon (account "build") credential).id ≢ "backup"
unfolding service_account_revoke authenticate_service_account perform_all perform find_account
    modify_account by_prefix issue_service_account_credential revoke_all
service_account_revoke-final_example =
    service_account_revoke-final noon "backup" "root" store (account "backup") later noon "0a"
      (principal_of noon (account "build") credential)
      (service_account_revoke noon "backup" "root" store) refl refl

-- No credential is issued for the revoked account.
not_issued :
    (perform_all later (service_account_revoke noon "backup" "root" store)).credentials
    ≡ credential ∷ []
unfolding service_account_revoke perform_all perform find_account modify_account
    issue_service_account_credential revoke_all
not_issued = refl
