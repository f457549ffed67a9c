-- ===== src/Samples.antt =====
-- Small accounts, operations and targets for the tests.
use na_sso.Prelude.{String, Bool, true, false, none, some, List, [], ◌∷◌}
use na_sso.Lifecycle.Values.{DesiredAction, update, OperationStatus, SyncStateValue}
use na_sso.Models.{AccountStatus, settled, SyncState, ManagedUser, LifecycleOperation, UnitOfWork}
use na_sso.Connectors.{Connector}
use na_sso.Sync.Conclude.{World}

abbrev pub row : String → Bool → SyncStateValue → SyncState
row target assigned state = record {
  target = target;
  assigned = assigned;
  retired = false;
  state = state;
  detail = "";
  attempt_count = 0;
  next_retry_at = none;
  operation_id = none;
}

abbrev pub alice : List SyncState → ManagedUser
alice rows = record {
  id = 7;
  username = "alice";
  display_name = "Alice";
  email = "alice@example.org";
  password_hash = some "hash";
  role = "user";
  password_decision_required = false;
  password_decision_kind = settled;
  password_changed_at = some 100;
  password_keep_until = none;
  password_keep_count = 0;
  last_authenticated_at = none;
  session_version = 1;
  status = AccountStatus.active;
  desired_action = DesiredAction.ensure;
  active_operation_id = none;
  deletion_requested_at = none;
  deleted_at = none;
  pending_secret = some "sealed";
  sync_states = rows;
}

abbrev pub work : List SyncState → UnitOfWork
work rows = record {
  user = alice rows;
  operations = [];
  attempts = [];
  audit = [];
  notifications = [];
}

abbrev pub operation : String → OperationStatus → LifecycleOperation
operation id status = record {
  id = id;
  user_id = some 7;
  command = update;
  status = status;
  actor = "admin";
  subject = "alice";
  requested_target = none;
  supersedes_id = none;
  total_targets = 1;
  completed_targets = 0;
  failed_targets = 0;
  detail = "";
  started_at = some 100;
  completed_at = none;
}

abbrev pub gitea : Connector
gitea = record {
  target_id = "gitea";
  target_type = "gitea";
  display_name = "Gitea";
  ensure_supported = true;
  disable_supported = true;
  delete_supported = true;
  needs_password = true;
  default_memberships = [];
}

-- Every remote call succeeds.
abbrev pub calm : World
calm = record {
  settings = record {
    retry_base_seconds = 30;
    retry_max_seconds = 3600;
    persistent_failure_attempts = 3;
    has_config_file = true;
  };
  now = 1000;
  new_id = "op-1";
  available = gitea ∷ [];
  intents = λ target. none;
  remote = λ c o u p m. record { ok = true; detail = "done"; error_kind = none };
  decrypt_secret = λ s. s;
  decimal = λ n. "some";
}
