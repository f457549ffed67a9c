-- ===== src/Sync/Rows.antt =====
-- na_sso/sync.py, the body of the loop of `_sync_user`: one target of one account.
use na_sso.Prelude.{
  ℕ, ◌+◌, ◌-◌, ◌*◌, ◌^◌, min, String, Bool, true, false, not, ◌&&◌, ◌||◌, Option, none, some,
  is_some, List, [], ◌∷◌, ◌++◌, ◌==◌, if◌then◌else◌, str_append,
}
use mathlib.Core.Option
use na_sso.Lifecycle.Values.{
  DesiredAction, is_delete, SyncStateValue, pending, failed, unsupported, chpw,
  awaiting_credentials, pending_chpw_disable, unassigned, expired_disabled, to_string,
}
use na_sso.Models.{is_temporary, SyncState, ManagedUser, UnitOfWork}
use na_sso.Connectors.{
  ErrorKind, validation, SyncResult, ConnectorOperation, Connector, operation_text, is_expired,
  lifecycle_operation_for, supports_operation, unsupported_operation_detail, connector_for,
}
use na_sso.Operations.Attempts.{start_target_attempt, finish_target_attempt}

-- The settings that the worker reads.
pub record SyncSettings : Type 0 where
  pub retry_base_seconds : ℕ
  pub retry_max_seconds : ℕ
  pub persistent_failure_attempts : ℕ
  pub has_config_file : Bool

-- What `_sync_user` holds while it goes through the targets: the account as it was read, the wanted
-- action, the decrypted password, the operation's key, the actor, and the outside world.
pub record Job : Type 0 where
  pub settings : SyncSettings
  pub now : ℕ
  pub actor : String
  pub user : ManagedUser
  pub desired_action : DesiredAction
  pub password : Option String
  pub operation_id : String
  pub available : List Connector
  pub intents : String → Option (List String)
  pub remote :
      Connector → ConnectorOperation → ManagedUser → Option String → List String → SyncResult

abbrev pub is_pending_chpw_disable : SyncStateValue → Bool
is_pending_chpw_disable pending_chpw_disable = true
is_pending_chpw_disable _ = false

abbrev pub is_awaiting : SyncStateValue → Bool
is_awaiting awaiting_credentials = true
is_awaiting _ = false

abbrev pub is_validation : Option ErrorKind → Bool
is_validation (some validation) = true
is_validation _ = false

-- `min(retry_base_seconds * 2 ** (attempt_count - 1), retry_max_seconds)`.
unfoldable pub retry_delay : SyncSettings → ℕ → ℕ
retry_delay s attempt_count =
    min (s.retry_base_seconds * 2 ^ (attempt_count - 1)) s.retry_max_seconds

abbrev pub membership_of : Job → Connector → List String
membership_of job c = Option.get_or (job.intents c.target_id) c.default_memberships

-- The state after the connector reported success.
unfoldable pub succeeded_state : Job → SyncState → SyncStateValue
succeeded_state job row =
    if is_delete job.desired_action
    then SyncStateValue.ok
    else if not row.assigned
    then unassigned
    else if is_temporary job.user.password_decision_kind
    then chpw
    else if is_expired job.user.password_decision_kind
    then expired_disabled
    else SyncStateValue.ok

abbrev pub succeeded_detail : Job → SyncState → String → String
succeeded_detail job row detail =
    if not (is_delete job.desired_action)
      && row.assigned
      && is_temporary job.user.password_decision_kind
    then "password change required before propagation"
    else detail

-- The row after a remote call, and whether the failure is a persistent one.
unfoldable pub record_result : Job → SyncState → SyncResult → SyncState × Bool
unfolding succeeded_state retry_delay
record_result job row result =
    if result.ok
    then (
      record row {
        state = succeeded_state job row;
        detail = succeeded_detail job row result.detail;
        attempt_count = 0;
        next_retry_at = none;
      },
      false,
    )
    else if is_validation result.error_kind
    then (
      record row {
        state = unsupported;
        detail = result.detail;
        attempt_count = row.attempt_count + 1;
        next_retry_at = none;
      },
      true,
    )
    else (
      record row {
        state = failed;
        detail = result.detail;
        attempt_count = row.attempt_count + 1;
        next_retry_at = some (job.now + retry_delay job.settings (row.attempt_count + 1));
      },
      row.attempt_count + 1 == job.settings.persistent_failure_attempts,
    )

abbrev pub audited : Job → String → String → UnitOfWork → UnitOfWork
audited job action detail w = record w {
  audit =
      w.audit
      ++ record {
        actor = job.actor;
        action = action;
        subject = job.user.username;
        detail = detail;
        operation_id = some job.operation_id;
      }
        ∷ [];
}

abbrev pub notified : String → String → String → UnitOfWork → UnitOfWork
notified event_type dedupe_key outcome w = record w {
  notifications =
      w.notifications
      ++ record { event_type = event_type; dedupe_key = dedupe_key; outcome = outcome } ∷ [];
}

abbrev pub action_text : DesiredAction → String
action_text DesiredAction.ensure = "ensure"
action_text DesiredAction.delete = "delete"
action_text DesiredAction.local_only = "local_only"

-- The operation that the target gets.
unfoldable pub operation_on : Job → SyncState → ConnectorOperation
operation_on job row =
    lifecycle_operation_for job.user (is_delete job.desired_action)
      (not row.assigned || is_pending_chpw_disable row.state)

-- The connector declares the operation unsupported: no attempt is made.
unfoldable pub decline : Job → Connector → SyncState → UnitOfWork → SyncState × UnitOfWork
decline job c row w =
    let operation = operation_on job row in
    let detail = unsupported_operation_detail c operation in
    (
      record row { state = unsupported; detail = detail; next_retry_at = none },
      audited job (str_append "sync." (str_append (operation_text operation) ".unsupported"))
          (str_append c.target_id (str_append ": " detail)) w,
    )

-- A numbered attempt, the remote call, and the record of its result.
unfoldable pub attempt : Job → Connector → SyncState → UnitOfWork → SyncState × UnitOfWork
attempt job c row w =
    let (started, w₁) = start_target_attempt job.operation_id c.target_id (some c.target_type) w in
    let result = job.remote c (operation_on job row) job.user job.password (membership_of job c) in
    let (row', persistent) =
      record_result job (record row { state = pending; detail = ""; next_retry_at = none })
        result in
    let w₂ =
      if persistent
      then notified "sync.persistent_failure"
          (str_append job.operation_id (str_append ":" c.target_id)) "failed" w₁
      else w₁ in
    let w₃ = finish_target_attempt job.now started result.ok row'.state result.detail w₂ in
    (
      row',
      audited job (str_append "sync." (action_text job.desired_action))
          (str_append c.target_id
            (str_append ": " (str_append (to_string row'.state) (str_append " — " result.detail))))
          w₃,
    )

-- Waiting for a password that nobody has supplied yet.
unfoldable pub is_waiting : Job → SyncState → Bool
is_waiting job row =
    not (is_delete job.desired_action) && is_awaiting row.state && not (is_some job.password)

abbrev pub sync_with : Job → Option Connector → SyncState → UnitOfWork → SyncState × UnitOfWork
sync_with job none row w = (row, w)
sync_with job (some c) row w =
    if not (supports_operation c (operation_on job row))
    then decline job c row w
    else if is_waiting job row
    then (row, w)
    else attempt job c row w

-- One round of the loop over the connectors.
unfoldable pub sync_row : Job → SyncState → UnitOfWork → SyncState × UnitOfWork
sync_row job row w = sync_with job (connector_for job.available row.target) row w
