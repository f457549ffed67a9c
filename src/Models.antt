-- ===== src/Models.antt =====
-- The rows of na_sso/models.py that the modelled code reads or writes. A time is a number of seconds.
-- The SQLAlchemy session of one handler is a `UnitOfWork`: the account it works on and the rows of
-- the tables it touches.
use na_sso.Prelude.{ℕ, String, Bool, true, false, Option, List, str_eq}
use na_sso.Lifecycle.Values.{DesiredAction, SyncStateValue, LifecycleCommand, OperationStatus}

-- `ManagedUser.status`.
pub data AccountStatus : Type 0 where
  active disabled : AccountStatus

-- `password_decision_kind`: the empty text, or the reason for the decision.
pub data DecisionKind : Type 0 where
  settled initial reset expired : DecisionKind

-- `kind in {"initial", "reset"}`.
abbrev pub is_temporary : DecisionKind → Bool
is_temporary initial = true
is_temporary reset = true
is_temporary _ = false

pub record SyncState : Type 0 where
  pub target : String
  pub assigned : Bool
  pub retired : Bool
  pub state : SyncStateValue
  pub detail : String
  pub attempt_count : ℕ
  pub next_retry_at : Option ℕ
  pub operation_id : Option String

pub record ManagedUser : Type 0 where
  pub id : ℕ
  pub username : String
  pub display_name : String
  pub email : String
  pub password_hash : Option String
  pub role : String
  pub password_decision_required : Bool
  pub password_decision_kind : DecisionKind
  pub password_changed_at : Option ℕ
  pub password_keep_until : Option ℕ
  pub password_keep_count : ℕ
  pub last_authenticated_at : Option ℕ
  pub session_version : ℕ
  pub status : AccountStatus
  pub desired_action : DesiredAction
  pub active_operation_id : Option String
  pub deletion_requested_at : Option ℕ
  pub deleted_at : Option ℕ
  pub pending_secret : Option String
  pub sync_states : List SyncState

unfoldable pub is_root : ManagedUser → Bool
is_root user = str_eq user.role "root"

pub record LifecycleOperation : Type 0 where
  pub id : String
  pub user_id : Option ℕ
  pub command : LifecycleCommand
  pub status : OperationStatus
  pub actor : String
  pub subject : String
  pub requested_target : Option String
  pub supersedes_id : Option String
  pub total_targets : ℕ
  pub completed_targets : ℕ
  pub failed_targets : ℕ
  pub detail : String
  pub started_at : Option ℕ
  pub completed_at : Option ℕ

pub record OperationTargetAttempt : Type 0 where
  pub operation_id : String
  pub target : String
  pub target_type : Option String
  pub attempt_number : ℕ
  pub status : OperationStatus
  pub result_state : SyncStateValue
  pub detail : String
  pub completed_at : Option ℕ

pub record AuditEvent : Type 0 where
  pub actor : String
  pub action : String
  pub subject : String
  pub detail : String
  pub operation_id : Option String

-- The arguments of one call of `enqueue_notification`.
pub record Notification : Type 0 where
  pub event_type : String
  pub dedupe_key : String
  pub outcome : String

pub record UnitOfWork : Type 0 where
  pub user : ManagedUser
  pub operations : List LifecycleOperation
  pub attempts : List OperationTargetAttempt
  pub audit : List AuditEvent
  pub notifications : List Notification
