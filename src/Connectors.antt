-- ===== src/Connectors.antt =====
-- na_sso/connectors/base.py: what the worker asks of a connector. The remote calls themselves are a
-- parameter of the worker.
use na_sso.Prelude.{
  String, Bool, true, false, ◌||◌, Option, none, some, is_some, List, if◌then◌else◌, str_eq,
  str_append,
}
use na_sso.Lifecycle.Values.{is_delete}
use na_sso.Models.{ManagedUser, AccountStatus, active, disabled, DecisionKind, expired}

pub data ErrorKind : Type 0 where
  authentication validation not_found conflict rate_limited unavailable timeout : ErrorKind
  remote_rejected internal : ErrorKind

pub record SyncResult : Type 0 where
  pub ok : Bool
  pub detail : String
  pub error_kind : Option ErrorKind

-- "ensure", "disable" and "delete".
pub data ConnectorOperation : Type 0 where
  ensure disable delete : ConnectorOperation

pub record Connector : Type 0 where
  pub target_id : String
  pub target_type : String
  pub display_name : String
  pub ensure_supported : Bool
  pub disable_supported : Bool
  pub delete_supported : Bool
  pub needs_password : Bool
  pub default_memberships : List String

abbrev pub operation_text : ConnectorOperation → String
operation_text ensure = "ensure"
operation_text disable = "disable"
operation_text delete = "delete"

abbrev is_disabled : AccountStatus → Bool
is_disabled disabled = true
is_disabled active = false

abbrev pub is_expired : DecisionKind → Bool
is_expired expired = true
is_expired _ = false

unfoldable pub lifecycle_operation_for : ManagedUser → Bool → Bool → ConnectorOperation
lifecycle_operation_for user deleting disabling =
    if deleting || is_delete user.desired_action || is_some user.deleted_at
    then delete
    else if disabling || is_disabled user.status || is_expired user.password_decision_kind
    then disable
    else ensure

unfoldable pub supports_operation : Connector → ConnectorOperation → Bool
supports_operation c ensure = c.ensure_supported
supports_operation c disable = c.disable_supported
supports_operation c delete = c.delete_supported

unfoldable pub unsupported_operation_detail : Connector → ConnectorOperation → String
unsupported_operation_detail c operation =
    str_append c.display_name
      (str_append " declares " (str_append (operation_text operation) " unsupported."))

-- `available[target]`, the connectors by their target.
unfoldable pub connector_for : List Connector → String → Option Connector
connector_for List.[] target = none
connector_for (List.◌∷◌ c rest) target =
    if str_eq c.target_id target then some c else connector_for rest target
