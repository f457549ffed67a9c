-- ===== src/Lifecycle/Values.antt =====
-- The enumerations of na_sso/lifecycle.py, with the texts that the database stores for them.
use na_sso.Prelude.{String, ◌≡◌, refl, Bool, true, false, Option, none, some, if◌then◌else◌, str_eq}

pub data DesiredAction : Type 0 where
  ensure delete local_only : DesiredAction

pub data SyncStateValue : Type 0 where
  not_assigned pending ok failed unsupported chpw awaiting_credentials pending_disable :
      SyncStateValue
  pending_chpw_disable pending_expiry_disable unassigned retired expired_disabled : SyncStateValue

pub data LifecycleCommand : Type 0 where
  create update enable disable delete restore purge retry expire credential_handoff :
      LifecycleCommand
  password_change reconcile bulk target_probe : LifecycleCommand

pub data OperationStatus : Type 0 where
  queued running succeeded partially_failed failed cancelled blocked : OperationStatus

abbrev pub is_delete : DesiredAction → Bool
is_delete DesiredAction.delete = true
is_delete _ = false

-- `status in TERMINAL_OPERATION_STATUSES`.
abbrev pub terminal : OperationStatus → Bool
terminal queued = false
terminal running = false
terminal _ = true

-- `LifecycleCommand(...).value` and `OperationStatus(...).value`.
abbrev pub command_value : LifecycleCommand → String
command_value create = "create"
command_value update = "update"
command_value enable = "enable"
command_value disable = "disable"
command_value LifecycleCommand.delete = "delete"
command_value restore = "restore"
command_value purge = "purge"
command_value retry = "retry"
command_value expire = "expire"
command_value credential_handoff = "credential_handoff"
command_value password_change = "password_change"
command_value reconcile = "reconcile"
command_value bulk = "bulk"
command_value target_probe = "target_probe"

abbrev pub status_value : OperationStatus → String
status_value queued = "queued"
status_value running = "running"
status_value succeeded = "succeeded"
status_value partially_failed = "partially_failed"
status_value OperationStatus.failed = "failed"
status_value cancelled = "cancelled"
status_value blocked = "blocked"

-- The text of a synchronization state, as `StrEnum` stores it.
unfoldable pub to_string : SyncStateValue → String
to_string not_assigned = "not_assigned"
to_string pending = "pending"
to_string ok = "ok"
to_string failed = "failed"
to_string unsupported = "unsupported"
to_string chpw = "chpw"
to_string awaiting_credentials = "awaiting_credentials"
to_string pending_disable = "pending_disable"
to_string pending_chpw_disable = "pending_chpw_disable"
to_string pending_expiry_disable = "pending_expiry_disable"
to_string unassigned = "unassigned"
to_string retired = "retired"
to_string expired_disabled = "expired_disabled"

-- `SyncStateValue(text)`; `none` is its `ValueError`.
unfoldable pub of_string : String → Option SyncStateValue
of_string text =
    if str_eq text "not_assigned"
    then some not_assigned
    else if str_eq text "pending"
    then some pending
    else if str_eq text "ok"
    then some ok
    else if str_eq text "failed"
    then some failed
    else if str_eq text "unsupported"
    then some unsupported
    else if str_eq text "chpw"
    then some chpw
    else if str_eq text "awaiting_credentials"
    then some awaiting_credentials
    else if str_eq text "pending_disable"
    then some pending_disable
    else if str_eq text "pending_chpw_disable"
    then some pending_chpw_disable
    else if str_eq text "pending_expiry_disable"
    then some pending_expiry_disable
    else if str_eq text "unassigned"
    then some unassigned
    else if str_eq text "retired"
    then some retired
    else if str_eq text "expired_disabled"
    then some expired_disabled
    else none

-- The text that is stored for a state is read back as that state.
pub of_string-to_string : (value : SyncStateValue) → of_string (to_string value) ≡ some value
unfolding of_string to_string
of_string-to_string not_assigned = refl
of_string-to_string _ = refl
