-- ===== src/Lifecycle/States.antt =====
-- na_sso/lifecycle.py: `_PRESENTATIONS`, `normalise_sync_state`, `present_sync_state`,
-- `sync_state_payload` and `sync_state_is_terminal`.
pub mod Terminal
use na_sso.Prelude.{
  ℕ, String, Bool, true, false, not, ◌&&◌, Option, none, some, is_some, if◌then◌else◌,
}
use na_sso.Lifecycle.Values.{
  DesiredAction, is_delete, SyncStateValue, not_assigned, pending, ok, failed, unsupported, chpw,
  awaiting_credentials, pending_disable, pending_chpw_disable, pending_expiry_disable, unassigned,
  retired, expired_disabled, to_string, of_string,
}

pub record SyncPresentation : Type 0 where
  pub label : String
  pub badge_class : String
  pub description : String
  pub retryable : Bool
  pub terminal : Bool

abbrev shown : String → String → String → Bool → Bool → SyncPresentation
shown label badge description retryable terminal = record {
  label = label;
  badge_class = badge;
  description = description;
  retryable = retryable;
  terminal = terminal;
}

unfoldable pub presentation : SyncStateValue → SyncPresentation
presentation not_assigned =
    shown "Not assigned" "badge-planned" "This target is not assigned to the account." false true
presentation pending =
    shown "Pending" "badge-planned" "The target operation is waiting to run." false false
presentation ok =
    shown "OK" "badge-shipped" "The target matches the requested account state." false true
presentation failed = shown "Failed" "badge-danger" "The latest target operation failed." true true
presentation unsupported =
    shown "Unsupported on target" "badge-danger"
      "The target cannot perform the requested operation; automatic retry would not help." false
      true
presentation chpw =
    shown "Password change required" "badge-planned"
      "The account stays uncreated or disabled until the user replaces the temporary password."
      false true
presentation awaiting_credentials =
    shown "Waiting for verified password" "badge-planned"
      "Sign-in or a password action must supply a verified password before this target can continue."
      false true
presentation pending_disable =
    shown "Disabling" "badge-planned" "The unassigned target account is being disabled." false false
presentation pending_chpw_disable =
    shown "Disabling for password change" "badge-planned"
      "The target account is being disabled until the user replaces the temporary password." false
      false
presentation pending_expiry_disable =
    shown "Disabling expired password" "badge-planned"
      "The target account is being disabled until the password-expiry decision is complete." false
      false
presentation unassigned =
    shown "Unassigned; disabled" "badge-planned"
      "The target is no longer assigned and its account is disabled." false true
presentation retired =
    shown "Retired target" "badge-planned" "The configured target is no longer available." false
      true
presentation expired_disabled =
    shown "Password expired; disabled" "badge-planned"
      "The target account is disabled until the user completes the password-expiry decision." false
      true

-- The values that an unassigned row may show as they are.
abbrev shown_unassigned : SyncStateValue → Bool
shown_unassigned not_assigned = true
shown_unassigned pending_disable = true
shown_unassigned retired = true
shown_unassigned failed = true
shown_unassigned unsupported = true
shown_unassigned _ = false

-- The end of `normalise_sync_state`, on a value that was read.
unfoldable pub settle : Bool → SyncStateValue → SyncStateValue
settle assigned value = if not assigned && not (shown_unassigned value) then unassigned else value

abbrev read_state : Bool → Option SyncStateValue → SyncStateValue
read_state assigned none = pending
read_state assigned (some value) = settle assigned value

-- `none` is the row that is not there; any other text is what a row holds.
unfoldable pub normalise_sync_state : Option String → Bool → Bool → SyncStateValue
normalise_sync_state none assigned is_retired = if is_retired then retired else not_assigned
normalise_sync_state (some text) assigned is_retired =
    if is_retired then retired else read_state assigned (of_string text)

abbrev present_value : SyncStateValue → DesiredAction → Option ℕ → SyncPresentation
present_value ok desired next_retry_at =
    if is_delete desired
    then shown "Deleted" "badge-shipped" "The account was removed from this target." false true
    else presentation ok
present_value failed desired next_retry_at =
    if is_some next_retry_at
    then shown "Retrying" (presentation failed).badge_class
        "The latest target operation failed and automatic retry is scheduled." true false
    else presentation failed
present_value value desired next_retry_at = presentation value

unfoldable pub present_sync_state :
    Option String → Bool → Bool → DesiredAction → Option ℕ → SyncPresentation
present_sync_state state assigned is_retired desired next_retry_at =
    present_value (normalise_sync_state state assigned is_retired) desired next_retry_at

pub record SyncStatePayload : Type 0 where
  pub state : String
  pub assigned : Bool
  pub is_retired : Bool
  pub detail : String
  pub attempt_count : ℕ
  pub next_retry_at : Option ℕ
  pub operation_id : Option String
  pub presentation : SyncPresentation

-- The payload presents the text of the value that was normalised.
unfoldable pub sync_state_payload :
    Option String
    → Bool
    → Bool
    → DesiredAction
    → String
    → ℕ
    → Option ℕ
    → Option String
    → SyncStatePayload
sync_state_payload state assigned is_retired desired detail attempts next_retry_at operation_id =
    let value = normalise_sync_state state assigned is_retired in
    record {
      state = to_string value;
      assigned = assigned;
      is_retired = is_retired;
      detail = detail;
      attempt_count = attempts;
      next_retry_at = next_retry_at;
      operation_id = operation_id;
      presentation =
          present_sync_state (some (to_string value)) assigned is_retired desired next_retry_at;
    }

abbrev delete_terminal : SyncStateValue → Bool
delete_terminal ok = true
delete_terminal retired = true
delete_terminal not_assigned = true
delete_terminal _ = false

unfoldable pub sync_state_is_terminal : Option String → DesiredAction → Bool → Bool → Bool
sync_state_is_terminal state operation assigned is_retired =
    let value = normalise_sync_state state assigned is_retired in
    if is_delete operation then delete_terminal value else (presentation value).terminal
