-- ===== src/Users/Restorations.antt =====
-- A run of the restore handler, on an account that was deleted on one target and taken off another.
use na_sso.Prelude.{String, ◌≡◌, refl, true, false, none, some, [], ◌∷◌, ◌==◌, leb, ◌&&◌}
use na_sso.Outcome.{returned}
use na_sso.Lifecycle.Values.{DesiredAction, SyncStateValue, unassigned}
use na_sso.Lifecycle.Transition.{decide_transition}
use na_sso.Models.{is_root}
use na_sso.Permissions.{has_permission}
use na_sso.Connectors.{connector_for}
use na_sso.Operations.{request_operation, get_active_operation, create_operation}
use na_sso.Samples.{row, work, calm}
use na_sso.Mfa.Rows.{Text, Account}
use na_sso.Auth.{admitted}
use na_sso.Passwords.{grace, validate_password}
use na_sso.Passwords.Action.{PasswordWorld}
use na_sso.Assignments.{resolve_assignment_intents}
use na_sso.ServiceAccounts.Credentials.{strip}
use na_sso.Users.{unselect, select, select_row, select_rows, set_pending, can_manage_subject}
use na_sso.Users.Restore.{RestoreWork, restored, is_removed, restore_user}
use na_sso.Users.Withheld.{IsHeld, restore_user-IsHeld}

abbrev temporary : Text
temporary = 111 ∷ 108 ∷ 100 ∷ 33 ∷ 33 ∷ []

abbrev lenient : PasswordWorld
lenient = record {
  texts = record {
    is_lower = λ c. leb 97 c && leb c 122;
    is_upper = λ c. leb 65 c && leb c 90;
    is_digit = λ c. leb 48 c && leb c 57;
    is_alphanumeric = λ c. leb 48 c && leb c 122;
    is_space = λ c. c == 32;
    lower = λ plain. plain;
    verify_password = λ plain hash. false;
  };
  policy = record {
    min_length = 3;
    max_length = 72;
    require_lowercase = true;
    require_uppercase = false;
    require_digit = false;
    require_symbol = true;
    max_repeated_characters = none;
    max_numeric_sequence = none;
    reject_identity_terms = false;
    min_identity_distance = 0;
    history_size = 4;
    expires_after_days = none;
    expiry_acknowledgement_mode = grace;
    expiry_acknowledgement_grace_days = 7;
    expiry_acknowledgement_limit = some 2;
  };
  hash_password = λ plain. "hash-2";
  encrypt_secret = λ plain. "sealed-2";
  points = λ text. 97 ∷ 108 ∷ 105 ∷ 99 ∷ 101 ∷ [];
  acknowledgement_text = λ until count. "kept";
}

abbrev security_admin : Account
security_admin = record {
  id = 1;
  username = "sam";
  role = "security_admin";
  session_version = 1;
  mfa_verified = true;
  authenticated_at = 900;
  restricted = false;
}

abbrev removed_account : RestoreWork
removed_account =
    let w = work (row "gitea" true SyncStateValue.ok ∷ row "nexus" false unassigned ∷ []) in
    record {
      work = record w {
        user = record w.user { desired_action = DesiredAction.delete; deleted_at = some 5 };
      };
      history = [];
      profile = some (("gitea", []) ∷ []);
      exceptions = [];
    }

abbrev after_restore : RestoreWork
after_restore =
    (restore_user calm lenient (admitted security_admin) temporary (some temporary)
      removed_account).1

restore_ran :
    restore_user calm lenient (admitted security_admin) temporary (some temporary) removed_account
    ≡ (returned (restored "op-1"), after_restore)
unfolding restore_user can_manage_subject is_root has_permission request_operation
    get_active_operation decide_transition create_operation set_pending unselect select_rows
    select_row select connector_for validate_password resolve_assignment_intents strip
restore_ran = refl

restore_user-IsHeld_example :
    (is_removed removed_account.work.user ≡ true)
    × (after_restore.work.user.deleted_at ≡ none)
    × ((t : String) → IsHeld t after_restore.work.user.sync_states)
restore_user-IsHeld_example =
    restore_user-IsHeld calm lenient (admitted security_admin) temporary (some temporary)
      removed_account after_restore "op-1" restore_ran
