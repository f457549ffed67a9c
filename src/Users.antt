-- ===== src/Users.antt =====
-- na_sso/users.py: the change of an account's wanted state (`_set_pending`) and the deletion handler.
pub mod Restore
pub mod Selection
pub mod Stuck
pub mod Withheld
mod Examples
mod Restorations
use na_sso.Prelude.{
  ℕ, String, Bool, true, false, not, ◌&&◌, ◌||◌, Option, none, some, List, [], ◌∷◌, ◌++◌, any,
  filter, map, if◌then◌else◌, str_eq, str_append, is_some,
}
use na_sso.Outcome.{Fault, value_error, key_error, Outcome, returned, raised}
use na_sso.Lifecycle.Values.{
  DesiredAction, SyncStateValue, pending, ok, chpw, awaiting_credentials, pending_disable,
  pending_chpw_disable, LifecycleCommand,
}
use na_sso.Models.{is_root, SyncState, ManagedUser, LifecycleOperation, UnitOfWork}
use na_sso.Permissions.{manage_security, has_permission}
use na_sso.Connectors.{Connector, connector_for}
use na_sso.Operations.{request_operation}
use na_sso.Mfa.Rows.{Account}
use na_sso.Auth.{Guarded, admitted, turned_away}
use na_sso.Sync.Rows.{notified}
use na_sso.Sync.Conclude.{World}

abbrev pub is_in : List String → String → Bool
is_in targets target = any (str_eq target) targets

-- A target that is not selected any more is to be disabled.
unfoldable pub unselect : List String → List SyncState → List SyncState
unselect selected [] = []
unselect selected (row ∷ rest) =
    (if not (is_in selected row.target) && row.assigned
      then record row { assigned = false; state = pending_disable; next_retry_at = none }
      else row)
    ∷ unselect selected rest

abbrev is_ok_state : SyncStateValue → Bool
is_ok_state ok = true
is_ok_state _ = false

-- The keyword arguments of `_set_pending` and the password, of which only its presence matters here.
pub record Wanted : Type 0 where
  pub has_password : Bool
  pub require_password_change : Bool
  pub remote_accounts_absent : Bool

abbrev pub selected_state : Wanted → Bool → SyncState → SyncStateValue
selected_state g needs_password row =
    if g.require_password_change
    then (if not g.remote_accounts_absent && row.assigned && is_ok_state row.state
        then pending_chpw_disable
        else chpw)
    else if not row.assigned && needs_password && not g.has_password
    then awaiting_credentials
    else pending

unfoldable pub select : Wanted → Bool → SyncState → SyncState
select g needs_password row = record row {
  assigned = true;
  retired = false;
  state = selected_state g needs_password row;
  detail =
      (if g.require_password_change then "password change required before propagation" else "");
  attempt_count = 0;
  next_retry_at = none;
}

-- A row that is made for the target counts as not assigned before.
abbrev pub new_row : String → SyncState
new_row target = record {
  target = target;
  assigned = false;
  retired = false;
  state = pending;
  detail = "";
  attempt_count = 0;
  next_retry_at = none;
  operation_id = none;
}

unfoldable pub select_row : Wanted → Bool → String → List SyncState → List SyncState
select_row g needs_password target [] = select g needs_password (new_row target) ∷ []
select_row g needs_password target (row ∷ rest) =
    let later = select_row g needs_password target rest in
    if str_eq row.target target then select g needs_password row ∷ rest else row ∷ later

abbrev pub select_next :
    Option Connector → (Connector → Outcome (List SyncState)) → Outcome (List SyncState)
select_next none next = raised key_error
select_next (some c) next = next c

-- The loop over the selected targets; a target without a connector raises.
unfoldable pub select_rows :
    Wanted → List Connector → List String → List SyncState → Outcome (List SyncState)
select_rows g available [] rows = returned rows
select_rows g available (target ∷ rest) rows =
    select_next (connector_for available target)
      (λ c. select_rows g available rest (select_row g c.needs_password target rows))

abbrev pub with_states : List SyncState → UnitOfWork → UnitOfWork
with_states rows w = record w { user = record w.user { sync_states = rows } }

abbrev pub selected_rows : Outcome (List SyncState) → UnitOfWork → Outcome (Unit {0}) × UnitOfWork
selected_rows (returned rows) w = (returned tt, with_states rows w)
selected_rows (raised fault) w = (raised fault, w)

abbrev pub staged_secret : Wanted → Option String → UnitOfWork → UnitOfWork
staged_secret g none w =
    if g.require_password_change
    then record w { user = record w.user { pending_secret = none } }
    else w
staged_secret g (some secret) w = record w {
  user = record w.user {
    pending_secret = (if g.require_password_change then none else some secret);
  };
}

abbrev pub some_target : List String → Bool
some_target [] = false
some_target (target ∷ rest) = true

-- `_set_pending` for given targets, in the case that leaves the exceptions of the assignments alone. The
-- secret is what Fernet makes of the password. What a call that raises has written is not committed.
unfoldable pub set_pending :
    List Connector
    → Bool
    → Bool
    → Option String
    → List String
    → UnitOfWork
    → Outcome (Unit {0}) × UnitOfWork
set_pending available require_password_change remote_accounts_absent secret selected w =
    let g : Wanted = record {
      has_password = is_some secret;
      require_password_change = require_password_change;
      remote_accounts_absent = remote_accounts_absent;
    } in
    let w' = staged_secret g secret w in
    if is_root w'.user && some_target selected
    then (raised (value_error "root account cannot have target assignments"), w')
    else selected_rows (select_rows g available selected (unselect selected w'.user.sync_states)) w'

-- Who may manage the account.
unfoldable pub can_manage_subject : Account → ManagedUser → Bool
can_manage_subject principal user =
    (has_permission principal.role manage_security || str_eq user.role "user") && not (is_root user)

abbrev pub assigned_targets : List SyncState → List String
assigned_targets rows =
    map (λ row. row.target) (filter (λ row. row.assigned && not row.retired) rows)

module _ (x : World) where
  abbrev pub deleting : UnitOfWork → UnitOfWork
  deleting w = record w {
    user = record w.user {
      desired_action = DesiredAction.delete;
      deletion_requested_at = some x.now;
      deleted_at = none;
    };
  }

  abbrev pub recorded : String → LifecycleOperation → UnitOfWork → UnitOfWork
  recorded admin o w =
      notified "approval.completed" (str_append "delete:" o.id) "approved" (record w {
        audit =
            w.audit
            ++ record {
              actor = admin;
              action = "user.delete";
              subject = w.user.username;
              detail = "requested";
              operation_id = some o.id;
            }
              ∷ [];
      })

  abbrev pub delete_pending :
      String
      → LifecycleOperation
      → Outcome (Unit {0}) × UnitOfWork
      → Outcome (Option String) × UnitOfWork
  delete_pending admin o (returned done, w) = (returned (some o.id), recorded admin o w)
  delete_pending admin o (raised fault, w) = (raised fault, w)

  abbrev pub delete_requested :
      String → Outcome LifecycleOperation × UnitOfWork → Outcome (Option String) × UnitOfWork
  delete_requested admin (returned o, w) =
      delete_pending admin o (
        set_pending x.available false false none (assigned_targets w.user.sync_states) (deleting w))
  delete_requested admin (raised fault, w) = (raised fault, w)

  -- The operation whose run the handler starts in the background, or none where it turns the request
  -- away. The account exists.
  unfoldable pub delete_user : Guarded → UnitOfWork → Outcome (Option String) × UnitOfWork
  delete_user (turned_away reply) w = (returned none, w)
  delete_user (admitted principal) w =
      if can_manage_subject principal w.user
      then delete_requested principal.username
          (request_operation x.now x.new_id LifecycleCommand.delete principal.username none w)
      else (returned none, w)
