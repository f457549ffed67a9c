-- ===== src/Sync.antt =====
-- na_sso/sync.py: `_sync_user`, the worker that carries an account's wanted state to its targets. The
-- rows of one account are its `sync_states`, one for each target.
pub mod Rows
pub mod Scope
pub mod Conclude
pub mod Loop
pub mod Run
pub mod Deletion
pub mod Retries
pub mod Secrets
pub mod Status
pub mod Handoff
pub mod Examples
use na_sso.Prelude.{
  ℕ, ◌<◌, String, Bool, true, false, not, ◌&&◌, ◌||◌, Option, none, some, is_some, List, [], ◌∷◌,
  ◌++◌, ◌==◌, ltb, length, filter, map, all, holds_text, if◌then◌else◌, str_eq, str_append,
}
use mathlib.Core.Option
use na_sso.Lifecycle.Values.{
  DesiredAction, is_delete, SyncStateValue, failed, unsupported, chpw, pending, pending_disable,
  LifecycleCommand, credential_handoff, expire, update, OperationStatus, queued, succeeded,
  partially_failed, terminal, status_value, to_string,
}
use na_sso.Lifecycle.Transition.{is_repairable}
use na_sso.Lifecycle.States.{sync_state_is_terminal}
use na_sso.Models.{is_root, SyncState, ManagedUser, LifecycleOperation, UnitOfWork}
use na_sso.Connectors.{SyncResult, ConnectorOperation, Connector, connector_for}
use na_sso.Operations.Rows.{Outcome, returned, raised, find, modify}
use na_sso.Operations.{finish_operation, resume_operation, start_operation, request_operation}
use Rows.{Job}
use Scope.{in_scope, is_reached, mark, sync_rows}
use Conclude.{World, conclude}

command_for : DesiredAction → String → LifecycleCommand
command_for operation actor =
    if is_delete operation
    then LifecycleCommand.delete
    else if str_eq actor "verified-login"
    then credential_handoff
    else if str_eq actor "password-expiry"
    then expire
    else update

abbrev owns : Option ℕ → ℕ → Bool
owns none id = false
owns (some n) id = n == id

-- `db.get(LifecycleOperation, key) if key else None`.
abbrev by_key : Option String → List LifecycleOperation → Option LifecycleOperation
by_key none l = none
by_key (some id) l = find id l

unfoldable pub row_for : String → List SyncState → Option SyncState
row_for target [] = none
row_for target (row ∷ rest) = if str_eq row.target target then some row else row_for target rest

-- The failed operation of the target that a retry names.
abbrev repairable : Option LifecycleOperation → Option LifecycleOperation
repairable none = none
repairable (some o) = if is_repairable o.status then some o else none

abbrev retried : Option SyncState → List LifecycleOperation → Option LifecycleOperation
retried none l = none
retried (some row) l = repairable (by_key row.operation_id l)

candidate : Option String → UnitOfWork → Option LifecycleOperation
unfolding row_for find
candidate none w = none
candidate (some target) w = retried (row_for target w.user.sync_states) w.operations

abbrev is_queued : OperationStatus → Bool
is_queued queued = true
is_queued _ = false

module _ (x : World) (desired : DesiredAction) (target : Option String) (actor : String) where
  -- The key of a requested operation; a conflict ends the run.
  abbrev requested : Outcome LifecycleOperation × UnitOfWork → Option String × UnitOfWork
  requested (returned o, w) = (some o.id, w)
  requested (raised fault, w) = (none, w)

  abbrev reuse_or_request : Option LifecycleOperation → UnitOfWork → Option String × UnitOfWork
  reuse_or_request (some o) w = (some o.id, (resume_operation x.now o target w).1)
  reuse_or_request none w =
      requested (request_operation x.now x.new_id (command_for desired actor) actor target w)

  abbrev choose : Option LifecycleOperation → UnitOfWork → Option String × UnitOfWork
  choose (some o) w = if owns o.user_id w.user.id then (some o.id, w) else (none, w)
  choose none w = reuse_or_request (candidate target w) w

  -- The operation of this run, or none where the run ends.
  unfoldable pub choose_operation : Option String → UnitOfWork → Option String × UnitOfWork
  unfolding command_for candidate
  choose_operation operation_id w = choose (by_key operation_id w.operations) w

  abbrev with_total : String → ℕ → UnitOfWork → UnitOfWork
  with_total id n w = record w {
    operations =
        modify id
          (λ o. record o { total_targets = (if o.total_targets == 0 then n else o.total_targets) })
          w.operations;
  }

  abbrev resumed : String → ℕ → Outcome (Unit {0}) × UnitOfWork → Outcome (Unit {0}) × UnitOfWork
  resumed id n (returned done, w) = (returned done, with_total id n w)
  resumed id n (raised fault, w) = (raised fault, w)

  -- A queued operation starts, and any other one resumes or raises.
  abbrev open_operation :
      Option LifecycleOperation → ℕ → UnitOfWork → Outcome (Unit {0}) × UnitOfWork
  open_operation none n w = (returned tt, w)
  open_operation (some o) n w =
      if is_queued o.status
      then (returned tt, start_operation x.now o.id n w)
      else resumed o.id n (resume_operation x.now o target w)

  abbrev scope : SyncState → Bool
  scope = in_scope (is_delete desired) target x.available

  abbrev job : String → Option String → UnitOfWork → Job
  job id password w = record {
    settings = x.settings;
    now = x.now;
    actor = actor;
    user = w.user;
    desired_action = desired;
    password = password;
    operation_id = id;
    available = x.available;
    intents = x.intents;
    remote = x.remote;
  }

  abbrev with_rows : List SyncState → UnitOfWork → UnitOfWork
  with_rows rows w = record w { user = record w.user { sync_states = rows } }

  -- The loop over the targets and the end of the run.
  unfoldable pub propagate : String → Option String → UnitOfWork → UnitOfWork
  propagate id password w =
      let (rows, w') =
        sync_rows (job id password w) (is_reached (is_delete desired) target x.available)
          w.user.sync_states w in
      conclude x desired id (with_rows rows w')

  abbrev finish_run :
      String
      → Option String
      → Outcome (Unit {0}) × UnitOfWork
      → Outcome (Option String) × UnitOfWork
  finish_run id password (returned done, w) = (returned (some id), propagate id password w)
  finish_run id password (raised fault, w) = (raised fault, w)

  abbrev run : Option String → Option String × UnitOfWork → Outcome (Option String) × UnitOfWork
  run password (none, w) = (returned none, w)
  run password (some id, w) =
      let rows = w.user.sync_states in
      let marked = with_rows (mark scope id rows) w in
      finish_run id password
        (open_operation (find id marked.operations) (length (filter scope rows)) marked)

-- Without a configuration file, an account with no row gets one for each connector.
unfoldable pub legacy_rows : World → List SyncState → List SyncState
legacy_rows x [] =
    if x.settings.has_config_file
    then []
    else map
        (λ c. record {
          target = c.target_id;
          assigned = true;
          retired = false;
          state = pending;
          detail = "";
          attempt_count = 0;
          next_retry_at = none;
          operation_id = none;
        })
        x.available
legacy_rows x (row ∷ rest) = row ∷ rest

-- The run on an account that exists. A run that raises is not committed.
unfoldable pub sync_user :
    World
    → Option DesiredAction
    → Option String
    → String
    → Option String
    → UnitOfWork
    → Outcome (Option String) × UnitOfWork
unfolding legacy_rows
sync_user x action target actor operation_id w =
    if is_root w.user
    then (returned none, w)
    else (let desired = Option.get_or action w.user.desired_action in
        let password = Option.map x.decrypt_secret w.user.pending_secret in
        let w' = with_rows x desired target actor (legacy_rows x w.user.sync_states) w in
        run x desired target actor password
          (choose_operation x desired target actor operation_id w'))
