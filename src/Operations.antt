-- ===== src/Operations.antt =====
-- na_sso/operations.py: correlated lifecycle operations and the attempts on their targets.
-- A row is found by its primary key, and a write to a row object is a write to the row of that key.
pub mod Rows
pub mod Frame
pub mod Single
pub mod Requests
pub mod Attempts
mod Examples
use na_sso.Prelude.{
  ℕ, ◌+◌, String, Bool, true, false, ◌&&◌, ◌||◌, not, Option, none, some, is_some, List, [], ◌∷◌,
  ◌++◌, map, leb, holds_text, if◌then◌else◌, str_eq, str_append,
}
use mathlib.Core.Option
use Rows.{Fault, operation_conflict, value_error, Outcome, returned, raised, find, modify}
use na_sso.Lifecycle.Values.{
  DesiredAction, ensure, delete, LifecycleCommand, OperationStatus, queued, running, succeeded,
  failed, partially_failed, cancelled, terminal, command_value, SyncStateValue, unsupported,
  pending, to_string,
}
use na_sso.Lifecycle.Transition.{
  TransitionMode, start, reuse, supersede, reject, decide_transition, is_repairable,
}
use na_sso.Lifecycle.States.{sync_state_is_terminal}
use na_sso.Models.{ManagedUser, LifecycleOperation, OperationTargetAttempt, SyncState, UnitOfWork}

abbrev pub set_active : Option String → UnitOfWork → UnitOfWork
set_active id w = record w { user = record w.user { active_operation_id = id } }

abbrev keep_active : Option LifecycleOperation → UnitOfWork → Option LifecycleOperation × UnitOfWork
keep_active none w = (none, set_active none w)
keep_active (some o) w = if terminal o.status then (none, set_active none w) else (some o, w)

abbrev look_up : Option String → UnitOfWork → Option LifecycleOperation × UnitOfWork
look_up none w = (none, w)
look_up (some id) w = keep_active (find id w.operations) w

-- A pointer to a missing or finished operation is cleared.
unfoldable pub get_active_operation : UnitOfWork → Option LifecycleOperation × UnitOfWork
unfolding find
get_active_operation w = look_up w.user.active_operation_id w

abbrev pub can_resume : OperationStatus → Bool
can_resume failed = true
can_resume partially_failed = true
can_resume queued = true
can_resume running = true
can_resume _ = false

module _ (now : ℕ) where
  abbrev pub finished : OperationStatus → ℕ → ℕ → String → LifecycleOperation → LifecycleOperation
  finished status completed failures detail o = record o {
    status = status;
    completed_targets = completed;
    failed_targets = failures;
    detail = detail;
    completed_at = some now;
  }

  abbrev clear_if_active : String → UnitOfWork → UnitOfWork
  clear_if_active id w = if holds_text w.user.active_operation_id id then set_active none w else w

  unfoldable pub finish_operation :
      String → OperationStatus → ℕ → ℕ → String → UnitOfWork → Outcome (Unit {0}) × UnitOfWork
  finish_operation id status completed failures detail w =
      if not (terminal status)
      then (raised (value_error "finished operation requires a terminal status"), w)
      else (
        returned tt,
        clear_if_active id (record w {
          operations = modify id (finished status completed failures detail) w.operations;
        }),
      )

  abbrev pub restarted : Option String → LifecycleOperation → LifecycleOperation
  restarted requested_target o = record o {
    status = running;
    completed_at = none;
    requested_target = (if is_some requested_target then requested_target else o.requested_target);
    started_at = (if is_some o.started_at then o.started_at else some now);
  }

  unfoldable pub resume_operation :
      LifecycleOperation → Option String → UnitOfWork → Outcome (Unit {0}) × UnitOfWork
  resume_operation o requested_target w =
      if not (can_resume o.status)
      then (raised (operation_conflict "only queued, running, or failed operations can resume"), w)
      else (
        returned tt,
        set_active (some o.id)
            (record w { operations = modify o.id (restarted requested_target) w.operations }),
      )

  unfoldable pub start_operation : String → ℕ → UnitOfWork → UnitOfWork
  start_operation id total w = record w {
    operations =
        modify id
          (λ o. record o {
            status = running;
            total_targets = total;
            completed_targets = 0;
            failed_targets = 0;
            started_at = some now;
            completed_at = none;
          })
          w.operations;
  }

module _ (now : ℕ) (new_id : String) where
  abbrev fresh_operation :
      ManagedUser
      → LifecycleCommand
      → String
      → Option String
      → Option LifecycleOperation
      → LifecycleOperation
  fresh_operation user command actor requested_target supersedes = record {
    id = new_id;
    user_id = some user.id;
    command = command;
    status = queued;
    actor = actor;
    subject = user.username;
    requested_target = requested_target;
    supersedes_id = Option.map (λ o. o.id) supersedes;
    total_targets = 0;
    completed_targets = 0;
    failed_targets = 0;
    detail = "";
    started_at = none;
    completed_at = none;
  }

  unfoldable pub create_operation :
      LifecycleCommand
      → String
      → Option String
      → Option LifecycleOperation
      → UnitOfWork
      → LifecycleOperation × UnitOfWork
  create_operation command actor requested_target supersedes w =
      let o = fresh_operation w.user command actor requested_target supersedes in
      (o, set_active (some new_id) (record w { operations = w.operations ++ o ∷ [] }))

  -- What `request_operation` does with the decision on a request.
  perform :
      TransitionMode
      → String
      → Option LifecycleOperation
      → LifecycleCommand
      → String
      → Option String
      → UnitOfWork
      → Outcome LifecycleOperation × UnitOfWork
  perform reject reason active command actor target w = (raised (operation_conflict reason), w)
  perform reuse reason none command actor target w =
      (raised (operation_conflict "operation to reuse is unavailable"), w)
  perform reuse reason (some o) command actor target w = (returned o, w)
  perform supersede reason (some o) command actor target w =
      let w' =
        (finish_operation now o.id cancelled o.completed_targets o.failed_targets
          (str_append "superseded by " (command_value command)) w).1 in
      let (created, w'') = create_operation command actor target (some o) w' in
      (returned created, w'')
  perform _ reason active command actor target w =
      let (created, w') = create_operation command actor target none w in (returned created, w')

  unfoldable pub request_operation :
      LifecycleCommand
      → String
      → Option String
      → UnitOfWork
      → Outcome LifecycleOperation × UnitOfWork
  unfolding perform
  request_operation command actor target w =
      let (active, w') = get_active_operation w in
      let decision =
        decide_transition (Option.map (λ o. o.command) active) (Option.map (λ o. o.status) active)
          (is_some w'.user.deleted_at) command in
      perform decision.mode decision.reason active command actor target w'
