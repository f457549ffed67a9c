-- ===== src/Sync/Examples.antt =====
-- Runs of the worker on small accounts.
use na_sso.Prelude.{
  ℕ, ◌≡◌, ◌≢◌, refl, sym, ◌∙◌, String, filter, if◌then◌else◌, true, false, Option, none, some, [],
  ◌∷◌, All, length,
}
use mathlib.Core.Option
use na_sso.Lifecycle.Values.{
  DesiredAction, delete, running, ok, failed, to_string, of_string, unassigned, terminal,
}
use na_sso.Lifecycle.Transition.{decide_transition}
use na_sso.Lifecycle.States.{normalise_sync_state, settle, sync_state_is_terminal, presentation}
use na_sso.Models.{is_root, UnitOfWork}
use na_sso.Operations.Rows.{returned, find, modify}
use na_sso.Operations.Attempts.{start_target_attempt, finish_target_attempt}
use na_sso.Operations.{
  get_active_operation, finish_operation, create_operation, start_operation, request_operation,
}
use na_sso.Connectors.{
  lifecycle_operation_for, supports_operation, unsupported_operation_detail, connector_for,
}
use na_sso.Sync.Rows.{
  sync_row, record_result, succeeded_state, retry_delay, operation_on, is_waiting, decline, attempt,
}
use na_sso.Sync.Scope.{in_scope, is_reached, mark, sync_rows, is_finished, belongs}
use na_sso.Sync.Conclude.{conclude, mine}
use na_sso.Sync.{legacy_rows, choose_operation, propagate, sync_user}
use na_sso.Sync.Deletion.{IsGone, deleted-IsGone}
use na_sso.Sync.Retries.{IsScheduled, sync_user-IsScheduled}
use na_sso.Sync.Secrets.{HasTaken, secret-HasTaken}
use na_sso.Sync.Status.{conclude-status, status_of}
use na_sso.Samples.{row, alice, work, operation, calm}

-- All that a run computes with.
unfoldable pub program : Unit {0}
unfolding sync_user legacy_rows choose_operation propagate conclude sync_rows mark in_scope
    is_reached is_finished sync_row decline attempt record_result succeeded_state retry_delay
    operation_on is_waiting lifecycle_operation_for supports_operation unsupported_operation_detail
    connector_for start_target_attempt finish_target_attempt request_operation get_active_operation
    create_operation finish_operation start_operation find modify decide_transition
    normalise_sync_state settle sync_state_is_terminal presentation to_string of_string is_root
program = tt

abbrev assigned_row : UnitOfWork
assigned_row = work (row "gitea" true ok ∷ [])

abbrev left_row : UnitOfWork
left_row = work (row "gitea" false unassigned ∷ [])

abbrev after : UnitOfWork → UnitOfWork
after w = (sync_user calm (some delete) none "admin" none w).1

ran_assigned :
    sync_user calm (some delete) none "admin" none assigned_row
    ≡ (returned (some "op-1"), after assigned_row)
unfolding program
ran_assigned = refl

assigned_deleted : (after assigned_row).user.deleted_at ≡ some 1000
unfolding program
assigned_deleted = refl

ran_left :
    sync_user calm (some delete) none "admin" none left_row
    ≡ (returned (some "op-1"), after left_row)
unfolding program
ran_left = refl

not_same : (n : ℕ) → some n ≢ none
not_same n e = cc

deleted-IsGone_example :
    All (λ r. belongs "op-1" r ≡ true → IsGone r) (after assigned_row).user.sync_states
deleted-IsGone_example =
    deleted-IsGone calm (some delete) none "admin" none assigned_row (after assigned_row) "op-1"
      ran_assigned (λ e. not_same 1000 (sym assigned_deleted ∙ e))

no_retries : All IsScheduled (legacy_rows calm assigned_row.user.sync_states)
unfolding legacy_rows
no_retries = ((λ t e. cc), tt)

sync_user-IsScheduled_example : All IsScheduled (after assigned_row).user.sync_states
sync_user-IsScheduled_example =
    sync_user-IsScheduled calm (some delete) none "admin" none assigned_row (after assigned_row)
      "op-1" ran_assigned no_retries

abbrev ensured : UnitOfWork
ensured = (sync_user calm none none "admin" none assigned_row).1

ran_ensured : sync_user calm none none "admin" none assigned_row ≡ (returned (some "op-1"), ensured)
unfolding program
ran_ensured = refl

secret_gone : ensured.user.pending_secret ≡ none
unfolding program
secret_gone = refl

abbrev sealed : Option String
sealed = some "sealed"

secret_was_there : sealed ≢ none
secret_was_there e = cc

secret-HasTaken_example : All (HasTaken calm.available) ensured.user.sync_states
secret-HasTaken_example =
    secret-HasTaken calm none none "admin" none assigned_row ensured "op-1" ran_ensured
      (λ e. secret_was_there (sym e ∙ secret_gone))

abbrev running_work : UnitOfWork
running_work = record {
  user = record (alice (record (row "gitea" true failed) { operation_id = some "op-1" } ∷ [])) {
    active_operation_id = some "op-1";
  };
  operations = operation "op-1" running ∷ [];
  attempts = [];
  audit = [];
  notifications = [];
}

found_running : find "op-1" running_work.operations ≡ some (operation "op-1" running)
unfolding find
found_running = refl

conclude-status_example :
    let w' = conclude calm DesiredAction.ensure "op-1" running_work in
    let done = length (
      filter
        (is_finished DesiredAction.ensure)
        (mine calm DesiredAction.ensure "op-1" running_work)) in
    (Option.map (λ o'. o'.status) (find "op-1" w'.operations) ≡ some (status_of 1 done 1))
    × (Option.map (λ o'. o'.completed_targets) (find "op-1" w'.operations) ≡ some done)
    × (Option.map (λ o'. o'.failed_targets) (find "op-1" w'.operations) ≡ some 1)
    × (w'.user.active_operation_id ≡ (if terminal (status_of 1 done 1) then none else some "op-1"))
conclude-status_example =
    conclude-status calm DesiredAction.ensure "op-1" running_work (operation "op-1" running)
      found_running refl refl
