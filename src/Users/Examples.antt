-- ===== src/Users/Examples.antt =====
-- Runs of the deletion handler, on an account that was taken off one of two targets.
use na_sso.Prelude.{◌≡◌, refl, inl, inr, true, false, none, some, [], ◌∷◌, All}
use na_sso.Outcome.{returned}
use na_sso.Lifecycle.Values.{DesiredAction, SyncStateValue, unassigned}
use na_sso.Lifecycle.Transition.{decide_transition}
use na_sso.Models.{is_root, UnitOfWork}
use na_sso.Permissions.{has_permission}
use na_sso.Connectors.{connector_for}
use na_sso.Operations.{request_operation, get_active_operation, create_operation}
use na_sso.Samples.{row, work, calm, gitea}
use na_sso.Mfa.Rows.{Account}
use na_sso.Auth.{admitted}
use na_sso.Sync.{sync_user}
use na_sso.Sync.Examples.{program}
use na_sso.Users.{
  unselect, select, select_row, select_rows, set_pending, can_manage_subject, delete_user,
}
use na_sso.Users.Selection.{IsSettled, set_pending-IsSettled}
use na_sso.Users.Stuck.{delete_user-stuck}

abbrev two_rows : UnitOfWork
two_rows = work (row "gitea" true SyncStateValue.ok ∷ row "nexus" false unassigned ∷ [])

abbrev after_pending : UnitOfWork
after_pending = (set_pending (gitea ∷ []) false false (some "sealed") [] two_rows).1

set_pending_ran :
    set_pending (gitea ∷ []) false false (some "sealed") [] two_rows ≡ (returned tt, after_pending)
unfolding set_pending is_root unselect select_rows
set_pending_ran = refl

set_pending-IsSettled_example : All (IsSettled []) after_pending.user.sync_states
set_pending-IsSettled_example =
    set_pending-IsSettled (gitea ∷ []) false false (some "sealed") [] two_rows after_pending
      set_pending_ran ((λ t e. cc), ((λ t e. cc), tt))

abbrev operator_account : Account
operator_account = record {
  id = 1;
  username = "olga";
  role = "user_operator";
  session_version = 1;
  mfa_verified = true;
  authenticated_at = 900;
  restricted = false;
}

abbrev after_delete : UnitOfWork
after_delete = (delete_user calm (admitted operator_account) two_rows).1

delete_user_ran :
    delete_user calm (admitted operator_account) two_rows ≡ (returned (some "op-1"), after_delete)
unfolding delete_user can_manage_subject is_root has_permission request_operation
    get_active_operation decide_transition create_operation set_pending unselect select_rows
    select_row select connector_for
delete_user_ran = refl

abbrev after_run : UnitOfWork
after_run = (sync_user calm (some DesiredAction.delete) none "system" (some "op-1") after_delete).1

deletion : Unit {0}
unfolding program delete_user can_manage_subject has_permission set_pending unselect select_rows
    select_row select
deletion = tt

run_ran :
    sync_user calm (some DesiredAction.delete) none "system" (some "op-1") after_delete
    ≡ (returned (some "op-1"), after_run)
unfolding deletion
run_ran = refl

delete_user-stuck_example : after_run.user.deleted_at ≡ none
delete_user-stuck_example =
    delete_user-stuck calm (admitted operator_account) two_rows after_delete after_run "op-1" "op-1"
      calm "system" (inr (inl ((refl, refl, (λ e. cc), (λ e. cc)), refl))) delete_user_ran run_ran
