-- ===== src/Sync/Status.antt =====
-- The status that a run of `_sync_user` gives its operation.
use na_sso.Prelude.{
  ℕ, String, ◌≡◌, refl, none, some, arith, eq_refl, length, filter, ltb, ◌==◌, if◌then◌else◌,
}
use mathlib.Core.Option
use na_sso.Lifecycle.Values.{
  DesiredAction, OperationStatus, running, succeeded, partially_failed, terminal,
}
use na_sso.Models.{LifecycleOperation, UnitOfWork}
use na_sso.Operations.Rows.{find, modify, find-modify}
use na_sso.Operations.{finish_operation, finished}
use na_sso.Sync.Scope.{is_failure, is_finished}
use na_sso.Sync.Conclude.{World, conclude, mine, failure_detail}

-- The status that the counts of the operation's rows call for: of `total` rows `done` are finished and
-- `failures` failed or were declined.
abbrev pub status_of : ℕ → ℕ → ℕ → OperationStatus
status_of total done failures =
    if ltb 0 failures
    then (if ltb failures done then partially_failed else OperationStatus.failed)
    else if done == total
    then succeeded
    else running

module _ (x : World) (desired : DesiredAction) (id : String) where
  abbrev counted_as : ℕ → ℕ → LifecycleOperation → LifecycleOperation
  counted_as done failures o = record o { completed_targets = done; failed_targets = failures }

  -- The active, running operation of the run ends it with the status that its rows call for (failed or
  -- partially failed with a failure among them, else succeeded if all are terminal, else running) and
  -- with their counts, and stays the account's active one only if that status is not terminal.
  pub conclude-status :
      (w : UnitOfWork) (o : LifecycleOperation)
      → find id w.operations ≡ some o
      → o.status ≡ running
      → w.user.active_operation_id ≡ some id
      → let w' = conclude x desired id w in
        let done = length (filter (is_finished desired) (mine x desired id w)) in
        let failures = length (filter is_failure (mine x desired id w)) in
        let status = status_of (length (mine x desired id w)) done failures in
        (Option.map (λ o'. o'.status) (find id w'.operations) ≡ some status)
        × (Option.map (λ o'. o'.completed_targets) (find id w'.operations) ≡ some done)
        × (Option.map (λ o'. o'.failed_targets) (find id w'.operations) ≡ some failures)
        × (w'.user.active_operation_id ≡ (if terminal status then none else some id))
  unfolding conclude finish_operation
  conclude-status w o found run active =
      let done = length (filter (is_finished desired) (mine x desired id w)) in
      let failures = length (filter is_failure (mine x desired id w)) in
      let rows = modify id (counted_as done failures) w.operations in
      let status = if ltb failures done then partially_failed else OperationStatus.failed in
      let detail = failure_detail x.decimal (filter is_failure (mine x desired id w)) in
      ground (
        arith,
        find-modify id id (counted_as done failures) w.operations (λ o. refl),
        find-modify id id (finished x.now status done failures detail) rows (λ o. refl),
        find-modify id id (finished x.now succeeded done 0 "") rows (λ o. refl),
        eq_refl id,
      )
