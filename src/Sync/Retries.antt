-- ===== src/Sync/Retries.antt =====
-- Retries of a failed target: when one is scheduled, how long it waits, and who hears of it.
use na_sso.Prelude.{
  ℕ, ◌+◌, String, ◌≡◌, Bool, false, ◌&&◌, Option, some, List, [], ◌∷◌, arith, length, All,
  if◌then◌else◌, ltb, leb, ◌==◌,
}
use mathlib.Core.Option
use na_sso.Lifecycle.Values.{DesiredAction, is_delete, failed}
use na_sso.Models.{SyncState, UnitOfWork}
use na_sso.Operations.Rows.{returned}
use na_sso.Connectors.{SyncResult}
use na_sso.Sync.Rows.{Job, sync_row, record_result, is_validation}
use na_sso.Sync.Loop.{sync_row_ind, sync_rows_ind, cleared}
use na_sso.Sync.Scope.{mark, in_scope, is_reached, sync_rows}
use na_sso.Sync.Conclude.{World}
use na_sso.Sync.Deletion.{conclude-sync_states}
use na_sso.Sync.{job, with_rows, legacy_rows, propagate, sync_user}
use na_sso.Sync.Run.{sync_user-IsRun}

-- A retry is scheduled only for a failed row.
abbrev pub IsScheduled : SyncState → Type 0
IsScheduled row = (t : ℕ) → row.next_retry_at ≡ some t → row.state ≡ failed

record_result-IsScheduled :
    (job : Job) (row : SyncState) (result : SyncResult)
    → IsScheduled (record_result job row result).0
unfolding record_result
record_result-IsScheduled job row result t e = ground arith

sync_row-IsScheduled :
    (job : Job) (row : SyncState) (w : UnitOfWork)
    → IsScheduled row
    → IsScheduled (sync_row job row w).0
sync_row-IsScheduled job row w h =
    sync_row_ind job IsScheduled row w h (λ d t e. cc) (record_result-IsScheduled job (cleared row))

mark-IsScheduled :
    (scope : SyncState → Bool) (id : String) (rows : List SyncState)
    → All IsScheduled rows
    → All IsScheduled (mark scope id rows)
unfolding mark
mark-IsScheduled scope id [] h = tt
mark-IsScheduled scope id (row ∷ rest) (h, hs) =
    (λ t e. ground (arith, h t), mark-IsScheduled scope id rest hs)

-- Where only failed rows of the account (or of the rows made for an account that has none) have a
-- retry scheduled, a run that returns an operation leaves it so.
pub sync_user-IsScheduled :
    (x : World) (action : Option DesiredAction) (target : Option String) (actor : String)
    (operation_id : Option String) (w w' : UnitOfWork) (id : String)
    → sync_user x action target actor operation_id w ≡ (returned (some id), w')
    → All IsScheduled (legacy_rows x w.user.sync_states)
    → All IsScheduled w'.user.sync_states
unfolding propagate
sync_user-IsScheduled x action target actor operation_id w w' id ran h =
    let desired = Option.get_or action w.user.desired_action in
    let r = sync_user-IsRun x action target actor operation_id w w' id ran in
    let wanted = in_scope (is_delete desired) target x.available in
    let reached = is_reached (is_delete desired) target x.available in
    let work = job x desired target actor id r.password r.opened in
    let (rows, v) = sync_rows work reached r.opened.user.sync_states r.opened in
    rw r.ends (
      rw (conclude-sync_states x desired id (with_rows x desired target actor rows v)) (
        sync_rows_ind work IsScheduled IsScheduled reached r.opened.user.sync_states r.opened
          (λ row u e p. sync_row-IsScheduled work row u p) (λ row e p. p)
          (rw r.marked (mark-IsScheduled wanted id (legacy_rows x w.user.sync_states) h))))

-- A failure that the connector does not declare unsatisfiable.
abbrev pub IsPlainFailure : SyncResult → Type 0
IsPlainFailure result = (result.ok ≡ false) × (is_validation result.error_kind ≡ false)

-- Records results one after another, and counts how often a failure was a persistent one.
pub record_results : Job → SyncState → List SyncResult → SyncState × ℕ
record_results job row [] = (row, 0)
record_results job row (result ∷ rest) =
    let (row', persistent) = record_result job row result in
    let (last, n) = record_results job row' rest in (last, if persistent then n + 1 else n)

failure-record_result :
    (job : Job) (row : SyncState) (result : SyncResult)
    → IsPlainFailure result
    → ((record_result job row result).0.attempt_count ≡ row.attempt_count + 1)
      × ((record_result job row result).1
          ≡ (row.attempt_count + 1 == job.settings.persistent_failure_attempts))
unfolding record_result
failure-record_result job row result h = ground arith

-- In an uninterrupted series of failures that are no validation failures each one is counted, and the
-- failure is persistent exactly once where the series reaches the configured number, and else never.
persistent_once :
    (job : Job) (row : SyncState) (results : List SyncResult)
    → All IsPlainFailure results
    → let n = job.settings.persistent_failure_attempts in
      ((record_results job row results).0.attempt_count ≡ row.attempt_count + length results)
      × ((record_results job row results).1 ≡ (
          if ltb row.attempt_count n && leb n (row.attempt_count + length results) then 1 else 0))
unfolding record_results
persistent_once job row [] h = (omega arith, ground arith)
persistent_once job row (result ∷ rest) (h, hs) =
    let (counted, flagged) = failure-record_result job row result h in
    let (total, told) = persistent_once job (record_result job row result).0 rest hs in
    (omega arith, ground arith)
