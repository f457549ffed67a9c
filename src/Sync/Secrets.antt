-- ===== src/Sync/Secrets.antt =====
-- When a run of `_sync_user` drops the stored password.
use na_sso.Prelude.{
  String, ◌≡◌, ◌≢◌, ap, ◌∙◌, true, false, ◌&&◌, ◌⊎◌, inl, inr, Option, some, List, [], ◌∷◌, arith,
  &&-right, All, all, filter, ltb, length,
}
use mathlib.Core.Option
use na_sso.Lifecycle.Values.{DesiredAction, is_delete, ok}
use na_sso.Models.{SyncState, UnitOfWork}
use na_sso.Operations.Rows.{returned}
use na_sso.Operations.{finish_operation}
use na_sso.Connectors.{Connector}
use na_sso.Sync.Conclude.{World, conclude, is_live, is_ok}
use na_sso.Sync.Deletion.{conclude-sync_states}
use na_sso.Sync.{job, sync_user}
use na_sso.Sync.Run.{sync_user-IsRun}
use na_sso.Sync.Deletion.{worked, worked_ends}
use na_sso.Sync.Loop.{sync_rows_frame}
use na_sso.Sync.Scope.{is_reached}

conclude-pending_secret :
    (x : World) (desired : DesiredAction) (id : String) (w : UnitOfWork)
    → ((conclude x desired id w).user.pending_secret ≡ w.user.pending_secret)
      ⊎ ((is_delete desired ≡ false)
          × ((ltb 0 (length (filter (is_live x.available) w.user.sync_states))
                && all is_ok (filter (is_live x.available) w.user.sync_states))
              ≡ true))
unfolding conclude finish_operation
conclude-pending_secret x desired id w = ground arith

-- The stored password has been taken by the target of the row.
abbrev pub HasTaken : List Connector → SyncState → Type 0
HasTaken available row = is_live available row ≡ true → row.state ≡ ok

all-HasTaken :
    (available : List Connector) (rows : List SyncState)
    → all is_ok (filter (is_live available) rows) ≡ true
    → All (HasTaken available) rows
all-HasTaken available [] h = tt
all-HasTaken available (row ∷ rest) h =
    (λ live. ground arith, all-HasTaken available rest (ground arith))

module _ (x : World) (action : Option DesiredAction) (target : Option String) (actor : String)
    (operation_id : Option String) (w w' : UnitOfWork) (id : String)
    (ran : sync_user x action target actor operation_id w ≡ (returned (some id), w')) where
  -- A run that returns an operation and changes the stored password leaves each assigned row that is
  -- not retired and whose target is configured, also one outside this run, with the value `ok`.
  pub secret-HasTaken :
      w'.user.pending_secret ≢ w.user.pending_secret
      → All (HasTaken x.available) w'.user.sync_states
  secret-HasTaken changed =
      let r = sync_user-IsRun x action target actor operation_id w w' id ran in
      let desired = Option.get_or action w.user.desired_action in
      let v = worked x action target actor operation_id w w' id ran r in
      let ends = worked_ends x action target actor operation_id w w' id ran r in
      let framed =
        sync_rows_frame (job x desired target actor id r.password r.opened)
          (is_reached (is_delete desired) target x.available) r.opened.user.sync_states r.opened in
      elim (conclude-pending_secret x desired id v) [
        | inl kept ↦ absurd (
            changed (
              ap (λ u. u.user.pending_secret) ends
              ∙ kept
              ∙ ap (λ u. u.pending_secret) framed.0
              ∙ r.same_secret))
        | inr (d, taken) ↦ rw ends (
            rw (conclude-sync_states x desired id v)
              (all-HasTaken x.available v.user.sync_states (&&-right _ _ taken)))
      ]
