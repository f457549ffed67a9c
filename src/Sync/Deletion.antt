-- ===== src/Sync/Deletion.antt =====
-- When a run of `_sync_user` records that the account is gone from its targets.
use na_sso.Prelude.{
  String, ◌≡◌, ◌≢◌, ap, ◌∙◌, Bool, true, false, ◌⊎◌, inl, inr, Option, some, List, [], ◌∷◌, arith,
  length, filter, length-filter-lt, Any, All, All-map, All-filter, Any-map, eq_refl,
}
use mathlib.Core.Option
use na_sso.Lifecycle.Values.{DesiredAction, is_delete, ok, not_assigned, retired}
use na_sso.Lifecycle.States.{sync_state_is_terminal, settle}
use na_sso.Lifecycle.States.Terminal.{normalise-to_string}
use na_sso.Models.{SyncState, UnitOfWork}
use na_sso.Operations.Rows.{returned}
use na_sso.Operations.{finish_operation}
use na_sso.Connectors.{SyncResult, Connector}
use na_sso.Sync.Rows.{Job, sync_row, record_result}
use na_sso.Sync.Loop.{sync_row-SameKey, sync_row_ind, cleared, sync_rows_frame, sync_rows-Any}
use na_sso.Sync.Scope.{
  mark, in_scope, is_wanted, is_reached, belongs, sync_rows, is_failure, is_finished,
}
use na_sso.Sync.Conclude.{World, conclude, mine}
use na_sso.Sync.{job, with_rows, legacy_rows, propagate, sync_user}
use na_sso.Sync.Run.{IsRun, sync_user-IsRun}

module _ (x : World) (desired : DesiredAction) (id : String) where
  -- The end of a run leaves `deleted_at` unless it is a delete whose rows are all finished.
  conclude-deleted_at :
      (w : UnitOfWork)
      → ((conclude x desired id w).user.deleted_at ≡ w.user.deleted_at)
        ⊎ ((is_delete desired ≡ true)
            × (length (filter is_failure (mine x desired id w)) ≡ 0)
            × (length (filter (is_finished desired) (mine x desired id w))
                ≡ length (mine x desired id w)))
  unfolding conclude finish_operation
  conclude-deleted_at w = ground arith

  -- What the end of a run does to the rows: nothing.
  pub conclude-sync_states :
      (w : UnitOfWork) → (conclude x desired id w).user.sync_states ≡ w.user.sync_states
  unfolding conclude finish_operation
  conclude-sync_states w = ground arith

-- The account is gone from the assigned target, or the row is retired, or it holds `not_assigned` or
-- `retired`.
abbrev pub IsGone : SyncState → Type 0
IsGone row =
    (row.retired ≡ true)
    ⊎ ((row.state ≡ ok) × (row.assigned ≡ true))
    ⊎ (row.state ≡ not_assigned)
    ⊎ (row.state ≡ retired)

finished-IsGone :
    (desired : DesiredAction) (row : SyncState)
    → is_delete desired ≡ true
    → is_finished desired row ≡ true
    → IsGone row
unfolding is_finished sync_state_is_terminal settle
finished-IsGone desired row d h =
    ground (arith, normalise-to_string row.state row.assigned row.retired)

-- An unassigned row that is in use.
abbrev pub IsUnassigned : SyncState → Type 0
IsUnassigned row =
    (row.assigned ≡ false)
    × (row.retired ≡ false)
    × (row.state ≢ not_assigned)
    × (row.state ≢ retired)

record_result-state :
    (job : Job) (row : SyncState) (result : SyncResult)
    → let state = (record_result job row result).0.state in
      (state ≢ not_assigned) × (state ≢ retired)
unfolding record_result
record_result-state job row result = ground arith

sync_row-IsUnassigned :
    (job : Job) (row : SyncState) (w : UnitOfWork)
    → IsUnassigned row
    → IsUnassigned (sync_row job row w).0
sync_row-IsUnassigned job row w h =
    let key = sync_row-SameKey job row w in
    let states =
      sync_row_ind job (λ r. (r.state ≢ not_assigned) × (r.state ≢ retired)) row w (h.2, h.3)
        (λ d. (ground arith, ground arith)) (record_result-state job (cleared row)) in
    (key.assigned ∙ h.0, key.is_retired ∙ h.1, states.0, states.1)

-- An unassigned row of the operation.
abbrev IsOpen : String → SyncState → Type 0
IsOpen id row = (belongs id row ≡ true) × IsUnassigned row

mark-IsOpen :
    (scope : SyncState → Bool) (id : String) (rows : List SyncState)
    → Any (λ row. (scope row ≡ true) × IsUnassigned row) rows
    → Any (IsOpen id) (mark scope id rows)
unfolding mark
mark-IsOpen scope id [] h = h
mark-IsOpen scope id (row ∷ rest) (inl (s, u)) = inl (rw s (eq_refl id, u))
mark-IsOpen scope id (row ∷ rest) (inr h) = inr (mark-IsOpen scope id rest h)

sync_row-IsOpen :
    (job : Job) (id : String) (row : SyncState) (w : UnitOfWork)
    → IsOpen id row
    → IsOpen id (sync_row job row w).0
sync_row-IsOpen job id row w h =
    (rw (sync_row-SameKey job row w).operation_id h.0, sync_row-IsUnassigned job row w h.1)

sync_rows-IsOpen :
    (job : Job) (id : String) (reached : SyncState → Bool) (rows : List SyncState) (w : UnitOfWork)
    → Any (IsOpen id) rows
    → Any (IsOpen id) (sync_rows job reached rows w).0
sync_rows-IsOpen job id reached rows w h =
    sync_rows-Any job (IsOpen id) reached rows w (sync_row-IsOpen job id) h

unassigned_unfinished :
    (desired : DesiredAction) (id : String) (row : SyncState)
    → is_delete desired ≡ true
    → IsOpen id row
    → (belongs id row ≡ true) × (is_finished desired row ≡ false)
unfolding is_finished sync_state_is_terminal settle
unassigned_unfinished desired id row d (b, h) =
    (b, ground (arith, normalise-to_string row.state row.assigned row.retired, h.0, h.1, h.2, h.3))

wanted-in_scope :
    (desired : DesiredAction) (target : Option String) (available : List Connector)
    → is_delete desired ≡ true
    → (rows : List SyncState) → Any (λ row. (is_wanted target row ≡ true) × IsUnassigned row) rows
    → Any
        (λ row. (in_scope (is_delete desired) target available row ≡ true) × IsUnassigned row)
        rows
unfolding in_scope
wanted-in_scope desired target available d rows h =
    Any-map (λ row (wanted, u). (rw d wanted, u)) rows h

module _ (x : World) (action : Option DesiredAction) (target : Option String) (actor : String)
    (operation_id : Option String) (w w' : UnitOfWork) (id : String)
    (ran : sync_user x action target actor operation_id w ≡ (returned (some id), w')) where
  abbrev pub desired : DesiredAction
  desired = Option.get_or action w.user.desired_action

  -- The work and the rows at the end of the loop.
  abbrev pub worked :
      IsRun x desired target actor (legacy_rows x w.user.sync_states) w id w' → UnitOfWork
  worked r =
      let (rows, v) =
        sync_rows (job x desired target actor id r.password r.opened)
          (is_reached (is_delete desired) target x.available) r.opened.user.sync_states r.opened in
      with_rows x desired target actor rows v

  pub worked_ends :
      (r : IsRun x desired target actor (legacy_rows x w.user.sync_states) w id w')
      → w' ≡ conclude x desired id (worked r)
  unfolding propagate
  worked_ends r = r.ends

  worked-deleted_at :
      (r : IsRun x desired target actor (legacy_rows x w.user.sync_states) w id w')
      → (worked r).user.deleted_at ≡ w.user.deleted_at
  worked-deleted_at r =
      ap (λ u. u.deleted_at)
        (sync_rows_frame (job x desired target actor id r.password r.opened)
          (is_reached (is_delete desired) target x.available) r.opened.user.sync_states r.opened).0
      ∙ r.same_deleted

  -- A run that returns an operation and changes the time of the deletion leaves each row that carries
  -- the operation's key retired, or assigned with the value `ok`, or with the value `not_assigned` or
  -- `retired`.
  pub deleted-IsGone :
      w'.user.deleted_at ≢ w.user.deleted_at
      → All (λ row. belongs id row ≡ true → IsGone row) w'.user.sync_states
  deleted-IsGone changed =
      let r = sync_user-IsRun x action target actor operation_id w w' id ran in
      elim (conclude-deleted_at x desired id (worked r)) [
        | inl kept ↦
            absurd
              (changed (ap (λ v. v.user.deleted_at) (worked_ends r) ∙ kept ∙ worked-deleted_at r))
        | inr (d, none_failed, all_done) ↦ rw (worked_ends r) (
            rw (conclude-sync_states x desired id (worked r)) (
              All-map (λ row. belongs id row ≡ true → is_finished desired row ≡ true)
                (λ row. belongs id row ≡ true → IsGone row) (worked r).user.sync_states
                (λ row done b. finished-IsGone desired row d (done b))
                (All-filter (is_finished desired) (belongs id) (worked r).user.sync_states
                  all_done)))
      ]

  -- A run for the action delete that returns an operation does not record the deletion, whatever the
  -- targets answer, where the rows that it wants (those of the named target, or all) include one that
  -- is neither assigned nor retired and holds neither `not_assigned` nor `retired`.
  pub unassigned_blocks_deletion :
      is_delete desired ≡ true
      → Any
          (λ row. (is_wanted target row ≡ true) × IsUnassigned row)
          (legacy_rows x w.user.sync_states)
      → w'.user.deleted_at ≡ w.user.deleted_at
  unassigned_blocks_deletion d blocked =
      let r = sync_user-IsRun x action target actor operation_id w w' id ran in
      let marked =
        mark-IsOpen (in_scope (is_delete desired) target x.available) id
          (legacy_rows x w.user.sync_states)
          (wanted-in_scope desired target x.available d _ blocked) in
      let held =
        sync_rows-IsOpen (job x desired target actor id r.password r.opened) id
          (is_reached (is_delete desired) target x.available) r.opened.user.sync_states r.opened
          (rw r.marked marked) in
      let short =
        length-filter-lt (is_finished desired) (belongs id) (worked r).user.sync_states
          (Any-map (λ row. unassigned_unfinished desired id row d) _ held) in
      elim (conclude-deleted_at x desired id (worked r)) [
        | inl kept ↦ ap (λ v. v.user.deleted_at) (worked_ends r) ∙ kept ∙ worked-deleted_at r
        | inr (_, none_failed, all_done) ↦ absurd (omega arith)
      ]
