-- ===== src/Users/Stuck.antt =====
-- The deletion handler and the run that it starts, on an account with an unassigned target.
use na_sso.Prelude.{
  String, ◌≡◌, refl, sym, ap, ◌∙◌, inl, inr, false, none, some, List, [], ◌∷◌, Any, Any-map, subst,
  arith,
}
use na_sso.Outcome.{Outcome, returned, raised}
use na_sso.Lifecycle.Values.{DesiredAction, LifecycleCommand}
use na_sso.Models.{SyncState, LifecycleOperation, UnitOfWork}
use na_sso.Operations.{request_operation}
use na_sso.Operations.Frame.{request_operation-SameAccount}
use na_sso.Auth.{Guarded, admitted, turned_away}
use na_sso.Sync.Conclude.{World}
use na_sso.Sync.{legacy_rows, sync_user}
use na_sso.Sync.Deletion.{IsUnassigned, unassigned_blocks_deletion}
use na_sso.Users.{
  is_in, unselect, set_pending, assigned_targets, deleting, delete_pending, delete_requested,
  delete_user,
}
use na_sso.Users.Selection.{select_rows-Any, set_pending-returned}

unselect-Any :
    (P : SyncState → Type 0) (selected : List String) (rows : List SyncState)
    → Any (λ row. P row × (row.assigned ≡ false)) rows
    → Any P (unselect selected rows)
unfolding unselect
unselect-Any P selected [] h = elim h [ ]
unselect-Any P selected (row ∷ rest) (inl (p, free)) = inl (subst P (ground arith) p)
unselect-Any P selected (row ∷ rest) (inr h) = inr (unselect-Any P selected rest h)

legacy_rows-Any :
    (x : World) (P : SyncState → Type 0) (rows : List SyncState)
    → Any P rows
    → Any P (legacy_rows x rows)
unfolding legacy_rows
legacy_rows-Any x P [] h = elim h [ ]
legacy_rows-Any x P (row ∷ rest) h = h

-- A row in use that is not assigned, and whose target no assigned row has.
abbrev pub IsLeft : List SyncState → SyncState → Type 0
IsLeft rows row = IsUnassigned row × (is_in (assigned_targets rows) row.target ≡ false)

module _ (x : World) where
  pending-cases :
      (admin id : String) (o : LifecycleOperation) (r : Outcome (Unit {0}) × UnitOfWork)
      (w' : UnitOfWork)
      → delete_pending x admin o r ≡ (returned (some id), w')
      → (r ≡ (returned tt, r.1)) × (w'.user ≡ r.1.user)
  pending-cases admin id o (returned done, u) w' e = (refl, ground arith)
  pending-cases admin id o (raised fault, u) w' e = ground arith

  requested-left :
      (admin id : String) (r : Outcome LifecycleOperation × UnitOfWork) (w' : UnitOfWork)
      → delete_requested x admin r ≡ (returned (some id), w')
      → Any (IsLeft r.1.user.sync_states) r.1.user.sync_states
      → Any IsUnassigned w'.user.sync_states × (w'.user.deleted_at ≡ none)
  requested-left admin id (raised fault, v) w' e h = ground arith
  requested-left admin id (returned o, v) w' e h =
      let chosen = assigned_targets v.user.sync_states in
      let (ran, same) =
        pending-cases admin id o (set_pending x.available false false none chosen (deleting x v)) w'
          e in
      let (made, kept) =
        set_pending-returned x.available false false none chosen (deleting x v) _ ran in
      let left : Any (IsLeft v.user.sync_states) (unselect chosen v.user.sync_states) =
        unselect-Any (IsLeft v.user.sync_states) chosen v.user.sync_states
          (Any-map (λ row k. (k, k.0.0)) v.user.sync_states h) in
      (
        subst (Any IsUnassigned) (sym (ap (λ u. u.sync_states) same)) (
            select_rows-Any _ x.available IsUnassigned chosen (unselect chosen v.user.sync_states) _
              left made),
        ap (λ u. u.deleted_at) same ∙ kept,
      )

  handler-left :
      (guard : Guarded) (w w' : UnitOfWork) (id : String)
      → delete_user x guard w ≡ (returned (some id), w')
      → Any (IsLeft w.user.sync_states) w.user.sync_states
      → Any IsUnassigned w'.user.sync_states × (w'.user.deleted_at ≡ none)
  unfolding delete_user
  handler-left (turned_away reply) w w' id e h = ground arith
  handler-left (admitted a) w w' id e h =
      let r = request_operation x.now x.new_id LifecycleCommand.delete a.username none w in
      let same =
        (request_operation-SameAccount x.now x.new_id LifecycleCommand.delete a.username none
          w).sync_states in
      let granted : delete_requested x a.username r ≡ (returned (some id), w') = ground arith in
      requested-left a.username id r w' granted (subst (λ l. Any (IsLeft l) l) (sym same) h)

  -- Where the account has a row in use that is not assigned and whose target no assigned row has, the
  -- deletion that the handler starts is never recorded: the run that follows it, whatever the targets
  -- answer, and where it returns an operation, leaves the account without a time of deletion.
  pub delete_user-stuck :
      (guard : Guarded) (w w' w'' : UnitOfWork) (id id' : String) (y : World) (actor : String)
      → Any (IsLeft w.user.sync_states) w.user.sync_states
      → delete_user x guard w ≡ (returned (some id), w')
      → sync_user y (some DesiredAction.delete) none actor (some id) w' ≡ (returned (some id'), w'')
      → w''.user.deleted_at ≡ none
  delete_user-stuck guard w w' w'' id id' y actor h e ran =
      let (left, open_still) = handler-left guard w w' id e h in
      unassigned_blocks_deletion y (some DesiredAction.delete) none actor (some id) w' w'' id' ran
        refl
        (legacy_rows-Any y _ w'.user.sync_states
          (Any-map (λ row k. (refl, k)) w'.user.sync_states left))
      ∙ open_still
