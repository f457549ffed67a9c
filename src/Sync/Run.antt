-- ===== src/Sync/Run.antt =====
-- A run of `_sync_user` that returns an operation, taken apart: the rows are marked, the operation is
-- opened, and the loop and the end of the run follow.
use na_sso.Prelude.{
  ℕ, String, ◌≡◌, refl, sym, ◌∙◌, ap, Option, none, some, List, arith, Bool-cases, inl, inr, length,
  filter,
}
use mathlib.Core.Option
use na_sso.Lifecycle.Values.{DesiredAction, is_delete}
use na_sso.Models.{is_root, SyncState, LifecycleOperation, UnitOfWork}
use na_sso.Operations.Rows.{Outcome, returned, raised, find}
use na_sso.Operations.{resume_operation, start_operation}
use na_sso.Operations.Frame.{
  SameAccount, SameAccount-refl, request_operation-SameAccount, resume_operation-SameAccount,
}
use na_sso.Sync.Scope.{mark, in_scope}
use na_sso.Sync.Conclude.{World}
use na_sso.Sync.{
  legacy_rows, choose_operation, candidate, choose, reuse_or_request, requested, open_operation,
  run, finish_run, propagate, sync_user, command_for, by_key, with_rows,
}

module _ (x : World) (desired : DesiredAction) (target : Option String) (actor : String) where
  requested-work :
      (r : Outcome LifecycleOperation × UnitOfWork) → (requested x desired target actor r).1 ≡ r.1
  requested-work (returned o, w) = refl
  requested-work (raised fault, w) = refl

  reuse_or_request-SameAccount :
      (o : Option LifecycleOperation) (w : UnitOfWork)
      → SameAccount w.user (reuse_or_request x desired target actor o w).1.user
  reuse_or_request-SameAccount (some o) w = resume_operation-SameAccount x.now o target w
  reuse_or_request-SameAccount none w =
      rw requested-work
        (request_operation-SameAccount x.now x.new_id (command_for desired actor) actor target w)

  choose-SameAccount :
      (o : Option LifecycleOperation) (w : UnitOfWork)
      → SameAccount w.user (choose x desired target actor o w).1.user
  choose-SameAccount (some o) w = ground (arith, SameAccount-refl w.user)
  choose-SameAccount none w = reuse_or_request-SameAccount (candidate target w) w

  open_operation-SameAccount :
      (o : Option LifecycleOperation) (n : ℕ) (w : UnitOfWork)
      → SameAccount w.user (open_operation x desired target actor o n w).1.user
  unfolding start_operation resume_operation
  open_operation-SameAccount o n w = ground arith

  -- What a run that returns an operation has done.
  pub record IsRun (rows : List SyncState) (w : UnitOfWork) (id : String) (w' : UnitOfWork)
      : Type 0 where
    pub password : Option String
    pub opened : UnitOfWork
    pub marked :
        opened.user.sync_states ≡ mark (in_scope (is_delete desired) target x.available) id rows
    pub same_deleted : opened.user.deleted_at ≡ w.user.deleted_at
    pub same_secret : opened.user.pending_secret ≡ w.user.pending_secret
    pub ends : w' ≡ propagate x desired target actor id password opened

  finish_run_cases :
      (k : String) (password : Option String) (r : Outcome (Unit {0}) × UnitOfWork) (id : String)
      (w' : UnitOfWork)
      → finish_run x desired target actor k password r ≡ (returned (some id), w')
      → (k ≡ id) × (propagate x desired target actor k password r.1 ≡ w')
  finish_run_cases k password (returned done, v) id w' e =
      (ground arith, ap (λ (p : Outcome (Option String) × UnitOfWork). p.1) e)
  finish_run_cases k password (raised fault, v) id w' e = ground arith

  run-IsRun :
      (password : Option String) (r : Option String × UnitOfWork) (w w' : UnitOfWork) (id : String)
      → SameAccount w.user r.1.user
      → run x desired target actor password r ≡ (returned (some id), w')
      → IsRun w.user.sync_states w id w'
  run-IsRun password (none, v) w w' id s e = ground arith
  run-IsRun password (some k, v) w w' id s e =
      let rows = v.user.sync_states in
      let wanted = in_scope (is_delete desired) target x.available in
      let marked = with_rows x desired target actor (mark wanted k rows) v in
      let opening =
        open_operation x desired target actor (find k marked.operations)
          (length (filter wanted rows)) marked in
      let (named, ends) = finish_run_cases k password opening id w' e in
      let kept =
        open_operation-SameAccount (find k marked.operations) (length (filter wanted rows))
          marked in
      record {
        password = password;
        opened = opening.1;
        marked = rw (← named) (kept.sync_states ∙ ap (mark wanted k) s.sync_states);
        same_deleted = kept.deleted_at ∙ s.deleted_at;
        same_secret = kept.pending_secret ∙ s.pending_secret;
        ends = rw (← named) (sym ends);
      }

no_operation :
    {w w' : UnitOfWork} {id : String}
    → ¬ (◌≡◌ {A = Outcome (Option String) × UnitOfWork} (returned none, w) (returned (some id), w'))
no_operation e = ground arith

pub sync_user-IsRun :
    (x : World) (action : Option DesiredAction) (target : Option String) (actor : String)
    (operation_id : Option String) (w w' : UnitOfWork) (id : String)
    → sync_user x action target actor operation_id w ≡ (returned (some id), w')
    → IsRun x
        (Option.get_or action w.user.desired_action)
        target
        actor
        (legacy_rows x w.user.sync_states)
        w
        id
        w'
unfolding sync_user choose_operation
sync_user-IsRun x action target actor operation_id w w' id e = elim (Bool-cases (is_root w.user)) [
  | inl root ↦ absurd (no_operation (rw root at e))
  | inr plain ↦
      let desired = Option.get_or action w.user.desired_action in
      let password = Option.map x.decrypt_secret w.user.pending_secret in
      let started = with_rows x desired target actor (legacy_rows x w.user.sync_states) w in
      let chosen = choose_operation x desired target actor operation_id started in
      let r =
        run-IsRun x desired target actor password chosen started w' id
          (choose-SameAccount x desired target actor (by_key operation_id started.operations)
            started)
          (rw plain at e) in
      record {
        password = r.password;
        opened = r.opened;
        marked = r.marked;
        same_deleted = r.same_deleted;
        same_secret = r.same_secret;
        ends = r.ends;
      }
]
