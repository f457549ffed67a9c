-- ===== src/Operations/Frame.antt =====
-- The columns of an account that the bookkeeping of operations leaves alone.
use na_sso.Prelude.{ℕ, String, ◌≡◌, Option, some, arith}
use na_sso.Lifecycle.Values.{LifecycleCommand, OperationStatus}
use na_sso.Lifecycle.Transition.{TransitionMode, supersede}
use na_sso.Models.{ManagedUser, LifecycleOperation, UnitOfWork}
use na_sso.Operations.{
  get_active_operation, finish_operation, create_operation, resume_operation, perform,
  request_operation,
}

pub record SameAccount (u v : ManagedUser) : Type 0 where
  pub id : v.id ≡ u.id
  pub sync_states : v.sync_states ≡ u.sync_states
  pub deleted_at : v.deleted_at ≡ u.deleted_at
  pub pending_secret : v.pending_secret ≡ u.pending_secret

pub SameAccount-refl : (u : ManagedUser) → SameAccount u u
SameAccount-refl u = ground arith

pub SameAccount-trans : {u v x : ManagedUser} → SameAccount u v → SameAccount v x → SameAccount u x
SameAccount-trans h k = ground arith

pub finish_operation-SameAccount :
    (now : ℕ) (id : String) (status : OperationStatus) (done failures : ℕ) (detail : String)
    (w : UnitOfWork)
    → SameAccount w.user (finish_operation now id status done failures detail w).1.user
unfolding finish_operation
finish_operation-SameAccount now id status done failures detail w = ground arith

get_active_operation-SameAccount :
    (w : UnitOfWork) → SameAccount w.user (get_active_operation w).1.user
unfolding get_active_operation
get_active_operation-SameAccount w = ground arith

perform-SameAccount :
    (now : ℕ) (new_id : String) (mode : TransitionMode) (reason : String)
    (active : Option LifecycleOperation) (command : LifecycleCommand) (actor : String)
    (target : Option String) (w : UnitOfWork)
    → SameAccount w.user (perform now new_id mode reason active command actor target w).1.user
unfolding perform create_operation finish_operation
perform-SameAccount now new_id supersede reason (some o) command actor target w = ground arith
perform-SameAccount now new_id mode reason active command actor target w = ground arith

pub request_operation-SameAccount :
    (now : ℕ) (new_id : String) (command : LifecycleCommand) (actor : String)
    (target : Option String) (w : UnitOfWork)
    → SameAccount w.user (request_operation now new_id command actor target w).1.user
unfolding request_operation
request_operation-SameAccount now new_id command actor target w =
    SameAccount-trans (get_active_operation-SameAccount w) (
      perform-SameAccount now new_id _ _ (get_active_operation w).0 command actor target
        (get_active_operation w).1)

pub resume_operation-SameAccount :
    (now : ℕ) (o : LifecycleOperation) (target : Option String) (w : UnitOfWork)
    → SameAccount w.user (resume_operation now o target w).1.user
unfolding resume_operation
resume_operation-SameAccount now o target w = ground arith
