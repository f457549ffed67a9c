-- ===== src/Operations/Requests.antt =====
-- What `request_operation` and `resume_operation` leave behind.
use na_sso.Prelude.{
  ℕ, String, ◌≡◌, refl, Bool, true, false, Option, none, some, arith, eq_iff, eq_refl, is_some,
  str_append,
}
use mathlib.Core.Option
use na_sso.Lifecycle.Values.{
  LifecycleCommand, delete, retry, failed, cancelled, terminal, command_value,
}
use na_sso.Lifecycle.Transition.{TransitionMode, start, reuse, supersede, reject, decide_transition}
use na_sso.Models.{LifecycleOperation, UnitOfWork}
use na_sso.Operations.Rows.{find, find-append, find-modify, Outcome, returned, raised}
use na_sso.Operations.{
  get_active_operation, finish_operation, create_operation, resume_operation, perform,
  request_operation, restarted,
}
use na_sso.Operations.Single.{
  IsSingle, Reads, get_active_operation-Reads, get_active_operation-operations,
  finish_operation-idle,
}

-- The operation is stored, unfinished, and the one that the account points at.
abbrev pub IsGranted : LifecycleOperation → UnitOfWork → Type 0
IsGranted o w =
    (find o.id w.operations ≡ some o)
    × (terminal o.status ≡ false)
    × (w.user.active_operation_id ≡ some o.id)

abbrev Grants : Outcome LifecycleOperation × UnitOfWork → Type 0
Grants (returned o, w) = IsGranted o w
Grants (raised f, w) = Unit

module _ (now : ℕ) (new_id : String) (command : LifecycleCommand) (actor : String)
    (target : Option String) where
  create_operation-IsGranted :
      (supersedes : Option LifecycleOperation) (w : UnitOfWork)
      → find new_id w.operations ≡ none
      → let (o, w') = create_operation now new_id command actor target supersedes w in
        IsGranted o w'
  unfolding create_operation
  create_operation-IsGranted supersedes w fresh =
      let o = (create_operation now new_id command actor target supersedes w).0 in
      ground (arith, find-append new_id w.operations o fresh, eq_refl new_id)

  perform-Grants :
      (mode : TransitionMode) (reason : String) (active : Option LifecycleOperation)
      (w : UnitOfWork)
      → find new_id w.operations ≡ none
      → Reads active w
      → Grants (perform now new_id mode reason active command actor target w)
  unfolding perform
  perform-Grants reject reason active w fresh r = tt
  perform-Grants reuse reason none w fresh r = tt
  perform-Grants reuse reason (some o) w fresh r = r
  perform-Grants supersede reason (some o) w fresh r =
      let detail = str_append "superseded by " (command_value command) in
      let w' =
        (finish_operation now o.id cancelled o.completed_targets o.failed_targets detail w).1 in
      let (idle, fresh') =
        finish_operation-idle now o.id new_id cancelled o.completed_targets o.failed_targets detail
          w refl r.2 fresh in
      create_operation-IsGranted (some o) w' fresh'
  perform-Grants supersede reason none w fresh r = create_operation-IsGranted none w fresh
  perform-Grants start reason active w fresh r = create_operation-IsGranted none w fresh

  request_operation-Grants :
      (w : UnitOfWork)
      → find new_id w.operations ≡ none
      → Grants (request_operation now new_id command actor target w)
  unfolding request_operation
  request_operation-Grants w fresh =
      let (active, w') = get_active_operation w in
      let decision =
        decide_transition (Option.map (λ (o : LifecycleOperation). o.command) active)
          (Option.map (λ (o : LifecycleOperation). o.status) active) (is_some w'.user.deleted_at)
          command in
      perform-Grants decision.mode decision.reason active w'
        (rw (get_active_operation-operations now new_id command actor target) fresh)
        (get_active_operation-Reads w)

  -- A request that is granted under an unused key returns an operation that is stored, unfinished and
  -- pointed at by the account, whether it is new or reused.
  pub request_operation-IsGranted :
      (w w' : UnitOfWork) (o : LifecycleOperation)
      → find new_id w.operations ≡ none
      → request_operation now new_id command actor target w ≡ (returned o, w')
      → IsGranted o w'
  request_operation-IsGranted w w' o fresh e = rw e at (request_operation-Grants w fresh)

abbrev pub refuses : Outcome LifecycleOperation × UnitOfWork → Bool
refuses (returned o, w) = false
refuses (raised f, w) = true

module _ (now : ℕ) (new_id actor : String) (target : Option String) where
  -- The decision on a command, carried out.
  abbrev carry_out :
      LifecycleCommand
      → Option LifecycleOperation
      → UnitOfWork
      → Outcome LifecycleOperation × UnitOfWork
  carry_out command active w =
      let decision =
        decide_transition (Option.map (λ (o : LifecycleOperation). o.command) active)
          (Option.map (λ (o : LifecycleOperation). o.status) active) (is_some w.user.deleted_at)
          command in
      perform now new_id decision.mode decision.reason active command actor target w

  delete_carried_out :
      (active : Option LifecycleOperation) (w : UnitOfWork)
      → refuses (carry_out delete active w) ≡ false
  unfolding perform decide_transition
  delete_carried_out none w = refl
  delete_carried_out (some o) w = ground arith

  retry_carried_out :
      (active : Option LifecycleOperation) (w : UnitOfWork)
      → Reads active w
      → refuses (carry_out retry active w) ≡ true
  unfolding perform decide_transition
  retry_carried_out none w r = refl
  retry_carried_out (some o) w r = ground (arith, r.1)

  -- A delete is granted whatever operation is active, and a retry is refused: the pointer gives only
  -- an unfinished operation, and a retry wants a failed one.
  pub delete_and_retry :
      (w : UnitOfWork)
      → (refuses (request_operation now new_id delete actor target w) ≡ false)
        × (refuses (request_operation now new_id retry actor target w) ≡ true)
  unfolding request_operation
  delete_and_retry w =
      let (active, w') = get_active_operation w in
      (delete_carried_out active w', retry_carried_out active w' (get_active_operation-Reads w))

-- Resuming a failed operation while another one of the account is unfinished leaves the account
-- without the property that its only unfinished operation is the active one.
pub resume_operation_orphans :
    (now : ℕ) (o a : LifecycleOperation) (target : Option String) (w : UnitOfWork)
    → find o.id w.operations ≡ some o
    → o.status ≡ failed
    → find a.id w.operations ≡ some a
    → terminal a.status ≡ false
    → a.user_id ≡ some w.user.id
    → ¬ IsSingle (resume_operation now o target w).1
unfolding resume_operation
resume_operation_orphans now o a target w fo so fa ta ua s = ground (
  arith,
  find-modify o.id a.id (restarted now target) w.operations (λ x. refl),
  eq_iff o.id a.id,
  s.only a.id a,
)
