-- ===== src/Operations/Examples.antt =====
-- Runs of the bookkeeping of operations.
use na_sso.Prelude.{◌≡◌, ◌≢◌, refl, true, false, none, some, [], ◌∷◌, arith, eq_iff}
use na_sso.Lifecycle.Values.{
  LifecycleCommand, delete, retry, purge, OperationStatus, running, failed,
}
use na_sso.Lifecycle.Transition.{decide_transition}
use na_sso.Models.{LifecycleOperation, UnitOfWork}
use na_sso.Operations.Rows.{find, modify, returned}
use na_sso.Operations.{
  get_active_operation, finish_operation, create_operation, resume_operation, request_operation,
}
use na_sso.Operations.Single.{IsSingle, request_operation-IsSingle}
use na_sso.Operations.Requests.{
  IsGranted, request_operation-IsGranted, refuses, delete_and_retry, resume_operation_orphans,
}
use na_sso.Operations.Attempts.{IsUnique, start_target_attempt, start_target_attempt-IsUnique}
use na_sso.Samples.{alice, operation}

-- Operation "b" runs and is the active one; "a" failed before.
abbrev busy : UnitOfWork
busy = record {
  user = record (alice []) { active_operation_id = some "b" };
  operations = operation "a" failed ∷ operation "b" running ∷ [];
  attempts = [];
  audit = [];
  notifications = [];
}

busy-IsSingle : IsSingle busy
unfolding find
busy-IsSingle = record { only = λ id o f u t. ground (arith, eq_iff "a" id, eq_iff "b" id) }

unused : find "c" busy.operations ≡ none
unfolding find
unused = refl

not_purge : LifecycleCommand.delete ≢ purge
not_purge e = cc

request_operation-IsSingle_example : IsSingle (request_operation 50 "c" delete "admin" none busy).1
request_operation-IsSingle_example =
    request_operation-IsSingle 50 "c" delete "admin" none busy not_purge unused busy-IsSingle

program : Unit {0}
unfolding find modify get_active_operation finish_operation create_operation request_operation
    decide_transition
program = tt

abbrev deleting : LifecycleOperation
deleting = record (operation "c" OperationStatus.queued) {
  command = delete;
  supersedes_id = some "b";
  total_targets = 0;
  started_at = none;
}

ran :
    request_operation 50 "c" delete "admin" none busy
    ≡ (returned deleting, (request_operation 50 "c" delete "admin" none busy).1)
unfolding program
ran = refl

request_operation-IsGranted_example :
    IsGranted deleting (request_operation 50 "c" delete "admin" none busy).1
request_operation-IsGranted_example =
    request_operation-IsGranted 50 "c" delete "admin" none busy
      (request_operation 50 "c" delete "admin" none busy).1 deleting unused ran

delete_and_retry_example :
    (refuses (request_operation 50 "c" delete "admin" none busy) ≡ false)
    × (refuses (request_operation 50 "c" retry "admin" none busy) ≡ true)
delete_and_retry_example = delete_and_retry 50 "c" "admin" none busy

found_failed : find "a" busy.operations ≡ some (operation "a" failed)
unfolding find
found_failed = refl

found_running : find "b" busy.operations ≡ some (operation "b" running)
unfolding find
found_running = refl

resume_operation_orphans_example :
    ¬ IsSingle (resume_operation 50 (operation "a" failed) none busy).1
resume_operation_orphans_example =
    resume_operation_orphans 50 (operation "a" failed) (operation "b" running) none busy
      found_failed refl found_running refl refl

abbrev first : UnitOfWork
first = (start_target_attempt "b" "gitea" none busy).1

first-IsUnique : IsUnique first.attempts
unfolding start_target_attempt
first-IsUnique = (tt, tt)

start_target_attempt-IsUnique_example :
    IsUnique (start_target_attempt "b" "gitea" none first).1.attempts
start_target_attempt-IsUnique_example =
    start_target_attempt-IsUnique "b" "gitea" none first first-IsUnique
