-- ===== src/Lifecycle/Transition/Conflicts.antt =====
-- The conflict rules that the head of na_sso/lifecycle.py lists.
mod Examples
use na_sso.Prelude.{true, false, ◌≡◌, ◌≢◌, Bool, Option, none, some, refl, ◌↔◌, ◌⊎◌, arith}
use na_sso.Lifecycle.Values.{
  LifecycleCommand, delete, restore, purge, retry, OperationStatus, terminal,
}
use na_sso.Lifecycle.Transition.{
  start, reuse, supersede, reject, decide_transition, is_active, is_delete_command,
}

is_delete_command_iff :
    (command : Option LifecycleCommand)
    → (is_delete_command command ≡ true) ↔ (command ≡ some delete)
is_delete_command_iff none = (λ h. cc, λ h. cc)
is_delete_command_iff (some delete) = (λ h. refl, λ h. refl)
is_delete_command_iff (some other) = (λ h. cc, λ h. cc)

module _ (command : Option LifecycleCommand) (status : Option OperationStatus)
    (complete : Bool) where
  -- Only a delete supersedes, and only an unfinished operation that is no delete itself.
  pub supersede_iff :
      (requested : LifecycleCommand)
      → ((decide_transition command status complete requested).mode ≡ supersede)
        ↔ ((requested ≡ delete) × (is_active command status ≡ true) × (command ≢ some delete))
  unfolding decide_transition
  supersede_iff delete = (
    λ h. ground (arith, is_delete_command_iff command),
    λ h. ground (arith, is_delete_command_iff command),
  )
  supersede_iff requested = ground arith

  -- A command starts only when nothing is active, or as the purge of a completed deletion. A restore
  -- waits for the deletion, and a retry never starts an operation of its own.
  pub start_cases :
      (requested : LifecycleCommand)
      → (decide_transition command status complete requested).mode ≡ start
      → ((is_active command status ≡ false) ⊎ ((requested ≡ purge) × (complete ≡ true)))
        × (requested ≡ restore → complete ≡ true)
        × (requested ≢ retry)
  unfolding decide_transition
  start_cases delete h = ground arith
  start_cases requested h = ground arith
