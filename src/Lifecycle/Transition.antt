-- ===== src/Lifecycle/Transition.antt =====
-- `decide_transition` of na_sso/lifecycle.py: what a requested command does to an active operation.
pub mod Conflicts
use na_sso.Prelude.{String, Bool, true, false, not, ◌&&◌, Option, none, some, if◌then◌else◌}
use na_sso.Lifecycle.Values.{
  LifecycleCommand, delete, restore, purge, retry, OperationStatus, failed, partially_failed,
  terminal,
}

pub data TransitionMode : Type 0 where
  start reuse supersede reject : TransitionMode

pub record TransitionDecision : Type 0 where
  pub mode : TransitionMode
  pub reason : String

abbrev pub allowed : TransitionDecision → Bool
allowed d = elim d.mode [ TransitionMode.reject ↦ false | _ ↦ true ]

abbrev pub is_repairable : OperationStatus → Bool
is_repairable failed = true
is_repairable partially_failed = true
is_repairable _ = false

-- `bool(active_command and active_status and not active_status.terminal)`.
abbrev pub is_active : Option LifecycleCommand → Option OperationStatus → Bool
is_active (some _) (some status) = not (terminal status)
is_active _ _ = false

abbrev decided : TransitionMode → String → TransitionDecision
decided mode reason = record { mode = mode; reason = reason }

abbrev pub is_delete_command : Option LifecycleCommand → Bool
is_delete_command (some delete) = true
is_delete_command _ = false

decide_retry : Option LifecycleCommand → Option OperationStatus → TransitionDecision
decide_retry (some _) (some status) =
    if is_repairable status
    then decided reuse "retry repairs the existing operation"
    else decided reject "retry requires a failed operation"
decide_retry _ _ = decided reject "retry requires an existing operation"

module _ (active_command : Option LifecycleCommand) (active_status : Option OperationStatus)
    (delete_complete : Bool) where
  unfoldable pub decide_transition : LifecycleCommand → TransitionDecision
  unfolding decide_retry
  decide_transition purge =
      if delete_complete
      then decided start "remote deletion is complete"
      else decided reject "purge requires completed remote deletion"
  decide_transition restore =
      if is_active active_command active_status
      then decided reject "restore waits for the active operation"
      else if delete_complete
      then decided start "completed deletion can be restored"
      else decided reject "restore requires completed remote deletion"
  decide_transition delete =
      if is_delete_command active_command && is_active active_command active_status
      then decided reuse "deletion is already running"
      else if is_active active_command active_status
      then decided supersede "deletion overrides the active operation"
      else decided start "deletion may start from every lifecycle state"
  decide_transition retry = decide_retry active_command active_status
  decide_transition _ =
      if is_active active_command active_status
      then decided reject "another lifecycle operation is running"
      else decided start "no conflicting lifecycle operation"
