-- ===== src/Users/Restore.antt =====
-- na_sso/users.py: the handler that restores a deleted account.
use na_sso.Prelude.{
  ◌+◌, String, Bool, true, false, not, ◌&&◌, ◌||◌, Option, none, some, is_some, List, [], ◌∷◌, ◌++◌,
  if◌then◌else◌,
}
use na_sso.Outcome.{Outcome, returned, raised}
use na_sso.Lifecycle.Values.{DesiredAction, is_delete, restore}
use na_sso.Models.{AccountStatus, reset, ManagedUser, LifecycleOperation, UnitOfWork}
use na_sso.Operations.{request_operation}
use na_sso.Mfa.Rows.{Text}
use na_sso.Mfa.Totp.{same_codes}
use na_sso.Auth.{Guarded, admitted, turned_away}
use na_sso.Sync.Conclude.{World}
use na_sso.Assignments.{Intents, UserAssignmentException, resolve_assignment_intents}
use na_sso.Assignments.Handlers.{targets_of}
use na_sso.Passwords.{PasswordError, validate_password}
use na_sso.Passwords.Action.{PasswordWorld}
use na_sso.ServiceAccounts.Credentials.{strip}
use na_sso.Users.{can_manage_subject, set_pending}

-- An account with the hashes of its former passwords, its profile's target map and its exceptions.
pub record RestoreWork : Type 0 where
  pub work : UnitOfWork
  pub history : List String
  pub profile : Option Intents
  pub exceptions : List UserAssignmentException

pub data RestoreReply : Type 0 where
  sign_in unavailable mismatch blocked : RestoreReply
  invalid : List PasswordError → RestoreReply
  restored : String → RestoreReply

-- The deletion of the account on the targets is complete.
abbrev pub is_removed : ManagedUser → Bool
is_removed user = is_delete user.desired_action && is_some user.deleted_at

abbrev pub mistyped : Option Text → Text → Bool
mistyped none password = false
mistyped (some confirmed) password = not (same_codes password confirmed)

abbrev pub is_blank : Text → Bool
is_blank [] = true
is_blank (c ∷ rest) = false

abbrev pub kept_hash : Option String → List String → List String
kept_hash none history = history
kept_hash (some hash) history = hash ∷ history

abbrev pub with_row : String → String → String → UnitOfWork → UnitOfWork
with_row admin action id w = record w {
  audit =
      w.audit
      ++ record {
        actor = admin;
        action = action;
        subject = w.user.username;
        detail = "";
        operation_id = some id;
      }
        ∷ [];
}

module _ (x : World) (p : PasswordWorld) where
  abbrev pub reactivated : Text → UnitOfWork → UnitOfWork
  reactivated password w = record w {
    user = record w.user {
      desired_action = DesiredAction.ensure;
      deletion_requested_at = none;
      deleted_at = none;
      status = AccountStatus.active;
      password_hash = some (p.hash_password password);
      password_changed_at = some x.now;
      password_keep_until = none;
      password_keep_count = 0;
      password_decision_required = true;
      password_decision_kind = reset;
      session_version = w.user.session_version + 1;
    };
  }

  abbrev pub restore_pending :
      String
      → String
      → RestoreWork
      → Outcome (Unit {0}) × UnitOfWork
      → Outcome RestoreReply × RestoreWork
  restore_pending admin id s (returned done, w) =
      (returned (restored id), record s { work = with_row admin "user.restore" id w })
  restore_pending admin id s (raised fault, w) = (raised fault, record s { work = w })

  abbrev pub restore_requested :
      String
      → Text
      → RestoreWork
      → Outcome LifecycleOperation × UnitOfWork
      → Outcome RestoreReply × RestoreWork
  restore_requested admin password s (raised fault, w) = (returned blocked, s)
  restore_requested admin password s (returned o, w) =
      let w' = reactivated password w in
      let intents =
        resolve_assignment_intents x.available s.profile s.exceptions w'.user.sync_states in
      restore_pending admin o.id (record s { history = kept_hash w.user.password_hash s.history })
        (set_pending x.available true true (some (p.encrypt_secret password)) (targets_of intents)
          w')

  abbrev pub restore_valid :
      String → Text → List PasswordError → RestoreWork → Outcome RestoreReply × RestoreWork
  restore_valid admin password (e ∷ errors) s = (returned (invalid (e ∷ errors)), s)
  restore_valid admin password [] s =
      restore_requested admin password s
        (request_operation x.now x.new_id restore admin none s.work)

  -- The account exists.
  unfoldable pub restore_user :
      Guarded → Text → Option Text → RestoreWork → Outcome RestoreReply × RestoreWork
  restore_user (turned_away reply) password confirm_password s = (returned sign_in, s)
  restore_user (admitted principal) password confirm_password s =
      let stripped = strip p.texts.is_space password in
      if not (can_manage_subject principal s.work.user && is_removed s.work.user)
        || is_blank stripped
      then (returned unavailable, s)
      else if mistyped confirm_password password
      then (returned mismatch, s)
      else restore_valid principal.username stripped
          (validate_password p.texts p.policy (p.points s.work.user.username)
            (p.points s.work.user.email) (p.points s.work.user.display_name) none [] stripped)
          s
