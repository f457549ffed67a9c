-- ===== src/Assignments/Handlers.antt =====
-- na_sso/assignments.py: the handlers that save an exception and that confirm the application of a profile.
use na_sso.Prelude.{
  String, Bool, false, not, ◌&&◌, Option, none, some, is_some, List, [], ◌∷◌, ◌++◌, all, any,
  filter, map, str_eq, if◌then◌else◌,
}
use na_sso.Outcome.{Outcome, returned, raised}
use na_sso.Lifecycle.Values.{is_delete, update}
use na_sso.Models.{ManagedUser, LifecycleOperation, UnitOfWork}
use na_sso.Connectors.{connector_for}
use na_sso.Operations.{request_operation}
use na_sso.Sync.Conclude.{World}
use na_sso.Users.{set_pending, assigned_targets}
use na_sso.Assignments.{
  include, UserAssignmentException, Intents, intent, contains, resolve_assignment_intents,
}
use na_sso.Assignments.Exceptions.{find_exception, put_exception, new_exception}

-- An account, the target map of its profile if it has one, and its exceptions.
pub record AssignmentWork : Type 0 where
  pub work : UnitOfWork
  pub profile : Option Intents
  pub exceptions : List UserAssignmentException

-- The answers: the key is that of the operation whose run is started in the background.
pub data AssignmentReply : Type 0 where
  rejected redirected handled blocked : AssignmentReply
  done : String → AssignmentReply

abbrev pub targets_of : Intents → List String
targets_of intents = map (λ i. i.0) intents

abbrev pub intents_of : World → AssignmentWork → Intents
intents_of x s =
    resolve_assignment_intents x.available s.profile s.exceptions s.work.user.sync_states

-- The text of the audit row.
module _ (x : World) (detail : String) where
  abbrev pub pending_done :
      String
      → String
      → String
      → AssignmentWork
      → Outcome (Unit {0}) × UnitOfWork
      → Outcome AssignmentReply × AssignmentWork
  pending_done actor action id s (returned done_it, w) = (
    returned (done id),
    record s {
      work = record w {
        audit =
            w.audit
            ++ record {
              actor = actor;
              action = action;
              subject = w.user.username;
              detail = detail;
              operation_id = some id;
            }
              ∷ [];
      };
    },
  )
  pending_done actor action id s (raised fault, w) = (raised fault, record s { work = w })

  -- A conflict leaves what was committed before.
  abbrev pub requested :
      String
      → String
      → AssignmentWork
      → AssignmentWork
      → Outcome LifecycleOperation × UnitOfWork
      → Outcome AssignmentReply × AssignmentWork
  requested actor action before s (returned o, w) =
      pending_done actor action o.id s
        (set_pending x.available false false none (targets_of (intents_of x s)) w)
  requested actor action before s (raised fault, w) = (returned blocked, before)

  -- The request for an update once the assignments were changed.
  abbrev pub propagated :
      String → String → AssignmentWork → AssignmentWork → Outcome AssignmentReply × AssignmentWork
  propagated actor action before s =
      requested actor action before s (request_operation x.now x.new_id update actor none s.work)

abbrev pub saved : UserAssignmentException → AssignmentWork → AssignmentWork
saved e s = record s { exceptions = put_exception e s.exceptions }

abbrev pub is_open_account : ManagedUser → Bool
is_open_account user = str_eq user.role "user" && not (is_delete user.desired_action)

-- Whether a membership is a safe identifier is what MEMBERSHIP_RE says.
module _ (x : World) (is_safe : String → Bool) (detail : String) where
  abbrev pub is_acceptable : UserAssignmentException → Bool
  is_acceptable e =
      is_some (connector_for x.available e.target_id)
      && (all is_safe e.add_memberships && all is_safe e.remove_memberships)
      && not (any (contains e.remove_memberships) e.add_memberships)

  -- The exception is the form: its target, mode and memberships, by the administrator who sent it. The
  -- account exists.
  unfoldable pub assignment_exception_save :
      UserAssignmentException → AssignmentWork → Outcome AssignmentReply × AssignmentWork
  assignment_exception_save e s =
      if not (is_acceptable e)
      then (returned rejected, s)
      else if not (is_open_account s.work.user)
      then (returned redirected, s)
      else propagated x detail e.updated_by "assignment_exception.updated" s (saved e s)

-- A saved application of a profile, with the target map of that profile where it is published.
pub record ProfileApplication : Type 0 where
  pub approval_token : String
  pub is_previewed : Bool
  pub published : Option Intents
  pub operation_id : Option String

-- The exceptions that keep the targets which the profile does not have.
abbrev pub kept_exception :
    String → String → Option UserAssignmentException → UserAssignmentException
kept_exception actor target none = new_exception actor target include
kept_exception actor target (some e) = record e { assignment_mode = include; updated_by = actor }

unfoldable pub keep_targets :
    String → List String → List UserAssignmentException → List UserAssignmentException
keep_targets actor [] exceptions = exceptions
keep_targets actor (target ∷ rest) exceptions =
    keep_targets actor rest
      (put_exception (kept_exception actor target (find_exception target exceptions)) exceptions)

abbrev pub outside : Intents → List String → List String
outside base targets = filter (λ target. not (is_some (intent target base))) targets

module _ (x : World) (detail : String) where
  abbrev pub assigned_profile : String → Intents → AssignmentWork → AssignmentWork
  assigned_profile actor base s = record s {
    profile = some base;
    exceptions =
        keep_targets actor (outside base (assigned_targets s.work.user.sync_states)) s.exceptions;
  }

  abbrev pub applied :
      ProfileApplication
      → AssignmentWork
      → Outcome AssignmentReply × AssignmentWork
      → Outcome AssignmentReply × ProfileApplication × AssignmentWork
  applied a before (returned (done id), s) =
      (returned (done id), record a { is_previewed = false; operation_id = some id }, s)
  applied a before (reply, s) = (reply, a, s)

  abbrev pub confirm_published :
      String
      → Option Intents
      → ProfileApplication
      → AssignmentWork
      → Outcome AssignmentReply × ProfileApplication × AssignmentWork
  confirm_published actor none a s = (returned rejected, a, s)
  confirm_published actor (some base) a s =
      applied a s
        (propagated x detail actor "assignment_profile.applied" s (assigned_profile actor base s))

  unfoldable pub profile_application_confirm :
      String
      → String
      → ProfileApplication
      → AssignmentWork
      → Outcome AssignmentReply × ProfileApplication × AssignmentWork
  unfolding keep_targets
  profile_application_confirm actor approval_token a s =
      if not (str_eq a.approval_token approval_token)
      then (returned rejected, a, s)
      else if not a.is_previewed
      then (returned handled, a, s)
      else confirm_published actor a.published a s
