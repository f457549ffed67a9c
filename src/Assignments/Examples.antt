-- ===== src/Assignments/Examples.antt =====
-- Runs of the assignments: a choice of targets, and a profile that names a target which is gone.
use na_sso.Prelude.{
  ◌≡◌, ◌≢◌, refl, sym, subst, String, true, ◌||◌, some, List, [], ◌∷◌, eq_iff, arith,
}
use na_sso.Outcome.{returned}
use na_sso.Lifecycle.Values.{SyncStateValue}
use na_sso.Connectors.{connector_for}
use na_sso.Samples.{work, calm, row, gitea}
use na_sso.Assignments.{
  inherit, UserAssignmentException, Intents, intent, contains, resolve_assignment_intents,
  put_intent, drop_intent, changed_memberships,
}
use na_sso.Assignments.Exceptions.{
  find_exception, put_exception, delete_exception, record_selected_target_exceptions,
}
use na_sso.Assignments.Resolve.{has, configured}
use na_sso.Assignments.Round.{record_selected_target_exceptions-resolve}
use na_sso.Assignments.Handlers.{AssignmentWork, done, assignment_exception_save}
use na_sso.Assignments.Unconfigured.{assignment_exception_save-stuck}

abbrev base : Intents
base = ("nexus", "staff" ∷ []) ∷ ("jenkins", []) ∷ []

abbrev on_nexus : UserAssignmentException
on_nexus = record {
  target_id = "nexus";
  assignment_mode = inherit;
  add_memberships = "dev" ∷ [];
  remove_memberships = [];
  updated_by = "root";
}

abbrev chosen : List String
chosen = "gitea" ∷ []

chosen-configured :
    (t : String) → contains chosen t ≡ true → (has t base || configured (gitea ∷ []) t) ≡ true
unfolding intent connector_for
chosen-configured t h =
    subst (λ v. (has v base || configured (gitea ∷ []) v) ≡ true)
      (sym ((eq_iff t "gitea").0 (ground arith))) refl

record_selected_target_exceptions-resolve_example :
    has "gitea" (
      resolve_assignment_intents
        (gitea ∷ [])
        (some base)
        (record_selected_target_exceptions "root" chosen (some base) (on_nexus ∷ []))
        [])
    ≡ true
unfolding find_exception
record_selected_target_exceptions-resolve_example =
    record_selected_target_exceptions-resolve (gitea ∷ []) "root" chosen base (on_nexus ∷ []) []
      (refl, tt) chosen-configured "gitea"

-- Of the three targets, the chosen one is left.
resolved :
    resolve_assignment_intents
      (gitea ∷ [])
      (some base)
      (record_selected_target_exceptions "root" chosen (some base) (on_nexus ∷ []))
      []
    ≡ ("gitea", []) ∷ []
unfolding resolve_assignment_intents record_selected_target_exceptions intent put_intent drop_intent
    find_exception put_exception delete_exception connector_for changed_memberships
resolved = refl

abbrev stale : AssignmentWork
stale = record {
  work = work (row "gitea" true SyncStateValue.ok ∷ []);
  profile = some (("gitea", []) ∷ ("gone", []) ∷ []);
  exceptions = [];
}

abbrev form : UserAssignmentException
form = record on_nexus { target_id = "gitea" }

assignment_exception_save-stuck_example :
    assignment_exception_save calm (λ t. true) "" form stale ≢ (returned (done "op-1"), stale)
unfolding intent connector_for find_exception
assignment_exception_save-stuck_example =
    assignment_exception_save-stuck calm "" "gone" refl stale (("gitea", []) ∷ ("gone", []) ∷ [])
      refl refl tt refl (λ t. true) form "op-1" stale
