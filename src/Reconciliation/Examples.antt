-- ===== src/Reconciliation/Examples.antt =====
-- Runs of the reconciliation: an account on a target, drifted and not.
use na_sso.Prelude.{◌≡◌, ◌≢◌, ◌↔◌, refl, true, false, none, some, [], ◌∷◌, length}
use na_sso.Lifecycle.Values.{SyncStateValue}
use na_sso.Models.{is_root, ManagedUser}
use na_sso.Connectors.{connector_for, lifecycle_operation_for, supports_operation}
use na_sso.Samples.{alice, row, gitea}
use na_sso.Reconciliation.{drifted, InspectionCapabilities, RemoteIdentitySnapshot, report_status}
use na_sso.Reconciliation.Report.{desired_present, compare_snapshot}
use na_sso.Reconciliation.Sync.{Agrees, compare_snapshot-Agrees, compare_snapshot-missing}
use na_sso.Reconciliation.Approval.{
  previewed, discovering, ReconciliationRun, ApprovalStore, IsApproved, reconcile_operation,
  approved_store, approve_reconciliation, approve_reconciliation-IsApproved,
}
use na_sso.Reconciliation.Runs.{
  RunStore, Pair, RunWorld, refresh_reconciliation, assigned_pairs, repair_groups,
}
use na_sso.Reconciliation.Preview.{refresh_reconciliation-drifted_targets}

abbrev user : ManagedUser
user = alice (row "gitea" true SyncStateValue.ok ∷ [])

abbrev capabilities : InspectionCapabilities
capabilities = record {
  display_name = true;
  email = true;
  status = true;
  memberships = true;
  public_key = false;
  memberships_exact = false;
}

abbrev seen : RemoteIdentitySnapshot
seen = record {
  present = some true;
  username = some "alice";
  display_name = some "Alice";
  email = some "alice@example.org";
  status = some "active";
  memberships = some ("staff" ∷ "dev" ∷ []);
  public_key_fingerprints = none;
}

abbrev missing : RemoteIdentitySnapshot
missing = record {
  present = some false;
  username = none;
  display_name = none;
  email = none;
  status = none;
  memberships = none;
  public_key_fingerprints = none;
}

compare_snapshot-Agrees_example : Agrees user [] capabilities seen ("dev" ∷ [])
unfolding compare_snapshot report_status desired_present
compare_snapshot-Agrees_example =
    compare_snapshot-Agrees "gitea" "Gitea" user [] capabilities seen ("dev" ∷ []) refl (λ e. cc)
      refl

abbrev named_absent : ManagedUser
named_absent = record user { username = "absent" }

compare_snapshot-missing_example :
    (report_status (compare_snapshot "gitea" "Gitea" named_absent [] capabilities missing [])
      ≡ drifted)
    ↔ (named_absent.username ≢ "absent")
unfolding desired_present
compare_snapshot-missing_example =
    compare_snapshot-missing "gitea" "Gitea" named_absent [] capabilities missing [] refl refl

abbrev run : ReconciliationRun
run = record {
  id = "r";
  approval_token = "token";
  source = "manual";
  status = previewed;
  actor = "root";
  scope_user_id = none;
  scope_target_id = none;
  total_targets = 2;
  drifted_targets = 1;
  unknown_targets = 0;
  destructive_targets = 1;
  attempt_count = 1;
  next_attempt_at = none;
  operation_id = none;
}

abbrev store : ApprovalStore
store = record { run = some run; operations = []; audit = [] }

approve_reconciliation-IsApproved_example :
    IsApproved "op-1" "token" true store
      (reconcile_operation "op-1" (λ r. "") "root" run)
      (approved_store "op-1" (λ r. "") "root" run store)
unfolding approve_reconciliation
approve_reconciliation-IsApproved_example =
    approve_reconciliation-IsApproved "op-1" (λ r. "") "root" "token" true store
      (approved_store "op-1" (λ r. "") "root" run store)
      (reconcile_operation "op-1" (λ r. "") "root" run) refl

abbrev world : RunWorld
world = record {
  policy = record {
    max_users_per_run = 10;
    max_attempts = 3;
    retry_base_seconds = 30;
    retry_max_seconds = 3600;
  };
  now = 1000;
  connectors = gitea ∷ [];
  accounts = user ∷ [];
  intents = λ u target. none;
  inspect_user = λ c u required.
      compare_snapshot c.target_id c.display_name u [] capabilities missing required;
  counts_text = λ source total drifted unread. "";
}

abbrev fresh : RunStore
fresh = record { run = some (record run { status = discovering }); findings = []; audit = [] }

abbrev pair : Pair
pair = record {
  user = user;
  connector = gitea;
  memberships = [];
  operation = lifecycle_operation_for user false false;
}

refresh_reconciliation-drifted_targets_example :
    (after : ReconciliationRun) × ((refresh_reconciliation world fresh).run ≡ some after)
    × (after.drifted_targets ≡ length (repair_groups (refresh_reconciliation world fresh).findings))
unfolding assigned_pairs connector_for is_root
refresh_reconciliation-drifted_targets_example =
    refresh_reconciliation-drifted_targets world (record run { status = discovering }) (pair ∷ [])
      fresh refl refl (tt, tt)

-- The missing account is the one group of the repair.
one_group : repair_groups (refresh_reconciliation world fresh).findings ≡ (7, "gitea") ∷ []
unfolding repair_groups refresh_reconciliation connector_for is_root lifecycle_operation_for
    supports_operation compare_snapshot
one_group = refl
