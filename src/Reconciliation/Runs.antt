-- ===== src/Reconciliation/Runs.antt =====
-- na_sso/reconcile.py: `_assigned_pairs` and `refresh_reconciliation`.
use na_sso.Prelude.{
  ℕ, ◌+◌, ◌-◌, ◌*◌, ◌^◌, min, String, Bool, true, false, not, ◌&&◌, Option, none, some, List, [],
  ◌∷◌, ◌++◌, any, map, filter, length, ltb, leb, ◌==◌, str_eq, str_append, if◌then◌else◌,
}
use mathlib.Core.Option
use na_sso.Lifecycle.Values.{
  SyncStateValue, pending_disable, pending_chpw_disable, pending_expiry_disable,
}
use na_sso.Models.{is_root, SyncState, ManagedUser, AuditEvent}
use na_sso.Connectors.{
  ConnectorOperation, Connector, connector_for, lifecycle_operation_for, supports_operation,
  unsupported_operation_detail,
}
use na_sso.Reconciliation.{
  ReconciliationField, identity, DriftState, is_drift, ReconciliationStatus, drifted,
  FieldComparison, ReconciliationReport, report_status, mark_unsupported_operation,
}
use na_sso.Reconciliation.Approval.{discovering, previewed, retrying, failed, ReconciliationRun}

pub record ReconciliationPolicy : Type 0 where
  pub max_users_per_run : ℕ
  pub max_attempts : ℕ
  pub retry_base_seconds : ℕ
  pub retry_max_seconds : ℕ

pub record ReconciliationFinding : Type 0 where
  pub user_id : ℕ
  pub username : String
  pub target_id : String
  pub target_name : String
  pub field : ReconciliationField
  pub state : DriftState
  pub desired : Option String
  pub actual : Option String
  pub detail : String

-- A run and its findings.
pub record RunStore : Type 0 where
  pub run : Option ReconciliationRun
  pub findings : List ReconciliationFinding
  pub audit : List AuditEvent

-- An account on a target, with the memberships and the operation it is to get there.
pub record Pair : Type 0 where
  pub user : ManagedUser
  pub connector : Connector
  pub memberships : List String
  pub operation : ConnectorOperation

-- `accounts` is in the order of the query; `inspect_user` reads a target.
pub record RunWorld : Type 0 where
  pub policy : ReconciliationPolicy
  pub now : ℕ
  pub connectors : List Connector
  pub accounts : List ManagedUser
  pub intents : ManagedUser → String → Option (List String)
  pub inspect_user : Connector → ManagedUser → List String → ReconciliationReport
  pub counts_text : String → ℕ → ℕ → ℕ → String

abbrev pub is_disabling : SyncStateValue → Bool
is_disabling pending_disable = true
is_disabling pending_chpw_disable = true
is_disabling pending_expiry_disable = true
is_disabling _ = false

abbrev pub in_target_scope : Option String → String → Bool
in_target_scope none target = true
in_target_scope (some wanted) target = str_eq target wanted

abbrev pub in_user_scope : Option ℕ → ManagedUser → Bool
in_user_scope none user = true
in_user_scope (some id) user = user.id == id

abbrev pub finding : Pair → ReconciliationReport → FieldComparison → ReconciliationFinding
finding pair report item = record {
  user_id = pair.user.id;
  username = pair.user.username;
  target_id = pair.connector.target_id;
  target_name = report.target_name;
  field = item.field;
  state = item.state;
  desired = item.desired;
  actual = item.actual;
  detail = item.detail;
}

abbrev pub is_drifted : ReconciliationStatus → Bool
is_drifted drifted = true
is_drifted _ = false

abbrev pub is_unread : ReconciliationStatus → Bool
is_unread ReconciliationStatus.unknown = true
is_unread _ = false

abbrev is_identity : ReconciliationField → Bool
is_identity identity = true
is_identity _ = false

abbrev is_deletion : Option String → Bool
is_deletion none = false
is_deletion (some desired) = str_eq desired "absent"

-- The first identity field of a report.
abbrev pub is_destructive : List FieldComparison → Bool
is_destructive [] = false
is_destructive (item ∷ rest) =
    let later = is_destructive rest in
    if is_identity item.field then is_drift item.state && is_deletion item.desired else later

abbrev pub begun : ReconciliationRun → ReconciliationRun
begun run = record run { status = discovering; attempt_count = run.attempt_count + 1 }

module _ (x : RunWorld) where
  abbrev pub pair_with : ManagedUser → SyncState → Option Connector → List Pair
  pair_with user state none = []
  pair_with user state (some c) =
      record {
        user = user;
        connector = c;
        memberships = Option.get_or (x.intents user state.target) c.default_memberships;
        operation = lifecycle_operation_for user false (is_disabling state.state);
      }
      ∷ []

  unfoldable pub pairs_of : Option String → ManagedUser → List SyncState → List Pair
  pairs_of scope user [] = []
  pairs_of scope user (state ∷ rest) =
      (if state.assigned && not state.retired && in_target_scope scope state.target
        then pair_with user state (connector_for x.connectors state.target)
        else [])
      ++ pairs_of scope user rest

  unfoldable pub all_pairs : Option String → List ManagedUser → List Pair
  unfolding pairs_of
  all_pairs scope [] = []
  all_pairs scope (user ∷ rest) = pairs_of scope user user.sync_states ++ all_pairs scope rest

  -- None where the preview exceeds the limit.
  unfoldable pub assigned_pairs : ReconciliationRun → Option (List Pair)
  unfolding all_pairs
  assigned_pairs run =
      let users = filter (λ u. not (is_root u) && in_user_scope run.scope_user_id u) x.accounts in
      if ltb x.policy.max_users_per_run (length users)
      then none
      else some (all_pairs run.scope_target_id users)

  -- The report on a pair.
  unfoldable pub inspect : Pair → ReconciliationReport
  inspect pair =
      let report = x.inspect_user pair.connector pair.user pair.memberships in
      if supports_operation pair.connector pair.operation
      then report
      else mark_unsupported_operation report
          (unsupported_operation_detail pair.connector pair.operation)

  abbrev pub findings_of : Pair → List ReconciliationFinding
  findings_of pair = map (finding pair (inspect pair)) (inspect pair).fields

  unfoldable pub all_findings : List Pair → List ReconciliationFinding
  unfolding inspect
  all_findings [] = []
  all_findings (pair ∷ rest) = findings_of pair ++ all_findings rest

  unfoldable pub count : (ReconciliationReport → Bool) → List Pair → ℕ
  unfolding inspect
  count test [] = 0
  count test (pair ∷ rest) = (if test (inspect pair) then 1 else 0) + count test rest

  -- Whether a scheduled run is to be repeated, and when.
  abbrev pub scheduled_end : ℕ → ReconciliationRun → ReconciliationRun
  scheduled_end unread run =
      if str_eq run.source "scheduled" && ltb 0 unread
      then (if leb x.policy.max_attempts run.attempt_count
          then record run { status = failed; next_attempt_at = none }
          else record run {
            status = retrying;
            next_attempt_at = some (
                x.now
                + min (x.policy.retry_base_seconds * 2 ^ (run.attempt_count - 1))
                    x.policy.retry_max_seconds);
          })
      else record run { status = previewed; next_attempt_at = none }

  abbrev pub counted_run : List Pair → ReconciliationRun → ReconciliationRun
  counted_run pairs run = record run {
    total_targets = length pairs;
    drifted_targets = count (λ report. is_drifted (report_status report)) pairs;
    unknown_targets = count (λ report. is_unread (report_status report)) pairs;
    destructive_targets = count (λ report. is_destructive report.fields) pairs;
  }

  abbrev pub inspected : Option (List Pair) → ReconciliationRun → RunStore → RunStore
  inspected none run s = record s {
    run = some (record run { status = failed; next_attempt_at = none });
    findings = [];
  }
  inspected (some pairs) run s =
      let read = counted_run pairs run in
      record s {
        run = some (scheduled_end read.unknown_targets read);
        findings = all_findings pairs;
        audit =
            s.audit
            ++ record {
              actor = run.actor;
              action = "reconcile.previewed";
              subject = str_append "reconciliation:" run.id;
              detail =
                  x.counts_text run.source read.total_targets read.drifted_targets
                    read.unknown_targets;
              operation_id = none;
            }
              ∷ [];
      }

  abbrev pub refresh_found : Option ReconciliationRun → RunStore → RunStore
  refresh_found none s = s
  refresh_found (some run) s = inspected (assigned_pairs (begun run)) (begun run) s

  unfoldable pub refresh_reconciliation : RunStore → RunStore
  unfolding assigned_pairs all_findings count
  refresh_reconciliation s = refresh_found s.run s

-- `_repair_groups`: the accounts and targets that show drift, each one once, in the order of the rows.
abbrev pub same_group : ReconciliationFinding → Option (ℕ × String) → Bool
same_group row none = false
same_group row (some (user_id, target_id)) =
    row.user_id == user_id && str_eq row.target_id target_id

abbrev pub holds_group : ℕ × String → List (ℕ × String) → Bool
holds_group (user_id, target_id) groups = any (λ (u, t). u == user_id && str_eq t target_id) groups

-- The groups of the rows that come before are known.
unfoldable pub groups_after : List (ℕ × String) → List ReconciliationFinding → List (ℕ × String)
groups_after known [] = []
groups_after known (row ∷ rest) =
    let more = groups_after ((row.user_id, row.target_id) ∷ known) rest in
    let same = groups_after known rest in
    if is_drift row.state && not (holds_group (row.user_id, row.target_id) known)
    then (row.user_id, row.target_id) ∷ more
    else same

unfoldable pub repair_groups : List ReconciliationFinding → List (ℕ × String)
unfolding groups_after
repair_groups findings = groups_after [] findings
