-- ===== src/Reconciliation/Approval.antt =====
-- na_sso/reconcile.py: `approve_reconciliation`.
use na_sso.Prelude.{
  ℕ, ◌<◌, String, ◌≡◌, ◌≢◌, Bool, true, false, not, ◌&&◌, Option, none, some, List, [], ◌∷◌, ◌++◌,
  refl, ap, ltb, ◌==◌, str_eq, str_append, eq_iff, arith, if◌then◌else◌,
}
use na_sso.Models.{LifecycleOperation, AuditEvent}
use na_sso.Lifecycle.Values.{reconcile, queued}

-- `ReconciliationRun.status`
pub data RunStatus : Type 0 where
  discovering previewed retrying approved running completed partially_failed failed : RunStatus

-- The columns of a run that the code reads or writes, without the text of its detail.
pub record ReconciliationRun : Type 0 where
  pub id : String
  pub approval_token : String
  pub source : String
  pub status : RunStatus
  pub actor : String
  pub scope_user_id : Option ℕ
  pub scope_target_id : Option String
  pub total_targets : ℕ
  pub drifted_targets : ℕ
  pub unknown_targets : ℕ
  pub destructive_targets : ℕ
  pub attempt_count : ℕ
  pub next_attempt_at : Option ℕ
  pub operation_id : Option String

-- `code` of a ReconciliationApprovalError.
pub data ApprovalCode : Type 0 where
  not_found invalid_approval approval_already_handled nothing_to_repair : ApprovalCode
  destructive_confirmation_required : ApprovalCode

pub data Approval : Type 0 where
  granted : LifecycleOperation → Approval
  denied : ApprovalCode → Approval

pub record ApprovalStore : Type 0 where
  pub run : Option ReconciliationRun
  pub operations : List LifecycleOperation
  pub audit : List AuditEvent

abbrev pub is_previewed : RunStatus → Bool
is_previewed previewed = true
is_previewed _ = false

-- The unused key of an operation, and the text of the audit row.
module _ (new_id : String) (detail : ReconciliationRun → String) where
  abbrev pub reconcile_operation : String → ReconciliationRun → LifecycleOperation
  reconcile_operation actor run = record {
    id = new_id;
    user_id = none;
    command = reconcile;
    status = queued;
    actor = actor;
    subject = str_append "reconciliation:" run.id;
    requested_target = none;
    supersedes_id = none;
    total_targets = run.drifted_targets;
    completed_targets = 0;
    failed_targets = 0;
    detail = "";
    started_at = none;
    completed_at = none;
  }

  abbrev pub approved_store : String → ReconciliationRun → ApprovalStore → ApprovalStore
  approved_store actor run s = record s {
    run = some (record run { operation_id = some new_id; status = approved });
    operations = s.operations ++ reconcile_operation actor run ∷ [];
    audit =
        s.audit
        ++ record {
          actor = actor;
          action = "reconcile.approved";
          subject = str_append "reconciliation:" run.id;
          detail = detail run;
          operation_id = some new_id;
        }
          ∷ [];
  }

  abbrev pub approve_run :
      String → String → Bool → ReconciliationRun → ApprovalStore → Approval × ApprovalStore
  approve_run actor approval_token confirm_destructive run s =
      if not (str_eq approval_token run.approval_token)
      then (denied invalid_approval, s)
      else if not (is_previewed run.status)
      then (denied approval_already_handled, s)
      else if run.drifted_targets == 0
      then (denied nothing_to_repair, s)
      else if ltb 0 run.destructive_targets && not confirm_destructive
      then (denied destructive_confirmation_required, s)
      else (granted (reconcile_operation actor run), approved_store actor run s)

  abbrev pub approve_found :
      String → String → Bool → Option ReconciliationRun → ApprovalStore → Approval × ApprovalStore
  approve_found actor approval_token confirm_destructive none s = (denied not_found, s)
  approve_found actor approval_token confirm_destructive (some run) s =
      approve_run actor approval_token confirm_destructive run s

  unfoldable pub approve_reconciliation :
      String → String → Bool → ApprovalStore → Approval × ApprovalStore
  approve_reconciliation actor approval_token confirm_destructive s =
      approve_found actor approval_token confirm_destructive s.run s

-- What a granted approval rests on, and what it does.
pub record IsApproved (new_id approval_token : String) (confirm_destructive : Bool)
    (s : ApprovalStore) (o : LifecycleOperation) (s' : ApprovalStore) : Type 0 where
  pub run : ReconciliationRun
  pub found : s.run ≡ some run
  pub token : approval_token ≡ run.approval_token
  pub was_previewed : is_previewed run.status ≡ true
  pub drift : 0 < run.drifted_targets
  pub confirmed : 0 < run.destructive_targets → confirm_destructive ≡ true
  pub for_all : o.total_targets ≡ run.drifted_targets
  pub recorded : s'.operations ≡ s.operations ++ o ∷ []
  pub once :
      (new_id' token' actor' : String) (detail' : ReconciliationRun → String) (confirm' : Bool)
      (o' : LifecycleOperation)
      → (approve_reconciliation new_id' detail' actor' token' confirm' s').0 ≢ granted o'

approved_once :
    (run : ReconciliationRun) (s : ApprovalStore)
    → s.run ≡ some run
    → is_previewed run.status ≡ false
    → (new_id token actor : String) (detail : ReconciliationRun → String) (confirm : Bool)
      (o : LifecycleOperation)
    → (approve_reconciliation new_id detail actor token confirm s).0 ≢ granted o
unfolding approve_reconciliation
approved_once run s found handled new_id token actor detail confirm o e = ground arith

approve_found-IsApproved :
    (new_id : String) (detail : ReconciliationRun → String) (actor token : String) (confirm : Bool)
    (found : Option ReconciliationRun) (s s' : ApprovalStore) (o : LifecycleOperation)
    → s.run ≡ found
    → approve_found new_id detail actor token confirm found s ≡ (granted o, s')
    → IsApproved new_id token confirm s o s'
approve_found-IsApproved new_id detail actor token confirm none s s' o found e =
    absurd (ground arith)
approve_found-IsApproved new_id detail actor token confirm (some run) s s' o found e =
    let same : token ≡ run.approval_token = ground (arith, eq_iff token run.approval_token) in
    let after : s' ≡ approved_store new_id detail actor run s = ground arith in
    record {
      run = run;
      found = found;
      token = same;
      was_previewed = ground arith;
      drift = ground arith;
      confirmed = λ d. ground arith;
      for_all = ground arith;
      recorded = ground arith;
      once =
          approved_once (record run { operation_id = some new_id; status = approved }) s'
            (ap (λ t. t.run) after) refl;
    }

-- A repair is approved only with the token of a preview that was not handled yet, that found drift, and whose
-- remote deletions, if it has any, are confirmed; its operation stands for every drifted target, and no later
-- approval of the run, with whatever token and confirmation, is granted.
pub approve_reconciliation-IsApproved :
    (new_id : String) (detail : ReconciliationRun → String) (actor token : String) (confirm : Bool)
    (s s' : ApprovalStore) (o : LifecycleOperation)
    → approve_reconciliation new_id detail actor token confirm s ≡ (granted o, s')
    → IsApproved new_id token confirm s o s'
unfolding approve_reconciliation
approve_reconciliation-IsApproved new_id detail actor token confirm s s' o e =
    approve_found-IsApproved new_id detail actor token confirm s.run s s' o refl e
